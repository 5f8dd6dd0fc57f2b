-- ===== src/Dashboard/Plans/Exchanged.antt =====
-- Requests that differ in their filters and share a cached answer.
use promptmeter.Prelude.{
  ◌+◌, ◌*◌, ◌<◌, ◌≡◌, refl, sym, ◌∙◌, Bool, true, false, Option, none, some, [], ◌∷◌, Str, lit,
  str_eq, arith, Bool-cases, inl, inr, if◌then◌else◌,
}
use promptmeter.Domain.Time.{Time, Duration, second}
use promptmeter.Storage.Redis.{Cache, IsCache}
use promptmeter.Storage.Reader.{Ask}
use promptmeter.Dashboard.CacheKey.Shared.{all-IsColonFree, cache_key-exchange}
use promptmeter.Dashboard.Params.{
  Request, valid_period, valid_group_by, asked_period, asked_timezone, params_of,
  parse_dashboard_params,
}
use promptmeter.Dashboard.Answers.{Payload, Reply}
use promptmeter.Dashboard.Plans.{Libraries, asked_group, plan_breakdown_of, plan_breakdown}
use promptmeter.Dashboard.Plans.Costs.{Endpoint, plan_of, handle}
use promptmeter.Dashboard.Plans.Alike.{IsAlike, parse-cases}
use promptmeter.Dashboard.Plans.Cached.{alike-hit}

-- A request with a filter on the model and one on the provider.
abbrev pub filtered : Request → Str → Str → Request
filtered r model provider = record r {
  get = λ name.
      if str_eq name (lit "model")
      then model
      else if str_eq name (lit "provider")
      then provider
      else r.get name;
}

params_of-filtered :
    (o : Option Duration) (b : Bool) (r : Request) (x y x' y' : Str) (t : Time)
    → params_of o b (filtered r x y) t ≡ params_of o b (filtered r x' y') t
unfolding str_eq
params_of-filtered none b r x y x' y' t = refl
params_of-filtered (some dur) false r x y x' y' t = refl
params_of-filtered (some dur) true r x y x' y' t = refl

parse_dashboard_params-filtered :
    (known : Str → Bool) (r : Request) (x y x' y' : Str) (t : Time)
    → parse_dashboard_params known (filtered r x y) t
      ≡ parse_dashboard_params known (filtered r x' y') t
unfolding parse_dashboard_params str_eq
parse_dashboard_params-filtered known r x y x' y' t =
    params_of-filtered (valid_period (asked_period (filtered r x y)))
      (known (asked_timezone (filtered r x y))) r x y x' y' t

breakdown-exchange :
    (lib : Libraries) (r : Request) (x : Str) (now t : Time)
    → IsAlike lib r.org_id
        (plan_breakdown lib (filtered r x []) now)
        (plan_breakdown lib (filtered r [] x) t)
unfolding plan_breakdown plan_breakdown_of str_eq
breakdown-exchange lib r x now t =
    let same = parse_dashboard_params-filtered lib.load_location r [] x x [] t in
    elim (parse-cases lib.load_location (filtered r x []) now t) [
      | inl (e, f) ↦ rw (e, same ∙ f) tt
      | inr (p, q, period, e, f, shifted) ↦
          elim (Bool-cases (valid_group_by (asked_group lib (filtered r x [])))) [
            | inl valid ↦
                rw (e, same ∙ f, valid, sym shifted.project, sym shifted.timezone)
                  (
                    cache_key-exchange lib.sha256 r.org_id (lit "cost") x
                        (period ∷ p.project_id ∷ asked_group lib (filtered r x []) ∷ [])
                        (r.get (lit "feature") ∷ p.timezone ∷ []),
                    refl,
                    omega arith,
                    (lit "cost", _, refl, all-IsColonFree (lit "cost") refl),
                  )
            | inr bad ↦ rw (e, same ∙ f, bad) tt
          ]
    ]

-- The costs of a model are given as those of a provider: a breakdown that was read and cached without
-- an error for a filter on the model alone is given again for a minute to a request with the same
-- text as its filter on the provider alone and otherwise the same parameters, whatever the database
-- holds.
pub handle-exchange :
    {S : Type 0} (c : Cache S Str) (law : IsCache c) (marshal marshal' : Time → Payload → Str)
    (now t : Time) (lib : Libraries) (r : Request) (x : Str) (ask ask' : Ask) (s s' : S)
    (body : Str)
    → ((k : Str) (ttl : Duration) → (c.set s k body now ttl).0 ≡ true)
    → t < now + 60 * second
    → handle lib c marshal Endpoint.cost (filtered r x []) ask now s ≡ (Reply.miss body, s')
    → (handle lib c marshal' Endpoint.cost (filtered r [] x) ask' t s').0 ≡ Reply.hit body
unfolding handle plan_of
handle-exchange c law marshal marshal' now t lib r x ask ask' s s' body works soon e =
    alike-hit c law marshal marshal' now t lib r.org_id _ _ ask ask' s s' body
      (breakdown-exchange lib r x now t) works soon e
