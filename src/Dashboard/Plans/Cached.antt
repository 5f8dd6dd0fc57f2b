-- ===== src/Dashboard/Plans/Cached.antt =====
-- What the cache does to the handlers' answers: a repeated request, and one of another organisation.
use promptmeter.Prelude.{
  ◌+◌, ◌*◌, ◌<◌, ◌≡◌, ◌≢◌, refl, sym, ◌∙◌, true, false, Option, none, some, Str, str_eq, str_eq_iff,
  str_eq_refl, arith, Bool-cases, inl, inr,
}
use promptmeter.Domain.Time.{Time, Duration, second}
use promptmeter.Storage.Redis.{Cache, IsCache}
use promptmeter.Storage.AnswerCache.{got_cached, get_cached, set_cached}
use promptmeter.Storage.Reader.{Ask}
use promptmeter.Dashboard.CacheKey.Shared.{IsColonFree, cache_key-apart}
use promptmeter.Dashboard.Params.{Request}
use promptmeter.Dashboard.Answers.{Payload, Reply, Plan, answer, unless_cached, run_plan}
use promptmeter.Dashboard.Plans.{Libraries}
use promptmeter.Dashboard.Plans.Costs.{Endpoint, plan_of, handle}
use promptmeter.Dashboard.Plans.Alike.{IsAlike, IsKeyOf, plan_of-IsAlike}

module _ {S : Type 0} (c : Cache S Str) (marshal : Time → Payload → Str) where
  -- An answer that was not cached before is cached then.
  unless_cached-miss :
      (k : Str) (ttl : Duration) (now : Time) (s s' : S) (o : Option Str) (p : Option Payload)
      (body : Str)
      → unless_cached c marshal k ttl now s o p ≡ (Reply.miss body, s')
      → s' ≡ (c.set s k body now ttl).1
  unfolding unless_cached set_cached
  unless_cached-miss k ttl now s s' (some text) p body e = absurd (cc)
  unless_cached-miss k ttl now s s' none none body e = absurd (cc)
  unless_cached-miss k ttl now s s' none (some payload) body e = cc

module _ {S : Type 0} (c : Cache S Str) (law : IsCache c) (marshal marshal' : Time → Payload → Str)
    (now t : Time) (lib : Libraries) where
  pub alike-hit :
      (org : Str) (plan plan' : Plan) (ask ask' : Ask) (s s' : S) (body : Str)
      → IsAlike lib org plan plan'
      → ((k : Str) (ttl : Duration) → (c.set s k body now ttl).0 ≡ true)
      → t < now + 60 * second
      → run_plan c marshal plan ask now s ≡ (Reply.miss body, s')
      → (run_plan c marshal' plan' ask' t s').0 ≡ Reply.hit body
  unfolding run_plan get_cached unless_cached got_cached
  alike-hit org Plan.bad_request plan' ask ask' s s' body alike works soon e = absurd (cc)
  alike-hit org (Plan.ready k ttl read) Plan.bad_request ask ask' s s' body alike works soon e =
      absurd alike
  alike-hit org (Plan.ready k ttl read) (Plan.ready j time read') ask ask' s s' body alike works
        soon e =
      let (same_key, same_ttl, long, keyed) = alike in
      let written = unless_cached-miss c marshal k ttl now s s' _ _ body e in
      let held = law.set_live s k k body now t ttl (works k ttl) (omega arith) in
      rw (sym same_key, written, held, str_eq_refl k) refl

  -- An answer that was read and cached without an error is given again for a minute, to every request
  -- with the same parameters at the same endpoint, whatever the database holds then.
  pub handle-hit :
      (endpoint : Endpoint) (r : Request) (ask ask' : Ask) (s s' : S) (body : Str)
      → ((k : Str) (ttl : Duration) → (c.set s k body now ttl).0 ≡ true)
      → t < now + 60 * second
      → handle lib c marshal endpoint r ask now s ≡ (Reply.miss body, s')
      → (handle lib c marshal' endpoint r ask' t s').0 ≡ Reply.hit body
  unfolding handle
  handle-hit endpoint r ask ask' s s' body works soon e =
      alike-hit r.org_id _ _ ask ask' s s' body (plan_of-IsAlike lib r now t endpoint) works soon e

module _ {S : Type 0} (c : Cache S Str) (law : IsCache c) (marshal : Time → Payload → Str) where
  -- A handler writes to its own key only.
  unless_cached-apart :
      (k j : Str) (ttl : Duration) (now t : Time) (s : S) (o : Option Str) (p : Option Payload)
      → ((body : Str) → (c.set s k body now ttl).0 ≡ true)
      → t < now + ttl
      → str_eq k j ≡ false
      → c.get (unless_cached c marshal k ttl now s o p).1 j t ≡ c.get s j t
  unfolding unless_cached answer set_cached
  unless_cached-apart k j ttl now t s (some body) p works soon other = refl
  unless_cached-apart k j ttl now t s none none works soon other = refl
  unless_cached-apart k j ttl now t s none (some payload) works soon other =
      let body = marshal now payload in
      law.set_live s k j body now t ttl (works body) soon ∙ rw other refl

  unless_cached-reply :
      (k : Str) (ttl : Duration) (t : Time) (s s' : S) (o : Option Str) (p : Option Payload)
      → (unless_cached c marshal k ttl t s o p).0 ≡ (unless_cached c marshal k ttl t s' o p).0
  unfolding unless_cached answer
  unless_cached-reply k ttl t s s' (some body) p = refl
  unless_cached-reply k ttl t s s' none none = refl
  unless_cached-reply k ttl t s s' none (some payload) = refl

keys-apart :
    (lib : Libraries) (org org' k k' : Str)
    → IsColonFree org
    → IsColonFree org'
    → org ≢ org'
    → IsKeyOf lib org k
    → IsKeyOf lib org' k'
    → str_eq k k' ≡ false
keys-apart lib org org' k k' free free' differ (e, ps, key, plain) (e', ps', key', plain') =
    elim (Bool-cases (str_eq k k')) [
      | inl same ↦ absurd (
          differ
            (cache_key-apart lib.sha256 org org' e e' ps ps' free free' plain plain'
              (sym key ∙ (str_eq_iff k k').0 same ∙ key')).0)
      | inr other ↦ other
    ]

module _ {S : Type 0} (c : Cache S Str) (law : IsCache c) (marshal : Time → Payload → Str)
    (lib : Libraries) (now t : Time) where
  alike-apart :
      (org org' : Str) (plan plan' : Plan) (ask ask' : Ask) (s : S)
      → IsColonFree org
      → IsColonFree org'
      → org ≢ org'
      → IsAlike lib org plan plan
      → IsAlike lib org' plan' plan'
      → ((k body : Str) (ttl : Duration) → (c.set s k body now ttl).0 ≡ true)
      → t < now + 60 * second
      → (run_plan c marshal plan' ask' t (run_plan c marshal plan ask now s).1).0
        ≡ (run_plan c marshal plan' ask' t s).0
  unfolding run_plan get_cached
  alike-apart org org' Plan.bad_request plan' ask ask' s free free' differ _ _ works soon = refl
  alike-apart org org' (Plan.ready k ttl read) Plan.bad_request ask ask' s free free' differ _ _
        works soon =
      refl
  alike-apart org org' (Plan.ready k ttl read) (Plan.ready j time read') ask ask' s free free'
        differ (_, _, long, keyed) (_, _, _, keyed') works soon =
      rw
        (unless_cached-apart c law marshal k j ttl now t s (get_cached c s k now).0 (read ask)
          (λ body. works k body ttl) (omega arith)
          (keys-apart lib org org' k j free free' differ keyed keyed'))
        (unless_cached-reply c law marshal j time t _ s _ (read' ask'))

  -- A request of one organisation, whose answer is cached without an error, leaves the answer to any
  -- request of another organisation as it was, at every endpoint and for the next minute: what is
  -- cached for one is not shown to the other. The organisations have no colon in their names.
  pub handle-apart :
      (endpoint endpoint' : Endpoint) (r r' : Request) (ask ask' : Ask) (s : S)
      → IsColonFree r.org_id
      → IsColonFree r'.org_id
      → r.org_id ≢ r'.org_id
      → ((k body : Str) (ttl : Duration) → (c.set s k body now ttl).0 ≡ true)
      → t < now + 60 * second
      → (handle lib c marshal endpoint' r' ask' t (handle lib c marshal endpoint r ask now s).1).0
        ≡ (handle lib c marshal endpoint' r' ask' t s).0
  unfolding handle
  handle-apart endpoint endpoint' r r' ask ask' s free free' differ works soon =
      alike-apart r.org_id r'.org_id (plan_of lib endpoint r now) (plan_of lib endpoint' r' t) ask
        ask' s free free' differ (plan_of-IsAlike lib r now now endpoint)
        (plan_of-IsAlike lib r' t t endpoint') works soon
