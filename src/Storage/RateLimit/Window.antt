-- ===== src/Storage/RateLimit/Window.antt =====
-- How long a count lasts, and whom it counts.
use promptmeter.Prelude.{
  ℕ, zero, suc, ◌+◌, ◌-◌, ◌≤◌, ◌<◌, ◌≡◌, ◌≢◌, inl, inr, refl, sym, ap, ◌∙◌, Bool, true, none, some,
  List, [], ◌∷◌, Str, leb, arith, length, Option-cases, get_elem?,
}
use promptmeter.Domain.Time.{Time, Duration}
use promptmeter.Storage.Redis.{Counters, IsCounters}
use promptmeter.Storage.RateLimit.{
  Verdict, verdict, check_rate_limit, ip_key, org_key, allow_ip, requests,
}

-- Each request comes within the window of the one before it.
abbrev pub IsBusy : Duration → Time → List Time → Type 0
IsBusy window t [] = Unit
IsBusy window t (u ∷ us) = (t ≤ u) × (u < t + window) × IsBusy window u us

-- The verdicts of a counter that stands at `n` and is never reset.
abbrev pub counted : ℕ → ℕ → ℕ → List Bool
counted limit n zero = []
counted limit n (suc k) = leb (n + 1) limit ∷ counted limit (n + 1) k

module _ {S : Type 0} (c : Counters S) (laws : IsCounters c) (key : Str) (limit : ℕ)
    (window : Duration) where
  requests-∷ :
      (t : Time) (ts : List Time) (s s' : S) (n : ℕ)
      → c.incr_expire s key t window ≡ some (n, s')
      → (requests c key limit window (t ∷ ts) s).0
        ≡ leb (c.live s key t + 1) limit ∷ (requests c key limit window ts s').0
  unfolding requests check_rate_limit
  requests-∷ t ts s s' n e = rw (requests, e) (rw (sym (laws.incr s key t window n s' e)) refl)

  requests-counted :
      ((s : S) (t : Time) → c.incr_expire s key t window ≢ none)
      → (t : Time) (ts : List Time) (s : S) → IsBusy window t ts
      → (requests c key limit window (t ∷ ts) s).0
        ≡ counted limit (c.live s key t) (suc (length ts))
  unfolding requests
  requests-counted works t [] s busy = elim (Option-cases (c.incr_expire s key t window)) [
    | inl e ↦ absurd (works s t e)
    | inr ((n, s'), e) ↦ requests-∷ t [] s s' n e
  ]
  requests-counted works t (u ∷ us) s (t-le-u, u-lt, busy) =
      elim (Option-cases (c.incr_expire s key t window)) [
        | inl e ↦ absurd (works s t e)
        | inr ((n, s'), e) ↦
            requests-∷ t (u ∷ us) s s' n e
            ∙ ap (λ rest. leb (c.live s key t + 1) limit ∷ rest)
                (requests-counted works u us s' busy
                  ∙ ap (λ k. counted limit k (suc (length us)))
                      (laws.kept s key t u window n s' e t-le-u u-lt
                        ∙ laws.incr s key t window n s' e))
      ]

-- The verdicts of a counter are yes for its first `limit` requests, and no from then on.
counted-get_elem? :
    (limit n k i : ℕ) → i < k → get_elem? (counted limit n k) i ≡ some (leb (n + i + 1) limit)
counted-get_elem? limit n zero i h = absurd (omega arith)
counted-get_elem? limit n (suc k) zero h = ap (λ m. some (leb m limit)) (omega arith)
counted-get_elem? limit n (suc k) (suc i) h =
    counted-get_elem? limit (n + 1) k i (omega arith) ∙ ap (λ m. some (leb m limit)) (omega arith)

-- While Redis works and each request comes within the window of the one before it, the count is
-- never reset: the request at index `i` is allowed exactly if `i + 1` more than the count shown at
-- the first is at most the limit, however long ago the first one was.
pub requests-get_elem? :
    {S : Type 0} (c : Counters S) (laws : IsCounters c) (key : Str) (limit : ℕ) (window : Duration)
    (works : (s : S) (t : Time) → c.incr_expire s key t window ≢ none) (t : Time) (ts : List Time)
    (s : S) (i : ℕ)
    → IsBusy window t ts
    → i < suc (length ts)
    → get_elem? (requests c key limit window (t ∷ ts) s).0 i
      ≡ some (leb (c.live s key t + i + 1) limit)
requests-get_elem? c laws key limit window works t ts s i busy h =
    ap (λ vs. get_elem? vs i) (requests-counted c laws key limit window works t ts s busy)
    ∙ counted-get_elem? limit (c.live s key t) (suc (length ts)) i h

check_rate_limit-some :
    {S : Type 0} (c : Counters S) (laws : IsCounters c) (key : Str) (limit : ℕ) (window : Duration)
    (now later : Time) (s s' : S) (v : Verdict)
    → check_rate_limit c key limit window now later s ≡ some (v, s')
    → (c.incr_expire s key now window ≡ some (c.live s key now + 1, s'))
      × (v ≡ verdict limit (c.live s key now + 1) (later + window))
unfolding check_rate_limit
check_rate_limit-some {S} c laws key limit window now later s s' v e =
    elim (Option-cases (c.incr_expire s key now window)) [
      | inl g ↦
          let fails : check_rate_limit c key limit window now later s ≡ none =
            rw (check_rate_limit, g) refl in
          absurd (cc)
      | inr ((n, s1), g) ↦
          let gives : check_rate_limit c key limit window now later s
              ≡ some (verdict limit n (later + window), s1) =
            rw (check_rate_limit, g) refl in
          let shows = laws.incr s key now window n s1 g in (cc, cc)
    ]

first-verdict :
    (limit : ℕ) (reset_at : Time)
    → 1 ≤ limit
    → verdict limit 1 reset_at
      ≡ record { allowed = true; remaining = limit - 1; reset_at = reset_at }
first-verdict limit reset_at one = ground arith

-- Once a window has passed since an IP's last request, its next one is the first of a new count:
-- with a limit of at least 1 it is allowed, `limit - 1` remain, and the reset is a window later.
pub allow_ip-expired :
    {S : Type 0} (c : Counters S) (laws : IsCounters c) (ip : Str) (limit : ℕ) (window : Duration)
    (t u : Time) (s s' s'' : S) (v w : Verdict)
    → 1 ≤ limit
    → allow_ip c ip limit window t t s ≡ some (v, s')
    → t + window ≤ u
    → allow_ip c ip limit window u u s' ≡ some (w, s'')
    → w ≡ record { allowed = true; remaining = limit - 1; reset_at = u + window }
unfolding allow_ip check_rate_limit
allow_ip-expired c laws ip limit window t u s s' s'' v w one e quiet f =
    let (spent, _) = check_rate_limit-some c laws (ip_key ip) limit window t t s s' v e in
    let (_, w-is) = check_rate_limit-some c laws (ip_key ip) limit window u u s' s'' w f in
    w-is
    ∙ ap (λ n. verdict limit (n + 1) (u + window))
        (laws.expired s (ip_key ip) t u window _ s' spent quiet)
    ∙ first-verdict limit (u + window) one

abbrev fourth : Str → ℕ
fourth (_ ∷ _ ∷ _ ∷ x ∷ _) = x
fourth _ = 0

ip_key-org_key-distinct : (ip org_id : Str) → ip_key ip ≢ org_key org_id
unfolding ip_key org_key
ip_key-org_key-distinct ip org_id e = absurd (omega (arith, ap fourth e))

-- What an IP sends never changes the count of an organisation.
pub allow_ip-org_key :
    {S : Type 0} (c : Counters S) (laws : IsCounters c) (ip org_id : Str) (limit : ℕ)
    (window : Duration) (now later t : Time) (s s' : S) (v : Verdict)
    → allow_ip c ip limit window now later s ≡ some (v, s')
    → c.live s' (org_key org_id) t ≡ c.live s (org_key org_id) t
unfolding allow_ip check_rate_limit
allow_ip-org_key c laws ip org_id limit window now later t s s' v e =
    let (spent, _) = check_rate_limit-some c laws (ip_key ip) limit window now later s s' v e in
    laws.apart s (ip_key ip) (org_key org_id) now t window _ s' spent
      (ip_key-org_key-distinct ip org_id)
