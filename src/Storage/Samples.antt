-- ===== src/Storage/Samples.antt =====
-- Counters and a cache that functions hold; they behave as Redis is documented to.
use promptmeter.Prelude.{
  ℕ, ◌+◌, ◌≡◌, refl, sym, ap, ◌∙◌, true, false, Option, none, some, Str, arith, str_eq, str_eq_iff,
  str_eq_refl, ltb, if◌then◌else◌, Bool-cases, inl, inr,
}
use promptmeter.Domain.Time.{Time, Duration}
use promptmeter.Storage.Redis.{Got, Cache, IsCache, IsCounters, CounterState, shown, held_counters}

str_eq-false : (k j : Str) → ¬ (k ≡ j) → str_eq k j ≡ false
str_eq-false k j differ = elim (Bool-cases (str_eq k j)) [
  | inl e ↦ absurd (differ ((str_eq_iff k j).0 e))
  | inr e ↦ e
]

abbrev outcome : Option (ℕ × CounterState) → ℕ × CounterState
outcome none = (0, λ k. none)
outcome (some r) = r

module _ (s : CounterState) (k : Str) (now : Time) (w : Duration) (n : ℕ) (s' : CounterState)
    (e : held_counters.incr_expire s k now w ≡ some (n, s')) where
  incremented : n ≡ shown (s k) now + 1
  incremented = sym (ap (λ o. (outcome o).0) e)

  shown_after :
      (j : Str) (t : Time)
      → shown (s' j) t ≡ shown (if str_eq k j then some (shown (s k) now + 1, now + w) else s j) t
  shown_after j t = sym (ap (λ o. shown ((outcome o).1 j) t) e)

  shown_same : (t : Time) → shown (s' k) t ≡ (if ltb t (now + w) then shown (s k) now + 1 else 0)
  shown_same t = shown_after k t ∙ rw (str_eq_refl k) refl

pub held_counters-IsCounters : IsCounters held_counters
held_counters-IsCounters = record {
  incr = λ s k now w n s' e. incremented s k now w n s' e;
  kept = λ s k now t w n s' e h l.
      shown_same s k now w n s' e t ∙ ground (arith, l) ∙ sym (incremented s k now w n s' e);
  expired = λ s k now t w n s' e h. shown_same s k now w n s' e t ∙ ground (arith, h);
  apart = λ s k j now t w n s' e d. shown_after s k now w n s' e j t ∙ rw (str_eq-false k j d) refl;
}

-- A value and the time at which it expires.
abbrev pub CacheState : Type 0
CacheState = Str → Option (Str × Time)

abbrev pub read_held : Option (Str × Time) → Time → Got Str
read_held none t = Got.missing
read_held (some (v, until)) t = if ltb t until then Got.found v else Got.missing

abbrev pub held_cache : Cache CacheState Str
held_cache = record {
  get = λ s k t. read_held (s k) t;
  set = λ s k v now ttl. (true, λ j. if str_eq k j then some (v, now + ttl) else s j);
  del = λ s k. (true, λ j. if str_eq k j then none else s j);
}

pub held_cache-IsCache : IsCache held_cache
held_cache-IsCache = record {
  set_live = λ s k j v now t ttl h l. elim (Bool-cases (str_eq k j)) [
    | inl e ↦ rw e (ground (arith, l))
    | inr e ↦ rw e refl
  ];
  del_gone = λ s k j t h. elim (Bool-cases (str_eq k j)) [ inl e ↦ rw e refl | inr e ↦ rw e refl ];
}
