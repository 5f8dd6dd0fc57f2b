-- ===== src/Storage/Redis.antt =====
-- Redis as the services use it: values that expire, and counters. Redis itself is a parameter.
use promptmeter.Prelude.{
  ℕ, ◌⊎◌, inl, inr, refl, ◌+◌, ◌≤◌, ◌<◌, ◌≡◌, Bool, true, Option, none, some, Str, str_eq, ltb,
  if◌then◌else◌,
}
use promptmeter.Domain.Time.{Time, Duration}

-- The reply to GET: an error, redis.Nil, or a value.
pub data Got (V : Type 0) : Type 0 where
  failed missing : Got V
  found : V → Got V

-- GET, SET with a TTL, and DEL, at a time; false is an error.
pub record Cache (S V : Type 0) : Type 0 where
  pub get : S → Str → Time → Got V
  pub set : S → Str → V → Time → Duration → Bool × S
  pub del : S → Str → Bool × S

-- The documented behaviour of SET and DEL that succeed.
pub record IsCache {S V : Type 0} (c : Cache S V) : Type 0 where
  pub set_live :
      (s : S) (k j : Str) (v : V) (now t : Time) (ttl : Duration)
      → (c.set s k v now ttl).0 ≡ true
      → t < now + ttl
      → c.get (c.set s k v now ttl).1 j t ≡ (if str_eq k j then Got.found v else c.get s j t)
  pub del_gone :
      (s : S) (k j : Str) (t : Time)
      → (c.del s k).0 ≡ true
      → c.get (c.del s k).1 j t ≡ (if str_eq k j then Got.missing else c.get s j t)

-- The pipeline INCR key, EXPIRE key window: the new count, or an error.
pub record Counters (S : Type 0) : Type 0 where
  pub incr_expire : S → Str → Time → Duration → Option (ℕ × S)
  -- the count that a key shows at a time, 0 if it has expired
  pub live : S → Str → Time → ℕ

-- Of a pipeline that does not fail: INCR adds one to what the key shows, EXPIRE keeps it for the
-- window from now, and other keys are left alone.
pub record IsCounters {S : Type 0} (c : Counters S) : Type 0 where
  pub incr :
      (s : S) (k : Str) (now : Time) (w : Duration) (n : ℕ) (s' : S)
      → c.incr_expire s k now w ≡ some (n, s')
      → n ≡ c.live s k now + 1
  pub kept :
      (s : S) (k : Str) (now t : Time) (w : Duration) (n : ℕ) (s' : S)
      → c.incr_expire s k now w ≡ some (n, s')
      → now ≤ t
      → t < now + w
      → c.live s' k t ≡ n
  pub expired :
      (s : S) (k : Str) (now t : Time) (w : Duration) (n : ℕ) (s' : S)
      → c.incr_expire s k now w ≡ some (n, s')
      → now + w ≤ t
      → c.live s' k t ≡ 0
  pub apart :
      (s : S) (k j : Str) (now t : Time) (w : Duration) (n : ℕ) (s' : S)
      → c.incr_expire s k now w ≡ some (n, s')
      → ¬ (k ≡ j)
      → c.live s' j t ≡ c.live s j t

-- Counters that a function holds: a count and the time at which it expires.
abbrev pub CounterState : Type 0
CounterState = Str → Option (ℕ × Time)

abbrev pub shown : Option (ℕ × Time) → Time → ℕ
shown none t = 0
shown (some (n, until)) t = if ltb t until then n else 0

abbrev pub held_counters : Counters CounterState
held_counters = record {
  incr_expire = λ s k now w.
      some
        (shown (s k) now + 1, λ j. if str_eq k j then some (shown (s k) now + 1, now + w) else s j);
  live = λ s k t. shown (s k) t;
}

pub Got-cases :
    {V : Type 0} (g : Got V)
    → (g ≡ Got.failed) ⊎ ((g ≡ Got.missing) ⊎ ((v : V) × (g ≡ Got.found v)))
Got-cases Got.failed = inl refl
Got-cases Got.missing = inr (inl refl)
Got-cases (Got.found v) = inr (inr (v, refl))
