-- ===== src/Storage/RateLimit.antt =====
-- The rate limiter of server/internal/storage/redis.go.
pub mod Window
use promptmeter.Prelude.{
  ℕ, ◌+◌, ◌-◌, Bool, Option, none, some, List, [], ◌∷◌, ◌++◌, Str, lit, leb, if◌then◌else◌,
}
use promptmeter.Domain.Time.{Time, Duration}
use promptmeter.Storage.Redis.{Counters}

pub record Verdict : Type 0 where
  pub allowed : Bool
  pub remaining : ℕ
  pub reset_at : Time

-- `limit - count`, and 0 where that is negative.
abbrev pub verdict : ℕ → ℕ → Time → Verdict
verdict limit count reset_at = record {
  allowed = leb count limit;
  remaining = limit - count;
  reset_at = reset_at;
}

unfoldable pub ip_key : Str → Str
ip_key ip = lit "rl:ip:" ++ ip

unfoldable pub org_key : Str → Str
org_key org_id = lit "rl:org:" ++ (org_id ++ lit ":ingestion")

module _ {S : Type 0} (c : Counters S) where
  -- checkRateLimit; `none` is an error. `now` is Redis's time, `later` that of the second reading.
  unfoldable pub check_rate_limit : Str → ℕ → Duration → Time → Time → S → Option (Verdict × S)
  check_rate_limit key limit window now later s = elim (c.incr_expire s key now window) [
    | none ↦ none
    | some (count, s') ↦ some (verdict limit count (later + window), s')
  ]

  unfoldable pub allow_ip : Str → ℕ → Duration → Time → Time → S → Option (Verdict × S)
  unfolding check_rate_limit ip_key
  allow_ip ip = check_rate_limit (ip_key ip)

  unfoldable pub allow_org : Str → ℕ → Duration → Time → Time → S → Option (Verdict × S)
  unfolding check_rate_limit org_key
  allow_org org_id = check_rate_limit (org_key org_id)

  -- The requests of one client at the given times: its verdicts, in order, and the counters then.
  -- The list ends where Redis fails.
  unfoldable pub requests : Str → ℕ → Duration → List Time → S → List Bool × S
  unfolding check_rate_limit
  requests key limit window [] s = ([], s)
  requests key limit window (t ∷ ts) s = elim (check_rate_limit key limit window t t s) [
    | none ↦ ([], s)
    | some (v, s') ↦ let (rest, s'') = requests key limit window ts s' in (v.allowed ∷ rest, s'')
  ]
