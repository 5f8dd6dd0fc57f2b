-- ===== src/Ingestion/Middleware.antt =====
-- Authentication and rate limits before the handlers, server/internal/ingestion/middleware.go.
-- Redis, SHA-256 and encoding/json are parameters.
pub mod Admitted
use promptmeter.Prelude.{
  ℕ, ◌+◌, ◌-◌, ◌/◌, Bool, not, List, Option, none, some, Str, lit, str_eq, trim_prefix, is_empty,
  if◌then◌else◌,
}
use promptmeter.Auth.ApiKeyText.{hash_key, validate_format}
use promptmeter.Domain.ApiKey.{ApiKey, OrgTier, has_scope, is_revoked, rate_limit_for_tier}
use promptmeter.Domain.Time.{Time, Duration, second}
use promptmeter.Storage.ApiKeys.{Json, get_api_key_by_hash, get_cached_api_key, set_cached_api_key}
use promptmeter.Storage.RateLimit.{Verdict, allow_ip, allow_org}
use promptmeter.Storage.Redis.{Cache, Counters, Got}

-- What AuthMiddleware does with a request: the status that it answers, or the organisation and the
-- tier that it hands on.
pub data Admission : Type 0 where
  unauthorized forbidden internal_error : Admission
  admitted : Str → OrgTier → Admission

-- The checks from "Check revocation" on.
unfoldable pub judge : ApiKey → Admission
unfolding is_revoked has_scope
judge key =
    if is_revoked key
    then Admission.unauthorized
    else if not (has_scope key (lit "write"))
    then Admission.forbidden
    else Admission.admitted key.org_id key.tier

-- cacheTTL: five minutes, in nanoseconds.
abbrev pub cache_ttl : Duration
cache_ttl = 300000000000

module _ {S : Type 0} (c : Cache S Str) (json : Json) (sha256 : Str → List ℕ) where
  -- What PostgreSQL's answer leads to; a failed write to the cache is only logged.
  unfoldable pub from_store : Str → Time → S → Got ApiKey → Admission × S
  unfolding set_cached_api_key judge
  from_store key_hash now s Got.failed = (Admission.internal_error, s)
  from_store key_hash now s Got.missing = (Admission.unauthorized, s)
  from_store key_hash now s (Got.found key) =
      (judge key, (set_cached_api_key c json s key_hash key now cache_ttl).1)

  -- An error of the cache is taken for a miss.
  unfoldable pub from_cache : Str → Time → Bool → List ApiKey → S → Got ApiKey → Admission × S
  unfolding from_store get_api_key_by_hash judge
  from_cache key_hash now fails rows s (Got.found key) = (judge key, s)
  from_cache key_hash now fails rows s _ =
      from_store key_hash now s (get_api_key_by_hash fails rows key_hash)

  -- AuthMiddleware: the header Authorization, the time, whether PostgreSQL fails, its table, Redis.
  unfoldable pub authenticate : Str → Time → Bool → List ApiKey → S → Admission × S
  unfolding from_cache get_cached_api_key str_eq trim_prefix validate_format hash_key
  authenticate auth_header now fails rows s =
      let token = trim_prefix auth_header (lit "Bearer ") in
      let key_hash = hash_key sha256 token in
      if is_empty auth_header
      then (Admission.unauthorized, s)
      else if str_eq token auth_header
      then (Admission.unauthorized, s)
      else if not (validate_format token)
      then (Admission.unauthorized, s)
      else from_cache key_hash now fails rows s (get_cached_api_key c json s key_hash now)

-- setRateLimitHeaders; the header of the reset has it in Unix seconds.
pub record LimitHeaders : Type 0 where
  pub limit : ℕ
  pub remaining : ℕ
  pub reset : Time

-- What a rate limit does: `passed` calls the next handler, with or without headers, and `limited`
-- answers 429 with the seconds of Retry-After.
pub data LimitOutcome : Type 0 where
  passed : Option LimitHeaders → LimitOutcome
  limited : LimitHeaders → ℕ → LimitOutcome

unfoldable pub limit_headers : ℕ → Verdict → LimitHeaders
limit_headers limit v = record { limit = limit; remaining = v.remaining; reset = v.reset_at }

-- What is done with a limiter's answer, `none` being its error; the last two are the number in
-- Retry-After and the headers' limit.
unfoldable pub enforce :
    {S : Type 0} → ℕ → (Verdict → ℕ) → S → Option (Verdict × S) → LimitOutcome × S
unfolding limit_headers
enforce limit retry_after s none = (LimitOutcome.passed none, s)
enforce limit retry_after s (some (v, s')) =
    if not v.allowed
    then (LimitOutcome.limited (limit_headers limit v) (retry_after v), s')
    else (LimitOutcome.passed (some (limit_headers limit v)), s')

module _ {S : Type 0} (c : Counters S) where
  -- IPRateLimitMiddleware for the client address `ip`; `now` is Redis's time, `later` the time after
  -- its answer, and `at` the time at which Retry-After is computed.
  unfoldable pub ip_rate_limit : Str → ℕ → Duration → Time → Time → Time → S → LimitOutcome × S
  unfolding allow_ip enforce
  ip_rate_limit ip limit window now later at s =
      enforce limit (λ v. (v.reset_at - at) / second + 1) s (allow_ip c ip limit window now later s)

  -- OrgRateLimitMiddleware for the organisation and tier that AuthMiddleware hands on.
  unfoldable pub org_rate_limit : Str → OrgTier → Time → Time → S → LimitOutcome × S
  unfolding allow_org enforce rate_limit_for_tier
  org_rate_limit org_id tier now later s =
      enforce (rate_limit_for_tier tier) (λ v. 1) s
        (allow_org c org_id (rate_limit_for_tier tier) second now later s)
