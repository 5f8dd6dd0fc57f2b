-- ===== src/Dashboard/Tests.antt =====
-- API keys, from the dashboard to the ingestion API, at concrete inputs.
use promptmeter.Prelude.{
  ℕ, ◌≡◌, refl, true, false, none, some, List, [], ◌∷◌, ◌++◌, Str, lit, arith, str_eq,
}
use promptmeter.Auth.ApiKeyText.{hash_key, validate_format}
use promptmeter.Domain.ApiKey.{ApiKey}
use promptmeter.Ingestion.Middleware.{judge, authenticate}
use promptmeter.Ingestion.Middleware.Admitted.{
  judge_row, authenticate-judge_row, authenticate-cached,
}
use promptmeter.Storage.ApiKeys.{
  CachedApiKey, Json, to_cached, scanned, get_cached_api_key, get_api_key_by_hash,
  set_cached_api_key, row_with_hash,
}
use promptmeter.Storage.Samples.{CacheState, held_cache, held_cache-IsCache}
use promptmeter.Dashboard.ApiKeys.{CreateApiKeyRequest, Assigned, handle_revoke}
use promptmeter.Dashboard.ApiKeys.Revoked.{handle_revoke-cache}

abbrev empty_cache : CacheState
empty_cache k = none

-- A text for one key, whatever its fields.
abbrev one_json : CachedApiKey → Json
one_json k = record { marshal = λ x. some (lit "{}"); unmarshal = λ s. some k }

abbrev sample_token : Str
sample_token = lit "pm_live_0123456789ABCDEF0123456789ABCDEF"

abbrev sample_row : ApiKey
sample_row = record {
  id = lit "k1";
  org_id = lit "o1";
  project_id = none;
  key_prefix = lit "pm_live_0123";
  key_hash = hash_key (λ s. []) sample_token;
  name = lit "n";
  scopes = lit "write" ∷ [];
  last_used_at = none;
  created_at = 5;
  revoked_at = none;
  tier = lit "pro";
}

sample_token-valid : validate_format sample_token ≡ true
unfolding validate_format
sample_token-valid = refl

authenticate-judge_row_example :
    (authenticate held_cache
      (one_json (to_cached sample_row))
      (λ s. [])
      (lit "Bearer " ++ sample_token)
      10
      false
      (sample_row ∷ [])
      empty_cache).0
    ≡ judge_row (get_api_key_by_hash false (sample_row ∷ []) (hash_key (λ s. []) sample_token))
unfolding get_cached_api_key
authenticate-judge_row_example =
    authenticate-judge_row held_cache (one_json (to_cached sample_row)) (λ s. []) sample_token 10
      false (sample_row ∷ []) empty_cache sample_token-valid (λ k e. cc)

handle_revoke-cache_example :
    (handle_revoke held_cache
      (one_json (to_cached sample_row))
      (lit "o1")
      (lit "k1")
      20
      false
      false
      (sample_row ∷ [])
      empty_cache).cache
    ≡ empty_cache
unfolding hash_key
handle_revoke-cache_example =
    handle_revoke-cache held_cache (one_json (to_cached sample_row)) (lit "o1") (lit "k1") 20 false
      false (sample_row ∷ []) empty_cache ((λ e. cc), tt)

abbrev sample_create : CreateApiKeyRequest
sample_create = record { name = lit "n"; kind = lit "live"; project_id = none }

abbrev sample_assigned : Assigned
sample_assigned = record { id = lit "k2"; created_at = 5; tier = lit "pro" }

abbrev bytes : List ℕ
bytes =
    0 ∷ 9 ∷ 61 ∷ 62 ∷ 255 ∷ 5 ∷ 6 ∷ 7 ∷ 8 ∷ 9 ∷ 10 ∷ 11 ∷ 12 ∷ 13 ∷ 14 ∷ 15 ∷ 16 ∷ 17 ∷ 18 ∷ 19 ∷ 20
    ∷ 21 ∷ 22 ∷ 23 ∷ 24 ∷ 25 ∷ 26 ∷ 27 ∷ 28 ∷ 29 ∷ 30 ∷ 31 ∷ []

-- The same row, revoked at 15.
abbrev revoked_row : ApiKey
revoked_row = record sample_row { revoked_at = some 15 }

authenticate-cached_example :
    (authenticate held_cache
      (one_json (to_cached sample_row))
      (λ s. [])
      (lit "Bearer " ++ sample_token)
      20
      false
      (revoked_row ∷ [])
      (authenticate held_cache
        (one_json (to_cached sample_row))
        (λ s. [])
        (lit "Bearer " ++ sample_token)
        10
        false
        (sample_row ∷ [])
        empty_cache).1).0
    ≡ judge (scanned sample_row)
unfolding get_cached_api_key get_api_key_by_hash row_with_hash set_cached_api_key hash_key str_eq
authenticate-cached_example =
    authenticate-cached held_cache held_cache-IsCache (one_json (to_cached sample_row)) (λ s. [])
      sample_token 10 20 false false (sample_row ∷ []) (revoked_row ∷ []) empty_cache
      (scanned sample_row) sample_token-valid (lit "{}", refl, refl) refl refl refl (omega arith)
