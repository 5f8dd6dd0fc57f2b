-- ===== src/Ingestion/Middleware/Admitted.antt =====
-- Who gets through AuthMiddleware.
use promptmeter.Prelude.{
  ℕ, ◌+◌, ◌<◌, ◌≡◌, refl, ap, ◌∙◌, inl, inr, Bool, true, false, List, ◌++◌, arith, Str, lit, str_eq,
  str_eq_iff, Bool-cases, length, length-append,
}
use promptmeter.Auth.ApiKeyText.{hash_key, validate_format}
use promptmeter.Domain.ApiKey.{ApiKey, has_scope, is_revoked}
use promptmeter.Domain.Time.{Time}
use promptmeter.Ingestion.Middleware.{
  Admission, judge, cache_ttl, from_store, from_cache, authenticate,
}
use promptmeter.Storage.ApiKeys.{
  Json, IsEncoded, to_cached, from_cached, get_api_key_by_hash, get_cached_api_key,
  set_cached_api_key,
}
use promptmeter.Storage.ApiKeys.Cached.{get-set}
use promptmeter.Storage.Redis.{Cache, IsCache, Got}

-- What the table alone says of a key.
abbrev pub judge_row : Got ApiKey → Admission
judge_row Got.failed = Admission.internal_error
judge_row Got.missing = Admission.unauthorized
judge_row (Got.found key) = judge key

bearer-distinct : (token : Str) → str_eq token (lit "Bearer " ++ token) ≡ false
bearer-distinct token = elim (Bool-cases (str_eq token (lit "Bearer " ++ token))) [
  | inl e ↦ absurd (
      omega (
        arith,
        ap length ((str_eq_iff token (lit "Bearer " ++ token)).0 e),
        length-append {0} (lit "Bearer ") token,
      ))
  | inr e ↦ e
]

judge-from_cached : (h : Str) (k : ApiKey) → judge (from_cached h (to_cached k)) ≡ judge k
unfolding judge is_revoked has_scope
judge-from_cached h k = refl

module _ {S : Type 0} (c : Cache S Str) (json : Json) (sha256 : Str → List ℕ) where
  -- Past the checks of the header, the answer is that of the cache and the table.
  authenticate-bearer :
      (token : Str) (now : Time) (fails : Bool) (rows : List ApiKey) (s : S)
      → validate_format token ≡ true
      → authenticate c json sha256 (lit "Bearer " ++ token) now fails rows s
        ≡ from_cache c json sha256
            (hash_key sha256 token)
            now
            fails
            rows
            s
            (get_cached_api_key c json s (hash_key sha256 token) now)
  unfolding authenticate
  authenticate-bearer token now fails rows s valid = rw (bearer-distinct token, valid) refl

  from_store-judge_row :
      (h : Str) (now : Time) (s : S) (r : Got ApiKey)
      → (from_store c json sha256 h now s r).0 ≡ judge_row r
  unfolding from_store
  from_store-judge_row h now s Got.failed = refl
  from_store-judge_row h now s Got.missing = refl
  from_store-judge_row h now s (Got.found k) = refl

  from_cache-judge_row :
      (h : Str) (now : Time) (fails : Bool) (rows : List ApiKey) (s : S) (g : Got ApiKey)
      → ((k : ApiKey) → g ≡ Got.found k → judge k ≡ judge_row (get_api_key_by_hash fails rows h))
      → (from_cache c json sha256 h now fails rows s g).0
        ≡ judge_row (get_api_key_by_hash fails rows h)
  unfolding from_cache
  from_cache-judge_row h now fails rows s Got.failed agrees =
      from_store-judge_row h now s (get_api_key_by_hash fails rows h)
  from_cache-judge_row h now fails rows s Got.missing agrees =
      from_store-judge_row h now s (get_api_key_by_hash fails rows h)
  from_cache-judge_row h now fails rows s (Got.found k) agrees = agrees k refl

-- Where what the cache holds of a key is judged as the table's row is, a well-formed key in a
-- Bearer header is judged by the table, whether the cache has it, misses it or fails: AuthMiddleware
-- with a cache does what it does without.
pub authenticate-judge_row :
    {S : Type 0} (c : Cache S Str) (json : Json) (sha256 : Str → List ℕ) (token : Str) (now : Time)
    (fails : Bool) (rows : List ApiKey) (s : S)
    → validate_format token ≡ true
    → ((k : ApiKey)
        → get_cached_api_key c json s (hash_key sha256 token) now ≡ Got.found k
        → judge k ≡ judge_row (get_api_key_by_hash fails rows (hash_key sha256 token)))
    → (authenticate c json sha256 (lit "Bearer " ++ token) now fails rows s).0
      ≡ judge_row (get_api_key_by_hash fails rows (hash_key sha256 token))
authenticate-judge_row c json sha256 token now fails rows s valid agrees =
    ap (λ r. r.0) (authenticate-bearer c json sha256 token now fails rows s valid)
    ∙ from_cache-judge_row c json sha256 (hash_key sha256 token) now fails rows s _ agrees

-- A key that AuthMiddleware read from the table and cached without an error is judged by that row
-- for the next five minutes, whatever becomes of the table meanwhile.
pub authenticate-cached :
    {S : Type 0} (c : Cache S Str) (laws : IsCache c) (json : Json) (sha256 : Str → List ℕ)
    (token : Str) (now t : Time) (fails fails' : Bool) (rows rows' : List ApiKey) (s : S)
    (k : ApiKey)
    → validate_format token ≡ true
    → IsEncoded json (to_cached k)
    → get_cached_api_key c json s (hash_key sha256 token) now ≡ Got.missing
    → get_api_key_by_hash fails rows (hash_key sha256 token) ≡ Got.found k
    → (set_cached_api_key c json s (hash_key sha256 token) k now cache_ttl).0 ≡ true
    → t < now + cache_ttl
    → (authenticate c json sha256
        (lit "Bearer " ++ token)
        t
        fails'
        rows'
        (authenticate c json sha256 (lit "Bearer " ++ token) now fails rows s).1).0
      ≡ judge k
unfolding from_cache from_store
authenticate-cached c laws json sha256 token now t fails fails' rows rows' s k valid encoded missing
      row works soon =
    let first = authenticate-bearer c json sha256 token now fails rows s valid in
    rw (first, missing, row)
      (ap (λ r. r.0) (authenticate-bearer c json sha256 token t fails' rows' _ valid)
        ∙ rw (get-set c laws json s (hash_key sha256 token) k now t cache_ttl encoded works soon)
            (judge-from_cached (hash_key sha256 token) k))
