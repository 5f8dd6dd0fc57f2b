-- ===== src/Storage/ApiKeys.antt =====
-- API keys in the cache (server/internal/storage/redis.go) and in the table api_keys
-- (server/internal/storage/postgres.go). Redis and encoding/json are parameters; a row of the table
-- is an ApiKey with the tier that the join with organizations gives.
pub mod Cached
use promptmeter.Prelude.{
  ℕ, ◌≡◌, Bool, true, false, not, ◌&&◌, Option, none, some, List, [], ◌∷◌, ◌++◌, Str, lit, str_eq,
  any, if◌then◌else◌, map,
}
use promptmeter.Domain.ApiKey.{ApiKey, OrgTier, is_revoked}
use promptmeter.Domain.Time.{Time, Duration, zero_time}
use promptmeter.Storage.Redis.{Got, Cache}

unfoldable pub api_key_cache_key : Str → Str
api_key_cache_key key_hash = lit "apikey:" ++ key_hash

-- cachedAPIKey, the value behind the JSON text.
pub record CachedApiKey : Type 0 where
  pub id : Str
  pub org_id : Str
  pub key_prefix : Str
  pub name : Str
  pub scopes : List Str
  pub tier : OrgTier
  pub revoked_at : Option Time

abbrev pub to_cached : ApiKey → CachedApiKey
to_cached key = record {
  id = key.id;
  org_id = key.org_id;
  key_prefix = key.key_prefix;
  name = key.name;
  scopes = key.scopes;
  tier = key.tier;
  revoked_at = key.revoked_at;
}

-- The fields that are not cached have Go's zero values.
abbrev pub from_cached : Str → CachedApiKey → ApiKey
from_cached key_hash cached = record {
  id = cached.id;
  org_id = cached.org_id;
  project_id = none;
  key_prefix = cached.key_prefix;
  key_hash = key_hash;
  name = cached.name;
  scopes = cached.scopes;
  last_used_at = none;
  created_at = zero_time;
  revoked_at = cached.revoked_at;
  tier = cached.tier;
}

-- json.Marshal and json.Unmarshal at cachedAPIKey; `none` is an error.
pub record Json : Type 0 where
  pub marshal : CachedApiKey → Option Str
  pub unmarshal : Str → Option CachedApiKey

-- Marshal succeeds on this value, and Unmarshal reads it back.
abbrev pub IsEncoded : Json → CachedApiKey → Type 0
IsEncoded json k = (text : Str) × (json.marshal k ≡ some text) × (json.unmarshal text ≡ some k)

module _ {S : Type 0} (c : Cache S Str) (json : Json) where
  unfoldable pub read_cached : Str → Got Str → Got ApiKey
  read_cached key_hash Got.failed = Got.failed
  read_cached key_hash Got.missing = Got.missing
  read_cached key_hash (Got.found val) = elim (json.unmarshal val) [
    | none ↦ Got.failed
    | some cached ↦ Got.found (from_cached key_hash cached)
  ]

  -- GetCachedAPIKey; nil is `missing`.
  unfoldable pub get_cached_api_key : S → Str → Time → Got ApiKey
  unfolding read_cached api_key_cache_key
  get_cached_api_key s key_hash now =
      read_cached key_hash (c.get s (api_key_cache_key key_hash) now)

  -- SetCachedAPIKey
  unfoldable pub set_cached_api_key : S → Str → ApiKey → Time → Duration → Bool × S
  unfolding api_key_cache_key
  set_cached_api_key s key_hash key now ttl = elim (json.marshal (to_cached key)) [
    | none ↦ (false, s)
    | some text ↦ c.set s (api_key_cache_key key_hash) text now ttl
  ]

  -- DeleteCachedAPIKey
  unfoldable pub delete_cached_api_key : S → Str → Bool × S
  unfolding api_key_cache_key
  delete_cached_api_key s key_hash = c.del s (api_key_cache_key key_hash)

-- What the query of GetAPIKeyByHash reads from a row: not project_id.
abbrev pub scanned : ApiKey → ApiKey
scanned row = record {
  id = row.id;
  org_id = row.org_id;
  project_id = none;
  key_prefix = row.key_prefix;
  key_hash = row.key_hash;
  name = row.name;
  scopes = row.scopes;
  last_used_at = row.last_used_at;
  created_at = row.created_at;
  revoked_at = row.revoked_at;
  tier = row.tier;
}

-- The row with the hash, if there is one.
unfoldable pub row_with_hash : Str → List ApiKey → Got ApiKey
unfolding str_eq
row_with_hash key_hash [] = Got.missing
row_with_hash key_hash (row ∷ rows) =
    let rest = row_with_hash key_hash rows in
    if str_eq row.key_hash key_hash then Got.found (scanned row) else rest

-- GetAPIKeyByHash; the Boolean says if the query fails.
unfoldable pub get_api_key_by_hash : Bool → List ApiKey → Str → Got ApiKey
unfolding row_with_hash
get_api_key_by_hash fails rows key_hash = if fails then Got.failed else row_with_hash key_hash rows

abbrev pub revoked : Time → ApiKey → ApiKey
revoked now row = record {
  id = row.id;
  org_id = row.org_id;
  project_id = row.project_id;
  key_prefix = row.key_prefix;
  key_hash = row.key_hash;
  name = row.name;
  scopes = row.scopes;
  last_used_at = row.last_used_at;
  created_at = row.created_at;
  revoked_at = some now;
  tier = row.tier;
}

-- The condition of the UPDATE.
unfoldable pub is_revocable : Str → Str → ApiKey → Bool
unfolding str_eq is_revoked
is_revocable org_id key_id row =
    str_eq row.id key_id && str_eq row.org_id org_id && not (is_revoked row)

-- RevokeAPIKey; `none` is an error: the statement fails or changes no row.
unfoldable pub revoke_api_key : Bool → List ApiKey → Str → Str → Time → Option (List ApiKey)
unfolding is_revocable
revoke_api_key fails rows org_id key_id now =
    if fails
    then none
    else if any (is_revocable org_id key_id) rows
    then some (map (λ row. if is_revocable org_id key_id row then revoked now row else row) rows)
    else none
