-- ===== src/Storage/ApiKeys/Cached.antt =====
-- What the cache of API keys gives back.
use promptmeter.Prelude.{
  ◌≡◌, refl, sym, ap, ◌∙◌, true, some, Str, ◌+◌, ◌<◌, str_eq_refl, if◌then◌else◌,
}
use promptmeter.Domain.ApiKey.{ApiKey}
use promptmeter.Domain.Time.{Time, Duration}
use promptmeter.Storage.Redis.{Got, Cache, IsCache}
use promptmeter.Storage.ApiKeys.{
  api_key_cache_key, to_cached, from_cached, Json, IsEncoded, get_cached_api_key, read_cached,
  set_cached_api_key, delete_cached_api_key,
}

module _ {S : Type 0} (c : Cache S Str) (laws : IsCache c) (json : Json) where
  read-set :
      (s : S) (k text : Str) (now t : Time) (ttl : Duration)
      → (c.set s k text now ttl).0 ≡ true
      → t < now + ttl
      → c.get (c.set s k text now ttl).1 k t ≡ Got.found text
  read-set s k text now t ttl works soon =
      laws.set_live s k k text now t ttl works soon
      ∙ ap (λ b. if b then Got.found text else c.get s k t) (str_eq_refl k)

  set_cached_api_key_lem :
      (s : S) (key_hash : Str) (key : ApiKey) (now : Time) (ttl : Duration) (text : Str)
      → json.marshal (to_cached key) ≡ some text
      → set_cached_api_key c json s key_hash key now ttl
        ≡ c.set s (api_key_cache_key key_hash) text now ttl
  unfolding set_cached_api_key
  set_cached_api_key_lem s key_hash key now ttl text written = rw (set_cached_api_key, written) refl

  -- A key that was set without an error is what the cache gives until its TTL runs out.
  pub get-set :
      (s : S) (key_hash : Str) (key : ApiKey) (now t : Time) (ttl : Duration)
      → IsEncoded json (to_cached key)
      → (set_cached_api_key c json s key_hash key now ttl).0 ≡ true
      → t < now + ttl
      → get_cached_api_key c json (set_cached_api_key c json s key_hash key now ttl).1 key_hash t
        ≡ Got.found (from_cached key_hash (to_cached key))
  unfolding get_cached_api_key read_cached
  get-set s key_hash key now t ttl (text, written, back) works soon =
      let same = set_cached_api_key_lem s key_hash key now ttl text written in
      let reads =
        read-set s (api_key_cache_key key_hash) text now t ttl (ap (λ r. r.0) (sym same) ∙ works)
          soon in
      rw same (rw reads (rw (read_cached, back) refl))

  -- A key that was deleted without an error is missing.
  pub get-delete :
      (s : S) (key_hash : Str) (t : Time)
      → (delete_cached_api_key c json s key_hash).0 ≡ true
      → get_cached_api_key c json (delete_cached_api_key c json s key_hash).1 key_hash t
        ≡ Got.missing
  unfolding get_cached_api_key delete_cached_api_key read_cached
  get-delete s key_hash t works = ap (read_cached c json key_hash) (
      laws.del_gone s (api_key_cache_key key_hash) (api_key_cache_key key_hash) t works
      ∙ ap (λ b. if b then Got.missing else c.get s (api_key_cache_key key_hash) t)
          (str_eq_refl (api_key_cache_key key_hash)))
