-- ===== src/Dashboard/CacheKey.antt =====
-- The cache keys of dashboard answers, `cacheKey` of server/internal/dashboard/handlers/params.go.
-- SHA-256 is a parameter.
pub mod Shared
use promptmeter.Prelude.{ℕ, List, [], ◌∷◌, ◌++◌, Str, lit, take, hex_encode}

-- What the loop over the parameters writes to the digest.
unfoldable pub written : List Str → Str
written [] = []
written (p ∷ params) = p ++ written params

unfoldable pub cache_key : (Str → List ℕ) → Str → Str → List Str → Str
unfolding written hex_encode
cache_key sha256 org_id endpoint params =
    let hash = take 12 (hex_encode (sha256 (written params))) in
    lit "dashboard:" ++ (org_id ++ (lit ":" ++ (endpoint ++ (lit ":" ++ hash))))
