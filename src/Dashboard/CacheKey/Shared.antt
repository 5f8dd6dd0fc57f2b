-- ===== src/Dashboard/CacheKey/Shared.antt =====
-- Which queries share a cached answer.
use promptmeter.Prelude.{
  all, not, ◌==◌, true, arith, ℕ, ◌≡◌, ◌≢◌, refl, ap, List, [], ◌∷◌, ◌++◌, Str, lit, take,
  hex_encode, All, split_apart,
}
use promptmeter.Dashboard.CacheKey.{written, cache_key}

abbrev pub IsColonFree : Str → Type 0
IsColonFree s = All (λ c. c ≢ b':') s

pub all-IsColonFree : (s : Str) → all (λ c. not (c == b':')) s ≡ true → IsColonFree s
all-IsColonFree [] h = tt
all-IsColonFree (c ∷ s) h = (ground arith, all-IsColonFree s (ground arith))

behind_name : (r s : Str) → lit "dashboard:" ++ r ≡ lit "dashboard:" ++ s → r ≡ s
behind_name r s e = cc

-- Where organisations and endpoints have no colon in their names, two queries with one cache key are
-- of the same organisation and endpoint: no organisation is shown what is cached for another.
pub cache_key-apart :
    (sha256 : Str → List ℕ) (org_id org_id' endpoint endpoint' : Str) (params params' : List Str)
    → IsColonFree org_id
    → IsColonFree org_id'
    → IsColonFree endpoint
    → IsColonFree endpoint'
    → cache_key sha256 org_id endpoint params ≡ cache_key sha256 org_id' endpoint' params'
    → (org_id ≡ org_id')
      × (endpoint ≡ endpoint')
      × (take 12 (hex_encode (sha256 (written params)))
          ≡ take 12 (hex_encode (sha256 (written params'))))
unfolding cache_key
cache_key-apart sha256 org_id org_id' endpoint endpoint' params params' o o' f f' e =
    let (rest, same_org) = split_apart _ org_id org_id' _ _ o o' (behind_name _ _ e) in
    let (hash, same_endpoint) = split_apart _ endpoint endpoint' _ _ f f' rest in
    (same_org, same_endpoint, hash)

written-exchange :
    (x : Str) (before after : List Str)
    → written (before ++ x ∷ [] ∷ after) ≡ written (before ++ [] ∷ x ∷ after)
unfolding written
written-exchange x [] after = refl
written-exchange x (p ∷ before) after = ap (λ s. p ++ s) (written-exchange x before after)

-- An empty filter and a filter next to it can be exchanged: the key is the same, so one query is
-- answered from what was cached for the other.
pub cache_key-exchange :
    (sha256 : Str → List ℕ) (org_id endpoint : Str) (x : Str) (before after : List Str)
    → cache_key sha256 org_id endpoint (before ++ x ∷ [] ∷ after)
      ≡ cache_key sha256 org_id endpoint (before ++ [] ∷ x ∷ after)
unfolding cache_key
cache_key-exchange sha256 org_id endpoint x before after =
    ap
      (λ text.
        lit "dashboard:"
        ++ (org_id ++ (lit ":" ++ (endpoint ++ (lit ":" ++ take 12 (hex_encode (sha256 text)))))))
      (written-exchange x before after)
