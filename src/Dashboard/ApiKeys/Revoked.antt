-- ===== src/Dashboard/ApiKeys/Revoked.antt =====
-- What revoking a key does to the cache.
use promptmeter.Prelude.{
  ◌≡◌, ◌≢◌, refl, ◌⊎◌, inl, inr, Bool, true, false, List, [], ◌∷◌, Str, str_eq, str_eq_iff, All,
  Option-cases, Bool-cases, is_empty,
}
use promptmeter.Domain.ApiKey.{ApiKey}
use promptmeter.Domain.Time.{Time}
use promptmeter.Storage.ApiKeys.{Json, row_with_hash, get_api_key_by_hash, revoke_api_key}
use promptmeter.Storage.Redis.{Cache, Got}
use promptmeter.Dashboard.ApiKeys.{invalidate, handle_revoke}

row_with_hash-missing :
    (key_hash : Str) (rows : List ApiKey)
    → All (λ row. row.key_hash ≢ key_hash) rows
    → row_with_hash key_hash rows ≡ Got.missing
unfolding row_with_hash
row_with_hash-missing key_hash [] h = refl
row_with_hash-missing key_hash (row ∷ rows) h = elim (Bool-cases (str_eq row.key_hash key_hash)) [
  | inl e ↦ absurd (h.0 ((str_eq_iff row.key_hash key_hash).0 e))
  | inr e ↦ rw e (row_with_hash-missing key_hash rows h.1)
]

get_api_key_by_hash-absent :
    (fails : Bool) (rows : List ApiKey) (key_hash : Str)
    → All (λ row. row.key_hash ≢ key_hash) rows
    → (get_api_key_by_hash fails rows key_hash ≡ Got.failed)
      ⊎ (get_api_key_by_hash fails rows key_hash ≡ Got.missing)
unfolding get_api_key_by_hash
get_api_key_by_hash-absent true rows key_hash h = inl refl
get_api_key_by_hash-absent false rows key_hash h = inr (row_with_hash-missing key_hash rows h)

module _ {S : Type 0} (c : Cache S Str) (json : Json) (rows : List ApiKey) (key_id : Str)
    (absent : All (λ row. row.key_hash ≢ key_id) rows) where
  invalidate-absent :
      (fails : Bool) (s : S) → invalidate c json (get_api_key_by_hash fails rows key_id) s ≡ s
  unfolding invalidate
  invalidate-absent fails s = elim (get_api_key_by_hash-absent fails rows key_id absent) [
    | inl e ↦ rw e refl
    | inr e ↦ rw e refl
  ]

-- Where the id of the key to revoke is the hash of no key, the cache after HandleRevoke is the
-- cache before, whatever the outcome: a revoked key stays cached.
pub handle_revoke-cache :
    {S : Type 0} (c : Cache S Str) (json : Json) (org_id key_id : Str) (now : Time)
    (select_fails update_fails : Bool) (rows : List ApiKey) (s : S)
    → All (λ row. row.key_hash ≢ key_id) rows
    → (handle_revoke c json org_id key_id now select_fails update_fails rows s).cache ≡ s
unfolding handle_revoke
handle_revoke-cache c json org_id key_id now select_fails update_fails rows s absent =
    elim (Bool-cases (is_empty key_id)) [
      | inl e ↦ rw e refl
      | inr e ↦ elim (Option-cases (revoke_api_key update_fails rows org_id key_id now)) [
        | inl f ↦ rw (e, f) refl
        | inr (rows', f) ↦ rw (e, f) (invalidate-absent c json rows key_id absent select_fails s)
      ]
    ]
