-- ===== src/Dashboard/ApiKeys.antt =====
-- Creating and revoking API keys, server/internal/dashboard/handlers/apikeys.go.
pub mod Created
pub mod Revoked
use promptmeter.Prelude.{
  ℕ, Bool, Option, none, some, List, [], ◌∷◌, Str, lit, str_eq, ltb, is_empty, length,
  if◌then◌else◌,
}
use promptmeter.Auth.ApiKeyText.{prefix_live, prefix_test, GeneratedKey, generate_key}
use promptmeter.Domain.ApiKey.{ApiKey, OrgTier}
use promptmeter.Domain.Time.{Time}
use promptmeter.Storage.ApiKeys.{Json, delete_cached_api_key, get_api_key_by_hash, revoke_api_key}
use promptmeter.Storage.Redis.{Cache, Got}

-- createAPIKeyRequest; "type" is the source's name for the field `kind`.
pub record CreateApiKeyRequest : Type 0 where
  pub name : Str
  pub kind : Str
  pub project_id : Option Str

-- What the row's defaults and the join give: the id, created_at, and the organisation's tier.
pub record Assigned : Type 0 where
  pub id : Str
  pub created_at : Time
  pub tier : OrgTier

pub data CreateOutcome : Type 0 where
  bad_request internal_error : CreateOutcome
  -- 201, with the key as it is shown once, and its row
  created : GeneratedKey → ApiKey → CreateOutcome

abbrev pub new_row : Str → CreateApiKeyRequest → GeneratedKey → Assigned → ApiKey
new_row org_id req key given = record {
  id = given.id;
  org_id = org_id;
  project_id = req.project_id;
  key_prefix = key.display_prefix;
  key_hash = key.hash;
  name = req.name;
  scopes = lit "write" ∷ lit "read" ∷ [];
  last_used_at = none;
  created_at = given.created_at;
  revoked_at = none;
  tier = given.tier;
}

abbrev pub chosen_prefix : CreateApiKeyRequest → Str
chosen_prefix req = if str_eq req.kind (lit "test") then prefix_test else prefix_live

-- CreateAPIKey of a key that was generated, or not; `none` is an error of the INSERT.
unfoldable pub insert_created :
    Str
    → CreateApiKeyRequest
    → List ApiKey
    → Option GeneratedKey
    → Option Assigned
    → CreateOutcome × List ApiKey
insert_created org_id req rows none _ = (CreateOutcome.internal_error, rows)
insert_created org_id req rows (some key) none = (CreateOutcome.internal_error, rows)
insert_created org_id req rows (some key) (some given) =
    (CreateOutcome.created key (new_row org_id req key given), new_row org_id req key given ∷ rows)

-- HandleCreate; `none` for the request is a body that is not JSON.
unfoldable pub handle_create :
    (Str → List ℕ)
    → Str
    → Option CreateApiKeyRequest
    → Option (List ℕ)
    → Option Assigned
    → List ApiKey
    → CreateOutcome × List ApiKey
unfolding insert_created generate_key str_eq
handle_create sha256 org_id none random inserted rows = (CreateOutcome.bad_request, rows)
handle_create sha256 org_id (some req) random inserted rows =
    if is_empty req.name
    then (CreateOutcome.bad_request, rows)
    else if ltb 100 (length req.name)
    then (CreateOutcome.bad_request, rows)
    else insert_created org_id req rows (generate_key sha256 (chosen_prefix req) random) inserted

-- The status, the table and the cache after a request.
pub record Revocation (S : Type 0) : Type 0 where
  pub status : ℕ
  pub rows : List ApiKey
  pub cache : S

module _ {S : Type 0} (c : Cache S Str) (json : Json) where
  -- "Invalidate Redis cache for this key"; an error of Redis is only logged.
  unfoldable pub invalidate : Got ApiKey → S → S
  unfolding delete_cached_api_key
  invalidate (Got.found key) s = (delete_cached_api_key c json s key.key_hash).1
  invalidate _ s = s

  -- HandleRevoke; the Booleans say if the SELECT and the UPDATE fail.
  unfoldable pub handle_revoke : Str → Str → Time → Bool → Bool → List ApiKey → S → Revocation S
  unfolding invalidate get_api_key_by_hash revoke_api_key
  handle_revoke org_id key_id now select_fails update_fails rows s =
      let key = get_api_key_by_hash select_fails rows key_id in
      if is_empty key_id
      then record { status = 400; rows = rows; cache = s }
      else elim (revoke_api_key update_fails rows org_id key_id now) [
        | none ↦ record { status = 404; rows = rows; cache = s }
        | some rows' ↦ record { status = 200; rows = rows'; cache = invalidate key s }
      ]
