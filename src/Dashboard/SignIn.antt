-- ===== src/Dashboard/SignIn.antt =====
-- HandleOAuthCallback of server/internal/dashboard/handlers/auth.go.
pub mod Found
pub mod Repeated
use promptmeter.Prelude.{
  ℕ, ◌+◌, Bool, true, false, not, Option, none, some, List, [], ◌∷◌, ◌++◌, Str, lit, str_eq,
  is_empty, map, in_range, ◌==◌, if◌then◌else◌,
}
use promptmeter.Domain.Account.{User, Organization, RefreshToken, Project}
use promptmeter.Domain.ApiKey.{ApiKey}
use promptmeter.Auth.ApiKeyText.{GeneratedKey, prefix_live, generate_key}
use promptmeter.Auth.Jwt.{Codec}
use promptmeter.Storage.Redis.{Got}
use promptmeter.Storage.Accounts.{
  NewRow, NewOrg, Member, create_or_get_user, get_org_by_user_id, new_org, add_org_member,
  create_project,
}
use promptmeter.Dashboard.ApiKeys.{CreateApiKeyRequest, Assigned, new_row}
use promptmeter.Dashboard.Sessions.{World, issue_token_pair}

pub record OauthCallbackRequest : Type 0 where
  pub email : Str
  pub name : Str
  pub avatar_url : Str

-- The tables that a callback writes to.
pub record Accounts : Type 0 where
  pub users : List User
  pub orgs : List Organization
  pub members : List Member
  pub projects : List Project
  pub api_keys : List ApiKey
  pub tokens : List RefreshToken

-- What the database and the random source do during a callback.
pub record SignInWorld : Type 0 where
  pub user_fails : Bool
  pub new_user : Option NewRow
  pub org_fails : Bool
  pub limit_one : List Organization → Got Organization
  pub new_org : Option NewOrg
  pub member_fails : Bool
  pub new_project : Option NewRow
  pub key_random : Option (List ℕ)
  pub new_key : Option Assigned
  pub session : World

-- 401, 400, 500, or 200 with the user, the organisation, is_new_user, and the two cookies.
pub data SignInOutcome : Type 0 where
  unauthorized bad_request internal_error : SignInOutcome
  signed_in : User → Organization → Bool → Str → Str → SignInOutcome

-- strings.ToLower(strings.ReplaceAll(name, " ", "-")), of ASCII names
unfoldable pub slug_of : Str → Str
slug_of name =
    map (λ c. if c == b' ' then b'-' else if in_range b'A' b'Z' c then c + 32 else c) name

-- The default project.
abbrev pub default_project : Str → Project
default_project org_id = record {
  id = [];
  org_id = org_id;
  name = lit "Default";
  slug = lit "default";
  description = [];
  pii_enabled = true;
  is_default = true;
  created_at = 0;
  updated_at = 0;
  archived_at = none;
}

-- The default API key, if one was generated and inserted.
with_key : Str → Option GeneratedKey → Option Assigned → List ApiKey → List ApiKey
with_key org_id (some key) (some given) rows =
    new_row org_id (record { name = lit "Default Key"; kind = lit "live"; project_id = none }) key
      given
    ∷ rows
with_key org_id _ _ rows = rows

unfoldable pub finish_sign_in :
    User
    → Organization
    → Bool
    → Accounts
    → Option (Str × Str × List RefreshToken)
    → SignInOutcome × Accounts
finish_sign_in user org is_new a none = (SignInOutcome.internal_error, a)
finish_sign_in user org is_new a (some (jwt, plaintext, tokens)) =
    (SignInOutcome.signed_in user org is_new jwt plaintext, record a { tokens = tokens })

module _ (codec : Codec) (sha256 : Str → List ℕ) (jwt_secret : Str) (w : SignInWorld) where
  -- The organisation of a user who has none, with what belongs to it.
  unfoldable pub create_account :
      OauthCallbackRequest → User → Option NewOrg → Accounts → Option (Organization × Accounts)
  unfolding slug_of with_key add_org_member create_project generate_key
  create_account req user none a = none
  create_account req user (some given) a =
      let org =
        new_org given (req.name ++ lit "'s Organization") (slug_of req.name ++ lit "-org") in
      some (
        org,
        record a {
          orgs = org ∷ a.orgs;
          members = add_org_member w.member_fails org.id user.id (lit "owner") a.members;
          projects = create_project w.new_project (default_project org.id) a.projects;
          api_keys =
              with_key org.id (generate_key sha256 prefix_live w.key_random) w.new_key a.api_keys;
        },
      )

  unfoldable pub org_or_new :
      OauthCallbackRequest → User → Got Organization → Accounts → Option (Organization × Accounts)
  unfolding create_account
  org_or_new req user Got.failed a = none
  org_or_new req user (Got.found org) a = some (org, a)
  org_or_new req user Got.missing a = create_account req user w.new_org a

  unfoldable pub with_org :
      User → Bool → Accounts → Option (Organization × Accounts) → SignInOutcome × Accounts
  unfolding finish_sign_in issue_token_pair
  with_org user is_new a none = (SignInOutcome.internal_error, a)
  with_org user is_new a (some (org, b)) =
      finish_sign_in user org is_new b
        (issue_token_pair codec sha256 jwt_secret w.session user org b.tokens)

  unfoldable pub with_user :
      OauthCallbackRequest → Accounts → Option (User × Bool × List User) → SignInOutcome × Accounts
  unfolding with_org org_or_new get_org_by_user_id
  with_user req a none = (SignInOutcome.internal_error, a)
  with_user req a (some (user, is_new, users)) =
      let b : Accounts = record a { users = users } in
      with_org user is_new b (
        org_or_new req user (get_org_by_user_id w.org_fails w.limit_one user.id b.members b.orgs) b)

  -- HandleOAuthCallback: the secret that is sent and the one that is expected, and the body, `none` if
  -- it cannot be decoded.
  unfoldable pub handle_oauth_callback :
      Str → Str → Option OauthCallbackRequest → Accounts → SignInOutcome × Accounts
  unfolding with_user create_or_get_user str_eq
  handle_oauth_callback given expected none a =
      (if str_eq given expected then SignInOutcome.bad_request else SignInOutcome.unauthorized, a)
  handle_oauth_callback given expected (some req) a =
      if not (str_eq given expected)
      then (SignInOutcome.unauthorized, a)
      else if is_empty req.email
      then (SignInOutcome.bad_request, a)
      else with_user req a
          (create_or_get_user w.user_fails w.new_user req.email req.name req.avatar_url a.users)
