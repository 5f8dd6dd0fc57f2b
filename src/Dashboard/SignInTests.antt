-- ===== src/Dashboard/SignInTests.antt =====
-- Signing in twice, at a concrete input.
use promptmeter.Prelude.{
  inl, arith, ℕ, ◌≡◌, refl, true, false, none, some, List, [], ◌∷◌, Str, lit, length,
}
use promptmeter.Domain.Account.{User, Organization, RefreshToken}
use promptmeter.Auth.Jwt.{Codec}
use promptmeter.Storage.Redis.{Got}
use promptmeter.Storage.Accounts.{NewRow, NewOrg, IsLimitOne}
use promptmeter.Dashboard.Sessions.{World, issue_token_pair}
use promptmeter.Dashboard.SignIn.{
  OauthCallbackRequest, Accounts, SignInWorld, SignInOutcome, handle_oauth_callback,
}
use promptmeter.Dashboard.SignIn.Repeated.{handle_oauth_callback-again}

abbrev digest : Str → List ℕ
digest s = length s ∷ []

abbrev codec : Codec
codec = record {
  hmac = λ k s. [];
  encode64 = λ s. [];
  decode64 = λ s. none;
  marshal = λ c. some [];
  unmarshal = λ s. none;
}

abbrev session_world : World
session_world = record {
  now = 50;
  unix_now = 5;
  random = some (1 ∷ []);
  inserted = some (record { id = lit "t"; created_at = 50 });
  select_fails = false;
  revoke_fails = false;
  revoke_all_fails = false;
  user_by_id = λ id. Got.missing;
  org_by_user_id = λ id. Got.missing;
}

abbrev new_row : NewRow
new_row = record { id = lit "u"; created_at = 50 }

abbrev new_org : NewOrg
new_org = record {
  id = lit "o";
  timezone = lit "UTC";
  pii_enabled = true;
  created_at = 50;
  updated_at = 50;
}

abbrev first_row : List Organization → Got Organization
first_row [] = Got.missing
first_row (o ∷ os) = Got.found o

first_row-IsLimitOne : IsLimitOne first_row
first_row-IsLimitOne = record { nothing = refl; one = λ o os. (o, inl refl, refl) }

-- No random bytes for an API key.
abbrev sign_in_world : SignInWorld
sign_in_world = record {
  user_fails = false;
  new_user = some new_row;
  org_fails = false;
  limit_one = first_row;
  new_org = some new_org;
  member_fails = false;
  new_project = some (record { id = lit "p"; created_at = 50 });
  key_random = none;
  new_key = none;
  session = session_world;
}

abbrev ann : OauthCallbackRequest
ann = record { email = lit "a@b"; name = lit "Ann"; avatar_url = [] }

abbrev anna : OauthCallbackRequest
anna = record { email = lit "a@b"; name = lit "Anna"; avatar_url = [] }

abbrev no_accounts : Accounts
no_accounts = record {
  users = [];
  orgs = [];
  members = [];
  projects = [];
  api_keys = [];
  tokens = [];
}

-- The tables behind the first callback.
abbrev after : Accounts
after =
    (handle_oauth_callback codec digest [] sign_in_world (lit "s") (lit "s") (some ann)
      no_accounts).1

abbrev user_ann : User
user_ann = record {
  id = lit "u";
  email = lit "a@b";
  name = lit "Ann";
  avatar_url = [];
  created_at = 50;
}

abbrev org_ann : Organization
org_ann = record {
  id = lit "o";
  name = lit "Ann's Organization";
  slug = lit "ann-org";
  tier = lit "free";
  timezone = lit "UTC";
  pii_enabled = true;
  slack_webhook_url = none;
  stripe_customer_id = none;
  stripe_subscription_id = none;
  created_at = 50;
  updated_at = 50;
}

abbrev one_more : RefreshToken
one_more = record {
  id = lit "t";
  user_id = lit "u";
  token_hash = lit "05";
  expires_at = 604800000000050;
  revoked_at = none;
  created_at = 50;
}

handle_oauth_callback-again_example :
    handle_oauth_callback codec digest [] sign_in_world (lit "s") (lit "s") (some anna) after ≡ (
      SignInOutcome.signed_in user_ann org_ann false (lit "..") (lit "rt_01"),
      record after { tokens = one_more ∷ one_more ∷ [] },
    )
unfolding handle_oauth_callback issue_token_pair
handle_oauth_callback-again_example =
    handle_oauth_callback-again codec digest [] (lit "s") (lit "s") sign_in_world sign_in_world ann
      anna no_accounts after user_ann org_ann true (lit "..") (lit "..") (lit "rt_01") (lit "rt_01")
      (one_more ∷ one_more ∷ []) refl refl first_row-IsLimitOne first_row-IsLimitOne
      (λ id. omega arith) (λ f e. refl) refl refl refl refl
