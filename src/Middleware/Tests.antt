-- ===== src/Middleware/Tests.antt =====
-- Sessions at concrete inputs.
use promptmeter.Prelude.{
  ℕ, Option, ◌≡◌, ◌≢◌, refl, true, false, none, some, List, [], ◌∷◌, Str, lit, length, is_some,
}
use promptmeter.Domain.Account.{User, Organization, RefreshToken}
use promptmeter.Domain.OrgId.{org_id_to_uint64}
use promptmeter.Storage.Redis.{Got}
use promptmeter.Auth.Jwt.{Codec, stamped}
use promptmeter.Auth.Samples.{held_codec, held_codec-IsCodec}
use promptmeter.Dashboard.Sessions.{World, session_claims, issue_token_pair}
use promptmeter.Middleware.Session.{
  Cookie, Context, Gate, session_cookie, cookie_of, default_claims, jwt_auth, signed_in, auto_login,
}
use promptmeter.Middleware.Session.Admitted.{issue_token_pair-jwt_auth}
use promptmeter.Middleware.Session.Stale.{auto_login-jwt_auth}
use promptmeter.Middleware.Requests.{client_ip}

abbrev sample_user : User
sample_user = record { id = lit "u"; email = []; name = []; avatar_url = []; created_at = 1 }

abbrev sample_org : Organization
sample_org = record {
  id = lit "o";
  name = [];
  slug = [];
  tier = lit "pro";
  timezone = [];
  pii_enabled = false;
  slack_webhook_url = none;
  stripe_customer_id = none;
  stripe_subscription_id = none;
  created_at = 1;
  updated_at = 1;
}

abbrev sample_world : World
sample_world = record {
  now = 50;
  unix_now = 5;
  random = some (1 ∷ []);
  inserted = some (record { id = lit "t2"; created_at = 50 });
  select_fails = false;
  revoke_fails = false;
  revoke_all_fails = false;
  user_by_id = λ id. Got.found sample_user;
  org_by_user_id = λ id. Got.found sample_org;
}

abbrev digest : Str → List ℕ
digest s = length s ∷ []

abbrev sample_codec : Codec
sample_codec = held_codec (stamped 5 5 (session_claims sample_user sample_org))

abbrev jwt_of : Option (Str × Str × List RefreshToken) → Str
jwt_of none = []
jwt_of (some (jwt, _, _)) = jwt

abbrev sample_jwt : Str
sample_jwt =
    jwt_of (issue_token_pair sample_codec digest (lit "k") sample_world sample_user sample_org [])

issue_token_pair-jwt_auth_example :
    jwt_auth sample_codec (lit "k") 800 (session_cookie sample_jwt ∷ [])
    ≡ Gate.admitted (record {
      user_id = lit "u";
      org_id = lit "o";
      org_numeric = org_id_to_uint64 (lit "o");
      tier = lit "pro";
      role = lit "owner";
    })
unfolding issue_token_pair
issue_token_pair-jwt_auth_example =
    issue_token_pair-jwt_auth sample_codec (held_codec-IsCodec _) digest (lit "k") sample_world
      sample_user sample_org [] _ sample_jwt _ (lit "{}") 800 [] refl refl (λ e. cc) (λ e. cc) refl

-- A codec for the automatic login, and a cookie that says nothing.
abbrev default_codec : Codec
default_codec = held_codec (stamped 5 5 (default_claims (lit "u") (lit "o") 7))

abbrev old_cookies : List Cookie
old_cookies = session_cookie (lit "x") ∷ []

auto_login-jwt_auth_example :
    (token : Str) × (auto_login default_codec (lit "k") (lit "u") (lit "o") 7 5 old_cookies
      ≡ (some token, jwt_auth default_codec (lit "k") 5 old_cookies))
    × ((c : Context)
        → is_some (some (lit "x")) ≡ true
        → jwt_auth default_codec (lit "k") 5 old_cookies ≢ Gate.admitted c)
unfolding cookie_of signed_in
auto_login-jwt_auth_example =
    auto_login-jwt_auth default_codec (held_codec-IsCodec _) (lit "k") (lit "u") (lit "o")
      (lit "{}") 7 5 old_cookies (some (lit "x")) refl refl (λ e. cc) (λ e. cc) refl refl

-- The last hop is the caller's own claim.
test_client_ip : client_ip (λ s. s) (lit "1.2.3.4,5.6.7.8") [] (lit "9.9.9.9:80") ≡ lit "1.2.3.4"
unfolding client_ip
test_client_ip = refl

test_remote_address : client_ip (λ s. s) [] [] (lit "[::1]:80") ≡ lit "[::1]"
unfolding client_ip
test_remote_address = refl
