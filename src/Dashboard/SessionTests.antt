-- ===== src/Dashboard/SessionTests.antt =====
-- Refresh tokens at concrete inputs.
use promptmeter.Prelude.{
  sym, true, ap, is_some, ℕ, ◌≡◌, ◌≢◌, refl, false, none, some, List, [], ◌∷◌, Str, lit, arith, ap,
  length,
}
use promptmeter.Auth.Jwt.{Codec}
use promptmeter.Auth.RefreshText.{hash_refresh_token}
use promptmeter.Domain.Account.{User, Organization, RefreshToken}
use promptmeter.Storage.Redis.{Got}
use promptmeter.Storage.RefreshTokens.{token_with_hash, get_refresh_token_by_hash}
use promptmeter.Dashboard.Sessions.{World, RefreshOutcome, handle_refresh}
use promptmeter.Dashboard.Sessions.Rotation.{IsSignedOut, handle_refresh-reuse}
use promptmeter.Dashboard.Sessions.Replay.{IsUserById, handle_refresh-replay}

-- A digest that counts the bytes, and a codec that says nothing.
abbrev digest : Str → List ℕ
digest s = length s ∷ []

abbrev codec : Codec
codec = record {
  hmac = λ k s. [];
  encode64 = λ s. [];
  decode64 = λ s. none;
  marshal = λ c. some [];
  unmarshal = λ s. none;
}

abbrev sample_user : User
sample_user = record { id = lit "u"; email = []; name = []; avatar_url = []; created_at = 1 }

abbrev sample_org : Organization
sample_org = record {
  id = [];
  name = [];
  slug = [];
  tier = lit "pro";
  timezone = [];
  pii_enabled = false;
  slack_webhook_url = none;
  stripe_customer_id = none;
  stripe_subscription_id = none;
  created_at = 1;
  updated_at = 1;
}

abbrev world : World
world = record {
  now = 50;
  unix_now = 5;
  random = some (1 ∷ []);
  inserted = some (record { id = lit "t2"; created_at = 50 });
  select_fails = false;
  revoke_fails = false;
  revoke_all_fails = false;
  user_by_id = λ id. Got.found (record sample_user { id = id });
  org_by_user_id = λ id. Got.found sample_org;
}

abbrev used_token : RefreshToken
used_token = record {
  id = lit "t1";
  user_id = lit "u";
  token_hash = lit "02";
  expires_at = 100;
  revoked_at = some 20;
  created_at = 1;
}

abbrev live_token : RefreshToken
live_token = record used_token { revoked_at = none }

found_used :
    get_refresh_token_by_hash false (used_token ∷ []) (hash_refresh_token digest (lit "rt"))
    ≡ Got.found used_token
unfolding get_refresh_token_by_hash hash_refresh_token
found_used = refl

handle_refresh-reuse_example :
    ((handle_refresh codec digest [] world (some (lit "rt")) (used_token ∷ [])).0
      ≡ RefreshOutcome.reuse_detected)
    × IsSignedOut
        (lit "u")
        (handle_refresh codec digest [] world (some (lit "rt")) (used_token ∷ [])).1
handle_refresh-reuse_example =
    handle_refresh-reuse codec digest [] world (lit "rt") (used_token ∷ []) used_token (λ e. cc)
      found_used refl refl

-- The table behind the exchange of the live token.
abbrev exchanged : List RefreshToken
exchanged = (handle_refresh codec digest [] world (some (lit "rt")) (live_token ∷ [])).1

exchange :
    handle_refresh codec digest [] world (some (lit "rt")) (live_token ∷ [])
    ≡ (RefreshOutcome.refreshed (lit "..") (lit "rt_01"), exchanged)
unfolding handle_refresh
exchange = refl

abbrev second_byte : Str → ℕ
second_byte (_ ∷ x ∷ _) = x
second_byte _ = 0

fresh_hash : hash_refresh_token digest (lit "rt_01") ≢ hash_refresh_token digest (lit "rt")
unfolding hash_refresh_token
fresh_hash e = absurd (omega (arith, ap second_byte e))

abbrev id_of : Got User → Str
id_of (Got.found u) = u.id
id_of _ = []

world-IsUserById : IsUserById world
world-IsUserById id user e = sym (ap id_of e)

handle_refresh-replay_example :
    (t : RefreshToken) × (get_refresh_token_by_hash false
        (live_token ∷ [])
        (hash_refresh_token digest (lit "rt"))
      ≡ Got.found t)
    × ((handle_refresh codec digest [] world (some (lit "rt")) exchanged).0
        ≡ RefreshOutcome.reuse_detected)
    × IsSignedOut t.user_id (handle_refresh codec digest [] world (some (lit "rt")) exchanged).1
    × ((gone : RefreshToken) × (token_with_hash
            (hash_refresh_token digest (lit "rt_01"))
            (handle_refresh codec digest [] world (some (lit "rt")) exchanged).1
          ≡ Got.found gone)
        × (is_some gone.revoked_at ≡ true))
handle_refresh-replay_example =
    handle_refresh-replay codec digest [] world world (lit "rt") (live_token ∷ []) exchanged
      (lit "..") (lit "rt_01") world-IsUserById refl refl refl fresh_hash exchange
