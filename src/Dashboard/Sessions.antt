-- ===== src/Dashboard/Sessions.antt =====
-- HandleRefresh and HandleLogout of server/internal/dashboard/handlers/auth.go. HMAC, base64, JSON,
-- SHA-256 and the random bytes are parameters; users and organisations are given by lookups.
pub mod Rotation
pub mod Replay
use promptmeter.Prelude.{
  ℕ, ◌+◌, ◌*◌, Bool, Option, none, some, List, Str, lit, is_empty, is_some, ltb, if◌then◌else◌,
}
use promptmeter.Auth.Jwt.{JwtClaims, Codec, sign_jwt}
use promptmeter.Auth.RefreshText.{generate_refresh_token, hash_refresh_token}
use promptmeter.Domain.Account.{User, Organization, RefreshToken}
use promptmeter.Domain.OrgId.{org_id_to_uint64}
use promptmeter.Domain.Time.{Time, Duration, hour}
use promptmeter.Storage.Redis.{Got}
use promptmeter.Storage.RefreshTokens.{
  NewToken, create_refresh_token, get_refresh_token_by_hash, revoke_all_user_tokens,
  revoke_refresh_token,
}

pub data RefreshOutcome : Type 0 where
  missing_token internal_error unknown_token reuse_detected expired no_user no_organization :
      RefreshOutcome
  -- 200, with the cookies pm_session and pm_refresh
  refreshed : Str → Str → RefreshOutcome

-- What the world answers during one request: the time, in nanoseconds and in Unix seconds; the random
-- bytes; the defaults of a new row; whether the SELECT, the UPDATE of one token and that of all of a
-- user's tokens fail; and the tables of users and of their organisations.
pub record World : Type 0 where
  pub now : Time
  pub unix_now : ℕ
  pub random : Option (List ℕ)
  pub inserted : Option NewToken
  pub select_fails : Bool
  pub revoke_fails : Bool
  pub revoke_all_fails : Bool
  pub user_by_id : Str → Got User
  pub org_by_user_id : Str → Got Organization

-- Seven days.
abbrev pub refresh_expiry : Duration
refresh_expiry = 7 * 24 * hour

abbrev pub session_claims : User → Organization → JwtClaims
session_claims user org = record {
  sub = user.id;
  org = org.id;
  org_numeric = org_id_to_uint64 org.id;
  role = lit "owner";
  tier = org.tier;
  iat = 0;
  exp = 0;
}

module _ (codec : Codec) (sha256 : Str → List ℕ) (jwt_secret : Str) where
  -- The end of issueTokenPair, from a JWT and a refresh token on.
  unfoldable pub store_pair :
      World
      → User
      → List RefreshToken
      → Option Str
      → Option (Str × Str)
      → Option (Str × Str × List RefreshToken)
  unfolding create_refresh_token
  store_pair w user rows (some jwt) (some (plaintext, hash)) =
      elim (create_refresh_token w.inserted user.id hash (w.now + refresh_expiry) rows) [
        | none ↦ none
        | some rows' ↦ some (jwt, plaintext, rows')
      ]
  store_pair w user rows _ _ = none

  -- issueTokenPair: the JWT, the refresh token's plaintext, and the table.
  unfoldable pub issue_token_pair :
      World → User → Organization → List RefreshToken → Option (Str × Str × List RefreshToken)
  unfolding store_pair sign_jwt generate_refresh_token
  issue_token_pair w user org rows =
      store_pair w user rows
        (sign_jwt codec w.unix_now w.unix_now (session_claims user org) jwt_secret)
        (generate_refresh_token sha256 w.random)

  unfoldable pub refresh_pair :
      World → User → Organization → List RefreshToken → RefreshOutcome × List RefreshToken
  unfolding issue_token_pair
  refresh_pair w user org rows = elim (issue_token_pair w user org rows) [
    | none ↦ (RefreshOutcome.internal_error, rows)
    | some (jwt, plaintext, rows') ↦ (RefreshOutcome.refreshed jwt plaintext, rows')
  ]

  unfoldable pub refresh_org :
      World → User → List RefreshToken → Got Organization → RefreshOutcome × List RefreshToken
  unfolding refresh_pair
  refresh_org w user rows (Got.found org) = refresh_pair w user org rows
  refresh_org w user rows _ = (RefreshOutcome.no_organization, rows)

  unfoldable pub refresh_user :
      World → List RefreshToken → Got User → RefreshOutcome × List RefreshToken
  unfolding refresh_org
  refresh_user w rows (Got.found user) = refresh_org w user rows (w.org_by_user_id user.id)
  refresh_user w rows _ = (RefreshOutcome.no_user, rows)

  -- HandleRefresh behind the lookup of the token.
  unfoldable pub refresh_stored :
      World → List RefreshToken → Got RefreshToken → RefreshOutcome × List RefreshToken
  unfolding refresh_user revoke_all_user_tokens revoke_refresh_token
  refresh_stored w rows Got.failed = (RefreshOutcome.internal_error, rows)
  refresh_stored w rows Got.missing = (RefreshOutcome.unknown_token, rows)
  refresh_stored w rows (Got.found stored) =
      if is_some stored.revoked_at
      then (
        RefreshOutcome.reuse_detected,
        revoke_all_user_tokens w.revoke_all_fails stored.user_id w.now rows,
      )
      else if ltb stored.expires_at w.now
      then (RefreshOutcome.expired, rows)
      else refresh_user w (revoke_refresh_token w.revoke_fails stored.id w.now rows)
          (w.user_by_id stored.user_id)

  -- HandleRefresh; `none` for the cookie is one that was not sent.
  unfoldable pub handle_refresh :
      World → Option Str → List RefreshToken → RefreshOutcome × List RefreshToken
  unfolding refresh_stored get_refresh_token_by_hash hash_refresh_token
  handle_refresh w none rows = (RefreshOutcome.missing_token, rows)
  handle_refresh w (some value) rows =
      if is_empty value
      then (RefreshOutcome.missing_token, rows)
      else refresh_stored w rows
          (get_refresh_token_by_hash w.select_fails rows (hash_refresh_token sha256 value))

  unfoldable pub revoke_found : World → List RefreshToken → Got RefreshToken → List RefreshToken
  unfolding revoke_refresh_token
  revoke_found w rows (Got.found stored) = revoke_refresh_token w.revoke_fails stored.id w.now rows
  revoke_found w rows _ = rows

  -- HandleLogout; it answers 200 and clears the cookies in any case.
  unfoldable pub handle_logout : World → Option Str → List RefreshToken → List RefreshToken
  unfolding revoke_found get_refresh_token_by_hash hash_refresh_token
  handle_logout w none rows = rows
  handle_logout w (some value) rows =
      if is_empty value
      then rows
      else revoke_found w rows
          (get_refresh_token_by_hash w.select_fails rows (hash_refresh_token sha256 value))
