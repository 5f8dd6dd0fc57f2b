-- ===== src/Storage/RefreshTokens.antt =====
-- The table refresh_tokens, server/internal/storage/postgres.go. The Booleans say if a statement
-- fails; `none` is then its error.
use promptmeter.Prelude.{
  Bool, not, ◌&&◌, Option, none, some, List, [], ◌∷◌, Str, str_eq, is_some, if◌then◌else◌, map,
}
use promptmeter.Domain.Account.{RefreshToken}
use promptmeter.Domain.Time.{Time}
use promptmeter.Storage.Redis.{Got}

-- The row with the hash, if there is one.
unfoldable pub token_with_hash : Str → List RefreshToken → Got RefreshToken
unfolding str_eq
token_with_hash token_hash [] = Got.missing
token_with_hash token_hash (row ∷ rows) =
    let rest = token_with_hash token_hash rows in
    if str_eq row.token_hash token_hash then Got.found row else rest

-- GetRefreshTokenByHash
unfoldable pub get_refresh_token_by_hash : Bool → List RefreshToken → Str → Got RefreshToken
unfolding token_with_hash
get_refresh_token_by_hash fails rows token_hash =
    if fails then Got.failed else token_with_hash token_hash rows

-- What the defaults of the table give a new row.
pub record NewToken : Type 0 where
  pub id : Str
  pub created_at : Time

-- CreateRefreshToken; `none` for the defaults is an error of the INSERT.
unfoldable pub create_refresh_token :
    Option NewToken → Str → Str → Time → List RefreshToken → Option (List RefreshToken)
create_refresh_token none user_id token_hash expires_at rows = none
create_refresh_token (some given) user_id token_hash expires_at rows = some (
    record {
      id = given.id;
      user_id = user_id;
      token_hash = token_hash;
      expires_at = expires_at;
      revoked_at = none;
      created_at = given.created_at;
    }
    ∷ rows)

unfoldable pub revoke_one : Str → Time → RefreshToken → RefreshToken
unfolding str_eq
revoke_one id now row = if str_eq row.id id then record row { revoked_at = some now } else row

-- RevokeRefreshToken: the table afterwards, also where the statement fails.
unfoldable pub revoke_refresh_token : Bool → Str → Time → List RefreshToken → List RefreshToken
unfolding revoke_one
revoke_refresh_token fails id now rows = if fails then rows else map (revoke_one id now) rows

unfoldable pub revoke_of_user : Str → Time → RefreshToken → RefreshToken
unfolding str_eq
revoke_of_user user_id now row =
    if str_eq row.user_id user_id && not (is_some row.revoked_at)
    then record row { revoked_at = some now }
    else row

-- RevokeAllUserTokens
unfoldable pub revoke_all_user_tokens : Bool → Str → Time → List RefreshToken → List RefreshToken
unfolding revoke_of_user
revoke_all_user_tokens fails user_id now rows =
    if fails then rows else map (revoke_of_user user_id now) rows
