-- ===== src/Auth/RefreshText.antt =====
-- The text of a refresh token, server/internal/auth/refresh.go.
use promptmeter.Prelude.{ℕ, Option, none, some, List, ◌++◌, Str, lit, hex_encode}

abbrev pub refresh_token_prefix : Str
refresh_token_prefix = lit "rt_"

module _ (sha256 : Str → List ℕ) where
  -- HashRefreshToken
  unfoldable pub hash_refresh_token : Str → Str
  unfolding hex_encode
  hash_refresh_token token = hex_encode (sha256 token)

  -- GenerateRefreshToken: the plaintext and its hash; `none` for the bytes is an error of
  -- crypto/rand.
  unfoldable pub generate_refresh_token : Option (List ℕ) → Option (Str × Str)
  unfolding hash_refresh_token hex_encode
  generate_refresh_token none = none
  generate_refresh_token (some buf) =
      let plaintext = refresh_token_prefix ++ hex_encode buf in
      some (plaintext, hash_refresh_token plaintext)
