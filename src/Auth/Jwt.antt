-- ===== src/Auth/Jwt.antt =====
-- server/internal/auth/jwt.go. HMAC-SHA256, base64 and encoding/json are parameters.
pub mod Verified
use promptmeter.Prelude.{
  ℕ, ◌+◌, ◌≡◌, ◌≢◌, Bool, not, ◌||◌, Option, none, some, List, [], ◌∷◌, ◌++◌, Str, lit, str_eq, ltb,
  ◌==◌, is_empty, if◌then◌else◌, All,
}

-- `iat` and `exp` are in seconds from the start of 1970, and not negative here.
pub record JwtClaims : Type 0 where
  pub sub : Str
  pub org : Str
  pub org_numeric : ℕ
  pub role : Str
  pub tier : Str
  pub iat : ℕ
  pub exp : ℕ

-- ErrTokenMalformed, ErrSignatureInvalid, ErrTokenInvalid, ErrTokenExpired, or the claims.
pub data Verdict : Type 0 where
  malformed signature_invalid token_invalid expired : Verdict
  claims : JwtClaims → Verdict

-- hmac.New(sha256.New, secret) over an input, base64.RawURLEncoding, and JSON at JWTClaims.
pub record Codec : Type 0 where
  pub hmac : Str → Str → Str
  pub encode64 : Str → Str
  pub decode64 : Str → Option Str
  pub marshal : JwtClaims → Option Str
  pub unmarshal : Str → Option JwtClaims

abbrev pub IsDotFree : Str → Type 0
IsDotFree s = All (λ c. c ≢ b'.') s

-- The alphabet of base64 has no dot, and decoding undoes encoding.
pub record IsCodec (codec : Codec) : Type 0 where
  pub dot_free : (s : Str) → IsDotFree (codec.encode64 s)
  pub decoded : (s : Str) → codec.decode64 (codec.encode64 s) ≡ some s

abbrev pub put_first : ℕ → List Str → List Str
put_first c [] = (c ∷ []) ∷ []
put_first c (part ∷ parts) = (c ∷ part) ∷ parts

-- strings.Split(s, ".")
unfoldable pub split_dots : Str → List Str
split_dots [] = [] ∷ []
split_dots (c ∷ s) = let parts = split_dots s in if c == b'.' then [] ∷ parts else put_first c parts

-- DefaultJWTExpiry, in seconds
abbrev pub default_jwt_expiry : ℕ
default_jwt_expiry = 900

-- The claims with the times that SignJWT fills in; `later` is the second reading of the clock.
abbrev pub stamped : ℕ → ℕ → JwtClaims → JwtClaims
stamped now later c = record c {
  iat = if c.iat == 0 then now else c.iat;
  exp = if c.exp == 0 then later + default_jwt_expiry else c.exp;
}

module _ (codec : Codec) where
  -- signHS256
  unfoldable pub sign_hs256 : Str → Str → Str
  sign_hs256 input secret = codec.encode64 (codec.hmac secret input)

  abbrev pub jwt_header : Str
  jwt_header = codec.encode64 (lit "{\"alg\":\"HS256\",\"typ\":\"JWT\"}")

  -- SignJWT
  unfoldable pub sign_jwt : ℕ → ℕ → JwtClaims → Str → Option Str
  unfolding sign_hs256
  sign_jwt now later c secret = elim (codec.marshal (stamped now later c)) [
    | none ↦ none
    | some payload ↦
        let input = jwt_header ++ (lit "." ++ codec.encode64 payload) in
        some (input ++ (lit "." ++ sign_hs256 input secret))
  ]

  -- The last checks of VerifyJWT.
  unfoldable pub check_claims : ℕ → Option JwtClaims → Verdict
  check_claims now none = Verdict.malformed
  check_claims now (some c) =
      if is_empty c.sub || is_empty c.org
      then Verdict.token_invalid
      else if ltb c.exp now
      then Verdict.expired
      else Verdict.claims c

  unfoldable pub read_payload : ℕ → Option Str → Verdict
  unfolding check_claims
  read_payload now none = Verdict.malformed
  read_payload now (some payload) = check_claims now (codec.unmarshal payload)

  unfoldable pub verify_parts : ℕ → Str → List Str → Verdict
  unfolding sign_hs256 str_eq read_payload
  verify_parts now secret (h ∷ p ∷ sig ∷ []) =
      if not (str_eq sig (sign_hs256 (h ++ (lit "." ++ p)) secret))
      then Verdict.signature_invalid
      else read_payload now (codec.decode64 p)
  verify_parts now secret _ = Verdict.malformed

  -- VerifyJWT
  unfoldable pub verify_jwt : ℕ → Str → Str → Verdict
  unfolding verify_parts split_dots
  verify_jwt now token secret = verify_parts now secret (split_dots token)
