-- ===== src/Middleware/Session.antt =====
-- server/internal/middleware/jwt.go: the session cookie, and the automatic login of a self-hosted
-- server.
pub mod Admitted
pub mod Stale
use promptmeter.Prelude.{
  ℕ, Bool, true, false, Option, none, some, List, [], ◌∷◌, ◌++◌, Str, lit, str_eq, is_empty,
  if◌then◌else◌,
}
use promptmeter.Auth.Jwt.{JwtClaims, Verdict, Codec, sign_jwt, verify_jwt}

pub record Cookie : Type 0 where
  pub name : Str
  pub value : Str

-- r.Cookie: the first cookie of the name.
unfoldable pub cookie_of : Str → List Cookie → Option Str
unfolding str_eq
cookie_of n [] = none
cookie_of n (c ∷ cs) = if str_eq c.name n then some c.value else cookie_of n cs

-- What the middleware puts into the context of a request.
pub record Context : Type 0 where
  pub user_id : Str
  pub org_id : Str
  pub org_numeric : ℕ
  pub tier : Str
  pub role : Str

-- The answers UNAUTHORIZED (without a cookie, or with a bad one), TOKEN_EXPIRED and INTERNAL_ERROR, or
-- the next handler's.
pub data Gate : Type 0 where
  no_cookie invalid expired internal_error : Gate
  admitted : Context → Gate

unfoldable pub context_of : JwtClaims → Context
context_of c = record {
  user_id = c.sub;
  org_id = c.org;
  org_numeric = c.org_numeric;
  tier = c.tier;
  role = c.role;
}

unfoldable pub gate_of : Verdict → Gate
unfolding context_of
gate_of (Verdict.claims c) = Gate.admitted (context_of c)
gate_of Verdict.expired = Gate.expired
gate_of _ = Gate.invalid

-- The claims of the automatic login.
unfoldable pub default_claims : Str → Str → ℕ → JwtClaims
default_claims user org org_numeric = record {
  sub = user;
  org = org;
  org_numeric = org_numeric;
  role = lit "owner";
  tier = lit "free";
  iat = 0;
  exp = 0;
}

abbrev pub session_cookie : Str → Cookie
session_cookie token = record { name = lit "pm_session"; value = token }

abbrev pub is_claims : Verdict → Bool
is_claims (Verdict.claims c) = true
is_claims _ = false

module _ (codec : Codec) (secret : Str) where
  unfoldable pub gate_cookie : ℕ → Option Str → Gate
  unfolding gate_of verify_jwt
  gate_cookie now none = Gate.no_cookie
  gate_cookie now (some value) =
      if is_empty value then Gate.no_cookie else gate_of (verify_jwt codec now value secret)

  -- JWTAuthMiddleware
  unfoldable pub jwt_auth : ℕ → List Cookie → Gate
  unfolding gate_cookie cookie_of
  jwt_auth now cookies = gate_cookie now (cookie_of (lit "pm_session") cookies)

  -- Whether the cookie of the request is good.
  unfoldable pub signed_in : ℕ → Option Str → Bool
  unfolding verify_jwt
  signed_in now none = false
  signed_in now (some value) =
      if is_empty value then false else is_claims (verify_jwt codec now value secret)

  unfoldable pub login : ℕ → List Cookie → Option Str → Option Str × Gate
  unfolding jwt_auth
  login now cookies none = (none, Gate.internal_error)
  login now cookies (some token) = (some token, jwt_auth now (cookies ++ session_cookie token ∷ []))

  -- AutoLoginMiddleware before JWTAuthMiddleware, as the router has them: the cookie that the response
  -- sets, and the outcome. The clock is read once.
  unfoldable pub auto_login : Str → Str → ℕ → ℕ → List Cookie → Option Str × Gate
  unfolding signed_in login jwt_auth sign_jwt default_claims
  auto_login user org org_numeric now cookies =
      if signed_in now (cookie_of (lit "pm_session") cookies)
      then (none, jwt_auth now cookies)
      else login now cookies (sign_jwt codec now now (default_claims user org org_numeric) secret)
