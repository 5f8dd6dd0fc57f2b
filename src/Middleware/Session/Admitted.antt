-- ===== src/Middleware/Session/Admitted.antt =====
-- How long the session that the dashboard hands out is good for.
use promptmeter.Prelude.{
  ℕ, ◌+◌, ◌≡◌, ◌≢◌, refl, sym, ap, ◌∙◌, Bool, true, false, Option, none, some, List, [], ◌∷◌, ◌++◌,
  Str, lit, is_empty, ltb, if◌then◌else◌, Option-cases, inl, inr,
}
use promptmeter.Domain.Account.{User, Organization, RefreshToken}
use promptmeter.Domain.OrgId.{org_id_to_uint64}
use promptmeter.Storage.RefreshTokens.{create_refresh_token}
use promptmeter.Auth.Jwt.{
  jwt_header, sign_hs256, JwtClaims, Verdict, Codec, IsCodec, stamped, sign_jwt, check_claims,
  verify_jwt,
}
use promptmeter.Auth.Jwt.Verified.{token_for, verify_jwt-token_for}
use promptmeter.Dashboard.Sessions.{
  World, session_claims, refresh_expiry, store_pair, issue_token_pair,
}
use promptmeter.Middleware.Session.{Cookie, Gate, session_cookie, context_of, gate_of, jwt_auth}

is_empty-append : (xs ys : Str) → is_empty ys ≡ false → is_empty (xs ++ ys) ≡ false
is_empty-append [] ys h = h
is_empty-append (x ∷ xs) ys h = refl

is_empty-false : (s : Str) → s ≢ [] → is_empty s ≡ false
is_empty-false [] h = absurd (h refl)
is_empty-false (x ∷ s) h = refl

some_injective : {A : Type 0} {a b : A} → some a ≡ some b → a ≡ b
some_injective e = cc

pub check_claims_lem :
    (codec : Codec) (t : ℕ) (c : JwtClaims)
    → c.sub ≢ []
    → c.org ≢ []
    → check_claims codec t (some c) ≡ (if ltb c.exp t then Verdict.expired else Verdict.claims c)
unfolding check_claims
check_claims_lem codec t c sub org = rw (is_empty-false c.sub sub, is_empty-false c.org org) refl

pub gate_of-if :
    (b : Bool) (c : JwtClaims)
    → gate_of (if b then Verdict.expired else Verdict.claims c)
      ≡ (if b then Gate.expired else Gate.admitted (context_of c))
unfolding gate_of
gate_of-if true c = refl
gate_of-if false c = refl

module _ (codec : Codec) (secret : Str) where
  -- The first cookie of the name decides.
  jwt_auth-session_cookie :
      (t : ℕ) (token : Str) (cookies : List Cookie)
      → is_empty token ≡ false
      → jwt_auth codec secret t (session_cookie token ∷ cookies)
        ≡ gate_of (verify_jwt codec t token secret)
  unfolding jwt_auth
  jwt_auth-session_cookie t token cookies h = rw h refl

  pub sign_jwt-token_for :
      (now later : ℕ) (c : JwtClaims) (payload : Str)
      → codec.marshal (stamped now later c) ≡ some payload
      → sign_jwt codec now later c secret ≡ some (token_for codec payload secret)
  unfolding sign_jwt
  sign_jwt-token_for now later c payload written = rw (sign_jwt, written) refl

  pub token_for-is_empty : (payload : Str) → is_empty (token_for codec payload secret) ≡ false
  token_for-is_empty payload =
      is_empty-append (jwt_header codec ++ (lit "." ++ codec.encode64 payload))
        (lit "."
          ++ sign_hs256 codec (jwt_header codec ++ (lit "." ++ codec.encode64 payload)) secret)
        refl

module _ (codec : Codec) (sha256 : Str → List ℕ) (secret : Str) (w : World) (user : User)
    (rows : List RefreshToken) where
  store_pair-jwt :
      (o : Option Str) (p : Option (Str × Str)) (jwt plaintext : Str) (rows' : List RefreshToken)
      → store_pair codec sha256 secret w user rows o p ≡ some (jwt, plaintext, rows')
      → o ≡ some jwt
  unfolding store_pair
  store_pair-jwt none p jwt plaintext rows' e = absurd (cc)
  store_pair-jwt (some token) none jwt plaintext rows' e = absurd (cc)
  store_pair-jwt (some token) (some (text, hash)) jwt plaintext rows' e =
      elim (Option-cases
        (create_refresh_token w.inserted user.id hash (w.now + refresh_expiry) rows)) [
          | inl failed ↦ absurd (cc)
          | inr (rows2, stored) ↦ cc
        ]

-- A session that issueTokenPair hands out, for a user and an organisation with ids that are not empty,
-- is admitted by JWTAuthMiddleware up to 900 seconds later, as the user, the organisation with its
-- number and its tier, and the role of an owner; after that it is refused as expired. The cookie must
-- come before any other of its name, and the claims must survive JSON.
pub issue_token_pair-jwt_auth :
    (codec : Codec)
    → IsCodec codec
    → (sha256 : Str → List ℕ) (secret : Str) (w : World) (user : User) (org : Organization)
      (rows rows' : List RefreshToken) (jwt plaintext payload : Str) (t : ℕ) (cookies : List Cookie)
    → codec.marshal (stamped w.unix_now w.unix_now (session_claims user org)) ≡ some payload
    → codec.unmarshal payload ≡ some (stamped w.unix_now w.unix_now (session_claims user org))
    → user.id ≢ []
    → org.id ≢ []
    → issue_token_pair codec sha256 secret w user org rows ≡ some (jwt, plaintext, rows')
    → jwt_auth codec secret t (session_cookie jwt ∷ cookies) ≡ (
        if ltb (w.unix_now + 900) t
        then Gate.expired
        else Gate.admitted (record {
          user_id = user.id;
          org_id = org.id;
          org_numeric = org_id_to_uint64 org.id;
          tier = org.tier;
          role = lit "owner";
        }))
unfolding issue_token_pair context_of
issue_token_pair-jwt_auth codec laws sha256 secret w user org rows rows' jwt plaintext payload t
      cookies written back u o e =
    let signed =
      sign_jwt-token_for codec secret w.unix_now w.unix_now (session_claims user org) payload
        written in
    let given = store_pair-jwt codec sha256 secret w user rows _ _ jwt plaintext rows' e in
    let c = stamped w.unix_now w.unix_now (session_claims user org) in
    let token = token_for codec payload secret in
    let same : jwt ≡ token = some_injective (sym given ∙ signed) in
    ap (λ text. jwt_auth codec secret t (session_cookie text ∷ cookies)) same
    ∙ jwt_auth-session_cookie codec secret t token cookies (token_for-is_empty codec secret payload)
    ∙ ap gate_of (
        verify_jwt-token_for codec laws t payload secret
        ∙ ap (check_claims codec t) back
        ∙ check_claims_lem codec t c u o)
    ∙ gate_of-if (ltb c.exp t) c
