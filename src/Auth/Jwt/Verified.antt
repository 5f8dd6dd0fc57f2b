-- ===== src/Auth/Jwt/Verified.antt =====
-- What VerifyJWT accepts.
use mathlib.Core.List.{append_assoc}
use mathlib.Core.Path.{subst}
use promptmeter.Prelude.{
  ltb_false→le, ℕ, ◌≤◌, ◌≡◌, ◌≢◌, refl, sym, ap, ◌∙◌, inl, inr, false, Option, none, some, List, [],
  ◌∷◌, ◌++◌, Str, arith, lit, str_eq, str_eq_refl, str_eq_iff, ltb, ==_iff, is_empty, Bool-cases,
}
use promptmeter.Auth.Jwt.{
  JwtClaims, Verdict, Codec, IsDotFree, IsCodec, split_dots, stamped, sign_hs256, jwt_header,
  sign_jwt, check_claims, read_payload, verify_parts, verify_jwt,
}

split_dots-IsDotFree : (a : Str) → IsDotFree a → split_dots a ≡ a ∷ []
unfolding split_dots
split_dots-IsDotFree [] h = refl
split_dots-IsDotFree (c ∷ a) h = ground (arith, split_dots-IsDotFree a h.1, ==_iff c b'.', h.0)

split_dots-append : (a r : Str) → IsDotFree a → split_dots (a ++ (lit "." ++ r)) ≡ a ∷ split_dots r
unfolding split_dots
split_dots-append [] r h = refl
split_dots-append (c ∷ a) r h = ground (arith, split_dots-append a r h.1, ==_iff c b'.', h.0)

filled : (s : Str) → s ≢ [] → is_empty s ≡ false
filled [] h = absurd (h refl)
filled (c ∷ s) h = refl

unfilled : (s : Str) → is_empty s ≡ false → s ≢ []
unfilled [] h e = absurd (cc)
unfilled (c ∷ s) h e = cc

invalid≢claims : {c : JwtClaims} → Verdict.token_invalid ≢ Verdict.claims c
invalid≢claims e = cc

expired≢claims : {c : JwtClaims} → Verdict.expired ≢ Verdict.claims c
expired≢claims e = cc

abbrev claims_or : JwtClaims → Verdict → JwtClaims
claims_or d (Verdict.claims c) = c
claims_or d _ = d

module _ (codec : Codec) (now : ℕ) where
  check_claims-good :
      (c : JwtClaims)
      → c.sub ≢ []
      → c.org ≢ []
      → now ≤ c.exp
      → check_claims codec now (some c) ≡ Verdict.claims c
  unfolding check_claims
  check_claims-good c sub org exp = rw (filled c.sub sub, filled c.org org) (ground (arith, exp))

  check_claims-claims :
      (o : Option JwtClaims) (c : JwtClaims)
      → check_claims codec now o ≡ Verdict.claims c
      → (o ≡ some c) × (c.sub ≢ []) × (c.org ≢ []) × (now ≤ c.exp)
  unfolding check_claims
  check_claims-claims none c h = absurd (cc)
  check_claims-claims (some d) c h = elim (Bool-cases (is_empty d.sub)) [
    | inl e ↦ absurd (invalid≢claims (sym (rw (check_claims, e) refl) ∙ h))
    | inr e ↦ elim (Bool-cases (is_empty d.org)) [
      | inl f ↦ absurd (invalid≢claims (sym (rw (check_claims, e, f) refl) ∙ h))
      | inr f ↦ elim (Bool-cases (ltb d.exp now)) [
        | inl g ↦ absurd (expired≢claims (sym (rw (check_claims, e, f, g) refl) ∙ h))
        | inr g ↦
            let same : Verdict.claims d ≡ Verdict.claims c =
              sym (rw (check_claims, e, f, g) refl) ∙ h in
            let equal = ap (claims_or d) same in
            (
              ap some equal,
              subst (λ x. x.sub ≢ []) equal (unfilled d.sub e),
              subst (λ x. x.org ≢ []) equal (unfilled d.org f),
              subst (λ x. now ≤ x.exp) equal (ltb_false→le _ _ g),
            )
      ]
    ]
  ]

-- The token for an input.
abbrev pub token_for : Codec → Str → Str → Str
token_for codec payload secret =
    let input = jwt_header codec ++ (lit "." ++ codec.encode64 payload) in
    input ++ (lit "." ++ sign_hs256 codec input secret)

split_dots-token_for :
    (codec : Codec) (laws : IsCodec codec) (payload secret : Str)
    → split_dots (token_for codec payload secret)
      ≡ jwt_header codec
        ∷ codec.encode64 payload
        ∷ sign_hs256 codec (jwt_header codec ++ (lit "." ++ codec.encode64 payload)) secret
        ∷ []
unfolding sign_hs256
split_dots-token_for codec laws payload secret =
    let h = jwt_header codec in
    let p = codec.encode64 payload in
    let sig = sign_hs256 codec (h ++ (lit "." ++ p)) secret in
    ap split_dots (append_assoc h (lit "." ++ p) (lit "." ++ sig))
    ∙ split_dots-append h (p ++ (lit "." ++ sig)) (laws.dot_free _)
    ∙ ap (λ parts. h ∷ parts)
        (split_dots-append p sig (laws.dot_free payload)
          ∙ ap (λ parts. p ∷ parts) (split_dots-IsDotFree sig (laws.dot_free _)))

pub verify_jwt-token_for :
    (codec : Codec) (laws : IsCodec codec) (t : ℕ) (payload secret : Str)
    → verify_jwt codec t (token_for codec payload secret) secret
      ≡ check_claims codec t (codec.unmarshal payload)
unfolding verify_jwt
verify_jwt-token_for codec laws t payload secret =
    rw (split_dots-token_for codec laws payload secret) (
      rw
        (
          str_eq_refl
              (sign_hs256 codec (jwt_header codec ++ (lit "." ++ codec.encode64 payload)) secret),
          laws.decoded payload,
        )
        refl)

-- A token that SignJWT makes, VerifyJWT accepts with the same secret until it expires, and gives
-- back the claims, with the times that SignJWT filled in; the claims must name a user and an
-- organisation.
pub verify_jwt-sign_jwt :
    (codec : Codec) (laws : IsCodec codec) (now later t : ℕ) (c : JwtClaims) (secret payload : Str)
    → codec.marshal (stamped now later c) ≡ some payload
    → codec.unmarshal payload ≡ some (stamped now later c)
    → c.sub ≢ []
    → c.org ≢ []
    → t ≤ (stamped now later c).exp
    → (token : Str) × (sign_jwt codec now later c secret ≡ some token)
      × (verify_jwt codec t token secret ≡ Verdict.claims (stamped now later c))
unfolding sign_jwt
verify_jwt-sign_jwt codec laws now later t c secret payload written back sub org fresh = (
  token_for codec payload secret,
  rw (sign_jwt, written) refl,
  verify_jwt-token_for codec laws t payload secret
      ∙ ap (check_claims codec t) back
      ∙ check_claims-good codec t (stamped now later c) sub org fresh,
)

-- What the three parts of an accepted token are.
pub record IsSigned (codec : Codec) (now : ℕ) (secret : Str) (parts : List Str) (c : JwtClaims)
    : Type 0 where
  pub header : Str
  pub payload : Str
  pub text : Str
  pub three_parts :
      parts ≡ header ∷ payload ∷ sign_hs256 codec (header ++ (lit "." ++ payload)) secret ∷ []
  pub decoded : codec.decode64 payload ≡ some text
  pub unmarshalled : codec.unmarshal text ≡ some c
  pub named : (c.sub ≢ []) × (c.org ≢ [])
  pub fresh : now ≤ c.exp

malformed≢claims : {c : JwtClaims} → Verdict.malformed ≢ Verdict.claims c
malformed≢claims e = cc

unsigned≢claims : {c : JwtClaims} → Verdict.signature_invalid ≢ Verdict.claims c
unsigned≢claims e = cc

module _ (codec : Codec) (now : ℕ) where
  read_payload-claims :
      (o : Option Str) (c : JwtClaims)
      → read_payload codec now o ≡ Verdict.claims c
      → (text : Str) × (o ≡ some text)
        × (check_claims codec now (codec.unmarshal text) ≡ Verdict.claims c)
  unfolding read_payload
  read_payload-claims none c e = absurd (malformed≢claims e)
  read_payload-claims (some text) c e = (text, refl, e)

  IsSigned-parts :
      (h p sig secret : Str) (c : JwtClaims)
      → verify_parts codec now secret (h ∷ p ∷ sig ∷ []) ≡ Verdict.claims c
      → IsSigned codec now secret (h ∷ p ∷ sig ∷ []) c
  unfolding verify_parts
  IsSigned-parts h p sig secret c e =
      let signature = sign_hs256 codec (h ++ (lit "." ++ p)) secret in
      elim (Bool-cases (str_eq sig signature)) [
        | inr other ↦ absurd (unsigned≢claims (sym (rw (verify_parts, other) refl) ∙ e))
        | inl same ↦
            let (text, decoded, checked) =
              read_payload-claims (codec.decode64 p) c (sym (rw (verify_parts, same) refl) ∙ e) in
            let (unmarshalled, sub, org, fresh) =
              check_claims-claims codec now (codec.unmarshal text) c checked in
            record {
              header = h;
              payload = p;
              text = text;
              three_parts = ap (λ s. h ∷ p ∷ s ∷ []) ((str_eq_iff sig signature).0 same);
              decoded = decoded;
              unmarshalled = unmarshalled;
              named = (sub, org);
              fresh = fresh;
            }
      ]

  verify_parts-IsSigned :
      (secret : Str) (parts : List Str) (c : JwtClaims)
      → verify_parts codec now secret parts ≡ Verdict.claims c
      → IsSigned codec now secret parts c
  unfolding verify_parts
  verify_parts-IsSigned secret [] c e = absurd (malformed≢claims e)
  verify_parts-IsSigned secret (h ∷ []) c e = absurd (malformed≢claims e)
  verify_parts-IsSigned secret (h ∷ p ∷ []) c e = absurd (malformed≢claims e)
  verify_parts-IsSigned secret (h ∷ p ∷ sig ∷ []) c e = IsSigned-parts h p sig secret c e
  verify_parts-IsSigned secret (h ∷ p ∷ sig ∷ x ∷ xs) c e = absurd (malformed≢claims e)

-- A token that VerifyJWT accepts has three parts; the third is the signature of the first two under
-- the secret, the second decodes to the claims that are given back, these name a user and an
-- organisation, and have not expired.
pub verify_jwt-IsSigned :
    (codec : Codec) (now : ℕ) (token secret : Str) (c : JwtClaims)
    → verify_jwt codec now token secret ≡ Verdict.claims c
    → IsSigned codec now secret (split_dots token) c
unfolding verify_jwt
verify_jwt-IsSigned codec now token secret c e =
    verify_parts-IsSigned codec now secret (split_dots token) c e
