-- ===== src/Middleware/Session/Stale.antt =====
-- The automatic login of a request that carries an old session cookie.
use promptmeter.Prelude.{
  ℕ, ◌+◌, ◌≡◌, ◌≢◌, refl, sym, ap, ◌∙◌, true, false, Option, none, some, List, [], ◌∷◌, ◌++◌, Str,
  lit, is_some, ltb, str_eq, if◌then◌else◌, arith, Bool-cases, inl, inr,
}
use promptmeter.Auth.Jwt.{Verdict, Codec, IsCodec, stamped, check_claims, verify_jwt}
use promptmeter.Auth.Jwt.Verified.{token_for, verify_jwt-token_for}
use promptmeter.Middleware.Session.{
  Cookie, Context, Gate, session_cookie, cookie_of, context_of, gate_of, is_claims, gate_cookie,
  default_claims, jwt_auth, signed_in, auto_login,
}
use promptmeter.Middleware.Session.Admitted.{
  gate_of-if, sign_jwt-token_for, token_for-is_empty, check_claims_lem,
}

abbrev or_else : Option Str → Option Str → Option Str
or_else none o = o
or_else (some v) o = some v

cookie_of-append :
    (n : Str) (cs ds : List Cookie)
    → cookie_of n (cs ++ ds) ≡ or_else (cookie_of n cs) (cookie_of n ds)
unfolding cookie_of
cookie_of-append n [] ds = refl
cookie_of-append n (c ∷ cs) ds = elim (Bool-cases (str_eq c.name n)) [
  | inl e ↦ rw e refl
  | inr e ↦ rw e (cookie_of-append n cs ds)
]

not_late : (now : ℕ) → ltb (now + 900) now ≡ false
not_late now = ground arith

gate_of-refused : (v : Verdict) (c : Context) → is_claims v ≡ false → gate_of v ≢ Gate.admitted c
unfolding gate_of
gate_of-refused Verdict.malformed c h e = cc
gate_of-refused Verdict.signature_invalid c h e = cc
gate_of-refused Verdict.token_invalid c h e = cc
gate_of-refused Verdict.expired c h e = cc
gate_of-refused (Verdict.claims d) c h e = cc

module _ (codec : Codec) (secret : Str) (now : ℕ) where
  gate_cookie-refused :
      (o : Option Str) (c : Context)
      → signed_in codec secret now o ≡ false
      → gate_cookie codec secret now o ≢ Gate.admitted c
  unfolding gate_cookie signed_in
  gate_cookie-refused none c h e = cc
  gate_cookie-refused (some []) c h e = cc
  gate_cookie-refused (some (x ∷ v)) c h e =
      gate_of-refused (verify_jwt codec now (x ∷ v) secret) c h e

  jwt_auth-behind :
      (o : Option Str) (cookies : List Cookie) (token : Str)
      → cookie_of (lit "pm_session") cookies ≡ o
      → jwt_auth codec secret now (cookies ++ session_cookie token ∷ []) ≡ (
          if is_some o
          then jwt_auth codec secret now cookies
          else gate_cookie codec secret now (some token))
  unfolding jwt_auth
  jwt_auth-behind none cookies token h =
      ap (gate_cookie codec secret now)
        (cookie_of-append _ cookies _ ∙ ap (λ o. or_else o (some token)) h)
  jwt_auth-behind (some v) cookies token h =
      ap (gate_cookie codec secret now)
        (cookie_of-append _ cookies _ ∙ ap (λ o. or_else o (some token)) h ∙ sym h)

module _ (codec : Codec) (laws : IsCodec codec) (secret user org payload : Str)
    (org_numeric now : ℕ)
    (written : codec.marshal (stamped now now (default_claims user org org_numeric)) ≡ some payload)
    (back : codec.unmarshal payload ≡ some (stamped now now (default_claims user org org_numeric)))
    (u : user ≢ []) (o : org ≢ []) where
  fresh_token :
      gate_cookie codec secret now (some (token_for codec payload secret))
      ≡ Gate.admitted (record {
        user_id = user;
        org_id = org;
        org_numeric = org_numeric;
        tier = lit "free";
        role = lit "owner";
      })
  unfolding gate_cookie default_claims context_of gate_of
  fresh_token =
      let c = stamped now now (default_claims user org org_numeric) in
      rw (token_for-is_empty codec secret payload) (
        ap gate_of (
          verify_jwt-token_for codec laws now payload secret
          ∙ ap (check_claims codec now) back
          ∙ check_claims_lem codec now c u o)
        ∙ gate_of-if (ltb c.exp now) c
        ∙ rw (not_late now) refl)

-- In the mode of the automatic login, a request without a good session cookie gets a new one, which its
-- response sets. It is admitted as the default user if it carried no session cookie at all; if it
-- carried one that is bad, it is answered as without the automatic login, and so not admitted: the old
-- cookie stands before the new one. The default user and organisation are not empty, and their claims
-- survive JSON.
pub auto_login-jwt_auth :
    (codec : Codec)
    → IsCodec codec
    → (secret user org payload : Str) (org_numeric now : ℕ) (cookies : List Cookie)
      (carried : Option Str)
    → codec.marshal (stamped now now (default_claims user org org_numeric)) ≡ some payload
    → codec.unmarshal payload ≡ some (stamped now now (default_claims user org org_numeric))
    → user ≢ []
    → org ≢ []
    → cookie_of (lit "pm_session") cookies ≡ carried
    → signed_in codec secret now carried ≡ false
    → (token : Str) × (auto_login codec secret user org org_numeric now cookies ≡ (
      some token,
      if is_some carried
          then jwt_auth codec secret now cookies
          else Gate.admitted (record {
            user_id = user;
            org_id = org;
            org_numeric = org_numeric;
            tier = lit "free";
            role = lit "owner";
          }),
    ))
      × ((c : Context)
          → is_some carried ≡ true
          → jwt_auth codec secret now cookies ≢ Gate.admitted c)
unfolding auto_login
auto_login-jwt_auth codec laws secret user org payload org_numeric now cookies carried written back
      u o found out =
    let token = token_for codec payload secret in
    let signed =
      sign_jwt-token_for codec secret now now (default_claims user org org_numeric) payload
        written in
    let kept = jwt_auth-behind codec secret now carried cookies token found in
    let fresh = fresh_token codec laws secret user org payload org_numeric now written back u o in
    (
      token,
      rw (auto_login, found, out, signed)
          (ap (λ g. (some token, g))
            (kept
              ∙ ap (λ a. if is_some carried then jwt_auth codec secret now cookies else a) fresh
              ∙ rw (jwt_auth, found) refl)),
      λ c _. rw found (gate_cookie-refused codec secret now carried c out),
    )
