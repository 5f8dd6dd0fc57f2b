-- ===== src/Dashboard/SignIn/Repeated.antt =====
-- Signing in again with the same e-mail address.
use promptmeter.Prelude.{
  ℕ, ◌≡◌, ◌≢◌, refl, sym, ap, ◌∙◌, Bool, true, false, not, Option, none, some, List, Str, str_eq,
  is_empty, any, length, ◌≤◌, ◌∷◌, [], inl, inr, if◌then◌else◌,
}
use promptmeter.Domain.Account.{User, Organization, RefreshToken}
use promptmeter.Auth.Jwt.{Codec}
use promptmeter.Storage.Redis.{Got}
use promptmeter.Storage.Accounts.{
  NewRow, NewOrg, Member, user_with_email, user_or_new, create_or_get_user, orgs_of_user,
  IsLimitOne, get_org_by_user_id,
}
use promptmeter.Dashboard.Sessions.{issue_token_pair}
use promptmeter.Dashboard.SignIn.{
  OauthCallbackRequest, Accounts, SignInWorld, SignInOutcome, org_or_new, finish_sign_in, with_org,
  with_user, handle_oauth_callback,
}
use promptmeter.Dashboard.SignIn.Found.{
  with_tokens, finish-tokens, org_or_new-got, create_or_get_user-found,
}

-- What is known where neither of two guards has answered.
guards :
    (b c : Bool) (x y z s : SignInOutcome × Accounts)
    → (if not b then x else if c then y else z) ≡ s
    → x ≢ s
    → y ≢ s
    → (b ≡ true) × (c ≡ false) × (z ≡ s)
guards true false x y z s e f g = (refl, refl, e)
guards true true x y z s e f g = absurd (g e)
guards false c x y z s e f g = absurd (f e)

module _ (codec : Codec) (sha256 : Str → List ℕ) (jwt_secret : Str) (w : SignInWorld) (user : User)
    (org : Organization) (n : Bool) (jwt text : Str) (b : Accounts) where
  abbrev success : SignInOutcome × Accounts
  success = (SignInOutcome.signed_in user org n jwt text, b)

  with_org-success :
      (u : User) (m : Bool) (a : Accounts) (o : Option (Organization × Accounts))
      → with_org codec sha256 jwt_secret w u m a o ≡ success
      → (c : Accounts) × (o ≡ some (org, c)) × (u ≡ user) × (b ≡ with_tokens b.tokens c)
  unfolding with_org
  with_org-success u m a none e = absurd (cc)
  with_org-success u m a (some (first, c)) e =
      let (same_user, same_org, written) = finish-tokens u user first org m n c b jwt text _ e in
      (c, ap (λ x. some (x, c)) same_org, same_user, written)

  -- The user and the organisation of a callback that succeeds are found in the tables behind it.
  with_user-success :
      (req : OauthCallbackRequest) (a : Accounts) (o : Option (User × Bool × List User))
      → w.member_fails ≡ false
      → IsLimitOne w.limit_one
      → ((id : Str) → length (orgs_of_user id a.members a.orgs) ≤ 1)
      → ((given : NewOrg)
          → w.new_org ≡ some given
          → any (λ m. str_eq m.org_id given.id) a.members ≡ false)
      → ((u : User) (m : Bool) (us : List User)
          → o ≡ some (u, m, us)
          → user_with_email req.email us ≡ Got.found u)
      → with_user codec sha256 jwt_secret w req a o ≡ success
      → (user_with_email req.email b.users ≡ Got.found user)
        × (orgs_of_user user.id b.members b.orgs ≡ org ∷ [])
  unfolding with_user
  with_user-success req a none alive law few fresh known e = absurd (cc)
  with_user-success req a (some (u, m, us)) alive law few fresh known e =
      let d : Accounts = record a { users = us } in
      let (c, made, same_user, written) = with_org-success u m d _ e in
      let (org_there, users_kept) =
        org_or_new-got codec sha256 jwt_secret w req u d org c alive w.org_fails law (few u.id)
          fresh made in
      (
        ap (λ x. user_with_email req.email x.users) written
            ∙ ap (user_with_email req.email) users_kept
            ∙ known u m us refl
            ∙ ap Got.found same_user,
        ap (λ x. orgs_of_user x.id b.members b.orgs) (sym same_user)
            ∙ ap (λ x. orgs_of_user u.id x.members x.orgs) written
            ∙ org_there,
      )

  handle-success :
      (given expected : Str) (req : OauthCallbackRequest) (a : Accounts)
      → handle_oauth_callback codec sha256 jwt_secret w given expected (some req) a ≡ success
      → (str_eq given expected ≡ true)
        × (is_empty req.email ≡ false)
        × (with_user codec sha256 jwt_secret w req a
              (create_or_get_user w.user_fails w.new_user req.email req.name req.avatar_url a.users)
            ≡ success)
  unfolding handle_oauth_callback
  handle-success given expected req a e =
      guards (str_eq given expected) (is_empty req.email) (SignInOutcome.unauthorized, a)
        (SignInOutcome.bad_request, a) _ success e (λ x. cc) (λ x. cc)

create_or_get_user-known :
    (fails : Bool) (new : Option NewRow) (asked email name url : Str) (users : List User)
    (user : User)
    → fails ≡ false
    → asked ≡ email
    → user_with_email email users ≡ Got.found user
    → create_or_get_user fails new asked name url users ≡ some (user, false, users)
unfolding create_or_get_user user_or_new
create_or_get_user-known fails new asked email name url users user works same there =
    ap
      (λ b.
        user_or_new (if b then Got.failed else user_with_email asked users) new asked name url
          users)
      works
    ∙ ap (λ x. user_or_new (user_with_email x users) new asked name url users) same
    ∙ ap (λ g. user_or_new g new asked name url users) there

get_org_by_user_id-known :
    (fails : Bool) (limit_one : List Organization → Got Organization) (user_id : Str)
    (ms : List Member) (os : List Organization) (org : Organization)
    → fails ≡ false
    → IsLimitOne limit_one
    → orgs_of_user user_id ms os ≡ org ∷ []
    → get_org_by_user_id fails limit_one user_id ms os ≡ Got.found org
unfolding get_org_by_user_id
get_org_by_user_id-known fails limit_one user_id ms os org works law there =
    let (p, listed, found) = law.one org [] in
    rw (works, there)
      (elim listed [ inl same ↦ found ∙ ap Got.found same | inr other ↦ absurd other ])

open_guards :
    (b c d : Bool) (x y z : SignInOutcome × Accounts)
    → b ≡ true
    → d ≡ false
    → c ≡ d
    → (if not b then x else if c then y else z) ≡ z
open_guards b c d x y z e f g = rw (e, g, f) refl

module _ (codec : Codec) (sha256 : Str → List ℕ) (jwt_secret : Str) (w : SignInWorld) where
  -- A callback of a user who is there, with an organisation.
  handle-known :
      (given expected : Str) (req : OauthCallbackRequest) (email : Str) (b : Accounts) (user : User)
      (org : Organization) (pair : Str × Str × List RefreshToken)
      → str_eq given expected ≡ true
      → is_empty email ≡ false
      → req.email ≡ email
      → w.user_fails ≡ false
      → w.org_fails ≡ false
      → IsLimitOne w.limit_one
      → user_with_email email b.users ≡ Got.found user
      → orgs_of_user user.id b.members b.orgs ≡ org ∷ []
      → issue_token_pair codec sha256 jwt_secret w.session user org b.tokens ≡ some pair
      → handle_oauth_callback codec sha256 jwt_secret w given expected (some req) b
        ≡ finish_sign_in user org false b (some pair)
  unfolding handle_oauth_callback with_user with_org org_or_new create_or_get_user user_or_new
      get_org_by_user_id
  handle-known given expected req email b user org pair secret named same users_work orgs_work law
        user_there org_there issued =
      open_guards (str_eq given expected) (is_empty req.email) (is_empty email) _ _ _ secret named
        (ap is_empty same)
      ∙ ap (with_user codec sha256 jwt_secret w req b) (
          create_or_get_user-known w.user_fails w.new_user req.email email req.name req.avatar_url
            b.users user users_work same user_there)
      ∙ ap
          (λ g.
            with_org codec sha256 jwt_secret w user false b
              (org_or_new codec sha256 jwt_secret w req user g b))
          (get_org_by_user_id-known w.org_fails w.limit_one user.id b.members b.orgs org orgs_work
            law org_there)
      ∙ ap (finish_sign_in user org false b) issued

-- Whoever signs in again with the same e-mail address, also under another name, gets the same user and
-- the same organisation, and is not new: a callback that succeeds and whose INSERT into org_members
-- does not fail is followed by one that adds nothing to the tables but a refresh token, if its queries
-- and issueTokenPair succeed. Before the first callback no user has more than one organisation, since
-- the query does not say which of several it gives; and the id of a new organisation must be that of no
-- membership.
pub handle_oauth_callback-again :
    (codec : Codec) (sha256 : Str → List ℕ) (jwt_secret given expected : Str) (w w' : SignInWorld)
    (req req' : OauthCallbackRequest) (a b : Accounts) (user : User) (org : Organization) (n : Bool)
    (jwt jwt' text text' : Str) (tokens' : List RefreshToken)
    → handle_oauth_callback codec sha256 jwt_secret w given expected (some req) a
      ≡ (SignInOutcome.signed_in user org n jwt text, b)
    → w.member_fails ≡ false
    → IsLimitOne w.limit_one
    → IsLimitOne w'.limit_one
    → ((id : Str) → length (orgs_of_user id a.members a.orgs) ≤ 1)
    → ((fresh : NewOrg)
        → w.new_org ≡ some fresh
        → any (λ m. str_eq m.org_id fresh.id) a.members ≡ false)
    → req'.email ≡ req.email
    → w'.user_fails ≡ false
    → w'.org_fails ≡ false
    → issue_token_pair codec sha256 jwt_secret w'.session user org b.tokens
      ≡ some (jwt', text', tokens')
    → handle_oauth_callback codec sha256 jwt_secret w' given expected (some req') b
      ≡ (SignInOutcome.signed_in user org false jwt' text', record b { tokens = tokens' })
unfolding finish_sign_in
handle_oauth_callback-again codec sha256 jwt_secret given expected w w' req req' a b user org n jwt
      jwt' text text' tokens' e alive law law' few fresh same users_work orgs_work issued =
    let (secret, named, through) =
      handle-success codec sha256 jwt_secret w user org n jwt text b given expected req a e in
    let (user_there, org_there) =
      with_user-success codec sha256 jwt_secret w user org n jwt text b req a _ alive law few fresh
        (λ u m us h.
          create_or_get_user-found w.user_fails w.new_user req.email req.name req.avatar_url a.users
            us u m h)
        through in
    handle-known codec sha256 jwt_secret w' given expected req' req.email b user org
      (jwt', text', tokens') secret named same users_work orgs_work law' user_there org_there issued
