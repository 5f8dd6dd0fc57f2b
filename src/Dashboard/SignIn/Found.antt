-- ===== src/Dashboard/SignIn/Found.antt =====
-- What a callback worked with is found in the tables behind it.
use promptmeter.Prelude.{
  ℕ, ◌≡◌, refl, sym, ap, ◌∙◌, Bool, true, false, ◌&&◌, Option, none, some, List, [], ◌∷◌, ◌++◌, Str,
  lit, str_eq, str_eq_refl, str_eq_iff, any, length, ◌≤◌, inl, inr, arith,
}
use promptmeter.Domain.Account.{User, Organization, RefreshToken}
use promptmeter.Auth.Jwt.{Codec}
use promptmeter.Storage.Redis.{Got}
use promptmeter.Storage.Organizations.{org_with_id}
use promptmeter.Storage.Accounts.{
  NewRow, NewOrg, Member, user_with_email, insert_user, user_or_new, create_or_get_user, found_org,
  orgs_of_user, IsLimitOne, get_org_by_user_id, new_org, add_org_member,
}
use promptmeter.Dashboard.SignIn.{
  OauthCallbackRequest, Accounts, SignInWorld, SignInOutcome, slug_of, create_account, org_or_new,
  finish_sign_in,
}

-- The user that a callback works with is found by its address afterwards.
user_or_new-found :
    (g : Got User) (new : Option NewRow) (email name url : Str) (users us : List User) (user : User)
    (n : Bool)
    → g ≡ user_with_email email users
    → user_or_new g new email name url users ≡ some (user, n, us)
    → user_with_email email us ≡ Got.found user
unfolding user_or_new insert_user user_with_email
user_or_new-found Got.failed new email name url users us user n h e = absurd (cc)
user_or_new-found (Got.found u) new email name url users us user n h e =
    let same_users : users ≡ us = cc in
    let same_user : u ≡ user = cc in
    ap (user_with_email email) (sym same_users) ∙ sym h ∙ ap Got.found same_user
user_or_new-found Got.missing none email name url users us user n h e = absurd (cc)
user_or_new-found Got.missing (some given) email name url users us user n h e =
    let row : User = record {
      id = given.id;
      email = email;
      name = name;
      avatar_url = url;
      created_at = given.created_at;
    } in
    let us_is : us ≡ row ∷ users = cc in
    let user_is : user ≡ row = cc in
    let first : user_with_email email (row ∷ users) ≡ Got.found row = rw (str_eq_refl email) refl in
    ap (user_with_email email) us_is ∙ first ∙ ap Got.found (sym user_is)

any-and :
    (org_id user_id : Str) (ms : List Member)
    → any (λ m. str_eq m.org_id org_id) ms ≡ false
    → any (λ m. str_eq m.org_id org_id && str_eq m.user_id user_id) ms ≡ false
any-and org_id user_id [] h = refl
any-and org_id user_id (m ∷ ms) h = ground (arith, any-and org_id user_id ms)

abbrev pub with_tokens : List RefreshToken → Accounts → Accounts
with_tokens ts a = record a { tokens = ts }

pub finish-tokens :
    (user user' : User) (org org' : Organization) (n n' : Bool) (a b : Accounts) (jwt text : Str)
    (o : Option (Str × Str × List RefreshToken))
    → finish_sign_in user org n a o ≡ (SignInOutcome.signed_in user' org' n' jwt text, b)
    → (user ≡ user') × (org ≡ org') × (b ≡ record a { tokens = b.tokens })
unfolding finish_sign_in
finish-tokens user user' org org' n n' a b jwt text none e = absurd (cc)
finish-tokens user user' org org' n n' a b jwt text (some (j, t, tokens)) e =
    let written : b ≡ record a { tokens = tokens } = cc in
    (cc, cc, written ∙ ap (λ ts. with_tokens ts a) (sym (ap (λ x. x.tokens) written)))

abbrev member_of : Str → Str → Member
member_of org_id user_id = record { org_id = org_id; user_id = user_id; role = lit "owner" }

add_org_member-fresh :
    (fails : Bool) (org_id user_id : Str) (ms : List Member)
    → fails ≡ false
    → any (λ m. str_eq m.org_id org_id) ms ≡ false
    → add_org_member fails org_id user_id (lit "owner") ms ≡ member_of org_id user_id ∷ ms
unfolding add_org_member
add_org_member-fresh fails org_id user_id ms alive fresh =
    rw (alive, any-and org_id user_id ms fresh) refl

-- An organisation that no membership names does not show in the join.
orgs_of_user-fresh :
    (user_id : Str) (o : Organization) (ms : List Member) (os : List Organization)
    → any (λ m. str_eq m.org_id o.id) ms ≡ false
    → orgs_of_user user_id ms (o ∷ os) ≡ orgs_of_user user_id ms os
unfolding orgs_of_user org_with_id
orgs_of_user-fresh user_id o [] os fresh = refl
orgs_of_user-fresh user_id o (m ∷ ms) os fresh =
    ground (
      arith,
      str_eq_iff m.org_id o.id,
      str_eq_iff o.id m.org_id,
      orgs_of_user-fresh user_id o ms os,
    )

-- The one organisation of a user who had none.
orgs_of_user-first :
    (user_id : Str) (o : Organization) (ms : List Member) (os : List Organization)
    → any (λ m. str_eq m.org_id o.id) ms ≡ false
    → orgs_of_user user_id ms os ≡ []
    → orgs_of_user user_id (member_of o.id user_id ∷ ms) (o ∷ os) ≡ o ∷ []
unfolding orgs_of_user org_with_id found_org
orgs_of_user-first user_id o ms os fresh none_yet =
    rw (str_eq_refl user_id, str_eq_refl o.id)
      (ap (λ l. o ∷ l) (orgs_of_user-fresh user_id o ms os fresh ∙ none_yet))

-- What is found of at most one row is that row, and what is not found has none.
limit_one-found :
    (limit_one : List Organization → Got Organization) (rows : List Organization) (o : Organization)
    → IsLimitOne limit_one
    → length rows ≤ 1
    → limit_one rows ≡ Got.found o
    → rows ≡ o ∷ []
limit_one-found limit_one [] o law few e = absurd (missing (sym law.nothing ∙ e))
  where
    missing : ¬ (◌≡◌ {A = Got Organization} Got.missing (Got.found o))
    missing e = cc
limit_one-found limit_one (x ∷ []) o law few e =
    let (p, listed, found) = law.one x [] in
    elim listed [ inl same ↦ ap (λ y. y ∷ []) (sym same ∙ cc) | inr other ↦ absurd other ]
limit_one-found limit_one (x ∷ y ∷ rows) o law few e = absurd (omega arith)

limit_one-missing :
    (limit_one : List Organization → Got Organization) (rows : List Organization)
    → IsLimitOne limit_one
    → limit_one rows ≡ Got.missing
    → rows ≡ []
limit_one-missing limit_one [] law e = refl
limit_one-missing limit_one (x ∷ rows) law e =
    let (p, listed, found) = law.one x rows in absurd (apart p (sym e ∙ found))
  where
    apart : (p : Organization) → ¬ (◌≡◌ {A = Got Organization} Got.missing (Got.found p))
    apart p e = cc

abbrev pair_or :
    Organization × Accounts → Option (Organization × Accounts) → Organization × Accounts
pair_or d none = d
pair_or d (some p) = p

-- The organisation that a callback works with is the only one of its user afterwards, if he had at
-- most one before, and the new one's id is that of no membership.
module _ (codec : Codec) (sha256 : Str → List ℕ) (jwt_secret : Str) (w : SignInWorld)
    (req : OauthCallbackRequest) (user : User) (a : Accounts) (org : Organization) (b : Accounts)
    (alive : w.member_fails ≡ false) where
  abbrev pub IsOnly : Type 0
  IsOnly = (orgs_of_user user.id b.members b.orgs ≡ org ∷ []) × (b.users ≡ a.users)

  create_account-found :
      (o : Option NewOrg)
      → ((given : NewOrg) → o ≡ some given → any (λ m. str_eq m.org_id given.id) a.members ≡ false)
      → orgs_of_user user.id a.members a.orgs ≡ []
      → create_account codec sha256 jwt_secret w req user o a ≡ some (org, b)
      → IsOnly
  unfolding create_account
  create_account-found none fresh none_yet e = absurd (cc)
  create_account-found (some given) fresh none_yet e =
      let o : Organization =
        new_org given (req.name ++ lit "'s Organization") (slug_of req.name ++ lit "-org") in
      let pair = ap (pair_or (org, a)) e in
      let added =
        add_org_member-fresh w.member_fails o.id user.id a.members alive (fresh given refl) in
      (
        ap (λ p. orgs_of_user user.id p.1.members p.1.orgs) (sym pair)
            ∙ ap (λ ms. orgs_of_user user.id ms (o ∷ a.orgs)) added
            ∙ orgs_of_user-first user.id o a.members a.orgs (fresh given refl) none_yet
            ∙ ap (λ p. p.0 ∷ []) pair,
        ap (λ p. p.1.users) (sym pair),
      )

  org_or_new-found :
      (g : Got Organization)
      → g ≡ w.limit_one (orgs_of_user user.id a.members a.orgs)
      → IsLimitOne w.limit_one
      → length (orgs_of_user user.id a.members a.orgs) ≤ 1
      → ((given : NewOrg)
          → w.new_org ≡ some given
          → any (λ m. str_eq m.org_id given.id) a.members ≡ false)
      → org_or_new codec sha256 jwt_secret w req user g a ≡ some (org, b)
      → IsOnly
  unfolding org_or_new
  org_or_new-found Got.failed h law few fresh e = absurd (cc)
  org_or_new-found (Got.found o) h law few fresh e =
      let pair = ap (pair_or (org, a)) e in
      (
        ap (λ p. orgs_of_user user.id p.1.members p.1.orgs) (sym pair)
            ∙ limit_one-found w.limit_one (orgs_of_user user.id a.members a.orgs) o law few (sym h)
            ∙ ap (λ p. p.0 ∷ []) pair,
        ap (λ p. p.1.users) (sym pair),
      )
  org_or_new-found Got.missing h law few fresh e =
      create_account-found w.new_org fresh
        (limit_one-missing w.limit_one (orgs_of_user user.id a.members a.orgs) law (sym h)) e

  pub org_or_new-got :
      (fails : Bool)
      → IsLimitOne w.limit_one
      → length (orgs_of_user user.id a.members a.orgs) ≤ 1
      → ((given : NewOrg)
          → w.new_org ≡ some given
          → any (λ m. str_eq m.org_id given.id) a.members ≡ false)
      → org_or_new codec sha256 jwt_secret w req user
          (get_org_by_user_id fails w.limit_one user.id a.members a.orgs)
          a
        ≡ some (org, b)
      → IsOnly
  unfolding get_org_by_user_id org_or_new
  org_or_new-got true law few fresh e = absurd (cc)
  org_or_new-got false law few fresh e =
      org_or_new-found (w.limit_one (orgs_of_user user.id a.members a.orgs)) refl law few fresh e

pub create_or_get_user-found :
    (fails : Bool) (new : Option NewRow) (email name url : Str) (users us : List User) (user : User)
    (n : Bool)
    → create_or_get_user fails new email name url users ≡ some (user, n, us)
    → user_with_email email us ≡ Got.found user
unfolding create_or_get_user user_or_new
create_or_get_user-found true new email name url users us user n e = absurd (cc)
create_or_get_user-found false new email name url users us user n e =
    user_or_new-found (user_with_email email users) new email name url users us user n refl e
