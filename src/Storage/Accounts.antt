-- ===== src/Storage/Accounts.antt =====
-- Users, members of organisations and projects: their tables, and the statements of
-- server/internal/storage/postgres.go on them. A new row is put first. `none` stands for an error of
-- an INSERT, and a Boolean for that of another statement.
use promptmeter.Prelude.{
  Bool, true, false, ◌&&◌, ◌||◌, Option, none, some, List, [], ◌∷◌, ◌++◌, ◌≡◌, In, Str, lit, str_eq,
  any, if◌then◌else◌,
}
use promptmeter.Domain.Time.{Time}
use promptmeter.Domain.Account.{User, Organization, Project}
use promptmeter.Storage.Redis.{Got}
use promptmeter.Storage.Organizations.{org_with_id}

-- What the defaults of a table give a new row.
pub record NewRow : Type 0 where
  pub id : Str
  pub created_at : Time

pub record Member : Type 0 where
  pub org_id : Str
  pub user_id : Str
  pub role : Str

unfoldable pub user_with_email : Str → List User → Got User
unfolding str_eq
user_with_email email [] = Got.missing
user_with_email email (u ∷ us) =
    if str_eq u.email email then Got.found u else user_with_email email us

-- The INSERT of CreateOrGetUser.
unfoldable pub insert_user :
    Option NewRow → Str → Str → Str → List User → Option (User × Bool × List User)
insert_user none email name avatar_url users = none
insert_user (some given) email name avatar_url users =
    let user : User = record {
      id = given.id;
      email = email;
      name = name;
      avatar_url = avatar_url;
      created_at = given.created_at;
    } in
    some (user, true, user ∷ users)

unfoldable pub user_or_new :
    Got User → Option NewRow → Str → Str → Str → List User → Option (User × Bool × List User)
unfolding insert_user
user_or_new Got.failed new email name avatar_url users = none
user_or_new (Got.found user) new email name avatar_url users = some (user, false, users)
user_or_new Got.missing new email name avatar_url users =
    insert_user new email name avatar_url users

-- CreateOrGetUser: the user, whether it is new, and the table.
unfoldable pub create_or_get_user :
    Bool → Option NewRow → Str → Str → Str → List User → Option (User × Bool × List User)
unfolding user_with_email user_or_new
create_or_get_user fails new email name avatar_url users =
    user_or_new (if fails then Got.failed else user_with_email email users) new email name
      avatar_url users

unfoldable pub found_org : Got Organization → List Organization
found_org (Got.found o) = o ∷ []
found_org _ = []

-- The join behind GetOrgByUserID, without its limit: the organisations of the user's memberships.
unfoldable pub orgs_of_user : Str → List Member → List Organization → List Organization
unfolding str_eq org_with_id found_org
orgs_of_user user_id [] orgs = []
orgs_of_user user_id (m ∷ ms) orgs =
    let rest = orgs_of_user user_id ms orgs in
    if str_eq m.user_id user_id then found_org (org_with_id m.org_id orgs) ++ rest else rest

-- What is documented of LIMIT 1 without ORDER BY: one of the rows, it is not said which.
pub record IsLimitOne (limit_one : List Organization → Got Organization) : Type 0 where
  pub nothing : limit_one [] ≡ Got.missing
  pub one :
      (o : Organization) (os : List Organization)
      → (p : Organization) × In p (o ∷ os) × (limit_one (o ∷ os) ≡ Got.found p)

-- GetOrgByUserID; `limit_one` is what the database answers of the rows.
unfoldable pub get_org_by_user_id :
    Bool
    → (List Organization → Got Organization)
    → Str
    → List Member
    → List Organization
    → Got Organization
unfolding orgs_of_user
get_org_by_user_id fails limit_one user_id members orgs =
    if fails then Got.failed else limit_one (orgs_of_user user_id members orgs)

-- What a new organisation has by default.
pub record NewOrg : Type 0 where
  pub id : Str
  pub timezone : Str
  pub pii_enabled : Bool
  pub created_at : Time
  pub updated_at : Time

-- The row that CreateOrg inserts and returns.
abbrev pub new_org : NewOrg → Str → Str → Organization
new_org given name slug = record {
  id = given.id;
  name = name;
  slug = slug;
  tier = lit "free";
  timezone = given.timezone;
  pii_enabled = given.pii_enabled;
  slack_webhook_url = none;
  stripe_customer_id = none;
  stripe_subscription_id = none;
  created_at = given.created_at;
  updated_at = given.updated_at;
}

-- AddOrgMember, with ON CONFLICT DO NOTHING
unfoldable pub add_org_member : Bool → Str → Str → Str → List Member → List Member
unfolding str_eq
add_org_member fails org_id user_id role members =
    if fails || any (λ m. str_eq m.org_id org_id && str_eq m.user_id user_id) members
    then members
    else record { org_id = org_id; user_id = user_id; role = role } ∷ members

-- CreateProject
unfoldable pub create_project : Option NewRow → Project → List Project → List Project
create_project none project projects = projects
create_project (some given) project projects =
    record project { id = given.id; created_at = given.created_at; updated_at = given.created_at }
    ∷ projects
