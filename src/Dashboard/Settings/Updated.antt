-- ===== src/Dashboard/Settings/Updated.antt =====
-- What an update of the settings changes, and what it leaves alone.
use promptmeter.Prelude.{
  ℕ, ◌≡◌, ◌≢◌, refl, sym, ap, ◌∙◌, Bool, true, false, not, ◌&&◌, ◌||◌, Option, none, some, List, [],
  ◌∷◌, Str, is_empty, has_prefix, length, ltb, leb, map, str_eq, str_eq_iff, if◌then◌else◌, arith,
  Bool-cases, inl, inr,
}
use promptmeter.Domain.Time.{Time}
use promptmeter.Domain.Account.{Organization}
use promptmeter.Storage.Redis.{Got}
use promptmeter.Storage.Organizations.{org_with_id, get_org, update_row, update_org}
use promptmeter.Dashboard.Settings.{
  with_name, with_timezone, with_pii, with_slack, UpdateOrgRequest, SettingsOutcome, SettingsWorld,
  hooks, apply_updates, store_update, update_found, handle_update,
}

abbrev pub or_keep {ℓ} : {A : Type ℓ} → Option A → A → A
or_keep none a = a
or_keep (some b) a = b

ltb-leb : (a b : ℕ) → ltb a b ≡ not (leb b a)
ltb-leb a b = ground arith

if_not :
    (a b : Bool) (o : Option Organization)
    → (if a || not b then none else o) ≡ (if not a && b then o else none)
if_not true b o = refl
if_not false true o = refl
if_not false false o = refl

true≢false : true ≢ false
true≢false e = cc

module _ (w : SettingsWorld) where
  -- The demands on each field that is given.
  abbrev pub valid_name : Option Str → Bool
  valid_name none = true
  valid_name (some text) = not (is_empty (w.trim text)) && leb (length (w.trim text)) 100

  abbrev pub valid_timezone : Option Str → Bool
  valid_timezone none = true
  valid_timezone (some tz) = w.load_location tz

  abbrev pub valid_slack : Option Str → Bool
  valid_slack none = true
  valid_slack (some url) = is_empty url || has_prefix url hooks

  abbrev pub valid_update : UpdateOrgRequest → Bool
  valid_update req =
      valid_name req.name && (valid_timezone req.timezone && valid_slack req.slack_webhook_url)

  abbrev pub new_name : Option Str → Str → Str
  new_name none old = old
  new_name (some text) old = w.trim text

  abbrev pub new_slack : Option Str → Option Str → Option Str
  new_slack none old = old
  new_slack (some url) old = if is_empty url then none else some url

  -- The organisation with the fields that are given.
  abbrev pub patched : UpdateOrgRequest → Organization → Organization
  patched req o = record o {
    name = new_name req.name o.name;
    timezone = or_keep req.timezone o.timezone;
    pii_enabled = or_keep req.pii_enabled o.pii_enabled;
    slack_webhook_url = new_slack req.slack_webhook_url o.slack_webhook_url;
  }

  with_name_lem :
      (n : Option Str) (o : Organization)
      → with_name w n o
        ≡ (if valid_name n then some (record o { name = new_name n o.name }) else none)
  unfolding with_name
  with_name_lem none o = refl
  with_name_lem (some text) o =
      rw (ltb-leb 100 (length (w.trim text)))
        (if_not (is_empty (w.trim text)) (leb (length (w.trim text)) 100) _)

  with_timezone_lem :
      (tz : Option Str) (b : Bool) (o : Organization)
      → with_timezone w tz (if b then some o else none) ≡ (
          if b && valid_timezone tz
          then some (record o { timezone = or_keep tz o.timezone })
          else none)
  unfolding with_timezone
  with_timezone_lem tz false o = refl
  with_timezone_lem none true o = refl
  with_timezone_lem (some tz) true o = refl

  with_pii_lem :
      (p : Option Bool) (b : Bool) (o : Organization)
      → with_pii w p (if b then some o else none)
        ≡ (if b then some (record o { pii_enabled = or_keep p o.pii_enabled }) else none)
  unfolding with_pii
  with_pii_lem p false o = refl
  with_pii_lem none true o = refl
  with_pii_lem (some p) true o = refl

  with_slack_lem :
      (url : Option Str) (b : Bool) (o : Organization)
      → with_slack w url (if b then some o else none) ≡ (
          if b && valid_slack url
          then some (record o { slack_webhook_url = new_slack url o.slack_webhook_url })
          else none)
  unfolding with_slack
  with_slack_lem url false o = refl
  with_slack_lem none true o = refl
  with_slack_lem (some []) true o = refl
  with_slack_lem (some (c ∷ url)) true o = elim (Bool-cases (has_prefix (c ∷ url) hooks)) [
    | inl e ↦ rw e refl
    | inr e ↦ rw e refl
  ]

  and_assoc : (a b c : Bool) → ((a && b) && c) ≡ (a && (b && c))
  and_assoc true b c = refl
  and_assoc false b c = refl

  apply_updates_lem :
      (req : UpdateOrgRequest) (o : Organization)
      → apply_updates w req o ≡ (if valid_update req then some (patched req o) else none)
  unfolding apply_updates
  apply_updates_lem req o =
      ap
        (λ x.
          with_slack w req.slack_webhook_url
            (with_pii w req.pii_enabled (with_timezone w req.timezone x)))
        (with_name_lem req.name o)
      ∙ ap (λ x. with_slack w req.slack_webhook_url (with_pii w req.pii_enabled x))
          (with_timezone_lem req.timezone (valid_name req.name) _)
      ∙ ap (with_slack w req.slack_webhook_url) (with_pii_lem req.pii_enabled _ _)
      ∙ with_slack_lem req.slack_webhook_url _ _
      ∙ ap (λ b. if b then some (patched req o) else none)
          (and_assoc (valid_name req.name) (valid_timezone req.timezone)
            (valid_slack req.slack_webhook_url))

-- The row with the columns that the UPDATE sets.
abbrev set_row : Organization → Time → Got Organization → Got Organization
set_row o now (Got.found row) = Got.found (record row {
  name = o.name;
  timezone = o.timezone;
  pii_enabled = o.pii_enabled;
  slack_webhook_url = o.slack_webhook_url;
  updated_at = now;
})
set_row o now g = g

abbrev org_or : Organization → Got Organization → Organization
org_or o (Got.found p) = p
org_or o g = o

org_with_id-found :
    (id : Str) (rows : List Organization) (o : Organization)
    → org_with_id id rows ≡ Got.found o
    → o.id ≡ id
unfolding org_with_id
org_with_id-found id [] o h = absurd (cc)
org_with_id-found id (row ∷ rows) o h = elim (Bool-cases (str_eq row.id id)) [
  | inl e ↦
      let first : org_with_id id (row ∷ rows) ≡ Got.found row = rw e refl in
      let same : row ≡ o = ap (org_or o) (sym first ∙ h) in
      sym (ap (λ x. x.id) same) ∙ (str_eq_iff row.id id).0 e
  | inr e ↦
      let later : org_with_id id (row ∷ rows) ≡ org_with_id id rows = rw e refl in
      org_with_id-found id rows o (sym later ∙ h)
]

str_eq-other : (a b c : Str) → str_eq a b ≡ false → str_eq a c ≡ true → str_eq b c ≡ false
str_eq-other a b c e f = elim (Bool-cases (str_eq b c)) [
  | inl g ↦
      let same : a ≡ b = (str_eq_iff a c).0 f ∙ sym ((str_eq_iff b c).0 g) in
      absurd (true≢false (sym ((str_eq_iff a b).1 same) ∙ e))
  | inr g ↦ g
]

org_with_id-map-update_row :
    (id : Str) (now : Time) (o : Organization) (rows : List Organization)
    → org_with_id id (map (update_row o now) rows)
      ≡ (if str_eq o.id id then set_row o now (org_with_id id rows) else org_with_id id rows)
unfolding org_with_id update_row
org_with_id-map-update_row id now o [] = ground arith
org_with_id-map-update_row id now o (row ∷ rows) = elim (Bool-cases (str_eq row.id o.id)) [
  | inl e ↦
      let q : str_eq o.id id ≡ str_eq row.id id =
        ap (λ x. str_eq x id) (sym ((str_eq_iff row.id o.id).0 e)) in
      elim (Bool-cases (str_eq row.id id)) [
        | inl f ↦ rw (e, q, f) refl
        | inr f ↦ rw (e, q, f) (org_with_id-map-update_row id now o rows ∙ rw (q, f) refl)
      ]
  | inr e ↦ elim (Bool-cases (str_eq row.id id)) [
    | inl f ↦ rw (e, f, str_eq-other row.id o.id id e f) refl
    | inr f ↦ rw (e, f) (org_with_id-map-update_row id now o rows)
  ]
]

-- The organisation with other values in the columns that can be updated.
abbrev revised : Str → Str → Bool → Option Str → Organization → Organization
revised n tz pii slack o = record o {
  name = n;
  timezone = tz;
  pii_enabled = pii;
  slack_webhook_url = slack;
}

module _ (now : Time) (org_id id n tz : Str) (pii : Bool) (slack : Option Str) (o : Organization)
    (rows : List Organization) (found : org_with_id org_id rows ≡ Got.found o) where
  updated_row : org_with_id id (map (update_row (revised n tz pii slack o) now) rows) ≡ (
      if str_eq org_id id
      then Got.found (record (revised n tz pii slack o) { updated_at = now })
      else org_with_id id rows)
  updated_row =
      let p = revised n tz pii slack o in
      org_with_id-map-update_row id now p rows
      ∙ ap (λ x. if str_eq x id then set_row p now (org_with_id id rows) else org_with_id id rows)
          (org_with_id-found org_id rows o found)
      ∙ elim (Bool-cases (str_eq org_id id)) [
        | inl e ↦
            let there : org_with_id id rows ≡ Got.found o =
              ap (λ x. org_with_id x rows) (sym ((str_eq_iff org_id id).0 e)) ∙ found in
            rw (e, there) refl
        | inr e ↦ rw e refl
      ]

  store_update_lem :
      (valid fails : Bool)
      → ((store_update fails now (if valid then some (revised n tz pii slack o) else none) rows).0
          ≡ (if not valid
              then SettingsOutcome.bad_value
              else if fails
              then SettingsOutcome.internal_error
              else SettingsOutcome.settings (revised n tz pii slack o)))
        × (org_with_id id
              (store_update fails now
                (if valid then some (revised n tz pii slack o) else none)
                rows).1
            ≡ (if (valid && not fails) && str_eq org_id id
                then Got.found (record (revised n tz pii slack o) { updated_at = now })
                else org_with_id id rows))
  unfolding store_update update_org
  store_update_lem false fails = (refl, refl)
  store_update_lem true true = (refl, refl)
  store_update_lem true false = (refl, updated_row)

get_org-alive :
    (fails : Bool) (rows : List Organization) (id : Str) (o : Organization)
    → get_org fails rows id ≡ Got.found o
    → org_with_id id rows ≡ Got.found o
unfolding get_org
get_org-alive true rows id o h = absurd (cc)
get_org-alive false rows id o h = h

-- An update of the settings of an organisation that is found. It answers VALIDATION_ERROR if a field
-- that is given does not meet its demand, INTERNAL_ERROR if the UPDATE fails, and otherwise with the
-- organisation in which exactly the given fields are replaced, the name trimmed and an empty webhook
-- removed. In the last case this is what the table then has of the organisation, with a new time of
-- update, and in the others the table is as it was; every other organisation is as it was in any case.
pub handle_update_lem :
    (w : SettingsWorld) (org_id id : Str) (req : UpdateOrgRequest) (rows : List Organization)
    (o : Organization)
    → get_org w.select_fails rows org_id ≡ Got.found o
    → ((handle_update w org_id (some req) rows).0 ≡ (
        if not (valid_update w req)
        then SettingsOutcome.bad_value
        else if w.update_fails
        then SettingsOutcome.internal_error
        else SettingsOutcome.settings (patched w req o)))
      × (org_with_id id (handle_update w org_id (some req) rows).1 ≡ (
          if (valid_update w req && not w.update_fails) && str_eq org_id id
          then Got.found (record (patched w req o) { updated_at = w.now })
          else org_with_id id rows))
unfolding handle_update update_found
handle_update_lem w org_id id req rows o found =
    rw (found, apply_updates_lem w req o)
      (store_update_lem w.now org_id id _ _ _ _ o rows
        (get_org-alive w.select_fails rows org_id o found) (valid_update w req) w.update_fails)
