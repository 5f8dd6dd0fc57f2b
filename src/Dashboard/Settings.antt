-- ===== src/Dashboard/Settings.antt =====
-- HandleGet and HandleUpdate of server/internal/dashboard/handlers/settings.go.
pub mod Updated
use promptmeter.Prelude.{
  ℕ, Bool, true, false, not, ◌&&◌, ◌||◌, Option, none, some, List, [], Str, lit, is_empty,
  has_prefix, length, ltb, if◌then◌else◌,
}
use promptmeter.Domain.Time.{Time}
use promptmeter.Domain.Account.{Organization}
use promptmeter.Storage.Redis.{Got}
use promptmeter.Storage.Organizations.{get_org, update_org}

-- updateOrgRequest; a field that is left out is `none`.
pub record UpdateOrgRequest : Type 0 where
  pub name : Option Str
  pub timezone : Option Str
  pub pii_enabled : Option Bool
  pub slack_webhook_url : Option Str

-- NOT_FOUND, VALIDATION_ERROR, INTERNAL_ERROR, or 200 with the organisation.
pub data SettingsOutcome : Type 0 where
  not_found bad_value internal_error : SettingsOutcome
  settings : Organization → SettingsOutcome

-- strings.TrimSpace and time.LoadLocation, the clock of the database, and which statements fail.
pub record SettingsWorld : Type 0 where
  pub trim : Str → Str
  pub load_location : Str → Bool
  pub now : Time
  pub select_fails : Bool
  pub update_fails : Bool

abbrev pub hooks : Str
hooks = lit "https://hooks.slack.com/"

-- The end of HandleUpdate, with the outcome of the UPDATE.
unfoldable pub store_update :
    Bool → Time → Option Organization → List Organization → SettingsOutcome × List Organization
unfolding update_org
store_update fails now none rows = (SettingsOutcome.bad_value, rows)
store_update fails now (some o) rows =
    let (ok, rows') = update_org fails now o rows in
    (if ok then SettingsOutcome.settings o else SettingsOutcome.internal_error, rows')

module _ (w : SettingsWorld) where
  -- The partial updates, one field after the other; `none` is a value that is refused.
  with_name : Option Str → Organization → Option Organization
  with_name none o = some o
  with_name (some text) o =
      let name = w.trim text in
      if is_empty name || ltb 100 (length name) then none else some (record o { name = name })

  with_timezone : Option Str → Option Organization → Option Organization
  with_timezone tz none = none
  with_timezone none (some o) = some o
  with_timezone (some tz) (some o) =
      if w.load_location tz then some (record o { timezone = tz }) else none

  with_pii : Option Bool → Option Organization → Option Organization
  with_pii b none = none
  with_pii none (some o) = some o
  with_pii (some b) (some o) = some (record o { pii_enabled = b })

  with_slack : Option Str → Option Organization → Option Organization
  unfolding has_prefix
  with_slack url none = none
  with_slack none (some o) = some o
  with_slack (some url) (some o) =
      if not (is_empty url) && not (has_prefix url hooks)
      then none
      else if is_empty url
      then some (record o { slack_webhook_url = none })
      else some (record o { slack_webhook_url = some url })

  unfoldable pub apply_updates : UpdateOrgRequest → Organization → Option Organization
  unfolding with_name with_timezone with_pii with_slack
  apply_updates req o =
      with_slack req.slack_webhook_url
        (with_pii req.pii_enabled (with_timezone req.timezone (with_name req.name o)))

  unfoldable pub update_found :
      UpdateOrgRequest → Got Organization → List Organization → SettingsOutcome × List Organization
  unfolding apply_updates store_update
  update_found req (Got.found o) rows = store_update w.update_fails w.now (apply_updates req o) rows
  update_found req _ rows = (SettingsOutcome.not_found, rows)

  -- HandleUpdate; `none` is a body that cannot be decoded.
  unfoldable pub handle_update :
      Str → Option UpdateOrgRequest → List Organization → SettingsOutcome × List Organization
  unfolding update_found get_org
  handle_update org_id none rows = (SettingsOutcome.bad_value, rows)
  handle_update org_id (some req) rows = update_found req (get_org w.select_fails rows org_id) rows

  shown : Got Organization → SettingsOutcome
  shown (Got.found o) = SettingsOutcome.settings o
  shown _ = SettingsOutcome.not_found

  -- HandleGet
  unfoldable pub handle_get : Str → List Organization → SettingsOutcome
  unfolding shown get_org
  handle_get org_id rows = shown (get_org w.select_fails rows org_id)
