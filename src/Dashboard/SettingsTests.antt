-- ===== src/Dashboard/SettingsTests.antt =====
-- The settings of an organisation, at concrete inputs.
use promptmeter.Prelude.{◌≡◌, refl, true, false, none, some, List, [], ◌∷◌, Str, lit, str_eq}
use promptmeter.Domain.Account.{Organization}
use promptmeter.Storage.Redis.{Got}
use promptmeter.Storage.Organizations.{org_with_id, get_org}
use promptmeter.Dashboard.Settings.{UpdateOrgRequest, SettingsOutcome, SettingsWorld, handle_update}
use promptmeter.Dashboard.Settings.Updated.{patched, handle_update_lem}

abbrev sample_world : SettingsWorld
sample_world = record {
  trim = λ s. s;
  load_location = λ s. str_eq s (lit "UTC");
  now = 9;
  select_fails = false;
  update_fails = false;
}

abbrev org_named : Str → Organization
org_named id = record {
  id = id;
  name = lit "n";
  slug = [];
  tier = lit "pro";
  timezone = lit "UTC";
  pii_enabled = false;
  slack_webhook_url = some (lit "https://hooks.slack.com/x");
  stripe_customer_id = none;
  stripe_subscription_id = none;
  created_at = 1;
  updated_at = 1;
}

-- A new name, and no webhook any more.
abbrev sample_update : UpdateOrgRequest
sample_update = record {
  name = some (lit "m");
  timezone = none;
  pii_enabled = some true;
  slack_webhook_url = some [];
}

abbrev sample_rows : List Organization
sample_rows = org_named (lit "o1") ∷ org_named (lit "o2") ∷ []

handle_update_lem_example :
    ((handle_update sample_world (lit "o2") (some sample_update) sample_rows).0
      ≡ SettingsOutcome.settings (patched sample_world sample_update (org_named (lit "o2"))))
    × (org_with_id
          (lit "o1")
          (handle_update sample_world (lit "o2") (some sample_update) sample_rows).1
        ≡ Got.found (org_named (lit "o1")))
unfolding get_org
handle_update_lem_example =
    handle_update_lem sample_world (lit "o2") (lit "o1") sample_update sample_rows
      (org_named (lit "o2")) refl

test_updated :
    org_with_id
      (lit "o2")
      (handle_update sample_world (lit "o2") (some sample_update) sample_rows).1
    ≡ Got.found (record (org_named (lit "o2")) {
      name = lit "m";
      pii_enabled = true;
      slack_webhook_url = none;
      updated_at = 9;
    })
unfolding handle_update
test_updated = refl
