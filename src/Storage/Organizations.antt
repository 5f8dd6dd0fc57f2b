-- ===== src/Storage/Organizations.antt =====
-- The table `organizations`: GetOrg and UpdateOrg of server/internal/storage/postgres.go.
use promptmeter.Prelude.{Bool, true, false, List, [], ◌∷◌, Str, map, str_eq, if◌then◌else◌}
use promptmeter.Domain.Time.{Time}
use promptmeter.Domain.Account.{Organization}
use promptmeter.Storage.Redis.{Got}

unfoldable pub org_with_id : Str → List Organization → Got Organization
unfolding str_eq
org_with_id id [] = Got.missing
org_with_id id (o ∷ os) = if str_eq o.id id then Got.found o else org_with_id id os

-- GetOrg; `fails` is an error of the query.
unfoldable pub get_org : Bool → List Organization → Str → Got Organization
unfolding org_with_id
get_org fails rows id = if fails then Got.failed else org_with_id id rows

-- The columns that the UPDATE sets, in the row with the organisation's id.
unfoldable pub update_row : Organization → Time → Organization → Organization
unfolding str_eq
update_row o now row =
    if str_eq row.id o.id
    then record row {
      name = o.name;
      timezone = o.timezone;
      pii_enabled = o.pii_enabled;
      slack_webhook_url = o.slack_webhook_url;
      updated_at = now;
    }
    else row

-- UpdateOrg; false is an error.
unfoldable pub update_org :
    Bool → Time → Organization → List Organization → Bool × List Organization
unfolding update_row
update_org fails now o rows = if fails then (false, rows) else (true, map (update_row o now) rows)
