-- ===== src/Dashboard/Params.antt =====
-- The parameters of the dashboard's queries, server/internal/dashboard/handlers/params.go.
use promptmeter.Prelude.{
  ℕ, ◌-◌, ◌*◌, Bool, true, false, ◌||◌, Option, none, some, [], Str, lit, str_eq, is_empty,
  if◌then◌else◌,
}
use promptmeter.Domain.Time.{Time, Duration, hour}
use promptmeter.Storage.Reader.{DashboardQueryParams}

-- A request: r.URL.Query().Get, and the organisation that the middleware put into the context.
pub record Request : Type 0 where
  pub get : Str → Str
  pub org_id : Str
  pub org_numeric : ℕ

-- validPeriods
unfoldable pub valid_period : Str → Option Duration
unfolding str_eq
valid_period period =
    if str_eq period (lit "1d")
    then some (24 * hour)
    else if str_eq period (lit "7d")
    then some (7 * 24 * hour)
    else if str_eq period (lit "30d")
    then some (30 * 24 * hour)
    else if str_eq period (lit "90d")
    then some (90 * 24 * hour)
    else none

-- validGroupBy
unfoldable pub valid_group_by : Str → Bool
unfolding str_eq
valid_group_by g = str_eq g (lit "model") || (str_eq g (lit "feature") || str_eq g (lit "project"))

unfoldable pub granularity_for_period : Str → Str
unfolding str_eq
granularity_for_period period =
    if str_eq period (lit "1d")
    then lit "hour"
    else if str_eq period (lit "90d")
    then lit "week"
    else lit "day"

-- A parameter, or what stands for it if it is empty.
abbrev pub or_default : Str → Str → Str
or_default v d = if is_empty v then d else v

-- What stands in the request for the period and the time zone.
abbrev pub asked_period : Request → Str
asked_period r = or_default (r.get (lit "period")) (lit "7d")

abbrev pub asked_timezone : Request → Str
asked_timezone r = or_default (r.get (lit "timezone")) (lit "UTC")

-- parseDashboardParams, to its end; the texts of its errors are left out. time.LoadLocation is a
-- parameter, which says whether it knows a time zone. The time is more than 90 days behind the origin
-- of Time.
abbrev pub asked_params : Duration → Request → Time → DashboardQueryParams
asked_params dur r now = record {
  org_id = r.org_numeric;
  project_id = r.get (lit "project");
  since = now - dur;
  until = now;
  timezone = asked_timezone r;
  model_filter = [];
  provider_filter = [];
  feature_filter = [];
}

abbrev pub params_of : Option Duration → Bool → Request → Time → Option (DashboardQueryParams × Str)
params_of none known r now = none
params_of (some dur) false r now = none
params_of (some dur) true r now = some (asked_params dur r now, asked_period r)

unfoldable pub parse_dashboard_params :
    (Str → Bool) → Request → Time → Option (DashboardQueryParams × Str)
unfolding valid_period
parse_dashboard_params load_location r now =
    params_of (valid_period (asked_period r)) (load_location (asked_timezone r)) r now

-- parseFilterParams, put into the parameters
unfoldable pub with_filters : Request → DashboardQueryParams → DashboardQueryParams
with_filters r p = record p {
  model_filter = r.get (lit "model");
  provider_filter = r.get (lit "provider");
  feature_filter = r.get (lit "feature");
}
