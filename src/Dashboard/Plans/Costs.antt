-- ===== src/Dashboard/Plans/Costs.antt =====
-- The other handlers of server/internal/dashboard/handlers/cost.go, and the choice among the five.
use promptmeter.Prelude.{
  ◌*◌, Bool, ◌||◌, Option, none, some, List, [], ◌∷◌, Str, lit, str_eq, is_empty, if◌then◌else◌,
}
use promptmeter.Domain.Time.{Time, second, minute}
use promptmeter.Domain.Cost.{TimeseriesSeries, CostCompareResponse, CostFiltersResponse}
use promptmeter.Storage.Redis.{Cache}
use promptmeter.Storage.Reader.{DashboardQueryParams, Ask}
use promptmeter.Storage.Reader.Timeseries.{get_cost_timeseries}
use promptmeter.Storage.Reader.FilterValues.{get_cost_filters}
use promptmeter.Storage.Reader.Compare.{get_cost_compare}
use promptmeter.Dashboard.CacheKey.{cache_key}
use promptmeter.Dashboard.Params.{
  Request, valid_group_by, granularity_for_period, asked_timezone, parse_dashboard_params,
  with_filters,
}
use promptmeter.Dashboard.Answers.{Payload, Reply, Plan, run_plan}
use promptmeter.Dashboard.Plans.{Libraries, asked_group, plan_overview, plan_breakdown}

-- validTimeseriesGroupBy
unfoldable pub valid_timeseries_group_by : Str → Bool
unfolding str_eq
valid_timeseries_group_by g = is_empty g || (str_eq g (lit "model") || str_eq g (lit "feature"))

timeseries_payload : Option (List TimeseriesSeries) → Str → Str → Str → Option Payload
timeseries_payload none granularity period group_by = none
timeseries_payload (some series) granularity period group_by =
    some (Payload.timeseries series granularity period group_by)

compare_payload : Option CostCompareResponse → Str → Option Payload
compare_payload none group_by = none
compare_payload (some result) group_by = some (Payload.compare result group_by)

filters_payload : Option CostFiltersResponse → Option Payload
filters_payload none = none
filters_payload (some result) = some (Payload.filters result)

-- The four times of a comparison.
pub record Periods : Type 0 where
  pub current_from : Time
  pub current_to : Time
  pub previous_from : Time
  pub previous_to : Time

unfoldable pub periods_of : Option Time → Option Time → Option Time → Option Time → Option Periods
periods_of (some a) (some b) (some c) (some d) =
    some (record { current_from = a; current_to = b; previous_from = c; previous_to = d })
periods_of _ _ _ _ = none

module _ (lib : Libraries) where
  unfoldable pub plan_timeseries_of : Request → Option (DashboardQueryParams × Str) → Plan
  unfolding timeseries_payload with_filters valid_timeseries_group_by granularity_for_period
  plan_timeseries_of r none = Plan.bad_request
  plan_timeseries_of r (some (bare, period)) =
      let p = with_filters r bare in
      let group_by = r.get (lit "group_by") in
      let granularity = granularity_for_period period in
      if valid_timeseries_group_by group_by
      then Plan.ready
          (cache_key lib.sha256 r.org_id (lit "timeseries") (
            period ∷ p.project_id ∷ group_by ∷ p.model_filter ∷ p.provider_filter ∷ p.feature_filter
            ∷ p.timezone ∷ []))
          (60 * second)
          (λ ask.
            timeseries_payload (get_cost_timeseries lib.fl ask p group_by granularity) granularity
              period group_by)
      else Plan.bad_request

  unfoldable pub plan_timeseries : Request → Time → Plan
  unfolding plan_timeseries_of parse_dashboard_params
  plan_timeseries r now = plan_timeseries_of r (parse_dashboard_params lib.load_location r now)

  -- The parameters for one of the periods.
  abbrev pub compare_params : Request → Time → Time → DashboardQueryParams
  compare_params r since until = record {
    org_id = r.org_numeric;
    project_id = r.get (lit "project");
    since = since;
    until = until;
    timezone = asked_timezone r;
    model_filter = r.get (lit "model");
    provider_filter = r.get (lit "provider");
    feature_filter = r.get (lit "feature");
  }

  -- The lengths of the periods differ by more than a second.
  unfoldable pub lengths_differ : Periods → Bool
  lengths_differ t = lib.fl.lt (lib.fl.of_uint 1) (
      lib.abs (
        lib.fl.sub (lib.seconds_between t.current_from t.current_to)
          (lib.seconds_between t.previous_from t.previous_to)))

  unfoldable pub plan_compare_of : Request → Option Periods → Plan
  unfolding compare_payload lengths_differ valid_group_by
  plan_compare_of r none = Plan.bad_request
  plan_compare_of r (some t) =
      let group_by = asked_group lib r in
      if lengths_differ t
      then Plan.bad_request
      else if valid_group_by group_by
      then Plan.ready
          (cache_key lib.sha256 r.org_id (lit "compare") (
            lib.format_time t.current_from
            ∷ lib.format_time t.current_to
            ∷ lib.format_time t.previous_from
            ∷ lib.format_time t.previous_to
            ∷ r.get (lit "project")
            ∷ group_by
            ∷ r.get (lit "model")
            ∷ r.get (lit "provider")
            ∷ r.get (lit "feature")
            ∷ asked_timezone r
            ∷ []))
          (60 * second)
          (λ ask.
            compare_payload
              (get_cost_compare lib.fl ask (compare_params r t.current_from t.current_to)
                (compare_params r t.previous_from t.previous_to) group_by 20)
              group_by)
      else Plan.bad_request

  unfoldable pub plan_compare : Request → Plan
  unfolding plan_compare_of periods_of
  plan_compare r = plan_compare_of r (
      periods_of (lib.parse_time (r.get (lit "current_from")))
        (lib.parse_time (r.get (lit "current_to"))) (lib.parse_time (r.get (lit "previous_from")))
        (lib.parse_time (r.get (lit "previous_to"))))

  unfoldable pub plan_filters_of : Request → Option (DashboardQueryParams × Str) → Plan
  unfolding filters_payload
  plan_filters_of r none = Plan.bad_request
  plan_filters_of r (some (p, period)) =
      Plan.ready
        (cache_key lib.sha256 r.org_id (lit "cost-filters") (p.project_id ∷ p.timezone ∷ []))
        (5 * minute) (λ ask. filters_payload (get_cost_filters ask p))

  unfoldable pub plan_filters : Request → Time → Plan
  unfolding plan_filters_of parse_dashboard_params
  plan_filters r now = plan_filters_of r (parse_dashboard_params lib.load_location r now)

-- The routes of the dashboard's queries.
pub data Endpoint : Type 0 where
  overview cost timeseries compare filters : Endpoint

unfoldable pub plan_of : Libraries → Endpoint → Request → Time → Plan
unfolding plan_overview plan_breakdown plan_timeseries plan_compare plan_filters
plan_of lib Endpoint.overview r now = plan_overview lib r now
plan_of lib Endpoint.cost r now = plan_breakdown lib r now
plan_of lib Endpoint.timeseries r now = plan_timeseries lib r now
plan_of lib Endpoint.compare r now = plan_compare lib r
plan_of lib Endpoint.filters r now = plan_filters lib r now

-- A handler, for a request that arrives at a time.
unfoldable pub handle :
    {S : Type 0}
    → Libraries
    → Cache S Str
    → (Time → Payload → Str)
    → Endpoint
    → Request
    → Ask
    → Time
    → S
    → Reply × S
unfolding plan_of run_plan
handle lib c marshal endpoint r ask now s =
    run_plan c marshal (plan_of lib endpoint r now) ask now s
