-- ===== src/Dashboard/Plans.antt =====
-- HandleOverview and HandleCostBreakdown of server/internal/dashboard/handlers.
pub mod Costs
pub mod Alike
pub mod Cached
pub mod Exchanged
use promptmeter.Prelude.{
  ℕ, ◌-◌, ◌*◌, Bool, true, false, not, ◌||◌, Option, none, some, List, [], ◌∷◌, ◌++◌, Str, lit,
  str_eq, is_empty, ltb, map, if◌then◌else◌,
}
use promptmeter.Domain.Floats.{Float64, Floats}
use promptmeter.Domain.Time.{Time, second, minute}
use promptmeter.Domain.Cost.{
  OverviewKpis, CostBreakdownItem, TimeseriesSeries, CostCompareResponse, CostFiltersResponse,
}
use promptmeter.Storage.Redis.{Cache}
use promptmeter.Storage.Reader.{DashboardQueryParams, Ask}
use promptmeter.Storage.Reader.Overview.{get_overview_kpis}
use promptmeter.Storage.Reader.Breakdown.{get_cost_breakdown}
use promptmeter.Storage.Reader.Timeseries.{get_cost_timeseries}
use promptmeter.Storage.Reader.FilterValues.{get_cost_filters}
use promptmeter.Storage.Reader.Compare.{get_cost_compare, percent_of}
use promptmeter.Dashboard.CacheKey.{cache_key}
use promptmeter.Dashboard.Params.{
  Request, valid_group_by, granularity_for_period, or_default, asked_period, asked_timezone,
  parse_dashboard_params, with_filters,
}
use promptmeter.Dashboard.Answers.{OverviewResponse, Payload, Reply, Plan, run_plan}

-- The libraries that the handlers use: SHA-256, time zones, RFC 3339, the seconds from one time to
-- another, and math.Abs.
pub record Libraries : Type 0 where
  pub fl : Floats
  pub sha256 : Str → List ℕ
  pub load_location : Str → Bool
  pub parse_time : Str → Option Time
  pub format_time : Time → Str
  pub seconds_between : Time → Time → Float64
  pub abs : Float64 → Float64

module _ (lib : Libraries) where
  -- percentChange
  unfoldable pub percent_change : Float64 → Float64 → Option Float64
  percent_change old new =
      if lib.fl.eq old 0
      then (if lib.fl.eq new 0 then some 0 else none)
      else some (percent_of lib.fl (lib.fl.sub new old) old)

  -- Errors in a hundred requests, and the cost of one; 0 without a request.
  unfoldable pub error_rate_of : OverviewKpis → Float64
  error_rate_of k =
      if ltb 0 k.total_requests
      then percent_of lib.fl (lib.fl.of_uint k.total_errors) (lib.fl.of_uint k.total_requests)
      else 0

  unfoldable pub cost_per_req_of : OverviewKpis → Float64
  cost_per_req_of k =
      if ltb 0 k.total_requests
      then lib.fl.div k.total_cost (lib.fl.of_uint k.total_requests)
      else 0

  -- The group of the first item, if there is one.
  abbrev pub first_group : Option (List CostBreakdownItem) → Str
  first_group none = []
  first_group (some []) = []
  first_group (some (x ∷ xs)) = x.group

  abbrev pub without_changes : OverviewKpis → Str → Str → OverviewResponse
  without_changes k model feature = record {
    total_cost = k.total_cost;
    total_requests = k.total_requests;
    error_rate = error_rate_of k;
    avg_cost_per_req = cost_per_req_of k;
    avg_latency_ms = k.avg_latency_ms;
    cost_change = none;
    requests_change = none;
    error_rate_change = none;
    cost_per_req_change = none;
    top_model = model;
    top_feature = feature;
  }

  unfoldable pub overview_response :
      OverviewKpis → Option OverviewKpis → Str → Str → OverviewResponse
  unfolding error_rate_of cost_per_req_of percent_change
  overview_response k none model feature = without_changes k model feature
  overview_response k (some old) model feature = record (without_changes k model feature) {
    cost_change = percent_change old.total_cost k.total_cost;
    requests_change =
        percent_change (lib.fl.of_uint old.total_requests) (lib.fl.of_uint k.total_requests);
    error_rate_change = percent_change (error_rate_of old) (error_rate_of k);
    cost_per_req_change = percent_change (cost_per_req_of old) (cost_per_req_of k);
  }

  -- The period as long as this one that ends where it begins.
  abbrev pub period_before : DashboardQueryParams → DashboardQueryParams
  period_before p = record p { since = p.since - (p.until - p.since); until = p.since }

  overview_payload : Option OverviewKpis → Option OverviewKpis → Str → Str → Option Payload
  unfolding overview_response
  overview_payload none old model feature = none
  overview_payload (some k) old model feature =
      some (Payload.overview (overview_response k old model feature))

  unfoldable pub read_overview : DashboardQueryParams → Ask → Option Payload
  unfolding overview_payload get_overview_kpis get_cost_breakdown
  read_overview p ask =
      overview_payload (get_overview_kpis ask p) (get_overview_kpis ask (period_before p))
        (first_group (get_cost_breakdown ask p (lit "model") 1))
        (first_group (get_cost_breakdown ask p (lit "feature") 1))

  unfoldable pub plan_overview_of : Request → Option (DashboardQueryParams × Str) → Plan
  unfolding read_overview
  plan_overview_of r none = Plan.bad_request
  plan_overview_of r (some (p, period)) =
      Plan.ready
        (cache_key lib.sha256 r.org_id (lit "overview") (period ∷ p.project_id ∷ p.timezone ∷ []))
        (60 * second) (read_overview p)

  unfoldable pub plan_overview : Request → Time → Plan
  unfolding plan_overview_of parse_dashboard_params
  plan_overview r now = plan_overview_of r (parse_dashboard_params lib.load_location r now)

  -- The loops that compute percent_of_total.
  unfoldable pub cost_of_all : List CostBreakdownItem → Float64 → Float64
  cost_of_all [] t = t
  cost_of_all (x ∷ xs) t = cost_of_all xs (lib.fl.add t x.cost_usd)

  unfoldable pub with_percent : List CostBreakdownItem → List CostBreakdownItem
  unfolding cost_of_all
  with_percent items =
      let total = cost_of_all items 0 in
      if lib.fl.lt 0 total
      then map
          (λ (x : CostBreakdownItem). record x {
            percent_of_total = percent_of lib.fl x.cost_usd total;
          })
          items
      else items

  -- The filters that are not empty, for the answer's meta data.
  abbrev pub given : Str → Str → List (Str × Str) → List (Str × Str)
  given name v rest = if is_empty v then rest else (name, v) ∷ rest

  abbrev pub given_filters : DashboardQueryParams → List (Str × Str)
  given_filters p =
      given (lit "model") p.model_filter
        (given (lit "provider") p.provider_filter (given (lit "feature") p.feature_filter []))

  breakdown_payload :
      Option (List CostBreakdownItem) → Str → Str → List (Str × Str) → Option Payload
  unfolding with_percent
  breakdown_payload none group_by period fs = none
  breakdown_payload (some items) group_by period fs =
      some (Payload.breakdown (with_percent items) group_by period fs)

  -- The group that is asked for, `model` if none is.
  abbrev pub asked_group : Request → Str
  asked_group r = or_default (r.get (lit "group_by")) (lit "model")

  unfoldable pub plan_breakdown_of : Request → Option (DashboardQueryParams × Str) → Plan
  unfolding breakdown_payload with_filters valid_group_by
  plan_breakdown_of r none = Plan.bad_request
  plan_breakdown_of r (some (bare, period)) =
      let p = with_filters r bare in
      let group_by = asked_group r in
      if valid_group_by group_by
      then Plan.ready
          (cache_key lib.sha256 r.org_id (lit "cost") (
            period ∷ p.project_id ∷ group_by ∷ p.model_filter ∷ p.provider_filter ∷ p.feature_filter
            ∷ p.timezone ∷ []))
          (60 * second)
          (λ ask.
            breakdown_payload (get_cost_breakdown ask p group_by 20) group_by period
              (given_filters p))
      else Plan.bad_request

  unfoldable pub plan_breakdown : Request → Time → Plan
  unfolding plan_breakdown_of parse_dashboard_params
  plan_breakdown r now = plan_breakdown_of r (parse_dashboard_params lib.load_location r now)
