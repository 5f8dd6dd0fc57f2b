-- ===== src/Storage/Reader/Timeseries.antt =====
-- GetCostTimeseries of server/internal/storage/clickhouse.go: the whole, or split into the five models
-- or features that cost most and `_other`.
use promptmeter.Prelude.{
  ℕ, ◌+◌, ◌%◌, ◌^◌, Option, none, some, List, [], ◌∷◌, ◌++◌, Str, lit, str_eq, any, is_empty, ◌==◌,
  if◌then◌else◌,
}
use promptmeter.Domain.Floats.{Float64, Floats}
use promptmeter.Domain.Time.{Time}
use promptmeter.Domain.Cost.{TimeseriesPoint, TimeseriesSeries}
use promptmeter.Storage.Sql.{Cell, Column, Condition, Query, Rows}
use promptmeter.Storage.Reader.{
  DashboardQueryParams, select_mv, time_args, event_args, project_filter, model_filter,
  provider_filter, feature_filter, filter_by, on_days, in_hours, at_times, Ask, collect,
  collect_unchecked,
}

-- What each of the time series selects of a table with a row per day, or hour.
abbrev sums : List Str
sums = lit "sum(total_cost)" ∷ lit "sum(request_count)" ∷ []

unfoldable pub hourly_query : DashboardQueryParams → Query
unfolding select_mv time_args filter_by
hourly_query p = record {
  select = lit "hour" ∷ sums;
  table = select_mv (lit "mv_cost_hourly") p.project_id;
  conditions = in_hours ++ (project_filter p).0;
  group_by = lit "hour" ∷ [];
  order_by = lit "hour";
  limit = none;
  args = time_args p ++ (project_filter p).1;
}

unfoldable pub weekly_query : DashboardQueryParams → Query
unfolding select_mv time_args filter_by
weekly_query p = record {
  select = lit "toStartOfWeek(date)" ∷ sums;
  table = select_mv (lit "mv_cost_by_model_daily") p.project_id;
  conditions = on_days ++ (project_filter p).0;
  group_by = lit "ts" ∷ [];
  order_by = lit "ts";
  limit = none;
  args = time_args p ++ (project_filter p).1;
}

unfoldable pub daily_query : DashboardQueryParams → Query
unfolding select_mv time_args filter_by
daily_query p = record {
  select = lit "date" ∷ sums;
  table = select_mv (lit "mv_cost_by_model_daily") p.project_id;
  conditions = on_days ++ (project_filter p).0;
  group_by = lit "date" ∷ [];
  order_by = lit "date";
  limit = none;
  args = time_args p ++ (project_filter p).1;
}

unfoldable pub total_query : DashboardQueryParams → Str → Query
unfolding hourly_query weekly_query daily_query str_eq
total_query p granularity =
    if str_eq granularity (lit "hour")
    then hourly_query p
    else if str_eq granularity (lit "week")
    then weekly_query p
    else daily_query p

scan_point : List Cell → Option TimeseriesPoint
scan_point (Cell.time t ∷ Cell.float c ∷ Cell.uint r ∷ []) =
    some (record { timestamp = t; cost_usd = c; requests = r })
scan_point _ = none

abbrev as_total : Option (List TimeseriesPoint) → Option (List TimeseriesSeries)
as_total none = none
as_total (some ps) = some (record { group = lit "_total"; points = ps } ∷ [])

unfoldable pub get_timeseries_total :
    Ask → DashboardQueryParams → Str → Option (List TimeseriesSeries)
unfolding collect scan_point total_query
get_timeseries_total ask p granularity =
    as_total (collect scan_point (ask (total_query p granularity)))

unfoldable pub top_models_query : DashboardQueryParams → Query
unfolding select_mv time_args filter_by
top_models_query p = record {
  select = lit "model" ∷ lit "sum(total_cost)" ∷ [];
  table = select_mv (lit "mv_cost_by_model_daily") p.project_id;
  conditions = on_days ++ (project_filter p).0;
  group_by = lit "model" ∷ [];
  order_by = lit "cost DESC";
  limit = some 5;
  args = time_args p ++ (project_filter p).1;
}

unfoldable pub models_query : DashboardQueryParams → Str → Query
unfolding select_mv time_args filter_by str_eq
models_query p granularity = record {
  select =
      (if str_eq granularity (lit "week") then lit "toStartOfWeek(date)" else lit "date")
      ∷ lit "model"
      ∷ sums;
  table = select_mv (lit "mv_cost_by_model_daily") p.project_id;
  conditions = on_days ++ (project_filter p).0;
  group_by = lit "ts" ∷ lit "model" ∷ [];
  order_by = lit "ts";
  limit = none;
  args = time_args p ++ (project_filter p).1;
}

-- The WHERE clause and the arguments that both queries by feature have.
unfoldable pub with_feature : DashboardQueryParams → List Condition
unfolding filter_by
with_feature p =
    at_times
    ++ (Condition.present Column.feature
        ∷ ((project_filter p).0
            ++ ((model_filter p).0 ++ ((provider_filter p).0 ++ (feature_filter p).0))))

unfoldable pub with_feature_args : DashboardQueryParams → List (Str × Cell)
unfolding event_args filter_by
with_feature_args p =
    event_args p
    ++ ((project_filter p).1
        ++ ((model_filter p).1 ++ ((provider_filter p).1 ++ (feature_filter p).1)))

unfoldable pub top_features_query : DashboardQueryParams → Query
unfolding with_feature with_feature_args
top_features_query p = record {
  select = lit "tags['feature']" ∷ lit "sum(cost_usd)" ∷ [];
  table = lit "events FINAL";
  conditions = with_feature p;
  group_by = lit "feature" ∷ [];
  order_by = lit "cost DESC";
  limit = some 5;
  args = with_feature_args p;
}

unfoldable pub features_query : DashboardQueryParams → Str → Query
unfolding with_feature with_feature_args str_eq
features_query p granularity = record {
  select =
      (if str_eq granularity (lit "hour")
        then lit "toStartOfHour(timestamp)"
        else if str_eq granularity (lit "week")
        then lit "toStartOfWeek(toDate(timestamp))"
        else lit "toDate(timestamp)")
      ∷ lit "tags['feature']"
      ∷ lit "sum(cost_usd)"
      ∷ lit "count()"
      ∷ [];
  table = lit "events FINAL";
  conditions = with_feature p;
  group_by = lit "ts" ∷ lit "feature" ∷ [];
  order_by = lit "ts";
  limit = none;
  args = with_feature_args p;
}

abbrev pub scan_top : List Cell → Option Str
scan_top (Cell.text g ∷ Cell.float c ∷ []) = some g
scan_top _ = none

-- One row of the query behind a split time series.
pub record DetailRow : Type 0 where
  pub ts : Time
  pub group : Str
  pub cost : Float64
  pub requests : ℕ

abbrev pub scan_detail : List Cell → Option DetailRow
scan_detail (Cell.time t ∷ Cell.text g ∷ Cell.float c ∷ Cell.uint r ∷ []) =
    some (record { ts = t; group = g; cost = c; requests = r })
scan_detail _ = none

-- The series that a row belongs to.
unfoldable pub target_series : List Str → Str → Str
unfolding str_eq
target_series tops g = if any (λ t. str_eq t g) tops then g else lit "_other"

-- The field Points of the series of each name. Every series that the loop reads is made before it.
abbrev pub SeriesMap : Type 0
SeriesMap = Str → List TimeseriesPoint

abbrev pub as_point : DetailRow → TimeseriesPoint
as_point r = record { timestamp = r.ts; cost_usd = r.cost; requests = r.requests }

module _ (fl : Floats) where
  abbrev pub add_row : TimeseriesPoint → DetailRow → TimeseriesPoint
  add_row p r = record p {
    cost_usd = fl.add p.cost_usd r.cost;
    requests = (p.requests + r.requests) % 2 ^ 64;
  }

  -- Added to the last point if that has the same time, and otherwise appended.
  unfoldable pub add_point : DetailRow → List TimeseriesPoint → List TimeseriesPoint
  add_point r [] = as_point r ∷ []
  add_point r (p ∷ []) = if p.timestamp == r.ts then add_row p r ∷ [] else p ∷ as_point r ∷ []
  add_point r (p ∷ q ∷ ps) = p ∷ add_point r (q ∷ ps)

  -- The loop over the rows.
  unfoldable pub fill : List Str → List DetailRow → SeriesMap → SeriesMap
  unfolding add_point target_series
  fill tops [] m = m
  fill tops (r ∷ rs) m =
      fill tops rs (λ g. if str_eq (target_series tops r.group) g then add_point r (m g) else m g)

-- The loop that collects the series with points.
unfoldable pub with_points : List Str → SeriesMap → List TimeseriesSeries
with_points [] m = []
with_points (g ∷ gs) m =
    let rest = with_points gs m in
    if is_empty (m g) then rest else record { group = g; points = m g } ∷ rest

unfoldable pub series_of : Floats → List Str → List DetailRow → List TimeseriesSeries
unfolding fill with_points
series_of fl tops rows = with_points (tops ++ lit "_other" ∷ []) (fill fl tops rows (λ g. []))

both_scanned : Floats → Option (List Str) → Option (List DetailRow) → Option (List TimeseriesSeries)
unfolding series_of
both_scanned fl (some tops) (some rows) = some (series_of fl tops rows)
both_scanned fl _ _ = none

-- The answers to the two queries, put together.
unfoldable pub split_series : Floats → Option Rows → Option Rows → Option (List TimeseriesSeries)
unfolding collect collect_unchecked both_scanned
split_series fl top detail =
    both_scanned fl (collect_unchecked scan_top top) (collect scan_detail detail)

unfoldable pub get_timeseries_by_model :
    Floats → Ask → DashboardQueryParams → Str → Option (List TimeseriesSeries)
unfolding split_series top_models_query models_query
get_timeseries_by_model fl ask p granularity =
    split_series fl (ask (top_models_query p)) (ask (models_query p granularity))

unfoldable pub get_timeseries_by_feature :
    Floats → Ask → DashboardQueryParams → Str → Option (List TimeseriesSeries)
unfolding split_series top_features_query features_query
get_timeseries_by_feature fl ask p granularity =
    split_series fl (ask (top_features_query p)) (ask (features_query p granularity))

unfoldable pub get_cost_timeseries :
    Floats → Ask → DashboardQueryParams → Str → Str → Option (List TimeseriesSeries)
unfolding get_timeseries_by_model get_timeseries_by_feature get_timeseries_total str_eq
get_cost_timeseries fl ask p group_by granularity =
    if str_eq group_by (lit "model")
    then get_timeseries_by_model fl ask p granularity
    else if str_eq group_by (lit "feature")
    then get_timeseries_by_feature fl ask p granularity
    else get_timeseries_total ask p granularity
