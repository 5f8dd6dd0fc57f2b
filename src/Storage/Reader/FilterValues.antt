-- ===== src/Storage/Reader/FilterValues.antt =====
-- GetCostFilters of server/internal/storage/clickhouse.go: the values that the filters can have.
use promptmeter.Prelude.{Option, none, some, List, [], ◌∷◌, ◌++◌, Str, lit}
use promptmeter.Domain.Cost.{CostFiltersResponse}
use promptmeter.Storage.Sql.{Cell, Column, Condition, Query}
use promptmeter.Storage.Reader.{
  DashboardQueryParams, select_mv, time_args, project_filter, filter_by, on_days, Ask,
  collect_unchecked,
}

-- The distinct models, or providers.
unfoldable pub distinct_query : DashboardQueryParams → Str → Query
unfolding select_mv time_args filter_by
distinct_query p column = record {
  select = (lit "DISTINCT " ++ column) ∷ [];
  table = select_mv (lit "mv_cost_by_model_daily") p.project_id;
  conditions = on_days ++ (project_filter p).0;
  group_by = [];
  order_by = column;
  limit = some 100;
  args = time_args p ++ (project_filter p).1;
}

unfoldable pub distinct_features_query : DashboardQueryParams → Query
unfolding select_mv time_args filter_by
distinct_features_query p = record {
  select = lit "DISTINCT tag_value" ∷ [];
  table = select_mv (lit "mv_cost_by_tag_daily") p.project_id;
  conditions = on_days ++ (Condition.is Column.tag_key (lit "tag_key") ∷ (project_filter p).0);
  group_by = [];
  order_by = lit "feature";
  limit = some 100;
  args = time_args p ++ ((lit "tag_key", Cell.text (lit "feature")) ∷ (project_filter p).1);
}

scan_name : List Cell → Option Str
scan_name (Cell.text n ∷ []) = some n
scan_name _ = none

-- The three answers, put together.
filters_of : Option (List Str) → Option (List Str) → Option (List Str) → Option CostFiltersResponse
filters_of (some ms) (some ps) (some fs) =
    some (record { models = ms; providers = ps; features = fs })
filters_of _ _ _ = none

unfoldable pub get_cost_filters : Ask → DashboardQueryParams → Option CostFiltersResponse
unfolding filters_of collect_unchecked scan_name distinct_query distinct_features_query
get_cost_filters ask p =
    filters_of (collect_unchecked scan_name (ask (distinct_query p (lit "model"))))
      (collect_unchecked scan_name (ask (distinct_query p (lit "provider"))))
      (collect_unchecked scan_name (ask (distinct_features_query p)))
