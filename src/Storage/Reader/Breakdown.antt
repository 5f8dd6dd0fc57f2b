-- ===== src/Storage/Reader/Breakdown.antt =====
-- GetCostBreakdown of server/internal/storage/clickhouse.go, with the four queries behind it.
use promptmeter.Prelude.{
  ℕ, Bool, false, not, ◌||◌, Option, none, some, List, [], ◌∷◌, ◌++◌, Str, lit, str_eq, is_empty,
  if◌then◌else◌,
}
use promptmeter.Domain.Cost.{CostBreakdownItem}
use promptmeter.Storage.Sql.{Cell, Column, Condition, Query}
use promptmeter.Storage.Reader.{
  DashboardQueryParams, select_mv, time_args, event_args, project_filter, model_filter,
  provider_filter, feature_filter, filter_by, on_days, at_times, Ask, collect,
}

abbrev by_cost : Str
by_cost = lit "cost_usd DESC"

-- The grouping that a query asks for.
unfoldable pub needs_cross_dimensional : DashboardQueryParams → Str → Bool
unfolding str_eq
needs_cross_dimensional p group_by =
    if str_eq group_by (lit "model")
    then not (is_empty p.feature_filter)
    else if str_eq group_by (lit "feature")
    then not (is_empty p.model_filter) || not (is_empty p.provider_filter)
    else false

unfoldable pub cost_by_model_query : DashboardQueryParams → ℕ → Query
unfolding select_mv time_args filter_by
cost_by_model_query p limit = record {
  select =
      lit "model"
      ∷ lit "provider"
      ∷ lit "sum(total_cost)"
      ∷ lit "sum(total_tokens)"
      ∷ lit "sum(request_count)"
      ∷ [];
  table = select_mv (lit "mv_cost_by_model_daily") p.project_id;
  conditions = on_days ++ ((project_filter p).0 ++ ((model_filter p).0 ++ (provider_filter p).0));
  group_by = lit "model" ∷ lit "provider" ∷ [];
  order_by = by_cost;
  limit = some limit;
  args = time_args p ++ ((project_filter p).1 ++ ((model_filter p).1 ++ (provider_filter p).1));
}

abbrev pub scan_model : List Cell → Option CostBreakdownItem
scan_model (Cell.text g ∷ Cell.text p ∷ Cell.float c ∷ Cell.uint t ∷ Cell.uint r ∷ []) =
    some (record {
      group = g;
      provider = p;
      cost_usd = c;
      requests = r;
      tokens = t;
      percent_of_total = 0;
    })
scan_model _ = none

unfoldable pub get_cost_by_model : Ask → DashboardQueryParams → ℕ → Option (List CostBreakdownItem)
unfolding collect cost_by_model_query
get_cost_by_model ask p limit = collect scan_model (ask (cost_by_model_query p limit))

unfoldable pub cost_by_tag_query : DashboardQueryParams → Str → ℕ → Query
unfolding select_mv time_args filter_by
cost_by_tag_query p tag_key limit = record {
  select = lit "tag_value" ∷ lit "sum(total_cost)" ∷ lit "sum(request_count)" ∷ [];
  table = select_mv (lit "mv_cost_by_tag_daily") p.project_id;
  conditions = on_days ++ (Condition.is Column.tag_key (lit "tag_key") ∷ (project_filter p).0);
  group_by = lit "tag_value" ∷ [];
  order_by = by_cost;
  limit = some limit;
  args = time_args p ++ ((lit "tag_key", Cell.text tag_key) ∷ (project_filter p).1);
}

-- A row of a group, its cost and its requests.
abbrev pub scan_group : List Cell → Option CostBreakdownItem
scan_group (Cell.text g ∷ Cell.float c ∷ Cell.uint r ∷ []) = some (record {
  group = g;
  provider = [];
  cost_usd = c;
  requests = r;
  tokens = 0;
  percent_of_total = 0;
})
scan_group _ = none

unfoldable pub get_cost_by_tag :
    Ask → DashboardQueryParams → Str → ℕ → Option (List CostBreakdownItem)
unfolding collect cost_by_tag_query
get_cost_by_tag ask p tag_key limit = collect scan_group (ask (cost_by_tag_query p tag_key limit))

unfoldable pub cost_by_project_query : DashboardQueryParams → ℕ → Query
unfolding time_args
cost_by_project_query p limit = record {
  select =
      lit "project_id"
      ∷ lit "sum(total_cost)"
      ∷ lit "sum(total_tokens)"
      ∷ lit "sum(request_count)"
      ∷ [];
  table = lit "mv_cost_by_model_daily_v2_target";
  conditions = on_days;
  group_by = lit "project_id" ∷ [];
  order_by = by_cost;
  limit = some limit;
  args = time_args p;
}

scan_project : List Cell → Option CostBreakdownItem
scan_project (Cell.text g ∷ Cell.float c ∷ Cell.uint t ∷ Cell.uint r ∷ []) = some (record {
  group = g;
  provider = [];
  cost_usd = c;
  requests = r;
  tokens = t;
  percent_of_total = 0;
})
scan_project _ = none

unfoldable pub get_cost_by_project :
    Ask → DashboardQueryParams → ℕ → Option (List CostBreakdownItem)
unfolding collect scan_project cost_by_project_query
get_cost_by_project ask p limit = collect scan_project (ask (cost_by_project_query p limit))

-- The expression of a group, in the queries on the table `events`.
unfoldable pub group_expr : Str → Str
unfolding str_eq
group_expr group_by = if str_eq group_by (lit "feature") then lit "tags['feature']" else lit "model"

-- Grouped by feature, events without one are left out.
unfoldable pub feature_not_empty : Str → List Condition
unfolding str_eq
feature_not_empty group_by =
    if str_eq group_by (lit "feature") then Condition.present Column.feature ∷ [] else []

unfoldable pub cross_dimensional_query : DashboardQueryParams → Str → ℕ → Query
unfolding event_args filter_by group_expr feature_not_empty
cross_dimensional_query p group_by limit = record {
  select = group_expr group_by ∷ lit "sum(cost_usd)" ∷ lit "count()" ∷ [];
  table = lit "events FINAL";
  conditions =
      at_times
      ++ ((project_filter p).0
          ++ ((model_filter p).0
              ++ ((provider_filter p).0 ++ ((feature_filter p).0 ++ feature_not_empty group_by))));
  group_by = lit "group_name" ∷ [];
  order_by = by_cost;
  limit = some limit;
  args =
      event_args p
      ++ ((project_filter p).1
          ++ ((model_filter p).1 ++ ((provider_filter p).1 ++ (feature_filter p).1)));
}

unfoldable pub get_cost_cross_dimensional :
    Ask → DashboardQueryParams → Str → ℕ → Option (List CostBreakdownItem)
unfolding collect cross_dimensional_query
get_cost_cross_dimensional ask p group_by limit =
    collect scan_group (ask (cross_dimensional_query p group_by limit))

unfoldable pub get_cost_breakdown :
    Ask → DashboardQueryParams → Str → ℕ → Option (List CostBreakdownItem)
unfolding needs_cross_dimensional str_eq
get_cost_breakdown ask p group_by limit =
    if needs_cross_dimensional p group_by
    then get_cost_cross_dimensional ask p group_by limit
    else if str_eq group_by (lit "feature")
    then get_cost_by_tag ask p (lit "feature") limit
    else if str_eq group_by (lit "project")
    then get_cost_by_project ask p limit
    else get_cost_by_model ask p limit
