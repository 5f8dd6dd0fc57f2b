-- ===== src/Storage/Reader/Overview.antt =====
-- GetOverviewKPIs of server/internal/storage/clickhouse.go.
use promptmeter.Prelude.{Option, none, some, List, [], ◌∷◌, ◌++◌, lit}
use promptmeter.Domain.Cost.{OverviewKpis}
use promptmeter.Storage.Sql.{Cell, Query, Rows}
use promptmeter.Storage.Reader.{
  DashboardQueryParams, select_mv, time_args, project_filter, filter_by, in_hours, Ask,
}

unfoldable pub overview_query : DashboardQueryParams → Query
unfolding select_mv time_args filter_by
overview_query p = record {
  select =
      lit "coalesce(sum(total_cost), 0)"
      ∷ lit "coalesce(sum(request_count), 0)"
      ∷ lit "coalesce(sum(error_count), 0)"
      ∷ lit "if(count() > 0, avgMerge(avg_latency_ms), 0)"
      ∷ [];
  table = select_mv (lit "mv_cost_hourly") p.project_id;
  conditions = in_hours ++ (project_filter p).0;
  group_by = [];
  order_by = [];
  limit = none;
  args = time_args p ++ (project_filter p).1;
}

scan_kpis : List Cell → Option OverviewKpis
scan_kpis (Cell.float c ∷ Cell.uint r ∷ Cell.uint e ∷ Cell.float l ∷ []) =
    some (record { total_cost = c; total_requests = r; total_errors = e; avg_latency_ms = l })
scan_kpis _ = none

-- QueryRow takes the first row; no row, or an error before it, is an error.
first_row : Option Rows → Option OverviewKpis
unfolding scan_kpis
first_row none = none
first_row (some rows) = elim rows.yielded [ [] ↦ none | r ∷ rs ↦ scan_kpis r ]

unfoldable pub get_overview_kpis : Ask → DashboardQueryParams → Option OverviewKpis
unfolding overview_query first_row
get_overview_kpis ask p = first_row (ask (overview_query p))
