-- ===== src/Storage/ReaderTests.antt =====
-- The dashboard's queries, at concrete inputs.
use promptmeter.Prelude.{
  ℕ, ◌≡◌, refl, ap, false, Option, none, some, List, [], ◌∷◌, lit, leb, ltb, arith, In, All, ◌+◌,
  ◌≤◌, length, map, ◌-◌, ◌^◌, if◌then◌else◌,
}
use promptmeter.Domain.Samples.{sample_floats}
use promptmeter.Domain.Cost.{CostBreakdownItem, CostCompareResponse, TimeseriesSeries}
use promptmeter.Storage.Sql.{
  Cell, Column, Query, Fact, Times, arg_of, Rows, Database, filter, selects, cell_eq, IsSql,
}
use promptmeter.Storage.Reader.{DashboardQueryParams, Ask, unix_uint32, collect, collect_unchecked}
use promptmeter.Storage.Reader.Overview.{get_overview_kpis}
use promptmeter.Storage.Reader.Breakdown.{get_cost_breakdown, get_cost_by_model}
use promptmeter.Storage.Reader.Timeseries.{get_cost_timeseries, DetailRow, split_series, series_of}
use promptmeter.Storage.Reader.FilterValues.{get_cost_filters}
use promptmeter.Storage.Reader.Compare.{get_cost_compare, percent_of}
use promptmeter.Storage.Reader.Isolated.{reader-IsSameFor}
use promptmeter.Storage.Reader.Wanted.{wanted, get_cost_breakdown-wanted}
use promptmeter.Storage.Reader.Buckets.{series_name}
use promptmeter.Storage.Reader.Buckets.Split.{IsSummed, split_series-IsSummed}
use promptmeter.Storage.Reader.Percent.{get_cost_compare-requests}

abbrev number : Cell → ℕ
number (Cell.text s) = 0
number (Cell.uint n) = n
number (Cell.float f) = f
number (Cell.time t) = t

abbrev sample_times : Times
sample_times = record {
  convert = λ c b. b;
  le = λ a b. leb (number a) (number b);
  lt = λ a b. ltb (number a) (number b);
}

-- A database that yields the model and the counters of the selected rows.
abbrev sample_conn : Database → Query → Option Rows
sample_conn d q = some (record {
  yielded =
      map (λ r. r Column.model ∷ Cell.float 1 ∷ Cell.uint 1 ∷ [])
        (filter (λ r. selects sample_times q r) (d q.table));
  fails = false;
})

sample_conn-IsSql : IsSql sample_times sample_conn
sample_conn-IsSql = record {
  answer = λ d e q same.
      ap
        (λ rows. some (record {
          yielded = map (λ r. r Column.model ∷ Cell.float 1 ∷ Cell.uint 1 ∷ []) rows;
          fails = false;
        }))
        same;
}

abbrev row_of : ℕ → Fact
row_of org Column.org_id = Cell.uint org
row_of org Column.hour = Cell.uint 5
row_of org Column.date = Cell.uint 5
row_of org Column.timestamp = Cell.time 5
row_of org _ = Cell.text (lit "gpt")

abbrev sample_params : DashboardQueryParams
sample_params = record {
  org_id = 7;
  project_id = [];
  since = 62167392001000000000;
  until = 62167392009000000000;
  timezone = lit "UTC";
  model_filter = lit "gpt";
  provider_filter = [];
  feature_filter = [];
}

-- The period before.
abbrev params_before : DashboardQueryParams
params_before = record sample_params { since = 62167392000000000000 }

reader-IsSameFor_example :
    (get_overview_kpis (sample_conn (λ t. row_of 7 ∷ [])) sample_params
      ≡ get_overview_kpis (sample_conn (λ t. row_of 8 ∷ row_of 7 ∷ [])) sample_params)
    × (get_cost_breakdown (sample_conn (λ t. row_of 7 ∷ [])) sample_params (lit "model") 20
        ≡ get_cost_breakdown
            (sample_conn (λ t. row_of 8 ∷ row_of 7 ∷ []))
            sample_params
            (lit "model")
            20)
    × (get_cost_timeseries sample_floats
          (sample_conn (λ t. row_of 7 ∷ []))
          sample_params
          (lit "model")
          (lit "week")
        ≡ get_cost_timeseries sample_floats
            (sample_conn (λ t. row_of 8 ∷ row_of 7 ∷ []))
            sample_params
            (lit "model")
            (lit "week"))
    × (get_cost_filters (sample_conn (λ t. row_of 7 ∷ [])) sample_params
        ≡ get_cost_filters (sample_conn (λ t. row_of 8 ∷ row_of 7 ∷ [])) sample_params)
    × (get_cost_compare sample_floats
          (sample_conn (λ t. row_of 7 ∷ []))
          sample_params
          params_before
          (lit "model")
          20
        ≡ get_cost_compare sample_floats
            (sample_conn (λ t. row_of 8 ∷ row_of 7 ∷ []))
            sample_params
            params_before
            (lit "model")
            20)
unfolding filter cell_eq
reader-IsSameFor_example =
    reader-IsSameFor sample_times sample_conn sample_conn-IsSql (λ t. row_of 7 ∷ [])
      (λ t. row_of 8 ∷ row_of 7 ∷ []) sample_params params_before (λ t. refl) refl sample_floats
      (lit "model") (lit "week") 20

get_cost_breakdown-wanted_example :
    (q : Query) × (scan : List Cell → Option CostBreakdownItem) × (get_cost_breakdown
        (sample_conn (λ t. row_of 7 ∷ []))
        sample_params
        (lit "model")
        20
      ≡ collect scan (sample_conn (λ t. row_of 7 ∷ []) q))
    × ((r : Fact) → selects sample_times q r ≡ wanted sample_times sample_params r)
get_cost_breakdown-wanted_example =
    get_cost_breakdown-wanted sample_times (sample_conn (λ t. row_of 7 ∷ [])) sample_params 20

-- Two models on one day, of which one is at the top.
abbrev sample_rows : List DetailRow
sample_rows =
    record { ts = 1; group = lit "gpt"; cost = 3; requests = 2 }
    ∷ record { ts = 1; group = lit "x"; cost = 1; requests = 1 }
    ∷ record { ts = 1; group = lit "y"; cost = 1; requests = 4 }
    ∷ record { ts = 2; group = lit "gpt"; cost = 5; requests = 6 }
    ∷ []

abbrev sample_top : Option Rows
sample_top =
    some (record { yielded = (Cell.text (lit "gpt") ∷ Cell.float 8 ∷ []) ∷ []; fails = false })

abbrev sample_detail : Option Rows
sample_detail = some (record {
  yielded =
      (Cell.time 1 ∷ Cell.text (lit "gpt") ∷ Cell.float 3 ∷ Cell.uint 2 ∷ [])
      ∷ (Cell.time 1 ∷ Cell.text (lit "x") ∷ Cell.float 1 ∷ Cell.uint 1 ∷ [])
      ∷ (Cell.time 1 ∷ Cell.text (lit "y") ∷ Cell.float 1 ∷ Cell.uint 4 ∷ [])
      ∷ (Cell.time 2 ∷ Cell.text (lit "gpt") ∷ Cell.float 5 ∷ Cell.uint 6 ∷ [])
      ∷ [];
  fails = false;
})

split_series-IsSummed_example :
    (result : List TimeseriesSeries) × (split_series sample_floats sample_top sample_detail
      ≡ some result)
    × (length result ≤ length (lit "gpt" ∷ []) + 1)
    × All (IsSummed sample_floats (lit "gpt" ∷ []) sample_rows) result
    × ((r : DetailRow)
        → In r sample_rows
        → (s : TimeseriesSeries) × In s result × (s.group ≡ series_name (lit "gpt" ∷ []) r.group))
unfolding collect collect_unchecked
split_series-IsSummed_example =
    split_series-IsSummed sample_floats sample_top sample_detail (lit "gpt" ∷ []) sample_rows refl
      refl
      (
        (omega arith, (omega arith, (omega arith, tt))),
        ((omega arith, (omega arith, tt)), ((omega arith, tt), (tt, tt))),
      )

test_series :
    series_of sample_floats (lit "gpt" ∷ []) sample_rows
    ≡ record {
      group = lit "gpt";
      points =
          record { timestamp = 1; cost_usd = 3; requests = 2 }
          ∷ record { timestamp = 2; cost_usd = 5; requests = 6 }
          ∷ [];
    }
      ∷ record {
        group = lit "_other";
        points = record { timestamp = 1; cost_usd = 2; requests = 5 } ∷ [];
      }
      ∷ []
unfolding series_of
test_series = refl

abbrev began : Option Cell → ℕ
began none = 0
began (some c) = number c

-- Three requests where the period begins after 1970, and five before.
abbrev fewer : Ask
fewer q = some (record {
  yielded =
      (Cell.text (lit "gpt")
        ∷ Cell.text (lit "openai")
        ∷ Cell.float 5
        ∷ Cell.uint 9
        ∷ Cell.uint (if ltb 0 (began (arg_of (lit "from") q.args)) then 3 else 5)
        ∷ [])
      ∷ [];
  fails = false;
})

abbrev item : ℕ → CostBreakdownItem
item n = record {
  group = lit "gpt";
  provider = lit "openai";
  cost_usd = 5;
  requests = n;
  tokens = 9;
  percent_of_total = 0;
}

get_cost_compare-requests_example :
    (result : CostCompareResponse) × (get_cost_compare sample_floats fewer sample_params
        params_before
        (lit "model")
        20
      ≡ some result)
    × (result.current.requests ≡ 3)
    × (result.previous.requests ≡ 5)
    × (length result.breakdown ≡ 1)
    × (result.changes.request_percent ≡ some (percent_of sample_floats (2 ^ 64 - 2) 5))
unfolding get_cost_breakdown get_cost_by_model arg_of unix_uint32
get_cost_compare-requests_example =
    get_cost_compare-requests sample_floats fewer sample_params params_before (lit "model") 20
      (item 3 ∷ []) (item 5 ∷ []) refl refl (omega arith) (omega arith) (omega arith)
