-- ===== src/Storage/Reader.antt =====
-- The dashboard's queries, server/internal/storage/clickhouse.go: their parameters and the parts that
-- they share.
pub mod Overview
pub mod Breakdown
pub mod Timeseries
pub mod FilterValues
pub mod Compare
pub mod Wanted
pub mod Isolated
pub mod Buckets
pub mod Percent
use promptmeter.Prelude.{
  ℕ, ◌+◌, ◌/◌, ◌%◌, ◌^◌, Bool, true, false, Option, none, some, List, [], ◌∷◌, ◌++◌, Str, lit,
  is_empty, if◌then◌else◌,
}
use promptmeter.Domain.Time.{Time, second}
use promptmeter.Storage.Sql.{Cell, Column, Condition, Args, Query, Rows}

pub record DashboardQueryParams : Type 0 where
  pub org_id : ℕ
  pub project_id : Str
  pub since : Time
  pub until : Time
  pub timezone : Str
  pub model_filter : Str
  pub provider_filter : Str
  pub feature_filter : Str

-- uint32(t.Unix()): 1970 begins 62167392000 seconds behind the origin of Time, which is
-- 2257117440 less than fifteen times 2 ^ 32.
unfoldable pub unix_uint32 : Time → ℕ
unix_uint32 t = (t / second + 2257117440) % 2 ^ 32

-- selectMV
unfoldable pub select_mv : Str → Str → Str
select_mv base project_id =
    if is_empty project_id then base ++ lit "_target" else base ++ lit "_v2_target"

unfoldable pub time_args : DashboardQueryParams → Args
unfolding unix_uint32
time_args p =
    (lit "org_id", Cell.uint p.org_id)
    ∷ (lit "from", Cell.uint (unix_uint32 p.since))
    ∷ (lit "to", Cell.uint (unix_uint32 p.until))
    ∷ []

-- The arguments of the queries on the table `events`.
unfoldable pub event_args : DashboardQueryParams → Args
event_args p =
    (lit "org_id", Cell.uint p.org_id)
    ∷ (lit "from", Cell.time p.since)
    ∷ (lit "to", Cell.time p.until)
    ∷ []

-- A filter that is not the empty text: its condition and its argument.
unfoldable pub filter_by : Column → Str → Str → List Condition × Args
filter_by c name v =
    if is_empty v then ([], []) else (Condition.is c name ∷ [], (name, Cell.text v) ∷ [])

abbrev pub project_filter : DashboardQueryParams → List Condition × Args
project_filter p = filter_by Column.project_id (lit "project_id") p.project_id

abbrev pub model_filter : DashboardQueryParams → List Condition × Args
model_filter p = filter_by Column.model (lit "model_filter") p.model_filter

abbrev pub provider_filter : DashboardQueryParams → List Condition × Args
provider_filter p = filter_by Column.provider (lit "provider_filter") p.provider_filter

abbrev pub feature_filter : DashboardQueryParams → List Condition × Args
feature_filter p = filter_by Column.feature (lit "feature_filter") p.feature_filter

-- org_id = ... AND date >= ... AND date <= ...
abbrev pub on_days : List Condition
on_days =
    Condition.is Column.org_id (lit "org_id")
    ∷ Condition.since Column.date (lit "from")
    ∷ Condition.until Column.date (lit "to")
    ∷ []

-- org_id = ... AND hour >= ... AND hour < ...
abbrev pub in_hours : List Condition
in_hours =
    Condition.is Column.org_id (lit "org_id")
    ∷ Condition.since Column.hour (lit "from")
    ∷ Condition.before Column.hour (lit "to")
    ∷ []

-- org_id = ... AND timestamp >= ... AND timestamp <= ...
abbrev pub at_times : List Condition
at_times =
    Condition.is Column.org_id (lit "org_id")
    ∷ Condition.since Column.timestamp (lit "from")
    ∷ Condition.until Column.timestamp (lit "to")
    ∷ []

-- A query as the store sends it, `none` if it fails.
abbrev pub Ask : Type 0
Ask = Query → Option Rows

-- The loop over rows.Next() with rows.Scan; a row that cannot be scanned is an error.
unfoldable pub scan_all {ℓ} :
    {A : Type ℓ} → (List Cell → Option A) → List (List Cell) → Option (List A)
scan_all scan [] = some []
scan_all scan (r ∷ rs) = elim (scan r) [
  | none ↦ none
  | some a ↦ elim (scan_all scan rs) [ none ↦ none | some rest ↦ some (a ∷ rest) ]
]

-- A query whose rows are scanned and collected, and whose rows.Err() is looked at; no caller looks at
-- items that come with an error.
unfoldable pub collect {ℓ} : {A : Type ℓ} → (List Cell → Option A) → Option Rows → Option (List A)
unfolding scan_all
collect scan none = none
collect scan (some rows) = if rows.fails then none else scan_all scan rows.yielded

-- The same without rows.Err().
unfoldable pub collect_unchecked {ℓ} :
    {A : Type ℓ} → (List Cell → Option A) → Option Rows → Option (List A)
unfolding scan_all
collect_unchecked scan none = none
collect_unchecked scan (some rows) = scan_all scan rows.yielded
