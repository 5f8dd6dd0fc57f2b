-- ===== src/Domain/Cost.antt =====
-- server/internal/domain/models.go: what the dashboard shows of an organisation's costs.
use promptmeter.Prelude.{ℕ, Option, List, Str}
use promptmeter.Domain.Floats.{Float64}
use promptmeter.Domain.Time.{Time}

pub record OverviewKpis : Type 0 where
  pub total_cost : Float64
  pub total_requests : ℕ
  pub total_errors : ℕ
  pub avg_latency_ms : Float64

pub record CostBreakdownItem : Type 0 where
  pub group : Str
  pub provider : Str
  pub cost_usd : Float64
  pub requests : ℕ
  pub tokens : ℕ
  pub percent_of_total : Float64

pub record TimeseriesPoint : Type 0 where
  pub timestamp : Time
  pub cost_usd : Float64
  pub requests : ℕ

pub record TimeseriesSeries : Type 0 where
  pub group : Str
  pub points : List TimeseriesPoint

pub record CostComparePeriod : Type 0 where
  pub total_cost : Float64
  pub requests : ℕ

-- A nil pointer is `none`, here and below.
pub record CostCompareChanges : Type 0 where
  pub cost_delta : Float64
  pub cost_percent : Option Float64
  pub request_percent : Option Float64

pub record CostCompareBreakdownItem : Type 0 where
  pub group : Str
  pub current_cost : Float64
  pub previous_cost : Float64
  pub cost_change : Option Float64
  pub requests : ℕ

pub record CostCompareResponse : Type 0 where
  pub current : CostComparePeriod
  pub previous : CostComparePeriod
  pub changes : CostCompareChanges
  pub breakdown : List CostCompareBreakdownItem

pub record CostFiltersResponse : Type 0 where
  pub models : List Str
  pub providers : List Str
  pub features : List Str
