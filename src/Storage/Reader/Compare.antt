-- ===== src/Storage/Reader/Compare.antt =====
-- GetCostCompare of server/internal/storage/clickhouse.go: two periods, side by side.
use promptmeter.Prelude.{
  ℕ, ◌+◌, ◌-◌, ◌%◌, ◌^◌, Option, none, some, List, [], ◌∷◌, Str, str_eq, ltb, map, if◌then◌else◌,
}
use promptmeter.Domain.Floats.{Float64, Floats}
use promptmeter.Domain.Cost.{
  CostBreakdownItem, CostComparePeriod, CostCompareChanges, CostCompareBreakdownItem,
  CostCompareResponse,
}
use promptmeter.Storage.Reader.{DashboardQueryParams, Ask}
use promptmeter.Storage.Reader.Breakdown.{get_cost_breakdown}

abbrev pub no_costs : CostComparePeriod
no_costs = record { total_cost = 0; requests = 0 }

-- prevMap[group], where the last item of a group has replaced the others.
unfoldable pub previous_item : Str → List CostBreakdownItem → Option CostBreakdownItem
unfolding str_eq
previous_item g [] = none
previous_item g (x ∷ xs) = elim (previous_item g xs) [
  | none ↦ if str_eq x.group g then some x else none
  | some y ↦ some y
]

-- a - b of two uint64
unfoldable pub sub_uint64 : ℕ → ℕ → ℕ
sub_uint64 a b = (a + (2 ^ 64 - b)) % 2 ^ 64

module _ (fl : Floats) where
  -- The loops that build the totals.
  unfoldable pub total_of : List CostBreakdownItem → CostComparePeriod → CostComparePeriod
  total_of [] t = t
  total_of (x ∷ xs) t = total_of xs (record {
    total_cost = fl.add t.total_cost x.cost_usd;
    requests = (t.requests + x.requests) % 2 ^ 64;
  })

  -- d / b * 100
  abbrev pub percent_of : Float64 → Float64 → Float64
  percent_of d b = fl.mul (fl.div d b) (fl.of_uint 100)

  unfoldable pub cost_percent_of : Float64 → Float64 → Option Float64
  cost_percent_of current previous =
      if fl.lt (fl.of_uint 0) previous
      then some (percent_of (fl.sub current previous) previous)
      else none

  unfoldable pub request_percent_of : ℕ → ℕ → Option Float64
  unfolding sub_uint64
  request_percent_of current previous =
      if ltb 0 previous
      then some (percent_of (fl.of_uint (sub_uint64 current previous)) (fl.of_uint previous))
      else none

  unfoldable pub changes_of : CostComparePeriod → CostComparePeriod → CostCompareChanges
  unfolding cost_percent_of request_percent_of
  changes_of current previous = record {
    cost_delta = fl.sub current.total_cost previous.total_cost;
    cost_percent = cost_percent_of current.total_cost previous.total_cost;
    request_percent = request_percent_of current.requests previous.requests;
  }

  unfoldable pub compare_item :
      List CostBreakdownItem → CostBreakdownItem → CostCompareBreakdownItem
  unfolding previous_item cost_percent_of
  compare_item previous cur = elim (previous_item cur.group previous) [
    | none ↦ record {
      group = cur.group;
      current_cost = cur.cost_usd;
      previous_cost = 0;
      cost_change = none;
      requests = cur.requests;
    }
    | some prev ↦ record {
      group = cur.group;
      current_cost = cur.cost_usd;
      previous_cost = prev.cost_usd;
      cost_change = cost_percent_of cur.cost_usd prev.cost_usd;
      requests = cur.requests;
    }
  ]

  unfoldable pub compare_items :
      List CostBreakdownItem → List CostBreakdownItem → CostCompareResponse
  unfolding total_of changes_of compare_item
  compare_items current previous =
      let now = total_of current no_costs in
      let before = total_of previous no_costs in
      record {
        current = now;
        previous = before;
        changes = changes_of now before;
        breakdown = map (λ x. compare_item previous x) current;
      }

  -- The two answers, put together.
  unfoldable pub compare_answers :
      Option (List CostBreakdownItem) → Option (List CostBreakdownItem) → Option CostCompareResponse
  unfolding compare_items
  compare_answers (some current) (some previous) = some (compare_items current previous)
  compare_answers _ _ = none

  unfoldable pub get_cost_compare :
      Ask → DashboardQueryParams → DashboardQueryParams → Str → ℕ → Option CostCompareResponse
  unfolding get_cost_breakdown compare_answers
  get_cost_compare ask now before group_by limit =
      compare_answers (get_cost_breakdown ask now group_by limit)
        (get_cost_breakdown ask before group_by limit)
