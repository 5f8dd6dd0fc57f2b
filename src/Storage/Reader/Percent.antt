-- ===== src/Storage/Reader/Percent.antt =====
-- The request counts of two compared periods, and where their difference wraps.
use promptmeter.Prelude.{
  lt→ltb, ℕ, ◌+◌, ◌-◌, ◌%◌, ◌^◌, ◌<◌, ◌≡◌, refl, ◌∙◌, some, List, [], ◌∷◌, Str, sum_by, leb,
  if◌then◌else◌, arith, length, length-map,
}
use promptmeter.Domain.Floats.{Floats}
use promptmeter.Domain.Cost.{CostBreakdownItem, CostComparePeriod, CostCompareResponse}
use promptmeter.Storage.Reader.{DashboardQueryParams, Ask}
use promptmeter.Storage.Reader.Breakdown.{get_cost_breakdown}
use promptmeter.Storage.Reader.Compare.{
  no_costs, sub_uint64, total_of, percent_of, request_percent_of, changes_of, compare_item,
  compare_items, get_cost_compare,
}

abbrev pub requests_in : List CostBreakdownItem → ℕ
requests_in items = sum_by (λ x. x.requests) items

sub_uint64_lem :
    (a b : ℕ)
    → a < 2 ^ 64
    → b < 2 ^ 64
    → sub_uint64 a b ≡ (if leb b a then a - b else 2 ^ 64 - (b - a))
unfolding sub_uint64
sub_uint64_lem a b h k = ground arith

module _ (fl : Floats) where
  total_of-requests :
      (items : List CostBreakdownItem) (t : CostComparePeriod)
      → (total_of fl items t).requests % 2 ^ 64 ≡ (t.requests + requests_in items) % 2 ^ 64
  unfolding total_of
  total_of-requests [] t = omega arith
  total_of-requests (x ∷ xs) t = total_of-requests xs _ ∙ omega arith

  total_of-bound :
      (items : List CostBreakdownItem) (t : CostComparePeriod)
      → t.requests < 2 ^ 64
      → (total_of fl items t).requests < 2 ^ 64
  unfolding total_of
  total_of-bound [] t h = h
  total_of-bound (x ∷ xs) t h = total_of-bound xs _ (omega arith)

  total-requests :
      (items : List CostBreakdownItem)
      → requests_in items < 2 ^ 64
      → (total_of fl items no_costs).requests ≡ requests_in items
  total-requests items h =
      omega (arith, total_of-requests items no_costs, total_of-bound items no_costs (omega arith))

  request_percent_lem :
      (c p : ℕ)
      → c < 2 ^ 64
      → p < 2 ^ 64
      → 0 < p
      → request_percent_of fl c p
        ≡ some (
            percent_of fl (fl.of_uint (if leb p c then c - p else 2 ^ 64 - (p - c))) (fl.of_uint p))
  unfolding request_percent_of
  request_percent_lem c p h k positive = rw (lt→ltb 0 p positive, sub_uint64_lem c p h k) refl

-- Where both breakdowns succeed and their request counts add up to less than 2 ^ 64, those of the
-- earlier period to more than 0, the comparison succeeds, shows both sums and a line for each item of
-- the current period, and its request percentage is computed from the difference if the requests have
-- not become fewer; if they have, from 2 ^ 64 less the decrease.
pub get_cost_compare-requests :
    (fl : Floats) (ask : Ask) (now before : DashboardQueryParams) (group_by : Str) (limit : ℕ)
    (current previous : List CostBreakdownItem)
    → get_cost_breakdown ask now group_by limit ≡ some current
    → get_cost_breakdown ask before group_by limit ≡ some previous
    → requests_in current < 2 ^ 64
    → requests_in previous < 2 ^ 64
    → 0 < requests_in previous
    → (result : CostCompareResponse) × (get_cost_compare fl ask now before group_by limit
        ≡ some result)
      × (result.current.requests ≡ requests_in current)
      × (result.previous.requests ≡ requests_in previous)
      × (length result.breakdown ≡ length current)
      × (result.changes.request_percent
          ≡ some (
              percent_of fl
                (fl.of_uint (
                  if leb (requests_in previous) (requests_in current)
                  then requests_in current - requests_in previous
                  else 2 ^ 64 - (requests_in previous - requests_in current)))
                (fl.of_uint (requests_in previous))))
unfolding get_cost_compare compare_items changes_of
get_cost_compare-requests fl ask now before group_by limit current previous e f c p positive = (
  compare_items fl current previous,
  rw (e, f) refl,
  total-requests fl current c,
  total-requests fl previous p,
  length-map current (λ x. compare_item fl previous x),
  rw (total-requests fl current c, total-requests fl previous p)
      (request_percent_lem fl (requests_in current) (requests_in previous) c p positive),
)
