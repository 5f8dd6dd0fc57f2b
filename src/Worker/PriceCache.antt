-- ===== src/Worker/PriceCache.antt =====
-- server/internal/worker/cost.go: the cache of model prices and the cost of an event.
pub mod Latest
use promptmeter.Prelude.{
  ℕ, ◌≡◌, Bool, true, false, ◌&&◌, Option, none, some, List, [], ◌∷◌, ◌++◌, Str, lit, str_eq, leb,
  if◌then◌else◌,
}
use promptmeter.Domain.Floats.{Float64, Floats}
use promptmeter.Domain.Time.{Time}
use promptmeter.Domain.Tags.{TagMap, put_tag}
use promptmeter.Domain.Event.{Event}

-- domain.ModelPrice
pub record ModelPrice : Type 0 where
  pub id : Str
  pub provider : Str
  pub model_name : Str
  pub input_price_per_million : Float64
  pub output_price_per_million : Float64
  pub effective_from : Time
  pub created_at : Time

pub record PriceKey : Type 0 where
  pub provider : Str
  pub model_name : Str

unfoldable pub key_eq : PriceKey → PriceKey → Bool
key_eq a b = str_eq a.provider b.provider && str_eq a.model_name b.model_name

abbrev pub PriceMap : Type 0
PriceMap = List (PriceKey × List ModelPrice)

-- The field `prices` of PriceCache; the store and the logger are parameters.
pub record PriceCache : Type 0 where
  pub prices : PriceMap

-- prices, ok := c.prices[key]
unfoldable pub find_prices : PriceKey → PriceMap → Option (List ModelPrice)
find_prices k [] = none
find_prices k ((j, ps) ∷ m) = if key_eq j k then some ps else find_prices k m

-- newPrices[key] = append(newPrices[key], p)
unfoldable pub append_price : PriceKey → ModelPrice → PriceMap → PriceMap
append_price k p [] = (k, p ∷ []) ∷ []
append_price k p ((j, ps) ∷ m) =
    if key_eq j k then (k, ps ++ p ∷ []) ∷ m else (j, ps) ∷ append_price k p m

abbrev pub key_of : ModelPrice → PriceKey
key_of p = record { provider = p.provider; model_name = p.model_name }

-- The loop of `refresh`.
unfoldable pub group_prices : List ModelPrice → PriceMap → PriceMap
unfolding append_price
group_prices [] m = m
group_prices (p ∷ ps) m = group_prices ps (append_price (key_of p) p m)

-- `loaded` is what the store returns, `none` if it fails; the result is false on that error.
unfoldable pub refresh : Option (List ModelPrice) → PriceCache → Bool × PriceCache
unfolding group_prices
refresh none c = (false, c)
refresh (some all_prices) c = (true, record c { prices = group_prices all_prices [] })

-- The loop that stops at the first price whose EffectiveFrom is not after the event.
unfoldable pub first_effective : Time → List ModelPrice → Option ModelPrice
first_effective t [] = none
first_effective t (p ∷ ps) = if leb p.effective_from t then some p else first_effective t ps

-- event.Tags, or a new map if it is nil
abbrev pub or_new_map : Option TagMap → TagMap
or_new_map none = []
or_new_map (some m) = m

abbrev pub event_key : Event → PriceKey
event_key e = record { provider = e.provider; model_name = e.model }

unfoldable pub mark_unknown : Event → Event
mark_unknown e = record e {
  tags = some (put_tag (lit "_warning") (lit "unknown_model") (or_new_map e.tags));
}

module _ (fl : Floats) where
  unfoldable pub price_of : ModelPrice → Event → Float64
  price_of p e =
      let million = fl.of_uint 1000000 in
      let input_cost =
        fl.div (fl.mul (fl.of_uint e.prompt_tokens) p.input_price_per_million) million in
      let output_cost =
        fl.div (fl.mul (fl.of_uint e.completion_tokens) p.output_price_per_million) million in
      fl.add input_cost output_cost

  unfoldable pub cost_at : Option ModelPrice → Event → Float64 × Event
  unfolding mark_unknown price_of
  cost_at none e = (0, mark_unknown e)
  cost_at (some p) e = (price_of p e, e)

  -- CalculateCost: the cost, and the event with the tag that it may add.
  unfoldable pub calculate_cost : PriceCache → Event → Float64 × Event
  unfolding cost_at find_prices first_effective mark_unknown
  calculate_cost c e = elim (find_prices (event_key e) c.prices) [
    | none ↦ (0, mark_unknown e)
    | some ps ↦ cost_at (first_effective e.timestamp ps) e
  ]
