-- ===== src/Datagen/Prices.antt =====
-- PriceTable of server/internal/datagen/event.go, and BuildPriceTable of datagen.go.
pub mod Charged
use promptmeter.Prelude.{
  ℕ, Option, none, some, List, [], ◌∷◌, ◌++◌, Str, lit, str_eq, leb, if◌then◌else◌,
}
use promptmeter.Domain.Floats.{Float64, Floats}
use promptmeter.Domain.Time.{Time}

pub record PriceEntry : Type 0 where
  pub provider : Str
  pub model_name : Str
  pub input_price_per_million : Float64
  pub output_price_per_million : Float64
  pub effective_from : Time

-- map[string][]PriceEntry
abbrev pub PriceTable : Type 0
PriceTable = List (Str × List PriceEntry)

abbrev pub price_key : Str → Str → Str
price_key provider model = provider ++ (lit "/" ++ model)

-- entries, ok := pt[key]
unfoldable pub find_entries : Str → PriceTable → Option (List PriceEntry)
unfolding str_eq
find_entries key [] = none
find_entries key ((k, es) ∷ pt) = if str_eq k key then some es else find_entries key pt

-- pt[key] = append(pt[key], e)
unfoldable pub append_entry : Str → PriceEntry → PriceTable → PriceTable
unfolding str_eq
append_entry key e [] = (key, e ∷ []) ∷ []
append_entry key e ((k, es) ∷ pt) =
    if str_eq k key then (key, es ++ e ∷ []) ∷ pt else (k, es) ∷ append_entry key e pt

add_entries : List PriceEntry → PriceTable → PriceTable
unfolding append_entry
add_entries [] pt = pt
add_entries (e ∷ es) pt = add_entries es (append_entry (price_key e.provider e.model_name) e pt)

-- BuildPriceTable
unfoldable pub build_price_table : List PriceEntry → PriceTable
unfolding add_entries
build_price_table es = add_entries es []

-- The first of the entries that is in force.
unfoldable pub first_entry : Time → List PriceEntry → Option PriceEntry
first_entry ts [] = none
first_entry ts (e ∷ es) = if leb e.effective_from ts then some e else first_entry ts es

entry_among : Time → Option (List PriceEntry) → Option PriceEntry
unfolding first_entry
entry_among ts none = none
entry_among ts (some es) = first_entry ts es

-- LookupPrice
unfoldable pub lookup_price : PriceTable → Str → Str → Time → Option PriceEntry
unfolding entry_among find_entries
lookup_price pt provider model ts = entry_among ts (find_entries (price_key provider model) pt)

-- calculateCost; float64 arithmetic rounds at each operation.
unfoldable pub cost_of_tokens : Floats → ℕ → ℕ → Option PriceEntry → Float64
cost_of_tokens fl prompt completion none = 0
cost_of_tokens fl prompt completion (some p) =
    fl.add (fl.div (fl.mul (fl.of_uint prompt) p.input_price_per_million) (fl.of_uint 1000000))
      (fl.div (fl.mul (fl.of_uint completion) p.output_price_per_million) (fl.of_uint 1000000))
