-- ===== src/Datagen/Tests.antt =====
-- The prices and the identifiers of generated events, at concrete inputs.
use promptmeter.Prelude.{ℕ, ◌≡◌, refl, true, some, List, [], ◌∷◌, Str, lit, arith, map, hex_encode}
use promptmeter.Domain.Samples.{sample_event, sample_floats}
use promptmeter.Worker.PriceCache.{ModelPrice, PriceCache, calculate_cost}
use promptmeter.Worker.PriceCache.Latest.{refreshed}
use promptmeter.Ingestion.Validation.{to_lower, matches, uuid_v7_pattern}
use promptmeter.Datagen.EventId.{event_id_bytes, deterministic_event_id}
use promptmeter.Datagen.EventId.Accepted.{dashed, IsUuidPrinter, deterministic_event_id-matches}
use promptmeter.Datagen.Prices.{price_key, build_price_table, lookup_price, cost_of_tokens}
use promptmeter.Datagen.Prices.Charged.{IsSlashFree, entry_of, lookup_price-calculate_cost}

abbrev early_price : ModelPrice
early_price = record {
  id = lit "1";
  provider = lit "openai";
  model_name = lit "gpt";
  input_price_per_million = 5;
  output_price_per_million = 6;
  effective_from = 50;
  created_at = 0;
}

abbrev later_price : ModelPrice
later_price = record early_price { effective_from = 120; input_price_per_million = 7 }

abbrev other_price : ModelPrice
other_price = record early_price { model_name = lit "gpt2"; input_price_per_million = 9 }

abbrev three_prices : List ModelPrice
three_prices = later_price ∷ early_price ∷ other_price ∷ []

abbrev empty_cache : PriceCache
empty_cache = record { prices = [] }

test_lookup :
    lookup_price (build_price_table (map entry_of three_prices)) (lit "openai") (lit "gpt") 100
    ≡ some (entry_of early_price)
unfolding lookup_price build_price_table
test_lookup = refl

-- With a slash in a provider's name two models have one key.
test_shared : price_key (lit "a/b") (lit "c") ≡ price_key (lit "a") (lit "b/c")
test_shared = refl

openai-IsSlashFree : IsSlashFree (lit "openai")
openai-IsSlashFree =
    (omega arith, (omega arith, (omega arith, (omega arith, (omega arith, (omega arith, tt))))))

lookup_price-calculate_cost_example :
    cost_of_tokens sample_floats 3 4
      (lookup_price (build_price_table (map entry_of three_prices)) (lit "openai") (lit "gpt") 100)
    ≡ (calculate_cost sample_floats (refreshed three_prices empty_cache) sample_event).0
lookup_price-calculate_cost_example =
    lookup_price-calculate_cost sample_floats three_prices empty_cache sample_event
      openai-IsSlashFree (openai-IsSlashFree, (openai-IsSlashFree, (openai-IsSlashFree, tt)))

-- The standard form.
abbrev standard : List ℕ → Str
standard (a0 ∷ a1 ∷ a2 ∷ a3 ∷ b0 ∷ b1 ∷ c0 ∷ c1 ∷ d0 ∷ d1 ∷ e0 ∷ e1 ∷ e2 ∷ e3 ∷ e4 ∷ e5 ∷ []) =
    dashed (hex_encode (a0 ∷ a1 ∷ a2 ∷ a3 ∷ [])) (hex_encode (b0 ∷ b1 ∷ []))
      (hex_encode (c0 ∷ c1 ∷ [])) (hex_encode (d0 ∷ d1 ∷ []))
      (hex_encode (e0 ∷ e1 ∷ e2 ∷ e3 ∷ e4 ∷ e5 ∷ []))
standard _ = []

standard-IsUuidPrinter : IsUuidPrinter standard
standard-IsUuidPrinter a0 a1 a2 a3 b0 b1 c0 c1 d0 d1 e0 e1 e2 e3 e4 e5 = refl

test_event_id :
    deterministic_event_id standard 1767312000000 18446744073709551615 0
    ≡ lit "019b7c01-0400-7fff-bfff-ffff00000000"
unfolding deterministic_event_id event_id_bytes hex_encode
test_event_id = refl

deterministic_event_id-matches_example :
    matches uuid_v7_pattern
      (to_lower (deterministic_event_id standard 1767312000000 18446744073709551615 5))
    ≡ true
deterministic_event_id-matches_example =
    deterministic_event_id-matches standard 1767312000000 18446744073709551615 5
      standard-IsUuidPrinter
