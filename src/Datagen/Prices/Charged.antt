-- ===== src/Datagen/Prices/Charged.antt =====
-- The generator and the worker charge alike.
use mathlib.Core.List.{append-nil, append_assoc}
use promptmeter.Prelude.{
  ℕ, ◌≡◌, ◌≢◌, ◌↔◌, inl, inr, refl, sym, ap, ◌∙◌, Bool, true, false, Option, none, some, List, [],
  ◌∷◌, ◌++◌, Str, str_eq, str_eq_iff, leb, if◌then◌else◌, arith, All, Bool-cases, map, split_apart,
}
use promptmeter.Domain.Floats.{Float64, Floats}
use promptmeter.Domain.Event.{Event}
use promptmeter.Worker.PriceCache.{
  ModelPrice, PriceKey, PriceCache, key_eq, key_of, first_effective, event_key, price_of, cost_at,
  calculate_cost,
}
use promptmeter.Worker.PriceCache.Latest.{key_eq_iff, with_key, refreshed, refreshed_lem}
use promptmeter.Datagen.Prices.{
  PriceEntry, PriceTable, price_key, find_entries, append_entry, add_entries, build_price_table,
  first_entry, entry_among, lookup_price, cost_of_tokens,
}

-- A price of the table `model_prices`, as the generator reads it.
abbrev pub entry_of : ModelPrice → PriceEntry
entry_of p = record {
  provider = p.provider;
  model_name = p.model_name;
  input_price_per_million = p.input_price_per_million;
  output_price_per_million = p.output_price_per_million;
  effective_from = p.effective_from;
}

abbrev pub IsSlashFree : Str → Type 0
IsSlashFree s = All (λ c. c ≢ b'/') s

price_key_iff :
    (a b : PriceKey)
    → IsSlashFree a.provider
    → IsSlashFree b.provider
    → (key_eq a b ≡ true) ↔ (price_key a.provider a.model_name ≡ price_key b.provider b.model_name)
price_key_iff a b free free' = (
  λ e. ap (λ (k : PriceKey). price_key k.provider k.model_name) ((key_eq_iff a b).0 e),
  λ e.
      let (model, provider) =
        split_apart _ a.provider b.provider a.model_name b.model_name free free' e in
      (key_eq_iff a b).1 (cc),
)

-- The entries with one key, in the order of the list.
entries_with : Str → List PriceEntry → List PriceEntry
entries_with key [] = []
entries_with key (e ∷ es) =
    let rest = entries_with key es in
    if str_eq (price_key e.provider e.model_name) key then e ∷ rest else rest

or_empty : Option (List PriceEntry) → List PriceEntry
or_empty none = []
or_empty (some es) = es

find-append_entry :
    (key k : Str) (e : PriceEntry) (pt : PriceTable)
    → or_empty (find_entries key (append_entry k e pt))
      ≡ or_empty (find_entries key pt) ++ (if str_eq k key then e ∷ [] else [])
unfolding find_entries append_entry or_empty
find-append_entry key k e [] = ground arith
find-append_entry key k e ((i, es) ∷ pt) = ground (
  arith,
  str_eq_iff i k,
  str_eq_iff i key,
  str_eq_iff k key,
  find-append_entry key k e pt,
  append-nil es,
  append-nil (or_empty (find_entries key pt)),
)

find-add_entries :
    (key : Str) (es : List PriceEntry) (pt : PriceTable)
    → or_empty (find_entries key (add_entries es pt))
      ≡ or_empty (find_entries key pt) ++ entries_with key es
unfolding add_entries entries_with
find-add_entries key [] pt = sym (append-nil _)
find-add_entries key (e ∷ es) pt =
    let k = price_key e.provider e.model_name in
    find-add_entries key es (append_entry k e pt)
    ∙ ap (λ l. l ++ entries_with key es) (find-append_entry key k e pt)
    ∙ append_assoc (or_empty (find_entries key pt)) (if str_eq k key then e ∷ [] else [])
        (entries_with key es)
    ∙ ap (λ l. or_empty (find_entries key pt) ++ l) (push_if (str_eq k key) e (entries_with key es))
  where
    push_if :
        (b : Bool) (x : PriceEntry) (l : List PriceEntry)
        → (if b then x ∷ [] else []) ++ l ≡ (if b then x ∷ l else l)
    push_if true x l = refl
    push_if false x l = refl

-- The entries of a key that the worker's prices of a model have.
entries_with-map :
    (k : PriceKey) (ps : List ModelPrice)
    → IsSlashFree k.provider
    → All (λ p. IsSlashFree p.provider) ps
    → entries_with (price_key k.provider k.model_name) (map entry_of ps)
      ≡ map entry_of (with_key k ps)
unfolding entries_with
entries_with-map k [] free frees = refl
entries_with-map k (p ∷ ps) free frees = ground (
  arith,
  price_key_iff (key_of p) k frees.0 free,
  str_eq_iff (price_key p.provider p.model_name) (price_key k.provider k.model_name),
  entries_with-map k ps free frees.1,
)

first_entry-map :
    (fl : Floats) (e : Event) (ps : List ModelPrice)
    → cost_of_tokens fl e.prompt_tokens e.completion_tokens
        (first_entry e.timestamp (map entry_of ps))
      ≡ (cost_at fl (first_effective e.timestamp ps) e).0
unfolding cost_of_tokens first_entry first_effective cost_at price_of
first_entry-map fl e [] = refl
first_entry-map fl e (p ∷ ps) = elim (Bool-cases (leb p.effective_from e.timestamp)) [
  | inl now ↦ rw now refl
  | inr later ↦ rw later (first_entry-map fl e ps)
]

entry_among_lem :
    (t : ℕ) (o : Option (List PriceEntry)) → entry_among t o ≡ first_entry t (or_empty o)
unfolding entry_among or_empty first_entry
entry_among_lem t none = refl
entry_among_lem t (some es) = refl

-- From the same rows of the table `model_prices`, read in the same order, the generator looks up the
-- price that the worker charges: the cost it stores for tokens of a model at a time is what
-- CalculateCost gives for an event with these. No provider has a slash in its name.
pub lookup_price-calculate_cost :
    (fl : Floats) (all_prices : List ModelPrice) (c : PriceCache) (e : Event)
    → IsSlashFree e.provider
    → All (λ p. IsSlashFree p.provider) all_prices
    → cost_of_tokens fl e.prompt_tokens e.completion_tokens
        (lookup_price (build_price_table (map entry_of all_prices)) e.provider e.model e.timestamp)
      ≡ (calculate_cost fl (refreshed all_prices c) e).0
unfolding lookup_price build_price_table find_entries or_empty
lookup_price-calculate_cost fl all_prices c e free frees =
    let key = price_key e.provider e.model in
    let cost : Option PriceEntry → Float64 =
      cost_of_tokens fl e.prompt_tokens e.completion_tokens in
    ap cost (entry_among_lem e.timestamp _)
    ∙ ap (λ l. cost (first_entry e.timestamp l))
        (find-add_entries key (map entry_of all_prices) []
          ∙ entries_with-map (event_key e) all_prices free frees)
    ∙ first_entry-map fl e (with_key (event_key e) all_prices)
    ∙ ap (λ r. r.0) (sym (refreshed_lem fl all_prices c e))
