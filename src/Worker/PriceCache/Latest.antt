-- ===== src/Worker/PriceCache/Latest.antt =====
-- The price that an event is charged: the latest one in force at its time.
use mathlib.Core.List.{append-nil, append_assoc}
use promptmeter.Prelude.{
  ℕ, ◌≤◌, ◌<◌, ◌≡◌, ◌↔◌, In, inl, inr, refl, sym, ap, ◌∙◌, Bool, true, false, Option, none, some,
  List, [], ◌∷◌, ◌++◌, str_eq_iff, leb, if◌then◌else◌, arith, All, Bool-cases, Option-cases,
}
use promptmeter.Domain.Floats.{Floats}
use promptmeter.Domain.Event.{Event}
use promptmeter.Worker.PriceCache.{
  ModelPrice, PriceKey, key_eq, PriceMap, PriceCache, find_prices, append_price, key_of,
  group_prices, refresh, first_effective, event_key, mark_unknown, price_of, cost_at,
  calculate_cost,
}

pub key_eq_iff : (a b : PriceKey) → (key_eq a b ≡ true) ↔ (a ≡ b)
unfolding key_eq
key_eq_iff a b =
    ground (arith, str_eq_iff a.provider b.provider, str_eq_iff a.model_name b.model_name)

-- The prices of one model, in the order of the list.
abbrev pub with_key : PriceKey → List ModelPrice → List ModelPrice
with_key k [] = []
with_key k (p ∷ ps) = let rest = with_key k ps in if key_eq (key_of p) k then p ∷ rest else rest

abbrev or_nil : Option (List ModelPrice) → List ModelPrice
or_nil none = []
or_nil (some ps) = ps

find-append_price :
    (k j : PriceKey) (p : ModelPrice) (m : PriceMap)
    → or_nil (find_prices k (append_price j p m))
      ≡ or_nil (find_prices k m) ++ (if key_eq j k then p ∷ [] else [])
unfolding find_prices append_price
find-append_price k j p [] = ground arith
find-append_price k j p ((i, ps) ∷ m) = ground (
  arith,
  key_eq_iff i j,
  key_eq_iff i k,
  key_eq_iff j k,
  find-append_price k j p m,
  append-nil ps,
  append-nil (or_nil (find_prices k m)),
)

-- `refresh` files each price under its model and keeps the order of the store.
find-group_prices :
    (k : PriceKey) (ps : List ModelPrice) (m : PriceMap)
    → or_nil (find_prices k (group_prices ps m)) ≡ or_nil (find_prices k m) ++ with_key k ps
unfolding group_prices
find-group_prices k [] m = sym (append-nil _)
find-group_prices k (p ∷ ps) m =
    find-group_prices k ps (append_price (key_of p) p m)
    ∙ ap (λ l. l ++ with_key k ps) (find-append_price k (key_of p) p m)
    ∙ append_assoc (or_nil (find_prices k m)) (if key_eq (key_of p) k then p ∷ [] else [])
        (with_key k ps)
    ∙ ap (λ l. or_nil (find_prices k m) ++ l) (joined (key_eq (key_of p) k))
  where
    joined :
        (b : Bool)
        → (if b then p ∷ [] else []) ++ with_key k ps
          ≡ (if b then p ∷ with_key k ps else with_key k ps)
    joined true = refl
    joined false = refl

calculate_cost_lem :
    (fl : Floats) (c : PriceCache) (e : Event)
    → calculate_cost fl c e
      ≡ cost_at fl (first_effective e.timestamp (or_nil (find_prices (event_key e) c.prices))) e
unfolding calculate_cost cost_at first_effective
calculate_cost_lem fl c e = elim (Option-cases (find_prices (event_key e) c.prices)) [
  | inl missing ↦ rw (missing, calculate_cost)
  | inr (ps, found) ↦ rw (found, calculate_cost)
]

-- What the store's ORDER BY gives for the prices of one model.
abbrev pub IsLatestFirst : List ModelPrice → Type 0
IsLatestFirst [] = Unit
IsLatestFirst (p ∷ ps) = All (λ q. q.effective_from ≤ p.effective_from) ps × IsLatestFirst ps

-- `p` is the latest of the prices that are in force at a time.
pub record IsCharged (t : ℕ) (ps : List ModelPrice) (p : ModelPrice) : Type 0 where
  pub listed : In p ps
  pub in_force : p.effective_from ≤ t
  pub latest : All (λ q. q.effective_from ≤ t → q.effective_from ≤ p.effective_from) ps

later_ones :
    (b t : ℕ) (ps : List ModelPrice)
    → All (λ q. q.effective_from ≤ b) ps
    → All (λ q. q.effective_from ≤ t → q.effective_from ≤ b) ps
later_ones b t [] h = tt
later_ones b t (p ∷ ps) h = ((λ _. h.0), later_ones b t ps h.1)

first_effective-IsCharged :
    (t : ℕ) (ps : List ModelPrice) (p : ModelPrice)
    → IsLatestFirst ps
    → In p ps
    → p.effective_from ≤ t
    → (q : ModelPrice) × (first_effective t ps ≡ some q) × IsCharged t ps q
unfolding first_effective
first_effective-IsCharged t [] p s m h = absurd m
first_effective-IsCharged t (x ∷ ps) p s m h = elim (Bool-cases (leb x.effective_from t)) [
  | inl now ↦ (
    x,
    rw now,
    record {
      listed = inl refl;
      in_force = ground arith;
      latest = ((λ _. omega arith), later_ones x.effective_from t ps s.0);
    },
  )
  | inr later ↦ elim m [
    | inl same ↦ absurd (ground arith)
    | inr rest ↦
        let (q, found, c) = first_effective-IsCharged t ps p s.1 rest h in
        (
          q,
          rw later found,
          record {
            listed = inr c.listed;
            in_force = c.in_force;
            latest = ((λ k. absurd (ground arith)), c.latest);
          },
        )
  ]
]

first_effective-none :
    (t : ℕ) (ps : List ModelPrice)
    → All (λ p. t < p.effective_from) ps
    → first_effective t ps ≡ none
unfolding first_effective
first_effective-none t [] h = refl
first_effective-none t (p ∷ ps) h = ground (arith, first_effective-none t ps h.1)

abbrev pub refreshed : List ModelPrice → PriceCache → PriceCache
refreshed all_prices c = (refresh (some all_prices) c).1

pub refreshed_lem :
    (fl : Floats) (all_prices : List ModelPrice) (c : PriceCache) (e : Event)
    → calculate_cost fl (refreshed all_prices c) e
      ≡ cost_at fl (first_effective e.timestamp (with_key (event_key e) all_prices)) e
unfolding refresh find_prices
refreshed_lem fl all_prices c e =
    calculate_cost_lem fl (refreshed all_prices c) e
    ∙ ap (λ l. cost_at fl (first_effective e.timestamp l) e)
        (find-group_prices (event_key e) all_prices [])

-- After a refresh from a list in which the prices of the event's provider and model stand latest
-- first, and one of them is in force at the event's time, the event costs what its tokens cost at
-- the latest price in force, and is left as it was.
pub calculate_cost-IsCharged :
    (fl : Floats) (all_prices : List ModelPrice) (c : PriceCache) (e : Event) (p : ModelPrice)
    → IsLatestFirst (with_key (event_key e) all_prices)
    → In p (with_key (event_key e) all_prices)
    → p.effective_from ≤ e.timestamp
    → (q : ModelPrice) × IsCharged e.timestamp (with_key (event_key e) all_prices) q
      × (calculate_cost fl (refreshed all_prices c) e ≡ (price_of fl q e, e))
unfolding cost_at
calculate_cost-IsCharged fl all_prices c e p sorted listed in_force =
    let (q, found, charged) =
      first_effective-IsCharged e.timestamp (with_key (event_key e) all_prices) p sorted listed
        in_force in
    (q, charged, refreshed_lem fl all_prices c e ∙ ap (λ o. cost_at fl o e) found)

-- If no price of the event's provider and model is in force at its time, it costs nothing and gets
-- the warning tag.
pub calculate_cost-unknown :
    (fl : Floats) (all_prices : List ModelPrice) (c : PriceCache) (e : Event)
    → All (λ p. e.timestamp < p.effective_from) (with_key (event_key e) all_prices)
    → calculate_cost fl (refreshed all_prices c) e ≡ (0, mark_unknown e)
unfolding cost_at
calculate_cost-unknown fl all_prices c e none_yet =
    refreshed_lem fl all_prices c e
    ∙ ap (λ o. cost_at fl o e)
        (first_effective-none e.timestamp (with_key (event_key e) all_prices) none_yet)

cost_at-tags :
    (fl : Floats) (o : Option ModelPrice) (e : Event)
    → (cost_at fl o e).1 ≡ record e { tags = (cost_at fl o e).1.tags }
unfolding cost_at
cost_at-tags fl none e = refl
cost_at-tags fl (some p) e = refl

-- The calculation changes nothing of the event but its tags.
pub calculate_cost-tags :
    (fl : Floats) (c : PriceCache) (e : Event)
    → (calculate_cost fl c e).1 ≡ record e { tags = (calculate_cost fl c e).1.tags }
calculate_cost-tags fl c e = rw (calculate_cost_lem fl c e) (cost_at-tags fl _ e)
