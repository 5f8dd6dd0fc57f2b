-- ===== src/Worker/BatchWriter/Entries.antt =====
-- Events paired with their ack functions, and counts of such pairs.
use native.Mathlib.Decide.{ℕ_discrete}
use promptmeter.Prelude.{
  ℕ, ◌+◌, ◌<◌, ◌≡◌, ◌↔◌, refl, ap, Bool, true, false, none, some, List, [], ◌∷◌, ◌++◌, arith,
  length, count, count-append, In, inl, inr, Bool-cases,
}
use promptmeter.Domain.Event.{Event}
use promptmeter.Worker.BatchWriter.{Ack, Batch, ack_ids}

abbrev pub Entry : Type 0
Entry = Event × Ack

abbrev pub pairs : List Event → List Ack → List Entry
pairs [] acks = []
pairs (e ∷ es) [] = []
pairs (e ∷ es) (a ∷ acks) = (e, a) ∷ pairs es acks

abbrev pub events_of : List Entry → List Event
events_of [] = []
events_of (x ∷ xs) = x.0 ∷ events_of xs

abbrev pub acks_of : List Entry → List Ack
acks_of [] = []
acks_of (x ∷ xs) = x.1 ∷ acks_of xs

abbrev pub flying : List Batch → List Entry
flying [] = []
flying (b ∷ bs) = pairs b.events b.acks ++ flying bs

abbrev pub IsAligned : Batch → Type 0
IsAligned b = length b.events ≡ length b.acks

pub pairs-append :
    (es : List Event) (acks : List Ack) (fs : List Event) (bcks : List Ack)
    → length es ≡ length acks
    → pairs (es ++ fs) (acks ++ bcks) ≡ pairs es acks ++ pairs fs bcks
pairs-append [] [] fs bcks h = refl
pairs-append [] (a ∷ acks) fs bcks h = absurd (omega arith)
pairs-append (e ∷ es) [] fs bcks h = absurd (omega arith)
pairs-append (e ∷ es) (a ∷ acks) fs bcks h =
    ap (λ l. (e, a) ∷ l) (pairs-append es acks fs bcks (omega arith))

pub events_of-pairs :
    (es : List Event) (acks : List Ack) → length es ≡ length acks → events_of (pairs es acks) ≡ es
events_of-pairs [] acks h = refl
events_of-pairs (e ∷ es) [] h = absurd (omega arith)
events_of-pairs (e ∷ es) (a ∷ acks) h = ap (λ l. e ∷ l) (events_of-pairs es acks (omega arith))

pub acks_of-pairs :
    (es : List Event) (acks : List Ack) → length es ≡ length acks → acks_of (pairs es acks) ≡ acks
acks_of-pairs [] [] h = refl
acks_of-pairs [] (a ∷ acks) h = absurd (omega arith)
acks_of-pairs (e ∷ es) [] h = absurd (omega arith)
acks_of-pairs (e ∷ es) (a ∷ acks) h = ap (λ l. a ∷ l) (acks_of-pairs es acks (omega arith))

pub events_of-append : (xs ys : List Entry) → events_of (xs ++ ys) ≡ events_of xs ++ events_of ys
events_of-append [] ys = refl
events_of-append (x ∷ xs) ys = ap (λ l. x.0 ∷ l) (events_of-append xs ys)

pub acks_of-append : (xs ys : List Entry) → acks_of (xs ++ ys) ≡ acks_of xs ++ acks_of ys
acks_of-append [] ys = refl
acks_of-append (x ∷ xs) ys = ap (λ l. x.1 ∷ l) (acks_of-append xs ys)

pub ack_ids-append : (xs ys : List Ack) → ack_ids (xs ++ ys) ≡ ack_ids xs ++ ack_ids ys
unfolding ack_ids
ack_ids-append [] ys = refl
ack_ids-append (none ∷ xs) ys = ack_ids-append xs ys
ack_ids-append (some m ∷ xs) ys = ap (λ l. m ∷ l) (ack_ids-append xs ys)

module _ (test : Entry → Bool) where
  pub count-flying :
      (xs ys : List Batch) (b : Batch)
      → count test (flying (xs ++ b ∷ ys))
        ≡ count test (flying (xs ++ ys)) + count test (pairs b.events b.acks)
  count-flying [] ys b = omega (arith, count-append test (pairs b.events b.acks) (flying ys))
  count-flying (x ∷ xs) ys b = omega (
    arith,
    count-append test (pairs x.events x.acks) (flying (xs ++ b ∷ ys)),
    count-append test (pairs x.events x.acks) (flying (xs ++ ys)),
    count-flying xs ys b,
  )

  pub count-flying-concat :
      (xs : List Batch) (b : Batch)
      → count test (flying (xs ++ b ∷ []))
        ≡ count test (flying xs) + count test (pairs b.events b.acks)
  count-flying-concat [] b = omega (arith, count-append test (pairs b.events b.acks) [])
  count-flying-concat (x ∷ xs) b = omega (
    arith,
    count-append test (pairs x.events x.acks) (flying (xs ++ b ∷ [])),
    count-append test (pairs x.events x.acks) (flying xs),
    count-flying-concat xs b,
  )

pub Entry-discrete : Discrete Entry
Entry-discrete = hlevel ℕ_discrete

abbrev holds : {A : Type 0} → Dec A → Bool
holds (yes a) = true
holds (no h) = false

holds_iff : {A : Type 0} (d : Dec A) → (holds d ≡ true) ↔ A
holds_iff (yes a) = (λ _. a, λ _. refl)
holds_iff (no h) = (λ e. cc, λ a. absurd (h a))

-- Equality with an entry, as a test.
unfoldable pub is_entry : Entry → Entry → Bool
is_entry x y = holds (Entry-discrete x y)

is_entry_iff : (x y : Entry) → (is_entry x y ≡ true) ↔ (x ≡ y)
unfolding is_entry
is_entry_iff x y = holds_iff (Entry-discrete x y)

pub In-of_count : (x : Entry) (xs : List Entry) → 0 < count (is_entry x) xs → In x xs
In-of_count x [] h = absurd (omega arith)
In-of_count x (y ∷ xs) h = elim (Bool-cases (is_entry x y)) [
  | inl same ↦ inl ((is_entry_iff x y).0 same)
  | inr other ↦ inr (In-of_count x xs (ground arith))
]

pub count-of_In : (x : Entry) (xs : List Entry) → In x xs → 0 < count (is_entry x) xs
count-of_In x [] h = absurd h
count-of_In x (y ∷ xs) (inl e) = ground (arith, (is_entry_iff x y).1 e)
count-of_In x (y ∷ xs) (inr h) = ground (arith, count-of_In x xs h)

-- An acknowledged message came with one of the entries.
pub In-ack_ids :
    (m : ℕ) (xs : List Entry) → In m (ack_ids (acks_of xs)) → (e : Event) × In (e, some m) xs
unfolding ack_ids
In-ack_ids m [] h = absurd h
In-ack_ids m ((e, none) ∷ xs) h = let (f, k) = In-ack_ids m xs h in (f, inr k)
In-ack_ids m ((e, some n) ∷ xs) (inl same) = (e, inl (ap (λ k. (e, some k)) same))
In-ack_ids m ((e, some n) ∷ xs) (inr h) = let (f, k) = In-ack_ids m xs h in (f, inr k)

pub In-events_of : (x : Entry) (xs : List Entry) → In x xs → In x.0 (events_of xs)
In-events_of x [] h = absurd h
In-events_of x (y ∷ xs) (inl e) = inl (ap (λ z. z.0) e)
In-events_of x (y ∷ xs) (inr h) = inr (In-events_of x xs h)

pub count-events_of :
    (test : Event → Bool) (xs : List Entry) → count (λ x. test x.0) xs ≡ count test (events_of xs)
count-events_of test [] = refl
count-events_of test (x ∷ xs) = omega (arith, count-events_of test xs)
