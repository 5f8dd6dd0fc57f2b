-- ===== src/Worker/Inserted/Identifiers.antt =====
-- The identifiers that the API accepts: uuid.Parse takes them, and the queue does not change them.
use promptmeter.Prelude.{
  zero, suc, ℕ, ltb, ◌<◌, ◌≡◌, Bool, true, ◌||◌, Option, some, List, [], ◌∷◌, Str, in_range, ◌==◌,
  All, arith,
}
use promptmeter.Ingestion.Validation.{to_lower, matches, uuid_v7_pattern}
use promptmeter.Ingestion.Wire.{IsCoercion}

abbrev is_hex : ℕ → Bool
is_hex c = in_range b'0' b'9' c || in_range b'a' b'f' c

abbrev dash : ℕ → Bool
dash c = c == b'-'

abbrev repeat : ℕ → (ℕ → Bool) → List (ℕ → Bool) → List (ℕ → Bool)
repeat zero p ps = ps
repeat (suc n) p ps = p ∷ repeat n p ps

abbrev b7 : ℕ → Bool
b7 c = c == b'7'

-- The standard form of a UUID, in lower case: groups of 8, 4, 4, 4 and 12 digits.
abbrev pub uuid_form : List (ℕ → Bool)
uuid_form = repeat 8 is_hex (
    dash
    ∷ repeat 4 is_hex
        (dash ∷ repeat 4 is_hex (dash ∷ repeat 4 is_hex (dash ∷ repeat 12 is_hex []))))

-- What is documented of uuid.Parse: it takes the standard form, in either case.
abbrev pub IsUuidParser : {Uuid : Type 0} → (Str → Option Uuid) → Type 0
IsUuidParser {Uuid} parse =
    (s : Str) → matches uuid_form (to_lower s) ≡ true → (u : Uuid) × (parse s ≡ some u)

-- Each class of the one pattern lies in that of the other.
abbrev IsWeaker : List (ℕ → Bool) → List (ℕ → Bool) → Type 0
IsWeaker [] [] = Unit
IsWeaker (p ∷ ps) (q ∷ qs) = ((c : ℕ) → p c ≡ true → q c ≡ true) × IsWeaker ps qs
IsWeaker _ _ = ⊥

matches-IsWeaker :
    (ps qs : List (ℕ → Bool)) (s : Str) → IsWeaker ps qs → matches ps s ≡ true → matches qs s ≡ true
unfolding matches
matches-IsWeaker [] [] s w h = h
matches-IsWeaker (p ∷ ps) (q ∷ qs) [] w h = absurd (cc)
matches-IsWeaker (p ∷ ps) (q ∷ qs) (c ∷ s) w h = ground (arith, w.0 c, matches-IsWeaker ps qs s w.1)
matches-IsWeaker [] (q ∷ qs) s w h = absurd w
matches-IsWeaker (p ∷ ps) [] s w h = absurd w

-- The digit 7 is one of the sixteen.
seven : (c : ℕ) → (c == b'7') ≡ true → is_hex c ≡ true
seven c h = ground arith

IsWeaker-repeat :
    (n : ℕ) (p : ℕ → Bool) (ps qs : List (ℕ → Bool))
    → IsWeaker ps qs
    → IsWeaker (repeat n p ps) (repeat n p qs)
IsWeaker-repeat zero p ps qs w = w
IsWeaker-repeat (suc n) p ps qs w = ((λ c h. h), IsWeaker-repeat n p ps qs w)

IsWeaker-refl : (ps : List (ℕ → Bool)) → IsWeaker ps ps
IsWeaker-refl [] = tt
IsWeaker-refl (p ∷ ps) = ((λ c h. h), IsWeaker-refl ps)

-- The last 24 places of both patterns.
abbrev last_groups : List (ℕ → Bool)
last_groups = dash ∷ repeat 4 is_hex (dash ∷ repeat 12 is_hex [])

pub v7-uuid_form : (s : Str) → matches uuid_v7_pattern s ≡ true → matches uuid_form s ≡ true
unfolding uuid_v7_pattern
v7-uuid_form s =
    let seventh : List (ℕ → Bool) = dash ∷ b7 ∷ repeat 3 is_hex last_groups in
    let any_digit : List (ℕ → Bool) = dash ∷ repeat 4 is_hex last_groups in
    let third : IsWeaker seventh any_digit =
      ((λ c h. h), (seven, IsWeaker-refl (repeat 3 is_hex last_groups))) in
    let second : IsWeaker (dash ∷ repeat 4 is_hex seventh) (dash ∷ repeat 4 is_hex any_digit) =
      ((λ c h. h), IsWeaker-repeat 4 is_hex seventh any_digit third) in
    matches-IsWeaker uuid_v7_pattern uuid_form s (
      IsWeaker-repeat 8 is_hex (dash ∷ repeat 4 is_hex seventh) (dash ∷ repeat 4 is_hex any_digit)
        second)

is_ascii : ℕ → Bool
is_ascii c = ltb c 128

abbrev asciis : ℕ → List (ℕ → Bool)
asciis n = repeat n is_ascii []

IsWeaker-digits :
    (n m : ℕ) (ps : List (ℕ → Bool))
    → IsWeaker ps (asciis m)
    → IsWeaker (repeat n is_hex ps) (repeat n is_ascii (asciis m))
unfolding is_ascii
IsWeaker-digits zero m ps w = w
IsWeaker-digits (suc n) m ps w = ((λ c h. ground arith), IsWeaker-digits n m ps w)

-- A group of digits behind a dash.
IsWeaker-group :
    (n m : ℕ) (ps : List (ℕ → Bool))
    → IsWeaker ps (asciis m)
    → IsWeaker (dash ∷ repeat n is_hex ps) (is_ascii ∷ repeat n is_ascii (asciis m))
unfolding is_ascii
IsWeaker-group n m ps w = ((λ c h. ground arith), IsWeaker-digits n m ps w)

uuid_form-IsWeaker : IsWeaker uuid_form (asciis 36)
uuid_form-IsWeaker =
    let fourth = IsWeaker-group 12 0 [] tt in
    let third = IsWeaker-group 4 13 (dash ∷ repeat 12 is_hex []) fourth in
    let second = IsWeaker-group 4 18 last_groups third in
    let first = IsWeaker-group 4 23 (dash ∷ repeat 4 is_hex last_groups) second in
    IsWeaker-digits 8 28 (dash ∷ repeat 4 is_hex (dash ∷ repeat 4 is_hex last_groups)) first

-- A byte whose lower case is one of ASCII is one.
matches-ascii : (n : ℕ) (s : Str) → matches (asciis n) (to_lower s) ≡ true → All (λ c. c < 128) s
unfolding matches to_lower is_ascii
matches-ascii n [] h = tt
matches-ascii zero (c ∷ s) h = absurd (cc)
matches-ascii (suc n) (c ∷ s) h = (ground arith, matches-ascii n s (ground arith))

-- The queue does not change an identifier that the API accepts.
pub coerce-key :
    (coerce : Str → Str) (s : Str)
    → IsCoercion coerce
    → matches uuid_v7_pattern (to_lower s) ≡ true
    → coerce s ≡ s
coerce-key coerce s law h = law.ascii s (
    matches-ascii 36 s (
      matches-IsWeaker uuid_form (asciis 36) (to_lower s) uuid_form-IsWeaker
        (v7-uuid_form (to_lower s) h)))
