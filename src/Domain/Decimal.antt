-- ===== src/Domain/Decimal.antt =====
-- `uintToStr` of server/internal/domain/event.go: an unsigned number in decimal.
use mathlib.Core.List.{reverse-reverse, append_assoc, append-nil}
use native.Mathlib.Nat.{pow-suc}
use promptmeter.Prelude.{
  ℕ, zero, suc, ◌+◌, ◌-◌, ◌*◌, ◌/◌, ◌%◌, ◌^◌, ◌≤◌, ◌<◌, ◌≡◌, refl, sym, ap, ◌∙◌, [], ◌∷◌, ◌++◌,
  reverse, arith, Str, lit, ltb, ◌==◌, if◌then◌else◌, All, All-append, All-reverse, lt→ltb, ==_iff,
  Bool-cases, inl, inr,
}

-- The loop `for n > 0`, which writes the lowest digit first.
digits_from : ℕ → ℕ → Str → Str
digits_from zero n buf = buf
digits_from (suc fuel) n buf =
    let rest = digits_from fuel (n / 10) (buf ++ (b'0' + n % 10) ∷ []) in
    if ltb 0 n then rest else buf

-- A uint64 has at most 20 digits. The swaps of the second loop are `reverse`.
unfoldable pub uint_to_str : ℕ → Str
unfolding digits_from
uint_to_str n = if n == 0 then lit "0" else reverse (digits_from 20 n [])

-- The number whose digits are written lowest first.
abbrev value_low_first : Str → ℕ
value_low_first [] = 0
value_low_first (d ∷ ds) = (d - b'0') + 10 * value_low_first ds

-- The number that a decimal text stands for.
abbrev pub value_of : Str → ℕ
value_of s = value_low_first (reverse s)

digits_from-append :
    (fuel n : ℕ) (buf : Str) → digits_from fuel n buf ≡ buf ++ digits_from fuel n []
unfolding digits_from
digits_from-append zero n buf = sym (append-nil buf)
digits_from-append (suc fuel) n buf = elim (Bool-cases (ltb 0 n)) [
  | inl more ↦ rw more (
      digits_from-append fuel (n / 10) (buf ++ (b'0' + n % 10) ∷ [])
      ∙ append_assoc buf ((b'0' + n % 10) ∷ []) (digits_from fuel (n / 10) [])
      ∙ ap (λ t. buf ++ t) (sym (digits_from-append fuel (n / 10) ((b'0' + n % 10) ∷ []))))
  | inr done ↦ rw done (sym (append-nil buf))
]

digits_from-suc :
    (fuel n : ℕ)
    → 0 < n
    → digits_from (suc fuel) n [] ≡ (b'0' + n % 10) ∷ digits_from fuel (n / 10) []
unfolding digits_from
digits_from-suc fuel n h =
    rw (lt→ltb 0 n h) (digits_from-append fuel (n / 10) ((b'0' + n % 10) ∷ []))

digits_from-zero : (fuel : ℕ) → digits_from fuel 0 [] ≡ []
unfolding digits_from
digits_from-zero zero = refl
digits_from-zero (suc fuel) = refl

value_low_first-digits_from :
    (fuel n : ℕ) → n < 10 ^ fuel → value_low_first (digits_from fuel n []) ≡ n
value_low_first-digits_from zero n h =
    let z : n ≡ 0 = omega arith in rw (z, digits_from-zero 0) refl
value_low_first-digits_from (suc fuel) zero h = rw (digits_from-zero (suc fuel)) refl
value_low_first-digits_from (suc fuel) (suc n) h = rw (digits_from-suc fuel (suc n) (omega arith)) (
    omega (
      arith,
      pow-suc 10 fuel,
      value_low_first-digits_from fuel (suc n / 10) (omega (arith, pow-suc 10 fuel)),
    ))

-- The text that uintToStr gives for a uint64 reads back, as a decimal number, as that uint64: its
-- twenty rounds are enough for every one.
pub value_of-uint_to_str : (n : ℕ) → n < 2 ^ 64 → value_of (uint_to_str n) ≡ n
unfolding uint_to_str
value_of-uint_to_str n h = elim (Bool-cases (n == 0)) [
  | inl z ↦ rw z (sym ((==_iff n 0).0 z))
  | inr p ↦ rw (p, reverse-reverse) (value_low_first-digits_from 20 n (omega arith))
]

abbrev pub IsDigit : ℕ → Type 0
IsDigit d = (b'0' ≤ d) × (d ≤ b'9')

digits_from-IsDigit :
    (fuel n : ℕ) (buf : Str) → All IsDigit buf → All IsDigit (digits_from fuel n buf)
unfolding digits_from
digits_from-IsDigit zero n buf h = h
digits_from-IsDigit (suc fuel) n buf h = elim (Bool-cases (ltb 0 n)) [
  | inl more ↦ rw more (
      digits_from-IsDigit fuel (n / 10) (buf ++ (b'0' + n % 10) ∷ [])
        (All-append IsDigit buf _ h (omega arith)))
  | inr done ↦ rw done h
]

pub uint_to_str-IsDigit : (n : ℕ) → All IsDigit (uint_to_str n)
unfolding uint_to_str
uint_to_str-IsDigit n = elim (Bool-cases (n == 0)) [
  | inl z ↦ rw z (omega arith)
  | inr p ↦ rw p (All-reverse IsDigit (digits_from 20 n []) (digits_from-IsDigit 20 n [] tt))
]
