-- ===== src/Prelude/Utf8.antt =====
-- The runes of a Go string: what `range s`, `[]rune(s)` and utf8.RuneCountInString see. A byte that
-- begins no valid UTF-8 sequence is a rune of its own, U+FFFD.
use native.Mathlib.Omega.{arith}
use mathlib.Core.List.{List, [], ◌∷◌}
use mathlib.Core.Bool.{Bool, ◌&&◌}
use mathlib.Core.Path.{◌≡◌, refl}
use Prim.Native.Nat.{ℕ, zero, suc, ◌+◌, ◌-◌, ◌*◌, ◌≤◌, ◌<◌}
use promptmeter.Prelude.Tests.{◌==◌, ltb, if◌then◌else◌}
use promptmeter.Prelude.Lists.{length, All}
use promptmeter.Prelude.Text.{Str, in_range}

-- The byte at a place, or 0, which continues no sequence.
byte_at : Str → ℕ → ℕ
byte_at [] i = 0
byte_at (x ∷ xs) zero = x
byte_at (x ∷ xs) (suc i) = byte_at xs i

is_continuation : ℕ → Bool
is_continuation b = in_range 0x80 0xBF b

second_of_three : ℕ → ℕ → Bool
second_of_three a b =
    in_range (if a == 0xE0 then 0xA0 else 0x80) (if a == 0xED then 0x9F else 0xBF) b

second_of_four : ℕ → ℕ → Bool
second_of_four a b =
    in_range (if a == 0xF0 then 0x90 else 0x80) (if a == 0xF4 then 0x8F else 0xBF) b

-- How many bytes the rune that begins with `a` takes, and the rune.
rune_size : ℕ → ℕ → ℕ → ℕ → ℕ
unfolding is_continuation second_of_three second_of_four
rune_size a b c d =
    if ltb a 0x80
    then 1
    else if in_range 0xC2 0xDF a && is_continuation b
    then 2
    else if in_range 0xE0 0xEF a && second_of_three a b && is_continuation c
    then 3
    else if in_range 0xF0 0xF4 a && second_of_four a b && is_continuation c && is_continuation d
    then 4
    else 1

rune_value : ℕ → ℕ → ℕ → ℕ → ℕ → ℕ
rune_value size a b c d =
    if size == 4
    then (a - 0xF0) * 0x40000 + (b - 0x80) * 0x1000 + (c - 0x80) * 0x40 + (d - 0x80)
    else if size == 3
    then (a - 0xE0) * 0x1000 + (b - 0x80) * 0x40 + (c - 0x80)
    else if size == 2
    then (a - 0xC0) * 0x40 + (b - 0x80)
    else if ltb a 0x80
    then a
    else 0xFFFD

-- The first number counts the bytes that are left of the rune before.
runes_from : ℕ → Str → List ℕ
unfolding rune_size rune_value byte_at
runes_from n [] = []
runes_from zero (a ∷ s) =
    let size = rune_size a (byte_at s 0) (byte_at s 1) (byte_at s 2) in
    rune_value size a (byte_at s 0) (byte_at s 1) (byte_at s 2) ∷ runes_from (size - 1) s
runes_from (suc n) (a ∷ s) = runes_from n s

unfoldable pub runes : Str → List ℕ
unfolding runes_from
runes s = runes_from 0 s

-- utf8.RuneCountInString
unfoldable pub rune_count : Str → ℕ
unfolding runes
rune_count s = length (runes s)

length-runes_from-le : (n : ℕ) (s : Str) → length (runes_from n s) ≤ length s
unfolding runes_from
length-runes_from-le n [] = omega arith
length-runes_from-le zero (a ∷ s) =
    omega
      (arith, length-runes_from-le (rune_size a (byte_at s 0) (byte_at s 1) (byte_at s 2) - 1) s)
length-runes_from-le (suc n) (a ∷ s) = omega (arith, length-runes_from-le n s)

-- A string has no more runes than bytes.
pub rune_count-le-length : (s : Str) → rune_count s ≤ length s
unfolding rune_count runes
rune_count-le-length s = length-runes_from-le 0 s

-- The runes of an ASCII string are its bytes.
pub runes_ascii : (s : Str) → All (λ c. c < 0x80) s → runes s ≡ s
unfolding runes runes_from rune_size rune_value
runes_ascii [] h = refl
runes_ascii (a ∷ s) h = ground (arith, runes_ascii s)
