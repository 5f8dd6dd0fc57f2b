-- ===== src/Prelude/Text.antt =====
-- A Go `string` is a list of bytes. Literals are written `lit "..."`, and are ASCII.
use Prim.Native.Char.{code}
use Prim.Native.Nat.{ℕ}
use Prim.Native.String.{String}
use mathlib.Core.Path.{◌≡◌, refl}
use mathlib.Core.Logic.{◌≢◌, ◌↔◌}
use mathlib.Core.Bool.{Bool, true, false, ◌&&◌}
use mathlib.Core.List.{List, [], ◌∷◌, ◌++◌}
use native.Mathlib.Omega.{arith}
use promptmeter.Prelude.Lists.{All}
use promptmeter.Prelude.Tests.{◌==◌, leb, if◌then◌else◌, ==_iff, ==_refl}

abbrev pub Str : Type 0
Str = List ℕ

abbrev pub lit : String → Str
lit String.[] = []
lit (String.◌∷◌ c s) = code c ∷ lit s

-- a == b
unfoldable pub str_eq : Str → Str → Bool
str_eq [] [] = true
str_eq (x ∷ xs) (y ∷ ys) = (x == y) && str_eq xs ys
str_eq _ _ = false

pub str_eq→eq : (a b : Str) → str_eq a b ≡ true → a ≡ b
unfolding str_eq
str_eq→eq [] [] h = refl
str_eq→eq (x ∷ xs) (y ∷ ys) h = ground (arith, str_eq→eq xs ys)
str_eq→eq [] (y ∷ ys) h = cc
str_eq→eq (x ∷ xs) [] h = cc

pub str_eq_refl : (a : Str) → str_eq a a ≡ true
unfolding str_eq
str_eq_refl [] = refl
str_eq_refl (x ∷ xs) = ground (arith, str_eq_refl xs, ==_refl x)

pub str_eq_iff : (a b : Str) → (str_eq a b ≡ true) ↔ (a ≡ b)
str_eq_iff a b = (str_eq→eq a b, λ e. rw e (str_eq_refl b))

-- strings.HasPrefix(s, prefix)
unfoldable pub has_prefix : Str → Str → Bool
has_prefix s [] = true
has_prefix [] (y ∷ ys) = false
has_prefix (x ∷ xs) (y ∷ ys) = (x == y) && has_prefix xs ys

-- What is left of `s` behind as many bytes as `prefix` has.
unfoldable pub behind : Str → Str → Str
behind s [] = s
behind [] (y ∷ ys) = []
behind (x ∷ xs) (y ∷ ys) = behind xs ys

-- strings.TrimPrefix(s, prefix)
unfoldable pub trim_prefix : Str → Str → Str
unfolding has_prefix behind
trim_prefix s prefix = if has_prefix s prefix then behind s prefix else s

pub has_prefix-append : (p s : Str) → has_prefix (p ++ s) p ≡ true
unfolding has_prefix
has_prefix-append [] s = refl
has_prefix-append (x ∷ p) s = ground (arith, has_prefix-append p s, ==_refl x)

pub behind-append : (p s : Str) → behind (p ++ s) p ≡ s
unfolding behind
behind-append [] s = refl
behind-append (x ∷ p) s = behind-append p s

pub trim_prefix-append : (p s : Str) → trim_prefix (p ++ s) p ≡ s
unfolding trim_prefix
trim_prefix-append p s = rw (has_prefix-append p s) (behind-append p s)

pub append-behind : (s p : Str) → has_prefix s p ≡ true → p ++ behind s p ≡ s
unfolding has_prefix behind
append-behind s [] h = refl
append-behind [] (y ∷ ys) h = cc
append-behind (x ∷ xs) (y ∷ ys) h = ground (arith, append-behind xs ys, ==_iff x y)

pub append-trim_prefix : (s p : Str) → has_prefix s p ≡ true → p ++ trim_prefix s p ≡ s
unfolding trim_prefix
append-trim_prefix s p h = rw h (append-behind s p h)

-- A byte between two others.
abbrev pub in_range : ℕ → ℕ → ℕ → Bool
in_range lo hi c = leb lo c && leb c hi

-- Texts that agree up to the first byte `c` and behind it.
pub split_apart :
    (c : ℕ)
    → (a b r s : Str) → All (λ x. x ≢ c) a
    → All (λ x. x ≢ c) b
    → a ++ c ∷ r ≡ b ++ c ∷ s
    → (r ≡ s) × (a ≡ b)
split_apart c (x ∷ a) (y ∷ b) r s free free' e =
    let (rest, start) = split_apart c a b r s free.1 free'.1 (cc) in (rest, cc)
split_apart c [] (y ∷ b) r s free free' e = absurd (free'.0 (cc))
split_apart c (x ∷ a) [] r s free free' e = absurd (free.0 (cc))
split_apart c [] [] r s free free' e = (cc, refl)
