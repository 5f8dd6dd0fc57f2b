-- ===== src/Prelude/Hex.antt =====
-- encoding/hex, and tables over a small range.
use native.Mathlib.Omega.{arith}
use mathlib.Core.List.{List, [], ◌∷◌}
use mathlib.Core.Bool.{Bool, true, ◌&&◌}
use mathlib.Core.Path.{◌≡◌, refl}
use Prim.Native.Nat.{ℕ, zero, suc, ◌+◌, ◌-◌, ◌*◌, ◌/◌, ◌%◌, ◌<◌}
use promptmeter.Prelude.Tests.{ltb, if◌then◌else◌}
use promptmeter.Prelude.Lists.{length}
use promptmeter.Prelude.Text.{Str}

-- The test holds of each number under the bound.
unfoldable pub table_holds : (ℕ → Bool) → ℕ → Bool
table_holds test zero = true
table_holds test (suc bound) = table_holds test bound && test bound

pub table_holds_entry :
    (test : ℕ → Bool) (bound i : ℕ) → i < bound → table_holds test bound ≡ true → test i ≡ true
unfolding table_holds
table_holds_entry test zero i under h = absurd (omega arith)
table_holds_entry test (suc bound) i under h = ground (arith, table_holds_entry test bound i)

unfoldable pub hex_digit : ℕ → ℕ
hex_digit n = if ltb n 10 then b'0' + n else b'a' + (n - 10)

-- hex.EncodeToString
unfoldable pub hex_encode : List ℕ → Str
unfolding hex_digit
hex_encode [] = []
hex_encode (b ∷ bs) = hex_digit (b / 16) ∷ hex_digit (b % 16) ∷ hex_encode bs

pub length-hex_encode : (bs : List ℕ) → length (hex_encode bs) ≡ 2 * length bs
unfolding hex_encode
length-hex_encode [] = refl
length-hex_encode (b ∷ bs) = omega (arith, length-hex_encode bs)
