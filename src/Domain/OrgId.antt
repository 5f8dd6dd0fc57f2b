-- ===== src/Domain/OrgId.antt =====
-- `OrgIDToUint64` of server/internal/domain/models.go: the number of an organization.
pub mod RoundTrip
use Prim.Native.Nat.{bit_or}
use promptmeter.Prelude.{
  ℕ, zero, suc, ◌+◌, ◌-◌, ◌*◌, ◌%◌, ◌^◌, ◌≤◌, ◌<◌, ◌≡◌, refl, sym, ap, Bool, ◌&&◌, List, [], ◌∷◌,
  arith, Str, ltb, ◌==◌, in_range, if◌then◌else◌, length, take, runes, ==_iff, true, Bool-cases,
}

unfoldable pub hex_val : ℕ → ℕ
hex_val b =
    if in_range b'0' b'9' b
    then b - b'0'
    else if in_range b'a' b'f' b
    then b - b'a' + 10
    else if in_range b'A' b'F' b
    then b - b'A' + 10
    else 0

-- hexVal(hi)<<4 | hexVal(lo), on bytes
unfoldable pub hex_byte : ℕ → ℕ → ℕ
unfolding hex_val
hex_byte hi lo = bit_or ((hex_val hi * 16) % 256) (hex_val lo)

-- The loop that strips the dashes; `byte(c)` keeps the low eight bits of a rune.
unfoldable pub strip_dashes : List ℕ → Str
strip_dashes [] = []
strip_dashes (c ∷ s) = if c == b'-' then strip_dashes s else (c % 256) ∷ strip_dashes s

-- The loop that fills the buffer: `n` bytes from twice as many digits.
hex_bytes : ℕ → Str → List ℕ
hex_bytes zero s = []
hex_bytes (suc n) (hi ∷ lo ∷ s) = hex_byte hi lo ∷ hex_bytes n s
hex_bytes (suc n) _ = []

-- binary.BigEndian.Uint64
unfoldable pub big_endian : ℕ → List ℕ → ℕ
big_endian acc [] = acc
big_endian acc (b ∷ bs) = big_endian (acc * 256 + b) bs

unfoldable pub org_id_to_uint64 : Str → ℕ
unfolding strip_dashes hex_bytes big_endian hex_byte runes
org_id_to_uint64 org_id =
    let cleaned = strip_dashes (runes org_id) in
    if ltb (length cleaned) 16 then 0 else big_endian 0 (hex_bytes 8 cleaned)
