-- ===== src/Domain/OrgId/RoundTrip.antt =====
-- What `org_id_to_uint64` reads from the text of a UUID.
use Prim.Native.Nat.{bit_or}
use promptmeter.Prelude.{
  ℕ, ◌+◌, ◌*◌, ◌/◌, ◌%◌, ◌<◌, ◌≡◌, refl, Bool, true, false, false, List, [], ◌∷◌, ◌++◌, arith, Str,
  ltb, ◌==◌, length, All, runes, table_holds, table_holds_entry, ==_iff, hex_digit, hex_encode,
  length-hex_encode, length-append,
}
use promptmeter.Domain.OrgId.{
  hex_val, hex_byte, strip_dashes, hex_bytes, big_endian, org_id_to_uint64,
}

hex_val-lt : (c : ℕ) → hex_val c < 16
unfolding hex_val
hex_val-lt c = ground arith

hex_val-hex_digit : (n : ℕ) → n < 16 → hex_val (hex_digit n) ≡ n
unfolding hex_val hex_digit
hex_val-hex_digit n h = ground arith

or_table : ℕ → ℕ → Bool
or_table hi lo = bit_or ((hi * 16) % 256) lo == hi * 16 + lo

or_table-true : table_holds (λ hi. table_holds (or_table hi) 16) 16 ≡ true
unfolding table_holds or_table
or_table-true = refl

nibbles : (hi lo : ℕ) → hi < 16 → lo < 16 → bit_or ((hi * 16) % 256) lo ≡ hi * 16 + lo
nibbles hi lo p q = (==_iff _ _).0 (
    unfold or_table in
    table_holds_entry (or_table hi) 16 lo q
      (table_holds_entry (λ h. table_holds (or_table h) 16) 16 hi p or_table-true))

-- A byte is sixteen times its high digit and its low digit.
pub hex_byte-hex_val : (hi lo : ℕ) → hex_byte hi lo ≡ hex_val hi * 16 + hex_val lo
unfolding hex_byte
hex_byte-hex_val hi lo = nibbles (hex_val hi) (hex_val lo) (hex_val-lt hi) (hex_val-lt lo)

hex_byte-hex_encode : (b : ℕ) → b < 256 → hex_byte (hex_digit (b / 16)) (hex_digit (b % 16)) ≡ b
hex_byte-hex_encode b h = omega (
  arith,
  hex_byte-hex_val (hex_digit (b / 16)) (hex_digit (b % 16)),
  hex_val-hex_digit (b / 16) (omega arith),
  hex_val-hex_digit (b % 16) (omega arith),
)

hex_bytes-hex_encode :
    (bs : List ℕ) (rest : Str)
    → All (λ b. b < 256) bs
    → hex_bytes (length bs) (hex_encode bs ++ rest) ≡ bs
unfolding hex_bytes hex_encode
hex_bytes-hex_encode [] rest h = refl
hex_bytes-hex_encode (b ∷ bs) rest h =
    cc (hex_byte-hex_encode b h.0, hex_bytes-hex_encode bs rest h.1)

-- If the text without its dashes begins with the hexadecimal digits of eight bytes, the number of
-- the organization is the big-endian number of these bytes, whatever follows them and wherever the
-- dashes stand.
pub org_id_to_uint64-hex_encode :
    (org_id : Str) (bs : List ℕ) (rest : Str)
    → length bs ≡ 8
    → All (λ b. b < 256) bs
    → strip_dashes (runes org_id) ≡ hex_encode bs ++ rest
    → org_id_to_uint64 org_id ≡ big_endian 0 bs
unfolding org_id_to_uint64
org_id_to_uint64-hex_encode org_id bs rest eight small e =
    let long : ltb (length (hex_encode bs ++ rest)) 16 ≡ false =
      ground (arith, length-append (hex_encode bs) rest, length-hex_encode bs) in
    rw (e, long, ← eight, hex_bytes-hex_encode bs rest small)
