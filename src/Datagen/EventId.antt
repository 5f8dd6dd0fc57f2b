-- ===== src/Datagen/EventId.antt =====
-- deterministicEventID of server/internal/datagen/datagen.go.
pub mod Accepted
use promptmeter.Prelude.{ℕ, ◌+◌, ◌/◌, ◌%◌, ◌^◌, List, [], ◌∷◌, Str}

-- byte(n)
abbrev pub uint8 : ℕ → ℕ
uint8 n = n % 256

-- The buffer, of the milliseconds of the time and two uint64 of the random source. The constants are or-ed
-- with bits that they do not have.
unfoldable pub event_id_bytes : ℕ → ℕ → ℕ → List ℕ
event_id_bytes ms rand_bits rand_bits2 =
    let high = (ms / 2 ^ 16) % 2 ^ 32 in
    let low = ms % 2 ^ 16 in
    let version = 112 + (rand_bits / 2 ^ 56) % 16 in
    let variant = 128 + (rand_bits / 2 ^ 40) % 64 in
    uint8 (high / 2 ^ 24)
    ∷ uint8 (high / 2 ^ 16)
    ∷ uint8 (high / 2 ^ 8)
    ∷ uint8 high
    ∷ uint8 (low / 2 ^ 8)
    ∷ uint8 low
    ∷ version
    ∷ uint8 (rand_bits / 2 ^ 48)
    ∷ variant
    ∷ uint8 (rand_bits / 2 ^ 32)
    ∷ uint8 (rand_bits / 2 ^ 24)
    ∷ uint8 (rand_bits / 2 ^ 16)
    ∷ uint8 (rand_bits2 / 2 ^ 24)
    ∷ uint8 (rand_bits2 / 2 ^ 16)
    ∷ uint8 (rand_bits2 / 2 ^ 8)
    ∷ uint8 rand_bits2
    ∷ []

-- deterministicEventID, of ts.UnixMilli(); the String method of a UUID is a parameter, and so is the
-- random source, by its two numbers.
unfoldable pub deterministic_event_id : (List ℕ → Str) → ℕ → ℕ → ℕ → Str
unfolding event_id_bytes
deterministic_event_id text ms rand_bits rand_bits2 = text (event_id_bytes ms rand_bits rand_bits2)
