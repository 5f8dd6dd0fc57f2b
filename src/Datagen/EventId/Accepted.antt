-- ===== src/Datagen/EventId/Accepted.antt =====
-- The identifiers of generated events are ones that the API takes.
use mathlib.Core.List.{append-nil}
use promptmeter.Prelude.{
  ℕ, ◌+◌, ◌/◌, ◌%◌, ◌^◌, ◌<◌, ◌≡◌, refl, sym, ap, ◌∙◌, All, Bool, true, ◌||◌, ◌==◌, List, [], ◌∷◌,
  ◌++◌, Str, lit, in_range, arith, hex_digit, hex_encode, if◌then◌else◌,
}
use promptmeter.Ingestion.Validation.{to_lower, matches, uuid_v7_pattern}
use promptmeter.Datagen.EventId.{uint8, event_id_bytes, deterministic_event_id}

-- A UUID in its standard form: 8, 4, 4, 4 and 12 hexadecimal digits with dashes between them.
abbrev pub dashed : Str → Str → Str → Str → Str → Str
dashed a b c d e = a ++ (lit "-" ++ (b ++ (lit "-" ++ (c ++ (lit "-" ++ (d ++ (lit "-" ++ e)))))))

-- What is documented of the String method, for sixteen bytes.
abbrev pub IsUuidPrinter : (List ℕ → Str) → Type 0
IsUuidPrinter text =
    (a0 a1 a2 a3 b0 b1 c0 c1 d0 d1 e0 e1 e2 e3 e4 e5 : ℕ)
    → text (a0 ∷ a1 ∷ a2 ∷ a3 ∷ b0 ∷ b1 ∷ c0 ∷ c1 ∷ d0 ∷ d1 ∷ e0 ∷ e1 ∷ e2 ∷ e3 ∷ e4 ∷ e5 ∷ [])
      ≡ dashed (hex_encode (a0 ∷ a1 ∷ a2 ∷ a3 ∷ [])) (hex_encode (b0 ∷ b1 ∷ []))
          (hex_encode (c0 ∷ c1 ∷ [])) (hex_encode (d0 ∷ d1 ∷ []))
          (hex_encode (e0 ∷ e1 ∷ e2 ∷ e3 ∷ e4 ∷ e5 ∷ []))

abbrev is_hex : ℕ → Bool
is_hex c = in_range b'0' b'9' c || in_range b'a' b'f' c

lower : ℕ → ℕ
lower c = if in_range b'A' b'Z' c then c + 32 else c

hex_digit-lower : (n : ℕ) → n < 16 → lower (hex_digit n) ≡ hex_digit n
unfolding lower hex_digit
hex_digit-lower n h = ground arith

is_hex-hex_digit : (n : ℕ) → n < 16 → is_hex (lower (hex_digit n)) ≡ true
unfolding lower hex_digit
is_hex-hex_digit n h = ground arith

-- Two digits of a byte in front.
matches-byte :
    (b : ℕ) (ps : List (ℕ → Bool)) (s : Str)
    → b < 256
    → matches ps (to_lower s) ≡ true
    → matches (is_hex ∷ is_hex ∷ ps) (to_lower (hex_digit (b / 16) ∷ hex_digit (b % 16) ∷ s)) ≡ true
unfolding matches to_lower lower
matches-byte b ps s h rest =
    rw (is_hex-hex_digit (b / 16) (omega arith), is_hex-hex_digit (b % 16) (omega arith)) rest

-- The first digit of the byte with the version.
version_digit : (x : ℕ) → hex_digit ((112 + x % 16) / 16) ≡ b'7'
unfolding hex_digit
version_digit x = ground arith

matches-version :
    (x : ℕ) (ps : List (ℕ → Bool)) (s : Str)
    → matches ps (to_lower s) ≡ true
    → matches
        ((λ c. c == b'7') ∷ is_hex ∷ ps)
        (to_lower (hex_digit ((112 + x % 16) / 16) ∷ hex_digit ((112 + x % 16) % 16) ∷ s))
      ≡ true
unfolding matches to_lower lower
matches-version x ps s rest =
    rw (version_digit x, is_hex-hex_digit ((112 + x % 16) % 16) (omega arith)) rest

-- Two places for each byte.
abbrev places : List ℕ → List (ℕ → Bool) → List (ℕ → Bool)
places [] ps = ps
places (b ∷ bs) ps = is_hex ∷ is_hex ∷ places bs ps

abbrev AreBytes : List ℕ → Type 0
AreBytes bs = All (λ b. b < 256) bs

-- The digits of bytes in front.
matches-places :
    (bs : List ℕ) (ps : List (ℕ → Bool)) (s : Str)
    → AreBytes bs
    → matches ps (to_lower s) ≡ true
    → matches (places bs ps) (to_lower (hex_encode bs ++ s)) ≡ true
unfolding hex_encode
matches-places [] ps s h rest = rest
matches-places (b ∷ bs) ps s h rest =
    matches-byte b (places bs ps) (hex_encode bs ++ s) h.0 (matches-places bs ps s h.1 rest)

abbrev dash : ℕ → Bool
dash c = c == b'-'

abbrev seven : ℕ → Bool
seven c = c == b'7'

-- The text of a UUID whose seventh byte has the version 7.
matches-dashed :
    (ls bs : List ℕ) (x c : ℕ) (ds es : List ℕ)
    → AreBytes ls
    → AreBytes bs
    → c < 256
    → AreBytes ds
    → AreBytes es
    → matches
        (places ls (
          dash
          ∷ places bs
              (dash ∷ seven ∷ is_hex ∷ is_hex ∷ is_hex ∷ dash ∷ places ds (dash ∷ places es []))))
        (to_lower (
          dashed
            (hex_encode ls)
            (hex_encode bs)
            (hex_encode ((112 + x % 16) ∷ c ∷ []))
            (hex_encode ds)
            (hex_encode es)))
      ≡ true
unfolding matches to_lower lower hex_encode
matches-dashed ls bs x c ds es ha hb hc hd he =
    let last : matches (places es []) (to_lower (hex_encode es)) ≡ true =
      ap (λ s. matches (places es []) (to_lower s)) (sym (append-nil (hex_encode es)))
      ∙ matches-places es [] [] he refl in
    let fourth = matches-places ds (dash ∷ places es []) (lit "-" ++ hex_encode es) hd last in
    let fourth_text = hex_encode ds ++ (lit "-" ++ hex_encode es) in
    let pair : List (ℕ → Bool) = dash ∷ places ds (dash ∷ places es []) in
    let third =
      matches-version x (is_hex ∷ is_hex ∷ pair)
        (hex_digit (c / 16) ∷ hex_digit (c % 16) ∷ lit "-" ++ fourth_text)
        (matches-byte c pair (lit "-" ++ fourth_text) hc fourth) in
    let third_text = hex_encode ((112 + x % 16) ∷ c ∷ []) ++ (lit "-" ++ fourth_text) in
    matches-places ls _ (lit "-" ++ (hex_encode bs ++ (lit "-" ++ third_text))) ha (
      matches-places bs (dash ∷ seven ∷ is_hex ∷ is_hex ∷ is_hex ∷ pair) (lit "-" ++ third_text) hb
        third)

uint8_bound : (n : ℕ) → uint8 n < 256
uint8_bound n = omega arith

-- Whatever the time and the random source, the identifier of a generated event has the form that the
-- API asks of an idempotency key: that of a UUID of version 7. The String method of a UUID gives the
-- standard form.
pub deterministic_event_id-matches :
    (text : List ℕ → Str) (ms rand_bits rand_bits2 : ℕ)
    → IsUuidPrinter text
    → matches uuid_v7_pattern (to_lower (deterministic_event_id text ms rand_bits rand_bits2))
      ≡ true
unfolding deterministic_event_id event_id_bytes uuid_v7_pattern
deterministic_event_id-matches text ms rand_bits rand_bits2 laws =
    let u = uint8_bound in
    rw (laws _ _ _ _ _ _ _ _ _ _ _ _ _ _ _ _) (
      matches-dashed (_ ∷ _ ∷ _ ∷ _ ∷ []) (_ ∷ _ ∷ []) (rand_bits / 2 ^ 56) _ (_ ∷ _ ∷ [])
        (_ ∷ _ ∷ _ ∷ _ ∷ _ ∷ _ ∷ []) (u _, (u _, (u _, (u _, tt)))) (u _, (u _, tt)) (u _)
        (omega arith, (u _, tt)) (u _, (u _, (u _, (u _, (u _, (u _, tt)))))))
