-- ===== src/Auth/ApiKeyText.antt =====
-- The text of an API key, server/internal/auth/apikey.go. SHA-256 and the random bytes are
-- parameters.
pub mod Generated
use promptmeter.Prelude.{
  ℕ, zero, suc, ◌+◌, ◌%◌, ◌≡◌, Bool, true, false, not, ◌&&◌, ◌||◌, Option, none, some, List, [],
  ◌∷◌, ◌++◌, arith, Str, lit, str_eq, has_prefix, trim_prefix, leb, ◌==◌, if◌then◌else◌, length,
  take, all, any, runes, hex_encode,
}

abbrev pub prefix_live : Str
prefix_live = lit "pm_live_"

abbrev pub prefix_test : Str
prefix_test = lit "pm_test_"

abbrev pub key_length : ℕ
key_length = 32

abbrev pub base62_chars : Str
base62_chars = lit "0123456789ABCDEFGHIJKLMNOPQRSTUVWXYZabcdefghijklmnopqrstuvwxyz"

-- base62Chars[i], for an i within the string.
unfoldable pub char_at : Str → ℕ → ℕ
char_at [] i = 0
char_at (x ∷ xs) zero = x
char_at (x ∷ xs) (suc i) = char_at xs i

-- The loop of randomBase62 over the bytes that crypto/rand gave.
unfoldable pub base62 : List ℕ → Str
unfolding char_at
base62 [] = []
base62 (b ∷ bs) = char_at base62_chars (b % length base62_chars) ∷ base62 bs

-- randomBase62; `none` for the bytes is an error of crypto/rand.
unfoldable pub random_base62 : Option (List ℕ) → Option Str
unfolding base62
random_base62 none = none
random_base62 (some buf) = some (base62 buf)

pub record GeneratedKey : Type 0 where
  pub plaintext : Str
  pub hash : Str
  pub display_prefix : Str

module _ (sha256 : Str → List ℕ) where
  -- HashKey
  unfoldable pub hash_key : Str → Str
  unfolding hex_encode
  hash_key key = hex_encode (sha256 key)

  -- GenerateKey
  unfoldable pub generate_key : Str → Option (List ℕ) → Option GeneratedKey
  unfolding str_eq random_base62 hash_key
  generate_key prefix random =
      if not (str_eq prefix prefix_live) && not (str_eq prefix prefix_test)
      then none
      else elim (random_base62 random) [
        | none ↦ none
        | some body ↦ some record {
          plaintext = prefix ++ body;
          hash = hash_key (prefix ++ body);
          display_prefix = prefix ++ take 4 body;
        }
      ]

-- The body of a key, as ValidateFormat reads it.
unfoldable pub key_body : Str → Str
unfolding has_prefix trim_prefix
key_body key =
    if has_prefix key prefix_live then trim_prefix key prefix_live else trim_prefix key prefix_test

-- strings.ContainsRune(base62Chars, c)
unfoldable pub is_base62 : ℕ → Bool
is_base62 c = any (λ x. x == c) base62_chars

-- ValidateFormat; true is the nil error.
unfoldable pub validate_format : Str → Bool
unfolding has_prefix key_body is_base62 runes
validate_format key =
    if not (has_prefix key prefix_live) && not (has_prefix key prefix_test)
    then false
    else if not (length (key_body key) == key_length)
    then false
    else all is_base62 (runes (key_body key))

-- ExtractPrefix, from its second test on.
unfoldable pub extract_test_prefix : Str → Str
unfolding has_prefix trim_prefix
extract_test_prefix key =
    if has_prefix key prefix_test && leb 4 (length (trim_prefix key prefix_test))
    then prefix_test ++ take 4 (trim_prefix key prefix_test)
    else []

-- ExtractPrefix
unfoldable pub extract_prefix : Str → Str
unfolding has_prefix trim_prefix extract_test_prefix
extract_prefix key =
    if has_prefix key prefix_live && leb 4 (length (trim_prefix key prefix_live))
    then prefix_live ++ take 4 (trim_prefix key prefix_live)
    else extract_test_prefix key
