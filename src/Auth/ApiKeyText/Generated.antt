-- ===== src/Auth/ApiKeyText/Generated.antt =====
-- What a generated key satisfies.
use promptmeter.Prelude.{
  ℕ, ◌%◌, ◌<◌, ◌≤◌, ◌≡◌, refl, ◌⊎◌, inl, inr, Bool, true, false, ◌&&◌, some, List, [], ◌∷◌, ◌++◌,
  arith, Str, has_prefix, trim_prefix, ltb, length, take, all, runes_ascii, All, table_holds,
  table_holds_entry, behind, has_prefix-append,
}
use promptmeter.Auth.ApiKeyText.{
  prefix_live, prefix_test, key_length, base62_chars, char_at, base62, random_base62, GeneratedKey,
  hash_key, generate_key, key_body, is_base62, validate_format, extract_prefix, extract_test_prefix,
}

char_good : ℕ → Bool
char_good i = is_base62 (char_at base62_chars i) && ltb (char_at base62_chars i) 128

chars_good : table_holds char_good 62 ≡ true
unfolding table_holds char_good is_base62 char_at
chars_good = refl

module _ (b : ℕ) where
  char-good : char_good (b % 62) ≡ true
  char-good = table_holds_entry char_good 62 (b % 62) (omega arith) chars_good

  char-is_base62 : is_base62 (char_at base62_chars (b % 62)) ≡ true
  unfolding char_good
  char-is_base62 = ground (arith, char-good)

  char-lt : char_at base62_chars (b % 62) < 128
  unfolding char_good
  char-lt = ground (arith, char-good)

length-base62 : (bs : List ℕ) → length (base62 bs) ≡ length bs
unfolding base62
length-base62 [] = refl
length-base62 (b ∷ bs) = omega (arith, length-base62 bs)

base62_ascii : (bs : List ℕ) → All (λ c. c < 128) (base62 bs)
unfolding base62
base62_ascii [] = tt
base62_ascii (b ∷ bs) = (char-lt b, base62_ascii bs)

base62-all : (bs : List ℕ) → all is_base62 (base62 bs) ≡ true
unfolding base62
base62-all [] = refl
base62-all (b ∷ bs) = rw (char-is_base62 b) (base62-all bs)

-- The body of a text with either prefix is what stands behind the prefix.
key_body-live : (body : Str) → key_body (prefix_live ++ body) ≡ body
unfolding key_body has_prefix trim_prefix behind
key_body-live body = refl

test-not-live : (body : Str) → has_prefix (prefix_test ++ body) prefix_live ≡ false
unfolding has_prefix
test-not-live body = refl

key_body-test : (body : Str) → key_body (prefix_test ++ body) ≡ body
unfolding key_body has_prefix trim_prefix behind
key_body-test body = refl

live_valid : (bs : List ℕ) → length bs ≡ 32 → validate_format (prefix_live ++ base62 bs) ≡ true
unfolding validate_format
live_valid bs h =
    rw
      (
        has_prefix-append prefix_live (base62 bs),
        key_body-live (base62 bs),
        length-base62 bs,
        h,
        runes_ascii (base62 bs) (base62_ascii bs),
      )
      (base62-all bs)

test_valid : (bs : List ℕ) → length bs ≡ 32 → validate_format (prefix_test ++ base62 bs) ≡ true
unfolding validate_format
test_valid bs h =
    rw
      (
        test-not-live (base62 bs),
        has_prefix-append prefix_test (base62 bs),
        key_body-test (base62 bs),
        length-base62 bs,
        h,
        runes_ascii (base62 bs) (base62_ascii bs),
      )
      (base62-all bs)

live_extracted :
    (body : Str)
    → 4 ≤ length body
    → extract_prefix (prefix_live ++ body) ≡ prefix_live ++ take 4 body
unfolding extract_prefix has_prefix trim_prefix behind
live_extracted body h = ground arith

test_extracted :
    (body : Str)
    → 4 ≤ length body
    → extract_prefix (prefix_test ++ body) ≡ prefix_test ++ take 4 body
unfolding extract_prefix extract_test_prefix has_prefix trim_prefix behind
test_extracted body h = ground arith

-- From either prefix and 32 random bytes, generate_key gives a key whose text passes
-- validate_format, whose displayed prefix is what extract_prefix reads from that text, and whose
-- hash is that of the text.
pub generate_key-validate_format :
    (sha256 : Str → List ℕ) (prefix : Str) (bytes : List ℕ)
    → (prefix ≡ prefix_live) ⊎ (prefix ≡ prefix_test)
    → length bytes ≡ key_length
    → (k : GeneratedKey) × (generate_key sha256 prefix (some bytes) ≡ some k)
      × (validate_format k.plaintext ≡ true)
      × (extract_prefix k.plaintext ≡ k.display_prefix)
      × (k.hash ≡ hash_key sha256 k.plaintext)
unfolding generate_key random_base62
generate_key-validate_format sha256 prefix bytes (inl p) h = rw p (
  _,
  refl,
  live_valid bytes h,
  live_extracted (base62 bytes) (omega (arith, length-base62 bytes)),
  refl,
)
generate_key-validate_format sha256 prefix bytes (inr p) h = rw p (
  _,
  refl,
  test_valid bytes h,
  test_extracted (base62 bytes) (omega (arith, length-base62 bytes)),
  refl,
)
