-- ===== src/Auth/Tests.antt =====
-- API keys and JWTs at concrete inputs.
use promptmeter.Prelude.{Str, List, [], ◌∷◌, true, ℕ, lit, ◌≡◌, refl, inl, some}
use promptmeter.Auth.ApiKeyText.{
  prefix_live, GeneratedKey, hash_key, generate_key, validate_format, extract_prefix,
}
use promptmeter.Auth.ApiKeyText.Generated.{generate_key-validate_format}
use promptmeter.Auth.Jwt.{JwtClaims, Codec, split_dots, stamped, verify_jwt}
use promptmeter.Auth.Samples.{undotted, dotted, held_codec}
use promptmeter.Auth.Jwt.Verified.{IsSigned, token_for, verify_jwt-IsSigned}

-- A digest that keeps the text, and 32 bytes.
abbrev bytes : List ℕ
bytes =
    0 ∷ 9 ∷ 61 ∷ 62 ∷ 255 ∷ 5 ∷ 6 ∷ 7 ∷ 8 ∷ 9 ∷ 10 ∷ 11 ∷ 12 ∷ 13 ∷ 14 ∷ 15 ∷ 16 ∷ 17 ∷ 18 ∷ 19 ∷ 20
    ∷ 21 ∷ 22 ∷ 23 ∷ 24 ∷ 25 ∷ 26 ∷ 27 ∷ 28 ∷ 29 ∷ 30 ∷ 31 ∷ []

generate_key-validate_format_example :
    (k : GeneratedKey) × (generate_key (λ s. s) prefix_live (some bytes) ≡ some k)
    × (validate_format k.plaintext ≡ true)
    × (extract_prefix k.plaintext ≡ k.display_prefix)
    × (k.hash ≡ hash_key (λ s. s) k.plaintext)
generate_key-validate_format_example =
    generate_key-validate_format (λ s. s) prefix_live bytes (inl refl) refl

abbrev sample_claims : JwtClaims
sample_claims = record {
  sub = lit "u";
  org = lit "o";
  org_numeric = 7;
  role = lit "owner";
  tier = lit "pro";
  iat = 0;
  exp = 0;
}

abbrev sample_codec : Codec
sample_codec = held_codec (stamped 10 11 sample_claims)

abbrev sample_token : Str
sample_token = token_for sample_codec (lit "{}") (lit "k")

verify_jwt-IsSigned_example :
    IsSigned sample_codec 500 (lit "k") (split_dots sample_token) (stamped 10 11 sample_claims)
unfolding verify_jwt undotted dotted
verify_jwt-IsSigned_example =
    verify_jwt-IsSigned sample_codec 500 sample_token (lit "k") (stamped 10 11 sample_claims) refl
