-- ===== src/Ingestion/Validation.antt =====
-- server/internal/ingestion/validation.go: `ValidateEvent` and `ValidateBatch`.
pub mod Accepts
use promptmeter.Prelude.{
  ℕ, ◌+◌, ◌-◌, ◌*◌, Bool, true, false, not, ◌&&◌, ◌||◌, Option, none, some, List, [], ◌∷◌, ◌++◌,
  Str, lit, ltb, leb, ◌==◌, if◌then◌else◌, length, take, all, any, is_empty, in_range, map, str_eq,
  rune_count,
}
use promptmeter.Domain.Time.{Time, hour}
use promptmeter.Domain.Tags.{TagMap}
use promptmeter.Ingestion.Request.{Field, Message, FieldError, EventRequest, BatchRequest}

abbrev pub max_tags : ℕ
max_tags = 20

abbrev pub max_tag_key_len : ℕ
max_tag_key_len = 50

abbrev pub max_tag_value_len : ℕ
max_tag_value_len = 200

abbrev pub max_model_len : ℕ
max_model_len = 100

abbrev pub max_prompt_bytes : ℕ
max_prompt_bytes = 102400

abbrev pub max_response_bytes : ℕ
max_response_bytes = 102400

abbrev pub max_batch_size : ℕ
max_batch_size = 500

unfoldable pub allowed_providers : List Str
allowed_providers = lit "openai" ∷ lit "anthropic" ∷ lit "google" ∷ lit "other" ∷ []

-- tagKeyRegex, ^[a-zA-Z0-9_]+$
unfoldable pub is_tag_byte : ℕ → Bool
is_tag_byte c = in_range b'a' b'z' c || in_range b'A' b'Z' c || in_range b'0' b'9' c || (c == b'_')

unfoldable pub tag_key_matches : Str → Bool
tag_key_matches k = not (is_empty k) && all is_tag_byte k

-- strings.ToLower, on the ASCII letters. Of the other runes none has a lower case that the pattern
-- below takes.
unfoldable pub to_lower : Str → Str
to_lower s = map (λ c. if in_range b'A' b'Z' c then c + 32 else c) s

-- A pattern without repetition: one class of bytes for each place.
unfoldable pub matches : List (ℕ → Bool) → Str → Bool
matches [] [] = true
matches (p ∷ ps) (c ∷ s) = p c && matches ps s
matches _ _ = false

abbrev is_hex : ℕ → Bool
is_hex c = in_range b'0' b'9' c || in_range b'a' b'f' c

abbrev is_byte : ℕ → ℕ → Bool
is_byte b c = c == b

-- uuidV7Regex, ^[0-9a-f]{8}-[0-9a-f]{4}-7[0-9a-f]{3}-[0-9a-f]{4}-[0-9a-f]{12}$
unfoldable pub uuid_v7_pattern : List (ℕ → Bool)
uuid_v7_pattern =
    let x = is_hex in
    let dash = is_byte b'-' in
    x
    ∷ x
    ∷ x
    ∷ x
    ∷ x
    ∷ x
    ∷ x
    ∷ x
    ∷ dash
    ∷ x
    ∷ x
    ∷ x
    ∷ x
    ∷ dash
    ∷ is_byte b'7'
    ∷ x
    ∷ x
    ∷ x
    ∷ dash
    ∷ x
    ∷ x
    ∷ x
    ∷ x
    ∷ dash
    ∷ x
    ∷ x
    ∷ x
    ∷ x
    ∷ x
    ∷ x
    ∷ x
    ∷ x
    ∷ x
    ∷ x
    ∷ x
    ∷ x
    ∷ []

abbrev pub at_field : Field → Message → List FieldError
at_field f m = record { field = f; message = m } ∷ []

check_key : Str → List FieldError
check_key key =
    if is_empty key
    then at_field Field.idempotency_key Message.missing
    else if not (matches uuid_v7_pattern (to_lower key))
    then at_field Field.idempotency_key Message.bad_uuid
    else []

-- `parsed` is time.Parse of the text.
check_timestamp : Str → Option Time → Time → List FieldError
check_timestamp text parsed now =
    if is_empty text then at_field Field.timestamp Message.missing else elim parsed [
      | none ↦ at_field Field.timestamp Message.bad_timestamp
      | some ts ↦
          if ltb (now + hour) ts then at_field Field.timestamp Message.future_timestamp else []
    ]

check_model : Str → List FieldError
check_model m =
    if is_empty m
    then at_field Field.model Message.missing
    else if ltb max_model_len (rune_count m)
    then at_field Field.model (Message.max_characters max_model_len)
    else []

check_provider : Str → List FieldError
check_provider p =
    if is_empty p
    then at_field Field.provider Message.missing
    else if not (any (str_eq p) allowed_providers)
    then at_field Field.provider Message.bad_provider
    else []

check_present : Field → Option ℕ → List FieldError
check_present f none = at_field f Message.missing
check_present f (some n) = []

check_status : Option ℕ → List FieldError
check_status none = at_field Field.status_code Message.missing
check_status (some c) =
    if ltb c 100 || ltb 599 c then at_field Field.status_code Message.bad_status else []

-- One round of the loop over the tags.
check_tag : Str → Str → List FieldError
check_tag k v =
    (if ltb max_tag_key_len (length k)
      then at_field Field.tags (Message.key_too_long k max_tag_key_len)
      else [])
    ++ ((if not (tag_key_matches k)
          then at_field Field.tags (Message.key_not_alphanumeric k)
          else [])
        ++ (if ltb max_tag_value_len (length v)
            then at_field Field.tags (Message.value_too_long k max_tag_value_len)
            else []))

check_each_tag : TagMap → List FieldError
check_each_tag [] = []
check_each_tag ((k, v) ∷ m) = check_tag k v ++ check_each_tag m

check_tags : Option TagMap → List FieldError
check_tags none = []
check_tags (some m) =
    if ltb max_tags (length m)
    then at_field Field.tags (Message.max_tag_count max_tags)
    else check_each_tag m

-- The prompt and the response are cut, not rejected.
truncate : ℕ → Option Str → Option Str
truncate limit none = none
truncate limit (some s) = if ltb limit (length s) then some (take limit s) else some s

unfoldable pub validation_errors : (Str → Option Time) → Time → EventRequest → List FieldError
unfolding check_key check_timestamp check_model check_provider check_present check_status check_tag
    check_each_tag check_tags
validation_errors parse_time now req =
    check_key req.idempotency_key
    ++ (check_timestamp req.timestamp (parse_time req.timestamp) now
        ++ (check_model req.model
            ++ (check_provider req.provider
                ++ (check_present Field.prompt_tokens req.prompt_tokens
                    ++ (check_present Field.completion_tokens req.completion_tokens
                        ++ (check_present Field.latency_ms req.latency_ms
                            ++ (check_status req.status_code ++ check_tags req.tags)))))))

unfoldable pub truncated : EventRequest → EventRequest
unfolding truncate
truncated req = record req {
  prompt = truncate max_prompt_bytes req.prompt;
  response = truncate max_response_bytes req.response;
}

-- ValidateEvent returns the errors, and the request as it leaves it.
unfoldable pub validate_event :
    (Str → Option Time) → Time → EventRequest → List FieldError × EventRequest
unfolding validation_errors truncated
validate_event parse_time now req = (validation_errors parse_time now req, truncated req)

unfoldable pub validate_batch : BatchRequest → List FieldError
validate_batch req =
    if length req.events == 0
    then at_field Field.events Message.no_events
    else if ltb max_batch_size (length req.events)
    then at_field Field.events (Message.max_events max_batch_size)
    else []
