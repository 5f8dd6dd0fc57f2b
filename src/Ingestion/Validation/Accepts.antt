-- ===== src/Ingestion/Validation/Accepts.antt =====
-- Which events the validator accepts, and what it leaves of their text.
use mathlib.Core.List.{append-nil}
use promptmeter.Prelude.{
  ℕ, ◌+◌, ◌≤◌, ◌≡◌, ◌<◌, refl, ◌≢◌, ◌↔◌, true, false, Option, none, some, List, [], ◌∷◌, ◌++◌, Str,
  lit, ltb, length, take, any, str_eq, rune_count, arith, All, str_eq_iff, ◌⊎◌, inl, inr,
  Bool-cases, drop, take-append-drop, take_all, length-take,
}
use promptmeter.Domain.Time.{Time, hour}
use promptmeter.Domain.Tags.{TagMap}
use promptmeter.Ingestion.Request.{Field, FieldError, EventRequest}
use promptmeter.Ingestion.Validation.{
  max_tags, max_tag_key_len, max_tag_value_len, max_model_len, max_prompt_bytes, max_response_bytes,
  allowed_providers, tag_key_matches, to_lower, matches, uuid_v7_pattern, check_key,
  check_timestamp, check_model, check_provider, check_present, check_status, check_tag,
  check_each_tag, check_tags, validation_errors, validate_event, truncate,
}

append-eq-nil : (xs ys : List FieldError) → (xs ++ ys ≡ []) ↔ ((xs ≡ []) × (ys ≡ []))
append-eq-nil [] ys = (λ h. (refl, h), λ h. h.1)
append-eq-nil (x ∷ xs) ys = (λ h. cc, λ h. cc)

no_key : matches uuid_v7_pattern (to_lower []) ≡ false
unfolding matches to_lower uuid_v7_pattern
no_key = refl

check_key_iff : (key : Str) → (check_key key ≡ []) ↔ (matches uuid_v7_pattern (to_lower key) ≡ true)
unfolding check_key
check_key_iff [] = ground (arith, no_key)
check_key_iff (c ∷ key) = ground arith

abbrev pub IsTimely : Option Time → Time → Type 0
IsTimely parsed now = (t : Time) × (parsed ≡ some t) × (t ≤ now + hour)

check_timestamp_iff :
    (text : Str) (parsed : Option Time) (now : Time)
    → (check_timestamp text parsed now ≡ []) ↔ ((text ≢ []) × IsTimely parsed now)
unfolding check_timestamp
check_timestamp_iff [] parsed now = ((λ h. cc), λ h. absurd (h.0 refl))
check_timestamp_iff (c ∷ text) none now = ((λ h. cc), λ h. cc)
check_timestamp_iff (c ∷ text) (some t) now =
    (λ h. ((λ e. cc), (t, refl, ground arith)), λ h. ground arith)

check_model_iff : (m : Str) → (check_model m ≡ []) ↔ ((m ≢ []) × (rune_count m ≤ max_model_len))
unfolding check_model
check_model_iff [] = ground arith
check_model_iff (c ∷ m) = ground arith

abbrev pub IsAllowed : Str → Type 0
IsAllowed p =
    (p ≡ lit "openai") ⊎ ((p ≡ lit "anthropic") ⊎ ((p ≡ lit "google") ⊎ (p ≡ lit "other")))

IsAllowed-iff : (p : Str) → (any (str_eq p) allowed_providers ≡ true) ↔ IsAllowed p
unfolding allowed_providers
IsAllowed-iff p = ground (
  arith,
  str_eq_iff p (lit "openai"),
  str_eq_iff p (lit "anthropic"),
  str_eq_iff p (lit "google"),
  str_eq_iff p (lit "other"),
)

check_provider_iff : (p : Str) → (check_provider p ≡ []) ↔ IsAllowed p
unfolding check_provider
check_provider_iff [] = ground arith
check_provider_iff (c ∷ p) = ground (arith, IsAllowed-iff (c ∷ p))

check_present_iff : (f : Field) (o : Option ℕ) → (check_present f o ≡ []) ↔ (o ≢ none)
unfolding check_present
check_present_iff f none = ground arith
check_present_iff f (some n) = ground arith

abbrev pub IsStatus : Option ℕ → Type 0
IsStatus o = (c : ℕ) × (o ≡ some c) × (100 ≤ c) × (c ≤ 599)

check_status_iff : (o : Option ℕ) → (check_status o ≡ []) ↔ IsStatus o
unfolding check_status
check_status_iff none = ((λ h. cc), λ h. cc)
check_status_iff (some c) = (λ h. (c, refl, ground arith, ground arith), λ h. ground arith)

abbrev pub IsTag : Str × Str → Type 0
IsTag kv =
    (length kv.0 ≤ max_tag_key_len)
    × (tag_key_matches kv.0 ≡ true)
    × (length kv.1 ≤ max_tag_value_len)

check_tag_iff : (k v : Str) → (check_tag k v ≡ []) ↔ IsTag (k, v)
unfolding check_tag
check_tag_iff k v = ground arith

check_each_tag_iff : (m : TagMap) → (check_each_tag m ≡ []) ↔ All IsTag m
unfolding check_each_tag
check_each_tag_iff [] = (λ h. tt, λ h. refl)
check_each_tag_iff ((k, v) ∷ m) =
    let (to, from) = append-eq-nil (check_tag k v) (check_each_tag m) in
    (
      λ h. ((check_tag_iff k v).0 (to h).0, (check_each_tag_iff m).0 (to h).1),
      λ h. from ((check_tag_iff k v).1 h.0, (check_each_tag_iff m).1 h.1),
    )

abbrev pub IsTagSet : Option TagMap → Type 0
IsTagSet none = Unit
IsTagSet (some m) = (length m ≤ max_tags) × All IsTag m

check_tags_iff : (o : Option TagMap) → (check_tags o ≡ []) ↔ IsTagSet o
unfolding check_tags
check_tags_iff none = (λ h. tt, λ h. refl)
check_tags_iff (some m) = elim (Bool-cases (ltb max_tags (length m))) [
  | inl many ↦ ((λ h. ground arith), λ h. ground arith)
  | inr few ↦ (
    (λ h. (ground arith, (check_each_tag_iff m).0 (ground arith))),
    λ h. rw few ((check_each_tag_iff m).1 h.1),
  )
]

-- What the API demands of an event, field by field.
pub record IsAcceptable (parse_time : Str → Option Time) (now : Time) (req : EventRequest)
    : Type 0 where
  pub key : matches uuid_v7_pattern (to_lower req.idempotency_key) ≡ true
  pub timestamp : (req.timestamp ≢ []) × IsTimely (parse_time req.timestamp) now
  pub model : (req.model ≢ []) × (rune_count req.model ≤ max_model_len)
  pub provider : IsAllowed req.provider
  pub prompt_tokens : req.prompt_tokens ≢ none
  pub completion_tokens : req.completion_tokens ≢ none
  pub latency_ms : req.latency_ms ≢ none
  pub status_code : IsStatus req.status_code
  pub tags : IsTagSet req.tags

module _ (parse_time : Str → Option Time) (now : Time) (req : EventRequest) where
  validation_errors_sound :
      validation_errors parse_time now req ≡ [] → IsAcceptable parse_time now req
  unfolding validation_errors
  validation_errors_sound h =
      let (a, h1) = (append-eq-nil _ _).0 h in
      let (b, h2) = (append-eq-nil _ _).0 h1 in
      let (c, h3) = (append-eq-nil _ _).0 h2 in
      let (d, h4) = (append-eq-nil _ _).0 h3 in
      let (e, h5) = (append-eq-nil _ _).0 h4 in
      let (f, h6) = (append-eq-nil _ _).0 h5 in
      let (g, h7) = (append-eq-nil _ _).0 h6 in
      let (i, j) = (append-eq-nil _ _).0 h7 in
      record {
        key = (check_key_iff _).0 a;
        timestamp = (check_timestamp_iff _ _ _).0 b;
        model = (check_model_iff _).0 c;
        provider = (check_provider_iff _).0 d;
        prompt_tokens = (check_present_iff _ _).0 e;
        completion_tokens = (check_present_iff _ _).0 f;
        latency_ms = (check_present_iff _ _).0 g;
        status_code = (check_status_iff _).0 i;
        tags = (check_tags_iff _).0 j;
      }

  validation_errors_complete :
      IsAcceptable parse_time now req → validation_errors parse_time now req ≡ []
  unfolding validation_errors
  validation_errors_complete v = rw (
    (check_key_iff _).1 v.key,
    (check_timestamp_iff _ _ _).1 v.timestamp,
    (check_model_iff _).1 v.model,
    (check_provider_iff _).1 v.provider,
    (check_present_iff Field.prompt_tokens _).1 v.prompt_tokens,
    (check_present_iff Field.completion_tokens _).1 v.completion_tokens,
    (check_present_iff Field.latency_ms _).1 v.latency_ms,
    (check_status_iff _).1 v.status_code,
    (check_tags_iff _).1 v.tags,
  )

-- The validator reports no error exactly when the event meets every demand.
pub validate_event_iff :
    (parse_time : Str → Option Time) (now : Time) (req : EventRequest)
    → ((validate_event parse_time now req).0 ≡ []) ↔ IsAcceptable parse_time now req
unfolding validate_event
validate_event_iff parse_time now req =
    (validation_errors_sound parse_time now req, validation_errors_complete parse_time now req)

-- What is kept of a text: all of it if it fits, and otherwise as much of its start as fits.
abbrev pub IsCut : ℕ → Option Str → Option Str → Type 0
IsCut limit none kept = kept ≡ none
IsCut limit (some s) kept =
    (t rest : Str) × (kept ≡ some t)
    × (t ++ rest ≡ s)
    × (length s ≤ limit → t ≡ s)
    × (limit < length s → length t ≡ limit)

truncate-IsCut : (limit : ℕ) (o : Option Str) → IsCut limit o (truncate limit o)
unfolding truncate
truncate-IsCut limit none = refl
truncate-IsCut limit (some s) = elim (Bool-cases (ltb limit (length s))) [
  | inl long ↦ (
    take limit s,
    drop limit s,
    rw long,
    take-append-drop limit s,
    λ fits. take_all limit s fits,
    λ over. omega (arith, length-take limit s),
  )
  | inr fits ↦ (s, [], rw fits, append-nil s, λ _. refl, λ over. absurd (ground arith))
]

-- Validation leaves the request as it is, but for a prompt and a response that are longer than their
-- limits, of which it keeps as many bytes from the start as the limit allows; it rejects no event for
-- the length of its text.
pub validate_event-IsCut :
    (parse_time : Str → Option Time) (now : Time) (req : EventRequest)
    → let (errors, kept) = validate_event parse_time now req in
      (kept ≡ record req { prompt = kept.prompt; response = kept.response })
      × IsCut max_prompt_bytes req.prompt kept.prompt
      × IsCut max_response_bytes req.response kept.response
      × (errors ≡ (validate_event parse_time now (record req { prompt = none; response = none })).0)
unfolding validate_event
validate_event-IsCut parse_time now req = (
  refl,
  truncate-IsCut max_prompt_bytes req.prompt,
  truncate-IsCut max_response_bytes req.response,
  refl,
)
