-- ===== src/Ingestion/Request.antt =====
-- The request types and field errors of server/internal/ingestion/validation.go.
use promptmeter.Prelude.{ℕ, Option, List, Str}
use promptmeter.Domain.Tags.{TagMap}

pub data Field : Type 0 where
  idempotency_key timestamp model provider prompt_tokens completion_tokens latency_ms status_code
        tags events :
      Field

-- The messages, with what fmt.Sprintf puts into them.
pub data Message : Type 0 where
  missing bad_uuid bad_timestamp future_timestamp bad_provider bad_status no_events : Message
  max_characters max_tag_count max_events : ℕ → Message
  key_too_long value_too_long : Str → ℕ → Message
  key_not_alphanumeric : Str → Message

pub record FieldError : Type 0 where
  pub field : Field
  pub message : Message

-- A nil pointer or map is `none`.
pub record EventRequest : Type 0 where
  pub idempotency_key : Str
  pub timestamp : Str
  pub model : Str
  pub provider : Str
  pub prompt_tokens : Option ℕ
  pub completion_tokens : Option ℕ
  pub latency_ms : Option ℕ
  pub status_code : Option ℕ
  pub tags : Option TagMap
  pub prompt : Option Str
  pub response : Option Str

pub record BatchRequest : Type 0 where
  pub events : List EventRequest
