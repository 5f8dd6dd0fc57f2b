-- ===== src/Ingestion/Wire.antt =====
-- server/internal/proto/eventsv1/events.pb.go: the event as it crosses the queue.
use promptmeter.Prelude.{ℕ, ◌<◌, ◌≡◌, Option, some, [], Str, All}
use promptmeter.Domain.Floats.{Float64}
use promptmeter.Domain.Time.{Time}
use promptmeter.Domain.Tags.{TagMap}

-- S3Status is an int32 with three named values.
abbrev pub status_none : ℕ
status_none = 0

abbrev pub status_pending : ℕ
status_pending = 1

abbrev pub status_uploaded : ℕ
status_uploaded = 2

pub record LlmEvent : Type 0 where
  pub org_id : ℕ
  pub event_id : Str
  pub project_id : Str
  pub timestamp : Time
  pub inserted_at : Time
  pub model : Str
  pub provider : Str
  pub prompt_tokens : ℕ
  pub completion_tokens : ℕ
  pub total_tokens : ℕ
  pub cost_usd : Float64
  pub latency_ms : ℕ
  pub status_code : ℕ
  -- nil is `none`
  pub tags : Option TagMap
  pub prompt : Str
  pub response : Str
  pub prompt_hash : Str
  pub s3_key : Str
  pub s3_status : ℕ
  pub schema_version : ℕ

-- LLMEvent.Marshal by the API and LLMEvent.Unmarshal by the worker, one after the other; `none` if one
-- of them fails.
abbrev pub Queue : Type 0
Queue = LlmEvent → Option LlmEvent

-- What is documented of encoding/json: a string is coerced to valid UTF-8, in which a replacement
-- character stands for each byte that is not.
pub record IsCoercion (coerce : Str → Str) : Type 0 where
  pub ascii : (s : Str) → All (λ c. c < 128) s → coerce s ≡ s
  pub nonempty : (s : Str) → coerce s ≡ [] → s ≡ []

-- The message that arrives: its strings are coerced, and its numbers and times are those that were
-- sent.
pub record IsCarried (coerce : Str → Str) (sent pb : LlmEvent) : Type 0 where
  pub org_id : pb.org_id ≡ sent.org_id
  pub event_id : pb.event_id ≡ coerce sent.event_id
  pub timestamp : pb.timestamp ≡ sent.timestamp
  pub model : pb.model ≡ coerce sent.model
  pub provider : pb.provider ≡ coerce sent.provider
  pub prompt_tokens : pb.prompt_tokens ≡ sent.prompt_tokens
  pub completion_tokens : pb.completion_tokens ≡ sent.completion_tokens
  pub latency_ms : pb.latency_ms ≡ sent.latency_ms
  pub status_code : pb.status_code ≡ sent.status_code
  pub prompt : pb.prompt ≡ coerce sent.prompt
  pub response : pb.response ≡ coerce sent.response

-- encoding/json on the messages of the queue.
pub record IsJson (coerce : Str → Str) (queue : Queue) : Type 0 where
  pub coercion : IsCoercion coerce
  pub carried : (sent pb : LlmEvent) → queue sent ≡ some pb → IsCarried coerce sent pb
