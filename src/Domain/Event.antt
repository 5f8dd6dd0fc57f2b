-- ===== src/Domain/Event.antt =====
-- server/internal/domain/event.go: the tracked event.
use promptmeter.Prelude.{ℕ, Bool, not, ◌||◌, Option, Str, is_empty}
use promptmeter.Domain.Floats.{Float64}
use promptmeter.Domain.Time.{Time}
use promptmeter.Domain.Tags.{TagMap}

-- The constants S3StatusNone, S3StatusPending and S3StatusUploaded, and "".
pub data S3Status : Type 0 where
  unset none pending uploaded : S3Status

pub record Event : Type 0 where
  pub org_id : ℕ
  pub event_id : Str
  pub project_id : Str
  pub timestamp : Time
  pub inserted_at : Time
  pub model : Str
  pub provider : Str
  pub prompt_tokens : ℕ
  pub completion_tokens : ℕ
  pub total_tokens : ℕ
  pub cost_usd : Float64
  pub latency_ms : ℕ
  pub status_code : ℕ
  -- nil is `none`
  pub tags : Option TagMap
  pub prompt : Str
  pub response : Str
  pub prompt_hash : Str
  pub s3_key : Str
  pub s3_status : S3Status
  pub schema_version : ℕ

-- Event.HasText
unfoldable pub has_text : Event → Bool
has_text e = not (is_empty e.prompt) || not (is_empty e.response)
