-- ===== src/Ingestion/Build.antt =====
-- `buildProtoEvent` of server/internal/ingestion/handler.go.
use promptmeter.Prelude.{ℕ, ◌+◌, ◌%◌, ◌^◌, Option, none, some, [], Str, ◌==◌, if◌then◌else◌}
use promptmeter.Domain.Time.{Time, zero_time}
use promptmeter.Ingestion.Request.{EventRequest}
use promptmeter.Ingestion.Wire.{LlmEvent, status_none, status_pending}

-- *p, or the zero value of a field that is left alone
abbrev pub or_zero : Option ℕ → ℕ
or_zero none = 0
or_zero (some n) = n

-- The sum of two uint32 wraps.
abbrev pub add_uint32 : ℕ → ℕ → ℕ
add_uint32 a b = (a + b) % 2 ^ 32

-- time.Parse returns the zero time with an error.
abbrev or_zero_time : Option Time → Time
or_zero_time none = zero_time
or_zero_time (some t) = t

module _ (parse_time : Str → Option Time) (sha256_hex : Str → Str) where
  with_prompt : Option Str → LlmEvent → LlmEvent
  with_prompt none e = e
  with_prompt (some p) e = record e {
    prompt = p;
    prompt_hash = sha256_hex p;
    s3_status = status_pending;
  }

  with_response : Option Str → LlmEvent → LlmEvent
  with_response none e = e
  with_response (some r) e = record e {
    response = r;
    s3_status = if e.s3_status == status_none then status_pending else e.s3_status;
  }

  with_tags : LlmEvent → LlmEvent
  with_tags e = record e { tags = elim e.tags [ none ↦ some [] | some m ↦ some m ] }

  unfoldable pub build_proto_event : ℕ → Time → EventRequest → LlmEvent
  unfolding with_prompt with_response with_tags
  build_proto_event org_id inserted_at req =
      let total =
        add_uint32 (add_uint32 0 (or_zero req.prompt_tokens)) (or_zero req.completion_tokens) in
      let event : LlmEvent = record {
        org_id = org_id;
        event_id = req.idempotency_key;
        project_id = [];
        timestamp = or_zero_time (parse_time req.timestamp);
        inserted_at = inserted_at;
        model = req.model;
        provider = req.provider;
        prompt_tokens = or_zero req.prompt_tokens;
        completion_tokens = or_zero req.completion_tokens;
        total_tokens = total;
        cost_usd = 0;
        latency_ms = or_zero req.latency_ms;
        status_code = or_zero req.status_code;
        tags = req.tags;
        prompt = [];
        response = [];
        prompt_hash = [];
        s3_key = [];
        s3_status = status_none;
        schema_version = 1;
      } in
      with_tags (with_response req.response (with_prompt req.prompt event))
