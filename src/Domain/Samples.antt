-- ===== src/Domain/Samples.antt =====
-- Test data: an event, a calendar and a float arithmetic on bit patterns.
use promptmeter.Prelude.{◌+◌, ◌-◌, ◌*◌, ◌/◌, none, [], lit, ltb, ◌==◌}
use promptmeter.Domain.Floats.{Floats}
use promptmeter.Domain.Event.{Event, S3Status}
use promptmeter.Domain.ObjectKey.{Calendar}

-- Any functions will do.
abbrev pub sample_floats : Floats
sample_floats = record {
  add = λ a b. a + b;
  sub = λ a b. a - b;
  mul = λ a b. a * b;
  div = λ a b. a / b;
  of_uint = λ n. n;
  eq = λ a b. a == b;
  lt = λ a b. ltb a b;
}

abbrev pub sample_calendar : Calendar
sample_calendar = record { year = λ t. lit "2026"; month = λ t. lit "01"; day = λ t. lit "02" }

abbrev pub sample_event : Event
sample_event = record {
  org_id = 7;
  event_id = lit "e1";
  project_id = [];
  timestamp = 100;
  inserted_at = 110;
  model = lit "gpt";
  provider = lit "openai";
  prompt_tokens = 3;
  completion_tokens = 4;
  total_tokens = 7;
  cost_usd = 0;
  latency_ms = 9;
  status_code = 200;
  tags = none;
  prompt = lit "hi";
  response = [];
  prompt_hash = [];
  s3_key = [];
  s3_status = S3Status.pending;
  schema_version = 1;
}
