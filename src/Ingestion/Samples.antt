-- ===== src/Ingestion/Samples.antt =====
-- Test data: a request that meets every demand, and an environment of the handlers.
use mathlib.Core.Path.{subst}
use promptmeter.Prelude.{ℕ, ◌+◌, ◌≡◌, refl, ap, true, Option, none, some, Str, lit}
use promptmeter.Domain.Time.{Time}
use promptmeter.Ingestion.Request.{EventRequest}
use promptmeter.Ingestion.Handler.{Env}
use promptmeter.Ingestion.Wire.{LlmEvent, Queue, IsCarried, IsJson}

abbrev pub sample_request : EventRequest
sample_request = record {
  idempotency_key = lit "01890a5d-ac96-774b-bcce-b302099a8057";
  timestamp = lit "t";
  model = lit "gpt";
  provider = lit "openai";
  prompt_tokens = some 3;
  completion_tokens = some 4;
  latency_ms = some 9;
  status_code = some 200;
  tags = none;
  prompt = some (lit "hi");
  response = none;
}

-- Another one, whose status is none of HTTP's.
abbrev pub bad_request : EventRequest
bad_request = record sample_request { status_code = some 99 }

-- A parser of one timestamp.
abbrev pub sample_parse : Str → Option Time
sample_parse s = some 100

-- The queue counts what it takes.
abbrev pub sample_env : Env ℕ
sample_env = record {
  publish = λ s org_id e. (true, s + 1);
  parse_time = sample_parse;
  sha256_hex = λ s. s;
  now = λ i. 200;
  inserted_at = λ i. 210;
}

-- A queue that changes no string.
abbrev pub plain_queue : Queue
plain_queue pb = some pb

abbrev message_of : Option LlmEvent → LlmEvent → LlmEvent
message_of (some pb) _ = pb
message_of none pb = pb

pub plain_queue-IsJson : IsJson (λ s. s) plain_queue
plain_queue-IsJson = record {
  coercion = record { ascii = λ s h. refl; nonempty = λ s h. h };
  carried = λ sent pb e.
      let same : sent ≡ pb = ap (λ o. message_of o sent) e in
      subst (IsCarried (λ s. s) sent) same (record {
        org_id = refl;
        event_id = refl;
        timestamp = refl;
        model = refl;
        provider = refl;
        prompt_tokens = refl;
        completion_tokens = refl;
        latency_ms = refl;
        status_code = refl;
        prompt = refl;
        response = refl;
      });
}
