-- ===== src/Worker/Inserted.antt =====
-- From the requests that the API accepts to the rows that InsertEvents stores.
pub mod Identifiers
use promptmeter.Prelude.{
  zero, suc, ℕ, ltb, ◌<◌, ◌+◌, ◌%◌, ◌^◌, ◌≤◌, ◌≡◌, Bool, ◌||◌, Option, some, List, [], ◌∷◌, Str,
  in_range, ◌==◌,
}
use promptmeter.Domain.Floats.{Floats}
use promptmeter.Domain.Time.{Time}
use promptmeter.Domain.Event.{Event}
use promptmeter.Domain.ObjectKey.{Calendar}
use promptmeter.Ingestion.Request.{EventRequest}
use promptmeter.Ingestion.Validation.{to_lower, matches, uuid_v7_pattern}
use promptmeter.Ingestion.Validation.Accepts.{IsAcceptable}
use promptmeter.Ingestion.Wire.{LlmEvent, Queue, IsCoercion, IsJson}
use promptmeter.Ingestion.Build.{build_proto_event}
use promptmeter.Storage.Events.{EventRow, to_millis}
use promptmeter.Worker.PriceCache.{PriceCache}
use promptmeter.Worker.Message.{prepare}
use promptmeter.Worker.Inserted.Identifiers.{IsUuidParser}

-- What is stored of a request: its strings as the queue carries them, and its time in milliseconds.
pub record IsRow {Uuid : Type 0} (parse : Str → Option Uuid) (parse_time : Str → Option Time)
    (coerce : Str → Str) (org_id : ℕ) (req : EventRequest) (row : EventRow Uuid) : Type 0 where
  pub id : parse req.idempotency_key ≡ some row.event_id
  pub org : row.org_id ≡ org_id
  pub time : (t : Time) × (parse_time req.timestamp ≡ some t) × (row.timestamp ≡ to_millis t)
  pub model : row.model ≡ coerce req.model
  pub provider : row.provider ≡ coerce req.provider
  pub prompt_tokens : some row.prompt_tokens ≡ req.prompt_tokens
  pub completion_tokens : some row.completion_tokens ≡ req.completion_tokens
  pub total_tokens : row.total_tokens ≡ (row.prompt_tokens + row.completion_tokens) % 2 ^ 32
  pub latency_ms : some row.latency_ms ≡ req.latency_ms
  pub status_code : some row.status_code ≡ req.status_code

-- A request, and the message that arrives for it.
abbrev pub Arrival : Type 0
Arrival = EventRequest × LlmEvent

module _ {Uuid : Type 0} (parse : Str → Option Uuid) (parse_time : Str → Option Time)
    (coerce : Str → Str) (org_id : ℕ) where
  -- One row for each request, in order.
  abbrev pub IsRows : List Arrival → List (EventRow Uuid) → Type 0
  IsRows [] [] = Unit
  IsRows (m ∷ ms) (row ∷ rows) = IsRow parse parse_time coerce org_id m.0 row × IsRows ms rows
  IsRows _ _ = ⊥

-- The API accepts the request, the queue has carried what it sends, and the time of the event lies in
-- the range of the table.
pub record IsAccepted (parse_time : Str → Option Time) (sha256_hex : Str → Str) (queue : Queue)
    (org_id : ℕ) (now inserted first last : Time) (m : Arrival) : Type 0 where
  pub good : IsAcceptable parse_time now m.0
  pub arrived : queue (build_proto_event parse_time sha256_hex org_id inserted m.0) ≡ some m.1
  pub timely : (t : Time) → parse_time m.0.timestamp ≡ some t → (first ≤ t) × (t ≤ last)

-- What the worker buffers for a message. The calendar is that of the location of the event's time.
abbrev pub event_of : Floats → (LlmEvent → Calendar) → PriceCache → Arrival → Event
event_of fl cal cache m = prepare fl (cal m.1) cache m.1

module _ {Uuid : Type 0} (parse : Str → Option Uuid) (parser : IsUuidParser parse)
    (parse_time : Str → Option Time) (sha256_hex coerce : Str → Str) (queue : Queue)
    (json : IsJson coerce queue) (fl : Floats) (cal : LlmEvent → Calendar) (cache : PriceCache)
    (org_id : ℕ) (now inserted first last : Time) where
  abbrev event : Arrival → Event
  event m = event_of fl cal cache m

  abbrev Accepted : Arrival → Type 0
  Accepted m = IsAccepted parse_time sha256_hex queue org_id now inserted first last m
