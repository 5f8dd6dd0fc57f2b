-- ===== src/Worker/Message.antt =====
-- `protoToEvent` and `handleMessage` of server/internal/worker/worker.go.
pub mod Stored
pub mod Handled
use promptmeter.Prelude.{
  ℕ, ◌+◌, ◌%◌, ◌^◌, Bool, true, false, not, Option, none, some, List, [], Str, ◌==◌, if◌then◌else◌,
}
use promptmeter.Domain.Floats.{Floats}
use promptmeter.Domain.Time.{Time, zero_time}
use promptmeter.Domain.Event.{Event, S3Status, has_text}
use promptmeter.Domain.ObjectKey.{Calendar, s3_object_key}
use promptmeter.Ingestion.Wire.{LlmEvent}
use promptmeter.Ingestion.Build.{add_uint32}
use promptmeter.Worker.PriceCache.{PriceCache, calculate_cost}
use promptmeter.Worker.BatchWriter.{BatchWriter, Ack, add}
use promptmeter.Worker.Uploader.{enqueue}

unfoldable pub status_of_wire : ℕ → S3Status
status_of_wire n =
    if n == 1 then S3Status.pending else if n == 2 then S3Status.uploaded else S3Status.none

unfoldable pub proto_to_event : LlmEvent → Event
unfolding status_of_wire
proto_to_event pb = record {
  org_id = pb.org_id;
  event_id = pb.event_id;
  project_id = pb.project_id;
  timestamp = if not (pb.timestamp == zero_time) then pb.timestamp else zero_time;
  inserted_at = if not (pb.inserted_at == zero_time) then pb.inserted_at else zero_time;
  model = pb.model;
  provider = pb.provider;
  prompt_tokens = pb.prompt_tokens;
  completion_tokens = pb.completion_tokens;
  total_tokens = pb.total_tokens;
  cost_usd = pb.cost_usd;
  latency_ms = pb.latency_ms;
  status_code = pb.status_code;
  tags = elim pb.tags [ none ↦ some [] | some m ↦ some m ];
  prompt = pb.prompt;
  response = pb.response;
  prompt_hash = pb.prompt_hash;
  s3_key = pb.s3_key;
  s3_status = status_of_wire pb.s3_status;
  schema_version = pb.schema_version;
}

-- The parts of Worker that a message changes.
pub record Worker : Type 0 where
  pub price_cache : PriceCache
  pub batch_writer : BatchWriter
  pub upload_queue : List Event

-- The calendar, here and below, is that of the location that the time of the message carries.
with_s3_status : Calendar → Event → Event
with_s3_status cal e =
    if has_text e
    then record e { s3_status = S3Status.pending; s3_key = s3_object_key cal e }
    else record e { s3_status = S3Status.none }

module _ (fl : Floats) (cal : Calendar) where
  -- What becomes of a message before it is buffered.
  unfoldable pub prepare : PriceCache → LlmEvent → Event
  unfolding with_s3_status proto_to_event
  prepare cache pb =
      let (cost, event) = calculate_cost fl cache (proto_to_event pb) in
      with_s3_status cal (record event {
        cost_usd = cost;
        total_tokens = add_uint32 event.prompt_tokens event.completion_tokens;
      })

module _ (fl : Floats) (cal : Calendar) (sizeof : ℕ) where
  -- handleMessage: true if it starts a flush of its own.
  unfoldable pub handle_message : Time → Time → LlmEvent → Ack → Worker → Bool × Worker
  unfolding prepare
  handle_message start now pb ack w =
      let event = prepare fl cal w.price_cache pb in
      let (bw, should_flush) = add sizeof start now event ack w.batch_writer in
      (
        should_flush,
        record w {
          batch_writer = bw;
          upload_queue = if has_text event then enqueue event w.upload_queue else w.upload_queue;
        },
      )
