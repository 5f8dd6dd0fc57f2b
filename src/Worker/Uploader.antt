-- ===== src/Worker/Uploader.antt =====
-- server/internal/worker/s3uploader.go: the upload of texts to the object store, and
-- `GetPendingS3Events` of server/internal/storage/clickhouse.go, which feeds the reconciler.
pub mod Reconcile
use promptmeter.Prelude.{
  ℕ, suc, Bool, true, false, Option, none, some, List, [], ◌∷◌, ◌++◌, Str, length, ltb, map,
  if◌then◌else◌,
}
use promptmeter.Domain.Floats.{Float64}
use promptmeter.Domain.Time.{Time, zero_time}
use promptmeter.Domain.Tags.{TagMap}
use promptmeter.Domain.Event.{Event, S3Status}
use promptmeter.Domain.ObjectKey.{Calendar, s3_object_key}

abbrev pub queue_capacity : ℕ
queue_capacity = 1000

-- Enqueue: a full queue drops the event.
unfoldable pub enqueue : Event → List Event → List Event
enqueue e queue = if ltb (length queue) queue_capacity then queue ++ e ∷ [] else queue

-- s3Payload
pub record Payload : Type 0 where
  pub version : ℕ
  pub event_id : Str
  pub prompt : Str
  pub response : Str
  pub prompt_tokens : ℕ
  pub completion_tokens : ℕ

unfoldable pub payload_of : Event → Payload
payload_of e = record {
  version = 1;
  event_id = e.event_id;
  prompt = e.prompt;
  response = e.response;
  prompt_tokens = e.prompt_tokens;
  completion_tokens = e.completion_tokens;
}

-- A row of the events table, as far as the query of the reconciler selects it. It has no column for
-- the texts.
pub record PendingRow : Type 0 where
  pub org_id : ℕ
  pub event_id : Str
  pub project_id : Str
  pub timestamp : Time
  pub model : Str
  pub provider : Str
  pub prompt_tokens : ℕ
  pub completion_tokens : ℕ
  pub total_tokens : ℕ
  pub cost_usd : Float64
  pub latency_ms : ℕ
  pub status_code : ℕ
  pub tags : TagMap
  pub prompt_hash : Str
  pub s3_key : Str
  pub s3_status : S3Status

-- The event that rows.Scan fills, from Go's zero value.
unfoldable pub scan_pending : PendingRow → Event
scan_pending row = record {
  org_id = row.org_id;
  event_id = row.event_id;
  project_id = row.project_id;
  timestamp = row.timestamp;
  inserted_at = zero_time;
  model = row.model;
  provider = row.provider;
  prompt_tokens = row.prompt_tokens;
  completion_tokens = row.completion_tokens;
  total_tokens = row.total_tokens;
  cost_usd = row.cost_usd;
  latency_ms = row.latency_ms;
  status_code = row.status_code;
  tags = some row.tags;
  prompt = [];
  response = [];
  prompt_hash = row.prompt_hash;
  s3_key = row.s3_key;
  s3_status = row.s3_status;
  schema_version = 0;
}

-- The object store and the event table, in one state. `upload` and `update_status` report success by
-- `true`; `pending` is the query for at most so many rows, `none` if it fails; `has_pending_store`
-- is false where the uploader was made without an event table.
pub record Stores (S : Type 0) : Type 0 where
  pub upload : S → Str → Payload → Bool × S
  pub has_pending_store : Bool
  pub update_status : S → Str → S3Status → Str → Bool × S
  pub pending : S → ℕ → Option (List PendingRow)

-- The calendar is that of the location of the times in the events: for an event from the queue the one
-- that its timestamp was sent with, for a row of the table the one in which the driver gives times.
module _ {S : Type 0} (st : Stores S) (cal : Calendar) where
  -- What follows an upload; a status that cannot be updated is only logged.
  after_upload : Event → Str → Bool × S → Bool × S
  after_upload e key (false, s) = (false, s)
  after_upload e key (true, s) =
      if st.has_pending_store
      then (true, (st.update_status s e.event_id S3Status.uploaded key).1)
      else (true, s)

  -- uploadEvent: true if it returns no error.
  unfoldable pub upload_event : Event → S → Bool × S
  unfolding after_upload payload_of
  upload_event e s =
      let key = s3_object_key cal e in after_upload e key (st.upload s key (payload_of e))

  -- doUpload: the error is only logged.
  unfoldable pub do_upload : Event → S → S
  unfolding upload_event
  do_upload e s = (upload_event e s).1

  -- The loop of processUploads, which takes what the queue holds.
  unfoldable pub process_uploads : List Event → S → S
  unfolding do_upload
  process_uploads [] s = s
  process_uploads (e ∷ queue) s = process_uploads queue (do_upload e s)

  -- The loop of reconcile.
  reconcile_rows : List PendingRow → S → S
  unfolding upload_event scan_pending
  reconcile_rows [] s = s
  reconcile_rows (row ∷ rows) s = reconcile_rows rows (upload_event (scan_pending row) s).1

  -- One tick of the reconciler.
  unfoldable pub reconcile : S → S
  unfolding reconcile_rows
  reconcile s =
      if st.has_pending_store
      then elim (st.pending s 100) [ none ↦ s | some rows ↦ reconcile_rows rows s ]
      else s
