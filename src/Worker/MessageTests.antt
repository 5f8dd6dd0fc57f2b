-- ===== src/Worker/MessageTests.antt =====
-- The properties of the worker's messages and of its reconciler at concrete inputs.
use promptmeter.Prelude.{
  ◌≤◌, ◌<◌, ◌≡◌, ◌⊎◌, inl, refl, true, false, Option, none, some, [], ◌∷◌, ◌++◌, Str, lit, str_eq,
  if◌then◌else◌,
}
use promptmeter.Domain.Event.{Event, S3Status, has_text}
use promptmeter.Domain.ObjectKey.{s3_object_key}
use promptmeter.Domain.Samples.{sample_calendar, sample_floats}
use promptmeter.Ingestion.Build.{build_proto_event}
use promptmeter.Ingestion.Wire.{LlmEvent}
use promptmeter.Ingestion.Samples.{sample_request, sample_parse, plain_queue, plain_queue-IsJson}
use promptmeter.Worker.BatchWriter.{ℤ, new_batch_writer}
use promptmeter.Worker.PriceCache.{PriceCache}
use promptmeter.Worker.Message.{Worker, prepare, handle_message}
use promptmeter.Worker.Message.Stored.{IsStored, IsPendingIfText, prepare-IsStored}
use promptmeter.Worker.Message.Handled.{handle_message_lem}
use promptmeter.Worker.Uploader.{
  Payload, PendingRow, Stores, queue_capacity, scan_pending, payload_of, reconcile,
}
use promptmeter.Worker.Uploader.Reconcile.{IsObjectStore, IsBlank, reconcile-IsBlank}

abbrev no_prices : PriceCache
no_prices = record { prices = [] }

abbrev sample_message : LlmEvent
sample_message = build_proto_event sample_parse (λ s. s) 7 210 sample_request

prepare-IsStored_example :
    IsStored
      (λ s. s)
      7
      100
      sample_request
      (prepare sample_floats sample_calendar no_prices sample_message)
    × IsPendingIfText sample_request
        (prepare sample_floats sample_calendar no_prices sample_message)
prepare-IsStored_example =
    prepare-IsStored sample_floats sample_calendar no_prices sample_parse (λ s. s) (λ s. s)
      plain_queue 7 210 sample_request 100 sample_message plain_queue-IsJson refl refl

abbrev idle_worker : Worker
idle_worker = record {
  price_cache = no_prices;
  batch_writer = new_batch_writer (ℤ.pos 2) (ℤ.pos 5);
  upload_queue = [];
}

abbrev prepared : Event
prepared = prepare sample_floats sample_calendar no_prices sample_message

abbrev busy_worker : Worker
busy_worker =
    (handle_message sample_floats sample_calendar 300 10 11 sample_message (some 7) idle_worker).1

handle_message_lem_example :
    (busy_worker.batch_writer.buffer ≡ idle_worker.batch_writer.buffer ++ prepared ∷ [])
    × (busy_worker.batch_writer.ack_funcs ≡ idle_worker.batch_writer.ack_funcs ++ some 7 ∷ [])
    × (busy_worker.price_cache ≡ no_prices)
    × (((has_text prepared ≡ true)
          × (0 < queue_capacity)
          × (busy_worker.upload_queue ≡ prepared ∷ []))
        ⊎ (((has_text prepared ≡ false) ⊎ (queue_capacity ≤ 0)) × (busy_worker.upload_queue ≡ [])))
handle_message_lem_example =
    handle_message_lem sample_floats sample_calendar 300 10 11 sample_message (some 7) idle_worker

abbrev sample_row : PendingRow
sample_row = record {
  org_id = 7;
  event_id = lit "e1";
  project_id = [];
  timestamp = 100;
  model = lit "gpt";
  provider = lit "openai";
  prompt_tokens = 3;
  completion_tokens = 4;
  total_tokens = 7;
  cost_usd = 0;
  latency_ms = 9;
  status_code = 200;
  tags = [];
  prompt_hash = lit "h";
  s3_key = [];
  s3_status = S3Status.pending;
}

-- An object store that is a function, and a table with one row.
abbrev sample_stores : Stores (Str → Option Payload)
sample_stores = record {
  upload = λ s k p. (true, λ j. if str_eq k j then some p else s j);
  has_pending_store = true;
  update_status = λ s id status k. (true, s);
  pending = λ s n. some (sample_row ∷ []);
}

sample_stores-IsObjectStore : IsObjectStore sample_stores (λ s k. s k)
sample_stores-IsObjectStore = record { put = λ s k j p h. refl; apart = λ s id status k j. refl }

-- The event of the row, with its text, which has been uploaded.
abbrev uploaded_event : Event
uploaded_event = record (scan_pending sample_row) { prompt = lit "hi" }

-- The bucket with the text.
abbrev with_text : Str → Option Payload
with_text k =
    if str_eq (s3_object_key sample_calendar uploaded_event) k
    then some (payload_of uploaded_event)
    else none

reconcile-IsBlank_example : IsBlank (
    reconcile sample_stores sample_calendar with_text
      (s3_object_key sample_calendar uploaded_event))
unfolding scan_pending
reconcile-IsBlank_example =
    reconcile-IsBlank sample_stores sample_calendar sample_calendar (λ s k. s k) with_text
      (sample_row ∷ []) sample_row uploaded_event sample_stores-IsObjectStore (λ s k p. refl) refl
      refl (inl refl)
      (record { org_id = refl; event_id = refl; year = refl; month = refl; day = refl })
