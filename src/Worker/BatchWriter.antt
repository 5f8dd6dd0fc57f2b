-- ===== src/Worker/BatchWriter.antt =====
-- server/internal/worker/batchwriter.go: the buffer of events in front of the event store.
pub mod Flush
pub mod Pipeline
pub mod Entries
pub mod Soundness
pub mod Delivery
use promptmeter.Prelude.{
  ℕ, zero, suc, ◌+◌, ◌*◌, Bool, true, false, not, ◌&&◌, ◌||◌, Option, none, some, List, [], ◌∷◌,
  ◌++◌, Str, length, sum_by, leb, ◌==◌, if◌then◌else◌, is_empty,
}
use promptmeter.Domain.Time.{Time, zero_time, Duration}
use promptmeter.Domain.Tags.{TagMap}
use promptmeter.Domain.Event.{Event}

-- A Go int or int64; `negsuc n` is -(n + 1).
pub data ℤ : Type 0 where
  pos : ℕ → ℤ
  negsuc : ℕ → ℤ

-- An ack function, by the number of its message; a nil function is `none`.
abbrev pub Ack : Type 0
Ack = Option ℕ

-- `writer` and `logger` are parameters.
pub record BatchWriter : Type 0 where
  pub batch_size : ℕ
  pub flush_interval : Duration
  pub max_mem_bytes : ℕ
  pub buffer : List Event
  pub mem_bytes : ℕ
  pub first_at : Time
  pub ack_funcs : List Ack

-- A setting that is not positive is replaced.
or_default : ℤ → ℕ → ℕ
or_default (ℤ.pos zero) d = d
or_default (ℤ.pos (suc n)) d = suc n
or_default (ℤ.negsuc n) d = d

unfoldable pub new_batch_writer : ℤ → ℤ → BatchWriter
unfolding or_default
new_batch_writer batch_size flush_interval = record {
  batch_size = or_default batch_size 10000;
  flush_interval = or_default flush_interval 5000000000;
  max_mem_bytes = 50 * 1024 * 1024;
  buffer = [];
  mem_bytes = 0;
  first_at = zero_time;
  ack_funcs = [];
}

unfoldable pub tags_size : Option TagMap → ℕ
tags_size none = 0
tags_size (some m) = sum_by (λ kv. length kv.0 + length kv.1) m

-- `sizeof` is unsafe.Sizeof of the event's struct, which the platform decides.
unfoldable pub estimate_event_size : ℕ → Event → ℕ
unfolding tags_size
estimate_event_size sizeof e =
    sizeof
    + (length e.event_id
        + length e.model
        + length e.provider
        + length e.prompt
        + length e.response
        + length e.s3_key
        + length e.prompt_hash)
    + tags_size e.tags

unfoldable pub should_flush : Time → BatchWriter → Bool
should_flush now bw =
    leb bw.batch_size (length bw.buffer)
    || leb bw.max_mem_bytes bw.mem_bytes
    || (not (bw.first_at == zero_time) && leb (bw.first_at + bw.flush_interval) now)

module _ (sizeof : ℕ) where
  -- Add: `start` and `now` are the two readings of the clock.
  unfoldable pub add : Time → Time → Event → Ack → BatchWriter → BatchWriter × Bool
  unfolding should_flush
  add start now event ack bw =
      let bw' : BatchWriter = record bw {
        first_at = if length bw.buffer == 0 then start else bw.first_at;
        buffer = bw.buffer ++ event ∷ [];
        ack_funcs = bw.ack_funcs ++ ack ∷ [];
        mem_bytes = bw.mem_bytes + estimate_event_size sizeof event;
      } in
      (bw', should_flush now bw')

-- The batch that one call of Flush carries between its two critical sections.
pub record Batch : Type 0 where
  pub events : List Event
  pub acks : List Ack

-- Flush, its first critical section: nothing to do, or the batch and what is left of the buffer.
unfoldable pub take_batch : BatchWriter → Option (Batch × BatchWriter)
take_batch bw =
    if length bw.buffer == 0
    then none
    else some (
      record { events = bw.buffer; acks = bw.ack_funcs },
      record bw { buffer = []; ack_funcs = []; mem_bytes = 0 },
    )

-- Flush, its second critical section, after InsertEvents has failed.
unfoldable pub put_back : ℕ → Batch → BatchWriter → BatchWriter
put_back sizeof b bw = record bw {
  buffer = b.events ++ bw.buffer;
  ack_funcs = b.acks ++ bw.ack_funcs;
  mem_bytes = bw.mem_bytes + sum_by (estimate_event_size sizeof) b.events;
}

-- The messages whose ack functions are called after InsertEvents has succeeded.
unfoldable pub ack_ids : List Ack → List ℕ
ack_ids [] = []
ack_ids (none ∷ acks) = ack_ids acks
ack_ids (some m ∷ acks) = m ∷ ack_ids acks

-- What a call of Flush leaves: whether it succeeded, the writer, the event store and the messages
-- whose ack functions it has called, in order.
pub record Flushed (S : Type 0) : Type 0 where
  pub ok : Bool
  pub writer : BatchWriter
  pub store : S
  pub acked : List ℕ

-- `insert_events` is the event store's InsertEvents, true on success.
module _ {S : Type 0} (insert_events : S → List Event → Bool × S) (sizeof : ℕ) where
  finish_flush : Batch → BatchWriter → Bool × S → Flushed S
  unfolding put_back ack_ids
  finish_flush b bw (true, s) = record { ok = true; writer = bw; store = s; acked = ack_ids b.acks }
  finish_flush b bw (false, s) = record {
    ok = false;
    writer = put_back sizeof b bw;
    store = s;
    acked = [];
  }

  -- Flush, when nothing else uses the writer between its two critical sections.
  unfoldable pub flush : BatchWriter → S → Flushed S
  unfolding take_batch finish_flush
  flush bw s = elim (take_batch bw) [
    | none ↦ record { ok = true; writer = bw; store = s; acked = [] }
    | some (b, bw') ↦ finish_flush b bw' (insert_events s b.events)
  ]

-- BufferLen
unfoldable pub buffer_len : BatchWriter → ℕ
buffer_len bw = length bw.buffer
