-- ===== src/Worker/BatchWriter/Pipeline.antt =====
-- The batch writer under concurrent use: NATS handlers add events while flushes, started by a
-- handler, by the ticker or at shutdown, run between their two critical sections.
use promptmeter.Prelude.{ℕ, ◌≡◌, ◌≤◌, Bool, some, List, [], ◌∷◌, ◌++◌, count}
use promptmeter.Domain.Time.{Time}
use promptmeter.Domain.Event.{Event}
use promptmeter.Worker.BatchWriter.{BatchWriter, Ack, Batch, add, take_batch, put_back, ack_ids}

-- `in_flight` holds the batches that Flush calls have taken; `received` is what Add has been given,
-- `stored` the rows that insertions have left in the table, before any merge, `strays` those of them
-- that are left by an insertion that reported an error, `acked` the messages whose ack function was
-- called.
pub record Pipeline : Type 0 where
  pub writer : BatchWriter
  pub in_flight : List Batch
  pub received : List (Event × Ack)
  pub stored : List Event
  pub strays : List Event
  pub acked : List ℕ

abbrev pub init : BatchWriter → Pipeline
init bw = record {
  writer = bw;
  in_flight = [];
  received = [];
  stored = [];
  strays = [];
  acked = [];
}

-- Some of the events of a batch, none more often than there.
abbrev pub IsPart : List Event → List Event → Type 0
IsPart kept events = (test : Event → Bool) → count test kept ≤ count test events

-- One critical section, or one insertion with what follows it. An insertion that succeeds has stored
-- its whole batch. One that reports an error may have stored nothing, or a part of the batch, as
-- ClickHouse commits each partition by itself, or all of it, if only the answer was lost.
pub data Step (sizeof : ℕ) : Pipeline → Pipeline → Type 0 where
  receive :
      (p : Pipeline) (start now : Time) (e : Event) (ack : Ack)
      → Step sizeof p (record p {
        writer = (add sizeof start now e ack p.writer).0;
        received = p.received ++ (e, ack) ∷ [];
      })
  begin :
      (p : Pipeline) (b : Batch) (bw : BatchWriter)
      → take_batch p.writer ≡ some (b, bw)
      → Step sizeof p (record p { writer = bw; in_flight = p.in_flight ++ b ∷ [] })
  succeed :
      (p : Pipeline) (b : Batch) (xs ys : List Batch)
      → p.in_flight ≡ xs ++ b ∷ ys
      → Step sizeof p (record p {
        in_flight = xs ++ ys;
        stored = p.stored ++ b.events;
        acked = p.acked ++ ack_ids b.acks;
      })
  fail :
      (p : Pipeline) (b : Batch) (xs ys : List Batch) (kept : List Event)
      → p.in_flight ≡ xs ++ b ∷ ys
      → IsPart kept b.events
      → Step sizeof p (record p {
        in_flight = xs ++ ys;
        writer = put_back sizeof b p.writer;
        stored = p.stored ++ kept;
        strays = p.strays ++ kept;
      })

pub data Reach (sizeof : ℕ) (p : Pipeline) : Pipeline → Type 0 where
  here : Reach sizeof p p
  next : {q r : Pipeline} → Reach sizeof p q → Step sizeof q r → Reach sizeof p r
