-- ===== src/Worker/BatchWriter/Flush.antt =====
-- Add and Flush when one goroutine runs: the buffer's bookkeeping, and what each call leaves.
use mathlib.Core.List.{append-nil}
use promptmeter.Prelude.{
  ℕ, zero, suc, ◌<◌, ◌≡◌, inl, inr, refl, sym, ap, ◌∙◌, Bool, true, false, List, [], ◌∷◌, arith,
  length, sum_by, ◌==◌, if◌then◌else◌, Bool-cases,
}
use promptmeter.Domain.Time.{Time}
use promptmeter.Domain.Event.{Event}
use promptmeter.Worker.BatchWriter.{
  BatchWriter, Batch, Flushed, take_batch, put_back, ack_ids, flush, finish_flush,
  estimate_event_size, new_batch_writer, ℤ,
}

-- Every buffered event has its ack function, and the byte count is that of the buffer.
pub record IsValid (sizeof : ℕ) (bw : BatchWriter) : Type 0 where
  pub aligned : length bw.buffer ≡ length bw.ack_funcs
  pub measured : bw.mem_bytes ≡ sum_by (estimate_event_size sizeof) bw.buffer
  pub sized : 0 < bw.batch_size

new_batch_writer-IsValid :
    (sizeof : ℕ) (batch_size flush_interval : ℤ)
    → IsValid sizeof (new_batch_writer batch_size flush_interval)
unfolding new_batch_writer
new_batch_writer-IsValid sizeof (ℤ.pos zero) i = omega arith
new_batch_writer-IsValid sizeof (ℤ.pos (suc n)) i = omega arith
new_batch_writer-IsValid sizeof (ℤ.negsuc n) i = omega arith

nil_of_length : {A : Type 0} (xs : List A) → length xs ≡ 0 → xs ≡ []
nil_of_length [] h = refl
nil_of_length (x ∷ xs) h = absurd (omega arith)

module _ {S : Type 0} (insert_events : S → List Event → Bool × S) (sizeof : ℕ)
    (bw : BatchWriter) where
  -- What a flush leaves of the writer and calls, for an insertion that succeeds or fails.
  pub record IsOutcome (ok : Bool) (r : Flushed S) : Type 0 where
    pub buffer : r.writer.buffer ≡ (if ok then [] else bw.buffer)
    pub ack_funcs : r.writer.ack_funcs ≡ (if ok then [] else bw.ack_funcs)
    pub mem_bytes : r.writer.mem_bytes ≡ (if ok then 0 else bw.mem_bytes)
    pub acked : r.acked ≡ (if ok then ack_ids bw.ack_funcs else [])

  abbrev taken : Batch
  taken = record { events = bw.buffer; acks = bw.ack_funcs }

  abbrev emptied : BatchWriter
  emptied = record bw { buffer = []; ack_funcs = []; mem_bytes = 0 }

  finish_flush-IsOutcome :
      (r : Bool × S)
      → IsValid sizeof bw
      → IsValid sizeof (finish_flush insert_events sizeof taken emptied r).writer
        × IsOutcome r.0 (finish_flush insert_events sizeof taken emptied r)
  unfolding finish_flush put_back
  finish_flush-IsOutcome (true, s) v = (
    omega (arith, v.sized),
    record { buffer = refl; ack_funcs = refl; mem_bytes = refl; acked = refl },
  )
  finish_flush-IsOutcome (false, s) v = (
    record {
      aligned = rw (append-nil bw.buffer, append-nil bw.ack_funcs) v.aligned;
      measured = rw (append-nil bw.buffer) (omega (arith, v.measured));
      sized = v.sized;
    },
    record {
      buffer = append-nil _;
      ack_funcs = append-nil _;
      mem_bytes = omega (arith, v.measured);
      acked = refl;
    },
  )

  -- Of an empty buffer either outcome leaves the same.
  unchanged-IsOutcome :
      (ok : Bool) (s : S)
      → bw.buffer ≡ []
      → bw.ack_funcs ≡ []
      → bw.mem_bytes ≡ 0
      → IsOutcome ok (record { ok = true; writer = bw; store = s; acked = [] })
  unfolding ack_ids
  unchanged-IsOutcome true s events acks bytes = record {
    buffer = events;
    ack_funcs = acks;
    mem_bytes = bytes;
    acked = sym (ap ack_ids acks);
  }
  unchanged-IsOutcome false s events acks bytes = record {
    buffer = refl;
    ack_funcs = refl;
    mem_bytes = refl;
    acked = refl;
  }

  finished-ok : (r : Bool × S) → (finish_flush insert_events sizeof taken emptied r).ok ≡ r.0
  unfolding finish_flush
  finished-ok (true, s) = refl
  finished-ok (false, s) = refl

  finished-store : (r : Bool × S) → (finish_flush insert_events sizeof taken emptied r).store ≡ r.1
  unfolding finish_flush
  finished-store (true, s) = refl
  finished-store (false, s) = refl

  flush_lem :
      (s : S)
      → flush insert_events sizeof bw s ≡ (
          if length bw.buffer == 0
          then record { ok = true; writer = bw; store = s; acked = [] }
          else finish_flush insert_events sizeof taken emptied (insert_events s bw.buffer))
  unfolding flush take_batch
  flush_lem s = elim (Bool-cases (length bw.buffer == 0)) [
    | inl empty ↦ rw (empty, flush, take_batch) refl
    | inr some_events ↦ rw (some_events, flush, take_batch) refl
  ]

  -- A flush keeps the bookkeeping, and what it leaves is decided by the insertion of the whole buffer.
  -- If that succeeds, so does the flush, the buffer is empty and every ack function is called, in
  -- order. If it fails, the flush fails, buffer, ack functions and byte count are what they were, and
  -- none is called. The store is what the one insertion leaves; of an empty buffer there is none, and
  -- the flush succeeds.
  pub flush-IsOutcome :
      (s : S)
      → IsValid sizeof bw
      → let r = flush insert_events sizeof bw s in
        let (inserted, s') = insert_events s bw.buffer in
        IsValid sizeof r.writer
        × IsOutcome inserted r
        × (r.ok ≡ (if length bw.buffer == 0 then true else inserted))
        × (r.store ≡ (if length bw.buffer == 0 then s else s'))
  flush-IsOutcome s v = rw (flush_lem s) (elim (Bool-cases (length bw.buffer == 0)) [
    | inl empty ↦
        let events : bw.buffer ≡ [] = nil_of_length bw.buffer (ground arith) in
        let acks : bw.ack_funcs ≡ [] = nil_of_length bw.ack_funcs (ground (arith, v.aligned)) in
        let bytes : bw.mem_bytes ≡ 0 =
          v.measured ∙ ap (sum_by (estimate_event_size sizeof)) events in
        rw empty
          (v, unchanged-IsOutcome (insert_events s bw.buffer).0 s events acks bytes, refl, refl)
    | inr some_events ↦ rw some_events (
        let r = insert_events s bw.buffer in
        let (valid, outcome) = finish_flush-IsOutcome r v in
        (valid, outcome, finished-ok r, finished-store r))
  ])
