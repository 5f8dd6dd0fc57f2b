-- ===== src/Worker/BatchWriter/Delivery.antt =====
-- What the batch writer guarantees under every interleaving: no message is acknowledged before its
-- event is stored, nothing is lost, and every state can be drained.
use mathlib.Core.Path.{subst}
use promptmeter.Prelude.{
  ℕ, ◌+◌, ◌≡◌, inl, inr, refl, ap, ◌∙◌, Bool, true, false, some, List, [], ◌∷◌, arith, length,
  count, In, ◌==◌, Bool-cases,
}
use promptmeter.Domain.Event.{Event}
use promptmeter.Worker.BatchWriter.{BatchWriter, Batch, ℤ, take_batch, new_batch_writer}
use promptmeter.Worker.BatchWriter.Pipeline.{Pipeline, init, begin, succeed, Reach, here, next}
use promptmeter.Worker.BatchWriter.Entries.{
  Entry, pairs, events_of, flying, is_entry, In-of_count, count-of_In, In-ack_ids, In-events_of,
  count-events_of,
}
use promptmeter.Worker.BatchWriter.Soundness.{IsSound, init-IsSound, Reach-IsSound}

-- Some writer from `NewBatchWriter`, before any event.
abbrev pub start : ℤ → ℤ → Pipeline
start batch_size flush_interval = init (new_batch_writer batch_size flush_interval)

module _ (sizeof : ℕ) (batch_size flush_interval : ℤ) (p : Pipeline)
    (r : Reach sizeof (start batch_size flush_interval) p) where
  sound : IsSound sizeof p
  sound = Reach-IsSound sizeof r (init-IsSound sizeof batch_size flush_interval)

-- Whatever the interleaving of additions and flushes, and whichever insertions fail: a message whose
-- ack function has been called was received with an event that is stored.
pub acked-In_stored :
    (sizeof : ℕ) (batch_size flush_interval : ℤ) (p : Pipeline) (m : ℕ)
    → Reach sizeof (start batch_size flush_interval) p
    → In m p.acked
    → (e : Event) × In e p.stored × In (e, some m) p.received
acked-In_stored sizeof batch_size flush_interval p m r acked =
    let v = sound sizeof batch_size flush_interval p r in
    let (e, settled) = In-ack_ids m v.settled (subst (In m) v.acked acked) in
    (
      e,
      v.held e (In-events_of (e, some m) v.settled settled),
      In-of_count (e, some m) p.received
          (omega
            (arith, v.conserved (is_entry (e, some m)), count-of_In (e, some m) v.settled settled)),
    )

-- No buffered event, and no flush on its way.
pub record IsIdle (p : Pipeline) : Type 0 where
  pub buffer : p.writer.buffer ≡ []
  pub in_flight : p.in_flight ≡ []

-- In an idle state every event is stored as often as it was received, and once more for each time that
-- an insertion stored it and reported an error all the same: nothing is lost, and where no insertion
-- that failed has stored anything, nothing is doubled.
pub stored-count_received :
    (sizeof : ℕ) (batch_size flush_interval : ℤ) (p : Pipeline) (test : Event → Bool)
    → Reach sizeof (start batch_size flush_interval) p
    → IsIdle p
    → count test p.stored ≡ count test (events_of p.received) + count test p.strays
stored-count_received sizeof batch_size flush_interval p test r idle =
    let v = sound sizeof batch_size flush_interval p r in
    omega (
      arith,
      v.conserved (λ x. test x.0),
      ap (λ es. count (λ (x : Entry). test x.0) (pairs es p.writer.ack_funcs)) idle.buffer,
      ap (λ bs. count (λ (x : Entry). test x.0) (flying bs)) idle.in_flight,
      count-events_of test v.settled,
      count-events_of test p.received,
      v.stored test,
    )

-- What is left to insert can be inserted.
land_all :
    (sizeof : ℕ) (p : Pipeline) (bs : List Batch) (q : Pipeline)
    → Reach sizeof p q
    → q.in_flight ≡ bs
    → (z : Pipeline) × Reach sizeof p z
      × (z.in_flight ≡ [])
      × (z.received ≡ q.received)
      × (z.writer ≡ q.writer)
land_all sizeof p [] q r e = (q, r, e, refl, refl)
land_all sizeof p (b ∷ bs) q r e = land_all sizeof p bs _ (next r (succeed q b [] bs e)) refl

take_batch-some :
    (bw : BatchWriter)
    → (length bw.buffer == 0) ≡ false
    → take_batch bw
      ≡ some (
        record { events = bw.buffer; acks = bw.ack_funcs },
        record bw { buffer = []; ack_funcs = []; mem_bytes = 0 },
      )
unfolding take_batch
take_batch-some bw h = rw h

nil_of_length : {A : Type 0} (xs : List A) → (length xs == 0) ≡ true → xs ≡ []
nil_of_length [] h = refl
nil_of_length (x ∷ xs) h = absurd (ground arith)

-- From every state in which the writer can be found, flushes whose insertions succeed lead to an
-- idle state, with no further event received.
pub drains :
    (sizeof : ℕ) (p : Pipeline)
    → (q : Pipeline) × Reach sizeof p q × IsIdle q × (q.received ≡ p.received)
drains sizeof p =
    let (z, r, landed, same, writer) = land_all sizeof p p.in_flight p here refl in
    elim (Bool-cases (length z.writer.buffer == 0)) [
      | inl empty ↦
          (z, r, record { buffer = nil_of_length z.writer.buffer empty; in_flight = landed }, same)
      | inr more ↦
          let taken = next r (begin z _ _ (take_batch-some z.writer more)) in
          let (y, r', landed', same', writer') = land_all sizeof p _ _ taken refl in
          (y, r', record { buffer = ap (λ w. w.buffer) writer'; in_flight = landed' }, same' ∙ same)
    ]
