-- ===== src/Worker/BatchWriter/Soundness.antt =====
-- The invariant of the batch writer under every interleaving of its critical sections.
use mathlib.Core.Path.{subst}
use promptmeter.Prelude.{
  ℕ, ◌+◌, ◌≡◌, ◌∙◌, In, In-append, In-append-left, In-append-right, inl, inr, refl, ap, Bool,
  Option, none, some, List, [], ◌∷◌, ◌++◌, arith, length, length-append, sum_by, sum_by-append,
  count, count-append, All, All-append, ◌==◌, Bool-cases,
}
use promptmeter.Domain.Time.{Time}
use promptmeter.Domain.Event.{Event}
use promptmeter.Worker.BatchWriter.{
  BatchWriter, Ack, Batch, ℤ, add, take_batch, put_back, ack_ids, estimate_event_size,
  new_batch_writer,
}
use promptmeter.Worker.BatchWriter.Pipeline.{
  Pipeline, init, Step, receive, begin, succeed, fail, Reach, here, next,
}
use promptmeter.Worker.BatchWriter.Entries.{
  Entry, pairs, events_of, acks_of, flying, IsAligned, pairs-append, events_of-pairs, acks_of-pairs,
  events_of-append, acks_of-append, ack_ids-append, count-flying, count-flying-concat,
}

-- The entries in the buffer.
abbrev pub waiting : Pipeline → List Entry
waiting p = pairs p.writer.buffer p.writer.ack_funcs

-- `settled` are the entries whose insertion has succeeded.
pub record IsSound (sizeof : ℕ) (p : Pipeline) : Type 0 where
  pub aligned : length p.writer.buffer ≡ length p.writer.ack_funcs
  pub flights_aligned : All IsAligned p.in_flight
  pub measured : p.writer.mem_bytes ≡ sum_by (estimate_event_size sizeof) p.writer.buffer
  pub settled : List Entry
  pub stored :
      (test : Event → Bool)
      → count test p.stored ≡ count test (events_of settled) + count test p.strays
  pub held : (e : Event) → In e (events_of settled) → In e p.stored
  pub acked : p.acked ≡ ack_ids (acks_of settled)
  pub conserved :
      (test : Entry → Bool)
      → count test p.received
        ≡ count test (waiting p) + count test (flying p.in_flight) + count test settled

take_batch-eq-some :
    (bw w : BatchWriter) (b : Batch)
    → take_batch bw ≡ some (b, w)
    → (b ≡ record { events = bw.buffer; acks = bw.ack_funcs })
      × (w ≡ record bw { buffer = []; ack_funcs = []; mem_bytes = 0 })
unfolding take_batch
take_batch-eq-some bw w b h = elim (Bool-cases (length bw.buffer == 0)) [
  | inl empty ↦ absurd (nothing (rw empty at h))
  | inr more ↦ taken (rw more at h)
]
  where
    nothing : ¬ (◌≡◌ {A = Option (Batch × BatchWriter)} none (some (b, w)))
    nothing e = cc

    taken :
        ◌≡◌ {A = Option (Batch × BatchWriter)}
          (some (
            record { events = bw.buffer; acks = bw.ack_funcs },
            record bw { buffer = []; ack_funcs = []; mem_bytes = 0 },
          ))
          (some (b, w))
        → (b ≡ record { events = bw.buffer; acks = bw.ack_funcs })
          × (w ≡ record bw { buffer = []; ack_funcs = []; mem_bytes = 0 })
    taken e = (cc, cc)

settled_events :
    (settled : List Entry) (b : Batch)
    → IsAligned b
    → events_of (settled ++ pairs b.events b.acks) ≡ events_of settled ++ b.events
settled_events settled b this =
    events_of-append settled (pairs b.events b.acks)
    ∙ ap (λ l. events_of settled ++ l) (events_of-pairs b.events b.acks this)

All-middle :
    {A : Type 0} (P : A → Type 0) (xs ys : List A) (b : A)
    → All P (xs ++ b ∷ ys)
    → P b × All P (xs ++ ys)
All-middle P [] ys b h = h
All-middle P (x ∷ xs) ys b h = let (p, r) = All-middle P xs ys b h.1 in (p, (h.0, r))

pub init-IsSound :
    (sizeof : ℕ) (batch_size flush_interval : ℤ)
    → IsSound sizeof (init (new_batch_writer batch_size flush_interval))
unfolding new_batch_writer
init-IsSound sizeof batch_size flush_interval = record {
  aligned = refl;
  flights_aligned = tt;
  measured = refl;
  settled = [];
  stored = λ test. refl;
  held = λ e none_yet. none_yet;
  acked = unfold ack_ids in refl;
  conserved = λ test. refl;
}

module _ (sizeof : ℕ) where
  receive-IsSound :
      (p : Pipeline) (start now : Time) (e : Event) (ack : Ack)
      → IsSound sizeof p
      → IsSound sizeof (record p {
        writer = (add sizeof start now e ack p.writer).0;
        received = p.received ++ (e, ack) ∷ [];
      })
  unfolding add
  receive-IsSound p start now e ack v = record {
    aligned = omega (
      arith,
      v.aligned,
      length-append {0} p.writer.buffer (e ∷ []),
      length-append {0} p.writer.ack_funcs (ack ∷ []),
    );
    flights_aligned = v.flights_aligned;
    measured = omega (
      arith,
      v.measured,
      sum_by-append {0} (estimate_event_size sizeof) p.writer.buffer (e ∷ []),
    );
    settled = v.settled;
    stored = v.stored;
    held = v.held;
    acked = v.acked;
    conserved = λ test.
        rw (pairs-append p.writer.buffer p.writer.ack_funcs (e ∷ []) (ack ∷ []) v.aligned) (
          omega (
            arith,
            v.conserved test,
            count-append test (waiting p) ((e, ack) ∷ []),
            count-append test p.received ((e, ack) ∷ []),
          ));
  }

  begin-IsSound :
      (p : Pipeline) (b : Batch) (bw : BatchWriter)
      → take_batch p.writer ≡ some (b, bw)
      → IsSound sizeof p
      → IsSound sizeof (record p { writer = bw; in_flight = p.in_flight ++ b ∷ [] })
  begin-IsSound p b bw taken v =
      let (eb, ew) = take_batch-eq-some p.writer bw b taken in
      rw (eb, ew)
        (record {
          aligned = refl;
          flights_aligned = All-append IsAligned p.in_flight _ v.flights_aligned (v.aligned, tt);
          measured = refl;
          settled = v.settled;
          stored = v.stored;
          held = v.held;
          acked = v.acked;
          conserved = λ test. omega (
            arith,
            v.conserved test,
            count-flying-concat test p.in_flight
                (record { events = p.writer.buffer; acks = p.writer.ack_funcs }),
          );
        })

  succeed-IsSound :
      (p : Pipeline) (b : Batch) (xs ys : List Batch)
      → p.in_flight ≡ xs ++ b ∷ ys
      → IsSound sizeof p
      → IsSound sizeof (record p {
        in_flight = xs ++ ys;
        stored = p.stored ++ b.events;
        acked = p.acked ++ ack_ids b.acks;
      })
  succeed-IsSound p b xs ys e v =
      let (this, others) =
        All-middle IsAligned xs ys b (subst (All IsAligned) e v.flights_aligned) in
      record {
        aligned = v.aligned;
        flights_aligned = others;
        measured = v.measured;
        settled = v.settled ++ pairs b.events b.acks;
        stored = λ test. omega (
          arith,
          v.stored test,
          count-append test p.stored b.events,
          ap (count test) (settled_events v.settled b this),
          count-append test (events_of v.settled) b.events,
        );
        held = λ e h.
            elim (In-append e (events_of v.settled) b.events
              (subst (In e) (settled_events v.settled b this) h)) [
                | inl before ↦ In-append-left e p.stored b.events (v.held e before)
                | inr now ↦ In-append-right e p.stored b.events now
              ];
        acked =
            rw
              (
                acks_of-append v.settled (pairs b.events b.acks),
                acks_of-pairs b.events b.acks this,
                ack_ids-append (acks_of v.settled) b.acks,
              )
              (ap (λ l. l ++ ack_ids b.acks) v.acked);
        conserved = λ test. omega (
          arith,
          v.conserved test,
          ap (λ l. count test (flying l)) e,
          count-flying test xs ys b,
          count-append test v.settled (pairs b.events b.acks),
        );
      }

  fail-IsSound :
      (p : Pipeline) (b : Batch) (xs ys : List Batch) (kept : List Event)
      → p.in_flight ≡ xs ++ b ∷ ys
      → IsSound sizeof p
      → IsSound sizeof (record p {
        in_flight = xs ++ ys;
        writer = put_back sizeof b p.writer;
        stored = p.stored ++ kept;
        strays = p.strays ++ kept;
      })
  unfolding put_back
  fail-IsSound p b xs ys kept e v =
      let (this, others) =
        All-middle IsAligned xs ys b (subst (All IsAligned) e v.flights_aligned) in
      record {
        aligned = omega (
          arith,
          v.aligned,
          this,
          length-append {0} b.events p.writer.buffer,
          length-append {0} b.acks p.writer.ack_funcs,
        );
        flights_aligned = others;
        measured = omega (
          arith,
          v.measured,
          sum_by-append {0} (estimate_event_size sizeof) b.events p.writer.buffer,
        );
        settled = v.settled;
        stored = λ test. omega (
          arith,
          v.stored test,
          count-append test p.stored kept,
          count-append test p.strays kept,
        );
        held = λ x h. In-append-left x p.stored kept (v.held x h);
        acked = v.acked;
        conserved = λ test.
            rw (pairs-append b.events b.acks p.writer.buffer p.writer.ack_funcs this) (
              omega (
                arith,
                v.conserved test,
                ap (λ l. count test (flying l)) e,
                count-flying test xs ys b,
                count-append test (pairs b.events b.acks) (waiting p),
              ));
      }

  Step-IsSound : {p q : Pipeline} → Step sizeof p q → IsSound sizeof p → IsSound sizeof q
  Step-IsSound (receive p start now e ack) v = receive-IsSound p start now e ack v
  Step-IsSound (begin p b bw taken) v = begin-IsSound p b bw taken v
  Step-IsSound (succeed p b xs ys e) v = succeed-IsSound p b xs ys e v
  Step-IsSound (fail p b xs ys kept e part) v = fail-IsSound p b xs ys kept e v

  pub Reach-IsSound : {p q : Pipeline} → Reach sizeof p q → IsSound sizeof p → IsSound sizeof q
  Reach-IsSound here v = v
  Reach-IsSound (next r st) v = Step-IsSound st (Reach-IsSound r v)
