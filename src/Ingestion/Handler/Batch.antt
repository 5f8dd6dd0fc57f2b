-- ===== src/Ingestion/Handler/Batch.antt =====
-- What a batch publishes, and how its answer counts.
use mathlib.Core.List.{append-nil, append_assoc}
use promptmeter.Prelude.{
  ℕ, suc, ◌+◌, ◌≤◌, ◌≡◌, ◌≢◌, refl, sym, ap, ◌∙◌, inl, inr, Bool-cases, some, List, [], ◌∷◌, ◌++◌,
  Str, lit, arith, length, length-append, if◌then◌else◌, str_eq_refl,
}
use promptmeter.Domain.OrgId.{org_id_to_uint64}
use promptmeter.Ingestion.Request.{FieldError, EventRequest, BatchRequest}
use promptmeter.Ingestion.Validation.{validate_event, validate_batch, max_batch_size}
use promptmeter.Ingestion.Wire.{LlmEvent}
use promptmeter.Ingestion.Handler.{
  Env, EventCause, EventError, Reply, Tally, no_events_yet, reject, accept, build, batch_publish,
  batch_round, batch_loop, handle_batch, handle_checked, tally_reply,
}

module _ {S : Type 0} (env : Env S) (org_id : ℕ) where
  -- The specification: publish a list of events in order, and count the successes.
  abbrev pub publish_all : List LlmEvent → S → ℕ × S
  publish_all [] s = (0, s)
  publish_all (e ∷ es) s =
      let (done, s') = env.publish s org_id e in
      let (n, s'') = publish_all es s' in ((if done then 1 else 0) + n, s'')

  abbrev kept_if_valid : List FieldError → ℕ → EventRequest → List LlmEvent
  kept_if_valid [] i req = build env org_id i req ∷ []
  kept_if_valid (e ∷ errs) i req = []

  -- The events of a batch that pass the checks, in order, as they are built.
  abbrev pub valid_events : ℕ → List EventRequest → List LlmEvent
  valid_events i [] = []
  valid_events i (req ∷ reqs) =
      let (errs, kept) = validate_event env.parse_time (env.now i) req in
      kept_if_valid errs i kept ++ valid_events (suc i) reqs

  abbrev error_of : List FieldError → ℕ → EventRequest → S → List EventError
  error_of (e ∷ errs) i req s =
      record { index = i; idempotency_key = req.idempotency_key; cause = EventCause.invalid e } ∷ []
  error_of [] i req s =
      if (env.publish s org_id (build env org_id i req)).0
      then []
      else record {
        index = i;
        idempotency_key = req.idempotency_key;
        cause = EventCause.not_enqueued;
      }
        ∷ []

  -- The errors of a batch, in order: for an event that fails the checks its place, its identifier and
  -- the first of its errors, and for one whose publication fails that it was not enqueued.
  abbrev pub errors_of : ℕ → List EventRequest → S → List EventError
  errors_of i [] s = []
  errors_of i (req ∷ reqs) s =
      let (errs, kept) = validate_event env.parse_time (env.now i) req in
      error_of errs i kept s ++ errors_of (suc i) reqs (publish_all (kept_if_valid errs i kept) s).1

  abbrev Adds : ℕ → ℕ → List EventError → Tally → Tally → Type 0
  Adds n done errors t t' =
      (t'.accepted ≡ t.accepted + done)
      × (t'.accepted + t'.rejected ≡ t.accepted + t.rejected + n)
      × (t'.rejected ≡ t.rejected + length errors)
      × (t'.errors ≡ t.errors ++ errors)

  batch_publish-Adds :
      (i : ℕ) (req : EventRequest) (t : Tally) (s : S)
      → Adds 1
          (publish_all (build env org_id i req ∷ []) s).0
          (error_of [] i req s)
          t
          (batch_publish env org_id i req t s).0
  unfolding batch_publish accept reject
  batch_publish-Adds i req t s =
      elim (Bool-cases (env.publish s org_id (build env org_id i req)).0) [
        | inl done ↦ rw done (omega arith, omega arith, omega arith, sym (append-nil t.errors))
        | inr lost ↦ rw lost (omega arith, omega arith, omega arith, refl)
      ]

  batch_round-Adds :
      (errs : List FieldError) (i : ℕ) (req : EventRequest) (t : Tally) (s : S)
      → Adds 1
          (publish_all (kept_if_valid errs i req) s).0
          (error_of errs i req s)
          t
          (batch_round env org_id errs i req t s).0
        × ((batch_round env org_id errs i req t s).1 ≡ (publish_all (kept_if_valid errs i req) s).1)
  unfolding batch_round batch_publish reject
  batch_round-Adds [] i req t s = (batch_publish-Adds i req t s, refl)
  batch_round-Adds (e ∷ errs) i req t s = ((omega arith, omega arith, omega arith, refl), refl)

  publish_all-append :
      (xs ys : List LlmEvent) (s : S)
      → ((publish_all (xs ++ ys) s).0
          ≡ (publish_all xs s).0 + (publish_all ys (publish_all xs s).1).0)
        × ((publish_all (xs ++ ys) s).1 ≡ (publish_all ys (publish_all xs s).1).1)
  publish_all-append [] ys s = (omega arith, refl)
  publish_all-append (e ∷ xs) ys s =
      let s' = (env.publish s org_id e).1 in
      (omega (arith, (publish_all-append xs ys s').0), (publish_all-append xs ys s').1)

  batch_loop-Adds :
      (i : ℕ) (reqs : List EventRequest) (t : Tally) (s : S)
      → Adds
          (length reqs)
          (publish_all (valid_events i reqs) s).0
          (errors_of i reqs s)
          t
          (batch_loop env org_id i reqs t s).0
        × ((batch_loop env org_id i reqs t s).1 ≡ (publish_all (valid_events i reqs) s).1)
  unfolding batch_loop
  batch_loop-Adds i [] t s =
      ((omega arith, omega arith, omega arith, sym (append-nil t.errors)), refl)
  batch_loop-Adds i (req ∷ reqs) t s =
      let v = validate_event env.parse_time (env.now i) req in
      let errs = error_of v.0 i v.1 s in
      let (adds, same) = batch_round-Adds v.0 i v.1 t s in
      let r = batch_round env org_id v.0 i v.1 t s in
      let (later, same') = batch_loop-Adds (suc i) reqs r.0 r.1 in
      let (joined, end) =
        publish_all-append (kept_if_valid v.0 i v.1) (valid_events (suc i) reqs) s in
      let moved : publish_all (valid_events (suc i) reqs) r.1
          ≡ publish_all (valid_events (suc i) reqs) (publish_all (kept_if_valid v.0 i v.1) s).1 =
        ap (publish_all (valid_events (suc i) reqs)) same in
      let rest = ap (errors_of (suc i) reqs) same in
      (
        (
          omega (arith, adds.0, later.0, joined, ap (λ p. p.0) moved),
          omega (arith, adds.1, later.1),
          omega (
            arith,
            adds.2,
            later.2,
            ap (λ l. length l) rest,
            length-append errs (errors_of (suc i) reqs (publish_all (kept_if_valid v.0 i v.1) s).1),
          ),
          later.3
              ∙ ap (λ l. l ++ errors_of (suc i) reqs r.1) adds.3
              ∙ append_assoc t.errors errs (errors_of (suc i) reqs r.1)
              ∙ ap (λ l. t.errors ++ (errs ++ l)) rest,
        ),
        cc,
      )

-- A batch of 1 to 500 events that arrives by POST is answered by 202. It publishes exactly the events
-- that pass validation, each once and in order, also behind events that are rejected or whose
-- publication fails. `accepted` counts the publications that succeeded, `rejected` the errors, and
-- both together every event. The errors are, in order, one for each event that was not accepted, with
-- its place in the batch and its identifier: the first error of one that fails validation, or that it
-- was not enqueued.
pub handle_batch-publish_all :
    {S : Type 0} (env : Env S) (org_id : Str) (req : BatchRequest) (s : S)
    → length req.events ≢ 0
    → length req.events ≤ max_batch_size
    → let org = org_id_to_uint64 org_id in
      let (n, s') = publish_all env org (valid_events env org 0 req.events) s in
      let errors = errors_of env org 0 req.events s in
      (handle_batch env (lit "POST") org_id (some req) s
        ≡ (Reply.accepted n (length errors) errors, s'))
      × (n + length errors ≡ length req.events)
unfolding handle_batch handle_checked tally_reply validate_batch
handle_batch-publish_all env org_id req s some_events few =
    let (adds, same) = batch_loop-Adds env (org_id_to_uint64 org_id) 0 req.events no_events_yet s in
    (
      ground (arith, str_eq_refl (lit "POST"), adds.0, adds.2, adds.3, same),
      omega (arith, adds.0, adds.1, adds.2),
    )
