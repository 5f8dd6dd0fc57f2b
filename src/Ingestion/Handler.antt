-- ===== src/Ingestion/Handler.antt =====
-- `HandleEvent` and `HandleBatch` of server/internal/ingestion/handler.go.
pub mod Single
pub mod Batch
use promptmeter.Prelude.{
  ℕ, suc, ◌+◌, Bool, true, false, Option, none, some, List, [], ◌∷◌, ◌++◌, Str, lit, not, str_eq,
  if◌then◌else◌, is_empty,
}
use promptmeter.Domain.OrgId.{org_id_to_uint64}
use promptmeter.Domain.Time.{Time}
use promptmeter.Ingestion.Request.{FieldError, EventRequest, BatchRequest}
use promptmeter.Ingestion.Validation.{validate_event, validate_batch}
use promptmeter.Ingestion.Wire.{LlmEvent}
use promptmeter.Ingestion.Build.{build_proto_event}

-- What the handlers are given: the queue's publisher, which reports success by `true`, the time
-- parser and the digest of the standard library, and the clock's readings.
pub record Env (S : Type 0) : Type 0 where
  pub publish : S → ℕ → LlmEvent → Bool × S
  pub parse_time : Str → Option Time
  pub sha256_hex : Str → Str
  -- time.Now() of the validator and of the builder, for the event with this index
  pub now : ℕ → Time
  pub inserted_at : ℕ → Time

pub data EventCause : Type 0 where
  invalid : FieldError → EventCause
  not_enqueued : EventCause

pub record EventError : Type 0 where
  pub index : ℕ
  pub idempotency_key : Str
  pub cause : EventCause

-- The answers: an error with its status, or what was accepted (202).
pub data Reply : Type 0 where
  method_not_allowed bad_body unavailable : Reply
  bad_fields : List FieldError → Reply
  accepted : (accepted rejected : ℕ) → List EventError → Reply

-- The HTTP status of an answer.
unfoldable pub status_of : Reply → ℕ
status_of Reply.method_not_allowed = 405
status_of Reply.bad_body = 400
status_of (Reply.bad_fields errs) = 400
status_of Reply.unavailable = 503
status_of (Reply.accepted a r errs) = 202

pub record Tally : Type 0 where
  pub accepted : ℕ
  pub rejected : ℕ
  pub errors : List EventError

abbrev pub no_events_yet : Tally
no_events_yet = record { accepted = 0; rejected = 0; errors = [] }

reject : ℕ → Str → EventCause → Tally → Tally
reject i key cause t = record t {
  rejected = t.rejected + 1;
  errors = t.errors ++ record { index = i; idempotency_key = key; cause = cause } ∷ [];
}

accept : Tally → Tally
accept t = record t { accepted = t.accepted + 1 }

module _ {S : Type 0} (env : Env S) (org_id : ℕ) where
  pub build : ℕ → EventRequest → LlmEvent
  build i req = build_proto_event env.parse_time env.sha256_hex org_id (env.inserted_at i) req

  -- The publication of an event that passed the checks.
  batch_publish : ℕ → EventRequest → Tally → S → Tally × S
  unfolding accept reject
  batch_publish i req t s =
      let (done, s') = env.publish s org_id (build i req) in
      (if done then accept t else reject i req.idempotency_key EventCause.not_enqueued t, s')

  -- One round of the loop over the events of a batch.
  batch_round : List FieldError → ℕ → EventRequest → Tally → S → Tally × S
  unfolding batch_publish reject
  batch_round [] i req t s = batch_publish i req t s
  batch_round (e ∷ _) i req t s = (reject i req.idempotency_key (EventCause.invalid e) t, s)

  pub batch_loop : ℕ → List EventRequest → Tally → S → Tally × S
  batch_loop i [] t s = (t, s)
  batch_loop i (req ∷ reqs) t s =
      let (errs, kept) = validate_event env.parse_time (env.now i) req in
      let (t', s') = batch_round errs i kept t s in batch_loop (suc i) reqs t' s'

module _ {S : Type 0} (env : Env S) where
  publish_reply : Bool → Reply
  publish_reply true = Reply.accepted 1 0 []
  publish_reply false = Reply.unavailable

  handle_valid : List FieldError → ℕ → EventRequest → S → Reply × S
  unfolding publish_reply build
  handle_valid (e ∷ errs) org_id req s = (Reply.bad_fields (e ∷ errs), s)
  handle_valid [] org_id req s =
      let (done, s') = env.publish s org_id (build env org_id 0 req) in (publish_reply done, s')

  -- `decoded` is what the JSON decoder makes of the body, `none` if it fails.
  unfoldable pub handle_event : Str → Str → Option EventRequest → S → Reply × S
  unfolding handle_valid
  handle_event method org_id decoded s =
      if not (str_eq method (lit "POST")) then (Reply.method_not_allowed, s) else elim decoded [
        | none ↦ (Reply.bad_body, s)
        | some req ↦
            let (errs, kept) = validate_event env.parse_time (env.now 0) req in
            handle_valid errs (org_id_to_uint64 org_id) kept s
      ]

  tally_reply : Tally × S → Reply × S
  tally_reply (t, s) = (Reply.accepted t.accepted t.rejected t.errors, s)

  handle_checked : List FieldError → ℕ → BatchRequest → S → Reply × S
  unfolding tally_reply batch_loop batch_round
  handle_checked (e ∷ errs) org_id req s = (Reply.bad_fields (e ∷ errs), s)
  handle_checked [] org_id req s = tally_reply (batch_loop env org_id 0 req.events no_events_yet s)

  unfoldable pub handle_batch : Str → Str → Option BatchRequest → S → Reply × S
  unfolding handle_checked
  handle_batch method org_id decoded s =
      if not (str_eq method (lit "POST")) then (Reply.method_not_allowed, s) else elim decoded [
        | none ↦ (Reply.bad_body, s)
        | some req ↦ handle_checked (validate_batch req) (org_id_to_uint64 org_id) req s
      ]
