-- ===== src/Worker/Message/Stored.antt =====
-- What the worker buffers for an event that the API has accepted.
use mathlib.Core.Path.{subst}
use promptmeter.Prelude.{
  ℕ, ◌+◌, ◌%◌, ◌^◌, ◌≡◌, ◌≢◌, ◌⊎◌, ◌↔◌, inl, inr, refl, sym, ap, ◌∙◌, true, false, Option, none,
  some, [], Str, arith, Bool-cases,
}
use promptmeter.Domain.Floats.{Float64, Floats}
use promptmeter.Domain.Tags.{TagMap}
use promptmeter.Domain.Time.{Time}
use promptmeter.Domain.Event.{Event, S3Status, has_text}
use promptmeter.Domain.ObjectKey.{Calendar, s3_object_key}
use promptmeter.Ingestion.Request.{EventRequest}
use promptmeter.Ingestion.Wire.{LlmEvent, Queue, IsCoercion, IsCarried, IsJson}
use promptmeter.Ingestion.Build.{add_uint32, or_zero, build_proto_event}
use promptmeter.Worker.PriceCache.{PriceCache, calculate_cost}
use promptmeter.Worker.PriceCache.Latest.{calculate_cost-tags}
use promptmeter.Worker.Message.{prepare, proto_to_event, with_s3_status}

with_s3_status-keeps :
    (cal : Calendar) (e : Event)
    → with_s3_status cal e ≡ record e {
      s3_status = (with_s3_status cal e).s3_status;
      s3_key = (with_s3_status cal e).s3_key;
    }
unfolding with_s3_status
with_s3_status-keeps cal e = elim (Bool-cases (has_text e)) [
  | inl text ↦ rw text refl
  | inr plain ↦ rw plain refl
]

-- Pending, with the key of the object, exactly if there is a text.
abbrev pub IsMarked : Calendar → Event → Event → Type 0
IsMarked cal given e =
    ((has_text given ≡ true)
      × (e.s3_status ≡ S3Status.pending)
      × (e.s3_key ≡ s3_object_key cal given))
    ⊎ ((has_text given ≡ false) × (e.s3_status ≡ S3Status.none) × (e.s3_key ≡ given.s3_key))

with_s3_status-IsMarked : (cal : Calendar) (e : Event) → IsMarked cal e (with_s3_status cal e)
unfolding with_s3_status
with_s3_status-IsMarked cal e = elim (Bool-cases (has_text e)) [
  | inl text ↦ rw text (inl (refl, refl, refl))
  | inr plain ↦ rw plain (inr (refl, refl, refl))
]

module _ (fl : Floats) (cal : Calendar) (cache : PriceCache) (pb : LlmEvent) where
  -- Of a message the worker changes the cost, the total, the tags and the S3 fields, and nothing
  -- else. The total is the sum of the tokens as a uint32. Whatever status the message carries, the
  -- event is marked as pending, with the key of its object, exactly if it has a text.
  pub prepare_lem :
      let given = proto_to_event pb in
      let e = prepare fl cal cache pb in
      (e ≡ record given {
        cost_usd = (calculate_cost fl cache given).0;
        total_tokens = (given.prompt_tokens + given.completion_tokens) % 2 ^ 32;
        tags = (calculate_cost fl cache given).1.tags;
        s3_status = e.s3_status;
        s3_key = e.s3_key;
      })
      × IsMarked cal given e
  unfolding prepare has_text s3_object_key
  prepare_lem =
      let given = proto_to_event pb in
      let r = calculate_cost fl cache given in
      let same = calculate_cost-tags fl cache given in
      let charged : Event = record r.1 {
        cost_usd = r.0;
        total_tokens = add_uint32 r.1.prompt_tokens r.1.completion_tokens;
      } in
      let expected : Event = record given {
        cost_usd = r.0;
        total_tokens = add_uint32 given.prompt_tokens given.completion_tokens;
        tags = r.1.tags;
      } in
      let equal : charged ≡ expected =
        ap
          (λ (e : Event).
            let t : Event = record e {
              cost_usd = r.0;
              total_tokens = add_uint32 e.prompt_tokens e.completion_tokens;
            } in
            t)
          same in
      (
        with_s3_status-keeps cal charged
            ∙ ap
                (λ (e : Event).
                  let t : Event = record e {
                    s3_status = (with_s3_status cal charged).s3_status;
                    s3_key = (with_s3_status cal charged).s3_key;
                  } in
                  t)
                equal,
        subst (λ x. IsMarked cal x (prepare fl cal cache pb)) equal
            (with_s3_status-IsMarked cal charged),
      )

abbrev pub or_empty : Option Str → Str
or_empty none = []
or_empty (some t) = t

-- What the API sends of a request.
record IsBuilt (org_id : ℕ) (t : Time) (req : EventRequest) (pb : LlmEvent) : Type 0 where
  pub org : pb.org_id ≡ org_id
  pub key : pb.event_id ≡ req.idempotency_key
  pub time : pb.timestamp ≡ t
  pub model : pb.model ≡ req.model
  pub provider : pb.provider ≡ req.provider
  pub prompt_tokens : pb.prompt_tokens ≡ or_zero req.prompt_tokens
  pub completion_tokens : pb.completion_tokens ≡ or_zero req.completion_tokens
  pub latency_ms : pb.latency_ms ≡ or_zero req.latency_ms
  pub status_code : pb.status_code ≡ or_zero req.status_code
  pub prompt : pb.prompt ≡ or_empty req.prompt
  pub response : pb.response ≡ or_empty req.response

-- What the event table has to hold of a request, whose strings cross the queue.
pub record IsStored (coerce : Str → Str) (org_id : ℕ) (t : Time) (req : EventRequest) (e : Event)
    : Type 0 where
  pub org : e.org_id ≡ org_id
  pub key : e.event_id ≡ coerce req.idempotency_key
  pub time : e.timestamp ≡ t
  pub model : e.model ≡ coerce req.model
  pub provider : e.provider ≡ coerce req.provider
  pub prompt_tokens : e.prompt_tokens ≡ or_zero req.prompt_tokens
  pub completion_tokens : e.completion_tokens ≡ or_zero req.completion_tokens
  pub total_tokens :
      e.total_tokens ≡ (or_zero req.prompt_tokens + or_zero req.completion_tokens) % 2 ^ 32
  pub latency_ms : e.latency_ms ≡ or_zero req.latency_ms
  pub status_code : e.status_code ≡ or_zero req.status_code
  pub prompt : e.prompt ≡ coerce (or_empty req.prompt)
  pub response : e.response ≡ coerce (or_empty req.response)

-- The event waits for an upload exactly if it has a text.
abbrev pub IsPendingIfText : EventRequest → Event → Type 0
IsPendingIfText req e =
    (e.s3_status ≡ S3Status.pending) ↔ ((or_empty req.prompt ≢ []) ⊎ (or_empty req.response ≢ []))

module _ (parse_time : Str → Option Time) (sha256_hex : Str → Str) (org_id : ℕ) (inserted : Time)
    (req : EventRequest) (t : Time) (parsed : parse_time req.timestamp ≡ some t) where
  abbrev sent : LlmEvent
  sent = build_proto_event parse_time sha256_hex org_id inserted req

  sent-IsBuilt : IsBuilt org_id t req sent
  unfolding build_proto_event
  sent-IsBuilt = ground arith

proto_to_event-timestamp : (pb : LlmEvent) → (proto_to_event pb).timestamp ≡ pb.timestamp
unfolding proto_to_event
proto_to_event-timestamp pb = ground arith

module _ (coerce : Str → Str) (law : IsCoercion coerce) (org_id : ℕ) (t : Time) (req : EventRequest)
    (sent pb : LlmEvent) (built : IsBuilt org_id t req sent)
    (carried : IsCarried coerce sent pb) where
  carried-IsStored :
      (cost : Float64) (tags : Option TagMap) (status : S3Status) (key : Str)
      → IsStored coerce org_id t req (record (proto_to_event pb) {
        cost_usd = cost;
        total_tokens =
            ((proto_to_event pb).prompt_tokens + (proto_to_event pb).completion_tokens) % 2 ^ 32;
        tags = tags;
        s3_status = status;
        s3_key = key;
      })
  unfolding proto_to_event
  carried-IsStored cost tags status key = record {
    org = carried.org_id ∙ built.org;
    key = carried.event_id ∙ ap coerce built.key;
    time = proto_to_event-timestamp pb ∙ carried.timestamp ∙ built.time;
    model = carried.model ∙ ap coerce built.model;
    provider = carried.provider ∙ ap coerce built.provider;
    prompt_tokens = carried.prompt_tokens ∙ built.prompt_tokens;
    completion_tokens = carried.completion_tokens ∙ built.completion_tokens;
    total_tokens =
        ap (λ n. (n + pb.completion_tokens) % 2 ^ 32) (carried.prompt_tokens ∙ built.prompt_tokens)
        ∙ ap (λ n. (or_zero req.prompt_tokens + n) % 2 ^ 32)
            (carried.completion_tokens ∙ built.completion_tokens);
    latency_ms = carried.latency_ms ∙ built.latency_ms;
    status_code = carried.status_code ∙ built.status_code;
    prompt = carried.prompt ∙ ap coerce built.prompt;
    response = carried.response ∙ ap coerce built.response;
  }

  coerce-nil : (s : Str) → (coerce s ≡ []) ↔ (s ≡ [])
  coerce-nil s = (law.nonempty s, λ e. ap coerce e ∙ law.ascii [] tt)

  has_text_iff :
      (e : Event)
      → e.prompt ≡ coerce (or_empty req.prompt)
      → e.response ≡ coerce (or_empty req.response)
      → (has_text e ≡ true) ↔ ((or_empty req.prompt ≢ []) ⊎ (or_empty req.response ≢ []))
  unfolding has_text
  has_text_iff e p r =
      ground (arith, coerce-nil (or_empty req.prompt), coerce-nil (or_empty req.response))

marked_iff :
    (cal : Calendar) (given e : Event)
    → IsMarked cal given e
    → (e.s3_status ≡ S3Status.pending) ↔ (has_text given ≡ true)
marked_iff cal given e (inl h) = (λ _. h.0, λ _. h.1)
marked_iff cal given e (inr h) = (λ p. absurd (none-ne-pending (sym h.1 ∙ p)), λ p. cc)
  where
    none-ne-pending : ¬ (S3Status.none ≡ S3Status.pending)
    none-ne-pending e = cc

-- The event that the worker makes of the message that arrives for a request, once the queue has carried
-- it as JSON: it has the request's time, tokens, latency and status and the caller's organization; its
-- identifier, model, provider and texts are those of the request, coerced to valid UTF-8, as a text
-- that was cut within a character is not; its total is the sum of its tokens as a uint32, and it is
-- marked for an upload exactly if it has a text, so also not for a prompt that is present and empty.
pub prepare-IsStored :
    (fl : Floats) (cal : Calendar) (cache : PriceCache) (parse_time : Str → Option Time)
    (sha256_hex coerce : Str → Str) (queue : Queue) (org_id : ℕ) (inserted : Time)
    (req : EventRequest) (t : Time) (pb : LlmEvent)
    → IsJson coerce queue
    → parse_time req.timestamp ≡ some t
    → queue (build_proto_event parse_time sha256_hex org_id inserted req) ≡ some pb
    → IsStored coerce org_id t req (prepare fl cal cache pb)
      × IsPendingIfText req (prepare fl cal cache pb)
prepare-IsStored fl cal cache parse_time sha256_hex coerce queue org_id inserted req t pb json
      parsed arrived =
    let e = prepare fl cal cache pb in
    let given = proto_to_event pb in
    let (same, marked) = prepare_lem fl cal cache pb in
    let (to, from) = marked_iff cal given e marked in
    let sent = build_proto_event parse_time sha256_hex org_id inserted req in
    let stored =
      carried-IsStored coerce json.coercion org_id t req sent pb
        (sent-IsBuilt parse_time sha256_hex org_id inserted req t parsed)
        (json.carried sent pb arrived) in
    let of_given = stored given.cost_usd given.tags given.s3_status given.s3_key in
    let (text_to, text_from) =
      has_text_iff coerce json.coercion org_id t req sent pb
        (sent-IsBuilt parse_time sha256_hex org_id inserted req t parsed)
        (json.carried sent pb arrived) given of_given.prompt of_given.response in
    (
      subst (IsStored coerce org_id t req) (sym same) (
          stored (calculate_cost fl cache given).0 (calculate_cost fl cache given).1.tags
            e.s3_status e.s3_key),
      (λ p. text_to (to p), λ h. from (text_from h)),
    )
