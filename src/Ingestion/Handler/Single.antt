-- ===== src/Ingestion/Handler/Single.antt =====
-- The answers to a single event, and their agreement with those to a batch of one.
use promptmeter.Prelude.{
  ℕ, ◌≡◌, ◌≢◌, refl, Bool, true, false, Option, none, some, List, [], ◌∷◌, Str, lit, arith,
  Bool-cases, inl, inr, str_eq, str_eq_iff, ◌↔◌,
}
use promptmeter.Domain.OrgId.{org_id_to_uint64}
use promptmeter.Ingestion.Request.{FieldError, EventRequest}
use promptmeter.Ingestion.Validation.{validate_event}
use promptmeter.Ingestion.Validation.Accepts.{IsAcceptable, validate_event_iff}
use promptmeter.Ingestion.Handler.{
  Env, Reply, status_of, build, handle_event, handle_valid, publish_reply,
}

module _ {S : Type 0} (env : Env S) where
  not-cons : {e : FieldError} {errs : List FieldError} → ¬ (e ∷ errs ≡ [])
  not-cons h = cc

  handle_valid_iff :
      (errs : List FieldError) (org_id : ℕ) (req : EventRequest) (s : S)
      → (status_of (handle_valid env errs org_id req s).0 ≡ 202)
        ↔ ((errs ≡ []) × ((env.publish s org_id (build env org_id 0 req)).0 ≡ true))
  unfolding status_of handle_valid publish_reply
  handle_valid_iff [] org_id req s = ground arith
  handle_valid_iff (e ∷ errs) org_id req s = (λ h. absurd (omega arith), λ h. absurd (not-cons h.0))

  -- The publication that an acceptable event asks for.
  abbrev pub published : Str → EventRequest → S → Bool × S
  published org_id req s =
      let (errs, kept) = validate_event env.parse_time (env.now 0) req in
      env.publish s (org_id_to_uint64 org_id) (build env (org_id_to_uint64 org_id) 0 kept)

  not_post : (method : Str) → str_eq method (lit "POST") ≡ false → ¬ (method ≡ lit "POST")
  not_post method other same = ground (arith, (str_eq_iff method (lit "POST")).1 same)

  -- The part of the handler behind the test of the method.
  abbrev answer : Str → Option EventRequest → S → Reply × S
  answer org_id decoded s = elim decoded [
    | none ↦ (Reply.bad_body, s)
    | some req ↦
        let (errs, kept) = validate_event env.parse_time (env.now 0) req in
        handle_valid env errs (org_id_to_uint64 org_id) kept s
  ]

  posted :
      (method org_id : Str) (decoded : Option EventRequest) (s : S)
      → method ≡ lit "POST"
      → (status_of (answer org_id decoded s).0 ≡ 202) ↔ (
          (req : EventRequest) × (method ≡ lit "POST")
          × (decoded ≡ some req)
          × IsAcceptable env.parse_time (env.now 0) req
          × ((published org_id req s).0 ≡ true))
  unfolding status_of
  posted method org_id none s post = (λ h. absurd (omega arith), λ h. cc)
  posted method org_id (some req) s post =
      let v = validate_event env.parse_time (env.now 0) req in
      let (to, from) = handle_valid_iff v.0 (org_id_to_uint64 org_id) v.1 s in
      (
        λ h.
            let (clean, done) = to h in
            (req, post, refl, (validate_event_iff env.parse_time (env.now 0) req).0 clean, done),
        λ h.
            let same : req ≡ h.0 = cc in
            from ((validate_event_iff env.parse_time (env.now 0) req).1 (rw same h.3), rw same h.4),
      )

  handle_valid_refused :
      (errs : List FieldError) (org_id : ℕ) (req : EventRequest) (s : S)
      → status_of (handle_valid env errs org_id req s).0 ≢ 202
      → status_of (handle_valid env errs org_id req s).0 ≢ 503
      → (handle_valid env errs org_id req s).1 ≡ s
  unfolding handle_valid publish_reply status_of
  handle_valid_refused [] org_id req s h k = absurd (ground arith)
  handle_valid_refused (e ∷ errs) org_id req s h k = refl

  posted_refused :
      (org_id : Str) (decoded : Option EventRequest) (s : S)
      → status_of (answer org_id decoded s).0 ≢ 202
      → status_of (answer org_id decoded s).0 ≢ 503
      → (answer org_id decoded s).1 ≡ s
  posted_refused org_id none s h k = refl
  posted_refused org_id (some req) s h k =
      let v = validate_event env.parse_time (env.now 0) req in
      handle_valid_refused v.0 (org_id_to_uint64 org_id) v.1 s h k

  -- A single event is answered by 202 exactly when it came by POST, its body was decoded, it meets
  -- every demand of the validator, and its publication succeeded.
  pub handle_event_iff :
      (method org_id : Str) (decoded : Option EventRequest) (s : S)
      → (status_of (handle_event env method org_id decoded s).0 ≡ 202) ↔ (
          (req : EventRequest) × (method ≡ lit "POST")
          × (decoded ≡ some req)
          × IsAcceptable env.parse_time (env.now 0) req
          × ((published org_id req s).0 ≡ true))
  unfolding handle_event status_of
  handle_event_iff method org_id decoded s = elim (Bool-cases (str_eq method (lit "POST"))) [
    | inr other ↦ rw other (λ h. absurd (omega arith), λ h. absurd (not_post method other h.1))
    | inl post ↦ rw post (posted method org_id decoded s ((str_eq_iff method (lit "POST")).0 post))
  ]

  -- Whatever the answer but 202 and 503, nothing has been published.
  pub handle_event-refused :
      (method org_id : Str) (decoded : Option EventRequest) (s : S)
      → status_of (handle_event env method org_id decoded s).0 ≢ 202
      → status_of (handle_event env method org_id decoded s).0 ≢ 503
      → (handle_event env method org_id decoded s).1 ≡ s
  unfolding handle_event
  handle_event-refused method org_id decoded s = elim (Bool-cases (str_eq method (lit "POST"))) [
    | inr other ↦ rw other (λ h k. refl)
    | inl post ↦ rw post (posted_refused org_id decoded s)
  ]
