-- ===== src/Ingestion/Tests.antt =====
-- The properties of the ingestion API at concrete inputs.
use promptmeter.Prelude.{◌+◌, ◌≡◌, ◌↔◌, true, none, some, [], ◌∷◌, lit, arith, length, str_eq}
use promptmeter.Domain.OrgId.{org_id_to_uint64}
use promptmeter.Ingestion.Request.{EventRequest, BatchRequest}
use promptmeter.Ingestion.Validation.{validate_event, max_prompt_bytes, max_response_bytes}
use promptmeter.Ingestion.Validation.Accepts.{
  IsAcceptable, IsCut, validate_event_iff, validate_event-IsCut,
}
use promptmeter.Ingestion.Handler.{Reply, status_of, handle_event, handle_batch}
use promptmeter.Ingestion.Handler.Single.{published, handle_event_iff, handle_event-refused}
use promptmeter.Ingestion.Handler.Batch.{
  publish_all, valid_events, errors_of, handle_batch-publish_all,
}
use promptmeter.Ingestion.Samples.{sample_request, bad_request, sample_parse, sample_env}

validate_event_iff_example :
    ((validate_event sample_parse 200 sample_request).0 ≡ [])
    ↔ IsAcceptable sample_parse 200 sample_request
validate_event_iff_example = validate_event_iff sample_parse 200 sample_request

validate_event-IsCut_example :
    ((validate_event sample_parse 200 sample_request).1 ≡ record sample_request {
      prompt = (validate_event sample_parse 200 sample_request).1.prompt;
      response = (validate_event sample_parse 200 sample_request).1.response;
    })
    × IsCut max_prompt_bytes sample_request.prompt
        (validate_event sample_parse 200 sample_request).1.prompt
    × IsCut max_response_bytes sample_request.response
        (validate_event sample_parse 200 sample_request).1.response
    × ((validate_event sample_parse 200 sample_request).0
        ≡ (validate_event sample_parse 200
            (record sample_request { prompt = none; response = none })).0)
validate_event-IsCut_example = validate_event-IsCut sample_parse 200 sample_request

abbrev two_events : BatchRequest
two_events = record { events = bad_request ∷ sample_request ∷ [] }

handle_batch-publish_all_example :
    let org = org_id_to_uint64 (lit "7") in
    let (n, s) = publish_all sample_env org (valid_events sample_env org 0 two_events.events) 0 in
    let errors = errors_of sample_env org 0 two_events.events 0 in
    (handle_batch sample_env (lit "POST") (lit "7") (some two_events) 0
      ≡ (Reply.accepted n (length errors) errors, s))
    × (n + length errors ≡ 2)
handle_batch-publish_all_example =
    handle_batch-publish_all sample_env (lit "7") two_events 0 (omega arith) (omega arith)

handle_event_iff_example :
    (status_of (handle_event sample_env (lit "POST") (lit "7") (some sample_request) 0).0 ≡ 202) ↔ (
      (req : EventRequest) × (lit "POST" ≡ lit "POST")
      × (some sample_request ≡ some req)
      × IsAcceptable sample_parse 200 req
      × ((published sample_env (lit "7") req 0).0 ≡ true))
handle_event_iff_example =
    handle_event_iff sample_env (lit "POST") (lit "7") (some sample_request) 0

handle_event-refused_example : (handle_event sample_env (lit "GET") (lit "7") none 0).1 ≡ 0
unfolding handle_event str_eq status_of
handle_event-refused_example =
    handle_event-refused sample_env (lit "GET") (lit "7") none 0 (omega arith) (omega arith)
