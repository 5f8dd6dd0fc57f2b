-- ===== src/Dashboard/AnswerTests.antt =====
-- The handlers of the dashboard's queries, at concrete inputs.
use promptmeter.Prelude.{
  false, ◌≡◌, refl, true, none, some, [], Str, lit, str_eq, arith, if◌then◌else◌,
}
use promptmeter.Domain.Samples.{sample_floats}
use promptmeter.Storage.Samples.{CacheState, held_cache, held_cache-IsCache}
use promptmeter.Storage.Reader.{Ask}
use promptmeter.Storage.Reader.FilterValues.{get_cost_filters}
use promptmeter.Dashboard.CacheKey.Shared.{all-IsColonFree}
use promptmeter.Dashboard.Params.{Request}
use promptmeter.Dashboard.Answers.{Reply}
use promptmeter.Dashboard.Plans.{Libraries}
use promptmeter.Dashboard.Plans.Costs.{Endpoint, handle}
use promptmeter.Dashboard.Plans.Cached.{handle-hit, handle-apart}
use promptmeter.Dashboard.Plans.Exchanged.{filtered, handle-exchange}
use promptmeter.Storage.Reader.Breakdown.{get_cost_breakdown, get_cost_by_model}

abbrev sample_libraries : Libraries
sample_libraries = record {
  fl = sample_floats;
  sha256 = λ s. s;
  load_location = λ s. true;
  parse_time = λ s. some 5;
  format_time = λ t. lit "t";
  seconds_between = λ a b. 0;
  abs = λ x. x;
}

abbrev request_of : Str → Request
request_of org = record {
  get = λ name. if str_eq name (lit "period") then lit "30d" else [];
  org_id = org;
  org_numeric = 7;
}

-- A database without rows, and one that fails.
abbrev no_rows : Ask
no_rows q = some (record { yielded = []; fails = false })

abbrev broken : Ask
broken q = none

abbrev empty_state : CacheState
empty_state k = none

handle-hit_example :
    (handle sample_libraries held_cache
      (λ t p. lit "other")
      Endpoint.filters
      (request_of (lit "o"))
      broken
      20
      (handle sample_libraries held_cache
        (λ t p. lit "body")
        Endpoint.filters
        (request_of (lit "o"))
        no_rows
        10
        empty_state).1).0
    ≡ Reply.hit (lit "body")
unfolding handle get_cost_filters
handle-hit_example =
    handle-hit held_cache held_cache-IsCache (λ t p. lit "body") (λ t p. lit "other") 10 20
      sample_libraries Endpoint.filters (request_of (lit "o")) no_rows broken empty_state _
      (lit "body") (λ k ttl. refl) (omega arith) refl

handle-apart_example :
    (handle sample_libraries held_cache
      (λ t p. lit "body")
      Endpoint.filters
      (request_of (lit "oo"))
      broken
      20
      (handle sample_libraries held_cache
        (λ t p. lit "body")
        Endpoint.cost
        (request_of (lit "o"))
        no_rows
        10
        empty_state).1).0
    ≡ (handle sample_libraries held_cache
        (λ t p. lit "body")
        Endpoint.filters
        (request_of (lit "oo"))
        broken
        20
        empty_state).0
handle-apart_example =
    handle-apart held_cache held_cache-IsCache (λ t p. lit "body") sample_libraries 10 20
      Endpoint.cost Endpoint.filters (request_of (lit "o")) (request_of (lit "oo")) no_rows broken
      empty_state (all-IsColonFree (lit "o") refl) (all-IsColonFree (lit "oo") refl)
      (λ e. absurd (cc)) (λ k body ttl. refl) (omega arith)

handle-exchange_example :
    (handle sample_libraries held_cache
      (λ t p. lit "other")
      Endpoint.cost
      (filtered (request_of (lit "o")) [] (lit "openai"))
      broken
      20
      (handle sample_libraries held_cache
        (λ t p. lit "body")
        Endpoint.cost
        (filtered (request_of (lit "o")) (lit "openai") [])
        no_rows
        10
        empty_state).1).0
    ≡ Reply.hit (lit "body")
unfolding handle get_cost_breakdown get_cost_by_model
handle-exchange_example =
    handle-exchange held_cache held_cache-IsCache (λ t p. lit "body") (λ t p. lit "other") 10 20
      sample_libraries (request_of (lit "o")) (lit "openai") no_rows broken empty_state _
      (lit "body") (λ k ttl. refl) (omega arith) refl
