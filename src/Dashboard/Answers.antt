-- ===== src/Dashboard/Answers.antt =====
-- How the handlers of server/internal/dashboard/handlers/cost.go and overview.go answer: from the
-- cache, or from the database, and then into the cache.
use promptmeter.Prelude.{ℕ, Option, none, some, List, Str}
use promptmeter.Domain.Floats.{Float64}
use promptmeter.Domain.Time.{Time, Duration}
use promptmeter.Domain.Cost.{
  CostBreakdownItem, TimeseriesSeries, CostCompareResponse, CostFiltersResponse,
}
use promptmeter.Storage.Redis.{Cache}
use promptmeter.Storage.AnswerCache.{get_cached, set_cached}
use promptmeter.Storage.Reader.{Ask}

-- overviewResponse
pub record OverviewResponse : Type 0 where
  pub total_cost : Float64
  pub total_requests : ℕ
  pub error_rate : Float64
  pub avg_cost_per_req : Float64
  pub avg_latency_ms : Float64
  pub cost_change : Option Float64
  pub requests_change : Option Float64
  pub error_rate_change : Option Float64
  pub cost_per_req_change : Option Float64
  pub top_model : Str
  pub top_feature : Str

-- What is marshalled, besides the id of the request and the time.
pub data Payload : Type 0 where
  overview : OverviewResponse → Payload
  -- items, group_by, period and filters
  breakdown : List CostBreakdownItem → Str → Str → List (Str × Str) → Payload
  -- series, granularity, period and group_by
  timeseries : List TimeseriesSeries → Str → Str → Str → Payload
  -- result and group_by
  compare : CostCompareResponse → Str → Payload
  filters : CostFiltersResponse → Payload

-- A status with an error, or 200 with a body and X-Cache.
pub data Reply : Type 0 where
  refused : ℕ → Reply
  hit miss : Str → Reply

-- What a handler has made of a request before it looks into the cache: a refusal, or the key, the time
-- to live and the answer that it would read.
pub data Plan : Type 0 where
  bad_request : Plan
  ready : Str → Duration → (Ask → Option Payload) → Plan

module _ {S : Type 0} (c : Cache S Str) (marshal : Time → Payload → Str) where
  -- The answer that was read is marshalled and cached; an error of the cache is only logged.
  unfoldable pub answer : Str → Duration → Time → S → Option Payload → Reply × S
  unfolding set_cached
  answer key ttl now s none = (Reply.refused 500, s)
  answer key ttl now s (some payload) =
      let body = marshal now payload in (Reply.miss body, (set_cached c s key body now ttl).1)

  -- cached != nil; an error of the cache counts as a miss.
  unfoldable pub unless_cached : Str → Duration → Time → S → Option Str → Option Payload → Reply × S
  unfolding answer
  unless_cached key ttl now s (some body) payload = (Reply.hit body, s)
  unless_cached key ttl now s none payload = answer key ttl now s payload

  unfoldable pub run_plan : Plan → Ask → Time → S → Reply × S
  unfolding unless_cached get_cached
  run_plan Plan.bad_request ask now s = (Reply.refused 400, s)
  run_plan (Plan.ready key ttl read) ask now s =
      unless_cached key ttl now s (get_cached c s key now).0 (read ask)
