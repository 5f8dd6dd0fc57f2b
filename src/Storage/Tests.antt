-- ===== src/Storage/Tests.antt =====
-- The rate limiter at concrete inputs.
use promptmeter.Prelude.{
  ◌+◌, ◌≡◌, true, none, some, [], ◌∷◌, lit, arith, get_elem?, leb, str_eq, if◌then◌else◌,
}
use promptmeter.Storage.Redis.{CounterState, held_counters}
use promptmeter.Storage.RateLimit.{Verdict, requests}
use promptmeter.Storage.RateLimit.Window.{requests-get_elem?}
use promptmeter.Storage.Samples.{held_counters-IsCounters}

abbrev no_counters : CounterState
no_counters k = none

requests-get_elem?_example :
    get_elem? (requests held_counters (lit "k") 2 10 (5 ∷ 9 ∷ 18 ∷ []) no_counters).0 2
    ≡ some (leb (0 + 2 + 1) 2)
requests-get_elem?_example =
    requests-get_elem? held_counters held_counters-IsCounters (lit "k") 2 10 (λ s t e. cc) 5
      (9 ∷ 18 ∷ []) no_counters 2 (omega arith, omega arith, (omega arith, omega arith, tt))
      (omega arith)

-- The counters after one request of an address at 5, with a window of 10.
abbrev counted_once : CounterState
counted_once j = if str_eq (lit "rl:ip:a") j then some (1, 15) else none

abbrev first_verdict : Verdict
first_verdict = record { allowed = true; remaining = 2; reset_at = 15 }
