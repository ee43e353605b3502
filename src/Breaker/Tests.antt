-- ===== src/Breaker/Tests.antt =====
-- The theorems on the breaker at concrete calls.
use polymarket_radar.Base.{
  string_key, ℕ, ◌+◌, ◌≤◌, ◌↔◌, ◌≡◌, refl, ◌≢◌, true, none, some, List, [], ◌∷◌, arith, All,
}
use polymarket_radar.Breaker.{closed, opened, half_open, Breaker, init, allow}
use polymarket_radar.Breaker.{Registry}
use polymarket_radar.Breaker.Runs.{Call, ask, succeeded, failed, run, Before, blocked_while_cooling}

-- A breaker with a threshold of 2 failures, a cool-down of 60 seconds and 2 successes to recover.
abbrev new_breaker : Breaker
new_breaker = init 2 60 2 true

abbrev base : Breaker
base = record {
  failure_threshold = 2;
  cool_down = 60;
  success_threshold = 2;
  has_callback = true;
  state = closed;
  consecutive_failures = 0;
  consecutive_successes = 0;
  opened_at = none;
  last_failure_reason = none;
  total_failures = 0;
  total_successes = 0;
  pending_callbacks = [];
}

abbrev open_breaker : Breaker
open_breaker = record base { state = opened; consecutive_failures = 2; opened_at = some 100 }

abbrev probing_breaker : Breaker
probing_breaker = record base { state = half_open; opened_at = some 100 }

abbrev a_day : List Call
a_day =
    failed 100 (some "timeout")
    ∷ failed 101 none
    ∷ ask 120
    ∷ ask 170
    ∷ succeeded
    ∷ succeeded
    ∷ ask 180
    ∷ []

abbrev while_cooling : List Call
while_cooling = succeeded ∷ failed 130 none ∷ ask 140 ∷ []

while_cooling-Before : All (Before 160) while_cooling
while_cooling-Before = (tt, (omega arith, (omega arith, tt)))

blocked_while_cooling_example :
    ((allow 170 (run while_cooling open_breaker).0).1 ≡ true) ↔ (100 + 60 ≤ 170)
blocked_while_cooling_example =
    blocked_while_cooling 100 170 while_cooling open_breaker refl refl while_cooling-Before
      (omega arith)

hundred_not_0 : ◌≢◌ {A = ℕ} 100 0
hundred_not_0 h = omega arith

abbrev every_second : ℕ → ℕ
every_second n = 100 + n

abbrev hosts : Registry
hosts = ("clob.polymarket.com", open_breaker) ∷ []
