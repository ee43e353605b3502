-- ===== src/Breaker.antt =====
-- Scripts/circuit_breaker.py: the per-host circuit breaker and the registry of breakers.
-- A time is a whole number of seconds. The lock makes each method one step.
pub mod Invariant
pub mod Runs
pub mod Hosts
mod Tests
use polymarket_radar.Base.{
  ℕ, ◌+◌, String, Bool, true, false, not, ◌&&◌, Option, none, some, List, [], ◌∷◌, ◌++◌, ltb, leb,
  eqb, if◌then◌else◌, ◌<>◌, string_key,
}
use polymarket_radar.Base.Dict.{Dict, lookup, insert}

-- `class CircuitState`; `opened` is OPEN.
pub data CircuitState : Type 0 where
  closed opened half_open : CircuitState

-- What `_on_state_change` is called with, after the host: the old state, the new one, the reason.
pub record Change : Type 0 where
  pub old_state : CircuitState
  pub new_state : CircuitState
  pub reason : Option String

-- The fields of `class CircuitBreaker`. `has_callback` says whether `_on_state_change` is set.
pub record Breaker : Type 0 where
  pub failure_threshold : ℕ
  pub cool_down : ℕ
  pub success_threshold : ℕ
  pub has_callback : Bool
  pub state : CircuitState
  pub consecutive_failures : ℕ
  pub consecutive_successes : ℕ
  pub opened_at : Option ℕ
  pub last_failure_reason : Option String
  pub total_failures : ℕ
  pub total_successes : ℕ
  pub pending_callbacks : List Change

-- `CircuitBreaker.__init__`
pub init : ℕ → ℕ → ℕ → Bool → Breaker
init failure_threshold cool_down success_threshold has_callback = record {
  failure_threshold = failure_threshold;
  cool_down = cool_down;
  success_threshold = success_threshold;
  has_callback = has_callback;
  state = closed;
  consecutive_failures = 0;
  consecutive_successes = 0;
  opened_at = none;
  last_failure_reason = none;
  total_failures = 0;
  total_successes = 0;
  pending_callbacks = [];
}

-- The writes of `_transition` to the fields, by the new state.
enter : CircuitState → Breaker → Breaker
enter closed b = record b {
  state = closed;
  opened_at = none;
  consecutive_failures = 0;
  consecutive_successes = 0;
}
enter half_open b = record b { state = half_open; consecutive_successes = 0 }
enter opened b = record b { state = opened }

-- `_transition`
transition : CircuitState → Option String → Breaker → Breaker
unfolding enter
transition new_state reason b =
    let b' = enter new_state b in
    let change : Change = record { old_state = b.state; new_state = new_state; reason = reason } in
    if b.has_callback
    then record b' { pending_callbacks = b'.pending_callbacks ++ change ∷ [] }
    else b'

-- `_drain_pending_callbacks`: the calls that are made, and the breaker with an empty queue. What a
-- callback raises is caught and printed.
drain : Breaker → Breaker × List Change
drain b = (record b { pending_callbacks = [] }, b.pending_callbacks)

-- `if self._opened_at and (now - self._opened_at) >= self.cool_down`; 0.0 is falsy.
cooled : ℕ → ℕ → Option ℕ → Bool
cooled cool_down now none = false
cooled cool_down now (some t) = not (eqb t 0) && leb (t + cool_down) now

-- The body of `allow` under the lock for a breaker that is not closed.
probe : ℕ → CircuitState → Breaker → Breaker × Bool
unfolding cooled transition
probe now opened b =
    if cooled b.cool_down now b.opened_at
    then (transition half_open (some "cool_down_elapsed") b, true)
    else (b, false)
probe now _ b = (b, true)

-- `allow`: the breaker after the call, the answer and the callbacks that were dispatched. A closed
-- breaker returns from inside the lock, before the queue is drained.
allow_in : ℕ → CircuitState → Breaker → Breaker × Bool × List Change
unfolding probe drain
allow_in now closed b = (b, true, [])
allow_in now s b =
    let (b', allowed) = probe now s b in let (b'', calls) = drain b' in (b'', allowed, calls)

pub allow : ℕ → Breaker → Breaker × Bool × List Change
unfolding allow_in
allow now b = allow_in now b.state b

-- The branch of `on_success` on the state.
succeed_in : CircuitState → Breaker → Breaker
unfolding transition
succeed_in half_open b =
    let b' = record b { consecutive_successes = b.consecutive_successes + 1 } in
    if leb b'.success_threshold b'.consecutive_successes
    then transition closed (some "recovered") b'
    else b'
succeed_in _ b = b

-- `on_success`
pub on_success : Breaker → Breaker × List Change
unfolding succeed_in drain
on_success b = drain (
    succeed_in b.state
      (record b { total_successes = b.total_successes + 1; consecutive_failures = 0 }))

-- An f-string prints a missing reason as `None`.
show_reason : Option String → String
show_reason none = "None"
show_reason (some r) = r

-- The branch of `on_failure` on the state.
fail_in : ℕ → Option String → CircuitState → Breaker → Breaker
unfolding transition
fail_in now reason half_open b =
    let b' = transition opened (some ("half_open_probe_failed: " <> show_reason reason)) b in
    record b' { opened_at = some now }
fail_in now reason closed b =
    if leb b.failure_threshold b.consecutive_failures
    then (let b' = transition opened reason b in record b' { opened_at = some now })
    else b
fail_in now reason opened b = b

-- `on_failure`
pub on_failure : ℕ → Option String → Breaker → Breaker × List Change
unfolding fail_in drain
on_failure now reason b = drain (
    fail_in now reason b.state (record b {
      total_failures = b.total_failures + 1;
      consecutive_successes = 0;
      consecutive_failures = b.consecutive_failures + 1;
      last_failure_reason = reason;
    }))

-- `_BREAKERS`, by host.
abbrev pub Registry : Type 0
Registry = Dict String Breaker

-- The branch of `get_breaker` on what `_BREAKERS.get(host)` gives.
found_or_new : Option Breaker → String → ℕ → ℕ → ℕ → Registry → Registry × Breaker
found_or_new (some cb) host failures cool_down successes r = (r, cb)
found_or_new none host failures cool_down successes r =
    let cb = init failures cool_down successes true in (insert host cb r, cb)

-- `get_breaker`
pub get_breaker : String → ℕ → ℕ → ℕ → Registry → Registry × Breaker
unfolding found_or_new
get_breaker host failures cool_down successes r =
    found_or_new (lookup host r) host failures cool_down successes r
