-- ===== src/Breaker/Runs.antt =====
-- Sequences of calls on one breaker: what is let through, how it opens and recovers, and the
-- callbacks that are dispatched.
use polymarket_radar.Base.{
  ℕ, zero, suc, ◌+◌, ◌≤◌, ◌<◌, ◌≡◌, refl, ◌≢◌, true, Option, none, some, List, [], ◌∷◌, ◌++◌,
  String, arith, ◌↔◌, All,
}
use polymarket_radar.Breaker.{
  CircuitState, closed, opened, half_open, Change, Breaker, allow, on_success, on_failure,
}
use polymarket_radar.Breaker.Invariant.{
  IsValid, allow-IsValid, on_success-IsValid, on_failure-IsValid,
}

-- A call of one method, with the time that it reads.
pub data Call : Type 0 where
  ask : ℕ → Call
  succeeded : Call
  failed : ℕ → Option String → Call

pub step : Call → Breaker → Breaker × List Change
step (ask now) b = let (b', allowed, calls) = allow now b in (b', calls)
step succeeded b = on_success b
step (failed now r) b = on_failure now r b

pub run : List Call → Breaker → Breaker × List Change
run [] b = (b, [])
run (c ∷ cs) b = let (b', calls) = step c b in let (b'', rest) = run cs b' in (b'', calls ++ rest)

-- The changes of state that the design allows.
abbrev pub Edge : CircuitState → CircuitState → Type 0
Edge closed opened = Unit
Edge opened half_open = Unit
Edge half_open opened = Unit
Edge half_open closed = Unit
Edge _ _ = ⊥

-- The callbacks link one state to another along allowed changes, each starting where the last
-- ended.
abbrev pub Chain : CircuitState → List Change → CircuitState → Type 0
Chain s [] t = s ≡ t
Chain s (c ∷ cs) t = (s ≡ c.old_state) × Edge c.old_state c.new_state × Chain c.new_state cs t

Chain-append :
    (s t u : CircuitState) (xs ys : List Change)
    → Chain s xs t
    → Chain t ys u
    → Chain s (xs ++ ys) u
Chain-append s t u [] ys p q = rw p q
Chain-append s t u (x ∷ xs) ys p q = (p.0, p.1, Chain-append x.new_state t u xs ys p.2 q)

step-IsValid : (c : Call) (b : Breaker) → IsValid b → IsValid (step c b).0
unfolding step
step-IsValid (ask now) b h = allow-IsValid now b h
step-IsValid succeeded b h = on_success-IsValid b h
step-IsValid (failed now r) b h = on_failure-IsValid now r b h

has_callback-step : (c : Call) (b : Breaker) → (step c b).0.has_callback ≡ b.has_callback
unfolding step allow on_success on_failure
has_callback-step (ask now) b = ground arith
has_callback-step succeeded b = ground arith
has_callback-step (failed now r) b = ground arith

step-Chain :
    (c : Call) (b : Breaker)
    → IsValid b
    → b.has_callback ≡ true
    → Chain b.state (step c b).1 (step c b).0.state
unfolding step allow on_success on_failure
step-Chain (ask now) b h k = ground arith
step-Chain succeeded b h k = ground arith
step-Chain (failed now r) b h k = ground arith

-- Any calls on a valid breaker leave it valid.
pub run-IsValid : (cs : List Call) (b : Breaker) → IsValid b → IsValid (run cs b).0
unfolding run
run-IsValid [] b h = h
run-IsValid (c ∷ cs) b h = run-IsValid cs (step c b).0 (step-IsValid c b h)

-- Over any calls on a valid breaker with a callback, the callbacks that are dispatched lead from
-- the first state to the last one along the four allowed changes, none missing and none twice.
pub run-Chain :
    (cs : List Call) (b : Breaker)
    → IsValid b
    → b.has_callback ≡ true
    → Chain b.state (run cs b).1 (run cs b).0.state
unfolding run
run-Chain [] b h k = refl
run-Chain (c ∷ cs) b h k =
    let b' = (step c b).0 in
    Chain-append b.state b'.state (run cs b').0.state (step c b).1 (run cs b').1
      (step-Chain c b h k) (run-Chain cs b' (step-IsValid c b h) (rw (has_callback-step c b) k))

-- Every call happens before the time `end`.
abbrev pub Before : ℕ → Call → Type 0
Before end (ask now) = now < end
Before end succeeded = Unit
Before end (failed now r) = now < end

-- The breaker is open since `t`, with its cool-down `c`.
abbrev pub OpenSince : ℕ → ℕ → Breaker → Type 0
OpenSince t c b = (b.state ≡ opened) × (b.opened_at ≡ some t) × (b.cool_down ≡ c)

step-OpenSince :
    (t c : ℕ) (x : Call) (b : Breaker)
    → Before (t + c) x
    → OpenSince t c b
    → OpenSince t c (step x b).0
unfolding step allow on_success on_failure
step-OpenSince t c (ask now) b p h = ground arith
step-OpenSince t c succeeded b p h = ground arith
step-OpenSince t c (failed now r) b p h = ground arith

run-OpenSince :
    (t c : ℕ) (xs : List Call) (b : Breaker)
    → All (Before (t + c)) xs
    → OpenSince t c b
    → OpenSince t c (run xs b).0
unfolding run
run-OpenSince t c [] b p h = h
run-OpenSince t c (x ∷ xs) b p h =
    run-OpenSince t c xs (step x b).0 p.1 (step-OpenSince t c x b p.0 h)

-- A breaker that opened at a time `t` other than 0 lets a request through exactly from `t` plus its
-- cool-down on, whatever was called before that time: late results neither close it nor lengthen the
-- wait.
pub blocked_while_cooling :
    (t now : ℕ) (xs : List Call) (b : Breaker)
    → b.state ≡ opened
    → b.opened_at ≡ some t
    → All (Before (t + b.cool_down)) xs
    → t ≢ 0
    → ((allow now (run xs b).0).1 ≡ true) ↔ (t + b.cool_down ≤ now)
unfolding allow
blocked_while_cooling t now xs b s o p z =
    ground (arith, z, run-OpenSince t b.cool_down xs b p (s, o, refl))

-- An open breaker that is dated, at a time other than 0, answers yes exactly from the end of its
-- cool-down on, and is half open from then on and not before.
pub allow-opened :
    (t now : ℕ) (b : Breaker)
    → b.state ≡ opened
    → b.opened_at ≡ some t
    → t ≢ 0
    → (((allow now b).1 ≡ true) ↔ (t + b.cool_down ≤ now))
      × (((allow now b).0.state ≡ half_open) ↔ (t + b.cool_down ≤ now))
unfolding allow
allow-opened t now b s o z = ground arith

-- `n` failures in a row, at the times that `at` gives.
pub failures : (ℕ → ℕ) → ℕ → Breaker → Breaker
failures at zero b = b
failures at (suc n) b = (on_failure (at n) none (failures at n b)).0

failures-closed :
    (at : ℕ → ℕ) (n : ℕ) (b : Breaker)
    → b.state ≡ closed
    → b.consecutive_failures + n < b.failure_threshold
    → ((failures at n b).state ≡ closed)
      × ((failures at n b).consecutive_failures ≡ b.consecutive_failures + n)
      × ((failures at n b).failure_threshold ≡ b.failure_threshold)
unfolding failures on_failure
failures-closed at zero b s h = (s, omega arith, refl)
failures-closed at (suc n) b s h = ground (arith, failures-closed at n b s)

-- A closed breaker without failures is still closed one failure in a row short of its threshold,
-- and opens at the one that meets it, dated at that failure.
pub opens_at_threshold :
    (at : ℕ → ℕ) (n : ℕ) (b : Breaker)
    → b.state ≡ closed
    → b.consecutive_failures ≡ 0
    → b.failure_threshold ≡ suc n
    → ((failures at n b).state ≡ closed)
      × ((failures at (suc n) b).state ≡ opened)
      × ((failures at (suc n) b).opened_at ≡ some (at n))
unfolding failures on_failure
opens_at_threshold at n b s z t = ground (arith, failures-closed at n b s)

-- `n` successes in a row.
pub successes : ℕ → Breaker → Breaker
successes zero b = b
successes (suc n) b = (on_success (successes n b)).0

successes-half_open :
    (n : ℕ) (b : Breaker)
    → b.state ≡ half_open
    → b.consecutive_successes + n < b.success_threshold
    → ((successes n b).state ≡ half_open)
      × ((successes n b).consecutive_successes ≡ b.consecutive_successes + n)
      × ((successes n b).success_threshold ≡ b.success_threshold)
unfolding successes on_success
successes-half_open zero b s h = (s, omega arith, refl)
successes-half_open (suc n) b s h = ground (arith, successes-half_open n b s)

-- A probing breaker without successes stays half open for fewer successes in a row than its
-- threshold, and at the one that meets it it closes, with its counters and date reset; a failure
-- at any point before opens it again at once.
pub recovers_at_threshold :
    (n k now : ℕ) (r : Option String) (b : Breaker)
    → b.state ≡ half_open
    → b.consecutive_successes ≡ 0
    → b.success_threshold ≡ suc n
    → k ≤ n
    → ((successes k b).state ≡ half_open)
      × ((successes (suc n) b).state ≡ closed)
      × ((successes (suc n) b).opened_at ≡ none)
      × ((successes (suc n) b).consecutive_failures ≡ 0)
      × ((on_failure now r (successes k b)).0.state ≡ opened)
      × ((on_failure now r (successes k b)).0.opened_at ≡ some now)
unfolding successes on_success on_failure
recovers_at_threshold n k now r b s z t le =
    ground (arith, successes-half_open n b s, successes-half_open k b s)
