-- ===== src/Breaker/Invariant.antt =====
-- The invariant of a breaker between calls, and the transitions that one call can make.
use polymarket_radar.Base.{ℕ, ◌<◌, ◌≡◌, Bool, Option, none, some, [], String, arith}
use polymarket_radar.Breaker.{
  closed, opened, half_open, Breaker, init, allow, on_success, on_failure,
}

-- Between two calls: an open breaker knows since when, a closed one is not dated and has room for
-- a failure, a half-open one still wants a success, and no callback waits.
pub record IsValid (b : Breaker) : Type 0 where
  pub room : 0 < b.failure_threshold
  pub wanted : 0 < b.success_threshold
  pub dated : b.state ≡ opened → (t : ℕ) × (b.opened_at ≡ some t)
  pub undated : b.state ≡ closed → b.opened_at ≡ none
  pub below : b.state ≡ closed → b.consecutive_failures < b.failure_threshold
  pub short : b.state ≡ half_open → b.consecutive_successes < b.success_threshold
  pub drained : b.pending_callbacks ≡ []

pub init-IsValid : (f c s : ℕ) (k : Bool) → 0 < f → 0 < s → IsValid (init f c s k)
unfolding init
init-IsValid f c s k hf hs = ground arith

pub allow-IsValid : (now : ℕ) (b : Breaker) → IsValid b → IsValid (allow now b).0
unfolding allow
allow-IsValid now b h = ground arith

pub on_success-IsValid : (b : Breaker) → IsValid b → IsValid (on_success b).0
unfolding on_success
on_success-IsValid b h = ground arith

pub on_failure-IsValid :
    (now : ℕ) (r : Option String) (b : Breaker) → IsValid b → IsValid (on_failure now r b).0
unfolding on_failure
on_failure-IsValid now r b h = ground arith
