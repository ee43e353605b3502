-- ===== src/Risk/State.antt =====
-- Scripts/risk/state.py: the risk state, in memory and on disk. Money is in whole micro-dollars and
-- time in whole seconds; a date is its text.
use polymarket_radar.Base.{
  ℕ, ◌+◌, String, Bool, true, false, Option, none, some, List, [], leb, if◌then◌else◌, ◌==◌,
  string_key, keep,
}
use polymarket_radar.Base.Int.{ℤ, pos}

-- What the clock gives during one call: `time.time()` at its start, the same as the helpers that it
-- calls read it, the seconds since midnight then, and the date.
pub record Clock : Type 0 where
  pub now : ℕ
  pub later : ℕ
  pub secs_since_midnight : ℕ
  pub today : String

-- The texts that the code puts in `paused_reason`, with the numbers that they print.
pub data PauseReason : Type 0 where
  daily_loss_limit_hit : ℤ → PauseReason
  hourly_losing_streak : ℕ → PauseReason

-- `'daily' in (paused_reason or '').lower()`
mentions_daily : Option PauseReason → Bool
mentions_daily (some (daily_loss_limit_hit pnl)) = true
mentions_daily (some (hourly_losing_streak n)) = false
mentions_daily none = false

-- `class RiskState`
pub record RiskState : Type 0 where
  pub daily_date_utc : String
  pub daily_pnl_usd : ℤ
  pub recent_trades : List (ℕ × ℤ)
  pub paused_until_unix : Option ℕ
  pub paused_reason : Option PauseReason
  pub last_reconcile_unix : Option ℕ
  pub last_reconcile_ok : Option Bool
  pub last_reconcile_msg : Option String

fresh : RiskState
fresh = record {
  daily_date_utc = "";
  daily_pnl_usd = pos 0;
  recent_trades = [];
  paused_until_unix = none;
  paused_reason = none;
  last_reconcile_unix = none;
  last_reconcile_ok = none;
  last_reconcile_msg = none;
}

-- The singleton `_state` and the file that it is saved to; a file that is missing or cannot be
-- parsed is `none`.
pub record Store : Type 0 where
  pub memory : Option RiskState
  pub disk : Option RiskState

-- `[(t, p) for (t, p) in recent_trades if t >= now - 3600]`
unfoldable pub in_last_hour : ℕ → ℕ × ℤ → Bool
in_last_hour now trade = leb now (trade.0 + 3600)

unfoldable pub trim : ℕ → List (ℕ × ℤ) → List (ℕ × ℤ)
unfolding in_last_hour
trim now trades = keep (in_last_hour now) trades

parsed_or_fresh : Option RiskState → RiskState
unfolding fresh
parsed_or_fresh none = fresh
parsed_or_fresh (some s) = s

-- `load_state`
pub load_state : Clock → Option RiskState → RiskState
unfolding parsed_or_fresh trim
load_state c file =
    let s = parsed_or_fresh file in
    let s' =
      if s.daily_date_utc == c.today
      then s
      else record s { daily_date_utc = c.today; daily_pnl_usd = pos 0 } in
    record s' { recent_trades = trim c.now s'.recent_trades }

-- `save_state`
unfoldable pub save_state : RiskState → Store → Store
save_state s store = record { memory = some s; disk = some s }

-- `_check_day_roll_unlocked`
unfoldable pub check_day_roll : Clock → RiskState → RiskState × Bool
unfolding mentions_daily
check_day_roll c s =
    if s.daily_date_utc == c.today
    then (s, false)
    else (let s' = record s { daily_date_utc = c.today; daily_pnl_usd = pos 0 } in
        (
          if mentions_daily s.paused_reason
              then record s' { paused_until_unix = none; paused_reason = none }
              else s',
          true,
        ))

unfoldable pub loaded : Clock → Store → RiskState
unfolding load_state
loaded c store = elim store.memory [ none ↦ load_state c store.disk | some s ↦ s ]

-- `get_state`: the state, and the store with it in memory, on disk too after a day roll.
unfoldable pub get_state : Clock → Store → RiskState × Store
unfolding loaded check_day_roll save_state
get_state c store =
    let (s, rolled) = check_day_roll c (loaded c store) in
    (s, if rolled then save_state s store else record store { memory = some s })

-- `reset_for_test`, and what a restart of the process does to the store.
unfoldable pub restart : Store → Store
restart store = record store { memory = none }
