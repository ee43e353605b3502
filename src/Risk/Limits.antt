-- ===== src/Risk/Limits.antt =====
-- Scripts/risk/limits.py: the check before every fire and the recording of results. Money is in
-- whole micro-dollars; the text of a refusal is the data that it prints.
pub mod Gate
pub mod Pauses
use polymarket_radar.Base.{
  ℕ, ◌+◌, ◌-◌, ◌*◌, String, Bool, true, false, not, ◌&&◌, Option, none, some, List, [], ◌∷◌, ◌++◌,
  if◌then◌else◌, ltb, leb, eqb, count,
}
use polymarket_radar.Base.Int.{ℤ, pos, ◌+ℤ◌, ◌-ℤ◌, scale, ltb_ℤ, leb_ℤ}
use polymarket_radar.Risk.State.{
  Clock, PauseReason, daily_loss_limit_hit, hourly_losing_streak, RiskState, Store, in_last_hour,
  trim, save_state, get_state,
}
use polymarket_radar.Risk.Killswitch.{Killswitch, is_killed}
use polymarket_radar.Risk.Network.{Refusal, Reply, Cache, check_country_allowed}

-- The constants of state.py and network_check.py, which the environment can override.
pub record Config : Type 0 where
  pub max_per_trade_usd : ℤ
  pub daily_loss_limit_usd : ℤ
  pub losing_trades_per_hour : ℕ
  pub pause_after_hourly_limit_s : ℕ
  pub allowed_countries : List String
  pub check_interval_s : ℕ

-- The state that the check reads: of the kill switch, of the network check and of risk.
pub record World : Type 0 where
  pub killswitch : Killswitch
  pub cache : Cache
  pub store : Store

-- What the check reads of a deal: the stakes of its entries, with 0 for a missing one, and `net`.
pub record Deal : Type 0 where
  pub stakes : List ℤ
  pub net : Option ℤ

-- `_next_utc_midnight`
unfoldable pub next_utc_midnight : Clock → ℕ
next_utc_midnight c = c.later + (86400 - c.secs_since_midnight)

pub max_ℤ : ℤ → ℤ → ℤ
max_ℤ a b = if ltb_ℤ a b then b else a

-- `max` of the stakes after the first.
max_from : ℤ → List ℤ → ℤ
unfolding max_ℤ
max_from m [] = m
max_from m (x ∷ xs) = max_from (max_ℤ m x) xs

-- `_trade_cost_estimate`: the largest stake, 0 without entries.
pub trade_cost_estimate : Deal → ℤ
unfolding max_from
trade_cost_estimate d = elim d.stakes [ [] ↦ pos 0 | x ∷ xs ↦ max_from x xs ]

unfoldable pub sum : List ℤ → ℤ
sum [] = pos 0
sum (x ∷ xs) = x +ℤ sum xs

-- `_trade_total_cost`
pub trade_total_cost : Deal → ℤ
unfolding sum
trade_total_cost d = sum d.stakes

-- `t >= cutoff and p < 0`
unfoldable pub is_losing : ℕ → ℕ × ℤ → Bool
unfolding in_last_hour
is_losing now trade = in_last_hour now trade && ltb_ℤ trade.1 (pos 0)

-- `_losing_trades_in_last_hour`
pub losing_trades_in_last_hour : ℕ → RiskState → ℕ
unfolding is_losing
losing_trades_in_last_hour now s = count (is_losing now) s.recent_trades

-- The reasons of `check_can_fire`, in the order of its checks.
pub data Denial : Type 0 where
  kill_switch_active : Denial
  network : Refusal → Denial
  per_leg_cap_exceeded : ℤ → Denial
  paused : ℕ → Option PauseReason → Denial
  pre_trade_daily_check : ℤ → Denial

-- `s.paused_until_unix or 0`
pub until_or_zero : RiskState → ℕ
until_or_zero s = elim s.paused_until_unix [ none ↦ 0 | some until ↦ until ]

-- `if s.paused_until_unix and s.paused_until_unix > now`; 0.0 is falsy.
pub is_paused : ℕ → RiskState → Bool
is_paused now s = elim s.paused_until_unix [
  | none ↦ false
  | some until ↦ not (eqb until 0) && ltb now until
]

-- The second test on the pause, and the state after it.
clear_pause : ℕ → RiskState → Store → RiskState × Store
unfolding save_state
clear_pause now s store =
    let s' = record s { paused_until_unix = none; paused_reason = none } in
    elim s.paused_until_unix [
      | none ↦ (s, store)
      | some until ↦
          if not (eqb until 0) && leb until now then (s', save_state s' store) else (s, store)
    ]

-- `worst_loss`, in hundredths: 15 per cent of the cost where `net` is positive, else all of it.
pub worst_loss : Deal → ℤ
unfolding trade_total_cost
worst_loss d =
    let net : ℤ = elim d.net [ none ↦ pos 0 | some n ↦ n ] in
    scale (if ltb_ℤ (pos 0) net then 15 else 100) (trade_total_cost d)

-- `projected_daily < -DAILY_LOSS_LIMIT_USD`, in hundredths.
pub crosses_limit : Config → Deal → RiskState → Bool
unfolding worst_loss
crosses_limit cfg d s =
    ltb_ℤ (scale 100 s.daily_pnl_usd -ℤ worst_loss d) (pos 0 -ℤ scale 100 cfg.daily_loss_limit_usd)

-- The part of `check_can_fire` that reads and clears the pause, and the test of the day's loss.
check_state : Config → Clock → Deal → Store → Option Denial × Store
unfolding get_state clear_pause is_paused crosses_limit
check_state cfg c d store =
    let (s, store1) = get_state c store in
    let (s', store2) = clear_pause c.now s store1 in
    if is_paused c.now s
    then (some (paused (until_or_zero s - c.now) s.paused_reason), store1)
    else if crosses_limit cfg d s'
    then (some (pre_trade_daily_check (worst_loss d)), store2)
    else (none, store2)

-- The part of `check_can_fire` below the network check.
check_limits : Config → Clock → Deal → Store → Option Denial × Store
unfolding trade_cost_estimate
check_limits cfg c d store =
    if ltb_ℤ cfg.max_per_trade_usd (trade_cost_estimate d)
    then (some (per_leg_cap_exceeded (trade_cost_estimate d)), store)
    else check_state cfg c d store

-- `check_can_fire`, with the replies that the country providers would give; `none` is
-- `(True, None)`. The alert on a failed network check is left out.
pub check_can_fire : Config → Clock → List Reply → Deal → World → Option Denial × World
check_can_fire cfg c replies d w =
    let (refusal, cache) =
      check_country_allowed cfg.allowed_countries cfg.check_interval_s c.now replies w.cache in
    let (denial, store) = check_limits cfg c d w.store in
    if is_killed w.killswitch then (some kill_switch_active, w) else elim refusal [
      | some reason ↦ (some (network reason), record w { cache = cache })
      | none ↦ (denial, record w { cache = cache; store = store })
    ]

-- The notifications of `record_pnl`, by what they announce.
pub data Notice : Type 0 where
  daily_loss_notice : ℤ → Notice
  hourly_streak_notice : ℕ → Notice

add_trade : Clock → ℤ → RiskState → RiskState
unfolding trim
add_trade c pnl s = record s {
  daily_pnl_usd = s.daily_pnl_usd +ℤ pnl;
  recent_trades = trim c.now (s.recent_trades ++ (c.now, pnl) ∷ []);
}

-- `Daily-loss limit hit?`
pub hits_daily_limit : Config → RiskState → Bool
hits_daily_limit cfg s = leb_ℤ s.daily_pnl_usd (pos 0 -ℤ cfg.daily_loss_limit_usd)

daily_pause : Config → Clock → RiskState → RiskState × List Notice
unfolding hits_daily_limit next_utc_midnight
daily_pause cfg c s =
    if hits_daily_limit cfg s
    then (
      record s {
        paused_until_unix = some (next_utc_midnight c);
        paused_reason = some (daily_loss_limit_hit s.daily_pnl_usd);
      },
      daily_loss_notice s.daily_pnl_usd ∷ [],
    )
    else (s, [])

-- `Hourly-losing-trade limit hit?`
hourly_pause : Config → Clock → RiskState → RiskState × List Notice
unfolding losing_trades_in_last_hour until_or_zero
hourly_pause cfg c s =
    let losing_count = losing_trades_in_last_hour c.later s in
    let hourly_until = c.now + cfg.pause_after_hourly_limit_s in
    if leb cfg.losing_trades_per_hour losing_count
    then (if ltb (until_or_zero s) hourly_until
        then (
          record s {
            paused_until_unix = some hourly_until;
            paused_reason = some (hourly_losing_streak losing_count);
          },
          hourly_streak_notice losing_count ∷ [],
        )
        else (s, []))
    else (s, [])

-- `record_pnl`, where `real` says whether the source is 'real'.
pub record_pnl : Config → Clock → ℤ → Bool → Store → Store × List Notice
unfolding get_state add_trade daily_pause hourly_pause save_state
record_pnl cfg c pnl real store =
    let (s, store1) = get_state c store in
    let (s1, daily) = daily_pause cfg c (add_trade c pnl s) in
    let (s2, hourly) = hourly_pause cfg c s1 in
    if real then (save_state s2 store1, daily ++ hourly) else (save_state s store1, [])
