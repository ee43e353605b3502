-- ===== src/Risk/Limits/Pauses.antt =====
-- What `record_pnl` writes, and the fires that the pauses it sets refuse.
use polymarket_radar.Base.{
  ℕ, ◌+◌, ◌≤◌, ◌<◌, ◌≡◌, refl, sym, ◌∙◌, ◌≢◌, ◌⊎◌, inl, inr, true, false, none, some, List, [], ◌∷◌,
  ◌++◌, count, arith, keep, string_key,
}
use polymarket_radar.Base.Int.{ℤ, pos, ◌+ℤ◌, ◌-ℤ◌, ◌≤ℤ◌}
use polymarket_radar.Risk.State.{
  Clock, RiskState, Store, get_state, save_state, trim, in_last_hour, restart, loaded,
  check_day_roll,
}
use polymarket_radar.Risk.Network.{Reply}
use polymarket_radar.Risk.Limits.{
  Config, World, Deal, is_paused, check_state, check_limits, check_can_fire, record_pnl, add_trade,
  daily_pause, hourly_pause, hits_daily_limit, next_utc_midnight, until_or_zero, is_losing,
  losing_trades_in_last_hour,
}

-- The state as it stands before the pauses are set: the day's, with the trade added.
with_trade : Clock → ℤ → Store → RiskState
with_trade c pnl store = add_trade c pnl (get_state c store).0

-- The state that `record_pnl` ends with.
after : Config → Clock → ℤ → Store → RiskState
after cfg c pnl store = (hourly_pause cfg c (daily_pause cfg c (with_trade c pnl store)).0).0

record_pnl-after :
    (cfg : Config) (c : Clock) (pnl : ℤ) (store : Store)
    → (record_pnl cfg c pnl true store).0 ≡ save_state (after cfg c pnl store) store
unfolding record_pnl after with_trade save_state
record_pnl-after cfg c pnl store = refl

date-check_day_roll : (c : Clock) (s : RiskState) → (check_day_roll c s).0.daily_date_utc ≡ c.today
unfolding check_day_roll
date-check_day_roll c s = ground (arith, string_key.same_iff s.daily_date_utc c.today)

date-get_state : (c : Clock) (store : Store) → (get_state c store).0.daily_date_utc ≡ c.today
unfolding get_state
date-get_state c store = date-check_day_roll c (loaded c store)

date-after :
    (cfg : Config) (c : Clock) (pnl : ℤ) (store : Store)
    → (after cfg c pnl store).daily_date_utc ≡ c.today
unfolding after with_trade hourly_pause daily_pause add_trade
date-after cfg c pnl store = ground (arith, date-get_state c store)

daily-after :
    (cfg : Config) (c : Clock) (pnl : ℤ) (store : Store)
    → ((after cfg c pnl store).daily_pnl_usd ≡ (get_state c store).0.daily_pnl_usd +ℤ pnl)
      × ((after cfg c pnl store).recent_trades
          ≡ trim c.now ((get_state c store).0.recent_trades ++ (c.now, pnl) ∷ []))
unfolding after with_trade hourly_pause daily_pause add_trade
daily-after cfg c pnl store = ground arith

-- A real result is added to the day's and to the trades of the last hour, under the date of today,
-- in memory and on disk alike.
pub record_pnl_lem :
    (cfg : Config) (c : Clock) (pnl : ℤ) (store : Store)
    → let before = (get_state c store).0 in
      let store' = (record_pnl cfg c pnl true store).0 in
      (s : RiskState) × (store'.memory ≡ some s)
      × (store'.disk ≡ some s)
      × (s.daily_date_utc ≡ c.today)
      × (s.daily_pnl_usd ≡ before.daily_pnl_usd +ℤ pnl)
      × (s.recent_trades ≡ keep (in_last_hour c.now) (before.recent_trades ++ (c.now, pnl) ∷ []))
record_pnl_lem cfg c pnl store =
    let (daily, recent) = daily-after cfg c pnl store in
    rw (record_pnl-after cfg c pnl store) (
      unfold save_state in
      (after cfg c pnl store, refl, refl, date-after cfg c pnl store, daily, unfold trim in recent))

-- A deal that passes finds no pause.
passes-unpaused :
    (cfg : Config) (c : Clock) (replies : List Reply) (d : Deal) (w : World)
    → (check_can_fire cfg c replies d w).0 ≡ none
    → is_paused c.now (get_state c w.store).0 ≡ false
passes-unpaused cfg c replies d w h =
    let limits : (check_limits cfg c d w.store).0 ≡ none = unfold check_can_fire in ground arith in
    let state : (check_state cfg c d w.store).0 ≡ none = unfold check_limits in ground arith in
    unfold check_state in ground arith

same_day :
    (c : Clock) (store : Store) (s : RiskState)
    → store.memory ≡ some s
    → s.daily_date_utc ≡ c.today
    → (get_state c store).0 ≡ s
unfolding get_state
same_day c store s m date = ground (arith, string_key.same_iff s.daily_date_utc c.today)

-- A state in memory that is of today and paused past `now` refuses every deal.
paused_denies :
    (cfg : Config) (c : Clock) (replies : List Reply) (d : Deal) (w : World) (s : RiskState)
    → w.store.memory ≡ some s
    → s.daily_date_utc ≡ c.today
    → c.now < until_or_zero s
    → (check_can_fire cfg c replies d w).0 ≢ none
unfolding is_paused until_or_zero
paused_denies cfg c replies d w s m date late h =
    ground (arith, passes-unpaused cfg c replies d w h, same_day c w.store s m date)

until-daily_pause :
    (cfg : Config) (c : Clock) (s : RiskState)
    → ((daily_pause cfg c s).0.recent_trades ≡ s.recent_trades)
      × (hits_daily_limit cfg s ≡ true
          → until_or_zero (daily_pause cfg c s).0 ≡ next_utc_midnight c)
unfolding daily_pause until_or_zero
until-daily_pause cfg c s = (ground arith, λ h. ground arith)

until-hourly_pause :
    (cfg : Config) (c : Clock) (s : RiskState)
    → (until_or_zero s ≤ until_or_zero (hourly_pause cfg c s).0)
      × (cfg.losing_trades_per_hour ≤ count (is_losing c.later) s.recent_trades
          → c.now + cfg.pause_after_hourly_limit_s ≤ until_or_zero (hourly_pause cfg c s).0)
unfolding hourly_pause until_or_zero
until-hourly_pause cfg c s = (ground arith, λ h. ground arith)

hits-with_trade :
    (cfg : Config) (c : Clock) (pnl : ℤ) (store : Store)
    → (get_state c store).0.daily_pnl_usd +ℤ pnl ≤ℤ pos 0 -ℤ cfg.daily_loss_limit_usd
    → hits_daily_limit cfg (with_trade c pnl store) ≡ true
unfolding hits_daily_limit with_trade add_trade
hits-with_trade cfg c pnl store h = ground arith

trades-with_trade :
    (c : Clock) (pnl : ℤ) (store : Store)
    → (with_trade c pnl store).recent_trades
      ≡ keep (in_last_hour c.now) ((get_state c store).0.recent_trades ++ (c.now, pnl) ∷ [])
unfolding with_trade add_trade trim
trades-with_trade c pnl store = refl

until-after :
    (cfg : Config) (c : Clock) (pnl : ℤ) (store : Store)
    → let before = (get_state c store).0 in
      let trades = keep (in_last_hour c.now) (before.recent_trades ++ (c.now, pnl) ∷ []) in
      (before.daily_pnl_usd +ℤ pnl ≤ℤ pos 0 -ℤ cfg.daily_loss_limit_usd
        → next_utc_midnight c ≤ until_or_zero (after cfg c pnl store))
      × (cfg.losing_trades_per_hour ≤ count (is_losing c.later) trades
          → c.now + cfg.pause_after_hourly_limit_s ≤ until_or_zero (after cfg c pnl store))
until-after cfg c pnl store =
    let s0 = with_trade c pnl store in
    let s1 = (daily_pause cfg c s0).0 in
    let (kept, daily) = until-daily_pause cfg c s0 in
    let (grows, hourly) = until-hourly_pause cfg c s1 in
    unfold after in
    (
      λ h. omega (arith, grows, daily (hits-with_trade cfg c pnl store h)),
      λ h. hourly (rw (kept ∙ trades-with_trade c pnl store) h),
    )

-- A result that takes the day to its loss limit blocks every fire until the next midnight, and one
-- that completes the losing streak of an hour blocks every fire for the length of the pause: no deal
-- passes on the same day before that time, whatever the kill switch and the network say.
pub record_pnl_pauses :
    (cfg : Config) (c c' : Clock) (pnl : ℤ) (replies : List Reply) (d : Deal) (w : World)
    → c'.today ≡ c.today
    → let before = (get_state c w.store).0 in
      let trades = keep (in_last_hour c.now) (before.recent_trades ++ (c.now, pnl) ∷ []) in
      (((before.daily_pnl_usd +ℤ pnl ≤ℤ pos 0 -ℤ cfg.daily_loss_limit_usd)
          × (c'.now < next_utc_midnight c))
        ⊎ ((cfg.losing_trades_per_hour ≤ count (is_losing c.later) trades)
            × (c'.now < c.now + cfg.pause_after_hourly_limit_s)))
      → (check_can_fire cfg c' replies d
          (record w { store = (record_pnl cfg c pnl true w.store).0 })).0
        ≢ none
record_pnl_pauses cfg c c' pnl replies d w same cause =
    let s = after cfg c pnl w.store in
    let (daily, hourly) = until-after cfg c pnl w.store in
    let late : c'.now < until_or_zero s = elim cause [
      | inl (loss, early) ↦ omega (arith, daily loss)
      | inr (streak, early) ↦ omega (arith, hourly streak)
    ] in
    rw (record_pnl-after cfg c pnl w.store) (
      unfold save_state in
      paused_denies cfg c' replies d (record w { store = save_state s w.store }) s refl
        (date-after cfg c pnl w.store ∙ sym same) late)

-- A restart of the process on the same day after a result was recorded keeps the day's result and
-- the pause with its reason.
pub restart_keeps_limits :
    (cfg : Config) (c c' : Clock) (pnl : ℤ) (store : Store)
    → c'.today ≡ c.today
    → let store' = (record_pnl cfg c pnl true store).0 in
      let s = (get_state c' store').0 in
      let s' = (get_state c' (restart store')).0 in
      (s'.daily_pnl_usd ≡ s.daily_pnl_usd)
      × (s'.daily_date_utc ≡ s.daily_date_utc)
      × (s'.paused_until_unix ≡ s.paused_until_unix)
      × (s'.paused_reason ≡ s.paused_reason)
restart_keeps_limits cfg c c' pnl store same =
    let s = after cfg c pnl store in
    let date = date-after cfg c pnl store ∙ sym same in
    rw (record_pnl-after cfg c pnl store) (
      unfold save_state restart get_state in
      ground (arith, date, string_key.same_iff s.daily_date_utc c'.today))

-- Where a pause for a losing streak runs past midnight, a result that takes the day to its loss limit
-- in an hour with fewer losing trades than the streak moves the end of the pause forward to midnight.
pub daily_pause_shortens :
    (cfg : Config) (c : Clock) (pnl : ℤ) (store : Store) (until : ℕ)
    → let before = (get_state c store).0 in
      let trades = keep (in_last_hour c.now) (before.recent_trades ++ (c.now, pnl) ∷ []) in
      before.paused_until_unix ≡ some until
      → next_utc_midnight c < until
      → before.daily_pnl_usd +ℤ pnl ≤ℤ pos 0 -ℤ cfg.daily_loss_limit_usd
      → count (is_losing c.later) trades < cfg.losing_trades_per_hour
      → (s : RiskState) × ((record_pnl cfg c pnl true store).0.memory ≡ some s)
        × (s.paused_until_unix ≡ some (next_utc_midnight c))
daily_pause_shortens cfg c pnl store until paused longer loss few =
    let s = after cfg c pnl store in
    let s0 = with_trade c pnl store in
    let trades = trades-with_trade c pnl store in
    rw (record_pnl-after cfg c pnl store) (
      unfold save_state in
      (
        s,
        refl,
        (let hit = hits-with_trade cfg c pnl store loss in
            unfold after hourly_pause daily_pause losing_trades_in_last_hour in
            ground (arith, hit, trades, few)),
      ))
