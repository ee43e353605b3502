-- ===== src/Risk/Limits/Gate.antt =====
-- When `check_can_fire` lets a deal through, and what it writes.
use polymarket_radar.Base.{
  ℕ, ◌≤◌, ◌≡◌, ◌↔◌, inl, inr, false, none, some, List, [], ◌∷◌, if◌then◌else◌, arith, All,
  Option-cases,
}
use polymarket_radar.Base.Int.{ℤ, pos, ◌+ℤ◌, ◌≤ℤ◌, scale, ltb_ℤ, +ℤ_parts, -ℤ_parts, scale_parts}
use polymarket_radar.Risk.State.{Clock, RiskState, Store, get_state}
use polymarket_radar.Risk.Killswitch.{is_killed}
use polymarket_radar.Risk.Network.{Reply, check_country_allowed}
use polymarket_radar.Risk.Limits.{
  Config, World, Deal, max_ℤ, max_from, trade_cost_estimate, sum, is_paused, clear_pause,
  worst_loss, crosses_limit, check_state, check_limits, check_can_fire,
}

max_from-le : (m x : ℤ) (xs : List ℤ) → (max_from x xs ≤ℤ m) ↔ ((x ≤ℤ m) × All (λ y. y ≤ℤ m) xs)
unfolding max_from
max_from-le m x [] = (λ h. (h, tt), λ h. h.0)
max_from-le m x (y ∷ ys) =
    let ih = max_from-le m (max_ℤ x y) ys in (λ h. ground (arith, ih.0 h), λ h. ih.1 (ground arith))

-- The largest stake is at most `m` exactly if each stake is.
trade_cost_estimate-le :
    (m : ℤ) (d : Deal) → pos 0 ≤ℤ m → (trade_cost_estimate d ≤ℤ m) ↔ All (λ x. x ≤ℤ m) d.stakes
unfolding trade_cost_estimate
trade_cost_estimate-le m d h = go d.stakes
  where
    go :
        (xs : List ℤ)
        → (elim xs [ [] ↦ pos 0 | x ∷ ys ↦ max_from x ys ] ≤ℤ m) ↔ All (λ x. x ≤ℤ m) xs
    go [] = (λ p. tt, λ p. h)
    go (x ∷ xs) = max_from-le m x xs

-- The state lets no pause hold at `now`.
abbrev pub IsUnpaused : ℕ → RiskState → Type 0
IsUnpaused now s = (until : ℕ) → s.paused_until_unix ≡ some until → until ≤ now

is_paused-IsUnpaused : (now : ℕ) (s : RiskState) → (is_paused now s ≡ false) ↔ IsUnpaused now s
unfolding is_paused
is_paused-IsUnpaused now s = elim (Option-cases s.paused_until_unix) [
  | inl free ↦ (λ h u e. absurd (ground arith), λ h. ground arith)
  | inr (t, e) ↦ (λ h u e'. ground arith, λ h. ground (arith, h t e))
]

-- The part of a deal's cost that the check counts as its worst loss, in per cent.
abbrev pub loss_pct : Deal → ℕ
loss_pct d = elim d.net [ none ↦ 100 | some n ↦ if ltb_ℤ (pos 0) n then 15 else 100 ]

-- The worst loss of the deal fits between the day's result and the limit, all in hundredths.
abbrev pub FitsDay : Config → Deal → RiskState → Type 0
FitsDay cfg d s =
    scale (loss_pct d) (sum d.stakes) ≤ℤ scale 100 (s.daily_pnl_usd +ℤ cfg.daily_loss_limit_usd)

crosses_limit-FitsDay :
    (cfg : Config) (d : Deal) (s : RiskState) → (crosses_limit cfg d s ≡ false) ↔ FitsDay cfg d s
unfolding crosses_limit worst_loss
crosses_limit-FitsDay cfg d s =
    let total = sum d.stakes in
    let daily = s.daily_pnl_usd in
    let limit = cfg.daily_loss_limit_usd in
    let loss = worst_loss d in
    (
      λ h. ground (
        arith,
        scale_parts 15 total,
        scale_parts 100 total,
        scale_parts 100 daily,
        scale_parts 100 limit,
        scale_parts 100 (daily +ℤ limit),
        +ℤ_parts daily limit,
        -ℤ_parts (scale 100 daily) loss,
        -ℤ_parts (pos 0) (scale 100 limit),
      ),
      λ h. ground (
        arith,
        scale_parts 15 total,
        scale_parts 100 total,
        scale_parts 100 daily,
        scale_parts 100 limit,
        scale_parts 100 (daily +ℤ limit),
        +ℤ_parts daily limit,
        -ℤ_parts (scale 100 daily) loss,
        -ℤ_parts (pos 0) (scale 100 limit),
      ),
    )

crosses_limit-clear_pause :
    (cfg : Config) (d : Deal) (now : ℕ) (s : RiskState) (store : Store)
    → crosses_limit cfg d (clear_pause now s store).0 ≡ crosses_limit cfg d s
unfolding clear_pause crosses_limit
crosses_limit-clear_pause cfg d now s store = elim (Option-cases s.paused_until_unix) [
  | inl e ↦ rw e
  | inr (t, e) ↦ ground arith
]

check_state-none :
    (cfg : Config) (c : Clock) (d : Deal) (store : Store)
    → ((check_state cfg c d store).0 ≡ none) ↔ (
        (is_paused c.now (get_state c store).0 ≡ false)
        × (crosses_limit cfg d (get_state c store).0 ≡ false))
check_state-none cfg c d store =
    let s = (get_state c store).0 in
    let same = crosses_limit-clear_pause cfg d c.now s (get_state c store).1 in
    unfold check_state in (λ h. ground (arith, same), λ h. ground (arith, same))

-- What a fire needs: the kill switch is off, the network check passes, no stake is above the cap per
-- leg, no pause holds and the worst loss fits into the day.
pub record MayFire (cfg : Config) (c : Clock) (replies : List Reply) (d : Deal) (w : World)
    : Type 0 where
  pub alive : is_killed w.killswitch ≡ false
  pub reachable :
      (check_country_allowed cfg.allowed_countries cfg.check_interval_s c.now replies w.cache).0
      ≡ none
  pub capped : All (λ x. x ≤ℤ cfg.max_per_trade_usd) d.stakes
  pub unpaused : IsUnpaused c.now (get_state c w.store).0
  pub fits : FitsDay cfg d (get_state c w.store).0

check_limits-none :
    (cfg : Config) (c : Clock) (d : Deal) (store : Store)
    → pos 0 ≤ℤ cfg.max_per_trade_usd
    → ((check_limits cfg c d store).0 ≡ none) ↔ (
        All (λ x. x ≤ℤ cfg.max_per_trade_usd) d.stakes
        × IsUnpaused c.now (get_state c store).0
        × FitsDay cfg d (get_state c store).0)
check_limits-none cfg c d store h =
    let s = (get_state c store).0 in
    let leg = trade_cost_estimate-le cfg.max_per_trade_usd d h in
    let state = check_state-none cfg c d store in
    let pause = is_paused-IsUnpaused c.now s in
    let day = crosses_limit-FitsDay cfg d s in
    unfold check_limits in
    (
      λ e. let (p, q) = state.0 (ground arith) in (leg.0 (ground arith), pause.0 p, day.0 q),
      λ e.
          let under = leg.1 e.0 in
          let free = state.1 (pause.1 e.1, day.1 e.2) in ground (arith, under, free),
    )

-- With a cap that is not negative, `check_can_fire` allows exactly the deals that may be fired.
pub check_can_fire-MayFire :
    (cfg : Config) (c : Clock) (replies : List Reply) (d : Deal) (w : World)
    → pos 0 ≤ℤ cfg.max_per_trade_usd
    → ((check_can_fire cfg c replies d w).0 ≡ none) ↔ MayFire cfg c replies d w
check_can_fire-MayFire cfg c replies d w h =
    let limits = check_limits-none cfg c d w.store h in
    unfold check_can_fire in
    (
      λ e.
          let (p, q, r) = limits.0 (ground arith) in
          record {
            alive = ground arith;
            reachable = ground arith;
            capped = p;
            unpaused = q;
            fits = r;
          },
      λ m.
          let free = limits.1 (m.capped, m.unpaused, m.fits) in
          ground (arith, m.alive, m.reachable, free),
    )
