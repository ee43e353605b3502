-- ===== src/Executor/Fire/Gated.antt =====
-- Orders go out only through every gate, and a live fire that is not aborted leaves no arb half open.
use polymarket_radar.Base.{
  ℕ, zero, suc, ◌≡◌, refl, ◌≢◌, ◌⊎◌, inl, inr, ◌↔◌, Bool, true, false, none, some, List, [], ◌∷◌,
  map, length, All, arith, Option-cases,
}
use polymarket_radar.Base.Int.{pos, ◌≤ℤ◌}
use polymarket_radar.Risk.Limits.{World, Deal}
use polymarket_radar.Risk.Limits.Gate.{MayFire, check_can_fire-MayFire}
use polymarket_radar.Wallets.Coordinator.{Reservations, release_reservations}
use polymarket_radar.Executor.Assign.{WalletStub}
use polymarket_radar.Executor.Assign.Spread.{assign_wallets-none}
use polymarket_radar.Executor.Legs.{Leg}
use polymarket_radar.Executor.Legs.Broken.{is_good, is_held, arb_broken-live}
use polymarket_radar.Executor.Fire.{
  Settings, Outside, net_of, late_gates, assigned, fire_gates, met_by, fire_one_leg, fire_arb,
  no_legs, wallet_assignment_failed,
}

-- What the gates after the risk check ask for.
pub record PassesLate (s : Settings) (o : Outside) (d : Deal) (dry_run : Bool) : Type 0 where
  pub has_legs : length d.stakes ≢ 0
  pub net_enough : s.min_net_per_arb ≤ℤ net_of d
  pub preflight : o.preflight_failures ≡ []
  pub deep :
      dry_run ≡ true
      ⊎ s.depth_recheck_enabled ≡ false
      ⊎ o.depth_failures ≡ none
      ⊎ o.depth_failures ≡ some []
  pub graduated : dry_run ≡ true ⊎ o.graduation_ready ≡ some true

late_gates-PassesLate :
    (s : Settings) (o : Outside) (d : Deal) (dry_run : Bool)
    → (late_gates s o d dry_run ≡ none) ↔ PassesLate s o d dry_run
unfolding late_gates
late_gates-PassesLate s o d dry_run = (
  λ h. record {
    has_legs = ground arith;
    net_enough = ground arith;
    preflight = ground arith;
    deep = ground arith;
    graduated = ground arith;
  },
  λ p. ground (arith, p.has_legs, p.net_enough, p.preflight, p.deep, p.graduated),
)

-- What it takes to send the orders of a deal: wallets, the leave of the risk checks, and the later
-- gates.
pub record MaySend (s : Settings) (o : Outside) (d : Deal) (ws : List WalletStub) (dry_run : Bool)
    (w : World) : Type 0 where
  pub has_wallets : assigned s d ws dry_run ≢ []
  pub may_fire : MayFire s.risk o.clock o.replies d w
  pub late : PassesLate s o d dry_run

-- With a cap on stakes that is not negative, the gates let exactly the deals through that may be sent.
pub fire_gates-MaySend :
    (s : Settings) (o : Outside) (d : Deal) (ws : List WalletStub) (dry_run : Bool) (w : World)
    → pos 0 ≤ℤ s.risk.max_per_trade_usd
    → ((fire_gates s o d ws dry_run w).0 ≡ none) ↔ MaySend s o d ws dry_run w
fire_gates-MaySend s o d ws dry_run w h =
    let risk = check_can_fire-MayFire s.risk o.clock o.replies d w h in
    let late = late_gates-PassesLate s o d dry_run in
    unfold fire_gates in
    (
      λ e. record {
        has_wallets = ground arith;
        may_fire = risk.0 (ground arith);
        late = late.0 (ground arith);
      },
      λ m.
          let allowed = risk.1 m.may_fire in
          let passed = late.1 m.late in ground (arith, m.has_wallets, allowed, passed),
    )

length-map {ℓ κ} :
    {A : Type ℓ} {B : Type κ} (f : A → B) (xs : List A) → length (map f xs) ≡ length xs
length-map f [] = refl
length-map f (x ∷ xs) = omega (arith, length-map f xs)

length-met_by : (leg : ℕ → Leg) (i n : ℕ) → length (met_by leg i n) ≡ n
unfolding met_by
length-met_by leg i zero = refl
length-met_by leg i (suc n) = omega (arith, length-met_by leg (suc i) n)

-- With a cap on stakes that is not negative, a live fire that ends without a reason to abort passed
-- every gate, and of its legs either all were filled within the tolerance or none was filled at all.
pub fire_arb-live :
    (s : Settings) (o : Outside) (d : Deal) (ws : List WalletStub) (w : World) (r : Reservations)
    → pos 0 ≤ℤ s.risk.max_per_trade_usd
    → (fire_arb s o d ws false w r).0.aborted_reason ≡ none
    → let legs = met_by o.leg 0 (length d.stakes) in
      MaySend s o d ws false w
      × (All (λ l. is_good s.slippage_tolerance l ≡ true) legs ⊎ All (λ l. is_held l ≡ false) legs)
fire_arb-live s o d ws w r h e =
    let legs = met_by o.leg 0 (length d.stakes) in
    let gates = fire_gates-MaySend s o d ws false w h in
    let whole = arb_broken-live s.slippage_tolerance legs in
    unfold fire_arb in (gates.0 (ground arith), whole.0 (ground arith))

-- A fire that a gate refuses sends no leg, walks none back and leaves the reservations alone; one
-- that passes sends one leg for each stake and releases the wallets it was given.
pub fire_arb_lem :
    (s : Settings) (o : Outside) (d : Deal) (ws : List WalletStub) (dry_run : Bool) (w : World)
    (r : Reservations)
    → let (result, w', r') = fire_arb s o d ws dry_run w r in
      (((fire_gates s o d ws dry_run w).0 ≢ none)
        × (result.legs ≡ [])
        × (result.reverted ≡ [])
        × (r' ≡ r))
      ⊎ (((fire_gates s o d ws dry_run w).0 ≡ none)
          × (length result.legs ≡ length d.stakes)
          × (r' ≡ release_reservations (map (λ x. x.bot_id) (assigned s d ws dry_run)) r))
fire_arb_lem s o d ws dry_run w r =
    let legs = met_by o.leg 0 (length d.stakes) in
    let sent = length-map (fire_one_leg s.slippage_tolerance dry_run) legs in
    let met = length-met_by o.leg 0 (length d.stakes) in
    elim (Option-cases (fire_gates s o d ws dry_run w).0) [
      | inl e ↦ inr (unfold fire_arb in ground (arith, e, sent, met))
      | inr (reason, e) ↦ inl (unfold fire_arb in ground (arith, e))
    ]

-- A deal without legs is refused for want of wallets, so the check for legs that follows never
-- refuses one.
pub no_legs_unreachable :
    (s : Settings) (o : Outside) (d : Deal) (ws : List WalletStub) (dry_run : Bool) (w : World)
    → (length d.stakes ≡ 0 → (fire_gates s o d ws dry_run w).0 ≡ some wallet_assignment_failed)
      × ((fire_gates s o d ws dry_run w).0 ≢ some no_legs)
unfolding fire_gates late_gates
no_legs_unreachable s o d ws dry_run w =
    let none_needed = assign_wallets-none s.tier1_max s.tier2_max ws dry_run in
    (λ e. ground (arith, e, none_needed), λ e. ground (arith, e, none_needed))
