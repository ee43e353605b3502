-- ===== src/Executor/Fire.antt =====
-- Scripts/executor/atomic.py, `fire_arb`: the gates before the orders, the legs, the check for a broken
-- arb and what is walked back. The texts of the reasons are left out.
pub mod Gated
use polymarket_radar.Base.{
  ℕ, zero, suc, ◌+◌, String, Bool, true, false, not, ◌&&◌, Option, none, some, List, [], ◌∷◌, map,
  length, is_empty, if◌then◌else◌, eqb,
}
use polymarket_radar.Base.Int.{ℤ, pos, ltb_ℤ}
use polymarket_radar.Risk.State.{Clock}
use polymarket_radar.Risk.Network.{Reply}
use polymarket_radar.Risk.Limits.{Config, World, Deal, Denial, check_can_fire}
use polymarket_radar.Wallets.Coordinator.{Reservations, release_reservations}
use polymarket_radar.Executor.Assign.{WalletStub, assign_wallets}
use polymarket_radar.Executor.Legs.{
  Status, Leg, fire_one_leg_live, fire_one_leg_dryrun, arb_broken, reverted_legs,
}

-- Why `fire_arb` aborts.
pub data Abort : Type 0 where
  wallet_assignment_failed : Abort
  risk_blocked : Denial → Abort
  no_legs : Abort
  min_net_guard : Abort
  preflight_failed : List String → Abort
  depth_recheck_failed : List String → Abort
  graduation_gate : Abort
  broken : Abort

-- The constants that the environment can override.
pub record Settings : Type 0 where
  pub risk : Config
  pub tier1_max : ℕ
  pub tier2_max : ℕ
  pub min_net_per_arb : ℤ
  pub depth_recheck_enabled : Bool
  pub slippage_tolerance : ℕ

-- What a fire meets outside: the clock, the answers of the network check, the failures of the
-- pre-flight checks, those of the depth check unless it raises, whether the graduation is passed,
-- unless its module is missing, and what each leg meets.
pub record Outside : Type 0 where
  pub clock : Clock
  pub replies : List Reply
  pub preflight_failures : List String
  pub depth_failures : Option (List String)
  pub graduation_ready : Option Bool
  pub leg : ℕ → Leg

-- `deal.get('net') or 0`
abbrev pub net_of : Deal → ℤ
net_of d = elim d.net [ none ↦ pos 0 | some n ↦ n ]

-- The gates that follow the risk check.
late_gates : Settings → Outside → Deal → Bool → Option Abort
late_gates s o d dry_run =
    if eqb (length d.stakes) 0
    then some no_legs
    else if ltb_ℤ (net_of d) s.min_net_per_arb
    then some min_net_guard
    else if not (is_empty o.preflight_failures)
    then some (preflight_failed o.preflight_failures)
    else if dry_run
    then none
    else let graduation : Option Abort = elim o.graduation_ready [
      | none ↦ some graduation_gate
      | some ready ↦ if ready then none else some graduation_gate
    ] in
      if s.depth_recheck_enabled
      then elim o.depth_failures [
        | none ↦ graduation
        | some fs ↦ if is_empty fs then graduation else some (depth_recheck_failed fs)
      ]
      else graduation

-- `_assign_wallets` on the legs of the deal.
abbrev pub assigned : Settings → Deal → List WalletStub → Bool → List WalletStub
assigned s d ws dry_run = assign_wallets s.tier1_max s.tier2_max (length d.stakes) ws dry_run

-- The gates of `fire_arb`, in their order.
pub fire_gates : Settings → Outside → Deal → List WalletStub → Bool → World → Option Abort × World
unfolding late_gates
fire_gates s o d ws dry_run w =
    let (denied, w') = check_can_fire s.risk o.clock o.replies d w in
    if is_empty (assigned s d ws dry_run) then (some wallet_assignment_failed, w) else elim denied [
      | some reason ↦ (some (risk_blocked reason), w')
      | none ↦ (late_gates s o d dry_run, w')
    ]

-- What `n` legs from number `i` on meet.
unfoldable pub met_by : (ℕ → Leg) → ℕ → ℕ → List Leg
met_by leg i zero = []
met_by leg i (suc n) = leg i ∷ met_by leg (suc i) n

-- The status of a leg, by the function that fires it.
abbrev pub fire_one_leg : ℕ → Bool → Leg → Status
fire_one_leg tolerance dry_run l =
    if dry_run then fire_one_leg_dryrun l.built else (fire_one_leg_live tolerance l).0

-- `ArbFireResult`: why it was aborted, the statuses of its legs, and the legs walked back.
pub record ArbFireResult : Type 0 where
  pub aborted_reason : Option Abort
  pub legs : List Status
  pub reverted : List ℕ

-- `fire_arb`
unfoldable pub fire_arb :
    Settings
    → Outside
    → Deal
    → List WalletStub
    → Bool
    → World
    → Reservations
    → ArbFireResult × World × Reservations
unfolding met_by
fire_arb s o d ws dry_run w r =
    let (aborted, w') = fire_gates s o d ws dry_run w in
    let statuses =
      map (fire_one_leg s.slippage_tolerance dry_run) (met_by o.leg 0 (length d.stakes)) in
    let walked_back = reverted_legs 0 statuses in
    let released = release_reservations (map (λ x. x.bot_id) (assigned s d ws dry_run)) r in
    elim aborted [
      | some reason ↦ (record { aborted_reason = some reason; legs = []; reverted = [] }, w', r)
      | none ↦
          if arb_broken statuses
          then (
            record { aborted_reason = some broken; legs = statuses; reverted = walked_back },
            w',
            released,
          )
          else (record { aborted_reason = none; legs = statuses; reverted = [] }, w', released)
    ]
