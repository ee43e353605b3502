-- ===== src/Preflight/Sound.antt =====
-- What a preflight that passes has checked.
use polymarket_radar.Base.{
  ℕ, suc, ◌≤◌, ◌<◌, ◌≡◌, ◌↔◌, refl, String, Bool, true, false, Option, none, some, List, [], ◌∷◌,
  length, ltb, ◌==◌, string_key, arith, inl, inr, Bool-cases,
}
use polymarket_radar.Preflight.{
  check_depth, PreflightLeg, PreflightResult, Skips, note_check, Remark, on_leg, balance, allowance,
  platform_of, depth_step, balance_step, allowance_step, check_legs, preflight_arb,
}

-- An amount that could be read is enough.
abbrev pub Covers : Option ℕ → ℕ → Type 0
Covers none stake = Unit
Covers (some v) stake = stake ≤ v

module _ (balance_of : String → String → Option ℕ) (allowance_of : String → Bool → Option ℕ)
    (skips : Skips) where
  -- The checks of a leg that are not skipped pass.
  abbrev pub LegPasses : PreflightLeg → String → Type 0
  LegPasses leg address =
      (skips.skip_depth ≡ false → (0 < leg.liquidity) × (leg.stake ≤ leg.liquidity))
      × (skips.skip_balance ≡ false → Covers (balance_of address (platform_of leg)) leg.stake)
      × (skips.skip_allowance ≡ false
          → (platform_of leg == "Polymarket") ≡ true
          → Covers (allowance_of address leg.neg_risk) leg.stake)

  abbrev pub LegsPass : List PreflightLeg → List String → Type 0
  LegsPass [] addresses = Unit
  LegsPass (leg ∷ legs) [] = Unit
  LegsPass (leg ∷ legs) (address ∷ addresses) = LegPasses leg address × LegsPass legs addresses

  leg_steps : ℕ → PreflightLeg → String → PreflightResult → PreflightResult
  leg_steps i leg address res = allowance_step balance_of allowance_of skips i leg address (
      balance_step balance_of allowance_of skips i leg address
        (depth_step balance_of allowance_of skips i leg res))

  note_check-ok :
      (r : Remark) (v : Option ℕ) (stake : ℕ) (res : PreflightResult)
      → ((note_check r v stake res).ok ≡ true) ↔ ((res.ok ≡ true) × Covers v stake)
  note_check-ok r none stake res = ground arith
  note_check-ok r (some v) stake res = ground arith

  depth_step-ok :
      (i : ℕ) (leg : PreflightLeg) (res : PreflightResult)
      → ((depth_step balance_of allowance_of skips i leg res).ok ≡ true) ↔ (
          (res.ok ≡ true)
          × (skips.skip_depth ≡ false → (0 < leg.liquidity) × (leg.stake ≤ leg.liquidity)))
  unfolding check_depth
  depth_step-ok i leg res = ground arith

  balance_step-ok :
      (i : ℕ) (leg : PreflightLeg) (address : String) (res : PreflightResult)
      → ((balance_step balance_of allowance_of skips i leg address res).ok ≡ true) ↔ (
          (res.ok ≡ true)
          × (skips.skip_balance ≡ false → Covers (balance_of address (platform_of leg)) leg.stake))
  balance_step-ok i leg address res =
      let noted =
        note_check-ok (on_leg i balance) (balance_of address (platform_of leg)) leg.stake res in
      elim (Bool-cases skips.skip_balance) [
        | inl h ↦ rw h (λ e. (e, λ f. absurd (ground arith)), λ x. x.0)
        | inr h ↦ rw h (λ e. ((noted.0 e).0, λ f. (noted.0 e).1), λ x. noted.1 (x.0, x.1 refl))
      ]

  allowance_step-ok :
      (i : ℕ) (leg : PreflightLeg) (address : String) (res : PreflightResult)
      → ((allowance_step balance_of allowance_of skips i leg address res).ok ≡ true) ↔ (
          (res.ok ≡ true)
          × (skips.skip_allowance ≡ false
              → (platform_of leg == "Polymarket") ≡ true
              → Covers (allowance_of address leg.neg_risk) leg.stake))
  allowance_step-ok i leg address res =
      let noted =
        note_check-ok (on_leg i allowance) (allowance_of address leg.neg_risk) leg.stake res in
      elim (Bool-cases skips.skip_allowance) [
        | inl h ↦ rw h (λ e. (e, λ f. absurd (ground arith)), λ x. x.0)
        | inr h ↦ elim (Bool-cases (platform_of leg == "Polymarket")) [
          | inl k ↦
              rw (h, k)
                (λ e. ((noted.0 e).0, λ f g. (noted.0 e).1), λ x. noted.1 (x.0, x.1 refl refl))
          | inr k ↦ rw (h, k) (λ e. (e, λ f g. absurd (ground arith)), λ x. x.0)
        ]
      ]

  leg_steps-ok :
      (i : ℕ) (leg : PreflightLeg) (address : String) (res : PreflightResult)
      → ((leg_steps i leg address res).ok ≡ true) ↔ ((res.ok ≡ true) × LegPasses leg address)
  unfolding leg_steps
  leg_steps-ok i leg address res =
      let res1 = depth_step balance_of allowance_of skips i leg res in
      let res2 = balance_step balance_of allowance_of skips i leg address res1 in
      let d = depth_step-ok i leg res in
      let b = balance_step-ok i leg address res1 in
      let a = allowance_step-ok i leg address res2 in
      (
        λ e.
            let (e2, al) = a.0 e in
            let (e1, ba) = b.0 e2 in let (e0, de) = d.0 e1 in (e0, (de, ba, al)),
        λ x. a.1 (b.1 (d.1 (x.0, x.1.0), x.1.1), x.1.2),
      )

  check_legs-ok :
      (i : ℕ) (legs : List PreflightLeg) (addresses : List String) (res : PreflightResult)
      → ((check_legs balance_of allowance_of skips i legs addresses res).ok ≡ true)
        ↔ ((res.ok ≡ true) × LegsPass legs addresses)
  unfolding check_legs leg_steps
  check_legs-ok i [] addresses res = (λ e. (e, tt), λ x. x.0)
  check_legs-ok i (leg ∷ legs) [] res = (λ e. (e, tt), λ x. x.0)
  check_legs-ok i (leg ∷ legs) (address ∷ addresses) res =
      let one_leg = leg_steps-ok i leg address res in
      let others = check_legs-ok (suc i) legs addresses (leg_steps i leg address res) in
      (
        λ e. let (e1, rest) = others.0 e in let (e0, mine) = one_leg.0 e1 in (e0, (mine, rest)),
        λ x. others.1 (one_leg.1 (x.0, x.1.0), x.1.1),
      )

  -- `preflight_arb` passes exactly if each leg has a wallet and, for each leg and its wallet: its depth
  -- is not 0 and holds the stake, the wallet's balance on the leg's chain holds it, and on Polymarket
  -- the allowance does; each unless the check is skipped or the amount could not be read.
  pub preflight_arb_lem :
      (legs : List PreflightLeg) (addresses : List String)
      → ((preflight_arb balance_of allowance_of skips legs addresses).ok ≡ true)
        ↔ ((length legs ≤ length addresses) × LegsPass legs addresses)
  unfolding preflight_arb
  preflight_arb_lem legs addresses =
      let all =
        check_legs-ok 0 legs addresses (record { ok = true; failures = []; warnings = [] }) in
      elim (Bool-cases (ltb (length addresses) (length legs))) [
        | inl few ↦ rw few (λ e. absurd (ground arith), λ x. absurd (ground (arith, few, x.0)))
        | inr enough ↦
            rw enough (λ e. (ground (arith, enough), (all.0 e).1), λ x. all.1 (refl, x.1))
      ]
