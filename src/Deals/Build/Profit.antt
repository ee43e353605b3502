-- ===== src/Deals/Build/Profit.antt =====
-- A deal that is built pays more than it costs, whichever of its outcomes happens.
use native.Mathlib.Nat.{mul-lt-mul_of_pos_right, mul-pos}
use polymarket_radar.Base.{
  ℕ, zero, suc, ◌+◌, ◌-◌, ◌*◌, ◌<◌, ◌≡◌, sym, subst, ltb→lt, lt→ltb, Bool, true, some, List, [],
  ◌∷◌, All, ltb, arith, some_if, if-cases,
}
use polymarket_radar.Base.Frac.{Frac, whole, ◌+/◌, ◌*/◌, ltb_frac, ◌</◌}
use polymarket_radar.Deals.Build.{
  usd, DealOutcome, Sizing, min_liq_of, max_share_of, liquidity_scale, capped_scale, actual_balance,
  gross_of, entries_of, total_fee, Deal, deal_of, build_deal,
}

positive_factor : (x n m f : ℕ) → x < n * m * f → 0 < m
positive_factor x n zero f h = absurd (omega (arith, h))
positive_factor x n (suc m) f h = omega arith

pays_with_margin :
    (n d total p m fee_n fee_d : ℕ)
    → 0 < p
    → 0 < d
    → fee_n * (d * total) < n * m * fee_d
    → (n * fee_d + fee_n * d) * (d * total * p) < n * p * (m + total) * (d * fee_d)
pays_with_margin n d total p m fee_n fee_d hp hd h =
    let scaled = mul-lt-mul_of_pos_right h (mul-pos hp hd) in omega (arith, scaled)

-- With `n` over `d` spent at a total of `total`, the contracts of a leg at the price `p` pay `payout`
-- each: more than what is spent and the fee of `fee_n` over `fee_d`, where the gross profit is.
pays_more :
    (n d total p payout fee_n fee_d : ℕ)
    → 0 < p
    → 0 < d
    → fee_n * (d * total) < n * (payout - total) * fee_d
    → (n * fee_d + fee_n * d) * (d * total * p) < n * p * payout * (d * fee_d)
pays_more n d total p payout fee_n fee_d hp hd h =
    let above = positive_factor (fee_n * (d * total)) n (payout - total) fee_d h in
    let sum_back : (payout - total) + total ≡ payout = omega (arith, above) in
    subst (λ x. (n * fee_d + fee_n * d) * (d * total * p) < n * p * x * (d * fee_d)) sum_back
      (pays_with_margin n d total p (payout - total) fee_n fee_d hp hd h)

liquidity_scale_den :
    (balance min_liq : ℕ) (share : Frac) → 0 < (liquidity_scale balance min_liq share).den
liquidity_scale_den balance min_liq share =
    if-cases (λ (x : Frac). 0 < x.den) (ltb 0 min_liq) _ _
      (λ e.
        if-cases (λ (x : Frac). 0 < x.den) (ltb_frac (whole min_liq) (whole balance */ share)) _ _
          (λ g. ground arith) (λ g. omega arith))
      (λ e. omega arith)

capped_scale_den :
    (balance cap : ℕ) (share scale : Frac)
    → 0 < scale.den
    → 0 < (capped_scale balance cap share scale).den
capped_scale_den balance cap share scale h =
    if-cases (λ (x : Frac). 0 < x.den) (ltb 0 share.num) _ _
      (λ e.
        if-cases (λ (x : Frac). 0 < x.den) (ltb_frac (whole cap) (whole balance */ scale */ share))
          _ _
          (λ g.
            let over =
              ltb→lt (cap * (1 * scale.den * share.den)) (balance * scale.num * share.num * 1) g in
            let some_num =
              positive_factor (cap * (1 * scale.den * share.den)) scale.num (balance * share.num) 1
                (omega (arith, over)) in
            omega (arith, some_num))
          (λ g. h))
      (λ e. h)

pub actual_balance_den :
    (c : Sizing) (os : List DealOutcome) (total : ℕ) → 0 < (actual_balance c os total).den
unfolding actual_balance
actual_balance_den c os total =
    let share = max_share_of os total in
    let scale = liquidity_scale c.balance (min_liq_of os) share in
    let positive =
      capped_scale_den c.balance c.per_trade_cap share scale
        (liquidity_scale_den c.balance (min_liq_of os) share) in
    omega (arith, positive)

entries_pay :
    (is_kalshi : Bool) (theta : ℕ) (actual fee : Frac) (total payout : ℕ) (os : List DealOutcome)
    → 0 < total
    → 0 < actual.den
    → fee.num * (actual.den * total) < actual.num * (payout - total) * fee.den
    → All (λ o. 0 < o.price) os
    → All
        (λ e. actual +/ fee </ e.contracts */ whole payout)
        (entries_of is_kalshi theta actual total os)
unfolding entries_of
entries_pay is_kalshi theta actual fee total payout [] t h g a = tt
entries_pay is_kalshi theta actual fee total payout (o ∷ os) t h g a = (
  rw (lt→ltb 0 o.price a.0, lt→ltb 0 total t)
      (omega (arith, pays_more actual.num actual.den total o.price payout fee.num fee.den a.0 h g)),
  entries_pay is_kalshi theta actual fee total payout os t h g a.1,
)

gross_shape :
    (actual : Frac) (payout total : ℕ)
    → 0 < total
    → gross_of actual payout total
      ≡ record { num = actual.num * (payout - total); den = actual.den * total }
gross_shape actual payout total t = rw (lt→ltb 0 total t)

-- A deal that `build_deal` gives makes a profit with each of its legs: if the contracts of one leg pay
-- the payout target, they pay more than the whole balance that the deal spends and all its fees. The
-- total and the prices of the outcomes are above 0.
pub build_deal_pays :
    (c : Sizing) (is_kalshi : Bool) (os : List DealOutcome) (total theta payout_target : ℕ)
    (deal : Deal)
    → 0 < total
    → All (λ o. 0 < o.price) os
    → build_deal c is_kalshi os total theta payout_target ≡ some deal
    → All
        (λ e. deal.balance_used +/ deal.fee </ e.contracts */ whole (payout_target * usd))
        deal.entries
unfolding build_deal deal_of
build_deal_pays c is_kalshi os total theta payout_target deal t a e =
    let actual = actual_balance c os total in
    let entries = entries_of is_kalshi theta actual total os in
    let (gates, same) = some_if _ _ deal e in
    let net : ltb_frac (total_fee entries) (gross_of actual (payout_target * usd) total) ≡ true =
      ground (arith, gates) in
    let profit : (total_fee entries).num * (actual.den * total)
        < actual.num * (payout_target * usd - total) * (total_fee entries).den =
      ltb→lt _ _ (
        subst (λ x. ltb_frac (total_fee entries) x ≡ true)
          (gross_shape actual (payout_target * usd) total t) net) in
    rw (sym same) (
      entries_pay is_kalshi theta actual (total_fee entries) total (payout_target * usd) os t
        (actual_balance_den c os total) profit a)
