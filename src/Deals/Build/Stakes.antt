-- ===== src/Deals/Build/Stakes.antt =====
-- No stake of a deal is more than half a cent above the cap for one leg, or the liquidity of any leg.
use native.Mathlib.Nat.{
  mul-le-mul_left, mul-le-mul_right, lt_of_mul-lt-mul_right, le_of_mul-le-mul_right, mul-pos,
}
use polymarket_radar.Base.{
  ℕ, ◌+◌, round_div, round_div-IsNearest, ◌*◌, ◌≤◌, ◌<◌, min, ◌≡◌, refl, sym, ap, subst, ◌∙◌, Bool,
  true, Option, none, some, List, [], ◌∷◌, All, ltb, arith, some_if, if-cases, lt→ltb, ltb→lt,
}
use polymarket_radar.Base.Frac.{Frac, whole, ◌*/◌, ltb_frac, ◌≤/◌}
use polymarket_radar.Deals.Build.Profit.{actual_balance_den}
use polymarket_radar.Deals.Build.{
  DealOutcome, Sizing, least_liq, min_liq_of, max_price, max_share_of, or_zero, lower_liq,
  liquidity_scale, capped_scale, actual_balance, cents_of, entry_of, entries_of, all_tradable, Deal,
  deal_of, build_deal,
}

le_of_lt : (a b : ℕ) → a < b → a ≤ b
le_of_lt a b h = omega arith

liquidity_scale_bound :
    (balance min_liq : ℕ) (share : Frac)
    → 0 < min_liq
    → whole balance */ liquidity_scale balance min_liq share */ share ≤/ whole min_liq
liquidity_scale_bound balance min_liq share h =
    if-cases (λ x. whole balance */ x */ share ≤/ whole min_liq) (ltb 0 min_liq) _ _
      (λ e.
        if-cases (λ x. whole balance */ x */ share ≤/ whole min_liq)
          (ltb_frac (whole min_liq) (whole balance */ share)) _ _ (λ g. omega arith)
          (λ g. ground (arith, g)))
      (λ e. absurd (ground (arith, e)))

capped_scale_cap :
    (balance limit : ℕ) (share scale : Frac)
    → whole balance */ capped_scale balance limit share scale */ share ≤/ whole limit
capped_scale_cap balance limit share scale =
    let P : Frac → Type 0 = λ x. whole balance */ x */ share ≤/ whole limit in
    if-cases P (ltb 0 share.num) _ _
      (λ e.
        if-cases P (ltb_frac (whole limit) (whole balance */ scale */ share)) _ _ (λ g. omega arith)
          (λ g. ground (arith, g)))
      (λ e.
        let none_share : share.num ≡ 0 = ground (arith, e) in
        omega (arith, ap (λ (x : ℕ). balance * scale.num * x) none_share))

capped_scale_below :
    (balance limit min_liq : ℕ) (share scale : Frac)
    → whole balance */ scale */ share ≤/ whole min_liq
    → whole balance */ capped_scale balance limit share scale */ share ≤/ whole min_liq
capped_scale_below balance limit min_liq share scale h =
    let P : Frac → Type 0 = λ x. whole balance */ x */ share ≤/ whole min_liq in
    if-cases P (ltb 0 share.num) _ _
      (λ e.
        if-cases P (ltb_frac (whole limit) (whole balance */ scale */ share)) _ _
          (λ g.
            let over =
              ltb→lt (limit * (1 * scale.den * share.den)) (balance * scale.num * share.num * 1)
                g in
            let less : limit < min_liq =
              lt_of_mul-lt-mul_right (scale.den * share.den) (omega (arith, over, h)) in
            let le : limit ≤ min_liq = le_of_lt limit min_liq less in
            let scaled = mul-le-mul_right (balance * share.num * share.den) le in
            omega (arith, scaled))
          (λ g. h))
      (λ e. h)

-- A stake is rounded to cents, so it may be half a cent higher.
cents_of_bound :
    (x : Frac) (bound : ℕ) → 0 < x.den → x ≤/ whole bound → cents_of x ≤/ whole (bound + 50)
cents_of_bound x bound d h =
    let q = round_div x.num (x.den * 100) in
    let near = round_div-IsNearest x.num (x.den * 100) (omega (arith, d)) in
    let scaled : q * 100 * x.den ≤ (bound + 50) * x.den = omega (arith, near.0, h) in
    let le : q * 100 ≤ bound + 50 =
      le_of_mul-le-mul_right {m = q * 100} {n = bound + 50} {k = x.den} scaled d in
    omega (arith, le)

stake_bounded :
    (is_kalshi : Bool) (theta : ℕ) (actual : Frac) (total bound top : ℕ) (o : DealOutcome)
    → 0 < actual.den
    → 0 < total
    → actual.num * top ≤ bound * (actual.den * total)
    → o.price ≤ top
    → (entry_of is_kalshi theta actual total o).stake ≤/ whole (bound + 50)
stake_bounded is_kalshi theta actual total bound top o d t h le =
    let share : Frac = record { num = o.price; den = total } in
    let exact : actual */ share ≤/ whole bound = omega (arith, h, mul-le-mul_left actual.num le) in
    rw (lt→ltb 0 total t) (cents_of_bound (actual */ share) bound (mul-pos d t) exact)

entries_bounded :
    (is_kalshi : Bool) (theta : ℕ) (actual : Frac) (total bound top : ℕ) (os : List DealOutcome)
    → 0 < actual.den
    → 0 < total
    → actual.num * top ≤ bound * (actual.den * total)
    → All (λ o. o.price ≤ top) os
    → All (λ e. e.stake ≤/ whole (bound + 50)) (entries_of is_kalshi theta actual total os)
unfolding entries_of
entries_bounded is_kalshi theta actual total bound top [] d t h a = tt
entries_bounded is_kalshi theta actual total bound top (o ∷ os) d t h a = (
  stake_bounded is_kalshi theta actual total bound top o d t h a.0,
  entries_bounded is_kalshi theta actual total bound top os d t h a.1,
)

prices_below : (top : ℕ) (os : List DealOutcome) → max_price os ≤ top → All (λ o. o.price ≤ top) os
unfolding max_price
prices_below top [] h = tt
prices_below top (o ∷ os) h = (omega (arith, h), prices_below top os (omega (arith, h)))

liquid_below :
    (m n : ℕ) (os : List DealOutcome)
    → m ≤ n
    → All (λ o. n ≤ o.liquidity) os
    → All (λ o. m ≤ o.liquidity) os
liquid_below m n [] h a = tt
liquid_below m n (o ∷ os) h a = (omega (arith, h, a.0), liquid_below m n os h a.1)

first_is_least :
    (l : ℕ) (rest : Option ℕ) (os : List DealOutcome)
    → All (λ o. or_zero rest ≤ o.liquidity) os
    → (rest ≡ none → os ≡ [])
    → (or_zero (lower_liq l rest) ≤ l) × All (λ o. or_zero (lower_liq l rest) ≤ o.liquidity) os
first_is_least l none os a h = (omega arith, subst (All (λ o. l ≤ o.liquidity)) (sym (h refl)) tt)
first_is_least l (some m) os a h = (omega arith, liquid_below (min l m) m os (omega arith) a)

lower_liq_some : {A : Type 0} → (l : ℕ) (x : Option ℕ) → lower_liq l x ≡ none → A
lower_liq_some l none e = absurd (ground (arith, e))
lower_liq_some l (some m) e = absurd (ground (arith, e))

least_liq_step :
    (o : DealOutcome) (os : List DealOutcome)
    → ltb 0 o.liquidity ≡ true
    → least_liq (o ∷ os) ≡ lower_liq o.liquidity (least_liq os)
unfolding least_liq
least_liq_step o os h = rw (h)

least_is_none : (os : List DealOutcome) → all_tradable os ≡ true → least_liq os ≡ none → os ≡ []
unfolding all_tradable
least_is_none [] h e = refl
least_is_none (o ∷ os) h e =
    lower_liq_some o.liquidity (least_liq os) (sym (least_liq_step o os (ground (arith, h))) ∙ e)

-- Every liquidity is at least the least one.
least_liq_below :
    (os : List DealOutcome) → all_tradable os ≡ true → All (λ o. min_liq_of os ≤ o.liquidity) os
unfolding all_tradable
least_liq_below [] h = tt
least_liq_below (o ∷ os) h =
    let rest = all_tradable os in
    let tail : rest ≡ true = ground (arith, h) in
    subst (λ (x : Option ℕ). (or_zero x ≤ o.liquidity) × All (λ p. or_zero x ≤ p.liquidity) os)
      (sym (least_liq_step o os (ground (arith, h))))
      (first_is_least o.liquidity (least_liq os) os (least_liq_below os tail)
        (least_is_none os tail))

share_shape :
    (os : List DealOutcome) (total : ℕ)
    → 0 < total
    → max_share_of os total ≡ record { num = max_price os; den = total }
share_shape os total t = rw (lt→ltb 0 total t)

-- What holds of the largest share of the balance holds of every stake.
stakes_bounded :
    (is_kalshi : Bool) (theta : ℕ) (actual : Frac) (total bound : ℕ) (os : List DealOutcome)
    → 0 < actual.den
    → 0 < total
    → actual */ max_share_of os total ≤/ whole bound
    → All (λ e. e.stake ≤/ whole (bound + 50)) (entries_of is_kalshi theta actual total os)
stakes_bounded is_kalshi theta actual total bound os d t h =
    let of_prices = subst (λ (x : Frac). actual */ x ≤/ whole bound) (share_shape os total t) h in
    entries_bounded is_kalshi theta actual total bound (max_price os) os d t
      (omega (arith, of_prices)) (prices_below (max_price os) os (omega arith))

-- A deal that `build_deal` gives stakes, on any leg, at most half a cent more than the cap for one trade
-- and at most half a cent more than any leg has in liquidity: a stake is rounded to cents. Every leg's
-- liquidity is at least the smallest allowed. The total is above 0, and so is the smallest liquidity
-- allowed.
pub build_deal_stakes :
    (c : Sizing) (is_kalshi : Bool) (os : List DealOutcome) (total theta payout_target : ℕ)
    (deal : Deal)
    → 0 < total
    → 0 < c.min_leg_liq
    → build_deal c is_kalshi os total theta payout_target ≡ some deal
    → All (λ e. e.stake ≤/ whole (c.per_trade_cap + 50)) deal.entries
      × All (λ e. e.stake ≤/ whole (deal.min_liq + 50)) deal.entries
      × All (λ o. deal.min_liq ≤ o.liquidity) os
      × (c.min_leg_liq ≤ deal.min_liq)
unfolding build_deal deal_of actual_balance
build_deal_stakes c is_kalshi os total theta payout_target deal t m e =
    let actual = actual_balance c os total in
    let (gates, same) = some_if _ _ deal e in
    let tradable : all_tradable os ≡ true = ground (arith, gates) in
    let enough : c.min_leg_liq ≤ min_liq_of os = ground (arith, gates) in
    let share = max_share_of os total in
    let scale = liquidity_scale c.balance (min_liq_of os) share in
    let d = actual_balance_den c os total in
    let capped : actual */ share ≤/ whole c.per_trade_cap =
      capped_scale_cap c.balance c.per_trade_cap share scale in
    let liquid : actual */ share ≤/ whole (min_liq_of os) =
      capped_scale_below c.balance c.per_trade_cap (min_liq_of os) share scale
        (liquidity_scale_bound c.balance (min_liq_of os) share (omega (arith, m, enough))) in
    rw (sym same) (
      stakes_bounded is_kalshi theta actual total c.per_trade_cap os d t capped,
      stakes_bounded is_kalshi theta actual total (min_liq_of os) os d t liquid,
      least_liq_below os tradable,
      enough,
    )
