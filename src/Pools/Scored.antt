-- ===== src/Pools/Scored.antt =====
-- Scripts/radar/eval/pools.py: the sum of a candidate is below a limit exactly if a structure is.
use polymarket_radar.Base.{
  ℕ, ◌+◌, ◌-◌, ◌*◌, ◌≡◌, refl, subst, ap, ◌∙◌, String, Bool, true, false, not, ◌&&◌, ◌||◌, Option,
  none, some, List, [], ◌∷◌, ◌++◌, All, length, any, is_empty, ltb, leb, eqb, if◌then◌else◌,
  string_key, nat_key, pair_key, arith, if-cases,
}
use polymarket_radar.Base.Frac.{Frac, whole, ltb_frac}
use polymarket_radar.Deals.Build.{usd, is_real_source}
use polymarket_radar.Deals.Series.{is_threshold_series}
use polymarket_radar.Deals.SxBet.{SxMarket}
use polymarket_radar.Deals.Markets.{poly_per_market}
use polymarket_radar.Deals.Poly.{Candidate, total_outcomes_of, names_of}
use polymarket_radar.Deals.Limitless.{quote_of}
use polymarket_radar.Pools.Sums.{
  SumLeg, sum_yes, sum_no, no_raw, all_alive, less_of, pair_min, pair_sums, no_share, least_from,
  least, child_titles, group_sums, gather, sums_unless_empty, single_leg, sum_limitless_cand,
  poly_legs, poly_sums, sum_poly_cand, kalshi_legs, kalshi_sums, sum_kalshi_cand, sum_sx_market,
}
use polymarket_radar.Pools.Classify.{with_limit, LimCand, Quotes}
use polymarket_radar.Pools.Split.{HasDen, is_below}
use polymarket_radar.Pools.Pooled.{
  le_trans, pair_sums-HasDen, group_sums-HasDen, poly_sums-HasDen, kalshi_sums-HasDen,
}
use polymarket_radar.Pools.Below.{
  cost, yes_cost, no_cost, nos, is_pair_below, some_below, poly_below, kalshi_below, sx_below,
  lim_below,
}

-- The code's sums are those costs.
sum_yes_cost : (legs : List SumLeg) → sum_yes legs ≡ yes_cost legs
unfolding sum_yes cost
sum_yes_cost [] = refl
sum_yes_cost (p ∷ ps) = ap (λ n. p.yes + n) (sum_yes_cost ps)

sum_no_cost :
    (legs : List SumLeg) → (sum_no (no_raw legs) ≡ no_cost legs) × (length (no_raw legs) ≡ nos legs)
unfolding sum_no cost
sum_no_cost [] = (refl, refl)
sum_no_cost (p ∷ ps) = ground (arith, sum_no_cost ps)

or_assoc : (a b c : Bool) → ((a || b) || c) ≡ (a || (b || c))
or_assoc a b c = ground arith

abbrev below : ℕ → Frac → Bool
below limit s = ltb_frac s (whole limit)

lower-below :
    (limit : ℕ) (x m : Frac)
    → HasDen x
    → HasDen m
    → below limit (if ltb_frac x m then x else m) ≡ (below limit m || below limit x)
lower-below limit x m dx dm =
    if-cases (λ y. below limit y ≡ (below limit m || below limit x)) (ltb_frac x m) x m
      (λ e. ground (arith, e, le_trans (whole limit) x m dx))
      (λ e. ground (arith, e, le_trans (whole limit) m x dm))

least_from-below :
    (limit : ℕ) (m : Frac) (xs : List Frac)
    → HasDen m
    → All HasDen xs
    → below limit (least_from m xs) ≡ (below limit m || any (below limit) xs)
least_from-below limit m [] d ds = ground arith
least_from-below limit m (x ∷ xs) d ds =
    let next = if ltb_frac x m then x else m in
    least_from-below limit next xs (if-cases HasDen (ltb_frac x m) x m (λ e. ds.0) (λ e. d)) ds.1
    ∙ ap (λ b. b || any (below limit) xs) (lower-below limit x m ds.0 d)
    ∙ or_assoc (below limit m) (below limit x) (any (below limit) xs)

least-below :
    (limit : ℕ) (xs : List Frac)
    → All HasDen xs
    → is_below (with_limit limit (least xs)) ≡ any (below limit) xs
unfolding least
least-below limit [] ds = refl
least-below limit (x ∷ xs) ds = least_from-below limit x xs ds.0 ds.1

pair_min-below :
    (limit : ℕ) (ps : List SumLeg) (m : Option ℕ)
    → any (below limit) (pair_sums (pair_min ps m))
      ≡ (any (below limit) (pair_sums m) || any (is_pair_below limit) ps)
unfolding pair_min
pair_min-below limit [] m = ground arith
pair_min-below limit (p ∷ ps) none =
    pair_min-below limit ps
      (if ltb 0 p.no_price && ltb 0 p.yes && p.alive then some (p.yes + p.no_price) else none)
    ∙ ground arith
pair_min-below limit (p ∷ ps) (some m) =
    pair_min-below limit ps (
      if ltb 0 p.no_price && ltb 0 p.yes && p.alive
      then less_of (p.yes + p.no_price) (some m)
      else some m)
    ∙ ground arith

-- The guard on the number of legs.
few-below :
    (limit n least_n : ℕ) (sums : List Frac) (b : Bool)
    → is_below (with_limit limit (least sums)) ≡ b
    → is_below (with_limit limit (if ltb n least_n then none else least sums))
      ≡ (leb least_n n && b)
few-below limit n least_n sums b h = ground (arith, h)

subst2 : (P : ℕ → ℕ → Type 0) {a b c d : ℕ} → a ≡ b → c ≡ d → P a c → P b d
subst2 P {b = b} {c = c} e f h = subst (P b) f (subst (λ x. P x c) e h)

branches :
    {A : Type 0} (c : Bool) (f : A → Bool) {x y : A} {a b : Bool}
    → f x ≡ a
    → f y ≡ b
    → f (if c then x else y) ≡ (if c then a else b)
branches true f h k = h
branches false f h k = k

-- The three candidates for the least sum.
sums-below :
    (limit : ℕ) (a b : Bool) (legs : List SumLeg)
    → any (below limit) (
        (if a then whole (sum_yes legs) ∷ [] else [])
        ++ (if b then no_share (no_raw legs) ∷ [] else [])
        ++ pair_sums (pair_min legs none))
      ≡ some_below limit a b legs
sums-below limit a b legs =
    ground (arith, sum_yes_cost legs, sum_no_cost legs, pair_min-below limit legs none)

-- The sums of a group of legs, with the guards on them.
poly_sums-below :
    (limit : ℕ) (is_single is_series : Bool) (total : ℕ) (legs : List SumLeg)
    → any (below limit) (poly_sums is_single is_series total legs)
      ≡ some_below limit
          (not is_single && eqb (length legs) total && not is_series && ltb 0 (yes_cost legs))
          (not is_single && leb 3 (nos legs) && eqb (nos legs) total && not is_series)
          legs
unfolding poly_sums
poly_sums-below limit is_single is_series total legs =
    subst2
      (λ (y n : ℕ).
        any (below limit) (poly_sums is_single is_series total legs)
        ≡ some_below limit (not is_single && eqb (length legs) total && not is_series && ltb 0 y)
            (not is_single && leb 3 n && eqb n total && not is_series) legs)
      (sum_yes_cost legs) (sum_no_cost legs).1 (sums-below limit _ _ legs)

kalshi_sums-below :
    (limit total : ℕ) (legs : List SumLeg)
    → any (below limit) (kalshi_sums total legs)
      ≡ some_below limit
          (eqb (length legs) total && leb usd (2 * yes_cost legs))
          (leb 3 (nos legs) && eqb (nos legs) total)
          legs
unfolding kalshi_sums
kalshi_sums-below limit total legs =
    subst2
      (λ (y n : ℕ).
        any (below limit) (kalshi_sums total legs)
        ≡ some_below limit (eqb (length legs) total && leb usd (2 * y)) (leb 3 n && eqb n total)
            legs)
      (sum_yes_cost legs) (sum_no_cost legs).1 (sums-below limit _ _ legs)

group_sums-below :
    (limit : ℕ) (is_series : Bool) (total missing : ℕ) (legs : List SumLeg)
    → any (below limit) (group_sums is_series total missing legs)
      ≡ some_below limit
          (eqb missing 0 && not is_series && all_alive legs && leb (2 * yes_cost legs) (3 * usd))
          (eqb (nos legs) total
            && leb 3 (nos legs)
            && not is_series
            && all_alive legs
            && leb (2 * no_cost legs) ((2 * nos legs - 1) * usd))
          legs
unfolding group_sums
group_sums-below limit is_series total missing legs =
    let is_shape : ℕ → ℕ → ℕ → Type 0 = λ y n z.
      any (below limit) (group_sums is_series total missing legs)
      ≡ some_below limit (eqb missing 0 && not is_series && all_alive legs && leb (2 * y) (3 * usd))
          (eqb n total
            && leb 3 n
            && not is_series
            && all_alive legs
            && leb (2 * z) ((2 * n - 1) * usd))
          legs in
    let (no_sum, no_count) = sum_no_cost legs in
    subst (is_shape (yes_cost legs) (nos legs)) no_sum (
      subst2 (λ y n. is_shape y n (sum_no (no_raw legs))) (sum_yes_cost legs) no_count
        (sums-below limit _ _ legs))

-- The sum of a candidate is below a limit exactly if some structure is.
pub sum_poly_cand-below :
    (q : Quotes) (limit : ℕ) (cand : Candidate)
    → any
        (λ p. is_real_source p.yes.src && is_real_source p.no_side.src)
        (poly_per_market q.clob_res q.ws_books cand.rough)
      ≡ true
    → is_below (with_limit limit (sum_poly_cand q.patterns q.clob_res q.ws_books cand))
      ≡ poly_below q limit cand
unfolding sum_poly_cand
sum_poly_cand-below q limit cand h =
    let per = poly_per_market q.clob_res q.ws_books cand.rough in
    let legs = poly_legs per in
    let is_series = is_threshold_series q.patterns cand.title (names_of per) [] in
    let total = total_outcomes_of cand per in
    let sums = poly_sums cand.is_single_binary is_series total legs in
    let all = poly_sums-HasDen cand.is_single_binary is_series total legs in
    let same =
      least-below limit sums all
      ∙ poly_sums-below limit cand.is_single_binary is_series total legs in
    rw (h) (few-below limit (length per) (if cand.is_single_binary then 1 else 2) sums _ same)

pub sum_kalshi_cand-below :
    (q : Quotes) (limit : ℕ) (tickers : List String)
    → is_below (with_limit limit (sum_kalshi_cand q.kalshi_res tickers))
      ≡ kalshi_below q limit tickers
unfolding sum_kalshi_cand
sum_kalshi_cand-below q limit tickers =
    let legs = kalshi_legs q.kalshi_res tickers in
    let total = length tickers in
    few-below limit (length legs) 2 (kalshi_sums total legs) _ (
      least-below limit (kalshi_sums total legs) (kalshi_sums-HasDen total legs)
      ∙ kalshi_sums-below limit total legs)

pub sum_sx_market-below :
    (q : Quotes) (limit : ℕ) (m : SxMarket)
    → is_below (with_limit limit (sum_sx_market q.sx_res m.market_hash)) ≡ sx_below q limit m
unfolding sum_sx_market
sum_sx_market-below q limit m = ground arith

sums_unless_empty-below :
    (limit : ℕ) (legs : List SumLeg) (sums : List Frac) (b : Bool)
    → is_below (with_limit limit (least sums)) ≡ b
    → is_below (with_limit limit (sums_unless_empty legs sums)) ≡ (not (is_empty legs) && b)
sums_unless_empty-below limit [] sums b h = refl
sums_unless_empty-below limit (p ∷ ps) sums b h = h

pub sum_limitless_cand-below :
    (q : Quotes) (limit : ℕ) (x : LimCand)
    → is_below (with_limit limit (sum_limitless_cand q.patterns q.lim_volume q.lim_res x.event))
      ≡ lim_below q limit x
unfolding sum_limitless_cand
sum_limitless_cand-below q limit x =
    let ev = x.event in
    let (legs, missing) = gather q.lim_volume q.lim_res ev.children in
    let is_series = is_threshold_series q.patterns ev.title (child_titles ev.children) [] in
    let total = length ev.children in
    let sums = group_sums is_series total missing legs in
    let single = single_leg q.lim_volume (quote_of q.lim_res ev.slug) in
    let pair = pair_sums (pair_min single none) in
    let alone =
      least-below limit pair (pair_sums-HasDen (pair_min single none))
      ∙ pair_min-below limit single none in
    let group = sums_unless_empty-below limit legs sums _ (
      least-below limit sums (group_sums-HasDen is_series total missing legs)
      ∙ group_sums-below limit is_series total missing legs) in
    branches (is_empty ev.children) (λ o. is_below (with_limit limit o)) alone group
