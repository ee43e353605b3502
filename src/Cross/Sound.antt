-- ===== src/Cross/Sound.antt =====
-- Every deal between two exchanges is below its threshold, on legs with depth.
use polymarket_radar.Base.{
  ℕ, suc, ◌+◌, ◌-◌, ◌≤◌, ◌<◌, max, ◌≡◌, refl, ap, subst, ◌≢◌, String, Bool, true, false, not, ◌&&◌,
  ◌||◌, Option, none, some, List, [], ◌∷◌, All, All-append, length, any, leb, if◌then◌else◌, ◌==◌,
  string_key, nat_key, pair_key, arith, if-cases,
}
use polymarket_radar.Base.{str_apart}
use polymarket_radar.Base.Dict.{Dict}
use polymarket_radar.Base.Sort.{All-sort}
use polymarket_radar.Cross.Match.{Texts, outcomes_compatible, scopes_compatible, leagues_compatible}
use polymarket_radar.Cross.Outcomes.{
  Quote, PlatformOutcome, CpLeg, Structure, x1, x2, CpDeal, side_of, check_settlement_timing,
}
use polymarket_radar.Cross.Build.{
  Built, Verdict, rejected, accepted, min_leg_depth, verdict_at, verdict, cross_deal, built_of,
  direction, build_cross_platform_deal,
}
use polymarket_radar.Cross.Cover.{
  CpConfig, yes_leg, cons_leg, yes_legs, sum_prices, complement_of, same_scope, cover_of, bucket,
  group_into, to_list, build_complement_cover_deal, covers_of, deals_of_pairs,
  find_cross_platform_arbs,
}

-- A leg whose price is not implied, with a depth of $5. Any other source passes, also one that is not
-- among the order books of `REAL_OB_SOURCES`.
abbrev pub IsDeep : CpLeg → Type 0
IsDeep l = (l.source ≢ "implied") × (min_leg_depth ≤ l.depth)

-- The prices add up to the sum of the deal, which is below its threshold, and that is one of `c`.
abbrev pub IsArb : CpConfig → CpDeal → Type 0
IsArb c d =
    (sum_prices d.legs ≡ d.sum)
    × (d.sum < d.threshold)
    × (d.threshold ≤ max c.threshold c.cover_threshold)
    × (2 ≤ length d.legs)
    × All IsDeep d.legs

abbrev QuoteIsDeep : Quote → Type 0
QuoteIsDeep a = ((a.source == "implied") ≡ false) × (min_leg_depth ≤ a.depth)

some_unless {ℓ} :
    {A : Type ℓ} (b : Bool) (x y : A)
    → (if b then none else some x) ≡ some y
    → (b ≡ false) × (x ≡ y)
some_unless true x y e = absurd (ground (arith, e))
some_unless false x y e = (refl, ground (arith, e))

verdict_at_lem :
    (threshold : ℕ) (a b : Quote) (x y : Option ℕ) (p q : ℕ)
    → verdict_at threshold a b x y ≡ accepted p q
    → (p + q < threshold) × QuoteIsDeep a × QuoteIsDeep b
verdict_at_lem threshold a b none y p q e = ground (arith, e)
verdict_at_lem threshold a b (some x) none p q e = ground (arith, e)
verdict_at_lem threshold a b (some x) (some y) p q e = ground (arith, e)

quote_real : (q : Quote) → QuoteIsDeep q → (q.source ≢ "implied") × (min_leg_depth ≤ q.depth)
quote_real q h = (str_apart q.source "implied" h.0, h.1)

built_of-Arb :
    (c : CpConfig) (structure : Structure) (confidence : ℕ) (a b : PlatformOutcome) (a_yes : Bool)
    (v : Verdict)
    → verdict c.threshold (side_of a a_yes) (side_of b (not a_yes)) ≡ v
    → All
        (IsArb c)
        (built_of (cross_deal structure c.threshold c.balance confidence a b a_yes) v).deals
unfolding verdict sum_prices
built_of-Arb c structure confidence a b a_yes (rejected r) e = tt
built_of-Arb c structure confidence a b a_yes (accepted p q) e =
    let (below, real_a, real_b) =
      verdict_at_lem c.threshold (side_of a a_yes) (side_of b (not a_yes)) _ _ p q e in
    (
      (
        omega arith,
        below,
        omega arith,
        omega arith,
        (quote_real (side_of a a_yes) real_a, (quote_real (side_of b (not a_yes)) real_b, tt)),
      ),
      tt,
    )

direction-Arb :
    (c : CpConfig) (structure : Structure) (confidence : ℕ) (a b : PlatformOutcome) (a_yes : Bool)
    → All (IsArb c) (direction structure c.threshold c.balance confidence a b a_yes).deals
unfolding direction
direction-Arb c structure confidence a b a_yes =
    built_of-Arb c structure confidence a b a_yes
      (verdict c.threshold (side_of a a_yes) (side_of b (not a_yes))) refl

build_cross_platform_deal-Arb :
    (t : Texts) (c : CpConfig) (a b : PlatformOutcome) (confidence : ℕ)
    → All (IsArb c) (build_cross_platform_deal t c.fuzzy c.threshold c.balance a b confidence).deals
unfolding build_cross_platform_deal
build_cross_platform_deal-Arb t c a b confidence =
    let P : Built → Type 0 = λ x. All (IsArb c) x.deals in
    if-cases P
      (not (scopes_compatible (t.scope a.title a.outcome_name) (t.scope b.title b.outcome_name))) _
      _ (λ e. tt)
      (λ e.
        if-cases P (not (leagues_compatible (t.league a.title) (t.league b.title))) _ _ (λ e. tt)
          (λ e.
            if-cases P (not (outcomes_compatible t c.fuzzy a.outcome_name b.outcome_name)) _ _
              (λ e. tt)
              (λ e.
                All-append (IsArb c) _ _ (direction-Arb c x1 confidence a b true)
                  (direction-Arb c x2 confidence a b false))))

deals_of_pairs-Arb :
    (t : Texts) (c : CpConfig) (pairs : List (PlatformOutcome × PlatformOutcome × ℕ))
    → All (IsArb c) (deals_of_pairs t c pairs)
unfolding deals_of_pairs
deals_of_pairs-Arb t c [] = tt
deals_of_pairs-Arb t c ((a, b, confidence) ∷ ps) =
    All-append (IsArb c) _ _
      (if-cases (λ ds. All (IsArb c) ds)
        (a.platform == b.platform
          || not (check_settlement_timing c.tolerance a.end_date b.end_date))
        _ _ (λ e. tt) (λ e. build_cross_platform_deal-Arb t c a b confidence))
      (deals_of_pairs-Arb t c ps)

yes_leg-IsDeep :
    (balance : ℕ) (o : PlatformOutcome) (price : Option ℕ) (l : CpLeg)
    → yes_leg balance o price ≡ some l
    → IsDeep l
yes_leg-IsDeep balance o none l e = absurd (ground (arith, e))
yes_leg-IsDeep balance o (some p) l e =
    let (bad, same) = some_unless _ _ l e in
    subst IsDeep same (quote_real o.yes (ground (arith, bad), ground (arith, bad)))

cons_leg_lem :
    (x : Option CpLeg) (rest : Option (List CpLeg)) (ls : List CpLeg)
    → cons_leg x rest ≡ some ls
    → (l : CpLeg) × (more : List CpLeg) × (x ≡ some l) × (rest ≡ some more) × (l ∷ more ≡ ls)
cons_leg_lem none rest ls e = absurd (ground (arith, e))
cons_leg_lem (some l) none ls e = absurd (ground (arith, e))
cons_leg_lem (some l) (some more) ls e = (l, more, refl, refl, ground (arith, e))

-- The YES legs of some outcomes are as many, and real.
yes_legs_lem :
    (balance : ℕ) (os : List PlatformOutcome) (ls : List CpLeg)
    → yes_legs balance os ≡ some ls
    → (length ls ≡ length os) × All IsDeep ls
unfolding yes_legs
yes_legs_lem balance [] ls e =
    let empty : ◌≡◌ {A = List CpLeg} [] ls = ground (arith, e) in
    subst (λ xs. (length xs ≡ 0) × All IsDeep xs) empty (refl, tt)
yes_legs_lem balance (o ∷ os) ls e =
    let (l, more, first, rest, same) =
      cons_leg_lem (yes_leg balance o o.yes.price) (yes_legs balance os) ls e in
    let (many, real) = yes_legs_lem balance os more rest in
    subst (λ xs. (length xs ≡ suc (length os)) × All IsDeep xs) same
      (ap suc many, (yes_leg-IsDeep balance o o.yes.price l first, real))

cover_of-Arb :
    (c : CpConfig) (single : PlatformOutcome) (complement : List PlatformOutcome)
    (legs : Option (List CpLeg))
    → ((ls : List CpLeg) → legs ≡ some ls → (2 ≤ length ls) × All IsDeep ls)
    → All (IsArb c) (to_list (cover_of c single complement legs))
cover_of-Arb c single complement none h = tt
cover_of-Arb c single complement (some ls) h =
    if-cases (λ d. All (IsArb c) (to_list d)) (leb c.cover_threshold (sum_prices ls)) _ _ (λ e. tt)
      (λ e.
        let (enough, real) = h ls refl in
        ((refl, ground (arith, e), omega arith, enough, real), tt))

build_complement_cover_deal-Arb :
    (t : Texts) (c : CpConfig) (single : PlatformOutcome) (others : List PlatformOutcome)
    → All (IsArb c) (to_list (build_complement_cover_deal t c single others))
unfolding build_complement_cover_deal
build_complement_cover_deal-Arb t c single others =
    let complement = complement_of t c.fuzzy single others in
    if-cases (λ d. All (IsArb c) (to_list d))
      (any (λ o. outcomes_compatible t c.fuzzy single.outcome_name o.outcome_name) others
        && leb (max 2 (c.cover_min_legs - 1)) (length complement)
        && not (any (λ o. not (same_scope t single o)) complement))
      _ _
      (λ e. cover_of-Arb c single complement _ (λ ls f.
        let (same, real) = yes_legs_lem c.balance (single ∷ complement) ls f in
        let enough : 2 ≤ length complement = ground (arith, e) in
        (omega (arith, same, enough), real)))
      (λ e. tt)

covers_of-Arb :
    (t : Texts) (c : CpConfig) (groups : Dict String (List PlatformOutcome))
    (pool : List PlatformOutcome)
    → All (IsArb c) (covers_of t c groups pool)
unfolding covers_of
covers_of-Arb t c groups [] = tt
covers_of-Arb t c groups (o ∷ os) =
    let siblings = bucket (t.canonical_title o.title) groups in
    All-append (IsArb c) _ _
      (if-cases (λ ds. All (IsArb c) ds)
        (t.canonical_title o.title == ""
          || not (any (λ x. not (x.platform == o.platform)) siblings))
        _ _ (λ e. tt) (λ e. build_complement_cover_deal-Arb t c o siblings))
      (covers_of-Arb t c groups os)

-- Every deal that `find_cross_platform_arbs` returns has at least two legs, each with a depth of at least
-- $5 and a source that is not `implied`, at prices that add up to the sum of the deal, and that sum is
-- below the threshold of the deal, which is at most the larger of the two that are configured.
pub find_cross_platform_arbs-Arb :
    (t : Texts) (c : CpConfig) (pairs : List (PlatformOutcome × PlatformOutcome × ℕ))
    (pool_a pool_b : List PlatformOutcome)
    → All (IsArb c) (find_cross_platform_arbs t c pairs pool_a pool_b)
unfolding find_cross_platform_arbs
find_cross_platform_arbs-Arb t c pairs pool_a pool_b = All-sort _ (IsArb c) _ (
    All-append (IsArb c) _ _
      (All-append (IsArb c) _ _ (deals_of_pairs-Arb t c pairs)
        (covers_of-Arb t c (group_into t [] pool_b) pool_a))
      (covers_of-Arb t c (group_into t [] pool_a) pool_b))
