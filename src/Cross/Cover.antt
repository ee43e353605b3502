-- ===== src/Cross/Cover.antt =====
-- Scripts/cross_platform.py: build_complement_cover_deal, a YES on one exchange with a YES on every
-- other outcome of the other exchange, and find_cross_platform_arbs over what find_pairs gives.
use polymarket_radar.Base.{
  ℕ, ◌+◌, ◌-◌, max, String, Bool, true, not, ◌&&◌, ◌||◌, Option, none, some, List, [], ◌∷◌, ◌++◌,
  length, keep, any, ltb, leb, if◌then◌else◌, ◌==◌, string_key, nat_key, pair_key,
}
use polymarket_radar.Base.Dict.{Dict, lookup, insert}
use polymarket_radar.Base.Sort.{sort}
use polymarket_radar.Cross.Match.{Texts, outcomes_compatible, scopes_compatible}
use polymarket_radar.Cross.Outcomes.{
  PlatformOutcome, no_ids, CpLeg, complement_cover, CpDeal, or_else, leg_at,
  check_settlement_timing,
}
use polymarket_radar.Cross.Build.{min_leg_depth, build_cross_platform_deal}

-- The configuration: the thresholds, the fewest legs of a cover, the stake of a leg, the tolerance on
-- settlement times and the one of `outcomes_compatible`.
pub record CpConfig : Type 0 where
  pub threshold : ℕ
  pub cover_threshold : ℕ
  pub cover_min_legs : ℕ
  pub balance : ℕ
  pub tolerance : ℕ
  pub fuzzy : ℕ

abbrev pub yes_leg : ℕ → PlatformOutcome → Option ℕ → Option CpLeg
yes_leg balance o none = none
yes_leg balance o (some p) =
    if o.yes.source == "implied" || ltb o.yes.depth min_leg_depth
    then none
    else some (leg_at balance o true no_ids p)

abbrev pub cons_leg : Option CpLeg → Option (List CpLeg) → Option (List CpLeg)
cons_leg none ls = none
cons_leg (some l) none = none
cons_leg (some l) (some ls) = some (l ∷ ls)

-- The YES legs, unless one has no real price or too little depth.
unfoldable pub yes_legs : ℕ → List PlatformOutcome → Option (List CpLeg)
yes_legs balance [] = some []
yes_legs balance (o ∷ os) = cons_leg (yes_leg balance o o.yes.price) (yes_legs balance os)

unfoldable pub sum_prices : List CpLeg → ℕ
sum_prices [] = 0
sum_prices (l ∷ ls) = l.price + sum_prices ls

-- `complement`
abbrev pub complement_of : Texts → ℕ → PlatformOutcome → List PlatformOutcome → List PlatformOutcome
complement_of t fuzzy single others =
    keep (λ o. not (outcomes_compatible t fuzzy single.outcome_name o.outcome_name)) others

abbrev pub same_scope : Texts → PlatformOutcome → PlatformOutcome → Bool
same_scope t a b =
    scopes_compatible (t.scope a.title a.outcome_name) (t.scope b.title b.outcome_name)

abbrev pub first_end_date : List PlatformOutcome → Option ℕ
first_end_date [] = none
first_end_date (o ∷ os) = o.end_date

abbrev pub cover_of :
    CpConfig → PlatformOutcome → List PlatformOutcome → Option (List CpLeg) → Option CpDeal
cover_of c single complement none = none
cover_of c single complement (some legs) =
    if leb c.cover_threshold (sum_prices legs)
    then none
    else some (record {
      structure = complement_cover;
      title = single.title;
      sum = sum_prices legs;
      threshold = c.cover_threshold;
      legs = legs;
      confidence = 100000;
      end_date = or_else single.end_date (first_end_date complement);
    })

-- `build_complement_cover_deal`
unfoldable pub build_complement_cover_deal :
    Texts → CpConfig → PlatformOutcome → List PlatformOutcome → Option CpDeal
build_complement_cover_deal t c single others =
    let complement = complement_of t c.fuzzy single others in
    if any (λ o. outcomes_compatible t c.fuzzy single.outcome_name o.outcome_name) others
      && leb (max 2 (c.cover_min_legs - 1)) (length complement)
      && not (any (λ o. not (same_scope t single o)) complement)
    then cover_of c single complement (yes_legs c.balance (single ∷ complement))
    else none

-- `_group_by_fixture`
abbrev pub bucket : String → Dict String (List PlatformOutcome) → List PlatformOutcome
bucket k d = elim (lookup k d) [ none ↦ [] | some os ↦ os ]

unfoldable pub group_into :
    Texts
    → Dict String (List PlatformOutcome)
    → List PlatformOutcome
    → Dict String (List PlatformOutcome)
group_into t d [] = d
group_into t d (o ∷ os) =
    let k = t.canonical_title o.title in
    group_into t (if k == "" then d else insert k (bucket k d ++ o ∷ []) d) os

abbrev pub to_list : Option CpDeal → List CpDeal
to_list none = []
to_list (some d) = d ∷ []

-- The body of the loop of `_find_complement_cover_arbs` for one anchor.
abbrev pub cover_at :
    Texts → CpConfig → Dict String (List PlatformOutcome) → PlatformOutcome → List CpDeal
cover_at t c groups anchor =
    let siblings = bucket (t.canonical_title anchor.title) groups in
    if t.canonical_title anchor.title == ""
      || not (any (λ o. not (o.platform == anchor.platform)) siblings)
    then []
    else to_list (build_complement_cover_deal t c anchor siblings)

unfoldable pub covers_of :
    Texts → CpConfig → Dict String (List PlatformOutcome) → List PlatformOutcome → List CpDeal
covers_of t c groups [] = []
covers_of t c groups (a ∷ anchors) = cover_at t c groups a ++ covers_of t c groups anchors

-- `_find_complement_cover_arbs`
abbrev pub find_complement_cover_arbs :
    Texts → CpConfig → List PlatformOutcome → List PlatformOutcome → List CpDeal
find_complement_cover_arbs t c pool_a pool_b = covers_of t c (group_into t [] pool_b) pool_a

-- One pair of the loop in `find_cross_platform_arbs`, with the confidence of the match.
abbrev pub deals_of_pair : Texts → CpConfig → PlatformOutcome × PlatformOutcome × ℕ → List CpDeal
deals_of_pair t c (a, b, confidence) =
    if a.platform == b.platform || not (check_settlement_timing c.tolerance a.end_date b.end_date)
    then []
    else (build_cross_platform_deal t c.fuzzy c.threshold c.balance a b confidence).deals

unfoldable pub deals_of_pairs :
    Texts → CpConfig → List (PlatformOutcome × PlatformOutcome × ℕ) → List CpDeal
deals_of_pairs t c [] = []
deals_of_pairs t c (x ∷ xs) = deals_of_pair t c x ++ deals_of_pairs t c xs

-- `find_cross_platform_arbs`, on the pairs that `find_pairs` gives: the highest net is the lowest sum.
unfoldable pub find_cross_platform_arbs :
    Texts
    → CpConfig
    → List (PlatformOutcome × PlatformOutcome × ℕ)
    → List PlatformOutcome
    → List PlatformOutcome
    → List CpDeal
find_cross_platform_arbs t c pairs pool_a pool_b =
    sort (λ (x : CpDeal) (y : CpDeal). leb x.sum y.sum)
      (deals_of_pairs t c pairs
        ++ find_complement_cover_arbs t c pool_a pool_b
        ++ find_complement_cover_arbs t c pool_b pool_a)
