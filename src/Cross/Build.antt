-- ===== src/Cross/Build.antt =====
-- Scripts/cross_platform.py: build_cross_platform_deal, a YES on one exchange with a NO on the other.
use polymarket_radar.Base.{
  ℕ, ◌+◌, Bool, true, false, not, ◌||◌, Option, none, some, List, [], ◌∷◌, ◌++◌, ltb, leb,
  if◌then◌else◌, ◌==◌, string_key, nat_key, pair_key,
}
use polymarket_radar.Cross.Match.{Texts, outcomes_compatible, scopes_compatible, leagues_compatible}
use polymarket_radar.Cross.Outcomes.{
  Quote, PlatformOutcome, leg_platform_ids, Structure, x1, x2, CpDeal, or_else, side_of, leg_at,
}

-- The counters of `_pairing_diag` that a pair raises.
pub data Reject : Type 0 where
  scope_incompatible : Reject
  league_mismatch : Reject
  outcome_mismatch : Reject
  no_price : Reject
  source_blacklist : Reject
  depth_too_thin : Reject
  sum_below_realistic : Reject
  sum_above_threshold : Reject

pub record Built : Type 0 where
  pub deals : List CpDeal
  pub rejects : List Reject

-- What the tests of one direction say: why there is no deal, or the two prices.
pub data Verdict : Type 0 where
  rejected : Reject → Verdict
  accepted : ℕ → ℕ → Verdict

-- `_CP_MIN_LEG_DEPTH`
abbrev pub min_leg_depth : ℕ
min_leg_depth = 50000

-- `_CP_MIN_REALISTIC_SUM`
abbrev pub min_realistic_sum : ℕ
min_realistic_sum = 5000

abbrev pub verdict_at : ℕ → Quote → Quote → Option ℕ → Option ℕ → Verdict
verdict_at threshold a b none q = rejected no_price
verdict_at threshold a b (some p) none = rejected no_price
verdict_at threshold a b (some p) (some q) =
    if a.source == "implied" || b.source == "implied"
    then rejected source_blacklist
    else if ltb a.depth min_leg_depth || ltb b.depth min_leg_depth
    then rejected depth_too_thin
    else if ltb (p + q) min_realistic_sum
    then rejected sum_below_realistic
    else if leb threshold (p + q)
    then rejected sum_above_threshold
    else accepted p q

-- `x1_reject_reason` and `valid_x1`
unfoldable pub verdict : ℕ → Quote → Quote → Verdict
verdict threshold a b = verdict_at threshold a b a.price b.price

abbrev pub cross_deal :
    Structure → ℕ → ℕ → ℕ → PlatformOutcome → PlatformOutcome → Bool → ℕ → ℕ → CpDeal
cross_deal structure threshold balance confidence a b a_yes p q = record {
  structure = structure;
  title = a.title;
  sum = p + q;
  threshold = threshold;
  legs =
      leg_at balance a a_yes (leg_platform_ids a a_yes) p
      ∷ leg_at balance b (not a_yes) (leg_platform_ids b (not a_yes)) q
      ∷ [];
  confidence = confidence;
  end_date = or_else a.end_date b.end_date;
}

abbrev pub built_of : (ℕ → ℕ → CpDeal) → Verdict → Built
built_of deal (rejected r) = record { deals = []; rejects = r ∷ [] }
built_of deal (accepted p q) = record { deals = deal p q ∷ []; rejects = [] }

abbrev pub both : Built → Built → Built
both a b = record { deals = a.deals ++ b.deals; rejects = a.rejects ++ b.rejects }

abbrev pub refused : Reject → Built
refused r = record { deals = []; rejects = r ∷ [] }

-- X1 or X2: the side of `a` that is bought, and the other side of `b`.
unfoldable pub direction : Structure → ℕ → ℕ → ℕ → PlatformOutcome → PlatformOutcome → Bool → Built
direction structure threshold balance confidence a b a_yes =
    built_of (cross_deal structure threshold balance confidence a b a_yes)
      (verdict threshold (side_of a a_yes) (side_of b (not a_yes)))

-- `build_cross_platform_deal`
unfoldable pub build_cross_platform_deal :
    Texts → ℕ → ℕ → ℕ → PlatformOutcome → PlatformOutcome → ℕ → Built
build_cross_platform_deal t fuzzy threshold balance a b confidence =
    if not (scopes_compatible (t.scope a.title a.outcome_name) (t.scope b.title b.outcome_name))
    then refused scope_incompatible
    else if not (leagues_compatible (t.league a.title) (t.league b.title))
    then refused league_mismatch
    else if not (outcomes_compatible t fuzzy a.outcome_name b.outcome_name)
    then refused outcome_mismatch
    else both (direction x1 threshold balance confidence a b true)
        (direction x2 threshold balance confidence a b false)
