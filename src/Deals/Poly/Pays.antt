-- ===== src/Deals/Poly/Pays.antt =====
-- A deal of any of the three structures pays more than it costs.
use polymarket_radar.Base.{
  ℕ, suc, ◌-◌, ◌*◌, ◌<◌, ◌≡◌, refl, sym, ap, subst, ◌∙◌, String, Bool, true, false, not, ◌&&◌,
  Option, none, some, List, [], ◌∷◌, All, All-append, length, ltb, if◌then◌else◌, arith, some_if,
  if-cases,
}
use polymarket_radar.Base.Dict.{Dict}
use polymarket_radar.Base.Frac.{Frac, whole, ◌+/◌, ◌*/◌, ◌</◌}
use polymarket_radar.Deals.Build.{
  usd, DealOutcome, Sizing, entries_of, actual_balance, total_fee, all_tradable, Deal, deal_of,
  build_deal,
}
use polymarket_radar.Deals.Build.Profit.{build_deal_pays}
use polymarket_radar.Deals.Series.{Patterns}
use polymarket_radar.Deals.Markets.{ClobQuote, WsBook, PerMarket, poly_per_market}
use polymarket_radar.Deals.Poly.{
  Limits, Candidate, Structure, all_yes, all_no, yes_no_pair, binary, PolyDeal, kept, quality_ok,
  yes_out, no_out, pair_out, total_of, passes_all_yes, eval_all_yes, passes_all_no, eval_all_no,
  passes_pair, eval_pair, eval_pairs, total_outcomes_of, is_series_of, market_fees, max_fee,
  eval_poly_structures,
}
use polymarket_radar.Deals.Poly.Priced.{
  MarketPriced, OutcomePriced, poly_per_market-Priced, yes_out-Priced, no_out-Priced,
  pair_out-Priced, tradable_priced, total_positive,
}

-- How many dollars one contract of each leg brings at least, all legs together: one outcome happens,
-- so one YES pays, or all NO but one.
abbrev pub guaranteed : Structure → ℕ → ℕ
guaranteed all_yes legs = 1
guaranteed all_no legs = legs - 1
guaranteed yes_no_pair legs = 1
guaranteed binary legs = 1

-- A leg for every outcome of the event, or for both sides of one market.
abbrev pub legs_wanted : Structure → ℕ → ℕ
legs_wanted all_yes outcomes = outcomes
legs_wanted all_no outcomes = outcomes
legs_wanted yes_no_pair outcomes = 2
legs_wanted binary outcomes = 2

abbrev pub Pays : ℕ → Deal → Type 0
Pays payout d = All (λ e. d.balance_used +/ d.fee </ e.contracts */ whole (payout * usd)) d.entries

-- A deal of a series of thresholds, whose outcomes overlap, is on one market.
abbrev pub IsSafe : Bool → Bool → Structure → Type 0
IsSafe is_quarantined is_series structure =
    (is_quarantined ≡ false) × (is_series ≡ true → structure ≡ yes_no_pair)

abbrev pub IsSound : Candidate → Bool → ℕ → PolyDeal → Type 0
IsSound cand is_series outcomes d =
    Pays (guaranteed d.structure (length d.deal.entries)) d.deal
    × (length d.deal.entries ≡ legs_wanted d.structure outcomes)
    × IsSafe cand.is_quarantined is_series d.structure

length-entries_of :
    (theta : ℕ) (actual : Frac) (total : ℕ) (os : List DealOutcome)
    → length (entries_of false theta actual total os) ≡ length os
unfolding entries_of
length-entries_of theta actual total [] = refl
length-entries_of theta actual total (o ∷ os) = ap suc (length-entries_of theta actual total os)

build_deal_tradable :
    (s : Sizing) (os : List DealOutcome) (total fee payout : ℕ) (d : Deal)
    → build_deal s false os total fee payout ≡ some d
    → (all_tradable os ≡ true) × (length d.entries ≡ length os)
unfolding build_deal deal_of
build_deal_tradable s os total fee payout d e =
    let (gates, same) = some_if _ _ d e in
    (
      ground (arith, gates),
      rw (sym same) (length-entries_of fee (actual_balance s os total) total os),
    )

not_empty :
    (s : Sizing) (os : List DealOutcome) (fee payout : ℕ) (d : Deal)
    → build_deal s false os (total_of os) fee payout ≡ some d
    → 0 < length os
unfolding build_deal total_of entries_of total_fee
not_empty s [] fee payout d e =
    let (gates, same) = some_if _ _ d e in absurd (ground (arith, gates))
not_empty s (o ∷ os) fee payout d e = omega arith

pub build_deal-Pays :
    (s : Sizing) (os : List DealOutcome) (fee payout : ℕ) (d : Deal)
    → All OutcomePriced os
    → build_deal s false os (total_of os) fee payout ≡ some d
    → Pays payout d × (length d.entries ≡ length os)
build_deal-Pays s os fee payout d h e =
    let (tradable, legs) = build_deal_tradable s os (total_of os) fee payout d e in
    let prices = tradable_priced os tradable h in
    (
      build_deal_pays s false os (total_of os) fee payout d
          (total_positive os (not_empty s os fee payout d e) prices) prices e,
      legs,
    )

pub kept-All :
    (P : PolyDeal → Type 0) (b : Bool) (structure : Structure) (total : ℕ) (ok : Deal → Bool)
    (x : Option Deal)
    → ((d : Deal)
        → b ≡ true
        → x ≡ some d
        → P (record { structure = structure; total = total; deal = d }))
    → All P (if b then kept structure total ok x else [])
kept-All P false structure total ok x h = tt
kept-All P true structure total ok none h = tt
kept-All P true structure total ok (some d) h =
    if-cases (λ (ds : List PolyDeal). All P ds) (ok d) _ _ (λ e. (h d refl refl, tt)) (λ e. tt)

all_yes_covers :
    (c : Limits) (cand : Candidate) (n : ℕ) (is_series : Bool) (fee : ℕ) (os : List DealOutcome)
    → passes_all_yes c cand n is_series fee os ≡ true
    → (length os ≡ n) × IsSafe cand.is_quarantined is_series all_yes
unfolding passes_all_yes
all_yes_covers c cand n is_series fee os e =
    (ground (arith, e), (ground (arith, e), λ h. absurd (ground (arith, e, h))))

all_no_covers :
    (c : Limits) (cand : Candidate) (n : ℕ) (is_series : Bool) (fee : ℕ) (os : List DealOutcome)
    → passes_all_no c cand n is_series fee os ≡ true
    → (length os ≡ n) × IsSafe cand.is_quarantined is_series all_no
unfolding passes_all_no
all_no_covers c cand n is_series fee os e =
    (ground (arith, e), (ground (arith, e), λ h. absurd (ground (arith, e, h))))

eval_all_yes-Sound :
    (s : Sizing) (c : Limits) (cand : Candidate) (n : ℕ) (is_series : Bool) (fee : ℕ)
    (os : List DealOutcome)
    → All OutcomePriced os
    → All (IsSound cand is_series n) (eval_all_yes s c cand n is_series fee os)
unfolding eval_all_yes
eval_all_yes-Sound s c cand n is_series fee os h =
    kept-All (IsSound cand is_series n) (passes_all_yes c cand n is_series fee os) all_yes
      (total_of os) (quality_ok c (total_of os)) _
      (λ d e f.
        let (pays, legs) = build_deal-Pays s os fee 1 d h f in
        let (covers, safe) = all_yes_covers c cand n is_series fee os e in
        (pays, legs ∙ covers, safe))

eval_all_no-Sound :
    (s : Sizing) (c : Limits) (cand : Candidate) (n : ℕ) (is_series : Bool) (fee : ℕ)
    (os : List DealOutcome)
    → All OutcomePriced os
    → All (IsSound cand is_series n) (eval_all_no s c cand n is_series fee os)
unfolding eval_all_no
eval_all_no-Sound s c cand n is_series fee os h =
    kept-All (IsSound cand is_series n) (passes_all_no c cand n is_series fee os) all_no
      (total_of os) (λ d. true) _
      (λ d e f.
        let (pays, legs) = build_deal-Pays s os fee (length os - 1) d h f in
        let (covers, safe) = all_no_covers c cand n is_series fee os e in
        (subst (λ k. Pays (k - 1) d) (sym legs) pays, legs ∙ covers, safe))

eval_pair-Sound :
    (s : Sizing) (c : Limits) (cand : Candidate) (is_series : Bool) (p : PerMarket) (n fee : ℕ)
    → cand.is_quarantined ≡ false
    → MarketPriced p
    → All (IsSound cand is_series n) (eval_pair s c p fee)
unfolding eval_pair
eval_pair-Sound s c cand is_series p n fee q h =
    kept-All (IsSound cand is_series n) (passes_pair c p fee) yes_no_pair (total_of (pair_out p))
      (quality_ok c (total_of (pair_out p))) _
      (λ d e f.
        let (pays, legs) = build_deal-Pays s (pair_out p) fee 1 d (pair_out-Priced p h) f in
        (pays, legs, (q, λ x. refl)))

eval_pairs-Sound :
    (s : Sizing) (c : Limits) (cand : Candidate) (is_series : Bool) (n fee : ℕ)
    (ps : List PerMarket) (fees : List ℕ)
    → cand.is_quarantined ≡ false
    → All MarketPriced ps
    → All (IsSound cand is_series n) (eval_pairs s c fee ps fees)
unfolding eval_pairs
eval_pairs-Sound s c cand is_series n fee [] fees q h = tt
eval_pairs-Sound s c cand is_series n fee (p ∷ ps) [] q h =
    All-append (IsSound cand is_series n) _ _ (eval_pair-Sound s c cand is_series p n fee q h.0)
      (eval_pairs-Sound s c cand is_series n fee ps [] q h.1)
eval_pairs-Sound s c cand is_series n fee (p ∷ ps) (f ∷ fs) q h =
    All-append (IsSound cand is_series n) _ _ (eval_pair-Sound s c cand is_series p n f q h.0)
      (eval_pairs-Sound s c cand is_series n fee ps fs q h.1)

pub All-none_if :
    (P : PolyDeal → Type 0) (b : Bool) (ds : List PolyDeal)
    → All P ds
    → All P (if b then [] else ds)
All-none_if P true ds h = tt
All-none_if P false ds h = h

pub All-only_if :
    (P : PolyDeal → Type 0) (b : Bool) (ds : List PolyDeal)
    → (b ≡ true → All P ds)
    → All P (if b then ds else [])
All-only_if P true ds h = h refl
All-only_if P false ds h = tt

-- Every deal that `_eval_poly_structures` finds makes a profit with each leg: the contracts of one leg,
-- times what its structure pays at least, bring more than what the deal spends and its fees. An ALL_YES
-- or ALL_NO deal has a leg for each outcome of the event, a pair has two. An event in quarantine has
-- no deal, and a series of thresholds only pairs.
pub eval_poly_structures-Sound :
    (s : Sizing) (c : Limits) (r : Patterns) (fetch : String → Option ℕ)
    (clob : Dict String ClobQuote) (ws : Dict String WsBook) (cand : Candidate)
    → let per = poly_per_market clob ws cand.rough in
      All
        (IsSound cand (is_series_of r cand per) (total_outcomes_of cand per))
        (eval_poly_structures s c r fetch clob ws cand)
unfolding eval_poly_structures
eval_poly_structures-Sound s c r fetch clob ws cand =
    let per = poly_per_market clob ws cand.rough in
    let n = total_outcomes_of cand per in
    let is_series = is_series_of r cand per in
    let fees = market_fees fetch cand.rough in
    let fee = max_fee c fees in
    let priced = poly_per_market-Priced clob ws cand.rough in
    let P : PolyDeal → Type 0 = IsSound cand is_series n in
    All-none_if P (ltb (length per) (if cand.is_single_binary then 1 else 2)) _ (
      All-append P _ _
        (All-append P _ _
          (eval_all_yes-Sound s c cand n is_series fee (yes_out per) (yes_out-Priced per priced))
          (eval_all_no-Sound s c cand n is_series fee (no_out per) (no_out-Priced per priced)))
        (All-only_if P (c.enable_c && not cand.is_quarantined) _
          (λ e. eval_pairs-Sound s c cand is_series n fee per fees (ground (arith, e)) priced)))
