-- ===== src/Deals/Poly.antt =====
-- Scripts/radar/eval/polymarket.py: the deals on the markets of one event of Polymarket. Prices are in
-- units of $0.0001 and fee rates in basis points, which are 1/10000.
pub mod Priced
pub mod Pays
use polymarket_radar.Base.{
  ℕ, zero, suc, ◌+◌, ◌-◌, ◌*◌, max, String, ◌<>◌, Bool, true, false, not, ◌&&◌, ◌||◌, Option, none,
  some, List, [], ◌∷◌, ◌++◌, length, ltb, leb, eqb, if◌then◌else◌, ◌==◌, string_key,
}
use polymarket_radar.Base.Dict.{Dict, lookup}
use polymarket_radar.Base.Frac.{whole, ◌*/◌, ltb_frac}
use polymarket_radar.Deals.Build.{usd, DealOutcome, Sizing, Deal, slip_pct_of, build_deal}
use polymarket_radar.Deals.Series.{Patterns, is_threshold_series}
use polymarket_radar.Deals.Markets.{Rough, ClobQuote, WsBook, PerMarket, is_quoted, poly_per_market}

-- The constants of the server that the evaluator reads; the slip is in 1/100 of a percent.
pub record Limits : Type 0 where
  pub slippage_reserve : ℕ
  pub safety_buffer : ℕ
  pub dynamic_floor : ℕ
  pub dynamic_cap : ℕ
  pub default_fee : ℕ
  pub realistic_floor : ℕ
  pub enable_a : Bool
  pub enable_b : Bool
  pub enable_c : Bool
  pub tight_cutoff : ℕ
  pub tight_min_liq : ℕ
  pub tight_max_slip : ℕ

-- `compute_poly_threshold`: a difference below 0 is 0 here, and both are raised to the floor.
unfoldable pub compute_poly_threshold : Limits → ℕ → ℕ
compute_poly_threshold c fee =
    let raw = usd - (fee + c.slippage_reserve + c.safety_buffer) in
    if ltb raw c.dynamic_floor
    then c.dynamic_floor
    else if ltb c.dynamic_cap raw
    then c.dynamic_cap
    else raw

-- `market_infos`, of which the evaluator reads the taker fee: `fetch` is `_fetch_poly_market_info`.
abbrev pub fee_of : (String → Option ℕ) → Option String → Option ℕ
fee_of fetch none = none
fee_of fetch (some cid) = fetch cid

abbrev pub with_fee : Option ℕ → List ℕ → List ℕ
with_fee none fees = fees
with_fee (some f) fees = f ∷ fees

unfoldable pub market_fees : (String → Option ℕ) → List Rough → List ℕ
market_fees fetch [] = []
market_fees fetch (o ∷ os) = with_fee (fee_of fetch o.condition_id) (market_fees fetch os)

abbrev pub highest_from : ℕ → List ℕ → ℕ
highest_from m [] = m
highest_from m (f ∷ fs) = highest_from (max m f) fs

-- `max_taker_fee_bps`
unfoldable pub max_fee : Limits → List ℕ → ℕ
max_fee c [] = c.default_fee
max_fee c (f ∷ fs) = highest_from f fs

-- `arb_structure`: the pair of a market on its own is `binary` at Limitless.
pub data Structure : Type 0 where
  all_yes : Structure
  all_no : Structure
  yes_no_pair : Structure
  binary : Structure

pub record PolyDeal : Type 0 where
  pub structure : Structure
  pub total : ℕ
  pub deal : Deal

-- `_quality_ok`, before the rounding of the figures to a tenth of a cent.
unfoldable pub quality_ok : Limits → ℕ → Deal → Bool
quality_ok c total d =
    not (leb c.tight_cutoff total)
    || not (
        ltb d.min_liq c.tight_min_liq
        || not (ltb_frac (whole 100 */ slip_pct_of d.min_liq d.max_stake) (whole c.tight_max_slip)))

abbrev pub yes_outcome : PerMarket → DealOutcome
yes_outcome p = record {
  name = p.name;
  price = p.yes.price;
  liquidity = p.yes.liq;
  source = p.yes.src;
}

abbrev pub no_outcome : PerMarket → DealOutcome
no_outcome p = record {
  name = p.name;
  price = p.no_side.price;
  liquidity = p.no_side.liq;
  source = p.no_side.src;
}

abbrev pub titled : String → DealOutcome → DealOutcome
titled t o = record o { name = t <> o.name }

unfoldable pub yes_out : List PerMarket → List DealOutcome
yes_out [] = []
yes_out (p ∷ ps) = yes_outcome p ∷ yes_out ps

-- `no_raw` and `no_out`
unfoldable pub no_out : List PerMarket → List DealOutcome
no_out [] = []
no_out (p ∷ ps) =
    let rest = no_out ps in
    if is_quoted p.no_side.price then titled "NO " (no_outcome p) ∷ rest else rest

unfoldable pub total_of : List DealOutcome → ℕ
total_of [] = 0
total_of (o ∷ os) = o.price + total_of os

-- The deal of `build_deal` as a list that has it where it passes the gate.
abbrev pub kept : Structure → ℕ → (Deal → Bool) → Option Deal → List PolyDeal
kept structure total ok none = []
kept structure total ok (some d) =
    if ok d then record { structure = structure; total = total; deal = d } ∷ [] else []

-- An event with the markets that passed the filters.
pub record Candidate : Type 0 where
  pub title : String
  pub markets : ℕ
  pub is_single_binary : Bool
  pub is_quarantined : Bool
  pub rough : List Rough

-- A. `ALL_YES`
unfoldable pub passes_all_yes : Limits → Candidate → ℕ → Bool → ℕ → List DealOutcome → Bool
passes_all_yes c cand total_outcomes is_series fee os =
    c.enable_a
    && not cand.is_single_binary
    && eqb (length os) total_outcomes
    && ltb (total_of os) (compute_poly_threshold c fee)
    && not is_series
    && not cand.is_quarantined

unfoldable pub eval_all_yes :
    Sizing → Limits → Candidate → ℕ → Bool → ℕ → List DealOutcome → List PolyDeal
eval_all_yes s c cand total_outcomes is_series fee os =
    let total = total_of os in
    if passes_all_yes c cand total_outcomes is_series fee os
    then kept all_yes total (quality_ok c total) (build_deal s false os total fee 1)
    else []

-- B. `ALL_NO`
unfoldable pub passes_all_no : Limits → Candidate → ℕ → Bool → ℕ → List DealOutcome → Bool
passes_all_no c cand total_outcomes is_series fee os =
    c.enable_b
    && leb 3 (length os)
    && eqb (length os) total_outcomes
    && not is_series
    && not cand.is_quarantined
    && ltb (total_of os) ((length os - 1) * compute_poly_threshold c fee)

unfoldable pub eval_all_no :
    Sizing → Limits → Candidate → ℕ → Bool → ℕ → List DealOutcome → List PolyDeal
eval_all_no s c cand total_outcomes is_series fee os =
    let total = total_of os in
    if passes_all_no c cand total_outcomes is_series fee os
    then kept all_no total (λ d. true) (build_deal s false os total fee (length os - 1))
    else []

abbrev pub pair_out : PerMarket → List DealOutcome
pair_out p = titled "YES " (yes_outcome p) ∷ titled "NO " (no_outcome p) ∷ []

-- C. `YES_NO_PAIR` of one market.
unfoldable pub passes_pair : Limits → PerMarket → ℕ → Bool
passes_pair c p fee =
    is_quoted p.no_side.price
    && is_quoted p.yes.price
    && ltb (total_of (pair_out p)) (compute_poly_threshold c fee)
    && leb c.realistic_floor (total_of (pair_out p))

unfoldable pub eval_pair : Sizing → Limits → PerMarket → ℕ → List PolyDeal
eval_pair s c p fee =
    let total = total_of (pair_out p) in
    if passes_pair c p fee
    then kept yes_no_pair total (quality_ok c total) (build_deal s false (pair_out p) total fee 1)
    else []

-- The loop over the markets: the fee is the one at the same index in `market_infos`, if there is one.
unfoldable pub eval_pairs : Sizing → Limits → ℕ → List PerMarket → List ℕ → List PolyDeal
eval_pairs s c fee [] fees = []
eval_pairs s c fee (p ∷ ps) [] = eval_pair s c p fee ++ eval_pairs s c fee ps []
eval_pairs s c fee (p ∷ ps) (f ∷ fs) = eval_pair s c p f ++ eval_pairs s c fee ps fs

abbrev pub names_of : List PerMarket → List String
names_of [] = []
names_of (p ∷ ps) = p.name ∷ names_of ps

abbrev pub slugs_of : List Rough → List String
slugs_of [] = []
slugs_of (o ∷ os) = o.slug ∷ slugs_of os

-- `total_outcomes_on_event`
abbrev pub total_outcomes_of : Candidate → List PerMarket → ℕ
total_outcomes_of cand per = if ltb 0 cand.markets then cand.markets else length per

abbrev pub is_series_of : Patterns → Candidate → List PerMarket → Bool
is_series_of r cand per = is_threshold_series r cand.title (names_of per) (slugs_of cand.rough)

-- `_eval_poly_structures`
unfoldable pub eval_poly_structures :
    Sizing
    → Limits
    → Patterns
    → (String → Option ℕ)
    → Dict String ClobQuote
    → Dict String WsBook
    → Candidate
    → List PolyDeal
eval_poly_structures s c r fetch clob ws cand =
    let per = poly_per_market clob ws cand.rough in
    let total_outcomes = total_outcomes_of cand per in
    let fees = market_fees fetch cand.rough in
    let fee = max_fee c fees in
    let is_series = is_series_of r cand per in
    if ltb (length per) (if cand.is_single_binary then 1 else 2)
    then []
    else eval_all_yes s c cand total_outcomes is_series fee (yes_out per)
      ++ eval_all_no s c cand total_outcomes is_series fee (no_out per)
      ++ (if c.enable_c && not cand.is_quarantined then eval_pairs s c fee per fees else [])

-- `eval_poly`
unfoldable pub eval_poly :
    Sizing
    → Limits
    → Patterns
    → (String → Option ℕ)
    → Dict String ClobQuote
    → List Candidate
    → List PolyDeal
eval_poly s c r fetch clob [] = []
eval_poly s c r fetch clob (cand ∷ cands) =
    eval_poly_structures s c r fetch clob [] cand ++ eval_poly s c r fetch clob cands
