-- ===== src/Pools/Summary.antt =====
-- Scripts/radar/eval/pools.py: near_summary, the rows of the near table and its counters. How a title is
-- put together, the dates of a row and the rounding of its prices are left out; whether an event is past
-- its end, and the books that are fetched for tokens without one, are arguments.
use polymarket_radar.Base.{
  ℕ, suc, min, max, ◌⊎◌, inl, inr, String, Bool, true, Option, some, List, [], ◌∷◌, ltb,
  if◌then◌else◌, string_key, nat_key, pair_key,
}
use polymarket_radar.Base.Dict.{Dict}
use polymarket_radar.Deals.Series.{Patterns, is_threshold_series}
use polymarket_radar.Deals.Markets.{ClobQuote, WsBook, PerMarket, poly_per_market}
use polymarket_radar.Deals.Poly.{
  Structure, Limits, Candidate, compute_poly_threshold, market_fees, highest_from, names_of,
}
use polymarket_radar.Deals.Limitless.{LimQuote}
use polymarket_radar.Deals.SxBet.{SxQuote}
use polymarket_radar.Pools.Near.{
  NearLeg, NearOption, Rejection, empty_pm, all_legs_implied, no_structure_near_threshold,
  best_near_structure,
}

pub data Platform : Type 0 where
  polymarket : Platform
  kalshi : Platform
  sx_bet : Platform
  limitless : Platform

pub record NearRow : Type 0 where
  pub platform : Platform
  pub structure : Structure
  pub title : String
  pub sum : ℕ
  pub threshold : ℕ
  pub outcomes_count : ℕ
  pub min_price : ℕ
  pub max_price : ℕ
  pub min_liquidity : ℕ

-- `min(xs)` and `max(xs)`; `min_liquidity` is 0 without liquidity.
abbrev pub least_of : List ℕ → ℕ
least_of [] = 0
least_of (x ∷ []) = x
least_of (x ∷ y ∷ xs) = min x (least_of (y ∷ xs))

abbrev pub greatest_of : List ℕ → ℕ
greatest_of [] = 0
greatest_of (x ∷ xs) = max x (greatest_of xs)

abbrev pub row_of : Platform → String → NearOption → NearRow
row_of platform title o = record {
  platform = platform;
  structure = o.structure;
  title = title;
  sum = o.sum;
  threshold = o.threshold;
  outcomes_count = o.outcomes_count;
  min_price = least_of o.prices;
  max_price = greatest_of o.prices;
  min_liquidity = least_of o.liqs;
}

-- `diag`, for Polymarket.
pub record Diag : Type 0 where
  pub visible : ℕ
  pub rejected_quarantine : ℕ
  pub rejected_zombie : ℕ
  pub rejected_strict : ℕ
  pub strict_all_implied : ℕ
  pub strict_no_near : ℕ
  pub strict_empty_pm : ℕ

abbrev pub no_diag : Diag
no_diag = record {
  visible = 0;
  rejected_quarantine = 0;
  rejected_zombie = 0;
  rejected_strict = 0;
  strict_all_implied = 0;
  strict_no_near = 0;
  strict_empty_pm = 0;
}

-- What the summary reads: the thresholds, the quotes, and the metadata of the markets.
pub record Sources : Type 0 where
  pub limits : Limits
  pub patterns : Patterns
  pub thresh_poly : ℕ
  pub thresh_kalshi : ℕ
  pub thresh_sx : ℕ
  pub thresh_limitless : ℕ
  pub taker_fee : String → Option ℕ
  pub clob_res : Dict String ClobQuote
  pub ws_books : Dict String WsBook
  pub kalshi_res : Dict String LimQuote
  pub sx_res : Dict String SxQuote
  pub lim_res : Dict String LimQuote
  pub lim_volume : String → Option ℕ

-- Polymarket: a candidate of the near pool, and whether its end is more than an hour past.
pub record PolyNear : Type 0 where
  pub cand : Candidate
  pub is_zombie : Bool

unfoldable pub poly_near_legs : List PerMarket → List NearLeg
poly_near_legs [] = []
poly_near_legs (p ∷ ps) =
    (record {
      name = p.name;
      yes_price = p.yes.price;
      yes_liq = p.yes.liq;
      yes_src = some p.yes.src;
      no_price = p.no_side.price;
      no_liq = p.no_side.liq;
      no_src = some p.no_side.src;
      alive = true;
    })
    ∷ poly_near_legs ps

-- `dyn_thresh_p`
abbrev pub near_threshold : Sources → Candidate → ℕ
near_threshold w cand =
    let fee = highest_from 0 (market_fees w.taker_fee cand.rough) in
    if ltb 0 fee then compute_poly_threshold w.limits fee else w.thresh_poly

unfoldable pub best_of_poly : Sources → Candidate → Rejection ⊎ NearOption
best_of_poly w cand =
    let per = poly_per_market w.clob_res w.ws_books cand.rough in
    best_near_structure (near_threshold w cand)
      (is_threshold_series w.patterns cand.title (names_of per) []) (poly_near_legs per)

abbrev pub count_rejection : Rejection → Diag → Diag
count_rejection all_legs_implied d = record d {
  rejected_strict = suc d.rejected_strict;
  strict_all_implied = suc d.strict_all_implied;
}
count_rejection no_structure_near_threshold d = record d {
  rejected_strict = suc d.rejected_strict;
  strict_no_near = suc d.strict_no_near;
}
count_rejection empty_pm d = record d {
  rejected_strict = suc d.rejected_strict;
  strict_empty_pm = suc d.strict_empty_pm;
}

abbrev pub add_best :
    Platform → String → Rejection ⊎ NearOption → List NearRow × Diag → List NearRow × Diag
add_best platform title (inl why) (rows, d) = (rows, count_rejection why d)
add_best platform title (inr o) (rows, d) =
    (row_of platform title o ∷ rows, record d { visible = suc d.visible })

-- The loop over the near candidates of Polymarket.
unfoldable pub poly_rows : Sources → List PolyNear → List NearRow × Diag
poly_rows w [] = ([], no_diag)
poly_rows w (x ∷ xs) =
    let (rows, d) = poly_rows w xs in
    if (x.cand).is_quarantined
    then (rows, record d { rejected_quarantine = suc d.rejected_quarantine })
    else if x.is_zombie
    then (rows, record d { rejected_zombie = suc d.rejected_zombie })
    else add_best polymarket (x.cand).title (best_of_poly w x.cand) (rows, d)

-- The rows alone, for the other exchanges.
abbrev pub add_row : Platform → String → Rejection ⊎ NearOption → List NearRow → List NearRow
add_row platform title (inl why) rows = rows
add_row platform title (inr o) rows = row_of platform title o ∷ rows
