-- ===== src/Pools/Below.antt =====
-- Scripts/radar/eval/pools.py: when a candidate has a structure that costs less than a limit, in terms
-- of the prices of its legs.
use polymarket_radar.Base.{
  ℕ, ◌+◌, ◌-◌, ◌*◌, String, Bool, false, not, ◌&&◌, ◌||◌, none, some, List, [], ◌∷◌, length, any,
  count, is_empty, ltb, leb, eqb, if◌then◌else◌, string_key, nat_key, pair_key,
}
use polymarket_radar.Base.Dict.{lookup}
use polymarket_radar.Deals.Build.{usd, is_real_source}
use polymarket_radar.Deals.Series.{is_threshold_series}
use polymarket_radar.Deals.SxBet.{SxMarket}
use polymarket_radar.Deals.Markets.{poly_per_market}
use polymarket_radar.Deals.Poly.{Candidate, total_outcomes_of, names_of}
use polymarket_radar.Deals.Limitless.{quote_of}
use polymarket_radar.Pools.Sums.{
  SumLeg, all_alive, child_titles, gather, single_leg, poly_legs, kalshi_legs,
}
use polymarket_radar.Pools.Classify.{LimCand, Quotes}

-- What the legs cost together, by one of their prices.
unfoldable pub cost : (SumLeg → ℕ) → List SumLeg → ℕ
cost price [] = 0
cost price (p ∷ ps) = price p + cost price ps

abbrev pub yes_cost : List SumLeg → ℕ
yes_cost legs = cost (λ p. p.yes) legs

abbrev pub no_cost : List SumLeg → ℕ
no_cost legs = cost (λ p. p.no_price) legs

-- How many legs have a NO.
abbrev pub nos : List SumLeg → ℕ
nos legs = count (λ p. ltb 0 p.no_price) legs

-- A live leg whose YES and NO together cost less than the limit.
abbrev pub is_pair_below : ℕ → SumLeg → Bool
is_pair_below limit p = ltb 0 p.no_price && ltb 0 p.yes && p.alive && ltb (p.yes + p.no_price) limit

-- Some structure costs less than the limit, for a payout of $1: every YES, where that is allowed, every
-- NO, which pays one dollar less than there are, or the pair of one leg.
abbrev pub some_below : ℕ → Bool → Bool → List SumLeg → Bool
some_below limit all_yes all_no legs =
    (all_yes && ltb (yes_cost legs) limit)
    || (all_no && ltb (no_cost legs) (limit * (nos legs - 1)))
    || any (is_pair_below limit) legs

-- Polymarket: a market is quoted by order books on both sides, and enough markets are quoted.
abbrev pub poly_below : Quotes → ℕ → Candidate → Bool
poly_below q limit cand =
    let per = poly_per_market q.clob_res q.ws_books cand.rough in
    let legs = poly_legs per in
    let is_series = is_threshold_series q.patterns cand.title (names_of per) [] in
    let total = total_outcomes_of cand per in
    any (λ p. is_real_source p.yes.src && is_real_source p.no_side.src) per
    && leb (if cand.is_single_binary then 1 else 2) (length per)
    && some_below limit
        (not cand.is_single_binary
          && eqb (length legs) total
          && not is_series
          && ltb 0 (yes_cost legs))
        (not cand.is_single_binary && leb 3 (nos legs) && eqb (nos legs) total && not is_series)
        legs

-- Kalshi: all markets of the event are quoted, and the YES cost at least half a dollar.
abbrev pub kalshi_below : Quotes → ℕ → List String → Bool
kalshi_below q limit tickers =
    let legs = kalshi_legs q.kalshi_res tickers in
    let total = length tickers in
    leb 2 (length legs)
    && some_below limit (eqb (length legs) total && leb usd (2 * yes_cost legs))
        (leb 3 (nos legs) && eqb (nos legs) total) legs

-- SX Bet: both outcomes are offered.
abbrev pub sx_below : Quotes → ℕ → SxMarket → Bool
sx_below q limit m = elim (lookup m.market_hash q.sx_res) [
  | none ↦ false
  | some b ↦ ltb 0 b.best1 && ltb 0 b.best2 && ltb (b.best1 + b.best2) limit
]

-- Limitless: a market by itself, or an event with children.
abbrev pub lim_below : Quotes → ℕ → LimCand → Bool
lim_below q limit x =
    let ev = x.event in
    let (legs, missing) = gather q.lim_volume q.lim_res ev.children in
    let is_series = is_threshold_series q.patterns ev.title (child_titles ev.children) [] in
    if is_empty ev.children
    then any (is_pair_below limit) (single_leg q.lim_volume (quote_of q.lim_res ev.slug))
    else not (is_empty legs)
      && some_below limit
          (eqb missing 0 && not is_series && all_alive legs && leb (2 * yes_cost legs) (3 * usd))
          (eqb (nos legs) (length ev.children)
            && leb 3 (nos legs)
            && not is_series
            && all_alive legs
            && leb (2 * no_cost legs) ((2 * nos legs - 1) * usd))
          legs
