-- ===== src/Pools/Tests.antt =====
-- Tests and examples of Pools.
use polymarket_radar.Base.{
  ℕ, ◌*◌, ◌≡◌, refl, ◌⊎◌, inl, inr, String, true, false, none, some, List, [], ◌∷◌, map, All, Pairs,
  length, eqb, round_div, string_key, nat_key, pair_key,
}
use polymarket_radar.Base.Dict.{Dict, lookup}
use polymarket_radar.Base.Sort.{sort, insert_sorted}
use polymarket_radar.Deals.Build.{usd}
use polymarket_radar.Deals.Series.{Patterns, comparators, is_threshold_series}
use polymarket_radar.Deals.Markets.{Rough, ClobQuote, market_sides, poly_per_market}
use polymarket_radar.Deals.Poly.{Limits, Candidate, compute_poly_threshold, market_fees}
use polymarket_radar.Deals.Limitless.{LimQuote}
use polymarket_radar.Deals.SxBet.{SxMarket, binary_markets}
use polymarket_radar.Pools.Sums.{
  sum_yes, sum_no, pair_min, least, poly_sums, sum_poly_cand, sum_sx_market,
}
use polymarket_radar.Pools.Classify.{
  Pool, split_pool, sorted_items, classify, rate_poly, by_sum, LimCand, by_sum_volume, PoolConfig,
  Quotes, rate_poly_in, rate_kalshi, rate_sx, rate_lim, classify_pools, collect_poly_tokens,
}
use polymarket_radar.Pools.Below.{poly_below, kalshi_below, sx_below, lim_below}
use polymarket_radar.Pools.Listed.{IsListed, limit_in, classify_pools-IsListed}
use polymarket_radar.Pools.Near.{
  NearLeg, NearOption, Rejection, real_legs, yes_option, offers_yes, no_option, offers_no,
  pair_option, pair_best, near_options, best_near_structure,
}
use polymarket_radar.Pools.Offers.{IsNearest, best_near_structure-IsNearest}
use polymarket_radar.Pools.Summary.{kalshi, Sources, poly_near_legs, best_of_poly, poly_rows}
use polymarket_radar.Pools.Table.{
  kalshi_near_legs, kalshi_rows, sx_rows, lim_near_legs, best_of_lim, lim_rows, NearPools, closer,
  is_on, near_summary,
}
use polymarket_radar.Pools.Counted.{CountsAll, near_summary_lem}

abbrev limits : Limits
limits = record {
  slippage_reserve = 30;
  safety_buffer = 70;
  dynamic_floor = 9480;
  dynamic_cap = 9930;
  default_fee = 200;
  realistic_floor = 8000;
  enable_a = true;
  enable_b = true;
  enable_c = true;
  tight_cutoff = 9500;
  tight_min_liq = 600 * usd;
  tight_max_slip = 30;
}

abbrev patterns : Patterns
patterns = record {
  is_threshold_title = λ t. false;
  comparator_prefix = λ t. none;
  comparator_in = λ t. none;
}

-- Polymarket: an event whose YES are sold at 40 and 50 cents, and one at 40 and 60 cents.
abbrev outcome_market : String → Rough
outcome_market token = record {
  name = token;
  slug = "";
  condition_id = none;
  implied = 4500;
  liquidity = 0;
  token_id_yes = some token;
  token_id_no = none;
}

abbrev event_of : String → String → Candidate
event_of a b = record {
  title = "Who wins?";
  markets = 2;
  is_single_binary = false;
  is_quarantined = false;
  rough = outcome_market a ∷ outcome_market b ∷ [];
}

abbrev clob : Dict String ClobQuote
clob =
    ("a", record { ask = 4000; ask_depth = 900 * usd; bid = 3900; bid_depth = usd })
    ∷ ("b", record { ask = 5000; ask_depth = 800 * usd; bid = 4900; bid_depth = usd })
    ∷ ("c", record { ask = 6000; ask_depth = 800 * usd; bid = 5900; bid_depth = usd })
    ∷ []

abbrev config : PoolConfig
config = record {
  near_buffer = 300;
  thresh_kalshi = 9300;
  thresh_sx = 9700;
  thresh_limitless = 9880;
  is_sx_binary = λ k. eqb k 1;
  limits = limits;
}

abbrev lim_quotes : Dict String LimQuote
lim_quotes =
    ("s", record { yes_ask = 4800; yes_depth = usd; no_ask = 5000; no_depth = usd })
    ∷ ("t", record { yes_ask = 4900; yes_depth = usd; no_ask = 5100; no_depth = usd })
    ∷ []

abbrev quotes : Quotes
quotes = record {
  patterns = patterns;
  taker_fee = λ cid. none;
  clob_res = clob;
  ws_books = [];
  kalshi_res = lim_quotes;
  sx_res =
      ("h1", record { best1 = 4700; depth1 = usd; best2 = 4800; depth2 = usd })
      ∷ ("h2", record { best1 = 4700; depth1 = usd; best2 = 4700; depth2 = usd })
      ∷ ("h3", record { best1 = 4900; depth1 = usd; best2 = 4900; depth2 = usd })
      ∷ [];
  lim_res = lim_quotes;
  lim_volume = λ slug. none;
}

abbrev sx_market : ℕ → String → SxMarket
sx_market kind hash = record {
  kind = kind;
  market_hash = hash;
  is_active = true;
  outcome = none;
  in_window = true;
  is_past = false;
  outcome_one = "A";
  outcome_two = "B";
}

abbrev sx_markets : List SxMarket
sx_markets =
    sx_market 1 "h1"
    ∷ sx_market 1 "h2"
    ∷ sx_market 1 "h1"
    ∷ sx_market 52 "h2"
    ∷ sx_market 1 "h3"
    ∷ []

abbrev lim_market : String → LimCand
lim_market slug = record {
  event = record { title = slug; slug = some slug; children = [] };
  volume = 10;
}

abbrev near_or_hot : Pool SxMarket → List String × List String
near_or_hot p = (map (λ m. m.market_hash) p.hot, map (λ m. m.market_hash) p.near)

-- The markets at 94 and 95 cents are hot, that at 98 cents is near; doubles and other kinds are skipped.
sx_pool :
    near_or_hot (
      classify by_sum
        (rate_sx config quotes)
        300
        (binary_markets config.is_sx_binary [] sx_markets))
    ≡ ("h2" ∷ "h1" ∷ [], "h3" ∷ [])
unfolding classify split_pool sorted_items binary_markets sum_sx_market sort insert_sorted lookup
sx_pool = refl

poly_pool :
    (map
      (λ c. length c.rough)
      (classify by_sum
        (rate_poly_in config quotes)
        300
        (event_of "a" "c" ∷ event_of "a" "b" ∷ [])).hot)
    ≡ 2 ∷ []
unfolding classify split_pool sorted_items rate_poly sum_poly_cand poly_per_market market_sides
    lookup sort insert_sorted is_threshold_series comparators poly_sums sum_yes sum_no pair_min
    least compute_poly_threshold market_fees
poly_pool = refl

classify_pools-IsListed_example :
    let poly = event_of "a" "c" ∷ event_of "a" "b" ∷ [] in
    let lim = lim_market "s" ∷ lim_market "t" ∷ [] in
    let pools = classify_pools config quotes poly (("s" ∷ "t" ∷ []) ∷ []) sx_markets lim in
    IsListed by_sum
      (rate_poly_in config quotes)
      (poly_below quotes)
      (limit_in config quotes)
      300
      poly
      pools.poly
    × IsListed by_sum
        (rate_kalshi config quotes)
        (kalshi_below quotes)
        (λ x. config.thresh_kalshi)
        300
        (("s" ∷ "t" ∷ []) ∷ [])
        pools.kalshi
    × IsListed by_sum
        (rate_sx config quotes)
        (sx_below quotes)
        (λ x. config.thresh_sx)
        300
        (binary_markets config.is_sx_binary [] sx_markets)
        pools.sx
    × IsListed by_sum_volume
        (rate_lim config quotes)
        (lim_below quotes)
        (λ x. config.thresh_limitless)
        300
        lim
        pools.lim
classify_pools-IsListed_example =
    classify_pools-IsListed config quotes (event_of "a" "c" ∷ event_of "a" "b" ∷ [])
      (("s" ∷ "t" ∷ []) ∷ []) sx_markets (lim_market "s" ∷ lim_market "t" ∷ [])

-- The tokens of YES stand before those of NO.
tokens :
    collect_poly_tokens (record { hot = event_of "a" "b" ∷ []; near = event_of "a" "c" ∷ [] })
    ≡ "a" ∷ "b" ∷ "a" ∷ "c" ∷ []
unfolding collect_poly_tokens
tokens = refl

-- Two markets with YES at 40 and 58 cents and NO at 61 and 43: the sum of YES is 98 cents, the pairs cost
-- 101 each, and the threshold is at 97.
abbrev near_leg : ℕ → ℕ → NearLeg
near_leg yes_price no_price = record {
  name = "leg";
  yes_price = yes_price;
  yes_liq = 5 * usd;
  yes_src = some "clob_ask";
  no_price = no_price;
  no_liq = 6 * usd;
  no_src = some "clob_ask";
  alive = true;
}

abbrev near_legs : List NearLeg
near_legs = near_leg 4000 6100 ∷ near_leg 5800 4300 ∷ []

abbrev shown_sum : Rejection ⊎ NearOption → ℕ
shown_sum (inl why) = 0
shown_sum (inr o) = o.sum

-- In a series of thresholds the sum of YES is not offered, and the pairs are more than 3 cents away.
shown_all_yes : shown_sum (best_near_structure 9700 false near_legs) ≡ 9800
unfolding best_near_structure real_legs near_options yes_option offers_yes no_option offers_no
    pair_option pair_best sort insert_sorted
shown_all_yes = refl

shown_none : shown_sum (best_near_structure 9700 true near_legs) ≡ 0
unfolding best_near_structure real_legs near_options yes_option offers_yes no_option offers_no
    pair_option pair_best sort insert_sorted
shown_none = refl

best_near_structure-IsNearest_example :
    IsNearest 9700 false near_legs (best_near_structure 9700 false near_legs)
best_near_structure-IsNearest_example = best_near_structure-IsNearest 9700 false near_legs

abbrev sources : Sources
sources = record {
  limits = limits;
  patterns = patterns;
  thresh_poly = 9700;
  thresh_kalshi = 9300;
  thresh_sx = 9700;
  thresh_limitless = 9880;
  taker_fee = λ cid. none;
  clob_res = clob;
  ws_books = [];
  kalshi_res = lim_quotes;
  sx_res = quotes.sx_res;
  lim_res = lim_quotes;
  lim_volume = λ slug. some 10;
}

abbrev near_pools : NearPools
near_pools = record {
  poly_near =
      record { cand = event_of "a" "c"; is_zombie = false }
      ∷ record { cand = event_of "a" "b"; is_zombie = true }
      ∷ [];
  kalshi_near = record { title = "K"; tickers = "s" ∷ "t" ∷ [] } ∷ [];
  sx_near = record { title = "S"; market_hash = "h3" } ∷ [];
  lim_near = record { event = (lim_market "t").event; is_past = false } ∷ [];
}

-- The market of SX Bet is 1 cent from its threshold, that of Limitless 1.2 and the event of Polymarket 3.
near_titles :
    map (λ x. x.title) (near_summary sources near_pools).rows ≡ "S" ∷ "t" ∷ "Who wins?" ∷ []
unfolding near_summary poly_rows best_of_poly poly_near_legs kalshi_rows kalshi_near_legs sx_rows
    lim_rows best_of_lim lim_near_legs best_near_structure real_legs near_options yes_option
    offers_yes no_option offers_no pair_option pair_best sort insert_sorted poly_per_market
    market_sides lookup market_fees compute_poly_threshold is_threshold_series comparators round_div
near_titles = refl

near_summary_lem_example :
    Pairs (λ x y. closer x y ≡ true) (near_summary sources near_pools).rows
    × All (λ x. is_on kalshi x ≡ false) (near_summary sources near_pools).rows
    × CountsAll 2 (near_summary sources near_pools).diag
near_summary_lem_example = near_summary_lem sources near_pools
