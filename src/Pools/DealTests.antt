-- ===== src/Pools/DealTests.antt =====
-- Tests and examples of the deals of Kalshi and SX Bet.
use polymarket_radar.Base.{
  ◌*◌, ◌≡◌, refl, String, true, false, none, List, [], ◌∷◌, map, keep, eqb, string_key, nat_key,
  pair_key,
}
use polymarket_radar.Base.Dict.{Dict, lookup}
use polymarket_radar.Deals.Build.{
  usd, Sizing, calc_fee, least_liq, max_price, actual_balance, entries_of, total_fee, all_tradable,
  deal_of, build_deal,
}
use polymarket_radar.Deals.Limitless.{LimQuote}
use polymarket_radar.Deals.Poly.{total_of}
use polymarket_radar.Deals.Kalshi.{
  KalshiLimits, KalshiMarket, kalshi_priced, yes_outs, no_outs, kalshi_all_yes, kalshi_all_no,
  kalshi_pair, kalshi_pairs, eval_kalshi_event, eval_kalshi,
}
use polymarket_radar.Deals.SxBet.{SxMarket, SxQuote, sx_deal, sx_deals, eval_sx, binary_markets}
use polymarket_radar.Pools.Found.{kalshi_is_hot, eval_kalshi_hot}

abbrev sizing : Sizing
sizing = record { balance = 100 * usd; per_trade_cap = 60 * usd; min_leg_liq = 5 * usd }

abbrev kalshi_limits : KalshiLimits
kalshi_limits = record { thresh = 9300; theta = 350 }

abbrev market : String → KalshiMarket
market t = record { name = t; ticker = t }

-- YES of "a" and "b" cost 35 and 50 cents together with 85, those of "c" and "d" 110.
abbrev res : Dict String LimQuote
res =
    ("a", record { yes_ask = 3500; yes_depth = 30 * usd; no_ask = 7000; no_depth = usd })
    ∷ ("b", record { yes_ask = 5000; yes_depth = 30 * usd; no_ask = 6000; no_depth = usd })
    ∷ ("c", record { yes_ask = 5500; yes_depth = 30 * usd; no_ask = 6000; no_depth = usd })
    ∷ ("d", record { yes_ask = 5500; yes_depth = 30 * usd; no_ask = 0; no_depth = 0 })
    ∷ []

abbrev events : List (List KalshiMarket)
events = (market "a" ∷ market "b" ∷ []) ∷ (market "c" ∷ market "d" ∷ []) ∷ []

one_kalshi_deal : map (λ d. d.total) (eval_kalshi sizing kalshi_limits res events) ≡ 8500 ∷ []
unfolding eval_kalshi eval_kalshi_event kalshi_priced yes_outs no_outs kalshi_all_yes kalshi_all_no
    kalshi_pair kalshi_pairs lookup total_of build_deal actual_balance entries_of calc_fee total_fee
    all_tradable least_liq max_price deal_of
one_kalshi_deal = refl

eval_kalshi_hot_example :
    eval_kalshi sizing kalshi_limits res events
    ≡ eval_kalshi sizing kalshi_limits res (keep (kalshi_is_hot 9300 res) events)
eval_kalshi_hot_example = eval_kalshi_hot sizing kalshi_limits res events

abbrev sx_market : String → SxMarket
sx_market hash = record {
  kind = 1;
  market_hash = hash;
  is_active = true;
  outcome = none;
  in_window = true;
  is_past = false;
  outcome_one = "A";
  outcome_two = "B";
}

abbrev orders : Dict String SxQuote
orders =
    ("h", record { best1 = 4000; depth1 = 30 * usd; best2 = 5000; depth2 = 30 * usd })
    ∷ ("k", record { best1 = 5000; depth1 = 30 * usd; best2 = 5000; depth2 = 30 * usd })
    ∷ []

abbrev sx_list : List SxMarket
sx_list = sx_market "h" ∷ sx_market "k" ∷ sx_market "h" ∷ []

one_sx_deal : map (λ d. d.total) (eval_sx sizing 9700 200 (λ k. eqb k 1) orders sx_list) ≡ 9000 ∷ []
unfolding eval_sx sx_deals sx_deal binary_markets lookup build_deal actual_balance entries_of
    calc_fee total_fee all_tradable least_liq max_price deal_of
one_sx_deal = refl
