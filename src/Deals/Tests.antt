-- ===== src/Deals/Tests.antt =====
-- Tests and examples of Deals.
use polymarket_radar.Base.{
  Bool, false, true, ◌↔◌, ◌≢◌, ◌⊎◌, map, length, String, if◌then◌else◌, ◌==◌, string_key, Option,
  ◌+◌, ◌*◌, ◌≤◌, ◌≡◌, refl, none, some, List, [], ◌∷◌, All, arith,
}
use polymarket_radar.Base.Dict.{Dict, lookup}
use polymarket_radar.Base.Frac.{whole, ◌+/◌, ◌*/◌, ◌</◌, ◌≤/◌}
use polymarket_radar.Deals.Build.{
  usd, DealOutcome, Sizing, calc_fee, least_liq, max_price, actual_balance, gross_of, entries_of,
  total_fee, all_tradable, Deal, deal_of, build_deal, max_stake,
}
use polymarket_radar.Deals.Series.{Patterns, comparators, is_threshold_series}
use polymarket_radar.Deals.Overlap.{Agree, is_threshold_series_lem}
use polymarket_radar.Deals.Markets.{Rough, ClobQuote, market_sides, poly_per_market}
use polymarket_radar.Deals.Poly.{
  Limits, Candidate, all_yes, compute_poly_threshold, market_fees, max_fee, quality_ok, yes_out,
  no_out, total_of, passes_all_yes, eval_all_yes, passes_all_no, eval_all_no, passes_pair,
  eval_pair, eval_pairs, is_series_of, eval_poly_structures,
}
use polymarket_radar.Deals.Limitless.{
  LimQuote, LimLimits, LimEvent, collect, all_dead, lim_quality_ok, yes_outcomes, no_raw,
  no_outcomes, lim_all_yes, lim_all_no, lim_pair, lim_pairs, eval_group, eval_lim_event,
}
use polymarket_radar.Deals.Limitless.Covered.{IsCovered, eval_lim_event-Covered}
use polymarket_radar.Deals.Poly.Pays.{IsSound, eval_poly_structures-Sound}
use polymarket_radar.Deals.Build.Profit.{build_deal_pays}
use polymarket_radar.Deals.Build.Stakes.{build_deal_stakes}

-- $100 to spend, at most $60 on a leg, and $5 of liquidity.
abbrev sizing : Sizing
sizing = record { balance = 100 * usd; per_trade_cap = 60 * usd; min_leg_liq = 5 * usd }

abbrev legs : List DealOutcome
legs =
    record { name = "yes"; price = 4000; liquidity = 30 * usd; source = "clob_ask" }
    ∷ record { name = "no"; price = 5000; liquidity = 90 * usd; source = "clob_ask" }
    ∷ []

abbrev built : Deal
built =
    deal_of false legs (entries_of false 200 (actual_balance sizing legs 9000) 9000 legs)
      (actual_balance sizing legs 9000) (gross_of (actual_balance sizing legs 9000) usd 9000)

-- The legs at 40 and 50 cents are bought; at 52 and 50 cents there is no profit, and without a real
-- source there is no deal.
two_legs : build_deal sizing false legs 9000 200 1 ≡ some built
unfolding build_deal actual_balance entries_of calc_fee total_fee all_tradable least_liq max_price
two_legs = refl

dear_legs : build_deal sizing false legs 10200 200 1 ≡ none
unfolding build_deal actual_balance entries_of calc_fee total_fee all_tradable least_liq max_price
dear_legs = refl

build_deal_pays_example :
    All (λ e. built.balance_used +/ built.fee </ e.contracts */ whole (1 * usd)) built.entries
build_deal_pays_example =
    build_deal_pays sizing false legs 9000 200 1 built (omega arith)
      (omega arith, (omega arith, tt)) two_legs

build_deal_stakes_example :
    All (λ e. e.stake ≤/ whole (sizing.per_trade_cap + 50)) built.entries
    × All (λ e. e.stake ≤/ whole (built.min_liq + 50)) built.entries
    × All (λ o. built.min_liq ≤ o.liquidity) legs
    × (sizing.min_leg_liq ≤ built.min_liq)
build_deal_stakes_example =
    build_deal_stakes sizing false legs 9000 200 1 built (omega arith) (omega arith) two_legs

-- An event of two markets: YES is sold at 40 and 50 cents.
abbrev outcome_market : String → String → Rough
outcome_market name token = record {
  name = name;
  slug = "";
  condition_id = none;
  implied = 4500;
  liquidity = 0;
  token_id_yes = some token;
  token_id_no = none;
}

abbrev quotes : Dict String ClobQuote
quotes =
    ("a", record { ask = 4000; ask_depth = 900 * usd; bid = 0; bid_depth = 0 })
    ∷ ("b", record { ask = 5000; ask_depth = 800 * usd; bid = 0; bid_depth = 0 })
    ∷ []

abbrev two_outcomes : Candidate
two_outcomes = record {
  title = "Who wins?";
  markets = 2;
  is_single_binary = false;
  is_quarantined = false;
  rough = outcome_market "A" "a" ∷ outcome_market "B" "b" ∷ [];
}

abbrev limits : Limits
limits = record {
  slippage_reserve = 30;
  safety_buffer = 70;
  dynamic_floor = 9480;
  dynamic_cap = 9930;
  default_fee = 200;
  realistic_floor = 8000;
  enable_a = true;
  enable_b = true;
  enable_c = true;
  tight_cutoff = 9500;
  tight_min_liq = 600 * usd;
  tight_max_slip = 30;
}

abbrev is_above : String → Option String
is_above t =
    if t == "Above 60" then some "above" else if t == "Above 70" then some "above" else none

abbrev patterns : Patterns
patterns = record {
  is_threshold_title = λ t. false;
  comparator_prefix = is_above;
  comparator_in = λ t. none;
}

one_deal :
    map
      (λ d. d.structure)
      (eval_poly_structures sizing limits patterns (λ cid. none) quotes [] two_outcomes)
    ≡ all_yes ∷ []
unfolding eval_poly_structures poly_per_market market_sides lookup market_fees max_fee
    is_threshold_series comparators eval_all_yes eval_all_no eval_pairs eval_pair yes_out no_out
    total_of passes_all_yes passes_all_no passes_pair compute_poly_threshold quality_ok build_deal
    actual_balance entries_of calc_fee total_fee all_tradable least_liq max_price deal_of max_stake
one_deal = refl

eval_poly_structures-Sound_example :
    All
      (IsSound two_outcomes
        (is_series_of patterns two_outcomes (poly_per_market quotes [] two_outcomes.rough))
        2)
      (eval_poly_structures sizing limits patterns (λ cid. none) quotes [] two_outcomes)
eval_poly_structures-Sound_example =
    eval_poly_structures-Sound sizing limits patterns (λ cid. none) quotes [] two_outcomes

abbrev titles : List String
titles = "Above 60" ∷ "Above 70" ∷ "Above 60" ∷ []

is_threshold_series_lem_example : (is_threshold_series patterns "Oil" titles [] ≡ true) ↔ (
    (◌≢◌ {A = String} "Oil" "")
    × ((◌≡◌ {A = Bool} false true) ⊎ ((3 ≤ length titles) × Agree is_above titles) ⊎ ((2 ≤ 0) × ⊥)))
is_threshold_series_lem_example = is_threshold_series_lem patterns "Oil" titles []

-- Two children with books: YES is sold at 40 and 50 cents. A third without a book leaves no deal.
abbrev lim_quotes : Dict String LimQuote
lim_quotes =
    ("a", record { yes_ask = 4000; yes_depth = 900 * usd; no_ask = 0; no_depth = 0 })
    ∷ ("b", record { yes_ask = 5000; yes_depth = 800 * usd; no_ask = 0; no_depth = 0 })
    ∷ []

abbrev lim_limits : LimLimits
lim_limits = record {
  thresh = 9600;
  theta = 100;
  realistic_floor = 8500;
  tight_cutoff = 9500;
  tight_min_liq = 130 * usd;
  tight_max_slip = 30;
  enable_a = true;
  enable_b = true;
  enable_c = true;
}

abbrev leeds : LimEvent
leeds = record {
  title = "Leeds or Burnley?";
  slug = none;
  children =
      record { name = "Leeds"; slug = some "a" }
      ∷ record { name = "Burnley"; slug = some "b" }
      ∷ [];
}

abbrev with_draw : LimEvent
with_draw = record leeds { children = record { name = "Draw"; slug = some "c" } ∷ leeds.children }

lim_deals :
    map (λ d. d.structure) (eval_lim_event sizing lim_limits patterns (λ slug. 10) lim_quotes leeds)
    ≡ all_yes ∷ []
unfolding eval_lim_event eval_group collect lookup lim_all_yes lim_all_no lim_pairs lim_pair
    yes_outcomes no_raw no_outcomes is_threshold_series comparators total_of lim_quality_ok all_dead
    build_deal actual_balance entries_of calc_fee total_fee all_tradable least_liq max_price deal_of
    max_stake
lim_deals = refl

no_lim_deals :
    map
      (λ d. d.structure)
      (eval_lim_event sizing lim_limits patterns (λ slug. 10) lim_quotes with_draw)
    ≡ []
unfolding eval_lim_event eval_group collect lookup lim_all_yes lim_all_no lim_pairs lim_pair
    yes_outcomes no_raw no_outcomes is_threshold_series comparators total_of lim_quality_ok all_dead
    build_deal actual_balance entries_of calc_fee total_fee all_tradable least_liq max_price deal_of
    max_stake
no_lim_deals = refl

eval_lim_event-Covered_example :
    All (IsCovered 2) (eval_lim_event sizing lim_limits patterns (λ slug. 10) lim_quotes leeds)
eval_lim_event-Covered_example =
    eval_lim_event-Covered sizing lim_limits patterns (λ slug. 10) lim_quotes leeds
