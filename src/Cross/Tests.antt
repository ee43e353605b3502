-- ===== src/Cross/Tests.antt =====
-- Tests and examples of Cross.
use polymarket_radar.Base.{
  ℕ, ◌≤◌, ◌≡◌, refl, ◌≢◌, String, true, false, none, some, List, [], ◌∷◌, map, All, Pairs,
  if◌then◌else◌, ◌==◌, string_key, nat_key, pair_key,
}
use polymarket_radar.Base.Dict.{lookup, insert}
use polymarket_radar.Base.Sort.{sort, insert_sorted}
use polymarket_radar.Stream.Subs.{distinct, is_subset}
use polymarket_radar.Cross.Match.{Texts, tokens_compatible, outcomes_compatible}
use polymarket_radar.Cross.Pairs.{
  Titles, Event, preprocess, prepared, match_from_canon, add_entry, index_into, dedup, candidates,
  choose, pair_loop, find_pairs,
}
use polymarket_radar.Cross.Once.{find_pairs_once}
use polymarket_radar.Cross.Outcomes.{
  Extras, PlatformOutcome, leg_platform_ids, check_settlement_timing, no_ids, CpDeal, x1, leg_at,
}
use polymarket_radar.Cross.Build.{verdict, direction, build_cross_platform_deal}
use polymarket_radar.Cross.Cover.{
  CpConfig, yes_legs, sum_prices, build_complement_cover_deal, group_into, covers_of,
  deals_of_pairs, find_cross_platform_arbs,
}
use polymarket_radar.Cross.Sound.{IsArb, find_cross_platform_arbs-Arb}
use polymarket_radar.Cross.Radar.{Sizes}

abbrev texts : Texts
texts = record {
  canonical_name = λ s. s;
  words = λ s. s ∷ [];
  scope = λ a b. "moneyline";
  league = λ s. none;
  canonical_title = λ s. s;
  similarity = λ a b. 0;
}

abbrev cp_config : CpConfig
cp_config = record {
  threshold = 9600;
  cover_threshold = 9300;
  cover_min_legs = 3;
  balance = 500000;
  tolerance = 86400;
  fuzzy = 7000;
}

abbrev no_extras : Extras
no_extras = record {
  token_id_yes = some "11";
  token_id_no = some "12";
  condition_id = none;
  verifying_contract = none;
  neg_risk = none;
  tick_size = none;
}

abbrev offer : String → String → ℕ → ℕ → PlatformOutcome
offer platform name yes_price no_price = record {
  platform = platform;
  event_id = name;
  outcome_name = name;
  yes = record { price = some yes_price; depth = 300000; source = "clob_ask" };
  no_side = record { price = some no_price; depth = 200000; source = "clob_ask" };
  end_date = none;
  title = "Santa Fe vs Corinthians";
  extras = no_extras;
}

abbrev on_poly : PlatformOutcome
on_poly = offer "Polymarket" "Santa Fe" 4000 6200

abbrev on_sx : PlatformOutcome
on_sx = offer "SX Bet" "Santa Fe" 4500 5000

abbrev sx_pool : List PlatformOutcome
sx_pool =
    offer "SX Bet" "Santa Fe" 4500 5000
    ∷ offer "SX Bet" "Corinthians" 3000 7500
    ∷ offer "SX Bet" "Tie" 2000 8500
    ∷ []

-- One pair, X1 at 90 cents, and one cover, with 40, 30 and 20 cents.
two_arbs :
    map
      (λ d. d.sum)
      (find_cross_platform_arbs texts cp_config
        ((on_poly, on_sx, 90000) ∷ [])
        (on_poly ∷ [])
        sx_pool)
    ≡ 9000 ∷ 9000 ∷ []
unfolding find_cross_platform_arbs deals_of_pairs build_cross_platform_deal direction verdict
    outcomes_compatible tokens_compatible distinct is_subset check_settlement_timing group_into
    insert lookup covers_of build_complement_cover_deal yes_legs sum_prices sort insert_sorted
    leg_platform_ids
two_arbs = refl

find_cross_platform_arbs-Arb_example :
    All (IsArb cp_config) (
      find_cross_platform_arbs texts cp_config
        ((on_poly, on_sx, 90000) ∷ [])
        (on_poly ∷ [])
        sx_pool)
find_cross_platform_arbs-Arb_example =
    find_cross_platform_arbs-Arb texts cp_config ((on_poly, on_sx, 90000) ∷ []) (on_poly ∷ [])
      sx_pool

abbrev arb : CpDeal
arb = record {
  structure = x1;
  title = "Santa Fe vs Corinthians";
  sum = 9000;
  threshold = 9600;
  legs = leg_at 500000 on_poly true no_ids 4000 ∷ leg_at 500000 on_sx false no_ids 5000 ∷ [];
  confidence = 90000;
  end_date = none;
}

abbrev sizes : Sizes
sizes = record { depth_factor = 80; per_trade = 550000 }

abbrev titles : Titles
titles = record {
  canonical = λ s. s;
  sport = λ s. some "soccer";
  league = λ s. none;
  date_in = λ s. 0;
  similarity = λ a b. if a == b then 10000 else 2000;
}

abbrev left_events : List Event
left_events =
    record { title = "A vs B"; end_date = 700 }
    ∷ record { title = "A vs B"; end_date = 701 }
    ∷ record { title = "C vs D"; end_date = 0 }
    ∷ []

abbrev right_events : List Event
right_events =
    record { title = "C vs D"; end_date = 700 } ∷ record { title = "A vs B"; end_date = 700 } ∷ []

-- The second event finds its peer taken, and the third, without a date, is not compared with one that
-- has a date.
one_pair :
    map {B = ℕ × ℕ} (λ p. (p.a, p.b)) (find_pairs titles 80000 left_events right_events)
    ≡ (0, 1) ∷ []
unfolding find_pairs prepared preprocess index_into add_entry insert lookup pair_loop candidates
    dedup choose match_from_canon
one_pair = refl

find_pairs_once_example :
    All (λ p. 80000 ≤ p.confidence) (find_pairs titles 80000 left_events right_events)
    × Pairs (λ p q. p.b ≢ q.b) (find_pairs titles 80000 left_events right_events)
find_pairs_once_example = find_pairs_once titles 80000 left_events right_events
