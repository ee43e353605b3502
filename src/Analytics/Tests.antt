-- ===== src/Analytics/Tests.antt =====
-- Tests and examples of Analytics.
use polymarket_radar.Base.{
  ℕ, ◌≡◌, refl, true, some, List, [], ◌∷◌, map, length, string_key, nat_key, pair_key, arith,
}
use polymarket_radar.Base.Dict.{lookup, insert}
use polymarket_radar.Base.Int.{pos}
use polymarket_radar.Analytics.{
  Deal, opened, closed, deal_key, snapshots, open_new, see_all, miss_all, close_log,
  update_from_scan, get_first_seen_ts, update_from_near_scan, record_fire_filled,
}
use polymarket_radar.Analytics.Lifecycle.{IsTracker, no_deals, run_scans, run_scans_balanced}

abbrev flicker : Deal
flicker = record {
  platform = "SX Bet";
  title = "A vs B";
  arb_structure = "binary";
  cross_structure = "";
  net = pos 210;
}

abbrev scans : List (ℕ × List Deal)
scans = (100, flicker ∷ []) ∷ (110, []) ∷ (120, flicker ∷ []) ∷ (130, []) ∷ (140, []) ∷ []

-- With a grace of two scans one miss does not close the deal, and two in a row do.
closed_once :
    (run_scans 2 scans no_deals).log
    ≡ closed 140 "SX Bet::A vs B::binary::" 40 ∷ opened 100 "SX Bet::A vs B::binary::" flicker ∷ []
unfolding run_scans update_from_scan deal_key snapshots open_new see_all miss_all close_log lookup
    insert
closed_once = refl

-- A deal that was seen in one scan counts as seen in two.
seen_twice :
    map
      (λ x. (x.1).consecutive_scans_seen)
      (update_from_scan 30 100 (flicker ∷ []) no_deals).open_deals
    ≡ 2 ∷ []
unfolding update_from_scan deal_key snapshots open_new see_all miss_all lookup insert
seen_twice = refl

first_seen :
    get_first_seen_ts "SX Bet::A vs B::binary::" (run_scans 2 ((100, flicker ∷ []) ∷ []) no_deals)
    ≡ some 100
unfolding run_scans update_from_scan deal_key snapshots open_new see_all miss_all close_log lookup
    insert
first_seen = refl

run_scans_balanced_example : IsTracker 2 (run_scans 2 scans no_deals)
run_scans_balanced_example = run_scans_balanced 2 scans (omega arith)

-- A near deal is logged again after five minutes.
logged_twice :
    length
      (update_from_near_scan 1600 (flicker ∷ []) (
        update_from_near_scan 1500
          (flicker ∷ [])
          (update_from_near_scan 1300 (flicker ∷ []) ([], [])))).1
    ≡ 2
unfolding update_from_near_scan deal_key lookup insert
logged_twice = refl

-- A leg that was filled with nothing is no position.
soft_fill : record_fire_filled 150 flicker (record { is_filled = true; fill_size = 0 } ∷ []) [] ≡ []
unfolding record_fire_filled
soft_fill = refl
