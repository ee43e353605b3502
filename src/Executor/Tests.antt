-- ===== src/Executor/Tests.antt =====
-- The theorems on the executor at concrete arbs.
use polymarket_radar.Base.{
  ℕ, ◌≤◌, ◌<◌, ◌≡◌, refl, ◌≢◌, ◌⊎◌, inr, ◌↔◌, String, true, false, Option, none, some, List, [],
  ◌∷◌, map, arith, All, length, string_key,
}
use polymarket_radar.Base.Int.{pos}
use polymarket_radar.Base.Dict.{Dict, lookup, insert, Unique}
use polymarket_radar.Risk.Limits.{Deal}
use polymarket_radar.Risk.Tests.{late_evening, config, calm_world, small_deal, small_deal-MayFire}
use polymarket_radar.Wallets.Coordinator.{Reservations}
use polymarket_radar.Executor.Assign.{
  WalletStub, assign_wallets, legs_per_bot_for, min_wallets_needed,
}
use polymarket_radar.Executor.Assign.Spread.{legs_of, assign_wallets_lem}
use polymarket_radar.Executor.Legs.{Built, answered, Leg, arb_broken, fire_one_leg_live, send_leg}
use polymarket_radar.Executor.Legs.Broken.{is_good, is_held, live_status, arb_broken-live}
use polymarket_radar.Executor.Fire.{Settings, Outside, fire_gates, fire_arb, assigned, met_by}
use polymarket_radar.Executor.Fire.Gated.{PassesLate, MaySend, fire_gates-MaySend, fire_arb-live}
use polymarket_radar.Executor.Presign.{
  Stats, Presigned, consume_presigned, pre_sign_for_near_candidate, sign_legs, sign_structures,
}
use polymarket_radar.Executor.Presign.Single.{Call, consume, evict, run, consumed_once}

abbrev stub : String → WalletStub
stub id = record { bot_id = id }

abbrev six_bots : List WalletStub
six_bots = stub "b0" ∷ stub "b1" ∷ stub "b2" ∷ stub "b3" ∷ stub "b4" ∷ stub "b5" ∷ []

assign_wallets_lem_example :
    let per_bot = legs_per_bot_for 6 12 16 in
    let given = assign_wallets 6 12 16 six_bots false in
    (min_wallets_needed 16 per_bot ≤ 6 → (length given ≡ 16) × (legs_of "b0" given ≤ per_bot))
    × (6 < min_wallets_needed 16 per_bot → given ≡ [])
assign_wallets_lem_example = assign_wallets_lem 6 12 16 six_bots "b0" (omega arith) (omega arith)

abbrev an_order : Built
an_order = record { disabled_reason = none; expected_price = 4500; partial_fill = false }

abbrev filled_leg : Leg
filled_leg = record {
  built = some an_order;
  post = answered 200;
  fill = some (record { fill_price = some 4520; price = none });
}

abbrev late_leg : Leg
late_leg = record { built = some an_order; post = answered 201; fill = none }

abbrev half_open_arb : List Leg
half_open_arb = filled_leg ∷ late_leg ∷ []

arb_broken-live_example :
    (arb_broken (map (live_status 100) half_open_arb) ≡ false)
    ↔ (All (λ l. is_good 100 l ≡ true) half_open_arb ⊎ All (λ l. is_held l ≡ false) half_open_arb)
arb_broken-live_example = arb_broken-live 100 half_open_arb

-- A rejected leg beside one that would have been sent.
abbrev dry_legs : List (Option Built)
dry_legs = none ∷ some an_order ∷ []

abbrev settings : Settings
settings = record {
  risk = config;
  tier1_max = 6;
  tier2_max = 12;
  min_net_per_arb = pos 500000;
  depth_recheck_enabled = true;
  slippage_tolerance = 100;
}

abbrev outside : Outside
outside = record {
  clock = late_evening;
  replies = [];
  preflight_failures = [];
  depth_failures = some [];
  graduation_ready = some true;
  leg = λ i. filled_leg;
}

abbrev held : Reservations
held = ("b0", 999990) ∷ ("b1", 999990) ∷ []

small_deal-PassesLate : PassesLate settings outside small_deal false
small_deal-PassesLate = record {
  has_legs = λ h. omega arith;
  net_enough = omega arith;
  preflight = refl;
  deep = inr (inr (inr refl));
  graduated = inr refl;
}

two_given : assigned settings small_deal six_bots false ≢ []
unfolding assign_wallets legs_per_bot_for
two_given h = ground arith

small_deal-MaySend : MaySend settings outside small_deal six_bots false calm_world
small_deal-MaySend = record {
  has_wallets = two_given;
  may_fire = small_deal-MayFire;
  late = small_deal-PassesLate;
}

fire_gates-MaySend_example :
    ((fire_gates settings outside small_deal six_bots false calm_world).0 ≡ none)
    ↔ MaySend settings outside small_deal six_bots false calm_world
fire_gates-MaySend_example =
    fire_gates-MaySend settings outside small_deal six_bots false calm_world (omega arith)

not_aborted :
    (fire_arb settings outside small_deal six_bots false calm_world held).0.aborted_reason ≡ none
unfolding fire_arb met_by arb_broken fire_one_leg_live send_leg
not_aborted =
    let passed =
      (fire_gates-MaySend settings outside small_deal six_bots false calm_world (omega arith)).1
        small_deal-MaySend in
    ground (arith, passed)

fire_arb-live_example :
    let legs = met_by outside.leg 0 2 in
    MaySend settings outside small_deal six_bots false calm_world
    × (All (λ l. is_good 100 l ≡ true) legs ⊎ All (λ l. is_held l ≡ false) legs)
fire_arb-live_example =
    fire_arb-live settings outside small_deal six_bots calm_world held (omega arith) not_aborted

abbrev empty_deal : Deal
empty_deal = record { stakes = []; net = none }

-- A builder that signs with the name of the wallet.
abbrev build : ℕ → String → Option String
build token wallet = some wallet

abbrev no_stats : Stats
no_stats = record {
  presigned_total = 0;
  cache_hits = 0;
  cache_misses = 0;
  cache_expired = 0;
  presign_failures = 0;
}

abbrev empty_cache : Presigned String
empty_cache = record { cache = []; stats = no_stats }

abbrev two_legs : Dict String (List ℕ)
two_legs = ("all_yes", 1 ∷ 2 ∷ []) ∷ []

abbrev two_wallets : Dict String (List String)
two_wallets = ("all_yes", "0xa" ∷ "0xb" ∷ []) ∷ []

abbrev signed : Presigned String
signed = (pre_sign_for_near_candidate build 50 "c" "polymarket" two_legs two_wallets empty_cache).0

cached :
    (pre_sign_for_near_candidate build 50 "c" "polymarket" two_legs two_wallets empty_cache).1
    ≡ true
unfolding pre_sign_for_near_candidate sign_structures sign_legs lookup insert
cached = refl

consumed : (consume_presigned 57 "c" "all_yes" signed).1 ≡ some ("0xa" ∷ "0xb" ∷ [])
unfolding consume_presigned pre_sign_for_near_candidate sign_structures sign_legs lookup insert
consumed = refl

signed-Unique : Unique signed.cache
unfolding pre_sign_for_near_candidate sign_structures sign_legs lookup insert
signed-Unique = (refl, tt)

abbrev later_calls : List (Call String ℕ)
later_calls = evict 58 ∷ consume 58 "d" "all_yes" ∷ []

consumed_once_example :
    (consume_presigned 58 "c" "all_yes"
      (run build later_calls (consume_presigned 57 "c" "all_yes" signed).0)).1
    ≡ none
consumed_once_example =
    consumed_once build "c" "all_yes" "all_yes" 57 58 later_calls signed ("0xa" ∷ "0xb" ∷ [])
      signed-Unique consumed (tt, (tt, tt))
