-- ===== src/Wallets/Tests.antt =====
-- The theorems on the coordinator at a concrete pool.
use polymarket_radar.Base.{
  ℕ, some, count, ◌≤◌, ◌<◌, ◌≡◌, refl, ◌≢◌, String, true, List, [], ◌∷◌, arith, All, Pairs, length,
  any, string_key, str_apart, ◌==◌,
}
use polymarket_radar.Base.Int.{pos, ◌≤ℤ◌, ◌+ℤ◌}
use polymarket_radar.Base.Dict.{lookup, Unique}
use polymarket_radar.Base.Sort.{sort, insert_sorted}
use polymarket_radar.Wallets.Defs.{Wallet}
use polymarket_radar.Wallets.Rebalance.{Thresholds, propose_rebalances}
use polymarket_radar.Wallets.Rebalance.Reserve.{
  Balanced, IsProper, net, slack, propose_rebalances_lem,
}
use polymarket_radar.Wallets.Coordinator.{
  Reservations, available, drop_expired, eligible, assign_legs,
}
use polymarket_radar.Wallets.Coordinator.Choice.{Differ, is_free, assign_legs_complete}
use polymarket_radar.Wallets.Coordinator.Collision.{assign, release, Action, run, wallets_apart}

abbrev bot : String → ℕ → Wallet
bot id usdc = record { bot_id = id; last_known_usdc = pos usdc; can_sign = true }

abbrev pool : List Wallet
pool = bot "bot0" 300 ∷ bot "bot1" 100 ∷ bot "bot2" 200 ∷ []

-- `bot0` is reserved since 95.
abbrev held : Reservations
held = ("bot0", 95) ∷ []

held-Unique : Unique held
unfolding lookup
held-Unique = (refl, tt)

pool-Differ : Pairs Differ pool
pool-Differ = (
  (str_apart "bot0" "bot1" refl, (str_apart "bot0" "bot2" refl, tt)),
  ((str_apart "bot1" "bot2" refl, tt), (tt, tt)),
)

abbrev HasFifty : Wallet → Type 0
HasFifty w = pos 50 ≤ℤ w.last_known_usdc

assign_legs_complete_example :
    let free = count (is_free 100 (pos 60) held) pool in
    let (chosen, r') = assign_legs 100 pool 2 (pos 60) held in
    (2 ≤ free → length chosen ≡ 2)
    × (free < 2
        → (chosen ≡ []) × ((k : String) (ts : ℕ) → lookup k r' ≡ some ts → lookup k held ≡ some ts))
assign_legs_complete_example = assign_legs_complete 100 pool 2 (pos 60) held held-Unique refl

two_free : count (is_free 100 (pos 60) held) pool ≡ 2
unfolding lookup
two_free = refl

-- The poorest wallet goes to the one leg, and stays away from the next arb.
bot1_given : any (λ w. w.bot_id == "bot1") (assign_legs 100 pool 1 (pos 60) held).0 ≡ true
unfolding assign_legs available eligible drop_expired lookup sort insert_sorted
bot1_given = refl

abbrev next_calls : List Action
next_calls = assign 103 pool 2 (pos 0) ∷ release ("bot0" ∷ []) ∷ assign 115 pool 1 (pos 0) ∷ []

wallets_apart_example :
    All (All (λ w. w.bot_id ≢ "bot1")) (run next_calls (assign_legs 100 pool 1 (pos 60) held).1).0
wallets_apart_example =
    wallets_apart 100 pool 1 (pos 60) held "bot1" next_calls held-Unique pool-Differ bot1_given
      (omega arith, (refl, (omega arith, tt)))

abbrev thresholds : Thresholds
thresholds = record {
  low = pos 60000000;
  high = pos 200000000;
  reserve_usdc = pos 130000000;
  pair_cooldown_s = 3600;
}

abbrev uneven_pool : List Wallet
uneven_pool = bot "bot0" 300000000 ∷ bot "bot1" 10000000 ∷ []

uneven_pool-Balanced : All (Balanced "bot0" (pos 300000000)) uneven_pool
uneven_pool-Balanced =
    let apart = str_apart "bot1" "bot0" refl in ((λ e. refl), ((λ e. absurd (apart e)), tt))

propose_rebalances_lem_example :
    let proposals = (propose_rebalances thresholds 5000 [] uneven_pool).0 in
    All (IsProper thresholds 5000 []) proposals
    × (pos 130000000 ≤ℤ (pos 300000000 +ℤ net "bot0" proposals) +ℤ pos (slack "bot0" proposals))
propose_rebalances_lem_example =
    propose_rebalances_lem thresholds 5000 [] uneven_pool "bot0" (pos 300000000)
      uneven_pool-Balanced (omega arith)
