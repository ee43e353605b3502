-- ===== src/Wallets/Coordinator.antt =====
-- Scripts/wallets/coordinator.py: one wallet for each leg of an arb, and reservations that keep two
-- arbs apart. Times are in whole seconds; the alerts on a low balance are left out.
mod Reserved
pub mod Choice
pub mod Collision
use polymarket_radar.Base.{
  ℕ, ◌+◌, String, Bool, true, false, not, Option, none, some, List, [], ◌∷◌, keep, take, length,
  is_empty, ltb, leb, if◌then◌else◌, string_key,
}
use polymarket_radar.Base.Int.{ℤ, leb_ℤ}
use polymarket_radar.Base.Dict.{Dict, insert, erase, contains}
use polymarket_radar.Base.Sort.{sort}
use polymarket_radar.Wallets.Defs.{Wallet, with_balance_above}

-- `_recently_assigned`: bot to the time of its last assignment.
abbrev pub Reservations : Type 0
Reservations = Dict String ℕ

abbrev pub reservation_ttl_s : ℕ
reservation_ttl_s = 15

-- `release_reservations`, of the wallets with these bot ids.
pub release_reservations : List String → Reservations → Reservations
release_reservations [] r = r
release_reservations (k ∷ ks) r = release_reservations ks (erase k r)

-- `_eligible`
unfoldable pub eligible : ℤ → List Wallet → List Wallet
eligible min_usdc pool = keep (λ w. leb_ℤ min_usdc w.last_known_usdc) pool

-- `can_fire_pool`: an empty pool passes.
pub can_fire_pool : List Wallet → ℕ → ℤ → Bool
unfolding eligible
can_fire_pool pool legs_count min_usdc =
    if is_empty pool then true else leb legs_count (length (eligible min_usdc pool))

-- Whether `now - ts > _RESERVATION_TTL_S` fails.
abbrev pub is_held : ℕ → ℕ → Bool
is_held now ts = leb now (ts + reservation_ttl_s)

unfoldable pub drop_expired : ℕ → Reservations → Reservations
drop_expired now r = keep (λ x. is_held now x.1) r

-- The wallets that `assign_legs` chooses among.
unfoldable pub available : ℤ → List Wallet → Reservations → List Wallet
unfolding eligible
available min_usdc pool r = keep (λ w. not (contains w.bot_id r)) (eligible min_usdc pool)

-- `key=lambda w: w.last_known_usdc`
abbrev pub poorer : Wallet → Wallet → Bool
poorer v w = leb_ℤ v.last_known_usdc w.last_known_usdc

pub reserve_all : ℕ → List Wallet → Reservations → Reservations
reserve_all now [] r = r
reserve_all now (w ∷ ws) r = reserve_all now ws (insert w.bot_id now r)

-- `assign_legs`
unfoldable pub assign_legs : ℕ → List Wallet → ℕ → ℤ → Reservations → List Wallet × Reservations
unfolding drop_expired available reserve_all
assign_legs now pool legs_count min_usdc r =
    let held = drop_expired now r in
    let free = available min_usdc pool held in
    let chosen = take legs_count (sort poorer free) in
    if is_empty pool
    then ([], r)
    else if ltb (length free) legs_count
    then ([], held)
    else (chosen, reserve_all now chosen held)
