-- ===== src/Wallets/Coordinator/Choice.antt =====
-- Which wallets `assign_legs` chooses, and what it reserves.
use polymarket_radar.Base.{
  subst, ltb, count, ℕ, ◌+◌, ◌≤◌, ◌<◌, ◌≡◌, refl, sym, ◌≢◌, ◌⊎◌, inl, inr, String, Bool, true,
  false, not, ◌&&◌, none, some, List, [], ◌∷◌, keep, take, length, is_empty, leb, string_key, arith,
  All, All-map, All-keep, All-kept, All-take, All-both, Pairs, Pairs-keep, Pairs-take, length-take,
  Bool-cases,
}
use polymarket_radar.Base.Int.{ℤ, ◌≤ℤ◌, leb_ℤ}
use polymarket_radar.Base.Dict.{lookup, contains, Unique}
use polymarket_radar.Base.Sort.{sort, length-sort, All-sort, Pairs-sort}
use polymarket_radar.Wallets.Defs.{Wallet}
use polymarket_radar.Wallets.Coordinator.{
  Reservations, reservation_ttl_s, eligible, drop_expired, available, poorer, reserve_all,
  assign_legs,
}
use polymarket_radar.Wallets.Coordinator.Reserved.{reserve_all-reserved, lookup-drop_expired}

-- Two wallets of different bots.
abbrev pub Differ : Wallet → Wallet → Type 0
Differ v w = v.bot_id ≢ w.bot_id

-- The bot holds no reservation at `now`.
abbrev pub IsFree : ℕ → Reservations → String → Type 0
IsFree now r k = (ts : ℕ) → lookup k r ≡ some ts → ts + reservation_ttl_s < now

-- A wallet that may be chosen.
abbrev pub IsUsable : ℕ → ℤ → Reservations → Wallet → Type 0
IsUsable now min_usdc r w = (min_usdc ≤ℤ w.last_known_usdc) × IsFree now r w.bot_id

free-IsUsable :
    (now : ℕ) (min_usdc : ℤ) (r : Reservations) (w : Wallet)
    → Unique r
    → (leb_ℤ min_usdc w.last_known_usdc ≡ true)
      × (not (contains w.bot_id (drop_expired now r)) ≡ true)
    → IsUsable now min_usdc r w
free-IsUsable now min_usdc r w u h =
    (ground arith, λ ts e. ground (arith, lookup-drop_expired now w.bot_id r u, e, h.1))

module _ (now : ℕ) (pool : List Wallet) (legs_count : ℕ) (min_usdc : ℤ) (r : Reservations) where
  free : List Wallet
  free = available min_usdc pool (drop_expired now r)

  -- Whether the call gives wallets out.
  succeeds : Bool
  succeeds = not (is_empty pool) && leb legs_count (length free)

  pick : List Wallet
  pick = take legs_count (sort poorer free)

  assigned :
      succeeds ≡ true
      → assign_legs now pool legs_count min_usdc r
        ≡ (pick, reserve_all now pick (drop_expired now r))
  unfolding assign_legs succeeds pick free
  assigned h = ground arith

  refused : succeeds ≡ false → (assign_legs now pool legs_count min_usdc r).0 ≡ []
  unfolding assign_legs succeeds free
  refused h = ground arith

  pick-All {κ} : (P : Wallet → Type κ) → All P free → All P pick
  unfolding pick
  pick-All P h = All-take P legs_count (sort poorer free) (All-sort poorer P free h)

  free-All {κ} : (P : Wallet → Type κ) → All P pool → All P free
  unfolding free available eligible
  free-All P h =
      All-keep P (λ w. not (contains w.bot_id (drop_expired now r))) (eligible min_usdc pool)
        (All-keep P (λ w. leb_ℤ min_usdc w.last_known_usdc) pool h)

  free-IsUsable' : Unique r → All (IsUsable now min_usdc r) free
  unfolding free available eligible
  free-IsUsable' u =
      let rich = λ (w : Wallet). leb_ℤ min_usdc w.last_known_usdc in
      let unheld = λ (w : Wallet). not (contains w.bot_id (drop_expired now r)) in
      All-map (λ w. (rich w ≡ true) × (unheld w ≡ true)) (IsUsable now min_usdc r) free
        (λ w h. free-IsUsable now min_usdc r w u h)
        (All-both (λ w. rich w ≡ true) (λ w. unheld w ≡ true) free
          (All-keep (λ w. rich w ≡ true) unheld (keep rich pool) (All-kept rich pool))
          (All-kept unheld (keep rich pool)))

  pick-Pairs : Pairs Differ pool → Pairs Differ pick
  unfolding pick free available eligible
  pick-Pairs h = Pairs-take Differ legs_count (sort poorer free) (
      Pairs-sort poorer Differ (λ v w n p. n (sym p)) free
        (Pairs-keep Differ (λ w. not (contains w.bot_id (drop_expired now r)))
          (eligible min_usdc pool)
          (Pairs-keep Differ (λ w. leb_ℤ min_usdc w.last_known_usdc) pool h)))

  length-pick : legs_count ≤ length free → length pick ≡ legs_count
  unfolding pick
  length-pick h = omega (arith, length-take legs_count (sort poorer free), length-sort poorer free)

  pick-reserved :
      succeeds ≡ true
      → All (λ w. lookup w.bot_id (assign_legs now pool legs_count min_usdc r).1 ≡ some now) pick
  pick-reserved h = rw (assigned h) (reserve_all-reserved now pick (drop_expired now r))

-- Wallets that one call may give for its legs, with the reservations after it.
abbrev pub IsChoice {κ} :
    (Wallet → Type κ) → ℕ → ℕ → ℤ → Reservations → List Wallet × Reservations → Type κ
IsChoice P now legs_count min_usdc r (chosen, r') =
    ((chosen ≡ []) ⊎ (length chosen ≡ legs_count))
    × Pairs Differ chosen
    × All P chosen
    × All (λ w. IsUsable now min_usdc r w × (lookup w.bot_id r' ≡ some now)) chosen

pick-IsChoice {κ} :
    (P : Wallet → Type κ) (now : ℕ) (pool : List Wallet) (legs_count : ℕ) (min_usdc : ℤ)
    (r : Reservations)
    → Unique r
    → Pairs Differ pool
    → All P pool
    → succeeds now pool legs_count min_usdc r ≡ true
    → IsChoice P now legs_count min_usdc r (assign_legs now pool legs_count min_usdc r)
pick-IsChoice P now pool legs_count min_usdc r u d p h =
    let held = drop_expired now r in
    let chosen = pick now pool legs_count min_usdc r in
    let usable = IsUsable now min_usdc r in
    subst (IsChoice P now legs_count min_usdc r) (sym (assigned now pool legs_count min_usdc r h)) (
      inr (length-pick now pool legs_count min_usdc r (unfold succeeds in ground arith)),
      pick-Pairs now pool legs_count min_usdc r d,
      pick-All now pool legs_count min_usdc r P (free-All now pool legs_count min_usdc r P p),
      All-both usable (λ w. lookup w.bot_id (reserve_all now chosen held) ≡ some now) chosen
          (pick-All now pool legs_count min_usdc r usable
            (free-IsUsable' now pool legs_count min_usdc r u))
          (reserve_all-reserved now chosen held),
    )

-- From a pool of different bots, `assign_legs` gives no wallet or one for each leg; those it gives are
-- wallets of the pool, of different bots, each with at least the least balance, free before the call
-- and reserved at its time after it.
pub assign_legs_lem {κ} :
    (P : Wallet → Type κ) (now : ℕ) (pool : List Wallet) (legs_count : ℕ) (min_usdc : ℤ)
    (r : Reservations)
    → Unique r
    → Pairs Differ pool
    → All P pool
    → IsChoice P now legs_count min_usdc r (assign_legs now pool legs_count min_usdc r)
assign_legs_lem P now pool legs_count min_usdc r u d p =
    elim (Bool-cases (succeeds now pool legs_count min_usdc r)) [
      | inl e ↦ pick-IsChoice P now pool legs_count min_usdc r u d p e
      | inr e ↦
          let none_given = sym (refused now pool legs_count min_usdc r e) in
          let r' = (assign_legs now pool legs_count min_usdc r).1 in
          subst (λ chosen. IsChoice P now legs_count min_usdc r (chosen, r')) none_given
            (inl refl, tt, tt, tt)
    ]

-- A wallet with the least balance whose bot was never given out, or last more than 15 seconds ago.
abbrev pub is_free : ℕ → ℤ → Reservations → Wallet → Bool
is_free now min_usdc r w =
    leb_ℤ min_usdc w.last_known_usdc
    && elim (lookup w.bot_id r) [ none ↦ true | some ts ↦ ltb (ts + 15) now ]

held_unless_free :
    (now : ℕ) (k : String) (r : Reservations)
    → Unique r
    → not (contains k (drop_expired now r))
      ≡ elim (lookup k r) [ none ↦ true | some ts ↦ ltb (ts + 15) now ]
held_unless_free now k r u = ground (arith, lookup-drop_expired now k r u)

length-available :
    (now : ℕ) (min_usdc : ℤ) (pool : List Wallet) (r : Reservations)
    → Unique r
    → length (available min_usdc pool (drop_expired now r)) ≡ count (is_free now min_usdc r) pool
unfolding available eligible
length-available now min_usdc [] r u = refl
length-available now min_usdc (w ∷ ws) r u =
    ground (arith, held_unless_free now w.bot_id r u, length-available now min_usdc ws r u)

drop_expired_kept :
    (now : ℕ) (k : String) (ts : ℕ) (r : Reservations)
    → Unique r
    → lookup k (drop_expired now r) ≡ some ts
    → lookup k r ≡ some ts
drop_expired_kept now k ts r u h = ground (arith, lookup-drop_expired now k r u, h)

-- For a pool that is not empty: when at least as many wallets as legs have the least balance and were
-- never given out, or last more than 15 seconds ago, each leg gets a wallet; with fewer, no leg does
-- and nothing new is reserved.
pub assign_legs_complete :
    (now : ℕ) (pool : List Wallet) (legs_count : ℕ) (min_usdc : ℤ) (r : Reservations)
    → Unique r
    → is_empty pool ≡ false
    → let free = count (is_free now min_usdc r) pool in
      let (chosen, r') = assign_legs now pool legs_count min_usdc r in
      (legs_count ≤ free → length chosen ≡ legs_count)
      × (free < legs_count
          → (chosen ≡ []) × ((k : String) (ts : ℕ) → lookup k r' ≡ some ts → lookup k r ≡ some ts))
assign_legs_complete now pool legs_count min_usdc r u n =
    let same = length-available now min_usdc pool r u in
    (
      λ h.
          let e : succeeds now pool legs_count min_usdc r ≡ true =
            unfold succeeds in unfold free in ground (arith, same) in
          rw (assigned now pool legs_count min_usdc r e)
            (length-pick now pool legs_count min_usdc r (unfold free in omega (arith, same, h))),
      λ h.
          let few : length (available min_usdc pool (drop_expired now r)) < legs_count =
            omega (arith, same, h) in
          let none_given : assign_legs now pool legs_count min_usdc r ≡ ([], drop_expired now r) =
            unfold assign_legs in ground (arith, few, n) in
          subst
            (λ (x : List Wallet × Reservations).
              (x.0 ≡ []) × ((k : String) (ts : ℕ) → lookup k x.1 ≡ some ts → lookup k r ≡ some ts))
            (sym none_given) (refl, λ k ts. drop_expired_kept now k ts r u),
    )
