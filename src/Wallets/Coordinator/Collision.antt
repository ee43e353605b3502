-- ===== src/Wallets/Coordinator/Collision.antt =====
-- Successive arbs do not share a wallet while it is reserved.
use polymarket_radar.Base.{
  All-every, subst, any, if-both, any, subst, ℕ, ◌+◌, ◌≤◌, ◌≡◌, ◌∙◌, ◌≢◌, inl, inr, String, true,
  false, not, some, List, [], ◌∷◌, keep, take, length, is_empty, ltb, if◌then◌else◌, string_key,
  arith, All, All-map, All-kept, All-take, Pairs, Bool-cases, ◌==◌,
}
use polymarket_radar.Base.Int.{ℤ}
use polymarket_radar.Base.Dict.{lookup, contains, Unique}
use polymarket_radar.Base.Sort.{sort, All-sort}
use polymarket_radar.Wallets.Defs.{Wallet}
use polymarket_radar.Wallets.Coordinator.{
  Reservations, reservation_ttl_s, eligible, drop_expired, available, poorer, reserve_all,
  assign_legs,
}
use polymarket_radar.Wallets.Coordinator.{release_reservations}
use polymarket_radar.Wallets.Coordinator.Reserved.{
  reserve_all-others, reserve_all-Unique, lookup-drop_expired, drop_expired-Unique,
  lookup-release_reservations, release_reservations-Unique,
}
use polymarket_radar.Wallets.Coordinator.Choice.{assign_legs_lem, Differ, IsUsable}

-- A call on the coordinator.
pub data Action : Type 0 where
  assign : ℕ → List Wallet → ℕ → ℤ → Action
  release : List String → Action

-- The wallets that each call of `assign_legs` gives, in order.
pub run : List Action → Reservations → List (List Wallet) × Reservations
run [] r = ([], r)
run (assign now pool legs_count min_usdc ∷ rest) r =
    let (chosen, r') = assign_legs now pool legs_count min_usdc r in
    let (more, r'') = run rest r' in (chosen ∷ more, r'')
run (release ks ∷ rest) r = run rest (release_reservations ks r)

-- The action assigns no later than the time-to-live after `ts`, and does not release bot `k`.
abbrev pub Leaves : ℕ → String → Action → Type 0
Leaves ts k (assign now pool legs_count min_usdc) = now ≤ ts + reservation_ttl_s
Leaves ts k (release ks) = any (λ j. j == k) ks ≡ false

-- The bot is reserved since `ts`.
abbrev IsReserved : ℕ → String → Reservations → Type 0
IsReserved ts k r = (lookup k r ≡ some ts) × Unique r

free-Others :
    (now ts : ℕ) (k : String) (pool : List Wallet) (min_usdc : ℤ) (r : Reservations)
    → IsReserved ts k r
    → now ≤ ts + reservation_ttl_s
    → All (λ w. w.bot_id ≢ k) (available min_usdc pool (drop_expired now r))
unfolding available
free-Others now ts k pool min_usdc r h l =
    let held = drop_expired now r in
    let test = λ (w : Wallet). not (contains w.bot_id held) in
    All-map (λ w. test w ≡ true) (λ w. w.bot_id ≢ k) (keep test (eligible min_usdc pool))
      (λ w f e.
        ground (
          arith,
          string_key.same_iff w.bot_id k,
          lookup-drop_expired now w.bot_id r h.1,
          e,
          h.0,
          f,
        ))
      (All-kept test (eligible min_usdc pool))

assign-kept :
    (now ts : ℕ) (k : String) (pool : List Wallet) (legs_count : ℕ) (min_usdc : ℤ)
    (r : Reservations)
    → IsReserved ts k r
    → now ≤ ts + reservation_ttl_s
    → let (chosen, r') = assign_legs now pool legs_count min_usdc r in
      All (λ w. w.bot_id ≢ k) chosen × IsReserved ts k r'
assign-kept now ts k pool legs_count min_usdc r h l =
    let held = drop_expired now r in
    let free = available min_usdc pool held in
    let chosen = take legs_count (sort poorer free) in
    let others : All (λ w. w.bot_id ≢ k) chosen =
      All-take (λ w. w.bot_id ≢ k) legs_count (sort poorer free)
        (All-sort poorer (λ w. w.bot_id ≢ k) free (free-Others now ts k pool min_usdc r h l)) in
    let kept : lookup k held ≡ some ts = ground (arith, lookup-drop_expired now k r h.1) in
    let same = reserve_all-others now chosen k held others in
    let u = drop_expired-Unique now r h.1 in
    let u' = reserve_all-Unique now chosen held u in
    let P = λ (x : List Wallet × Reservations). All (λ w. w.bot_id ≢ k) x.0 × IsReserved ts k x.1 in
    let after : List Wallet × Reservations = (chosen, reserve_all now chosen held) in
    let rest : List Wallet × Reservations =
      if ltb (length free) legs_count then ([], held) else after in
    unfold assign_legs in
    if-both P (is_empty pool) ([], r) rest (tt, h)
      (if-both P (ltb (length free) legs_count) ([], held) after (tt, (kept, u))
        (others, (same ∙ kept, u')))

run-Leaves :
    (xs : List Action) (ts : ℕ) (k : String) (r : Reservations)
    → IsReserved ts k r
    → All (Leaves ts k) xs
    → All (All (λ w. w.bot_id ≢ k)) (run xs r).0
unfolding run
run-Leaves [] ts k r h l = tt
run-Leaves (assign now pool legs_count min_usdc ∷ rest) ts k r h l =
    let (others, h') = assign-kept now ts k pool legs_count min_usdc r h l.0 in
    (others, run-Leaves rest ts k (assign_legs now pool legs_count min_usdc r).1 h' l.1)
run-Leaves (release ks ∷ rest) ts k r h l =
    run-Leaves rest ts k (release_reservations ks r)
      (
        ground (arith, lookup-release_reservations ks k r, l.0, h.0),
        release_reservations-Unique ks r h.1,
      )
      l.1

any-All {κ} :
    (P : String → Type κ) (k : String) (ws : List Wallet)
    → any (λ w. w.bot_id == k) ws ≡ true
    → All (λ w. P w.bot_id) ws
    → P k
any-All P k [] h a = absurd (ground arith)
any-All P k (w ∷ ws) h a = elim (Bool-cases (w.bot_id == k)) [
  | inl e ↦ subst P ((string_key.same_iff w.bot_id k).0 e) a.0
  | inr e ↦ any-All P k ws (ground arith) a.1
]

pub assign_legs-Unique :
    (now : ℕ) (pool : List Wallet) (legs_count : ℕ) (min_usdc : ℤ) (r : Reservations)
    → Unique r
    → Unique (assign_legs now pool legs_count min_usdc r).1
assign_legs-Unique now pool legs_count min_usdc r u =
    let held = drop_expired now r in
    let free = available min_usdc pool held in
    let chosen = take legs_count (sort poorer free) in
    let P = λ (x : List Wallet × Reservations). Unique x.1 in
    let after : List Wallet × Reservations = (chosen, reserve_all now chosen held) in
    let rest : List Wallet × Reservations =
      if ltb (length free) legs_count then ([], held) else after in
    let u' = drop_expired-Unique now r u in
    unfold assign_legs in
    if-both P (is_empty pool) ([], r) rest u
      (if-both P (ltb (length free) legs_count) ([], held) after u'
        (reserve_all-Unique now chosen held u'))

-- A bot that `assign_legs` gave to one arb, from a pool of different bots, is given to no other one up
-- to the end of the reservation, over any later calls with any pools and balances, as long as no call
-- releases it.
pub wallets_apart :
    (now : ℕ) (pool : List Wallet) (legs_count : ℕ) (min_usdc : ℤ) (r : Reservations) (k : String)
    (xs : List Action)
    → Unique r
    → Pairs Differ pool
    → any (λ w. w.bot_id == k) (assign_legs now pool legs_count min_usdc r).0 ≡ true
    → All (Leaves now k) xs
    → All (All (λ w. w.bot_id ≢ k)) (run xs (assign_legs now pool legs_count min_usdc r).1).0
wallets_apart now pool legs_count min_usdc r k xs u d mine l =
    let (chosen, r') = assign_legs now pool legs_count min_usdc r in
    let any_wallet = λ (w : Wallet). Unit {0} in
    let given =
      assign_legs_lem any_wallet now pool legs_count min_usdc r u d
        (All-every any_wallet pool (λ w. tt)) in
    let reserved =
      All-map (λ w. IsUsable now min_usdc r w × (lookup w.bot_id r' ≡ some now))
        (λ w. lookup w.bot_id r' ≡ some now) chosen (λ w h. h.1) given.3 in
    run-Leaves xs now k r'
      (
        any-All (λ j. lookup j r' ≡ some now) k chosen mine reserved,
        assign_legs-Unique now pool legs_count min_usdc r u,
      )
      l
