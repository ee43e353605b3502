-- ===== src/Executor/Assign/Spread.antt =====
-- How many legs of one arb a bot gets.
use polymarket_radar.Base.{
  ℕ, zero, suc, ◌+◌, ◌*◌, ◌%◌, ◌≤◌, ◌<◌, ◌≡◌, ap, refl, sym, ◌∙◌, ◌⊎◌, inl, inr, String, Bool,
  false, some, List, [], ◌∷◌, length, take, drop, get_elem?, ltb, count, arith, length-take, ◌==◌,
  string_key, Bool-cases,
}
use native.Mathlib.Nat.{mul-le-mul_left, suc-mod, mod-eq_of_lt, mod_self, mod-lt}
use polymarket_radar.Executor.Assign.{
  WalletStub, single_mocks, mocks, legs_per_bot_for, round_robin, min_wallets_needed,
  assign_wallets,
}

-- The number of legs that the bot `k` gets.
abbrev pub legs_of : String → List WalletStub → ℕ
legs_of k ws = count (λ w. w.bot_id == k) ws

-- One round after another, where `cur` is what is left of this round.
cycle : List WalletStub → List WalletStub → ℕ → List WalletStub
cycle ws cur zero = []
cycle ws (w ∷ cur) (suc n) = w ∷ cycle ws cur n
cycle [] [] (suc n) = []
cycle (w ∷ ws) [] (suc n) = w ∷ cycle (w ∷ ws) ws n

drop-cons :
    (ws : List WalletStub) (r : ℕ)
    → r < length ws
    → (w : WalletStub) × (get_elem? ws r ≡ some w) × (drop r ws ≡ w ∷ drop (suc r) ws)
drop-cons [] r h = absurd (omega arith)
drop-cons (w ∷ ws) zero h = (w, refl, refl)
drop-cons (w ∷ ws) (suc r) h = drop-cons ws r (omega arith)

drop-all : (ws : List WalletStub) → drop (length ws) ws ≡ []
drop-all [] = refl
drop-all (w ∷ ws) = drop-all ws

suc_mod :
    (i m : ℕ)
    → 0 < m
    → (suc (i % m) < m × (suc i % m ≡ suc (i % m))) ⊎ ((suc (i % m) ≡ m) × (suc i % m ≡ 0))
suc_mod i m h = elim (Bool-cases (ltb (suc (i % m)) m)) [
  | inl e ↦ let l : suc (i % m) < m = ground arith in inl (l, suc-mod i m ∙ mod-eq_of_lt l)
  | inr e ↦
      let q : suc (i % m) ≡ m = ground (arith, mod-lt i h) in
      inr (q, suc-mod i m ∙ (ap (λ x. x % m) q ∙ mod_self m))
]

cycle_restart : (ws : List WalletStub) (n : ℕ) → cycle ws ws n ≡ cycle ws [] n
unfolding cycle
cycle_restart ws zero = refl
cycle_restart [] (suc n) = refl
cycle_restart (w ∷ ws) (suc n) = refl

round_robin-suc :
    (ws : List WalletStub) (i n : ℕ) (w : WalletStub)
    → get_elem? ws (i % length ws) ≡ some w
    → round_robin ws i (suc n) ≡ w ∷ round_robin ws (suc i) n
unfolding round_robin
round_robin-suc ws i n w found = ground arith

round_robin-cycle :
    (ws : List WalletStub) (i n : ℕ)
    → 0 < length ws
    → round_robin ws i n ≡ cycle ws (drop (i % length ws) ws) n
unfolding round_robin cycle
round_robin-cycle ws i zero h = refl
round_robin-cycle ws i (suc n) h =
    let m = length ws in
    let (w, found, left) = drop-cons ws (i % m) (mod-lt i h) in
    let rest = round_robin-cycle ws (suc i) n h in
    let next : cycle ws (drop (suc i % m) ws) n ≡ cycle ws (drop (suc (i % m)) ws) n =
      elim (suc_mod i m h) [
        | inl (l, e) ↦ ap (λ j. cycle ws (drop j ws) n) e
        | inr (q, e) ↦
            ap (λ j. cycle ws (drop j ws) n) e
            ∙ (cycle_restart ws n
                ∙ ap (λ xs. cycle ws xs n) (sym (ap (λ j. drop j ws) q ∙ drop-all ws)))
      ] in
    round_robin-suc ws i n w found ∙ rw left (ap (λ xs. w ∷ xs) (rest ∙ next))

-- The bot gets at most one leg for each round that is begun.
cycle-legs_of :
    (k : String) (ws : List WalletStub) (n : ℕ) (cur : List WalletStub) (p : ℕ)
    → n ≤ length cur + p * length ws
    → legs_of k (cycle ws cur n) ≤ legs_of k cur + p * legs_of k ws
unfolding cycle
cycle-legs_of k ws zero cur p h = omega arith
cycle-legs_of k ws (suc n) (w ∷ cur) p h = ground (arith, cycle-legs_of k ws n cur p)
cycle-legs_of k [] (suc n) [] p h = ground arith
cycle-legs_of k (w ∷ ws) (suc n) [] zero h = absurd (omega arith)
cycle-legs_of k (w ∷ ws) (suc n) [] (suc p) h =
    let more = cycle-legs_of k (w ∷ ws) n ws p (omega arith) in ground (arith, more)

length-round_robin :
    (ws : List WalletStub) (i n : ℕ) → 0 < length ws → length (round_robin ws i n) ≡ n
unfolding round_robin
length-round_robin ws i zero h = refl
length-round_robin ws i (suc n) h =
    let (w, found, left) = drop-cons ws (i % length ws) (mod-lt i h) in
    ap length (round_robin-suc ws i n w found) ∙ omega (arith, length-round_robin ws (suc i) n h)

length-single_mocks : (n : ℕ) → length (single_mocks n) ≡ n
unfolding single_mocks
length-single_mocks zero = refl
length-single_mocks (suc n) = omega (arith, length-single_mocks n)

length-mocks : (i n : ℕ) → length (mocks i n) ≡ n
unfolding mocks
length-mocks i zero = refl
length-mocks i (suc n) = omega (arith, length-mocks (suc i) n)

legs_of-take : (k : String) (n : ℕ) (ws : List WalletStub) → legs_of k (take n ws) ≤ legs_of k ws
legs_of-take k zero ws = omega arith
legs_of-take k (suc n) [] = omega arith
legs_of-take k (suc n) (w ∷ ws) = ground (arith, legs_of-take k n ws)

-- A whole round for each leg that a bot may take is enough.
round_robin-legs_of :
    (k : String) (ws : List WalletStub) (n p : ℕ)
    → 0 < length ws
    → n ≤ p * length ws
    → legs_of k ws ≤ 1
    → legs_of k (round_robin ws 0 n) ≤ p
round_robin-legs_of k ws n p h le once =
    let c = cycle-legs_of k ws n [] p (omega arith) in
    let few : p * legs_of k ws ≤ p * 1 = mul-le-mul_left p once in
    let e : round_robin ws 0 n ≡ cycle ws [] n =
      round_robin-cycle ws 0 n h
      ∙ (ap (λ j. cycle ws (drop j ws) n) (mod-eq_of_lt h) ∙ cycle_restart ws n) in
    rw e (omega (arith, c, few))

-- From a pool that is not empty and has a bot at most once, a live assignment gives one bot for each
-- leg and this bot no more legs than the tier of the arb allows, if the pool has as many bots as the
-- tier needs; with fewer it gives none.
pub assign_wallets_lem :
    (tier1_max tier2_max legs_count : ℕ) (ws : List WalletStub) (k : String)
    → 0 < length ws
    → legs_of k ws ≤ 1
    → let per_bot = legs_per_bot_for tier1_max tier2_max legs_count in
      let assigned = assign_wallets tier1_max tier2_max legs_count ws false in
      (min_wallets_needed legs_count per_bot ≤ length ws
        → (length assigned ≡ legs_count) × (legs_of k assigned ≤ per_bot))
      × (length ws < min_wallets_needed legs_count per_bot → assigned ≡ [])
unfolding legs_per_bot_for
assign_wallets_lem tier1_max tier2_max legs_count ws k h once =
    let rounds = λ (p : ℕ). round_robin-legs_of k ws legs_count p h in
    let all_legs = length-round_robin ws 0 legs_count h in
    let taken = length-take legs_count ws in
    let fewer = legs_of-take k legs_count ws in
    unfold assign_wallets in
    (
      λ enough. ground (arith, rounds 1, rounds 2, rounds 3, all_legs, taken, fewer, once),
      λ few. ground arith,
    )

pub assign_wallets-none :
    (tier1_max tier2_max : ℕ) (ws : List WalletStub) (dry_run : Bool)
    → assign_wallets tier1_max tier2_max 0 ws dry_run ≡ []
unfolding assign_wallets single_mocks
assign_wallets-none tier1_max tier2_max ws dry_run = ground arith
