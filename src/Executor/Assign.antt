-- ===== src/Executor/Assign.antt =====
-- Scripts/executor/atomic.py, `_assign_wallets`: a wallet for each leg, with fewer bots than legs only
-- where the tiers allow it.
pub mod Spread
use polymarket_radar.Base.{
  ℕ, zero, suc, ◌+◌, ◌-◌, ◌/◌, ◌%◌, ◌≡◌, String, ◌<>◌, Bool, true, false, Option, none, some, List,
  [], ◌∷◌, ◌++◌, length, is_empty, take, get_elem?, ltb, leb, if◌then◌else◌,
}

-- `WalletStub`, by what tells two bots apart.
pub record WalletStub : Type 0 where
  pub bot_id : String

digit : ℕ → String
digit n =
    elim (get_elem? {A = String} ("0" ∷ "1" ∷ "2" ∷ "3" ∷ "4" ∷ "5" ∷ "6" ∷ "7" ∷ "8" ∷ "9" ∷ [])
      n) [ none ↦ "" | some d ↦ d ]

-- The decimal digits of `n`, for more fuel than digits.
digits : ℕ → ℕ → String
unfolding digit
digits zero n = ""
digits (suc fuel) n =
    let rest = digits fuel (n / 10) in if ltb n 10 then digit n else rest <> digit (n % 10)

-- `f'mock{mock_idx}'`
pub mock_stub : ℕ → WalletStub
unfolding digits
mock_stub i = record { bot_id = "mock" <> digits (suc i) i }

-- `[WalletStub(bot_id='mock', …) for _ in range(legs_count)]`
pub single_mocks : ℕ → List WalletStub
single_mocks zero = []
single_mocks (suc n) = record { bot_id = "mock" } ∷ single_mocks n

-- `n` mocks, numbered from `i` on.
pub mocks : ℕ → ℕ → List WalletStub
mocks i zero = []
mocks i (suc n) = mock_stub i ∷ mocks (suc i) n

-- `_legs_per_bot_for`, with the ends of the two tiers.
unfoldable pub legs_per_bot_for : ℕ → ℕ → ℕ → ℕ
legs_per_bot_for tier1_max tier2_max n =
    if leb n tier1_max then 1 else if leb n tier2_max then 2 else 3

-- `wallets[i % len(wallets)]` for `n` legs from `i` on.
pub round_robin : List WalletStub → ℕ → ℕ → List WalletStub
round_robin ws i zero = []
round_robin ws i (suc n) =
    let rest = round_robin ws (suc i) n in
    elim (get_elem? ws (i % length ws)) [ none ↦ rest | some w ↦ w ∷ rest ]

-- The fewest wallets that the tiers allow: `(legs_count + legs_per_bot - 1) // legs_per_bot`.
abbrev pub min_wallets_needed : ℕ → ℕ → ℕ
min_wallets_needed legs_count per_bot = (legs_count + per_bot - 1) / per_bot

-- `_assign_wallets`, with the ends of the tiers that the environment sets.
unfoldable pub assign_wallets : ℕ → ℕ → ℕ → List WalletStub → Bool → List WalletStub
unfolding single_mocks mocks legs_per_bot_for round_robin
assign_wallets tier1_max tier2_max legs_count ws dry_run =
    let per_bot = legs_per_bot_for tier1_max tier2_max legs_count in
    if is_empty ws
    then single_mocks legs_count
    else if ltb (length ws) legs_count
    then if dry_run
      then ws ++ mocks 0 (legs_count - length ws)
      else if ltb 1 per_bot
      then if leb (min_wallets_needed legs_count per_bot) (length ws)
        then round_robin ws 0 legs_count
        else []
      else []
    else take legs_count ws
