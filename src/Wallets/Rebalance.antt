-- ===== src/Wallets/Rebalance.antt =====
-- Scripts/wallets/rebalance.py, `propose_rebalances`: which transfers between bots are proposed. Amounts
-- are in whole micro-dollars, halves rounded down; a proposal has its amount rounded to cents.
mod Kept
pub mod Reserve
use polymarket_radar.Base.{
  ℕ, suc, ◌+◌, ◌*◌, ◌/◌, round_div, String, Bool, true, false, ◌&&◌, ◌||◌, Option, none, some, List,
  [], ◌∷◌, keep, is_empty, ltb, if◌then◌else◌, ◌==◌, string_key,
}
use polymarket_radar.Base.Int.{ℤ, pos, negsuc, ◌+ℤ◌, ◌-ℤ◌, scale, ltb_ℤ, leb_ℤ}
use polymarket_radar.Base.Dict.{Dict, lookup, insert}
use polymarket_radar.Base.Sort.{sort}
use polymarket_radar.Wallets.Defs.{Wallet}

-- `RebalanceProposal`, as `propose_rebalances` fills it.
pub record RebalanceProposal : Type 0 where
  pub from_bot : String
  pub to_bot : String
  pub amount_usdc : ℤ

-- The arguments, with their defaults filled in, and `REBALANCE_PAIR_COOLDOWN_S`.
pub record Thresholds : Type 0 where
  pub low : ℤ
  pub high : ℤ
  pub reserve_usdc : ℤ
  pub pair_cooldown_s : ℕ

-- `_pair_last_rebalance`: unordered pairs of bots with the time of their last transfer.
abbrev pub PairTimes : Type 0
PairTimes = List ((String × String) × ℕ)

-- `_pair_last_rebalance.get(_pair_key(a, b))`
pub last_of : String → String → PairTimes → Option ℕ
last_of a b [] = none
last_of a b (((c, d), ts) ∷ rest) =
    let more = last_of a b rest in
    if (a == c && b == d) || (a == d && b == c) then some ts else more

-- `_on_cooldown`
pub on_cooldown : ℕ → String → String → ℕ → PairTimes → Bool
unfolding last_of
on_cooldown cooldown a b now times = elim (last_of a b times) [
  | none ↦ false
  | some last ↦ ltb now (last + cooldown)
]

-- `shadow_delta`
abbrev pub Shadow : Type 0
Shadow = Dict String ℤ

-- `shadow_delta.get(bot_id, 0)`
pub delta : String → Shadow → ℤ
delta k s = elim (lookup k s) [ none ↦ pos 0 | some d ↦ d ]

-- `_bal`
abbrev pub bal : Wallet → Shadow → ℤ
bal w s = w.last_known_usdc +ℤ delta w.bot_id s

abbrev pub half : ℤ → ℤ
half (pos n) = pos (n / 2)
half (negsuc n) = negsuc (n / 2)

abbrev pub min_ℤ : ℤ → ℤ → ℤ
min_ℤ a b = if ltb_ℤ b a then b else a

-- `amount`, from the balances of the two bots.
pub amount_of : Thresholds → ℤ → ℤ → ℤ
amount_of t high_bal low_bal =
    let wanted = half (scale 3 t.low) -ℤ low_bal in
    min_ℤ (half (high_bal -ℤ t.reserve_usdc)) (if ltb_ℤ wanted (pos 0) then pos 0 else wanted)

-- Whether the inner loop passes a source over.
pub passes_over : Thresholds → ℕ → PairTimes → Shadow → Wallet → Wallet → Bool
unfolding on_cooldown amount_of
passes_over t now times s low high =
    low.bot_id == high.bot_id
    || (on_cooldown t.pair_cooldown_s low.bot_id high.bot_id now times
        || (leb_ℤ (bal high s) t.reserve_usdc
            || ltb_ℤ (amount_of t (bal high s) (bal low s)) (pos 5000000)))

-- The inner loop: the first source that is not passed over.
pub pick_source : Thresholds → ℕ → PairTimes → Shadow → Wallet → List Wallet → Option Wallet
unfolding passes_over
pick_source t now times s low [] = none
pick_source t now times s low (high ∷ highs) =
    let rest = pick_source t now times s low highs in
    if passes_over t now times s low high then rest else some high

-- The two writes to `shadow_delta`.
pub transfer : String → String → ℤ → Shadow → Shadow
unfolding delta
transfer source target amount s =
    let s' = insert source (delta source s -ℤ amount) s in
    insert target (delta target s' +ℤ amount) s'

-- `round(amount, 2)`: a cent is 10000 micro-dollars.
unfoldable pub round_cents : ℤ → ℤ
round_cents (pos n) = pos (10000 * round_div n 10000)
round_cents (negsuc n) = pos 0 -ℤ pos (10000 * round_div (suc n) 10000)

unfoldable pub proposal : Wallet → Wallet → ℤ → RebalanceProposal
unfolding round_cents
proposal high low amount = record {
  from_bot = high.bot_id;
  to_bot = low.bot_id;
  amount_usdc = round_cents amount;
}

-- The outer loop. The shadow moves by the amount as computed, the proposal has it rounded.
pub plan :
    Thresholds
    → ℕ
    → PairTimes
    → List Wallet
    → List Wallet
    → Shadow
    → List RebalanceProposal × Shadow
unfolding pick_source transfer amount_of proposal
plan t now times highs [] s = ([], s)
plan t now times highs (low ∷ lows) s = elim (pick_source t now times s low highs) [
  | none ↦ plan t now times highs lows s
  | some high ↦
      let amount = amount_of t (bal high s) (bal low s) in
      let (rest, s') = plan t now times highs lows (transfer high.bot_id low.bot_id amount s) in
      (proposal high low amount ∷ rest, s')
]

-- `lows` and `highs`, in their orders, with nothing in the shadow yet.
pub lows_of : Thresholds → List Wallet → List Wallet
lows_of t pool =
    sort (λ v w. leb_ℤ v.last_known_usdc w.last_known_usdc)
      (keep (λ w. ltb_ℤ w.last_known_usdc t.low) pool)

pub highs_of : Thresholds → List Wallet → List Wallet
highs_of t pool =
    sort (λ v w. leb_ℤ w.last_known_usdc v.last_known_usdc)
      (keep (λ w. ltb_ℤ t.high w.last_known_usdc) pool)

-- `propose_rebalances`, with the shadow that it ends with. Without lows or highs the loops propose
-- nothing, as the early returns do.
pub propose_rebalances : Thresholds → ℕ → PairTimes → List Wallet → List RebalanceProposal × Shadow
unfolding plan lows_of highs_of
propose_rebalances t now times pool = plan t now times (highs_of t pool) (lows_of t pool) []
