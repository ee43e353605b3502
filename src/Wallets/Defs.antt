-- ===== src/Wallets/Defs.antt =====
-- Scripts/wallets/config.py: the wallet as the coordinator and the rebalancing read it. Balances are
-- in whole micro-dollars.
use polymarket_radar.Base.{
  String, Bool, Option, none, some, List, [], ◌∷◌, keep, if◌then◌else◌, ◌==◌, string_key,
}
use polymarket_radar.Base.Int.{ℤ, leb_ℤ}

-- `class Wallet`
pub record Wallet : Type 0 where
  pub bot_id : String
  pub last_known_usdc : ℤ
  pub can_sign : Bool

-- `WalletPool.by_id`
pub by_id : String → List Wallet → Option Wallet
by_id id [] = none
by_id id (w ∷ ws) = if w.bot_id == id then some w else by_id id ws

-- `WalletPool.with_balance_above`
pub with_balance_above : ℤ → List Wallet → List Wallet
with_balance_above threshold ws = keep (λ w. leb_ℤ threshold w.last_known_usdc) ws
