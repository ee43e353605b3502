-- ===== src/Deals/SxBet.antt =====
-- Scripts/arb_server.py: eval_sx. Whether the end of a game is in the window, and whether it is past by
-- more than its grace, are fields of a market; the date attached to a deal is left out.
use polymarket_radar.Base.{
  ℕ, ◌+◌, String, Bool, true, false, not, ◌&&◌, ◌||◌, Option, none, some, List, [], ◌∷◌, ◌++◌, ltb,
  if◌then◌else◌, ◌==◌, string_key, nat_key, pair_key,
}
use polymarket_radar.Base.Dict.{Dict, lookup}
use polymarket_radar.Deals.Build.{DealOutcome, Sizing, build_deal}
use polymarket_radar.Deals.Poly.{binary, PolyDeal, kept}
use polymarket_radar.Stream.Subs.{in_set}

-- A market of SX Bet: `kind` is its type, `is_active` that its status is 1 or active, `outcome` is 0 while
-- it is open.
pub record SxMarket : Type 0 where
  pub kind : ℕ
  pub market_hash : String
  pub is_active : Bool
  pub outcome : Option ℕ
  pub in_window : Bool
  pub is_past : Bool
  pub outcome_one : String
  pub outcome_two : String

-- An entry of `sx_orders`: the best asks of both outcomes with their depths.
pub record SxQuote : Type 0 where
  pub best1 : ℕ
  pub depth1 : ℕ
  pub best2 : ℕ
  pub depth2 : ℕ

-- The first guards of the loop, with `seen_hashes`.
unfoldable pub binary_markets : (ℕ → Bool) → List String → List SxMarket → List SxMarket
binary_markets is_binary seen [] = []
binary_markets is_binary seen (m ∷ ms) =
    let skip = not (is_binary m.kind) || (m.market_hash == "") || in_set m.market_hash seen in
    let rest = binary_markets is_binary (if skip then seen else m.market_hash ∷ seen) ms in
    if skip then rest else m ∷ rest

abbrev pub is_settled : Option ℕ → Bool
is_settled none = false
is_settled (some n) = ltb 0 n

abbrev pub is_fillable : SxMarket → Bool
is_fillable m = m.is_active && not (is_settled m.outcome) && m.in_window && not m.is_past

abbrev pub sx_outcomes : SxMarket → SxQuote → List DealOutcome
sx_outcomes m q =
    record { name = m.outcome_one; price = q.best1; liquidity = q.depth1; source = "sx_ob" }
    ∷ record { name = m.outcome_two; price = q.best2; liquidity = q.depth2; source = "sx_ob" }
    ∷ []

-- `THRESH_SX` and `THETA_SX` are the numbers.
unfoldable pub sx_deal : Sizing → ℕ → ℕ → SxMarket → Option SxQuote → List PolyDeal
sx_deal s thresh theta m none = []
sx_deal s thresh theta m (some q) =
    let total = q.best1 + q.best2 in
    if ltb 0 q.best1 && ltb 0 q.best2 && ltb total thresh
    then kept binary total (λ d. true) (build_deal s false (sx_outcomes m q) total theta 1)
    else []

-- The rest of the loop, over the markets that passed the first guards.
unfoldable pub sx_deals : Sizing → ℕ → ℕ → Dict String SxQuote → List SxMarket → List PolyDeal
sx_deals s thresh theta orders [] = []
sx_deals s thresh theta orders (m ∷ ms) =
    (if is_fillable m then sx_deal s thresh theta m (lookup m.market_hash orders) else [])
    ++ sx_deals s thresh theta orders ms

-- `eval_sx`
unfoldable pub eval_sx :
    Sizing → ℕ → ℕ → (ℕ → Bool) → Dict String SxQuote → List SxMarket → List PolyDeal
eval_sx s thresh theta is_binary orders ms =
    sx_deals s thresh theta orders (binary_markets is_binary [] ms)
