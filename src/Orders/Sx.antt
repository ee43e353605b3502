-- ===== src/Orders/Sx.antt =====
-- Scripts/executor/builders.py, SX Bet: the makers' orders that a taker can fill, and the greedy match.
-- A price is in units of 1e-20, the one of the exchange's odds, and an amount in units of 1e-6 USDC, in
-- which both are whole numbers. Negative numbers are not in the model.
pub mod Greedy
use polymarket_radar.Base.{
  ℕ, suc, ◌+◌, ◌-◌, ◌*◌, ◌^◌, min, String, Bool, true, false, not, Option, none, some, List, [],
  ◌∷◌, ◌++◌, ltb, leb, eqb, if◌then◌else◌,
}
use polymarket_radar.Base.Sort.{sort}
use polymarket_radar.Stream.Poly.{Field, or_zero}

-- A price of $1, in the units of the odds.
pub one_dollar : ℕ
one_dollar = 10 ^ 20

-- An entry of `data.orders`, by what the code reads of it.
pub record MakerOrder : Type 0 where
  pub order_hash : String
  pub is_maker_one : Option Bool
  pub percentage_odds : Field
  pub order_size_fillable : Field

pub record Matchable : Type 0 where
  pub order_hash : String
  pub maker_pct : ℕ
  pub taker_price : ℕ
  pub fillable_usdc : ℕ

-- `_opposite_side_filter`
pub opposite_side_filter : ℕ → Bool → Bool
opposite_side_filter taker_outcome is_maker_one =
    if eqb taker_outcome 1 then not is_maker_one else is_maker_one

abbrev pub maker_one : Option Bool → Bool
maker_one none = true
maker_one (some b) = b

-- The loop of `fetch_sx_matchable_orders`, where `continue` passes over an order.
unfoldable pub matchable_orders : ℕ → List MakerOrder → List Matchable
unfolding opposite_side_filter one_dollar
matchable_orders taker_outcome [] = []
matchable_orders taker_outcome (o ∷ orders) =
    let rest = matchable_orders taker_outcome orders in
    if opposite_side_filter taker_outcome (maker_one o.is_maker_one)
    then elim (or_zero o.percentage_odds) [
      | none ↦ rest
      | some pct ↦
          if ltb 0 pct
          then if ltb pct one_dollar
            then elim (or_zero o.order_size_fillable) [
              | none ↦ rest
              | some fillable ↦
                  if leb fillable 0
                  then rest
                  else record {
                    order_hash = o.order_hash;
                    maker_pct = pct;
                    taker_price = one_dollar - pct;
                    fillable_usdc = fillable;
                  }
                    ∷ rest
            ]
            else rest
          else rest
    ]
    else rest

-- An entry of `matched`.
pub record Match : Type 0 where
  pub order_hash : String
  pub taker_price : ℕ
  pub taker_amount_usdc : ℕ

-- The variables of the loop of `match_sx_orders`.
pub record Matching : Type 0 where
  pub matched : List Match
  pub filled : ℕ
  pub cost_weighted_price : ℕ
  pub best_price : Option ℕ
  pub worst_price : Option ℕ

abbrev pub best_of : ℕ → Option ℕ → Option ℕ
best_of p none = some p
best_of p (some q) = if ltb p q then some p else some q

abbrev pub worst_of : ℕ → Option ℕ → Option ℕ
worst_of p none = some p
worst_of p (some q) = if ltb q p then some p else some q

-- One round that takes from an order.
abbrev pub take_from : ℕ → Matchable → Matching → Matching
take_from target o m =
    let taken = min (target - m.filled) o.fillable_usdc in
    record {
      matched =
          m.matched
          ++ record {
            order_hash = o.order_hash;
            taker_price = o.taker_price;
            taker_amount_usdc = taken;
          }
            ∷ [];
      filled = m.filled + taken;
      cost_weighted_price = m.cost_weighted_price + o.taker_price * taken;
      best_price = best_of o.taker_price m.best_price;
      worst_price = worst_of o.taker_price m.worst_price;
    }

-- The loop, with its two breaks.
unfoldable pub match_loop : ℕ → ℕ → List Matchable → Matching → Matching
match_loop target max_price [] m = m
match_loop target max_price (o ∷ orders) m =
    if leb target m.filled
    then m
    else if ltb max_price o.taker_price
    then m
    else match_loop target max_price orders (take_from target o m)

-- What `match_sx_orders` returns. The average price is the cost over what is filled.
pub record MatchResult : Type 0 where
  pub matching : Matching
  pub avg_price : Option (ℕ × ℕ)
  pub partial : Bool
  pub shortfall_usdc : ℕ

abbrev pub by_taker_price : Matchable → Matchable → Bool
by_taker_price a b = leb a.taker_price b.taker_price

abbrev pub nothing_matched : Matching
nothing_matched = record {
  matched = [];
  filled = 0;
  cost_weighted_price = 0;
  best_price = none;
  worst_price = none;
}

-- `match_sx_orders`
unfoldable pub match_sx_orders : List Matchable → ℕ → ℕ → MatchResult
unfolding match_loop
match_sx_orders matchable target max_price =
    let m = match_loop target max_price (sort by_taker_price matchable) nothing_matched in
    record {
      matching = m;
      avg_price = if ltb 0 m.filled then some (m.cost_weighted_price, m.filled) else none;
      partial = ltb (suc m.filled) target;
      shortfall_usdc = target - m.filled;
    }
