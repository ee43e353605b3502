-- ===== src/Orders/Poly.antt =====
-- Scripts/executor/builders.py, Polymarket: the rounding of a price to the market's tick and the
-- amounts of an order. A price and an amount are in units of 1e-6, to which the source rounds.
pub mod Amounts
use polymarket_radar.Base.{
  ℕ, suc, ◌+◌, ◌*◌, ◌/◌, ◌%◌, String, Bool, true, false, Option, none, some, ltb, leb, eqb,
  if◌then◌else◌, ◌==◌, string_key, ◌&&◌, ◌||◌, round_div,
}

-- `_round_to_tick`
unfoldable pub round_to_tick : ℕ → ℕ → ℕ
unfolding round_div
round_to_tick price tick_size =
    if leb tick_size 0 then price else round_div price tick_size * tick_size

-- $1
abbrev pub one : ℕ
one = 1000000

-- The fields of the order that is signed, less the constant ones.
pub record PolyOrder : Type 0 where
  pub salt : ℕ
  pub maker : String
  pub signer : String
  pub token_id : String
  pub maker_amount : ℕ
  pub taker_amount : ℕ
  pub side : String
  pub timestamp : ℕ

-- What `build_poly_order` returns.
pub record BuiltPoly : Type 0 where
  pub order : PolyOrder
  pub signature : String
  pub signed : Bool
  pub order_type : String
  pub expiration : Option ℕ
  pub expected_price : ℕ
  pub expected_size_usdc : ℕ
  pub neg_risk : Bool

-- The arguments of `build_poly_order`.
pub record PolyRequest : Type 0 where
  pub token_id : String
  pub side : String
  pub price : ℕ
  pub size_usdc : ℕ
  pub eth_address : String
  pub neg_risk : Bool
  pub expiration_secs : ℕ
  pub order_type : String
  pub tick_size : ℕ
  pub min_order_size_usdc : ℕ

-- The order of `build_poly_order`, at the price on the tick.
abbrev pub order_at : ℕ → ℕ → ℕ → PolyRequest → PolyOrder
order_at price salt now q =
    let is_buy = q.side == "BUY" in
    let contracts_wei = round_div (q.size_usdc * one) price in
    record {
      salt = salt;
      maker = q.eth_address;
      signer = q.eth_address;
      token_id = q.token_id;
      maker_amount = if is_buy then q.size_usdc else contracts_wei;
      taker_amount = if is_buy then contracts_wei else q.size_usdc;
      side = if is_buy then "0" else "1";
      timestamp = now;
    }

-- `_sign_poly_eip712` by the wallet's key, without a result where there is no key or it fails.
module _ (sign : PolyOrder → Bool → Option String) where
  -- `build_poly_order` with a salt and the time in ms, without a result where an assertion or the
  -- division by a price of 0 raises.
  unfoldable pub build_poly_order : ℕ → ℕ → PolyRequest → Option BuiltPoly
  unfolding round_to_tick
  build_poly_order salt now q =
      let price = round_to_tick q.price q.tick_size in
      let order = order_at price salt now q in
      let signature = sign order q.neg_risk in
      if (q.side == "BUY" || q.side == "SELL")
        && ltb 0 q.price
        && ltb q.price one
        && leb q.min_order_size_usdc q.size_usdc
        && ltb 0 price
      then some (record {
        order = order;
        signature = elim signature [ none ↦ "" | some s ↦ s ];
        signed = elim signature [ none ↦ false | some s ↦ true ];
        order_type = q.order_type;
        expiration = if q.order_type == "GTD" then some (now / 1000 + q.expiration_secs) else none;
        expected_price = price;
        expected_size_usdc = q.size_usdc;
        neg_risk = q.neg_risk;
      })
      else none
