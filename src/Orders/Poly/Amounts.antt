-- ===== src/Orders/Poly/Amounts.antt =====
-- The price and the amounts of an order on Polymarket.
use native.Mathlib.Nat.{div-eq_of_lt, mod-eq_of_lt}
use polymarket_radar.Base.{
  ℕ, ◌*◌, ◌/◌, ◌%◌, ◌<◌, ◌≡◌, refl, sym, String, Bool, Option, none, some, if◌then◌else◌, ◌==◌,
  string_key, arith, round_div, IsNearest, round_div-IsNearest, inl, inr, Bool-cases, some_if,
}
use polymarket_radar.Orders.Poly.{
  round_to_tick, PolyOrder, BuiltPoly, PolyRequest, order_at, build_poly_order, one,
}

-- `_round_to_tick` gives a multiple of the tick that is at most half a tick from the price.
pub round_to_tick_lem :
    (price tick : ℕ)
    → 0 < tick
    → (k : ℕ) × (round_to_tick price tick ≡ k * tick) × IsNearest k price tick
unfolding round_to_tick
round_to_tick_lem price tick h =
    (round_div price tick, ground (arith, h), round_div-IsNearest price tick h)

-- An order that `build_poly_order` builds is at a price that is not 0, on the market's tick, and at
-- most half a tick from the one asked for. Of its two amounts, one is the dollars asked for and the
-- other the contracts that they buy at this price, rounded to the nearest: the maker gives the dollars
-- when it buys and the contracts when it sells.
pub build_poly_order_lem :
    (sign : PolyOrder → Bool → Option String) (salt now : ℕ) (q : PolyRequest) (b : BuiltPoly)
    → 0 < q.tick_size
    → build_poly_order sign salt now q ≡ some b
    → let is_buy = q.side == "BUY" in
      let dollars = if is_buy then b.order.maker_amount else b.order.taker_amount in
      let contracts = if is_buy then b.order.taker_amount else b.order.maker_amount in
      (0 < b.expected_price)
      × ((k : ℕ) × (b.expected_price ≡ k * q.tick_size) × IsNearest k q.price q.tick_size)
      × (dollars ≡ q.size_usdc)
      × IsNearest contracts (q.size_usdc * one) b.expected_price
unfolding build_poly_order
build_poly_order_lem sign salt now q b h e =
    let price = round_to_tick q.price q.tick_size in
    let order = order_at price salt now q in
    let (c, same) = some_if _ _ b e in
    let positive : 0 < price = ground (arith, c) in
    let near = round_div-IsNearest (q.size_usdc * one) price positive in
    elim (Bool-cases (q.side == "BUY")) [
      | inl buys ↦
          rw (sym same, buys) (positive, round_to_tick_lem q.price q.tick_size h, refl, near)
      | inr sells ↦
          rw (sym same, sells) (positive, round_to_tick_lem q.price q.tick_size h, refl, near)
    ]

tiny_price : (price tick : ℕ) → 2 * price < tick → round_to_tick price tick ≡ 0
unfolding round_to_tick round_div
tiny_price price tick h =
    let none_whole : price / tick ≡ 0 = div-eq_of_lt (omega arith) in
    let all_left : price % tick ≡ price = mod-eq_of_lt (omega arith) in
    ground (arith, none_whole, all_left)

-- `build_poly_order` builds no order when the price asked for is less than half a tick, though it is in
-- the range that is checked: the price is rounded to 0, and the division by it raises.
pub build_poly_order_tiny :
    (sign : PolyOrder → Bool → Option String) (salt now : ℕ) (q : PolyRequest)
    → 2 * q.price < q.tick_size
    → build_poly_order sign salt now q ≡ none
unfolding build_poly_order
build_poly_order_tiny sign salt now q h =
    let zero_price = tiny_price q.price q.tick_size h in ground (arith, zero_price)
