-- ===== src/Orders/Tests.antt =====
-- The theorems on orders at concrete requests.
use polymarket_radar.Base.{
  ℕ, ◌+◌, ◌-◌, ◌*◌, ◌<◌, min, ◌≡◌, refl, String, Bool, false, Option, some, none, List, [], ◌∷◌,
  arith, IsNearest,
}
use polymarket_radar.Base.Sort.{sort}
use polymarket_radar.Orders.Sx.{Matchable, match_sx_orders}
use polymarket_radar.Orders.Sx.Greedy.{available, IsPriced, match_sx_orders_lem}
use polymarket_radar.Orders.Poly.{
  PolyRequest, PolyOrder, BuiltPoly, order_at, build_poly_order, one,
}
use polymarket_radar.Orders.Poly.Amounts.{build_poly_order_lem, build_poly_order_tiny}

abbrev offer : String → ℕ → ℕ → Matchable
offer h p n = record { order_hash = h; maker_pct = 100 - p; taker_price = p; fillable_usdc = n }

abbrev offers : List Matchable
offers = offer "a" 52 30 ∷ offer "b" 50 20 ∷ offer "c" 55 90 ∷ offer "d" 51 10 ∷ []

match_sx_orders_lem_example :
    let r = match_sx_orders offers 100 53 in
    (r.matching.filled ≡ min 100 (available 53 offers))
    × IsPriced 53 r.matching
    × (r.matching.filled + r.shortfall_usdc ≡ 100)
match_sx_orders_lem_example = match_sx_orders_lem offers 100 53

fills_sixty : (match_sx_orders offers 100 53).matching.filled ≡ 60
unfolding match_sx_orders sort
fills_sixty = refl

abbrev request : PolyRequest
request = record {
  token_id = "71";
  side = "SELL";
  price = 453000;
  size_usdc = 20000000;
  eth_address = "0xa";
  neg_risk = false;
  expiration_secs = 60;
  order_type = "GTC";
  tick_size = 10000;
  min_order_size_usdc = one;
}

abbrev unsigned : PolyOrder → Bool → Option String
unsigned order neg_risk = none

abbrev built : BuiltPoly
built = record {
  order = order_at 450000 1 5000 request;
  signature = "";
  signed = false;
  order_type = "GTC";
  expiration = none;
  expected_price = 450000;
  expected_size_usdc = 20000000;
  neg_risk = false;
}

request_built : build_poly_order unsigned 1 5000 request ≡ some built
unfolding build_poly_order
request_built = refl

build_poly_order_lem_example :
    (0 < built.expected_price)
    × ((k : ℕ) × (built.expected_price ≡ k * request.tick_size)
        × IsNearest k request.price request.tick_size)
    × (built.order.taker_amount ≡ request.size_usdc)
    × IsNearest built.order.maker_amount (request.size_usdc * one) built.expected_price
build_poly_order_lem_example =
    build_poly_order_lem unsigned 1 5000 request built (omega arith) request_built

build_poly_order_tiny_example :
    build_poly_order unsigned 1 5000 (record request { price = 4000 }) ≡ none
build_poly_order_tiny_example =
    build_poly_order_tiny unsigned 1 5000 (record request { price = 4000 }) (omega arith)
