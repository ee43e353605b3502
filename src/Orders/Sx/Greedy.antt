-- ===== src/Orders/Sx/Greedy.antt =====
-- What the greedy match fills, and at what price.
use native.Mathlib.Nat.{mul-le-mul_right}
use polymarket_radar.Base.{
  ℕ, ◌+◌, ◌-◌, ◌*◌, ◌≤◌, ◌<◌, min, ◌≡◌, refl, true, List, [], ◌∷◌, ◌++◌, All, All-map, All-append,
  ltb, leb, if◌then◌else◌, arith, inl, inr, Bool-cases,
}
use polymarket_radar.Base.Sort.{sort, insert_sorted, IsSorted, sort-IsSorted}
use polymarket_radar.Orders.Sx.{
  Matchable, Match, Matching, by_taker_price, take_from, match_loop, match_sx_orders,
  nothing_matched,
}

-- What is for sale at a price that the taker accepts.
unfoldable pub available : ℕ → List Matchable → ℕ
available max_price [] = 0
available max_price (o ∷ orders) =
    let rest = available max_price orders in
    if ltb max_price o.taker_price then rest else o.fillable_usdc + rest

unfoldable pub amount : List Match → ℕ
amount [] = 0
amount (m ∷ ms) = m.taker_amount_usdc + amount ms

available-insert_sorted :
    (max_price : ℕ) (o : Matchable) (orders : List Matchable)
    → available max_price (insert_sorted by_taker_price o orders) ≡ available max_price (o ∷ orders)
unfolding available insert_sorted
available-insert_sorted max_price o [] = refl
available-insert_sorted max_price o (x ∷ orders) =
    ground (arith, available-insert_sorted max_price o orders)

available-sort :
    (max_price : ℕ) (orders : List Matchable)
    → available max_price (sort by_taker_price orders) ≡ available max_price orders
unfolding available sort
available-sort max_price [] = refl
available-sort max_price (o ∷ orders) = ground (
  arith,
  available-insert_sorted max_price o (sort by_taker_price orders),
  available-sort max_price orders,
)

available_above :
    (max_price : ℕ) (orders : List Matchable)
    → All (λ o. max_price < o.taker_price) orders
    → available max_price orders ≡ 0
unfolding available
available_above max_price [] a = refl
available_above max_price (o ∷ orders) a = ground (arith, available_above max_price orders a.1)

orders_ascend : (orders : List Matchable) → IsSorted by_taker_price (sort by_taker_price orders)
orders_ascend = sort-IsSorted by_taker_price (λ x y h. ground arith) (λ x y z h k. ground arith)

amount-append :
    (ms : List Match) (m : Match) → amount (ms ++ m ∷ []) ≡ amount ms + m.taker_amount_usdc
unfolding amount
amount-append [] m = omega arith
amount-append (x ∷ ms) m = omega (arith, amount-append ms m)

match_loop-filled :
    (target max_price : ℕ) (orders : List Matchable) (m : Matching)
    → IsSorted by_taker_price orders
    → m.filled ≤ target
    → (match_loop target max_price orders m).filled
      ≡ m.filled + min (target - m.filled) (available max_price orders)
unfolding match_loop available
match_loop-filled target max_price [] m s h = ground arith
match_loop-filled target max_price (o ∷ orders) m s h =
    let above : max_price < o.taker_price → available max_price orders ≡ 0 = λ b.
      available_above max_price orders (
        All-map (λ x. by_taker_price o x ≡ true) (λ x. max_price < x.taker_price) orders
          (λ x t. ground arith) s.0) in
    ground (arith, above, match_loop-filled target max_price orders (take_from target o m) s.1)

-- What holds of a matching at every round.
abbrev pub IsPriced : ℕ → Matching → Type 0
IsPriced max_price m =
    (m.filled ≡ amount m.matched)
    × All (λ x. x.taker_price ≤ max_price) m.matched
    × (m.cost_weighted_price ≤ max_price * m.filled)

cost_bound :
    (cost price max_price filled taken : ℕ)
    → price ≤ max_price
    → cost ≤ max_price * filled
    → cost + price * taken ≤ max_price * (filled + taken)
cost_bound cost price max_price filled taken p h = omega (arith, mul-le-mul_right taken p)

take_from-IsPriced :
    (target max_price : ℕ) (o : Matchable) (m : Matching)
    → o.taker_price ≤ max_price
    → IsPriced max_price m
    → IsPriced max_price (take_from target o m)
take_from-IsPriced target max_price o m p h =
    let taken = min (target - m.filled) o.fillable_usdc in
    (
      ground (
        arith,
        h.0,
        amount-append m.matched (record {
          order_hash = o.order_hash;
          taker_price = o.taker_price;
          taker_amount_usdc = taken;
        }),
      ),
      All-append (λ x. x.taker_price ≤ max_price) m.matched _ h.1 (p, tt),
      cost_bound m.cost_weighted_price o.taker_price max_price m.filled taken p h.2,
    )

match_loop-IsPriced :
    (target max_price : ℕ) (orders : List Matchable) (m : Matching)
    → IsPriced max_price m
    → IsPriced max_price (match_loop target max_price orders m)
unfolding match_loop
match_loop-IsPriced target max_price [] m h = h
match_loop-IsPriced target max_price (o ∷ orders) m h = elim (Bool-cases (leb target m.filled)) [
  | inl a ↦ rw a h
  | inr a ↦ elim (Bool-cases (ltb max_price o.taker_price)) [
    | inl b ↦ rw (a, b) h
    | inr b ↦
        rw (a, b)
          (match_loop-IsPriced target max_price orders (take_from target o m)
            (take_from-IsPriced target max_price o m (ground arith) h))
  ]
]

-- `match_sx_orders` fills as much as the target and the orders at the accepted prices allow, and not
-- more: the smaller of the target and of what these orders offer together. What it fills is the sum
-- of what it takes from the orders, none of them is above the accepted price, nor is the average
-- price, and the shortfall is what is missing to the target.
pub match_sx_orders_lem :
    (matchable : List Matchable) (target max_price : ℕ)
    → let r = match_sx_orders matchable target max_price in
      (r.matching.filled ≡ min target (available max_price matchable))
      × IsPriced max_price r.matching
      × (r.matching.filled + r.shortfall_usdc ≡ target)
unfolding match_sx_orders
match_sx_orders_lem matchable target max_price =
    let orders = sort by_taker_price matchable in
    let filled =
      match_loop-filled target max_price orders nothing_matched (orders_ascend matchable)
        (omega arith) in
    let same = available-sort max_price matchable in
    let start : IsPriced max_price nothing_matched = (unfold amount in refl, tt, omega arith) in
    (
      ground (arith, filled, same),
      match_loop-IsPriced target max_price orders nothing_matched start,
      ground (arith, filled, same),
    )
