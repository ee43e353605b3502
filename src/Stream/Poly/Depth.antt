-- ===== src/Stream/Poly/Depth.antt =====
-- The best ask and the depth of a snapshot, without its order.
use polymarket_radar.Base.{
  ℕ, ◌+◌, ◌*◌, ◌≤◌, ◌<◌, ◌≡◌, refl, sym, ◌∙◌, Bool, true, Option, none, some, List, [], ◌∷◌, ap,
  subst, eqb_iff, All, All-map, any, eqb, if◌then◌else◌, arith,
}
use polymarket_radar.Base.Sort.{
  sort, insert_sorted, IsSorted, sort-IsSorted, All-sort_inv, length-sort,
}
use polymarket_radar.Stream.Poly.{Level, by_price, calc_book, parsed, depth_at}

-- The notional of the levels at exactly a price, in any order.
unfoldable pub notional_at : ℕ → List (ℕ × ℕ) → ℕ
notional_at best [] = 0
notional_at best ((p, s) ∷ levels) =
    let rest = notional_at best levels in if eqb p best then p * s + rest else rest

notional_at-insert_sorted :
    (best : ℕ) (x : ℕ × ℕ) (levels : List (ℕ × ℕ))
    → notional_at best (insert_sorted by_price x levels) ≡ notional_at best (x ∷ levels)
unfolding notional_at insert_sorted
notional_at-insert_sorted best x [] = refl
notional_at-insert_sorted best x (y ∷ levels) =
    ground (arith, notional_at-insert_sorted best x levels)

notional_at-sort :
    (best : ℕ) (levels : List (ℕ × ℕ))
    → notional_at best (sort by_price levels) ≡ notional_at best levels
unfolding notional_at sort
notional_at-sort best [] = refl
notional_at-sort best (x ∷ levels) =
    ground
      (arith, notional_at-insert_sorted best x (sort by_price levels), notional_at-sort best levels)

notional_above :
    (best : ℕ) (levels : List (ℕ × ℕ)) → All (λ x. best < x.0) levels → notional_at best levels ≡ 0
unfolding notional_at
notional_above best [] a = refl
notional_above best (x ∷ levels) a = ground (arith, notional_above best levels a.1)

depth_at-notional_at :
    (best : ℕ) (levels : List (ℕ × ℕ))
    → IsSorted by_price levels
    → All (λ x. best ≤ x.0) levels
    → depth_at best levels ≡ notional_at best levels
unfolding depth_at notional_at
depth_at-notional_at best [] s a = refl
depth_at-notional_at best (x ∷ levels) s a =
    let above : best < x.0 → notional_at best levels ≡ 0 = λ h.
      notional_above best levels
        (All-map (λ y. by_price x y ≡ true) (λ y. best < y.0) levels (λ y t. ground arith) s.0) in
    ground (arith, above, depth_at-notional_at best levels s.1 a.1)

any-insert_sorted :
    (p : ℕ × ℕ → Bool) (x : ℕ × ℕ) (levels : List (ℕ × ℕ))
    → any p (insert_sorted by_price x levels) ≡ any p (x ∷ levels)
unfolding insert_sorted
any-insert_sorted p x [] = refl
any-insert_sorted p x (y ∷ levels) = ground (arith, any-insert_sorted p x levels)

any-sort : (p : ℕ × ℕ → Bool) (levels : List (ℕ × ℕ)) → any p (sort by_price levels) ≡ any p levels
unfolding sort
any-sort p [] = refl
any-sort p (x ∷ levels) =
    ground (arith, any-insert_sorted p x (sort by_price levels), any-sort p levels)

levels_ascend : (levels : List (ℕ × ℕ)) → IsSorted by_price (sort by_price levels)
levels_ascend = sort-IsSorted by_price (λ x y h. ground arith) (λ x y z h k. ground arith)

-- A price is the lowest of the levels, and the notional is what they hold at it.
abbrev pub IsTop : Option ℕ × ℕ → List (ℕ × ℕ) → Type 0
IsTop top live = elim top.0 [
  | none ↦ (live ≡ []) × (top.1 ≡ 0)
  | some best ↦
      (any (λ x. eqb x.0 best) live ≡ true)
      × All (λ x. best ≤ x.0) live
      × (top.1 ≡ notional_at best live)
]

empty_sort : (levels : List (ℕ × ℕ)) → sort by_price levels ≡ [] → levels ≡ []
empty_sort [] h = refl
empty_sort (x ∷ levels) h = absurd (ground (arith, length-sort by_price (x ∷ levels), h))

IsTop-sorted :
    (levels sorted : List (ℕ × ℕ))
    → sort by_price levels ≡ sorted
    → IsTop
        (elim sorted [ [] ↦ (none, 0) | (b, s) ∷ rest ↦ (some b, depth_at b ((b, s) ∷ rest)) ])
        levels
IsTop-sorted levels [] e = (empty_sort levels e, refl)
IsTop-sorted levels ((b, s) ∷ rest) e =
    let ordered : IsSorted by_price ((b, s) ∷ rest) =
      subst (IsSorted by_price) e (levels_ascend levels) in
    let above : All (λ x. b ≤ x.0) ((b, s) ∷ rest) = (
      ground arith,
      All-map (λ y. by_price (b, s) y ≡ true) (λ y. b ≤ y.0) rest (λ y t. ground arith) ordered.0,
    ) in
    let listed : any (λ x. eqb x.0 b) ((b, s) ∷ rest) ≡ true = ground (arith, eqb_iff b b) in
    (
      sym (any-sort (λ x. eqb x.0 b) levels) ∙ ap (any (λ x. eqb x.0 b)) e ∙ listed,
      All-sort_inv by_price (λ x. b ≤ x.0) levels (subst (All (λ x. b ≤ x.0)) (sym e) above),
      depth_at-notional_at b ((b, s) ∷ rest) ordered above
          ∙ ap (notional_at b) (sym e)
          ∙ notional_at-sort b levels,
    )

-- `_calc_book` gives the lowest price among the levels of a snapshot that can be read and are not
-- empty, with the notional offered at exactly this price, whatever the order of the levels; and no
-- price exactly if there is no such level.
pub calc_book_lem : (asks : List Level) → IsTop (calc_book asks) (parsed asks)
unfolding calc_book
calc_book_lem asks = IsTop-sorted (parsed asks) (sort by_price (parsed asks)) refl
