-- ===== src/Executor/Legs/Broken.antt =====
-- A live arb that is not found broken holds all of its legs or none.
use polymarket_radar.Base.{
  if-both, eqb_iff, ◌<◌, ℕ, zero, suc, eqb, get_elem?, ◌+◌, ◌≡◌, refl, ◌↔◌, ◌⊎◌, inl, inr, Bool,
  true, false, ◌&&◌, Option, none, some, List, [], ◌∷◌, map, any, arith, All, Bool-cases,
}
use polymarket_radar.Executor.Legs.{
  Status, Leg, Built, is_ok, slips, send_leg, fire_one_leg_live, fire_one_leg_dryrun, is_partial,
  is_failed, is_filled, arb_broken, reverted_legs,
}

-- The exchange took the order and confirmed a fill in time.
abbrev pub is_held : Leg → Bool
is_held l = elim l.built [
  | none ↦ false
  | some b ↦ elim b.disabled_reason [
    | some reason ↦ false
    | none ↦ is_ok l.post && elim l.fill [ none ↦ false | some f ↦ true ]
  ]
]

-- It did so at a price within the tolerance.
abbrev pub is_good : ℕ → Leg → Bool
is_good tolerance l = is_held l && elim l.built [
  | none ↦ false
  | some b ↦ elim l.fill [
    | none ↦ false
    | some f ↦ elim (slips tolerance b.expected_price f) [ true ↦ false | false ↦ true ]
  ]
]

-- The status of a live leg.
abbrev pub live_status : ℕ → Leg → Status
live_status tolerance l = (fire_one_leg_live tolerance l).0

live_status_lem :
    (tolerance : ℕ) (l : Leg)
    → (is_partial (live_status tolerance l) ≡ false)
      × (is_filled (live_status tolerance l) ≡ is_held l)
      × (is_failed (live_status tolerance l)
          ≡ elim (is_good tolerance l) [ true ↦ false | false ↦ true ])
unfolding fire_one_leg_live send_leg
live_status_lem tolerance l = ground arith

any-map :
    (p : Status → Bool) (f : Leg → Status) (ls : List Leg)
    → any p (map f ls) ≡ any (λ l. p (f l)) ls
any-map p f [] = refl
any-map p f (l ∷ ls) = ground (arith, any-map p f ls)

any-false : (p : Leg → Bool) (ls : List Leg) → (any p ls ≡ false) ↔ All (λ l. p l ≡ false) ls
any-false p [] = ground arith
any-false p (l ∷ ls) = ground (arith, any-false p ls)

-- Statuses of live legs, by what the legs hold.
any_partial :
    (tolerance : ℕ) (ls : List Leg) → any is_partial (map (live_status tolerance) ls) ≡ false
any_partial tolerance [] = refl
any_partial tolerance (l ∷ ls) =
    ground (arith, live_status_lem tolerance l, any_partial tolerance ls)

any_filled :
    (tolerance : ℕ) (ls : List Leg)
    → (any is_filled (map (live_status tolerance) ls) ≡ false) ↔ All (λ l. is_held l ≡ false) ls
any_filled tolerance [] = ground arith
any_filled tolerance (l ∷ ls) = ground (arith, live_status_lem tolerance l, any_filled tolerance ls)

any_failed :
    (tolerance : ℕ) (ls : List Leg)
    → (any is_failed (map (live_status tolerance) ls) ≡ false)
      ↔ All (λ l. is_good tolerance l ≡ true) ls
any_failed tolerance [] = ground arith
any_failed tolerance (l ∷ ls) = ground (arith, live_status_lem tolerance l, any_failed tolerance ls)

-- A live arb is not found broken exactly if every leg was filled within the tolerance or no leg was
-- filled at all.
pub arb_broken-live :
    (tolerance : ℕ) (ls : List Leg)
    → (arb_broken (map (live_status tolerance) ls) ≡ false)
      ↔ (All (λ l. is_good tolerance l ≡ true) ls ⊎ All (λ l. is_held l ≡ false) ls)
arb_broken-live tolerance ls =
    let failed = any_failed tolerance ls in
    let filled = any_filled tolerance ls in
    unfold arb_broken in
    (
      λ h. elim (Bool-cases (any is_failed (map (live_status tolerance) ls))) [
        | inl e ↦ inr (filled.0 (ground arith))
        | inr e ↦ inl (failed.0 e)
      ],
      λ c. elim c [
        | inl good ↦ ground (arith, any_partial tolerance ls, failed.1 good)
        | inr none_held ↦ ground (arith, any_partial tolerance ls, filled.1 none_held)
      ],
    )

-- Numbers below the first are not walked back.
reverted_above : (k i : ℕ) (ss : List Status) → k < i → any (eqb k) (reverted_legs i ss) ≡ false
unfolding reverted_legs
reverted_above k i [] h = refl
reverted_above k i (s ∷ ss) h =
    let rest = reverted_above k (1 + i) ss (omega arith) in
    let apart = eqb_iff k i in ground (arith, rest, apart, h)

reverted_from :
    (tolerance k i j : ℕ) (ls : List Leg)
    → k ≡ i + j
    → any (eqb k) (reverted_legs i (map (live_status tolerance) ls))
      ≡ elim (get_elem? ls j) [ none ↦ false | some l ↦ is_held l ]
unfolding reverted_legs
reverted_from tolerance k i j [] h = ground arith
reverted_from tolerance k i zero (l ∷ ls) h =
    let later = reverted_above k (1 + i) (map (live_status tolerance) ls) (omega arith) in
    let status = live_status_lem tolerance l in
    let here = eqb_iff k i in ground (arith, later, status, here)
reverted_from tolerance k i (suc j) (l ∷ ls) h =
    let rest = reverted_from tolerance k (1 + i) j ls (omega arith) in
    let apart = eqb_iff k i in
    if-both (λ xs. any (eqb k) xs ≡ elim (get_elem? ls j) [ none ↦ false | some l' ↦ is_held l' ])
      (is_filled (live_status tolerance l))
      (i ∷ reverted_legs (1 + i) (map (live_status tolerance) ls))
      (reverted_legs (1 + i) (map (live_status tolerance) ls)) (ground (arith, rest, apart)) rest

-- The legs of a live arb that are walked back are exactly those that were filled, at whatever price.
pub reverted_legs-live :
    (tolerance j : ℕ) (ls : List Leg)
    → any (eqb j) (reverted_legs 0 (map (live_status tolerance) ls))
      ≡ elim (get_elem? ls j) [ none ↦ false | some l ↦ is_held l ]
reverted_legs-live tolerance j ls = reverted_from tolerance j 0 j ls (omega arith)

dry_status_lem : (b : Option Built) → is_filled (fire_one_leg_dryrun b) ≡ false
unfolding fire_one_leg_dryrun
dry_status_lem none = refl
dry_status_lem (some b) = ground arith

any_filled-dryrun : (bs : List (Option Built)) → any is_filled (map fire_one_leg_dryrun bs) ≡ false
any_filled-dryrun [] = refl
any_filled-dryrun (b ∷ bs) = ground (arith, dry_status_lem b, any_filled-dryrun bs)

reverted_none : (i : ℕ) (ss : List Status) → any is_filled ss ≡ false → reverted_legs i ss ≡ []
unfolding reverted_legs
reverted_none i [] h = refl
reverted_none i (s ∷ ss) h = ground (arith, reverted_none (1 + i) ss)

-- In a dry run only a partial fill makes an arb broken, whatever other legs were rejected, and no leg
-- is ever walked back.
pub arb_broken-dryrun :
    (i : ℕ) (bs : List (Option Built))
    → (arb_broken (map fire_one_leg_dryrun bs) ≡ any is_partial (map fire_one_leg_dryrun bs))
      × (reverted_legs i (map fire_one_leg_dryrun bs) ≡ [])
unfolding arb_broken
arb_broken-dryrun i bs =
    let filled = any_filled-dryrun bs in
    (ground (arith, filled), reverted_none i (map fire_one_leg_dryrun bs) filled)
