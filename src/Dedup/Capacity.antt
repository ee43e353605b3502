-- ===== src/Dedup/Capacity.antt =====
-- The safety net on the number of keys.
use polymarket_radar.Base.{
  ℕ, ◌+◌, ◌-◌, ◌*◌, ◌/◌, ◌≤◌, ◌<◌, String, ◌≡◌, sym, ◌≢◌, ◌⊎◌, inl, inr, true, false, none, some,
  List, [], ◌∷◌, arith, ltb, lt→ltb, string_key, Bool-cases, length, take, drop, All, All-map,
  All-take, All-take-drop, Pairs, Pairs-take, Pairs-split, length-take,
}
use polymarket_radar.Base.Dict.{
  lookup, erase, Unique, Unique-Pairs, Unique-All, All-lookup, erase-Unique, length-erase,
  lookup-erase, keep-Unique,
}
use polymarket_radar.Base.Sort.{
  sort, length-sort, All-sort, All-sort_inv, Pairs-sort, sort-IsSorted,
}
use polymarket_radar.Dedup.{
  Deal, FireDedup, Tracked, older, is_live, erase_all, oldest, shrink, evict, reserve,
}
use polymarket_radar.Dedup.Claims.{length-claim}

abbrev Found : Tracked → String × ℕ → Type 0
Found t x = lookup x.0 t ≡ some x.1

abbrev Apart : String × ℕ → String × ℕ → Type 0
Apart x y = x.0 ≢ y.0

Found-erase :
    (x : String × ℕ) (t : Tracked) (xs : List (String × ℕ))
    → All (Apart x) xs
    → All (Found t) xs
    → All (Found (erase x.0 t)) xs
Found-erase x t [] a f = tt
Found-erase x t (y ∷ ys) a f = (
  ground (arith, string_key.same_iff x.0 y.0, lookup-erase x.0 y.0 t, a.0, f.0),
  Found-erase x t ys a.1 f.1,
)

-- Popping different keys that are there takes one entry for each.
length-erase_all :
    (xs : List (String × ℕ)) (t : Tracked)
    → Unique t
    → Pairs Apart xs
    → All (Found t) xs
    → length (erase_all xs t) + length xs ≡ length t
unfolding erase_all
length-erase_all [] t u p f = omega arith
length-erase_all (x ∷ xs) t u p f = omega (
  arith,
  length-erase x.0 x.1 t u f.0,
  length-erase_all xs (erase x.0 t) (erase-Unique x.0 t u) p.1 (Found-erase x t xs p.0 f.1),
)

lookup-erase_all_absent :
    (xs : List (String × ℕ)) (k : String) (t : Tracked)
    → lookup k t ≡ none
    → lookup k (erase_all xs t) ≡ none
unfolding erase_all
lookup-erase_all_absent [] k t h = h
lookup-erase_all_absent (x ∷ xs) k t h =
    lookup-erase_all_absent xs k (erase x.0 t) (ground (arith, lookup-erase x.0 k t))

-- The keys that are popped are gone, and what is left was there.
erased : (xs : List (String × ℕ)) (t : Tracked) → All (λ x. lookup x.0 (erase_all xs t) ≡ none) xs
unfolding erase_all
erased [] t = tt
erased (x ∷ xs) t = (
  lookup-erase_all_absent xs x.0 (erase x.0 t)
      (ground (arith, string_key.same_iff x.0 x.0, lookup-erase x.0 x.0 t)),
  erased xs (erase x.0 t),
)

lookup-erase_all :
    (xs : List (String × ℕ)) (k : String) (v : ℕ) (t : Tracked)
    → lookup k (erase_all xs t) ≡ some v
    → lookup k t ≡ some v
unfolding erase_all
lookup-erase_all [] k v t h = h
lookup-erase_all (x ∷ xs) k v t h =
    ground (arith, lookup-erase_all xs k v (erase x.0 t) h, lookup-erase x.0 k t)

oldest-Found : (hard_cap : ℕ) (t : Tracked) → Unique t → All (Found t) (oldest hard_cap t)
unfolding oldest
oldest-Found hard_cap t u =
    All-take (Found t) (length t - hard_cap * 4 / 5) (sort older t)
      (All-sort older (Found t) t (Unique-All t u))

oldest-Pairs : (hard_cap : ℕ) (t : Tracked) → Unique t → Pairs Apart (oldest hard_cap t)
unfolding oldest
oldest-Pairs hard_cap t u =
    Pairs-take Apart (length t - hard_cap * 4 / 5) (sort older t)
      (Pairs-sort older Apart (λ x y n p. n (sym p)) t (Unique-Pairs t u))

length-oldest :
    (hard_cap : ℕ) (t : Tracked) → length (oldest hard_cap t) ≡ length t - hard_cap * 4 / 5
unfolding oldest
length-oldest hard_cap t =
    omega (arith, length-take (length t - hard_cap * 4 / 5) (sort older t), length-sort older t)

-- A table above the cap, with no key twice, is cut to four fifths of the cap, rounded down.
pub length-shrink :
    (hard_cap : ℕ) (t : Tracked)
    → Unique t
    → hard_cap < length t
    → length (shrink hard_cap t) ≡ hard_cap * 4 / 5
unfolding shrink
length-shrink hard_cap t u h =
    let dropped = oldest hard_cap t in
    rw (lt→ltb hard_cap (length t) h) (
      omega (
        arith,
        length-erase_all dropped t u (oldest-Pairs hard_cap t u) (oldest-Found hard_cap t u),
        length-oldest hard_cap t,
      ))

shrink_bounded : (hard_cap : ℕ) (t : Tracked) → Unique t → length (shrink hard_cap t) ≤ hard_cap
shrink_bounded hard_cap t u = elim (Bool-cases (ltb hard_cap (length t))) [
  | inl s ↦ omega (arith, length-shrink hard_cap t u (ground arith))
  | inr s ↦ unfold shrink in rw s (ground arith)
]

-- An entry that is popped, or that is no older than each one that is.
abbrev GoneOrNewer : List (String × ℕ) → Tracked → String × ℕ → Type 0
GoneOrNewer dropped t y = (lookup y.0 (erase_all dropped t) ≡ none) ⊎ All (λ x. x.1 ≤ y.1) dropped

older_total : (x y : String × ℕ) → older x y ≡ false → older y x ≡ true
older_total x y h = ground arith

older_trans : (x y z : String × ℕ) → older x y ≡ true → older y z ≡ true → older x z ≡ true
older_trans x y z h k = ground arith

oldest-GoneOrNewer : (hard_cap : ℕ) (t : Tracked) → All (GoneOrNewer (oldest hard_cap t) t) t
oldest-GoneOrNewer hard_cap t =
    let n = length t - hard_cap * 4 / 5 in
    let P = GoneOrNewer (oldest hard_cap t) t in
    let gone : All P (take n (sort older t)) =
      unfold oldest in
      All-map (λ x. lookup x.0 (erase_all (oldest hard_cap t) t) ≡ none) P (take n (sort older t))
        (λ x h. inl h) (erased (oldest hard_cap t) t) in
    let newer : All P (drop n (sort older t)) =
      unfold oldest in
      All-map (λ y. All (λ x. older x y ≡ true) (take n (sort older t))) P (drop n (sort older t))
        (λ y h. inr (
          All-map (λ x. older x y ≡ true) (λ x. x.1 ≤ y.1) (take n (sort older t))
            (λ x o. ground arith) h))
        (Pairs-split (λ x y. older x y ≡ true) n (sort older t)
          (sort-IsSorted older older_total older_trans t)) in
    All-sort_inv older P t (All-take-drop P n (sort older t) gone newer)

-- What the cut drops is no newer than anything that it keeps.
pub shrink_keeps_newest :
    (hard_cap : ℕ) (t : Tracked) (k : String) (v : ℕ)
    → hard_cap < length t
    → lookup k (shrink hard_cap t) ≡ some v
    → All (λ x. x.1 ≤ v) (oldest hard_cap t)
unfolding shrink
shrink_keeps_newest hard_cap t k v h e =
    let dropped = oldest hard_cap t in
    let kept : lookup k (erase_all dropped t) ≡ some v = rw (lt→ltb hard_cap (length t) h) at e in
    elim (All-lookup (GoneOrNewer dropped t) t k v (oldest-GoneOrNewer hard_cap t)
      (lookup-erase_all dropped k v t kept)) [
        | inl gone ↦ absurd (ground (arith, gone, kept))
        | inr newer ↦ newer
      ]

-- However many keys were tracked, after `reserve` the table holds at most the cap and one key for
-- each deal that was seen.
pub reserve_bounded :
    (now : ℕ) (ds : List Deal) (s : FireDedup)
    → Unique s.tracked
    → length (reserve now ds s).1.tracked ≤ s.hard_cap + length ds
unfolding reserve
reserve_bounded now ds s u =
    let t = evict now s.cooldown_s s.tracked in
    omega (
      arith,
      length-claim now ds (shrink s.hard_cap t),
      shrink_bounded s.hard_cap t
          (unfold evict in keep-Unique (λ x. is_live now s.cooldown_s x.1) s.tracked u),
    )
