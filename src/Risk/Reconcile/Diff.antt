-- ===== src/Risk/Reconcile/Diff.antt =====
-- The comparison finds a mismatch exactly where the positions differ.
use polymarket_radar.Base.{
  subst, sym, All-every, ◌≡◌, refl, ◌↔◌, ◌⊎◌, inl, inr, Bool, true, false, not, none, some, List,
  [], ◌∷◌, ◌++◌, map, keep, Key, ◌==◌, All, arith, Bool-cases, Option-cases,
}
use polymarket_radar.Base.Int.{ℤ, pos, ◌-ℤ◌, ◌≤ℤ◌, -ℤ_parts}
use polymarket_radar.Base.Dict.{Dict, lookup, contains}
use polymarket_radar.Risk.Reconcile.{size_of, differs, all_keys, diff_positions}

module _ {K : Type 0} ⦃e : Key K⦄ where
  keep-none : (p : K → Bool) (ks : List K) → (keep p ks ≡ []) ↔ All (λ k. p k ≡ false) ks
  keep-none p [] = (λ h. tt, λ h. refl)
  keep-none p (k ∷ ks) =
      let rest = keep-none p ks in (λ h. ground (arith, rest), λ h. ground (arith, rest, h))

  All-fst :
      (P : K → Type 0) (k : K) (v : ℤ) (d : Dict K ℤ)
      → All P (map (λ x. x.0) d)
      → lookup k d ≡ some v
      → P k
  unfolding lookup
  All-fst P k v [] h f = absurd (ground arith)
  All-fst P k v ((j, w) ∷ d) h f = elim (Bool-cases (j == k)) [
    | inl same ↦ subst P ((e.same_iff j k).0 same) h.0
    | inr other ↦ All-fst P k v d h.1 (ground arith)
  ]

  lookup-keep_key :
      (q : K → Bool) (k : K) (v : ℤ) (d : Dict K ℤ)
      → q k ≡ true
      → lookup k d ≡ some v
      → lookup k (keep (λ x. q x.0) d) ≡ some v
  unfolding lookup
  lookup-keep_key q k v [] t f = f
  lookup-keep_key q k v ((j, w) ∷ d) t f = elim (Bool-cases (j == k)) [
    | inl same ↦
        let equal = (e.same_iff j k).0 same in
        let kept : q j ≡ true = subst (λ x. q x ≡ true) (sym equal) t in
        ground (arith, kept, same, f)
    | inr other ↦ let rest = lookup-keep_key q k v d t (ground arith) in ground (arith, rest, other)
  ]

  All-left : (P : K → Type 0) (xs ys : List K) → All P (xs ++ ys) → All P xs
  All-left P [] ys h = tt
  All-left P (x ∷ xs) ys h = (h.0, All-left P xs ys h.1)

  All-right : (P : K → Type 0) (xs ys : List K) → All P (xs ++ ys) → All P ys
  All-right P [] ys h = h
  All-right P (x ∷ xs) ys h = All-right P xs ys h.1

  -- A key is listed, or neither side has it.
  listed :
      (P : K → Type 0) (local remote : Dict K ℤ) (k : K)
      → All P (all_keys local remote)
      → P k ⊎ ((lookup k local ≡ none) × (lookup k remote ≡ none))
  unfolding all_keys
  listed P local remote k h =
      let new = λ (j : K). not (contains j local) in
      let left = map (λ x. x.0) local in
      let right = map (λ x. x.0) (keep (λ x. new x.0) remote) in
      elim (Option-cases (lookup k local)) [
        | inr (v, f) ↦ inl (All-fst P k v local (All-left P left right h) f)
        | inl f ↦ elim (Option-cases (lookup k remote)) [
          | inl g ↦ inr (f, g)
          | inr (v, g) ↦
              let kept = lookup-keep_key new k v remote (ground (arith, f)) g in
              inl (All-fst P k v (keep (λ x. new x.0) remote) (All-right P left right h) kept)
        ]
      ]

  -- Two sizes within the tolerance of each other.
  abbrev pub IsClose : ℤ → Dict K ℤ → Dict K ℤ → K → Type 0
  IsClose tolerance local remote k =
      (size_of k local -ℤ size_of k remote ≤ℤ tolerance)
      × (size_of k remote -ℤ size_of k local ≤ℤ tolerance)

  differs-IsClose :
      (tolerance : ℤ) (local remote : Dict K ℤ) (k : K)
      → (differs tolerance local remote k ≡ false) ↔ IsClose tolerance local remote k
  unfolding differs
  differs-IsClose tolerance local remote k =
      (λ h. (ground arith, ground arith), λ h. ground (arith, h))

  absent-IsClose :
      (tolerance : ℤ) (local remote : Dict K ℤ) (k : K)
      → pos 0 ≤ℤ tolerance
      → lookup k local ≡ none
      → lookup k remote ≡ none
      → IsClose tolerance local remote k
  unfolding size_of
  absent-IsClose tolerance local remote k h f g =
      let zero_left : size_of k local ≡ pos 0 = ground (arith, f) in
      let zero_right : size_of k remote ≡ pos 0 = ground (arith, g) in
      let d = -ℤ_parts (pos 0) (pos 0) in
      (
        rw zero_left (rw zero_right (omega (arith, d))),
        rw zero_left (rw zero_right (omega (arith, d))),
      )

  -- With a tolerance that is not negative, there is no mismatch exactly if for every key at all the
  -- two sizes, with 0 where a side has none, lie within the tolerance of each other.
  pub diff_positions-none :
      (tolerance : ℤ) (local remote : Dict K ℤ)
      → pos 0 ≤ℤ tolerance
      → (diff_positions tolerance local remote ≡ []) ↔ ((k : K) → IsClose tolerance local remote k)
  diff_positions-none tolerance local remote h =
      let ks = all_keys local remote in
      let none_kept = keep-none (differs tolerance local remote) ks in
      unfold diff_positions in
      (
        λ d k.
            elim (listed (λ j. differs tolerance local remote j ≡ false) local remote k
              (none_kept.0 d)) [
                | inl same ↦ (differs-IsClose tolerance local remote k).0 same
                | inr (f, g) ↦ absent-IsClose tolerance local remote k h f g
              ],
        λ close. none_kept.1 (
            All-every (λ j. differs tolerance local remote j ≡ false) ks
              (λ j. (differs-IsClose tolerance local remote j).1 (close j))),
      )
