-- ===== src/Base/Sort.antt =====
-- Python's stable sort by a key, as an insertion sort, and what it preserves.
use Prim.Native.Nat.{suc}
use mathlib.Core.Path.{◌≡◌, refl}
use mathlib.Core.Bool.{Bool, true, false}
use mathlib.Core.List.{List, [], ◌∷◌}
use native.Mathlib.Omega.{arith}
use polymarket_radar.Base.Tests.{if◌then◌else◌}
use polymarket_radar.Base.Lists.{length, All, Pairs, All-every, count}

module _ {ℓ} {A : Type ℓ} (le : A → A → Bool) where
  unfoldable pub insert_sorted : A → List A → List A
  insert_sorted x [] = x ∷ []
  insert_sorted x (y ∷ ys) = if le x y then x ∷ y ∷ ys else y ∷ insert_sorted x ys

  -- `sorted(xs, key=…)`, where `le` compares the keys.
  unfoldable pub sort : List A → List A
  unfolding insert_sorted
  sort [] = []
  sort (x ∷ xs) = insert_sorted x (sort xs)

  -- Each element is at most every later one.
  abbrev pub IsSorted : List A → Type 0
  IsSorted xs = Pairs (λ x y. le x y ≡ true) xs

  length-insert_sorted : (x : A) (xs : List A) → length (insert_sorted x xs) ≡ suc (length xs)
  unfolding insert_sorted
  length-insert_sorted x [] = refl
  length-insert_sorted x (y ∷ ys) = ground (arith, length-insert_sorted x ys)

  pub length-sort : (xs : List A) → length (sort xs) ≡ length xs
  unfolding sort
  length-sort [] = refl
  length-sort (x ∷ xs) = ground (arith, length-insert_sorted x (sort xs), length-sort xs)

  All-insert_sorted {κ} :
      (P : A → Type κ) (x : A) (xs : List A) → P x → All P xs → All P (insert_sorted x xs)
  unfolding insert_sorted
  All-insert_sorted P x [] p h = (p, tt)
  All-insert_sorted P x (y ∷ ys) p h = ground (arith, All-insert_sorted P x ys p h.1)

  pub All-sort {κ} : (P : A → Type κ) (xs : List A) → All P xs → All P (sort xs)
  unfolding sort
  All-sort P [] h = tt
  All-sort P (x ∷ xs) h = All-insert_sorted P x (sort xs) h.0 (All-sort P xs h.1)

  All-insert_sorted_inv {κ} :
      (P : A → Type κ) (x : A) (xs : List A) → All P (insert_sorted x xs) → P x × All P xs
  unfolding insert_sorted
  All-insert_sorted_inv P x [] h = h
  All-insert_sorted_inv P x (y ∷ ys) h = ground (arith, All-insert_sorted_inv P x ys)

  pub All-sort_inv {κ} : (P : A → Type κ) (xs : List A) → All P (sort xs) → All P xs
  unfolding sort
  All-sort_inv P [] h = tt
  All-sort_inv P (x ∷ xs) h =
      let (p, q) = All-insert_sorted_inv P x (sort xs) h in (p, All-sort_inv P xs q)

  module _ {κ} (R : A → A → Type κ) (symm : (x y : A) → R x y → R y x) where
    Pairs-insert_sorted :
        (x : A) (xs : List A) → All (R x) xs → Pairs R xs → Pairs R (insert_sorted x xs)
    unfolding insert_sorted
    Pairs-insert_sorted x [] a h = (tt, tt)
    Pairs-insert_sorted x (y ∷ ys) a h =
        ground (arith, symm x y, All-insert_sorted (R y) x ys, Pairs-insert_sorted x ys a.1 h.1)

    pub Pairs-sort : (xs : List A) → Pairs R xs → Pairs R (sort xs)
    unfolding sort
    Pairs-sort [] h = tt
    Pairs-sort (x ∷ xs) h =
        Pairs-insert_sorted x (sort xs) (All-sort (R x) xs h.0) (Pairs-sort xs h.1)

  -- Where the order is one of the elements that satisfy `P` only.
  module _ {κ} (P : A → Type κ) (total : (x y : A) → le x y ≡ false → le y x ≡ true)
      (trans : (x y z : A) → P x → P y → P z → le x y ≡ true → le y z ≡ true → le x z ≡ true) where
    All-le_trans :
        (x y : A) (xs : List A)
        → P x
        → P y
        → All P xs
        → le x y ≡ true
        → All (λ z. le y z ≡ true) xs
        → All (λ z. le x z ≡ true) xs
    All-le_trans x y [] p q ps h a = tt
    All-le_trans x y (z ∷ zs) p q ps h a =
        (trans x y z p q ps.0 h a.0, All-le_trans x y zs p q ps.1 h a.1)

    IsSorted-insert_sorted :
        (x : A) (xs : List A) → P x → All P xs → IsSorted xs → IsSorted (insert_sorted x xs)
    unfolding insert_sorted
    IsSorted-insert_sorted x [] p ps h = (tt, tt)
    IsSorted-insert_sorted x (y ∷ ys) p ps h = ground (
      arith,
      total x y,
      All-le_trans x y ys p ps.0 ps.1,
      All-insert_sorted (λ z. le y z ≡ true) x ys,
      IsSorted-insert_sorted x ys p ps.1 h.1,
    )

    pub sort_where-IsSorted : (xs : List A) → All P xs → IsSorted (sort xs)
    unfolding sort
    sort_where-IsSorted [] ps = tt
    sort_where-IsSorted (x ∷ xs) ps =
        IsSorted-insert_sorted x (sort xs) ps.0 (All-sort P xs ps.1) (sort_where-IsSorted xs ps.1)

  pub sort-IsSorted :
      (total : (x y : A) → le x y ≡ false → le y x ≡ true)
      (trans : (x y z : A) → le x y ≡ true → le y z ≡ true → le x z ≡ true) (xs : List A)
      → IsSorted (sort xs)
  sort-IsSorted total trans xs =
      sort_where-IsSorted {0} (λ x. Unit) total (λ x y z p q r. trans x y z) xs
        (All-every (λ x. Unit) xs (λ x. tt))

  pub count-insert_sorted :
      (p : A → Bool) (x : A) (xs : List A) → count p (insert_sorted x xs) ≡ count p (x ∷ xs)
  unfolding insert_sorted
  count-insert_sorted p x [] = refl
  count-insert_sorted p x (y ∷ ys) = ground (arith, count-insert_sorted p x ys)

  pub count-sort : (p : A → Bool) (xs : List A) → count p (sort xs) ≡ count p xs
  unfolding sort
  count-sort p [] = refl
  count-sort p (x ∷ xs) = ground (arith, count-insert_sorted p x (sort xs), count-sort p xs)
