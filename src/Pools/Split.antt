-- ===== src/Pools/Split.antt =====
-- Scripts/radar/eval/pools.py: classify_pools puts each candidate where its sum belongs, in order.
use polymarket_radar.Base.{
  ℕ, ◌+◌, ◌<◌, ◌≡◌, refl, sym, subst, ◌∙◌, Bool, true, false, not, ◌&&◌, Option, none, some, List,
  [], ◌∷◌, map, All, Pairs, All-map, count, string_key, nat_key, pair_key, arith,
}
use polymarket_radar.Base.Frac.{Frac, whole, ltb_frac}
use polymarket_radar.Base.Sort.{sort, IsSorted, sort_where-IsSorted, count-sort, All-sort}
use polymarket_radar.Pools.Classify.{Pool, split_pool, sorted_items, classify}

abbrev pub HasDen : Frac → Type 0
HasDen s = 0 < s.den

abbrev pub rated : Option (Frac × ℕ) → Frac
rated none = whole 0
rated (some (s, limit)) = s

-- The sum of a candidate is below its threshold.
abbrev pub is_below : Option (Frac × ℕ) → Bool
is_below none = false
is_below (some (s, limit)) = ltb_frac s (whole limit)

-- It is at least the threshold, and less than `buffer` above it.
abbrev pub is_close : ℕ → Option (Frac × ℕ) → Bool
is_close buffer none = false
is_close buffer (some (s, limit)) =
    not (ltb_frac s (whole limit)) && ltb_frac s (whole (limit + buffer))

module _ {ℓ} {A : Type ℓ} (le : Frac × A → Frac × A → Bool) (rate : A → Option (Frac × ℕ))
    (buffer : ℕ) where
  -- The order of the items, with their sums.
  abbrev pub Before : A → A → Type 0
  Before x y = le (rated (rate x), x) (rated (rate y), y) ≡ true

  -- The hot list has the candidates below their thresholds, each as often as it was given, the near list
  -- those that are close, and both are in order.
  abbrev pub IsSplit : List A → Pool A → Type ℓ
  IsSplit xs pool =
      ((p : A → Bool) → count p pool.hot ≡ count (λ x. is_below (rate x) && p x) xs)
      × ((p : A → Bool) → count p pool.near ≡ count (λ x. is_close buffer (rate x) && p x) xs)
      × Pairs Before pool.hot
      × Pairs Before pool.near

  abbrev IsRated : Frac × A → Type 0
  IsRated y = y.0 ≡ rated (rate y.1)

  count-map :
      (p : A → Bool) (ys : List (Frac × A)) → count p (map (λ y. y.1) ys) ≡ count (λ y. p y.1) ys
  count-map p [] = refl
  count-map p (y ∷ ys) = ground (arith, count-map p ys)

  count-sorted_items :
      (p : A → Bool) (ys : List (Frac × A)) → count p (sorted_items le ys) ≡ count (λ y. p y.1) ys
  unfolding sorted_items
  count-sorted_items p ys = count-map p (sort le ys) ∙ count-sort le (λ y. p y.1) ys

  count-split_pool :
      (p : A → Bool) (xs : List A)
      → (count (λ y. p y.1) (split_pool rate buffer xs).hot
          ≡ count (λ x. is_below (rate x) && p x) xs)
        × (count (λ y. p y.1) (split_pool rate buffer xs).near
            ≡ count (λ x. is_close buffer (rate x) && p x) xs)
  unfolding split_pool
  count-split_pool p [] = (refl, refl)
  count-split_pool p (x ∷ xs) = ground (arith, count-split_pool p xs)

  split_pool-IsRated :
      (xs : List A)
      → All IsRated (split_pool rate buffer xs).hot × All IsRated (split_pool rate buffer xs).near
  unfolding split_pool
  split_pool-IsRated [] = (tt, tt)
  split_pool-IsRated (x ∷ xs) = ground (arith, split_pool-IsRated xs)

  Before-map :
      (y : Frac × A) (zs : List (Frac × A))
      → IsRated y
      → All IsRated zs
      → All (λ z. le y z ≡ true) zs
      → All (Before y.1) (map (λ z. z.1) zs)
  Before-map y [] r rs h = tt
  Before-map y (z ∷ zs) r rs h = (
    subst (λ s. le (s, y.1) (rated (rate z.1), z.1) ≡ true) r
        (subst (λ s. le y (s, z.1) ≡ true) rs.0 h.0),
    Before-map y zs r rs.1 h.1,
  )

  Pairs-map :
      (ys : List (Frac × A)) → All IsRated ys → IsSorted le ys → Pairs Before (map (λ z. z.1) ys)
  Pairs-map [] rs h = tt
  Pairs-map (y ∷ ys) rs h = (Before-map y ys rs.0 rs.1 h.0, Pairs-map ys rs.1 h.1)

  module _ (den : (x : A) → HasDen (rated (rate x)))
      (total : (x y : Frac × A) → le x y ≡ false → le y x ≡ true)
      (trans : (x y z : Frac × A)
        → HasDen x.0
        → HasDen y.0
        → HasDen z.0
        → le x y ≡ true
        → le y z ≡ true
        → le x z ≡ true) where
    Pairs-sorted_items : (ys : List (Frac × A)) → All IsRated ys → Pairs Before (sorted_items le ys)
    unfolding sorted_items
    Pairs-sorted_items ys rs = Pairs-map (sort le ys) (All-sort le IsRated ys rs) (
        sort_where-IsSorted le (λ y. HasDen y.0) total trans ys
          (All-map IsRated (λ y. HasDen y.0) ys (λ y r. subst HasDen (sym r) (den y.1)) rs))

    pub classify-IsSplit : (xs : List A) → IsSplit xs (classify le rate buffer xs)
    unfolding classify
    classify-IsSplit xs =
        let pool = split_pool rate buffer xs in
        let rs = split_pool-IsRated xs in
        (
          λ p. count-sorted_items p pool.hot ∙ (count-split_pool p xs).0,
          λ p. count-sorted_items p pool.near ∙ (count-split_pool p xs).1,
          Pairs-sorted_items pool.hot rs.0,
          Pairs-sorted_items pool.near rs.1,
        )
