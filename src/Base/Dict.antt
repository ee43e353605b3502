-- ===== src/Base/Dict.antt =====
-- A Python dict as an association list in insertion order.
use mathlib.Core.Path.{◌≡◌, refl, sym, ap, subst}
use mathlib.Core.Logic.{◌≢◌, inl, inr}
use mathlib.Core.Bool.{Bool, true, false}
use mathlib.Core.List.{List, [], ◌∷◌}
use mathlib.Core.Option.{Option, none, some}
use native.Mathlib.Omega.{arith}
use Prim.Native.Nat.{suc, ◌≤◌}
use polymarket_radar.Base.Tests.{Key, ◌==◌, if◌then◌else◌, Bool-cases}
use polymarket_radar.Base.Lists.{All, Pairs, length, keep, All-map}

abbrev pub Dict {ℓ κ} : Type ℓ → Type κ → Type (ℓ ⊔ κ)
Dict K V = List (K × V)

module _ {ℓ κ} {K : Type ℓ} {V : Type κ} ⦃e : Key K⦄ where
  -- `d.get(k)`
  unfoldable pub lookup : K → Dict K V → Option V
  lookup k [] = none
  lookup k ((j, v) ∷ d) = if j == k then some v else lookup k d

  -- `d[k] = v`
  unfoldable pub insert : K → V → Dict K V → Dict K V
  insert k v [] = (k, v) ∷ []
  insert k v ((j, w) ∷ d) = if j == k then (j, v) ∷ d else (j, w) ∷ insert k v d

  -- `d.pop(k, None)`
  unfoldable pub erase : K → Dict K V → Dict K V
  erase k [] = []
  erase k ((j, w) ∷ d) = let rest = erase k d in if j == k then rest else (j, w) ∷ rest

  pub lookup-insert :
      (k j : K) (v : V) (d : Dict K V)
      → lookup j (insert k v d) ≡ (if k == j then some v else lookup j d)
  unfolding lookup insert
  lookup-insert k j v [] = refl
  lookup-insert k j v ((i, w) ∷ d) =
      ground (arith, e.same_iff k j, e.same_iff i k, e.same_iff i j, lookup-insert k j v d)

  pub lookup-nil : (k : K) → lookup k [] ≡ none
  unfolding lookup
  lookup-nil k = refl

  pub lookup_absent-insert :
      (k j : K) (v : V) (d : Dict K V)
      → lookup j (insert k v d) ≡ none
      → (k ≢ j) × (lookup j d ≡ none)
  lookup_absent-insert k j v d h =
      let a = e.same_iff k j in let b = lookup-insert k j v d in (λ p. ground arith, ground arith)

  pub lookup-erase :
      (k j : K) (d : Dict K V) → lookup j (erase k d) ≡ (if k == j then none else lookup j d)
  unfolding lookup erase
  lookup-erase k j [] = ground arith
  lookup-erase k j ((i, w) ∷ d) =
      ground (arith, e.same_iff k j, e.same_iff i k, e.same_iff i j, lookup-erase k j d)

  -- `k in d`
  abbrev pub contains : K → Dict K V → Bool
  contains k d = elim (lookup k d) [ none ↦ false | some v ↦ true ]

  -- No key is listed twice: what makes such a list a dict.
  abbrev pub Unique : Dict K V → Type (ℓ ⊔ κ)
  Unique [] = Unit
  Unique ((k, v) ∷ d) = (lookup k d ≡ none) × Unique d

  pub insert-Unique : (k : K) (v : V) (d : Dict K V) → Unique d → Unique (insert k v d)
  unfolding lookup insert
  insert-Unique k v [] u = (refl, tt)
  insert-Unique k v ((i, w) ∷ d) u =
      ground (arith, e.same_iff i k, e.same_iff k i, insert-Unique k v d u.1, lookup-insert k i v d)

  pub erase-Unique : (k : K) (d : Dict K V) → Unique d → Unique (erase k d)
  unfolding erase
  erase-Unique k [] u = tt
  erase-Unique k ((i, w) ∷ d) u = ground (arith, erase-Unique k d u.1, lookup-erase k i d)

  pub erase_absent : (k : K) (d : Dict K V) → lookup k d ≡ none → erase k d ≡ d
  unfolding lookup erase
  erase_absent k [] h = refl
  erase_absent k ((i, w) ∷ d) h = ground (arith, erase_absent k d)

  pub length-erase :
      (k : K) (v : V) (d : Dict K V)
      → Unique d
      → lookup k d ≡ some v
      → suc (length (erase k d)) ≡ length d
  unfolding lookup erase
  length-erase k v [] u h = ground arith
  length-erase k v ((i, w) ∷ d) u h =
      ground (arith, e.same_iff i k, erase_absent k d, length-erase k v d u.1)

  pub length-insert : (k : K) (v : V) (d : Dict K V) → length (insert k v d) ≤ suc (length d)
  unfolding insert
  length-insert k v [] = ground arith
  length-insert k v ((i, w) ∷ d) = ground (arith, length-insert k v d)

  -- `[k for k, v in d.items() if p(v)]` are popped where `p` fails.
  pub lookup-keep_absent :
      (p : K × V → Bool) (k : K) (d : Dict K V) → lookup k d ≡ none → lookup k (keep p d) ≡ none
  unfolding lookup
  lookup-keep_absent p k [] h = refl
  lookup-keep_absent p k ((i, w) ∷ d) h = ground (arith, lookup-keep_absent p k d)

  pub length-keep : (p : K × V → Bool) (d : Dict K V) → length (keep p d) ≤ length d
  length-keep p [] = ground arith
  length-keep p (x ∷ d) = ground (arith, length-keep p d)

  pub keep-Unique : (p : K × V → Bool) (d : Dict K V) → Unique d → Unique (keep p d)
  keep-Unique p [] u = tt
  keep-Unique p ((i, w) ∷ d) u = ground (arith, keep-Unique p d u.1, lookup-keep_absent p i d)

  -- Dropping the entries whose value fails a test keeps the other lookups and no more.
  pub lookup-keep :
      (p : V → Bool) (k : K) (d : Dict K V)
      → Unique d
      → lookup k (keep (λ x. p x.1) d)
        ≡ elim (lookup k d) [ none ↦ none | some v ↦ if p v then some v else none ]
  unfolding lookup
  lookup-keep p k [] u = refl
  lookup-keep p k ((i, w) ∷ d) u =
      ground (
        arith,
        e.same_iff i k,
        lookup-keep p k d u.1,
        lookup-keep_absent (λ (x : K × V). p x.1) k d,
      )

  -- Dropping entries by their keys.
  pub lookup-keep_keys :
      (p : K → Bool) (k : K) (d : Dict K V)
      → lookup k (keep (λ x. p x.0) d) ≡ (if p k then lookup k d else none)
  unfolding lookup
  lookup-keep_keys p k [] = ground arith
  lookup-keep_keys p k ((i, w) ∷ d) = elim (Bool-cases (i == k)) [
    | inl h ↦
        let same : i ≡ k = (e.same_iff i k).0 h in
        let p_same : p i ≡ p k = ap p same in ground (arith, h, p_same, lookup-keep_keys p k d)
    | inr h ↦ ground (arith, h, lookup-keep_keys p k d)
  ]

  absent-All : (k : K) (d : Dict K V) → lookup k d ≡ none → All (λ x. x.0 ≢ k) d
  unfolding lookup
  absent-All k [] h = tt
  absent-All k ((i, w) ∷ d) h =
      ((λ p. ground (arith, e.same_iff i k)), absent-All k d (ground (arith, e.same_iff i k)))

  pub Unique-Pairs : (d : Dict K V) → Unique d → Pairs (λ x y. x.0 ≢ y.0) d
  Unique-Pairs [] u = tt
  Unique-Pairs ((k, v) ∷ d) u = (
    All-map (λ x. x.0 ≢ k) (λ x. k ≢ x.0) d (λ x n p. n (sym p)) (absent-All k d u.0),
    Unique-Pairs d u.1,
  )

  -- In a dict each entry is found under its key.
  pub Unique-All : (d : Dict K V) → Unique d → All (λ x. lookup x.0 d ≡ some x.1) d
  unfolding lookup
  Unique-All [] u = tt
  Unique-All ((k, v) ∷ d) u = (
    ground (arith, e.same_iff k k),
    All-map (λ x. lookup x.0 d ≡ some x.1)
        (λ x. (if k == x.0 then some v else lookup x.0 d) ≡ some x.1) d
        (λ x h. ground (arith, e.same_iff k x.0, u.0, h)) (Unique-All d u.1),
  )

  pub All-lookup {μ} :
      (P : K × V → Type μ) (d : Dict K V) (k : K) (v : V) → All P d → lookup k d ≡ some v → P (k, v)
  unfolding lookup
  All-lookup P [] k v a h = absurd (ground arith)
  All-lookup P ((i, w) ∷ d) k v a h = elim (Bool-cases (i == k)) [
    | inl s ↦ subst P (ground (arith, e.same_iff i k)) a.0
    | inr s ↦ All-lookup P d k v a.1 (ground arith)
  ]
