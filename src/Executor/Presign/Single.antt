-- ===== src/Executor/Presign/Single.antt =====
-- A bundle of signed orders is used at most once, and never past its time.
use polymarket_radar.Base.{
  subst, sym, ℕ, suc, ◌+◌, ◌<◌, ◌≡◌, ◌≢◌, ◌↔◌, ◌⊎◌, inl, inr, String, Option, none, some, List, [],
  ◌∷◌, All, arith, ltb, is_empty, ◌==◌, string_key, Option-cases, Bool-cases,
}
use polymarket_radar.Base.Dict.{
  Dict, lookup, lookup-nil, insert, Unique, lookup-erase, lookup-insert, erase-Unique,
  insert-Unique, keep-Unique, lookup-keep,
}
use polymarket_radar.Executor.Presign.{
  PreSignedBundle, Presigned, consume_presigned, evict_expired, clear_cache, sign_structures,
  pre_sign_for_near_candidate, ttl_seconds,
}

-- `consume_presigned` gives orders exactly if a bundle is cached for the candidate, its time is not
-- over and it has the structure; it then takes the bundle out, and in any case counts one hit or one
-- miss.
pub consume_presigned_lem :
    {Order : Type 0} (now : ℕ) (id structure : String) (s : Presigned Order) (orders : List Order)
    → let (s', found) = consume_presigned now id structure s in
      ((found ≡ some orders) ↔ (
        (b : PreSignedBundle Order) × (lookup id s.cache ≡ some b)
        × (now < b.expires_at)
        × (lookup structure b.signed_orders ≡ some orders)))
      × (found ≡ some orders → lookup id s'.cache ≡ none)
      × (s'.stats.cache_hits + s'.stats.cache_misses
          ≡ suc (s.stats.cache_hits + s.stats.cache_misses))
unfolding consume_presigned
consume_presigned_lem now id structure s orders =
    let gone = lookup-erase id id s.cache in
    let same = string_key.same_iff id id in
    elim (Option-cases (lookup id s.cache)) [
      | inl e ↦ (
        (λ h. ground (arith, e), λ (b, f, l, o). ground (arith, e)),
        ground (arith, e),
        ground (arith, e),
      )
      | inr (b, e) ↦ (
        (λ h. (b, e, ground (arith, e), ground (arith, e)), λ (c, f, l, o). ground (arith, e)),
        ground (arith, e, gone, same),
        ground (arith, e),
      )
    ]

consume_presigned-Unique :
    {Order : Type 0} (now : ℕ) (id structure : String) (s : Presigned Order)
    → Unique s.cache
    → Unique (consume_presigned now id structure s).0.cache
unfolding consume_presigned
consume_presigned-Unique now id structure s u =
    let u' = erase-Unique id s.cache u in ground (arith, u, u')

-- A call on the cache.
pub data Call (Order Spec : Type 0) : Type 0 where
  consume : ℕ → String → String → Call Order Spec
  evict : ℕ → Call Order Spec
  clear : Call Order Spec
  pre_sign :
      ℕ → String → String → Dict String (List Spec) → Dict String (List String) → Call Order Spec

module _ {Spec Order : Type 0} (build : Spec → String → Option Order) where
  -- The state after a call.
  pub step : Call Order Spec → Presigned Order → Presigned Order
  step (consume now id structure) s = (consume_presigned now id structure s).0
  step (evict now) s = (evict_expired now s).0
  step clear s = (clear_cache s).0
  step (pre_sign now id platform orders assignments) s =
      (pre_sign_for_near_candidate build now id platform orders assignments s).0

  pub run : List (Call Order Spec) → Presigned Order → Presigned Order
  unfolding step
  run [] s = s
  run (c ∷ cs) s = run cs (step c s)

module _ {Spec Order : Type 0} where
  -- The call does not sign for the candidate.
  abbrev pub NotSigning : String → Call Order Spec → Type 0
  NotSigning k (pre_sign now id platform orders assignments) = id ≢ k
  NotSigning k _ = Unit

module _ {Order : Type 0} where
  -- The candidate has no bundle.
  abbrev pub IsGone : String → Presigned Order → Type 0
  IsGone k s = (lookup k s.cache ≡ none) × Unique s.cache

module _ {Spec Order : Type 0} (build : Spec → String → Option Order) where
  pre_sign-cache :
      (now : ℕ) (id platform : String) (orders : Dict String (List Spec))
      (assignments : Dict String (List String)) (s : Presigned Order)
      → let s' = (pre_sign_for_near_candidate build now id platform orders assignments s).0 in
        (s'.cache ≡ s.cache) ⊎ ((b : PreSignedBundle Order) × (s'.cache ≡ insert id b s.cache))
  unfolding pre_sign_for_near_candidate
  pre_sign-cache now id platform orders assignments s =
      let signed = sign_structures build orders assignments [] [] in
      elim (Bool-cases (platform == "polymarket")) [
        | inl p ↦ elim (Bool-cases (is_empty signed.1)) [
          | inl e ↦ inl (ground (arith, p, e))
          | inr e ↦ inr (
            record {
              signed_orders = signed.1;
              expires_at = now + ttl_seconds;
              wallets_used = signed.0;
            },
            ground (arith, p, e),
          )
        ]
        | inr p ↦ inl (ground (arith, p))
      ]

  step-IsGone :
      (k : String) (c : Call Order Spec) (s : Presigned Order)
      → NotSigning k c
      → IsGone k s
      → IsGone k (step build c s)
  unfolding step
  step-IsGone k (consume now id structure) s n g =
      let left = lookup-erase id k s.cache in
      let u = erase-Unique id s.cache g.1 in unfold consume_presigned in ground (arith, left, u, g)
  step-IsGone k (evict now) s n g =
      let left = lookup-keep (λ (b : PreSignedBundle Order). ltb now b.expires_at) k s.cache g.1 in
      let u =
        keep-Unique (λ (x : String × PreSignedBundle Order). ltb now x.1.expires_at) s.cache g.1 in
      unfold evict_expired in (ground (arith, left, g), u)
  step-IsGone k clear s n g = unfold clear_cache in (lookup-nil k, tt)
  step-IsGone k (pre_sign now id platform orders assignments) s n g =
      let apart = string_key.same_iff id k in
      elim (pre_sign-cache now id platform orders assignments s) [
        | inl e ↦ subst (λ d. (lookup k d ≡ none) × Unique d) (sym e) g
        | inr (b, e) ↦
            let left = lookup-insert id k b s.cache in
            subst (λ d. (lookup k d ≡ none) × Unique d) (sym e)
              (ground (arith, apart, n, g, left), insert-Unique id b s.cache g.1)
      ]

  run-IsGone :
      (k : String) (cs : List (Call Order Spec)) (s : Presigned Order)
      → All (NotSigning k) cs
      → IsGone k s
      → IsGone k (run build cs s)
  unfolding run
  run-IsGone k [] s n g = g
  run-IsGone k (c ∷ cs) s n g = run-IsGone k cs (step build c s) n.1 (step-IsGone k c s n.0 g)

  -- After the signed orders of a candidate were given out, no later call gives any for it, whichever
  -- structure and time it asks for, until the candidate is signed again.
  pub consumed_once :
      (k structure structure' : String) (now now' : ℕ) (cs : List (Call Order Spec))
      (s : Presigned Order) (orders : List Order)
      → Unique s.cache
      → (consume_presigned now k structure s).1 ≡ some orders
      → All (NotSigning k) cs
      → (consume_presigned now' k structure'
          (run build cs (consume_presigned now k structure s).0)).1
        ≡ none
  consumed_once k structure structure' now now' cs s orders u h n =
      let gone = (consume_presigned_lem now k structure s orders).1 h in
      let u' = consume_presigned-Unique now k structure s u in
      let left = run-IsGone k cs (consume_presigned now k structure s).0 n (gone, u') in
      unfold consume_presigned in ground (arith, left)
