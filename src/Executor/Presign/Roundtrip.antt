-- ===== src/Executor/Presign/Roundtrip.antt =====
-- What was signed for a candidate is what a fire in time gets.
use polymarket_radar.Base.{
  any, ◌++◌, ℕ, ◌+◌, ◌<◌, ◌≡◌, refl, sym, subst, ◌≢◌, ◌⊎◌, inl, inr, String, true, false, Option,
  none, some, List, [], ◌∷◌, arith, if◌then◌else◌, ltb, is_empty, length, ◌==◌, string_key,
  Option-cases, Bool-cases, if-cases, match-cases,
}
use polymarket_radar.Base.Dict.{Dict, lookup, lookup-nil, insert, lookup-insert}
use polymarket_radar.Executor.Presign.{
  PreSignedBundle, Presigned, consume_presigned, sign_legs, sign_structures,
  pre_sign_for_near_candidate, ttl_seconds, wallets_for,
}
use polymarket_radar.Executor.Presign.Single.{consume_presigned_lem}

module _ {Spec : Type 0} where
  -- The entry stands in the list of the structures.
  abbrev pub In : String → List Spec → Dict String (List Spec) → Type 0
  In key specs [] = ⊥
  In key specs ((k, s) ∷ rest) = ((k ≡ key) × (s ≡ specs)) ⊎ In key specs rest

module _ {Spec Order : Type 0} (build : Spec → String → Option Order) where
  -- Leg by leg, the order is what the builder gives for the leg and its wallet.
  abbrev pub AreSigned : List Spec → List String → List Order → Type 0
  AreSigned [] ws orders = orders ≡ []
  AreSigned (spec ∷ specs) [] orders = ⊥
  AreSigned (spec ∷ specs) (w ∷ ws) [] = ⊥
  AreSigned (spec ∷ specs) (w ∷ ws) (order ∷ orders) =
      (build spec w ≡ some order) × AreSigned specs ws orders

  sign_legs-AreSigned :
      (specs : List Spec) (ws addrs : List String) (orders : List Order)
      → (sign_legs build specs ws addrs).1 ≡ some orders
      → AreSigned specs ws orders
  unfolding sign_legs
  sign_legs-AreSigned [] ws addrs orders h = ground arith
  sign_legs-AreSigned (spec ∷ specs) [] addrs orders h = ground arith
  sign_legs-AreSigned (spec ∷ specs) (w ∷ ws) addrs orders h =
      let addrs' = if any (λ a. a == w) addrs then addrs else addrs ++ w ∷ [] in
      elim (Option-cases (build spec w)) [
        | inl e ↦ absurd (ground (arith, e, h))
        | inr (order, e) ↦ elim (Option-cases (sign_legs build specs ws addrs').1) [
          | inl f ↦ absurd (ground (arith, e, f, h))
          | inr (rest, f) ↦
              let signed = sign_legs-AreSigned specs ws addrs' rest f in
              let all : order ∷ rest ≡ orders = ground (arith, e, f, h) in
              subst (AreSigned (spec ∷ specs) (w ∷ ws)) all (e, signed)
        ]
      ]

  -- Every structure of the bundle is one of those asked for, with an order for each leg, signed for
  -- the wallet assigned to the leg.
  abbrev pub IsBundle :
      Dict String (List Spec) → Dict String (List String) → Dict String (List Order) → Type 0
  IsBundle structures assignments bundle =
      (key : String) (orders : List Order)
      → lookup key bundle ≡ some orders
      → (specs : List Spec) × (In key specs structures)
        × AreSigned specs (wallets_for build key assignments) orders
        × (orders ≢ [])

  insert-IsBundle :
      (key : String) (specs : List Spec) (orders : List Order)
      (structures : Dict String (List Spec)) (assignments : Dict String (List String))
      (bundle : Dict String (List Order))
      → In key specs structures
      → AreSigned specs (wallets_for build key assignments) orders
      → is_empty orders ≡ false
      → IsBundle structures assignments bundle
      → IsBundle structures assignments (insert key orders bundle)
  insert-IsBundle key specs orders structures assignments bundle m signed n h key' orders' e =
      let found = lookup-insert key key' orders bundle in
      elim (Bool-cases (key == key')) [
        | inl same ↦
            subst
              (λ k.
                (x : List Spec) × In k x structures
                × AreSigned x (wallets_for build k assignments) orders'
                × (orders' ≢ []))
              ((string_key.same_iff key key').0 same)
              (
                specs,
                m,
                subst (AreSigned specs (wallets_for build key assignments))
                    (ground (arith, found, same, e)) signed,
                ground (arith, found, same, e, n),
              )
        | inr other ↦ h key' orders' (ground (arith, found, other, e))
      ]

  sign_structures-IsBundle :
      (rest all : Dict String (List Spec)) (assignments : Dict String (List String))
      (addrs : List String) (bundle : Dict String (List Order))
      → ((key : String) (specs : List Spec) → In key specs rest → In key specs all)
      → IsBundle all assignments bundle
      → IsBundle all assignments (sign_structures build rest assignments addrs bundle).1
  unfolding sign_structures
  sign_structures-IsBundle [] all assignments addrs bundle f h = h
  sign_structures-IsBundle ((key, specs) ∷ rest) all assignments addrs bundle f h =
      let P = λ (x : List String × Dict String (List Order)). IsBundle all assignments x.1 in
      let ws = wallets_for build key assignments in
      let (addrs', signed) = sign_legs build specs ws addrs in
      let Result = List String × Dict String (List Order) in
      let later : List String → Dict String (List Order) → Result =
        sign_structures build rest assignments in
      let go = λ (xs : List String) (b : Dict String (List Order)) (i : IsBundle all assignments b).
        sign_structures-IsBundle rest all assignments xs b (λ k ss m. f k ss (inr m)) i in
      let kept : List Order → Result = λ orders.
        if is_empty orders then later addrs' bundle else later addrs' (insert key orders bundle) in
      if-cases P (ltb (length ws) (length specs)) (later addrs bundle)
        (elim signed [ none ↦ later addrs' bundle | some orders ↦ kept orders ])
        (λ e. go addrs bundle h)
        (λ e.
          match-cases P signed (later addrs' bundle) kept (λ n. go addrs' bundle h)
            (λ orders o.
              if-cases P (is_empty orders) (later addrs' bundle)
                (later addrs' (insert key orders bundle)) (λ n. go addrs' bundle h)
                (λ n. go addrs' (insert key orders bundle) (
                  insert-IsBundle key specs orders all assignments bundle
                    (f key specs (inl (refl, refl))) (sign_legs-AreSigned specs ws addrs orders o) n
                    h))))

  pre_sign-cached :
      (t : ℕ) (id platform : String) (structures : Dict String (List Spec))
      (assignments : Dict String (List String)) (s : Presigned Order)
      → let (s', cached) =
          pre_sign_for_near_candidate build t id platform structures assignments s in
        let made = sign_structures build structures assignments [] [] in
        cached ≡ true
        → lookup id s'.cache
          ≡ some (record {
            signed_orders = made.1;
            expires_at = t + ttl_seconds;
            wallets_used = made.0;
          })
  unfolding pre_sign_for_near_candidate
  pre_sign-cached t id platform structures assignments s c =
      let made = sign_structures build structures assignments [] [] in
      let b : PreSignedBundle Order = record {
        signed_orders = made.1;
        expires_at = t + ttl_seconds;
        wallets_used = made.0;
      } in
      let found = lookup-insert id id b s.cache in
      let same = string_key.same_iff id id in ground (arith, found, same, c)

  -- After `pre_sign_for_near_candidate` cached a bundle, a fire that gets orders for a structure
  -- asked before the bundle's time was over, the structure is one of those to be signed, and there
  -- is an order for each of its legs, built for that leg and the wallet assigned to it.
  pub pre_sign-consume :
      (t now : ℕ) (id structure platform : String) (structures : Dict String (List Spec))
      (assignments : Dict String (List String)) (s : Presigned Order) (orders : List Order)
      → let (s', cached) =
          pre_sign_for_near_candidate build t id platform structures assignments s in
        cached ≡ true
        → (consume_presigned now id structure s').1 ≡ some orders
        → (now < t + ttl_seconds)
          × ((specs : List Spec) × In structure specs structures
              × AreSigned specs (wallets_for build structure assignments) orders
              × (orders ≢ []))
  pre_sign-consume t now id structure platform structures assignments s orders c h =
      let made = sign_structures build structures assignments [] [] in
      let b : PreSignedBundle Order = record {
        signed_orders = made.1;
        expires_at = t + ttl_seconds;
        wallets_used = made.0;
      } in
      let (b', found, early, listed) =
        (consume_presigned_lem now id structure
            (pre_sign_for_near_candidate build t id platform structures assignments s).0 orders).0.0
          h in
      let cached = pre_sign-cached t id platform structures assignments s c in
      let same : b ≡ b' = ground (arith, found, cached) in
      (
        subst (λ x. now < x.expires_at) (sym same) early,
        sign_structures-IsBundle structures structures assignments [] [] (λ k ss m. m)
            (λ k os e. absurd (ground (arith, lookup-nil {V = List Order} k, e))) structure orders
            (subst (λ x. lookup structure x.signed_orders ≡ some orders) (sym same) listed),
      )
