-- ===== src/Dedup/Claims.antt =====
-- What one pass of the loop of `reserve` claims.
use polymarket_radar.Base.{
  ℕ, ◌+◌, ◌≤◌, String, ◌≡◌, sym, subst, ◌≢◌, inl, inr, true, false, none, some, List, [], ◌∷◌,
  arith, string_key, Bool-cases, length, All, All-map, Pairs,
}
use polymarket_radar.Base.Dict.{
  lookup, insert, Unique, lookup-insert, lookup_absent-insert, insert-Unique, length-insert,
}
use polymarket_radar.Dedup.{Deal, arb_fire_key, Tracked, skips, claim}

-- A deal that is to be fired, against the table before the pass.
abbrev pub IsNew : Tracked → String × Deal → Type 0
IsNew t (k, d) = (k ≡ arb_fire_key d) × (d.is_quarantine ≡ false) × (lookup k t ≡ none)

-- Nothing that is tracked is claimed or changed.
pub claim-tracked :
    (now : ℕ) (ds : List Deal) (t : Tracked) (j : String) (v : ℕ)
    → lookup j t ≡ some v
    → (lookup j (claim now ds t).1 ≡ some v) × All (λ x. x.0 ≢ j) (claim now ds t).0
unfolding claim
claim-tracked now [] t j v h = (h, tt)
claim-tracked now (d ∷ ds) t j v h =
    let k = arb_fire_key d in
    ground (
      arith,
      string_key.same_iff k j,
      lookup-insert k j now t,
      claim-tracked now ds t j v h,
      claim-tracked now ds (insert k now t) j v,
    )

IsNew-insert :
    (k : String) (now : ℕ) (t : Tracked) (x : String × Deal) → IsNew (insert k now t) x → IsNew t x
IsNew-insert k now t x (key, free, absent) =
    (key, free, (lookup_absent-insert k x.0 now t absent).1)

not_skipped : (d : Deal) (t : Tracked) → skips d t ≡ false → IsNew t (arb_fire_key d, d)
unfolding skips
not_skipped d t s = ground arith

skipped :
    (d : Deal) (t : Tracked)
    → skips d t ≡ true
    → d.is_quarantine ≡ false
    → (v : ℕ) × (lookup (arb_fire_key d) t ≡ some v)
unfolding skips
skipped d t s q = ground arith

claim-skip :
    (now : ℕ) (d : Deal) (ds : List Deal) (t : Tracked)
    → skips d t ≡ true
    → claim now (d ∷ ds) t ≡ claim now ds t
unfolding claim
claim-skip now d ds t s = rw s

claim-fire :
    (now : ℕ) (d : Deal) (ds : List Deal) (t : Tracked)
    → skips d t ≡ false
    → claim now (d ∷ ds) t ≡ (
        let (rest, t') = claim now ds (insert (arb_fire_key d) now t) in
        ((arb_fire_key d, d) ∷ rest, t'))
unfolding claim
claim-fire now d ds t s = rw s

inserted : (k : String) (now : ℕ) (t : Tracked) → lookup k (insert k now t) ≡ some now
inserted k now t = ground (arith, string_key.same_iff k k, lookup-insert k k now t)

-- What is claimed was new, is not quarantined, carries its own key and is tracked from `now` on.
pub claim-IsNew :
    (now : ℕ) (ds : List Deal) (t : Tracked)
    → All (λ x. IsNew t x × (lookup x.0 (claim now ds t).1 ≡ some now)) (claim now ds t).0
claim-IsNew now [] t = unfold claim in tt
claim-IsNew now (d ∷ ds) t = elim (Bool-cases (skips d t)) [
  | inl s ↦ rw (claim-skip now d ds t s) (claim-IsNew now ds t)
  | inr s ↦
      let k = arb_fire_key d in
      let t' = insert k now t in
      rw (claim-fire now d ds t s) (
        (not_skipped d t s, (claim-tracked now ds t' k now (inserted k now t)).0),
        All-map (λ x. IsNew t' x × (lookup x.0 (claim now ds t').1 ≡ some now))
            (λ x. IsNew t x × (lookup x.0 (claim now ds t').1 ≡ some now)) (claim now ds t').0
            (λ x h. (IsNew-insert k now t x h.0, h.1)) (claim-IsNew now ds t'),
      )
]

-- No key is claimed twice in one pass.
pub claim-Pairs :
    (now : ℕ) (ds : List Deal) (t : Tracked) → Pairs (λ x y. x.0 ≢ y.0) (claim now ds t).0
claim-Pairs now [] t = unfold claim in tt
claim-Pairs now (d ∷ ds) t = elim (Bool-cases (skips d t)) [
  | inl s ↦ rw (claim-skip now d ds t s) (claim-Pairs now ds t)
  | inr s ↦
      let k = arb_fire_key d in
      let t' = insert k now t in
      rw (claim-fire now d ds t s) (
        All-map (λ x. x.0 ≢ k) (λ x. k ≢ x.0) (claim now ds t').0 (λ x n p. n (sym p))
            (claim-tracked now ds t' k now (inserted k now t)).1,
        claim-Pairs now ds t',
      )
]

-- Every deal that is not quarantined has its key tracked.
abbrev pub IsCovered : Tracked → Deal → Type 0
IsCovered t d = d.is_quarantine ≡ false → (v : ℕ) × (lookup (arb_fire_key d) t ≡ some v)

-- Every deal that is not quarantined is tracked after the pass.
pub claim-IsCovered :
    (now : ℕ) (ds : List Deal) (t : Tracked) → All (IsCovered (claim now ds t).1) ds
claim-IsCovered now [] t = tt
claim-IsCovered now (d ∷ ds) t =
    let k = arb_fire_key d in
    elim (Bool-cases (skips d t)) [
      | inl s ↦
          subst (λ r. All (IsCovered r.1) (d ∷ ds)) (sym (claim-skip now d ds t s))
            (
              λ q. let (v, h) = skipped d t s q in (v, (claim-tracked now ds t k v h).0),
              claim-IsCovered now ds t,
            )
      | inr s ↦
          let t' = insert k now t in
          subst (λ r. All (IsCovered r.1) (d ∷ ds)) (sym (claim-fire now d ds t s))
            (
              λ q. (now, (claim-tracked now ds t' k now (inserted k now t)).0),
              claim-IsCovered now ds t',
            )
    ]

pub claim-Unique : (now : ℕ) (ds : List Deal) (t : Tracked) → Unique t → Unique (claim now ds t).1
unfolding claim
claim-Unique now [] t u = u
claim-Unique now (d ∷ ds) t u =
    let k = arb_fire_key d in
    ground
      (arith, claim-Unique now ds t, claim-Unique now ds (insert k now t), insert-Unique k now t u)

pub length-claim :
    (now : ℕ) (ds : List Deal) (t : Tracked) → length (claim now ds t).1 ≤ length t + length ds
unfolding claim
length-claim now [] t = omega arith
length-claim now (d ∷ ds) t =
    let k = arb_fire_key d in
    ground
      (arith, length-claim now ds t, length-claim now ds (insert k now t), length-insert k now t)
