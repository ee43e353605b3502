-- ===== src/Fills/Once.antt =====
-- No registration of the registry of fills is found filled twice.
use polymarket_radar.Base.{
  ℕ, suc, ◌<◌, ◌≡◌, ◌≢◌, refl, sym, inl, inr, Bool, Option, none, some, List, [], ◌∷◌, All, Pairs,
  All-map, All-every, All-append, All-keep, Pairs-keep, arith, eqb_iff, Option-cases, Bool-cases,
}
use polymarket_radar.Fills.{Registration, remove, is_fresh}
use polymarket_radar.Fills.Pending.{
  has_order, has_slug, first, take_first, All-first, All-remove, Pairs-remove, Pairs-append,
}
use polymarket_radar.Fills.Indices.{take_first-none, take_first-some}
use polymarket_radar.Fills.Runs.{
  Call, registers, fills_order, fills_slug, expires, Waiting, nothing, empty_registry, found_by,
  spec_step, spec_found, AreNew, fills_refine,
}

abbrev pub IsOther : ℕ → Option Registration → Type 0
IsOther i none = Unit
IsOther i (some r) = r.id ≢ i

-- No two registrations in the list are the same object.
abbrev pub AreOnce : List (Option Registration) → Type 0
AreOnce os = Pairs (λ x y. elim x [ none ↦ Unit | some r ↦ IsOther r.id y ]) os

-- The registration with the number waits no more.
abbrev IsOut : ℕ → Waiting → Type 0
IsOut i w = (i < w.number) × All (λ r. r.id ≢ i) w.list

abbrev IsSound : Waiting → Type 0
IsSound w = Pairs (λ x y. x.id ≢ y.id) w.list × All (λ r. r.id < w.number) w.list

remove_absent :
    (q : Registration → Bool) (p : List Registration) (r : Registration)
    → Pairs (λ x y. x.id ≢ y.id) p
    → first q p ≡ some r
    → All (λ x. x.id ≢ r.id) (remove r.id p)
unfolding first remove
remove_absent q [] r a e = tt
remove_absent q (x ∷ p) r a e = elim (Bool-cases (q x)) [
  | inl h ↦
      let same : x ≡ r = ground (arith, h) in
      let others : All (λ y. y.id ≢ x.id) p =
        All-map (λ y. x.id ≢ y.id) (λ y. y.id ≢ x.id) p (λ y n e. n (sym e)) a.0 in
      rw (sym same, (eqb_iff x.id x.id).1 refl) others
  | inr h ↦
      let e' : first q p ≡ some r = ground (arith, h) in
      let n = (All-first (λ y. x.id ≢ y.id) q p r a.0 e').0 in
      ground (arith, n, eqb_iff x.id r.id, remove_absent q p r a.1 e')
]

-- What `take_first` does to the waiting list.
abbrev after_take : (Registration → Bool) → Waiting → Waiting
after_take q w = record w { list = (take_first q w.list).0 }

take_first-IsOut :
    (q : Registration → Bool) (i : ℕ) (w : Waiting)
    → IsOut i w
    → IsOut i (after_take q w) × IsOther i (take_first q w.list).1
take_first-IsOut q i w h = elim (Option-cases (first q w.list)) [
  | inl e ↦ rw (take_first-none q w.list e) (h, tt)
  | inr (r, e) ↦
      let n = (All-first (λ x. x.id ≢ i) q w.list r h.1 e).0 in
      let kept = All-remove (λ x. x.id ≢ i) r.id w.list h.1 in
      rw (take_first-some q w.list r e) ((h.0, kept), n)
]

take_first-IsSound :
    (q : Registration → Bool) (w : Waiting)
    → IsSound w
    → IsSound (after_take q w)
      × ((r : Registration) → (take_first q w.list).1 ≡ some r → IsOut r.id (after_take q w))
take_first-IsSound q w h = elim (Option-cases (first q w.list)) [
  | inl e ↦ rw (take_first-none q w.list e) (h, λ r f. absurd (ground arith))
  | inr (r, e) ↦
      let b = (All-first (λ x. x.id < w.number) q w.list r h.1 e).0 in
      let gone = remove_absent q w.list r h.0 e in
      let apart = Pairs-remove (λ x y. x.id ≢ y.id) r.id w.list h.0 in
      let older = All-remove (λ x. x.id < w.number) r.id w.list h.1 in
      rw (take_first-some q w.list r e)
        ((apart, older), λ r' f. let same : r ≡ r' = ground arith in rw (sym same) (b, gone))
]

module _ {R : Type 0} where
  spec_step-IsOut :
      (c : Call R) (i : ℕ) (w : Waiting)
      → IsOut i w
      → IsOut i (spec_step c w).0 × IsOther i (spec_step c w).1
  unfolding spec_step
  spec_step-IsOut (registers now arb_id leg_idx platform slug order_id) i w h = (
    (
      ground (arith, h.0),
      All-append (λ r. r.id ≢ i) w.list _ h.1 ((λ e. ground (arith, h.0, e)), tt),
    ),
    tt,
  )
  spec_step-IsOut (fills_order platform o result) i w h =
      take_first-IsOut (has_order (platform, o)) i w h
  spec_step-IsOut (fills_slug platform t result) i w h =
      take_first-IsOut (has_slug (platform, t)) i w h
  spec_step-IsOut (expires now ttl) i w h =
      ((h.0, All-keep (λ r. r.id ≢ i) (is_fresh now ttl) w.list h.1), tt)

  spec_step-IsSound :
      (c : Call R) (w : Waiting)
      → IsSound w
      → IsSound (spec_step c w).0
        × ((r : Registration) → (spec_step c w).1 ≡ some r → IsOut r.id (spec_step c w).0)
  unfolding spec_step
  spec_step-IsSound (registers now arb_id leg_idx platform slug order_id) w h = (
    (
      Pairs-append (λ x y. x.id ≢ y.id) w.list _ h.0
          (All-map (λ r. r.id < w.number) (λ r. r.id ≢ w.number) w.list (λ r b. ground arith) h.1),
      All-append (λ r. r.id < suc w.number) w.list _
          (All-map (λ r. r.id < w.number) (λ r. r.id < suc w.number) w.list (λ r b. ground arith)
            h.1)
          (ground arith, tt),
    ),
    λ r e. absurd (ground arith),
  )
  spec_step-IsSound (fills_order platform o result) w h =
      take_first-IsSound (has_order (platform, o)) w h
  spec_step-IsSound (fills_slug platform t result) w h =
      take_first-IsSound (has_slug (platform, t)) w h
  spec_step-IsSound (expires now ttl) w h = (
    (
      Pairs-keep (λ x y. x.id ≢ y.id) (is_fresh now ttl) w.list h.0,
      All-keep (λ r. r.id < w.number) (is_fresh now ttl) w.list h.1,
    ),
    λ r e. absurd (ground arith),
  )

  spec_found-IsOut :
      (cs : List (Call R)) (i : ℕ) (w : Waiting) → IsOut i w → All (IsOther i) (spec_found cs w)
  unfolding spec_found
  spec_found-IsOut [] i w h = tt
  spec_found-IsOut (c ∷ cs) i w h =
      let (out, other) = spec_step-IsOut c i w h in
      (other, spec_found-IsOut cs i (spec_step c w).0 out)

  spec_found-AreOnce : (cs : List (Call R)) (w : Waiting) → IsSound w → AreOnce (spec_found cs w)
  unfolding spec_found
  spec_found-AreOnce [] w h = tt
  spec_found-AreOnce (c ∷ cs) w h =
      let (sound, out) = spec_step-IsSound c w h in
      let later = spec_found-AreOnce cs (spec_step c w).0 sound in
      elim (Option-cases (spec_step c w).1) [
        | inl e ↦ rw e (All-every (λ y. Unit) (spec_found cs (spec_step c w).0) (λ y. tt), later)
        | inr (r, e) ↦ rw e (spec_found-IsOut cs r.id (spec_step c w).0 (out r e), later)
      ]

  -- However the calls on the registry interleave, no registration is found filled twice, neither by
  -- its order id nor by its market, provided that no leg is registered with the order id of one that
  -- waits.
  pub filled_once : (cs : List (Call R)) → AreNew cs nothing → AreOnce (found_by cs empty_registry)
  filled_once cs n = rw (fills_refine cs n) (spec_found-AreOnce cs nothing (tt, tt))
