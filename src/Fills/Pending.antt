-- ===== src/Fills/Pending.antt =====
-- What the registry of fills promises: one list of the legs that wait, oldest first.
use polymarket_radar.Base.{
  ℕ, ◌≡◌, ◌≢◌, refl, sym, inl, inr, Bool, true, false, Option, none, some, List, [], ◌∷◌, ◌++◌, All,
  Pairs, All-map, All-append, arith, keep, eqb_iff, if◌then◌else◌, ◌==◌, string_key, pair_key,
  Bool-cases,
}
use polymarket_radar.Fills.{Registration, IndexKey, given, remove, is_fresh}

abbrev pub has_order : IndexKey → Registration → Bool
has_order k r = elim (given r.order_id) [ none ↦ false | some o ↦ (r.platform, o) == k ]

abbrev pub has_slug : IndexKey → Registration → Bool
has_slug k r = elim (given r.slug) [ none ↦ false | some s ↦ (r.platform, s) == k ]

-- The oldest registration that passes the test.
unfoldable pub first : (Registration → Bool) → List Registration → Option Registration
first p [] = none
first p (r ∷ rs) = if p r then some r else first p rs

-- Take it out.
unfoldable pub take_first :
    (Registration → Bool) → List Registration → List Registration × Option Registration
unfolding first
take_first p rs = elim (first p rs) [ none ↦ (rs, none) | some r ↦ (remove r.id rs, some r) ]

-- Two registrations that wait at once are two objects, with two order ids.
abbrev pub Apart : Registration → Registration → Type 0
Apart x y = (x.id ≢ y.id) × ((k : IndexKey) → has_order k x ≡ true → has_order k y ≡ false)

pub All-first {κ} :
    (P : Registration → Type κ) (q : Registration → Bool) (rs : List Registration)
    (r : Registration)
    → All P rs
    → first q rs ≡ some r
    → P r × (q r ≡ true)
unfolding first
All-first P q [] r a e = absurd (ground arith)
All-first P q (x ∷ rs) r a e = elim (Bool-cases (q x)) [
  | inl h ↦ let same : x ≡ r = ground arith in rw (sym same) (a.0, h)
  | inr h ↦ All-first P q rs r a.1 (ground arith)
]

pub first_absent :
    (q : Registration → Bool) (rs : List Registration)
    → All (λ r. q r ≡ false) rs
    → first q rs ≡ none
unfolding first
first_absent q [] a = refl
first_absent q (x ∷ rs) a = ground (arith, first_absent q rs a.1)

pub All-remove {κ} :
    (P : Registration → Type κ) (i : ℕ) (rs : List Registration) → All P rs → All P (remove i rs)
unfolding remove
All-remove P i [] a = tt
All-remove P i (x ∷ rs) a = ground (arith, All-remove P i rs a.1)

pub Pairs-remove {κ} :
    (R : Registration → Registration → Type κ) (i : ℕ) (rs : List Registration)
    → Pairs R rs
    → Pairs R (remove i rs)
unfolding remove
Pairs-remove R i [] a = tt
Pairs-remove R i (x ∷ rs) a = ground (arith, Pairs-remove R i rs a.1, All-remove (R x) i rs a.0)

-- Once the oldest that passes a test is out, no other registration has its order id.
pub first-remove :
    (k : IndexKey) (q : Registration → Bool) (rs : List Registration) (r : Registration)
    → Pairs Apart rs
    → first q rs ≡ some r
    → first (has_order k) (remove r.id rs)
      ≡ (if has_order k r then none else first (has_order k) rs)
unfolding first remove
first-remove k q [] r a e = absurd (ground arith)
first-remove k q (x ∷ rs) r a e = elim (Bool-cases (q x)) [
  | inl h ↦
      let same : x ≡ r = ground arith in
      let others : has_order k x ≡ true → first (has_order k) rs ≡ none = λ t.
        first_absent (has_order k) rs
          (All-map (Apart x) (λ y. has_order k y ≡ false) rs (λ y b. b.1 k t) a.0) in
      rw (sym same) (ground (arith, others))
  | inr h ↦
      let (b, t) = All-first (Apart x) q rs r a.0 (ground arith) in
      ground (arith, b.0, b.1 k, eqb_iff x.id r.id, first-remove k q rs r a.1)
]

-- The removal of a registration that does not pass a test keeps those that do.
pub keep-remove_other :
    (h q : Registration → Bool) (rs : List Registration) (r : Registration)
    → Pairs Apart rs
    → first q rs ≡ some r
    → h r ≡ false
    → keep h (remove r.id rs) ≡ keep h rs
unfolding first remove
keep-remove_other h q [] r a e n = absurd (ground arith)
keep-remove_other h q (x ∷ rs) r a e n = elim (Bool-cases (q x)) [
  | inl t ↦ let same : x ≡ r = ground arith in ground (arith, eqb_iff x.id r.id)
  | inr t ↦
      let (b, u) = All-first (Apart x) q rs r a.0 (ground arith) in
      ground (arith, b.0, eqb_iff x.id r.id, keep-remove_other h q rs r a.1)
]

-- The removal of one that passes is its removal among those that do.
pub keep-remove :
    (h q : Registration → Bool) (rs : List Registration) (r : Registration)
    → Pairs Apart rs
    → first q rs ≡ some r
    → h r ≡ true
    → keep h (remove r.id rs) ≡ remove r.id (keep h rs)
unfolding first remove
keep-remove h q [] r a e n = absurd (ground arith)
keep-remove h q (x ∷ rs) r a e n = elim (Bool-cases (q x)) [
  | inl t ↦ let same : x ≡ r = ground arith in ground (arith, eqb_iff x.id r.id)
  | inr t ↦
      let (b, u) = All-first (Apart x) q rs r a.0 (ground arith) in
      ground (arith, b.0, eqb_iff x.id r.id, keep-remove h q rs r a.1)
]

pub first-keep :
    (q : Registration → Bool) (rs : List Registration)
    → first q rs ≡ elim (keep q rs) [ [] ↦ none | r ∷ rest ↦ some r ]
unfolding first
first-keep q [] = refl
first-keep q (x ∷ rs) = ground (arith, first-keep q rs)

pub first-fresh :
    (now ttl : ℕ) (k : IndexKey) (rs : List Registration)
    → Pairs Apart rs
    → first (has_order k) (keep (is_fresh now ttl) rs) ≡ elim (first (has_order k) rs) [
      | none ↦ none
      | some r ↦ if is_fresh now ttl r then some r else none
    ]
unfolding first
first-fresh now ttl k [] a = refl
first-fresh now ttl k (x ∷ rs) a =
    let others : has_order k x ≡ true → first (has_order k) rs ≡ none = λ t.
      first_absent (has_order k) rs
        (All-map (Apart x) (λ y. has_order k y ≡ false) rs (λ y b. b.1 k t) a.0) in
    ground (arith, others, first-fresh now ttl k rs a.1)

pub keep-keep :
    (p q : Registration → Bool) (rs : List Registration) → keep p (keep q rs) ≡ keep q (keep p rs)
keep-keep p q [] = refl
keep-keep p q (x ∷ rs) = ground (arith, keep-keep p q rs)

pub first-append :
    (q : Registration → Bool) (rs : List Registration) (r : Registration)
    → first q (rs ++ r ∷ [])
      ≡ elim (first q rs) [ none ↦ if q r then some r else none | some x ↦ some x ]
unfolding first
first-append q [] r = refl
first-append q (x ∷ rs) r = ground (arith, first-append q rs r)

pub keep-append :
    (q : Registration → Bool) (rs : List Registration) (r : Registration)
    → keep q (rs ++ r ∷ []) ≡ (if q r then keep q rs ++ r ∷ [] else keep q rs)
keep-append q [] r = ground arith
keep-append q (x ∷ rs) r = ground (arith, keep-append q rs r)

pub Pairs-append {κ} :
    (R : Registration → Registration → Type κ) (rs : List Registration) (r : Registration)
    → Pairs R rs
    → All (λ x. R x r) rs
    → Pairs R (rs ++ r ∷ [])
Pairs-append R [] r a b = (tt, tt)
Pairs-append R (x ∷ rs) r a b =
    (All-append (R x) rs (r ∷ []) a.0 (b.0, tt), Pairs-append R rs r a.1 b.1)
