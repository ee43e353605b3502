-- ===== src/Fills/Indices.antt =====
-- The two indices of the registry of fills, each under the operations on it.
use polymarket_radar.Base.{
  ℕ, ◌≡◌, refl, inl, inr, String, Bool, true, false, Option, none, some, List, [], ◌∷◌, arith, keep,
  if◌then◌else◌, ◌==◌, string_key, nat_key, pair_key, pair_same_iff, Bool-cases, Option-cases,
}
use polymarket_radar.Base.Dict.{
  Dict, lookup, erase, Unique, lookup-insert, lookup-erase, insert-Unique, erase-Unique,
}
use polymarket_radar.Fills.{
  Registration, IndexKey, given, bucket, remove, store_bucket, is_fresh, expire_buckets,
}
use polymarket_radar.Fills.Pending.{has_order, has_slug, first, take_first}

pub bucket-store :
    (k j : IndexKey) (b : List Registration) (d : Dict IndexKey (List Registration))
    → bucket j (store_bucket k b d) ≡ (if k == j then b else bucket j d)
bucket-store k j [] d = ground (arith, lookup-erase k j d)
bucket-store k j (r ∷ b) d = ground (arith, lookup-insert k j (r ∷ b) d)

pub store_bucket-Unique :
    (k : IndexKey) (b : List Registration) (d : Dict IndexKey (List Registration))
    → Unique d
    → Unique (store_bucket k b d)
store_bucket-Unique k [] d u = erase-Unique k d u
store_bucket-Unique k (r ∷ b) d u = insert-Unique k (r ∷ b) d u

pub expire_absent :
    (now ttl : ℕ) (k : IndexKey) (d : Dict IndexKey (List Registration))
    → lookup k d ≡ none
    → lookup k (expire_buckets now ttl d).0 ≡ none
unfolding lookup expire_buckets
expire_absent now ttl k [] h = h
expire_absent now ttl k ((j, b) ∷ d) h =
    ground (arith, pair_same_iff j k, expire_absent now ttl k d)

pub expire_buckets-Unique :
    (now ttl : ℕ) (d : Dict IndexKey (List Registration))
    → Unique d
    → Unique (expire_buckets now ttl d).0
unfolding expire_buckets
expire_buckets-Unique now ttl [] u = tt
expire_buckets-Unique now ttl ((j, b) ∷ d) u =
    ground (arith, expire_buckets-Unique now ttl d u.1, expire_absent now ttl j d u.0)

pub bucket-expire :
    (now ttl : ℕ) (k : IndexKey) (d : Dict IndexKey (List Registration))
    → Unique d
    → bucket k (expire_buckets now ttl d).0 ≡ keep (is_fresh now ttl) (bucket k d)
unfolding lookup expire_buckets
bucket-expire now ttl k [] u = refl
bucket-expire now ttl k ((j, b) ∷ d) u =
    ground (arith, pair_same_iff j k, expire_absent now ttl k d, bucket-expire now ttl k d u.1)

-- Both indices without a registration.
abbrev pub drop_order : Registration → Dict IndexKey Registration → Dict IndexKey Registration
drop_order r d = elim (given r.order_id) [ none ↦ d | some o ↦ erase (r.platform, o) d ]

abbrev pub drop_slug :
    Registration → Dict IndexKey (List Registration) → Dict IndexKey (List Registration)
drop_slug r d = elim (given r.slug) [
  | none ↦ d
  | some t ↦ store_bucket (r.platform, t) (remove r.id (bucket (r.platform, t) d)) d
]

pub lookup-drop_order :
    (k : IndexKey) (r : Registration) (d : Dict IndexKey Registration)
    → lookup k (drop_order r d) ≡ (if has_order k r then none else lookup k d)
lookup-drop_order k r d = elim (Option-cases (given r.order_id)) [
  | inl e ↦ ground (arith, e)
  | inr (o, e) ↦ ground (arith, e, lookup-erase (r.platform, o) k d)
]

pub drop_order-Unique :
    (r : Registration) (d : Dict IndexKey Registration) → Unique d → Unique (drop_order r d)
drop_order-Unique r d u = elim (Option-cases (given r.order_id)) [
  | inl e ↦ ground (arith, e)
  | inr (o, e) ↦ ground (arith, e, erase-Unique (r.platform, o) d u)
]

pub bucket-drop_slug :
    (k : IndexKey) (r : Registration) (d : Dict IndexKey (List Registration))
    → bucket k (drop_slug r d) ≡ (if has_slug k r then remove r.id (bucket k d) else bucket k d)
bucket-drop_slug k r d = elim (Option-cases (given r.slug)) [
  | inl e ↦ ground (arith, e)
  | inr (t, e) ↦
      let key : IndexKey = (r.platform, t) in
      ground (arith, e, pair_same_iff key k, bucket-store key k (remove r.id (bucket key d)) d)
]

pub drop_slug-Unique :
    (r : Registration) (d : Dict IndexKey (List Registration)) → Unique d → Unique (drop_slug r d)
drop_slug-Unique r d u = elim (Option-cases (given r.slug)) [
  | inl e ↦ ground (arith, e)
  | inr (t, e) ↦
      let key : IndexKey = (r.platform, t) in
      ground (arith, e, store_bucket-Unique key (remove r.id (bucket key d)) d u)
]

pub has_order_parts :
    (platform o : String) (r : Registration)
    → has_order (platform, o) r ≡ true
    → (r.platform ≡ platform) × (given r.order_id ≡ some o)
has_order_parts platform o r h = elim (Option-cases (given r.order_id)) [
  | inl e ↦ absurd (ground (arith, e))
  | inr (o', e) ↦
      let same : ◌≡◌ {A = IndexKey} (r.platform, o') (platform, o) =
        ground (arith, e, pair_same_iff (r.platform, o') (platform, o)) in
      ground (arith, same, e)
]

pub has_slug_parts :
    (platform t : String) (r : Registration)
    → has_slug (platform, t) r ≡ true
    → (r.platform ≡ platform) × (given r.slug ≡ some t)
has_slug_parts platform t r h = elim (Option-cases (given r.slug)) [
  | inl e ↦ absurd (ground (arith, e))
  | inr (t', e) ↦
      let same : ◌≡◌ {A = IndexKey} (r.platform, t') (platform, t) =
        ground (arith, e, pair_same_iff (r.platform, t') (platform, t)) in
      ground (arith, same, e)
]

pub given_nonempty : (o : Option String) (t : String) → given o ≡ some t → (t == "") ≡ false
given_nonempty none t e = absurd (ground arith)
given_nonempty (some u) t e = ground (arith, e)

pub listed_first :
    (q : Registration → Bool) (p : List Registration) (r : Registration)
    → first q p ≡ some r
    → (rest : List Registration) × (keep q p ≡ r ∷ rest)
listed_first q [] r e = absurd (unfold first in ground arith)
listed_first q (x ∷ p) r e = elim (Bool-cases (q x)) [
  | inl h ↦ (keep q p, unfold first in ground (arith, h))
  | inr h ↦
      let (rest, k) = listed_first q p r (unfold first in ground (arith, h)) in
      (rest, ground (arith, h, k))
]

pub take_first-none :
    (q : Registration → Bool) (p : List Registration)
    → first q p ≡ none
    → take_first q p ≡ (p, none)
unfolding take_first
take_first-none q p e = ground (arith, e)

pub take_first-some :
    (q : Registration → Bool) (p : List Registration) (r : Registration)
    → first q p ≡ some r
    → take_first q p ≡ (remove r.id p, some r)
unfolding take_first
take_first-some q p r e = ground (arith, e)
