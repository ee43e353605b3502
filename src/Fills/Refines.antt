-- ===== src/Fills/Refines.antt =====
-- The two indices of the registry of fills together implement the one list of `Fills.Pending`.
use polymarket_radar.Base.{
  ℕ, suc, ◌<◌, ◌≡◌, ◌≢◌, ◌∙◌, All-every, refl, inl, inr, String, Bool, true, false, Option, none,
  some, List, [], ◌∷◌, ◌++◌, All, Pairs, All-map, All-append, All-both, All-keep, Pairs-keep, arith,
  keep, eqb_iff, ◌==◌, string_key, nat_key, pair_key, pair_same_iff, Bool-cases, Option-cases,
}
use polymarket_radar.Base.Dict.{
  lookup, insert, Unique, lookup-insert, lookup-keep, insert-Unique, keep-Unique,
}
use polymarket_radar.Fills.{
  Registration, FillRegistry, IndexKey, given, bucket, remove, is_fresh, register,
  consume_by_order_id, consume_by_slug, expire_stale,
}
use polymarket_radar.Fills.Pending.{
  has_order, has_slug, first, take_first, Apart, All-first, All-remove, Pairs-remove, first-remove,
  keep-remove, keep-remove_other, first-keep, first-fresh, keep-keep, first-append, keep-append,
  Pairs-append, first_absent,
}
use polymarket_radar.Fills.Indices.{
  expire_buckets-Unique, bucket-expire, drop_order, drop_slug, lookup-drop_order, drop_order-Unique,
  bucket-drop_slug, drop_slug-Unique, has_order_parts, has_slug_parts, given_nonempty, listed_first,
  take_first-none, take_first-some,
}

-- The registry's indices show the list.
pub record Shows {R : Type 0} (s : FillRegistry R) (p : List Registration) : Type 0 where
  pub orders : (k : IndexKey) → lookup k s.by_order_id ≡ first (has_order k) p
  pub slugs : (k : IndexKey) → bucket k s.by_slug ≡ keep (has_slug k) p
  pub order_keys : Unique s.by_order_id
  pub slug_keys : Unique s.by_slug
  pub apart : Pairs Apart p
  pub bounded : All (λ r. r.id < s.next_id) p

-- No registration that waits has the order id of the new one.
abbrev pub IsNew : Registration → List Registration → Type 0
IsNew r p = All (λ x. (k : IndexKey) → has_order k x ≡ true → has_order k r ≡ false) p

module _ {R : Type 0} where
  -- `s` without the registration, and its result delivered.
  abbrev dropped : Registration → R → FillRegistry R → FillRegistry R
  dropped r result s = record s {
    by_order_id = drop_order r s.by_order_id;
    by_slug = drop_slug r s.by_slug;
    delivered = insert r.id result s.delivered;
  }

  pub dropped-Shows :
      (q : Registration → Bool) (r : Registration) (result : R) (s : FillRegistry R)
      (p : List Registration)
      → Shows s p
      → first q p ≡ some r
      → Shows (dropped r result s) (remove r.id p)
  dropped-Shows q r result s p w e = record {
    orders = λ k.
        ground
          (arith, w.orders k, lookup-drop_order k r s.by_order_id, first-remove k q p r w.apart e);
    slugs = λ k. ground (
      arith,
      w.slugs k,
      bucket-drop_slug k r s.by_slug,
      keep-remove (has_slug k) q p r w.apart e,
      keep-remove_other (has_slug k) q p r w.apart e,
    );
    order_keys = drop_order-Unique r s.by_order_id w.order_keys;
    slug_keys = drop_slug-Unique r s.by_slug w.slug_keys;
    apart = Pairs-remove Apart r.id p w.apart;
    bounded = All-remove (λ x. x.id < s.next_id) r.id p w.bounded;
  }

  pub expire_stale-Shows :
      (now ttl : ℕ) (s : FillRegistry R) (p : List Registration)
      → Shows s p
      → Shows (expire_stale now ttl s).0 (keep (is_fresh now ttl) p)
  unfolding expire_stale
  expire_stale-Shows now ttl s p w = record {
    orders = λ k. ground (
      arith,
      w.orders k,
      first-fresh now ttl k p w.apart,
      lookup-keep (is_fresh now ttl) k s.by_order_id w.order_keys,
    );
    slugs = λ k. ground (
      arith,
      w.slugs k,
      bucket-expire now ttl k s.by_slug w.slug_keys,
      keep-keep (has_slug k) (is_fresh now ttl) p,
    );
    order_keys = keep-Unique (λ x. is_fresh now ttl x.1) s.by_order_id w.order_keys;
    slug_keys = expire_buckets-Unique now ttl s.by_slug w.slug_keys;
    apart = Pairs-keep Apart (is_fresh now ttl) p w.apart;
    bounded = All-keep (λ r. r.id < s.next_id) (is_fresh now ttl) p w.bounded;
  }

  consume_by_order_id_found :
      (platform o : String) (result : R) (r : Registration) (s : FillRegistry R)
      → (o == "") ≡ false
      → r.platform ≡ platform
      → given r.order_id ≡ some o
      → lookup (platform, o) s.by_order_id ≡ some r
      → consume_by_order_id platform o result s ≡ (dropped r result s, some r)
  unfolding consume_by_order_id
  consume_by_order_id_found platform o result r s n same g e = ground (arith, n, e, g, same)

  pub consume_by_order_id-Shows :
      (platform o : String) (result : R) (s : FillRegistry R) (p : List Registration)
      → Shows s p
      → let (s', found) = consume_by_order_id platform o result s in
        let (p', r) = take_first (has_order (platform, o)) p in (found ≡ r) × Shows s' p'
  consume_by_order_id-Shows platform o result s p w =
      elim (Option-cases (first (has_order (platform, o)) p)) [
        | inl e ↦
            let gone : consume_by_order_id platform o result s ≡ (s, none) =
              unfold consume_by_order_id in ground (arith, e, w.orders (platform, o)) in
            rw (gone, take_first-none (has_order (platform, o)) p e) (refl, w)
        | inr (r, e) ↦
            let (t, h) =
              All-first {0} (λ x. Unit) (has_order (platform, o)) p r
                (All-every (λ x. Unit) p (λ x. tt)) e in
            let (same, g) = has_order_parts platform o r h in
            rw
              (
                consume_by_order_id_found platform o result r s (given_nonempty r.order_id o g) same
                    g (w.orders (platform, o) ∙ e),
                take_first-some (has_order (platform, o)) p r e,
              )
              (refl, dropped-Shows (has_order (platform, o)) r result s p w e)
      ]

  consume_by_slug_found :
      (platform t : String) (result : R) (r : Registration) (rest : List Registration)
      (s : FillRegistry R)
      → (t == "") ≡ false
      → r.platform ≡ platform
      → given r.slug ≡ some t
      → bucket (platform, t) s.by_slug ≡ r ∷ rest
      → consume_by_slug platform t result s ≡ (dropped r result s, some r)
  unfolding consume_by_slug remove
  consume_by_slug_found platform t result r rest s n same g e =
      ground (arith, n, e, g, same, eqb_iff r.id r.id)

  pub consume_by_slug-Shows :
      (platform t : String) (result : R) (s : FillRegistry R) (p : List Registration)
      → Shows s p
      → let (s', found) = consume_by_slug platform t result s in
        let (p', r) = take_first (has_slug (platform, t)) p in (found ≡ r) × Shows s' p'
  consume_by_slug-Shows platform t result s p w =
      elim (Option-cases (first (has_slug (platform, t)) p)) [
        | inl e ↦
            let gone : consume_by_slug platform t result s ≡ (s, none) =
              unfold consume_by_slug in
              ground (arith, e, w.slugs (platform, t), first-keep (has_slug (platform, t)) p) in
            rw (gone, take_first-none (has_slug (platform, t)) p e) (refl, w)
        | inr (r, e) ↦
            let (u, h) =
              All-first {0} (λ x. Unit) (has_slug (platform, t)) p r
                (All-every (λ x. Unit) p (λ x. tt)) e in
            let (same, g) = has_slug_parts platform t r h in
            let (rest, k) = listed_first (has_slug (platform, t)) p r e in
            rw
              (
                consume_by_slug_found platform t result r rest s (given_nonempty r.slug t g) same g
                    (w.slugs (platform, t) ∙ k),
                take_first-some (has_slug (platform, t)) p r e,
              )
              (refl, dropped-Shows (has_slug (platform, t)) r result s p w e)
      ]

  pub register-Shows :
      (now : ℕ) (arb_id : String) (leg_idx : ℕ) (platform : String) (slug order_id : Option String)
      (s : FillRegistry R) (p : List Registration)
      → Shows s p
      → let (s', r) = register now arb_id leg_idx platform slug order_id s in
        IsNew r p → Shows s' (p ++ r ∷ [])
  unfolding register
  register-Shows now arb_id leg_idx platform slug order_id s p w n =
      let r = (register now arb_id leg_idx platform slug order_id s).1 in
      let free : (k : IndexKey) → has_order k r ≡ true → first (has_order k) p ≡ none = λ k h.
        first_absent (has_order k) p (
          All-map (λ x. (k : IndexKey) → has_order k x ≡ true → has_order k r ≡ false)
            (λ x. has_order k x ≡ false) p
            (λ x f. elim (Bool-cases (has_order k x)) [
              | inl t ↦ absurd (ground (arith, f k t, h))
              | inr t ↦ t
            ])
            n) in
      record {
        orders = λ k. elim (Option-cases (given order_id)) [
          | inl e ↦ ground (arith, e, w.orders k, first-append (has_order k) p r)
          | inr (o, e) ↦ ground (
            arith,
            e,
            free k,
            w.orders k,
            first-append (has_order k) p r,
            lookup-insert (platform, o) k r s.by_order_id,
          )
        ];
        slugs = λ k. elim (Option-cases (given slug)) [
          | inl e ↦ ground (arith, e, w.slugs k, keep-append (has_slug k) p r)
          | inr (t, e) ↦
              let key : IndexKey = (platform, t) in
              ground (
                arith,
                e,
                w.slugs k,
                pair_same_iff key k,
                keep-append (has_slug k) p r,
                lookup-insert key k (bucket key s.by_slug ++ r ∷ []) s.by_slug,
              )
        ];
        order_keys = elim (Option-cases (given order_id)) [
          | inl e ↦ ground (arith, e, w.order_keys)
          | inr (o, e) ↦ ground (arith, e, insert-Unique (platform, o) r s.by_order_id w.order_keys)
        ];
        slug_keys = elim (Option-cases (given slug)) [
          | inl e ↦ ground (arith, e, w.slug_keys)
          | inr (t, e) ↦
              let key : IndexKey = (platform, t) in
              ground
                (arith, e, insert-Unique key (bucket key s.by_slug ++ r ∷ []) s.by_slug w.slug_keys)
        ];
        apart = Pairs-append Apart p r w.apart (
            All-both (λ x. x.id ≢ s.next_id)
              (λ x. (k : IndexKey) → has_order k x ≡ true → has_order k r ≡ false) p
              (All-map (λ x. x.id < s.next_id) (λ x. x.id ≢ s.next_id) p (λ x h. ground arith)
                w.bounded)
              n);
        bounded =
            All-append (λ x. x.id < suc s.next_id) p (r ∷ [])
              (All-map (λ x. x.id < s.next_id) (λ x. x.id < suc s.next_id) p (λ x h. ground arith)
                w.bounded)
              (ground arith, tt);
      }
