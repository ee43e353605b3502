-- ===== src/Fills.antt =====
-- Scripts/executor/fills.py: the registry of the legs that wait for a fill. The registry's lock makes
-- each call one step. A registration is an object that both indices share, so it has an identity, and
-- setting its event with a result is an entry of `delivered`. The key of an index, written
-- `{platform}:{id}` in the source, is the pair: no platform's name has a colon. No caller registers
-- an `on_fill` callback, which is left out.
pub mod Pending
pub mod Indices
pub mod Refines
pub mod Runs
pub mod Once
mod Tests
use polymarket_radar.Base.{
  ℕ, suc, ◌+◌, ◌-◌, String, Bool, true, false, Option, none, some, List, [], ◌∷◌, ◌++◌, length,
  keep, is_empty, eqb, leb, ltb, if◌then◌else◌, ◌==◌, string_key, nat_key, pair_key,
}
use polymarket_radar.Base.Dict.{Dict, lookup, insert, erase}

-- `FillRegistration`
pub record Registration : Type 0 where
  pub id : ℕ
  pub arb_id : String
  pub leg_idx : ℕ
  pub platform : String
  pub slug : Option String
  pub order_id : Option String
  pub registered_at : ℕ

abbrev pub IndexKey : Type 0
IndexKey = String × String

-- `FillRegistry`
pub record FillRegistry (R : Type 0) : Type 0 where
  pub by_order_id : Dict IndexKey Registration
  pub by_slug : Dict IndexKey (List Registration)
  pub delivered : Dict ℕ R
  pub next_id : ℕ

-- A text that is given and not empty.
abbrev pub given : Option String → Option String
given none = none
given (some s) = if s == "" then none else some s

-- `self._by_slug.get(key) or []`
abbrev pub bucket : IndexKey → Dict IndexKey (List Registration) → List Registration
bucket k d = elim (lookup k d) [ none ↦ [] | some b ↦ b ]

-- `bucket.remove(reg)`
unfoldable pub remove : ℕ → List Registration → List Registration
remove i [] = []
remove i (r ∷ rs) = let rest = remove i rs in if eqb r.id i then rs else r ∷ rest

-- A bucket that has become empty is popped.
abbrev pub store_bucket :
    IndexKey
    → List Registration
    → Dict IndexKey (List Registration)
    → Dict IndexKey (List Registration)
store_bucket k b d = if is_empty b then erase k d else insert k b d

-- `registered_at >= cutoff`, where the cutoff is `ttl` before `now`.
abbrev pub is_fresh : ℕ → ℕ → Registration → Bool
is_fresh now ttl r = leb now (r.registered_at + ttl)

-- The second loop of `expire_stale`, with the number of entries dropped.
unfoldable pub expire_buckets :
    ℕ → ℕ → Dict IndexKey (List Registration) → Dict IndexKey (List Registration) × ℕ
expire_buckets now ttl [] = ([], 0)
expire_buckets now ttl ((k, b) ∷ d) =
    let kept = keep (is_fresh now ttl) b in
    let (d', purged) = expire_buckets now ttl d in
    if is_empty kept
    then (d', length b + purged)
    else ((k, kept) ∷ d', (length b - length kept) + purged)

module _ {R : Type 0} where
  -- `register`, at the time `now`.
  unfoldable pub register :
      ℕ
      → String
      → ℕ
      → String
      → Option String
      → Option String
      → FillRegistry R
      → FillRegistry R × Registration
  register now arb_id leg_idx platform slug order_id s =
      let reg : Registration = record {
        id = s.next_id;
        arb_id = arb_id;
        leg_idx = leg_idx;
        platform = platform;
        slug = slug;
        order_id = order_id;
        registered_at = now;
      } in
      (
        record s {
          by_order_id = elim (given order_id) [
            | none ↦ s.by_order_id
            | some o ↦ insert (platform, o) reg s.by_order_id
          ];
          by_slug = elim (given slug) [
            | none ↦ s.by_slug
            | some k ↦ insert (platform, k) (bucket (platform, k) s.by_slug ++ reg ∷ []) s.by_slug
          ];
          next_id = suc s.next_id;
        },
        reg,
      )

  -- `consume_by_order_id`
  unfoldable pub consume_by_order_id :
      String → String → R → FillRegistry R → FillRegistry R × Option Registration
  unfolding remove
  consume_by_order_id platform order_id result s =
      if order_id == "" then (s, none) else elim (lookup (platform, order_id) s.by_order_id) [
        | none ↦ (s, none)
        | some reg ↦ (
          record s {
            by_order_id = erase (platform, order_id) s.by_order_id;
            by_slug = elim (given reg.slug) [
              | none ↦ s.by_slug
              | some k ↦
                  store_bucket (platform, k) (remove reg.id (bucket (platform, k) s.by_slug))
                    s.by_slug
            ];
            delivered = insert reg.id result s.delivered;
          },
          some reg,
        )
      ]

  -- `consume_by_slug`
  unfoldable pub consume_by_slug :
      String → String → R → FillRegistry R → FillRegistry R × Option Registration
  consume_by_slug platform slug result s =
      if slug == "" then (s, none) else elim (bucket (platform, slug) s.by_slug) [
        | [] ↦ (s, none)
        | reg ∷ rest ↦ (
          record s {
            by_slug = store_bucket (platform, slug) rest s.by_slug;
            by_order_id = elim (given reg.order_id) [
              | none ↦ s.by_order_id
              | some o ↦ erase (platform, o) s.by_order_id
            ];
            delivered = insert reg.id result s.delivered;
          },
          some reg,
        )
      ]

  -- `expire_stale`
  unfoldable pub expire_stale : ℕ → ℕ → FillRegistry R → FillRegistry R × ℕ
  unfolding expire_buckets
  expire_stale now ttl s =
      let (d', purged) = expire_buckets now ttl s.by_slug in
      let kept = keep (λ x. is_fresh now ttl x.1) s.by_order_id in
      (record s { by_order_id = kept; by_slug = d' }, (length s.by_order_id - length kept) + purged)

  -- `pending_count`
  pub pending_count : FillRegistry R → ℕ
  pending_count s = length s.by_order_id
