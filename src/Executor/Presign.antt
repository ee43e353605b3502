-- ===== src/Executor/Presign.antt =====
-- Scripts/executor/presign.py: the cache of signed orders, each bundle used at most once. The two
-- locks make each call one step.
pub mod Single
pub mod Roundtrip
use polymarket_radar.Base.{
  ℕ, suc, ◌+◌, String, Bool, true, false, Option, none, some, List, [], ◌∷◌, ◌++◌, length, keep,
  any, is_empty, ltb, leb, if◌then◌else◌, ◌==◌, string_key, ◌<>◌, map,
}
use polymarket_radar.Base.Dict.{Dict, lookup, insert, erase}

-- `PreSignedBundle`, by the type of a signed order.
pub record PreSignedBundle (Order : Type 0) : Type 0 where
  pub signed_orders : Dict String (List Order)
  pub expires_at : ℕ
  pub wallets_used : List String

-- `_stats`
pub record Stats : Type 0 where
  pub presigned_total : ℕ
  pub cache_hits : ℕ
  pub cache_misses : ℕ
  pub cache_expired : ℕ
  pub presign_failures : ℕ

-- `_cache` and `_stats`
pub record Presigned (Order : Type 0) : Type 0 where
  pub cache : Dict String (PreSignedBundle Order)
  pub stats : Stats

-- `cand_id_for_deal`, with `?` for what is missing.
pub cand_id_for_deal : Option String → Option String → Option String → String
cand_id_for_deal platform title structure =
    let text : Option String → String = λ o. elim o [ none ↦ "?" | some s ↦ s ] in
    text platform <> "::" <> text title <> "::" <> text structure

module _ {Order : Type 0} where
  abbrev missed : Presigned Order → Presigned Order
  missed s = record s { stats = record s.stats { cache_misses = suc s.stats.cache_misses } }

  -- `consume_presigned`, at the time `now`.
  unfoldable pub consume_presigned :
      ℕ → String → String → Presigned Order → Presigned Order × Option (List Order)
  consume_presigned now id structure s = elim (lookup id s.cache) [
    | none ↦ (missed s, none)
    | some b ↦
        if ltb now b.expires_at
        then elim (lookup structure b.signed_orders) [
          | none ↦ (missed s, none)
          | some orders ↦ (
            record s {
              cache = erase id s.cache;
              stats = record s.stats { cache_hits = suc s.stats.cache_hits };
            },
            some orders,
          )
        ]
        else (
          record s {
            cache = erase id s.cache;
            stats = record s.stats {
              cache_misses = suc s.stats.cache_misses;
              cache_expired = suc s.stats.cache_expired;
            };
          },
          none,
        )
  ]

  -- `evict_expired`, with the number of bundles that it removes.
  pub evict_expired : ℕ → Presigned Order → Presigned Order × ℕ
  evict_expired now s = (
    record s { cache = keep (λ x. ltb now x.1.expires_at) s.cache },
    length (keep (λ x. leb x.1.expires_at now) s.cache),
  )

  -- `clear_cache`
  pub clear_cache : Presigned Order → Presigned Order × ℕ
  clear_cache s = (record s { cache = [] }, length s.cache)

-- `TTL_SECONDS`
abbrev pub ttl_seconds : ℕ
ttl_seconds = 8

-- `builders.build_poly_order` on one leg and one wallet address, without a result where it raises.
module _ {Spec Order : Type 0} (build : Spec → String → Option Order) where
  -- The loop over the legs of one structure: the addresses used, and the orders if all are signed.
  unfoldable pub sign_legs :
      List Spec → List String → List String → List String × Option (List Order)
  sign_legs [] ws addrs = (addrs, some [])
  sign_legs (spec ∷ specs) [] addrs = (addrs, none)
  sign_legs (spec ∷ specs) (w ∷ ws) addrs =
      let addrs' = if any (λ a. a == w) addrs then addrs else addrs ++ w ∷ [] in
      let (addrs'', rest) = sign_legs specs ws addrs' in
      elim (build spec w) [
        | none ↦ (addrs, none)
        | some order ↦ (addrs'', elim rest [ none ↦ none | some orders ↦ some (order ∷ orders) ])
      ]

  -- `wallet_assignments.get(struct_key) or []`
  abbrev pub wallets_for : String → Dict String (List String) → List String
  wallets_for key assignments = elim (lookup key assignments) [ none ↦ [] | some ws ↦ ws ]

  -- The loop over the structures.
  unfoldable pub sign_structures :
      Dict String (List Spec)
      → Dict String (List String)
      → List String
      → Dict String (List Order)
      → List String × Dict String (List Order)
  unfolding sign_legs
  sign_structures [] assignments addrs bundle = (addrs, bundle)
  sign_structures ((key, specs) ∷ rest) assignments addrs bundle =
      let ws = wallets_for key assignments in
      let (addrs', signed) = sign_legs specs ws addrs in
      if ltb (length ws) (length specs)
      then sign_structures rest assignments addrs bundle
      else elim signed [
        | none ↦ sign_structures rest assignments addrs' bundle
        | some orders ↦
            if is_empty orders
            then sign_structures rest assignments addrs' bundle
            else sign_structures rest assignments addrs' (insert key orders bundle)
      ]

  -- `pre_sign_for_near_candidate`
  unfoldable pub pre_sign_for_near_candidate :
      ℕ
      → String
      → String
      → Dict String (List Spec)
      → Dict String (List String)
      → Presigned Order
      → Presigned Order × Bool
  unfolding sign_structures
  pre_sign_for_near_candidate now id platform structure_orders assignments s =
      let (addrs, bundle) = sign_structures structure_orders assignments [] [] in
      if platform == "polymarket"
      then if is_empty bundle
        then (
          record s { stats = record s.stats { presign_failures = suc s.stats.presign_failures } },
          false,
        )
        else (
          record s {
            cache =
                insert id
                  (record {
                    signed_orders = bundle;
                    expires_at = now + ttl_seconds;
                    wallets_used = addrs;
                  })
                  s.cache;
            stats = record s.stats { presigned_total = suc s.stats.presigned_total };
          },
          true,
        )
      else (s, false)
