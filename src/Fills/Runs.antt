-- ===== src/Fills/Runs.antt =====
-- Whole runs of the registry of fills, by any interleaving of its callers' calls.
use polymarket_radar.Base.{
  ℕ, suc, ◌≡◌, refl, String, Option, none, List, [], ◌∷◌, ◌++◌, arith, keep, string_key, pair_key,
}
use polymarket_radar.Base.Dict.{lookup}
use polymarket_radar.Fills.{
  Registration, FillRegistry, is_fresh, register, consume_by_order_id, consume_by_slug,
  expire_stale,
}
use polymarket_radar.Fills.Pending.{has_order, has_slug, first, take_first}
use polymarket_radar.Fills.Refines.{
  Shows, IsNew, expire_stale-Shows, consume_by_order_id-Shows, consume_by_slug-Shows,
  register-Shows,
}

-- A call on the registry.
pub data Call (R : Type 0) : Type 0 where
  registers : ℕ → String → ℕ → String → Option String → Option String → Call R
  fills_order : String → String → R → Call R
  fills_slug : String → String → R → Call R
  expires : ℕ → ℕ → Call R

module _ {R : Type 0} where
  -- `FillRegistry()`
  abbrev pub empty_registry : FillRegistry R
  empty_registry = record { by_order_id = []; by_slug = []; delivered = []; next_id = 0 }

  -- A call, with the registration that it finds filled.
  unfoldable pub step : Call R → FillRegistry R → FillRegistry R × Option Registration
  step (registers now arb_id leg_idx platform slug order_id) s =
      ((register now arb_id leg_idx platform slug order_id s).0, none)
  step (fills_order platform o result) s = consume_by_order_id platform o result s
  step (fills_slug platform t result) s = consume_by_slug platform t result s
  step (expires now ttl) s = ((expire_stale now ttl s).0, none)

  -- The registrations that a run finds filled, in order.
  unfoldable pub found_by : List (Call R) → FillRegistry R → List (Option Registration)
  found_by [] s = []
  found_by (c ∷ cs) s = (step c s).1 ∷ found_by cs (step c s).0

-- The list of those that wait, and the number of registrations so far.
pub record Waiting : Type 0 where
  pub list : List Registration
  pub number : ℕ

abbrev pub nothing : Waiting
nothing = record { list = []; number = 0 }

module _ {R : Type 0} where
  -- The same calls on the one list.
  unfoldable pub spec_step : Call R → Waiting → Waiting × Option Registration
  spec_step (registers now arb_id leg_idx platform slug order_id) w = (
    record {
      list =
          w.list
          ++ record {
            id = w.number;
            arb_id = arb_id;
            leg_idx = leg_idx;
            platform = platform;
            slug = slug;
            order_id = order_id;
            registered_at = now;
          }
            ∷ [];
      number = suc w.number;
    },
    none,
  )
  spec_step (fills_order platform o result) w =
      let (rest, r) = take_first (has_order (platform, o)) w.list in (record w { list = rest }, r)
  spec_step (fills_slug platform t result) w =
      let (rest, r) = take_first (has_slug (platform, t)) w.list in (record w { list = rest }, r)
  spec_step (expires now ttl) w = (record w { list = keep (is_fresh now ttl) w.list }, none)

  unfoldable pub spec_found : List (Call R) → Waiting → List (Option Registration)
  spec_found [] w = []
  spec_found (c ∷ cs) w = (spec_step c w).1 ∷ spec_found cs (spec_step c w).0

  -- The exchange gives no new leg the order id of one that waits.
  abbrev pub IsNewFor : Call R → Waiting → Type 0
  IsNewFor (registers now arb_id leg_idx platform slug order_id) w =
      IsNew
        (record {
          id = w.number;
          arb_id = arb_id;
          leg_idx = leg_idx;
          platform = platform;
          slug = slug;
          order_id = order_id;
          registered_at = now;
        })
        w.list
  IsNewFor _ w = Unit

  unfoldable pub AreNew : List (Call R) → Waiting → Type 0
  AreNew [] w = Unit
  AreNew (c ∷ cs) w = IsNewFor c w × AreNew cs (spec_step c w).0

  abbrev Implements : FillRegistry R → Waiting → Type 0
  Implements s w = Shows s w.list × (s.next_id ≡ w.number)

  step-Implements :
      (c : Call R) (s : FillRegistry R) (w : Waiting)
      → Implements s w
      → IsNewFor c w
      → ((step c s).1 ≡ (spec_step c w).1) × Implements (step c s).0 (spec_step c w).0
  unfolding step spec_step
  step-Implements (registers now arb_id leg_idx platform slug order_id) s w i n =
      unfold register in
      let sh = register-Shows now arb_id leg_idx platform slug order_id s w.list i.0 n in
      rw (← i.1) (refl, (sh, refl))
  step-Implements (fills_order platform o result) s w i n =
      let (e, sh) = consume_by_order_id-Shows platform o result s w.list i.0 in
      (e, (sh, unfold consume_by_order_id in ground (arith, i.1)))
  step-Implements (fills_slug platform t result) s w i n =
      let (e, sh) = consume_by_slug-Shows platform t result s w.list i.0 in
      (e, (sh, unfold consume_by_slug in ground (arith, i.1)))
  step-Implements (expires now ttl) s w i n =
      (refl, (expire_stale-Shows now ttl s w.list i.0, unfold expire_stale in ground (arith, i.1)))

  found_by-Implements :
      (cs : List (Call R)) (s : FillRegistry R) (w : Waiting)
      → Implements s w
      → AreNew cs w
      → found_by cs s ≡ spec_found cs w
  unfolding found_by spec_found AreNew
  found_by-Implements [] s w i n = refl
  found_by-Implements (c ∷ cs) s w i n =
      let (e, i') = step-Implements c s w i n.0 in
      rw (e, found_by-Implements cs (step c s).0 (spec_step c w).0 i' n.1)

  empty_registry-Shows : Shows {R = R} empty_registry []
  unfolding first lookup
  empty_registry-Shows = record {
    orders = λ k. refl;
    slugs = λ k. refl;
    order_keys = tt;
    slug_keys = tt;
    apart = tt;
    bounded = tt;
  }

  -- From the empty registry, every run of calls finds the same registrations filled, in the same
  -- order, as the run on the one list of waiting legs, where a fill with an order id takes out the leg
  -- with that id, a fill with a market takes out the oldest leg on that market, and the expiry drops
  -- the old legs; provided that no leg is registered with the order id of one that waits.
  pub fills_refine :
      (cs : List (Call R)) → AreNew cs nothing → found_by cs empty_registry ≡ spec_found cs nothing
  fills_refine cs n = found_by-Implements cs empty_registry nothing (empty_registry-Shows, refl) n
