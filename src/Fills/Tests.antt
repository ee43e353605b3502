-- ===== src/Fills/Tests.antt =====
-- The theorems on the registry of fills at a concrete run.
use polymarket_radar.Base.{◌≡◌, refl, String, none, some, List, [], ◌∷◌}
use polymarket_radar.Fills.Runs.{
  Call, registers, fills_order, fills_slug, expires, nothing, empty_registry, found_by, spec_found,
  AreNew, spec_step, fills_refine,
}
use polymarket_radar.Fills.Once.{AreOnce, filled_once}

-- Two legs of an arb on one market, the second without an order id; two settlements of the market and
-- a fill with the first's order id.
abbrev calls : List (Call String)
calls =
    registers 0 "arb" 0 "limitless" (some "btc") (some "0x1")
    ∷ registers 5 "arb" 1 "limitless" (some "btc") none
    ∷ fills_slug "limitless" "btc" "settled"
    ∷ fills_order "limitless" "0x1" "filled"
    ∷ expires 20 30
    ∷ fills_slug "limitless" "btc" "settled"
    ∷ []

calls-AreNew : AreNew calls nothing
unfolding AreNew spec_step
calls-AreNew = (tt, (((λ k h. refl), tt), (tt, (tt, (tt, (tt, tt))))))

fills_refine_example : found_by calls empty_registry ≡ spec_found calls nothing
fills_refine_example = fills_refine calls calls-AreNew

filled_once_example : AreOnce (found_by calls empty_registry)
filled_once_example = filled_once calls calls-AreNew
