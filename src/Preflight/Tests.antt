-- ===== src/Preflight/Tests.antt =====
-- The theorems on the preflight at a concrete arb.
use polymarket_radar.Base.{
  ℕ, ◌≤◌, ◌≡◌, ◌↔◌, refl, String, Bool, true, false, Option, none, some, List, [], ◌∷◌, ◌==◌,
  string_key, str_apart, pair_key, if◌then◌else◌,
}
use polymarket_radar.Base.Dict.{lookup}
use polymarket_radar.Preflight.{
  Cache, read_chain, ttl_for_kind, invalidate_balance_cache, PreflightLeg, Skips, preflight_arb,
}
use polymarket_radar.Preflight.Cached.{invalidate-read_chain}
use polymarket_radar.Preflight.Sound.{LegsPass, preflight_arb_lem}

abbrev low : String → String
low s = if s == "0xA" then "0xa" else s

abbrev cache : Cache
cache = (("0xa", ("balance", "")), (40, 5000)) ∷ []

reads_cached : (read_chain low 6000 "0xA" "balance" "" (some 30) cache).1 ≡ some 40
unfolding read_chain lookup ttl_for_kind
reads_cached = refl

invalidate-read_chain_example :
    (read_chain low 6000 "0xA" "balance" ""
      (some 30)
      (invalidate_balance_cache low (some "0xa") cache)).1
    ≡ some 30
invalidate-read_chain_example =
    invalidate-read_chain low 6000 "0xA" "0xa" "" (some 30) cache (str_apart "0xa" "" refl) refl

abbrev leg : String → PreflightLeg
leg p = record { stake = 20; liquidity = 50; platform = p; neg_risk = false }

abbrev two_legs : List PreflightLeg
two_legs = leg "" ∷ leg "Limitless" ∷ []

abbrev balances : String → String → Option ℕ
balances address platform = if address == "0xa" then some 10 else none

abbrev allowances : String → Bool → Option ℕ
allowances address neg_risk = some 1000

abbrev no_skips : Skips
no_skips = record { skip_balance = false; skip_allowance = false; skip_depth = false }

preflight_arb_lem_example :
    ((preflight_arb balances allowances no_skips two_legs ("0xa" ∷ "0xb" ∷ [])).ok ≡ true)
    ↔ ((2 ≤ 2) × LegsPass balances allowances no_skips two_legs ("0xa" ∷ "0xb" ∷ []))
preflight_arb_lem_example =
    preflight_arb_lem balances allowances no_skips two_legs ("0xa" ∷ "0xb" ∷ [])
