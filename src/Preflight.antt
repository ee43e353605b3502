-- ===== src/Preflight.antt =====
-- Scripts/preflight.py: the checks of balance, allowance and depth before an arb is fired. An amount is
-- in units of $0.000001, the token's own, and a time in ms.
pub mod Cached
pub mod Sound
mod Tests
use polymarket_radar.Base.{
  ℕ, suc, ◌+◌, ◌-◌, String, Bool, true, false, not, ◌&&◌, Option, none, some, List, [], ◌∷◌, ◌++◌,
  keep, length, ltb, leb, if◌then◌else◌, ◌==◌, string_key, pair_key,
}
use polymarket_radar.Base.Dict.{Dict, lookup, insert}

-- A key of `_BAL_CACHE`: an address, `balance` or `allowance`, and a spender.
abbrev pub CacheKey : Type 0
CacheKey = String × (String × String)

-- `_BAL_CACHE`
abbrev pub Cache : Type 0
Cache = Dict CacheKey (ℕ × ℕ)

-- `_ttl_for_kind`
unfoldable pub ttl_for_kind : String → ℕ
ttl_for_kind kind = if kind == "balance" then 2000 else 600000

-- `_cache_get`
unfoldable pub cache_get : ℕ → CacheKey → Cache → Option ℕ
cache_get now key cache = elim (lookup key cache) [
  | none ↦ none
  | some entry ↦ if ltb (entry.1 + ttl_for_kind key.1.0) now then none else some entry.0
]

-- `_cache_put`
abbrev pub cache_put : ℕ → CacheKey → ℕ → Cache → Cache
cache_put now key val cache = insert key (val, now) cache

-- `str.lower`
module _ (lower : String → String) where
  abbrev pub key_of : String → String → String → CacheKey
  key_of address kind spender = (lower address, (kind, lower spender))

  -- `_read_chain` of a balance or an allowance, where `chain` is what the chain answers, if it does.
  unfoldable pub read_chain : ℕ → String → String → String → Option ℕ → Cache → Cache × Option ℕ
  unfolding cache_get
  read_chain now address kind spender chain cache =
      elim (cache_get now (key_of address kind spender) cache) [
        | some v ↦ (cache, some v)
        | none ↦ elim chain [
          | none ↦ (cache, none)
          | some v ↦ (cache_put now (key_of address kind spender) v cache, some v)
        ]
      ]

  -- `invalidate_balance_cache`
  unfoldable pub invalidate_balance_cache : Option String → Cache → Cache
  invalidate_balance_cache none cache = keep (λ x. not (x.0.1.0 == "balance")) cache
  invalidate_balance_cache (some address) cache =
      if address == ""
      then keep (λ x. not (x.0.1.0 == "balance")) cache
      else keep (λ x. not (x.0.0 == lower address && x.0.1.0 == "balance")) cache

-- `check_balance`, `check_balance_for_platform` and `check_allowance`, on what could be read: whether
-- the check passes.
abbrev pub check_amount : Option ℕ → ℕ → Bool
check_amount none required = true
check_amount (some have) required = not (ltb have required)

-- `check_depth`
pub check_depth : ℕ → ℕ → Bool
check_depth stake liquidity = if leb liquidity 0 then false else not (ltb liquidity stake)

pub record PreflightLeg : Type 0 where
  pub stake : ℕ
  pub liquidity : ℕ
  pub platform : String
  pub neg_risk : Bool

pub data CheckName : Type 0 where
  depth : CheckName
  balance : CheckName
  allowance : CheckName

-- An entry of `failures` or `warnings`.
pub data Remark : Type 0 where
  pool_too_small : Remark
  on_leg : ℕ → CheckName → Remark

-- `PreflightResult`
pub record PreflightResult : Type 0 where
  pub ok : Bool
  pub failures : List Remark
  pub warnings : List Remark

pub record Skips : Type 0 where
  pub skip_balance : Bool
  pub skip_allowance : Bool
  pub skip_depth : Bool

abbrev pub fail : Remark → PreflightResult → PreflightResult
fail r res = record res { ok = false; failures = res.failures ++ r ∷ [] }

-- What is done with the value that a balance or allowance check read.
abbrev pub note_check : Remark → Option ℕ → ℕ → PreflightResult → PreflightResult
note_check r none stake res = record res { warnings = res.warnings ++ r ∷ [] }
note_check r (some v) stake res = if check_amount (some v) stake then res else fail r res

-- `leg.get('platform') or 'Polymarket'`
abbrev pub platform_of : PreflightLeg → String
platform_of leg = if leg.platform == "" then "Polymarket" else leg.platform

-- What the reads for a leg answer, by the address, the platform and whether the market is neg-risk; the
-- cache that they go through is modelled above.
module _ (balance_of : String → String → Option ℕ) (allowance_of : String → Bool → Option ℕ)
    (skips : Skips) where
  abbrev pub depth_step : ℕ → PreflightLeg → PreflightResult → PreflightResult
  depth_step i leg res =
      if skips.skip_depth
      then res
      else if check_depth leg.stake leg.liquidity
      then res
      else fail (on_leg i depth) res

  abbrev pub balance_step : ℕ → PreflightLeg → String → PreflightResult → PreflightResult
  balance_step i leg address res =
      if skips.skip_balance
      then res
      else note_check (on_leg i balance) (balance_of address (platform_of leg)) leg.stake res

  abbrev pub allowance_step : ℕ → PreflightLeg → String → PreflightResult → PreflightResult
  allowance_step i leg address res =
      if not skips.skip_allowance && platform_of leg == "Polymarket"
      then note_check (on_leg i allowance) (allowance_of address leg.neg_risk) leg.stake res
      else res

  -- The loop over the legs and their wallets' addresses.
  unfoldable pub check_legs :
      ℕ → List PreflightLeg → List String → PreflightResult → PreflightResult
  check_legs i [] addresses res = res
  check_legs i (leg ∷ legs) [] res = res
  check_legs i (leg ∷ legs) (address ∷ addresses) res =
      check_legs (suc i) legs addresses
        (allowance_step i leg address (balance_step i leg address (depth_step i leg res)))

  -- `preflight_arb`
  unfoldable pub preflight_arb : List PreflightLeg → List String → PreflightResult
  unfolding check_legs
  preflight_arb legs addresses =
      if ltb (length addresses) (length legs)
      then record { ok = false; failures = pool_too_small ∷ []; warnings = [] }
      else check_legs 0 legs addresses (record { ok = true; failures = []; warnings = [] })
