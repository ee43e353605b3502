-- ===== src/Executor/Legs.antt =====
-- Scripts/executor/atomic.py: the result of one leg, live and in dry run, and the check of all legs
-- for an arb that is broken. Prices are in ten-thousandths of a dollar.
pub mod Broken
use polymarket_radar.Base.{
  ℕ, ◌+◌, ◌-◌, String, Bool, true, false, not, ◌&&◌, ◌||◌, Option, none, some, List, [], ◌∷◌, map,
  keep, any, is_empty, eqb, ltb, if◌then◌else◌,
}

-- The values of `LegResult.status` that the code writes or reads.
pub data Status : Type 0 where
  dry_fired : Status
  filled : Status
  filled_with_slippage : Status
  partial : Status
  rejected : Status
  disabled : Status
  timeout : Status
  cancelled : Status
  slippage_cancelled : Status
  maker_timeout : Status
  adverse_cancelled : Status

-- A built order, by what the firing of a leg reads of it.
pub record Built : Type 0 where
  pub disabled_reason : Option String
  pub expected_price : ℕ
  pub partial_fill : Bool

-- The answer to the POST of an order: a code with a body that parses, or an exception.
pub data Post : Type 0 where
  answered : ℕ → Post
  raised : Post

-- The result of a fill: `fill_price`, and `price` where it is a number.
pub record Fill : Type 0 where
  pub fill_price : Option ℕ
  pub price : Option ℕ

-- What a live leg meets: its order, the answer to it, and the fill that is confirmed before the
-- dead-man's time is over, if one is.
pub record Leg : Type 0 where
  pub built : Option Built
  pub post : Post
  pub fill : Option Fill

-- `r.status_code in (200, 201, 202)`
abbrev pub is_ok : Post → Bool
is_ok raised = false
is_ok (answered code) = eqb code 200 || eqb code 201 || eqb code 202

-- `fp`
abbrev pub price_of : Fill → Option ℕ
price_of f = elim f.fill_price [ some p ↦ some p | none ↦ f.price ]

-- `fp is not None and abs(fp - exp) > SLIPPAGE_TOLERANCE`
abbrev pub slips : ℕ → ℕ → Fill → Bool
slips tolerance expected f = elim (price_of f) [
  | none ↦ false
  | some p ↦ ltb tolerance ((p - expected) + (expected - p))
]

-- The part of `_fire_one_leg_live` after an order was built.
unfoldable pub send_leg : ℕ → Built → Leg → Status × Bool
send_leg tolerance b l = elim b.disabled_reason [
  | some reason ↦ (disabled, false)
  | none ↦ if not (is_ok l.post) then (rejected, false) else elim l.fill [
    | none ↦ (timeout, false)
    | some f ↦
        if slips tolerance b.expected_price f then (filled_with_slippage, false) else (filled, true)
  ]
]

-- `_fire_one_leg_live`: the status, and whether a row goes to positions.jsonl.
unfoldable pub fire_one_leg_live : ℕ → Leg → Status × Bool
unfolding send_leg
fire_one_leg_live tolerance l = elim l.built [
  | none ↦ (rejected, false)
  | some b ↦ send_leg tolerance b l
]

-- `_fire_one_leg_dryrun`
pub fire_one_leg_dryrun : Option Built → Status
fire_one_leg_dryrun none = rejected
fire_one_leg_dryrun (some b) = elim b.disabled_reason [
  | some reason ↦ disabled
  | none ↦ if b.partial_fill then partial else dry_fired
]

abbrev pub is_partial : Status → Bool
is_partial partial = true
is_partial _ = false

-- Whether `failed_legs` takes a leg.
abbrev pub is_failed : Status → Bool
is_failed rejected = true
is_failed timeout = true
is_failed cancelled = true
is_failed disabled = true
is_failed slippage_cancelled = true
is_failed filled_with_slippage = true
is_failed maker_timeout = true
is_failed adverse_cancelled = true
is_failed _ = false

-- Whether `filled_legs`, and the revert, take a leg.
abbrev pub is_filled : Status → Bool
is_filled filled = true
is_filled filled_with_slippage = true
is_filled _ = false

-- `arb_broken`
unfoldable pub arb_broken : List Status → Bool
arb_broken legs = any is_partial legs || any is_failed legs && any is_filled legs

-- The legs that `revert_filled_legs` walks back, by their numbers from `i` on.
pub reverted_legs : ℕ → List Status → List ℕ
reverted_legs i [] = []
reverted_legs i (s ∷ rest) =
    let more = reverted_legs (1 + i) rest in if is_filled s then i ∷ more else more
