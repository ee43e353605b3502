-- ===== src/Deals/Build.antt =====
-- Scripts/radar/fees.py and build_deal.py: the fee of a leg, the stakes of a deal and what it nets. An
-- amount and a price are in units of $0.0001, a fee rate in 1/10000. What a division gives is an exact
-- fraction. The stake of a leg is rounded to cents; the rounding of the other figures is left out.
pub mod Stakes
pub mod Profit
use polymarket_radar.Base.{
  ℕ, ◌+◌, ◌-◌, ◌*◌, min, max, String, Bool, true, false, not, ◌&&◌, ◌||◌, Option, none, some, List,
  [], ◌∷◌, length, ltb, leb, if◌then◌else◌, ◌==◌, string_key, round_div,
}
use polymarket_radar.Base.Frac.{Frac, whole, ◌+/◌, ◌*/◌, ◌//◌, ltb_frac}

-- $1
abbrev pub usd : ℕ
usd = 10000

-- `calc_fee`: the test that the platform's name in lower case begins with `kalshi` is an argument.
unfoldable pub calc_fee : Bool → ℕ → Frac → ℕ → Frac
calc_fee is_kalshi price contracts theta =
    let p = max 10 (min 9990 price) in
    if is_kalshi
    then record { num = theta * contracts.num * p * (usd - p); den = contracts.den * (usd * usd) }
    else record { num = theta * contracts.num * p; den = contracts.den * usd }

-- An outcome that a leg buys.
pub record DealOutcome : Type 0 where
  pub name : String
  pub price : ℕ
  pub liquidity : ℕ
  pub source : String

-- `REAL_OB_SOURCES`
abbrev pub is_real_source : String → Bool
is_real_source s =
    s == "clob_ask" || s == "kalshi_ob" || s == "sx_ob" || s == "lim_clob" || s == "clob_synthetic"

-- The configuration: `BALANCE`, `MAX_PER_TRADE_USD` and `MIN_LEG_LIQ_USD`.
pub record Sizing : Type 0 where
  pub balance : ℕ
  pub per_trade_cap : ℕ
  pub min_leg_liq : ℕ

abbrev pub lower_liq : ℕ → Option ℕ → Option ℕ
lower_liq l none = some l
lower_liq l (some m) = some (min l m)

-- The loop that finds the smallest liquidity that is not 0.
unfoldable pub least_liq : List DealOutcome → Option ℕ
least_liq [] = none
least_liq (o ∷ os) =
    let rest = least_liq os in if ltb 0 o.liquidity then lower_liq o.liquidity rest else rest

abbrev pub or_zero : Option ℕ → ℕ
or_zero none = 0
or_zero (some l) = l

abbrev pub min_liq_of : List DealOutcome → ℕ
min_liq_of os = or_zero (least_liq os)

unfoldable pub max_price : List DealOutcome → ℕ
max_price [] = 0
max_price (o ∷ os) = max o.price (max_price os)

-- `max_share`: the shares have one denominator. With no outcome it is 0, where the code raises an error.
abbrev pub max_share_of : List DealOutcome → ℕ → Frac
max_share_of os total = if ltb 0 total then record { num = max_price os; den = total } else whole 0

-- `scale_factor` by liquidity.
abbrev pub liquidity_scale : ℕ → ℕ → Frac → Frac
liquidity_scale balance min_liq max_share =
    let max_stake = whole balance */ max_share in
    if ltb 0 min_liq
    then if ltb_frac (whole min_liq) max_stake then whole min_liq // max_stake else whole 1
    else record { num = 1; den = 10 }

-- `scale_factor` by the cap for one leg.
abbrev pub capped_scale : ℕ → ℕ → Frac → Frac → Frac
capped_scale balance cap max_share scale =
    if ltb 0 max_share.num
    then if ltb_frac (whole cap) (whole balance */ scale */ max_share)
      then whole cap // (whole balance */ max_share)
      else scale
    else scale

-- `actual_balance`
unfoldable pub actual_balance : Sizing → List DealOutcome → ℕ → Frac
unfolding least_liq max_price
actual_balance c os total =
    let share = max_share_of os total in
    whole c.balance
    */ capped_scale c.balance c.per_trade_cap share
        (liquidity_scale c.balance (min_liq_of os) share)

-- `gross`: where the total is above the payout the code has a negative number, which the test of the
-- net profit refuses like this 0.
abbrev pub gross_of : Frac → ℕ → ℕ → Frac
gross_of actual payout total =
    if ltb 0 total
    then record { num = actual.num * (payout - total); den = actual.den * total }
    else whole 0

pub record Entry : Type 0 where
  pub name : String
  pub price : ℕ
  pub stake : Frac
  pub contracts : Frac
  pub fee : Frac
  pub liquidity : ℕ
  pub source : String

-- `round(stake, 2)`: a cent is 100 units.
abbrev pub cents_of : Frac → Frac
cents_of x = whole (100 * round_div x.num (x.den * 100))

-- An entry of `entries`.
abbrev pub entry_of : Bool → ℕ → Frac → ℕ → DealOutcome → Entry
entry_of is_kalshi theta actual total o =
    let stake = if ltb 0 total then actual */ record { num = o.price; den = total } else whole 0 in
    let contracts = if ltb 0 o.price then stake // whole o.price else whole 0 in
    record {
      name = o.name;
      price = o.price;
      stake = cents_of stake;
      contracts = contracts;
      fee = calc_fee is_kalshi o.price contracts theta;
      liquidity = o.liquidity;
      source = o.source;
    }

unfoldable pub entries_of : Bool → ℕ → Frac → ℕ → List DealOutcome → List Entry
unfolding calc_fee
entries_of is_kalshi theta actual total [] = []
entries_of is_kalshi theta actual total (o ∷ os) =
    entry_of is_kalshi theta actual total o ∷ entries_of is_kalshi theta actual total os

-- `total_fee`
unfoldable pub total_fee : List Entry → Frac
total_fee [] = whole 0
total_fee (e ∷ es) = e.fee +/ total_fee es

-- `max_stake`
unfoldable pub max_stake : List Entry → Frac
max_stake [] = whole 0
max_stake (e ∷ es) = let rest = max_stake es in if ltb_frac rest e.stake then e.stake else rest

-- The guard on the sources and the liquidity.
unfoldable pub all_tradable : List DealOutcome → Bool
all_tradable [] = true
all_tradable (o ∷ os) = is_real_source o.source && ltb 0 o.liquidity && all_tradable os

pub data Grade : Type 0 where
  grade_a_plus : Grade
  grade_a : Grade
  grade_b : Grade
  grade_c : Grade
  grade_d : Grade
  grade_f : Grade

pub data RiskTier : Type 0 where
  risk_low : RiskTier
  risk_med : RiskTier
  risk_high : RiskTier
  risk_crit : RiskTier

-- The grade ladder, by whether what is left after slippage is above an amount.
abbrev pub grade_of : (ℕ → Bool) → Bool → Grade
grade_of is_above liq_ok =
    if is_above 20 && liq_ok
    then grade_a_plus
    else if is_above 10
    then grade_a
    else if is_above 5
    then grade_b
    else if is_above 2
    then grade_c
    else if is_above 0
    then grade_d
    else grade_f

-- The risk ladder.
abbrev pub risk_of : ℕ → Frac → RiskTier
risk_of min_liq stake =
    if ltb_frac (whole 10 */ stake) (whole min_liq)
    then risk_low
    else if ltb_frac (whole 3 */ stake) (whole min_liq)
    then risk_med
    else if ltb_frac stake (whole min_liq)
    then risk_med
    else if ltb 0 min_liq
    then risk_high
    else risk_crit

-- `slip_pct`
abbrev pub slip_pct_of : ℕ → Frac → Frac
slip_pct_of min_liq stake =
    let pct = whole 100 */ stake // whole min_liq in
    if ltb 0 min_liq && ltb 0 stake.num
    then if ltb_frac pct (whole 5) then pct else whole 5
    else whole 5

-- `liq_ok`
unfoldable pub all_liquid : List Entry → Bool
all_liquid [] = true
all_liquid (e ∷ es) = (leb e.liquidity 0 || leb (50 * usd) e.liquidity) && all_liquid es

pub record Deal : Type 0 where
  pub outcomes : ℕ
  pub gross : Frac
  pub fee : Frac
  pub slip_cost : Frac
  pub min_liq : ℕ
  pub max_stake : Frac
  pub balance_used : Frac
  pub grade : Grade
  pub risk : RiskTier
  pub entries : List Entry

-- The deal that `build_deal` returns once no gate has refused it.
unfoldable pub deal_of : Bool → List DealOutcome → List Entry → Frac → Frac → Deal
unfolding least_liq total_fee max_stake all_liquid
deal_of is_kalshi os entries actual gross =
    let fee = total_fee entries in
    let stake = max_stake entries in
    let min_liq = min_liq_of os in
    let slip_cost = actual */ slip_pct_of min_liq stake // whole 100 in
    record {
      outcomes = length os;
      gross = gross;
      fee = fee;
      slip_cost = slip_cost;
      min_liq = min_liq;
      max_stake = stake;
      balance_used = actual;
      grade =
          grade_of (λ k. ltb_frac (whole (k * usd) +/ slip_cost +/ fee) gross) (all_liquid entries);
      risk = risk_of min_liq stake;
      entries = entries;
    }

-- `build_deal`
unfoldable pub build_deal : Sizing → Bool → List DealOutcome → ℕ → ℕ → ℕ → Option Deal
unfolding actual_balance entries_of total_fee all_tradable least_liq deal_of
build_deal c is_kalshi os total theta payout_target =
    let actual = actual_balance c os total in
    let gross = gross_of actual (payout_target * usd) total in
    let entries = entries_of is_kalshi theta actual total os in
    if all_tradable os && leb c.min_leg_liq (min_liq_of os) && ltb_frac (total_fee entries) gross
    then some (deal_of is_kalshi os entries actual gross)
    else none
