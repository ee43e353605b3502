-- ===== src/Cross/Outcomes.antt =====
-- Scripts/cross_platform.py: an outcome of an exchange, the legs of a deal and the settlement times.
-- Prices and depths are in units of $0.0001, times in seconds.
use polymarket_radar.Base.{
  ℕ, ◌+◌, ◌-◌, min, String, ◌<>◌, Bool, true, ◌||◌, Option, none, some, List, leb, if◌then◌else◌,
  ◌==◌, string_key, nat_key, pair_key,
}

-- `extras`: the identifiers that an order needs.
pub record Extras : Type 0 where
  pub token_id_yes : Option String
  pub token_id_no : Option String
  pub condition_id : Option String
  pub verifying_contract : Option String
  pub neg_risk : Option Bool
  pub tick_size : Option ℕ

pub record Quote : Type 0 where
  pub price : Option ℕ
  pub depth : ℕ
  pub source : String

-- `PlatformOutcome`; its end date is read.
pub record PlatformOutcome : Type 0 where
  pub platform : String
  pub event_id : String
  pub outcome_name : String
  pub yes : Quote
  pub no_side : Quote
  pub end_date : Option ℕ
  pub title : String
  pub extras : Extras

pub record LegIds : Type 0 where
  pub token_id : Option String
  pub condition_id : Option String
  pub neg_risk : Option Bool
  pub tick_size : Option ℕ
  pub slug : Option String
  pub verifying_contract : Option String
  pub market_hash : Option String
  pub outcome_index : Option ℕ

abbrev pub no_ids : LegIds
no_ids = record {
  token_id = none;
  condition_id = none;
  neg_risk = none;
  tick_size = none;
  slug = none;
  verifying_contract = none;
  market_hash = none;
  outcome_index = none;
}

-- `_leg_platform_ids`: the name of the exchange is compared as it is written.
unfoldable pub leg_platform_ids : PlatformOutcome → Bool → LegIds
leg_platform_ids out is_yes =
    let token = if is_yes then out.extras.token_id_yes else out.extras.token_id_no in
    if out.platform == "Polymarket"
    then record no_ids {
      token_id = token;
      condition_id = out.extras.condition_id;
      neg_risk = out.extras.neg_risk;
      tick_size = out.extras.tick_size;
    }
    else if out.platform == "Limitless"
    then record no_ids {
      slug = some out.event_id;
      token_id = token;
      verifying_contract = out.extras.verifying_contract;
    }
    else if out.platform == "SX Bet" || out.platform == "sx_bet"
    then record no_ids {
      market_hash = some out.event_id;
      outcome_index = some (if is_yes then 1 else 2);
    }
    else no_ids

pub record CpLeg : Type 0 where
  pub platform : String
  pub event_id : String
  pub outcome : String
  pub price : ℕ
  pub depth : ℕ
  pub source : String
  pub is_yes : Bool
  pub stake : ℕ
  pub ids : LegIds

pub data Structure : Type 0 where
  x1 : Structure
  x2 : Structure
  complement_cover : Structure

-- `CrossPlatformDeal`
pub record CpDeal : Type 0 where
  pub structure : Structure
  pub title : String
  pub sum : ℕ
  pub threshold : ℕ
  pub legs : List CpLeg
  pub confidence : ℕ
  pub end_date : Option ℕ

abbrev pub or_else : Option ℕ → Option ℕ → Option ℕ
or_else none d = d
or_else (some x) d = some x

abbrev pub side_of : PlatformOutcome → Bool → Quote
side_of out is_yes = if is_yes then out.yes else out.no_side

-- A leg at the price that its quote has.
abbrev pub leg_at : ℕ → PlatformOutcome → Bool → LegIds → ℕ → CpLeg
leg_at balance out is_yes ids price = record {
  platform = out.platform;
  event_id = out.event_id;
  outcome = out.outcome_name <> (if is_yes then " YES" else " NO");
  price = price;
  depth = (side_of out is_yes).depth;
  source = (side_of out is_yes).source;
  is_yes = is_yes;
  stake = min balance (side_of out is_yes).depth;
  ids = ids;
}

-- The time between two settlements.
abbrev pub gap : ℕ → ℕ → ℕ
gap a b = (a - b) + (b - a)

-- `_check_settlement_timing`
unfoldable pub check_settlement_timing : ℕ → Option ℕ → Option ℕ → Bool
check_settlement_timing tolerance none b = true
check_settlement_timing tolerance (some a) none = true
check_settlement_timing tolerance (some a) (some b) = leb (gap a b) tolerance
