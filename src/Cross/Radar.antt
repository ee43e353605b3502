-- ===== src/Cross/Radar.antt =====
-- Scripts/cross_platform.py: to_radar_deal_format, the stakes and the profit of a deal. Amounts and
-- prices are in units of $0.0001, fee rates in 1/10000, and what a division gives is an exact fraction;
-- the rounding of the figures that are shown is left out.
use polymarket_radar.Base.{
  ℕ, ◌-◌, ◌*◌, min, max, String, Bool, not, ◌&&◌, Option, List, [], ◌∷◌, length, is_empty, ltb,
  if◌then◌else◌, ◌==◌, string_key, nat_key, pair_key,
}
use polymarket_radar.Base.Frac.{Frac, whole, ◌+/◌, ◌*/◌, ◌//◌, ltb_frac}
use polymarket_radar.Deals.Build.{usd}
use polymarket_radar.Cross.Outcomes.{LegIds, CpLeg, Structure, CpDeal}

-- `_platform_theta`
abbrev pub platform_theta : String → ℕ
platform_theta p =
    if p == "Polymarket"
    then 250
    else if p == "SX Bet"
    then 200
    else if p == "Limitless"
    then 0
    else if p == "Kalshi"
    then 700
    else 250

abbrev pub min_from : ℕ → List CpLeg → ℕ
min_from m [] = m
min_from m (l ∷ ls) = min l.depth (min_from m ls)

-- `min_leg_depth`
unfoldable pub min_depth : List CpLeg → ℕ
min_depth [] = 0
min_depth (l ∷ ls) = min_from l.depth ls

-- The depth factor in hundredths, and `MAX_PER_TRADE_USD`.
pub record Sizes : Type 0 where
  pub depth_factor : ℕ
  pub per_trade : ℕ

-- `face_cap_from_risk`
abbrev pub face_cap : Sizes → CpDeal → Frac
face_cap s d =
    let legs = max 1 (length d.legs) in
    if ltb 0 d.sum
    then record { num = s.per_trade * legs * usd; den = d.sum }
    else whole (s.per_trade * legs)

-- `actual_face`
unfoldable pub actual_face : Sizes → CpDeal → Frac
actual_face s d =
    let safe : Frac = record { num = min_depth d.legs * s.depth_factor; den = 100 } in
    if ltb_frac (face_cap s d) safe then face_cap s d else safe

-- A share of an amount, in 1/10000.
abbrev pub share : Frac → ℕ → Frac
share amount part = amount */ record { num = part; den = usd }

pub record RadarLeg : Type 0 where
  pub name : String
  pub price : ℕ
  pub stake : Frac
  pub contracts : Frac
  pub fee : Frac
  pub liquidity : ℕ
  pub source : String
  pub platform : String
  pub is_yes : Bool
  pub ids : LegIds

-- An entry of `legs_formatted`.
abbrev pub radar_leg : Frac → CpLeg → RadarLeg
radar_leg face l = record {
  name = l.outcome;
  price = l.price;
  stake = share face l.price;
  contracts = face;
  fee = share (share face l.price) (platform_theta l.platform);
  liquidity = l.depth;
  source = l.source;
  platform = l.platform;
  is_yes = l.is_yes;
  ids = l.ids;
}

unfoldable pub legs_formatted : Frac → List CpLeg → List RadarLeg
legs_formatted face [] = []
legs_formatted face (l ∷ ls) = radar_leg face l ∷ legs_formatted face ls

-- `total_fee`
unfoldable pub total_fee : Frac → List CpLeg → Frac
total_fee face [] = whole 0
total_fee face (l ∷ ls) =
    share (share face l.price) (platform_theta l.platform) +/ total_fee face ls

-- `max_leg_stake`
unfoldable pub max_leg_stake : Frac → List CpLeg → Frac
max_leg_stake face [] = whole 0
max_leg_stake face (l ∷ ls) =
    let rest = max_leg_stake face ls in
    if ltb_frac rest (share face l.price) then share face l.price else rest

-- `slip_pct`
unfoldable pub slip_pct : Frac → List CpLeg → Frac
slip_pct face legs =
    let pct = whole 100 */ max_leg_stake face legs // whole (min_depth legs) in
    if not (is_empty legs) && ltb 0 (min_depth legs)
    then if ltb_frac pct (whole 5) then pct else whole 5
    else whole 5

pub data CpGrade : Type 0 where
  cp_a : CpGrade
  cp_b : CpGrade
  cp_c : CpGrade
  cp_f : CpGrade

-- The grade, by whether `roi_adj_pct` is above a number of per cent.
abbrev pub cp_grade : (ℕ → Bool) → CpGrade
cp_grade is_above =
    if is_above 2 then cp_a else if is_above 1 then cp_b else if is_above 0 then cp_c else cp_f

pub record RadarDeal : Type 0 where
  pub title : String
  pub cross_structure : Structure
  pub sum : ℕ
  pub threshold : ℕ
  pub gross : Frac
  pub fee : Frac
  pub slip_cost : Frac
  pub total_cash : Frac
  pub balance_used : Frac
  pub entries : List RadarLeg
  pub min_liq : ℕ
  pub confidence : ℕ
  pub end_date : Option ℕ
  pub grade : CpGrade

-- `to_radar_deal_format`, of a deal whose sum is at most $1.
unfoldable pub to_radar_deal_format : Sizes → CpDeal → RadarDeal
to_radar_deal_format s d =
    let face = actual_face s d in
    let gross = share face (usd - d.sum) in
    let cash = share face d.sum in
    let fee = total_fee face d.legs in
    let slip_cost = cash */ slip_pct face d.legs // whole 100 in
    record {
      title = d.title;
      cross_structure = d.structure;
      sum = d.sum;
      threshold = d.threshold;
      gross = gross;
      fee = fee;
      slip_cost = slip_cost;
      total_cash = cash;
      balance_used = face;
      entries = legs_formatted face d.legs;
      min_liq = min_depth d.legs;
      confidence = d.confidence;
      end_date = d.end_date;
      grade = cp_grade (λ k.
          ltb 0 cash.num
          && ltb_frac (fee +/ slip_cost +/ cash */ record { num = k; den = 100 }) gross);
    }
