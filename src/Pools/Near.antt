-- ===== src/Pools/Near.antt =====
-- Scripts/radar/eval/pools.py: _best_near_structure. A sum is compared with its threshold exactly, where
-- the code subtracts floats.
use polymarket_radar.Base.{
  ℕ, ◌+◌, ◌-◌, ◌*◌, ◌⊎◌, inl, inr, String, Bool, true, false, not, ◌&&◌, Option, none, some, List,
  [], ◌∷◌, ◌++◌, map, length, keep, any, is_empty, ltb, leb, if◌then◌else◌, string_key, nat_key,
  pair_key,
}
use polymarket_radar.Base.Sort.{sort}
use polymarket_radar.Deals.Build.{usd, is_real_source}
use polymarket_radar.Deals.Markets.{is_quoted}
use polymarket_radar.Deals.Poly.{Structure, all_yes, all_no, yes_no_pair}

-- An entry of `pm`. A missing price is 0, a missing source `none`.
pub record NearLeg : Type 0 where
  pub name : String
  pub yes_price : ℕ
  pub yes_liq : ℕ
  pub yes_src : Option String
  pub no_price : ℕ
  pub no_liq : ℕ
  pub no_src : Option String
  pub alive : Bool

-- An entry of `options`.
pub record NearOption : Type 0 where
  pub structure : Structure
  pub sum : ℕ
  pub threshold : ℕ
  pub outcomes_count : ℕ
  pub prices : List ℕ
  pub liqs : List ℕ
  pub market_name : String

-- `_reason_out['key']`
pub data Rejection : Type 0 where
  empty_pm : Rejection
  all_legs_implied : Rejection
  no_structure_near_threshold : Rejection

-- `NEAR_BUFFER` and `C_NEAR_MAX_DISTANCE`.
abbrev pub near_buffer : ℕ
near_buffer = 300

abbrev pub c_near_max_distance : ℕ
c_near_max_distance = 300

abbrev pub is_real_or : Bool → Option String → Bool
is_real_or missing none = missing
is_real_or missing (some s) = is_real_source s

-- The legs whose quotes come from order books.
unfoldable pub real_legs : List NearLeg → List NearLeg
real_legs pm = keep (λ p. is_real_or false p.yes_src && is_real_or true p.no_src) pm

abbrev pub total : List ℕ → ℕ
total [] = 0
total (x ∷ xs) = x + total xs

-- A leg with both quotes that is traded.
abbrev pub is_pair : NearLeg → Bool
is_pair p = is_quoted p.no_price && is_quoted p.yes_price && p.alive

abbrev pub every_alive : List NearLeg → Bool
every_alive pm = not (any (λ p. not p.alive) pm)

-- A. ALL_YES
abbrev pub yes_side : List NearLeg → List NearLeg
yes_side pm = keep (λ p. is_quoted p.yes_price) pm

unfoldable pub yes_option : ℕ → List NearLeg → NearOption
yes_option threshold pm =
    let legs = yes_side pm in
    let prices = map (λ p. p.yes_price) legs in
    record {
      structure = all_yes;
      sum = total prices;
      threshold = threshold;
      outcomes_count = length legs;
      prices = prices;
      liqs = map (λ p. p.yes_liq) legs;
      market_name = "";
    }

unfoldable pub offers_yes : Bool → List NearLeg → NearOption → Bool
offers_yes is_series pm o =
    leb 2 o.outcomes_count
    && not is_series
    && every_alive pm
    && leb (2 * o.sum) (3 * usd)
    && leb o.sum (o.threshold + near_buffer)

-- B. ALL_NO
abbrev pub no_side : List NearLeg → List NearLeg
no_side pm = keep (λ p. is_quoted p.no_price) pm

unfoldable pub no_option : ℕ → List NearLeg → NearOption
no_option threshold pm =
    let legs = no_side pm in
    let prices = map (λ p. p.no_price) legs in
    record {
      structure = all_no;
      sum = total prices;
      threshold = (length legs - 1) * threshold;
      outcomes_count = length legs;
      prices = prices;
      liqs = map (λ p. p.no_liq) legs;
      market_name = "";
    }

unfoldable pub offers_no : Bool → List NearLeg → NearOption → Bool
offers_no is_series pm o =
    leb 3 o.outcomes_count
    && not is_series
    && every_alive pm
    && leb (2 * o.sum) ((2 * o.outcomes_count - 1) * usd)
    && leb o.sum (o.threshold + near_buffer)

-- C. YES_NO_PAIR
unfoldable pub pair_option : ℕ → NearLeg → NearOption
pair_option threshold p = record {
  structure = yes_no_pair;
  sum = p.yes_price + p.no_price;
  threshold = threshold;
  outcomes_count = 2;
  prices = p.yes_price ∷ p.no_price ∷ [];
  liqs = p.yes_liq ∷ p.no_liq ∷ [];
  market_name = p.name;
}

abbrev pub better_of : NearOption → Option NearOption → NearOption
better_of o none = o
better_of o (some b) = if ltb o.sum b.sum then o else b

-- The loop for `pair_best`.
unfoldable pub pair_best : ℕ → List NearLeg → Option NearOption → Option NearOption
pair_best threshold [] best = best
pair_best threshold (p ∷ pm) best =
    pair_best threshold pm
      (if is_pair p then some (better_of (pair_option threshold p) best) else best)

abbrev pub pair_options : Option NearOption → List NearOption
pair_options none = []
pair_options (some o) = if leb o.sum (o.threshold + c_near_max_distance) then o ∷ [] else []

unfoldable pub near_options : ℕ → Bool → List NearLeg → List NearOption
near_options threshold is_series pm =
    let a = yes_option threshold pm in
    let b = no_option threshold pm in
    (if offers_yes is_series pm a then a ∷ [] else [])
    ++ (if offers_no is_series pm b then b ∷ [] else [])
    ++ pair_options (pair_best threshold pm none)

-- `options.sort(key=lambda o: o['sum'] - o['threshold'])`
abbrev pub nearer : NearOption → NearOption → Bool
nearer a b = leb (a.sum + b.threshold) (b.sum + a.threshold)

abbrev pub first_or : List NearOption → Rejection ⊎ NearOption
first_or [] = inl no_structure_near_threshold
first_or (o ∷ os) = inr o

-- `_best_near_structure`
unfoldable pub best_near_structure : ℕ → Bool → List NearLeg → Rejection ⊎ NearOption
best_near_structure threshold is_series pm =
    let real = real_legs pm in
    if is_empty pm
    then inl empty_pm
    else if is_empty real
    then inl all_legs_implied
    else first_or (sort nearer (near_options threshold is_series real))
