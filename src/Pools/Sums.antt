-- ===== src/Pools/Sums.antt =====
-- Scripts/radar/eval/pools.py: _sum_limitless_cand, _sum_poly_cand, _sum_kalshi_cand, _sum_sx_market.
use polymarket_radar.Base.{
  ℕ, suc, ◌+◌, ◌-◌, ◌*◌, String, Bool, true, not, ◌&&◌, Option, none, some, List, [], ◌∷◌, ◌++◌,
  length, keep, is_empty, ltb, leb, eqb, if◌then◌else◌, string_key, nat_key, pair_key,
}
use polymarket_radar.Base.Dict.{Dict, lookup}
use polymarket_radar.Base.Frac.{Frac, whole, ltb_frac}
use polymarket_radar.Deals.Build.{usd}
use polymarket_radar.Deals.SxBet.{SxQuote}
use polymarket_radar.Deals.Series.{Patterns, is_threshold_series}
use polymarket_radar.Deals.Markets.{ClobQuote, WsBook, PerMarket, is_quoted, poly_per_market}
use polymarket_radar.Deals.Poly.{Candidate, total_outcomes_of, names_of}
use polymarket_radar.Deals.Limitless.{LimQuote, Child, LimEvent, quote_of}

-- An entry of `pm`. The functions that do not look at `alive` have it true.
pub record SumLeg : Type 0 where
  pub yes : ℕ
  pub no_price : ℕ
  pub alive : Bool

abbrev pub quoted_or_none : ℕ → ℕ
quoted_or_none p = if is_quoted p then p else 0

-- `sum(p['yes'] for p in pm)`
unfoldable pub sum_yes : List SumLeg → ℕ
sum_yes [] = 0
sum_yes (p ∷ ps) = p.yes + sum_yes ps

unfoldable pub sum_no : List SumLeg → ℕ
sum_no [] = 0
sum_no (p ∷ ps) = p.no_price + sum_no ps

-- `no_raw`
abbrev pub no_raw : List SumLeg → List SumLeg
no_raw ps = keep (λ p. ltb 0 p.no_price) ps

abbrev pub all_alive : List SumLeg → Bool
all_alive [] = true
all_alive (p ∷ ps) = p.alive && all_alive ps

-- C. The least sum of a pair, as `pair_min` after the loop.
abbrev pub less_of : ℕ → Option ℕ → Option ℕ
less_of s none = some s
less_of s (some m) = if ltb s m then some s else some m

unfoldable pub pair_min : List SumLeg → Option ℕ → Option ℕ
pair_min [] m = m
pair_min (p ∷ ps) m =
    pair_min ps
      (if ltb 0 p.no_price && ltb 0 p.yes && p.alive then less_of (p.yes + p.no_price) m else m)

abbrev pub pair_sums : Option ℕ → List Frac
pair_sums none = []
pair_sums (some s) = whole s ∷ []

-- `s_no / (N - 1)`
abbrev pub no_share : List SumLeg → Frac
no_share ps = record { num = sum_no ps; den = length ps - 1 }

-- `min(candidates) if candidates else None`
abbrev pub least_from : Frac → List Frac → Frac
least_from m [] = m
least_from m (x ∷ xs) = least_from (if ltb_frac x m then x else m) xs

unfoldable pub least : List Frac → Option Frac
least [] = none
least (x ∷ xs) = some (least_from x xs)

-- `_sum_limitless_cand`: the legs that are found, and how many have no YES. What the metadata says of the
-- volume of a market is an argument, `none` where it says nothing.
abbrev pub is_alive : Option ℕ → Bool
is_alive none = true
is_alive (some v) = ltb 0 v

abbrev pub sum_leg : (String → Option ℕ) → String → LimQuote → SumLeg
sum_leg volume_of slug q = record {
  yes = q.yes_ask;
  no_price = quoted_or_none q.no_ask;
  alive = is_alive (volume_of slug);
}

abbrev pub gather_one :
    (String → Option ℕ) → Option (String × LimQuote) → List SumLeg × ℕ → List SumLeg × ℕ
gather_one volume_of none (legs, missing) = (legs, suc missing)
gather_one volume_of (some (slug, q)) (legs, missing) =
    if is_quoted q.yes_ask then (sum_leg volume_of slug q ∷ legs, missing) else (legs, suc missing)

unfoldable pub gather : (String → Option ℕ) → Dict String LimQuote → List Child → List SumLeg × ℕ
gather volume_of res [] = ([], 0)
gather volume_of res (c ∷ cs) = gather_one volume_of (quote_of res c.slug) (gather volume_of res cs)

abbrev pub single_leg : (String → Option ℕ) → Option (String × LimQuote) → List SumLeg
single_leg volume_of none = []
single_leg volume_of (some (slug, q)) =
    if is_quoted q.yes_ask && is_quoted q.no_ask then sum_leg volume_of slug q ∷ [] else []

-- The sums of a group: the limits on A and B are 1.5 and N - 0.5 dollars.
unfoldable pub group_sums : Bool → ℕ → ℕ → List SumLeg → List Frac
group_sums is_series total missing legs =
    let no_legs = no_raw legs in
    (if eqb missing 0 && not is_series && all_alive legs && leb (2 * sum_yes legs) (3 * usd)
      then whole (sum_yes legs) ∷ []
      else [])
    ++ (if eqb (length no_legs) total
          && leb 3 (length no_legs)
          && not is_series
          && all_alive legs
          && leb (2 * sum_no no_legs) ((2 * length no_legs - 1) * usd)
        then no_share no_legs ∷ []
        else [])
    ++ pair_sums (pair_min legs none)

abbrev pub child_titles : List Child → List String
child_titles [] = []
child_titles (c ∷ cs) = c.name ∷ child_titles cs

abbrev pub sums_unless_empty : List SumLeg → List Frac → Option Frac
sums_unless_empty [] sums = none
sums_unless_empty (p ∷ ps) sums = least sums

unfoldable pub sum_limitless_cand :
    Patterns → (String → Option ℕ) → Dict String LimQuote → LimEvent → Option Frac
sum_limitless_cand r volume_of res ev =
    let (legs, missing) = gather volume_of res ev.children in
    let is_series = is_threshold_series r ev.title (child_titles ev.children) [] in
    if is_empty ev.children
    then least (pair_sums (pair_min (single_leg volume_of (quote_of res ev.slug)) none))
    else sums_unless_empty legs (group_sums is_series (length ev.children) missing legs)

-- `_sum_poly_cand`
abbrev pub poly_legs : List PerMarket → List SumLeg
poly_legs [] = []
poly_legs (p ∷ ps) =
    (record {
      yes = quoted_or_none p.yes.price;
      no_price = quoted_or_none p.no_side.price;
      alive = true;
    })
    ∷ poly_legs ps

unfoldable pub poly_sums : Bool → Bool → ℕ → List SumLeg → List Frac
poly_sums is_single is_series total legs =
    let no_legs = no_raw legs in
    (if not is_single && eqb (length legs) total && not is_series && ltb 0 (sum_yes legs)
      then whole (sum_yes legs) ∷ []
      else [])
    ++ (if not is_single && leb 3 (length no_legs) && eqb (length no_legs) total && not is_series
        then no_share no_legs ∷ []
        else [])
    ++ pair_sums (pair_min legs none)

unfoldable pub sum_poly_cand :
    Patterns → Dict String ClobQuote → Dict String WsBook → Candidate → Option Frac
sum_poly_cand r clob ws cand =
    let per = poly_per_market clob ws cand.rough in
    if ltb (length per) (if cand.is_single_binary then 1 else 2)
    then none
    else least (
        poly_sums cand.is_single_binary (is_threshold_series r cand.title (names_of per) [])
          (total_outcomes_of cand per) (poly_legs per))

-- `_sum_kalshi_cand`, over the tickers of the markets of an event.
abbrev pub kalshi_leg : Option LimQuote → List SumLeg → List SumLeg
kalshi_leg none legs = legs
kalshi_leg (some q) legs =
    if leb 500 q.yes_ask && ltb q.yes_ask usd
    then (record { yes = q.yes_ask; no_price = quoted_or_none q.no_ask; alive = true }) ∷ legs
    else legs

unfoldable pub kalshi_legs : Dict String LimQuote → List String → List SumLeg
kalshi_legs res [] = []
kalshi_legs res (t ∷ ts) = kalshi_leg (lookup t res) (kalshi_legs res ts)

unfoldable pub kalshi_sums : ℕ → List SumLeg → List Frac
kalshi_sums total legs =
    let no_legs = no_raw legs in
    (if eqb (length legs) total && leb usd (2 * sum_yes legs)
      then whole (sum_yes legs) ∷ []
      else [])
    ++ (if leb 3 (length no_legs) && eqb (length no_legs) total then no_share no_legs ∷ [] else [])
    ++ pair_sums (pair_min legs none)

unfoldable pub sum_kalshi_cand : Dict String LimQuote → List String → Option Frac
sum_kalshi_cand res tickers =
    let legs = kalshi_legs res tickers in
    if ltb (length legs) 2 then none else least (kalshi_sums (length tickers) legs)

-- `_sum_sx_market`
abbrev pub sum_sx_asks : Option SxQuote → Option Frac
sum_sx_asks none = none
sum_sx_asks (some q) =
    if ltb 0 q.best1 && ltb 0 q.best2 then some (whole (q.best1 + q.best2)) else none

unfoldable pub sum_sx_market : Dict String SxQuote → String → Option Frac
sum_sx_market orders hash = sum_sx_asks (lookup hash orders)
