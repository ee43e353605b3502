-- ===== src/Deals/Kalshi.antt =====
-- Scripts/arb_server.py: eval_kalshi. Prices are in units of $0.0001; a missing price or depth is 0. The
-- dates attached to a deal are left out.
use polymarket_radar.Base.{
  ℕ, ◌+◌, ◌-◌, ◌*◌, String, ◌<>◌, true, ◌&&◌, Option, none, some, List, [], ◌∷◌, ◌++◌, length, any,
  ltb, leb, eqb, if◌then◌else◌, string_key, nat_key, pair_key,
}
use polymarket_radar.Base.Dict.{Dict, lookup}
use polymarket_radar.Deals.Build.{usd, DealOutcome, Sizing, build_deal}
use polymarket_radar.Deals.Markets.{is_quoted}
use polymarket_radar.Deals.Limitless.{LimQuote}
use polymarket_radar.Deals.Poly.{all_yes, all_no, yes_no_pair, PolyDeal, kept, total_of}

-- `THRESH_KALSHI` and `THETA_KALSHI`.
pub record KalshiLimits : Type 0 where
  pub thresh : ℕ
  pub theta : ℕ

-- A market of an event: its title, which is the ticker where it has none, and the ticker.
pub record KalshiMarket : Type 0 where
  pub name : String
  pub ticker : String

-- An entry of `per_market`.
pub record KalshiLeg : Type 0 where
  pub name : String
  pub yes_price : ℕ
  pub yes_liq : ℕ
  pub no_price : ℕ
  pub no_liq : ℕ

abbrev pub priced_leg : String → Option LimQuote → List KalshiLeg → List KalshiLeg
priced_leg name none legs = legs
priced_leg name (some q) legs =
    if leb 500 q.yes_ask && ltb q.yes_ask usd
    then (record {
      name = name;
      yes_price = q.yes_ask;
      yes_liq = q.yes_depth;
      no_price = if is_quoted q.no_ask then q.no_ask else 0;
      no_liq = q.no_depth;
    })
      ∷ legs
    else legs

unfoldable pub kalshi_priced : Dict String LimQuote → List KalshiMarket → List KalshiLeg
kalshi_priced res [] = []
kalshi_priced res (m ∷ ms) = priced_leg m.name (lookup m.ticker res) (kalshi_priced res ms)

abbrev pub kalshi_outcome : String → ℕ → ℕ → DealOutcome
kalshi_outcome name price liq = record {
  name = name;
  price = price;
  liquidity = liq;
  source = "kalshi_ob";
}

unfoldable pub yes_outs : List KalshiLeg → List DealOutcome
yes_outs [] = []
yes_outs (p ∷ ps) = kalshi_outcome p.name p.yes_price p.yes_liq ∷ yes_outs ps

-- `no_outcomes`, of the legs with a NO.
unfoldable pub no_outs : List KalshiLeg → List DealOutcome
no_outs [] = []
no_outs (p ∷ ps) =
    let rest = no_outs ps in
    if ltb 0 p.no_price then kalshi_outcome ("NO " <> p.name) p.no_price p.no_liq ∷ rest else rest

-- A. ALL_YES
unfoldable pub kalshi_all_yes : Sizing → KalshiLimits → ℕ → List DealOutcome → List PolyDeal
kalshi_all_yes s c total_outcomes os =
    let total = total_of os in
    if eqb (length os) total_outcomes
      && leb usd (2 * total)
      && ltb total c.thresh
      && any (λ o. ltb 2000 o.price) os
    then kept all_yes total (λ d. true) (build_deal s true os total c.theta 1)
    else []

-- B. ALL_NO
unfoldable pub kalshi_all_no : Sizing → KalshiLimits → ℕ → List DealOutcome → List PolyDeal
kalshi_all_no s c total_outcomes os =
    let total = total_of os in
    if leb 3 (length os) && eqb (length os) total_outcomes && ltb total ((length os - 1) * c.thresh)
    then kept all_no total (λ d. true) (build_deal s true os total c.theta (length os - 1))
    else []

-- C. YES_NO_PAIR
abbrev pub kalshi_pair_out : KalshiLeg → List DealOutcome
kalshi_pair_out p =
    kalshi_outcome ("YES " <> p.name) p.yes_price p.yes_liq
    ∷ kalshi_outcome ("NO " <> p.name) p.no_price p.no_liq
    ∷ []

unfoldable pub kalshi_pair : Sizing → KalshiLimits → KalshiLeg → List PolyDeal
kalshi_pair s c p =
    let total = p.yes_price + p.no_price in
    if ltb 0 p.no_price && ltb total c.thresh
    then kept yes_no_pair total (λ d. true) (build_deal s true (kalshi_pair_out p) total c.theta 1)
    else []

unfoldable pub kalshi_pairs : Sizing → KalshiLimits → List KalshiLeg → List PolyDeal
kalshi_pairs s c [] = []
kalshi_pairs s c (p ∷ ps) = kalshi_pair s c p ++ kalshi_pairs s c ps

-- One event of the loop.
unfoldable pub eval_kalshi_event :
    Sizing → KalshiLimits → Dict String LimQuote → List KalshiMarket → List PolyDeal
eval_kalshi_event s c res ms =
    let legs = kalshi_priced res ms in
    if ltb (length legs) 2
    then []
    else kalshi_all_yes s c (length ms) (yes_outs legs)
      ++ kalshi_all_no s c (length ms) (no_outs legs)
      ++ kalshi_pairs s c legs

-- `eval_kalshi`
unfoldable pub eval_kalshi :
    Sizing → KalshiLimits → Dict String LimQuote → List (List KalshiMarket) → List PolyDeal
eval_kalshi s c res [] = []
eval_kalshi s c res (ms ∷ evs) = eval_kalshi_event s c res ms ++ eval_kalshi s c res evs
