-- ===== src/Deals/Limitless.antt =====
-- Scripts/radar/eval/limitless.py: the deals on the events of Limitless that passed the filter. Prices
-- are in units of $0.0001; a missing price or depth is 0, which the code's tests treat alike. The slugs,
-- tokens and dates attached to a deal are left out.
pub mod Covered
use polymarket_radar.Base.{
  ℕ, zero, suc, ◌+◌, ◌-◌, ◌*◌, String, ◌<>◌, Bool, true, false, not, ◌&&◌, ◌||◌, Option, none, some,
  List, [], ◌∷◌, ◌++◌, length, ltb, leb, eqb, if◌then◌else◌, string_key,
}
use polymarket_radar.Base.Dict.{Dict, lookup}
use polymarket_radar.Base.Frac.{whole, ◌*/◌, ltb_frac}
use polymarket_radar.Deals.Build.{DealOutcome, Sizing, Deal, slip_pct_of, build_deal}
use polymarket_radar.Deals.Series.{Patterns, is_threshold_series}
use polymarket_radar.Deals.Markets.{is_quoted}
use polymarket_radar.Deals.Poly.{
  Structure, all_yes, all_no, yes_no_pair, binary, PolyDeal, kept, total_of,
}

-- An entry of `lim_res`.
pub record LimQuote : Type 0 where
  pub yes_ask : ℕ
  pub yes_depth : ℕ
  pub no_ask : ℕ
  pub no_depth : ℕ

pub record Child : Type 0 where
  pub name : String
  pub slug : Option String

-- An entry of `per_market`.
pub record LimMarket : Type 0 where
  pub name : String
  pub slug : String
  pub yes_price : ℕ
  pub yes_liq : ℕ
  pub no_price : ℕ
  pub no_liq : ℕ
  pub volume : ℕ

-- The constants that the evaluator reads; the slip is in 1/100 of a percent.
pub record LimLimits : Type 0 where
  pub thresh : ℕ
  pub theta : ℕ
  pub realistic_floor : ℕ
  pub tight_cutoff : ℕ
  pub tight_min_liq : ℕ
  pub tight_max_slip : ℕ
  pub enable_a : Bool
  pub enable_b : Bool
  pub enable_c : Bool

-- An event: a group has children, a market on its own has none.
pub record LimEvent : Type 0 where
  pub title : String
  pub slug : Option String
  pub children : List Child

pub record Collected : Type 0 where
  pub per_market : List LimMarket
  pub missing_yes : ℕ
  pub missing_no : ℕ

abbrev pub quote_of : Dict String LimQuote → Option String → Option (String × LimQuote)
quote_of res none = none
quote_of res (some slug) = elim (lookup slug res) [ none ↦ none | some q ↦ some (slug, q) ]

abbrev pub market_of : (String → ℕ) → String → String → LimQuote → LimMarket
market_of volume_of name slug q = record {
  name = name;
  slug = slug;
  yes_price = q.yes_ask;
  yes_liq = q.yes_depth;
  no_price = if is_quoted q.no_ask then q.no_ask else 0;
  no_liq = q.no_depth;
  volume = volume_of slug;
}

-- One child: `volume_of` is what the metadata of a market says.
abbrev pub add_child : (String → ℕ) → String → Option (String × LimQuote) → Collected → Collected
add_child volume_of name none rest = record rest {
  missing_yes = suc rest.missing_yes;
  missing_no = suc rest.missing_no;
}
add_child volume_of name (some (slug, q)) rest =
    let missing_no = if is_quoted q.no_ask then rest.missing_no else suc rest.missing_no in
    if is_quoted q.yes_ask
    then record {
      per_market = market_of volume_of name slug q ∷ rest.per_market;
      missing_yes = rest.missing_yes;
      missing_no = missing_no;
    }
    else record {
      per_market = rest.per_market;
      missing_yes = suc rest.missing_yes;
      missing_no = missing_no;
    }

-- The loop over the children.
unfoldable pub collect : (String → ℕ) → Dict String LimQuote → List Child → Collected
collect volume_of res [] = record { per_market = []; missing_yes = 0; missing_no = 0 }
collect volume_of res (c ∷ cs) =
    add_child volume_of c.name (quote_of res c.slug) (collect volume_of res cs)

-- `all_dead`
unfoldable pub all_dead : List LimMarket → Bool
all_dead [] = true
all_dead (p ∷ ps) = not (ltb 0 p.volume) && all_dead ps

abbrev pub is_ghost : List LimMarket → Bool
is_ghost [] = false
is_ghost (p ∷ ps) = all_dead (p ∷ ps)

-- `_lim_quality_ok`, before the rounding of the figures to a tenth of a cent.
unfoldable pub lim_quality_ok : LimLimits → ℕ → List LimMarket → Deal → Bool
lim_quality_ok c total ps d =
    (not (leb c.tight_cutoff total)
      || not (
          ltb d.min_liq c.tight_min_liq
          || not
              (ltb_frac (whole 100 */ slip_pct_of d.min_liq d.max_stake) (whole c.tight_max_slip))))
    && not (is_ghost ps)

abbrev pub lim_outcome : String → ℕ → ℕ → DealOutcome
lim_outcome name price liq = record {
  name = name;
  price = price;
  liquidity = liq;
  source = "lim_clob";
}

-- `yes_outcomes`
unfoldable pub yes_outcomes : List LimMarket → List DealOutcome
yes_outcomes [] = []
yes_outcomes (p ∷ ps) = lim_outcome p.name p.yes_price p.yes_liq ∷ yes_outcomes ps

-- `no_raw`
unfoldable pub no_raw : List LimMarket → List LimMarket
no_raw [] = []
no_raw (p ∷ ps) = let rest = no_raw ps in if ltb 0 p.no_price then p ∷ rest else rest

-- `no_outcomes`
unfoldable pub no_outcomes : List LimMarket → List DealOutcome
no_outcomes [] = []
no_outcomes (p ∷ ps) = lim_outcome ("NO " <> p.name) p.no_price p.no_liq ∷ no_outcomes ps

-- A. `ALL_YES`
unfoldable pub lim_all_yes : Sizing → LimLimits → Bool → Collected → List PolyDeal
lim_all_yes s c is_series g =
    let os = yes_outcomes g.per_market in
    let total = total_of os in
    if c.enable_a && eqb g.missing_yes 0 && ltb total c.thresh && not is_series
    then kept all_yes total (lim_quality_ok c total g.per_market)
        (build_deal s false os total c.theta 1)
    else []

-- B. `ALL_NO`
unfoldable pub lim_all_no : Sizing → LimLimits → Bool → ℕ → Collected → List PolyDeal
lim_all_no s c is_series total_outcomes g =
    let raw = no_raw g.per_market in
    let os = no_outcomes raw in
    let total = total_of os in
    if c.enable_b
      && eqb g.missing_no 0
      && eqb (length os) total_outcomes
      && leb 3 (length os)
      && not is_series
      && ltb total ((length os - 1) * c.thresh)
    then kept all_no total (lim_quality_ok c total raw)
        (build_deal s false os total c.theta (length os - 1))
    else []

abbrev pub lim_pair_out : LimMarket → List DealOutcome
lim_pair_out p =
    lim_outcome ("YES " <> p.name) p.yes_price p.yes_liq
    ∷ lim_outcome ("NO " <> p.name) p.no_price p.no_liq
    ∷ []

-- C. The pair of one market, in a group or on its own.
unfoldable pub lim_pair : Structure → Sizing → LimLimits → LimMarket → List PolyDeal
lim_pair structure s c p =
    let total = total_of (lim_pair_out p) in
    if ltb 0 p.no_price && ltb total c.thresh && leb c.realistic_floor total
    then kept structure total (lim_quality_ok c total (p ∷ []))
        (build_deal s false (lim_pair_out p) total c.theta 1)
    else []

unfoldable pub lim_pairs : Sizing → LimLimits → List LimMarket → List PolyDeal
lim_pairs s c [] = []
lim_pairs s c (p ∷ ps) = lim_pair yes_no_pair s c p ++ lim_pairs s c ps

abbrev pub lim_names : List LimMarket → List String
lim_names [] = []
lim_names (p ∷ ps) = p.name ∷ lim_names ps

abbrev pub lim_slugs : List LimMarket → List String
lim_slugs [] = []
lim_slugs (p ∷ ps) = p.slug ∷ lim_slugs ps

-- The branch of a group.
unfoldable pub eval_group : Sizing → LimLimits → Patterns → String → ℕ → Collected → List PolyDeal
eval_group s c r title total_outcomes g =
    let per = g.per_market in
    let is_series = is_threshold_series r title (lim_names per) (lim_slugs per) in
    if ltb (length per) 2
    then []
    else lim_all_yes s c is_series g
      ++ lim_all_no s c is_series total_outcomes g
      ++ (if c.enable_c then lim_pairs s c per else [])

-- The branch of a market on its own.
abbrev pub eval_quoted :
    Sizing → LimLimits → (String → ℕ) → String → Option (String × LimQuote) → List PolyDeal
eval_quoted s c volume_of title none = []
eval_quoted s c volume_of title (some (slug, q)) =
    if is_quoted q.yes_ask && is_quoted q.no_ask
    then lim_pair binary s c (market_of volume_of title slug q)
    else []

-- One event of the loop in `eval_limitless`.
unfoldable pub eval_lim_event :
    Sizing → LimLimits → Patterns → (String → ℕ) → Dict String LimQuote → LimEvent → List PolyDeal
eval_lim_event s c r volume_of res ev =
    if ltb 0 (length ev.children)
    then eval_group s c r ev.title (length ev.children) (collect volume_of res ev.children)
    else (if c.enable_c then eval_quoted s c volume_of ev.title (quote_of res ev.slug) else [])
