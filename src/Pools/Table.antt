-- ===== src/Pools/Table.antt =====
-- Scripts/radar/eval/pools.py: near_summary, the rows of Kalshi, SX Bet and Limitless and the table.
use polymarket_radar.Base.{
  ℕ, ◌+◌, ◌-◌, ◌*◌, round_div, min, max, ◌⊎◌, String, Bool, true, false, ◌&&◌, Option, none, some,
  List, [], ◌∷◌, ◌++◌, length, keep, count, is_empty, ltb, leb, if◌then◌else◌, string_key, nat_key,
  pair_key,
}
use polymarket_radar.Base.Dict.{Dict, lookup}
use polymarket_radar.Base.Sort.{sort}
use polymarket_radar.Deals.Build.{usd}
use polymarket_radar.Deals.Series.{is_threshold_series}
use polymarket_radar.Deals.Markets.{is_quoted}
use polymarket_radar.Deals.Poly.{binary}
use polymarket_radar.Deals.Limitless.{LimQuote, Child, LimEvent, quote_of}
use polymarket_radar.Deals.SxBet.{SxQuote}
use polymarket_radar.Pools.Sums.{quoted_or_none, child_titles}
use polymarket_radar.Pools.Near.{NearLeg, NearOption, Rejection, best_near_structure}
use polymarket_radar.Pools.Summary.{
  Platform, polymarket, kalshi, sx_bet, limitless, NearRow, Diag, Sources, PolyNear, poly_rows,
  add_row,
}

-- Kalshi: an event with the tickers of its markets. The legs have no source.
pub record KalshiEvent : Type 0 where
  pub title : String
  pub tickers : List String

abbrev pub kalshi_near_leg : String → Option LimQuote → List NearLeg → List NearLeg
kalshi_near_leg t none legs = legs
kalshi_near_leg t (some q) legs =
    if leb 500 q.yes_ask && ltb q.yes_ask usd
    then (record {
      name = t;
      yes_price = q.yes_ask;
      yes_liq = q.yes_depth;
      yes_src = none;
      no_price = quoted_or_none q.no_ask;
      no_liq = q.no_depth;
      no_src = none;
      alive = true;
    })
      ∷ legs
    else legs

unfoldable pub kalshi_near_legs : Dict String LimQuote → List String → List NearLeg
kalshi_near_legs res [] = []
kalshi_near_legs res (t ∷ ts) = kalshi_near_leg t (lookup t res) (kalshi_near_legs res ts)

unfoldable pub kalshi_rows : Sources → List KalshiEvent → List NearRow
kalshi_rows w [] = []
kalshi_rows w (ev ∷ evs) =
    add_row kalshi ev.title
      (best_near_structure w.thresh_kalshi false (kalshi_near_legs w.kalshi_res ev.tickers))
      (kalshi_rows w evs)

-- SX Bet: a market with its title.
pub record SxNear : Type 0 where
  pub title : String
  pub market_hash : String

abbrev pub sx_row : ℕ → String → SxQuote → NearRow
sx_row threshold title q = record {
  platform = sx_bet;
  structure = binary;
  title = title;
  sum = q.best1 + q.best2;
  threshold = threshold;
  outcomes_count = 2;
  min_price = min q.best1 q.best2;
  max_price = max q.best1 q.best2;
  min_liquidity = min q.depth1 q.depth2;
}

abbrev pub add_sx : ℕ → String → Option SxQuote → List NearRow → List NearRow
add_sx threshold title none rows = rows
add_sx threshold title (some q) rows =
    if ltb 0 q.best1 && ltb 0 q.best2 then sx_row threshold title q ∷ rows else rows

unfoldable pub sx_rows : Sources → List SxNear → List NearRow
sx_rows w [] = []
sx_rows w (m ∷ ms) = add_sx w.thresh_sx m.title (lookup m.market_hash w.sx_res) (sx_rows w ms)

-- Limitless: an event, and whether it is past its end by more than its grace.
pub record LimNear : Type 0 where
  pub event : LimEvent
  pub is_past : Bool

-- `_p['alive']`: a market without metadata has the volume 0.
abbrev pub is_traded : Option ℕ → Bool
is_traded none = false
is_traded (some v) = ltb 0 v

abbrev pub lim_near_leg : (String → Option ℕ) → String → Option (String × LimQuote) → List NearLeg
lim_near_leg volume_of name none = []
lim_near_leg volume_of name (some (slug, q)) =
    if is_quoted q.yes_ask
    then (record {
      name = name;
      yes_price = q.yes_ask;
      yes_liq = q.yes_depth;
      yes_src = some "lim_clob";
      no_price = quoted_or_none q.no_ask;
      no_liq = q.no_depth;
      no_src = if is_quoted q.no_ask then some "lim_clob" else none;
      alive = is_traded (volume_of slug);
    })
      ∷ []
    else []

unfoldable pub lim_near_legs : Sources → List Child → List NearLeg
lim_near_legs w [] = []
lim_near_legs w (c ∷ cs) =
    lim_near_leg w.lim_volume c.name (quote_of w.lim_res c.slug) ++ lim_near_legs w cs

unfoldable pub best_of_lim : Sources → LimEvent → Rejection ⊎ NearOption
best_of_lim w ev =
    best_near_structure w.thresh_limitless
      (is_threshold_series w.patterns ev.title (child_titles ev.children) [])
      (if is_empty ev.children
        then lim_near_leg w.lim_volume ev.title (quote_of w.lim_res ev.slug)
        else lim_near_legs w ev.children)

unfoldable pub lim_rows : Sources → List LimNear → List NearRow
lim_rows w [] = []
lim_rows w (x ∷ xs) =
    let rows = lim_rows w xs in
    if x.is_past then rows else add_row limitless (x.event).title (best_of_lim w x.event) rows

-- The near pools of the four exchanges.
pub record NearPools : Type 0 where
  pub poly_near : List PolyNear
  pub kalshi_near : List KalshiEvent
  pub sx_near : List SxNear
  pub lim_near : List LimNear

-- `distance_cents`, in tenths of a cent and with twice the threshold added, since it may be negative.
-- The even neighbours stay even.
abbrev pub distance : NearRow → ℕ
distance x = round_div (x.sum + 19 * x.threshold) 10

-- The rows that are left: those whose distance is shown as at least -0.5 cents.
abbrev pub is_shown : NearRow → Bool
is_shown x = leb (2 * x.threshold) (distance x + 5)

abbrev pub closer : NearRow → NearRow → Bool
closer x y = leb (distance x + 2 * y.threshold) (distance y + 2 * x.threshold)

abbrev pub is_on : Platform → NearRow → Bool
is_on polymarket x = elim x.platform [
  | polymarket ↦ true
  | kalshi ↦ false
  | sx_bet ↦ false
  | limitless ↦ false
]
is_on kalshi x = elim x.platform [
  | polymarket ↦ false
  | kalshi ↦ true
  | sx_bet ↦ false
  | limitless ↦ false
]
is_on sx_bet x = elim x.platform [
  | polymarket ↦ false
  | kalshi ↦ false
  | sx_bet ↦ true
  | limitless ↦ false
]
is_on limitless x = elim x.platform [
  | polymarket ↦ false
  | kalshi ↦ false
  | sx_bet ↦ false
  | limitless ↦ true
]

-- The table with the counters of Polymarket, and of each exchange the rows that are shown.
pub record NearTable : Type 0 where
  pub rows : List NearRow
  pub diag : Diag
  pub lim_visible : ℕ
  pub sx_visible : ℕ
  pub lim_rejected_strict : ℕ
  pub sx_rejected_strict : ℕ
  pub total_visible : ℕ

-- `near_summary`
unfoldable pub near_summary : Sources → NearPools → NearTable
near_summary w pools =
    let (poly, diag) = poly_rows w pools.poly_near in
    let out =
      poly
      ++ kalshi_rows w pools.kalshi_near
      ++ sx_rows w pools.sx_near
      ++ lim_rows w pools.lim_near in
    let rows = sort closer (keep is_shown out) in
    record {
      rows = rows;
      diag = diag;
      lim_visible = count (is_on limitless) rows;
      sx_visible = count (is_on sx_bet) rows;
      lim_rejected_strict = length pools.lim_near - count (is_on limitless) rows;
      sx_rejected_strict = length pools.sx_near - count (is_on sx_bet) rows;
      total_visible = length rows;
    }
