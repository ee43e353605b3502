-- ===== src/Deals/Markets.antt =====
-- Scripts/radar/eval/polymarket.py: _poly_per_market, the prices of YES and NO of each market. Prices are
-- in units of $0.0001; a missing price, bid or depth is 0, which the code's tests treat alike.
use polymarket_radar.Base.{
  ℕ, ◌-◌, String, Bool, ◌&&◌, Option, none, some, List, [], ◌∷◌, ltb, if◌then◌else◌, ◌==◌,
  string_key,
}
use polymarket_radar.Base.Dict.{Dict, lookup}
use polymarket_radar.Deals.Build.{usd}

-- A market that passed the filters.
pub record Rough : Type 0 where
  pub name : String
  pub slug : String
  pub condition_id : Option String
  pub implied : ℕ
  pub liquidity : ℕ
  pub token_id_yes : Option String
  pub token_id_no : Option String

-- An entry of `clob_res` and one of `ws_books`.
pub record ClobQuote : Type 0 where
  pub ask : ℕ
  pub ask_depth : ℕ
  pub bid : ℕ
  pub bid_depth : ℕ

pub record WsBook : Type 0 where
  pub best_ask : ℕ
  pub depth : ℕ

-- The price, the liquidity and the source of YES or NO; the price is 0 where the code has none.
pub record Side : Type 0 where
  pub price : ℕ
  pub liq : ℕ
  pub src : String

pub record PerMarket : Type 0 where
  pub name : String
  pub yes : Side
  pub no_side : Side

-- `0 < x < 1`
abbrev pub is_quoted : ℕ → Bool
is_quoted p = ltb 0 p && ltb p usd

abbrev pub or_liq : ℕ → ℕ → ℕ
or_liq d l = if ltb 0 d then d else l

abbrev pub clob_side : Option ClobQuote → Side → Side
clob_side none cur = cur
clob_side (some q) cur =
    if is_quoted q.ask
    then record { price = q.ask; liq = or_liq q.ask_depth cur.liq; src = "clob_ask" }
    else cur

abbrev pub book_side : Option WsBook → Option ClobQuote → Side → Side
book_side none q cur = clob_side q cur
book_side (some b) q cur =
    if is_quoted b.best_ask
    then record { price = b.best_ask; liq = or_liq b.depth cur.liq; src = "ws" }
    else clob_side q cur

abbrev pub token_side : Option String → Dict String ClobQuote → Dict String WsBook → Side → Side
token_side none clob ws cur = cur
token_side (some t) clob ws cur = book_side (lookup t ws) (lookup t clob) cur

abbrev pub yes_clob : Option String → Dict String ClobQuote → Option ClobQuote
yes_clob none clob = none
yes_clob (some t) clob = lookup t clob

-- The NO side from the YES bid, where no book has one.
abbrev pub synthetic_side : Option ClobQuote → Side → Side
synthetic_side none cur = cur
synthetic_side (some q) cur =
    if (cur.src == "implied") && is_quoted q.bid && is_quoted (usd - q.bid) && ltb 0 q.bid_depth
    then record { price = usd - q.bid; liq = q.bid_depth; src = "clob_synthetic" }
    else cur

unfoldable pub market_sides : Dict String ClobQuote → Dict String WsBook → Rough → PerMarket
market_sides clob ws o = record {
  name = o.name;
  yes =
      token_side o.token_id_yes clob ws
        (record { price = o.implied; liq = o.liquidity; src = "implied" });
  no_side = synthetic_side (yes_clob o.token_id_yes clob) (
      token_side o.token_id_no clob ws (record {
        price = if is_quoted o.implied then usd - o.implied else 0;
        liq = 0;
        src = "implied";
      }));
}

-- `_poly_per_market`
unfoldable pub poly_per_market :
    Dict String ClobQuote → Dict String WsBook → List Rough → List PerMarket
poly_per_market clob ws [] = []
poly_per_market clob ws (o ∷ os) = market_sides clob ws o ∷ poly_per_market clob ws os
