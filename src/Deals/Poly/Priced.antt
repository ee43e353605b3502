-- ===== src/Deals/Poly/Priced.antt =====
-- A price from a trusted book is above 0.
use polymarket_radar.Base.{
  ℕ, ◌-◌, ◌<◌, ◌≡◌, String, true, ◌&&◌, Option, none, some, List, [], ◌∷◌, All, length, ltb, ◌==◌,
  string_key, arith, if-cases,
}
use polymarket_radar.Base.Dict.{Dict, lookup}
use polymarket_radar.Deals.Build.{usd, DealOutcome, is_real_source, all_tradable}
use polymarket_radar.Deals.Markets.{
  Rough, ClobQuote, WsBook, Side, PerMarket, is_quoted, clob_side, book_side, token_side, yes_clob,
  synthetic_side, market_sides, poly_per_market,
}
use polymarket_radar.Deals.Poly.{yes_out, no_out, total_of, pair_out}

abbrev pub IsPriced : ℕ → String → Type 0
IsPriced price src = is_real_source src ≡ true → 0 < price

abbrev pub SidePriced : Side → Type 0
SidePriced x = IsPriced x.price x.src

quoted-IsPriced : (p : ℕ) (src : String) → is_quoted p ≡ true → IsPriced p src
quoted-IsPriced p src e r = ground (arith, e)

clob_side-Priced :
    (q : Option ClobQuote) (cur : Side) → SidePriced cur → SidePriced (clob_side q cur)
clob_side-Priced none cur h = h
clob_side-Priced (some q) cur h =
    if-cases SidePriced (is_quoted q.ask) _ _ (λ e. quoted-IsPriced q.ask "clob_ask" e) (λ e. h)

book_side-Priced :
    (b : Option WsBook) (q : Option ClobQuote) (cur : Side)
    → SidePriced cur
    → SidePriced (book_side b q cur)
book_side-Priced none q cur h = clob_side-Priced q cur h
book_side-Priced (some b) q cur h =
    if-cases SidePriced (is_quoted b.best_ask) _ _ (λ e. quoted-IsPriced b.best_ask "ws" e)
      (λ e. clob_side-Priced q cur h)

token_side-Priced :
    (t : Option String) (clob : Dict String ClobQuote) (ws : Dict String WsBook) (cur : Side)
    → SidePriced cur
    → SidePriced (token_side t clob ws cur)
token_side-Priced none clob ws cur h = h
token_side-Priced (some t) clob ws cur h = book_side-Priced (lookup t ws) (lookup t clob) cur h

synthetic_side-Priced :
    (q : Option ClobQuote) (cur : Side) → SidePriced cur → SidePriced (synthetic_side q cur)
synthetic_side-Priced none cur h = h
synthetic_side-Priced (some q) cur h =
    if-cases SidePriced
      ((cur.src == "implied") && is_quoted q.bid && is_quoted (usd - q.bid) && ltb 0 q.bid_depth) _
      _ (λ e. quoted-IsPriced (usd - q.bid) "clob_synthetic" (ground (arith, e))) (λ e. h)

implied-IsPriced : (p : ℕ) → IsPriced p "implied"
implied-IsPriced p r = absurd (ground (arith, r))

abbrev pub MarketPriced : PerMarket → Type 0
MarketPriced p = SidePriced p.yes × SidePriced p.no_side

-- Of each market, the side that a trusted book gives has a price above 0.
pub poly_per_market-Priced :
    (clob : Dict String ClobQuote) (ws : Dict String WsBook) (os : List Rough)
    → All MarketPriced (poly_per_market clob ws os)
unfolding poly_per_market market_sides
poly_per_market-Priced clob ws [] = tt
poly_per_market-Priced clob ws (o ∷ os) = (
  (
    token_side-Priced o.token_id_yes clob ws _ (implied-IsPriced o.implied),
    synthetic_side-Priced (yes_clob o.token_id_yes clob) _
        (token_side-Priced o.token_id_no clob ws _ (implied-IsPriced _)),
  ),
  poly_per_market-Priced clob ws os,
)

abbrev pub OutcomePriced : DealOutcome → Type 0
OutcomePriced o = IsPriced o.price o.source

pub yes_out-Priced : (ps : List PerMarket) → All MarketPriced ps → All OutcomePriced (yes_out ps)
unfolding yes_out
yes_out-Priced [] h = tt
yes_out-Priced (p ∷ ps) h = (h.0.0, yes_out-Priced ps h.1)

pub no_out-Priced : (ps : List PerMarket) → All MarketPriced ps → All OutcomePriced (no_out ps)
unfolding no_out
no_out-Priced [] h = tt
no_out-Priced (p ∷ ps) h =
    if-cases (λ (os : List DealOutcome). All OutcomePriced os) (is_quoted p.no_side.price) _ _
      (λ e. (h.0.1, no_out-Priced ps h.1)) (λ e. no_out-Priced ps h.1)

pub pair_out-Priced : (p : PerMarket) → MarketPriced p → All OutcomePriced (pair_out p)
pair_out-Priced p h = (h.0, (h.1, tt))

-- The legs of a deal come from trusted books, so their prices are above 0.
pub tradable_priced :
    (os : List DealOutcome)
    → all_tradable os ≡ true
    → All OutcomePriced os
    → All (λ o. 0 < o.price) os
unfolding all_tradable
tradable_priced [] e h = tt
tradable_priced (o ∷ os) e h = (h.0 (ground (arith, e)), tradable_priced os (ground (arith, e)) h.1)

pub total_positive :
    (os : List DealOutcome) → 0 < length os → All (λ o. 0 < o.price) os → 0 < total_of os
unfolding total_of
total_positive [] l h = absurd (omega (arith, l))
total_positive (o ∷ os) l h = omega (arith, h.0)
