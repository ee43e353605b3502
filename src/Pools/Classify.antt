-- ===== src/Pools/Classify.antt =====
-- Scripts/radar/eval/pools.py: classify_pools and collect_poly_tokens.
use polymarket_radar.Base.{
  ℕ, ◌+◌, String, Bool, not, ◌&&◌, ◌||◌, Option, none, some, List, [], ◌∷◌, ◌++◌, map, any, leb,
  if◌then◌else◌, string_key, nat_key, pair_key,
}
use polymarket_radar.Base.Dict.{Dict}
use polymarket_radar.Base.Frac.{Frac, whole, ltb_frac}
use polymarket_radar.Base.Sort.{sort}
use polymarket_radar.Deals.Build.{is_real_source}
use polymarket_radar.Deals.SxBet.{SxMarket, SxQuote, binary_markets}
use polymarket_radar.Deals.Series.{Patterns}
use polymarket_radar.Deals.Markets.{ClobQuote, WsBook, PerMarket, Rough, poly_per_market}
use polymarket_radar.Deals.Poly.{
  Limits, Candidate, compute_poly_threshold, market_fees, highest_from,
}
use polymarket_radar.Deals.Limitless.{LimQuote, LimEvent}
use polymarket_radar.Pools.Sums.{sum_poly_cand, sum_limitless_cand, sum_kalshi_cand, sum_sx_market}

-- The pools of one exchange. In the loop a candidate stands with its sum.
pub record Pool {ℓ} (A : Type ℓ) : Type ℓ where
  pub hot : List A
  pub near : List A

-- One turn of a loop, over the sum of a candidate and the threshold for it, where it has a sum.
abbrev pub put_scored {ℓ} :
    {A : Type ℓ} → ℕ → A → Option (Frac × ℕ) → Pool (Frac × A) → Pool (Frac × A)
put_scored buffer x none pool = pool
put_scored buffer x (some (s, limit)) pool =
    if ltb_frac s (whole limit)
    then record pool { hot = (s, x) ∷ pool.hot }
    else if ltb_frac s (whole (limit + buffer))
    then record pool { near = (s, x) ∷ pool.near }
    else pool

-- The loop of one exchange, over what `rate` says of a candidate.
unfoldable pub split_pool {ℓ} :
    {A : Type ℓ} → (A → Option (Frac × ℕ)) → ℕ → List A → Pool (Frac × A)
split_pool rate buffer [] = record { hot = []; near = [] }
split_pool rate buffer (x ∷ xs) = put_scored buffer x (rate x) (split_pool rate buffer xs)

-- `sort`, and the candidates without their sums.
unfoldable pub sorted_items {ℓ} :
    {A : Type ℓ} → (Frac × A → Frac × A → Bool) → List (Frac × A) → List A
sorted_items le xs = map (λ x. x.1) (sort le xs)

unfoldable pub classify {ℓ} :
    {A : Type ℓ} → (Frac × A → Frac × A → Bool) → (A → Option (Frac × ℕ)) → ℕ → List A → Pool A
classify le rate buffer xs =
    let pool = split_pool rate buffer xs in
    record { hot = sorted_items le pool.hot; near = sorted_items le pool.near }

-- `_REAL_OB_SOURCES`: both sides of some market are quoted by an order book.
abbrev pub is_real_market : PerMarket → Bool
is_real_market p = is_real_source p.yes.src && is_real_source p.no_side.src

-- `cand_threshold`, where `fetch` is the cache of what is known of the markets.
abbrev pub cand_threshold : Limits → (String → Option ℕ) → Candidate → ℕ
cand_threshold c fetch cand =
    compute_poly_threshold c (highest_from 0 (market_fees fetch cand.rough))

abbrev pub with_limit : ℕ → Option Frac → Option (Frac × ℕ)
with_limit limit none = none
with_limit limit (some s) = some (s, limit)

unfoldable pub rate_poly :
    Limits
    → Patterns
    → (String → Option ℕ)
    → Dict String ClobQuote
    → Dict String WsBook
    → Candidate
    → Option (Frac × ℕ)
rate_poly c r fetch clob ws cand =
    if any is_real_market (poly_per_market clob ws cand.rough)
    then with_limit (cand_threshold c fetch cand) (sum_poly_cand r clob ws cand)
    else none

-- `sort(key=lambda x: x[0])` on the sums.
abbrev pub by_sum {ℓ} : {A : Type ℓ} → Frac × A → Frac × A → Bool
by_sum x y = not (ltb_frac y.0 x.0)

-- An event of Limitless with its volume, `_ev_volume`, and the order `(s, -volume)`.
pub record LimCand : Type 0 where
  pub event : LimEvent
  pub volume : ℕ

abbrev pub by_sum_volume : Frac × LimCand → Frac × LimCand → Bool
by_sum_volume x y = not (ltb_frac y.0 x.0) && (ltb_frac x.0 y.0 || leb (y.1).volume (x.1).volume)

pub record PoolConfig : Type 0 where
  pub near_buffer : ℕ
  pub thresh_kalshi : ℕ
  pub thresh_sx : ℕ
  pub thresh_limitless : ℕ
  pub is_sx_binary : ℕ → Bool
  pub limits : Limits

-- What the fetchers gave, with the metadata of the markets. An event of Kalshi is the list of the
-- tickers of its markets.
pub record Quotes : Type 0 where
  pub patterns : Patterns
  pub taker_fee : String → Option ℕ
  pub clob_res : Dict String ClobQuote
  pub ws_books : Dict String WsBook
  pub kalshi_res : Dict String LimQuote
  pub sx_res : Dict String SxQuote
  pub lim_res : Dict String LimQuote
  pub lim_volume : String → Option ℕ

pub record Pools : Type 0 where
  pub poly : Pool Candidate
  pub kalshi : Pool (List String)
  pub sx : Pool SxMarket
  pub lim : Pool LimCand

abbrev pub rate_poly_in : PoolConfig → Quotes → Candidate → Option (Frac × ℕ)
rate_poly_in c q = rate_poly c.limits q.patterns q.taker_fee q.clob_res q.ws_books

abbrev pub rate_kalshi : PoolConfig → Quotes → List String → Option (Frac × ℕ)
rate_kalshi c q tickers = with_limit c.thresh_kalshi (sum_kalshi_cand q.kalshi_res tickers)

abbrev pub rate_sx : PoolConfig → Quotes → SxMarket → Option (Frac × ℕ)
rate_sx c q m = with_limit c.thresh_sx (sum_sx_market q.sx_res m.market_hash)

abbrev pub rate_lim : PoolConfig → Quotes → LimCand → Option (Frac × ℕ)
rate_lim c q x =
    with_limit c.thresh_limitless (sum_limitless_cand q.patterns q.lim_volume q.lim_res x.event)

-- `classify_pools`
unfoldable pub classify_pools :
    PoolConfig → Quotes → List Candidate → List (List String) → List SxMarket → List LimCand → Pools
classify_pools c q pc kc sx_markets lim_events = record {
  poly = classify by_sum (rate_poly_in c q) c.near_buffer pc;
  kalshi = classify by_sum (rate_kalshi c q) c.near_buffer kc;
  sx = classify by_sum (rate_sx c q) c.near_buffer (binary_markets c.is_sx_binary [] sx_markets);
  lim = classify by_sum_volume (rate_lim c q) c.near_buffer lim_events;
}

-- `collect_poly_tokens`
abbrev pub token_list : Option String → List String
token_list none = []
token_list (some t) = t ∷ []

abbrev pub yes_tokens : List Rough → List String
yes_tokens [] = []
yes_tokens (o ∷ os) = token_list o.token_id_yes ++ yes_tokens os

abbrev pub no_tokens : List Rough → List String
no_tokens [] = []
no_tokens (o ∷ os) = token_list o.token_id_no ++ no_tokens os

abbrev pub cand_tokens : (List Rough → List String) → List Candidate → List String
cand_tokens f [] = []
cand_tokens f (x ∷ xs) = f x.rough ++ cand_tokens f xs

unfoldable pub collect_poly_tokens : Pool Candidate → List String
collect_poly_tokens pool =
    cand_tokens yes_tokens pool.hot
    ++ cand_tokens no_tokens pool.hot
    ++ cand_tokens yes_tokens pool.near
    ++ cand_tokens no_tokens pool.near
