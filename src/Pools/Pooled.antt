-- ===== src/Pools/Pooled.antt =====
-- Scripts/radar/eval/pools.py: the pools of the four exchanges.
use native.Mathlib.Nat.{mul-le-mul_right, le_of_mul-le-mul_right}
use polymarket_radar.Base.{
  ℕ, ◌+◌, ◌*◌, ◌≤◌, ◌≡◌, String, Bool, true, ◌&&◌, Option, none, some, List, [], ◌∷◌, ◌++◌, All,
  All-append, length, any, is_empty, ltb, if◌then◌else◌, string_key, nat_key, pair_key, arith,
  if-cases,
}
use polymarket_radar.Base.Frac.{Frac, whole, ltb_frac, ◌≤/◌}
use polymarket_radar.Deals.SxBet.{SxMarket, SxQuote, binary_markets}
use polymarket_radar.Pools.Sums.{
  SumLeg, child_titles, no_raw, no_share, pair_sums, pair_min, least_from, least, group_sums,
  gather, sums_unless_empty, single_leg, sum_limitless_cand, poly_legs, poly_sums, sum_poly_cand,
  kalshi_legs, kalshi_sums, sum_kalshi_cand, sum_sx_asks, sum_sx_market,
}
use polymarket_radar.Pools.Classify.{
  cand_threshold, is_real_market, with_limit, rate_poly, by_sum, LimCand, by_sum_volume, PoolConfig,
  Quotes, rate_poly_in, rate_kalshi, rate_sx, rate_lim, classify_pools,
}
use polymarket_radar.Base.Dict.{Dict, lookup}
use polymarket_radar.Deals.Poly.{Candidate, total_outcomes_of, names_of}
use polymarket_radar.Deals.Series.{Patterns, is_threshold_series}
use polymarket_radar.Deals.Markets.{ClobQuote, WsBook, poly_per_market}
use polymarket_radar.Deals.Limitless.{LimQuote, quote_of}
use polymarket_radar.Pools.Split.{HasDen, rated, IsSplit, classify-IsSplit}

-- The order of fractions.
pub le_trans : (a b c : Frac) → HasDen b → a ≤/ b → b ≤/ c → a ≤/ c
le_trans a b c pos h k =
    let first = mul-le-mul_right c.den h in
    let second = mul-le-mul_right a.den k in
    le_of_mul-le-mul_right {m = a.num * c.den} {n = c.num * a.den} {k = b.den}
      (omega (arith, first, second)) pos

by_sum_trans {ℓ} :
    {A : Type ℓ} (x y z : Frac × A)
    → HasDen y.0
    → by_sum x y ≡ true
    → by_sum y z ≡ true
    → by_sum x z ≡ true
by_sum_trans x y z pos h k = ground (arith, le_trans x.0 y.0 z.0 pos)

by_sum_volume_trans :
    (x y z : Frac × LimCand)
    → HasDen x.0
    → HasDen y.0
    → HasDen z.0
    → by_sum_volume x y ≡ true
    → by_sum_volume y z ≡ true
    → by_sum_volume x z ≡ true
by_sum_volume_trans x y z p q r h k =
    ground (arith, le_trans x.0 y.0 z.0 q, le_trans y.0 z.0 x.0 r, le_trans z.0 x.0 y.0 p)

-- Every sum has a denominator.
abbrev OptionDen : Option Frac → Type 0
OptionDen none = Unit
OptionDen (some s) = HasDen s

least_from-HasDen :
    (m : Frac) (xs : List Frac) → HasDen m → All HasDen xs → HasDen (least_from m xs)
least_from-HasDen m [] h hs = h
least_from-HasDen m (x ∷ xs) h hs =
    least_from-HasDen (if ltb_frac x m then x else m) xs
      (if-cases HasDen (ltb_frac x m) x m (λ e. hs.0) (λ e. h)) hs.1

least-OptionDen : (xs : List Frac) → All HasDen xs → OptionDen (least xs)
unfolding least
least-OptionDen [] hs = tt
least-OptionDen (x ∷ xs) hs = least_from-HasDen x xs hs.0 hs.1

HasDen-rated : (limit : ℕ) (o : Option Frac) → OptionDen o → HasDen (rated (with_limit limit o))
HasDen-rated limit none h = omega arith
HasDen-rated limit (some s) h = h

pub pair_sums-HasDen : (o : Option ℕ) → All HasDen (pair_sums o)
pair_sums-HasDen none = tt
pair_sums-HasDen (some s) = (omega arith, tt)

-- The candidates for ALL_YES, ALL_NO and the pair.
sums-HasDen :
    (a b : Bool) (s : ℕ) (no_legs : List SumLeg) (o : Option ℕ)
    → (b ≡ true → 3 ≤ length no_legs)
    → All HasDen (
        (if a then whole s ∷ [] else [])
        ++ (if b then no_share no_legs ∷ [] else [])
        ++ pair_sums o)
sums-HasDen a b s no_legs o three =
    All-append HasDen
      ((if a then whole s ∷ [] else []) ++ (if b then no_share no_legs ∷ [] else [])) (pair_sums o)
      (All-append HasDen (if a then whole s ∷ [] else []) (if b then no_share no_legs ∷ [] else [])
        (if-cases (All HasDen) a (whole s ∷ []) [] (λ e. (omega arith, tt)) (λ e. tt))
        (if-cases (All HasDen) b (no_share no_legs ∷ []) [] (λ e. (omega (arith, three e), tt))
          (λ e. tt)))
      (pair_sums-HasDen o)

pub group_sums-HasDen :
    (is_series : Bool) (total missing : ℕ) (legs : List SumLeg)
    → All HasDen (group_sums is_series total missing legs)
unfolding group_sums
group_sums-HasDen is_series total missing legs =
    sums-HasDen _ _ _ (no_raw legs) _ (λ e. ground (arith, e))

pub poly_sums-HasDen :
    (is_single is_series : Bool) (total : ℕ) (legs : List SumLeg)
    → All HasDen (poly_sums is_single is_series total legs)
unfolding poly_sums
poly_sums-HasDen is_single is_series total legs =
    sums-HasDen _ _ _ (no_raw legs) _ (λ e. ground (arith, e))

pub kalshi_sums-HasDen : (total : ℕ) (legs : List SumLeg) → All HasDen (kalshi_sums total legs)
unfolding kalshi_sums
kalshi_sums-HasDen total legs = sums-HasDen _ _ _ (no_raw legs) _ (λ e. ground (arith, e))

sums_unless_empty-OptionDen :
    (legs : List SumLeg) (sums : List Frac)
    → All HasDen sums
    → OptionDen (sums_unless_empty legs sums)
sums_unless_empty-OptionDen [] sums h = tt
sums_unless_empty-OptionDen (p ∷ ps) sums h = least-OptionDen sums h

sum_limitless_cand-OptionDen :
    (q : Quotes) (x : LimCand)
    → OptionDen (sum_limitless_cand q.patterns q.lim_volume q.lim_res x.event)
unfolding sum_limitless_cand
sum_limitless_cand-OptionDen q x =
    let ev = x.event in
    let (legs, missing) = gather q.lim_volume q.lim_res ev.children in
    let is_series = is_threshold_series q.patterns ev.title (child_titles ev.children) [] in
    let sums = group_sums is_series (length ev.children) missing legs in
    let pair = pair_sums (pair_min (single_leg q.lim_volume (quote_of q.lim_res ev.slug)) none) in
    if-cases OptionDen (is_empty ev.children) (least pair) (sums_unless_empty legs sums)
      (λ e.
        least-OptionDen pair
          (pair_sums-HasDen (pair_min (single_leg q.lim_volume (quote_of q.lim_res ev.slug)) none)))
      (λ e.
        sums_unless_empty-OptionDen legs sums
          (group_sums-HasDen is_series (length ev.children) missing legs))

sum_poly_cand-OptionDen :
    (r : Patterns) (clob : Dict String ClobQuote) (ws : Dict String WsBook) (cand : Candidate)
    → OptionDen (sum_poly_cand r clob ws cand)
unfolding sum_poly_cand
sum_poly_cand-OptionDen r clob ws cand =
    let per = poly_per_market clob ws cand.rough in
    let is_series = is_threshold_series r cand.title (names_of per) [] in
    let total = total_outcomes_of cand per in
    let sums = poly_sums cand.is_single_binary is_series total (poly_legs per) in
    if-cases OptionDen (ltb (length per) (if cand.is_single_binary then 1 else 2)) none (least sums)
      (λ e. tt)
      (λ e.
        least-OptionDen sums
          (poly_sums-HasDen cand.is_single_binary is_series total (poly_legs per)))

rate_poly-HasDen :
    (c : PoolConfig) (q : Quotes) (x : Candidate) → HasDen (rated (rate_poly_in c q x))
unfolding rate_poly
rate_poly-HasDen c q x =
    let limit = cand_threshold c.limits q.taker_fee x in
    let sum = sum_poly_cand q.patterns q.clob_res q.ws_books x in
    if-cases (λ o. HasDen (rated o))
      (any is_real_market (poly_per_market q.clob_res q.ws_books x.rough)) (with_limit limit sum)
      none
      (λ e. HasDen-rated limit sum (sum_poly_cand-OptionDen q.patterns q.clob_res q.ws_books x))
      (λ e. HasDen-rated 0 none tt)

sum_kalshi_cand-OptionDen :
    (res : Dict String LimQuote) (tickers : List String) → OptionDen (sum_kalshi_cand res tickers)
unfolding sum_kalshi_cand
sum_kalshi_cand-OptionDen res tickers =
    let legs = kalshi_legs res tickers in
    let sums = kalshi_sums (length tickers) legs in
    if-cases OptionDen (ltb (length legs) 2) none (least sums) (λ e. tt)
      (λ e. least-OptionDen sums (kalshi_sums-HasDen (length tickers) legs))

sum_sx_asks-OptionDen : (o : Option SxQuote) → OptionDen (sum_sx_asks o)
sum_sx_asks-OptionDen none = tt
sum_sx_asks-OptionDen (some q) =
    if-cases OptionDen (ltb 0 q.best1 && ltb 0 q.best2) (some (whole (q.best1 + q.best2))) none
      (λ e. omega arith) (λ e. tt)

sum_sx_market-OptionDen :
    (orders : Dict String SxQuote) (hash : String) → OptionDen (sum_sx_market orders hash)
unfolding sum_sx_market
sum_sx_market-OptionDen orders hash = sum_sx_asks-OptionDen (lookup hash orders)

-- Each pool is split by what the code rates its candidates, at SX Bet of those `binary_markets` keeps.
pub classify_pools-IsSplit :
    (c : PoolConfig) (q : Quotes) (pc : List Candidate) (kc : List (List String))
    (sx_markets : List SxMarket) (lim_events : List LimCand)
    → let pools = classify_pools c q pc kc sx_markets lim_events in
      IsSplit by_sum (rate_poly_in c q) c.near_buffer pc pools.poly
      × IsSplit by_sum (rate_kalshi c q) c.near_buffer kc pools.kalshi
      × IsSplit by_sum
          (rate_sx c q)
          c.near_buffer
          (binary_markets c.is_sx_binary [] sx_markets)
          pools.sx
      × IsSplit by_sum_volume (rate_lim c q) c.near_buffer lim_events pools.lim
unfolding classify_pools
classify_pools-IsSplit c q pc kc sx_markets lim_events = (
  classify-IsSplit by_sum (rate_poly_in c q) c.near_buffer (rate_poly-HasDen c q)
      (λ x y h. ground arith) (λ x y z a b d. by_sum_trans x y z b) pc,
  classify-IsSplit by_sum (rate_kalshi c q) c.near_buffer
      (λ x. HasDen-rated c.thresh_kalshi _ (sum_kalshi_cand-OptionDen q.kalshi_res x))
      (λ x y h. ground arith) (λ x y z a b d. by_sum_trans x y z b) kc,
  classify-IsSplit by_sum (rate_sx c q) c.near_buffer
      (λ x. HasDen-rated c.thresh_sx _ (sum_sx_market-OptionDen q.sx_res x.market_hash))
      (λ x y h. ground arith) (λ x y z a b d. by_sum_trans x y z b)
      (binary_markets c.is_sx_binary [] sx_markets),
  classify-IsSplit by_sum_volume (rate_lim c q) c.near_buffer
      (λ x. HasDen-rated c.thresh_limitless _ (sum_limitless_cand-OptionDen q x))
      (λ x y h. ground arith) by_sum_volume_trans lim_events,
)
