-- ===== src/Pools/Listed.antt =====
-- Scripts/radar/eval/pools.py: the candidates that classify_pools lists.
use polymarket_radar.Base.{
  ℕ, ◌+◌, ◌≡◌, refl, ap, ◌∙◌, String, Bool, not, ◌&&◌, Option, none, some, List, [], ◌∷◌, Pairs,
  any, count, string_key, nat_key, pair_key, arith, if-cases,
}
use polymarket_radar.Base.Frac.{Frac}
use polymarket_radar.Deals.Build.{is_real_source}
use polymarket_radar.Deals.SxBet.{SxMarket, binary_markets}
use polymarket_radar.Deals.Markets.{poly_per_market}
use polymarket_radar.Deals.Poly.{Candidate}
use polymarket_radar.Pools.Sums.{sum_limitless_cand, sum_poly_cand, sum_kalshi_cand, sum_sx_market}
use polymarket_radar.Pools.Classify.{
  Pool, cand_threshold, with_limit, rate_poly, by_sum, LimCand, by_sum_volume, PoolConfig, Quotes,
  rate_poly_in, rate_kalshi, rate_sx, rate_lim, classify_pools,
}
use polymarket_radar.Pools.Split.{is_below, is_close, Before, IsSplit}
use polymarket_radar.Pools.Pooled.{classify_pools-IsSplit}
use polymarket_radar.Pools.Below.{poly_below, kalshi_below, sx_below, lim_below}
use polymarket_radar.Pools.Scored.{
  sum_poly_cand-below, sum_kalshi_cand-below, sum_sx_market-below, sum_limitless_cand-below,
}

-- With the rating of a candidate, the hot list has those below their limit and the near list those that
-- are not, but below the limit and the buffer together, each as often as it was given. Both are in order.
abbrev pub IsListed :
    {A : Type 0}
    → (Frac × A → Frac × A → Bool)
    → (A → Option (Frac × ℕ))
    → (ℕ → A → Bool)
    → (A → ℕ)
    → ℕ
    → List A
    → Pool A
    → Type 0
IsListed {A} le rate costs_below limit_of buffer xs pool =
    ((p : A → Bool) → count p pool.hot ≡ count (λ x. costs_below (limit_of x) x && p x) xs)
    × ((p : A → Bool)
        → count p pool.near
          ≡ count
              (λ x. not (costs_below (limit_of x) x) && costs_below (limit_of x + buffer) x && p x)
              xs)
    × Pairs (Before le rate buffer) pool.hot
    × Pairs (Before le rate buffer) pool.near

count_alike :
    {A : Type 0} (p q : A → Bool) → ((x : A) → p x ≡ q x) → (xs : List A) → count p xs ≡ count q xs
count_alike p q h [] = refl
count_alike p q h (x ∷ xs) = ground (arith, h x, count_alike p q h xs)

close_with_limit :
    (limit buffer : ℕ) (o : Option Frac)
    → is_close buffer (with_limit limit o)
      ≡ (not (is_below (with_limit limit o)) && is_below (with_limit (limit + buffer) o))
close_with_limit limit buffer none = refl
close_with_limit limit buffer (some s) = refl

split-IsListed :
    {A : Type 0} (le : Frac × A → Frac × A → Bool) (rate : A → Option (Frac × ℕ))
    (costs_below : ℕ → A → Bool) (limit_of : A → ℕ) (buffer : ℕ) (xs : List A) (pool : Pool A)
    → ((x : A) → is_below (rate x) ≡ costs_below (limit_of x) x)
    → ((x : A)
        → is_close buffer (rate x)
          ≡ (not (costs_below (limit_of x) x) && costs_below (limit_of x + buffer) x))
    → IsSplit le rate buffer xs pool
    → IsListed le rate costs_below limit_of buffer xs pool
split-IsListed le rate costs_below limit_of buffer xs pool h k (hot, near, hot_order, near_order) =
    (
      λ p.
          hot p
          ∙ count_alike (λ x. is_below (rate x) && p x) (λ x. costs_below (limit_of x) x && p x)
              (λ x. ap (λ b. b && p x) (h x)) xs,
      λ p.
          near p
          ∙ count_alike (λ x. is_close buffer (rate x) && p x)
              (λ x. not (costs_below (limit_of x) x) && costs_below (limit_of x + buffer) x && p x)
              (λ x. ground (arith, k x)) xs,
      hot_order,
      near_order,
    )

-- One limit for all candidates of an exchange.
scored-IsListed :
    {A : Type 0} (le : Frac × A → Frac × A → Bool) (score : A → Option Frac)
    (costs_below : ℕ → A → Bool) (limit buffer : ℕ) (xs : List A) (pool : Pool A)
    → ((l : ℕ) (x : A) → is_below (with_limit l (score x)) ≡ costs_below l x)
    → IsSplit le (λ x. with_limit limit (score x)) buffer xs pool
    → IsListed le (λ x. with_limit limit (score x)) costs_below (λ x. limit) buffer xs pool
scored-IsListed le score costs_below limit buffer xs pool h split =
    split-IsListed le (λ x. with_limit limit (score x)) costs_below (λ x. limit) buffer xs pool
      (λ x. h limit x)
      (λ x.
        ground (arith, close_with_limit limit buffer (score x), h limit x, h (limit + buffer) x))
      split

abbrev pub limit_in : PoolConfig → Quotes → Candidate → ℕ
limit_in c q cand = cand_threshold c.limits q.taker_fee cand

rate_poly-below :
    (c : PoolConfig) (q : Quotes) (x : Candidate)
    → (is_below (rate_poly_in c q x) ≡ poly_below q (limit_in c q x) x)
      × (is_close c.near_buffer (rate_poly_in c q x) ≡ (
          not (poly_below q (limit_in c q x) x) && poly_below q (limit_in c q x + c.near_buffer) x))
unfolding rate_poly
rate_poly-below c q x =
    let l = limit_in c q x in
    let score = sum_poly_cand q.patterns q.clob_res q.ws_books x in
    let is_real =
      any (λ p. is_real_source p.yes.src && is_real_source p.no_side.src)
        (poly_per_market q.clob_res q.ws_books x.rough) in
    if-cases
      (λ r.
        (is_below r ≡ poly_below q l x)
        × (is_close c.near_buffer r
            ≡ (not (poly_below q l x) && poly_below q (l + c.near_buffer) x)))
      is_real (with_limit l score) none
      (λ e.
        let near = sum_poly_cand-below q l x e in
        let far = sum_poly_cand-below q (l + c.near_buffer) x e in
        (near, ground (arith, close_with_limit l c.near_buffer score, near, far)))
      (λ e. (ground (arith, e), ground (arith, e)))

-- For each exchange `classify_pools` puts exactly the candidates with a structure that costs less than
-- their threshold in the hot list, and exactly those with none but with one that costs less than the
-- threshold and the buffer together in the near list, each as often as it was given. A structure is every YES,
-- every NO or a pair, each where the exchange's guards allow it; the cost is for a payout of $1. A
-- candidate of Polymarket also needs a market that order books quote on both sides. Both lists are in
-- the order of the sums, at Limitless then of falling volume. At SX Bet the candidates are those that
-- `binary_markets` keeps.
pub classify_pools-IsListed :
    (c : PoolConfig) (q : Quotes) (pc : List Candidate) (kc : List (List String))
    (sx_markets : List SxMarket) (lim_events : List LimCand)
    → let pools = classify_pools c q pc kc sx_markets lim_events in
      IsListed by_sum (rate_poly_in c q) (poly_below q) (limit_in c q) c.near_buffer pc pools.poly
      × IsListed by_sum
          (rate_kalshi c q)
          (kalshi_below q)
          (λ x. c.thresh_kalshi)
          c.near_buffer
          kc
          pools.kalshi
      × IsListed by_sum
          (rate_sx c q)
          (sx_below q)
          (λ x. c.thresh_sx)
          c.near_buffer
          (binary_markets c.is_sx_binary [] sx_markets)
          pools.sx
      × IsListed by_sum_volume
          (rate_lim c q)
          (lim_below q)
          (λ x. c.thresh_limitless)
          c.near_buffer
          lim_events
          pools.lim
classify_pools-IsListed c q pc kc sx_markets lim_events =
    let pools = classify_pools c q pc kc sx_markets lim_events in
    let (poly, kalshi, sx, lim) = classify_pools-IsSplit c q pc kc sx_markets lim_events in
    (
      split-IsListed by_sum (rate_poly_in c q) (poly_below q) (limit_in c q) c.near_buffer pc
          pools.poly (λ x. (rate_poly-below c q x).0) (λ x. (rate_poly-below c q x).1) poly,
      scored-IsListed by_sum (λ x. sum_kalshi_cand q.kalshi_res x) (kalshi_below q) c.thresh_kalshi
          c.near_buffer kc pools.kalshi (sum_kalshi_cand-below q) kalshi,
      scored-IsListed by_sum (λ x. sum_sx_market q.sx_res x.market_hash) (sx_below q) c.thresh_sx
          c.near_buffer (binary_markets c.is_sx_binary [] sx_markets) pools.sx
          (sum_sx_market-below q) sx,
      scored-IsListed by_sum_volume
          (λ x. sum_limitless_cand q.patterns q.lim_volume q.lim_res x.event) (lim_below q)
          c.thresh_limitless c.near_buffer lim_events pools.lim (sum_limitless_cand-below q) lim,
    )
