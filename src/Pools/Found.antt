-- ===== src/Pools/Found.antt =====
-- Scripts/arb_server.py: a deal that eval_kalshi or eval_sx finds is on a candidate of the hot pool.
use polymarket_radar.Base.{
  ℕ, suc, ◌≡◌, refl, ap, subst, ◌∙◌, String, Bool, false, Option, none, some, List, [], ◌∷◌, ◌++◌,
  All, length, keep, ltb, if◌then◌else◌, string_key, nat_key, pair_key, arith, if-cases,
}
use polymarket_radar.Base.Dict.{Dict, lookup}
use polymarket_radar.Deals.Build.{Sizing}
use polymarket_radar.Deals.Limitless.{LimQuote}
use polymarket_radar.Deals.Kalshi.{
  KalshiLimits, KalshiMarket, KalshiLeg, kalshi_priced, yes_outs, no_outs, kalshi_all_yes,
  kalshi_all_no, kalshi_pairs, eval_kalshi_event, eval_kalshi,
}
use polymarket_radar.Deals.SxBet.{SxMarket, SxQuote, sx_deal, sx_deals, eval_sx, binary_markets}
use polymarket_radar.Pools.Sums.{least, kalshi_sums, sum_kalshi_cand, sum_sx_asks, sum_sx_market}
use polymarket_radar.Pools.Classify.{with_limit}
use polymarket_radar.Pools.Split.{is_below}
use polymarket_radar.Pools.Pooled.{kalshi_sums-HasDen}
use polymarket_radar.Pools.Hot.{
  AtLeast, least-AtLeast, pair_min-AtLeast, tickers_of, legs_of, length-tickers_of,
  kalshi_legs-tickers_of, kalshi_priced-IsPriced, kalshi_all_yes_none, kalshi_all_no_none,
  kalshi_pairs_none, AllAtLeast-kalshi_sums,
}

-- The sum of an event of Kalshi, or of a market of SX Bet, is below the threshold.
abbrev pub kalshi_is_hot : ℕ → Dict String LimQuote → List KalshiMarket → Bool
kalshi_is_hot limit res ms = is_below (with_limit limit (sum_kalshi_cand res (tickers_of ms)))

abbrev pub sx_is_hot : ℕ → Dict String SxQuote → SxMarket → Bool
sx_is_hot limit orders m = is_below (with_limit limit (sum_sx_market orders m.market_hash))

sum_kalshi_cand-tickers_of :
    (res : Dict String LimQuote) (ms : List KalshiMarket)
    → sum_kalshi_cand res (tickers_of ms) ≡ (
        let legs = legs_of (kalshi_priced res ms) in
        if ltb (length legs) 2 then none else least (kalshi_sums (length ms) legs))
unfolding sum_kalshi_cand
sum_kalshi_cand-tickers_of res ms =
    ap
      (λ legs.
        if ltb (length legs) 2 then none else least (kalshi_sums (length (tickers_of ms)) legs))
      (kalshi_legs-tickers_of res ms)
    ∙ ap
        (λ n.
          if ltb (length (legs_of (kalshi_priced res ms))) 2
          then none
          else least (kalshi_sums n (legs_of (kalshi_priced res ms))))
        (length-tickers_of ms)

length-legs_of : (ls : List KalshiLeg) → length (legs_of ls) ≡ length ls
length-legs_of [] = refl
length-legs_of (p ∷ ls) = ap suc (length-legs_of ls)

module _ (s : Sizing) (c : KalshiLimits) (res : Dict String LimQuote) where
  nothing_built :
      (ms : List KalshiMarket)
      → All (AtLeast c.thresh) (kalshi_sums (length ms) (legs_of (kalshi_priced res ms)))
      → kalshi_all_yes s c (length ms) (yes_outs (kalshi_priced res ms))
          ++ kalshi_all_no s c (length ms) (no_outs (kalshi_priced res ms))
          ++ kalshi_pairs s c (kalshi_priced res ms)
        ≡ []
  nothing_built ms h =
      let ls = kalshi_priced res ms in
      let (a, b, pairs) = AllAtLeast-kalshi_sums s c (length ms) ls h in
      let each = (pair_min-AtLeast c.thresh (legs_of ls) none pairs).1 in
      ground (
        arith,
        kalshi_all_yes_none s c (length ms) ls a,
        kalshi_all_no_none s c (length ms) ls b,
        kalshi_pairs_none s c ls (kalshi_priced-IsPriced res ms) each,
      )

  eval_kalshi_event_cold :
      (ms : List KalshiMarket)
      → kalshi_is_hot c.thresh res ms ≡ false
      → eval_kalshi_event s c res ms ≡ []
  unfolding eval_kalshi_event
  eval_kalshi_event_cold ms h =
      let ls = kalshi_priced res ms in
      let legs = legs_of ls in
      let sums = kalshi_sums (length ms) legs in
      let k =
        subst (λ o. is_below (with_limit c.thresh o) ≡ false) (sum_kalshi_cand-tickers_of res ms)
          h in
      if-cases (λ ds. ds ≡ []) (ltb (length ls) 2) []
        (kalshi_all_yes s c (length ms) (yes_outs ls)
          ++ kalshi_all_no s c (length ms) (no_outs ls)
          ++ kalshi_pairs s c ls)
        (λ e. refl)
        (λ e. nothing_built ms (
          least-AtLeast c.thresh sums (kalshi_sums-HasDen (length ms) legs) (
            if-cases
              (λ o.
                is_below (with_limit c.thresh o) ≡ false
                → is_below (with_limit c.thresh (least sums)) ≡ false)
              (ltb (length legs) 2) none (least sums) (λ f. ground (arith, e, f, length-legs_of ls))
              (λ f g. g) k)))

  -- The deals that `eval_kalshi` finds on some events are those it finds on the hot ones among them: an
  -- event whose least sum is at least the threshold gives no deal, whatever its structures.
  pub eval_kalshi_hot :
      (evs : List (List KalshiMarket))
      → eval_kalshi s c res evs ≡ eval_kalshi s c res (keep (kalshi_is_hot c.thresh res) evs)
  unfolding eval_kalshi
  eval_kalshi_hot [] = refl
  eval_kalshi_hot (ms ∷ evs) = ground (arith, eval_kalshi_event_cold ms, eval_kalshi_hot evs)

module _ (s : Sizing) (thresh theta : ℕ) (orders : Dict String SxQuote) where
  sx_deal_cold :
      (m : SxMarket) (q : Option SxQuote)
      → is_below (with_limit thresh (sum_sx_asks q)) ≡ false
      → sx_deal s thresh theta m q ≡ []
  unfolding sx_deal
  sx_deal_cold m none h = refl
  sx_deal_cold m (some q) h = ground (arith, h)

  sx_deals_hot :
      (ms : List SxMarket)
      → sx_deals s thresh theta orders ms
        ≡ sx_deals s thresh theta orders (keep (sx_is_hot thresh orders) ms)
  unfolding sx_deals sum_sx_market
  sx_deals_hot [] = refl
  sx_deals_hot (m ∷ ms) =
      ground (arith, sx_deal_cold m (lookup m.market_hash orders), sx_deals_hot ms)

  -- The deals that `eval_sx` finds on some markets are those on the hot ones among the binary markets
  -- with a hash of their own.
  pub eval_sx_hot :
      (is_binary : ℕ → Bool) (ms : List SxMarket)
      → eval_sx s thresh theta is_binary orders ms
        ≡ sx_deals s thresh theta orders
            (keep (sx_is_hot thresh orders) (binary_markets is_binary [] ms))
  unfolding eval_sx
  eval_sx_hot is_binary ms = sx_deals_hot (binary_markets is_binary [] ms)
