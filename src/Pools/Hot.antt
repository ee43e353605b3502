-- ===== src/Pools/Hot.antt =====
-- Scripts/arb_server.py and Scripts/radar/eval/pools.py: the structures of eval_kalshi against the least
-- of the sums in _sum_kalshi_cand.
use polymarket_radar.Base.{
  ℕ, suc, ◌+◌, ◌-◌, ◌*◌, ◌≤◌, ◌<◌, ◌≡◌, refl, sym, ap, subst, ◌∙◌, String, true, false, ◌&&◌,
  Option, none, some, List, [], ◌∷◌, ◌++◌, map, All, All-append_inv, length, ltb, leb, eqb,
  if◌then◌else◌, string_key, nat_key, pair_key, arith, if-cases,
}
use polymarket_radar.Base.Dict.{Dict, lookup}
use polymarket_radar.Base.Frac.{Frac, whole, ltb_frac, ◌≤/◌}
use polymarket_radar.Deals.Build.{usd, Sizing}
use polymarket_radar.Deals.Limitless.{LimQuote}
use polymarket_radar.Deals.Poly.{total_of}
use polymarket_radar.Deals.Kalshi.{
  KalshiLimits, KalshiMarket, KalshiLeg, priced_leg, kalshi_priced, yes_outs, no_outs,
  kalshi_all_yes, kalshi_all_no, kalshi_pair, kalshi_pairs,
}
use polymarket_radar.Pools.Sums.{
  SumLeg, sum_yes, sum_no, no_raw, less_of, pair_min, pair_sums, no_share, least_from, least,
  kalshi_leg, kalshi_legs, kalshi_sums,
}
use polymarket_radar.Pools.Classify.{with_limit}
use polymarket_radar.Pools.Split.{HasDen, is_below}
use polymarket_radar.Pools.Pooled.{le_trans}

-- The least of the sums is not below `limit` only where none of them is.
abbrev pub AtLeast : ℕ → Frac → Type 0
AtLeast limit s = whole limit ≤/ s

least_from-AtLeast :
    (limit : ℕ) (m : Frac) (xs : List Frac)
    → HasDen m
    → All HasDen xs
    → AtLeast limit (least_from m xs)
    → AtLeast limit m × All (AtLeast limit) xs
least_from-AtLeast limit m [] d ds h = (h, tt)
least_from-AtLeast limit m (x ∷ xs) d ds h =
    let next = if ltb_frac x m then x else m in
    let (here, rest) =
      least_from-AtLeast limit next xs (if-cases HasDen (ltb_frac x m) x m (λ e. ds.0) (λ e. d))
        ds.1 h in
    let both =
      if-cases (λ n. AtLeast limit n → AtLeast limit m × AtLeast limit x) (ltb_frac x m) x m
        (λ e k. (le_trans (whole limit) x m ds.0 k (ground (arith, e)), k))
        (λ e k. (k, le_trans (whole limit) m x d k (ground (arith, e)))) here in
    (both.0, (both.1, rest))

pub least-AtLeast :
    (limit : ℕ) (xs : List Frac)
    → All HasDen xs
    → is_below (with_limit limit (least xs)) ≡ false
    → All (AtLeast limit) xs
unfolding least
least-AtLeast limit [] ds h = tt
least-AtLeast limit (x ∷ xs) ds h = least_from-AtLeast limit x xs ds.0 ds.1 (ground (arith, h))

-- The pairs: the least of their sums is at most each.
abbrev pub OptionAtLeast : ℕ → Option ℕ → Type 0
OptionAtLeast limit none = Unit
OptionAtLeast limit (some m) = limit ≤ m

less_of-AtLeast :
    (limit s : ℕ) (m : Option ℕ)
    → OptionAtLeast limit (less_of s m)
    → (limit ≤ s) × OptionAtLeast limit m
less_of-AtLeast limit s none h = (h, tt)
less_of-AtLeast limit s (some m) h = ground (arith, h)

pub pair_min-AtLeast :
    (limit : ℕ) (ps : List SumLeg) (m : Option ℕ)
    → OptionAtLeast limit (pair_min ps m)
    → OptionAtLeast limit m
      × All
          (λ p. (ltb 0 p.no_price && ltb 0 p.yes && p.alive) ≡ true → limit ≤ p.yes + p.no_price)
          ps
unfolding pair_min
pair_min-AtLeast limit [] m h = (h, tt)
pair_min-AtLeast limit (p ∷ ps) m h =
    let (here, rest) =
      pair_min-AtLeast limit ps
        (if ltb 0 p.no_price && ltb 0 p.yes && p.alive then less_of (p.yes + p.no_price) m else m)
        h in
    ground (arith, here, rest, less_of-AtLeast limit (p.yes + p.no_price) m)

-- The legs of the evaluator are those of the sum.
abbrev pub tickers_of : List KalshiMarket → List String
tickers_of ms = map (λ m. m.ticker) ms

abbrev pub leg_of : KalshiLeg → SumLeg
leg_of p = record { yes = p.yes_price; no_price = p.no_price; alive = true }

abbrev pub legs_of : List KalshiLeg → List SumLeg
legs_of ls = map leg_of ls

pub length-tickers_of : (ms : List KalshiMarket) → length (tickers_of ms) ≡ length ms
length-tickers_of [] = refl
length-tickers_of (m ∷ ms) = ap suc (length-tickers_of ms)

kalshi_leg-legs_of :
    (name : String) (q : Option LimQuote) (ls : List KalshiLeg)
    → kalshi_leg q (legs_of ls) ≡ legs_of (priced_leg name q ls)
kalshi_leg-legs_of name none ls = refl
kalshi_leg-legs_of name (some q) ls = ground arith

pub kalshi_legs-tickers_of :
    (res : Dict String LimQuote) (ms : List KalshiMarket)
    → kalshi_legs res (tickers_of ms) ≡ legs_of (kalshi_priced res ms)
unfolding kalshi_legs kalshi_priced
kalshi_legs-tickers_of res [] = refl
kalshi_legs-tickers_of res (m ∷ ms) =
    ap (kalshi_leg (lookup m.ticker res)) (kalshi_legs-tickers_of res ms)
    ∙ kalshi_leg-legs_of m.name (lookup m.ticker res) (kalshi_priced res ms)

yes_outs_sums :
    (ls : List KalshiLeg)
    → (total_of (yes_outs ls) ≡ sum_yes (legs_of ls)) × (length (yes_outs ls) ≡ length (legs_of ls))
unfolding yes_outs total_of sum_yes
yes_outs_sums [] = (refl, refl)
yes_outs_sums (p ∷ ls) = ground (arith, yes_outs_sums ls)

no_outs_sums :
    (ls : List KalshiLeg)
    → (total_of (no_outs ls) ≡ sum_no (no_raw (legs_of ls)))
      × (length (no_outs ls) ≡ length (no_raw (legs_of ls)))
unfolding no_outs total_of sum_no
no_outs_sums [] = (refl, refl)
no_outs_sums (p ∷ ls) = ground (arith, no_outs_sums ls)

abbrev IsPriced : KalshiLeg → Type 0
IsPriced p = 0 < p.yes_price

priced_leg-IsPriced :
    (name : String) (q : Option LimQuote) (ls : List KalshiLeg)
    → All IsPriced ls
    → All IsPriced (priced_leg name q ls)
priced_leg-IsPriced name none ls h = h
priced_leg-IsPriced name (some q) ls h = ground (arith, h)

pub kalshi_priced-IsPriced :
    (res : Dict String LimQuote) (ms : List KalshiMarket) → All IsPriced (kalshi_priced res ms)
unfolding kalshi_priced
kalshi_priced-IsPriced res [] = tt
kalshi_priced-IsPriced res (m ∷ ms) =
    priced_leg-IsPriced m.name (lookup m.ticker res) (kalshi_priced res ms)
      (kalshi_priced-IsPriced res ms)

-- No structure costs less than the least of the sums.
module _ (s : Sizing) (c : KalshiLimits) (total : ℕ) (ls : List KalshiLeg) where
  pub kalshi_all_yes_none :
      (eqb (length (legs_of ls)) total && leb usd (2 * sum_yes (legs_of ls)) ≡ true
        → c.thresh ≤ sum_yes (legs_of ls))
      → kalshi_all_yes s c total (yes_outs ls) ≡ []
  unfolding kalshi_all_yes
  kalshi_all_yes_none h = ground (arith, h, yes_outs_sums ls)

  pub kalshi_all_no_none :
      (leb 3 (length (no_raw (legs_of ls))) && eqb (length (no_raw (legs_of ls))) total ≡ true
        → (length (no_raw (legs_of ls)) - 1) * c.thresh ≤ sum_no (no_raw (legs_of ls)))
      → kalshi_all_no s c total (no_outs ls) ≡ []
  unfolding kalshi_all_no
  kalshi_all_no_none h =
      let (cost, many) = no_outs_sums ls in
      let k =
        subst (λ n. leb 3 n && eqb n total ≡ true → (n - 1) * c.thresh ≤ total_of (no_outs ls))
          (sym many)
          (subst
            (λ t.
              leb 3 (length (no_raw (legs_of ls))) && eqb (length (no_raw (legs_of ls))) total
                ≡ true
              → (length (no_raw (legs_of ls)) - 1) * c.thresh ≤ t)
            (sym cost) h) in
      ground (arith, k)

pub kalshi_pairs_none :
    (s : Sizing) (c : KalshiLimits) (ls : List KalshiLeg)
    → All IsPriced ls
    → All
        (λ p. (ltb 0 p.no_price && ltb 0 p.yes && p.alive) ≡ true → c.thresh ≤ p.yes + p.no_price)
        (legs_of ls)
    → kalshi_pairs s c ls ≡ []
unfolding kalshi_pairs kalshi_pair
kalshi_pairs_none s c [] ps h = refl
kalshi_pairs_none s c (p ∷ ls) ps h = ground (arith, ps.0, h.0, kalshi_pairs_none s c ls ps.1 h.1)

-- The three together, where the least of the sums is not below the threshold.
module _ (s : Sizing) (c : KalshiLimits) (total : ℕ) (ls : List KalshiLeg) where
  pub AllAtLeast-kalshi_sums :
      All (AtLeast c.thresh) (kalshi_sums total (legs_of ls))
      → (eqb (length (legs_of ls)) total && leb usd (2 * sum_yes (legs_of ls)) ≡ true
          → c.thresh ≤ sum_yes (legs_of ls))
        × (leb 3 (length (no_raw (legs_of ls))) && eqb (length (no_raw (legs_of ls))) total ≡ true
            → (length (no_raw (legs_of ls)) - 1) * c.thresh ≤ sum_no (no_raw (legs_of ls)))
        × OptionAtLeast c.thresh (pair_min (legs_of ls) none)
  unfolding kalshi_sums
  AllAtLeast-kalshi_sums h =
      let legs = legs_of ls in
      let no_legs = no_raw legs in
      let full = eqb (length legs) total && leb usd (2 * sum_yes legs) in
      let all_no = leb 3 (length no_legs) && eqb (length no_legs) total in
      let as_yes = if full then whole (sum_yes legs) ∷ [] else [] in
      let as_no = if all_no then no_share no_legs ∷ [] else [] in
      let (front, pairs) =
        All-append_inv (AtLeast c.thresh) (as_yes ++ as_no) (pair_sums (pair_min legs none)) h in
      let (left, right) = All-append_inv (AtLeast c.thresh) as_yes as_no front in
      (
        if-cases (λ l. All (AtLeast c.thresh) l → full ≡ true → c.thresh ≤ sum_yes legs) full
            (whole (sum_yes legs) ∷ []) [] (λ e k f. omega (arith, k.0))
            (λ e k f. ground (arith, e, f)) left,
        if-cases
            (λ l.
              All (AtLeast c.thresh) l
              → all_no ≡ true
              → (length no_legs - 1) * c.thresh ≤ sum_no no_legs)
            all_no (no_share no_legs ∷ []) [] (λ e k f. omega (arith, k.0))
            (λ e k f. ground (arith, e, f)) right,
        match-pair (pair_min legs none) pairs,
      )
    where
      match-pair : (o : Option ℕ) → All (AtLeast c.thresh) (pair_sums o) → OptionAtLeast c.thresh o
      match-pair none k = tt
      match-pair (some m) k = omega (arith, k.0)
