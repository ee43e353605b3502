-- ===== src/Deals/Limitless/Covered.antt =====
-- A deal on Limitless pays more than it costs and covers its event.
use polymarket_radar.Base.{
  ℕ, suc, ◌+◌, ◌-◌, ◌*◌, ◌<◌, ◌≡◌, refl, sym, ap, subst, ◌∙◌, String, Bool, not, ◌&&◌, Option, none,
  some, List, [], ◌∷◌, All, All-append, length, ltb, leb, eqb, if◌then◌else◌, arith, if-cases,
}
use polymarket_radar.Base.Dict.{Dict}
use polymarket_radar.Deals.Build.{Sizing, Deal}
use polymarket_radar.Deals.Series.{Patterns, is_threshold_series}
use polymarket_radar.Deals.Markets.{is_quoted}
use polymarket_radar.Deals.Poly.{
  Structure, all_yes, all_no, yes_no_pair, binary, PolyDeal, total_of,
}
use polymarket_radar.Deals.Poly.Priced.{OutcomePriced}
use polymarket_radar.Deals.Poly.Pays.{
  guaranteed, legs_wanted, Pays, build_deal-Pays, kept-All, All-none_if, All-only_if,
}
use polymarket_radar.Deals.Limitless.{
  LimQuote, Child, LimMarket, LimLimits, LimEvent, Collected, quote_of, market_of, add_child,
  collect, lim_quality_ok, yes_outcomes, no_raw, no_outcomes, lim_all_yes, lim_all_no, lim_pair_out,
  lim_pair, lim_pairs, lim_names, lim_slugs, eval_group, eval_quoted, eval_lim_event,
}

abbrev pub IsCovered : ℕ → PolyDeal → Type 0
IsCovered outcomes d =
    Pays (guaranteed d.structure (length d.deal.entries)) d.deal
    × (length d.deal.entries ≡ legs_wanted d.structure outcomes)

abbrev YesPriced : LimMarket → Type 0
YesPriced p = 0 < p.yes_price

-- What the loop over `n` children has collected.
abbrev IsTally : ℕ → Collected → Type 0
IsTally n g = (length g.per_market + g.missing_yes ≡ n) × All YesPriced g.per_market

add_child-IsTally :
    (volume_of : String → ℕ) (name : String) (q : Option (String × LimQuote)) (n : ℕ)
    (g : Collected)
    → IsTally n g
    → IsTally (suc n) (add_child volume_of name q g)
add_child-IsTally volume_of name none n g h = (omega (arith, h.0), h.1)
add_child-IsTally volume_of name (some (slug, q)) n g h =
    if-cases (IsTally (suc n)) (is_quoted q.yes_ask) _ _
      (λ e. (omega (arith, h.0), (ground (arith, e), h.1))) (λ e. (omega (arith, h.0), h.1))

collect-IsTally :
    (volume_of : String → ℕ) (res : Dict String LimQuote) (cs : List Child)
    → IsTally (length cs) (collect volume_of res cs)
unfolding collect
collect-IsTally volume_of res [] = (refl, tt)
collect-IsTally volume_of res (c ∷ cs) =
    add_child-IsTally volume_of c.name (quote_of res c.slug) (length cs) (collect volume_of res cs)
      (collect-IsTally volume_of res cs)

yes_outcomes-Priced : (ps : List LimMarket) → All YesPriced ps → All OutcomePriced (yes_outcomes ps)
unfolding yes_outcomes
yes_outcomes-Priced [] h = tt
yes_outcomes-Priced (p ∷ ps) h = (λ r. h.0, yes_outcomes-Priced ps h.1)

length-yes_outcomes : (ps : List LimMarket) → length (yes_outcomes ps) ≡ length ps
unfolding yes_outcomes
length-yes_outcomes [] = refl
length-yes_outcomes (p ∷ ps) = ap suc (length-yes_outcomes ps)

no_outcomes-Priced : (ps : List LimMarket) → All OutcomePriced (no_outcomes (no_raw ps))
unfolding no_outcomes no_raw
no_outcomes-Priced [] = tt
no_outcomes-Priced (p ∷ ps) =
    if-cases (λ (qs : List LimMarket). All OutcomePriced (no_outcomes qs)) (ltb 0 p.no_price) _ _
      (λ e. (λ r. ground (arith, e), no_outcomes-Priced ps)) (λ e. no_outcomes-Priced ps)

lim_all_yes-Covered :
    (s : Sizing) (c : LimLimits) (is_series : Bool) (n : ℕ) (g : Collected)
    → IsTally n g
    → All (IsCovered n) (lim_all_yes s c is_series g)
unfolding lim_all_yes
lim_all_yes-Covered s c is_series n g h =
    let os = yes_outcomes g.per_market in
    let total = total_of os in
    kept-All (IsCovered n)
      (c.enable_a && eqb g.missing_yes 0 && ltb total c.thresh && not is_series) all_yes total
      (lim_quality_ok c total g.per_market) _
      (λ d e f.
        let (pays, legs) =
          build_deal-Pays s os c.theta 1 d (yes_outcomes-Priced g.per_market h.1) f in
        let none_missing : g.missing_yes ≡ 0 = ground (arith, e) in
        let same = length-yes_outcomes g.per_market in
        (pays, omega (arith, legs, same, none_missing, h.0)))

lim_all_no-Covered :
    (s : Sizing) (c : LimLimits) (is_series : Bool) (n : ℕ) (g : Collected)
    → All (IsCovered n) (lim_all_no s c is_series n g)
unfolding lim_all_no
lim_all_no-Covered s c is_series n g =
    let raw = no_raw g.per_market in
    let os = no_outcomes raw in
    let total = total_of os in
    kept-All (IsCovered n)
      (c.enable_b
        && eqb g.missing_no 0
        && eqb (length os) n
        && leb 3 (length os)
        && not is_series
        && ltb total ((length os - 1) * c.thresh))
      all_no total (lim_quality_ok c total raw) _
      (λ d e f.
        let (pays, legs) =
          build_deal-Pays s os c.theta (length os - 1) d (no_outcomes-Priced g.per_market) f in
        let all : length os ≡ n = ground (arith, e) in
        (subst (λ k. Pays (k - 1) d) (sym legs) pays, legs ∙ all))

-- A pair is covered whatever the event has, as a pair and as a market on its own.
lim_pair_lem :
    (P : PolyDeal → Type 0) (structure : Structure) (s : Sizing) (c : LimLimits) (p : LimMarket)
    → 0 < p.yes_price
    → ((total : ℕ) (d : Deal)
        → Pays 1 d
        → length d.entries ≡ 2
        → P (record { structure = structure; total = total; deal = d }))
    → All P (lim_pair structure s c p)
unfolding lim_pair
lim_pair_lem P structure s c p h k =
    let total = total_of (lim_pair_out p) in
    kept-All P (ltb 0 p.no_price && ltb total c.thresh && leb c.realistic_floor total) structure
      total (lim_quality_ok c total (p ∷ [])) _
      (λ d e f.
        let no_priced : 0 < p.no_price = ground (arith, e) in
        let (pays, legs) =
          build_deal-Pays s (lim_pair_out p) c.theta 1 d (λ r. h, (λ r. no_priced, tt)) f in
        k total d pays legs)

lim_pairs-Covered :
    (s : Sizing) (c : LimLimits) (n : ℕ) (ps : List LimMarket)
    → All YesPriced ps
    → All (IsCovered n) (lim_pairs s c ps)
unfolding lim_pairs
lim_pairs-Covered s c n [] h = tt
lim_pairs-Covered s c n (p ∷ ps) h =
    All-append (IsCovered n) _ _
      (lim_pair_lem (IsCovered n) yes_no_pair s c p h.0 (λ t d pays legs. (pays, legs)))
      (lim_pairs-Covered s c n ps h.1)

eval_group-Covered :
    (s : Sizing) (c : LimLimits) (r : Patterns) (title : String) (n : ℕ) (g : Collected)
    → IsTally n g
    → All (IsCovered n) (eval_group s c r title n g)
unfolding eval_group
eval_group-Covered s c r title n g h =
    let is_series = is_threshold_series r title (lim_names g.per_market) (lim_slugs g.per_market) in
    All-none_if (IsCovered n) (ltb (length g.per_market) 2) _ (
      All-append (IsCovered n) _ _
        (All-append (IsCovered n) _ _ (lim_all_yes-Covered s c is_series n g h)
          (lim_all_no-Covered s c is_series n g))
        (All-only_if (IsCovered n) c.enable_c _ (λ e. lim_pairs-Covered s c n g.per_market h.1)))

eval_quoted-Covered :
    (s : Sizing) (c : LimLimits) (volume_of : String → ℕ) (title : String)
    (q : Option (String × LimQuote)) (n : ℕ)
    → All (IsCovered n) (eval_quoted s c volume_of title q)
eval_quoted-Covered s c volume_of title none n = tt
eval_quoted-Covered s c volume_of title (some (slug, q)) n =
    All-only_if (IsCovered n) (is_quoted q.yes_ask && is_quoted q.no_ask) _ (λ e.
      lim_pair_lem (IsCovered n) binary s c (market_of volume_of title slug q) (ground (arith, e))
        (λ t d pays legs. (pays, legs)))

-- Every deal that `eval_limitless` finds on an event makes a profit with each leg: the contracts of one
-- leg, times what its structure pays at least, bring more than what the deal spends and its fees. An
-- ALL_YES or ALL_NO deal has a leg for each child of the event, those without a book included, and any
-- other deal has two.
pub eval_lim_event-Covered :
    (s : Sizing) (c : LimLimits) (r : Patterns) (volume_of : String → ℕ)
    (res : Dict String LimQuote) (ev : LimEvent)
    → All (IsCovered (length ev.children)) (eval_lim_event s c r volume_of res ev)
unfolding eval_lim_event
eval_lim_event-Covered s c r volume_of res ev =
    let n = length ev.children in
    if-cases (λ (ds : List PolyDeal). All (IsCovered n) ds) (ltb 0 n)
      (eval_group s c r ev.title n (collect volume_of res ev.children))
      (if c.enable_c then eval_quoted s c volume_of ev.title (quote_of res ev.slug) else [])
      (λ e.
        eval_group-Covered s c r ev.title n (collect volume_of res ev.children)
          (collect-IsTally volume_of res ev.children))
      (λ e.
        All-only_if (IsCovered n) c.enable_c _
          (λ e2. eval_quoted-Covered s c volume_of ev.title (quote_of res ev.slug) n))
