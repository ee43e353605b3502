-- ===== src/Pools/Counted.antt =====
-- Scripts/radar/eval/pools.py: what the near table shows and counts.
use polymarket_radar.Base.{
  ℕ, suc, ◌+◌, ◌≡◌, refl, sym, subst, ◌∙◌, ◌⊎◌, inl, inr, String, true, false, Option, none, some,
  List, [], ◌∷◌, ◌++◌, All, Pairs, All-append, All-keep, length, keep, string_key, nat_key,
  pair_key, arith,
}
use polymarket_radar.Base.Dict.{Dict, lookup}
use polymarket_radar.Base.Sort.{sort-IsSorted, All-sort}
use polymarket_radar.Deals.Limitless.{LimQuote}
use polymarket_radar.Deals.SxBet.{SxQuote}
use polymarket_radar.Pools.Sums.{}
use polymarket_radar.Pools.Near.{
  NearLeg, NearOption, Rejection, empty_pm, all_legs_implied, no_structure_near_threshold,
  real_legs, best_near_structure,
}
use polymarket_radar.Pools.Summary.{
  Platform, polymarket, kalshi, limitless, NearRow, Diag, Sources, PolyNear, poly_rows, add_row,
  add_best, best_of_poly,
}
use polymarket_radar.Pools.Table.{
  KalshiEvent, kalshi_near_leg, kalshi_near_legs, kalshi_rows, SxNear, add_sx, sx_rows, LimNear,
  best_of_lim, lim_rows, NearPools, is_shown, closer, is_on, near_summary,
}

-- The counters of Polymarket count each of `n` candidates once, and each reason of a rejection.
abbrev pub CountsAll : ℕ → Diag → Type 0
CountsAll n d =
    (n ≡ d.visible + d.rejected_quarantine + d.rejected_zombie + d.rejected_strict)
    × (d.rejected_strict ≡ d.strict_all_implied + d.strict_no_near + d.strict_empty_pm)

abbrev OffKalshi : NearRow → Type 0
OffKalshi x = is_on kalshi x ≡ false

add_best-CountsAll :
    (n : ℕ) (p : Platform) (title : String) (r : Rejection ⊎ NearOption) (rows : List NearRow)
    (d : Diag)
    → CountsAll n d
    → CountsAll (suc n) (add_best p title r (rows, d)).1
add_best-CountsAll n p title (inl empty_pm) rows d h = ground (arith, h)
add_best-CountsAll n p title (inl all_legs_implied) rows d h = ground (arith, h)
add_best-CountsAll n p title (inl no_structure_near_threshold) rows d h = ground (arith, h)
add_best-CountsAll n p title (inr o) rows d h = ground (arith, h)

poly_rows-CountsAll : (w : Sources) (xs : List PolyNear) → CountsAll (length xs) (poly_rows w xs).1
unfolding poly_rows
poly_rows-CountsAll w [] = ground arith
poly_rows-CountsAll w (x ∷ xs) =
    let (rows, d) = poly_rows w xs in
    ground (
      arith,
      poly_rows-CountsAll w xs,
      add_best-CountsAll (length xs) polymarket (x.cand).title (best_of_poly w x.cand) rows d,
    )

add_best-OffKalshi :
    (title : String) (r : Rejection ⊎ NearOption) (rows : List NearRow) (d : Diag)
    → All OffKalshi rows
    → All OffKalshi (add_best polymarket title r (rows, d)).0
add_best-OffKalshi title (inl why) rows d h = h
add_best-OffKalshi title (inr o) rows d h = (refl, h)

poly_rows-OffKalshi : (w : Sources) (xs : List PolyNear) → All OffKalshi (poly_rows w xs).0
unfolding poly_rows
poly_rows-OffKalshi w [] = tt
poly_rows-OffKalshi w (x ∷ xs) =
    let (rows, d) = poly_rows w xs in
    ground (
      arith,
      poly_rows-OffKalshi w xs,
      add_best-OffKalshi (x.cand).title (best_of_poly w x.cand) rows d,
    )

-- The legs of Kalshi have no source, so none of them counts as quoted.
abbrev IsUnsourced : NearLeg → Type 0
IsUnsourced p = p.yes_src ≡ none

real_legs_unsourced : (pm : List NearLeg) → All IsUnsourced pm → real_legs pm ≡ []
unfolding real_legs
real_legs_unsourced [] h = refl
real_legs_unsourced (p ∷ pm) h = ground (arith, h.0, real_legs_unsourced pm h.1)

kalshi_near_leg-IsUnsourced :
    (t : String) (q : Option LimQuote) (legs : List NearLeg)
    → All IsUnsourced legs
    → All IsUnsourced (kalshi_near_leg t q legs)
kalshi_near_leg-IsUnsourced t none legs h = h
kalshi_near_leg-IsUnsourced t (some q) legs h = ground (arith, h)

kalshi_near_legs-IsUnsourced :
    (res : Dict String LimQuote) (ts : List String) → All IsUnsourced (kalshi_near_legs res ts)
unfolding kalshi_near_legs
kalshi_near_legs-IsUnsourced res [] = tt
kalshi_near_legs-IsUnsourced res (t ∷ ts) =
    kalshi_near_leg-IsUnsourced t (lookup t res) (kalshi_near_legs res ts)
      (kalshi_near_legs-IsUnsourced res ts)

add_row_unsourced :
    (p : Platform) (title : String) (threshold : ℕ) (pm : List NearLeg) (rows : List NearRow)
    → All IsUnsourced pm
    → add_row p title (best_near_structure threshold false pm) rows ≡ rows
unfolding best_near_structure
add_row_unsourced p title threshold pm rows h = ground (arith, real_legs_unsourced pm h)

kalshi_rows_none : (w : Sources) (evs : List KalshiEvent) → kalshi_rows w evs ≡ []
unfolding kalshi_rows
kalshi_rows_none w [] = refl
kalshi_rows_none w (ev ∷ evs) =
    add_row_unsourced kalshi ev.title w.thresh_kalshi (kalshi_near_legs w.kalshi_res ev.tickers)
      (kalshi_rows w evs) (kalshi_near_legs-IsUnsourced w.kalshi_res ev.tickers)
    ∙ kalshi_rows_none w evs

add_sx-OffKalshi :
    (threshold : ℕ) (title : String) (q : Option SxQuote) (rows : List NearRow)
    → All OffKalshi rows
    → All OffKalshi (add_sx threshold title q rows)
add_sx-OffKalshi threshold title none rows h = h
add_sx-OffKalshi threshold title (some q) rows h = ground (arith, h)

sx_rows-OffKalshi : (w : Sources) (ms : List SxNear) → All OffKalshi (sx_rows w ms)
unfolding sx_rows
sx_rows-OffKalshi w [] = tt
sx_rows-OffKalshi w (m ∷ ms) =
    add_sx-OffKalshi w.thresh_sx m.title (lookup m.market_hash w.sx_res) (sx_rows w ms)
      (sx_rows-OffKalshi w ms)

add_row-OffKalshi :
    (title : String) (r : Rejection ⊎ NearOption) (rows : List NearRow)
    → All OffKalshi rows
    → All OffKalshi (add_row limitless title r rows)
add_row-OffKalshi title (inl why) rows h = h
add_row-OffKalshi title (inr o) rows h = (refl, h)

lim_rows-OffKalshi : (w : Sources) (xs : List LimNear) → All OffKalshi (lim_rows w xs)
unfolding lim_rows
lim_rows-OffKalshi w [] = tt
lim_rows-OffKalshi w (x ∷ xs) = ground (
  arith,
  lim_rows-OffKalshi w xs,
  add_row-OffKalshi (x.event).title (best_of_lim w x.event) (lim_rows w xs),
)

-- The rows of the near table are ordered by the distance from the threshold that they show, which is
-- rounded to a tenth of a cent, and none is of Kalshi, whatever its near pool holds. Each near
-- candidate of Polymarket is counted once: as visible, quarantined, past its end or rejected, and each
-- rejected one under one of the three reasons.
pub near_summary_lem :
    (w : Sources) (pools : NearPools)
    → let table = near_summary w pools in
      Pairs (λ x y. closer x y ≡ true) table.rows
      × All (λ x. is_on kalshi x ≡ false) table.rows
      × CountsAll (length pools.poly_near) table.diag
unfolding near_summary
near_summary_lem w pools =
    let poly = (poly_rows w pools.poly_near).0 in
    let kalshi_part = kalshi_rows w pools.kalshi_near in
    let sx = sx_rows w pools.sx_near in
    let lim = lim_rows w pools.lim_near in
    let out = poly ++ kalshi_part ++ sx ++ lim in
    let no_kalshi = subst (All OffKalshi) (sym (kalshi_rows_none w pools.kalshi_near)) tt in
    let off =
      All-append OffKalshi (poly ++ kalshi_part ++ sx) lim
        (All-append OffKalshi (poly ++ kalshi_part) sx
          (All-append OffKalshi poly kalshi_part (poly_rows-OffKalshi w pools.poly_near) no_kalshi)
          (sx_rows-OffKalshi w pools.sx_near))
        (lim_rows-OffKalshi w pools.lim_near) in
    (
      sort-IsSorted closer (λ x y h. ground arith) (λ x y z h k. ground arith) (keep is_shown out),
      All-sort closer OffKalshi (keep is_shown out) (All-keep OffKalshi is_shown out off),
      poly_rows-CountsAll w pools.poly_near,
    )
