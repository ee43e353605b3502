-- ===== src/Pools/Offers.antt =====
-- Scripts/radar/eval/pools.py: _best_near_structure on each of its branches.
use polymarket_radar.Base.{
  ℕ, ◌≤◌, ◌≡◌, refl, sym, ◌∙◌, ◌⊎◌, inl, inr, Bool, true, Option, none, some, List, [], ◌∷◌, ◌++◌,
  All, All-map, All-append_inv, is_empty, if◌then◌else◌, string_key, nat_key, pair_key, arith,
  if-cases,
}
use polymarket_radar.Base.Sort.{sort, IsSorted, sort-IsSorted, All-sort, All-sort_inv}
use polymarket_radar.Pools.Near.{
  NearLeg, NearOption, Rejection, empty_pm, all_legs_implied, no_structure_near_threshold,
  real_legs, is_pair, yes_option, offers_yes, no_option, offers_no, pair_option, pair_best,
  pair_options, near_options, nearer, first_or, best_near_structure,
}
use polymarket_radar.Pools.Nearest.{
  is_close, EachOffer, All-near_options, pair_best-least, threshold-pair_option, AtMost,
}

module _ (Q : NearOption → Type 0)
    (follows : (m o : NearOption) → m.threshold ≡ o.threshold → m.sum ≤ o.sum → Q m → Q o) where
  of_one : (c : Bool) (a : NearOption) → All Q (if c then a ∷ [] else []) → c ≡ true → Q a
  of_one c a =
      if-cases (λ l. All Q l → c ≡ true → Q a) c (a ∷ []) [] (λ e h k. h.0)
        (λ e h k. ground (arith, e, k))

  of_pair :
      (threshold : ℕ) (best : Option NearOption) (o : NearOption)
      → o.threshold ≡ threshold
      → AtMost threshold best o
      → All Q (pair_options best)
      → is_close o ≡ true
      → Q o
  of_pair threshold none o t h hs k = elim h [ ]
  of_pair threshold (some m) o t h hs k =
      follows m o (h.0 ∙ sym t) h.1 (of_one (is_close m) m hs (ground (arith, h, t, k)))

  of_pairs :
      (threshold : ℕ) (best : Option NearOption) (pm : List NearLeg)
      → All Q (pair_options best)
      → All (λ p. is_pair p ≡ true → AtMost threshold best (pair_option threshold p)) pm
      → All
          (λ p.
            is_pair p ≡ true
            → is_close (pair_option threshold p) ≡ true
            → Q (pair_option threshold p))
          pm
  of_pairs threshold best pm hs = All-map _ _ pm (λ p h e.
      of_pair threshold best (pair_option threshold p) (threshold-pair_option threshold p) (h e) hs)

  -- What holds of each entry of `options` holds of each offer.
  EachOffer-near_options :
      (threshold : ℕ) (is_series : Bool) (pm : List NearLeg)
      → All Q (near_options threshold is_series pm)
      → EachOffer Q threshold is_series pm
  unfolding near_options
  EachOffer-near_options threshold is_series pm h =
      let a = yes_option threshold pm in
      let b = no_option threshold pm in
      let as_yes = if offers_yes is_series pm a then a ∷ [] else [] in
      let as_no = if offers_no is_series pm b then b ∷ [] else [] in
      let best = pair_best threshold pm none in
      let (front, pairs) = All-append_inv Q (as_yes ++ as_no) (pair_options best) h in
      let (left, right) = All-append_inv Q as_yes as_no front in
      (
        of_one (offers_yes is_series pm a) a left,
        of_one (offers_no is_series pm b) b right,
        of_pairs threshold best pm pairs (pair_best-least threshold pm none tt),
      )

-- What the answer says of the market prices.
abbrev pub IsNearest : ℕ → Bool → List NearLeg → Rejection ⊎ NearOption → Type 0
IsNearest threshold is_series pm (inl empty_pm) = pm ≡ []
IsNearest threshold is_series pm (inl all_legs_implied) = real_legs pm ≡ []
IsNearest threshold is_series pm (inl no_structure_near_threshold) =
    EachOffer (λ o. ⊥) threshold is_series (real_legs pm)
IsNearest threshold is_series pm (inr o) =
    EachOffer (λ x. nearer o x ≡ true) threshold is_series (real_legs pm)
    × ((q : NearOption → Bool)
        → EachOffer (λ x. q x ≡ true) threshold is_series (real_legs pm)
        → q o ≡ true)

first_or-IsNearest :
    (threshold : ℕ) (is_series : Bool) (pm : List NearLeg) (sorted : List NearOption)
    → ((Q : NearOption → Type 0)
        → All Q sorted
        → All Q (near_options threshold is_series (real_legs pm)))
    → ((Q : NearOption → Type 0)
        → All Q (near_options threshold is_series (real_legs pm))
        → All Q sorted)
    → IsSorted nearer sorted
    → IsNearest threshold is_series pm (first_or sorted)
first_or-IsNearest threshold is_series pm [] back forth h =
    EachOffer-near_options (λ o. ⊥) (λ m o t l e. e) threshold is_series (real_legs pm)
      (back (λ o. ⊥) tt)
first_or-IsNearest threshold is_series pm (o ∷ os) back forth h = (
  EachOffer-near_options (λ x. nearer o x ≡ true) (λ m x t l e. ground (arith, t, l, e)) threshold
      is_series (real_legs pm) (back (λ x. nearer o x ≡ true) (ground arith, h.0)),
  λ q each.
      (forth (λ x. q x ≡ true)
        (All-near_options (λ x. q x ≡ true) threshold is_series (real_legs pm) each)).0,
)

-- `_best_near_structure` shows a structure that it may show and that is nearest to its threshold among all
-- of these: ALL_YES and ALL_NO of the markets quoted by order books, where they pass their tests, and the
-- pair of each such market that is traded and close. It rejects an event only where it has no markets,
-- where no market is quoted by order books, or where none of these passes.
pub best_near_structure-IsNearest :
    (threshold : ℕ) (is_series : Bool) (pm : List NearLeg)
    → IsNearest threshold is_series pm (best_near_structure threshold is_series pm)
unfolding best_near_structure
best_near_structure-IsNearest threshold is_series pm =
    let real = real_legs pm in
    let options = near_options threshold is_series real in
    let sorted = sort nearer options in
    if-cases (IsNearest threshold is_series pm) (is_empty pm) (inl empty_pm)
      (if is_empty real then inl all_legs_implied else first_or sorted) (λ e. of_empty pm e)
      (λ e.
        if-cases (IsNearest threshold is_series pm) (is_empty real) (inl all_legs_implied)
          (first_or sorted) (λ k. of_empty real k)
          (λ k.
            first_or-IsNearest threshold is_series pm sorted (λ Q. All-sort_inv nearer Q options)
              (λ Q. All-sort nearer Q options)
              (sort-IsSorted nearer (λ x y h. ground arith) (λ x y z h l. ground arith) options)))
  where
    of_empty : (xs : List NearLeg) → is_empty xs ≡ true → xs ≡ []
    of_empty [] h = refl
    of_empty (x ∷ xs) h = ground (arith, h)
