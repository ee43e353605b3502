-- ===== src/Pools/Nearest.antt =====
-- Scripts/radar/eval/pools.py: what _best_near_structure shows is the nearest of what it may show.
use polymarket_radar.Base.{
  ℕ, ◌+◌, ◌≤◌, ◌≡◌, refl, Bool, true, Option, none, some, List, [], ◌∷◌, ◌++◌, All, All-append, ltb,
  leb, if◌then◌else◌, string_key, nat_key, pair_key, arith, if-cases,
}
use polymarket_radar.Pools.Near.{
  NearLeg, NearOption, c_near_max_distance, is_pair, yes_option, offers_yes, no_option, offers_no,
  pair_option, better_of, pair_best, pair_options, near_options,
}

abbrev pub is_close : NearOption → Bool
is_close o = leb o.sum (o.threshold + c_near_max_distance)

-- `Q` holds of each structure that may be shown: ALL_YES and ALL_NO where they pass, and the pair of each
-- market that has both quotes, is traded and is close.
abbrev pub EachOffer : (NearOption → Type 0) → ℕ → Bool → List NearLeg → Type 0
EachOffer Q threshold is_series pm =
    (offers_yes is_series pm (yes_option threshold pm) ≡ true → Q (yes_option threshold pm))
    × (offers_no is_series pm (no_option threshold pm) ≡ true → Q (no_option threshold pm))
    × All
        (λ p.
          is_pair p ≡ true
          → is_close (pair_option threshold p) ≡ true
          → Q (pair_option threshold p))
        pm

module _ (Q : NearOption → Type 0) where
  abbrev OptionAll : Option NearOption → Type 0
  OptionAll none = Unit
  OptionAll (some o) = is_close o ≡ true → Q o

  pair_best-OptionAll :
      (threshold : ℕ) (pm : List NearLeg) (best : Option NearOption)
      → OptionAll best
      → All
          (λ p.
            is_pair p ≡ true
            → is_close (pair_option threshold p) ≡ true
            → Q (pair_option threshold p))
          pm
      → OptionAll (pair_best threshold pm best)
  unfolding pair_best
  pair_best-OptionAll threshold [] best h hs = h
  pair_best-OptionAll threshold (p ∷ pm) best h hs =
      pair_best-OptionAll threshold pm
        (if is_pair p then some (better_of (pair_option threshold p) best) else best)
        (if-cases OptionAll (is_pair p) (some (better_of (pair_option threshold p) best)) best
          (λ e. better_of-OptionAll best h (hs.0 e)) (λ e. h))
        hs.1
    where
      better_of-OptionAll :
          (best : Option NearOption)
          → OptionAll best
          → OptionAll (some (pair_option threshold p))
          → OptionAll (some (better_of (pair_option threshold p) best))
      better_of-OptionAll none h k = k
      better_of-OptionAll (some b) h k =
          if-cases (λ o. OptionAll (some o)) (ltb (pair_option threshold p).sum b.sum)
            (pair_option threshold p) b (λ e. k) (λ e. h)

  All-pair_options : (o : Option NearOption) → OptionAll o → All Q (pair_options o)
  All-pair_options none h = tt
  All-pair_options (some o) h = if-cases (All Q) (is_close o) (o ∷ []) [] (λ e. (h e, tt)) (λ e. tt)

  -- What holds of each offer holds of each entry of `options`.
  pub All-near_options :
      (threshold : ℕ) (is_series : Bool) (pm : List NearLeg)
      → EachOffer Q threshold is_series pm
      → All Q (near_options threshold is_series pm)
  unfolding near_options
  All-near_options threshold is_series pm h =
      let a = yes_option threshold pm in
      let b = no_option threshold pm in
      let as_yes = if offers_yes is_series pm a then a ∷ [] else [] in
      let as_no = if offers_no is_series pm b then b ∷ [] else [] in
      All-append Q (as_yes ++ as_no) (pair_options (pair_best threshold pm none))
        (All-append Q as_yes as_no
          (if-cases (All Q) (offers_yes is_series pm a) (a ∷ []) [] (λ e. (h.0 e, tt)) (λ e. tt))
          (if-cases (All Q) (offers_no is_series pm b) (b ∷ []) [] (λ e. (h.1 e, tt)) (λ e. tt)))
        (All-pair_options (pair_best threshold pm none)
          (pair_best-OptionAll threshold pm none tt h.2))

-- The best pair costs at most `o`.
abbrev pub AtMost : ℕ → Option NearOption → NearOption → Type 0
AtMost threshold none o = ⊥
AtMost threshold (some m) o = (m.threshold ≡ threshold) × (m.sum ≤ o.sum)

abbrev HasThreshold : ℕ → Option NearOption → Type 0
HasThreshold threshold none = Unit
HasThreshold threshold (some m) = m.threshold ≡ threshold

abbrev step : ℕ → NearLeg → Option NearOption → Option NearOption
step threshold p best = if is_pair p then some (better_of (pair_option threshold p) best) else best

better_of-AtMost :
    (threshold : ℕ) (o new : NearOption) (best : Option NearOption)
    → new.threshold ≡ threshold
    → AtMost threshold best o
    → AtMost threshold (some (better_of new best)) o
better_of-AtMost threshold o new none t h = elim h [ ]
better_of-AtMost threshold o new (some b) t h = ground (arith, t, h)

better_of-AtMost_new :
    (threshold : ℕ) (new : NearOption) (best : Option NearOption)
    → new.threshold ≡ threshold
    → HasThreshold threshold best
    → AtMost threshold (some (better_of new best)) new
better_of-AtMost_new threshold new none t h = (t, omega arith)
better_of-AtMost_new threshold new (some b) t h = ground (arith, t, h)

better_of-HasThreshold :
    (threshold : ℕ) (new : NearOption) (best : Option NearOption)
    → new.threshold ≡ threshold
    → HasThreshold threshold best
    → HasThreshold threshold (some (better_of new best))
better_of-HasThreshold threshold new none t h = t
better_of-HasThreshold threshold new (some b) t h = ground (arith, t, h)

pub threshold-pair_option :
    (threshold : ℕ) (p : NearLeg) → (pair_option threshold p).threshold ≡ threshold
unfolding pair_option
threshold-pair_option threshold p = refl

pair_best-AtMost :
    (threshold : ℕ) (o : NearOption) (pm : List NearLeg) (best : Option NearOption)
    → AtMost threshold best o
    → AtMost threshold (pair_best threshold pm best) o
unfolding pair_best
pair_best-AtMost threshold o [] best h = h
pair_best-AtMost threshold o (p ∷ pm) best h =
    pair_best-AtMost threshold o pm (step threshold p best) (
      if-cases (λ b. AtMost threshold b o) (is_pair p)
        (some (better_of (pair_option threshold p) best)) best
        (λ e.
          better_of-AtMost threshold o (pair_option threshold p) best
            (threshold-pair_option threshold p) h)
        (λ e. h))

pub pair_best-least :
    (threshold : ℕ) (pm : List NearLeg) (best : Option NearOption)
    → HasThreshold threshold best
    → All
        (λ p.
          is_pair p ≡ true
          → AtMost threshold (pair_best threshold pm best) (pair_option threshold p))
        pm
unfolding pair_best
pair_best-least threshold [] best h = tt
pair_best-least threshold (p ∷ pm) best h =
    let new = pair_option threshold p in
    let t = threshold-pair_option threshold p in
    (
      λ e. pair_best-AtMost threshold new pm (step threshold p best) (
          if-cases (λ b. is_pair p ≡ true → AtMost threshold b new) (is_pair p)
            (some (better_of new best)) best (λ k f. better_of-AtMost_new threshold new best t h)
            (λ k f. ground (arith, k, f)) e),
      pair_best-least threshold pm (step threshold p best) (
          if-cases (HasThreshold threshold) (is_pair p) (some (better_of new best)) best
            (λ k. better_of-HasThreshold threshold new best t h) (λ k. h)),
    )
