-- ===== src/Cross/Once.antt =====
-- No event is paired twice.
use polymarket_radar.Base.{
  ℕ, suc, ◌≤◌, ◌≡◌, subst, ◌≢◌, false, not, ◌&&◌, Option, none, some, List, [], ◌∷◌, All, Pairs,
  All-map, leb, string_key, nat_key, pair_key, arith, if-cases, match-cases,
}
use polymarket_radar.Cross.Pairs.{
  Titles, Event, Prepared, prepared, match_from_canon, Entry, Buckets, index_into, is_in,
  candidates, beats, better, choose, Pair, pair_loop, find_pairs,
}

-- A choice is confident enough, and not used yet.
abbrev IsFree : ℕ → List ℕ → Option (ℕ × ℕ) → Type 0
IsFree low used none = Unit
IsFree low used (some (c, i)) = (low ≤ c) × (is_in i used ≡ false)

choose-Free :
    (t : Titles) (low : ℕ) (used : List ℕ) (a : Prepared) (best : Option (ℕ × ℕ)) (es : List Entry)
    → IsFree low used best
    → IsFree low used (choose t low used a best es)
unfolding choose
choose-Free t low used a best [] h = h
choose-Free t low used a best (e ∷ es) h =
    choose-Free t low used a (better t low used a best e) es (
      if-cases (IsFree low used)
        (not (is_in e.index used)
          && leb low (match_from_canon t a e.event)
          && beats (match_from_canon t a e.event) best)
        _ _ (λ f. (ground (arith, f), ground (arith, f))) (λ f. h))

-- The pairs are confident, on places that are not used, each other than all later ones.
abbrev IsPairing : ℕ → List ℕ → List Pair → Type 0
IsPairing low used ps =
    All (λ p. (low ≤ p.confidence) × (is_in p.b used ≡ false)) ps × Pairs (λ p q. p.b ≢ q.b) ps

used_less :
    (i j : ℕ) (used : List ℕ) → is_in j (i ∷ used) ≡ false → (i ≢ j) × (is_in j used ≡ false)
used_less i j used h = ground (arith, h)

IsPairing-cons :
    (low : ℕ) (used : List ℕ) (p : Pair) (ps : List Pair)
    → low ≤ p.confidence
    → is_in p.b used ≡ false
    → IsPairing low (p.b ∷ used) ps
    → IsPairing low used (p ∷ ps)
IsPairing-cons low used p ps confident free (each, apart) = (
  ((confident, free), All-map _ _ ps (λ q h. (h.0, (used_less p.b q.b used h.1).1)) each),
  (All-map _ _ ps (λ q h. (used_less p.b q.b used h.1).0) each, apart),
)

pair_loop-Pairing :
    (t : Titles) (low : ℕ) (d : Buckets) (used : List ℕ) (i : ℕ) (events : List Prepared)
    → IsPairing low used (pair_loop t low d used i events)
unfolding pair_loop
pair_loop-Pairing t low d used i [] = (tt, tt)
pair_loop-Pairing t low d used i (a ∷ events) =
    let free = choose-Free t low used a none (candidates d a) tt in
    match-cases (IsPairing low used) (choose t low used a none (candidates d a)) _ _
      (λ e. pair_loop-Pairing t low d used (suc i) events)
      (λ x e.
        let (confident, unused) = subst (IsFree low used) e free in
        IsPairing-cons low used (record { a = i; b = x.1; confidence = x.0 }) _ confident unused
          (pair_loop-Pairing t low d (x.1 ∷ used) (suc i) events))

-- Every pair that `find_pairs` gives has at least the confidence that is asked for, and no event of the
-- second list is in two pairs.
pub find_pairs_once :
    (t : Titles) (low : ℕ) (events_a events_b : List Event)
    → All (λ p. low ≤ p.confidence) (find_pairs t low events_a events_b)
      × Pairs (λ p q. p.b ≢ q.b) (find_pairs t low events_a events_b)
unfolding find_pairs
find_pairs_once t low events_a events_b =
    let (each, apart) =
      pair_loop-Pairing t low (index_into 0 [] (prepared t events_b)) [] 0 (prepared t events_a) in
    (All-map _ _ _ (λ p h. h.0) each, apart)
