-- ===== src/Dedup/Cooldown.antt =====
-- A key that was fired is not fired again within its cooldown.
use polymarket_radar.Base.{
  ℕ, ◌+◌, ◌≤◌, ◌<◌, String, ◌≡◌, ◌≢◌, false, none, some, List, [], ◌∷◌, arith, if◌then◌else◌,
  string_key, length, All, All-map, Pairs,
}
use polymarket_radar.Base.Dict.{lookup, Unique, lookup-keep, keep-Unique, length-keep}
use polymarket_radar.Dedup.{
  Deal, FireDedup, Tracked, arb_fire_key, is_live, evict, shrink, claim, reserve,
}
use polymarket_radar.Dedup.Claims.{
  IsNew, IsCovered, claim-tracked, claim-IsNew, claim-Pairs, claim-IsCovered, claim-Unique,
  length-claim,
}

-- A key is free at `now` if it is not tracked or its cooldown is over.
abbrev pub IsFree : ℕ → FireDedup → String → Type 0
IsFree now s k = (v : ℕ) → lookup k s.tracked ≡ some v → v + s.cooldown_s < now

evict-Unique : (now c : ℕ) (t : Tracked) → Unique t → Unique (evict now c t)
unfolding evict
evict-Unique now c t u = keep-Unique (λ x. is_live now c x.1) t u

lookup-evict :
    (now c : ℕ) (k : String) (t : Tracked)
    → Unique t
    → lookup k (evict now c t)
      ≡ elim (lookup k t) [ none ↦ none | some v ↦ if is_live now c v then some v else none ]
unfolding evict
lookup-evict now c k t u = lookup-keep (is_live now c) k t u

length-evict : (now c : ℕ) (t : Tracked) → length (evict now c t) ≤ length t
unfolding evict
length-evict now c t = length-keep (λ x. is_live now c x.1) t

shrink_within : (hard_cap : ℕ) (t : Tracked) → length t ≤ hard_cap → shrink hard_cap t ≡ t
unfolding shrink
shrink_within hard_cap t h = ground arith

-- While the table fits the cap, the loop of `reserve` starts from the live entries.
reserve_within :
    (now : ℕ) (ds : List Deal) (s : FireDedup)
    → length s.tracked ≤ s.hard_cap
    → reserve now ds s ≡ (
        let (fired, t) = claim now ds (evict now s.cooldown_s s.tracked) in
        (fired, record s { tracked = t }))
unfolding reserve
reserve_within now ds s h = rw (
    shrink_within s.hard_cap (evict now s.cooldown_s s.tracked)
      (omega (arith, length-evict now s.cooldown_s s.tracked)))

reserve-Unique :
    (now : ℕ) (ds : List Deal) (s : FireDedup)
    → length s.tracked ≤ s.hard_cap
    → Unique s.tracked
    → Unique (reserve now ds s).1.tracked
reserve-Unique now ds s h u = rw (reserve_within now ds s h) (
    claim-Unique now ds (evict now s.cooldown_s s.tracked)
      (evict-Unique now s.cooldown_s s.tracked u))

-- While the table fits the cap, `reserve` gives each key once, only for deals that are not
-- quarantined and whose key is free, and afterwards each deal that is not quarantined is tracked,
-- those that it gives at `now`.
pub reserve_lem :
    (now : ℕ) (ds : List Deal) (s : FireDedup)
    → length s.tracked ≤ s.hard_cap
    → Unique s.tracked
    → let (fired, s') = reserve now ds s in
      All
        (λ x.
          (x.0 ≡ arb_fire_key x.1)
          × (x.1.is_quarantine ≡ false)
          × IsFree now s x.0
          × (lookup x.0 s'.tracked ≡ some now))
        fired
      × Pairs (λ x y. x.0 ≢ y.0) fired
      × All (IsCovered s'.tracked) ds
reserve_lem now ds s h u =
    let t = evict now s.cooldown_s s.tracked in
    rw (reserve_within now ds s h) (
      All-map (λ x. IsNew t x × (lookup x.0 (claim now ds t).1 ≡ some now))
          (λ x.
            (x.0 ≡ arb_fire_key x.1)
            × (x.1.is_quarantine ≡ false)
            × IsFree now s x.0
            × (lookup x.0 (claim now ds t).1 ≡ some now))
          (claim now ds t).0
          (λ x n. (
            n.0.0,
            n.0.1,
            λ v e. ground (arith, n.0.2, lookup-evict now s.cooldown_s x.0 s.tracked u),
            n.1,
          ))
          (claim-IsNew now ds t),
      claim-Pairs now ds t,
      claim-IsCovered now ds t,
    )

-- A key that is tracked and live keeps its time and is not fired.
reserve_live :
    (now : ℕ) (ds : List Deal) (s : FireDedup) (k : String) (v : ℕ)
    → length s.tracked ≤ s.hard_cap
    → Unique s.tracked
    → lookup k s.tracked ≡ some v
    → now ≤ v + s.cooldown_s
    → let (fired, s') = reserve now ds s in
      (lookup k s'.tracked ≡ some v) × All (λ x. x.0 ≢ k) fired
reserve_live now ds s k v h u e l = rw (reserve_within now ds s h) (
    claim-tracked now ds (evict now s.cooldown_s s.tracked) k v
      (ground (arith, lookup-evict now s.cooldown_s k s.tracked u)))

length-reserve :
    (now : ℕ) (ds : List Deal) (s : FireDedup)
    → length s.tracked ≤ s.hard_cap
    → length (reserve now ds s).1.tracked ≤ length s.tracked + length ds
length-reserve now ds s h = rw (reserve_within now ds s h) (
    omega (
      arith,
      length-claim now ds (evict now s.cooldown_s s.tracked),
      length-evict now s.cooldown_s s.tracked,
    ))

-- Successive scans, each with its time and its deals, and what each gives to be fired.
pub scans : List (ℕ × List Deal) → FireDedup → List (List (String × Deal)) × FireDedup
scans [] s = ([], s)
scans ((now, ds) ∷ rest) s =
    let (fired, s') = reserve now ds s in let (more, s'') = scans rest s' in (fired ∷ more, s'')

-- The number of deals over all scans.
abbrev pub deal_count : List (ℕ × List Deal) → ℕ
deal_count [] = 0
deal_count ((now, ds) ∷ rest) = length ds + deal_count rest

-- A key that was fired at `v` is in no list to fire of any later scan up to the end of its
-- cooldown, as long as the table has room for all the deals that the scans see.
pub no_refire :
    (xs : List (ℕ × List Deal)) (s : FireDedup) (k : String) (v : ℕ)
    → length s.tracked + deal_count xs ≤ s.hard_cap
    → Unique s.tracked
    → lookup k s.tracked ≡ some v
    → All (λ x. x.0 ≤ v + s.cooldown_s) xs
    → All (λ fired. All (λ x. x.0 ≢ k) fired) (scans xs s).0
unfolding scans
no_refire [] s k v h u e l = tt
no_refire ((now, ds) ∷ rest) s k v h u e l =
    let s' = (reserve now ds s).1 in
    let fits : length s.tracked ≤ s.hard_cap = omega arith in
    let kept = reserve_live now ds s k v fits u e l.0 in
    (
      kept.1,
      no_refire rest s' k v (unfold reserve in omega (arith, length-reserve now ds s fits))
          (reserve-Unique now ds s fits u) kept.0 (unfold reserve in l.1),
    )
