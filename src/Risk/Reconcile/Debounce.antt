-- ===== src/Risk/Reconcile/Debounce.antt =====
-- Failed runs trip the kill switch only in a row, a mismatch trips it at once.
use polymarket_radar.Base.{
  length, ◌∙◌, suc, ◌+◌, ◌≤◌, ◌<◌, ◌≡◌, refl, ◌≢◌, String, true, false, List, [], ◌∷◌, is_empty,
  All, arith, Key,
}
use polymarket_radar.Base.Int.{ℤ}
use polymarket_radar.Risk.State.{Clock}
use polymarket_radar.Risk.Killswitch.{is_killed, kill_idempotent}
use polymarket_radar.Risk.Reconcile.{
  Fetch, aggregate, fetch_all, diff_positions, reconcile_once, Reconcile, judge,
  reconcile_fail_threshold,
}

-- A run: the clock, the rows of positions.jsonl and what the fetchers do.
abbrev pub Run : Type 0 → Type 0
Run K = Clock × List (K × ℤ) × List (Fetch K)

module _ {K : Type 0} ⦃e : Key K⦄ (tolerance : ℤ) where
  abbrev pub mismatches : Run K → List K
  mismatches (c, rows, fetchers) =
      diff_positions tolerance (aggregate rows []) (fetch_all fetchers []).0

  abbrev pub errors : Run K → List String
  errors (c, rows, fetchers) = (fetch_all fetchers []).1

  -- One run after another.
  pub reconcile_all : List (Run K) → Reconcile → Reconcile
  reconcile_all [] s = s
  reconcile_all ((c, rows, fetchers) ∷ runs) s =
      reconcile_all runs (reconcile_once tolerance c rows fetchers s).0

  -- A run in which a fetcher fails and no position differs.
  abbrev pub IsBlip : Run K → Type 0
  IsBlip r = (mismatches r ≡ []) × (errors r ≢ [])

  blip_has_fetchers :
      (fetchers : List (Fetch K)) → (fetch_all fetchers []).1 ≢ [] → is_empty fetchers ≡ false
  unfolding fetch_all
  blip_has_fetchers [] h = absurd (h refl)
  blip_has_fetchers (f ∷ fs) h = refl

  once-blip :
      (c : Clock) (rows : List (K × ℤ)) (fetchers : List (Fetch K)) (s : Reconcile)
      → IsBlip (c, rows, fetchers)
      → let s' = (reconcile_once tolerance c rows fetchers s).0 in
        (suc s.consecutive_failures < reconcile_fail_threshold
          → (s'.consecutive_failures ≡ suc s.consecutive_failures) × (s'.killswitch ≡ s.killswitch))
        × (reconcile_fail_threshold ≤ suc s.consecutive_failures
            → (s'.consecutive_failures ≡ 0) × (is_killed s'.killswitch ≡ true))
  unfolding reconcile_once judge
  once-blip c rows fetchers s b =
      let some_fetcher = blip_has_fetchers fetchers b.1 in
      let on = (kill_idempotent "reconcile_mismatch" "" c.now c.now s.killswitch).0 in
      (
        λ h. ground (arith, some_fetcher, b.0, b.1, h),
        λ h. ground (arith, some_fetcher, b.0, b.1, h, on),
      )

  -- With a fetcher registered, a run that finds a position that differs turns the kill switch on at
  -- once, and a run that finds none and has no error clears the counter and leaves the switch
  -- alone.
  pub reconcile_once_lem :
      (c : Clock) (rows : List (K × ℤ)) (fetchers : List (Fetch K)) (s : Reconcile)
      → is_empty fetchers ≡ false
      → let (s', ok) = reconcile_once tolerance c rows fetchers s in
        let r : Run K = (c, rows, fetchers) in
        (mismatches r ≢ [] → (is_killed s'.killswitch ≡ true) × (ok ≡ false))
        × (mismatches r ≡ []
            → errors r ≡ []
            → (s'.consecutive_failures ≡ 0) × (s'.killswitch ≡ s.killswitch) × (ok ≡ true))
  unfolding reconcile_once judge
  reconcile_once_lem c rows fetchers s f =
      let on = (kill_idempotent "reconcile_mismatch" "" c.now c.now s.killswitch).0 in
      (λ h. ground (arith, f, h, on), λ h g. ground (arith, f, h, g))

  blips :
      (runs : List (Run K)) (s : Reconcile)
      → All IsBlip runs
      → s.consecutive_failures + length runs < reconcile_fail_threshold
      → let s' = reconcile_all runs s in
        (s'.consecutive_failures ≡ s.consecutive_failures + length runs)
        × (s'.killswitch ≡ s.killswitch)
  unfolding reconcile_all
  blips [] s b h = (omega arith, refl)
  blips ((c, rows, fetchers) ∷ runs) s b h =
      let s1 = (reconcile_once tolerance c rows fetchers s).0 in
      let (count, switch) = (once-blip c rows fetchers s b.0).0 (omega arith) in
      let (count', switch') = blips runs s1 b.1 (omega (arith, count)) in
      (omega (arith, count, count'), switch' ∙ switch)

  -- With no failed run counted yet, runs in a row in which a fetch fails and what is held still agrees
  -- with what the fetchers that did answer report, one fewer than the threshold, leave the kill switch
  -- as it is, and the next such run turns it on. A failed fetch that leaves a position without its
  -- counterpart is not such a run.
  pub debounce :
      (runs : List (Run K)) (c : Clock) (rows : List (K × ℤ)) (fetchers : List (Fetch K))
      (s : Reconcile)
      → s.consecutive_failures ≡ 0
      → All IsBlip runs
      → suc (length runs) ≡ reconcile_fail_threshold
      → IsBlip (c, rows, fetchers)
      → ((reconcile_all runs s).killswitch ≡ s.killswitch)
        × (is_killed (reconcile_once tolerance c rows fetchers (reconcile_all runs s)).0.killswitch
            ≡ true)
  debounce runs c rows fetchers s z b n last =
      let (count, switch) = blips runs s b (omega arith) in
      let met = (once-blip c rows fetchers (reconcile_all runs s) last).1 (omega (arith, count)) in
      (switch, met.1)
