-- ===== src/Breaker/Hosts.antt =====
-- The registry gives each host one breaker.
use polymarket_radar.Base.{
  ℕ, ◌≡◌, ◌≢◌, String, none, some, string_key, arith, Option-cases, inl, inr, true,
}
use polymarket_radar.Base.Dict.{lookup, lookup-insert}
use polymarket_radar.Breaker.{init, Registry, found_or_new, get_breaker}

-- The breaker that `get_breaker` gives is the one the host had, or a new one, and is the one that the
-- host has from then on, so a later call gives it again whatever thresholds it names; no other host's
-- breaker changes.
pub get_breaker_lem :
    (host other : String) (f c s f' c' s' : ℕ) (r : Registry)
    → other ≢ host
    → let (r', cb) = get_breaker host f c s r in
      (cb ≡ elim (lookup host r) [ none ↦ init f c s true | some old ↦ old ])
      × (get_breaker host f' c' s' r' ≡ (r', cb))
      × (lookup other r' ≡ lookup other r)
unfolding get_breaker found_or_new
get_breaker_lem host other f c s f' c' s' r n =
    let new = init f c s true in
    let mine = lookup-insert host host new r in
    let theirs = lookup-insert host other new r in
    let same = string_key.same_iff host host in
    let apart = string_key.same_iff host other in
    elim (Option-cases (lookup host r)) [
      | inl e ↦
          (ground (arith, e), ground (arith, e, mine, same), ground (arith, e, theirs, apart, n))
      | inr (old, e) ↦ (ground (arith, e), ground (arith, e), ground (arith, e))
    ]
