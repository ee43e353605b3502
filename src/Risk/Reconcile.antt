-- ===== src/Risk/Reconcile.antt =====
-- Scripts/risk/reconcile.py: local positions against those of the exchanges, and the kill switch after
-- a mismatch or repeated failures. Sizes are in whole micro-dollars; the log and the status for the
-- dashboard are left out. The key of a position is any type with a decidable equality.
pub mod Diff
pub mod Debounce
use polymarket_radar.Base.{
  ℕ, suc, ◌+◌, String, Bool, true, false, not, ◌&&◌, ◌||◌, Option, none, some, List, [], ◌∷◌, ◌++◌,
  map, keep, is_empty, length, ltb, leb, eqb, if◌then◌else◌, Key, ◌==◌, string_key,
}
use polymarket_radar.Base.Int.{ℤ, pos, ◌+ℤ◌, ◌-ℤ◌, ltb_ℤ}
use polymarket_radar.Base.Dict.{Dict, lookup, insert, contains}
use polymarket_radar.Risk.State.{Clock, RiskState, Store, get_state, save_state}
use polymarket_radar.Risk.Killswitch.{Killswitch, kill}

-- What an exchange fetcher does: it returns positions, or it raises.
pub data Fetch (K : Type 0) : Type 0 where
  positions : List (K × ℤ) → Fetch K
  raised : String → Fetch K

-- The counter of failed runs, the kill switch and the store of the risk state.
pub record Reconcile : Type 0 where
  pub consecutive_failures : ℕ
  pub killswitch : Killswitch
  pub store : Store

-- `_RECONCILE_FAIL_THRESHOLD`
abbrev pub reconcile_fail_threshold : ℕ
reconcile_fail_threshold = 3

module _ {K : Type 0} ⦃e : Key K⦄ where
  -- `positions.get(key, 0.0)`
  pub size_of : K → Dict K ℤ → ℤ
  size_of k d = elim (lookup k d) [ none ↦ pos 0 | some v ↦ v ]

  -- The sum of the rows by key, as `_read_local_positions` and the merge of the fetchers form it.
  unfoldable pub aggregate : List (K × ℤ) → Dict K ℤ → Dict K ℤ
  unfolding size_of
  aggregate [] d = d
  aggregate ((k, v) ∷ rows) d = aggregate rows (insert k (size_of k d +ℤ v) d)

  -- The loop over the fetchers: the merged positions and the errors.
  unfoldable pub fetch_all : List (Fetch K) → Dict K ℤ → Dict K ℤ × List String
  unfolding aggregate
  fetch_all [] d = (d, [])
  fetch_all (positions ps ∷ fs) d = fetch_all fs (aggregate ps d)
  fetch_all (raised err ∷ fs) d = let (d', errs) = fetch_all fs d in (d', err ∷ errs)

  -- `abs(l - r) > tolerance`
  pub differs : ℤ → Dict K ℤ → Dict K ℤ → K → Bool
  unfolding size_of
  differs tolerance local remote k =
      ltb_ℤ tolerance (size_of k local -ℤ size_of k remote)
      || ltb_ℤ tolerance (size_of k remote -ℤ size_of k local)

  -- `set(local) | set(remote)`, in some order.
  unfoldable pub all_keys : Dict K ℤ → Dict K ℤ → List K
  all_keys local remote =
      map (λ x. x.0) local ++ map (λ x. x.0) (keep (λ x. not (contains x.0 local)) remote)

  -- `_diff_positions`, by the keys of the mismatches.
  unfoldable pub diff_positions : ℤ → Dict K ℤ → Dict K ℤ → List K
  unfolding differs all_keys
  diff_positions tolerance local remote =
      keep (differs tolerance local remote) (all_keys local remote)

  -- The counter and the kill switch after a run with these mismatches and errors.
  pub judge : ℕ → List K → List String → Reconcile → Reconcile
  judge now mismatches errors s =
      let failures =
        if is_empty mismatches then suc s.consecutive_failures else reconcile_fail_threshold in
      if is_empty mismatches && is_empty errors
      then record s { consecutive_failures = 0 }
      else if leb reconcile_fail_threshold failures
      then record s {
        consecutive_failures = 0;
        killswitch = (kill "reconcile_mismatch" now s.killswitch).1;
      }
      else record s { consecutive_failures = failures }

  -- `reconcile_once`, on the rows of positions.jsonl and what each registered fetcher does; it says
  -- whether the run was good. The text of the outcome is shortened.
  pub reconcile_once : ℤ → Clock → List (K × ℤ) → List (Fetch K) → Reconcile → Reconcile × Bool
  unfolding aggregate fetch_all diff_positions judge
  reconcile_once tolerance c rows fetchers s =
      let (state, store) = get_state c s.store in
      let local = aggregate rows [] in
      let (remote, errors) = fetch_all fetchers [] in
      let mismatches = diff_positions tolerance local remote in
      let ok = is_empty fetchers || is_empty mismatches && is_empty errors in
      let s' = if is_empty fetchers then s else judge c.now mismatches errors s in
      let state' = record state {
        last_reconcile_unix = some c.now;
        last_reconcile_ok = some ok;
        last_reconcile_msg = some (if ok then "ok" else "mismatches");
      } in
      (record s' { store = save_state state' store }, ok)
