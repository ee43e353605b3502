-- ===== src/Analytics/Lifecycle.antt =====
-- A deal is open exactly while it was opened once more than it was closed.
use polymarket_radar.Base.{
  ℕ, suc, ◌+◌, ◌<◌, ◌≡◌, refl, sym, ap, subst, ◌∙◌, inl, inr, String, Bool, true, not, none, List,
  [], ◌∷◌, All, keep, if◌then◌else◌, ◌==◌, string_key, nat_key, pair_key, arith, if-cases,
  match-cases, Bool-cases,
}
use polymarket_radar.Base.Dict.{
  Dict, lookup, insert, contains, Unique, lookup-insert, insert-Unique, keep-Unique,
  lookup-keep_absent,
}
use polymarket_radar.Analytics.{
  Deal, OpenDeal, Event, opened, closed, near_seen, fire_filled, Tracker, snapshots, open_one,
  open_new, see_one, see_all, miss_all, is_due, close_log, update_from_scan,
}

-- How often a key was opened and closed.
abbrev pub opens : String → List Event → ℕ
opens k [] = 0
opens k (opened t j d ∷ es) = if j == k then suc (opens k es) else opens k es
opens k (closed t j n ∷ es) = opens k es
opens k (near_seen t j d ∷ es) = opens k es
opens k (fire_filled t d ∷ es) = opens k es

abbrev pub closes : String → List Event → ℕ
closes k [] = 0
closes k (opened t j d ∷ es) = closes k es
closes k (closed t j n ∷ es) = if j == k then suc (closes k es) else closes k es
closes k (near_seen t j d ∷ es) = closes k es
closes k (fire_filled t d ∷ es) = closes k es

abbrev pub tracked : String → Dict String OpenDeal → ℕ
tracked k d = if contains k d then 1 else 0

abbrev MissesBelow : ℕ → Dict String OpenDeal → Type 0
MissesBelow grace d = All (λ x. (x.1).misses < grace) d

-- The log and the open deals agree, and no deal has missed as many scans as close it.
abbrev pub IsTracker : ℕ → Tracker → Type 0
IsTracker grace s =
    Unique s.open_deals
    × ((k : String) → opens k s.log ≡ closes k s.log + tracked k s.open_deals)
    × All (λ x. (x.1).misses < grace) s.open_deals

All-insert :
    (grace : ℕ) (k : String) (o : OpenDeal) (d : Dict String OpenDeal)
    → o.misses < grace
    → MissesBelow grace d
    → MissesBelow grace (insert k o d)
unfolding insert
All-insert grace k o [] h a = (h, tt)
All-insert grace k o ((j, w) ∷ d) h a = ground (arith, All-insert grace k o d h a.1)

open_one-Tracker :
    (grace now : ℕ) (k : String) (v : Deal) (s : Tracker)
    → 0 < grace
    → IsTracker grace s
    → IsTracker grace (open_one now k v s)
open_one-Tracker grace now k v s g (unique, counts, below) =
    if-cases (IsTracker grace) (contains k s.open_deals) _ _ (λ e. (unique, counts, below))
      (λ e. (
        insert-Unique k _ s.open_deals unique,
        (λ j. ground (
          arith,
          e,
          counts j,
          string_key.same_iff k j,
          lookup-insert k j
              (record {
                opened_ts = now;
                last_seen_ts = now;
                first_seen_ts = now;
                consecutive_scans_seen = 1;
                misses = 0;
                snapshot = v;
              })
              s.open_deals,
        )),
        All-insert grace k _ s.open_deals g below,
      ))

open_new-Tracker :
    (grace now : ℕ) (xs : Dict String Deal) (s : Tracker)
    → 0 < grace
    → IsTracker grace s
    → IsTracker grace (open_new now xs s)
unfolding open_new
open_new-Tracker grace now [] s g h = h
open_new-Tracker grace now ((k, v) ∷ xs) s g h =
    open_new-Tracker grace now xs (open_one now k v s) g (open_one-Tracker grace now k v s g h)

-- What the passes over the open deals keep: which keys are open.
abbrev SameKeys : Dict String OpenDeal → Dict String OpenDeal → Type 0
SameKeys d e = (k : String) → contains k e ≡ contains k d

contains-insert_self :
    (k : String) (v : OpenDeal) (d : Dict String OpenDeal) → contains k (insert k v d) ≡ true
contains-insert_self k v d = ground (arith, string_key.same_iff k k, lookup-insert k k v d)

insert_present :
    (k : String) (v : OpenDeal) (d : Dict String OpenDeal)
    → contains k d ≡ true
    → SameKeys d (insert k v d)
insert_present k v d h j = elim (Bool-cases (k == j)) [
  | inl e ↦
      subst (λ x. contains x (insert k v d) ≡ contains x d) ((string_key.same_iff k j).0 e)
        (contains-insert_self k v d ∙ sym h)
  | inr e ↦ ground (arith, e, lookup-insert k j v d)
]

see_one-Same :
    (grace now : ℕ) (k : String) (v : Deal) (d : Dict String OpenDeal)
    → 0 < grace
    → Unique d
    → MissesBelow grace d
    → Unique (see_one now k v d)
      × SameKeys d (see_one now k v d)
      × MissesBelow grace (see_one now k v d)
see_one-Same grace now k v d g unique below =
    match-cases (λ e. Unique e × SameKeys d e × MissesBelow grace e) (lookup k d) _ _
      (λ e. (unique, (λ j. refl), below))
      (λ o e. (
        insert-Unique k _ d unique,
        insert_present k _ d (ground (arith, e)),
        All-insert grace k _ d g below,
      ))

see_all-Same :
    (grace now : ℕ) (xs : Dict String Deal) (d : Dict String OpenDeal)
    → 0 < grace
    → Unique d
    → MissesBelow grace d
    → Unique (see_all now xs d)
      × SameKeys d (see_all now xs d)
      × MissesBelow grace (see_all now xs d)
unfolding see_all
see_all-Same grace now [] d g unique below = (unique, (λ j. refl), below)
see_all-Same grace now ((k, v) ∷ xs) d g unique below =
    let (unique1, same1, below1) = see_one-Same grace now k v d g unique below in
    let (unique2, same2, below2) = see_all-Same grace now xs (see_one now k v d) g unique1 below1 in
    (unique2, (λ j. same2 j ∙ same1 j), below2)

lookup_absent-miss_all :
    (new : Dict String Deal) (k : String) (d : Dict String OpenDeal)
    → lookup k d ≡ none
    → lookup k (miss_all new d) ≡ none
unfolding miss_all lookup
lookup_absent-miss_all new k [] h = refl
lookup_absent-miss_all new k ((j, o) ∷ d) h = ground (arith, lookup_absent-miss_all new k d)

contains-miss_all :
    (new : Dict String Deal) (d : Dict String OpenDeal) → SameKeys d (miss_all new d)
unfolding miss_all lookup
contains-miss_all new [] k = refl
contains-miss_all new ((j, o) ∷ d) k = ground (arith, contains-miss_all new d k)

miss_all-Unique :
    (new : Dict String Deal) (d : Dict String OpenDeal) → Unique d → Unique (miss_all new d)
unfolding miss_all
miss_all-Unique new [] u = tt
miss_all-Unique new ((k, o) ∷ d) u = (lookup_absent-miss_all new k d u.0, miss_all-Unique new d u.1)

-- A deal that was seen keeps its count of misses, so what is not closed stays below the limit.
kept_below :
    (new : Dict String Deal) (grace : ℕ) (d : Dict String OpenDeal)
    → MissesBelow grace d
    → MissesBelow grace (keep (λ x. not (is_due new grace x)) (miss_all new d))
unfolding miss_all
kept_below new grace [] h = tt
kept_below new grace ((k, o) ∷ d) h = ground (arith, h.0, kept_below new grace d h.1)

-- What is closed is logged as closed, and no longer tracked.
close_balance :
    (new : Dict String Deal) (now grace : ℕ) (d : Dict String OpenDeal) (log : List Event)
    (k : String)
    → Unique d
    → closes k (close_log new now grace d log) + tracked k (keep (λ x. not (is_due new grace x)) d)
      ≡ closes k log + tracked k d
unfolding close_log lookup
close_balance new now grace [] log k u = refl
close_balance new now grace ((j, o) ∷ d) log k u = ground (
  arith,
  string_key.same_iff j k,
  close_balance new now grace d log k u.1,
  lookup-keep_absent (λ x. not (is_due new grace x)) j d u.0,
  u.0,
)

close_opens :
    (new : Dict String Deal) (now grace : ℕ) (d : Dict String OpenDeal) (log : List Event)
    (k : String)
    → opens k (close_log new now grace d log) ≡ opens k log
unfolding close_log
close_opens new now grace [] log k = refl
close_opens new now grace ((j, o) ∷ d) log k = ground (arith, close_opens new now grace d log k)

-- A scan keeps the tracker: no key is open twice, the log and the open deals agree, and an open deal
-- has missed fewer scans in a row than close it.
update_from_scan-Tracker :
    (grace now : ℕ) (deals : List Deal) (s : Tracker)
    → 0 < grace
    → IsTracker grace s
    → IsTracker grace (update_from_scan grace now deals s)
unfolding update_from_scan
update_from_scan-Tracker grace now deals s g h =
    let new = snapshots [] deals in
    let s1 = open_new now new s in
    let (unique1, counts1, below1) = open_new-Tracker grace now new s g h in
    let (unique2, same2, below2) = see_all-Same grace now new s1.open_deals g unique1 below1 in
    let seen = see_all now new s1.open_deals in
    let missed = miss_all new seen in
    let unique3 = miss_all-Unique new seen unique2 in
    (
      keep-Unique (λ x. not (is_due new grace x)) missed unique3,
      (λ k.
          let balance = close_balance new now grace missed s1.log k unique3 in
          let opened_same = close_opens new now grace missed s1.log k in
          let present : tracked k missed ≡ tracked k s1.open_deals =
            ap (λ (b : Bool). if b then 1 else 0) (contains-miss_all new seen k ∙ same2 k) in
          omega (arith, balance, opened_same, present, counts1 k)),
      kept_below new grace seen below2,
    )

-- Scans one after the other, each at its time.
unfoldable pub run_scans : ℕ → List (ℕ × List Deal) → Tracker → Tracker
run_scans grace [] s = s
run_scans grace ((now, deals) ∷ xs) s = run_scans grace xs (update_from_scan grace now deals s)

run_scans-Tracker :
    (grace : ℕ) (scans : List (ℕ × List Deal)) (s : Tracker)
    → 0 < grace
    → IsTracker grace s
    → IsTracker grace (run_scans grace scans s)
unfolding run_scans
run_scans-Tracker grace [] s g h = h
run_scans-Tracker grace ((now, deals) ∷ xs) s g h =
    run_scans-Tracker grace xs (update_from_scan grace now deals s) g
      (update_from_scan-Tracker grace now deals s g h)

abbrev pub no_deals : Tracker
no_deals = record { open_deals = []; log = [] }

-- With a grace of at least one scan and nothing open at the start: whatever the scans find, a deal has
-- been opened in the log as often as closed, and once more while it is open; no key is open twice, and
-- an open deal has missed fewer scans in a row than close it.
pub run_scans_balanced :
    (grace : ℕ) (scans : List (ℕ × List Deal))
    → 0 < grace
    → IsTracker grace (run_scans grace scans no_deals)
unfolding lookup
run_scans_balanced grace scans g = run_scans-Tracker grace scans no_deals g (tt, (λ k. refl), tt)
