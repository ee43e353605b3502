-- ===== src/Analytics.antt =====
-- Scripts/analytics.py: the deals that are open, the log of events and its totals. Times are in seconds,
-- money in cents. A set is listed in the order of its dict, so the order in which one scan logs several
-- deals may differ. The log stands newest first.
pub mod Lifecycle
pub mod Totals
mod Tests
use polymarket_radar.Base.{
  ℕ, zero, suc, ◌+◌, ◌-◌, ◌*◌, ◌/◌, ◌≤◌, ◌<◌, min, max, ◌≡◌, refl, sym, ap, subst, ◌∙◌, ◌≢◌, ◌↔◌,
  ◌⊎◌, inl, inr, String, ◌<>◌, Bool, true, false, not, ◌&&◌, ◌||◌, Option, none, some, List, [],
  ◌∷◌, ◌++◌, map, All, Pairs, All-map, All-every, All-append, All-keep, All-kept, length, keep, any,
  count, take, drop, is_empty, ltb, leb, eqb, if◌then◌else◌, ◌==◌, string_key, nat_key, pair_key,
  arith, if-cases, match-cases, some_if, Bool-cases, Option-cases, ltb→lt, lt→ltb, leb→le, eqb_iff,
}
use polymarket_radar.Base.Dict.{Dict, lookup, insert, contains}
use polymarket_radar.Base.Int.{ℤ, pos, ◌+ℤ◌}

-- A deal of a scan, with what the totals read of it.
pub record Deal : Type 0 where
  pub platform : String
  pub title : String
  pub arb_structure : String
  pub cross_structure : String
  pub net : ℤ

-- `deal_key`
unfoldable pub deal_key : Deal → String
deal_key d = d.platform <> "::" <> d.title <> "::" <> d.arb_structure <> "::" <> d.cross_structure

-- An entry of `_open_deals`; the snapshot of a deal is the deal.
pub record OpenDeal : Type 0 where
  pub opened_ts : ℕ
  pub last_seen_ts : ℕ
  pub first_seen_ts : ℕ
  pub consecutive_scans_seen : ℕ
  pub misses : ℕ
  pub snapshot : Deal

pub data Event : Type 0 where
  opened : ℕ → String → Deal → Event
  closed : ℕ → String → ℕ → Event
  near_seen : ℕ → String → Deal → Event
  fire_filled : ℕ → Deal → Event

-- The module's state, with the log.
pub record Tracker : Type 0 where
  pub open_deals : Dict String OpenDeal
  pub log : List Event

-- `snapshots`: the last deal of a key counts.
unfoldable pub snapshots : Dict String Deal → List Deal → Dict String Deal
snapshots d [] = d
snapshots d (x ∷ xs) = snapshots (insert (deal_key x) x d) xs

-- The loop over `opened_keys`.
abbrev pub open_one : ℕ → String → Deal → Tracker → Tracker
open_one now k v s = if contains k s.open_deals then s else record {
  open_deals =
      insert k
        (record {
          opened_ts = now;
          last_seen_ts = now;
          first_seen_ts = now;
          consecutive_scans_seen = 1;
          misses = 0;
          snapshot = v;
        })
        s.open_deals;
  log = opened now k v ∷ s.log;
}

unfoldable pub open_new : ℕ → Dict String Deal → Tracker → Tracker
open_new now [] s = s
open_new now ((k, v) ∷ xs) s = open_new now xs (open_one now k v s)

-- The loop over `new_keys & set(_open_deals.keys())`.
abbrev pub see_one : ℕ → String → Deal → Dict String OpenDeal → Dict String OpenDeal
see_one now k v d = elim (lookup k d) [
  | none ↦ d
  | some o ↦
      insert k
        (record o {
          last_seen_ts = now;
          misses = 0;
          snapshot = v;
          consecutive_scans_seen = suc o.consecutive_scans_seen;
        })
        d
]

unfoldable pub see_all : ℕ → Dict String Deal → Dict String OpenDeal → Dict String OpenDeal
see_all now [] d = d
see_all now ((k, v) ∷ xs) d = see_all now xs (see_one now k v d)

-- The loop over `candidate_close`.
unfoldable pub miss_all : Dict String Deal → Dict String OpenDeal → Dict String OpenDeal
miss_all new [] = []
miss_all new ((k, o) ∷ d) =
    (k, if contains k new then o else record o { misses = suc o.misses }) ∷ miss_all new d

abbrev pub is_due : Dict String Deal → ℕ → String × OpenDeal → Bool
is_due new grace x = not (contains x.0 new) && leb grace (x.1).misses

-- The loop over `actually_closed`.
unfoldable pub close_log : Dict String Deal → ℕ → ℕ → Dict String OpenDeal → List Event → List Event
close_log new now grace [] log = log
close_log new now grace ((k, o) ∷ d) log =
    let rest = close_log new now grace d log in
    if is_due new grace (k, o) then closed now k (now - o.opened_ts) ∷ rest else rest

-- `update_from_scan`, with `_CLOSE_GRACE_SCANS` as `grace`.
unfoldable pub update_from_scan : ℕ → ℕ → List Deal → Tracker → Tracker
update_from_scan grace now deals s =
    let new = snapshots [] deals in
    let s1 = open_new now new s in
    let missed = miss_all new (see_all now new s1.open_deals) in
    record {
      open_deals = keep (λ x. not (is_due new grace x)) missed;
      log = close_log new now grace missed s1.log;
    }

-- `get_first_seen_ts`
abbrev pub get_first_seen_ts : String → Tracker → Option ℕ
get_first_seen_ts k s = elim (lookup k s.open_deals) [ none ↦ none | some o ↦ some o.first_seen_ts ]

-- `update_from_near_scan`, with `_near_logged`: a key that is missing there was logged at 0.
abbrev pub last_logged : String → Dict String ℕ → ℕ
last_logged k d = elim (lookup k d) [ none ↦ 0 | some t ↦ t ]

abbrev pub near_relog_sec : ℕ
near_relog_sec = 300

abbrev pub log_near : ℕ → Deal → Dict String ℕ × List Event → Dict String ℕ × List Event
log_near now x (logged, log) =
    if ltb (now - last_logged (deal_key x) logged) near_relog_sec
    then (logged, log)
    else (insert (deal_key x) now logged, near_seen now (deal_key x) x ∷ log)

unfoldable pub update_from_near_scan :
    ℕ → List Deal → Dict String ℕ × List Event → Dict String ℕ × List Event
update_from_near_scan now [] s = s
update_from_near_scan now (x ∷ xs) s = update_from_near_scan now xs (log_near now x s)

-- A leg of `leg_details`: whether its status is `filled`, and `fill_size_usdc`.
pub record LegDetail : Type 0 where
  pub is_filled : Bool
  pub fill_size : ℕ

-- `record_fire_filled`, up to what it writes of the legs.
unfoldable pub record_fire_filled : ℕ → Deal → List LegDetail → List Event → List Event
record_fire_filled now d legs log =
    if any (λ l. l.is_filled && ltb 0 l.fill_size) legs then fire_filled now d ∷ log else log
