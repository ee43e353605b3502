-- ===== src/Analytics/Totals.antt =====
-- Scripts/analytics.py: aggregate, the totals over the log, and what they add up to.
use polymarket_radar.Base.{
  ℕ, suc, ◌+◌, ◌≤◌, ◌≡◌, refl, String, List, [], ◌∷◌, length, ltb, if◌then◌else◌, ◌==◌, string_key,
  nat_key, pair_key, arith, if-cases,
}
use polymarket_radar.Base.Dict.{Dict}
use polymarket_radar.Base.Int.{ℤ, pos, ◌+ℤ◌}
use polymarket_radar.Stream.Subs.{in_set}
use polymarket_radar.Analytics.{Deal, Event, opened, closed, near_seen, fire_filled}

-- The entry of one exchange or structure: `sim_count`, `sim_net` and `_titles`.
pub record Stats : Type 0 where
  pub sim_count : ℕ
  pub sim_net : ℤ
  pub titles : List String

pub record Totals : Type 0 where
  pub sim_count : ℕ
  pub sim_net : ℤ
  pub unique_titles : List String
  pub by_platform : Dict String Stats
  pub by_structure : Dict String Stats
  pub closed_count : ℕ
  pub near_count : ℕ
  pub near_by_platform : Dict String ℕ
  pub near_by_structure : Dict String ℕ
  pub filled_count : ℕ
  pub filled_titles : List String
  pub filled_by_platform : Dict String ℕ
  pub filled_by_structure : Dict String ℕ

abbrev pub no_totals : Totals
no_totals = record {
  sim_count = 0;
  sim_net = pos 0;
  unique_titles = [];
  by_platform = [];
  by_structure = [];
  closed_count = 0;
  near_count = 0;
  near_by_platform = [];
  near_by_structure = [];
  filled_count = 0;
  filled_titles = [];
  filled_by_platform = [];
  filled_by_structure = [];
}

-- `s.add(t)`
abbrev pub add_title : String → List String → List String
add_title t ts = if in_set t ts then ts else t ∷ ts

-- `d[k] += 1`, of a `defaultdict(int)`.
unfoldable pub bump : String → Dict String ℕ → Dict String ℕ
bump k [] = (k, 1) ∷ []
bump k ((j, n) ∷ d) = if j == k then (j, suc n) ∷ d else (j, n) ∷ bump k d

abbrev pub add_stats : Deal → Stats → Stats
add_stats x s = record {
  sim_count = suc s.sim_count;
  sim_net = s.sim_net +ℤ x.net;
  titles = add_title x.title s.titles;
}

abbrev pub no_stats : Stats
no_stats = record { sim_count = 0; sim_net = pos 0; titles = [] }

unfoldable pub add_to : String → Deal → Dict String Stats → Dict String Stats
add_to k x [] = (k, add_stats x no_stats) ∷ []
add_to k x ((j, s) ∷ d) = if j == k then (j, add_stats x s) ∷ d else (j, s) ∷ add_to k x d

-- `ev.get('arb_structure') or 'all_yes'`
abbrev pub structure_of : Deal → String
structure_of x = if x.arb_structure == "" then "all_yes" else x.arb_structure

-- One line of the log that is not before the cutoff.
unfoldable pub add_event : Event → Totals → Totals
add_event (opened ts k x) a = record a {
  sim_count = suc a.sim_count;
  sim_net = a.sim_net +ℤ x.net;
  unique_titles = add_title x.title a.unique_titles;
  by_platform = add_to x.platform x a.by_platform;
  by_structure = add_to (structure_of x) x a.by_structure;
}
add_event (closed ts k duration) a = record a { closed_count = suc a.closed_count }
add_event (near_seen ts k x) a = record a {
  near_count = suc a.near_count;
  near_by_platform = bump x.platform a.near_by_platform;
  near_by_structure = bump (structure_of x) a.near_by_structure;
}
add_event (fire_filled ts x) a = record a {
  filled_count = suc a.filled_count;
  filled_by_platform = bump x.platform a.filled_by_platform;
  filled_by_structure = bump (structure_of x) a.filled_by_structure;
  filled_titles = if x.title == "" then a.filled_titles else add_title x.title a.filled_titles;
}

abbrev pub time_of : Event → ℕ
time_of (opened ts k x) = ts
time_of (closed ts k duration) = ts
time_of (near_seen ts k x) = ts
time_of (fire_filled ts x) = ts

-- `aggregate`, from the oldest event on: the log stands newest first.
unfoldable pub aggregate : ℕ → List Event → Totals
aggregate cutoff [] = no_totals
aggregate cutoff (e ∷ es) =
    let rest = aggregate cutoff es in if ltb (time_of e) cutoff then rest else add_event e rest

-- The sums of the counts over the exchanges or structures.
abbrev pub count_stats : Dict String Stats → ℕ
count_stats [] = 0
count_stats ((k, s) ∷ d) = s.sim_count + count_stats d

abbrev pub count_all : Dict String ℕ → ℕ
count_all [] = 0
count_all ((k, n) ∷ d) = n + count_all d

count_stats-add_to :
    (k : String) (x : Deal) (d : Dict String Stats)
    → count_stats (add_to k x d) ≡ suc (count_stats d)
unfolding add_to
count_stats-add_to k x [] = refl
count_stats-add_to k x ((j, s) ∷ d) = ground (arith, count_stats-add_to k x d)

count_all-bump : (k : String) (d : Dict String ℕ) → count_all (bump k d) ≡ suc (count_all d)
unfolding bump
count_all-bump k [] = refl
count_all-bump k ((j, n) ∷ d) = ground (arith, count_all-bump k d)

abbrev pub AddsUp : Totals → Type 0
AddsUp a =
    (count_stats a.by_platform ≡ a.sim_count)
    × (count_stats a.by_structure ≡ a.sim_count)
    × (count_all a.near_by_platform ≡ a.near_count)
    × (count_all a.near_by_structure ≡ a.near_count)
    × (count_all a.filled_by_platform ≡ a.filled_count)
    × (count_all a.filled_by_structure ≡ a.filled_count)
    × (length a.unique_titles ≤ a.sim_count)
    × (length a.filled_titles ≤ a.filled_count)

length-add_title : (t : String) (ts : List String) → length (add_title t ts) ≤ suc (length ts)
length-add_title t ts = ground arith

add_event-AddsUp : (e : Event) (a : Totals) → AddsUp a → AddsUp (add_event e a)
unfolding add_event
add_event-AddsUp (opened ts k x) a h = ground (
  arith,
  h,
  count_stats-add_to x.platform x a.by_platform,
  count_stats-add_to (structure_of x) x a.by_structure,
  length-add_title x.title a.unique_titles,
)
add_event-AddsUp (closed ts k duration) a h = h
add_event-AddsUp (near_seen ts k x) a h = ground (
  arith,
  h,
  count_all-bump x.platform a.near_by_platform,
  count_all-bump (structure_of x) a.near_by_structure,
)
add_event-AddsUp (fire_filled ts x) a h = ground (
  arith,
  h,
  count_all-bump x.platform a.filled_by_platform,
  count_all-bump (structure_of x) a.filled_by_structure,
  length-add_title x.title a.filled_titles,
)

-- The totals over any log add up: the counts over the exchanges, and those over the structures, give
-- the count of all, for opened, near and filled deals alike, and no more titles are counted than deals.
pub aggregate-AddsUp : (cutoff : ℕ) (log : List Event) → AddsUp (aggregate cutoff log)
unfolding aggregate
aggregate-AddsUp cutoff [] = ground arith
aggregate-AddsUp cutoff (e ∷ es) =
    if-cases AddsUp (ltb (time_of e) cutoff) _ _ (λ h. aggregate-AddsUp cutoff es)
      (λ h. add_event-AddsUp e (aggregate cutoff es) (aggregate-AddsUp cutoff es))
