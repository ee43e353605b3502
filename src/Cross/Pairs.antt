-- ===== src/Cross/Pairs.antt =====
-- Scripts/event_matching.py: find_pairs, the greedy pairing of the events of two exchanges. A date is a
-- day number from 1, where 0 stands for no date; a confidence is in 1/100000. What the regular
-- expressions make of a title and the similarity of two titles are arguments.
use polymarket_radar.Base.{
  ℕ, suc, ◌+◌, ◌-◌, ◌*◌, min, String, Bool, true, not, ◌&&◌, Option, none, some, List, [], ◌∷◌,
  ◌++◌, any, ltb, leb, eqb, if◌then◌else◌, ◌==◌, string_key, nat_key, pair_key,
}
use polymarket_radar.Base.Dict.{Dict, lookup, insert}

-- `canonicalize_teams` of a normalised title with its sport, `extract_league`, `extract_date` and
-- `title_similarity` in 1/10000.
pub record Titles : Type 0 where
  pub canonical : String → String
  pub sport : String → Option String
  pub league : String → Option String
  pub date_in : String → ℕ
  pub similarity : String → String → ℕ

-- `_LEAGUE_TO_SPORT`
abbrev pub league_to_sport : Dict String String
league_to_sport =
    ("epl", "soccer")
    ∷ ("laliga", "soccer")
    ∷ ("bundesliga", "soccer")
    ∷ ("seriea", "soccer")
    ∷ ("ligue1", "soccer")
    ∷ ("ucl", "soccer")
    ∷ ("uel", "soccer")
    ∷ ("uecl", "soccer")
    ∷ ("facup", "soccer")
    ∷ ("eflcup", "soccer")
    ∷ ("eflchamp", "soccer")
    ∷ ("mls", "soccer")
    ∷ ("copa_libertadores", "soccer")
    ∷ ("copa_sudamericana", "soccer")
    ∷ ("copa_america", "soccer")
    ∷ ("world_cup", "soccer")
    ∷ ("nba", "basketball")
    ∷ ("ncaa", "basketball")
    ∷ ("nfl", "football")
    ∷ ("mlb", "baseball")
    ∷ ("nhl", "hockey")
    ∷ ("atp", "tennis")
    ∷ ("wta", "tennis")
    ∷ ("grand_slam", "tennis")
    ∷ ("ufc", "mma")
    ∷ ("lck", "esports")
    ∷ ("lec", "esports")
    ∷ []

-- An event, with the date that `_parse_date` reads.
pub record Event : Type 0 where
  pub title : String
  pub end_date : ℕ

-- What `_preprocess` gives; a missing sport is `_nosport`.
pub record Prepared : Type 0 where
  pub canon : String
  pub sport : String
  pub date : ℕ

abbrev pub sport_key : Option String → Option String → String
sport_key (some s) league = s
sport_key none none = "_nosport"
sport_key none (some l) = elim (lookup l league_to_sport) [ none ↦ "_nosport" | some s ↦ s ]

-- `_preprocess`
unfoldable pub preprocess : Titles → Event → Prepared
preprocess t ev = record {
  canon = t.canonical ev.title;
  sport = sport_key (t.sport ev.title) (t.league ev.title);
  date = if ltb 0 ev.end_date then ev.end_date else t.date_in ev.title;
}

unfoldable pub prepared : Titles → List Event → List Prepared
prepared t [] = []
prepared t (e ∷ es) = preprocess t e ∷ prepared t es

-- `date_score`: both dates agree up to a day, one is missing, or they differ.
abbrev pub date_score : ℕ → ℕ → ℕ
date_score a b =
    if ltb 0 a && ltb 0 b then if leb ((a - b) + (b - a)) 1 then 30000 else 0 else 15000

-- `_match_from_canon`, of which the pairing reads the confidence.
unfoldable pub match_from_canon : Titles → Prepared → Prepared → ℕ
match_from_canon t a b =
    let bonus = if a.sport == b.sport && not (a.sport == "_nosport") then 10000 else 0 in
    min 100000 (6 * t.similarity a.canon b.canon + date_score a.date b.date + bonus)

-- An entry of `buckets_b`, with its place in the list.
pub record Entry : Type 0 where
  pub index : ℕ
  pub event : Prepared

abbrev pub BucketKey : Type 0
BucketKey = String × ℕ

abbrev pub Buckets : Type 0
Buckets = Dict BucketKey (List Entry)

abbrev pub bucket : BucketKey → Buckets → List Entry
bucket k d = elim (lookup k d) [ none ↦ [] | some es ↦ es ]

abbrev pub push : BucketKey → Entry → Buckets → Buckets
push k e d = insert k (bucket k d ++ e ∷ []) d

-- An event goes into the bucket of its date and, where it has one, those of the days beside it.
unfoldable pub add_entry : Entry → Buckets → Buckets
add_entry e d =
    let p = e.event in
    let own = push (p.sport, p.date) e d in
    if ltb 1 p.date then push (p.sport, p.date + 1) e (push (p.sport, p.date - 1) e own) else own

-- `buckets_b`
unfoldable pub index_into : ℕ → Buckets → List Prepared → Buckets
index_into i d [] = d
index_into i d (p ∷ ps) = index_into (suc i) (add_entry (record { index = i; event = p }) d) ps

abbrev pub is_in : ℕ → List ℕ → Bool
is_in i places = any (λ j. eqb j i) places

-- `deduped`
unfoldable pub dedup : List ℕ → List Entry → List Entry
dedup seen [] = []
dedup seen (e ∷ es) =
    let rest = dedup (e.index ∷ seen) es in if is_in e.index seen then dedup seen es else e ∷ rest

-- `candidates`
unfoldable pub candidates : Buckets → Prepared → List Entry
candidates d a = dedup [] (
    bucket (a.sport, a.date) d
    ++ bucket (a.sport, 0) d
    ++ bucket ("_nosport", a.date) d
    ++ bucket ("_nosport", 0) d)

-- `best` with `best_idx`: a confidence and a place.
abbrev pub beats : ℕ → Option (ℕ × ℕ) → Bool
beats confidence none = true
beats confidence (some (c, i)) = ltb c confidence

-- The best after one more candidate.
abbrev pub better : Titles → ℕ → List ℕ → Prepared → Option (ℕ × ℕ) → Entry → Option (ℕ × ℕ)
better t min_confidence used a best e =
    let confidence = match_from_canon t a e.event in
    if not (is_in e.index used) && leb min_confidence confidence && beats confidence best
    then some (confidence, e.index)
    else best

unfoldable pub choose :
    Titles → ℕ → List ℕ → Prepared → Option (ℕ × ℕ) → List Entry → Option (ℕ × ℕ)
choose t min_confidence used a best [] = best
choose t min_confidence used a best (e ∷ es) =
    choose t min_confidence used a (better t min_confidence used a best e) es

pub record Pair : Type 0 where
  pub a : ℕ
  pub b : ℕ
  pub confidence : ℕ

-- The loop over `pre_a`.
unfoldable pub pair_loop : Titles → ℕ → Buckets → List ℕ → ℕ → List Prepared → List Pair
pair_loop t min_confidence d used i [] = []
pair_loop t min_confidence d used i (a ∷ more) =
    elim (choose t min_confidence used a none (candidates d a)) [
      | none ↦ pair_loop t min_confidence d used (suc i) more
      | some x ↦
          record { a = i; b = x.1; confidence = x.0 }
          ∷ pair_loop t min_confidence d (x.1 ∷ used) (suc i) more
    ]

-- `find_pairs`, with the places of the events.
unfoldable pub find_pairs : Titles → ℕ → List Event → List Event → List Pair
find_pairs t min_confidence events_a events_b =
    pair_loop t min_confidence (index_into 0 [] (prepared t events_b)) [] 0 (prepared t events_a)
