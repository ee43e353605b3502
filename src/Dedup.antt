-- ===== src/Dedup.antt =====
-- Scripts/radar/dedup.py: the store that keeps an arb from being fired again within its cooldown.
-- A time is a whole number of seconds; the lock makes each method one step.
pub mod Claims
pub mod Cooldown
pub mod Capacity
mod Tests
use polymarket_radar.Base.{
  ℕ, ◌+◌, ◌-◌, ◌*◌, ◌/◌, String, Bool, true, false, not, ◌&&◌, ◌||◌, Option, none, some, List, [],
  ◌∷◌, ◌++◌, ltb, leb, if◌then◌else◌, ◌<>◌, string_key, length, take, keep,
}
use polymarket_radar.Base.Dict.{Dict, lookup, insert, erase, contains}
use polymarket_radar.Base.Sort.{sort}

-- What the store reads of a deal.
pub record Deal : Type 0 where
  pub arb_structure : Option String
  pub platform : Option String
  pub title : Option String
  pub is_quarantine : Bool

-- `deal.get(field, '?')`
abbrev or_unknown : Option String → String
or_unknown none = "?"
or_unknown (some s) = s

-- `_arb_fire_key`
pub arb_fire_key : Deal → String
arb_fire_key d =
    or_unknown d.arb_structure <> ("::" <> (or_unknown d.platform <> ("::" <> or_unknown d.title)))

-- `_tracked`: key to the time of its last fire.
abbrev pub Tracked : Type 0
Tracked = Dict String ℕ

pub record FireDedup : Type 0 where
  pub cooldown_s : ℕ
  pub hard_cap : ℕ
  pub tracked : Tracked

-- Whether `now - last_ts > self.cooldown_s` fails.
abbrev pub is_live : ℕ → ℕ → ℕ → Bool
is_live now cooldown_s last_ts = leb now (last_ts + cooldown_s)

-- The keys of a dict differ, so popping the expired ones leaves the entries that are live.
pub evict : ℕ → ℕ → Tracked → Tracked
evict now cooldown_s t = keep (λ x. is_live now cooldown_s x.1) t

-- `evict_expired`, with the number of entries that it removed.
pub evict_expired : ℕ → FireDedup → ℕ × FireDedup
unfolding evict
evict_expired now s =
    let t = evict now s.cooldown_s s.tracked in
    (length s.tracked - length t, record s { tracked = t })

-- `key=lambda kv: kv[1]`
abbrev pub older : String × ℕ → String × ℕ → Bool
older x y = leb x.1 y.1

pub erase_all : List (String × ℕ) → Tracked → Tracked
erase_all [] t = t
erase_all (x ∷ xs) t = erase_all xs (erase x.0 t)

-- `sorted_keys[:drop_count]`, with `drop_count = len(tracked) - int(hard_cap * 0.8)`.
pub oldest : ℕ → Tracked → List (String × ℕ)
oldest hard_cap t = take (length t - hard_cap * 4 / 5) (sort older t)

-- The safety net of `reserve` on the number of keys.
pub shrink : ℕ → Tracked → Tracked
unfolding oldest erase_all
shrink hard_cap t = if ltb hard_cap (length t) then erase_all (oldest hard_cap t) t else t

-- Whether the loop of `reserve` passes a deal over.
pub skips : Deal → Tracked → Bool
unfolding arb_fire_key
skips d t = d.is_quarantine || contains (arb_fire_key d) t

-- The loop of `reserve`: the pairs to fire, and the table with each of them at `now`.
pub claim : ℕ → List Deal → Tracked → List (String × Deal) × Tracked
unfolding skips
claim now [] t = ([], t)
claim now (d ∷ ds) t =
    let skip = skips d t in
    let k = arb_fire_key d in
    let (rest, t') = claim now ds (if skip then t else insert k now t) in
    (if skip then rest else (k, d) ∷ rest, t')

-- `reserve`
pub reserve : ℕ → List Deal → FireDedup → List (String × Deal) × FireDedup
unfolding evict shrink claim
reserve now deals s =
    let (to_fire, t) = claim now deals (shrink s.hard_cap (evict now s.cooldown_s s.tracked)) in
    (to_fire, record s { tracked = t })

-- `is_tracked`
pub is_tracked : String → FireDedup → Bool
is_tracked k s = contains k s.tracked

-- `clear`
pub clear : FireDedup → FireDedup
clear s = record s { tracked = [] }
