-- ===== src/Risk/Killswitch.antt =====
-- Scripts/risk/killswitch.py: the flag file, its log and the cancel callbacks.
use polymarket_radar.Base.{
  ℕ, String, Bool, true, false, Option, none, some, List, [], ◌∷◌, ◌++◌, if◌then◌else◌, ◌≡◌, arith,
  map,
}

-- What the flag file holds. A file that cannot be parsed reads as `corrupted`.
pub data Flag : Type 0 where
  info : String → ℕ → Flag
  corrupted : Flag

pub data Event : Type 0 where
  kill_event unkill_event : String → Event

-- The flag file, the log, the registered callbacks by number, and the calls of them that were made
-- with the reason. `fault` says whether `os.path.exists` raises.
pub record Killswitch : Type 0 where
  pub fault : Bool
  pub flag : Option Flag
  pub log : List Event
  pub cancel_callbacks : List ℕ
  pub cancelled : List (ℕ × String)

abbrev exists : Option Flag → Bool
exists none = false
exists (some f) = true

-- `is_killed`: a file system that raises counts as killed.
unfoldable pub is_killed : Killswitch → Bool
is_killed k = if k.fault then true else exists k.flag

-- `_read_flag`: `open` is asked only if the flag is there; under a fault it fails too.
pub read_flag : Killswitch → Option Flag
unfolding is_killed
read_flag k = if is_killed k then (if k.fault then some corrupted else k.flag) else none

or_info : Option Flag → Flag → Flag
or_info none f = f
or_info (some g) f = g

-- The flag, the log and the callbacks of a switch that was not yet killed.
trip : String → ℕ → Killswitch → Killswitch
trip reason now k = record k {
  flag = some (info reason now);
  log = k.log ++ kill_event reason ∷ [];
  cancelled = k.cancelled ++ map (λ c. (c, reason)) k.cancel_callbacks;
}

-- `kill`, with the flag that it returns. What a callback or the notification raises is caught.
pub kill : String → ℕ → Killswitch → Flag × Killswitch
unfolding is_killed read_flag or_info trip
kill reason now k =
    let k' = if is_killed k then k else trip reason now k in
    (or_info (read_flag k') (info reason now), k')

-- `unkill`, with whether the switch was on. `os.remove` of a missing file is caught.
pub unkill : String → Killswitch → Bool × Killswitch
unfolding is_killed
unkill reason k =
    let was = is_killed k in
    (was, if was then record k { flag = none; log = k.log ++ unkill_event reason ∷ [] } else k)

-- `register_cancel_callback`
pub register_cancel_callback : ℕ → Killswitch → Killswitch
register_cancel_callback c k = record k { cancel_callbacks = k.cancel_callbacks ++ c ∷ [] }

-- After `kill` the switch is on; a second `kill` changes nothing, runs no callback and returns the
-- same flag.
pub kill_idempotent :
    (r r' : String) (t t' : ℕ) (k : Killswitch)
    → (is_killed (kill r t k).1 ≡ true) × (kill r' t' (kill r t k).1 ≡ kill r t k)
unfolding kill
kill_idempotent r r' t t' k = ground arith

-- A `kill` of a switch that is off runs every registered callback once, with the reason, and then
-- `unkill` reports that it was on and turns it off.
pub unkill-kill :
    (r r' : String) (t : ℕ) (k : Killswitch)
    → is_killed k ≡ false
    → let k' = (kill r t k).1 in
      (k'.cancelled ≡ k.cancelled ++ map (λ c. (c, r)) k.cancel_callbacks)
      × ((unkill r' k').0 ≡ true)
      × (is_killed (unkill r' k').1 ≡ false)
unfolding kill unkill
unkill-kill r r' t k h = ground arith
