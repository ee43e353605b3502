-- ===== src/Risk/Tests.antt =====
-- The theorems on the risk gates at a concrete day.
use polymarket_radar.Base.{
  string_key, ◌≤◌, ◌<◌, ◌≡◌, refl, ◌≢◌, ◌⊎◌, inl, ◌↔◌, String, true, false, Option, none, some,
  List, [], ◌∷◌, ◌++◌, arith, keep, count,
}
use polymarket_radar.Base.Int.{ℤ, pos, negsuc, ◌+ℤ◌, ◌-ℤ◌, ◌≤ℤ◌, scale}
use polymarket_radar.Risk.State.{
  Clock, RiskState, Store, hourly_losing_streak, get_state, loaded, check_day_roll, in_last_hour,
  restart,
}
use polymarket_radar.Risk.Killswitch.{Killswitch, is_killed}
use polymarket_radar.Risk.Network.{
  Reply, raised, answered, Cache, Answered, is_allowed, good_value_ttl_s, check_country_allowed,
  get_current_ip_country, settle, reuses_good, fetch_now, good_reply, check_country_allowed_sound,
}
use polymarket_radar.Risk.Limits.{
  Config, World, Deal, check_can_fire, record_pnl, next_utc_midnight, is_losing, sum,
}
use polymarket_radar.Risk.Limits.Gate.{MayFire, check_can_fire-MayFire}
use polymarket_radar.Risk.Limits.Pauses.{record_pnl_pauses, restart_keeps_limits}
use polymarket_radar.Base.Dict.{Dict}
use polymarket_radar.Risk.Reconcile.{
  Fetch, aggregate, fetch_all, all_keys, diff_positions, Reconcile, reconcile_once,
}
use polymarket_radar.Risk.Reconcile.Diff.{IsClose, diff_positions-none}
use polymarket_radar.Risk.Reconcile.Debounce.{Run, reconcile_all, IsBlip, debounce}

-- An hour before midnight.
abbrev pub late_evening : Clock
late_evening = record {
  now = 1000000;
  later = 1000000;
  secs_since_midnight = 82800;
  today = "2026-05-01";
}

abbrev just_after : Clock
just_after = record late_evening { now = 1000060; later = 1000060; secs_since_midnight = 82860 }

abbrev pub config : Config
config = record {
  max_per_trade_usd = pos 10000000;
  daily_loss_limit_usd = pos 20000000;
  losing_trades_per_hour = 3;
  pause_after_hourly_limit_s = 3600;
  allowed_countries = [];
  check_interval_s = 60;
}

abbrev calm_state : RiskState
calm_state = record {
  daily_date_utc = "2026-05-01";
  daily_pnl_usd = negsuc 14999999;
  recent_trades = [];
  paused_until_unix = none;
  paused_reason = none;
  last_reconcile_unix = none;
  last_reconcile_ok = none;
  last_reconcile_msg = none;
}

abbrev calm_store : Store
calm_store = record { memory = some calm_state; disk = none }

abbrev switch_off : Killswitch
switch_off = record {
  fault = false;
  flag = none;
  log = [];
  cancel_callbacks = 1 ∷ 2 ∷ [];
  cancelled = [];
}

abbrev no_cache : Cache
no_cache = record {
  ip = none;
  country = none;
  fetched_at = 0;
  last_error = none;
  last_good_ip = none;
  last_good_country = none;
  last_good_at = 0;
}

abbrev pub calm_world : World
calm_world = record { killswitch = switch_off; cache = no_cache; store = calm_store }

-- Two stakes of two dollars with a net of one.
abbrev pub small_deal : Deal
small_deal = record { stakes = pos 2000000 ∷ pos 2000000 ∷ []; net = some (pos 1000000) }

pub small_deal-MayFire : MayFire config late_evening [] small_deal calm_world
unfolding is_killed check_country_allowed get_state loaded check_day_roll sum scale ◌+ℤ◌
small_deal-MayFire = record {
  alive = refl;
  reachable = refl;
  capped = (omega arith, (omega arith, tt));
  unpaused = λ until e. ground arith;
  fits = omega arith;
}

check_can_fire-MayFire_example :
    ((check_can_fire config late_evening [] small_deal calm_world).0 ≡ none)
    ↔ MayFire config late_evening [] small_deal calm_world
check_can_fire-MayFire_example =
    check_can_fire-MayFire config late_evening [] small_deal calm_world (omega arith)

calm_day : (get_state late_evening calm_store).0 ≡ calm_state
unfolding get_state loaded check_day_roll
calm_day = refl

-- A loss of six dollars takes the day past its limit of twenty.
six_dollars_lost :
    (get_state late_evening calm_store).0.daily_pnl_usd +ℤ negsuc 5999999
    ≤ℤ pos 0 -ℤ config.daily_loss_limit_usd
unfolding get_state loaded check_day_roll ◌+ℤ◌ ◌-ℤ◌
six_dollars_lost = omega arith

before_midnight : just_after.now < next_utc_midnight late_evening
unfolding next_utc_midnight
before_midnight = omega arith

abbrev two_replies : List Reply
two_replies = raised "down" ∷ answered (some "1.2.3.4") (some "DE") ∷ []

answered_by_second : (check_country_allowed ("DE" ∷ []) 60 100 two_replies no_cache).0 ≡ none
unfolding check_country_allowed get_current_ip_country settle reuses_good fetch_now good_reply
answered_by_second = refl

check_country_allowed_sound_example :
    ((is_allowed ("DE" ∷ []) no_cache.country ≡ true) × (100 < 60))
    ⊎ (((country : Option String) × (is_allowed ("DE" ∷ []) country ≡ true)
          × Answered two_replies country)
        ⊎ ((is_allowed ("DE" ∷ []) no_cache.last_good_country ≡ true) × (100 ≤ good_value_ttl_s)))
check_country_allowed_sound_example =
    check_country_allowed_sound ("DE" ∷ []) 60 100 two_replies no_cache refl answered_by_second

-- After the loss nothing passes a minute later.
record_pnl_pauses_example :
    (check_can_fire config just_after [] small_deal (record calm_world {
      store = (record_pnl config late_evening (negsuc 5999999) true calm_store).0;
    })).0
    ≢ none
record_pnl_pauses_example =
    record_pnl_pauses config late_evening just_after (negsuc 5999999) [] small_deal calm_world refl
      (inl (six_dollars_lost, before_midnight))

restart_keeps_limits_example :
    let store' = (record_pnl config late_evening (negsuc 5999999) true calm_store).0 in
    let s = (get_state just_after store').0 in
    let s' = (get_state just_after (restart store')).0 in
    (s'.daily_pnl_usd ≡ s.daily_pnl_usd)
    × (s'.daily_date_utc ≡ s.daily_date_utc)
    × (s'.paused_until_unix ≡ s.paused_until_unix)
    × (s'.paused_reason ≡ s.paused_reason)
restart_keeps_limits_example =
    restart_keeps_limits config late_evening just_after (negsuc 5999999) calm_store refl

-- A pause for a losing streak that runs two hours past midnight.
abbrev paused_store : Store
paused_store = record {
  memory = some (record calm_state {
    paused_until_unix = some 1010800;
    paused_reason = some (hourly_losing_streak 3);
  });
  disk = none;
}

paused_day : (get_state late_evening paused_store).0.paused_until_unix ≡ some 1010800
unfolding get_state loaded check_day_roll
paused_day = refl

past_midnight : next_utc_midnight late_evening < 1010800
unfolding next_utc_midnight
past_midnight = omega arith

paused_loss :
    (get_state late_evening paused_store).0.daily_pnl_usd +ℤ negsuc 5999999
    ≤ℤ pos 0 -ℤ config.daily_loss_limit_usd
unfolding get_state loaded check_day_roll ◌+ℤ◌ ◌-ℤ◌
paused_loss = omega arith

one_loss :
    count (is_losing 1000000) (
      keep
        (in_last_hour 1000000)
        ((get_state late_evening paused_store).0.recent_trades ++ (1000000, negsuc 5999999) ∷ []))
    < 3
unfolding get_state loaded check_day_roll in_last_hour is_losing
one_loss = omega arith

abbrev local_side : Dict String ℤ
local_side = ("a", pos 5) ∷ []

abbrev remote_side : Dict String ℤ
remote_side = ("b", pos 1) ∷ []

diff_positions-none_example :
    (diff_positions (pos 3) local_side remote_side ≡ [])
    ↔ ((k : String) → IsClose (pos 3) local_side remote_side k)
diff_positions-none_example = diff_positions-none (pos 3) local_side remote_side (omega arith)

abbrev a_blip : Run String
a_blip = (late_evening, [], Fetch.raised "HTTP 502" ∷ [])

a_blip-IsBlip : IsBlip (pos 3) a_blip
unfolding fetch_all aggregate diff_positions all_keys
a_blip-IsBlip = (refl, λ h. ground arith)

abbrev no_failures : Reconcile
no_failures = record { consecutive_failures = 0; killswitch = switch_off; store = calm_store }

debounce_example :
    ((reconcile_all (pos 3) (a_blip ∷ a_blip ∷ []) no_failures).killswitch ≡ switch_off)
    × (is_killed
          (reconcile_once {K = String}
            (pos 3)
            late_evening
            []
            (Fetch.raised "HTTP 502" ∷ [])
            (reconcile_all (pos 3) (a_blip ∷ a_blip ∷ []) no_failures)).0.killswitch
        ≡ true)
debounce_example =
    debounce (pos 3) (a_blip ∷ a_blip ∷ []) late_evening [] (Fetch.raised "HTTP 502" ∷ [])
      no_failures refl (a_blip-IsBlip, (a_blip-IsBlip, tt)) refl a_blip-IsBlip
