-- ===== src/Risk/Network.antt =====
-- Scripts/risk/network_check.py: the country of the outgoing address, cached, with a fall-back to the
-- last good answer. Modelled for one caller at a time: the wait of a second caller for a fetch that
-- runs is left out. Times are in whole seconds.
use Prim.Native.String.{count}
use polymarket_radar.Base.{
  ℕ, ◌+◌, ◌≤◌, ◌<◌, ◌≡◌, ◌⊎◌, String, Bool, true, false, not, ◌&&◌, Option, none, some, List, [],
  ◌∷◌, if◌then◌else◌, arith, ltb, leb, eqb, any, ◌==◌, string_key, is_empty, Bool-cases, inl, inr,
}

-- What a provider does: it returns an address and a country, or it raises.
pub data Reply : Type 0 where
  answered : Option String → Option String → Reply
  raised : String → Reply

-- `(ip, country, error)`
pub record Location : Type 0 where
  pub ip : Option String
  pub country : Option String
  pub error : Option String

-- The truth of an optional text.
abbrev pub truthy : Option String → Bool
truthy none = false
truthy (some s) = not (s == "")

abbrev pub has_length_two : Option String → Bool
has_length_two none = false
has_length_two (some s) = eqb (count s) 2

unfoldable pub good_reply : Option String → Option String → Bool
good_reply ip country = truthy ip && (truthy country && has_length_two country)

-- `_fetch_now`, with the error of the last provider that failed; the text of a bad response is
-- shortened to "bad response".
unfoldable pub fetch_now : List Reply → Option String → Location
unfolding good_reply
fetch_now [] none = record { ip = none; country = none; error = some "all providers failed" }
fetch_now [] (some e) = record { ip = none; country = none; error = some e }
fetch_now (raised e ∷ rest) last_err = fetch_now rest (some e)
fetch_now (answered ip country ∷ rest) last_err =
    let more = fetch_now rest (some "bad response") in
    if good_reply ip country then record { ip = ip; country = country; error = none } else more

-- `_cache`
pub record Cache : Type 0 where
  pub ip : Option String
  pub country : Option String
  pub fetched_at : ℕ
  pub last_error : Option String
  pub last_good_ip : Option String
  pub last_good_country : Option String
  pub last_good_at : ℕ

abbrev pub good_value_ttl_s : ℕ
good_value_ttl_s = 300

-- Whether a failed fetch may be answered by the last good value.
unfoldable pub reuses_good : ℕ → Location → Cache → Bool
reuses_good now found c =
    truthy found.error
    && (not (eqb c.last_good_at 0) && leb now (c.last_good_at + good_value_ttl_s))

unfoldable pub settle : ℕ → Location → Cache → Location
unfolding reuses_good
settle now found c =
    if reuses_good now found c
    then record { ip = c.last_good_ip; country = c.last_good_country; error = none }
    else found

-- The writes to the cache after a fetch.
store : ℕ → Location → Cache → Cache
store now found c =
    let c' = record c {
      ip = found.ip;
      country = found.country;
      fetched_at = now;
      last_error = found.error;
    } in
    if not (truthy found.error) && truthy found.country
    then record c' {
      last_good_ip = found.ip;
      last_good_country = found.country;
      last_good_at = now;
    }
    else c'

-- `get_current_ip_country`, by the replies of the providers at `now`.
unfoldable pub get_current_ip_country : ℕ → ℕ → Bool → List Reply → Cache → Location × Cache
unfolding settle store
get_current_ip_country interval now force_refresh replies c =
    let found = settle now (fetch_now replies none) c in
    if not force_refresh && ltb now (c.fetched_at + interval)
    then (record { ip = c.ip; country = c.country; error = c.last_error }, c)
    else (found, store now found c)

-- Why the check refuses: the error of the fetch, or the country that is not allowed.
pub data Refusal : Type 0 where
  network_check_failed : Option String → Refusal
  ip_geo_disallowed : Option String → Refusal

-- `country not in ALLOWED_COUNTRIES`, negated.
abbrev pub is_allowed : List String → Option String → Bool
is_allowed allowed none = false
is_allowed allowed (some country) = any (λ a. a == country) allowed

-- `check_country_allowed`: `none` is `(True, None)`.
unfoldable pub check_country_allowed :
    List String → ℕ → ℕ → List Reply → Cache → Option Refusal × Cache
check_country_allowed allowed interval now replies c =
    let (found, c') = get_current_ip_country interval now false replies c in
    if is_empty allowed then (none, c) else (
      if truthy found.error
          then some (network_check_failed found.error)
          else if is_allowed allowed found.country
          then none
          else some (ip_geo_disallowed found.country),
      c',
    )

-- A provider among the replies answered with this country.
abbrev pub Answered : List Reply → Option String → Type 0
Answered [] country = ⊥
Answered (raised e ∷ rest) country = Answered rest country
Answered (answered ip found ∷ rest) country = (found ≡ country) ⊎ Answered rest country

fetch_now-Answered :
    (allowed : List String) (replies : List Reply) (e : Option String)
    → is_allowed allowed (fetch_now replies e).country ≡ true
    → Answered replies (fetch_now replies e).country
unfolding fetch_now
fetch_now-Answered allowed [] none h = absurd (ground arith)
fetch_now-Answered allowed [] (some e) h = absurd (ground arith)
fetch_now-Answered allowed (raised x ∷ rest) e h = fetch_now-Answered allowed rest (some x) h
fetch_now-Answered allowed (answered ip country ∷ rest) e h =
    ground (arith, fetch_now-Answered allowed rest (some "bad response"))

-- Where the list of countries is not empty, a fire passes the check only with a country of the list
-- that was cached within the interval, that a provider answered just now, or that was the last good
-- one at most five minutes ago.
pub check_country_allowed_sound :
    (allowed : List String) (interval now : ℕ) (replies : List Reply) (c : Cache)
    → is_empty allowed ≡ false
    → (check_country_allowed allowed interval now replies c).0 ≡ none
    → ((is_allowed allowed c.country ≡ true) × (now < c.fetched_at + interval))
      ⊎ (((country : Option String) × (is_allowed allowed country ≡ true)
            × Answered replies country)
          ⊎ ((is_allowed allowed c.last_good_country ≡ true)
              × (now ≤ c.last_good_at + good_value_ttl_s)))
unfolding check_country_allowed get_current_ip_country
check_country_allowed_sound allowed interval now replies c some_country passed =
    elim (Bool-cases (ltb now (c.fetched_at + interval))) [
      | inl cached ↦ inl (ground arith)
      | inr stale ↦ elim (Bool-cases (reuses_good now (fetch_now replies none) c)) [
        | inl reused ↦ inr (inr (unfold reuses_good in ground arith))
        | inr failed ↦
            let found : is_allowed allowed (fetch_now replies none).country ≡ true = ground arith in
            inr (
              inl (
                (fetch_now replies none).country,
                found,
                fetch_now-Answered allowed replies none found,
              ))
      ]
    ]
