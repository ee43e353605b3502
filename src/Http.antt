-- ===== src/Http.antt =====
-- Scripts/http_codes.py and the order books of Limitless in Scripts/async_fetchers.py: how a status is
-- classed, how long to wait for the next attempt, and the loop of attempts behind the breaker of the host.
-- Times are in milliseconds, but in seconds where the breaker reads its clock.
pub mod Fetch
pub mod Attempts
mod Tests
use polymarket_radar.Base.{
  ℕ, zero, suc, ◌+◌, ◌-◌, ◌*◌, ◌/◌, ◌^◌, ◌≤◌, ◌<◌, min, max, ◌≡◌, refl, sym, ap, subst, ◌∙◌, ◌≢◌,
  ◌↔◌, ◌⊎◌, inl, inr, String, ◌<>◌, Bool, true, false, not, ◌&&◌, ◌||◌, Option, none, some, List,
  [], ◌∷◌, ◌++◌, map, All, Pairs, All-map, All-every, All-append, All-keep, All-kept, length, keep,
  any, count, take, drop, is_empty, ltb, leb, eqb, if◌then◌else◌, ◌==◌, string_key, nat_key,
  pair_key, arith, if-cases, match-cases, some_if, Bool-cases, Option-cases, ltb→lt, lt→ltb, leb→le,
  eqb_iff,
}

pub data Action : Type 0 where
  success : Action
  not_found : Action
  skip_client_err : Action
  retry_backoff : Action
  retry_transient : Action
  open_breaker : Action
  unknown : Action

-- `status_code in (…)`
abbrev pub is_among : ℕ → List ℕ → Bool
is_among n ns = any (λ m. eqb n m) ns

-- `classify`
unfoldable pub classify : ℕ → Action
classify n =
    if leb 200 n && ltb n 300
    then success
    else if eqb n 404
    then not_found
    else if is_among n (400 ∷ 401 ∷ 405 ∷ 410 ∷ 422 ∷ [])
    then skip_client_err
    else if is_among n (429 ∷ 503 ∷ [])
    then retry_backoff
    else if is_among n (502 ∷ 504 ∷ 521 ∷ 522 ∷ 524 ∷ [])
    then retry_transient
    else if is_among n (403 ∷ 520 ∷ 525 ∷ 526 ∷ [])
    then open_breaker
    else if leb 300 n && ltb n 400
    then success
    else unknown

-- The seconds of `retry_after`, in milliseconds, or those of the attempt.
abbrev pub asked_wait : ℕ → Option ℕ → ℕ
asked_wait attempt none = 1000 * 2 ^ attempt
asked_wait attempt (some w) = w

-- `compute_backoff`, where `jitter` is what `random.uniform` gave.
unfoldable pub compute_backoff : Action → ℕ → Option ℕ → ℕ → ℕ
compute_backoff retry_backoff attempt retry_after jitter =
    min (asked_wait attempt retry_after) 30000 + jitter
compute_backoff retry_transient attempt retry_after jitter = min (1000 * 2 ^ attempt) 10000 + jitter
compute_backoff unknown attempt retry_after jitter = 5000
compute_backoff success attempt retry_after jitter = 0
compute_backoff not_found attempt retry_after jitter = 0
compute_backoff skip_client_err attempt retry_after jitter = 0
compute_backoff open_breaker attempt retry_after jitter = 0
