-- ===== src/Http/Fetch.antt =====
-- Scripts/async_fetchers.py: fetch_limitless_orderbook_async. A price is in units of $0.0001, a size in
-- whole shares, a depth in units of $0.0001. The levels of a book are readable; of the reason that the
-- breaker keeps, the number of the status or the name of the exception is left out.
use polymarket_radar.Base.{
  ℕ, zero, suc, ◌-◌, ◌*◌, ◌/◌, String, Option, none, some, List, [], ◌∷◌, ◌++◌, ltb, eqb,
  if◌then◌else◌, string_key, nat_key, pair_key,
}
use polymarket_radar.Breaker.{Breaker, Change, allow, on_success, on_failure}
use polymarket_radar.Deals.Build.{usd}
use polymarket_radar.Deals.Markets.{is_quoted}
use polymarket_radar.Deals.Limitless.{LimQuote}
use polymarket_radar.Http.{
  Action, success, not_found, skip_client_err, retry_backoff, retry_transient, open_breaker,
  unknown, classify, compute_backoff,
}

pub record Offer : Type 0 where
  pub price : ℕ
  pub size : ℕ

-- An answer: `book` is the JSON with its asks and bids, where it can be read.
pub record Reply : Type 0 where
  pub status : ℕ
  pub retry_after : Option ℕ
  pub book : Option (List Offer × List Offer)

-- How the loop of attempts ends: with the last answer, on a status that opens the breaker, on an error of
-- the client, or with an exception.
pub data Tried : Type 0 where
  got : Option Reply → Tried
  refused : Tried
  skipped : Tried
  raised : Tried

pub record Attempts : Type 0 where
  pub tried : Tried
  pub requests : ℕ
  pub waits : List ℕ

-- One turn of the loop, over what the turns after it give.
abbrev pub turn : Action → Reply → ℕ → Attempts → Attempts
turn retry_backoff r wait rest = record rest {
  requests = suc rest.requests;
  waits = wait ∷ rest.waits;
}
turn retry_transient r wait rest = record rest {
  requests = suc rest.requests;
  waits = wait ∷ rest.waits;
}
turn open_breaker r wait rest = record { tried = refused; requests = 1; waits = [] }
turn skip_client_err r wait rest = record { tried = skipped; requests = 1; waits = [] }
turn success r wait rest = record { tried = got (some r); requests = 1; waits = [] }
turn not_found r wait rest = record { tried = got (some r); requests = 1; waits = [] }
turn unknown r wait rest = record { tried = got (some r); requests = 1; waits = [] }

-- `retry_after` is read where the status asks to back off.
abbrev pub wait_of : Reply → ℕ → ℕ → ℕ
wait_of r attempt jitter = compute_backoff (classify r.status) attempt r.retry_after jitter

-- `for attempt in range(3)`: `get` is what each request answers, `none` an exception.
unfoldable pub attempts : (ℕ → Option Reply) → (ℕ → ℕ) → ℕ → ℕ → Option Reply → Attempts
attempts get jitter zero attempt last = record { tried = got last; requests = 0; waits = [] }
attempts get jitter (suc left) attempt last = elim (get attempt) [
  | none ↦ record { tried = raised; requests = 1; waits = [] }
  | some r ↦
      turn (classify r.status) r (wait_of r attempt (jitter attempt))
        (attempts get jitter left (suc attempt) (some r))
]

-- `sorted(asks, key=price)[0]`, and `sorted(bids, key=price, reverse=True)[0]`.
abbrev pub lowest_from : Offer → List Offer → Offer
lowest_from m [] = m
lowest_from m (x ∷ xs) = lowest_from (if ltb x.price m.price then x else m) xs

abbrev pub highest_bid_from : Offer → List Offer → Offer
highest_bid_from m [] = m
highest_bid_from m (x ∷ xs) = highest_bid_from (if ltb m.price x.price then x else m) xs

-- A size in raw USDC is brought to shares.
abbrev pub shares : ℕ → ℕ
shares size = if ltb 1000000 size then size / 1000000 else size

-- `best_yes_ask` and `depth_yes`, `best_no_ask` and `depth_no`; a missing ask is 0.
unfoldable pub yes_quote : List Offer → ℕ × ℕ
yes_quote [] = (0, 0)
yes_quote (x ∷ xs) = let top = lowest_from x xs in (top.price, top.price * shares top.size)

unfoldable pub no_quote : List Offer → ℕ × ℕ
no_quote [] = (0, 0)
no_quote (x ∷ xs) =
    let top = highest_bid_from x xs in
    if is_quoted top.price then (usd - top.price, top.price * shares top.size) else (0, 0)

abbrev pub empty_quote : LimQuote
empty_quote = record { yes_ask = 0; yes_depth = 0; no_ask = 0; no_depth = 0 }

unfoldable pub quote_of_book : List Offer × List Offer → LimQuote
quote_of_book (asks, bids) =
    let (yes_ask, yes_depth) = yes_quote asks in
    let (no_ask, no_depth) = no_quote bids in
    record { yes_ask = yes_ask; yes_depth = yes_depth; no_ask = no_ask; no_depth = no_depth }

-- What is returned, and what the breaker of the host becomes.
pub record Fetched : Type 0 where
  pub quote : LimQuote
  pub breaker : Breaker
  pub requests : ℕ
  pub waits : List ℕ
  pub calls : List Change

-- What the breaker is told at the time `now`, with the quote that is returned.
abbrev pub told_failure : ℕ → String → Breaker → LimQuote × Breaker × List Change
told_failure now reason b =
    let (b', calls) = on_failure now (some reason) b in (empty_quote, b', calls)

abbrev pub told_book :
    ℕ → Option (List Offer × List Offer) → Breaker → LimQuote × Breaker × List Change
told_book now none b = told_failure now "exception" b
told_book now (some book) b = let (b', calls) = on_success b in (quote_of_book book, b', calls)

unfoldable pub report : ℕ → Tried → Breaker → LimQuote × Breaker × List Change
report now (got none) b = (empty_quote, b, [])
report now (got (some r)) b =
    if eqb r.status 200 then told_book now r.book b else told_failure now "HTTP" b
report now refused b = told_failure now "HTTP" b
report now skipped b = (empty_quote, b, [])
report now raised b = told_failure now "exception" b

-- `fetch_limitless_orderbook_async`, asked at the time `start` and told of the end at `now`.
unfoldable pub fetch_limitless_orderbook : (ℕ → Option Reply) → (ℕ → ℕ) → ℕ → ℕ → Breaker → Fetched
fetch_limitless_orderbook get jitter start now b =
    let (b1, allowed, asked) = allow start b in
    let all = attempts get jitter 3 0 none in
    let (quote, b2, told) = report now all.tried b1 in
    if allowed
    then record {
      quote = quote;
      breaker = b2;
      requests = all.requests;
      waits = all.waits;
      calls = asked ++ told;
    }
    else record { quote = empty_quote; breaker = b1; requests = 0; waits = []; calls = asked }
