-- ===== src/Http/Tests.antt =====
-- Tests and examples of Http.
use polymarket_radar.Base.{
  ℕ, zero, suc, ◌≤◌, ◌≡◌, refl, ◌≢◌, true, false, Option, none, some, [], ◌∷◌, map, string_key,
  nat_key, pair_key, arith,
}
use polymarket_radar.Breaker.{Breaker, closed, allow, on_success}
use polymarket_radar.Http.{success, not_found, retry_backoff, unknown, classify, compute_backoff}
use polymarket_radar.Http.Fetch.{
  Reply, attempts, yes_quote, no_quote, quote_of_book, empty_quote, report, told_failure,
  fetch_limitless_orderbook,
}
use polymarket_radar.Http.Attempts.{total, fetch_limitless_orderbook_ends}

abbrev breaker : Breaker
breaker = record {
  failure_threshold = 3;
  cool_down = 300;
  success_threshold = 2;
  has_callback = true;
  state = closed;
  consecutive_failures = 0;
  consecutive_successes = 0;
  opened_at = none;
  last_failure_reason = none;
  total_failures = 0;
  total_successes = 0;
  pending_callbacks = [];
}

classed :
    map classify (200 ∷ 302 ∷ 404 ∷ 429 ∷ 500 ∷ [])
    ≡ success ∷ success ∷ not_found ∷ retry_backoff ∷ unknown ∷ []
unfolding classify
classed = refl

-- The host is busy twice, then gives a book.
abbrev answers : ℕ → Option Reply
answers zero = some (record { status = 429; retry_after = some 4000; book = none })
answers (suc zero) = some (record { status = 502; retry_after = none; book = none })
answers (suc (suc i)) = some (record {
  status = 200;
  retry_after = none;
  book = some (
    record { price = 5200; size = 7 } ∷ record { price = 5000; size = 3000000 } ∷ [],
    record { price = 4600; size = 10 } ∷ [],
  );
})

waited : (attempts answers (λ i. 100) 3 0 none).waits ≡ 4100 ∷ 2100 ∷ []
unfolding attempts classify compute_backoff
waited = refl

book_read :
    quote_of_book (
      record { price = 5200; size = 7 } ∷ record { price = 5000; size = 3000000 } ∷ [],
      record { price = 4600; size = 10 } ∷ [],
    )
    ≡ record { yes_ask = 5000; yes_depth = 15000; no_ask = 5400; no_depth = 46000 }
unfolding quote_of_book yes_quote no_quote
book_read = refl

-- An answer that the market does not exist counts as a failure of the host.
abbrev absent_market : Reply
absent_market = record { status = 404; retry_after = none; book = none }

absent :
    report 11 (attempts (λ i. some absent_market) (λ i. 0) 3 0 none).tried breaker
    ≡ told_failure 11 "HTTP" breaker
unfolding report attempts classify
absent = refl

fetch_limitless_orderbook_ends_example :
    ((fetch_limitless_orderbook answers (λ i. 100) 10 20 breaker).requests ≤ 3)
    × (total (fetch_limitless_orderbook answers (λ i. 100) 10 20 breaker).waits ≤ 91500)
    × ((allow 10 breaker).1 ≡ false
        → (fetch_limitless_orderbook answers (λ i. 100) 10 20 breaker).requests ≡ 0)
    × ((fetch_limitless_orderbook answers (λ i. 100) 10 20 breaker).quote ≢ empty_quote
        → (fetch_limitless_orderbook answers (λ i. 100) 10 20 breaker).breaker
          ≡ (on_success (allow 10 breaker).0).0)
fetch_limitless_orderbook_ends_example =
    fetch_limitless_orderbook_ends answers (λ i. 100) 10 20 breaker (λ i. omega arith)
