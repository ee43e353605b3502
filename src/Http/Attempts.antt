-- ===== src/Http/Attempts.antt =====
-- Scripts/async_fetchers.py: the loop of attempts ends, and what the breaker learns from it.
use polymarket_radar.Base.{
  ℕ, zero, suc, ◌+◌, ◌*◌, ◌≤◌, ◌≡◌, refl, ◌≢◌, false, Option, none, some, List, [], ◌∷◌, ◌++◌, eqb,
  string_key, nat_key, pair_key, arith, if-cases, match-cases,
}
use polymarket_radar.Breaker.{Breaker, allow, on_success}
use polymarket_radar.Deals.Limitless.{LimQuote}
use polymarket_radar.Http.{
  Action, success, not_found, skip_client_err, retry_backoff, retry_transient, open_breaker,
  unknown, classify, compute_backoff,
}
use polymarket_radar.Http.Fetch.{
  Offer, Reply, Tried, got, refused, skipped, raised, Attempts, turn, wait_of, attempts,
  empty_quote, Fetched, told_book, told_failure, report, fetch_limitless_orderbook,
}

abbrev pub total : List ℕ → ℕ
total [] = 0
total (x ∷ xs) = x + total xs

compute_backoff_bound :
    (a : Action) (attempt : ℕ) (after : Option ℕ) (jitter : ℕ)
    → jitter ≤ 500
    → compute_backoff a attempt after jitter ≤ 30500
unfolding compute_backoff
compute_backoff_bound retry_backoff attempt after jitter h = omega (arith, h)
compute_backoff_bound retry_transient attempt after jitter h = omega (arith, h)
compute_backoff_bound unknown attempt after jitter h = omega arith
compute_backoff_bound success attempt after jitter h = omega arith
compute_backoff_bound not_found attempt after jitter h = omega arith
compute_backoff_bound skip_client_err attempt after jitter h = omega arith
compute_backoff_bound open_breaker attempt after jitter h = omega arith

abbrev Ends : ℕ → Attempts → Type 0
Ends left a = (a.requests ≤ left) × (total a.waits ≤ left * 30500)

turn-Ends :
    (a : Action) (r : Reply) (wait left : ℕ) (rest : Attempts)
    → wait ≤ 30500
    → Ends left rest
    → Ends (suc left) (turn a r wait rest)
turn-Ends retry_backoff r wait left rest w h = ground (arith, w, h)
turn-Ends retry_transient r wait left rest w h = ground (arith, w, h)
turn-Ends open_breaker r wait left rest w h = ground arith
turn-Ends skip_client_err r wait left rest w h = ground arith
turn-Ends success r wait left rest w h = ground arith
turn-Ends not_found r wait left rest w h = ground arith
turn-Ends unknown r wait left rest w h = ground arith

attempts-Ends :
    (get : ℕ → Option Reply) (jitter : ℕ → ℕ)
    → ((i : ℕ) → jitter i ≤ 500)
    → (left attempt : ℕ) (last : Option Reply) → Ends left (attempts get jitter left attempt last)
unfolding attempts
attempts-Ends get jitter h zero attempt last = ground arith
attempts-Ends get jitter h (suc left) attempt last =
    match-cases (Ends (suc left)) (get attempt)
      (record { tried = raised; requests = 1; waits = [] })
      (λ r.
        turn (classify r.status) r (wait_of r attempt (jitter attempt))
          (attempts get jitter left (suc attempt) (some r)))
      (λ e. ground arith)
      (λ r e.
        turn-Ends (classify r.status) r (wait_of r attempt (jitter attempt)) left
          (attempts get jitter left (suc attempt) (some r))
          (compute_backoff_bound (classify r.status) attempt r.retry_after (jitter attempt)
            (h attempt))
          (attempts-Ends get jitter h left (suc attempt) (some r)))

-- A quote comes with a success that the breaker is told of.
-- What holds of a report: the quote is empty or the breaker was told of a success.
abbrev IsTold : Breaker → LimQuote → Breaker → Type 0
IsTold b quote b' = quote ≢ empty_quote → b' ≡ (on_success b).0

told_book_success :
    (now : ℕ) (book : Option (List Offer × List Offer)) (b : Breaker)
    → (told_book now book b).0 ≢ empty_quote
    → (told_book now book b).1 ≡ (on_success b).0
told_book_success now none b h = elim (h refl) [ ]
told_book_success now (some book) b h = refl

report_success :
    (now : ℕ) (t : Tried) (b : Breaker)
    → (report now t b).0 ≢ empty_quote
    → (report now t b).1 ≡ (on_success b).0
unfolding report
report_success now (got none) b h = elim (h refl) [ ]
report_success now (got (some r)) b h =
    if-cases (λ x. IsTold b x.0 x.1) (eqb r.status 200) (told_book now r.book b)
      (told_failure now "HTTP" b) (λ e. told_book_success now r.book b) (λ e k. elim (k refl) [ ]) h
report_success now refused b h = elim (h refl) [ ]
report_success now skipped b h = elim (h refl) [ ]
report_success now raised b h = elim (h refl) [ ]

-- A fetch sends at most three requests and waits at most 91.5 seconds in all between them, when the
-- jitter is at most half a second, whatever the host answers. It sends none where the breaker does not
-- allow it. It gives a quote that is not empty only where the breaker is told of a success.
pub fetch_limitless_orderbook_ends :
    (get : ℕ → Option Reply) (jitter : ℕ → ℕ) (start now : ℕ) (b : Breaker)
    → ((i : ℕ) → jitter i ≤ 500)
    → let f = fetch_limitless_orderbook get jitter start now b in
      (f.requests ≤ 3)
      × (total f.waits ≤ 91500)
      × ((allow start b).1 ≡ false → f.requests ≡ 0)
      × (f.quote ≢ empty_quote → f.breaker ≡ (on_success (allow start b).0).0)
unfolding fetch_limitless_orderbook
fetch_limitless_orderbook_ends get jitter start now b h =
    let b1 = (allow start b).0 in
    let asked = (allow start b).2 in
    let all = attempts get jitter 3 0 none in
    let told = report now all.tried b1 in
    let (few, short) = attempts-Ends get jitter h 3 0 none in
    if-cases
      (λ (f : Fetched).
        (f.requests ≤ 3)
        × (total f.waits ≤ 91500)
        × ((allow start b).1 ≡ false → f.requests ≡ 0)
        × IsTold b1 f.quote f.breaker)
      (allow start b).1
      (record {
        quote = told.0;
        breaker = told.1;
        requests = all.requests;
        waits = all.waits;
        calls = asked ++ told.2;
      })
      (record { quote = empty_quote; breaker = b1; requests = 0; waits = []; calls = asked })
      (λ e. (few, short, λ k. ground (arith, e, k), report_success now all.tried b1))
      (λ e. (omega arith, omega arith, λ k. refl, λ k. elim (k refl) [ ]))
