-- ===== src/Stream/Tests.antt =====
-- The theorems on the cached books and positions at concrete messages.
use polymarket_radar.Base.{
  ℕ, ◌≡◌, refl, String, true, false, some, none, List, [], ◌∷◌, string_key, str_apart, arith,
  pair_key,
}
use polymarket_radar.Base.Dict.{lookup, insert, contains}
use polymarket_radar.Base.Sort.{sort}
use polymarket_radar.Stream.Poly.{
  num, missing, Level, Change, Client, Event, book, price_change, best_bid_ask, parsed, calc_book,
  on_message, get_book,
}
use polymarket_radar.Stream.Poly.Depth.{IsTop, calc_book_lem}
use polymarket_radar.Stream.Poly.Phantom.{World, AreTruthful, AreLive, world_end, get_book-live}
use polymarket_radar.Stream.Subs.{new_subscriptions}
use polymarket_radar.Stream.Lim.{
  LimClient, PositionEntry, check_push, store_book, parse_orderbook, yes_side, no_side, norm,
  update_subscriptions,
}
use polymarket_radar.Stream.Lim.Watched.{
  IsWatched, Push, received, stored, subscribe, new_client, new_run, store_at, push, after_pushes,
  AreOrderly, after_pushes-IsWatched,
}

abbrev level : ℕ → ℕ → Level
level p s = record { price = num p; size = num s }

abbrev asks : List Level
asks = level 5200 100 ∷ level 5000 40 ∷ record { price = missing; size = num 1 } ∷ level 5000 2 ∷ []

calc_book_lem_example : IsTop (calc_book asks) (parsed asks)
calc_book_lem_example = calc_book_lem asks

abbrev upper : String → String
upper s = s

abbrev sells : ℕ → ℕ → Change
sells p s = record { price = num p; size = num s; side = "SELL" }

-- A snapshot, then a delta that adds an ask below the best one, then one that cancels it.
abbrev events : List (String × Event)
events =
    ("t1", book asks)
    ∷ ("t1", price_change (sells 4900 10 ∷ sells 5300 5 ∷ []))
    ∷ ("t2", best_bid_ask none)
    ∷ ("t1", price_change (sells 5100 0 ∷ []))
    ∷ []

abbrev no_books : Client
no_books = record { books = []; dirty = []; desired = "t1" ∷ [] }

abbrev no_asks : World
no_asks t p = false

no_books-AreLive : AreLive no_books no_asks
unfolding lookup
no_books-AreLive t a e = ground arith

events-AreTruthful : AreTruthful upper events no_asks
unfolding parsed
events-AreTruthful = (
  str_apart "t1" "" refl,
  (λ e. ground arith),
  (
    str_apart "t1" "" refl,
    (((λ p e f. ground arith), tt), (tt, tt)),
    (str_apart "t2" "" refl, tt, (str_apart "t1" "" refl, (tt, tt), tt)),
  ),
)

found :
    get_book "t1" (on_message upper 7 events no_books)
    ≡ some (record { best_ask = some 4900; depth = 210000; ts = 7 })
unfolding on_message get_book lookup sort insert
found = refl

get_book-live_example : world_end upper events no_asks "t1" 4900 ≡ true
get_book-live_example =
    get_book-live upper 7 events no_books no_asks "t1" _ 4900 events-AreTruthful no_books-AreLive
      found refl

abbrev cached : Client
cached = record no_books {
  books = ("t1", record { best_ask = some 4900; depth = 210000; ts = 7 }) ∷ [];
}

abbrev entry : String → ℕ → PositionEntry
entry o n = record { outcome = some (some o); outcome_index = none; size = num n; amount = missing }

abbrev holding : LimClient
holding = record new_client {
  positions =
      (("btc", "NO"), record { size = 5; last_update_ts = 1 })
      ∷ (("eth", "YES"), record { size = 7; last_update_ts = 1 })
      ∷ [];
}

abbrev pushes : List Push
pushes =
    subscribe 250 ("btc" ∷ "eth" ∷ [])
    ∷ received 1 (some "btc") none asks []
    ∷ stored 0
    ∷ subscribe 250 ("eth" ∷ [])
    ∷ received 2 (some "btc") none asks []
    ∷ []

pushes-AreOrderly : AreOrderly (λ s. s) pushes new_run
unfolding push check_push parse_orderbook yes_side no_side norm store_at store_book
    update_subscriptions new_subscriptions
pushes-AreOrderly = (tt, (tt, (tt, (tt, (tt, tt)))))

after_pushes-IsWatched_example : IsWatched (after_pushes (λ s. s) pushes new_run).client
after_pushes-IsWatched_example = after_pushes-IsWatched (λ s. s) pushes pushes-AreOrderly

-- A market that is dropped between the two locks of a push leaves its book.
abbrev raced : List Push
raced =
    subscribe 250 ("btc" ∷ "eth" ∷ [])
    ∷ received 1 (some "btc") none asks []
    ∷ subscribe 250 ("eth" ∷ [])
    ∷ stored 0
    ∷ []

raced_book :
    let c = (after_pushes (λ s. s) raced new_run).client in
    (contains "btc" c.books ≡ true) × (c.desired ≡ "eth" ∷ [])
unfolding after_pushes push check_push parse_orderbook yes_side no_side norm store_at store_book
    update_subscriptions new_subscriptions lookup insert
raced_book = (refl, refl)
