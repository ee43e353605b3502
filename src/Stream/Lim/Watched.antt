-- ===== src/Stream/Lim/Watched.antt =====
-- When the cache holds no book of a market that is not watched.
use polymarket_radar.Base.{
  ℕ, zero, suc, ◌≡◌, refl, sym, some, All, subst, String, Bool, true, false, not, ◌||◌, Option,
  none, List, [], ◌∷◌, ◌==◌, string_key, arith, inl, inr, Bool-cases, if-both, if-cases,
  match-cases,
}
use polymarket_radar.Base.Dict.{lookup, lookup-insert, lookup-keep_keys, lookup-nil}
use polymarket_radar.Stream.Subs.{in_set, new_subscriptions}
use polymarket_radar.Stream.Poly.{Level}
use polymarket_radar.Stream.Lim.{
  LimBook, LimClient, PositionEntry, or_text, parse_orderbook, check_push, store_book,
  update_subscriptions, handle_positions,
}

-- Each book is of a market in `desired`.
abbrev pub IsWatched : LimClient → Type 0
IsWatched c = (t : String) → in_set t c.desired ≡ false → lookup t c.books ≡ none

-- A push whose market is watched.
abbrev pub IsOfWatched : List String → String × LimBook → Type 0
IsOfWatched desired x = in_set x.0 desired ≡ true

store_book-IsWatched :
    (x : String × LimBook) (c : LimClient)
    → IsOfWatched c.desired x
    → IsWatched c
    → IsWatched (store_book x c)
unfolding store_book
store_book-IsWatched (s, b) c d w t n = elim (Bool-cases (s == t)) [
  | inl h ↦
      let same : s ≡ t = (string_key.same_iff s t).0 h in
      let watched : in_set t c.desired ≡ true = subst (λ u. in_set u c.desired ≡ true) same d in
      absurd (ground (arith, watched, n))
  | inr h ↦ ground (arith, h, w t n, lookup-insert s t b c.books)
]

update_subscriptions-IsWatched :
    (order : List String → List String) (max_subs : ℕ) (slugs : List String) (c : LimClient)
    → IsWatched c
    → IsWatched (update_subscriptions order max_subs slugs c).0
unfolding update_subscriptions
update_subscriptions-IsWatched order max_subs slugs c w =
    match-cases (λ (r : LimClient × Bool). IsWatched r.0)
      (new_subscriptions order max_subs slugs c.desired) _ _ (λ e. w)
      (λ new e t n.
        ground (
          arith,
          n,
          w t,
          lookup-keep_keys (λ k. not (in_set k c.desired) || in_set k new) t c.books,
        ))

handle_positions-IsWatched :
    (now : ℕ) (market_slug address : Option String) (entries : List PositionEntry) (c : LimClient)
    → IsWatched c
    → IsWatched (handle_positions now market_slug address entries c)
unfolding handle_positions
handle_positions-IsWatched now market_slug address entries c w =
    match-cases IsWatched (or_text market_slug address) _ _ (λ e. w)
      (λ s e. if-both IsWatched (s == "") _ _ w w)

-- What the server or a caller does to the client: `received` is a push up to the second lock, and
-- `stored` the rest of one of the pushes that are between their locks.
pub data Push : Type 0 where
  received : ℕ → Option String → Option String → List Level → List Level → Push
  stored : ℕ → Push
  positions_push : ℕ → Option String → Option String → List PositionEntry → Push
  subscribe : ℕ → List String → Push

abbrev pub new_client : LimClient
new_client = record {
  books = [];
  dirty = [];
  desired = [];
  positions = [];
  positions_last_update = none;
}

-- The client with the pushes that are between their two locks.
pub record Run : Type 0 where
  pub client : LimClient
  pub pending : List (String × LimBook)

abbrev pub new_run : Run
new_run = record { client = new_client; pending = [] }

abbrev pub add_pending :
    Option (String × LimBook) → List (String × LimBook) → List (String × LimBook)
add_pending none xs = xs
add_pending (some x) xs = x ∷ xs

-- The push at this place goes on; the others wait.
unfoldable pub store_at : ℕ → List (String × LimBook) → LimClient → Run
unfolding store_book
store_at i [] c = record { client = c; pending = [] }
store_at zero (x ∷ xs) c = record { client = store_book x c; pending = xs }
store_at (suc i) (x ∷ xs) c =
    let r = store_at i xs c in record { client = r.client; pending = x ∷ r.pending }

module _ (order : List String → List String) where
  unfoldable pub push : Push → Run → Run
  unfolding check_push store_at update_subscriptions handle_positions
  push (received now market_slug slug asks bids) r = record r {
    pending = add_pending (check_push now market_slug slug asks bids r.client) r.pending;
  }
  push (stored i) r = store_at i r.pending r.client
  push (positions_push now market_slug address entries) r = record r {
    client = handle_positions now market_slug address entries r.client;
  }
  push (subscribe max_subs slugs) r = record r {
    client = (update_subscriptions order max_subs slugs r.client).0;
  }

  unfoldable pub after_pushes : List Push → Run → Run
  after_pushes [] r = r
  after_pushes (p ∷ ps) r = after_pushes ps (push p r)

  -- A change of the subscriptions drops no market of a push that is between its locks.
  abbrev pub IsOrderly : Push → Run → Type 0
  IsOrderly (received now market_slug slug asks bids) r = Unit
  IsOrderly (stored i) r = Unit
  IsOrderly (positions_push now market_slug address entries) r = Unit
  IsOrderly (subscribe max_subs slugs) r =
      All (IsOfWatched (push (subscribe max_subs slugs) r).client.desired) r.pending

  abbrev pub AreOrderly : List Push → Run → Type 0
  AreOrderly [] r = Unit
  AreOrderly (p ∷ ps) r = IsOrderly p r × AreOrderly ps (push p r)

  abbrev IsGood : Run → Type 0
  IsGood r = IsWatched r.client × All (IsOfWatched r.client.desired) r.pending

  check_push-IsOfWatched :
      (now : ℕ) (market_slug slug : Option String) (asks bids : List Level) (c : LimClient)
      (xs : List (String × LimBook))
      → All (IsOfWatched c.desired) xs
      → All (IsOfWatched c.desired) (add_pending (check_push now market_slug slug asks bids c) xs)
  unfolding check_push
  check_push-IsOfWatched now market_slug slug asks bids c xs a =
      let P : Option (String × LimBook) → Type 0 =
        λ o. All (IsOfWatched c.desired) (add_pending o xs) in
      match-cases P (or_text market_slug slug) _ _ (λ e. a)
        (λ s e. if-both P (s == "") _ _ a (
          if-cases P (in_set s c.desired) _ _
            (λ d. match-cases P (parse_orderbook now asks bids) _ _ (λ f. a) (λ b f. (d, a)))
            (λ d. a)))

  store_at-desired :
      (i : ℕ) (xs : List (String × LimBook)) (c : LimClient)
      → (store_at i xs c).client.desired ≡ c.desired
  unfolding store_at store_book
  store_at-desired i [] c = refl
  store_at-desired zero (x ∷ xs) c = refl
  store_at-desired (suc i) (x ∷ xs) c = store_at-desired i xs c

  store_at-IsWatched :
      (i : ℕ) (xs : List (String × LimBook)) (c : LimClient)
      → IsWatched c
      → All (IsOfWatched c.desired) xs
      → IsWatched (store_at i xs c).client × All (IsOfWatched c.desired) (store_at i xs c).pending
  unfolding store_at
  store_at-IsWatched i [] c w a = (w, tt)
  store_at-IsWatched zero (x ∷ xs) c w a = (store_book-IsWatched x c a.0 w, a.1)
  store_at-IsWatched (suc i) (x ∷ xs) c w a =
      let (watched, rest) = store_at-IsWatched i xs c w a.1 in (watched, (a.0, rest))

  handle_positions-desired :
      (now : ℕ) (market_slug address : Option String) (entries : List PositionEntry) (c : LimClient)
      → (handle_positions now market_slug address entries c).desired ≡ c.desired
  unfolding handle_positions
  handle_positions-desired now market_slug address entries c =
      let P : LimClient → Type 0 = λ x. x.desired ≡ c.desired in
      match-cases P (or_text market_slug address) _ _ (λ e. refl)
        (λ s e. if-both P (s == "") _ _ refl refl)

  push-IsGood : (p : Push) (r : Run) → IsOrderly p r → IsGood r → IsGood (push p r)
  unfolding push
  push-IsGood (received now market_slug slug asks bids) r o (w, a) =
      (w, check_push-IsOfWatched now market_slug slug asks bids r.client r.pending a)
  push-IsGood (stored i) r o (w, a) =
      let (watched, rest) = store_at-IsWatched i r.pending r.client w a in
      let same = sym (store_at-desired i r.pending r.client) in
      let left = (store_at i r.pending r.client).pending in
      (watched, subst (λ d. All (IsOfWatched d) left) same rest)
  push-IsGood (positions_push now market_slug address entries) r o (w, a) = (
    handle_positions-IsWatched now market_slug address entries r.client w,
    subst (λ d. All (IsOfWatched d) r.pending)
        (sym (handle_positions-desired now market_slug address entries r.client)) a,
  )
  push-IsGood (subscribe max_subs slugs) r o (w, a) =
      (update_subscriptions-IsWatched order max_subs slugs r.client w, o)

  pushes-IsGood :
      (ps : List Push) (r : Run) → AreOrderly ps r → IsGood r → IsGood (after_pushes ps r)
  unfolding after_pushes
  pushes-IsGood [] r o g = g
  pushes-IsGood (p ∷ ps) r o g = pushes-IsGood ps (push p r) o.1 (push-IsGood p r o.0 g)

  -- However the two parts of the pushes of books, pushes of positions and changes of the subscriptions
  -- follow one another on a new client, it holds no book of a market that it does not watch, not even
  -- when a push about a dropped market comes after the change. The condition is that no change drops a
  -- market while a push about it has passed the check and has not yet stored its book.
  pub after_pushes-IsWatched :
      (ps : List Push) → AreOrderly ps new_run → IsWatched (after_pushes ps new_run).client
  after_pushes-IsWatched ps o = (pushes-IsGood ps new_run o ((λ t n. lookup-nil t), tt)).0
