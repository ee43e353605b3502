-- ===== src/Stream/Poly/Phantom.antt =====
-- Messages about many tokens: no cached price is one that the events have taken back.
use polymarket_radar.Base.{
  ℕ, ◌≡◌, ◌≢◌, refl, sym, ap, ◌∙◌, subst, String, true, false, none, some, List, [], ◌∷◌, keep,
  if◌then◌else◌, ◌==◌, string_key, arith, inl, inr, Bool-cases, if-cases, match-cases,
}
use polymarket_radar.Base.Dict.{lookup}
use polymarket_radar.Stream.Poly.{
  Change, Book, Level, parsed, calc_book, Client, Event, book, price_change, best_bid_ask, ignored,
  required, Outcome, raised, done, lowest_live, cached_ask, cancels_best, is_no_worse, is_ask,
  handle_delta, handle_kind, handle_event, on_message, store, get_book,
}
use polymarket_radar.Stream.Poly.Depth.{calc_book_lem}
use polymarket_radar.Stream.Poly.Ladder.{Ladder, after_event, IsTruthful, IsLive, settled}
use polymarket_radar.Stream.Poly.Live.{outcome-cases, handle_event-IsLive, store-other}

-- An event raises, changes nothing or stores one book of its token.
handle_delta-cases {κ} :
    (P : Outcome Client → Type κ) (now : ℕ) (token : String) (xs : List Change) (c : Client)
    → P raised
    → P (done c)
    → ((b : Book) → P (done (store token b c)))
    → P (handle_delta now token xs c)
unfolding handle_delta
handle_delta-cases P now token [] c r k s = k
handle_delta-cases P now token (x ∷ xs) c r k s =
    if-cases P (cancels_best (cached_ask (lookup token c.books)) (x ∷ xs)) _ _ (λ e. s _)
      (λ e.
        outcome-cases P (lowest_live (x ∷ xs)) _ _ (λ e. r)
          (λ lowest e.
            match-cases P lowest _ _ (λ e. k)
              (λ p e.
                if-cases P (is_no_worse p (cached_ask (lookup token c.books))) _ _ (λ e. s _)
                  (λ e. k))))

handle_event-cases {κ} :
    (P : Outcome Client → Type κ) (upper : String → String) (now : ℕ) (token : String) (ev : Event)
    (c : Client)
    → P raised
    → P (done c)
    → ((b : Book) → P (done (store token b c)))
    → P (handle_event upper now token ev c)
unfolding handle_event handle_kind
handle_event-cases P upper now token (book asks) c r k s =
    if-cases P (token == "") _ _ (λ e. k)
      (λ e. match-cases P (calc_book asks).0 _ _ (λ e. k) (λ p e. s _))
handle_event-cases P upper now token (price_change cs) c r k s =
    if-cases P (token == "") _ _ (λ e. k)
      (λ e. handle_delta-cases P now token (keep (is_ask upper) cs) c r k s)
handle_event-cases P upper now token (best_bid_ask none) c r k s =
    if-cases P (token == "") _ _ (λ e. k) (λ e. k)
handle_event-cases P upper now token (best_bid_ask (some field)) c r k s =
    if-cases P (token == "") _ _ (λ e. k)
      (λ e. match-cases P (required field) _ _ (λ e. r) (λ p e. s _))
handle_event-cases P upper now token ignored c r k s =
    if-cases P (token == "") _ _ (λ e. k) (λ e. k)

-- What the events delivered so far say of the asks of all tokens.
abbrev pub World : Type 0
World = String → Ladder

abbrev pub AreLive : Client → World → Type 0
AreLive c w = (t : String) → IsLive t c (w t)

module _ (upper : String → String) where
  abbrev pub world_after : String → Event → World → World
  world_after token ev w t = if token == t then after_event upper ev (w t) else w t

  unfoldable pub world_end : List (String × Event) → World → World
  world_end [] w = w
  world_end ((token, ev) ∷ evs) w = world_end evs (world_after token ev w)

  abbrev pub AreTruthful : List (String × Event) → World → Type 0
  AreTruthful [] w = Unit
  AreTruthful ((token, ev) ∷ evs) w =
      (token ≢ "") × IsTruthful upper ev (w token) × AreTruthful evs (world_after token ev w)

  handle_event-AreLive :
      (now : ℕ) (token : String) (ev : Event) (c : Client) (w : World)
      → token ≢ ""
      → IsTruthful upper ev (w token)
      → AreLive c w
      → AreLive (settled c (handle_event upper now token ev c)) (world_after token ev w)
  handle_event-AreLive now token ev c w n t h u = elim (Bool-cases (token == u)) [
    | inl e ↦
        let same : token ≡ u = (string_key.same_iff token u).0 e in
        let now_live = handle_event-IsLive upper now token ev c (w token) n t (h token) in
        subst
          (λ v. IsLive v (settled c (handle_event upper now token ev c)) (world_after token ev w v))
          same (λ a f. rw ((string_key.same_iff token token).1 refl) (now_live a f))
    | inr e ↦
        let apart : token ≢ u = λ p. ground (arith, e, (string_key.same_iff token u).1 p) in
        let kept =
          handle_event-cases (λ o. lookup u (settled c o).books ≡ lookup u c.books) upper now token
            ev c refl refl (λ b. store-other token u b c apart) in
        λ a f. rw e (h u a (ap cached_ask (sym kept) ∙ f))
  ]

  on_message-AreLive :
      (now : ℕ) (evs : List (String × Event)) (c : Client) (w : World)
      → AreTruthful evs w
      → AreLive c w
      → AreLive (on_message upper now evs c) (world_end evs w)
  unfolding on_message world_end
  on_message-AreLive now [] c w t h = h
  on_message-AreLive now ((token, ev) ∷ evs) c w t h =
      let next = handle_event-AreLive now token ev c w t.0 t.1 h in
      let after = world_after token ev w in
      outcome-cases (λ c'. AreLive c' (world_end evs after)) (handle_event upper now token ev c) _ _
        (λ e.
          on_message-AreLive now evs c after t.2 (subst (λ o. AreLive (settled c o) after) e next))
        (λ c' e.
          on_message-AreLive now evs c' after t.2 (subst (λ o. AreLive (settled c o) after) e next))

  -- Whatever messages come, each a batch of events on any tokens, some of which may raise: a best ask
  -- that `get_book` gives is a price at which the snapshots and deltas delivered so far leave an ask.
  -- What the exchange changes without an event, as when a market is resolved, is not in this. It is
  -- provided that each event has a token, that every snapshot has an ask that can be read, that a delta
  -- names no price twice, and that a best ask that the exchange states is one of those left.
  pub get_book-live :
      (now : ℕ) (evs : List (String × Event)) (c : Client) (w : World) (token : String) (b : Book)
      (a : ℕ)
      → AreTruthful evs w
      → AreLive c w
      → get_book token (on_message upper now evs c) ≡ some b
      → b.best_ask ≡ some a
      → world_end evs w token a ≡ true
  unfolding get_book
  get_book-live now evs c w token b a t h e f =
      on_message-AreLive now evs c w t h token a (ap cached_ask e ∙ f)

-- A snapshot whose asks are all gone changes nothing, so the client goes on giving the best ask that
-- it had, at a price where the snapshot leaves no ask.
pub empty_snapshot_keeps :
    (upper : String → String) (now : ℕ) (token : String) (asks : List Level) (c : Client) (a : ℕ)
    (w : World)
    → parsed asks ≡ []
    → (handle_event upper now token (book asks) c ≡ done c)
      × (world_after upper token (book asks) w token a ≡ false)
unfolding handle_event handle_kind
empty_snapshot_keeps upper now token asks c a w e =
    (ground (arith, e, calc_book_lem asks), ground (arith, e, string_key.same_iff token token))
