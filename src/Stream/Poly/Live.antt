-- ===== src/Stream/Poly/Live.antt =====
-- The cached best ask against the exchange's own book.
use polymarket_radar.Base.{
  ℕ, ◌≡◌, ◌≢◌, refl, ap, ◌∙◌, subst, String, true, false, none, some, List, [], ◌∷◌, Pairs, keep,
  ◌==◌, string_key, arith, if-cases, match-cases,
}
use polymarket_radar.Base.Dict.{lookup, lookup-insert}
use polymarket_radar.Stream.Poly.{
  missing, unreadable, num, Change, Book, calc_book, Client, Event, book, price_change,
  best_bid_ask, ignored, Outcome, raised, done, lowest_live, cached_ask, cancels_best, is_no_worse,
  is_ask, handle_delta, handle_kind, handle_event, store,
}
use polymarket_radar.Stream.Poly.Depth.{calc_book_lem}
use polymarket_radar.Stream.Poly.Ladder.{
  Ladder, after_changes, after_changes_kept, AtOthers, lowest_live-after_changes, after_event,
  IsTruthful, IsLive, settled,
}

pub outcome-cases {κ} :
    {A B : Type 0} (P : B → Type κ) (o : Outcome A) (x : B) (f : A → B)
    → (o ≡ raised → P x)
    → ((a : A) → o ≡ done a → P (f a))
    → P (elim o [ raised ↦ x | done a ↦ f a ])
outcome-cases P raised x f p q = p refl
outcome-cases P (done a) x f p q = q a refl

store-IsLive :
    (token : String) (b : Book) (c : Client) (live : Ladder)
    → ((a : ℕ) → b.best_ask ≡ some a → live a ≡ true)
    → IsLive token (store token b c) live
store-IsLive token b c live h a e =
    h a (ground (arith, e, lookup-insert token token b c.books, string_key.same_iff token token))

handle_delta-IsLive :
    (now : ℕ) (token : String) (xs : List Change) (c : Client) (live : Ladder)
    → Pairs AtOthers xs
    → IsLive token c live
    → IsLive token (settled c (handle_delta now token xs c)) (after_changes xs live)
unfolding handle_delta
handle_delta-IsLive now token [] c live d h = unfold after_changes in h
handle_delta-IsLive now token (x ∷ xs) c live d h =
    let kept : cancels_best (cached_ask (lookup token c.books)) (x ∷ xs) ≡ false
        → IsLive token c (after_changes (x ∷ xs) live) =
      λ n a e. after_changes_kept a (x ∷ xs) live (ground (arith, n, e)) (h a e) in
    let P : Outcome Client → Type 0 =
      λ o. IsLive token (settled c o) (after_changes (x ∷ xs) live) in
    if-cases P (cancels_best (cached_ask (lookup token c.books)) (x ∷ xs)) _ _
      (λ t. store-IsLive token _ c _ (λ a e. absurd (ground (arith, e))))
      (λ n.
        outcome-cases P (lowest_live (x ∷ xs)) _ _ (λ e. kept n)
          (λ lowest e.
            match-cases P lowest _ _ (λ f. kept n)
              (λ p f.
                if-cases P (is_no_worse p (cached_ask (lookup token c.books))) _ _
                  (λ t.
                    store-IsLive token _ c _
                      (λ a g. lowest_live-after_changes a (x ∷ xs) live d (e ∙ ap done (f ∙ g))))
                  (λ t. kept n))))

handle_kind-IsLive :
    (upper : String → String) (now : ℕ) (token : String) (ev : Event) (c : Client) (live : Ladder)
    → IsTruthful upper ev live
    → IsLive token c live
    → IsLive token (settled c (handle_kind upper now token ev c)) (after_event upper ev live)
unfolding handle_kind
handle_kind-IsLive upper now token (book asks) c live t h =
    let top = calc_book_lem asks in
    let P : Outcome Client → Type 0 =
      λ o. IsLive token (settled c o) (after_event upper (book asks) live) in
    match-cases P (calc_book asks).0 _ _ (λ e. absurd (ground (arith, t, e, top)))
      (λ p e. store-IsLive token _ c _ (λ a f. ground (arith, e, f, top)))
handle_kind-IsLive upper now token (price_change cs) c live t h =
    handle_delta-IsLive now token (keep (is_ask upper) cs) c live t h
handle_kind-IsLive upper now token (best_bid_ask none) c live t h = h
handle_kind-IsLive upper now token (best_bid_ask (some missing)) c live t h = h
handle_kind-IsLive upper now token (best_bid_ask (some unreadable)) c live t h = h
handle_kind-IsLive upper now token (best_bid_ask (some (num p))) c live t h =
    store-IsLive token _ c live
      (λ a e. let same : p ≡ a = ground (arith, e) in subst (λ x. live x ≡ true) same t)
handle_kind-IsLive upper now token ignored c live t h = h

pub handle_event-IsLive :
    (upper : String → String) (now : ℕ) (token : String) (ev : Event) (c : Client) (live : Ladder)
    → token ≢ ""
    → IsTruthful upper ev live
    → IsLive token c live
    → IsLive token (settled c (handle_event upper now token ev c)) (after_event upper ev live)
unfolding handle_event
handle_event-IsLive upper now token ev c live n t h =
    if-cases (λ o. IsLive token (settled c o) (after_event upper ev live)) (token == "") _ _
      (λ e. absurd (n ((string_key.same_iff token "").0 e)))
      (λ e. handle_kind-IsLive upper now token ev c live t h)

pub store-other :
    (token t : String) (b : Book) (c : Client)
    → token ≢ t
    → lookup t (store token b c).books ≡ lookup t c.books
store-other token t b c n =
    ground (arith, n, lookup-insert token t b c.books, string_key.same_iff token t)
