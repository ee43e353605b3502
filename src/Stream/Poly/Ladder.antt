-- ===== src/Stream/Poly/Ladder.antt =====
-- The exchange's own book of asks, and what an event says of it.
use polymarket_radar.Base.{
  ℕ, ◌≡◌, ◌≢◌, refl, ap, ◌∙◌, String, Bool, true, false, not, none, some, List, [], ◌∷◌, All,
  All-map, Pairs, keep, any, eqb, eqb_iff, leb, if◌then◌else◌, string_key, arith, ◌⊎◌, inl, inr,
  Bool-cases, Option-cases,
}
use polymarket_radar.Base.Dict.{lookup}
use polymarket_radar.Stream.Poly.{
  num, or_zero, required, Change, parsed, Client, Event, book, price_change, best_bid_ask,
  is_cancelled, Outcome, raised, done, lowest_live, cached_ask, is_ask,
}

-- The prices at which the events delivered so far leave asks for a token.
abbrev pub Ladder : Type 0
Ladder = ℕ → Bool

abbrev pub after_change : Change → Ladder → Ladder
after_change c live p = elim (required c.price) [
  | none ↦ live p
  | some q ↦ elim (or_zero c.size) [
    | none ↦ live p
    | some s ↦ if eqb q p then not (leb s 0) else live p
  ]
]

unfoldable pub after_changes : List Change → Ladder → Ladder
after_changes [] live = live
after_changes (c ∷ cs) live = after_changes cs (after_change c live)

pub after_changes_kept :
    (a : ℕ) (cs : List Change) (live : Ladder)
    → is_cancelled a cs ≡ false
    → live a ≡ true
    → after_changes cs live a ≡ true
unfolding after_changes is_cancelled
after_changes_kept a [] live n h = h
after_changes_kept a (c ∷ cs) live n h =
    let now : after_change c live a ≡ true = ground (arith, n, h, eqb_iff 0 0) in
    after_changes_kept a cs (after_change c live) (ground (arith, n)) now

-- Two changes are at two prices.
abbrev pub AtOthers : Change → Change → Type 0
AtOthers x y = (p : ℕ) → required x.price ≡ some p → required y.price ≢ some p

after_change_elsewhere :
    (p : ℕ) (c : Change) (live : Ladder)
    → required c.price ≢ some p
    → after_change c live p ≡ live p
after_change_elsewhere p c live n = elim (Option-cases (required c.price)) [
  | inl e ↦ ground (arith, e)
  | inr (q, e) ↦ elim (Option-cases (or_zero c.size)) [
    | inl f ↦ ground (arith, e, f)
    | inr (s, f) ↦
        let apart : q ≢ p = λ h. n (e ∙ ap some h) in ground (arith, e, f, apart, eqb_iff q p)
  ]
]

after_changes_untouched :
    (p : ℕ) (cs : List Change) (live : Ladder)
    → All (λ c. required c.price ≢ some p) cs
    → after_changes cs live p ≡ live p
unfolding after_changes
after_changes_untouched p [] live a = refl
after_changes_untouched p (c ∷ cs) live a =
    after_changes_untouched p cs (after_change c live) a.1 ∙ after_change_elsewhere p c live a.0

-- The lowest live ask of a delta is that of its first change, or that of the others.
lowest_live_cases :
    (p : ℕ) (c : Change) (cs : List Change)
    → lowest_live (c ∷ cs) ≡ done (some p)
    → (lowest_live cs ≡ done (some p))
      ⊎ ((s : ℕ) × (or_zero c.size ≡ some s) × (leb s 0 ≡ false) × (required c.price ≡ some p))
unfolding lowest_live
lowest_live_cases p c cs e = elim (Option-cases (or_zero c.size)) [
  | inl f ↦ absurd (ground (arith, e, f))
  | inr (s, f) ↦ elim (Bool-cases (leb s 0)) [
    | inl z ↦ inl (ground (arith, e, f, z))
    | inr z ↦ elim (Option-cases (required c.price)) [
      | inl g ↦ absurd (ground (arith, e, f, z, g))
      | inr (q, g) ↦
          let found : (lowest_live cs ≡ done (some p)) ⊎ (q ≡ p) = ground (arith, e, f, z, g) in
          elim found [ inl h ↦ inl h | inr h ↦ inr (s, f, z, g ∙ ap some h) ]
    ]
  ]
]

pub lowest_live-after_changes :
    (p : ℕ) (cs : List Change) (live : Ladder)
    → Pairs AtOthers cs
    → lowest_live cs ≡ done (some p)
    → after_changes cs live p ≡ true
unfolding after_changes
lowest_live-after_changes p [] live d e = absurd (unfold lowest_live in ground arith)
lowest_live-after_changes p (c ∷ cs) live d e = elim (lowest_live_cases p c cs e) [
  | inl h ↦ lowest_live-after_changes p cs (after_change c live) d.1 h
  | inr (s, f, z, g) ↦
      let others : All (λ y. required y.price ≢ some p) cs =
        All-map (AtOthers c) (λ y. required y.price ≢ some p) cs (λ y n. n p g) d.0 in
      after_changes_untouched p cs (after_change c live) others
      ∙ ground (arith, f, g, z, eqb_iff p p)
]

module _ (upper : String → String) where
  -- What an event says of the asks.
  abbrev pub after_event : Event → Ladder → Ladder
  after_event (book asks) live = λ p. any (λ x. eqb x.0 p) (parsed asks)
  after_event (price_change cs) live = after_changes (keep (is_ask upper) cs) live
  after_event _ live = live

  -- A snapshot has an ask, a delta names a price at most once, and a best ask is one.
  abbrev pub IsTruthful : Event → Ladder → Type 0
  IsTruthful (book asks) live = parsed asks ≢ []
  IsTruthful (price_change cs) live = Pairs AtOthers (keep (is_ask upper) cs)
  IsTruthful (best_bid_ask (some (num p))) live = live p ≡ true
  IsTruthful _ live = Unit

-- The cached best ask of a token is an ask of the exchange.
abbrev pub IsLive : String → Client → Ladder → Type 0
IsLive token c live = (a : ℕ) → cached_ask (lookup token c.books) ≡ some a → live a ≡ true

-- The client after an event: one that raises is left out.
abbrev pub settled : Client → Outcome Client → Client
settled c raised = c
settled c (done c') = c'
