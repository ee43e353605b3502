-- ===== src/Stream/Poly.antt =====
-- Scripts/poly_ws.py: the cache of best asks. A price is in steps that are coarser than the source's
-- tolerance of 1e-9, so that the tolerance is exact, a size in steps of its own, and a depth in steps
-- of their product. Negative numbers, which the code ignores as it does 0, are not in the model.
pub mod Depth
pub mod Ladder
pub mod Live
pub mod Phantom
use polymarket_radar.Base.{
  ℕ, zero, suc, ◌+◌, ◌*◌, String, Bool, true, false, ◌||◌, Option, none, some, List, [], ◌∷◌, keep,
  any, ltb, leb, eqb, if◌then◌else◌, ◌==◌, string_key,
}
use polymarket_radar.Base.Sort.{sort}
use polymarket_radar.Stream.Subs.{in_set, new_subscriptions, watched_books}
use polymarket_radar.Base.Dict.{Dict, lookup, insert, erase}

-- A field that `float` reads: it is missing, unreadable, or a number.
pub data Field : Type 0 where
  missing : Field
  unreadable : Field
  num : ℕ → Field

-- `float(x.get(key, 0))`, without a result where it raises.
abbrev pub or_zero : Field → Option ℕ
or_zero missing = some 0
or_zero unreadable = none
or_zero (num n) = some n

-- `float(x.get(key))` and `float(x[key])`
abbrev pub required : Field → Option ℕ
required (num n) = some n
required _ = none

pub record Level : Type 0 where
  pub price : Field
  pub size : Field

pub record Change : Type 0 where
  pub price : Field
  pub size : Field
  pub side : String

-- An entry of `books`.
pub record Book : Type 0 where
  pub best_ask : Option ℕ
  pub depth : ℕ
  pub ts : ℕ

-- The levels of `_calc_book` that can be read and are not empty.
unfoldable pub parsed : List Level → List (ℕ × ℕ)
parsed [] = []
parsed (a ∷ asks) =
    let rest = parsed asks in
    elim (required a.price) [
      | none ↦ rest
      | some p ↦ elim (or_zero a.size) [
        | none ↦ rest
        | some s ↦ if leb p 0 || leb s 0 then rest else (p, s) ∷ rest
      ]
    ]

-- `for p, s in parsed`, until a price is above the best.
unfoldable pub depth_at : ℕ → List (ℕ × ℕ) → ℕ
depth_at best [] = 0
depth_at best ((p, s) ∷ levels) =
    let rest = depth_at best levels in if ltb best p then 0 else p * s + rest

abbrev pub by_price : ℕ × ℕ → ℕ × ℕ → Bool
by_price x y = leb x.0 y.0

-- `_calc_book`
unfoldable pub calc_book : List Level → Option ℕ × ℕ
unfolding parsed depth_at
calc_book asks = elim (sort by_price (parsed asks)) [
  | [] ↦ (none, 0)
  | (best, s) ∷ levels ↦ (some best, depth_at best ((best, s) ∷ levels))
]

-- The client's state: `books`, `_dirty` and `_desired`.
pub record Client : Type 0 where
  pub books : Dict String Book
  pub dirty : List String
  pub desired : List String

-- `_mark_dirty`
abbrev pub mark_dirty : String → Client → Client
mark_dirty token c = if in_set token c.dirty then c else record c { dirty = token ∷ c.dirty }

-- The events that `_handle_event` tells apart.
pub data Event : Type 0 where
  book : List Level → Event
  price_change : List Change → Event
  best_bid_ask : Option Field → Event
  ignored : Event

-- A delta cancels an ask at the cached best price or below it.
unfoldable pub is_cancelled : ℕ → List Change → Bool
is_cancelled cur [] = false
is_cancelled cur (c ∷ cs) =
    let rest = is_cancelled cur cs in
    elim (required c.price) [
      | none ↦ rest
      | some p ↦ elim (or_zero c.size) [
        | none ↦ rest
        | some s ↦ if eqb s 0 then (if leb p cur then true else rest) else rest
      ]
    ]

-- The outcome of code that may raise.
pub data Outcome (A : Type 0) : Type 0 where
  raised : Outcome A
  done : A → Outcome A

abbrev pub lower : ℕ → Option ℕ → Option ℕ
lower p none = some p
lower p (some q) = if leb q p then some q else some p

-- `min((float(c["price"]) for c in asks_changed if float(c.get("size", 0)) > 0), default=None)`
unfoldable pub lowest_live : List Change → Outcome (Option ℕ)
lowest_live [] = done none
lowest_live (c ∷ cs) =
    let rest = lowest_live cs in
    elim (or_zero c.size) [
      | none ↦ raised
      | some s ↦ if leb s 0 then rest else elim (required c.price) [
        | none ↦ raised
        | some p ↦ elim rest [ raised ↦ raised | done q ↦ done (lower p q) ]
      ]
    ]

-- `cur.get("best_ask") if cur else None`
abbrev pub cached_ask : Option Book → Option ℕ
cached_ask none = none
cached_ask (some b) = b.best_ask

-- `cur["depth"] if cur else 0.0`
abbrev pub cached_depth : Option Book → ℕ
cached_depth none = 0
cached_depth (some b) = b.depth

-- `self.books[token_id] = …` and `_mark_dirty`.
abbrev pub store : String → Book → Client → Client
store token b c = mark_dirty token (record c { books = insert token b c.books })

abbrev pub cancels_best : Option ℕ → List Change → Bool
cancels_best none cs = false
cancels_best (some a) cs = is_cancelled a cs

abbrev pub is_no_worse : ℕ → Option ℕ → Bool
is_no_worse p none = true
is_no_worse p (some a) = leb p a

-- The branch `price_change` of `_handle_event`, on the changes of asks.
unfoldable pub handle_delta : ℕ → String → List Change → Client → Outcome Client
unfolding is_cancelled lowest_live
handle_delta now token [] c = done c
handle_delta now token (x ∷ xs) c =
    let cur = lookup token c.books in
    if cancels_best (cached_ask cur) (x ∷ xs)
    then done (store token (record { best_ask = none; depth = 0; ts = now }) c)
    else elim (lowest_live (x ∷ xs)) [
      | raised ↦ raised
      | done lowest ↦ elim lowest [
        | none ↦ done c
        | some p ↦
            if is_no_worse p (cached_ask cur)
            then done
                (store token (record { best_ask = some p; depth = cached_depth cur; ts = now }) c)
            else done c
      ]
    ]

-- `str.upper`
module _ (upper : String → String) where
  abbrev pub is_ask : Change → Bool
  is_ask c = upper c.side == "SELL" || c.side == "ask"

  -- The branches of `_handle_event` on an event about a token, at the time `now`.
  unfoldable pub handle_kind : ℕ → String → Event → Client → Outcome Client
  unfolding calc_book handle_delta
  handle_kind now token (book asks) c =
      let (best, depth) = calc_book asks in
      elim best [
        | none ↦ done c
        | some p ↦ done (store token (record { best_ask = some p; depth = depth; ts = now }) c)
      ]
  handle_kind now token (price_change changes) c = handle_delta now token (keep is_ask changes) c
  handle_kind now token (best_bid_ask ask) c = elim ask [
    | none ↦ done c
    | some field ↦ elim (required field) [
      | none ↦ raised
      | some p ↦
          let cur = lookup token c.books in
          done (store token (record { best_ask = some p; depth = cached_depth cur; ts = now }) c)
    ]
  ]
  handle_kind now token ignored c = done c

  -- `_handle_event`
  unfoldable pub handle_event : ℕ → String → Event → Client → Outcome Client
  unfolding handle_kind
  handle_event now token ev c = if token == "" then done c else handle_kind now token ev c

  -- The loop of `_on_message`: an event that raises is left out.
  unfoldable pub on_message : ℕ → List (String × Event) → Client → Client
  unfolding handle_event
  on_message now [] c = c
  on_message now ((token, ev) ∷ evs) c = elim (handle_event now token ev c) [
    | raised ↦ on_message now evs c
    | done c' ↦ on_message now evs c'
  ]

-- `get_book`
unfoldable pub get_book : String → Client → Option Book
get_book token c = lookup token c.books

-- `update_subscriptions`, and whether it reconnects. `order` is the order in which a set is listed.
unfoldable pub update_subscriptions :
    (List String → List String) → ℕ → List String → Client → Client × Bool
update_subscriptions order max_subs tokens c =
    elim (new_subscriptions order max_subs tokens c.desired) [
      | none ↦ (c, false)
      | some new ↦ (record c { books = watched_books c.desired new c.books; desired = new }, true)
    ]
