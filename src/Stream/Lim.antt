-- ===== src/Stream/Lim.antt =====
-- Scripts/limitless_ws.py: the cache of books and of positions. A price is in units of $0.0001, a size
-- in whole shares, and a depth in units of $0.0001, which a division rounds down.
pub mod Watched
pub mod Positions
use polymarket_radar.Base.{
  ℕ, zero, ◌+◌, ◌-◌, ◌*◌, ◌/◌, min, String, Bool, true, false, not, Option, none, some, List, [],
  ◌∷◌, keep, ltb, leb, eqb, if◌then◌else◌, ◌==◌, string_key, pair_key, map,
}
use polymarket_radar.Base.Dict.{Dict, lookup, insert, erase}
use polymarket_radar.Stream.Subs.{in_set, new_subscriptions, watched_books}
use polymarket_radar.Stream.Poly.{Field, missing, unreadable, num, Level, required}

-- What `_parse_orderbook` returns.
pub record LimBook : Type 0 where
  pub best_yes_ask : Option ℕ
  pub best_yes_bid : Option ℕ
  pub depth_yes : ℕ
  pub depth_no : ℕ
  pub ts : ℕ

-- $1 and $1,000,000
abbrev pub dollar : ℕ
dollar = 10000

abbrev pub million : ℕ
million = 10000000000

-- `_norm`, of a size that can be read.
unfoldable pub norm : ℕ → ℕ → ℕ
norm price size =
    let raw = price * size in
    let scaled = raw / 1000000 in
    if leb price 0
    then 0
    else if leb size 0
    then 0
    else if ltb million raw
    then min scaled million
    else min raw million

-- `_norm(price, level["size"])`, without a result where the size is missing.
abbrev pub norm_of : ℕ → Field → Option ℕ
norm_of price missing = none
norm_of price unreadable = some 0
norm_of price (num s) = some (norm price s)

-- The best price of a side and the depth there, without a result where the code raises.
unfoldable pub yes_side : List Level → Option (Option ℕ × ℕ)
unfolding norm
yes_side [] = some (none, 0)
yes_side (a ∷ asks) = elim (required a.price) [
  | none ↦ none
  | some p ↦ elim (norm_of p a.size) [ none ↦ none | some d ↦ some (some p, d) ]
]

unfoldable pub no_side : List Level → Option (Option ℕ × ℕ)
unfolding norm
no_side [] = some (none, 0)
no_side (b ∷ bids) = elim (required b.price) [
  | none ↦ none
  | some p ↦
      if ltb 0 p
      then elim (norm_of (dollar - p) b.size) [ none ↦ none | some d ↦ some (some p, d) ]
      else some (some p, 0)
]

-- `_parse_orderbook`, at the time `now`.
unfoldable pub parse_orderbook : ℕ → List Level → List Level → Option LimBook
unfolding yes_side no_side
parse_orderbook now asks bids = elim (yes_side asks) [
  | none ↦ none
  | some yes_top ↦ elim (no_side bids) [
    | none ↦ none
    | some no_top ↦ some (record {
      best_yes_ask = yes_top.0;
      best_yes_bid = no_top.0;
      depth_yes = yes_top.1;
      depth_no = no_top.1;
      ts = now;
    })
  ]
]

-- An entry of `positions`.
pub record Held : Type 0 where
  pub size : ℕ
  pub last_update_ts : ℕ

-- The client's state.
pub record LimClient : Type 0 where
  pub books : Dict String LimBook
  pub dirty : List String
  pub desired : List String
  pub positions : Dict (String × String) Held
  pub positions_last_update : Option ℕ

-- `a or b`, of texts.
abbrev pub or_text : Option String → Option String → Option String
or_text none b = b
or_text (some a) b = if a == "" then b else some a

-- `_handle_orderbook` up to its second lock: the book to store, if the market is watched now.
unfoldable pub check_push :
    ℕ
    → Option String
    → Option String
    → List Level
    → List Level
    → LimClient
    → Option (String × LimBook)
unfolding parse_orderbook
check_push now market_slug plain_slug asks bids c = elim (or_text market_slug plain_slug) [
  | none ↦ none
  | some s ↦
      if s == ""
      then none
      else if in_set s c.desired
      then elim (parse_orderbook now asks bids) [ none ↦ none | some b ↦ some (s, b) ]
      else none
]

-- The rest of `_handle_orderbook`, under its second lock and that of `_dirty`. It does not look at
-- `_desired` again.
unfoldable pub store_book : String × LimBook → LimClient → LimClient
store_book (s, b) c = record c {
  books = insert s b c.books;
  dirty = if in_set s c.dirty then c.dirty else s ∷ c.dirty;
}

-- `update_subscriptions`, and whether it subscribes anew.
unfoldable pub update_subscriptions :
    (List String → List String) → ℕ → List String → LimClient → LimClient × Bool
update_subscriptions order max_subs slugs c =
    elim (new_subscriptions order max_subs slugs c.desired) [
      | none ↦ (c, false)
      | some new ↦ (record c { books = watched_books c.desired new c.books; desired = new }, true)
    ]

-- An entry of a `positions` event. The key `outcome` may be there without a value.
pub record PositionEntry : Type 0 where
  pub outcome : Option (Option String)
  pub outcome_index : Option String
  pub size : Field
  pub amount : Field

abbrev pub outcome_of : PositionEntry → Option String
outcome_of p = elim p.outcome [ none ↦ p.outcome_index | some o ↦ o ]

-- `float(p.get('size') or p.get('amount') or 0)`, without a result where it raises.
abbrev pub amount_or_zero : Field → Option ℕ
amount_or_zero missing = some 0
amount_or_zero unreadable = none
amount_or_zero (num n) = some n

abbrev pub size_of : PositionEntry → Option ℕ
size_of p = elim p.size [
  | missing ↦ amount_or_zero p.amount
  | unreadable ↦ none
  | num n ↦ if eqb n 0 then amount_or_zero p.amount else some n
]

-- The loop that fills `new_rows`, where `continue` leaves the rows.
unfoldable pub add_row :
    ℕ → String → PositionEntry → Dict (String × String) Held → Dict (String × String) Held
add_row now s p rows = elim (outcome_of p) [
  | none ↦ rows
  | some o ↦ elim (size_of p) [
    | none ↦ rows
    | some n ↦
        if eqb n 0 then rows else insert (s, o) (record { size = n; last_update_ts = now }) rows
  ]
]

unfoldable pub fill_rows :
    ℕ → String → List PositionEntry → Dict (String × String) Held → Dict (String × String) Held
unfolding add_row
fill_rows now s [] rows = rows
fill_rows now s (p ∷ ps) rows = fill_rows now s ps (add_row now s p rows)

-- `self.positions.update(new_rows)`
unfoldable pub update_with :
    Dict (String × String) Held → Dict (String × String) Held → Dict (String × String) Held
update_with d [] = d
update_with d ((k, v) ∷ rows) = update_with (insert k v d) rows

-- `_handle_positions`
unfoldable pub handle_positions :
    ℕ → Option String → Option String → List PositionEntry → LimClient → LimClient
unfolding fill_rows update_with
handle_positions now market_slug market_address entries c =
    elim (or_text market_slug market_address) [
      | none ↦ c
      | some s ↦ if s == "" then c else record c {
        positions =
            update_with (keep (λ x. not (x.0.0 == s)) c.positions) (fill_rows now s entries []);
        positions_last_update = some now;
      }
    ]

-- `get_positions_snapshot`
pub get_positions_snapshot : LimClient → Dict (String × String × String) ℕ
get_positions_snapshot c = map (λ x. (("Limitless", x.0.0, x.0.1), x.1.size)) c.positions
