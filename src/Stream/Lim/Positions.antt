-- ===== src/Stream/Lim/Positions.antt =====
-- The cache of positions is what the last event of each market says.
use polymarket_radar.Base.{
  ℕ, ◌≡◌, ◌≢◌, refl, String, false, not, Option, none, some, List, [], ◌∷◌, keep, eqb,
  if◌then◌else◌, ◌==◌, string_key, pair_key, pair_same_iff, arith, inl, inr, if-both, match-cases,
  Option-cases,
}
use polymarket_radar.Base.Dict.{
  Dict, lookup, insert, Unique, lookup-insert, insert-Unique, lookup-keep_keys, lookup-nil,
}
use polymarket_radar.Stream.Lim.{
  Held, LimClient, PositionEntry, outcome_of, size_of, add_row, fill_rows, update_with,
  handle_positions,
}

-- The size that an entry reports for an outcome.
abbrev pub entry_size : String → PositionEntry → Option ℕ
entry_size o p = elim (outcome_of p) [
  | none ↦ none
  | some u ↦
      if u == o
      then elim (size_of p) [ none ↦ none | some n ↦ if eqb n 0 then none else some n ]
      else none
]

-- The size that the last entry on an outcome reports.
unfoldable pub reported : String → List PositionEntry → Option ℕ
reported o [] = none
reported o (p ∷ ps) = elim (reported o ps) [ none ↦ entry_size o p | some n ↦ some n ]

lookup-update_with :
    (k : String × String) (d rows : Dict (String × String) Held)
    → Unique rows
    → lookup k (update_with d rows) ≡ elim (lookup k rows) [ none ↦ lookup k d | some v ↦ some v ]
unfolding update_with lookup
lookup-update_with k d [] u = refl
lookup-update_with k d ((j, v) ∷ rows) u = ground (
  arith,
  u.0,
  pair_same_iff j k,
  lookup-insert j k v d,
  lookup-update_with k (insert j v d) rows u.1,
)

abbrev pub held : ℕ → Option ℕ → Option Held
held now none = none
held now (some n) = some (record { size = n; last_update_ts = now })

add_row-Unique :
    (now : ℕ) (s : String) (p : PositionEntry) (rows : Dict (String × String) Held)
    → Unique rows
    → Unique (add_row now s p rows)
unfolding add_row
add_row-Unique now s p rows u =
    match-cases (λ (d : Dict (String × String) Held). Unique d) (outcome_of p) _ _ (λ e. u)
      (λ o e.
        match-cases (λ (d : Dict (String × String) Held). Unique d) (size_of p) _ _ (λ f. u)
          (λ n f.
            if-both (λ (d : Dict (String × String) Held). Unique d) (eqb n 0) _ _ u
              (insert-Unique (s, o) _ rows u)))

fill_rows-Unique :
    (now : ℕ) (s : String) (ps : List PositionEntry) (rows : Dict (String × String) Held)
    → Unique rows
    → Unique (fill_rows now s ps rows)
unfolding fill_rows
fill_rows-Unique now s [] rows u = u
fill_rows-Unique now s (p ∷ ps) rows u =
    fill_rows-Unique now s ps (add_row now s p rows) (add_row-Unique now s p rows u)

-- Rows are of the event's market, and hold what the entry reports.
lookup-add_row :
    (now : ℕ) (s t o : String) (p : PositionEntry) (rows : Dict (String × String) Held)
    → lookup (t, o) (add_row now s p rows) ≡ (
        if s == t
        then elim (entry_size o p) [ none ↦ lookup (t, o) rows | some n ↦ held now (some n) ]
        else lookup (t, o) rows)
unfolding add_row
lookup-add_row now s t o p rows = elim (Option-cases (outcome_of p)) [
  | inl e ↦ ground (arith, e)
  | inr (u, e) ↦ elim (Option-cases (size_of p)) [
    | inl f ↦ ground (arith, e, f)
    | inr (n, f) ↦
        ground (
          arith,
          e,
          f,
          lookup-insert (s, u) (t, o) (record { size = n; last_update_ts = now }) rows,
        )
  ]
]

lookup-fill_rows :
    (now : ℕ) (s t o : String) (ps : List PositionEntry) (rows : Dict (String × String) Held)
    → lookup (t, o) (fill_rows now s ps rows) ≡ (
        if s == t
        then elim (reported o ps) [ none ↦ lookup (t, o) rows | some n ↦ held now (some n) ]
        else lookup (t, o) rows)
unfolding fill_rows reported
lookup-fill_rows now s t o [] rows = ground arith
lookup-fill_rows now s t o (p ∷ ps) rows =
    ground
      (arith, lookup-fill_rows now s t o ps (add_row now s p rows), lookup-add_row now s t o p rows)

-- After a `positions` event about a market, the position cached for an outcome of this market is the
-- one that the last entry on this outcome reports with a size that is not 0, and none if there is no
-- such entry, whatever was cached; the positions in other markets are as they were.
pub handle_positions_lem :
    (now : ℕ) (s t o : String) (address : Option String) (entries : List PositionEntry)
    (c : LimClient)
    → s ≢ ""
    → lookup (t, o) (handle_positions now (some s) address entries c).positions
      ≡ (if s == t then held now (reported o entries) else lookup (t, o) c.positions)
unfolding handle_positions
handle_positions_lem now s t o address entries c n =
    let rows = fill_rows now s entries [] in
    let u : Unique rows = fill_rows-Unique now s entries [] tt in
    let others = keep (λ x. not (x.0.0 == s)) c.positions in
    let named : (s == "") ≡ false = ground (arith, n, string_key.same_iff s "") in
    ground (
      arith,
      named,
      lookup-update_with (t, o) others rows u,
      lookup-fill_rows now s t o entries [],
      lookup-nil {K = String × String} {V = Held} (t, o),
      lookup-keep_keys (λ k. not (k.0 == s)) (t, o) c.positions,
      string_key.same_iff s t,
      string_key.same_iff t s,
    )
