-- ===== src/Deals/Overlap.antt =====
-- When the outcomes of an event count as a series of thresholds.
use polymarket_radar.Base.{
  ◌≤◌, ◌≡◌, refl, sym, ◌∙◌, ◌≢◌, ◌↔◌, ◌⊎◌, String, Bool, true, false, Option, none, some, List, [],
  ◌∷◌, All, length, string_key, arith,
}
use polymarket_radar.Deals.Series.{
  Patterns, with_first, comparators, all_equal_to, is_one, slug_comparator, is_threshold_series,
}

-- Each text has a comparator, the same as the first.
abbrev pub Agree : (String → Option String) → List String → Type 0
Agree find [] = ⊥
Agree find (t ∷ ts) = (find t ≢ none) × All (λ x. find x ≡ find t) ts

all_from : String → Option (List String) → Bool
all_from w none = false
all_from w (some ws) = all_equal_to w ws

all_from-with_first :
    (w : String) (first : Option String) (rest : Option (List String))
    → (all_from w (with_first first rest) ≡ true) ↔ ((first ≡ some w) × (all_from w rest ≡ true))
unfolding all_from
all_from-with_first w none rest = ground arith
all_from-with_first w (some v) none = ground arith
all_from-with_first w (some v) (some ws) = ground (arith, string_key.same_iff v w)

all_from-comparators :
    (find : String → Option String) (w : String) (ts : List String)
    → (all_from w (comparators find ts) ≡ true) ↔ All (λ x. find x ≡ some w) ts
unfolding comparators all_from
all_from-comparators find w [] = ground arith
all_from-comparators find w (t ∷ ts) =
    let step = all_from-with_first w (find t) (comparators find ts) in
    let rest = all_from-comparators find w ts in ground (arith, step, rest)

is_one-with_first :
    (w : String) (rest : Option (List String)) → is_one (with_first (some w) rest) ≡ all_from w rest
unfolding all_from
is_one-with_first w none = refl
is_one-with_first w (some ws) = refl

first_agrees :
    (find : String → Option String) (first : Option String) (ts : List String)
    → (is_one (with_first first (comparators find ts)) ≡ true)
      ↔ ((first ≢ none) × All (λ x. find x ≡ first) ts)
first_agrees find none ts = ground arith
first_agrees find (some w) ts =
    let same = is_one-with_first w (comparators find ts) in
    let rest = all_from-comparators find w ts in
    (λ e. (λ n. absurd (ground (arith, n)), rest.0 (sym same ∙ e)), λ h. same ∙ rest.1 h.1)

is_one-comparators :
    (find : String → Option String) (ts : List String)
    → (is_one (comparators find ts) ≡ true) ↔ Agree find ts
unfolding comparators
is_one-comparators find [] = ground arith
is_one-comparators find (t ∷ ts) = first_agrees find (find t) ts

-- An event counts as a series of thresholds exactly when it has a title, and the title names a
-- threshold, or at least three titles of its markets all begin with the same comparator, or at least
-- two slugs all contain the same one.
pub is_threshold_series_lem :
    (r : Patterns) (title : String) (titles slugs : List String)
    → (is_threshold_series r title titles slugs ≡ true) ↔ (
        (title ≢ "")
        × ((r.is_threshold_title title ≡ true)
            ⊎ ((3 ≤ length titles) × Agree r.comparator_prefix titles)
            ⊎ ((2 ≤ length slugs) × Agree (slug_comparator r) slugs)))
unfolding is_threshold_series
is_threshold_series_lem r title titles slugs =
    let prefixes = is_one-comparators r.comparator_prefix titles in
    let inside = is_one-comparators (slug_comparator r) slugs in
    ground (arith, string_key.same_iff title "", prefixes, inside)
