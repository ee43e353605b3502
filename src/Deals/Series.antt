-- ===== src/Deals/Series.antt =====
-- Scripts/radar/eval/polymarket.py: is_threshold_series. The searches of regular expressions are
-- arguments.
use polymarket_radar.Base.{
  String, Bool, true, false, not, ◌&&◌, ◌||◌, Option, none, some, List, [], ◌∷◌, length, leb,
  if◌then◌else◌, ◌==◌, string_key,
}

-- What the regular expressions find: whether a title names a threshold, the comparator that a title
-- begins with and the one inside a slug.
pub record Patterns : Type 0 where
  pub is_threshold_title : String → Bool
  pub comparator_prefix : String → Option String
  pub comparator_in : String → Option String

-- `prefixes` and `comp`: what each text gives, unless one gives nothing.
abbrev pub with_first : Option String → Option (List String) → Option (List String)
with_first none rest = none
with_first (some w) none = none
with_first (some w) (some ws) = some (w ∷ ws)

unfoldable pub comparators : (String → Option String) → List String → Option (List String)
comparators find [] = some []
comparators find (t ∷ ts) = with_first (find t) (comparators find ts)

abbrev pub all_equal_to : String → List String → Bool
all_equal_to w [] = true
all_equal_to w (v ∷ vs) = (v == w) && all_equal_to w vs

-- `prefixes and len(set(prefixes)) == 1`
abbrev pub is_one : Option (List String) → Bool
is_one none = false
is_one (some []) = false
is_one (some (w ∷ ws)) = all_equal_to w ws

-- A missing slug is the empty text.
abbrev pub slug_comparator : Patterns → String → Option String
slug_comparator r slug = if slug == "" then none else r.comparator_in slug

-- `is_threshold_series`
unfoldable pub is_threshold_series : Patterns → String → List String → List String → Bool
is_threshold_series r title child_titles child_slugs =
    not (title == "")
    && (r.is_threshold_title title
        || leb 3 (length child_titles) && is_one (comparators r.comparator_prefix child_titles)
        || leb 2 (length child_slugs) && is_one (comparators (slug_comparator r) child_slugs))
