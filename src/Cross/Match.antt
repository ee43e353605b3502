-- ===== src/Cross/Match.antt =====
-- Scripts/event_matching.py: whether two outcomes and two events are the same. What the regular
-- expressions make of a text, its words and the similarity of two texts, are arguments.
use polymarket_radar.Base.{
  ℕ, String, Bool, true, false, not, ◌&&◌, ◌||◌, Option, none, some, List, [], ◌∷◌, keep, any,
  count, is_empty, leb, if◌then◌else◌, ◌==◌, string_key, nat_key, pair_key,
}
use polymarket_radar.Stream.Subs.{in_set, distinct, is_subset}

-- `canonicalize_outcome_name`, `split`, `detect_market_scope`, `extract_league`, the canonical form of
-- a title, and `title_similarity` in 1/10000.
pub record Texts : Type 0 where
  pub canonical_name : String → String
  pub words : String → List String
  pub scope : String → String → String
  pub league : String → Option String
  pub canonical_title : String → String
  pub similarity : String → String → ℕ

-- `_DRAW_TOKENS`
abbrev pub is_draw : String → Bool
is_draw w = w == "draw" || w == "tie" || w == "ничья" || w == "нич" || w == "x"

-- `_has_draw_token`
abbrev pub has_draw_token : List String → Bool
has_draw_token ws = any is_draw ws

-- `(tokens - _DRAW_TOKENS) | {'draw'}`, where there is a draw token.
abbrev pub with_draw : List String → List String
with_draw ws = "draw" ∷ keep (λ w. not (is_draw w)) ws

-- The rules on the sets of words.
abbrev pub words_agree : List String → List String → Bool
words_agree [] ys = false
words_agree (a ∷ xs) [] = false
words_agree (a ∷ xs) (b ∷ ys) =
    is_subset (a ∷ xs) (b ∷ ys)
    || is_subset (b ∷ ys) (a ∷ xs)
    || leb 2 (count (λ w. in_set w (b ∷ ys)) (a ∷ xs))

-- The rules from the guard on draws on.
unfoldable pub tokens_compatible : ℕ → ℕ → List String → List String → Bool
tokens_compatible threshold similarity xs ys =
    if has_draw_token xs
    then has_draw_token ys
      && (is_empty (keep (λ w. not (is_draw w)) xs) && is_empty (keep (λ w. not (is_draw w)) ys)
          || words_agree (with_draw xs) (with_draw ys)
          || leb threshold similarity)
    else not (has_draw_token ys) && (words_agree xs ys || leb threshold similarity)

-- `outcomes_compatible`
unfoldable pub outcomes_compatible : Texts → ℕ → String → String → Bool
outcomes_compatible t threshold name_a name_b =
    let a = t.canonical_name name_a in
    let b = t.canonical_name name_b in
    not (name_a == "")
    && not (name_b == "")
    && not (a == "")
    && not (b == "")
    && (a == b
        || tokens_compatible threshold (t.similarity a b) (distinct (t.words a))
            (distinct (t.words b)))

-- `scopes_compatible`
abbrev pub scopes_compatible : String → String → Bool
scopes_compatible a b = a == b

-- `leagues_compatible`
abbrev pub leagues_compatible : Option String → Option String → Bool
leagues_compatible none b = true
leagues_compatible (some a) none = true
leagues_compatible (some a) (some b) = a == b
