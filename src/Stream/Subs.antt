-- ===== src/Stream/Subs.antt =====
-- Scripts/poly_ws.py and Scripts/limitless_ws.py: `update_subscriptions`, which the two clients share
-- up to the names.
use polymarket_radar.Base.{
  ℕ, String, Bool, true, not, ◌&&◌, ◌||◌, Option, none, some, List, [], ◌∷◌, keep, any, take,
  length, ltb, if◌then◌else◌, ◌==◌, string_key,
}
use polymarket_radar.Base.Dict.{Dict}

-- `t in s`, of a set of texts.
abbrev pub in_set : String → List String → Bool
in_set t s = any (λ u. u == t) s

-- `{t for t in tokens if t}`
unfoldable pub distinct : List String → List String
distinct [] = []
distinct (t ∷ ts) = let rest = distinct ts in if t == "" || in_set t rest then rest else t ∷ rest

-- `a <= b`, of sets.
unfoldable pub is_subset : List String → List String → Bool
is_subset [] b = true
is_subset (t ∷ a) b = in_set t b && is_subset a b

-- The set that the client is to watch, unless it is the one that it watches. `order` is the order in
-- which Python lists a set.
unfoldable pub new_subscriptions :
    (List String → List String) → ℕ → List String → List String → Option (List String)
unfolding distinct is_subset
new_subscriptions order max_subs tokens desired =
    let all = distinct tokens in
    let new = if ltb max_subs (length all) then take max_subs (order all) else all in
    if is_subset new desired && is_subset desired new then none else some new

-- The books without those of `desired - new`.
abbrev pub watched_books {ℓ} :
    {B : Type ℓ} → List String → List String → Dict String B → Dict String B
watched_books desired new books = keep (λ x. not (in_set x.0 desired) || in_set x.0 new) books
