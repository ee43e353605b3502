-- ===== src/Dedup/Tests.antt =====
-- The theorems on the store of fired arbs at concrete tables.
use polymarket_radar.Base.{
  ℕ, ◌≡◌, refl, ◌≢◌, true, false, some, List, [], ◌∷◌, arith, All, string_key,
}
use polymarket_radar.Base.Dict.{lookup, erase, Unique}
use polymarket_radar.Base.Sort.{sort, insert_sorted}
use polymarket_radar.Dedup.{Deal, FireDedup, Tracked, shrink, oldest, erase_all}
use polymarket_radar.Dedup.Cooldown.{scans, no_refire}

abbrev a_deal : Deal
a_deal = record {
  arb_structure = some "all_yes";
  platform = some "Polymarket";
  title = some "Rain in London";
  is_quarantine = false;
}

abbrev held_back : Deal
held_back = record a_deal { title = some "Snow in Rome"; is_quarantine = true }

abbrev table : Tracked
table = ("old", 10) ∷ ("mid", 20) ∷ ("new", 30) ∷ []

table-Unique : Unique table
unfolding lookup
table-Unique = (refl, (refl, (refl, tt)))

abbrev roomy : FireDedup
roomy = record { cooldown_s = 300; hard_cap = 100; tracked = table }

abbrev two_scans : List (ℕ × List Deal)
two_scans = (40, a_deal ∷ []) ∷ (330, a_deal ∷ held_back ∷ []) ∷ []

no_refire_example : All (λ fired. All (λ x. x.0 ≢ "new") fired) (scans two_scans roomy).0
no_refire_example =
    no_refire two_scans roomy "new" 30 (omega arith) table-Unique (unfold lookup in refl)
      (omega arith, (omega arith, tt))

kept : lookup "new" (shrink 2 table) ≡ some 30
unfolding lookup shrink oldest erase_all erase sort insert_sorted
kept = refl
