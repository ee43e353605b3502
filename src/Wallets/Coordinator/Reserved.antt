-- ===== src/Wallets/Coordinator/Reserved.antt =====
-- The reservations after wallets are reserved, released or dropped as expired.
use polymarket_radar.Base.{
  any, ℕ, ◌≡◌, refl, ◌∙◌, ◌≢◌, String, none, some, List, [], ◌∷◌, if◌then◌else◌, string_key, arith,
  All, ◌==◌,
}
use polymarket_radar.Base.Dict.{
  lookup, insert, erase, lookup-erase, erase-Unique, Unique, lookup-insert, lookup-keep,
  keep-Unique, insert-Unique,
}
use polymarket_radar.Wallets.Defs.{Wallet}
use polymarket_radar.Wallets.Coordinator.{
  Reservations, is_held, drop_expired, reserve_all, release_reservations,
}

reserve_all-kept :
    (now : ℕ) (ws : List Wallet) (k : String) (r : Reservations)
    → lookup k r ≡ some now
    → lookup k (reserve_all now ws r) ≡ some now
unfolding reserve_all
reserve_all-kept now [] k r h = h
reserve_all-kept now (w ∷ ws) k r h =
    reserve_all-kept now ws k (insert w.bot_id now r)
      (ground (arith, lookup-insert w.bot_id k now r))

pub reserve_all-reserved :
    (now : ℕ) (ws : List Wallet) (r : Reservations)
    → All (λ w. lookup w.bot_id (reserve_all now ws r) ≡ some now) ws
unfolding reserve_all
reserve_all-reserved now [] r = tt
reserve_all-reserved now (w ∷ ws) r =
    let k = w.bot_id in
    (
      reserve_all-kept now ws k (insert k now r)
          (ground (arith, string_key.same_iff k k, lookup-insert k k now r)),
      reserve_all-reserved now ws (insert k now r),
    )

pub reserve_all-others :
    (now : ℕ) (ws : List Wallet) (k : String) (r : Reservations)
    → All (λ w. w.bot_id ≢ k) ws
    → lookup k (reserve_all now ws r) ≡ lookup k r
unfolding reserve_all
reserve_all-others now [] k r h = refl
reserve_all-others now (w ∷ ws) k r h =
    reserve_all-others now ws k (insert w.bot_id now r) h.1
    ∙ ground (arith, string_key.same_iff w.bot_id k, lookup-insert w.bot_id k now r, h.0)

pub reserve_all-Unique :
    (now : ℕ) (ws : List Wallet) (r : Reservations) → Unique r → Unique (reserve_all now ws r)
unfolding reserve_all
reserve_all-Unique now [] r u = u
reserve_all-Unique now (w ∷ ws) r u =
    reserve_all-Unique now ws (insert w.bot_id now r) (insert-Unique w.bot_id now r u)

pub lookup-drop_expired :
    (now : ℕ) (k : String) (r : Reservations)
    → Unique r
    → lookup k (drop_expired now r)
      ≡ elim (lookup k r) [ none ↦ none | some ts ↦ if is_held now ts then some ts else none ]
unfolding drop_expired
lookup-drop_expired now k r u = lookup-keep (is_held now) k r u

pub drop_expired-Unique : (now : ℕ) (r : Reservations) → Unique r → Unique (drop_expired now r)
unfolding drop_expired
drop_expired-Unique now r u = keep-Unique (λ x. is_held now x.1) r u

-- A release frees the wallets it names and no other.
pub lookup-release_reservations :
    (ks : List String) (k : String) (r : Reservations)
    → lookup k (release_reservations ks r) ≡ (if any (λ j. j == k) ks then none else lookup k r)
unfolding release_reservations
lookup-release_reservations [] k r = refl
lookup-release_reservations (j ∷ ks) k r =
    ground (arith, lookup-release_reservations ks k (erase j r), lookup-erase j k r)

pub release_reservations-Unique :
    (ks : List String) (r : Reservations) → Unique r → Unique (release_reservations ks r)
unfolding release_reservations
release_reservations-Unique [] r u = u
release_reservations-Unique (j ∷ ks) r u =
    release_reservations-Unique ks (erase j r) (erase-Unique j r u)
