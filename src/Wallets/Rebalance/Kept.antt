-- ===== src/Wallets/Rebalance/Kept.antt =====
-- Scripts/wallets/rebalance.py: one transfer in the shadow leaves a bot its reserve.
use polymarket_radar.Base.{
  ℕ, ◌≡◌, sym, subst, ◌≢◌, String, false, some, List, [], ◌∷◌, if◌then◌else◌, ◌==◌, string_key,
  arith, All, Bool-cases, inl, inr, if-cases,
}
use polymarket_radar.Base.Int.{ℤ, pos, ◌+ℤ◌, ◌-ℤ◌, ◌≤ℤ◌, +ℤ_parts, -ℤ_parts}
use polymarket_radar.Base.Dict.{insert, lookup-insert}
use polymarket_radar.Wallets.Defs.{Wallet}
use polymarket_radar.Wallets.Rebalance.{
  Thresholds, PairTimes, on_cooldown, Shadow, delta, bal, half, amount_of, passes_over, pick_source,
  transfer,
}

delta-insert :
    (k j : String) (v : ℤ) (s : Shadow) → delta j (insert k v s) ≡ (if k == j then v else delta j s)
unfolding delta
delta-insert k j v s = let found = lookup-insert k j v s in ground (arith, found)

-- A bot with the balance `b` keeps the reserve.
abbrev pub HasReserve : Thresholds → String → ℤ → Shadow → Type 0
HasReserve t k b s = t.reserve_usdc ≤ℤ b +ℤ delta k s

-- What the inner loop asks of a source.
pub record IsSource (t : Thresholds) (now : ℕ) (times : PairTimes) (s : Shadow) (low high : Wallet)
    : Type 0 where
  pub other : low.bot_id ≢ high.bot_id
  pub rested : on_cooldown t.pair_cooldown_s low.bot_id high.bot_id now times ≡ false
  pub worth : pos 5000000 ≤ℤ amount_of t (bal high s) (bal low s)

not_passed-IsSource :
    (t : Thresholds) (now : ℕ) (times : PairTimes) (s : Shadow) (low high : Wallet)
    → passes_over t now times s low high ≡ false
    → IsSource t now times s low high
unfolding passes_over
not_passed-IsSource t now times s low high h =
    let same = string_key.same_iff low.bot_id high.bot_id in
    record { other = ground (arith, same); rested = ground arith; worth = ground arith }

pub pick_source-found {κ} :
    (P : Wallet → Type κ) (t : Thresholds) (now : ℕ) (times : PairTimes) (s : Shadow) (low : Wallet)
    (highs : List Wallet) (high : Wallet)
    → All P highs
    → pick_source t now times s low highs ≡ some high
    → P high × IsSource t now times s low high
unfolding pick_source
pick_source-found P t now times s low [] high a h = absurd (ground arith)
pick_source-found P t now times s low (w ∷ highs) high a h =
    elim (Bool-cases (passes_over t now times s low w)) [
      | inl over ↦ pick_source-found P t now times s low highs high a.1 (ground arith)
      | inr taken ↦
          let e : w ≡ high = ground (arith, taken, h) in
          subst (λ x. P x × IsSource t now times s low x) e
            (a.0, not_passed-IsSource t now times s low w taken)
    ]

amount_of-half :
    (t : Thresholds) (high_bal low_bal : ℤ)
    → amount_of t high_bal low_bal ≤ℤ half (high_bal -ℤ t.reserve_usdc)
unfolding amount_of
amount_of-half t high_bal low_bal = ground arith

pub delta-transfer :
    (a b k : String) (x : ℤ) (s : Shadow)
    → a ≢ b
    → delta k (transfer a b x s)
      ≡ (if b == k then delta b s +ℤ x else if a == k then delta a s -ℤ x else delta k s)
unfolding transfer
delta-transfer a b k x s n =
    let s' = insert a (delta a s -ℤ x) s in
    let first = delta-insert a k (delta a s -ℤ x) s in
    let target = delta-insert a b (delta a s -ℤ x) s in
    let second = delta-insert b k (delta b s' +ℤ x) s' in
    let apart = string_key.same_iff a b in ground (arith, first, target, second, apart, n)

-- Taking at most half of what is above the reserve leaves the reserve.
half_leaves :
    (b d x reserve : ℤ)
    → x ≤ℤ half ((b +ℤ d) -ℤ reserve)
    → pos 5000000 ≤ℤ x
    → reserve ≤ℤ b +ℤ (d -ℤ x)
half_leaves b d x reserve le big =
    let p = +ℤ_parts b d in
    let q = -ℤ_parts (b +ℤ d) reserve in
    let r = -ℤ_parts d x in let u = +ℤ_parts b (d -ℤ x) in ground (arith, p, q, r, u)

giving_leaves :
    (b d x reserve : ℤ) → reserve ≤ℤ b +ℤ d → pos 5000000 ≤ℤ x → reserve ≤ℤ b +ℤ (d +ℤ x)
giving_leaves b d x reserve le big =
    let p = +ℤ_parts b d in
    let r = +ℤ_parts d x in let u = +ℤ_parts b (d +ℤ x) in omega (arith, p, r, u)

pub transfer-HasReserve :
    (t : Thresholds) (now : ℕ) (times : PairTimes) (s : Shadow) (low high : Wallet) (k : String)
    (b : ℤ)
    → IsSource t now times s low high
    → (high.bot_id ≡ k → high.last_known_usdc ≡ b)
    → HasReserve t k b s
    → HasReserve t k b (transfer high.bot_id low.bot_id (amount_of t (bal high s) (bal low s)) s)
transfer-HasReserve t now times s low high k b source balance h =
    let x = amount_of t (bal high s) (bal low s) in
    let moved = delta-transfer high.bot_id low.bot_id k x s (λ e. source.other (sym e)) in
    let small = amount_of-half t (bal high s) (bal low s) in
    subst (λ d. t.reserve_usdc ≤ℤ b +ℤ d) (sym moved)
      (if-cases (λ d. t.reserve_usdc ≤ℤ b +ℤ d) (low.bot_id == k) (delta low.bot_id s +ℤ x)
        (if high.bot_id == k then delta high.bot_id s -ℤ x else delta k s)
        (λ e.
          let same = (string_key.same_iff low.bot_id k).0 e in
          subst (λ j. t.reserve_usdc ≤ℤ b +ℤ (delta j s +ℤ x)) (sym same)
            (giving_leaves b (delta k s) x t.reserve_usdc h source.worth))
        (λ n.
          if-cases (λ d. t.reserve_usdc ≤ℤ b +ℤ d) (high.bot_id == k) (delta high.bot_id s -ℤ x)
            (delta k s)
            (λ e.
              let own = balance ((string_key.same_iff high.bot_id k).0 e) in
              half_leaves b (delta high.bot_id s) x t.reserve_usdc
                (subst (λ c. x ≤ℤ half ((c +ℤ delta high.bot_id s) -ℤ t.reserve_usdc)) own small)
                source.worth)
            (λ e. h)))
