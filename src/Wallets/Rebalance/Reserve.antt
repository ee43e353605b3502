-- ===== src/Wallets/Rebalance/Reserve.antt =====
-- What the proposals take from a bot leaves it its reserve.
use polymarket_radar.Base.{
  ℕ, ◌+◌, ◌*◌, ◌||◌, Bool, round_div, round_div-IsNearest, ◌≡◌, sym, subst, ◌≢◌, String, false,
  List, [], ◌∷◌, keep, if◌then◌else◌, ◌==◌, string_key, arith, All, Bool-cases, inl, inr,
  match-cases, All-keep,
}
use polymarket_radar.Base.Int.{ℤ, pos, negsuc, ◌+ℤ◌, ◌-ℤ◌, ltb_ℤ, leb_ℤ, ◌≤ℤ◌, +ℤ_parts, -ℤ_parts}
use polymarket_radar.Base.Dict.{lookup}
use polymarket_radar.Base.Sort.{All-sort}
use polymarket_radar.Wallets.Defs.{Wallet}
use polymarket_radar.Wallets.Rebalance.{
  RebalanceProposal, Thresholds, PairTimes, on_cooldown, Shadow, delta, bal, amount_of, round_cents,
  proposal, pick_source, transfer, plan, lows_of, highs_of, propose_rebalances,
}
use polymarket_radar.Wallets.Rebalance.Kept.{
  HasReserve, IsSource, pick_source-found, delta-transfer, transfer-HasReserve,
}

-- Wallets of the bot `k` have the balance `b`.
abbrev pub Balanced : String → ℤ → Wallet → Type 0
Balanced k b w = w.bot_id ≡ k → w.last_known_usdc ≡ b

-- A proposal between two bots that are not on their cooldown, of at least five dollars.
abbrev pub IsProper : Thresholds → ℕ → PairTimes → RebalanceProposal → Type 0
IsProper t now times p =
    (p.to_bot ≢ p.from_bot)
    × (on_cooldown t.pair_cooldown_s p.to_bot p.from_bot now times ≡ false)
    × (pos 5000000 ≤ℤ p.amount_usdc)

-- What a proposal adds to the balance of a bot.
abbrev pub moved : String → RebalanceProposal → ℤ
moved k p =
    if p.to_bot == k
    then p.amount_usdc
    else if p.from_bot == k
    then pos 0 -ℤ p.amount_usdc
    else pos 0

-- What the proposals add to the balance of a bot together.
unfoldable pub net : String → List RebalanceProposal → ℤ
net k [] = pos 0
net k (p ∷ ps) = moved k p +ℤ net k ps

-- Whether a proposal is to or from a bot.
abbrev pub is_of : String → RebalanceProposal → Bool
is_of k p = p.to_bot == k || p.from_bot == k

-- Half a cent for each proposal to or from the bot.
unfoldable pub slack : String → List RebalanceProposal → ℕ
slack k [] = 0
slack k (p ∷ ps) = let rest = slack k ps in if is_of k p then 5000 + rest else rest

-- The shadow of the bot is at most what the proposals add to it, less the rounding.
abbrev IsShadowed : String → ℤ → List RebalanceProposal × Shadow → Type 0
IsShadowed k d (ps, s') = delta k s' ≤ℤ (d +ℤ net k ps) +ℤ pos (slack k ps)

rounded_near :
    (x : ℤ)
    → pos 5000000 ≤ℤ x
    → (pos 5000000 ≤ℤ round_cents x)
      × (x ≤ℤ round_cents x +ℤ pos 5000)
      × (round_cents x ≤ℤ x +ℤ pos 5000)
unfolding round_cents
rounded_near (pos n) h =
    let near = round_div-IsNearest n 10000 (omega arith) in
    let p = +ℤ_parts (pos (10000 * round_div n 10000)) (pos 5000) in
    let q = +ℤ_parts (pos n) (pos 5000) in
    (omega (arith, near.1, h), omega (arith, near.1, p), omega (arith, near.0, q))
rounded_near (negsuc n) h = absurd (omega (arith, h))

proposal-IsProper :
    (t : Thresholds) (now : ℕ) (times : PairTimes) (s : Shadow) (low high : Wallet)
    → IsSource t now times s low high
    → IsProper t now times (proposal high low (amount_of t (bal high s) (bal low s)))
unfolding proposal
proposal-IsProper t now times s low high source = (
  source.other,
  source.rested,
  (rounded_near (amount_of t (bal high s) (bal low s)) source.worth).0,
)

moved_in :
    (z d x r n : ℤ) (c : ℕ)
    → z ≤ℤ ((d +ℤ x) +ℤ n) +ℤ pos c
    → x ≤ℤ r +ℤ pos 5000
    → z ≤ℤ (d +ℤ (r +ℤ n)) +ℤ pos (5000 + c)
moved_in z d x r n c h k =
    let a = +ℤ_parts d x in
    let b = +ℤ_parts (d +ℤ x) n in
    let e = +ℤ_parts ((d +ℤ x) +ℤ n) (pos c) in
    let f = +ℤ_parts r (pos 5000) in
    let g = +ℤ_parts r n in
    let i = +ℤ_parts d (r +ℤ n) in
    let j = +ℤ_parts (d +ℤ (r +ℤ n)) (pos (5000 + c)) in omega (arith, a, b, e, f, g, i, j, h, k)

moved_out :
    (z d x r n : ℤ) (c : ℕ)
    → z ≤ℤ ((d -ℤ x) +ℤ n) +ℤ pos c
    → r ≤ℤ x +ℤ pos 5000
    → z ≤ℤ (d +ℤ ((pos 0 -ℤ r) +ℤ n)) +ℤ pos (5000 + c)
moved_out z d x r n c h k =
    let a = -ℤ_parts d x in
    let b = +ℤ_parts (d -ℤ x) n in
    let e = +ℤ_parts ((d -ℤ x) +ℤ n) (pos c) in
    let f = +ℤ_parts x (pos 5000) in
    let m = -ℤ_parts (pos 0) r in
    let g = +ℤ_parts (pos 0 -ℤ r) n in
    let i = +ℤ_parts d ((pos 0 -ℤ r) +ℤ n) in
    let j = +ℤ_parts (d +ℤ ((pos 0 -ℤ r) +ℤ n)) (pos (5000 + c)) in
    omega (arith, a, b, e, f, m, g, i, j, h, k)

not_moved : (z d n : ℤ) (c : ℕ) → z ≤ℤ (d +ℤ n) +ℤ pos c → z ≤ℤ (d +ℤ (pos 0 +ℤ n)) +ℤ pos c
not_moved z d n c h =
    let a = +ℤ_parts d n in
    let b = +ℤ_parts (d +ℤ n) (pos c) in
    let g = +ℤ_parts (pos 0) n in
    let i = +ℤ_parts d (pos 0 +ℤ n) in
    let j = +ℤ_parts (d +ℤ (pos 0 +ℤ n)) (pos c) in omega (arith, a, b, g, i, j, h)

proposed-IsShadowed :
    (k : String) (low high : Wallet) (x : ℤ) (s : Shadow) (rest : List RebalanceProposal)
    (s' : Shadow)
    → low.bot_id ≢ high.bot_id
    → pos 5000000 ≤ℤ x
    → IsShadowed k (delta k (transfer high.bot_id low.bot_id x s)) (rest, s')
    → IsShadowed k (delta k s) (proposal high low x ∷ rest, s')
unfolding net slack proposal
proposed-IsShadowed k low high x s rest s' n big h =
    let near = rounded_near x big in
    let step = delta-transfer high.bot_id low.bot_id k x s (λ e. n (sym e)) in
    let z = delta k s' in
    let c = slack k rest in
    let tail = net k rest in
    elim (Bool-cases (low.bot_id == k)) [
      | inl e ↦
          let same = (string_key.same_iff low.bot_id k).0 e in
          let from : z ≤ℤ ((delta k s +ℤ x) +ℤ tail) +ℤ pos c =
            subst (λ d. z ≤ℤ (d +ℤ tail) +ℤ pos c) (ground (arith, step, e, same)) h in
          rw (e) (moved_in z (delta k s) x (round_cents x) tail c from near.1)
      | inr e ↦ elim (Bool-cases (high.bot_id == k)) [
        | inl f ↦
            let same = (string_key.same_iff high.bot_id k).0 f in
            let from : z ≤ℤ ((delta k s -ℤ x) +ℤ tail) +ℤ pos c =
              subst (λ d. z ≤ℤ (d +ℤ tail) +ℤ pos c) (ground (arith, step, e, f, same)) h in
            rw (e, f) (moved_out z (delta k s) x (round_cents x) tail c from near.2)
        | inr f ↦
            let from : z ≤ℤ (delta k s +ℤ tail) +ℤ pos c =
              subst (λ d. z ≤ℤ (d +ℤ tail) +ℤ pos c) (ground (arith, step, e, f)) h in
            rw (e, f) (not_moved z (delta k s) tail c from)
      ]
    ]

-- What the loop keeps: the proposals are proper, the shadow leaves the reserve, and it stands for them.
abbrev IsPlanned :
    Thresholds → ℕ → PairTimes → String → ℤ → ℤ → List RebalanceProposal × Shadow → Type 0
IsPlanned t now times k b d (ps, s') =
    All (IsProper t now times) ps × HasReserve t k b s' × IsShadowed k d (ps, s')

stays_shadowed : (d : ℤ) → d ≤ℤ (d +ℤ pos 0) +ℤ pos 0
stays_shadowed d =
    let p = +ℤ_parts d (pos 0) in let q = +ℤ_parts (d +ℤ pos 0) (pos 0) in omega (arith, p, q)

plan-IsPlanned :
    (t : Thresholds) (now : ℕ) (times : PairTimes) (highs lows : List Wallet) (s : Shadow)
    (k : String) (b : ℤ)
    → All (Balanced k b) highs
    → HasReserve t k b s
    → IsPlanned t now times k b (delta k s) (plan t now times highs lows s)
unfolding plan net slack
plan-IsPlanned t now times highs [] s k b a h = (tt, h, stays_shadowed (delta k s))
plan-IsPlanned t now times highs (low ∷ lows) s k b a h =
    match-cases (IsPlanned t now times k b (delta k s)) (pick_source t now times s low highs)
      (plan t now times highs lows s)
      (λ high.
        let amount = amount_of t (bal high s) (bal low s) in
        let (rest, s') = plan t now times highs lows (transfer high.bot_id low.bot_id amount s) in
        (proposal high low amount ∷ rest, s'))
      (λ e. plan-IsPlanned t now times highs lows s k b a h)
      (λ high e.
        let amount = amount_of t (bal high s) (bal low s) in
        let next = transfer high.bot_id low.bot_id amount s in
        let (rest, s') = plan t now times highs lows next in
        let (balance, source) = pick_source-found (Balanced k b) t now times s low highs high a e in
        let left = transfer-HasReserve t now times s low high k b source balance h in
        let (proper, kept, shadowed) = plan-IsPlanned t now times highs lows next k b a left in
        (
          (proposal-IsProper t now times s low high source, proper),
          kept,
          proposed-IsShadowed k low high amount s rest s' source.other source.worth shadowed,
        ))

nothing_moved : (t : Thresholds) (k : String) (b : ℤ) → t.reserve_usdc ≤ℤ b → HasReserve t k b []
unfolding delta lookup
nothing_moved t k b h = let p = +ℤ_parts b (pos 0) in omega (arith, p, h)

shadow_leaves :
    (k : String) (b reserve : ℤ) (ps : List RebalanceProposal) (s' : Shadow)
    → reserve ≤ℤ b +ℤ delta k s'
    → IsShadowed k (delta k []) (ps, s')
    → reserve ≤ℤ (b +ℤ net k ps) +ℤ pos (slack k ps)
unfolding delta lookup
shadow_leaves k b reserve ps s' h g =
    let a = +ℤ_parts b (delta k s') in
    let c = +ℤ_parts (pos 0) (net k ps) in
    let d = +ℤ_parts (pos 0 +ℤ net k ps) (pos (slack k ps)) in
    let e = +ℤ_parts b (net k ps) in
    let f = +ℤ_parts (b +ℤ net k ps) (pos (slack k ps)) in omega (arith, a, c, d, e, f, h, g)

-- Every proposal is between two different bots that had no transfer between them less than the cooldown
-- ago, and moves at least five dollars. A bot that starts with the reserve has it after all proposals together,
-- less at most half a cent for each proposal to or from it, as the amounts are rounded to cents.
pub propose_rebalances_lem :
    (t : Thresholds) (now : ℕ) (times : PairTimes) (pool : List Wallet) (k : String) (b : ℤ)
    → All (Balanced k b) pool
    → t.reserve_usdc ≤ℤ b
    → let proposals = (propose_rebalances t now times pool).0 in
      All (IsProper t now times) proposals
      × (t.reserve_usdc ≤ℤ (b +ℤ net k proposals) +ℤ pos (slack k proposals))
propose_rebalances_lem t now times pool k b a h =
    let P = Balanced k b in
    let richer = λ (v : Wallet) (w : Wallet). leb_ℤ w.last_known_usdc v.last_known_usdc in
    let rich = λ (w : Wallet). ltb_ℤ t.high w.last_known_usdc in
    let highs : All P (highs_of t pool) =
      unfold highs_of in All-sort richer P (keep rich pool) (All-keep P rich pool a) in
    unfold propose_rebalances in
    let (ps, s') = plan t now times (highs_of t pool) (lows_of t pool) [] in
    let (proper, kept, shadowed) =
      plan-IsPlanned t now times (highs_of t pool) (lows_of t pool) [] k b highs
        (nothing_moved t k b h) in
    (proper, shadow_leaves k b t.reserve_usdc ps s' kept shadowed)
