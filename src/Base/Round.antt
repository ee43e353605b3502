-- ===== src/Base/Round.antt =====
-- How Python rounds a quotient: Scripts/executor/builders.py and the figures of Scripts/radar/eval.
use Prim.Native.Nat.{ℕ, suc, ◌+◌, ◌*◌, ◌/◌, ◌%◌, ◌≤◌, ◌<◌}
use mathlib.Core.Path.{◌≡◌}
use native.Mathlib.Nat.{mod-lt, div-add-mod'}
use native.Mathlib.Omega.{arith}
use polymarket_radar.Base.Tests.{ltb, eqb, if◌then◌else◌, if-cases, if-both}

-- Python's `round(n / d)`, which goes to the even neighbour in the middle.
unfoldable pub round_div : ℕ → ℕ → ℕ
round_div n d =
    let q = n / d in
    let r = n % d in
    if ltb (2 * r) d then q else if ltb d (2 * r) then suc q else if eqb (q % 2) 0 then q else suc q

-- `q` is `n / d` to the nearest whole number.
abbrev pub IsNearest : ℕ → ℕ → ℕ → Type 0
IsNearest q n d = (2 * (q * d) ≤ 2 * n + d) × (2 * n ≤ 2 * (q * d) + d)

rounds_down : (q r n d : ℕ) → q * d + r ≡ n → 2 * r ≤ d → IsNearest q n d
rounds_down q r n d e h = omega arith

rounds_up : (q r n d : ℕ) → q * d + r ≡ n → r < d → d ≤ 2 * r → IsNearest (suc q) n d
rounds_up q r n d e l h = omega arith

pub round_div-IsNearest : (n d : ℕ) → 0 < d → IsNearest (round_div n d) n d
unfolding round_div
round_div-IsNearest n d h =
    let P : ℕ → Type 0 = λ x. IsNearest x n d in
    let down = rounds_down (n / d) (n % d) n d (div-add-mod' n d) in
    let up = rounds_up (n / d) (n % d) n d (div-add-mod' n d) (mod-lt n h) in
    if-cases P (ltb (2 * (n % d)) d) _ _ (λ a. down (ground arith))
      (λ a.
        if-cases P (ltb d (2 * (n % d))) _ _ (λ b. up (ground arith))
          (λ b. if-both P (eqb (n / d % 2) 0) _ _ (down (ground arith)) (up (ground arith))))
