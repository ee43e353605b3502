-- ===== src/Base/Frac.antt =====
-- Exact fractions in place of the floats that a division gives. A float that is not negative is a
-- fraction of natural numbers; nothing is said of a fraction over 0.
use Prim.Native.Nat.{ℕ, ◌+◌, ◌*◌, ◌≤◌, ◌<◌}
use mathlib.Core.Bool.{Bool}
use polymarket_radar.Base.Tests.{ltb}

pub record Frac : Type 0 where
  pub num : ℕ
  pub den : ℕ

abbrev pub whole : ℕ → Frac
whole n = record { num = n; den = 1 }

infixl 65 ◌+/◌
infixl 70 ◌*/◌ ◌//◌
abbrev pub ◌+/◌ : Frac → Frac → Frac
a +/ b = record { num = a.num * b.den + b.num * a.den; den = a.den * b.den }

abbrev pub ◌*/◌ : Frac → Frac → Frac
a */ b = record { num = a.num * b.num; den = a.den * b.den }

abbrev pub ◌//◌ : Frac → Frac → Frac
a // b = record { num = a.num * b.den; den = a.den * b.num }

abbrev pub ltb_frac : Frac → Frac → Bool
ltb_frac a b = ltb (a.num * b.den) (b.num * a.den)

infix 50 ◌≤/◌ ◌</◌
abbrev pub ◌≤/◌ : Frac → Frac → Type 0
a ≤/ b = a.num * b.den ≤ b.num * a.den

abbrev pub ◌</◌ : Frac → Frac → Type 0
a </ b = a.num * b.den < b.num * a.den
