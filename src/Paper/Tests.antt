-- ===== src/Paper/Tests.antt =====
-- The gate at concrete files.
use polymarket_radar.Base.{ℕ, zero, suc, ◌≡◌, refl, true, some, none, List, [], ◌∷◌}
use polymarket_radar.Base.Int.{pos, negsuc, ◌+ℤ◌}
use polymarket_radar.Paper.{PaperRow, drifts, sum_ℤ, all_clean, graduation_status}

abbrev won : PaperRow
won = record {
  legs = some "dry-fired" ∷ none ∷ [];
  realistic_pnl_5s = some (pos 3000);
  drift = some (negsuc 400);
}

abbrev times : ℕ → List PaperRow
times zero = []
times (suc n) = won ∷ times n

abbrev fifty : List PaperRow
fifty = times 50

fifty-ready : (graduation_status 50 fifty).ready ≡ true
unfolding graduation_status all_clean drifts sum_ℤ ◌+ℤ◌
fifty-ready = refl

abbrev lost : PaperRow
lost = record { legs = []; realistic_pnl_5s = some (negsuc 900000); drift = some (negsuc 900000) }
