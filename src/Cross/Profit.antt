-- ===== src/Cross/Profit.antt =====
-- A deal between two exchanges pays more than it costs, whichever of its legs wins.
use polymarket_radar.Base.{◌<◌, string_key, nat_key, pair_key}
use polymarket_radar.Base.Frac.{Frac}

abbrev IsPositive : Frac → Type 0
IsPositive x = (0 < x.num) × (0 < x.den)
