-- ===== src/Paper.antt =====
-- Scripts/paper_trading.py: the gate between paper trading and real money. A profit or loss and a drift
-- are in units of $0.0001. The means of slippage and the median, which only the dashboard shows, are
-- left out.
mod Tests
use polymarket_radar.Base.{
  ℕ, suc, ◌-◌, ◌*◌, String, Bool, true, false, ◌&&◌, ◌||◌, Option, none, some, List, [], ◌∷◌, ◌++◌,
  keep, length, drop, count, is_empty, eqb, ltb, if◌then◌else◌, ◌==◌, string_key,
}
use polymarket_radar.Base.Int.{ℤ, pos, ◌+ℤ◌, ltb_ℤ}

-- A row of paper_results.jsonl, by what the gate reads: the reasons of its legs, a leg that is not an
-- object having none.
pub record PaperRow : Type 0 where
  pub legs : List (Option String)
  pub realistic_pnl_5s : Option ℤ
  pub drift : Option ℤ

-- `GRADUATION_MIN_TRADES`, `FIRST_REAL_TRADES_COUNT` and `FIRST_REAL_LEG_SIZE_USDC`
abbrev pub graduation_min_trades : ℕ
graduation_min_trades = 50

abbrev pub first_real_trades_count : ℕ
first_real_trades_count = 10

abbrev pub first_real_leg_size_usdc : ℕ
first_real_leg_size_usdc = 5

-- `rows[-window_n:]`
abbrev pub last_rows {ℓ} : {A : Type ℓ} → ℕ → List A → List A
last_rows window_n rows = if eqb window_n 0 then rows else drop (length rows - window_n) rows

-- A leg was fired on paper or filled.
abbrev pub is_clean_leg : Option String → Bool
is_clean_leg none = true
is_clean_leg (some reason) = reason == "" || reason == "dry-fired" || reason == "filled"

-- `_row_is_clean`
unfoldable pub all_clean : List (Option String) → Bool
all_clean [] = true
all_clean (leg ∷ legs) = is_clean_leg leg && all_clean legs

abbrev pub row_is_clean : PaperRow → Bool
row_is_clean r = all_clean r.legs

-- `(r.get('realistic_pnl_5s') or 0) > 0.005`
abbrev pub is_win : PaperRow → Bool
is_win r = elim r.realistic_pnl_5s [ none ↦ false | some pnl ↦ ltb_ℤ (pos 50) pnl ]

-- `drifts`
unfoldable pub drifts : List PaperRow → List ℤ
drifts [] = []
drifts (r ∷ rows) = let rest = drifts rows in elim r.drift [ none ↦ rest | some d ↦ d ∷ rest ]

unfoldable pub sum_ℤ : List ℤ → ℤ
sum_ℤ [] = pos 0
sum_ℤ (d ∷ ds) = d +ℤ sum_ℤ ds

pub data Blocker : Type 0 where
  no_clean_trades : Blocker
  more_trades : ℕ → Blocker
  win_rate_low : Blocker
  drift_high : Blocker

-- `GraduationStatus`, whose rates are a number of wins and a sum of drifts with their counts.
pub record GraduationStatus : Type 0 where
  pub trades : ℕ
  pub wins : ℕ
  pub drift_sum : ℤ
  pub drift_count : ℕ
  pub ready : Bool
  pub blockers : List Blocker

-- The condition of each blocker: a win rate below 70 %, and a mean drift above $0.20.
abbrev pub is_win_rate_low : ℕ → ℕ → Bool
is_win_rate_low wins n = ltb (10 * wins) (7 * n)

abbrev pub is_drift_high : ℤ → ℕ → Bool
is_drift_high total n = if eqb n 0 then false else ltb_ℤ (pos (2000 * n)) total

abbrev pub blocked : Bool → Blocker → List Blocker
blocked b x = if b then x ∷ [] else []

-- `graduation_status`, on the rows of the file.
unfoldable pub graduation_status : ℕ → List PaperRow → GraduationStatus
graduation_status window_n file =
    let rows = keep row_is_clean (last_rows window_n file) in
    let n = length rows in
    let wins = count is_win rows in
    let ds = drifts rows in
    let total = sum_ℤ ds in
    let blockers =
      blocked (ltb n graduation_min_trades) (more_trades (graduation_min_trades - n))
      ++ blocked (is_win_rate_low wins n) win_rate_low
      ++ blocked (is_drift_high total (length ds)) drift_high in
    if eqb n 0
    then record {
      trades = 0;
      wins = 0;
      drift_sum = pos 0;
      drift_count = 0;
      ready = false;
      blockers = no_clean_trades ∷ [];
    }
    else record {
      trades = n;
      wins = wins;
      drift_sum = total;
      drift_count = length ds;
      ready = is_empty blockers;
      blockers = blockers;
    }

-- `first_real_trade_size_usdc`
pub first_real_trade_size_usdc : ℕ → Option ℕ
first_real_trade_size_usdc real_trade_count =
    if ltb real_trade_count first_real_trades_count then some first_real_leg_size_usdc else none
