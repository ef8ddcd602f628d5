-- ===== src/Regulator/Params.antt =====
-- transports/regulator/params.go. Times are nanoseconds; the mutex makes each access one step.
use wfdef.Prelude.{ℕ, ◌-◌, ltb, leb, ◌==◌, if◌then◌else◌}

pub record ServerParams : Type 0 where
  pub last_send : ℕ
  pub target_rate : ℕ
  pub padding_budget : ℕ

abbrev pub set_last_send : ServerParams → ℕ → ServerParams
set_last_send sp now = record sp { last_send = now }

abbrev pub set_target_rate : ServerParams → ℕ → ServerParams
set_target_rate sp rate = record sp { target_rate = rate }

-- `draw` is what `utils.Uniform(0, n)` gives.
abbrev pub set_padding_budget : ServerParams → ℕ → ServerParams
set_padding_budget sp draw = record sp { padding_budget = draw }

-- `CalTargetRateWithLast`, for a `decayed` that is not negative; the rate is 0 if the clock went
-- back.
unfoldable pub cal_target_rate_with_last : (ℕ → ℕ → ℕ) → ℕ → ℕ → ℕ → ℕ
cal_target_rate_with_last decayed last_time current_time r =
    if leb last_time current_time
    then (let rate = decayed r (current_time - last_time) in if ltb rate 1 then 1 else rate)
    else 0

unfoldable pub cal_target_rate : (ℕ → ℕ → ℕ) → ServerParams → ℕ → ℕ → ServerParams
cal_target_rate decayed sp current_time r =
    let rate = cal_target_rate_with_last decayed sp.last_send current_time r in
    if sp.target_rate == rate then sp else set_target_rate sp rate

-- `ConsumePaddingBudget`, where it returns true if the budget is positive.
unfoldable pub consume_padding_budget : ServerParams → ServerParams
consume_padding_budget sp =
    if ltb 0 sp.padding_budget then record sp { padding_budget = sp.padding_budget - 1 } else sp

unfoldable pub init : ServerParams → ℕ → ℕ → ℕ → ServerParams
init sp r draw now = set_last_send (set_padding_budget (set_target_rate sp r) draw) now
