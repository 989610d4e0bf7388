-- ===== src/Amounts.antt =====
-- src/AmountRequired.ts, with the listener's calls counted. The name and the description, which are
-- only logged, are left out.
use rif_relay_server.Base.{ℕ, ◌+◌, Bool, leb, ◌==◌, if◌then◌else◌}

pub record AmountRequired : Type 0 where
  pub current_value : ℕ
  pub required_value : ℕ
  pub notified : ℕ

abbrev pub amount_required : ℕ → AmountRequired
amount_required required = record { current_value = 0; required_value = required; notified = 0 }

-- `isSatisfied`.
abbrev pub is_satisfied : AmountRequired → Bool
is_satisfied a = leb a.required_value a.current_value

-- `_onChange`, without its message.
abbrev pub on_change : AmountRequired → AmountRequired
on_change a = record a { notified = a.notified + 1 }

-- The setter of `currentValue`.
unfoldable pub set_current_value : ℕ → AmountRequired → AmountRequired
set_current_value new_value a =
    let changed = record a { current_value = new_value } in
    if a.current_value == new_value then changed else on_change changed

-- The setter of `requiredValue`.
unfoldable pub set_required_value : ℕ → AmountRequired → AmountRequired
set_required_value new_value a =
    let changed = record a { required_value = new_value } in
    if a.required_value == new_value then changed else on_change changed
