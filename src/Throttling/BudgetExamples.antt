-- ===== src/Throttling/BudgetExamples.antt =====
-- The power budget of the idle sensor, twelve degrees too hot.
use hardware_mediatek.Base.{
  pos, negsuc, some, ◌≡◌, refl, arith, ◌+ℤ◌, ◌-ℤ◌, ◌*ℤ◌, lookup, contains, String, [], ◌∷◌,
}
use hardware_mediatek.Floats.{Whole, whole_float, Whole-IsOrdered}
use hardware_mediatek.ThermalInfo.{ThrottlingSeverity}
use hardware_mediatek.Throttling.State.{ThermalThrottlingStatus}
use hardware_mediatek.Throttling.Pid.{
  target_loop, get_target_state_of_pid, retarget, throttle_flags, compute_budget, initial_i_budget,
  integrate, limit_i_budget, derivative, compensation, default_i_budget, compute_excluded_power,
  settle_transient, update_power_budget,
}
use hardware_mediatek.Throttling.Budget.{
  IsSettled, IsAllowed, update_power_budget-IsAllowed, default_i_budget_same,
}
use hardware_mediatek.Throttling.Examples.{update}
use hardware_mediatek.Throttling.Samples.{num, idle, throttling, bound, fans}

abbrev cooled : ThermalThrottlingStatus Whole
cooled = record idle {
  prev_err = some (negsuc 11);
  prev_target = ThrottlingSeverity.critical;
  prev_power_budget = num 1;
}

cools : update_power_budget update idle ≡ some (num 1, cooled)
unfolding update_power_budget compute_budget get_target_state_of_pid target_loop retarget
    throttle_flags initial_i_budget integrate limit_i_budget derivative compensation
    compute_excluded_power settle_transient lookup ◌+ℤ◌ ◌-ℤ◌ ◌*ℤ◌
cools = refl

idle-IsSettled : IsSettled Whole-IsOrdered ThrottlingSeverity.severe idle throttling
unfolding get_target_state_of_pid target_loop retarget
idle-IsSettled = (refl, refl, refl, refl)

update_power_budget-IsAllowed_example :
    IsAllowed Whole-IsOrdered ThrottlingSeverity.severe (num 1) throttling
update_power_budget-IsAllowed_example =
    update_power_budget-IsAllowed Whole-IsOrdered update throttling idle (num 1, cooled) refl refl
      idle-IsSettled cools

same_devices :
    (c : String) → contains c (("fan", pos 3 ∷ []) ∷ []) ≡ contains c (("fan", pos 0 ∷ []) ∷ [])
unfolding lookup
same_devices c = ground arith

-- The same default for a request of 3 as for none.
default_i_budget_same_example :
    default_i_budget bound fans (("fan", pos 3 ∷ []) ∷ []) (num 0)
    ≡ default_i_budget bound fans (("fan", pos 0 ∷ []) ∷ []) (num 0)
default_i_budget_same_example =
    default_i_budget_same bound fans (("fan", pos 3 ∷ []) ∷ []) (("fan", pos 0 ∷ []) ∷ []) (num 0)
      same_devices
