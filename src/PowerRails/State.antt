-- ===== src/PowerRails/State.antt =====
-- The data of aidl/thermal/utils/power_files.h and the power rails of aidl/thermal/utils/thermal_info.h.
use hardware_mediatek.Base.{ℕ, ℤ, Bool, Option, List, String, Map}
use hardware_mediatek.ThermalInfo.{FormulaOption}

pub record PowerSample : Type 0 where
  pub energy_counter : ℕ
  pub duration : ℕ

-- Times are in nanoseconds since boot, and a delay in milliseconds; `none` is `time_point::min()`. A queue is the list of its
-- elements, the front first.
pub record PowerStatus {ℓ} (W : Type ℓ) : Type ℓ where
  pub last_update_time : Option ℕ
  pub power_history : List (List PowerSample)
  pub last_updated_avg_power : W
  pub enabled : Bool

pub record VirtualPowerRailInfo {ℓ} (W : Type ℓ) : Type ℓ where
  pub linked_power_rails : List String
  pub coefficients : List W
  pub offset : W
  pub formula : FormulaOption

pub record PowerRailInfo {ℓ} (W : Type ℓ) : Type ℓ where
  pub power_sample_count : ℤ
  pub power_sample_delay : ℕ
  pub virtual_power_rail_info : Option (VirtualPowerRailInfo W)

pub record PowerFiles {ℓ} (W : Type ℓ) : Type ℓ where
  pub energy_info_map : Map PowerSample
  pub power_status_map : Map (PowerStatus W)
  pub power_rail_info_map : Map (PowerRailInfo W)
