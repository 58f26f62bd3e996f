-- ===== src/ThermalInfo.antt =====
-- aidl/thermal/utils/thermal_info.h, and the severities of the Thermal AIDL interface: what the
-- configuration says of sensors, cooling devices and throttling, over any type of floats.
mod Severities
pub use Severities.{
  ThrottlingSeverity, index, last_index, severity_of, severities, severities_down, sev_lt, sev_le,
  sev_eq, max_sev, index_injective, severity_of-index, index-le_last,
}
use hardware_mediatek.Base.{ℕ, Bool, true, false, Option, List, String, ℤ, Map}

abbrev pub ThrottlingArray {ℓ} : Type ℓ → Type ℓ
ThrottlingArray W = ThrottlingSeverity → W

abbrev pub CdevArray : Type 0
CdevArray = ThrottlingSeverity → ℤ

pub data FormulaOption : Type 0 where
  count_threshold weighted_avg maximum minimum : FormulaOption
  use_ml_model use_linear_model previously_predicted : FormulaOption

pub data SensorFusionType : Type 0 where
  sensor odpm constant cdev : SensorFusionType

pub data SensorReadStatus : Type 0 where
  okay under_collecting error : SensorReadStatus

-- `status == SensorReadStatus::OKAY` and `status != SensorReadStatus::ERROR`
abbrev pub is_okay : SensorReadStatus → Bool
is_okay okay = true
is_okay under_collecting = false
is_okay error = false

abbrev pub is_answered : SensorReadStatus → Bool
is_answered okay = true
is_answered under_collecting = true
is_answered error = false

pub data ReleaseLogic : Type 0 where
  increase decrease stepwise release_to_floor no_logic : ReleaseLogic

pub record BindedCdevInfo {ℓ} (W : Type ℓ) : Type ℓ where
  pub limit_info : CdevArray
  pub power_thresholds : ThrottlingArray W
  pub release_logic : ReleaseLogic
  pub cdev_weight_for_pid : ThrottlingArray W
  pub cdev_ceiling : CdevArray
  pub max_release_step : ℤ
  pub max_throttle_step : ℤ
  pub cdev_floor_with_power_link : CdevArray
  pub power_rail : String
  pub high_power_check : Bool
  pub throttling_with_power_link : Bool
  pub enabled : Bool

pub record ThrottlingInfo {ℓ} (W : Type ℓ) : Type ℓ where
  pub k_po : ThrottlingArray W
  pub k_pu : ThrottlingArray W
  pub k_io : ThrottlingArray W
  pub k_iu : ThrottlingArray W
  pub k_d : ThrottlingArray W
  pub i_max : ThrottlingArray W
  pub max_alloc_power : ThrottlingArray W
  pub min_alloc_power : ThrottlingArray W
  pub s_power : ThrottlingArray W
  pub i_cutoff : ThrottlingArray W
  pub i_default : W
  pub i_default_pct : W
  pub tran_cycle : ℤ
  pub excluded_power_info_map : Map (ThrottlingArray W)
  pub binded_cdev_info_map : Map (BindedCdevInfo W)
  pub profile_map : Map (Map (BindedCdevInfo W))

pub record VirtualSensorInfo {ℓ} (W : Type ℓ) : Type ℓ where
  pub linked_sensors : List String
  pub linked_sensors_type : List SensorFusionType
  pub coefficients : List String
  pub coefficients_type : List SensorFusionType
  pub offset : W
  pub trigger_sensors : List String
  pub formula : FormulaOption
  pub backup_sensor : String

pub record PredictorInfo {ℓ} (W : Type ℓ) : Type ℓ where
  pub sensor : String
  pub support_pid_compensation : Bool
  pub prediction_weights : List W
  pub k_p_compensate : ThrottlingArray W
  pub supports_predictions : Bool
  pub prediction_sample_interval : ℤ
  pub num_prediction_samples : ℤ
  pub prediction_duration : ℤ

-- Null pointers are `none`. Delays are in milliseconds.
pub record SensorInfo {ℓ} (W : Type ℓ) : Type ℓ where
  pub hot_thresholds : ThrottlingArray W
  pub cold_thresholds : ThrottlingArray W
  pub hot_hysteresis : ThrottlingArray W
  pub cold_hysteresis : ThrottlingArray W
  pub severity_reference : List String
  pub multiplier : W
  pub polling_delay : ℕ
  pub passive_delay : ℕ
  pub time_resolution : ℕ
  pub step_ratio : W
  pub send_cb : Bool
  pub send_powerhint : Bool
  pub is_watch : Bool
  pub is_hidden : Bool
  pub virtual_sensor_info : Option (VirtualSensorInfo W)
  pub throttling_info : Option (ThrottlingInfo W)
  pub predictor_info : Option (PredictorInfo W)

pub record CdevInfo {ℓ} (W : Type ℓ) : Type ℓ where
  pub state2power : List W
  pub max_state : ℤ
  pub apply_powercap : Bool
  pub multiplier : W

-- `Temperature` of the Thermal AIDL interface.
pub record Temperature {ℓ} (W : Type ℓ) : Type ℓ where
  pub name : String
  pub value : W
  pub throttling_status : ThrottlingSeverity
