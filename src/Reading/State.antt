-- ===== src/Reading/State.antt =====
-- What a reading of a sensor changes, and what it takes from outside.
use hardware_mediatek.Base.{
  ℕ, suc, ◌-◌, ◌/◌, Bool, true, false, Option, none, some, List, String, ℤ, Map, length, ltb,
}
use hardware_mediatek.ThermalInfo.{SensorInfo}
use hardware_mediatek.PowerRails.State.{PowerStatus}
use hardware_mediatek.Predictions.{ThermalPredictions}
use hardware_mediatek.Emulation.{Statuses}
use hardware_mediatek.Stats.State.{StatsHelper, StatsClient}

-- `VtEstimatorStatus` of aidl/thermal/virtualtemp_estimator.
pub data VtEstimatorStatus : Type 0 where
  ok invalid_args init_failed invoke_failed un_supported : VtEstimatorStatus
  low_confidence under_sampling : VtEstimatorStatus

-- What a reading takes and does not change. `E` is the state of the estimators of virtual sensors.
-- `clock` is the reading of the clock when a sensor is read. `read_file` is the number in the file of a
-- sensor, or `none` where it cannot be read or is empty. `uninitialized` is what a variable holds before
-- it is written.
pub record Inputs {ℓ} (W E : Type ℓ) : Type ℓ where
  pub sensor_info_map : Map (SensorInfo W)
  pub power_status_map : Map (PowerStatus W)
  pub cdev_all_request_map : Map (List ℤ)
  pub read_file : String → Option W
  pub atof : String → W
  pub has_estimator : String → Bool
  pub estimate : String → List W → E → VtEstimatorStatus × List W × E
  pub client : Option (StatsClient W)
  pub clock : String → ℕ
  pub wall : ℤ
  pub uninitialized : W

-- What a reading changes. `sensor_log_map` is that of the reading under way.
pub record Store {ℓ} (W E : Type ℓ) : Type ℓ where
  pub statuses : Statuses W
  pub stats : StatsHelper W
  pub predictions : ThermalPredictions W
  pub estimators : E
  pub sensor_log_map : Map W

-- `kTranTimeoutParam`
abbrev pub tran_timeout_param : ℕ
tran_timeout_param = 2

-- Whether the time since a reading is below a delay in milliseconds: the time since `time_point::min()`
-- wraps to a negative one.
abbrev pub is_since_below : ℕ → Option ℕ → ℕ → Bool
is_since_below now none delay = true
is_since_below now (some timestamp) delay = ltb ((now - timestamp) / 1_000_000) delay

abbrev pub is_set : Option ℕ → Bool
is_set none = false
is_set (some _) = true

-- Enough fuel where the sensors that a sensor reads have a lower rank: one more than the sensors.
abbrev pub reading_depth {ℓ} : {W : Type ℓ} → Map (SensorInfo W) → ℕ
reading_depth infos = suc (length infos)
