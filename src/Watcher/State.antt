-- ===== src/Watcher/State.antt =====
-- The state of ThermalHelperImpl that the watcher changes, what it takes from outside, and what it
-- gathers on its way through the sensors.
use hardware_mediatek.Base.{ℕ, Bool, Option, List, String, ℤ, pos, Map}
use hardware_mediatek.ThermalInfo.{CdevInfo, Temperature}
use hardware_mediatek.PowerRails.State.{PowerSample, PowerFiles}
use hardware_mediatek.Throttling.State.{ThermalThrottling}
use hardware_mediatek.Reading.State.{Inputs, Store}

pub record Helper {ℓ} (W E : Type ℓ) : Type ℓ where
  pub store : Store W E
  pub throttling : ThermalThrottling W
  pub power_files : PowerFiles W

-- `outside` has what a reading takes, but for the maps of the power rails and of the votes, which are
-- those of the helper. `now` is the clock at the start; `power_read` and `power_again` are what the
-- energy sources hold, `profile` the profile property of a sensor, `predict` the predictions of its
-- estimator, and `has_cb` whether there is a callback.
pub record Call {ℓ} (W E : Type ℓ) : Type ℓ where
  pub outside : Inputs W E
  pub uevent_sensor_map : Map W
  pub now : ℕ
  pub power_read : Option (Map PowerSample)
  pub power_again : Option (Map PowerSample)
  pub rail_clock : String → ℕ
  pub report_later : ℕ
  pub profile : String → String
  pub predict : String → E → List W
  pub has_cb : Bool
  pub cooling_device_info_map : Map (CdevInfo W)
  pub power_rail_switch_map : Map (List String)
  pub prev_power_log_time : Option ℕ

-- The variables of the handler. Times are in milliseconds; what remains of a delay may be negative.
pub record Round {ℓ} (W E : Type ℓ) : Type ℓ where
  pub helper : Helper W E
  pub temps : List (Temperature W)
  pub cooling_devices_to_update : List String
  pub min_sleep_ms : ℤ
  pub power_data_is_updated : Bool
  pub shutdown_severity_reached : Bool

-- `std::chrono::milliseconds::max()`
abbrev pub milliseconds_max : ℤ
milliseconds_max = pos 9_223_372_036_854_775_807

-- `kPowerLogIntervalMs`
abbrev pub power_log_interval_ms : ℕ
power_log_interval_ms = 60_000

-- What the handler leaves: the helper, its answer, the temperatures that are passed on to the callback
-- and to the power HAL, the writes to the cooling devices, and whether the power is logged.
pub record Outcome {ℓ} (W E : Type ℓ) : Type ℓ where
  pub helper : Helper W E
  pub sleep_ms : ℤ
  pub callbacks : List (Temperature W)
  pub power_hints : List (Temperature W)
  pub writes : List (String × ℤ)
  pub logs_power : Bool
