-- ===== src/Stats/State.antt =====
-- The data of aidl/thermal/utils/thermal_stats_helper.h, and the statistics configuration of
-- aidl/thermal/utils/thermal_info.h.
use hardware_mediatek.Base.{
  ℕ, ◌/◌, suc, Bool, Option, List, String, ℤ, pos, negsuc, Map, replicate, ◌-ℤ◌,
}

-- A time since boot is in nanoseconds; a state is an `int`.
pub record StatsRecord : Type 0 where
  pub cur_state : ℤ
  pub cur_state_start_time : ℕ
  pub last_stats_report_time : ℕ
  pub time_in_state_ms : List ℕ
  pub report_fail_count : ℕ

-- The constructor, at the time `now`.
abbrev pub new_record : ℕ → ℕ → ℤ → StatsRecord
new_record now time_in_state_size state = record {
  cur_state = state;
  cur_state_start_time = now;
  last_stats_report_time = now;
  time_in_state_ms = replicate time_in_state_size 0;
  report_fail_count = 0;
}

pub record ThresholdList {ℓ} (V : Type ℓ) : Type ℓ where
  pub logging_name : Option String
  pub thresholds : List V

pub record StatsByThreshold {ℓ} (V : Type ℓ) : Type ℓ where
  pub thresholds : List V
  pub logging_name : Option String
  pub stats_record : StatsRecord

pub record ThermalStats {ℓ} (V : Type ℓ) : Type ℓ where
  pub stats_by_custom_threshold : List (StatsByThreshold V)
  pub stats_by_default_threshold : Option StatsRecord

-- A wall clock time is in microseconds; the least one is `SystemTimePoint::min()`.
abbrev pub system_time_min : ℤ
system_time_min = negsuc 9_223_372_036_854_775_807

-- `duration_cast` from nanoseconds to milliseconds and `to_time_t`, both towards zero
abbrev pub duration_cast : ℤ → ℤ
duration_cast (pos n) = pos (n / 1_000_000)
duration_cast (negsuc n) = pos 0 -ℤ pos (suc n / 1_000_000)

-- The base class is a field.
pub record SensorTempStats {ℓ} (W : Type ℓ) : Type ℓ where
  pub stats : ThermalStats W
  pub max_temp : W
  pub max_temp_timestamp : ℤ
  pub min_temp : W
  pub min_temp_timestamp : ℤ

pub record TempRangeInfo : Type 0 where
  pub max_temp_threshold : ℤ
  pub min_temp_threshold : ℤ

pub record TempStuckInfo : Type 0 where
  pub min_polling_count : ℤ
  pub min_stuck_duration : ℕ

-- `none` is `time_point::min()`.
pub record CurrTempStatus {ℓ} (W : Type ℓ) : Type ℓ where
  pub temp : W
  pub start_time : Option ℕ
  pub repeat_count : ℕ

pub record SensorStats {ℓ} (W : Type ℓ) : Type ℓ where
  pub temp_stats_map : Map (SensorTempStats W)
  pub temp_range_info_map : Map TempRangeInfo
  pub temp_stuck_info_map : Map TempStuckInfo
  pub curr_temp_status_map : Map (CurrTempStatus W)

pub record StatsHelper {ℓ} (W : Type ℓ) : Type ℓ where
  pub last_total_stats_report_time : ℕ
  pub abnormal_stats_reported_per_update_interval : ℕ
  pub sensor_stats : SensorStats W
  pub sensor_cdev_request_stats_map : Map (Map (ThermalStats ℤ))

-- Which records are kept: for all or none, or for the names of a set.
pub data RecordByDefault : Type 0 where
  all_or_none : Bool → RecordByDefault
  name_set : List String → RecordByDefault

pub record StatsInfo {ℓ} (V : Type ℓ) : Type ℓ where
  pub record_by_default_threshold_all_or_name_set : RecordByDefault
  pub record_by_threshold : Map (List (ThresholdList V))

pub record SensorsTempRangeInfo : Type 0 where
  pub sensors : List String
  pub temp_range_info : TempRangeInfo

pub record SensorsTempStuckInfo : Type 0 where
  pub sensors : List String
  pub temp_stuck_info : TempStuckInfo

pub record AbnormalStatsInfo : Type 0 where
  pub default_temp_range_info : Option TempRangeInfo
  pub sensors_temp_range_infos : List SensorsTempRangeInfo
  pub default_temp_stuck_info : Option TempStuckInfo
  pub sensors_temp_stuck_infos : List SensorsTempStuckInfo

-- `kMaxStatsResidencyCount`, `kMaxAbnormalLoggingPerUpdateInterval`, `kMaxStatsReportingFailCount` and
-- `kUpdateIntervalMs`
abbrev pub max_stats_residency_count : ℕ
max_stats_residency_count = 20

abbrev pub max_abnormal_logging_per_update_interval : ℕ
max_abnormal_logging_per_update_interval = 20

abbrev pub max_stats_reporting_fail_count : ℕ
max_stats_reporting_fail_count = 3

abbrev pub update_interval_ms : ℕ
update_interval_ms = 86_400_000

-- A value of an atom of the stats service.
pub data VendorAtomValue {ℓ} (W : Type ℓ) : Type ℓ where
  string_value : String → VendorAtomValue W
  int_value : ℤ → VendorAtomValue W
  long_value : ℤ → VendorAtomValue W
  float_value : W → VendorAtomValue W

pub data AtomId : Type 0 where
  vendor_temp_residency_stats vendor_sensor_cooling_device_stats : AtomId

pub data AbnormalityType : Type 0 where
  temp_read_fail extreme_low_temp extreme_high_temp sensor_stuck : AbnormalityType

-- The atom of an abnormality has its values at places that generated code numbers.
pub data VendorAtom {ℓ} (W : Type ℓ) : Type ℓ where
  residency : AtomId → List (VendorAtomValue W) → VendorAtom W
  abnormality : AbnormalityType → String → Option ℤ → VendorAtom W

-- What the service answers to each atom: whether it takes it.
abbrev pub StatsClient {ℓ} : Type ℓ → Type ℓ
StatsClient W = VendorAtom W → Bool
