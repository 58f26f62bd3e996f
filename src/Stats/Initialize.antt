-- ===== src/Stats/Initialize.antt =====
-- `initializeStats` after the parsing of its configuration: `initializeSensorTempStats`,
-- `initializeSensorCdevRequestStats` and `initializeSensorAbnormalityStats`.
use hardware_mediatek.Base.{
  ℕ, Bool, true, false, ◌&&◌, Option, none, some, List, [], ◌∷◌, ◌>>=◌, String, ℤ, pos, Map, insert,
  contains, if◌then◌else◌,
}
use hardware_mediatek.Floats.{Float}
use hardware_mediatek.ThermalInfo.{SensorInfo, CdevInfo}
use hardware_mediatek.Stats.State.{
  ThresholdList, SensorTempStats, TempRangeInfo, TempStuckInfo, CurrTempStatus, SensorStats,
  StatsHelper, StatsInfo, SensorsTempRangeInfo, SensorsTempStuckInfo, AbnormalStatsInfo, new_record,
  system_time_min,
}
use hardware_mediatek.Stats.Requests.{
  is_record_by_default_threshold, no_stats, add_customs, entry_or,
  initialize_sensor_cdev_request_stats,
}

-- The range and the stuck information of the sensors of a group, and of those without any.
unfoldable pub set_for_all {ℓ} : {V : Type ℓ} → List String → V → Map V → Map V
set_for_all [] v m = m
set_for_all (sensor ∷ sensors) v m = set_for_all sensors v (insert sensor v m)

unfoldable pub set_ranges : List SensorsTempRangeInfo → Map TempRangeInfo → Map TempRangeInfo
set_ranges [] m = m
set_ranges (g ∷ groups) m = set_ranges groups (set_for_all g.sensors g.temp_range_info m)

unfoldable pub set_stucks : List SensorsTempStuckInfo → Map TempStuckInfo → Map TempStuckInfo
set_stucks [] m = m
set_stucks (g ∷ groups) m = set_stucks groups (set_for_all g.sensors g.temp_stuck_info m)

unfoldable pub set_default {ℓ κ} : {V : Type ℓ} {U : Type κ} → Option V → Map U → Map V → Map V
set_default none sensors m = m
set_default (some v) [] m = m
set_default (some v) ((sensor, _) ∷ sensors) m =
    set_default (some v) sensors (if contains sensor m then m else insert sensor v m)

module _ {ℓ} {W : Type ℓ} ⦃f : Float W⦄ where
  -- What a sensor begins with.
  abbrev pub no_temp_stats : SensorTempStats W
  no_temp_stats = record {
    stats = no_stats;
    max_temp = f.smallest;
    max_temp_timestamp = system_time_min;
    min_temp = f.biggest;
    min_temp_timestamp = system_time_min;
  }

  -- `kThrottlingSeverityCount` states
  abbrev pub with_severities : ℕ → SensorTempStats W → SensorTempStats W
  with_severities now s = record s {
    stats = record s.stats { stats_by_default_threshold = some (new_record now 7 (pos 0)) };
  }

  -- The entry of a sensor is there once it has a list.
  abbrev pub with_lists :
      String
      → List (ThresholdList W)
      → SensorTempStats W
      → Map (SensorTempStats W)
      → Map (SensorTempStats W)
  with_lists sensor [] added m = m
  with_lists sensor (_ ∷ _) added m = insert sensor added m

  unfoldable pub initialize_sensor_temp_stats :
      ℕ → StatsInfo W → Map (SensorInfo W) → Map (SensorTempStats W) → Map (SensorTempStats W)
  initialize_sensor_temp_stats now info [] m = m
  initialize_sensor_temp_stats now info ((sensor, sensor_info) ∷ sensors) m =
      let by_severity =
        sensor_info.is_watch
        && is_record_by_default_threshold info.record_by_default_threshold_all_or_name_set sensor in
      let m' : Map (SensorTempStats W) =
        if by_severity
        then insert sensor (with_severities now (entry_or no_temp_stats sensor m)) m
        else m in
      let lists = entry_or [] sensor info.record_by_threshold in
      let s = entry_or no_temp_stats sensor m' in
      let added : SensorTempStats W = record s { stats = add_customs now lists s.stats } in
      initialize_sensor_temp_stats now info sensors (with_lists sensor lists added m')

  abbrev pub unread_status : CurrTempStatus W
  unread_status = record { temp = f.smallest; start_time = none; repeat_count = 0 }

  unfoldable pub set_unread : Map TempStuckInfo → Map (CurrTempStatus W) → Map (CurrTempStatus W)
  set_unread [] m = m
  set_unread ((sensor, _) ∷ stucks) m = set_unread stucks (insert sensor unread_status m)

  unfoldable pub initialize_sensor_abnormality_stats :
      AbnormalStatsInfo → Map (SensorInfo W) → SensorStats W → SensorStats W
  unfolding set_for_all set_ranges set_stucks set_default set_unread
  initialize_sensor_abnormality_stats info sensors t =
      let ranges =
        set_default info.default_temp_range_info sensors
          (set_ranges info.sensors_temp_range_infos t.temp_range_info_map) in
      let stucks =
        set_default info.default_temp_stuck_info sensors
          (set_stucks info.sensors_temp_stuck_infos t.temp_stuck_info_map) in
      record t {
        temp_range_info_map = ranges;
        temp_stuck_info_map = stucks;
        curr_temp_status_map = set_unread stucks t.curr_temp_status_map;
      }

  -- The answers of the two parsers are arguments, `none` for one that fails; a failure part-way
  -- leaves what is done.
  unfoldable pub initialize_stats :
      ℕ
      → Option (StatsInfo W × AbnormalStatsInfo)
      → Option (StatsInfo ℤ)
      → Map (SensorInfo W)
      → Map (CdevInfo W)
      → StatsHelper W
      → Option (Bool × StatsHelper W)
  initialize_stats now none requests sensors cooling t = some (false, t)
  initialize_stats now (some _) none sensors cooling t = some (false, t)
  initialize_stats now (some (temps, abnormal)) (some requests) sensors cooling t = do
    let with_temps : SensorStats W = record t.sensor_stats {
      temp_stats_map = initialize_sensor_temp_stats now temps sensors t.sensor_stats.temp_stats_map;
    }
    (done, m) ←
        initialize_sensor_cdev_request_stats now requests cooling sensors
          t.sensor_cdev_request_stats_map
    let t' = record t { sensor_stats = with_temps; sensor_cdev_request_stats_map = m }
    let ready = record t' {
      last_total_stats_report_time = now;
      abnormal_stats_reported_per_update_interval = 0;
      sensor_stats = initialize_sensor_abnormality_stats abnormal sensors with_temps;
    }
    some (if done then (true, ready) else (false, t'))
