-- ===== src/Stats/Abnormality.antt =====
-- `reportThermalAbnormality` and `verifySensorAbnormality`: readings that are out of range or stuck.
use hardware_mediatek.Base.{
  ℕ, ◌+◌, ◌-◌, ◌/◌, Bool, true, false, ◌&&◌, Option, none, some, String, ℤ, pos, leb, leb_ℤ, lookup,
  insert, if◌then◌else◌,
}
use hardware_mediatek.Floats.{Float}
use hardware_mediatek.Stats.State.{
  StatsHelper, TempRangeInfo, TempStuckInfo, CurrTempStatus, StatsClient, AbnormalityType,
  extreme_low_temp, extreme_high_temp, sensor_stuck, abnormality,
  max_abnormal_logging_per_update_interval,
}

-- Whether the time since the start has reached the duration: the time since `time_point::min()` wraps
-- to a negative one.
unfoldable pub stuck_for : ℕ → ℕ → Option ℕ → Bool
stuck_for now duration none = false
stuck_for now duration (some start) = leb duration ((now - start) / 1_000_000)

module _ {ℓ} {W : Type ℓ} where
  -- `none` for the client is that the service is not there.
  unfoldable pub report_thermal_abnormality :
      Option (StatsClient W)
      → AbnormalityType
      → String
      → Option ℤ
      → StatsHelper W
      → Bool × StatsHelper W
  report_thermal_abnormality client type name reading t =
      let reported = record t {
        abnormal_stats_reported_per_update_interval =
            t.abnormal_stats_reported_per_update_interval + 1;
      } in
      if leb max_abnormal_logging_per_update_interval t.abnormal_stats_reported_per_update_interval
      then (true, t)
      else elim client [
        | none ↦ (false, t)
        | some report_atom ↦
            if report_atom (abnormality type name reading) then (true, reported) else (false, t)
      ]

module _ {ℓ} {W : Type ℓ} ⦃f : Float W⦄ where
  -- `kPrecisionThreshold`, 1e-4
  abbrev pub precision_threshold : W
  precision_threshold = f.div (f.of_int (pos 1)) (f.of_int (pos 10_000))

  unfoldable pub verify_range :
      Option (StatsClient W) → String → W → TempRangeInfo → StatsHelper W → StatsHelper W
  verify_range client sensor temp info t =
      if f.lt temp (f.of_int info.min_temp_threshold)
      then (report_thermal_abnormality client extreme_low_temp sensor (some (f.lround temp)) t).1
      else if f.lt (f.of_int info.max_temp_threshold) temp
      then (report_thermal_abnormality client extreme_high_temp sensor (some (f.lround temp)) t).1
      else t

  -- `resetCurrentTempStatus`
  abbrev pub reset_current_temp_status : ℕ → W → CurrTempStatus W
  reset_current_temp_status now new_temp = record {
    temp = new_temp;
    start_time = some now;
    repeat_count = 1;
  }

  abbrev pub set_status : String → CurrTempStatus W → StatsHelper W → StatsHelper W
  set_status sensor status t = record t {
    sensor_stats = record t.sensor_stats {
      curr_temp_status_map = insert sensor status t.sensor_stats.curr_temp_status_map;
    };
  }

  -- `curr_temp_status_map_[sensor]`, which an absent entry begins with zeros
  abbrev pub current_status : String → StatsHelper W → CurrTempStatus W
  current_status sensor t = elim (lookup sensor t.sensor_stats.curr_temp_status_map) [
    | none ↦ record { temp = f.of_int (pos 0); start_time = some 0; repeat_count = 0 }
    | some status ↦ status
  ]

  -- `temp` is the reading again: it counts, and is reported if it has stayed long enough.
  unfoldable pub repeat_reading :
      Option (StatsClient W)
      → ℕ
      → String
      → W
      → TempStuckInfo
      → CurrTempStatus W
      → StatsHelper W
      → StatsHelper W
  unfolding stuck_for
  repeat_reading client now sensor temp info status t =
      let again = record status { repeat_count = status.repeat_count + 1 } in
      let counted = set_status sensor again t in
      let (done, t') =
        report_thermal_abnormality client sensor_stuck sensor (some (f.lround temp)) counted in
      if leb_ℤ info.min_polling_count (pos again.repeat_count)
        && stuck_for now info.min_stuck_duration status.start_time
      then if done then set_status sensor (reset_current_temp_status now temp) t' else t'
      else counted

  unfoldable pub verify_stuck :
      Option (StatsClient W) → ℕ → String → W → TempStuckInfo → StatsHelper W → StatsHelper W
  unfolding repeat_reading
  verify_stuck client now sensor temp info t =
      let status = current_status sensor t in
      if f.le (f.fabs (f.sub status.temp temp)) precision_threshold
      then repeat_reading client now sensor temp info status t
      else set_status sensor (reset_current_temp_status now temp) t

  unfoldable pub verify_sensor_abnormality :
      Option (StatsClient W) → ℕ → String → W → StatsHelper W → StatsHelper W
  unfolding verify_range verify_stuck
  verify_sensor_abnormality client now sensor temp t =
      let t' : StatsHelper W = elim (lookup sensor t.sensor_stats.temp_range_info_map) [
        | none ↦ t
        | some info ↦ verify_range client sensor temp info t
      ] in
      elim (lookup sensor t.sensor_stats.temp_stuck_info_map) [
        | none ↦ t'
        | some info ↦ verify_stuck client now sensor temp info t'
      ]
