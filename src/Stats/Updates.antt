-- ===== src/Stats/Updates.antt =====
-- `updateSensorCdevRequestStats`, `updateSensorTempStatsByThreshold` and
-- `updateSensorTempStatsBySeverity`. One reading of the clock stands for those of an update.
use hardware_mediatek.Base.{
  ℕ, Option, none, some, ◌>>=◌, String, ℤ, pos, lookup, insert, if◌then◌else◌, ltb_ℤ,
}
use hardware_mediatek.Floats.{Float}
use hardware_mediatek.ThermalInfo.{ThrottlingSeverity, index}
use hardware_mediatek.Stats.State.{StatsHelper, SensorTempStats, ThermalStats, StatsClient}
use hardware_mediatek.Stats.Records.{update_by_thresholds, update_by_default}
use hardware_mediatek.Stats.Abnormality.{verify_sensor_abnormality}

-- An `int` is its own bucket without thresholds.
abbrev pub int_to_int : ℤ → ℤ
int_to_int v = v

unfoldable pub update_request_stats : ℕ → ℤ → ThermalStats ℤ → Option (ThermalStats ℤ)
update_request_stats now new_value s = do
  custom ← update_by_thresholds int_to_int ltb_ℤ now new_value s.stats_by_custom_threshold
  default ← update_by_default now new_value s.stats_by_default_threshold
  some (record { stats_by_custom_threshold = custom; stats_by_default_threshold = default })

module _ {ℓ} {W : Type ℓ} where
  unfoldable pub update_sensor_cdev_request_stats :
      ℕ → String → String → ℤ → StatsHelper W → Option (StatsHelper W)
  unfolding update_request_stats
  update_sensor_cdev_request_stats now sensor cdev new_value t =
      elim (lookup sensor t.sensor_cdev_request_stats_map) [
        | none ↦ some t
        | some of_sensor ↦ elim (lookup cdev of_sensor) [
          | none ↦ some t
          | some request_stats ↦ do
            request_stats' ← update_request_stats now new_value request_stats
            some (record t {
              sensor_cdev_request_stats_map =
                  insert sensor (insert cdev request_stats' of_sensor)
                    t.sensor_cdev_request_stats_map;
            })
        ]
      ]

  -- `temp_stats_map_[sensor] = s`
  abbrev pub set_temp_stats : String → SensorTempStats W → StatsHelper W → StatsHelper W
  set_temp_stats sensor s t = record t {
    sensor_stats = record t.sensor_stats {
      temp_stats_map = insert sensor s t.sensor_stats.temp_stats_map;
    };
  }

  unfoldable pub update_sensor_temp_stats_by_severity :
      ℕ → String → ThrottlingSeverity → StatsHelper W → Option (StatsHelper W)
  update_sensor_temp_stats_by_severity now sensor severity t =
      elim (lookup sensor t.sensor_stats.temp_stats_map) [
        | none ↦ some t
        | some s ↦ do
          default ← update_by_default now (pos (index severity)) s.stats.stats_by_default_threshold
          some (
              set_temp_stats sensor
                (record s { stats = record s.stats { stats_by_default_threshold = default } }) t)
      ]

module _ {ℓ} {W : Type ℓ} ⦃f : Float W⦄ where
  -- The two extremes, with the time of the wall clock at which they change.
  unfoldable pub update_extremes : ℤ → W → SensorTempStats W → SensorTempStats W
  update_extremes wall temperature s =
      let up = f.lt s.max_temp temperature in
      let down = f.lt temperature s.min_temp in
      record s {
        max_temp = if up then temperature else s.max_temp;
        max_temp_timestamp = if up then wall else s.max_temp_timestamp;
        min_temp = if down then temperature else s.min_temp;
        min_temp_timestamp = if down then wall else s.min_temp_timestamp;
      }

  unfoldable pub update_sensor_temp_stats_by_threshold :
      Option (StatsClient W) → ℕ → ℤ → String → W → StatsHelper W → Option (StatsHelper W)
  unfolding update_extremes
  update_sensor_temp_stats_by_threshold client now wall sensor temperature t =
      let t' = verify_sensor_abnormality client now sensor temperature t in
      elim (lookup sensor t'.sensor_stats.temp_stats_map) [
        | none ↦ some t'
        | some s ↦ do
          custom ←
              update_by_thresholds f.to_int f.lt now temperature s.stats.stats_by_custom_threshold
          let updated = record s { stats = record s.stats { stats_by_custom_threshold = custom } }
          some (set_temp_stats sensor (update_extremes wall temperature updated) t')
      ]
