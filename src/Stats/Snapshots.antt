-- ===== src/Stats/Snapshots.antt =====
-- `GetSensorTempStatsSnapshot` and `GetSensorCoolingDeviceRequestStatsSnapshot`: copies of the records
-- with the time of the current state added.
use hardware_mediatek.Base.{ℕ, Option, none, some, List, [], ◌∷◌, ◌>>=◌, ℤ, Map}
use hardware_mediatek.Stats.State.{
  StatsRecord, StatsByThreshold, ThermalStats, SensorTempStats, StatsHelper,
}
use hardware_mediatek.Stats.Records.{update_stats_record}

-- "update the last unclosed entry and start new record with same state"
abbrev pub close_record : ℕ → StatsRecord → Option StatsRecord
close_record now r = update_stats_record now r.cur_state r

-- A loop over a map that may fault.
unfoldable pub map_faulting {ℓ} : {V : Type ℓ} → (V → Option V) → Map V → Option (Map V)
map_faulting change [] = some []
map_faulting change ((name, v) ∷ rest) = do
  v' ← change v
  rest' ← map_faulting change rest
  some ((name, v') ∷ rest')

unfoldable pub close_default : ℕ → Option StatsRecord → Option (Option StatsRecord)
close_default now none = some none
close_default now (some r) = do r' ← close_record now r; some (some r')

module _ {ℓ} {V : Type ℓ} where
  unfoldable pub close_custom : ℕ → List (StatsByThreshold V) → Option (List (StatsByThreshold V))
  close_custom now [] = some []
  close_custom now (s ∷ rest) = do
    r ← close_record now s.stats_record
    rest' ← close_custom now rest
    some (record s { stats_record = r } ∷ rest')

  unfoldable pub close_stats : ℕ → ThermalStats V → Option (ThermalStats V)
  close_stats now s = do
    custom ← close_custom now s.stats_by_custom_threshold
    default ← close_default now s.stats_by_default_threshold
    some (record { stats_by_custom_threshold = custom; stats_by_default_threshold = default })

module _ {ℓ} {W : Type ℓ} where
  unfoldable pub get_sensor_temp_stats_snapshot :
      ℕ → StatsHelper W → Option (Map (SensorTempStats W))
  get_sensor_temp_stats_snapshot now t =
      map_faulting (λ s. do stats ← close_stats now s.stats; some (record s { stats = stats }))
        t.sensor_stats.temp_stats_map

  unfoldable pub get_sensor_cooling_device_request_stats_snapshot :
      ℕ → StatsHelper W → Option (Map (Map (ThermalStats ℤ)))
  get_sensor_cooling_device_request_stats_snapshot now t =
      map_faulting (map_faulting (close_stats now)) t.sensor_cdev_request_stats_map
