-- ===== src/Reading/Cached.antt =====
-- `readThermalSensor`: the cache, the emulated temperature, and the end of a reading.
use hardware_mediatek.Base.{
  ℕ, zero, suc, ◌*◌, Bool, not, ◌&&◌, Option, none, some, ◌>>=◌, String, pos, lookup, insert,
  if◌then◌else◌,
}
use hardware_mediatek.Floats.{Float}
use hardware_mediatek.ThermalInfo.{SensorInfo, okay, error, is_okay}
use hardware_mediatek.Emulation.{SensorStatus, EmulTemp}
use hardware_mediatek.Stats.Updates.{update_sensor_temp_stats_by_threshold}
use hardware_mediatek.Reading.State.{Inputs, Store, tran_timeout_param, is_since_below, is_set}
use hardware_mediatek.Reading.Sensors.{Read, log, read_composed}

module _ {ℓ} {W E : Type ℓ} ⦃f : Float W⦄ (ins : Inputs W E) where
  -- `*temp` with the last reading mixed in, by the step ratio; `since` is whether that was not too long
  -- ago.
  unfoldable pub smooth : SensorInfo W → Bool → W → W → W
  smooth info since cached temp =
      if not (f.isnan info.step_ratio) && not (f.isnan cached) && since
      then f.add (f.mul info.step_ratio temp)
          (f.mul (f.sub (f.of_int (pos 1)) info.step_ratio) cached)
      else temp

  -- The end of a reading: the cache of the sensor and its statistics. `before` is the status when the
  -- reading began.
  unfoldable pub keep_reading :
      String → SensorInfo W → SensorStatus W → W → Store W E → Option (W × Store W E)
  unfolding smooth
  keep_reading name info before temp s = do
    let now = ins.clock name
    status ← lookup name s.statuses
    let since =
        is_since_below now before.thermal_cached.timestamp (info.passive_delay * tran_timeout_param)
    let temp' = smooth info since status.thermal_cached.temp temp
    let status' : SensorStatus W = record status {
      thermal_cached = record { temp = temp'; timestamp = some now };
    }
    stats ←
        update_sensor_temp_stats_by_threshold ins.client now ins.wall name
          (f.mul temp' info.multiplier) s.stats
    some (
      temp',
      log name temp' (record s { statuses = insert name status' s.statuses; stats = stats }),
    )

  -- A reading that is neither emulated nor cached; the result of a failed one is not kept.
  unfoldable pub read_now :
      (String → Store W E → Read W E)
      → String
      → SensorInfo W
      → SensorStatus W
      → Store W E
      → Read W E
  unfolding read_composed keep_reading
  read_now rec name info before s = do
    (status, written, s') ← read_composed ins rec name info s
    let kept : Read W E = (do
      temp ← written
      (temp', s'') ← keep_reading name info before temp s'
      some (okay, some temp', s''))
    if is_okay status then kept else some (status, none, s')

  -- Whether the reading in the cache is still good.
  unfoldable pub is_cached : Bool → ℕ → SensorInfo W → SensorStatus W → Bool
  is_cached force_no_cache now info status =
      not force_no_cache
      && is_set status.thermal_cached.timestamp
      && is_since_below now status.thermal_cached.timestamp info.time_resolution
      && not (f.isnan status.thermal_cached.temp)

  -- The parameter `rec` is the recursive call, which passes `force_no_cache` on.
  unfoldable pub read_as :
      (String → Store W E → Read W E)
      → Bool
      → String
      → SensorInfo W
      → SensorStatus W
      → Option (EmulTemp W)
      → Store W E
      → Read W E
  unfolding is_cached read_now
  read_as rec force_no_cache name info status (some emul) s =
      some (okay, some emul.temp, log name emul.temp s)
  read_as rec force_no_cache name info status none s =
      let cached = status.thermal_cached.temp in
      let now = read_now rec name info status s in
      if is_cached force_no_cache (ins.clock name) info status
      then some (okay, some cached, log name cached s)
      else now

  unfoldable pub read_known :
      (String → Store W E → Read W E)
      → Bool
      → String
      → SensorInfo W
      → SensorStatus W
      → Store W E
      → Read W E
  unfolding read_as
  read_known rec force_no_cache name info status s =
      read_as rec force_no_cache name info status status.override_status.emul_temp s

  -- The fuel bounds the depth of the recursion; without fuel there is no result.
  unfoldable pub read_thermal_sensor : ℕ → Bool → String → Store W E → Read W E
  unfolding read_known
  read_thermal_sensor zero force_no_cache name s = none
  read_thermal_sensor (suc fuel) force_no_cache name s = elim (lookup name ins.sensor_info_map) [
    | none ↦ some (error, none, s)
    | some info ↦ elim (lookup name s.statuses) [
      | none ↦ some (error, none, s)
      | some status ↦
          read_known (read_thermal_sensor fuel force_no_cache) force_no_cache name info status s
    ]
  ]
