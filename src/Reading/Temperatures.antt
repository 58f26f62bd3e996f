-- ===== src/Reading/Temperatures.antt =====
-- `readTemperature`, which judges a reading, `getSeverityReference`, which reads other sensors for it,
-- and `fillCurrentTemperatures`.
use hardware_mediatek.Base.{
  ℕ, zero, suc, Bool, true, false, not, ◌&&◌, ◌||◌, Option, none, some, List, [], ◌∷◌, ◌>>=◌,
  String, pos, negsuc, Map, lookup, insert, if◌then◌else◌, is_empty,
}
use hardware_mediatek.Floats.{Float}
use hardware_mediatek.ThermalInfo.{
  ThrottlingSeverity, SensorInfo, SensorReadStatus, Temperature, okay, error, is_okay, is_answered,
  severity_of, sev_lt, sev_eq, max_sev,
}
use hardware_mediatek.Severity.{get_severity_from_thresholds}
use hardware_mediatek.Emulation.{SensorStatus, EmulTemp}
use hardware_mediatek.Stats.State.{temp_read_fail}
use hardware_mediatek.Stats.Abnormality.{report_thermal_abnormality}
use hardware_mediatek.Stats.Updates.{update_sensor_temp_stats_by_severity}
use hardware_mediatek.Reading.State.{Inputs, Store, reading_depth}
use hardware_mediatek.Reading.Cached.{read_thermal_sensor}

-- The emulated severity, where there is one; one that the enumeration does not have faults.
unfoldable pub emulated_severity {ℓ} :
    {W : Type ℓ} → Option (EmulTemp W) → ThrottlingSeverity → Option ThrottlingSeverity
emulated_severity none severity = some severity
emulated_severity (some e) severity = elim e.severity [
  | pos n ↦ severity_of n
  | negsuc _ ↦ some severity
]

abbrev pub set_severity {ℓ} :
    {W : Type ℓ}
    → ThrottlingSeverity
    → ThrottlingSeverity
    → ThrottlingSeverity
    → SensorStatus W
    → SensorStatus W
set_severity hot cold severity status = record status {
  prev_hot_severity = hot;
  prev_cold_severity = cold;
  severity = severity;
  pending_notification = not (sev_eq status.severity severity) || status.pending_notification;
}

module _ {ℓ} {W : Type ℓ} ⦃f : Float W⦄ where
  -- The severity of a value of a watched sensor, and the status with it. `reference` is the severity of
  -- the sensors that it refers to.
  unfoldable pub judge :
      SensorInfo W
      → ThrottlingSeverity
      → W
      → SensorStatus W
      → Option (ThrottlingSeverity × SensorStatus W)
  unfolding emulated_severity
  judge info reference value status = do
    let (hot, cold) =
        get_severity_from_thresholds info.hot_thresholds info.cold_thresholds info.hot_hysteresis
          info.cold_hysteresis status.prev_hot_severity status.prev_cold_severity value
    let judged = if sev_lt cold hot then hot else cold
    severity ← emulated_severity status.override_status.emul_temp (max_sev judged reference)
    some (severity, set_severity hot cold severity status)

-- The answer of `readTemperature`, and `*out` where it is written.
abbrev pub TemperatureRead {ℓ} : Type ℓ → Type ℓ → Type ℓ
TemperatureRead W E = Option (SensorReadStatus × Option (Temperature W) × Store W E)

module _ {ℓ} {W E : Type ℓ} where
  -- The loop of `getSeverityReference`, where `rec` is `readTemperature`; `target` is what it found.
  unfoldable pub refer :
      (String → Store W E → TemperatureRead W E)
      → List String
      → ThrottlingSeverity
      → Store W E
      → Option (ThrottlingSeverity × Store W E)
  refer rec [] target s = some (target, s)
  refer rec (name ∷ names) target s = do
    (status, read, s') ← rec name s
    let go : Option (ThrottlingSeverity × Store W E) = (do
      temp ← read
      refer rec names (max_sev target temp.throttling_status) s')
    let stop : Option (ThrottlingSeverity × Store W E) = some (ThrottlingSeverity.none, s')
    if is_okay status then go else stop

module _ {ℓ} {W E : Type ℓ} ⦃f : Float W⦄ (ins : Inputs W E) where
  unfoldable pub get_severity_reference :
      (String → Store W E → TemperatureRead W E)
      → String
      → Store W E
      → Option (ThrottlingSeverity × Store W E)
  unfolding refer
  get_severity_reference rec name s = elim (lookup name ins.sensor_info_map) [
    | none ↦ some (ThrottlingSeverity.none, s)
    | some info ↦ refer rec info.severity_reference ThrottlingSeverity.none s
  ]

  -- The end for a watched sensor.
  unfoldable pub settle :
      String → SensorInfo W → ThrottlingSeverity → W → Store W E → TemperatureRead W E
  unfolding judge
  settle name info reference value s = do
    status ← lookup name s.statuses
    (severity, status') ← judge info reference value status
    stats ← update_sensor_temp_stats_by_severity (ins.clock name) name severity s.stats
    let out : Temperature W = record { name = name; value = value; throttling_status = severity }
    some (okay, some out, record s { statuses = insert name status' s.statuses; stats = stats })

  -- With whether the sensor is watched: one that is not has no severity.
  unfoldable pub settle_if :
      Bool → String → SensorInfo W → ThrottlingSeverity → W → Store W E → TemperatureRead W E
  unfolding settle
  settle_if true name info reference value s = settle name info reference value s
  settle_if false name info reference value s =
      let out : Temperature W = record {
        name = name;
        value = value;
        throttling_status = ThrottlingSeverity.none;
      } in
      some (okay, some out, s)

  -- After a reading.
  unfoldable pub conclude :
      (String → Store W E → TemperatureRead W E) → String → W → Store W E → TemperatureRead W E
  unfolding get_severity_reference settle_if
  conclude rec name temp s = do
    (reference, s') ← get_severity_reference rec name s
    info ← lookup name ins.sensor_info_map
    settle_if info.is_watch name info reference (f.mul temp info.multiplier) s'

  -- A failed reading is reported.
  abbrev pub report_failure : String → Store W E → Store W E
  report_failure name s = record s {
    stats = (report_thermal_abnormality ins.client temp_read_fail name none s.stats).1;
  }

  -- The fuel bounds the depth of the references; a sensor without a status faults.
  unfoldable pub read_temperature : ℕ → Bool → String → Store W E → TemperatureRead W E
  unfolding conclude
  read_temperature zero force_no_cache name s = none
  read_temperature (suc fuel) force_no_cache name s = do
    _ ← lookup name s.statuses
    (status, written, s') ←
        read_thermal_sensor ins (reading_depth ins.sensor_info_map) force_no_cache name
          (record s { sensor_log_map = [] })
    let judged : TemperatureRead W E = (do
      temp ← written
      let concluded = conclude (read_temperature fuel false) name temp s'
      if f.isnan temp then some (error, none, s') else concluded)
    let failed = if is_answered status then s' else report_failure name s'
    if is_okay status then judged else some (status, none, failed)

  -- The loop of `fillCurrentTemperatures`; `wanted` is whether the type of a sensor, its callback and
  -- its visibility let it pass. The answer is whether there is a temperature.
  unfoldable pub fill_temperatures :
      (SensorInfo W → Bool)
      → Map (SensorInfo W)
      → Store W E
      → Option (List (Temperature W) × Store W E)
  fill_temperatures wanted [] s = some ([], s)
  fill_temperatures wanted ((name, info) ∷ infos) s = do
    let skip = fill_temperatures wanted infos s
    let take : Option (List (Temperature W) × Store W E) = (do
      (status, read, s') ← read_temperature (reading_depth ins.sensor_info_map) false name s
      (temps, s'') ← fill_temperatures wanted infos s'
      some (elim read [ none ↦ temps | some temp ↦ temp ∷ temps ], s''))
    if wanted info then take else skip

  unfoldable pub fill_current_temperatures :
      (SensorInfo W → Bool) → Bool → Store W E → Option (Bool × List (Temperature W) × Store W E)
  unfolding fill_temperatures
  fill_current_temperatures of_type filter_callback s = do
    let wanted = λ (info : SensorInfo W).
        not info.is_hidden && of_type info && (not filter_callback || info.send_cb)
    (temps, s') ← fill_temperatures wanted ins.sensor_info_map s
    some (not (is_empty temps), temps, s')
