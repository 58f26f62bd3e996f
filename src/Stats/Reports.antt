-- ===== src/Stats/Reports.antt =====
-- `reportStats` and what it calls: the records, sent to the stats service and begun again. `now` and
-- `later` are readings of the clock before and after a record is sent.
use Prim.Native.String
use hardware_mediatek.Base.{
  ℕ, zero, suc, ◌+◌, ◌-◌, ◌/◌, ◌%◌, Bool, true, false, Option, none, some, List, [], ◌∷◌, ◌++◌, map,
  ◌>>=◌, String, ℤ, pos, negsuc, sub_ℕ, ltb, Map, if◌then◌else◌, length, replicate, get_elem?,
}
use hardware_mediatek.Floats.{Float}
use hardware_mediatek.Stats.State.{
  StatsRecord, StatsByThreshold, ThermalStats, SensorTempStats, StatsHelper, StatsClient,
  VendorAtomValue, VendorAtom, string_value, long_value, float_value, residency,
  vendor_temp_residency_stats, vendor_sensor_cooling_device_stats, max_stats_residency_count,
  update_interval_ms, duration_cast,
}
use hardware_mediatek.Stats.Records.{
  process_stats_record_for_reporting, restore_stats_record_on_failure,
}

infixr 65 ◌+++◌
abbrev ◌+++◌ : String → String → String
a +++ b = Prim.Native.String.◌++◌ a b

-- `std::to_string`; a number has fewer digits than its successor.
to_digits : ℕ → ℕ → String
to_digits zero n = ""
to_digits (suc fuel) n =
    let front = to_digits fuel (n / 10) in
    let digit : String = elim (get_elem? digits (n % 10)) [ none ↦ "" | some d ↦ d ] in
    if ltb n 10 then digit else front +++ digit
  where
    digits : List String
    digits = "0" ∷ "1" ∷ "2" ∷ "3" ∷ "4" ∷ "5" ∷ "6" ∷ "7" ∷ "8" ∷ "9" ∷ []

-- `logging_name`, or the name with `kCustomThresholdSetSuffix` and the place of the thresholds.
unfoldable pub logging_name_or : Option String → String → ℕ → String
unfolding to_digits
logging_name_or none name i = name +++ "-TH-" +++ to_digits (suc i) i
logging_name_or (some logging_name) name i = logging_name

module _ {ℓ} {W : Type ℓ} where
  abbrev pub long : ℕ → VendorAtomValue W
  long n = long_value (pos n)

  abbrev pub since_last_update : StatsRecord → VendorAtomValue W
  since_last_update r =
      long_value (duration_cast (sub_ℕ r.cur_state_start_time r.last_stats_report_time))

  -- The end of a report, from the record as it was and the processed one: the answer of the service.
  unfoldable pub finish_report :
      StatsClient W → ℕ → ℕ → VendorAtom W → StatsRecord → StatsRecord → Bool × StatsRecord
  finish_report client now later atom before processed =
      if client atom
      then (true, record processed { last_stats_report_time = later })
      else (false, restore_stats_record_on_failure now before)

  unfoldable pub temp_values :
      String → SensorTempStats W → List ℕ → StatsRecord → List (VendorAtomValue W)
  temp_values sensor s time_in_state_ms r =
      string_value sensor
      ∷ since_last_update r
      ∷ (map long time_in_state_ms
          ++ (replicate (max_stats_residency_count - length time_in_state_ms) (long 0)
              ++ (float_value s.max_temp
                  ∷ long_value (duration_cast s.max_temp_timestamp)
                  ∷ float_value s.min_temp
                  ∷ long_value (duration_cast s.min_temp_timestamp)
                  ∷ [])))

  -- More residencies than the atom has room for wrap the padding to a length without bound.
  unfoldable pub temp_atom :
      String → SensorTempStats W → List ℕ → StatsRecord → Option (VendorAtom W)
  unfolding temp_values
  temp_atom sensor s time_in_state_ms r =
      if ltb max_stats_residency_count (length time_in_state_ms)
      then none
      else some (residency vendor_temp_residency_stats (temp_values sensor s time_in_state_ms r))

  unfoldable pub cdev_atom : String → String → List ℕ → StatsRecord → VendorAtom W
  cdev_atom sensor cdev time_in_state_ms r =
      residency vendor_sensor_cooling_device_stats
        (string_value sensor ∷ string_value cdev ∷ since_last_update r ∷ map long time_in_state_ms)

  unfoldable pub report_sensor_temp_stats :
      StatsClient W → ℕ → ℕ → String → SensorTempStats W → StatsRecord → Option (Bool × StatsRecord)
  report_sensor_temp_stats client now later sensor s r = do
    (time_in_state_ms, r') ← process_stats_record_for_reporting now r
    atom ← temp_atom sensor s time_in_state_ms r'
    some (finish_report client now later atom r r')

  unfoldable pub report_sensor_cdev_request_stats :
      StatsClient W → ℕ → ℕ → String → String → StatsRecord → Option (Bool × StatsRecord)
  report_sensor_cdev_request_stats client now later sensor cdev r = do
    (time_in_state_ms, r') ← process_stats_record_for_reporting now r
    let atom = cdev_atom sensor cdev time_in_state_ms r'
    some (finish_report client now later atom r r')

abbrev pub failed : Bool → ℕ
failed done = if done then 0 else 1

unfoldable pub report_default :
    (String → StatsRecord → Option (Bool × StatsRecord))
    → String
    → Option StatsRecord
    → Option (ℕ × Option StatsRecord)
report_default report name none = some (0, none)
report_default report name (some r) = do (done, r') ← report name r; some (failed done, some r')

module _ {ℓ} {V : Type ℓ} (report : String → StatsRecord → Option (Bool × StatsRecord)) where
  -- The loop over the lists of thresholds, from place `i`: the failures, and the records.
  unfoldable pub report_custom :
      String → ℕ → List (StatsByThreshold V) → Option (ℕ × List (StatsByThreshold V))
  report_custom name i [] = some (0, [])
  report_custom name i (s ∷ rest) = do
    (done, r) ← report (logging_name_or s.logging_name name i) s.stats_record
    (count, rest') ← report_custom name (i + 1) rest
    some (failed done + count, record s { stats_record = r } ∷ rest')

  unfoldable pub report_stats : String → ThermalStats V → Option (ℕ × ThermalStats V)
  report_stats name s = do
    (custom_count, custom) ← report_custom name 0 s.stats_by_custom_threshold
    (default_count, default) ← report_default report name s.stats_by_default_threshold
    some (
      custom_count + default_count,
      record { stats_by_custom_threshold = custom; stats_by_default_threshold = default },
    )

-- A loop over a map that counts the failures.
unfoldable pub report_map {ℓ} :
    {V : Type ℓ} → (String → V → Option (ℕ × V)) → Map V → Option (ℕ × Map V)
report_map report [] = some (0, [])
report_map report ((name, v) ∷ rest) = do
  (count, v') ← report name v
  (count', rest') ← report_map report rest
  some (count + count', (name, v') ∷ rest')

module _ {ℓ} {W : Type ℓ} where
  unfoldable pub report_all_sensor_cdev_request_stats :
      StatsClient W → ℕ → ℕ → Map (Map (ThermalStats ℤ)) → Option (ℕ × Map (Map (ThermalStats ℤ)))
  report_all_sensor_cdev_request_stats client now later = report_map (λ sensor.
      report_map (report_stats (report_sensor_cdev_request_stats client now later sensor)))

module _ {ℓ} {W : Type ℓ} ⦃f : Float W⦄ where
  -- The extremes begin again; the times of them stay.
  unfoldable pub report_temp_stats :
      StatsClient W → ℕ → ℕ → String → SensorTempStats W → Option (ℕ × SensorTempStats W)
  report_temp_stats client now later sensor s = do
    let report =
        λ (name : String) (r : StatsRecord). report_sensor_temp_stats client now later name s r
    (count, stats) ← report_stats report sensor s.stats
    some (count, record s { stats = stats; max_temp = f.smallest; min_temp = f.biggest })

  unfoldable pub report_all_sensor_temp_stats :
      StatsClient W → ℕ → ℕ → Map (SensorTempStats W) → Option (ℕ × Map (SensorTempStats W))
  report_all_sensor_temp_stats client now later = report_map (report_temp_stats client now later)

  -- `-1` is that there is no service.
  unfoldable pub send_reports : StatsClient W → ℕ → ℕ → StatsHelper W → Option (ℤ × StatsHelper W)
  send_reports client now later t = do
    (temp_count, temps) ←
        report_all_sensor_temp_stats client now later t.sensor_stats.temp_stats_map
    (cdev_count, cdevs) ←
        report_all_sensor_cdev_request_stats client now later t.sensor_cdev_request_stats_map
    some (
      pos (temp_count + cdev_count),
      record {
        last_total_stats_report_time = now;
        abnormal_stats_reported_per_update_interval = 0;
        sensor_stats = record t.sensor_stats { temp_stats_map = temps };
        sensor_cdev_request_stats_map = cdevs;
      },
    )

  unfoldable pub report_all :
      Option (StatsClient W) → ℕ → ℕ → StatsHelper W → Option (ℤ × StatsHelper W)
  report_all none now later t = some (negsuc 0, t)
  report_all (some client) now later t = send_reports client now later t

  unfoldable pub report_stats_if_due :
      Option (StatsClient W) → ℕ → ℕ → StatsHelper W → Option (ℤ × StatsHelper W)
  unfolding report_all
  report_stats_if_due client now later t =
      if ltb ((now - t.last_total_stats_report_time) / 1_000_000) update_interval_ms
      then some (pos 0, t)
      else report_all client now later t
