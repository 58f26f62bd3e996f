-- ===== src/Reading/Examples.antt =====
-- Readings of the virtual sensor of the samples.
use hardware_mediatek.Base.{
  ◌≡◌, refl, true, false, some, arith, ◌>>=◌, ◌*ℤ◌, ◌+ℤ◌, lookup, insert, contains, ℕ, ◌≤◌, List,
  String, not, is_empty, All, ◌&&◌, ◌||◌,
}
use hardware_mediatek.Floats.{Whole, whole_float}
use hardware_mediatek.ThermalInfo.{ThrottlingSeverity, Temperature}
use hardware_mediatek.Reading.State.{Store, reading_depth}
use hardware_mediatek.PowerRails.Average.{combine}
use hardware_mediatek.Severity.{get_severity_from_thresholds}
use hardware_mediatek.Throttling.Samples.{num}
use hardware_mediatek.Stats.Abnormality.{verify_sensor_abnormality}
use hardware_mediatek.Stats.Updates.{
  update_sensor_temp_stats_by_threshold, update_sensor_temp_stats_by_severity,
}
use hardware_mediatek.Reading.Sensors.{
  read_data_by_type, read_value, read_linked, weigh, read_weighted, read_formula, read_virtual,
  read_parts, read_composed,
}
use hardware_mediatek.Reading.Cached.{
  read_thermal_sensor, read_known, read_as, is_cached, read_now, keep_reading, smooth,
}
use hardware_mediatek.Reading.Temperatures.{
  read_temperature, fill_current_temperatures, conclude, get_severity_reference, refer, settle_if,
  settle, judge, emulated_severity,
}
use hardware_mediatek.Reading.Safe.{Keeps, Gives, HasValue}
use hardware_mediatek.Reading.Readings.{read_thermal_sensor-Gives}
use hardware_mediatek.Reading.Filled.{HasEach, IsWanted, fill_current_temperatures-Gives}
use hardware_mediatek.Reading.Total.{read_temperature-Gives}
use hardware_mediatek.Reading.Samples.{
  infos, inputs, store, states_of, rank, inputs-IsWell, inputs-IsReferring, store-IsReady,
}

read_thermal_sensor-Gives_example :
    Gives HasValue states_of store
      (read_thermal_sensor inputs (reading_depth infos) false "skin" store)
read_thermal_sensor-Gives_example =
    read_thermal_sensor-Gives inputs rank states_of (reading_depth infos) false "skin" store
      inputs-IsWell (omega arith) store-IsReady.safe

skin_known : contains "skin" infos ≡ true
unfolding lookup
skin_known = refl

read_temperature-Gives_example :
    Gives HasValue states_of store
      (read_temperature inputs (reading_depth infos) false "skin" store)
read_temperature-Gives_example =
    read_temperature-Gives inputs rank states_of (reading_depth infos) rank false "skin" store
      inputs-IsWell inputs-IsReferring skin_known (omega arith) store-IsReady

-- Twice the reading and the offset, with the severity of the sensor that it refers to.
skin_value :
    (read_temperature inputs (reading_depth infos) false "skin" store >>= (λ out. some out.1))
    ≡ some (
        some
          (record { name = "skin"; value = num 7; throttling_status = ThrottlingSeverity.severe }))
unfolding read_temperature read_thermal_sensor read_known read_as is_cached read_now read_composed
    read_parts read_virtual read_formula read_linked read_value read_data_by_type read_weighted
    weigh keep_reading smooth conclude get_severity_reference refer settle_if settle judge
    get_severity_from_thresholds emulated_severity lookup insert
    update_sensor_temp_stats_by_severity update_sensor_temp_stats_by_threshold
    verify_sensor_abnormality combine ◌*ℤ◌ ◌+ℤ◌
skin_value = refl

rank_bounded : (name : String) → rank name ≤ 2
rank_bounded name = ground arith

infos-HasEach : HasEach infos infos
unfolding lookup
infos-HasEach = (refl, (refl, tt))

fill_current_temperatures-Gives_example :
    (temps : List (Temperature Whole)) × (s' : Store Whole ℕ) × (fill_current_temperatures inputs
        (λ _. true)
        false
        store
      ≡ some (not (is_empty temps), temps, s'))
    × Keeps states_of store s'
    × All (IsWanted infos (λ info. not info.is_hidden && true && (not false || info.send_cb))) temps
fill_current_temperatures-Gives_example =
    fill_current_temperatures-Gives inputs rank rank states_of inputs-IsWell inputs-IsReferring
      rank_bounded (λ _. true) false store infos-HasEach store-IsReady
