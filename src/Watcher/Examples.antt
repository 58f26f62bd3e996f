-- ===== src/Watcher/Examples.antt =====
-- A call of the watcher: a sensor has cooled down, and takes back its request for the fan.
use hardware_mediatek.Base.{
  ◌>>=◌, contains, ℕ, pos, ◌≤ℤ◌, ◌-ℤ◌, ◌+ℤ◌, ◌*ℤ◌, ◌≡◌, refl, ◌≤◌, true, false, none, some, arith,
  [], ◌∷◌, lookup, insert, map_values, mem_name,
}
use hardware_mediatek.Floats.{Whole, whole_float}
use hardware_mediatek.Severity.{get_severity_from_thresholds}
use hardware_mediatek.PowerRails.Average.{
  refresh_power_status, refresh_rails, update_energy_values, store_samples,
}
use hardware_mediatek.Throttling.State.{ThermalThrottling, ThermalThrottlingStatus, fresh_status}
use hardware_mediatek.Throttling.Votes.{
  count, erase, insert_vote, get_cdev_max_request, update_cdev_max_request_and_notify_if_change,
}
use hardware_mediatek.Throttling.Tally.{votes_of, unit_at, tally}
use hardware_mediatek.Throttling.Consistency.{IsConsistent, requests}
use hardware_mediatek.Throttling.Register.{clear_throttling_data, cleared}
use hardware_mediatek.Throttling.Request.{
  request_state, compute_cooling_devices_request, compute_entries, entry_request, vote,
}
use hardware_mediatek.Throttling.Samples.{asking, fan, fans, num, sensor_info}
use hardware_mediatek.Cooling.{request_for, update_cooling_devices}
use hardware_mediatek.Emulation.{SensorStatus}
use hardware_mediatek.Stats.Abnormality.{verify_sensor_abnormality, report_thermal_abnormality}
use hardware_mediatek.Stats.Updates.{
  update_sensor_temp_stats_by_threshold, update_sensor_temp_stats_by_severity,
  update_sensor_cdev_request_stats,
}
use hardware_mediatek.Stats.Reports.{report_stats_if_due, report_all}
use hardware_mediatek.Reading.Sensors.{read_composed, read_parts}
use hardware_mediatek.Reading.Cached.{
  read_thermal_sensor, read_known, read_as, is_cached, read_now, keep_reading, smooth,
}
use hardware_mediatek.Reading.Temperatures.{
  read_temperature, conclude, get_severity_reference, refer, settle_if, settle, judge,
  emulated_severity,
}
use hardware_mediatek.Reading.Samples.{inputs, store, status}
use hardware_mediatek.Watcher.State.{Helper, Call, Outcome, milliseconds_max}
use hardware_mediatek.Watcher.Due.{
  decide, decide_by_time, first_sleep, is_triggered, on_event, has_event, store_events,
}
use hardware_mediatek.Watcher.Respond.{
  respond, notify, refresh_once, throttle, request, record_requests, switch_rails,
}
use hardware_mediatek.Watcher.Rounds.{
  watch_sensors, watch_sensor, handle, select, finish, thermal_watcher_callback_func,
}
use hardware_mediatek.Watcher.Failed.{IsWoken}
use hardware_mediatek.Watcher.Wakes.{thermal_watcher_callback_func-IsWoken}
use hardware_mediatek.Watcher.Writes.{
  thermal_watcher_callback_func-IsConsistent, thermal_watcher_callback_func_covers,
}

abbrev asking_one : ThermalThrottlingStatus Whole
asking_one = record fresh_status {
  hardlimit_cdev_request_map = ("fan", pos 1) ∷ [];
  cdev_status_map = ("fan", pos 1) ∷ [];
}

abbrev both : ThermalThrottling Whole
both = record {
  thermal_throttling_status_map = ("cpu", asking) ∷ ("skin", asking_one) ∷ [];
  cdev_all_request_map = ("fan", pos 2 ∷ pos 1 ∷ []) ∷ [];
}

both-IsConsistent : IsConsistent both
unfolding lookup votes_of requests tally unit_at count
both-IsConsistent = record {
  ordered = λ c. ground arith;
  covered = λ c v. ground arith;
  exact = λ c v ne. ground arith;
}

abbrev helper : Helper Whole ℕ
helper = record {
  store = record store { statuses = ("cpu", status) ∷ [] };
  throttling = both;
  power_files = record { energy_info_map = []; power_status_map = []; power_rail_info_map = [] };
}

abbrev call : Call Whole ℕ
call = record {
  outside = record inputs { sensor_info_map = ("cpu", sensor_info) ∷ [] };
  uevent_sensor_map = [];
  now = 7_000_000;
  power_read = some [];
  power_again = some [];
  rail_clock = λ rail. 7_000_000;
  report_later = 8_000_000;
  profile = λ sensor. "";
  predict = λ sensor e. [];
  has_cb = true;
  cooling_device_info_map = fans;
  power_rail_switch_map = [];
  prev_power_log_time = none;
}

-- The request of the other sensor stays.
abbrev left : ThermalThrottling Whole
left = record {
  thermal_throttling_status_map =
      ("cpu", record (cleared asking) { cdev_status_map = ("fan", pos 0) ∷ [] })
      ∷ ("skin", asking_one)
      ∷ [];
  cdev_all_request_map = ("fan", pos 1 ∷ pos 0 ∷ []) ∷ [];
}

abbrev read_status : SensorStatus Whole
read_status = record status {
  last_update_time = some 7_000_000;
  thermal_cached = record { temp = num 3; timestamp = some 7_000_000 };
}

abbrev outcome : Outcome Whole ℕ
outcome = record {
  helper = record {
    store = record store {
      statuses = ("cpu", read_status) ∷ [];
      sensor_log_map = ("cpu", num 3) ∷ [];
    };
    throttling = left;
    power_files = helper.power_files;
  };
  sleep_ms = pos 1_000;
  callbacks = [];
  power_hints = [];
  writes = ("fan", pos 1) ∷ [];
  logs_power = false;
}

ran : thermal_watcher_callback_func call helper ≡ some outcome
unfolding thermal_watcher_callback_func watch_sensors watch_sensor handle select finish respond
    notify refresh_once throttle request record_requests switch_rails decide decide_by_time
    first_sleep is_triggered on_event has_event store_events read_temperature conclude
    get_severity_reference refer settle_if settle judge emulated_severity read_thermal_sensor
    read_known read_as is_cached read_now keep_reading smooth read_composed read_parts
    update_sensor_temp_stats_by_threshold update_sensor_temp_stats_by_severity
    update_sensor_cdev_request_stats verify_sensor_abnormality report_stats_if_due report_all
    request_for update_cooling_devices request_state compute_cooling_devices_request compute_entries
    entry_request vote clear_throttling_data get_cdev_max_request
    update_cdev_max_request_and_notify_if_change erase insert_vote refresh_power_status
    refresh_rails update_energy_values store_samples get_severity_from_thresholds lookup insert
    map_values mem_name ◌-ℤ◌ ◌+ℤ◌ ◌*ℤ◌
ran = refl

thermal_watcher_callback_func-IsConsistent_example : IsConsistent left
thermal_watcher_callback_func-IsConsistent_example =
    thermal_watcher_callback_func-IsConsistent call helper outcome both-IsConsistent ran

skin_found : lookup "skin" left.thermal_throttling_status_map ≡ some asking_one
unfolding lookup
skin_found = refl

fan_found : lookup "fan" fans ≡ some fan
unfolding lookup
fan_found = refl

asks : 1 ≤ tally "fan" (pos 1) asking_one.cdev_status_map
unfolding tally unit_at
asks = omega arith

thermal_watcher_callback_func_covers_example : pos 1 ≤ℤ pos 1
thermal_watcher_callback_func_covers_example =
    thermal_watcher_callback_func_covers call helper outcome 0 "fan" "skin" (pos 1) (pos 1) fan
      asking_one both-IsConsistent ran refl fan_found refl skin_found asks

cpu_known : contains "cpu" helper.store.statuses ≡ true
unfolding lookup
cpu_known = refl

cpu_configured : lookup "cpu" call.outside.sensor_info_map ≡ some sensor_info
unfolding lookup
cpu_configured = refl

thermal_watcher_callback_func-IsWoken_example : IsWoken call helper "cpu" sensor_info (pos 1_000)
thermal_watcher_callback_func-IsWoken_example =
    thermal_watcher_callback_func-IsWoken call helper outcome "cpu" sensor_info ran cpu_known
      cpu_configured refl

-- Where the reading of the only sensor fails, nothing bounds the sleep.
abbrev failing : Call Whole ℕ
failing = record call { outside = record call.outside { read_file = λ name. none } }

asleep :
    (thermal_watcher_callback_func failing helper >>= λ out. some out.sleep_ms)
    ≡ some milliseconds_max
unfolding thermal_watcher_callback_func watch_sensors watch_sensor handle select finish decide
    decide_by_time first_sleep is_triggered on_event has_event store_events read_temperature
    read_thermal_sensor read_known read_as is_cached read_now read_composed read_parts
    report_thermal_abnormality report_stats_if_due report_all update_cooling_devices lookup insert
asleep = refl
