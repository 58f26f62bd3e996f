-- ===== src/Stats/Examples.antt =====
-- The statistics of a sensor with a list of thresholds and a record by severity, and of a fan.
use hardware_mediatek.Base.{
  ℕ, ℤ, pos, ◌≡◌, refl, ◌≤◌, ◌<◌, ◌+◌, ◌*◌, Bool, true, false, none, some, lookup, arith, List, [],
  ◌∷◌, String, length, get_elem?, All,
}
use hardware_mediatek.Floats.{Whole, whole_float}
use hardware_mediatek.Stats.State.{
  StatsRecord, StatsByThreshold, ThermalStats, SensorTempStats, StatsHelper, StatsClient,
  VendorAtom, StatsInfo, AbnormalStatsInfo, all_or_none, name_set, new_record,
  max_abnormal_logging_per_update_interval,
}
use hardware_mediatek.Stats.Records.{
  update_stats_record, upper_bound, process_stats_record_for_reporting,
}
use hardware_mediatek.Stats.Updates.{
  update_sensor_cdev_request_stats, update_sensor_temp_stats_by_threshold,
}
use hardware_mediatek.Stats.Reports.{temp_atom, report_sensor_temp_stats}
use hardware_mediatek.Throttling.Samples.{fan, fans, sensor_info, throttling}
use hardware_mediatek.Stats.Initialize.{initialize_stats}
use hardware_mediatek.Stats.Initialized.{HasStates, initialize_stats-IsSound}
use hardware_mediatek.Stats.Residency.{
  run_changes, spent_in, run_changes-spent_in, run_changes_total, Change, IsIn, sum, end_of,
}
use hardware_mediatek.Stats.Limited.{count_of}
use hardware_mediatek.Stats.Fitting.{Fits}
use hardware_mediatek.Stats.Sound.{
  IsSound, update_sensor_cdev_request_stats-IsSound, update_sensor_temp_stats_by_threshold-IsSound,
}
use hardware_mediatek.Stats.Reporting.{Reported, report_sensor_temp_stats_lem}
use hardware_mediatek.Stats.Sent.{Sent}

abbrev num : ℕ → Whole
num n = some (pos n)

abbrev ms : ℕ → ℕ
ms n = n * 1_000_000

-- A record of three states that begins at 5 ms in the first.
abbrev start : StatsRecord
start = new_record (ms 5) 3 (pos 0)

abbrev changes : List Change
changes = (ms 15, 2) ∷ (ms 18, 0) ∷ (ms 25, 1) ∷ []

changed :
    run_changes changes start
    ≡ some (record start {
      cur_state = pos 1;
      cur_state_start_time = ms 25;
      time_in_state_ms = 17 ∷ 0 ∷ 3 ∷ [];
    })
unfolding run_changes update_stats_record
changed = refl

start-IsIn : IsIn 0 start
start-IsIn = (refl, omega arith)

within : All (λ (c : Change). c.1 < 3) changes
within = (omega arith, (omega arith, (omega arith, tt)))

-- A value at a threshold is above it.
buckets :
    (upper_bound whole_float.to_int whole_float.lt (num 30 ∷ num 40 ∷ []) (num 29) ≡ 0)
    × (upper_bound whole_float.to_int whole_float.lt (num 30 ∷ num 40 ∷ []) (num 30) ≡ 1)
    × (upper_bound whole_float.to_int whole_float.lt (num 30 ∷ num 40 ∷ []) (num 40) ≡ 2)
unfolding upper_bound
buckets = (refl, refl, refl)

run_changes-spent_in_example :
    (r' : StatsRecord) × (run_changes changes start ≡ some r')
    × (get_elem? r'.time_in_state_ms 0 ≡ some (0 + spent_in 0 0 (ms 5) changes))
    × (length r'.time_in_state_ms ≡ 3)
run_changes-spent_in_example = run_changes-spent_in changes 0 0 0 start start-IsIn within refl

run_changes_total_example :
    (r' : StatsRecord) × (run_changes changes start ≡ some r')
    × (r'.cur_state_start_time ≡ end_of (ms 5) changes)
    × (sum r'.time_in_state_ms * 1_000_000 + ms 5
        ≤ sum start.time_in_state_ms * 1_000_000 + end_of (ms 5) changes)
    × (sum start.time_in_state_ms * 1_000_000 + end_of (ms 5) changes
        ≤ sum r'.time_in_state_ms * 1_000_000 + ms 5 + length changes * 1_000_000)
run_changes_total_example =
    run_changes_total changes 0 start start-IsIn within
      (omega arith, (omega arith, (omega arith, tt)))

abbrev by_threshold : StatsByThreshold Whole
by_threshold = record {
  thresholds = num 30 ∷ num 40 ∷ [];
  logging_name = none;
  stats_record = start;
}

abbrev by_severity : StatsRecord
by_severity = new_record (ms 5) 7 (pos 0)

abbrev temp_stats : SensorTempStats Whole
temp_stats = record {
  stats = record {
    stats_by_custom_threshold = by_threshold ∷ [];
    stats_by_default_threshold = some by_severity;
  };
  max_temp = whole_float.smallest;
  max_temp_timestamp = pos 0;
  min_temp = whole_float.biggest;
  min_temp_timestamp = pos 0;
}

abbrev fan_stats : ThermalStats ℤ
fan_stats = record { stats_by_custom_threshold = []; stats_by_default_threshold = some start }

-- A sensor that is watched for readings out of range or stuck, before its 20th abnormality.
abbrev stats : ℕ → StatsHelper Whole
stats reported = record {
  last_total_stats_report_time = ms 5;
  abnormal_stats_reported_per_update_interval = reported;
  sensor_stats = record {
    temp_stats_map = ("cpu", temp_stats) ∷ [];
    temp_range_info_map =
        ("cpu", record { max_temp_threshold = pos 90; min_temp_threshold = pos 10 }) ∷ [];
    temp_stuck_info_map =
        ("cpu", record { min_polling_count = pos 2; min_stuck_duration = 4 }) ∷ [];
    curr_temp_status_map =
        ("cpu", record { temp = num 95; start_time = some (ms 5); repeat_count = 1 }) ∷ [];
  };
  sensor_cdev_request_stats_map = ("cpu", ("fan", fan_stats) ∷ []) ∷ [];
}

abbrev states_of : String → ℕ
states_of cdev = 3

start-Fits : Fits 3 start
start-Fits = (0, refl, omega arith, refl)

by_severity-Fits : Fits 7 by_severity
by_severity-Fits = (0, refl, omega arith, refl)

pub stats-IsSound : (reported : ℕ) → IsSound states_of (stats reported)
stats-IsSound reported = record {
  temps = ((((refl, omega arith, start-Fits), tt), by_severity-Fits), tt);
  requests = (((tt, start-Fits), tt), tt);
}

abbrev takes : StatsClient Whole
takes atom = true

abbrev refuses : StatsClient Whole
refuses atom = false

update_sensor_cdev_request_stats-IsSound_example :
    (t' : StatsHelper Whole) × (update_sensor_cdev_request_stats
        (ms 15)
        "cpu"
        "fan"
        (pos 2)
        (stats 0)
      ≡ some t')
    × IsSound states_of t'
    × (count_of t' ≡ count_of (stats 0))
update_sensor_cdev_request_stats-IsSound_example =
    update_sensor_cdev_request_stats-IsSound (ms 15) 2 "cpu" "fan" states_of (stats 0)
      (stats-IsSound 0) (omega arith)

-- The 20th abnormality is still reported.
update_sensor_temp_stats_by_threshold-IsSound_example :
    (t' : StatsHelper Whole) × (update_sensor_temp_stats_by_threshold
        (some takes)
        (ms 15)
        (pos 9)
        "cpu"
        (num 95)
        (stats 19)
      ≡ some t')
    × IsSound states_of t'
    × (count_of t' ≤ max_abnormal_logging_per_update_interval)
update_sensor_temp_stats_by_threshold-IsSound_example =
    update_sensor_temp_stats_by_threshold-IsSound (some takes) (ms 15) (pos 9) "cpu" (num 95)
      states_of (stats 19) (stats-IsSound 19) (omega arith)

report_sensor_temp_stats_lem_example :
    (times : List ℕ) × (p : StatsRecord) × (atom : VendorAtom Whole) × (r' : StatsRecord)
    × (process_stats_record_for_reporting (ms 15) start ≡ some (times, p))
    × (temp_atom "cpu" temp_stats times p ≡ some atom)
    × (report_sensor_temp_stats refuses (ms 15) (ms 16) "cpu" temp_stats start
        ≡ some (refuses atom, r'))
    × Reported (ms 15) (ms 16) (refuses atom) start r'
    × Fits 3 r'
report_sensor_temp_stats_lem_example =
    report_sensor_temp_stats_lem refuses (ms 15) (ms 16) 3 "cpu" temp_stats start start-Fits
      (omega arith)

-- One sensor that is recorded by severity and by two thresholds, and its fan by all of its states.
abbrev temp_info : StatsInfo Whole
temp_info = record {
  record_by_default_threshold_all_or_name_set = all_or_none true;
  record_by_threshold =
      ("cpu", record { logging_name = none; thresholds = num 30 ∷ num 40 ∷ [] } ∷ []) ∷ [];
}

abbrev request_info : StatsInfo ℤ
request_info = record {
  record_by_default_threshold_all_or_name_set = name_set ("fan" ∷ []);
  record_by_threshold =
      ("fan", record { logging_name = some "high"; thresholds = pos 2 ∷ [] } ∷ []) ∷ [];
}

abbrev abnormal_info : AbnormalStatsInfo
abnormal_info = record {
  default_temp_range_info = none;
  sensors_temp_range_infos = [];
  default_temp_stuck_info = some (record { min_polling_count = pos 2; min_stuck_duration = 4 });
  sensors_temp_stuck_infos = [];
}

abbrev unset : StatsHelper Whole
unset = record {
  last_total_stats_report_time = 0;
  abnormal_stats_reported_per_update_interval = 0;
  sensor_stats = record {
    temp_stats_map = [];
    temp_range_info_map = [];
    temp_stuck_info_map = [];
    curr_temp_status_map = [];
  };
  sensor_cdev_request_stats_map = [];
}

fan_states : HasStates fans (λ _. 4) "fan"
unfolding lookup
fan_states = (fan, 3, refl, refl, refl)

initialize_stats-IsSound_example :
    (done : Bool) × (t' : StatsHelper Whole) × (initialize_stats
        (ms 5)
        (some (temp_info, abnormal_info))
        (some request_info)
        (("cpu", sensor_info) ∷ [])
        fans
        unset
      ≡ some (done, t'))
    × IsSound (λ _. 4) t'
    × (done ≡ true → count_of t' ≡ 0)
initialize_stats-IsSound_example =
    initialize_stats-IsSound (ms 5) temp_info abnormal_info request_info (("cpu", sensor_info) ∷ [])
      fans (λ _. 4) unset (((refl, omega arith), tt), tt) (((refl, omega arith), tt), tt)
      ((throttling, refl, (fan_states, tt)), tt) refl refl
