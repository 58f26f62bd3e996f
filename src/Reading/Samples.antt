-- ===== src/Reading/Samples.antt =====
-- A physical sensor, and a virtual one that weighs it and refers to its severity.
use hardware_mediatek.Base.{
  ℕ, suc, pos, ◌≡◌, refl, ◌<◌, true, false, none, some, arith, [], ◌∷◌, String, Map, lookup,
  contains, contains-lookup, Each, Each-lookup, str_eq, All, subst, if◌then◌else◌,
}
use mathlib.Core.Option.{some-injective}
use hardware_mediatek.Floats.{Whole, whole_float}
use hardware_mediatek.ThermalInfo.{
  ThrottlingSeverity, SensorInfo, VirtualSensorInfo, sensor, constant, weighted_avg, index,
}
use hardware_mediatek.Emulation.{SensorStatus}
use hardware_mediatek.Stats.State.{StatsHelper}
use hardware_mediatek.Throttling.Samples.{num, sensor_info}
use hardware_mediatek.Reading.State.{Inputs, Store, ok}
use hardware_mediatek.Reading.Temperatures.{emulated_severity}
use hardware_mediatek.Reading.Safe.{IsComposed, IsWell}
use hardware_mediatek.Reading.Judged.{IsReady, IsReferring, Emulates}

abbrev skin_parts : VirtualSensorInfo Whole
skin_parts = record {
  linked_sensors = "cpu" ∷ [];
  linked_sensors_type = sensor ∷ [];
  coefficients = "2" ∷ [];
  coefficients_type = constant ∷ [];
  offset = num 1;
  trigger_sensors = "cpu" ∷ [];
  formula = weighted_avg;
  backup_sensor = "";
}

abbrev pub cpu_info : SensorInfo Whole
cpu_info = record sensor_info { hot_thresholds = λ s. num (index s) }

abbrev skin_info : SensorInfo Whole
skin_info = record sensor_info {
  severity_reference = "cpu" ∷ [];
  virtual_sensor_info = some skin_parts;
}

abbrev pub infos : Map (SensorInfo Whole)
infos = ("cpu", cpu_info) ∷ ("skin", skin_info) ∷ []

abbrev pub inputs : Inputs Whole ℕ
inputs = record {
  sensor_info_map = infos;
  power_status_map = [];
  cdev_all_request_map = [];
  read_file = λ name. some (num 3);
  atof = λ name. num 2;
  has_estimator = λ name. false;
  estimate = λ name values e. (ok, num 0 ∷ [], suc e);
  client = none;
  clock = λ name. 7_000_000;
  wall = pos 7;
  uninitialized = none;
}

abbrev pub status : SensorStatus Whole
status = record {
  severity = ThrottlingSeverity.none;
  prev_hot_severity = ThrottlingSeverity.none;
  prev_cold_severity = ThrottlingSeverity.none;
  last_update_time = none;
  thermal_cached = record { temp = none; timestamp = none };
  pending_notification = false;
  override_status = record { emul_temp = none; max_throttling = false; pending_update = false };
}

abbrev no_stats : StatsHelper Whole
no_stats = record {
  last_total_stats_report_time = 0;
  abnormal_stats_reported_per_update_interval = 0;
  sensor_stats = record {
    temp_stats_map = [];
    temp_range_info_map = [];
    temp_stuck_info_map = [];
    curr_temp_status_map = [];
  };
  sensor_cdev_request_stats_map = [];
}

abbrev pub store : Store Whole ℕ
store = record {
  statuses = ("cpu", status) ∷ ("skin", status) ∷ [];
  stats = no_stats;
  predictions = record { predictor_sensors = []; predicted_sensors = [] };
  estimators = 0;
  sensor_log_map = [];
}

abbrev pub states_of : String → ℕ
states_of cdev = 3

abbrev pub rank : String → ℕ
rank name = if str_eq name "skin" then 1 else 0

cpu_parts :
    (v : VirtualSensorInfo Whole)
    → cpu_info.virtual_sensor_info ≡ some v
    → IsComposed inputs rank 0 v
cpu_parts v h = absurd (cc)

skin_parts-IsComposed : IsComposed inputs rank 1 skin_parts
skin_parts-IsComposed = record {
  linked = (omega arith, tt);
  weights = λ _. (tt, tt);
  enough = λ _. omega arith;
  backup = λ named. absurd (cc);
}

composed :
    Each
      (λ name info.
        (v : VirtualSensorInfo Whole)
        → info.virtual_sensor_info ≡ some v
        → IsComposed inputs rank (rank name) v)
      infos
composed = (
  cpu_parts,
  (
    λ v h.
        subst (λ x. IsComposed inputs rank 1 x) (some-injective skin_parts v h)
          skin_parts-IsComposed,
    tt,
  ),
)

pub inputs-IsWell : IsWell inputs rank
inputs-IsWell = record {
  bounded = λ name. ground arith;
  composed = λ name info v known has.
      Each-lookup
        (λ name info.
          (v : VirtualSensorInfo Whole)
          → info.virtual_sensor_info ≡ some v
          → IsComposed inputs rank (rank name) v)
        name info infos composed known v has;
  estimates = λ name values e fine. (num 0, [], refl);
}

abbrev Refers : String → SensorInfo Whole → Type 0
Refers name info =
    All (λ r. (rank r < rank name) × (contains r infos ≡ true)) info.severity_reference

pub inputs-IsReferring : IsReferring inputs rank
unfolding lookup
inputs-IsReferring name info known =
    Each-lookup Refers name info infos (tt, (((omega arith, refl), tt), tt)) known

emulates : Emulates status
unfolding emulated_severity
emulates severity = (severity, refl)

pub store-IsReady : IsReady inputs states_of store
unfolding lookup
store-IsReady = record {
  safe = record {
    stats = record { temps = tt; requests = tt };
    limited = omega arith;
    predictions = record { buffers = λ name p h. absurd (cc); pointers = λ name q h. absurd (cc) };
  };
  has_status = λ name known.
      let (info, found) = contains-lookup name infos known in
      Each-lookup
        (λ name info. (s : SensorStatus Whole) × (lookup name store.statuses ≡ some s) × Emulates s)
        name info infos ((status, refl, emulates), ((status, refl, emulates), tt)) found;
}
