-- ===== src/Throttling/Samples.antt =====
-- The data of the throttling examples: two sensors that throttle one fan.
use hardware_mediatek.Base.{
  ℕ, pos, some, none, refl, true, false, arith, List, [], ◌∷◌, Map, lookup,
}
use hardware_mediatek.Floats.{Whole, whole_float}
use hardware_mediatek.ThermalInfo.{
  ThrottlingSeverity, ThrottlingArray, ThrottlingInfo, BindedCdevInfo, CdevInfo, SensorInfo,
  decrease, index,
}
use hardware_mediatek.PowerRails.State.{PowerStatus}
use hardware_mediatek.Throttling.State.{ThermalThrottling, ThermalThrottlingStatus, fresh_status}
use hardware_mediatek.Throttling.Votes.{count}
use hardware_mediatek.Throttling.Tally.{votes_of, unit_at, tally}
use hardware_mediatek.Throttling.Consistency.{IsConsistent, requests}

abbrev pub num : ℕ → Whole
num n = some (pos n)

abbrev pub powers : List Whole
powers = num 9 ∷ num 6 ∷ num 6 ∷ num 0 ∷ []

abbrev pub fan : CdevInfo Whole
fan = record { state2power = powers; max_state = pos 3; apply_powercap = false; multiplier = num 1 }

abbrev pub fans : Map (CdevInfo Whole)
fans = ("fan", fan) ∷ []

abbrev pub fan_limits : BindedCdevInfo Whole
fan_limits = record {
  limit_info = λ s. pos (index s);
  power_thresholds = λ s. num 5;
  release_logic = decrease;
  cdev_weight_for_pid = λ s. num 1;
  cdev_ceiling = λ s. pos 3;
  max_release_step = pos 1;
  max_throttle_step = pos 1;
  cdev_floor_with_power_link = λ s. pos 0;
  power_rail = "rail";
  high_power_check = false;
  throttling_with_power_link = false;
  enabled = true;
}

abbrev pub bound : Map (BindedCdevInfo Whole)
bound = ("fan", fan_limits) ∷ []

abbrev pub array : Whole → ThrottlingArray Whole
array x s = x

abbrev pub throttling : ThrottlingInfo Whole
throttling = record {
  k_po = array (num 1);
  k_pu = array (num 1);
  k_io = array (num 1);
  k_iu = array (num 1);
  k_d = array (num 0);
  i_max = array (num 10);
  max_alloc_power = array (num 20);
  min_alloc_power = array (num 1);
  s_power = array (num 5);
  i_cutoff = array (num 8);
  i_default = num 0;
  i_default_pct = none;
  tran_cycle = pos 0;
  excluded_power_info_map = [];
  binded_cdev_info_map = bound;
  profile_map = [];
}

abbrev pub sensor_info : SensorInfo Whole
sensor_info = record {
  hot_thresholds = array (num 40);
  cold_thresholds = array none;
  hot_hysteresis = array (num 3);
  cold_hysteresis = array (num 3);
  severity_reference = [];
  multiplier = num 1;
  polling_delay = 1000;
  passive_delay = 100;
  time_resolution = 10;
  step_ratio = none;
  send_cb = false;
  send_powerhint = false;
  is_watch = true;
  is_hidden = false;
  virtual_sensor_info = none;
  throttling_info = some throttling;
  predictor_info = none;
}

abbrev pub empty : ThermalThrottling Whole
empty = record { thermal_throttling_status_map = []; cdev_all_request_map = [] }

-- A sensor that asks the fan for state 2, and one that asks for nothing.
abbrev pub asking : ThermalThrottlingStatus Whole
asking = record fresh_status {
  hardlimit_cdev_request_map = ("fan", pos 2) ∷ [];
  cdev_status_map = ("fan", pos 2) ∷ [];
}

abbrev pub idle : ThermalThrottlingStatus Whole
idle = record fresh_status {
  pid_cdev_request_map = ("fan", pos 3) ∷ [];
  cdev_status_map = ("fan", pos 0) ∷ [];
}

abbrev pub two : ThermalThrottling Whole
two = record {
  thermal_throttling_status_map = ("cpu", asking) ∷ ("skin", idle) ∷ [];
  cdev_all_request_map = ("fan", pos 2 ∷ pos 0 ∷ []) ∷ [];
}

pub empty-IsConsistent : IsConsistent empty
unfolding lookup votes_of requests count
empty-IsConsistent = record {
  ordered = λ c. tt;
  covered = λ c v. omega arith;
  exact = λ c v ne. refl;
}

pub two-IsConsistent : IsConsistent two
unfolding lookup votes_of requests tally unit_at count
two-IsConsistent = record {
  ordered = λ c. ground arith;
  covered = λ c v. ground arith;
  exact = λ c v ne. ground arith;
}

abbrev pub rails : Map (PowerStatus Whole)
rails =
    (
      "rail",
      record {
        last_update_time = none;
        power_history = [];
        last_updated_avg_power = num 4;
        enabled = true;
      },
    )
    ∷ []

-- A power for the light, severe and shutdown states.
abbrev pub s_power : ThrottlingArray Whole
s_power ThrottlingSeverity.light = num 9
s_power ThrottlingSeverity.severe = num 6
s_power ThrottlingSeverity.shutdown = num 3
s_power _ = none
