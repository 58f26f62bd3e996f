-- ===== src/Throttling/Register.antt =====
-- Registering a sensor, clearing its requests and choosing its profile:
-- `registerThermalThrottling`, `clearThrottlingData` and `parseProfileProperty`.
use hardware_mediatek.Base.{
  Bool, true, false, not, ◌&&◌, ◌||◌, Option, none, some, List, [], ◌∷◌, String, ℤ, pos, ltb_ℤ, Map,
  lookup, insert, contains, map_values, str_eq, if◌then◌else◌,
}
use hardware_mediatek.Floats.{Float}
use hardware_mediatek.ThermalInfo.{
  ThrottlingSeverity, ThrottlingInfo, BindedCdevInfo, CdevInfo, SensorInfo, severities,
}
use hardware_mediatek.Throttling.State.{
  ThermalThrottlingStatus, ThermalThrottling, fresh_status, status_of,
}
use hardware_mediatek.Throttling.Votes.{insert_vote}
use hardware_mediatek.Throttling.Tally.{votes_of}

-- `std::numeric_limits<int>::max()`
abbrev pub int_max : ℤ
int_max = pos 2_147_483_647

-- `for (x : array) if (test(x)) { ...; break; }`: the body runs once if any severity passes.
abbrev any_severity : List ThrottlingSeverity → (ThrottlingSeverity → Bool) → Bool
any_severity [] p = false
any_severity (s ∷ ss) p = p s || any_severity ss p

-- `cdev_all_request_map_[cdev_name].insert(0)`
unfoldable pub add_zero_vote : String → Map (List ℤ) → Map (List ℤ)
add_zero_vote cdev_name votes =
    insert cdev_name (insert_vote (pos 0) (votes_of cdev_name votes)) votes

-- The status of the sensor and the votes, as the loop changes them.
pub record Registration {ℓ} (W : Type ℓ) : Type ℓ where
  pub status : ThermalThrottlingStatus W
  pub votes : Map (List ℤ)

module _ {ℓ} {W : Type ℓ} ⦃f : Float W⦄ where
  unfoldable pub register_pid : String → Registration W → Registration W
  register_pid cdev_name r = record {
    status = record status {
      pid_power_budget_map = insert cdev_name int_max status.pid_power_budget_map;
      pid_cdev_request_map = insert cdev_name (pos 0) status.pid_cdev_request_map;
      cdev_status_map = insert cdev_name (pos 0) status.cdev_status_map;
    };
    votes = add_zero_vote cdev_name r.votes;
  }
    where
      open r use {status}

  unfoldable pub register_hardlimit : String → Registration W → Registration W
  register_hardlimit cdev_name r = record {
    status = record status {
      hardlimit_cdev_request_map = insert cdev_name (pos 0) status.hardlimit_cdev_request_map;
      cdev_status_map = insert cdev_name (pos 0) status.cdev_status_map;
    };
    votes = add_zero_vote cdev_name r.votes;
  }
    where
      open r use {status}

  unfoldable pub register_release : String → Registration W → Registration W
  register_release cdev_name r = record r {
    status = record status {
      throttling_release_map = insert cdev_name (pos 0) status.throttling_release_map;
    };
  }
    where
      open r use {status}

  -- One round of the loop over `binded_cdev_info_map`.
  unfoldable pub register_cdev : String → BindedCdevInfo W → Registration W → Registration W
  register_cdev cdev_name info r =
      let with_pid =
        if any_severity severities (λ s. not (f.isnan (info.cdev_weight_for_pid s)))
        then register_pid cdev_name r
        else r in
      let with_hardlimit =
        if any_severity severities (λ s. ltb_ℤ (pos 0) (info.limit_info s))
        then register_hardlimit cdev_name with_pid
        else with_pid in
      if not (str_eq info.power_rail "")
        && any_severity severities (λ s. not (f.isnan (info.power_thresholds s)))
      then register_release cdev_name with_hardlimit
      else with_hardlimit

  unfoldable pub register_cdevs :
      Map (CdevInfo W) → Map (BindedCdevInfo W) → Registration W → Bool × Registration W
  register_cdevs cooling_device_info_map [] r = (true, r)
  register_cdevs cooling_device_info_map ((cdev_name, info) ∷ binded) r =
      let rest = register_cdevs cooling_device_info_map binded (register_cdev cdev_name info r) in
      if contains cdev_name cooling_device_info_map then rest else (false, r)

  abbrev pub initial_status : ThermalThrottlingStatus W
  initial_status = record fresh_status {
    prev_err = f.nan;
    i_budget = f.nan;
    prev_target = ThrottlingSeverity.none;
    prev_power_budget = f.nan;
    tran_cycle = pos 0;
    profile = "";
  }

  -- The result is that of the source, with the state that it leaves, also where it fails.
  unfoldable pub register_thermal_throttling :
      String
      → Option (ThrottlingInfo W)
      → Map (CdevInfo W)
      → ThermalThrottling W
      → Bool × ThermalThrottling W
  register_thermal_throttling sensor_name none cooling_device_info_map t = (false, t)
  register_thermal_throttling sensor_name (some info) cooling_device_info_map t =
      let start : Registration W = record {
        status = initial_status;
        votes = t.cdev_all_request_map;
      } in
      let (done, r) = register_cdevs cooling_device_info_map info.binded_cdev_info_map start in
      if contains sensor_name t.thermal_throttling_status_map then (false, t) else (
        done,
        record {
          thermal_throttling_status_map =
              insert sensor_name r.status t.thermal_throttling_status_map;
          cdev_all_request_map = r.votes;
        },
      )

  abbrev pub cleared : ThermalThrottlingStatus W → ThermalThrottlingStatus W
  cleared status = record status {
    pid_power_budget_map = map_values (λ _. int_max) status.pid_power_budget_map;
    pid_cdev_request_map = map_values (λ _. pos 0) status.pid_cdev_request_map;
    hardlimit_cdev_request_map = map_values (λ _. pos 0) status.hardlimit_cdev_request_map;
    throttling_release_map = map_values (λ _. pos 0) status.throttling_release_map;
    prev_err = f.nan;
    i_budget = f.nan;
    prev_target = ThrottlingSeverity.none;
    prev_power_budget = f.nan;
    tran_cycle = pos 0;
  }

  unfoldable pub clear_throttling_data : String → ThermalThrottling W → ThermalThrottling W
  clear_throttling_data sensor_name t = elim (lookup sensor_name t.thermal_throttling_status_map) [
    | none ↦ t
    | some status ↦ record t {
      thermal_throttling_status_map =
          insert sensor_name (cleared status) t.thermal_throttling_status_map;
    }
  ]

  -- `profile` is the value of the property `vendor.thermal.<sensor>.profile`, empty by default.
  unfoldable pub parse_profile_property :
      String → SensorInfo W → String → ThermalThrottling W → ThermalThrottling W
  parse_profile_property sensor_name sensor_info profile t =
      let status = status_of sensor_name t.thermal_throttling_status_map in
      let with_profile = λ (p : String). record t {
        thermal_throttling_status_map =
            insert sensor_name (record status { profile = p }) t.thermal_throttling_status_map;
      } in
      elim sensor_info.throttling_info [
        | none ↦ t
        | some info ↦
            if str_eq profile "" || contains profile info.profile_map
            then with_profile profile
            else with_profile ""
      ]
