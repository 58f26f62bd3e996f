-- ===== src/Throttling/Request.antt =====
-- `ThermalThrottling::computeCoolingDevicesRequest`: the request of a sensor for each of its cooling
-- devices, from the PID request, the hard limit and the release step.
use hardware_mediatek.Base.{
  Bool, false, Option, none, some, List, [], ◌∷◌, ◌>>=◌, String, ℤ, pos, ◌-ℤ◌, leb_ℤ, eqb_ℤ, max_ℤ,
  min_ℤ, Map, lookup, insert, if◌then◌else◌,
}
use hardware_mediatek.ThermalInfo.{ThrottlingSeverity, SensorInfo, BindedCdevInfo}
use hardware_mediatek.Throttling.State.{ThermalThrottlingStatus, ThermalThrottling, binded_map}
use hardware_mediatek.Throttling.Votes.{update_cdev_max_request_and_notify_if_change}

-- `request_state`, from the requests, the release step, `cdev_floor` and `cdev_ceiling`
unfoldable pub request_state : (pid hardlimit release_step floor ceiling : ℤ) → ℤ
request_state pid hardlimit release_step floor ceiling =
    let request = max_ℤ pid hardlimit in
    let released = if leb_ℤ request release_step then pos 0 else request -ℤ release_step in
    min_ℤ (if eqb_ℤ release_step (pos 0) then request else max_ℤ released floor) ceiling

-- `count(name) ? at(name) : 0`
abbrev pub or_zero : String → Map ℤ → ℤ
or_zero name m = elim (lookup name m) [ none ↦ pos 0 | some v ↦ v ]

-- What one pass over `cdev_status_map` leaves: the map, the votes, the names appended to
-- `cooling_devices_to_update` and the calls of `updateSensorCdevRequestStats`.
pub record Pass : Type 0 where
  pub cdev_status_map : Map ℤ
  pub cdev_all_request_map : Map (List ℤ)
  pub cooling_devices_to_update : List String
  pub stats_updates : List (String × ℤ)

abbrev pub cons_if {ℓ} : {A : Type ℓ} → Bool → A → List A → List A
cons_if b a xs = if b then a ∷ xs else xs

-- the body of `if (cdev_request_pair.second != request_state)`, with its test
unfoldable pub vote : String → ℤ → ℤ → Map (List ℤ) → Option (Bool × Map (List ℤ))
vote cdev_name old request requests =
    if eqb_ℤ old request
    then some (false, requests)
    else update_cdev_max_request_and_notify_if_change cdev_name old request requests

-- One entry of the pass, before the rest of it.
abbrev pub extend_pass : String → ℤ → ℤ → Bool → Pass → Pass
extend_pass cdev_name old request changed rest = record {
  cdev_status_map = (cdev_name, request) ∷ rest.cdev_status_map;
  cdev_all_request_map = rest.cdev_all_request_map;
  cooling_devices_to_update = cons_if changed cdev_name rest.cooling_devices_to_update;
  stats_updates =
      if eqb_ℤ old request then rest.stats_updates else (cdev_name, request) ∷ rest.stats_updates;
}

-- The throttling state after a pass for one sensor.
abbrev pub after_pass {ℓ} :
    {W : Type ℓ}
    → String
    → ThermalThrottlingStatus W
    → Pass
    → ThermalThrottling W
    → ThermalThrottling W
after_pass sensor_name status pass t = record {
  thermal_throttling_status_map =
      insert sensor_name (record status { cdev_status_map = pass.cdev_status_map })
        t.thermal_throttling_status_map;
  cdev_all_request_map = pass.cdev_all_request_map;
}

module _ {ℓ} {W : Type ℓ} where
  unfoldable pub entry_request :
      ThermalThrottlingStatus W → BindedCdevInfo W → ThrottlingSeverity → String → ℤ
  entry_request status info curr_severity cdev_name =
      request_state (or_zero cdev_name status.pid_cdev_request_map)
        (or_zero cdev_name status.hardlimit_cdev_request_map)
        (or_zero cdev_name status.throttling_release_map)
        (info.cdev_floor_with_power_link curr_severity) (info.cdev_ceiling curr_severity)

  unfoldable pub compute_entries :
      ThermalThrottlingStatus W
      → Map (BindedCdevInfo W)
      → ThrottlingSeverity
      → Map ℤ
      → Map (List ℤ)
      → Option Pass
  compute_entries status binded curr_severity [] requests = some (record {
    cdev_status_map = [];
    cdev_all_request_map = requests;
    cooling_devices_to_update = [];
    stats_updates = [];
  })
  compute_entries status binded curr_severity ((cdev_name, old) ∷ entries) requests = do
    info ← lookup cdev_name binded
    let request = entry_request status info curr_severity cdev_name
    (changed, requests') ← vote cdev_name old request requests
    rest ← compute_entries status binded curr_severity entries requests'
    some (extend_pass cdev_name old request changed rest)

  -- The result has the throttling state, the cooling devices to update and the calls to the stats.
  unfoldable pub compute_cooling_devices_request :
      String
      → SensorInfo W
      → ThrottlingSeverity
      → ThermalThrottling W
      → Option (ThermalThrottling W × List String × List (String × ℤ))
  compute_cooling_devices_request sensor_name sensor_info curr_severity t =
      elim (lookup sensor_name t.thermal_throttling_status_map) [
        | none ↦ some (t, [], [])
        | some status ↦ do
          info ← sensor_info.throttling_info
          pass ←
              compute_entries status (binded_map info status.profile) curr_severity
                status.cdev_status_map t.cdev_all_request_map
          some (
            after_pass sensor_name status pass t,
            pass.cooling_devices_to_update,
            pass.stats_updates,
          )
      ]
