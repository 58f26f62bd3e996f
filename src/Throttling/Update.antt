-- ===== src/Throttling/Update.antt =====
-- `updateCdevRequestByPower`, `updateCdevRequestBySeverity` and `thermalThrottlingUpdate`.
use hardware_mediatek.Base.{
  ℕ, suc, Option, none, some, List, [], ◌∷◌, ◌>>=◌, String, ℤ, pos, Map, lookup, insert, contains,
  map_values, if◌then◌else◌, is_empty,
}
use hardware_mediatek.Floats.{Float}
use hardware_mediatek.ThermalInfo.{ThrottlingSeverity, BindedCdevInfo, CdevInfo}
use hardware_mediatek.Throttling.State.{
  ThermalThrottlingStatus, ThermalThrottling, status_of, binded_map,
}
use hardware_mediatek.Throttling.Register.{parse_profile_property}
use hardware_mediatek.Throttling.Pid.{Update}
use hardware_mediatek.Throttling.Allocate.{assign, allocate_power_to_cdev}
use hardware_mediatek.Throttling.Release.{release_loop}

module _ {ℓ} {W : Type ℓ} ⦃f : Float W⦄ where
  -- `for (i = 0; i < size - 1; ++i) if (budget >= state2power[i]) break;` on a table with an entry
  unfoldable pub state_for_power : W → List W → ℕ
  state_for_power budget [] = 0
  state_for_power budget (p ∷ ps) =
      let further = suc (state_for_power budget ps) in
      if is_empty ps then 0 else if f.le p budget then 0 else further

  -- An empty table faults: `size - 1` wraps, and the loop reads past the end.
  unfoldable pub update_cdev_request_by_power : Map (CdevInfo W) → Map ℤ → Map ℤ → Option (Map ℤ)
  update_cdev_request_by_power cooling [] requests = some requests
  update_cdev_request_by_power cooling ((cdev, budget) ∷ budgets) requests = do
    cdev_info ← lookup cdev cooling
    let state = pos (state_for_power (f.of_int budget) cdev_info.state2power)
    requests' ← if is_empty cdev_info.state2power then none else assign cdev state requests
    update_cdev_request_by_power cooling budgets requests'

  unfoldable pub update_cdev_request_by_severity :
      ThrottlingSeverity → Map (BindedCdevInfo W) → Map ℤ → Map ℤ
  update_cdev_request_by_severity curr [] requests = requests
  update_cdev_request_by_severity curr ((cdev, info) ∷ binded) requests =
      let limit = if info.enabled then info.limit_info curr else pos 0 in
      update_cdev_request_by_severity curr binded
        (if contains cdev requests then insert cdev limit requests else requests)

  -- The PID part: a failed allocation clears the requests, and the budgets then set them.
  unfoldable pub update_by_pid :
      Update W → ThermalThrottlingStatus W → Option (ThermalThrottlingStatus W)
  update_by_pid u status =
      let updated : Option (ThermalThrottlingStatus W) = (do
        (done, status') ← allocate_power_to_cdev u status
        let requests =
            if done
            then status'.pid_cdev_request_map
            else map_values (λ _. pos 0) status'.pid_cdev_request_map
        requests' ←
            update_cdev_request_by_power u.cooling_device_info_map status'.pid_power_budget_map
              requests
        some (record status' { pid_cdev_request_map = requests' })) in
      if is_empty status.pid_power_budget_map then some status else updated

  unfoldable pub update_by_severity :
      Update W → ThermalThrottlingStatus W → Option (ThermalThrottlingStatus W)
  update_by_severity u status =
      let updated : Option (ThermalThrottlingStatus W) = (do
        info ← u.sensor_info.throttling_info
        some (record status {
          hardlimit_cdev_request_map =
              update_cdev_request_by_severity u.curr_severity (binded_map info status.profile)
                status.hardlimit_cdev_request_map;
        })) in
      if is_empty status.hardlimit_cdev_request_map then some status else updated

  unfoldable pub update_by_release :
      Update W → ThermalThrottlingStatus W → Option (ThermalThrottlingStatus W)
  update_by_release u status =
      let updated : Option (ThermalThrottlingStatus W) = (do
        info ← u.sensor_info.throttling_info
        (_, steps) ←
            release_loop u.cooling_device_info_map u.power_status_map u.curr_severity
              info.binded_cdev_info_map status.throttling_release_map
        some (record status { throttling_release_map = steps })) in
      if is_empty status.throttling_release_map then some status else updated

  -- `profile` is the value of the profile property, read only where the sensor has profiles.
  unfoldable pub thermal_throttling_update :
      String → String → Update W → ThermalThrottling W → Option (ThermalThrottling W)
  thermal_throttling_update sensor_name profile u t =
      let updated : Option (ThermalThrottling W) = (do
        info ← u.sensor_info.throttling_info
        let t' =
            if is_empty info.profile_map
            then t
            else parse_profile_property sensor_name u.sensor_info profile t
        let u' = record u { cdev_all_request_map = t.cdev_all_request_map }
        with_pid ← update_by_pid u' (status_of sensor_name t'.thermal_throttling_status_map)
        with_limit ← update_by_severity u' with_pid
        status ← update_by_release u' with_limit
        some (record t' {
          thermal_throttling_status_map =
              insert sensor_name status t'.thermal_throttling_status_map;
        })) in
      if contains sensor_name t.thermal_throttling_status_map then updated else some t
