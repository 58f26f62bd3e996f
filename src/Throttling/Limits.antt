-- ===== src/Throttling/Limits.antt =====
-- The limits on the release and throttle steps in `ThermalThrottling::allocatePowerToCdev`.
use hardware_mediatek.Base.{
  ℕ, zero, suc, Bool, not, ◌&&◌, ◌||◌, Option, some, List, ◌>>=◌, ℤ, pos, ◌+ℤ◌, ◌-ℤ◌, ltb_ℤ, eqb_ℤ,
  max_ℤ, min_ℤ, pos_part, if◌then◌else◌,
}
use hardware_mediatek.Floats.{Float, zero_f, min_f, max_f}
use hardware_mediatek.ThermalInfo.{ThrottlingSeverity, BindedCdevInfo, CdevInfo}
use hardware_mediatek.Throttling.Register.{int_max}
use hardware_mediatek.Throttling.Pid.{elem_at}

module _ {ℓ} {W : Type ℓ} ⦃f : Float W⦄ where
  -- `while (curr - step > limit && state2power[curr - step] == state2power[curr]) step += 1;`
  -- from the state `curr - step`; the fuel is the number of states above the limit.
  unfoldable pub release_target : List W → ℤ → W → ℕ → ℤ → Option ℤ
  release_target state2power limit curr_power zero state = some state
  release_target state2power limit curr_power (suc fuel) state =
      let next : Option ℤ = (do
        power ← elem_at state2power state
        let rest = release_target state2power limit curr_power fuel (state -ℤ pos 1)
        if f.eq power curr_power then rest else some state) in
      if ltb_ℤ limit state then next else some state

  -- `while (curr + step < ceiling && state2power[curr + step] == state2power[curr]) step += 1;`
  unfoldable pub throttle_target : List W → ℤ → W → ℕ → ℤ → Option ℤ
  throttle_target state2power ceiling curr_power zero state = some state
  throttle_target state2power ceiling curr_power (suc fuel) state =
      let next : Option ℤ = (do
        power ← elem_at state2power state
        let rest = throttle_target state2power ceiling curr_power fuel (state +ℤ pos 1)
        if f.eq power curr_power then rest else some state) in
      if ltb_ℤ state ceiling then next else some state

  -- `state2power[curr]` is read only where the loop's first test passes.
  unfoldable pub release_state : List W → ℤ → ℤ → ℤ → Option ℤ
  release_state state2power limit curr step =
      let state = curr -ℤ step in
      let found : Option ℤ = (do
        curr_power ← elem_at state2power curr
        release_target state2power limit curr_power (pos_part (state -ℤ limit)) state) in
      if ltb_ℤ limit state then found else some state

  unfoldable pub throttle_state : List W → ℤ → ℤ → ℤ → Option ℤ
  throttle_state state2power ceiling curr step =
      let state = curr +ℤ step in
      let found : Option ℤ = (do
        curr_power ← elem_at state2power curr
        throttle_target state2power ceiling curr_power (pos_part (ceiling -ℤ state)) state) in
      if ltb_ℤ state ceiling then found else some state

  -- The budget after the limit on the release step.
  unfoldable pub limit_release :
      BindedCdevInfo W → CdevInfo W → ThrottlingSeverity → Bool → W → ℤ → ℤ → W → Option W
  limit_release info cdev_info curr power_data_invalid adjustment curr_vote max_vote budget =
      let kept : Option W = elem_at cdev_info.state2power curr_vote in
      let stepped : Option W = (do
        state ←
            release_state cdev_info.state2power (info.limit_info curr) curr_vote
              info.max_release_step
        power ← elem_at cdev_info.state2power (max_ℤ state (pos 0))
        some (min_f budget power)) in
      if not (eqb_ℤ info.max_release_step int_max) && (power_data_invalid || f.lt zero_f adjustment)
      then (if not power_data_invalid && ltb_ℤ curr_vote max_vote then kept else stepped)
      else some budget

  -- The budget after the limit on the throttle step.
  unfoldable pub limit_throttle :
      BindedCdevInfo W → CdevInfo W → ThrottlingSeverity → Bool → W → ℤ → W → Option W
  limit_throttle info cdev_info curr power_data_invalid adjustment curr_vote budget =
      let stepped : Option W = (do
        state ←
            throttle_state cdev_info.state2power (info.cdev_ceiling curr) curr_vote
              info.max_throttle_step
        power ← elem_at cdev_info.state2power (min_ℤ state (info.cdev_ceiling curr))
        some (max_f budget power)) in
      if not (eqb_ℤ info.max_throttle_step int_max)
        && (power_data_invalid || f.lt adjustment zero_f)
      then stepped
      else some budget
