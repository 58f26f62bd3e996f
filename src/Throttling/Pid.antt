-- ===== src/Throttling/Pid.antt =====
-- The PID control of aidl/thermal/utils/thermal_throttling.cpp: `getTargetStateOfPID`,
-- `computeExcludedPower` and `updatePowerBudget`.
use hardware_mediatek.Base.{
  ℕ, Bool, true, false, not, ◌&&◌, Option, none, some, List, [], ◌∷◌, ◌>>=◌, String, ℤ, pos, negsuc,
  ◌-ℤ◌, ltb_ℤ, eqb_ℤ, Map, lookup, if◌then◌else◌, get_elem?, ◌==◌,
}
use hardware_mediatek.Floats.{Float, zero_f, clamp}
use hardware_mediatek.ThermalInfo.{
  ThrottlingSeverity, ThrottlingArray, ThrottlingInfo, BindedCdevInfo, CdevInfo, SensorInfo,
  severities, sev_lt, sev_eq,
}
use hardware_mediatek.PowerRails.State.{PowerStatus}
use hardware_mediatek.Throttling.State.{ThermalThrottlingStatus, binded_map}

-- `max_cdev_vote = getCdevMaxRequest(name, &max_cdev_vote)`: the answer, 0 or 1, replaces the vote.
unfoldable pub assigned_vote : String → Map (List ℤ) → ℕ
assigned_vote cdev requests = elim (lookup cdev requests) [ none ↦ 0 | some _ ↦ 1 ]

-- The inputs of an update that do not change during it.
pub record Update {ℓ} (W : Type ℓ) : Type ℓ where
  pub value : W
  pub sensor_info : SensorInfo W
  pub cooling_device_info_map : Map (CdevInfo W)
  pub cdev_all_request_map : Map (List ℤ)
  pub time_elapsed_ms : ℕ
  pub curr_severity : ThrottlingSeverity
  pub max_throttling : Bool
  pub power_status_map : Map (PowerStatus W)
  pub sensor_predictions : List W

module _ {ℓ} {W : Type ℓ} ⦃f : Float W⦄ where
  -- The loop of `getTargetStateOfPID`, which the first configured severity above the current one ends.
  unfoldable pub target_loop :
      ThrottlingArray W
      → ThrottlingSeverity
      → List ThrottlingSeverity
      → ThrottlingSeverity
      → ThrottlingSeverity
  target_loop s_power curr [] target = target
  target_loop s_power curr (s ∷ ss) target =
      let skip = f.isnan (s_power s) in
      let rest = target_loop s_power curr ss (if skip then target else s) in
      if not skip && sev_lt curr s then s else rest

  unfoldable pub get_target_state_of_pid :
      ThrottlingArray W → ThrottlingSeverity → ThrottlingSeverity
  get_target_state_of_pid s_power curr = target_loop s_power curr severities ThrottlingSeverity.none

  -- `computeExcludedPower`, from the sum so far
  unfoldable pub compute_excluded_power :
      Map (ThrottlingArray W) → ThrottlingSeverity → Map (PowerStatus W) → W → Option W
  compute_excluded_power [] curr power_status_map excluded = some excluded
  compute_excluded_power ((rail, weights) ∷ infos) curr power_status_map excluded = do
    status ← lookup rail power_status_map
    let power = status.last_updated_avg_power
    compute_excluded_power infos curr power_status_map
        (if f.isnan power then excluded else f.add excluded (f.mul power (weights curr)))

  -- (`is_fully_throttle`, `is_fully_release`)
  unfoldable pub throttle_flags :
      Map (BindedCdevInfo W) → Map ℤ → ThrottlingSeverity → Bool → Bool → Option (Bool × Bool)
  throttle_flags [] requests curr is_fully_throttle is_fully_release =
      some (is_fully_throttle, is_fully_release)
  throttle_flags ((cdev, info) ∷ binded) requests curr is_fully_throttle is_fully_release = do
    request ← lookup cdev requests
    throttle_flags binded requests curr
        (if ltb_ℤ request (info.cdev_ceiling curr) then false else is_fully_throttle)
        (if ltb_ℤ (info.limit_info curr) request then false else is_fully_release)

  -- `int` as an index of a vector
  abbrev pub elem_at : List W → ℤ → Option W
  elem_at xs (pos i) = get_elem? xs i
  elem_at xs (negsuc i) = none

  unfoldable pub default_i_budget :
      Map (BindedCdevInfo W) → Map (CdevInfo W) → Map (List ℤ) → W → Option W
  default_i_budget [] cooling requests budget = some budget
  default_i_budget ((cdev, _) ∷ binded) cooling requests budget = do
    cdev_info ← lookup cdev cooling
    power ← get_elem? cdev_info.state2power (assigned_vote cdev requests)
    default_i_budget binded cooling requests (f.add budget power)

  unfoldable pub initial_i_budget : ThrottlingInfo W → Update W → W → Option W
  initial_i_budget info u i_budget =
      let computed : Option W = (do
        budget ←
            default_i_budget info.binded_cdev_info_map u.cooling_device_info_map
              u.cdev_all_request_map zero_f
        some (f.div (f.mul budget info.i_default_pct) (f.of_int (pos 100)))) in
      if f.isnan i_budget
      then (if f.isnan info.i_default_pct then some info.i_default else computed)
      else some i_budget

  -- The integral term grows only below the cutoff, and not against a bound that is already met.
  unfoldable pub integrate : ThrottlingInfo W → ThrottlingSeverity → W → W → Bool → Bool → W → W
  integrate info target err prev_power_budget is_fully_throttle is_fully_release i_budget =
      if f.lt err (info.i_cutoff target)
      then (if f.lt err zero_f
            && f.lt (info.min_alloc_power target) prev_power_budget
            && not is_fully_throttle
          then f.add i_budget (f.mul err (info.k_io target))
          else if f.lt zero_f err
              && f.lt prev_power_budget (info.max_alloc_power target)
              && not is_fully_release
          then f.add i_budget (f.mul err (info.k_iu target))
          else i_budget)
      else i_budget

  unfoldable pub limit_i_budget : W → W → W
  limit_i_budget i_max i_budget =
      if f.lt i_max (f.fabs i_budget)
      then f.mul i_max (f.of_int (if f.lt zero_f i_budget then pos 1 else negsuc 0))
      else i_budget

  unfoldable pub derivative : ThrottlingInfo W → ThrottlingSeverity → W → W → ℕ → W
  derivative info target err prev_err time_elapsed_ms =
      if not (f.isnan prev_err) && not (time_elapsed_ms == 0)
      then f.div (f.mul (info.k_d target) (f.sub err prev_err)) (f.of_int (pos time_elapsed_ms))
      else zero_f

  -- `prediction_weights[i]` past its end faults.
  unfoldable pub compensate : W → W → List W → List W → W → Option W
  compensate target multiplier weights [] compensation = some compensation
  compensate target multiplier [] (p ∷ ps) compensation = none
  compensate target multiplier (w ∷ ws) (p ∷ ps) compensation =
      compensate target multiplier ws ps
        (f.add compensation (f.mul w (f.sub target (f.mul p multiplier))))

  unfoldable pub compensation : Update W → ThrottlingSeverity → W → Option W
  compensation u target_state target = elim u.sensor_info.predictor_info [
    | none ↦ some zero_f
    | some predictor ↦
        let computed : Option W = (do
          c ←
              compensate target u.sensor_info.multiplier predictor.prediction_weights
                u.sensor_predictions zero_f
          some (f.mul c (predictor.k_p_compensate target_state))) in
        if predictor.support_pid_compensation then computed else some zero_f
  ]

  -- The move to a new target: `target_changed`, and the status with its transition started.
  unfoldable pub retarget :
      ThrottlingInfo W
      → ThrottlingSeverity
      → ThermalThrottlingStatus W
      → Bool × ThermalThrottlingStatus W
  retarget info target_state status =
      let changed =
        not (sev_eq status.prev_target ThrottlingSeverity.none)
        && not (sev_eq target_state status.prev_target)
        && ltb_ℤ (pos 0) info.tran_cycle in
      (
        changed,
        record status {
          tran_cycle = if changed then info.tran_cycle -ℤ pos 1 else status.tran_cycle;
          prev_target = target_state;
        },
      )

  -- The end of the update: the transition spreads a jump of the budget over some cycles.
  unfoldable pub settle_transient :
      ThrottlingInfo W → Bool → W → ThermalThrottlingStatus W → W × ThermalThrottlingStatus W
  settle_transient info target_changed budget status =
      let transient =
        if target_changed then f.sub status.prev_power_budget budget else status.budget_transient in
      let share = f.mul transient (f.div (f.of_int status.tran_cycle) (f.of_int info.tran_cycle)) in
      let stepped = f.add budget share in
      if eqb_ℤ status.tran_cycle (pos 0)
      then (budget, record status { budget_transient = transient; prev_power_budget = budget })
      else (
        stepped,
        record status {
          budget_transient = transient;
          tran_cycle = status.tran_cycle -ℤ pos 1;
          prev_power_budget = stepped;
        },
      )

  -- The part of `updatePowerBudget` below the check of `max_throttling`.
  unfoldable pub compute_budget :
      ThrottlingInfo W
      → Update W
      → ThrottlingSeverity
      → Bool × Bool
      → Bool
      → ThermalThrottlingStatus W
      → Option (W × ThermalThrottlingStatus W)
  compute_budget info u target_state (is_fully_throttle, is_fully_release) target_changed status =
      do
        let target = u.sensor_info.hot_thresholds target_state
        let err = f.sub target u.value
        let p =
            f.mul err (if f.lt err zero_f then info.k_po target_state else info.k_pu target_state)
        i_start ← initial_i_budget info u status.i_budget
        let i_budget = limit_i_budget (info.i_max target_state) (
            integrate info target_state err status.prev_power_budget is_fully_throttle
              is_fully_release i_start)
        let d = derivative info target_state err status.prev_err u.time_elapsed_ms
        c ← compensation u target_state target
        excluded ←
            compute_excluded_power info.excluded_power_info_map u.curr_severity u.power_status_map
              zero_f
        let sum =
            f.sub (f.add (f.add (f.add (f.add (info.s_power target_state) p) i_budget) d) c)
              excluded
        let budget =
            clamp sum (info.min_alloc_power target_state) (info.max_alloc_power target_state)
        some (
            settle_transient info target_changed budget
              (record status { i_budget = i_budget; prev_err = err }))

  -- `updatePowerBudget` on the status of the sensor; a null `throttling_info` faults.
  unfoldable pub update_power_budget :
      Update W → ThermalThrottlingStatus W → Option (W × ThermalThrottlingStatus W)
  update_power_budget u status =
      let computed : Option (W × ThermalThrottlingStatus W) = (do
        info ← u.sensor_info.throttling_info
        flags ←
            throttle_flags (binded_map info status.profile) status.pid_cdev_request_map
              u.curr_severity true true
        let target_state = get_target_state_of_pid info.s_power u.curr_severity
        let (target_changed, status') = retarget info target_state status
        let err = f.sub (u.sensor_info.hot_thresholds target_state) u.value
        if u.max_throttling && f.le err zero_f
            then some (info.min_alloc_power target_state, status')
            else compute_budget info u target_state flags target_changed status') in
      if sev_eq u.curr_severity ThrottlingSeverity.none then some (f.biggest, status) else computed
