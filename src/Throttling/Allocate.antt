-- ===== src/Throttling/Allocate.antt =====
-- `ThermalThrottling::allocatePowerToCdev`: the power budget of a sensor is shared out among its
-- cooling devices, in one pass that finds the devices with power to spare and one that allocates.
use hardware_mediatek.Base.{
  Bool, true, false, not, ◌&&◌, ◌||◌, Option, none, some, List, [], ◌∷◌, ◌>>=◌, String, ℤ, pos,
  eqb_ℤ, Map, lookup, insert, if◌then◌else◌, str_eq, mem_name,
}
use hardware_mediatek.Floats.{Float, zero_f}
use hardware_mediatek.ThermalInfo.{ThrottlingSeverity, BindedCdevInfo, CdevInfo}
use hardware_mediatek.PowerRails.State.{PowerStatus}
use hardware_mediatek.Throttling.State.{ThermalThrottlingStatus, binded_map}
use hardware_mediatek.Throttling.Votes.{get_cdev_max_request}
use hardware_mediatek.Throttling.Pid.{Update, elem_at, update_power_budget}
use hardware_mediatek.Throttling.Limits.{limit_release, limit_throttle}

-- The variables that the passes share.
pub record Allocation {ℓ} (W : Type ℓ) : Type ℓ where
  pub total_power_budget : W
  pub total_weight : W
  pub last_updated_avg_power : W
  pub allocated_power : W
  pub allocated_weight : W
  pub power_data_invalid : Bool
  pub allocated_cdev : List String
  pub pid_power_budget_map : Map ℤ

-- How a round of the inner loop ends: it goes on, leaves the loop, or returns `false`.
pub data Round {ℓ} (A : Type ℓ) : Type ℓ where
  goes_on : A → Round A
  leaves : A → Round A
  returns_false : A → Round A

-- `at(cdev) = budget`
unfoldable pub assign : String → ℤ → Map ℤ → Option (Map ℤ)
assign cdev v m = do _ ← lookup cdev m; some (insert cdev v m)

module _ {ℓ} {W : Type ℓ} ⦃f : Float W⦄ where
  -- `Get the power data`
  unfoldable pub power_data :
      Map (PowerStatus W) → BindedCdevInfo W → Allocation W → Option (Round (Allocation W))
  power_data power_status_map info a =
      let read : Option (Round (Allocation W)) = (do
        status ← lookup info.power_rail power_status_map
        let power = status.last_updated_avg_power
        let a' = record a { last_updated_avg_power = power }
        some (
            if f.isnan power
            then leaves (record a' { power_data_invalid = true })
            else if info.throttling_with_power_link
            then returns_false a'
            else goes_on a')) in
      if a.power_data_invalid
      then some (goes_on a)
      else if str_eq info.power_rail ""
      then some (leaves (record a { power_data_invalid = true }))
      else read

  -- A device below its share that is not throttled keeps its power, and leaves the sharing.
  unfoldable pub low_power_round :
      ThermalThrottlingStatus W → String → W → W → Allocation W → Option (Allocation W)
  low_power_round status cdev weight adjustment a =
      let check : Option (Allocation W) = (do
        request ← lookup cdev status.pid_cdev_request_map
        some (
            if eqb_ℤ request (pos 0)
            then record a {
              allocated_power = f.add a.allocated_power a.last_updated_avg_power;
              allocated_weight = f.add a.allocated_weight weight;
              allocated_cdev = cdev ∷ a.allocated_cdev;
            }
            else a)) in
      if f.lt zero_f adjustment then check else some a

  -- The budget of a device before the limits on its steps.
  unfoldable pub cdev_budget :
      BindedCdevInfo W → CdevInfo W → String → W → W → Allocation W → Option W
  cdev_budget info cdev_info cdev share adjustment a =
      let from_power : Option W = (do
        curr ← lookup cdev a.pid_power_budget_map
        let curr_f = f.of_int curr
        let last = a.last_updated_avg_power
        some (
            f.of_int (
              f.to_int (
                if f.lt curr_f last
                then f.add curr_f (f.mul adjustment (f.div curr_f last))
                else f.add curr_f adjustment)))) in
      let chosen : Option W =
        if not info.enabled
        then elem_at cdev_info.state2power (pos 0)
        else if not a.power_data_invalid && not (str_eq info.power_rail "")
        then from_power
        else some share in
      do
        budget ← chosen
        most ← elem_at cdev_info.state2power (pos 0)
        some (
            if not (f.isnan most) && f.lt most budget
            then most
            else if f.lt budget zero_f
            then zero_f
            else budget)

  -- Both limits, which `max_throttling` skips.
  unfoldable pub limit_steps :
      Update W → BindedCdevInfo W → CdevInfo W → Bool → W → ℤ → ℤ → W → Option W
  limit_steps u info cdev_info power_data_invalid adjustment curr_vote max_vote budget =
      let limited : Option W = (do
        released ←
            limit_release info cdev_info u.curr_severity power_data_invalid adjustment curr_vote
              max_vote budget
        limit_throttle info cdev_info u.curr_severity power_data_invalid adjustment curr_vote
            released) in
      if u.max_throttling then some budget else limited

  -- `adjustment < 0 && pid_cdev_request_map.at(cdev) == max_state`
  unfoldable pub at_max_state : ThermalThrottlingStatus W → CdevInfo W → String → W → Option Bool
  at_max_state status cdev_info cdev adjustment =
      let compare_state : Option Bool = (do
        request ← lookup cdev status.pid_cdev_request_map
        some (eqb_ℤ request cdev_info.max_state)) in
      if f.lt adjustment zero_f then compare_state else some false

  unfoldable pub allocate_round :
      Update W
      → ThermalThrottlingStatus W
      → String
      → BindedCdevInfo W
      → W
      → W
      → Allocation W
      → Option (Round (Allocation W))
  allocate_round u status cdev info share adjustment a = do
    cdev_info ← lookup cdev u.cooling_device_info_map
    full ← at_max_state status cdev_info cdev adjustment
    let voted = λ (budget : W) (max_vote : ℤ). do
      curr_vote ← lookup cdev status.pid_cdev_request_map
      limited ←
          limit_steps u info cdev_info a.power_data_invalid adjustment curr_vote max_vote budget
      budgets ← assign cdev (f.to_int limited) a.pid_power_budget_map
      some (goes_on (record a { pid_power_budget_map = budgets }))
    let allocate : Option (Round (Allocation W)) = (do
      budget ← cdev_budget info cdev_info cdev share adjustment a
      elim (get_cdev_max_request cdev u.cdev_all_request_map) [
        | none ↦ some (returns_false a)
        | some max_vote ↦ voted budget max_vote
      ])
    if full then some (goes_on a) else allocate

  -- One round of the inner loop; `low` is `low_power_device_check`.
  unfoldable pub cdev_round :
      Update W
      → ThermalThrottlingStatus W
      → Bool
      → String
      → BindedCdevInfo W
      → Allocation W
      → Option (Round (Allocation W))
  cdev_round u status low cdev info a =
      let weight = info.cdev_weight_for_pid u.curr_severity in
      let share = f.mul a.total_power_budget (f.div weight a.total_weight) in
      let with_power = λ (a' : Allocation W).
        let adjustment = f.sub share a'.last_updated_avg_power in
        let lowered : Option (Round (Allocation W)) = (do
          a'' ← low_power_round status cdev weight adjustment a'
          some (goes_on a'')) in
        let allocated = allocate_round u status cdev info share adjustment a' in
        if low then lowered else allocated in
      let powered : Option (Round (Allocation W)) = (do
        r ← power_data u.power_status_map info a
        elim r [
          | goes_on a' ↦ with_power a'
          | leaves a' ↦ some (leaves a')
          | returns_false a' ↦ some (returns_false a')
        ]) in
      if mem_name cdev a.allocated_cdev then some (goes_on a) else powered

  -- The inner loop: whether it returned `false`, and the variables it left.
  unfoldable pub allocate_pass :
      Update W
      → ThermalThrottlingStatus W
      → Bool
      → Map (BindedCdevInfo W)
      → Allocation W
      → Option (Bool × Allocation W)
  allocate_pass u status low [] a = some (true, a)
  allocate_pass u status low ((cdev, info) ∷ binded) a = do
    r ← cdev_round u status low cdev info a
    elim r [
      | goes_on a' ↦ allocate_pass u status low binded a'
      | leaves a' ↦ some (true, a')
      | returns_false a' ↦ some (false, a')
    ]

  -- The end of a pass.
  unfoldable pub end_pass : Allocation W → Allocation W
  end_pass a =
      let spent = record a {
        total_power_budget = f.sub a.total_power_budget a.allocated_power;
        total_weight = f.sub a.total_weight a.allocated_weight;
      } in
      record (if a.power_data_invalid then a else spent) {
        allocated_power = zero_f;
        allocated_weight = zero_f;
      }

  -- The total weight, and the devices that take no part.
  unfoldable pub sum_weights :
      ThrottlingSeverity → Map (BindedCdevInfo W) → W → List String → W × List String
  sum_weights curr [] total out = (total, out)
  sum_weights curr ((cdev, info) ∷ binded) total out =
      let weight = info.cdev_weight_for_pid curr in
      let weightless = f.isnan weight || f.eq weight zero_f in
      sum_weights curr binded (if info.enabled && not weightless then f.add total weight else total)
        (if info.enabled && weightless then cdev ∷ out else out)

  unfoldable pub allocate_power_to_cdev :
      Update W → ThermalThrottlingStatus W → Option (Bool × ThermalThrottlingStatus W)
  allocate_power_to_cdev u status = do
    (budget, status') ← update_power_budget u status
    info ← u.sensor_info.throttling_info
    let binded = binded_map info status'.profile
    let (total, out) = sum_weights u.curr_severity binded zero_f []
    let start : Allocation W = record {
      total_power_budget = budget;
      total_weight = total;
      last_updated_avg_power = f.nan;
      allocated_power = zero_f;
      allocated_weight = zero_f;
      power_data_invalid = false;
      allocated_cdev = out;
      pid_power_budget_map = status'.pid_power_budget_map;
    }
    (done, a) ← allocate_pass u status' true binded start
    let second : Option (Bool × ThermalThrottlingStatus W) = (do
      (done', b) ← allocate_pass u status' false binded (end_pass a)
      some (done', record status' { pid_power_budget_map = b.pid_power_budget_map }))
    if done then second else some (false, status')
