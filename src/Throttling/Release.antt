-- ===== src/Throttling/Release.antt =====
-- `ThermalThrottling::throttlingReleaseUpdate`: the release step of a cooling device follows the power
-- of its rail against the threshold of the severity.
use mathlib.Core.Option.{some-injective}
use hardware_mediatek.Base.{
  All, contains-lookup, refl, Bool, true, false, not, ◌&&◌, ◌||◌, Option, some, [], ◌∷◌, ◌>>=◌,
  String, ℤ, pos, ◌+ℤ◌, ◌-ℤ◌, ◌≤ℤ◌, ltb_ℤ, abs_ℤ, Map, lookup, insert, contains, if◌then◌else◌,
  arith, ◌≡◌, Bool-cases, inl, inr, str_eq, lookup-insert, str_eq_iff, sym, ◌∙◌, ap, subst,
}
use hardware_mediatek.Floats.{Float, zero_f}
use hardware_mediatek.ThermalInfo.{
  ThrottlingSeverity, BindedCdevInfo, CdevInfo, ReleaseLogic, increase, decrease, stepwise,
  release_to_floor, no_logic,
}
use hardware_mediatek.PowerRails.State.{PowerStatus}

-- The `switch` over the release logic.
unfoldable pub release_switch : ReleaseLogic → Bool → ℤ → ℤ → ℤ
release_switch increase is_over_budget max_state step =
    if is_over_budget then pos 0 else if ltb_ℤ (abs_ℤ step) max_state then step -ℤ pos 1 else step
release_switch decrease is_over_budget max_state step =
    if is_over_budget then pos 0 else if ltb_ℤ step max_state then step +ℤ pos 1 else step
release_switch stepwise is_over_budget max_state step =
    if is_over_budget
    then (if ltb_ℤ (abs_ℤ step) max_state then step -ℤ pos 1 else step)
    else if ltb_ℤ step max_state
    then step +ℤ pos 1
    else step
release_switch release_to_floor is_over_budget max_state step =
    if is_over_budget then pos 0 else max_state
release_switch no_logic is_over_budget max_state step = step

module _ {ℓ} {W : Type ℓ} ⦃f : Float W⦄ where
  -- The new release step of one device, from the power of its rail.
  unfoldable pub next_release_step : BindedCdevInfo W → ThrottlingSeverity → W → ℤ → ℤ → ℤ
  next_release_step info severity avg_power max_state step =
      let threshold = info.power_thresholds severity in
      let is_over_budget =
        not
          (if info.high_power_check then f.lt threshold avg_power else f.lt avg_power threshold) in
      if f.isnan avg_power || f.lt avg_power zero_f
      then (if info.throttling_with_power_link then max_state else pos 0)
      else release_switch info.release_logic is_over_budget max_state step

  -- The loop over the devices: the answer of the function, and the map that it leaves.
  unfoldable pub release_loop :
      Map (CdevInfo W)
      → Map (PowerStatus W)
      → ThrottlingSeverity
      → Map (BindedCdevInfo W)
      → Map ℤ
      → Option (Bool × Map ℤ)
  release_loop cooling power_status_map severity [] steps = some (true, steps)
  release_loop cooling power_status_map severity ((cdev, info) ∷ binded) steps =
      let registered = contains cdev steps && contains info.power_rail power_status_map in
      let updated : Option (Bool × Map ℤ) = (do
        cdev_info ← lookup cdev cooling
        step ← lookup cdev steps
        power ← lookup info.power_rail power_status_map
        release_loop cooling power_status_map severity binded (
            insert cdev
              (next_release_step info severity power.last_updated_avg_power cdev_info.max_state
                step)
              steps)) in
      if registered then updated else some (false, steps)

-- A release step stays within the states of its device, whatever the logic and the power.
abbrev pub IsWithin : ℤ → ℤ → Type 0
IsWithin max_state step = abs_ℤ step ≤ℤ max_state

release_switch-IsWithin :
    (logic : ReleaseLogic) (over : Bool) (max_state step : ℤ)
    → IsWithin max_state step
    → IsWithin max_state (release_switch logic over max_state step)
unfolding release_switch ◌-ℤ◌ ◌+ℤ◌
release_switch-IsWithin increase over m s h = ground arith
release_switch-IsWithin decrease over m s h = ground arith
release_switch-IsWithin stepwise over m s h = ground arith
release_switch-IsWithin release_to_floor over m s h = ground arith
release_switch-IsWithin no_logic over m s h = h

module _ {ℓ} {W : Type ℓ} ⦃f : Float W⦄ where
  next_release_step-IsWithin :
      (info : BindedCdevInfo W) (severity : ThrottlingSeverity) (power : W) (max_state step : ℤ)
      → IsWithin max_state step
      → IsWithin max_state (next_release_step info severity power max_state step)
  unfolding next_release_step
  next_release_step-IsWithin info severity power m s h =
      let over = not (
        if info.high_power_check
        then f.lt (info.power_thresholds severity) power
        else f.lt power (info.power_thresholds severity)) in
      ground (arith, release_switch-IsWithin info.release_logic over m s h)

  -- Every registered release step is within the states of its device.
  abbrev pub AllWithin : Map (CdevInfo W) → Map ℤ → Type ℓ
  AllWithin cooling steps =
      (cdev : String) (info : CdevInfo W) (step : ℤ)
      → lookup cdev cooling ≡ some info
      → lookup cdev steps ≡ some step
      → IsWithin info.max_state step

  AllWithin-insert :
      (cooling : Map (CdevInfo W)) (cdev : String) (info : CdevInfo W) (step : ℤ) (steps : Map ℤ)
      → lookup cdev cooling ≡ some info
      → IsWithin info.max_state step
      → AllWithin cooling steps
      → AllWithin cooling (insert cdev step steps)
  AllWithin-insert cooling cdev info step steps found within all j other s g h =
      elim (Bool-cases (str_eq cdev j)) [
        | inl e ↦
            let here = rw (lookup-insert cdev j step steps, e) at h in
            let same : info ≡ other =
              some-injective info other
                (sym found ∙ ap (λ k. lookup k cooling) (str_eq_iff cdev j e) ∙ g) in
            subst (λ i. IsWithin i.max_state s) same
              (subst (IsWithin info.max_state) (some-injective step s here) within)
        | inr e ↦ all j other s g (ground (arith, lookup-insert cdev j step steps))
      ]

  -- Where every bound device is a cooling device, `throttlingReleaseUpdate` completes, and keeps every
  -- release step within the states of its device, also where it stops half-way.
  pub release_loop-AllWithin :
      (cooling : Map (CdevInfo W)) (power_status_map : Map (PowerStatus W))
      (severity : ThrottlingSeverity) (binded : Map (BindedCdevInfo W)) (steps : Map ℤ)
      → All (λ e. contains e.0 cooling ≡ true) binded
      → AllWithin cooling steps
      → (done : Bool) × (steps' : Map ℤ) × (release_loop cooling power_status_map severity binded
            steps
          ≡ some (done, steps'))
        × AllWithin cooling steps'
  unfolding release_loop
  release_loop-AllWithin cooling ps severity [] steps known all = (true, steps, refl, all)
  release_loop-AllWithin cooling ps severity ((cdev, info) ∷ binded) steps known all =
      elim (Bool-cases (contains cdev steps && contains info.power_rail ps)) [
        | inl registered ↦
            let (cdev_info, found) = contains-lookup cdev cooling known.0 in
            let (step, at) = contains-lookup cdev steps (ground arith) in
            let (power, powered) = contains-lookup info.power_rail ps (ground arith) in
            let step' =
              next_release_step info severity power.last_updated_avg_power cdev_info.max_state
                step in
            let (done, steps', run, within) =
              release_loop-AllWithin cooling ps severity binded (insert cdev step' steps) known.1 (
                AllWithin-insert cooling cdev cdev_info step' steps found
                  (next_release_step-IsWithin info severity power.last_updated_avg_power
                    cdev_info.max_state step (all cdev cdev_info step found at))
                  all) in
            (done, steps', rw registered (rw found (rw at (rw powered run))), within)
        | inr absent ↦ (false, steps, rw absent refl, all)
      ]
