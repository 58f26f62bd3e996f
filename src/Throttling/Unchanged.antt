-- ===== src/Throttling/Unchanged.antt =====
-- The updates of a sensor leave its requests in force alone.
use hardware_mediatek.Base.{
  ◌≡◌, refl, Bool, true, false, some, pos, is_empty, if◌then◌else◌, if_both, ◌&&◌, >>=-eq-some,
  Bool-cases, inl, inr, subst, map_values,
}
use mathlib.Core.Option.{some-injective}
use hardware_mediatek.Floats.{Float, zero_f}
use hardware_mediatek.ThermalInfo.{ThrottlingSeverity, ThrottlingInfo, sev_eq}
use hardware_mediatek.Throttling.State.{ThermalThrottlingStatus, binded_map}
use hardware_mediatek.Throttling.Pid.{
  Update, retarget, settle_transient, compute_budget, update_power_budget, initial_i_budget,
  compensation, compute_excluded_power, throttle_flags, get_target_state_of_pid,
}
use hardware_mediatek.Throttling.Allocate.{allocate_power_to_cdev, allocate_pass, end_pass}
use hardware_mediatek.Throttling.Release.{release_loop}
use hardware_mediatek.Throttling.Update.{
  update_cdev_request_by_power, update_by_pid, update_by_severity, update_by_release,
}

module _ {ℓ} {W : Type ℓ} ⦃f : Float W⦄ where
  -- The requests in force stay.
  abbrev pub Same : ThermalThrottlingStatus W → ThermalThrottlingStatus W → Type 0
  Same s s' = s'.cdev_status_map ≡ s.cdev_status_map

  retarget-Same :
      (info : ThrottlingInfo W) (target : ThrottlingSeverity) (s : ThermalThrottlingStatus W)
      → Same s (retarget info target s).1
  unfolding retarget
  retarget-Same info target s = refl

  settle_transient-Same :
      (info : ThrottlingInfo W) (changed : Bool) (budget : W) (s : ThermalThrottlingStatus W)
      → Same s (settle_transient info changed budget s).1
  unfolding settle_transient
  settle_transient-Same info changed budget s =
      if_both (λ (r : W × ThermalThrottlingStatus W). Same s r.1) _ _ _ refl refl

  compute_budget-Same :
      (info : ThrottlingInfo W) (u : Update W) (target : ThrottlingSeverity) (flags : Bool × Bool)
      (changed : Bool) (s : ThermalThrottlingStatus W) (r : W × ThermalThrottlingStatus W)
      → compute_budget info u target flags changed s ≡ some r
      → Same s r.1
  unfolding compute_budget
  compute_budget-Same info u target (throttled, released) changed s r e =
      let (_, _, e1) = >>=-eq-some (initial_i_budget info u s.i_budget) _ e in
      let (_, _, e2) =
        >>=-eq-some (compensation u target (u.sensor_info.hot_thresholds target)) _ e1 in
      let (_, _, e3) =
        >>=-eq-some
          (compute_excluded_power info.excluded_power_info_map u.curr_severity u.power_status_map
            zero_f)
          _ e2 in
      subst (λ (x : W × ThermalThrottlingStatus W). Same s x.1) (some-injective _ r e3)
        (settle_transient-Same info changed _ _)

  update_power_budget-Same :
      (u : Update W) (s : ThermalThrottlingStatus W) (r : W × ThermalThrottlingStatus W)
      → update_power_budget u s ≡ some r
      → Same s r.1
  unfolding update_power_budget retarget
  update_power_budget-Same u s r e =
      let same = λ (x : W × ThermalThrottlingStatus W). Same s x.1 in
      elim (Bool-cases (sev_eq u.curr_severity ThrottlingSeverity.none)) [
        | inl cool ↦ subst same (some-injective (f.biggest, s) r (rw cool at e)) refl
        | inr hot ↦
            let (info, _, e1) = >>=-eq-some u.sensor_info.throttling_info _ (rw hot at e) in
            let (flags, _, e2) =
              >>=-eq-some
                (throttle_flags (binded_map info s.profile) s.pid_cdev_request_map u.curr_severity
                  true true)
                _ e1 in
            let target = get_target_state_of_pid info.s_power u.curr_severity in
            let err = f.sub (u.sensor_info.hot_thresholds target) u.value in
            let moved = (retarget info target s).1 in
            elim (Bool-cases (u.max_throttling && f.le err zero_f)) [
              | inl throttled ↦
                  subst same
                    (some-injective (info.min_alloc_power target, moved) r (rw throttled at e2))
                    refl
              | inr computed ↦
                  compute_budget-Same info u target flags (retarget info target s).0 moved r
                    (rw computed at e2)
            ]
      ]

  allocate_power_to_cdev-Same :
      (u : Update W) (s : ThermalThrottlingStatus W) (r : Bool × ThermalThrottlingStatus W)
      → allocate_power_to_cdev u s ≡ some r
      → Same s r.1
  unfolding allocate_power_to_cdev
  allocate_power_to_cdev-Same u s r e =
      let same = λ (x : Bool × ThermalThrottlingStatus W). Same s x.1 in
      let ((budget, s'), run, e1) = >>=-eq-some (update_power_budget u s) _ e in
      let kept = update_power_budget-Same u s (budget, s') run in
      let (info, _, e2) = >>=-eq-some u.sensor_info.throttling_info _ e1 in
      let ((done, a), _, e3) =
        >>=-eq-some (allocate_pass u s' true (binded_map info s'.profile) _) _ e2 in
      elim (Bool-cases done) [
        | inl through ↦
            let ((done', b), _, e4) =
              >>=-eq-some (allocate_pass u s' false (binded_map info s'.profile) (end_pass a)) _
                (rw through at e3) in
            subst same (some-injective _ r e4) kept
        | inr stopped ↦ subst same (some-injective (false, s') r (rw stopped at e3)) kept
      ]

  pub update_by_pid-Same :
      (u : Update W) (s s' : ThermalThrottlingStatus W) → update_by_pid u s ≡ some s' → Same s s'
  unfolding update_by_pid
  update_by_pid-Same u s s' e = elim (Bool-cases (is_empty s.pid_power_budget_map)) [
    | inl unused ↦ subst (Same s) (some-injective s s' (rw unused at e)) refl
    | inr used ↦
        let ((done, s1), run, e1) = >>=-eq-some (allocate_power_to_cdev u s) _ (rw used at e) in
        let kept = allocate_power_to_cdev-Same u s (done, s1) run in
        let (_, _, e2) =
          >>=-eq-some
            (update_cdev_request_by_power u.cooling_device_info_map s1.pid_power_budget_map (
              if done
              then s1.pid_cdev_request_map
              else map_values (λ _. pos 0) s1.pid_cdev_request_map))
            _ e1 in
        subst (Same s) (some-injective _ s' e2) kept
  ]

  pub update_by_severity-Same :
      (u : Update W) (s s' : ThermalThrottlingStatus W)
      → update_by_severity u s ≡ some s'
      → Same s s'
  unfolding update_by_severity
  update_by_severity-Same u s s' e = elim (Bool-cases (is_empty s.hardlimit_cdev_request_map)) [
    | inl unused ↦ subst (Same s) (some-injective s s' (rw unused at e)) refl
    | inr used ↦
        let (info, _, e1) = >>=-eq-some u.sensor_info.throttling_info _ (rw used at e) in
        subst (Same s) (some-injective _ s' e1) refl
  ]

  pub update_by_release-Same :
      (u : Update W) (s s' : ThermalThrottlingStatus W)
      → update_by_release u s ≡ some s'
      → Same s s'
  unfolding update_by_release
  update_by_release-Same u s s' e = elim (Bool-cases (is_empty s.throttling_release_map)) [
    | inl unused ↦ subst (Same s) (some-injective s s' (rw unused at e)) refl
    | inr used ↦
        let (info, _, e1) = >>=-eq-some u.sensor_info.throttling_info _ (rw used at e) in
        let (_, _, e2) =
          >>=-eq-some
            (release_loop u.cooling_device_info_map u.power_status_map u.curr_severity
              info.binded_cdev_info_map s.throttling_release_map)
            _ e1 in
        subst (Same s) (some-injective _ s' e2) refl
  ]
