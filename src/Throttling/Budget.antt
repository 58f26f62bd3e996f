-- ===== src/Throttling/Budget.antt =====
-- The power budget of `updatePowerBudget` against the limits of the configuration, and its integral part
-- against the requests.
use mathlib.Core.Option.{some-injective}
use hardware_mediatek.Base.{
  ◌≡◌, refl, Bool, true, false, ◌&&◌, some, >>=-eq-some, ℤ, pos, Bool-cases, inl, inr, arith, subst,
  sym, ◌∙◌, String, List, [], ◌∷◌, Map, lookup, contains, get_elem?, Option-cases,
}
use hardware_mediatek.Floats.{Float, IsOrdered, IsNumber, ◌≼◌, zero_f, clamp}
use hardware_mediatek.ThermalInfo.{
  ThrottlingSeverity, ThrottlingInfo, BindedCdevInfo, CdevInfo, sev_eq,
}
use hardware_mediatek.Throttling.State.{ThermalThrottlingStatus, binded_map}
use hardware_mediatek.Throttling.Pid.{
  Update, assigned_vote, default_i_budget, retarget, settle_transient, compute_budget,
  update_power_budget, initial_i_budget, compensation, compute_excluded_power, throttle_flags,
  get_target_state_of_pid,
}

assigned_vote_same :
    (c : String) (requests requests' : Map (List ℤ))
    → contains c requests ≡ contains c requests'
    → assigned_vote c requests ≡ assigned_vote c requests'
unfolding assigned_vote
assigned_vote_same c requests requests' e = ground arith

module _ {ℓ} {W : Type ℓ} ⦃f : Float W⦄ where
  -- The default of the integral part depends only on which devices have requests, and not on what
  -- they are.
  pub default_i_budget_same :
      (binded : Map (BindedCdevInfo W)) (cooling : Map (CdevInfo W))
      (requests requests' : Map (List ℤ)) (budget : W)
      → ((c : String) → contains c requests ≡ contains c requests')
      → default_i_budget binded cooling requests budget
        ≡ default_i_budget binded cooling requests' budget
  unfolding default_i_budget
  default_i_budget_same [] cooling requests requests' budget e = refl
  default_i_budget_same ((cdev, _) ∷ binded) cooling requests requests' budget e =
      let vote = assigned_vote_same cdev requests requests' (e cdev) in
      elim (Option-cases (lookup cdev cooling)) [
        | inl missing ↦ rw missing refl
        | inr (info, found) ↦
            rw (found, vote)
              (elim (Option-cases (get_elem? info.state2power (assigned_vote cdev requests'))) [
                | inl outside ↦ rw outside refl
                | inr (power, at) ↦
                    rw at (
                      default_i_budget_same binded cooling requests requests' (f.add budget power)
                        e)
              ])
      ]

module _ {ℓ} {W : Type ℓ} ⦃f : Float W⦄ (laws : IsOrdered W) where
  abbrev pub IsBetween : W → W → W → Type 0
  IsBetween lo hi x = (f.lt x lo ≡ false) × (f.lt hi x ≡ false)

  clamp-IsBetween :
      (x lo hi : W) → IsNumber lo → IsNumber hi → lo ≼ hi → IsBetween lo hi (clamp x lo hi)
  clamp-IsBetween x lo hi nlo nhi le = ground (
    arith,
    laws.le_refl lo nlo,
    laws.le_refl hi nhi,
    laws.lt-eq-not-le lo lo nlo nlo,
    laws.lt-eq-not-le hi hi nhi nhi,
    laws.lt-eq-not-le hi lo nhi nlo,
  )

  settle_transient-IsBetween :
      (info : ThrottlingInfo W) (changed : Bool) (budget lo hi : W) (s : ThermalThrottlingStatus W)
      → s.tran_cycle ≡ pos 0
      → IsBetween lo hi budget
      → IsBetween lo hi (settle_transient info changed budget s).0
  unfolding settle_transient
  settle_transient-IsBetween info changed budget lo hi s e h = rw e h

  compute_budget-IsBetween :
      (info : ThrottlingInfo W) (u : Update W) (target : ThrottlingSeverity) (flags : Bool × Bool)
      (changed : Bool) (s : ThermalThrottlingStatus W) (r : W × ThermalThrottlingStatus W)
      → IsNumber (info.min_alloc_power target)
      → IsNumber (info.max_alloc_power target)
      → info.min_alloc_power target ≼ info.max_alloc_power target
      → s.tran_cycle ≡ pos 0
      → compute_budget info u target flags changed s ≡ some r
      → IsBetween (info.min_alloc_power target) (info.max_alloc_power target) r.0
  unfolding compute_budget
  compute_budget-IsBetween info u target (throttled, released) changed s r nlo nhi le done e =
      let lo = info.min_alloc_power target in
      let hi = info.max_alloc_power target in
      let (_, _, e1) = >>=-eq-some (initial_i_budget info u s.i_budget) _ e in
      let (_, _, e2) =
        >>=-eq-some (compensation u target (u.sensor_info.hot_thresholds target)) _ e1 in
      let (_, _, e3) =
        >>=-eq-some
          (compute_excluded_power info.excluded_power_info_map u.curr_severity u.power_status_map
            zero_f)
          _ e2 in
      subst (λ (x : W × ThermalThrottlingStatus W). IsBetween lo hi x.0) (some-injective _ r e3)
        (settle_transient-IsBetween info changed _ lo hi _ done
          (clamp-IsBetween _ lo hi nlo nhi le))

  -- The limits of the target of a sensor are numbers in order, and it is in no transition.
  abbrev pub IsSettled : ThrottlingSeverity → ThermalThrottlingStatus W → ThrottlingInfo W → Type 0
  IsSettled curr s info =
      let target = get_target_state_of_pid info.s_power curr in
      IsNumber (info.min_alloc_power target)
      × IsNumber (info.max_alloc_power target)
      × (info.min_alloc_power target ≼ info.max_alloc_power target)
      × ((retarget info target s).1.tran_cycle ≡ pos 0)

  abbrev pub IsAllowed : ThrottlingSeverity → W → ThrottlingInfo W → Type 0
  IsAllowed curr budget info =
      let target = get_target_state_of_pid info.s_power curr in
      IsBetween (info.min_alloc_power target) (info.max_alloc_power target) budget

  -- Where the sensor throttles, the limits of its target are in order, and no transition to a new
  -- target is under way, the power budget is not below the least and not above the greatest power of
  -- the target.
  pub update_power_budget-IsAllowed :
      (u : Update W) (info : ThrottlingInfo W) (s : ThermalThrottlingStatus W)
      (r : W × ThermalThrottlingStatus W)
      → u.sensor_info.throttling_info ≡ some info
      → sev_eq u.curr_severity ThrottlingSeverity.none ≡ false
      → IsSettled u.curr_severity s info
      → update_power_budget u s ≡ some r
      → IsAllowed u.curr_severity r.0 info
  unfolding update_power_budget
  update_power_budget-IsAllowed u info s r given hot settled e =
      let (own, given', e0) = >>=-eq-some u.sensor_info.throttling_info _ (rw hot at e) in
      let same = some-injective own info (sym given' ∙ given) in
      let (nlo, nhi, le, done) = subst (IsSettled u.curr_severity s) (sym same) settled in
      let target = get_target_state_of_pid own.s_power u.curr_severity in
      let lo = own.min_alloc_power target in
      let hi = own.max_alloc_power target in
      let err = f.sub (u.sensor_info.hot_thresholds target) u.value in
      let moved = (retarget own target s).1 in
      let (flags, _, e1) =
        >>=-eq-some
          (throttle_flags (binded_map own s.profile) s.pid_cdev_request_map u.curr_severity true
            true)
          _ e0 in
      subst (IsAllowed u.curr_severity r.0) same
        (elim (Bool-cases (u.max_throttling && f.le err zero_f)) [
          | inl throttled ↦
              subst (λ (x : W × ThermalThrottlingStatus W). IsBetween lo hi x.0)
                (some-injective (lo, moved) r (rw throttled at e1)) (least lo hi nlo nhi le)
          | inr computed ↦
              compute_budget-IsBetween own u target flags (retarget own target s).0 moved r nlo nhi
                le done (rw computed at e1)
        ])
    where
      least : (lo hi : W) → IsNumber lo → IsNumber hi → lo ≼ hi → IsBetween lo hi lo
      least lo hi nlo nhi le = ground (
        arith,
        laws.le_refl lo nlo,
        laws.lt-eq-not-le lo lo nlo nlo,
        laws.lt-eq-not-le hi lo nhi nlo,
      )
