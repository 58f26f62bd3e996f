-- ===== src/Cooling/Limits.antt =====
-- The requests stay within the states of the devices, and what is written is the greatest of them.
use hardware_mediatek.Base.{
  ◌≤◌, ◌≡◌, ◌≢◌, refl, true, false, some, [], ◌∷◌, String, ℤ, pos, ◌≤ℤ◌, ≤ℤ_trans, Map, lookup, map,
  List, contains, contains-lookup, All, arith, Bool-cases, inl, inr, subst, sym, ap, ◌∙◌, str_eq,
  str_eq_iff,
}
use mathlib.Core.Option.{some-injective}
use hardware_mediatek.Floats.{Float}
use hardware_mediatek.ThermalInfo.{ThrottlingSeverity, BindedCdevInfo, CdevInfo}
use hardware_mediatek.Throttling.State.{ThermalThrottling, ThermalThrottlingStatus}
use hardware_mediatek.Throttling.Tally.{tally}
use hardware_mediatek.Throttling.Votes.{get_cdev_max_request}
use hardware_mediatek.Throttling.Consistency.{IsConsistent, requests, get_cdev_max_request_lem}
use hardware_mediatek.Throttling.Request.{entry_request, or_zero}
use hardware_mediatek.Throttling.Steps.{request_state_lem, request_state-nonneg}
use hardware_mediatek.Cooling.{
  limit_ceiling, max_cooling_request_check, request_for, update_cooling_devices,
}

module _ {ℓ} {W : Type ℓ} where
  -- Each request for a bound device is at most its greatest state, and not negative where the request
  -- of the control and the ceiling are not.
  abbrev pub RequestsWithin : Map (CdevInfo W) → Map (BindedCdevInfo W) → Type ℓ
  RequestsWithin cooling binded =
      (cdev : String) (info : BindedCdevInfo W) (cdev_info : CdevInfo W)
      (status : ThermalThrottlingStatus W) (severity : ThrottlingSeverity)
      → lookup cdev binded ≡ some info
      → lookup cdev cooling ≡ some cdev_info
      → (entry_request status info severity cdev ≤ℤ cdev_info.max_state)
        × (pos 0 ≤ℤ or_zero cdev status.pid_cdev_request_map
            → pos 0 ≤ℤ info.cdev_ceiling severity
            → pos 0 ≤ℤ entry_request status info severity cdev)

  limit_ceiling_le :
      (max_state : ℤ) (info : BindedCdevInfo W) (severity : ThrottlingSeverity)
      → (limit_ceiling max_state info).cdev_ceiling severity ≤ℤ max_state
  limit_ceiling_le max_state info severity = ground arith

  entry_request_le :
      (max_state : ℤ) (info : BindedCdevInfo W) (status : ThermalThrottlingStatus W)
      (severity : ThrottlingSeverity) (cdev : String)
      → entry_request status (limit_ceiling max_state info) severity cdev ≤ℤ max_state
  unfolding entry_request
  entry_request_le max_state info status severity cdev =
      let limited = limit_ceiling max_state info in
      let low =
        (request_state_lem (or_zero cdev status.pid_cdev_request_map)
          (or_zero cdev status.hardlimit_cdev_request_map)
          (or_zero cdev status.throttling_release_map) (limited.cdev_floor_with_power_link severity)
          (limited.cdev_ceiling severity)).0 in
      ≤ℤ_trans (entry_request status limited severity cdev) (limited.cdev_ceiling severity)
        max_state low (limit_ceiling_le max_state info severity)

  entry_request-nonneg :
      (info : BindedCdevInfo W) (status : ThermalThrottlingStatus W) (severity : ThrottlingSeverity)
      (cdev : String)
      → pos 0 ≤ℤ or_zero cdev status.pid_cdev_request_map
      → pos 0 ≤ℤ info.cdev_ceiling severity
      → pos 0 ≤ℤ entry_request status info severity cdev
  unfolding entry_request
  entry_request-nonneg info status severity cdev =
      request_state-nonneg (or_zero cdev status.pid_cdev_request_map)
        (or_zero cdev status.hardlimit_cdev_request_map)
        (or_zero cdev status.throttling_release_map) (info.cdev_floor_with_power_link severity)
        (info.cdev_ceiling severity)

  -- Where each bound device is a cooling device the check of the ceilings completes. From then on
  -- every request of a sensor for a bound device, whatever its parts, is at most the greatest state of
  -- the device, and it is not negative where the request of the control and the ceiling are not.
  pub max_cooling_request_check-RequestsWithin :
      (cooling : Map (CdevInfo W)) (binded : Map (BindedCdevInfo W))
      → All (λ e. contains e.0 cooling ≡ true) binded
      → (binded' : Map (BindedCdevInfo W)) × (max_cooling_request_check cooling binded
          ≡ some binded')
        × RequestsWithin cooling binded'
  unfolding max_cooling_request_check lookup
  max_cooling_request_check-RequestsWithin cooling [] known =
      ([], refl, λ c i d s v e g. absurd (cc))
  max_cooling_request_check-RequestsWithin cooling ((cdev, info) ∷ binded) known =
      let (cdev_info, found) = contains-lookup cdev cooling known.0 in
      let (rest, run, within) = max_cooling_request_check-RequestsWithin cooling binded known.1 in
      (
        (cdev, limit_ceiling cdev_info.max_state info) ∷ rest,
        rw found (rw run refl),
        λ c i d status severity e g. elim (Bool-cases (str_eq cdev c)) [
          | inl same ↦
              let here = some-injective (limit_ceiling cdev_info.max_state info) i (rw same at e) in
              let device : cdev_info ≡ d =
                some-injective cdev_info d
                  (sym found ∙ ap (λ k. lookup k cooling) (str_eq_iff cdev c same) ∙ g) in
              (
                subst (λ (x : CdevInfo W). entry_request status i severity c ≤ℤ x.max_state) device
                    (subst (λ x. entry_request status x severity c ≤ℤ cdev_info.max_state) here
                      (entry_request_le cdev_info.max_state info status severity c)),
                entry_request-nonneg i status severity c,
              )
          | inr other ↦ within c i d status severity (rw other at e) g
        ],
      )

module _ {ℓ} {W : Type ℓ} ⦃f : Float W⦄ where
  -- The device takes its state directly, and some sensor asks for a state of it.
  abbrev pub IsAsked : Map (CdevInfo W) → Map (ThermalThrottlingStatus W) → String → Type ℓ
  IsAsked cooling statuses cdev =
      (cdev_info : CdevInfo W) × (sensor : String) × (status : ThermalThrottlingStatus W) × (v : ℤ)
      × (lookup cdev cooling ≡ some cdev_info)
      × (cdev_info.apply_powercap ≡ false)
      × (lookup sensor statuses ≡ some status)
      × (1 ≤ tally cdev v status.cdev_status_map)

  -- A write that no sensor's request for the device exceeds, and that some sensor asks for unless it
  -- is 0.
  abbrev pub IsGreatest : Map (ThermalThrottlingStatus W) → String × ℤ → Type ℓ
  IsGreatest statuses write =
      ((sensor : String) (status : ThermalThrottlingStatus W) (v : ℤ)
        → lookup sensor statuses ≡ some status
        → 1 ≤ tally write.0 v status.cdev_status_map
        → v ≤ℤ write.1)
      × (write.1 ≢ pos 0 → 1 ≤ requests write.0 write.1 statuses)

  -- The greatest of the votes for a device that a sensor asks for is one that all sensors' requests
  -- respect.
  greatest_lem :
      (t : ThermalThrottling W) (sensor cdev : String) (v : ℤ) (status : ThermalThrottlingStatus W)
      → IsConsistent t
      → lookup sensor t.thermal_throttling_status_map ≡ some status
      → 1 ≤ tally cdev v status.cdev_status_map
      → (m : ℤ) × (get_cdev_max_request cdev t.cdev_all_request_map ≡ some m)
        × IsGreatest t.thermal_throttling_status_map (cdev, m)
  greatest_lem t sensor cdev v status inv found asks =
      let (m, run, _, asked) = get_cdev_max_request_lem t sensor cdev v status inv found asks in
      (
        m,
        run,
        (
          λ sensor' status' v' found' asks'.
              let (m', run', low, _) =
                get_cdev_max_request_lem t sensor' cdev v' status' inv found' asks' in
              subst (λ x. v' ≤ℤ x) (some-injective m' m (sym run' ∙ run)) low,
          asked,
        ),
      )

  -- In a consistent state the update of any list of devices that take their states directly, each
  -- with a sensor that asks for one, completes with one write for each of them, in their order. Each
  -- write is a state that no sensor's request for the device exceeds, and unless it is 0 some sensor
  -- asks for it.
  pub update_cooling_devices_lem :
      (cooling : Map (CdevInfo W)) (t : ThermalThrottling W) (cdevs : List String)
      → IsConsistent t
      → All (IsAsked cooling t.thermal_throttling_status_map) cdevs
      → (writes : List (String × ℤ)) × (update_cooling_devices cooling t.cdev_all_request_map cdevs
          ≡ some writes)
        × (map (λ w. w.0) writes ≡ cdevs)
        × All (IsGreatest t.thermal_throttling_status_map) writes
  unfolding update_cooling_devices request_for
  update_cooling_devices_lem cooling t [] inv asked = ([], refl, refl, tt)
  update_cooling_devices_lem cooling t (cdev ∷ cdevs) inv
        ((cdev_info, sensor, status, v, known, direct, found, asks), asked) =
      let (m, run, greatest) = greatest_lem t sensor cdev v status inv found asks in
      let (writes, runs, names, all) = update_cooling_devices_lem cooling t cdevs inv asked in
      (
        (cdev, m) ∷ writes,
        rw known (rw runs (rw run (rw direct refl))),
        ap (λ (rest : List String). cdev ∷ rest) names,
        (greatest, all),
      )
