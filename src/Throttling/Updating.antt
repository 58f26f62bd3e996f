-- ===== src/Throttling/Updating.antt =====
-- `thermalThrottlingUpdate` changes neither the votes nor the requests that are in force.
use hardware_mediatek.Base.{
  ◌≡◌, refl, ◌∙◌, true, some, List, String, ℤ, Map, lookup, insert, sym, str_eq_iff, contains,
  is_empty, if◌then◌else◌, if_both, >>=-eq-some, Bool-cases, Option-cases, inl, inr, arith, subst,
  ap, contains-lookup, lookup-insert, str_eq, str_eq_refl, ◌||◌,
}
use mathlib.Core.Option.{some-injective}
use hardware_mediatek.Floats.{Float}
use hardware_mediatek.ThermalInfo.{SensorInfo}
use hardware_mediatek.Throttling.State.{ThermalThrottlingStatus, ThermalThrottling, status_of}
use hardware_mediatek.Throttling.Tally.{tally}
use hardware_mediatek.Throttling.Consistency.{IsConsistent, requests-insert}
use hardware_mediatek.Throttling.Register.{parse_profile_property}
use hardware_mediatek.Throttling.Pid.{Update}
use hardware_mediatek.Throttling.Update.{
  update_by_pid, update_by_severity, update_by_release, thermal_throttling_update,
}
use hardware_mediatek.Throttling.Unchanged.{
  Same, update_by_pid-Same, update_by_severity-Same, update_by_release-Same,
}

module _ {ℓ} {W : Type ℓ} ⦃f : Float W⦄ where
  -- Every sensor of the first map has the same requests in force in the second.
  abbrev pub SameRequests :
      Map (ThermalThrottlingStatus W) → Map (ThermalThrottlingStatus W) → Type ℓ
  SameRequests m m' =
      (name : String) (old : ThermalThrottlingStatus W)
      → lookup name m ≡ some old
      → (new : ThermalThrottlingStatus W) × (lookup name m' ≡ some new)
        × (new.cdev_status_map ≡ old.cdev_status_map)

  SameRequests-refl : (m : Map (ThermalThrottlingStatus W)) → SameRequests m m
  SameRequests-refl m name old found = (old, found, refl)

  SameRequests-insert :
      (sensor : String) (was new : ThermalThrottlingStatus W)
      (m0 m : Map (ThermalThrottlingStatus W))
      → lookup sensor m ≡ some was
      → Same was new
      → SameRequests m0 m
      → SameRequests m0 (insert sensor new m)
  SameRequests-insert sensor was new m0 m has same kept name old found =
      let (mid, found1, same1) = kept name old found in
      elim (Bool-cases (str_eq sensor name)) [
        | inr other ↦ (mid, rw (lookup-insert sensor name new m, other) found1, same1)
        | inl hit ↦
            let sensor_is : was ≡ mid =
              some-injective was mid
                (sym has ∙ ap (λ k. lookup k m) (str_eq_iff sensor name hit) ∙ found1) in
            (
              new,
              rw (lookup-insert sensor name new m, hit) refl,
              same ∙ ap (λ (x : ThermalThrottlingStatus W). x.cdev_status_map) sensor_is ∙ same1,
            )
      ]

  -- The state is consistent, has the sensor, has these votes, and the sensors of the map have their
  -- requests of it.
  abbrev Holds :
      Map (ThermalThrottlingStatus W) → String → Map (List ℤ) → ThermalThrottling W → Type ℓ
  Holds m0 sensor votes t =
      IsConsistent t
      × (contains sensor t.thermal_throttling_status_map ≡ true)
      × (t.cdev_all_request_map ≡ votes)
      × SameRequests m0 t.thermal_throttling_status_map

  set_status-Holds :
      (m0 : Map (ThermalThrottlingStatus W)) (sensor : String) (votes : Map (List ℤ))
      (new : ThermalThrottlingStatus W) (t : ThermalThrottling W)
      → Holds m0 sensor votes t
      → Same (status_of sensor t.thermal_throttling_status_map) new
      → Holds m0 sensor votes (record t {
        thermal_throttling_status_map = insert sensor new t.thermal_throttling_status_map;
      })
  set_status-Holds m0 sensor votes new t (inv, known, kept, same0) same =
      let m = t.thermal_throttling_status_map in
      let (old, found) = contains-lookup sensor m known in
      let was : Same old new = rw (found, status_of) at same in
      let moved = λ (c : String) (v : ℤ). requests-insert c v sensor old new m found in
      let equal = λ (c : String) (v : ℤ). ap (tally c v) was in
      (
        record {
          ordered = inv.ordered;
          covered = λ c v. omega (arith, inv.covered c v, moved c v, equal c v);
          exact = λ c v ne. omega (arith, inv.exact c v ne, moved c v, equal c v);
        },
        ground (arith, lookup-insert sensor sensor new m, str_eq_refl sensor),
        kept,
        SameRequests-insert sensor old new m0 m found was same0,
      )

  parse_profile_property-Holds :
      (m0 : Map (ThermalThrottlingStatus W)) (sensor : String) (votes : Map (List ℤ))
      (info : SensorInfo W) (profile : String) (t : ThermalThrottling W)
      → Holds m0 sensor votes t
      → Holds m0 sensor votes (parse_profile_property sensor info profile t)
  unfolding parse_profile_property
  parse_profile_property-Holds m0 sensor votes info profile t h =
      let with_profile = λ (p : String).
        set_status-Holds m0 sensor votes
          (record (status_of sensor t.thermal_throttling_status_map) { profile = p }) t h refl in
      elim (Option-cases info.throttling_info) [
        | inl e ↦ rw (e, parse_profile_property) h
        | inr (throttling, e) ↦
            rw (e, parse_profile_property)
              (if_both (Holds m0 sensor votes)
                (str_eq profile "" || contains profile throttling.profile_map) _ _
                (with_profile profile) (with_profile ""))
      ]

  -- An update of a sensor that goes through keeps the votes consistent: it changes what the sensor
  -- would ask for, and neither the votes nor the requests in force of any sensor.
  pub update-IsConsistent :
      (sensor profile : String) (u : Update W) (t t' : ThermalThrottling W)
      → IsConsistent t
      → thermal_throttling_update sensor profile u t ≡ some t'
      → IsConsistent t'
        × (t'.cdev_all_request_map ≡ t.cdev_all_request_map)
        × SameRequests t.thermal_throttling_status_map t'.thermal_throttling_status_map
  unfolding thermal_throttling_update
  update-IsConsistent sensor profile u t t' inv e =
      let m0 = t.thermal_throttling_status_map in
      elim (Bool-cases (contains sensor t.thermal_throttling_status_map)) [
        | inr unknown ↦
            subst
              (λ (x : ThermalThrottling W).
                IsConsistent x
                × (x.cdev_all_request_map ≡ t.cdev_all_request_map)
                × SameRequests m0 x.thermal_throttling_status_map)
              (some-injective t t' (rw unknown at e)) (inv, refl, SameRequests-refl m0)
        | inl known ↦
            let votes = t.cdev_all_request_map in
            let (info, given, e1) = >>=-eq-some u.sensor_info.throttling_info _ (rw known at e) in
            let t1 =
              if is_empty info.profile_map
              then t
              else parse_profile_property sensor u.sensor_info profile t in
            let h1 =
              if_both (Holds m0 sensor votes) (is_empty info.profile_map) t
                (parse_profile_property sensor u.sensor_info profile t)
                (inv, known, refl, SameRequests-refl m0)
                (parse_profile_property-Holds m0 sensor votes u.sensor_info profile t
                  (inv, known, refl, SameRequests-refl m0)) in
            let u' = record u { cdev_all_request_map = votes } in
            let s0 = status_of sensor t1.thermal_throttling_status_map in
            let (s1, run1, e2) = >>=-eq-some (update_by_pid u' s0) _ e1 in
            let (s2, run2, e3) = >>=-eq-some (update_by_severity u' s1) _ e2 in
            let (s3, run3, e4) = >>=-eq-some (update_by_release u' s2) _ e3 in
            let same =
              update_by_release-Same u' s2 s3 run3
              ∙ update_by_severity-Same u' s1 s2 run2
              ∙ update_by_pid-Same u' s0 s1 run1 in
            let (inv', _, votes', requests') = set_status-Holds m0 sensor votes s3 t1 h1 same in
            subst
              (λ (x : ThermalThrottling W).
                IsConsistent x
                × (x.cdev_all_request_map ≡ t.cdev_all_request_map)
                × SameRequests m0 x.thermal_throttling_status_map)
              (some-injective _ t' e4) (inv', votes', requests')
      ]
