-- ===== src/Watcher/Writes.antt =====
-- What the handler writes to a device covers the request of every sensor for it.
use hardware_mediatek.Base.{
  ℕ, ◌≤◌, ◌≡◌, Bool, false, ◌&&◌, some, List, [], ◌∷◌, >>=-eq-some, String, ℤ, ◌≤ℤ◌, lookup,
  Bool-cases, inl, inr, get_elem?, subst, sym, ◌∙◌,
}
use mathlib.Core.Option.{some-injective}
use hardware_mediatek.Floats.{Float}
use hardware_mediatek.ThermalInfo.{SensorInfo, CdevInfo, is_okay}
use hardware_mediatek.Throttling.State.{ThermalThrottling, ThermalThrottlingStatus}
use hardware_mediatek.Throttling.Tally.{tally}
use hardware_mediatek.Throttling.Consistency.{IsConsistent, get_cdev_max_request_lem}
use hardware_mediatek.Cooling.{update_cooling_devices}
use hardware_mediatek.Stats.Reports.{report_stats_if_due}
use hardware_mediatek.Emulation.{names_of}
use hardware_mediatek.Reading.State.{reading_depth}
use hardware_mediatek.Reading.Temperatures.{read_temperature}
use hardware_mediatek.Watcher.State.{Helper, Call, Round, Outcome}
use hardware_mediatek.Watcher.Due.{Decision, decide, store_events}
use hardware_mediatek.Watcher.Respond.{inputs_of, set_store, set_statuses}
use hardware_mediatek.Watcher.Rounds.{
  handle, watch_sensor, watch_sensors, select, finish, first_round, thermal_watcher_callback_func,
}
use hardware_mediatek.Watcher.Votes.{throttling_of, respond_kept}
use hardware_mediatek.Watcher.Direct.{direct_write}

module _ {ℓ} {W E : Type ℓ} ⦃f : Float W⦄ (c : Call W E) where
  handle_kept :
      (name : String) (info : SensorInfo W) (max_throttling : Bool) (d : Decision)
      (r r' : Round W E)
      → IsConsistent (throttling_of r)
      → handle c name info max_throttling d r ≡ some r'
      → IsConsistent (throttling_of r')
  unfolding handle
  handle_kept name info max_throttling d r r' inv run = elim (Bool-cases d.force_update) [
    | inr waits ↦
        subst (λ (x : Round W E). IsConsistent (throttling_of x))
          (some-injective _ r' (rw waits at run)) inv
    | inl due ↦
        let reading =
          read_temperature (inputs_of c r.helper) (reading_depth c.outside.sensor_info_map)
            d.force_no_cache name r.helper.store in
        let (out, _, rest) = >>=-eq-some reading _ (rw due at run) in
        let r1 = record r { helper = set_store out.2 r.helper } in
        elim (Bool-cases (is_okay out.0)) [
          | inr stop ↦
              subst (λ (x : Round W E). IsConsistent (throttling_of x))
                (some-injective r1 r' (rw stop at rest)) inv
          | inl go ↦
              let (temp, _, rest') = >>=-eq-some out.1 _ (rw go at rest) in
              respond_kept c name info temp d max_throttling r1 r' inv rest'
        ]
  ]

  watch_kept :
      (name : String) (r r' : Round W E)
      → IsConsistent (throttling_of r)
      → watch_sensor c name r ≡ some r'
      → IsConsistent (throttling_of r')
  unfolding watch_sensor
  watch_kept name r r' inv run =
      let (status, _, run1) = >>=-eq-some (lookup name r.helper.store.statuses) _ run in
      let (info, _, run2) = >>=-eq-some (lookup name c.outside.sensor_info_map) _ run1 in
      elim (Bool-cases info.is_watch) [
        | inr idle ↦
            subst (λ (x : Round W E). IsConsistent (throttling_of x))
              (some-injective r r' (rw idle at run2)) inv
        | inl watched ↦
            let decided =
              decide c.uevent_sensor_map c.now name info status r.helper.store.statuses in
            let (d, _, run3) = >>=-eq-some decided _ (rw watched at run2) in
            handle_kept name info status.override_status.max_throttling d.0
              (record r { helper = set_statuses d.1 r.helper }) r' inv run3
      ]

  watch_sensors_kept :
      (names : List String) (r r' : Round W E)
      → IsConsistent (throttling_of r)
      → watch_sensors c names r ≡ some r'
      → IsConsistent (throttling_of r')
  unfolding watch_sensors
  watch_sensors_kept [] r r' inv run =
      subst (λ (x : Round W E). IsConsistent (throttling_of x)) (some-injective r r' run) inv
  watch_sensors_kept (name ∷ names) r r' inv run =
      let (r1, first, rest) = >>=-eq-some (watch_sensor c name r) _ run in
      watch_sensors_kept names r1 r' (watch_kept name r r1 inv first) rest

module _ {ℓ} {W E : Type ℓ} ⦃f : Float W⦄ (c : Call W E) where
  -- What is written to a device that takes its state directly covers the requests of the sensors.
  abbrev pub Covers : Outcome W E → Type ℓ
  Covers out =
      (i : ℕ) (cdev sensor : String) (m v : ℤ) (info : CdevInfo W)
      (status : ThermalThrottlingStatus W)
      → get_elem? out.writes i ≡ some (cdev, m)
      → lookup cdev c.cooling_device_info_map ≡ some info
      → info.apply_powercap ≡ false
      → lookup sensor out.helper.throttling.thermal_throttling_status_map ≡ some status
      → 1 ≤ tally cdev v status.cdev_status_map
      → v ≤ℤ m

  writes_cover :
      (t : ThermalThrottling W) (cdevs : List String) (writes : List (String × ℤ)) (i : ℕ)
      (cdev sensor : String) (m v : ℤ) (info : CdevInfo W) (status : ThermalThrottlingStatus W)
      → IsConsistent t
      → update_cooling_devices c.cooling_device_info_map t.cdev_all_request_map cdevs ≡ some writes
      → get_elem? writes i ≡ some (cdev, m)
      → lookup cdev c.cooling_device_info_map ≡ some info
      → info.apply_powercap ≡ false
      → lookup sensor t.thermal_throttling_status_map ≡ some status
      → 1 ≤ tally cdev v status.cdev_status_map
      → v ≤ℤ m
  writes_cover t cdevs writes i cdev sensor m v info status inv run at known direct found asks =
      let (greatest, is, low, _) = get_cdev_max_request_lem t sensor cdev v status inv found asks in
      let written =
        direct_write c.cooling_device_info_map t.cdev_all_request_map cdevs writes i cdev m info run
          at known direct in
      subst (λ x. v ≤ℤ x) (some-injective greatest m (sym is ∙ written)) low

  finish_kept :
      (r : Round W E) (out : Outcome W E)
      → IsConsistent (throttling_of r)
      → finish c r ≡ some out
      → IsConsistent out.helper.throttling × Covers out
  unfolding finish
  finish_kept r out inv run =
      let t = throttling_of r in
      let callbacks = select c.outside.sensor_info_map (λ info. info.send_cb && c.has_cb) r.temps in
      let hints = select c.outside.sensor_info_map (λ info. info.send_powerhint) r.temps in
      let (_, _, run1) = >>=-eq-some callbacks _ run in
      let (_, _, run2) = >>=-eq-some hints _ run1 in
      let (writes, written, run3) =
        >>=-eq-some
          (update_cooling_devices c.cooling_device_info_map t.cdev_all_request_map
            r.cooling_devices_to_update)
          _ run2 in
      let (stats, _, run4) =
        >>=-eq-some (report_stats_if_due c.outside.client c.now c.report_later r.helper.store.stats)
          _ run3 in
      subst (λ (x : Outcome W E). IsConsistent x.helper.throttling × Covers x)
        (some-injective _ out run4)
        (
          inv,
          λ i cdev sensor m v info status at known direct found asks.
              writes_cover t r.cooling_devices_to_update writes i cdev sensor m v info status inv
                written at known direct found asks,
        )

  call_kept :
      (h : Helper W E) (out : Outcome W E)
      → IsConsistent h.throttling
      → thermal_watcher_callback_func c h ≡ some out
      → IsConsistent out.helper.throttling × Covers out
  unfolding thermal_watcher_callback_func
  call_kept h out inv run =
      let stored = store_events c.now c.uevent_sensor_map h.store.statuses in
      let (statuses, _, run1) = >>=-eq-some stored _ run in
      let start = first_round (set_statuses statuses h) in
      let (r, watched, run2) = >>=-eq-some (watch_sensors c (names_of statuses) start) _ run1 in
      finish_kept r out (watch_sensors_kept c (names_of statuses) start r inv watched) run2

  -- A call of the handler that goes through keeps the votes consistent, whatever the readings, the
  -- events, the rails and the services say.
  pub thermal_watcher_callback_func-IsConsistent :
      (h : Helper W E) (out : Outcome W E)
      → IsConsistent h.throttling
      → thermal_watcher_callback_func c h ≡ some out
      → IsConsistent out.helper.throttling
  thermal_watcher_callback_func-IsConsistent h out inv run = (call_kept h out inv run).0

  -- In a call of the handler from consistent votes that goes through, what it writes to a device that
  -- takes its state directly is not below the request of any sensor that is bound to the device.
  pub thermal_watcher_callback_func_covers :
      (h : Helper W E) (out : Outcome W E) (i : ℕ) (cdev sensor : String) (m v : ℤ)
      (info : CdevInfo W) (status : ThermalThrottlingStatus W)
      → IsConsistent h.throttling
      → thermal_watcher_callback_func c h ≡ some out
      → get_elem? out.writes i ≡ some (cdev, m)
      → lookup cdev c.cooling_device_info_map ≡ some info
      → info.apply_powercap ≡ false
      → lookup sensor out.helper.throttling.thermal_throttling_status_map ≡ some status
      → 1 ≤ tally cdev v status.cdev_status_map
      → v ≤ℤ m
  thermal_watcher_callback_func_covers h out i cdev sensor m v info status inv run at known direct
        found asks =
      (call_kept h out inv run).1 i cdev sensor m v info status at known direct found asks
