-- ===== src/Watcher/Wakes.antt =====
-- The handler is called again within the delay of each watched sensor whose reading has not failed.
use hardware_mediatek.Base.{
  ℕ, ◌≤◌, ◌≡◌, ◌⊎◌, Bool, true, false, ◌&&◌, some, List, [], ◌∷◌, >>=-eq-some, String, ℤ, pos, ◌≤ℤ◌,
  ◌-ℤ◌, ≤ℤ_trans, ≤ℤ_refl, lookup, contains, All, arith, Bool-cases, inl, inr, subst, sym, ap, ◌∙◌,
}
use mathlib.Core.Option.{some-injective}
use hardware_mediatek.Floats.{Float}
use hardware_mediatek.ThermalInfo.{SensorInfo, is_okay}
use hardware_mediatek.Cooling.{update_cooling_devices}
use hardware_mediatek.Emulation.{names_of}
use hardware_mediatek.Stats.Reports.{report_stats_if_due}
use hardware_mediatek.Reading.State.{reading_depth}
use hardware_mediatek.Reading.Temperatures.{read_temperature}
use hardware_mediatek.Watcher.State.{Helper, Call, Round, Outcome}
use hardware_mediatek.Watcher.Due.{Decision, decide, store_events}
use hardware_mediatek.Watcher.Respond.{inputs_of, set_store, set_statuses, sleep_at_most}
use hardware_mediatek.Watcher.Rounds.{
  handle, watch_sensor, watch_sensors, select, finish, first_round, thermal_watcher_callback_func,
}
use hardware_mediatek.Watcher.Failed.{here, later, Unread, FailsAt, FailsIn, HasFailed, IsWoken}
use hardware_mediatek.Watcher.Sleep.{longest, sleep_of, sleep_at_most_le, respond_sleep, decide_le}
use hardware_mediatek.Watcher.Names.{among_names, contains-store_events}

remaining_le : (a b : ℕ) → pos a -ℤ pos b ≤ℤ pos a
unfolding ◌-ℤ◌
remaining_le a b = ground arith

module _ {ℓ} {W E : Type ℓ} ⦃f : Float W⦄ (c : Call W E) where
  handle_wakes :
      (name : String) (info : SensorInfo W) (max_throttling : Bool) (d : Decision)
      (r r' : Round W E)
      → d.sleep_ms ≤ longest info
      → handle c name info max_throttling d r ≡ some r'
      → (sleep_of r' ≤ℤ sleep_of r)
        × ((sleep_of r' ≤ℤ pos (longest info))
            ⊎ ((d.force_update ≡ true) × Unread c name d r.helper))
  unfolding handle
  handle_wakes name info max_throttling d r r' low run =
      let Woken : Round W E → Type ℓ = λ x.
        (sleep_of x ≤ℤ sleep_of r)
        × ((sleep_of x ≤ℤ pos (longest info))
            ⊎ ((d.force_update ≡ true) × Unread c name d r.helper)) in
      elim (Bool-cases d.force_update) [
        | inr waits ↦
            let remaining = pos d.sleep_ms -ℤ pos d.time_elapsed_ms in
            let bound = sleep_at_most_le remaining r in
            let slept : ℤ = sleep_of (sleep_at_most remaining r) in
            subst Woken (some-injective _ r' (rw waits at run)) (
              bound.0,
              inl (
                  ≤ℤ_trans slept remaining (pos (longest info)) bound.1 (
                    ≤ℤ_trans remaining (pos d.sleep_ms) (pos (longest info))
                      (remaining_le d.sleep_ms d.time_elapsed_ms) (omega arith))),
            )
        | inl due ↦
            let reading =
              read_temperature (inputs_of c r.helper) (reading_depth c.outside.sensor_info_map)
                d.force_no_cache name r.helper.store in
            let (out, was, rest) = >>=-eq-some reading _ (rw due at run) in
            let r1 = record r { helper = set_store out.2 r.helper } in
            elim (Bool-cases (is_okay out.0)) [
              | inr stop ↦
                  subst Woken (some-injective r1 r' (rw stop at rest))
                    (≤ℤ_refl (sleep_of r), inr (due, (out.0, out.1, out.2, was, stop)))
              | inl go ↦
                  let (temp, _, rest') = >>=-eq-some out.1 _ (rw go at rest) in
                  let (less, woken) =
                    respond_sleep c name info temp d max_throttling r1 r' low rest' in
                  (less, inl woken)
            ]
      ]

  -- What a watched sensor that is configured is due, where its failure is `Failed`.
  abbrev WokenAt : (String → Type ℓ) → ℤ → String → Type ℓ
  WokenAt Failed sleep name =
      (info : SensorInfo W)
      → lookup name c.outside.sensor_info_map ≡ some info
      → info.is_watch ≡ true
      → (sleep ≤ℤ pos (longest info)) ⊎ Failed name

  WokenAt-mono :
      (Failed Failed' : String → Type ℓ) (name : String) (sleep sleep' : ℤ)
      → sleep' ≤ℤ sleep
      → (Failed name → Failed' name)
      → WokenAt Failed sleep name
      → WokenAt Failed' sleep' name
  WokenAt-mono Failed Failed' name sleep sleep' less wider woken info known watched =
      elim (woken info known watched) [
        | inl low ↦ inl (≤ℤ_trans sleep' sleep (pos (longest info)) less low)
        | inr failed ↦ inr (wider failed)
      ]

  watch_wakes :
      (name : String) (r r' : Round W E)
      → watch_sensor c name r ≡ some r'
      → (sleep_of r' ≤ℤ sleep_of r) × WokenAt (λ n. FailsAt c n r) (sleep_of r') name
  unfolding watch_sensor
  watch_wakes name r r' run =
      let (status, has, run1) = >>=-eq-some (lookup name r.helper.store.statuses) _ run in
      let (info, known, run2) = >>=-eq-some (lookup name c.outside.sensor_info_map) _ run1 in
      elim (Bool-cases info.is_watch) [
        | inr idle ↦
            let same = some-injective r r' (rw idle at run2) in
            (
              subst (λ (x : Round W E). sleep_of x ≤ℤ sleep_of r) same (≤ℤ_refl (sleep_of r)),
              λ info' known' watched.
                  let info_same = some-injective info info' (sym known ∙ known') in
                  absurd (not_watched info info' info_same idle watched),
            )
        | inl watched ↦
            let decided =
              decide c.uevent_sensor_map c.now name info status r.helper.store.statuses in
            let (d, was, run3) = >>=-eq-some decided _ (rw watched at run2) in
            let low =
              decide_le c.uevent_sensor_map c.now name info status r.helper.store.statuses d was in
            let (less, woken) =
              handle_wakes name info status.override_status.max_throttling d.0
                (record r { helper = set_statuses d.1 r.helper }) r' low run3 in
            (
              less,
              λ info' known' _.
                  subst (λ (x : SensorInfo W). (sleep_of r' ≤ℤ pos (longest x)) ⊎ FailsAt c name r)
                    (some-injective info info' (sym known ∙ known'))
                    (elim woken [
                      | inl bound ↦ inl bound
                      | inr (due, unread) ↦ inr (record {
                        info = info;
                        status = status;
                        decided = d;
                        stored = has;
                        configured = known;
                        decides = was;
                        due = due;
                        unread = unread;
                      })
                    ]),
            )
      ]
    where
      not_watched :
          (info info' : SensorInfo W)
          → info ≡ info'
          → info.is_watch ≡ false
          → info'.is_watch ≡ true
          → ⊥
      not_watched info info' same idle watched = cc

  -- What is due to each of the names, once its failures are widened.
  All-mono :
      (Failed Failed' : String → Type ℓ) (sleep : ℤ) (names : List String)
      → ((name : String) → Failed name → Failed' name)
      → All (WokenAt Failed sleep) names
      → All (WokenAt Failed' sleep) names
  All-mono Failed Failed' sleep [] wider all = tt
  All-mono Failed Failed' sleep (name ∷ names) wider all = (
    WokenAt-mono Failed Failed' name sleep sleep (≤ℤ_refl sleep) (wider name) all.0,
    All-mono Failed Failed' sleep names wider all.1,
  )

  watch_sensors_wakes :
      (names : List String) (r r' : Round W E)
      → watch_sensors c names r ≡ some r'
      → (sleep_of r' ≤ℤ sleep_of r) × All (WokenAt (λ n. FailsIn c n names r) (sleep_of r')) names
  unfolding watch_sensors
  watch_sensors_wakes [] r r' run = (
    subst (λ (x : Round W E). sleep_of x ≤ℤ sleep_of r) (some-injective r r' run)
        (≤ℤ_refl (sleep_of r)),
    tt,
  )
  watch_sensors_wakes (name ∷ names) r r' run =
      let (r1, first, rest) = >>=-eq-some (watch_sensor c name r) _ run in
      let (less1, woken) = watch_wakes name r r1 first in
      let (less, all) = watch_sensors_wakes names r1 r' rest in
      (
        ≤ℤ_trans (sleep_of r') (sleep_of r1) (sleep_of r) less less1,
        (
          WokenAt-mono (λ n. FailsAt c n r) (λ n. FailsIn c n (name ∷ names) r) name (sleep_of r1)
              (sleep_of r') less (λ failed. here names r failed) woken,
          All-mono (λ n. FailsIn c n names r1) (λ n. FailsIn c n (name ∷ names) r) (sleep_of r')
              names (λ n failed. later name names r r1 first failed) all,
        ),
      )

module _ {ℓ} {W E : Type ℓ} ⦃f : Float W⦄ (c : Call W E) where
  finish_sleep :
      (r : Round W E) (out : Outcome W E) → finish c r ≡ some out → out.sleep_ms ≡ sleep_of r
  unfolding finish
  finish_sleep r out run =
      let callbacks = select c.outside.sensor_info_map (λ info. info.send_cb && c.has_cb) r.temps in
      let hints = select c.outside.sensor_info_map (λ info. info.send_powerhint) r.temps in
      let (_, _, run1) = >>=-eq-some callbacks _ run in
      let (_, _, run2) = >>=-eq-some hints _ run1 in
      let (_, _, run3) =
        >>=-eq-some
          (update_cooling_devices c.cooling_device_info_map r.helper.throttling.cdev_all_request_map
            r.cooling_devices_to_update)
          _ run2 in
      let (_, _, run4) =
        >>=-eq-some (report_stats_if_due c.outside.client c.now c.report_later r.helper.store.stats)
          _ run3 in
      ap (λ (x : Outcome W E). x.sleep_ms) (sym (some-injective _ out run4))

  -- After a call of the handler that goes through, the watcher sleeps no longer than the longer delay
  -- of each watched sensor with a status, unless the loop of this very call came to the sensor, found
  -- it due, and its reading gave no temperature.
  pub thermal_watcher_callback_func-IsWoken :
      (h : Helper W E) (out : Outcome W E) (name : String) (info : SensorInfo W)
      → thermal_watcher_callback_func c h ≡ some out
      → contains name h.store.statuses ≡ true
      → lookup name c.outside.sensor_info_map ≡ some info
      → info.is_watch ≡ true
      → IsWoken c h name info out.sleep_ms
  unfolding thermal_watcher_callback_func
  thermal_watcher_callback_func-IsWoken h out name info run has known watched =
      let stored = store_events c.now c.uevent_sensor_map h.store.statuses in
      let (statuses, was, run1) = >>=-eq-some stored _ run in
      let start = first_round (set_statuses statuses h) in
      let names = names_of statuses in
      let (r, loop, run2) = >>=-eq-some (watch_sensors c names start) _ run1 in
      let woken =
        among_names (WokenAt c (λ n. FailsIn c n names start) (sleep_of r)) name statuses
          (watch_sensors_wakes c names start r loop).1
          (contains-store_events c.now c.uevent_sensor_map name h.store.statuses statuses was
            has) in
      subst (λ (sleep : ℤ). (sleep ≤ℤ pos (longest info)) ⊎ HasFailed c h name)
        (sym (finish_sleep r out run2))
        (elim (woken info known watched) [
          | inl low ↦ inl low
          | inr failed ↦ inr (statuses, was, failed)
        ])
