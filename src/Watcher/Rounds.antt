-- ===== src/Watcher/Rounds.antt =====
-- The loop of the handler over the sensors, and its end.
use hardware_mediatek.Base.{
  Bool, false, not, ◌&&◌, ◌||◌, Option, some, List, [], ◌∷◌, ◌>>=◌, String, pos, ◌-ℤ◌, Map, lookup,
  if◌then◌else◌,
}
use hardware_mediatek.Floats.{Float}
use hardware_mediatek.ThermalInfo.{SensorInfo, Temperature, is_okay}
use hardware_mediatek.Cooling.{update_cooling_devices}
use hardware_mediatek.Emulation.{names_of}
use hardware_mediatek.Stats.Reports.{report_stats_if_due}
use hardware_mediatek.Reading.State.{reading_depth, is_since_below}
use hardware_mediatek.Reading.Temperatures.{read_temperature}
use hardware_mediatek.Watcher.State.{
  Helper, Call, Round, Outcome, milliseconds_max, power_log_interval_ms,
}
use hardware_mediatek.Watcher.Due.{Decision, decide, store_events}
use hardware_mediatek.Watcher.Respond.{set_store, set_statuses, sleep_at_most, inputs_of, respond}

-- The temperatures whose sensors ask for them; a sensor without configuration faults.
unfoldable pub select {ℓ} :
    {W : Type ℓ}
    → Map (SensorInfo W)
    → (SensorInfo W → Bool)
    → List (Temperature W)
    → Option (List (Temperature W))
select infos asks [] = some []
select infos asks (temp ∷ temps) = do
  info ← lookup temp.name infos
  rest ← select infos asks temps
  some (if asks info then temp ∷ rest else rest)

module _ {ℓ} {W E : Type ℓ} ⦃f : Float W⦄ where
  -- A sensor that is due is read; the sleep of one that is not is what remains of its delay.
  unfoldable pub handle :
      Call W E → String → SensorInfo W → Bool → Decision → Round W E → Option (Round W E)
  unfolding respond
  handle c name info max_throttling d r =
      let read : Option (Round W E) = (do
        (status, written, store) ←
            read_temperature (inputs_of c r.helper) (reading_depth c.outside.sensor_info_map)
              d.force_no_cache name r.helper.store
        let r' = record r { helper = set_store store r.helper }
        let responded : Option (Round W E) = (do
          temp ← written
          respond c name info temp d max_throttling r')
        if is_okay status then responded else some r') in
      let remaining = pos d.sleep_ms -ℤ pos d.time_elapsed_ms in
      if d.force_update then read else some (sleep_at_most remaining r)

  unfoldable pub watch_sensor : Call W E → String → Round W E → Option (Round W E)
  unfolding handle
  watch_sensor c name r = do
    status ← lookup name r.helper.store.statuses
    info ← lookup name c.outside.sensor_info_map
    let watched : Option (Round W E) = (do
      (d, statuses) ← decide c.uevent_sensor_map c.now name info status r.helper.store.statuses
      handle c name info status.override_status.max_throttling d
          (record r { helper = set_statuses statuses r.helper }))
    if info.is_watch then watched else some r

  unfoldable pub watch_sensors : Call W E → List String → Round W E → Option (Round W E)
  watch_sensors c [] r = some r
  watch_sensors c (name ∷ names) r = do r' ← watch_sensor c name r; watch_sensors c names r'

  -- The end of the handler.
  unfoldable pub finish : Call W E → Round W E → Option (Outcome W E)
  unfolding select
  finish c r = do
    callbacks ← select c.outside.sensor_info_map (λ info. info.send_cb && c.has_cb) r.temps
    power_hints ← select c.outside.sensor_info_map (λ info. info.send_powerhint) r.temps
    writes ←
        update_cooling_devices c.cooling_device_info_map r.helper.throttling.cdev_all_request_map
          r.cooling_devices_to_update
    (_, stats) ← report_stats_if_due c.outside.client c.now c.report_later r.helper.store.stats
    some (record {
      helper = set_store (record r.helper.store { stats = stats }) r.helper;
      sleep_ms = r.min_sleep_ms;
      callbacks = callbacks;
      power_hints = power_hints;
      writes = writes;
      logs_power =
          not (is_since_below c.now c.prev_power_log_time power_log_interval_ms)
          || r.shutdown_severity_reached;
    })

  abbrev pub first_round : Helper W E → Round W E
  first_round h = record {
    helper = h;
    temps = [];
    cooling_devices_to_update = [];
    min_sleep_ms = milliseconds_max;
    power_data_is_updated = false;
    shutdown_severity_reached = false;
  }

  unfoldable pub thermal_watcher_callback_func : Call W E → Helper W E → Option (Outcome W E)
  unfolding watch_sensors finish
  thermal_watcher_callback_func c h = do
    statuses ← store_events c.now c.uevent_sensor_map h.store.statuses
    r ← watch_sensors c (names_of statuses) (first_round (set_statuses statuses h))
    finish c r
