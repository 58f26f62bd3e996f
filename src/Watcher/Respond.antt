-- ===== src/Watcher/Respond.antt =====
-- What the handler does for a sensor whose temperature was read.
use hardware_mediatek.Base.{
  ℕ, Bool, true, false, not, ◌||◌, Option, none, some, List, [], ◌∷◌, ◌++◌, ◌>>=◌, String, ℤ, pos,
  ltb_ℤ, lookup, insert, if◌then◌else◌,
}
use hardware_mediatek.Floats.{Float}
use hardware_mediatek.ThermalInfo.{ThrottlingSeverity, SensorInfo, Temperature, sev_eq}
use hardware_mediatek.PowerRails.State.{PowerFiles}
use hardware_mediatek.PowerRails.Average.{refresh_power_status}
use hardware_mediatek.PowerRails.Register.{power_sampling_switch}
use hardware_mediatek.Throttling.State.{ThermalThrottling}
use hardware_mediatek.Throttling.Pid.{Update}
use hardware_mediatek.Throttling.Register.{clear_throttling_data}
use hardware_mediatek.Throttling.Request.{compute_cooling_devices_request}
use hardware_mediatek.Throttling.Update.{thermal_throttling_update}
use hardware_mediatek.Emulation.{SensorStatus, Statuses}
use hardware_mediatek.Stats.State.{StatsHelper}
use hardware_mediatek.Stats.Updates.{update_sensor_cdev_request_stats}
use hardware_mediatek.Reading.State.{Inputs, Store}
use hardware_mediatek.Watcher.State.{Helper, Call, Round}
use hardware_mediatek.Watcher.Due.{Decision, delay_of, is_none}

-- The calls of `updateSensorCdevRequestStats`, in order.
unfoldable pub record_requests {ℓ} :
    {W : Type ℓ} → ℕ → String → List (String × ℤ) → StatsHelper W → Option (StatsHelper W)
record_requests now sensor [] stats = some stats
record_requests now sensor ((cdev, request) ∷ updates) stats = do
  stats' ← update_sensor_cdev_request_stats now sensor cdev request stats
  record_requests now sensor updates stats'

-- The rails that a sensor switches.
unfoldable pub switch_rails {ℓ} :
    {W : Type ℓ} ⦃f : Float W⦄ → List String → Bool → PowerFiles W → Option (PowerFiles W)
switch_rails [] enabled t = some t
switch_rails (rail ∷ rails) enabled t = do
  t' ← power_sampling_switch rail enabled t
  switch_rails rails enabled t'

module _ {ℓ} {W E : Type ℓ} where
  abbrev pub set_store : Store W E → Helper W E → Helper W E
  set_store s h = record h { store = s }

  abbrev pub set_statuses : Statuses W → Helper W E → Helper W E
  set_statuses statuses h = record h { store = record h.store { statuses = statuses } }

  -- `if (min_sleep_ms > sleep) min_sleep_ms = sleep;`
  abbrev pub sleep_at_most : ℤ → Round W E → Round W E
  sleep_at_most sleep r = record r {
    min_sleep_ms = if ltb_ℤ sleep r.min_sleep_ms then sleep else r.min_sleep_ms;
  }

  -- What a reading takes, with the maps of the helper.
  abbrev pub inputs_of : Call W E → Helper W E → Inputs W E
  inputs_of c h = record c.outside {
    power_status_map = h.power_files.power_status_map;
    cdev_all_request_map = h.throttling.cdev_all_request_map;
  }

  -- The predictions for the compensation, none where they are not asked for.
  abbrev pub predictions_for : Call W E → String → SensorInfo W → E → List W
  predictions_for c name info estimators = elim info.predictor_info [
    | none ↦ []
    | some p ↦ if p.support_pid_compensation then c.predict name estimators else []
  ]

module _ {ℓ} {W E : Type ℓ} ⦃f : Float W⦄ where
  -- The pending notification: the temperature to pass on, the delay, and the rails.
  unfoldable pub notify :
      Call W E
      → String
      → SensorInfo W
      → SensorStatus W
      → Temperature W
      → ℕ
      → Round W E
      → Option (ℕ × Round W E)
  unfolding switch_rails
  notify c name info status temp sleep_ms r =
      let notified : Option (ℕ × Round W E) = (do
        let rails : List String = elim (lookup name c.power_rail_switch_map) [
          | none ↦ []
          | some rs ↦ rs
        ]
        power_files ← switch_rails rails (not (is_none status.severity)) r.helper.power_files
        let statuses =
            insert name (record status { pending_notification = false }) r.helper.store.statuses
        some (
          delay_of info status.severity,
          record r {
            helper = record (set_statuses statuses r.helper) { power_files = power_files };
            temps = r.temps ++ (temp ∷ []);
          },
        )) in
      if status.pending_notification then notified else some (sleep_ms, r)

  -- The power of the rails is read once in a call.
  unfoldable pub refresh_once : Call W E → Round W E → Option (Round W E)
  refresh_once c r =
      let refreshed : Option (Round W E) = (do
        (_, power_files) ←
            refresh_power_status c.power_read c.power_again c.rail_clock r.helper.power_files
        some (record r {
          helper = record r.helper { power_files = power_files };
          power_data_is_updated = true;
        })) in
      if r.power_data_is_updated then some r else refreshed

  -- The throttling of a sensor with a severity.
  unfoldable pub throttle :
      Call W E
      → String
      → SensorInfo W
      → SensorStatus W
      → Temperature W
      → Decision
      → Bool
      → Helper W E
      → Option (ThermalThrottling W)
  throttle c name info status temp d max_throttling h =
      let u : Update W = record {
        value = temp.value;
        sensor_info = info;
        cooling_device_info_map = c.cooling_device_info_map;
        cdev_all_request_map = h.throttling.cdev_all_request_map;
        time_elapsed_ms = d.time_elapsed_ms;
        curr_severity = status.severity;
        max_throttling = max_throttling;
        power_status_map = h.power_files.power_status_map;
        sensor_predictions = predictions_for c name info h.store.estimators;
      } in
      let updated = thermal_throttling_update name (c.profile name) u h.throttling in
      if is_none status.severity then some (clear_throttling_data name h.throttling) else updated

  -- The requests of the sensor, with their statistics.
  unfoldable pub request :
      Call W E
      → String
      → SensorInfo W
      → SensorStatus W
      → ThermalThrottling W
      → Round W E
      → Option (Round W E)
  unfolding record_requests
  request c name info status throttling r = do
    (throttling', cdevs, updates) ←
        compute_cooling_devices_request name info status.severity throttling
    stats ← record_requests (c.outside.clock name) name updates r.helper.store.stats
    some (record r {
      helper = record r.helper {
        store = record r.helper.store { stats = stats };
        throttling = throttling';
      };
      cooling_devices_to_update = r.cooling_devices_to_update ++ cdevs;
    })

  -- The end of a sensor whose temperature was read.
  unfoldable pub respond :
      Call W E
      → String
      → SensorInfo W
      → Temperature W
      → Decision
      → Bool
      → Round W E
      → Option (Round W E)
  unfolding notify refresh_once throttle request
  respond c name info temp d max_throttling r = do
    status ← lookup name r.helper.store.statuses
    (sleep_ms, r1) ← notify c name info status temp d.sleep_ms r
    r2 ← refresh_once c r1
    throttling ← throttle c name info status temp d max_throttling r2.helper
    r3 ← request c name info status throttling r2
    last ← lookup name r3.helper.store.statuses
    let statuses =
        insert name (record last { last_update_time = some c.now }) r3.helper.store.statuses
    some (
        sleep_at_most (pos sleep_ms) (record r3 {
          helper = set_statuses statuses r3.helper;
          shutdown_severity_reached =
              sev_eq status.severity ThrottlingSeverity.shutdown || r3.shutdown_severity_reached;
        }))
