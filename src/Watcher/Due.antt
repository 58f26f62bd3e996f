-- ===== src/Watcher/Due.antt =====
-- Whether a sensor is due: its delay, its events, and what was asked for.
use hardware_mediatek.Base.{
  ℕ, ◌-◌, ◌/◌, Bool, true, false, not, ◌&&◌, ◌||◌, Option, none, some, List, [], ◌∷◌, ◌>>=◌, String,
  ltb, Map, lookup, insert, contains, is_empty, if◌then◌else◌,
}
use hardware_mediatek.Floats.{Float}
use hardware_mediatek.ThermalInfo.{ThrottlingSeverity, SensorInfo, sev_eq}
use hardware_mediatek.Emulation.{SensorStatus, Statuses}

pub record Decision : Type 0 where
  pub force_update : Bool
  pub force_no_cache : Bool
  pub time_elapsed_ms : ℕ
  pub sleep_ms : ℕ

abbrev pub is_none : ThrottlingSeverity → Bool
is_none severity = sev_eq severity ThrottlingSeverity.none

module _ {ℓ} {W : Type ℓ} where
  abbrev pub delay_of : SensorInfo W → ThrottlingSeverity → ℕ
  delay_of info severity = if is_none severity then info.polling_delay else info.passive_delay

  -- Whether a trigger sensor throttles: the loop stops at the first. One without a status faults.
  unfoldable pub is_triggered : Statuses W → List String → Option Bool
  is_triggered statuses [] = some false
  is_triggered statuses (name ∷ names) = do
    let rest = is_triggered statuses names
    status ← lookup name statuses
    if is_none status.severity then rest else some true

  abbrev pub triggers_of : SensorInfo W → List String
  triggers_of info = elim info.virtual_sensor_info [ none ↦ [] | some v ↦ v.trigger_sensors ]

  unfoldable pub first_sleep : Statuses W → SensorInfo W → SensorStatus W → Option ℕ
  unfolding is_triggered
  first_sleep statuses info status = do
    triggered ← is_triggered statuses (triggers_of info)
    some (if triggered then info.passive_delay else delay_of info status.severity)

  -- `uevent_sensor_map.find(trigger) != end` for some trigger
  unfoldable pub has_event : Map W → List String → Bool
  has_event events [] = false
  has_event events (name ∷ names) = contains name events || has_event events names

module _ {ℓ} {W : Type ℓ} ⦃f : Float W⦄ where
  -- Whether the events name the sensor, and whether without its temperature.
  unfoldable pub on_event : Map W → String → SensorInfo W → Bool × Bool
  unfolding has_event
  on_event events name info = elim info.virtual_sensor_info [
    | some v ↦ (has_event events v.trigger_sensors, false)
    | none ↦ elim (lookup name events) [ none ↦ (false, false) | some temp ↦ (true, f.isnan temp) ]
  ]

  -- The decision before the pending updates.
  unfoldable pub decide_by_time : Map W → ℕ → String → SensorInfo W → SensorStatus W → ℕ → Decision
  unfolding on_event
  decide_by_time events now name info status sleep_ms = elim status.last_update_time [
    | none ↦ record {
      force_update = true;
      force_no_cache = false;
      time_elapsed_ms = 0;
      sleep_ms = sleep_ms;
    }
    | some last ↦
        let elapsed = (now - last) / 1_000_000 in
        let (update, no_cache) = on_event events name info in
        record {
          force_update = if is_empty events then ltb sleep_ms elapsed else update;
          force_no_cache = not (is_empty events) && no_cache;
          time_elapsed_ms = elapsed;
          sleep_ms = sleep_ms;
        }
  ]

  -- With the pending update, which is taken.
  unfoldable pub decide :
      Map W
      → ℕ
      → String
      → SensorInfo W
      → SensorStatus W
      → Statuses W
      → Option (Decision × Statuses W)
  unfolding first_sleep decide_by_time
  decide events now name info status statuses = do
    sleep_ms ← first_sleep statuses info status
    let d = decide_by_time events now name info status sleep_ms
    let taken = record status {
      override_status = record status.override_status { pending_update = false };
    }
    some (
      record d { force_update = d.force_update || status.override_status.pending_update },
      insert name taken statuses,
    )

  -- `sensor_status_map_[sensor].thermal_cached = ...` for each event with a temperature. A sensor without
  -- a status gets one, for which the handler then finds no configuration: both fault.
  unfoldable pub store_events : ℕ → Map W → Statuses W → Option (Statuses W)
  store_events now [] statuses = some statuses
  store_events now ((name, temp) ∷ events) statuses = do
    let skipped = store_events now events statuses
    let stored : Option (Statuses W) = (do
      status ← lookup name statuses
      let status' : SensorStatus W = record status {
        thermal_cached = record { temp = temp; timestamp = some now };
      }
      store_events now events (insert name status' statuses))
    if f.isnan temp then skipped else stored
