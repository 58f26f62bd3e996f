-- ===== src/Watcher/Failed.antt =====
-- When a reading has failed in a call of the handler, and the bound of the sleep where none has.
use hardware_mediatek.Base.{
  ◌≡◌, ◌⊎◌, true, false, Option, some, List, ◌∷◌, String, ℤ, pos, ◌≤ℤ◌, lookup,
}
use hardware_mediatek.Floats.{Float}
use hardware_mediatek.ThermalInfo.{SensorInfo, SensorReadStatus, Temperature, is_okay}
use hardware_mediatek.Emulation.{SensorStatus, Statuses, names_of}
use hardware_mediatek.Reading.State.{Store, reading_depth}
use hardware_mediatek.Reading.Temperatures.{read_temperature}
use hardware_mediatek.Watcher.State.{Helper, Call, Round}
use hardware_mediatek.Watcher.Due.{Decision, decide, store_events}
use hardware_mediatek.Watcher.Respond.{inputs_of, set_statuses}
use hardware_mediatek.Watcher.Rounds.{watch_sensor, first_round}
use hardware_mediatek.Watcher.Sleep.{longest}

module _ {ℓ} {W E : Type ℓ} ⦃f : Float W⦄ (c : Call W E) where
  -- The reading of the sensor gives no temperature, with this decision and from this store.
  abbrev pub Unread : String → Decision → Helper W E → Type ℓ
  Unread name d h =
      (status : SensorReadStatus) × (written : Option (Temperature W)) × (store : Store W E)
      × (read_temperature (inputs_of c h) (reading_depth c.outside.sensor_info_map) d.force_no_cache
            name h.store
          ≡ some (status, written, store))
      × (is_okay status ≡ false)

  -- The sensor is due in this round, and is not read.
  pub record FailsAt (name : String) (r : Round W E) : Type ℓ where
    pub info : SensorInfo W
    pub status : SensorStatus W
    pub decided : Decision × Statuses W
    pub stored : lookup name r.helper.store.statuses ≡ some status
    pub configured : lookup name c.outside.sensor_info_map ≡ some info
    pub decides :
        decide c.uevent_sensor_map c.now name info status r.helper.store.statuses ≡ some decided
    pub due : decided.0.force_update ≡ true
    pub unread : Unread name decided.0 (set_statuses decided.1 r.helper)

  -- The sensor is due and not read in one of the rounds that the loop over the names goes through.
  pub data FailsIn (name : String) : List String → Round W E → Type ℓ where
    here : (names : List String) (r : Round W E) → FailsAt name r → FailsIn name (name ∷ names) r
    later :
        (first : String) (names : List String) (r r1 : Round W E)
        → watch_sensor c first r ≡ some r1
        → FailsIn name names r1
        → FailsIn name (first ∷ names) r

  -- In the call of the handler on this state, the loop comes to the sensor, which is due, and its
  -- reading gives no temperature.
  abbrev pub HasFailed : Helper W E → String → Type ℓ
  HasFailed h name =
      (statuses : Statuses W) × (store_events c.now c.uevent_sensor_map h.store.statuses
        ≡ some statuses)
      × FailsIn name (names_of statuses) (first_round (set_statuses statuses h))

  -- A bound of the sleep, unless the reading has failed in the call.
  abbrev pub IsWoken : Helper W E → String → SensorInfo W → ℤ → Type ℓ
  IsWoken h name info sleep = (sleep ≤ℤ pos (longest info)) ⊎ HasFailed h name
