-- ===== src/Emulation.antt =====
-- The emulation of sensors in aidl/thermal/thermal-helper.cpp, and the status of a sensor in its header:
-- `checkUpdateSensorForEmul`, `emulTemp`, `emulSeverity` and `emulClear`.
pub mod Waiting
pub mod Spread
pub mod Emulated
pub mod Handlers
pub mod Severity
pub mod Examples
use hardware_mediatek.Base.{
  ℕ, zero, suc, Bool, true, false, not, ◌&&◌, ◌||◌, Option, none, some, List, [], ◌∷◌, ◌>>=◌,
  String, ℤ, pos, negsuc, ltb_ℤ, Map, lookup, insert, contains, mem_name, str_eq, if◌then◌else◌,
  length,
}
use hardware_mediatek.Floats.{Float}
use hardware_mediatek.ThermalInfo.{ThrottlingSeverity, SensorInfo, severity_of}

pub record ThermalSample {ℓ} (W : Type ℓ) : Type ℓ where
  pub temp : W
  pub timestamp : Option ℕ

pub record EmulTemp {ℓ} (W : Type ℓ) : Type ℓ where
  pub temp : W
  pub severity : ℤ

pub record OverrideStatus {ℓ} (W : Type ℓ) : Type ℓ where
  pub emul_temp : Option (EmulTemp W)
  pub max_throttling : Bool
  pub pending_update : Bool

-- A time is in nanoseconds since boot, and `none` is `time_point::min()`.
pub record SensorStatus {ℓ} (W : Type ℓ) : Type ℓ where
  pub severity : ThrottlingSeverity
  pub prev_hot_severity : ThrottlingSeverity
  pub prev_cold_severity : ThrottlingSeverity
  pub last_update_time : Option ℕ
  pub thermal_cached : ThermalSample W
  pub pending_notification : Bool
  pub override_status : OverrideStatus W

abbrev pub Statuses {ℓ} : Type ℓ → Type ℓ
Statuses W = Map (SensorStatus W)

module _ {ℓ} {W : Type ℓ} where
  -- `sensor_status_map_.at(name).override_status = ...`
  unfoldable pub set_override :
      (OverrideStatus W → OverrideStatus W) → String → Statuses W → Option (Statuses W)
  set_override change name statuses = do
    status ← lookup name statuses
    some (insert name (record status { override_status = change status.override_status }) statuses)

  abbrev pub with_update : Bool → OverrideStatus W → OverrideStatus W
  with_update max_throttling o = record o { max_throttling = max_throttling; pending_update = true }

  abbrev pub is_linked : String → SensorInfo W → Bool
  is_linked target info = elim info.virtual_sensor_info [
    | none ↦ false
    | some v ↦ info.is_watch && mem_name target v.linked_sensors
  ]

  -- The loop over the sensors; `rec` is the recursive call.
  unfoldable pub check_loop :
      (String → Statuses W → Option (Statuses W))
      → String
      → Bool
      → Map (SensorInfo W)
      → Statuses W
      → Option (Statuses W)
  check_loop rec target max_throttling [] statuses = some statuses
  check_loop rec target max_throttling ((name, info) ∷ infos) statuses =
      let skipped = check_loop rec target max_throttling infos statuses in
      let marked : Option (Statuses W) = (do
        statuses' ← set_override (with_update max_throttling) name statuses
        statuses'' ← rec name statuses'
        check_loop rec target max_throttling infos statuses'') in
      if is_linked target info then marked else skipped

  -- The fuel bounds the depth of the recursion; without fuel there is no result.
  unfoldable pub check_update_sensor_for_emul :
      Map (SensorInfo W) → Bool → ℕ → String → Statuses W → Option (Statuses W)
  check_update_sensor_for_emul infos max_throttling zero target statuses = none
  check_update_sensor_for_emul infos max_throttling (suc fuel) target statuses =
      check_loop (check_update_sensor_for_emul infos max_throttling fuel) target max_throttling
        infos statuses

  -- One more than the sensors: no chain of linked sensors is longer, if none is circular.
  abbrev pub depth : Map (SensorInfo W) → ℕ
  depth infos = suc (length infos)

  -- The end of each handler: the sensor is overridden, and those that depend on it are updated.
  unfoldable pub override :
      Map (SensorInfo W)
      → (OverrideStatus W → OverrideStatus W)
      → Bool
      → String
      → Statuses W
      → Option (Statuses W)
  override infos change max_throttling target statuses = do
    statuses' ← set_override change target statuses
    check_update_sensor_for_emul infos max_throttling (depth infos) target statuses'

  abbrev pub emulated : W → ℤ → Bool → OverrideStatus W → OverrideStatus W
  emulated temp severity max_throttling o = record {
    emul_temp = some (record { temp = temp; severity = severity });
    max_throttling = max_throttling;
    pending_update = true;
  }

  abbrev pub cleared : OverrideStatus W → OverrideStatus W
  cleared o = record { emul_temp = none; max_throttling = false; pending_update = true }

  unfoldable pub emul_temp :
      Map (SensorInfo W) → String → W → Bool → Statuses W → Option (Bool × Statuses W)
  emul_temp infos target temp max_throttling statuses =
      let emulate : Option (Bool × Statuses W) = (do
        statuses' ←
            override infos (emulated temp (negsuc 0) max_throttling) max_throttling target statuses
        some (true, statuses')) in
      if contains target statuses then emulate else some (false, statuses)

  -- The loop over all sensors; the map keeps its names as it goes.
  unfoldable pub clear_all : Map (SensorInfo W) → List String → Statuses W → Option (Statuses W)
  clear_all infos [] statuses = some statuses
  clear_all infos (name ∷ names) statuses = do
    statuses' ← override infos cleared false name statuses
    clear_all infos names statuses'

  abbrev pub names_of : Statuses W → List String
  names_of [] = []
  names_of ((name, _) ∷ statuses) = name ∷ names_of statuses

  unfoldable pub emul_clear : Map (SensorInfo W) → String → Statuses W → Option (Bool × Statuses W)
  emul_clear infos target statuses =
      let all : Option (Bool × Statuses W) = (do
        statuses' ← clear_all infos (names_of statuses) statuses
        some (true, statuses')) in
      let one : Option (Bool × Statuses W) = (do
        statuses' ← override infos cleared false target statuses
        some (true, statuses')) in
      if str_eq target "all"
      then all
      else if contains target statuses
      then one
      else some (false, statuses)

-- `hot_thresholds[severity]`: the array has 7 entries.
abbrev pub at_severity {ℓ} : {W : Type ℓ} → (ThrottlingSeverity → W) → ℤ → Option W
at_severity a (pos n) = severity_of n >>= λ s. some (a s)
at_severity a (negsuc n) = none

-- `kThrottlingSeverityCount`
abbrev pub severity_count : ℤ
severity_count = pos 7

module _ {ℓ} {W : Type ℓ} ⦃f : Float W⦄ where
  unfoldable pub emul_severity :
      Map (SensorInfo W) → String → ℤ → Bool → Statuses W → Option (Bool × Statuses W)
  emul_severity infos target severity max_throttling statuses =
      let emulate : Option (Bool × Statuses W) = (do
        info ← lookup target infos
        threshold ← at_severity info.hot_thresholds severity
        let temp = f.div threshold info.multiplier
        statuses' ←
            override infos (emulated temp severity max_throttling) max_throttling target statuses
        some (true, statuses')) in
      if not (contains target statuses && contains target infos)
      then some (false, statuses)
      else if ltb_ℤ severity_count severity
      then some (false, statuses)
      else emulate
