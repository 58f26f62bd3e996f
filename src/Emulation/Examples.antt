-- ===== src/Emulation/Examples.antt =====
-- A physical sensor, a virtual one that reads it, and one that reads the virtual one.
use mathlib.Core.Option.{some-injective}
use hardware_mediatek.Base.{
  negsuc, ℕ, zero, suc, ℤ, pos, ◌<ℤ◌, some, none, ◌≡◌, refl, ◌<◌, true, false, Bool, arith, [], ◌∷◌,
  String, Map, lookup, insert, contains, Option, subst, str_eq, str_eq_iff, mem_name, if◌then◌else◌,
}
use hardware_mediatek.Floats.{Whole, whole_float}
use hardware_mediatek.ThermalInfo.{
  ThrottlingSeverity, SensorInfo, VirtualSensorInfo, maximum, index,
}
use hardware_mediatek.Emulation.{
  SensorStatus, Statuses, is_linked, set_override, check_loop, check_update_sensor_for_emul, depth,
  emul_temp, emul_clear, emul_severity,
}
use hardware_mediatek.Emulation.Spread.{check_update_sensor_for_emul-Spreads}
use hardware_mediatek.Emulation.Waiting.{Entry, Depends, Awaits, IsAcyclic, HasStatuses, Kept}
use hardware_mediatek.Emulation.Emulated.{Emulates, Overridden}
use hardware_mediatek.Emulation.Handlers.{Pending, emul_temp-Pending, emul_clear-Pending}
use hardware_mediatek.Emulation.Severity.{emul_severity_lem}

abbrev num : ℕ → Whole
num n = some (pos n)

abbrev sensor : Option (VirtualSensorInfo Whole) → SensorInfo Whole
sensor v = record {
  hot_thresholds = λ s. num (index s);
  cold_thresholds = λ _. none;
  hot_hysteresis = λ _. none;
  cold_hysteresis = λ _. none;
  severity_reference = [];
  multiplier = num 1;
  polling_delay = 1_000;
  passive_delay = 100;
  time_resolution = 10;
  step_ratio = num 1;
  send_cb = false;
  send_powerhint = false;
  is_watch = true;
  is_hidden = false;
  virtual_sensor_info = v;
  throttling_info = none;
  predictor_info = none;
}

abbrev reads : String → Option (VirtualSensorInfo Whole)
reads name = some (record {
  linked_sensors = name ∷ [];
  linked_sensors_type = [];
  coefficients = [];
  coefficients_type = [];
  offset = num 0;
  trigger_sensors = [];
  formula = maximum;
  backup_sensor = "";
})

abbrev infos : Map (SensorInfo Whole)
infos = ("cpu", sensor none) ∷ ("skin", sensor (reads "cpu")) ∷ ("case", sensor (reads "skin")) ∷ []

abbrev status : Bool → SensorStatus Whole
status pending = record {
  severity = ThrottlingSeverity.none;
  prev_hot_severity = ThrottlingSeverity.none;
  prev_cold_severity = ThrottlingSeverity.none;
  last_update_time = none;
  thermal_cached = record { temp = none; timestamp = none };
  pending_notification = false;
  override_status = record { emul_temp = none; max_throttling = false; pending_update = pending };
}

abbrev idle : Statuses Whole
idle = ("cpu", status false) ∷ ("skin", status false) ∷ ("case", status false) ∷ []

abbrev rank : String → ℕ
rank name = if str_eq name "case" then 2 else if str_eq name "skin" then 1 else 0

-- After an emulation of the physical sensor, both virtual ones are updated.
spreads :
    check_update_sensor_for_emul infos false (depth infos) "cpu" idle
    ≡ some (("cpu", status false) ∷ ("skin", status true) ∷ ("case", status true) ∷ [])
unfolding check_update_sensor_for_emul check_loop set_override lookup insert mem_name
spreads = refl

infos-IsAcyclic : IsAcyclic infos rank
unfolding mem_name
infos-IsAcyclic = record { bounded = λ name. ground arith; climbs = climbs_up }
  where
    climbs_up :
        (name target : String) (info : SensorInfo Whole)
        → Entry name info infos
        → is_linked target info ≡ true
        → rank target < rank name
    climbs_up name target info (zero, e) linked =
        subst (λ x. is_linked target x.1 ≡ true → rank target < rank x.0)
          (some-injective ("cpu", sensor none) (name, info) e) (λ h. absurd (cc)) linked
    climbs_up name target info (suc zero, e) linked =
        subst (λ x. is_linked target x.1 ≡ true → rank target < rank x.0)
          (some-injective ("skin", sensor (reads "cpu")) (name, info) e)
          (λ h. subst (λ t. rank t < 1) (str_eq_iff "cpu" target (ground arith)) (omega arith))
          linked
    climbs_up name target info (suc (suc zero), e) linked =
        subst (λ x. is_linked target x.1 ≡ true → rank target < rank x.0)
          (some-injective ("case", sensor (reads "skin")) (name, info) e)
          (λ h. subst (λ t. rank t < 2) (str_eq_iff "skin" target (ground arith)) (omega arith))
          linked
    climbs_up name target info (suc (suc (suc i)), e) linked = cc

idle-HasStatuses : HasStatuses infos idle
unfolding lookup
idle-HasStatuses name info (zero, e) =
    subst (λ x. contains x.0 idle ≡ true) (some-injective ("cpu", sensor none) (name, info) e) refl
idle-HasStatuses name info (suc zero, e) =
    subst (λ x. contains x.0 idle ≡ true)
      (some-injective ("skin", sensor (reads "cpu")) (name, info) e) refl
idle-HasStatuses name info (suc (suc zero), e) =
    subst (λ x. contains x.0 idle ≡ true)
      (some-injective ("case", sensor (reads "skin")) (name, info) e) refl
idle-HasStatuses name info (suc (suc (suc i)), e) = cc

cpu_known : contains "cpu" idle ≡ true
unfolding lookup
cpu_known = refl

cpu_configured : lookup "cpu" infos ≡ some (sensor none)
unfolding lookup
cpu_configured = refl

check_update_sensor_for_emul-Spreads_example :
    (statuses' : Statuses Whole) × (check_update_sensor_for_emul infos true (depth infos) "cpu" idle
      ≡ some statuses')
    × Kept true idle statuses'
    × ((name : String) → Depends infos name "cpu" → Awaits true statuses' name)
check_update_sensor_for_emul-Spreads_example =
    check_update_sensor_for_emul-Spreads infos rank true "cpu" idle infos-IsAcyclic idle-HasStatuses

emul_temp-Pending_example :
    (contains "cpu" idle ≡ false → emul_temp infos "cpu" (num 50) true idle ≡ some (false, idle))
    × (contains "cpu" idle ≡ true
        → (statuses' : Statuses Whole) × (emul_temp infos "cpu" (num 50) true idle
            ≡ some (true, statuses'))
          × Pending infos rank infos-IsAcyclic true "cpu" statuses'
          × Overridden (some (record { temp = num 50; severity = negsuc 0 })) "cpu" idle statuses')
emul_temp-Pending_example =
    emul_temp-Pending infos rank infos-IsAcyclic "cpu" (num 50) true idle idle-HasStatuses

emul_clear-Pending_example :
    (str_eq "all" "all" ≡ true
      → (statuses' : Statuses Whole) × (emul_clear infos "all" idle ≡ some (true, statuses'))
        × ((name : String)
            → contains name idle ≡ true
            → Awaits false statuses' name × Emulates none statuses' name))
    × (str_eq "all" "all" ≡ false
        → contains "all" idle ≡ true
        → (statuses' : Statuses Whole) × (emul_clear infos "all" idle ≡ some (true, statuses'))
          × Pending infos rank infos-IsAcyclic false "all" statuses'
          × Overridden none "all" idle statuses')
    × (str_eq "all" "all" ≡ false
        → contains "all" idle ≡ false
        → emul_clear infos "all" idle ≡ some (false, idle))
emul_clear-Pending_example =
    emul_clear-Pending infos rank infos-IsAcyclic "all" idle idle-HasStatuses

emul_severity_lem_example :
    ((s : ThrottlingSeverity)
      → (statuses' : Statuses Whole) × (emul_severity infos "cpu" (pos (index s)) true idle
          ≡ some (true, statuses'))
        × Pending infos rank infos-IsAcyclic true "cpu" statuses'
        × Overridden
            (some
              (record { temp = whole_float.div (num (index s)) (num 1); severity = pos (index s) }))
            "cpu"
            idle
            statuses')
    × ((severity : ℤ)
        → pos 7 <ℤ severity
        → emul_severity infos "cpu" severity true idle ≡ some (false, idle))
    × (emul_severity infos "cpu" (pos 7) true idle ≡ none)
emul_severity_lem_example =
    emul_severity_lem infos rank infos-IsAcyclic "cpu" (sensor none) true idle idle-HasStatuses
      cpu_known cpu_configured
