-- ===== src/Stats/Requests.antt =====
-- `initializeSensorCdevRequestStats`, and the records of custom thresholds.
use Prim.Native.String
use hardware_mediatek.Base.{
  ℕ, zero, suc, Bool, true, false, Option, none, some, List, [], ◌∷◌, ◌++◌, ◌>>=◌, String, ℤ, pos,
  ◌+ℤ◌, ◌-ℤ◌, leb_ℤ, Map, lookup, insert, mem_name, if◌then◌else◌, length, is_empty,
}
use hardware_mediatek.ThermalInfo.{SensorInfo, BindedCdevInfo, CdevInfo}
use hardware_mediatek.Stats.State.{
  ThresholdList, StatsByThreshold, ThermalStats, RecordByDefault, all_or_none, name_set, StatsInfo,
  new_record, max_stats_residency_count,
}
use hardware_mediatek.Stats.Records.{index_of}

unfoldable pub is_record_by_default_threshold : RecordByDefault → String → Bool
is_record_by_default_threshold (all_or_none b) name = b
is_record_by_default_threshold (name_set names) name = mem_name name names

-- The constructor of `StatsByThreshold`: one state more than thresholds.
abbrev pub new_by_threshold {ℓ} : {V : Type ℓ} → ℕ → ThresholdList V → StatsByThreshold V
new_by_threshold now list = record {
  thresholds = list.thresholds;
  logging_name = list.logging_name;
  stats_record = new_record now (suc (length list.thresholds)) (pos 0);
}

abbrev pub no_stats {ℓ} : {V : Type ℓ} → ThermalStats V
no_stats = record { stats_by_custom_threshold = []; stats_by_default_threshold = none }

abbrev pub add_custom {ℓ} : {V : Type ℓ} → ℕ → ThresholdList V → ThermalStats V → ThermalStats V
add_custom now list s = record s {
  stats_by_custom_threshold = s.stats_by_custom_threshold ++ (new_by_threshold now list ∷ []);
}

unfoldable pub add_customs {ℓ} :
    {V : Type ℓ} → ℕ → List (ThresholdList V) → ThermalStats V → ThermalStats V
add_customs now [] s = s
add_customs now (list ∷ lists) s = add_customs now lists (add_custom now list s)

-- `operator[]`: an absent entry begins empty.
abbrev pub entry_or {ℓ} : {V : Type ℓ} → V → String → Map V → V
entry_or default name m = elim (lookup name m) [ none ↦ default | some v ↦ v ]

-- `std::iota`
unfoldable pub iota : ℕ → ℤ → List ℤ
iota zero start = []
iota (suc n) start = start ∷ iota n (start +ℤ pos 1)

abbrev pub last? {ℓ} : {A : Type ℓ} → List A → Option A
last? [] = none
last? (x ∷ xs) = elim xs [ [] ↦ some x | _ ∷ _ ↦ last? xs ]

-- By all states, the lowest of them combined where there are more than an atom has room for. A
-- negative size faults.
unfoldable pub add_all_states : ℕ → String → ℤ → ThermalStats ℤ → Option (ThermalStats ℤ)
unfolding iota
add_all_states now cdev max_state s =
    let count = pos max_stats_residency_count in
    let starting_state = max_state -ℤ count +ℤ pos 1 in
    let combined : ThresholdList ℤ = record {
      logging_name = some (Prim.Native.String.◌++◌ cdev "-CMBN-TH");
      thresholds = iota max_stats_residency_count starting_state;
    } in
    let each : Option (ThermalStats ℤ) = (do
      size ← index_of (max_state +ℤ pos 1)
      some (record s { stats_by_default_threshold = some (new_record now size (pos 0)) })) in
    if leb_ℤ count max_state then some (add_custom now combined s) else each

-- The lists of a device, with whether each has its last threshold below the greatest state: the loop
-- stops at the first that does not. The last of an empty list faults.
unfoldable pub add_request_lists :
    ℕ → ℤ → List (ThresholdList ℤ) → ThermalStats ℤ → Option (Bool × ThermalStats ℤ)
add_request_lists now max_state [] s = some (true, s)
add_request_lists now max_state (list ∷ lists) s = do
  let rest = add_request_lists now max_state lists (add_custom now list s)
  back ← last? list.thresholds
  if leb_ℤ max_state back then some (false, s) else rest

-- The records of a sensor for one of its devices.
unfoldable pub cdev_stats :
    ℕ → StatsInfo ℤ → String → ℤ → ThermalStats ℤ → Option (Bool × ThermalStats ℤ)
unfolding is_record_by_default_threshold add_all_states add_request_lists
cdev_stats now info cdev max_state s = do
  let all = add_all_states now cdev max_state s
  s' ←
      if is_record_by_default_threshold info.record_by_default_threshold_all_or_name_set cdev
      then all
      else some s
  elim (lookup cdev info.record_by_threshold) [
    | none ↦ some (true, s')
    | some lists ↦ add_request_lists now max_state lists s'
  ]

-- `sensor_cdev_request_stats_map_[sensor][cdev]` is there once something is recorded.
abbrev pub is_recorded : StatsInfo ℤ → String → Bool
is_recorded info cdev =
    if is_record_by_default_threshold info.record_by_default_threshold_all_or_name_set cdev
    then true
    else elim (lookup cdev info.record_by_threshold) [
      | none ↦ false
      | some lists ↦ elim lists [ [] ↦ false | _ ∷ _ ↦ true ]
    ]

module _ {ℓ} {W : Type ℓ} where
  unfoldable pub request_stats_of_sensor :
      ℕ
      → StatsInfo ℤ
      → Map (CdevInfo W)
      → Map (BindedCdevInfo W)
      → Map (ThermalStats ℤ)
      → Option (Bool × Map (ThermalStats ℤ))
  request_stats_of_sensor now info cooling [] m = some (true, m)
  request_stats_of_sensor now info cooling ((cdev, _) ∷ binded) m = do
    cdev_info ← lookup cdev cooling
    (done, s) ← cdev_stats now info cdev cdev_info.max_state (entry_or no_stats cdev m)
    let m' = if is_recorded info cdev then insert cdev s m else m
    let rest = request_stats_of_sensor now info cooling binded m'
    if done then rest else some (false, m')

  -- Each sensor must have its throttling information. A threshold that is too high clears the map.
  unfoldable pub initialize_sensor_cdev_request_stats :
      ℕ
      → StatsInfo ℤ
      → Map (CdevInfo W)
      → Map (SensorInfo W)
      → Map (Map (ThermalStats ℤ))
      → Option (Bool × Map (Map (ThermalStats ℤ)))
  initialize_sensor_cdev_request_stats now info cooling [] m = some (true, m)
  initialize_sensor_cdev_request_stats now info cooling ((sensor, sensor_info) ∷ sensors) m = do
    throttling ← sensor_info.throttling_info
    (done, of_sensor) ←
        request_stats_of_sensor now info cooling throttling.binded_cdev_info_map
          (entry_or [] sensor m)
    let m' = if is_empty of_sensor then m else insert sensor of_sensor m
    let rest = initialize_sensor_cdev_request_stats now info cooling sensors m'
    if done then rest else some (false, [])
