-- ===== src/Reading/Sensors.antt =====
-- `readThermalSensor`, `readDataByType` and `runVirtualTempEstimator`.
use hardware_mediatek.Base.{
  Bool, true, false, not, Option, none, some, List, [], ◌∷◌, ◌>>=◌, String, Map, lookup, insert,
  str_eq, if◌then◌else◌, get_elem?,
}
use hardware_mediatek.Floats.{Float, zero_f}
use hardware_mediatek.ThermalInfo.{
  SensorInfo, VirtualSensorInfo, SensorFusionType, SensorReadStatus, FormulaOption, sensor, odpm,
  constant, cdev, okay, under_collecting, error, count_threshold, weighted_avg, maximum, minimum,
  use_ml_model, use_linear_model, previously_predicted, is_okay, is_answered,
}
use hardware_mediatek.PowerRails.Average.{combine}
use hardware_mediatek.Predictions.{update_sensor, read_sensor}
use hardware_mediatek.Throttling.Votes.{get_cdev_max_request}
use hardware_mediatek.Reading.State.{
  VtEstimatorStatus, ok, low_confidence, under_sampling, invalid_args, init_failed, invoke_failed,
  un_supported, Inputs, Store,
}

-- A call of `readThermalSensor`: the status, `*temp` where it is written, and what it leaves.
abbrev pub Read {ℓ} : Type ℓ → Type ℓ → Type ℓ
Read W E = Option (SensorReadStatus × Option W × Store W E)

abbrev pub log {ℓ} : {W E : Type ℓ} → String → W → Store W E → Store W E
log name temp s = record s { sensor_log_map = insert name temp s.sensor_log_map }

-- `(*sensor_log_map)[name]` of each linked sensor, or `none` where one is missing.
unfoldable pub model_inputs {ℓ} : {W : Type ℓ} → Map W → List String → Option (List W)
model_inputs log_map [] = some []
model_inputs log_map (name ∷ names) = do
  value ← lookup name log_map
  values ← model_inputs log_map names
  some (value ∷ values)

abbrev pub or_else {ℓ} : {W : Type ℓ} → W → Option W → W
or_else w none = w
or_else w (some v) = v

-- `kVtEstimatorLowConfidence` and `kVtEstimatorUnderSampling` fall back to another sensor.
abbrev pub is_fallback : VtEstimatorStatus → Bool
is_fallback low_confidence = true
is_fallback under_sampling = true
is_fallback ok = false
is_fallback invalid_args = false
is_fallback init_failed = false
is_fallback invoke_failed = false
is_fallback un_supported = false

abbrev pub is_ok : VtEstimatorStatus → Bool
is_ok ok = true
is_ok low_confidence = false
is_ok under_sampling = false
is_ok invalid_args = false
is_ok init_failed = false
is_ok invoke_failed = false
is_ok un_supported = false

-- The three ways in which a formula is computed.
abbrev pub by_formula {ℓ} : {A : Type ℓ} → FormulaOption → A → A → A → A
by_formula previously_predicted prediction model weighted = prediction
by_formula use_ml_model prediction model weighted = model
by_formula use_linear_model prediction model weighted = model
by_formula count_threshold prediction model weighted = weighted
by_formula weighted_avg prediction model weighted = weighted
by_formula maximum prediction model weighted = weighted
by_formula minimum prediction model weighted = weighted

abbrev pub is_weighted : FormulaOption → Bool
is_weighted formula = by_formula formula false false true

abbrev pub updates_predictions {ℓ} : {W : Type ℓ} → SensorInfo W → Bool
updates_predictions info = elim info.predictor_info [
  | none ↦ false
  | some p ↦ p.supports_predictions
]

-- The functions that `readThermalSensor` calls, where `rec` is its recursive call.
module _ {ℓ} {W E : Type ℓ} ⦃f : Float W⦄ (ins : Inputs W E)
    (rec : String → Store W E → Read W E) where
  -- The answer, `*reading_value` where it is written, and what the call leaves. A rail that is not there
  -- faults.
  unfoldable pub read_data_by_type :
      String → SensorFusionType → Store W E → Option (Bool × Option W × Store W E)
  read_data_by_type name sensor s = do
    (status, value, s') ← rec name s
    some (is_answered status, value, s')
  read_data_by_type name odpm s = do
    status ← lookup name ins.power_status_map
    let value = status.last_updated_avg_power
    some (true, some value, if f.isnan value then s else log name value s)
  read_data_by_type name constant s = some (true, some (ins.atof name), s)
  read_data_by_type name cdev s = elim (get_cdev_max_request name ins.cdev_all_request_map) [
    | none ↦ some (false, none, s)
    | some max_state ↦ some (true, some (f.of_int max_state), s)
  ]

  -- One value of a loop, which starts with NaN: the status to stop with, and the value.
  unfoldable pub read_value :
      String → SensorFusionType → Store W E → Option (SensorReadStatus × W × Store W E)
  unfolding read_data_by_type
  read_value name type s = do
    (done, written, s') ← read_data_by_type name type s
    let value = or_else f.nan written
    some (if not done then error else if f.isnan value then under_collecting else okay, value, s')

  -- The loop over the linked sensors; a type that is not there faults.
  unfoldable pub read_linked :
      List String
      → List SensorFusionType
      → Store W E
      → Option (SensorReadStatus × List W × Store W E)
  read_linked [] types s = some (okay, [], s)
  read_linked (name ∷ names) [] s = none
  read_linked (name ∷ names) (type ∷ types) s = do
    (status, value, s') ← read_value name type s
    let stop : Option (SensorReadStatus × List W × Store W E) = some (status, [], s')
    let go : Option (SensorReadStatus × List W × Store W E) = (do
      (status', values, s'') ← read_linked names types s'
      some (status', value ∷ values, s''))
    if is_okay status then go else stop

  -- The loop over the coefficients, with `temp_val`; `first` is `i == 0`.
  unfoldable pub weigh :
      FormulaOption
      → Bool
      → List W
      → List String
      → List SensorFusionType
      → W
      → Store W E
      → Option (SensorReadStatus × W × Store W E)
  weigh formula first [] names types temp_val s = some (okay, temp_val, s)
  weigh formula first (r ∷ rs) [] types temp_val s = none
  weigh formula first (r ∷ rs) (name ∷ names) [] temp_val s = none
  weigh formula first (r ∷ rs) (name ∷ names) (type ∷ types) temp_val s = do
    (status, coefficient, s') ← read_value name type s
    let stop : Option (SensorReadStatus × W × Store W E) = some (status, temp_val, s')
    let go = weigh formula false rs names types (combine formula first coefficient r temp_val) s'
    if is_okay status then go else stop

  -- The backup sensor of an estimator that cannot answer.
  unfoldable pub read_backup : VirtualSensorInfo W → Store W E → Option (Bool × List W × Store W E)
  unfolding read_data_by_type
  read_backup v s =
      let backup : Option (Bool × List W × Store W E) = (do
        (done, written, s') ← read_data_by_type v.backup_sensor sensor s
        let value = or_else ins.uninitialized written
        some (if done then (true, value ∷ [], s') else (false, [], s'))) in
      if str_eq v.backup_sensor "" then some (false, [], s) else backup

  -- After the estimator: the answer and the outputs.
  unfoldable pub use_estimate :
      String
      → SensorInfo W
      → VirtualSensorInfo W
      → VtEstimatorStatus
      → List W
      → Store W E
      → Option (Bool × List W × Store W E)
  unfolding read_backup
  use_estimate name info v status outputs s =
      let updated : Option (Bool × List W × Store W E) = (do
        (_, predictions) ← update_sensor name outputs (ins.clock name) s.predictions
        some (true, outputs, record s { predictions = predictions })) in
      let backup = read_backup v s in
      if is_ok status
      then if updates_predictions info then updated else some (true, outputs, s)
      else if is_fallback status
      then backup
      else some (false, [], s)

  unfoldable pub run_virtual_temp_estimator :
      String → SensorInfo W → VirtualSensorInfo W → Store W E → Option (Bool × List W × Store W E)
  unfolding model_inputs use_estimate
  run_virtual_temp_estimator name info v s =
      let run = λ (inputs : List W).
        let (status, outputs, estimators) = ins.estimate name inputs s.estimators in
        use_estimate name info v status outputs (record s { estimators = estimators }) in
      if not (ins.has_estimator name)
      then some (false, [], s)
      else elim (model_inputs s.sensor_log_map v.linked_sensors) [
        | none ↦ some (false, [], s)
        | some inputs ↦ run inputs
      ]

  -- `vt_estimator_out[0]`, which an empty answer does not have.
  unfoldable pub read_model : String → SensorInfo W → VirtualSensorInfo W → Store W E → Read W E
  unfolding run_virtual_temp_estimator
  read_model name info v s = do
    (done, outputs, s') ← run_virtual_temp_estimator name info v s
    let first : Read W E = (do temp ← get_elem? outputs 0; some (okay, some temp, s'))
    if done then first else some (error, none, s')

  unfoldable pub read_prediction : String → Store W E → Read W E
  read_prediction name s = do
    (status, temp) ← read_sensor name (ins.clock name) s.predictions
    some (status, temp, s)

  unfoldable pub read_weighted : VirtualSensorInfo W → List W → Store W E → Read W E
  read_weighted v readings s = do
    (status, temp_val, s') ←
        weigh v.formula true readings v.coefficients v.coefficients_type zero_f s
    some (status, if is_okay status then some (f.add temp_val v.offset) else none, s')

  -- By the formula, from the readings of the linked sensors.
  unfoldable pub read_formula :
      String → SensorInfo W → VirtualSensorInfo W → List W → Store W E → Read W E
  unfolding read_model read_prediction read_weighted
  read_formula name info v readings s =
      let model = read_model name info v s in
      let prediction = read_prediction name s in
      let weighted = read_weighted v readings s in by_formula v.formula prediction model weighted

  unfoldable pub read_virtual : String → SensorInfo W → VirtualSensorInfo W → Store W E → Read W E
  unfolding read_linked read_formula
  read_virtual name info v s = do
    (status, readings, s') ← read_linked v.linked_sensors v.linked_sensors_type s
    let formula = read_formula name info v readings s'
    if is_okay status then formula else some (status, none, s')

  unfoldable pub read_parts :
      String → SensorInfo W → Option (VirtualSensorInfo W) → Store W E → Read W E
  unfolding read_virtual
  read_parts name info (some v) s = read_virtual name info v s
  read_parts name info none s = elim (ins.read_file name) [
    | none ↦ some (error, none, s)
    | some temp ↦ some (okay, some temp, s)
  ]

  -- The sensor according to its composition.
  unfoldable pub read_composed : String → SensorInfo W → Store W E → Read W E
  unfolding read_parts
  read_composed name info s = read_parts name info info.virtual_sensor_info s
