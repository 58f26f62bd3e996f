-- ===== src/Predictions/Initialize.antt =====
-- `initializePredictionSensors`
use hardware_mediatek.Base.{
  Bool, true, false, Option, none, some, List, [], ◌∷◌, String, ℤ, Map, if◌then◌else◌,
}
use hardware_mediatek.Floats.{Float}
use hardware_mediatek.ThermalInfo.{
  SensorInfo, PredictorInfo, VirtualSensorInfo, FormulaOption, previously_predicted,
}
use hardware_mediatek.Predictions.{
  ThermalPredictions, register_predictor_sensor, register_predicted_sensor,
}

abbrev pub is_previously_predicted : FormulaOption → Bool
is_previously_predicted previously_predicted = true
is_previously_predicted _ = false

module _ {ℓ} {W : Type ℓ} where
  -- `linked_sensors.size() != 1` is refused.
  unfoldable pub register_linked :
      String → List String → ℤ → ThermalPredictions W → Bool × ThermalPredictions W
  register_linked name [] duration t = (false, t)
  register_linked name (linked ∷ []) duration t = register_predicted_sensor name linked duration t
  register_linked name (_ ∷ _ ∷ _) duration t = (false, t)

  -- One round of the second loop; `false` is `return false`.
  unfoldable pub register_predicted :
      String
      → Option (PredictorInfo W)
      → Option (VirtualSensorInfo W)
      → ThermalPredictions W
      → Bool × ThermalPredictions W
  register_predicted name (some p) (some v) t =
      let registered = register_linked name v.linked_sensors p.prediction_duration t in
      if is_previously_predicted v.formula then registered else (true, t)
  register_predicted name none v t = (true, t)
  register_predicted name (some p) none t = (true, t)

  unfoldable pub register_predicted_sensors :
      Map (SensorInfo W) → ThermalPredictions W → Bool × ThermalPredictions W
  register_predicted_sensors [] t = (true, t)
  register_predicted_sensors ((name, info) ∷ sensors) t =
      let (done, t') = register_predicted name info.predictor_info info.virtual_sensor_info t in
      let rest = register_predicted_sensors sensors t' in if done then rest else (false, t')

module _ {ℓ} {W : Type ℓ} ⦃f : Float W⦄ where
  -- One round of the first loop.
  unfoldable pub register_predictor :
      String
      → Option (PredictorInfo W)
      → Option (VirtualSensorInfo W)
      → ThermalPredictions W
      → Bool × ThermalPredictions W
  register_predictor name (some p) (some v) t =
      if p.supports_predictions
      then register_predictor_sensor name p.prediction_sample_interval p.num_prediction_samples t
      else (true, t)
  register_predictor name none v t = (true, t)
  register_predictor name (some p) none t = (true, t)

  unfoldable pub register_predictor_sensors :
      Map (SensorInfo W) → ThermalPredictions W → Bool × ThermalPredictions W
  register_predictor_sensors [] t = (true, t)
  register_predictor_sensors ((name, info) ∷ sensors) t =
      let (done, t') = register_predictor name info.predictor_info info.virtual_sensor_info t in
      let rest = register_predictor_sensors sensors t' in if done then rest else (false, t')

  unfoldable pub initialize_prediction_sensors :
      Map (SensorInfo W) → ThermalPredictions W → Bool × ThermalPredictions W
  initialize_prediction_sensors sensors t =
      let (done, t') = register_predictor_sensors sensors t in
      if done then register_predicted_sensors sensors t' else (false, t')
