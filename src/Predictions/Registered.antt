-- ===== src/Predictions/Registered.antt =====
-- `initializePredictionSensors` keeps the invariant of the predictions.
use hardware_mediatek.Base.{ℤ, Bool, Option, none, some, List, [], ◌∷◌, String, Map, if_both}
use hardware_mediatek.Floats.{Float}
use hardware_mediatek.ThermalInfo.{SensorInfo, PredictorInfo, VirtualSensorInfo}
use hardware_mediatek.Predictions.{ThermalPredictions}
use hardware_mediatek.Predictions.Initialize.{
  is_previously_predicted, register_linked, register_predicted, register_predicted_sensors,
  register_predictor, register_predictor_sensors, initialize_prediction_sensors,
}
use hardware_mediatek.Predictions.Sound.{IsSound}
use hardware_mediatek.Predictions.Registering.{
  register_predictor_sensor-IsSound, register_predicted_sensor-IsSound,
}

module _ {ℓ} {W : Type ℓ} ⦃f : Float W⦄ where
  register_predictor-IsSound :
      (name : String) (p : Option (PredictorInfo W)) (v : Option (VirtualSensorInfo W))
      (t : ThermalPredictions W)
      → IsSound t
      → IsSound (register_predictor name p v t).1
  unfolding register_predictor
  register_predictor-IsSound name none v t inv = inv
  register_predictor-IsSound name (some p) none t inv = inv
  register_predictor-IsSound name (some p) (some v) t inv =
      if_both (λ (r : Bool × ThermalPredictions W). IsSound r.1) p.supports_predictions _ _
        (register_predictor_sensor-IsSound name p.prediction_sample_interval
          p.num_prediction_samples t inv)
        inv

  register_predictor_sensors-IsSound :
      (sensors : Map (SensorInfo W)) (t : ThermalPredictions W)
      → IsSound t
      → IsSound (register_predictor_sensors sensors t).1
  unfolding register_predictor_sensors
  register_predictor_sensors-IsSound [] t inv = inv
  register_predictor_sensors-IsSound ((name, info) ∷ sensors) t inv =
      let r = register_predictor name info.predictor_info info.virtual_sensor_info t in
      let next =
        register_predictor-IsSound name info.predictor_info info.virtual_sensor_info t inv in
      if_both (λ (x : Bool × ThermalPredictions W). IsSound x.1) r.0 _ _
        (register_predictor_sensors-IsSound sensors r.1 next) next

  register_linked-IsSound :
      (name : String) (linked : List String) (duration : ℤ) (t : ThermalPredictions W)
      → IsSound t
      → IsSound (register_linked name linked duration t).1
  unfolding register_linked
  register_linked-IsSound name [] duration t inv = inv
  register_linked-IsSound name (linked ∷ []) duration t inv =
      register_predicted_sensor-IsSound name linked duration t inv
  register_linked-IsSound name (_ ∷ _ ∷ _) duration t inv = inv

  register_predicted-IsSound :
      (name : String) (p : Option (PredictorInfo W)) (v : Option (VirtualSensorInfo W))
      (t : ThermalPredictions W)
      → IsSound t
      → IsSound (register_predicted name p v t).1
  unfolding register_predicted
  register_predicted-IsSound name none v t inv = inv
  register_predicted-IsSound name (some p) none t inv = inv
  register_predicted-IsSound name (some p) (some v) t inv =
      if_both (λ (r : Bool × ThermalPredictions W). IsSound r.1) (is_previously_predicted v.formula)
        _ _ (register_linked-IsSound name v.linked_sensors p.prediction_duration t inv) inv

  register_predicted_sensors-IsSound :
      (sensors : Map (SensorInfo W)) (t : ThermalPredictions W)
      → IsSound t
      → IsSound (register_predicted_sensors sensors t).1
  unfolding register_predicted_sensors
  register_predicted_sensors-IsSound [] t inv = inv
  register_predicted_sensors-IsSound ((name, info) ∷ sensors) t inv =
      let r = register_predicted name info.predictor_info info.virtual_sensor_info t in
      let next =
        register_predicted-IsSound name info.predictor_info info.virtual_sensor_info t inv in
      if_both (λ (x : Bool × ThermalPredictions W). IsSound x.1) r.0 _ _
        (register_predicted_sensors-IsSound sensors r.1 next) next

  -- Registering the sensors of any configuration keeps the predictions sound, also where it stops
  -- half-way: each buffer has its lengths, and each predicted sensor points into the values of its
  -- predictor.
  pub initialize_prediction_sensors-IsSound :
      (sensors : Map (SensorInfo W)) (t : ThermalPredictions W)
      → IsSound t
      → IsSound (initialize_prediction_sensors sensors t).1
  unfolding initialize_prediction_sensors
  initialize_prediction_sensors-IsSound sensors t inv =
      let r = register_predictor_sensors sensors t in
      let next = register_predictor_sensors-IsSound sensors t inv in
      if_both (λ (x : Bool × ThermalPredictions W). IsSound x.1) r.0 _ _
        (register_predicted_sensors-IsSound sensors r.1 next) next
