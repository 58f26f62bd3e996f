-- ===== src/Predictions/Examples.antt =====
-- A sensor that predicts three values, ten seconds apart, and one that reads the last of them.
use hardware_mediatek.Base.{
  ℕ, pos, some, none, ◌≡◌, refl, ◌⊎◌, true, false, Bool, arith, [], ◌∷◌, Map, lookup, insert, subst,
  get_elem?,
}
use hardware_mediatek.Floats.{Whole, whole_float}
use hardware_mediatek.ThermalInfo.{
  SensorInfo, PredictorInfo, VirtualSensorInfo, okay, under_collecting, previously_predicted,
  use_ml_model, FormulaOption,
}
use hardware_mediatek.Predictions.{
  PredictionSample, PredictorSensorInfo, PredictedSensorInfo, ThermalPredictions, update_sensor,
  in_time, register_predictor_sensor, register_predicted_sensor, read_sensor,
}
use hardware_mediatek.Predictions.Initialize.{
  register_linked, register_predicted, register_predicted_sensors, register_predictor,
  register_predictor_sensors, initialize_prediction_sensors,
}
use hardware_mediatek.Predictions.Sound.{IsSound, update_sensor-IsSound}
use hardware_mediatek.Predictions.Registered.{initialize_prediction_sensors-IsSound}
use hardware_mediatek.Predictions.Read.{read_sensor_lem, update_sensor-read_sensor}

abbrev num : ℕ → Whole
num n = some (pos n)

abbrev predictor : Bool → PredictorInfo Whole
predictor supports = record {
  sensor = "model";
  support_pid_compensation = false;
  prediction_weights = [];
  k_p_compensate = λ _. none;
  supports_predictions = supports;
  prediction_sample_interval = pos 10_000;
  num_prediction_samples = pos 3;
  prediction_duration = pos 20_000;
}

abbrev virtual : FormulaOption → VirtualSensorInfo Whole
virtual formula = record {
  linked_sensors = "model" ∷ [];
  linked_sensors_type = [];
  coefficients = [];
  coefficients_type = [];
  offset = none;
  trigger_sensors = [];
  formula = formula;
  backup_sensor = "";
}

abbrev sensor : PredictorInfo Whole → VirtualSensorInfo Whole → SensorInfo Whole
sensor p v = record {
  hot_thresholds = λ _. none;
  cold_thresholds = λ _. none;
  hot_hysteresis = λ _. none;
  cold_hysteresis = λ _. none;
  severity_reference = [];
  multiplier = num 1;
  polling_delay = 1_000;
  passive_delay = 100;
  time_resolution = 10;
  step_ratio = none;
  send_cb = false;
  send_powerhint = false;
  is_watch = true;
  is_hidden = false;
  virtual_sensor_info = some v;
  throttling_info = none;
  predictor_info = some p;
}

abbrev sensors : Map (SensorInfo Whole)
sensors =
    ("model", sensor (predictor true) (virtual use_ml_model))
    ∷ ("future", sensor (predictor false) (virtual previously_predicted))
    ∷ []

abbrev nothing : ThermalPredictions Whole
nothing = record { predictor_sensors = []; predicted_sensors = [] }

abbrev no_sample : PredictionSample Whole
no_sample = record { timestamp = none; values = none ∷ none ∷ none ∷ [] }

abbrev model : PredictorSensorInfo Whole
model = record {
  sensor_name = "model";
  sample_duration = 10_000;
  num_out_samples = 3;
  samples = no_sample ∷ no_sample ∷ no_sample ∷ [];
  cur_index = 0;
}

abbrev future : PredictedSensorInfo
future = record {
  sensor_name = "future";
  linked_sensor = "model";
  duration = 20_000;
  prediction_index = 2;
}

abbrev registered : ThermalPredictions Whole
registered = record {
  predictor_sensors = ("model", model) ∷ [];
  predicted_sensors = ("future", future) ∷ [];
}

registers : initialize_prediction_sensors sensors nothing ≡ (true, registered)
unfolding initialize_prediction_sensors register_predictor_sensors register_predictor
    register_predictor_sensor register_predicted_sensors register_predicted register_linked
    register_predicted_sensor lookup insert
registers = refl

nothing-IsSound : IsSound nothing
unfolding lookup
nothing-IsSound = record { buffers = ground arith; pointers = ground arith }

registered-IsSound : IsSound registered
registered-IsSound =
    subst (λ (r : Bool × ThermalPredictions Whole). IsSound r.1) registers
      (initialize_prediction_sensors-IsSound sensors nothing nothing-IsSound)

future_found : lookup "future" registered.predicted_sensors ≡ some future
unfolding lookup
future_found = refl

model_found : lookup "model" registered.predictor_sensors ≡ some model
unfolding lookup
model_found = refl

-- 21 seconds later.
comes_true :
    in_time 22_000_000_000 20_000
      (record { timestamp = some 1_000_000_000; values = num 1 ∷ num 2 ∷ num 3 ∷ [] })
    ≡ true
unfolding in_time
comes_true = refl

initialize_prediction_sensors-IsSound_example :
    IsSound (initialize_prediction_sensors sensors nothing).1
initialize_prediction_sensors-IsSound_example =
    initialize_prediction_sensors-IsSound sensors nothing nothing-IsSound

update_sensor-IsSound_example :
    (done : Bool) × (t' : ThermalPredictions Whole) × (update_sensor "model"
        (num 1 ∷ num 2 ∷ num 3 ∷ [])
        1_000_000_000
        registered
      ≡ some (done, t'))
    × IsSound t'
    × (done ≡ true
        → (p : PredictorSensorInfo Whole) × (lookup "model" registered.predictor_sensors ≡ some p)
          × (3 ≡ p.num_out_samples))
    × ((p : PredictorSensorInfo Whole)
        → lookup "model" registered.predictor_sensors ≡ some p
        → 3 ≡ p.num_out_samples
        → done ≡ true)
    × (done ≡ false → t' ≡ registered)
update_sensor-IsSound_example =
    update_sensor-IsSound "model" (num 1 ∷ num 2 ∷ num 3 ∷ []) 1_000_000_000 registered
      registered-IsSound

read_sensor_lem_example :
    (p : PredictorSensorInfo Whole) × (lookup "model" registered.predictor_sensors ≡ some p)
    × (((i : ℕ) × (s : PredictionSample Whole) × (value : Whole) × (get_elem? p.samples i ≡ some s)
          × (in_time 5 20_000 s ≡ true)
          × (get_elem? s.values 2 ≡ some value)
          × (read_sensor "future" 5 registered ≡ some (okay, some value)))
        ⊎ ((read_sensor "future" 5 registered ≡ some (under_collecting, none))
            × ((i : ℕ) (s : PredictionSample Whole)
                → get_elem? p.samples i ≡ some s
                → in_time 5 20_000 s ≡ false)))
read_sensor_lem_example =
    read_sensor_lem "future" 5 registered future registered-IsSound future_found

update_sensor-read_sensor_example :
    (t' : ThermalPredictions Whole) × (update_sensor "model"
        (num 1 ∷ num 2 ∷ num 3 ∷ [])
        1_000_000_000
        registered
      ≡ some (true, t'))
    × (read_sensor "future" 22_000_000_000 t' ≡ some (okay, some (num 3)))
update_sensor-read_sensor_example =
    update_sensor-read_sensor "future" future model (num 1 ∷ num 2 ∷ num 3 ∷ []) (num 3)
      1_000_000_000 22_000_000_000 registered registered-IsSound future_found model_found refl refl
      comes_true
