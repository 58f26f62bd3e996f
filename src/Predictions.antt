-- ===== src/Predictions.antt =====
-- aidl/thermal/utils/thermal_predictions_helper.{h,cpp}: the ring buffers of predicted temperatures, and
-- the sensors that read them back when their time has come.
pub mod Initialize
pub mod Sound
pub mod Registering
pub mod Registered
pub mod Read
pub mod Examples
use hardware_mediatek.Base.{
  ℕ, zero, suc, ◌+◌, ◌-◌, ◌*◌, ◌/◌, ◌%◌, Bool, true, false, not, ◌&&◌, ◌||◌, Option, none, some,
  List, [], ◌∷◌, ◌>>=◌, String, ℤ, pos, ltb, leb, ltb_ℤ, leb_ℤ, pos_part, ◌==◌, Map, lookup, insert,
  contains, if◌then◌else◌, length, get_elem?, set, replicate,
}
use hardware_mediatek.Floats.{Float}
use hardware_mediatek.ThermalInfo.{
  SensorInfo, SensorReadStatus, FormulaOption, okay, under_collecting, previously_predicted, error,
}

-- Times are in nanoseconds since boot; `none` is `time_point::min()`.
pub record PredictionSample {ℓ} (W : Type ℓ) : Type ℓ where
  pub timestamp : Option ℕ
  pub values : List W

-- The numbers are positive where the sensor is registered. Durations are in milliseconds.
pub record PredictorSensorInfo {ℓ} (W : Type ℓ) : Type ℓ where
  pub sensor_name : String
  pub sample_duration : ℕ
  pub num_out_samples : ℕ
  pub samples : List (PredictionSample W)
  pub cur_index : ℕ

pub record PredictedSensorInfo : Type 0 where
  pub sensor_name : String
  pub linked_sensor : String
  pub duration : ℕ
  pub prediction_index : ℕ

pub record ThermalPredictions {ℓ} (W : Type ℓ) : Type ℓ where
  pub predictor_sensors : Map (PredictorSensorInfo W)
  pub predicted_sensors : Map PredictedSensorInfo

-- `kToleranceIntervalMs`
abbrev pub tolerance_interval_ms : ℕ
tolerance_interval_ms = 3_750

-- `cur_index - loop_count - 1`, and a turn of the buffer if that is negative
abbrev pub index_back : ℕ → ℕ → ℕ → ℕ
index_back cur_index num_out_samples loop_count =
    if ltb cur_index (loop_count + 1)
    then cur_index + num_out_samples - (loop_count + 1)
    else cur_index - (loop_count + 1)

module _ {ℓ} {W : Type ℓ} where
  unfoldable pub register_predicted_sensor :
      String → String → ℤ → ThermalPredictions W → Bool × ThermalPredictions W
  register_predicted_sensor sensor_name linked_sensor duration t =
      let registered = λ (p : PredictorSensorInfo W).
        let max_prediction_duration = (p.num_out_samples - 1) * p.sample_duration in
        if ltb max_prediction_duration (pos_part duration) then (false, t) else (
          true,
          record t {
            predicted_sensors =
                insert sensor_name
                  (record {
                    sensor_name = sensor_name;
                    linked_sensor = linked_sensor;
                    duration = pos_part duration;
                    prediction_index = pos_part duration / p.sample_duration;
                  })
                  t.predicted_sensors;
          },
        ) in
      if ltb_ℤ duration (pos 0) || contains sensor_name t.predicted_sensors
      then (false, t)
      else elim (lookup linked_sensor t.predictor_sensors) [
        | none ↦ (false, t)
        | some p ↦ registered p
      ]

  -- A buffer after a write; `samples[cur_index]` out of range faults.
  unfoldable pub push_sample : ℕ → List W → PredictorSensorInfo W → Option (PredictorSensorInfo W)
  push_sample now values p =
      if ltb p.cur_index (length p.samples)
      then some (record p {
        samples = set p.samples p.cur_index (record { timestamp = some now; values = values });
        cur_index = (p.cur_index + 1) % p.num_out_samples;
      })
      else none

  unfoldable pub update_sensor :
      String → List W → ℕ → ThermalPredictions W → Option (Bool × ThermalPredictions W)
  update_sensor sensor_name values now t = elim (lookup sensor_name t.predictor_sensors) [
    | none ↦ some (false, t)
    | some p ↦
        let pushed : Option (Bool × ThermalPredictions W) = (do
          p' ← push_sample now values p
          some
              (true, record t { predictor_sensors = insert sensor_name p' t.predictor_sensors })) in
        if length values == p.num_out_samples then pushed else some (false, t)
  ]

  -- `now - time_point::min()` wraps to a large negative time, which no tolerance lets in.
  unfoldable pub in_time : ℕ → ℕ → PredictionSample W → Bool
  in_time now duration s = elim s.timestamp [
    | none ↦ false
    | some timestamp ↦
        let time_elapsed = (now - timestamp) / 1_000_000 in
        leb time_elapsed (duration + tolerance_interval_ms)
        && leb duration (time_elapsed + tolerance_interval_ms)
  ]

  -- The rounds that are left, from `loop_count`.
  unfoldable pub read_rounds :
      ℕ → PredictedSensorInfo → PredictorSensorInfo W → ℕ → ℕ → Option (SensorReadStatus × Option W)
  read_rounds now q p zero loop_count = some (under_collecting, none)
  read_rounds now q p (suc left) loop_count = do
    let rest = read_rounds now q p left (loop_count + 1)
    sample ← get_elem? p.samples (index_back p.cur_index p.num_out_samples loop_count)
    let found : Option (SensorReadStatus × Option W) = (do
      value ← get_elem? sample.values q.prediction_index
      some (okay, some value))
    if in_time now q.duration sample then found else rest

  -- The status, and `*temp` where it is written. The loop has at least one round.
  unfoldable pub read_sensor :
      String → ℕ → ThermalPredictions W → Option (SensorReadStatus × Option W)
  read_sensor sensor_name now t = elim (lookup sensor_name t.predicted_sensors) [
    | none ↦ some (error, none)
    | some q ↦ elim (lookup q.linked_sensor t.predictor_sensors) [
      | none ↦ some (error, none)
      | some p ↦ read_rounds now q p (suc (p.num_out_samples - 1)) 0
    ]
  ]

module _ {ℓ} {W : Type ℓ} ⦃f : Float W⦄ where
  unfoldable pub register_predictor_sensor :
      String → ℤ → ℤ → ThermalPredictions W → Bool × ThermalPredictions W
  register_predictor_sensor sensor_name sample_duration num_out_samples t =
      let count = pos_part num_out_samples in
      let empty_sample : PredictionSample W = record {
        timestamp = none;
        values = replicate count f.nan;
      } in
      if leb_ℤ sample_duration (pos 0) || leb_ℤ num_out_samples (pos 0)
      then (false, t)
      else if contains sensor_name t.predictor_sensors
      then (false, t)
      else (
        true,
        record t {
          predictor_sensors =
              insert sensor_name
                (record {
                  sensor_name = sensor_name;
                  sample_duration = pos_part sample_duration;
                  num_out_samples = count;
                  samples = replicate count empty_sample;
                  cur_index = 0;
                })
                t.predictor_sensors;
        },
      )
