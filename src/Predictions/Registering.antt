-- ===== src/Predictions/Registering.antt =====
-- `registerPredictorSensor` and `registerPredictedSensor` keep the invariant of the predictions.
use native.Mathlib.Nat.{div-lt_iff_lt-mul}
use hardware_mediatek.Base.{
  ℕ, zero, suc, ◌+◌, ◌-◌, ◌*◌, ◌/◌, ◌<◌, ◌≤◌, ◌≡◌, Bool, ◌||◌, none, some, String, ℤ, pos, ltb,
  leb_ℤ, ltb_ℤ, pos_part, lookup, insert, contains, length, replicate, All, arith, Bool-cases,
  Option-cases, inl, inr, subst, sym, ◌∙◌, not_ltb→le, length-replicate, lookup_of_not_contains,
}
use hardware_mediatek.Floats.{Float}
use hardware_mediatek.Predictions.{
  PredictionSample, PredictorSensorInfo, ThermalPredictions, register_predicted_sensor,
  register_predictor_sensor,
}
use hardware_mediatek.Predictions.Sound.{PointsInto, IsSound, insert-cases, set_predictor-IsSound}

suc_mul : (n m : ℕ) → suc n * m ≡ n * m + m
suc_mul n m = omega arith

index_lem :
    (count sample duration : ℕ)
    → 0 < count
    → 0 < sample
    → duration ≤ (count - 1) * sample
    → duration / sample < count
index_lem zero sample duration c s h = absurd (omega arith)
index_lem (suc n) sample duration c s h =
    let pred : suc n - 1 ≡ n = omega arith in
    let low = subst (λ m. duration ≤ m * sample) pred h in
    (div-lt_iff_lt-mul {k = sample} {x = duration} {y = suc n} s).1
      (omega (arith, suc_mul n sample, low, s))

module _ {ℓ} {W : Type ℓ} where
  pub register_predicted_sensor-IsSound :
      (name linked : String) (duration : ℤ) (t : ThermalPredictions W)
      → IsSound t
      → IsSound (register_predicted_sensor name linked duration t).1
  unfolding register_predicted_sensor
  register_predicted_sensor-IsSound name linked duration t inv =
      let ok = λ (r : Bool × ThermalPredictions W). IsSound r.1 in
      elim (Bool-cases (ltb_ℤ duration (pos 0) || contains name t.predicted_sensors)) [
        | inl refused ↦ rw refused inv
        | inr fresh ↦ rw fresh (elim (Option-cases (lookup linked t.predictor_sensors)) [
          | inl e ↦ rw e inv
          | inr (p, e) ↦
              rw e
                (elim (Bool-cases
                  (ltb ((p.num_out_samples - 1) * p.sample_duration) (pos_part duration))) [
                    | inl far ↦ rw far inv
                    | inr near ↦ rw near (registered p e (not_ltb→le _ _ near))
                  ])
        ])
      ]
    where
      registered :
          (p : PredictorSensorInfo W)
          → lookup linked t.predictor_sensors ≡ some p
          → pos_part duration ≤ (p.num_out_samples - 1) * p.sample_duration
          → IsSound (record t {
            predicted_sensors =
                insert name
                  (record {
                    sensor_name = name;
                    linked_sensor = linked;
                    duration = pos_part duration;
                    prediction_index = pos_part duration / p.sample_duration;
                  })
                  t.predicted_sensors;
          })
      registered p e near =
          let buffer = inv.buffers linked p e in
          record {
            buffers = inv.buffers;
            pointers = λ j q found.
                insert-cases (PointsInto t.predictor_sensors) name j _ q t.predicted_sensors found
                  (
                    p,
                    e,
                    index_lem p.num_out_samples p.sample_duration (pos_part duration)
                        buffer.count_positive buffer.duration_positive near,
                  )
                  (λ _ old. inv.pointers j q old);
          }

module _ {ℓ} {W : Type ℓ} ⦃f : Float W⦄ where
  All-replicate :
      (n count : ℕ) (s : PredictionSample W)
      → length s.values ≡ n
      → All (λ (x : PredictionSample W). length x.values ≡ n) (replicate count s)
  All-replicate n zero s e = tt
  All-replicate n (suc count) s e = (e, All-replicate n count s e)

  pub register_predictor_sensor-IsSound :
      (name : String) (sample_duration num_out_samples : ℤ) (t : ThermalPredictions W)
      → IsSound t
      → IsSound (register_predictor_sensor name sample_duration num_out_samples t).1
  unfolding register_predictor_sensor
  register_predictor_sensor-IsSound name sample_duration num_out_samples t inv =
      elim (Bool-cases (leb_ℤ sample_duration (pos 0) || leb_ℤ num_out_samples (pos 0))) [
        | inl refused ↦ rw refused inv
        | inr positive ↦ rw positive (elim (Bool-cases (contains name t.predictor_sensors)) [
          | inl known ↦ rw known inv
          | inr fresh ↦ rw fresh (
              set_predictor-IsSound name _ t inv
                (record {
                  duration_positive = ground arith;
                  count_positive = ground arith;
                  full = length-replicate (pos_part num_out_samples) _;
                  index_low = ground arith;
                  values_full =
                      All-replicate (pos_part num_out_samples) (pos_part num_out_samples) _
                        (length-replicate (pos_part num_out_samples) f.nan);
                })
                (λ p found. absurd (
                  some-ne_none p
                    (sym found ∙ lookup_of_not_contains name t.predictor_sensors fresh))))
        ])
      ]
    where
      some-ne_none : (p : PredictorSensorInfo W) → some p ≡ none → ⊥
      some-ne_none p e = cc
