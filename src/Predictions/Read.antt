-- ===== src/Predictions/Read.antt =====
-- What `readSensor` answers, and that it gives back what `updateSensor` has stored.
use native.Mathlib.Nat.{mod-eq_of_lt, mod_self}
use mathlib.Core.Option.{some-injective}
use hardware_mediatek.Base.{
  ℕ, zero, suc, ◌+◌, ◌-◌, ◌%◌, ◌<◌, ◌≤◌, ◌≡◌, refl, true, false, Option, none, some, List, [], ◌∷◌,
  String, ◌⊎◌, inl, inr, ltb, lookup, insert, length, get_elem?, set, All, arith, Bool-cases, subst,
  sym, ◌∙◌, get_elem?-lt, get_elem?-set_self, lt→ltb, ◌==◌, ==_iff, get_elem?-inside, ltb→lt,
  not_ltb→le, lookup-insert, str_eq_refl,
}
use hardware_mediatek.ThermalInfo.{SensorReadStatus, okay, under_collecting}
use hardware_mediatek.Predictions.{
  PredictionSample, PredictorSensorInfo, PredictedSensorInfo, ThermalPredictions, push_sample,
  update_sensor, in_time, index_back, read_rounds, read_sensor,
}
use hardware_mediatek.Predictions.Sound.{HasBuffer, IsSound}

-- The round that looks at the place `i`.
round_of : (cur num i : ℕ) → cur < num → i < num → (k : ℕ) × (k < num) × (index_back cur num k ≡ i)
round_of cur num i c h = elim (Bool-cases (ltb i cur)) [
  | inl e ↦ let low = ltb→lt i cur e in (cur - (i + 1), omega (arith, low), ground (arith, low))
  | inr e ↦
      let high = not_ltb→le i cur e in
      (cur + num - (i + 1), omega (arith, high), ground (arith, high))
]

index_back-lt : (cur num k : ℕ) → cur < num → k < num → index_back cur num k < num
index_back-lt cur num k c h = ground arith

-- The place that the next write goes to is the one that the first round after it looks at.
wrap : (cur num : ℕ) → cur < num → index_back ((cur + 1) % num) num 0 ≡ cur
wrap cur num h = elim (Bool-cases (ltb (cur + 1) num)) [
  | inl e ↦
      let small : (cur + 1) % num ≡ cur + 1 = mod-eq_of_lt (ltb→lt (cur + 1) num e) in
      rw small (ground arith)
  | inr e ↦
      let full : cur + 1 ≡ num = omega (arith, not_ltb→le (cur + 1) num e) in
      let none_left : (cur + 1) % num ≡ 0 = subst (λ m. m % num ≡ 0) (sym full) (mod_self num) in
      rw none_left (ground (arith, full))
]

==-true : (a b : ℕ) → a ≡ b → (a == b) ≡ true
==-true a b e = (==_iff a b).1 e

module _ {ℓ} {W : Type ℓ} where
  values_at :
      (n i : ℕ) (samples : List (PredictionSample W)) (s : PredictionSample W)
      → All (λ (x : PredictionSample W). length x.values ≡ n) samples
      → get_elem? samples i ≡ some s
      → length s.values ≡ n
  values_at n i [] s a e = cc
  values_at n zero (x ∷ xs) s a e =
      subst (λ (y : PredictionSample W). length y.values ≡ n) (some-injective x s e) a.0
  values_at n (suc i) (x ∷ xs) s a e = values_at n i xs s a.1 e

  -- The rounds from `k` on find no sample of the right age.
  abbrev pub Misses : ℕ → PredictedSensorInfo → PredictorSensorInfo W → ℕ → ℕ → Type ℓ
  Misses now q p left k =
      (j : ℕ) (s : PredictionSample W)
      → k ≤ j
      → j < k + left
      → get_elem? p.samples (index_back p.cur_index p.num_out_samples j) ≡ some s
      → in_time now q.duration s ≡ false

  -- What the rounds from `k` on may answer.
  abbrev pub Answers :
      ℕ
      → PredictedSensorInfo
      → PredictorSensorInfo W
      → ℕ
      → ℕ
      → Option (SensorReadStatus × Option W)
      → Type ℓ
  Answers now q p left k run =
      ((i : ℕ) × (s : PredictionSample W) × (value : W) × (get_elem? p.samples i ≡ some s)
        × (in_time now q.duration s ≡ true)
        × (get_elem? s.values q.prediction_index ≡ some value)
        × (run ≡ some (okay, some value)))
      ⊎ ((run ≡ some (under_collecting, none)) × Misses now q p left k)

  read_rounds_lem :
      (now : ℕ) (q : PredictedSensorInfo) (p : PredictorSensorInfo W) (left k : ℕ)
      → HasBuffer p
      → q.prediction_index < p.num_out_samples
      → k + left ≤ p.num_out_samples
      → Answers now q p left k (read_rounds now q p left k)
  unfolding read_rounds
  read_rounds_lem now q p zero k b low h = inr (refl, λ j s from to. absurd (omega arith))
  read_rounds_lem now q p (suc left) k b low h =
      let place = index_back p.cur_index p.num_out_samples k in
      let inside = index_back-lt p.cur_index p.num_out_samples k b.index_low (omega arith) in
      let (s, at) = get_elem?-lt p.samples place (omega (arith, b.full, inside)) in
      elim (Bool-cases (in_time now q.duration s)) [
        | inl hit ↦
            let size = values_at p.num_out_samples place p.samples s b.values_full at in
            let (value, found) =
              get_elem?-lt s.values q.prediction_index (omega (arith, size, low)) in
            inl (place, s, value, at, hit, found, rw at (rw hit (rw found refl)))
        | inr miss ↦ rw at (
            rw miss (elim (read_rounds_lem now q p left (k + 1) b low (omega arith)) [
              | inl found ↦ inl found
              | inr (run, others) ↦ inr (run, missed s at miss others)
            ]))
      ]
    where
      missed :
          (s : PredictionSample W)
          → get_elem? p.samples (index_back p.cur_index p.num_out_samples k) ≡ some s
          → in_time now q.duration s ≡ false
          → Misses now q p left (k + 1)
          → Misses now q p (suc left) k
      missed s at miss others j x from to e = elim (Bool-cases (ltb k j)) [
        | inl after ↦ others j x (omega (arith, ltb→lt k j after)) (omega arith) e
        | inr here ↦
            let same : j ≡ k = omega (arith, not_ltb→le k j here) in
            let e' =
              subst (λ m. get_elem? p.samples (index_back p.cur_index p.num_out_samples m) ≡ some x)
                same e in
            subst (λ (y : PredictionSample W). in_time now q.duration y ≡ false)
              (some-injective s x (sym at ∙ e')) miss
      ]

  -- The answer for a predicted sensor of a sound state: a value that its predictor stored about the
  -- duration of the sensor ago, within the tolerance, or, where no stored sample is that old, that the
  -- data are still being collected.
  pub read_sensor_lem :
      (name : String) (now : ℕ) (t : ThermalPredictions W) (q : PredictedSensorInfo)
      → IsSound t
      → lookup name t.predicted_sensors ≡ some q
      → (p : PredictorSensorInfo W) × (lookup q.linked_sensor t.predictor_sensors ≡ some p)
        × (((i : ℕ) × (s : PredictionSample W) × (value : W) × (get_elem? p.samples i ≡ some s)
              × (in_time now q.duration s ≡ true)
              × (get_elem? s.values q.prediction_index ≡ some value)
              × (read_sensor name now t ≡ some (okay, some value)))
            ⊎ ((read_sensor name now t ≡ some (under_collecting, none))
                × ((i : ℕ) (s : PredictionSample W)
                    → get_elem? p.samples i ≡ some s
                    → in_time now q.duration s ≡ false)))
  unfolding read_sensor
  read_sensor_lem name now t q inv e =
      let (p, found, low) = inv.pointers name q e in
      let b = inv.buffers q.linked_sensor p found in
      let count = b.count_positive in
      (
        p,
        found,
        rw (e, read_sensor)
            (rw found
              (elim (read_rounds_lem now q p (suc (p.num_out_samples - 1)) 0 b low (omega arith)) [
                | inl hit ↦ inl hit
                | inr (run, others) ↦ inr (
                  run,
                  λ i s at.
                      let inside = get_elem?-inside p.samples i s at in
                      let (k, turn, place) =
                        round_of p.cur_index p.num_out_samples i b.index_low
                          (omega (arith, inside, b.full)) in
                      others k s (omega arith) (omega arith)
                        (subst (λ m. get_elem? p.samples m ≡ some s) (sym place) at),
                )
              ])),
      )

  -- A prediction is read back when its time has come: in a sound state, with as many values as the
  -- predictor has stored at `stored`, a read about the duration of the sensor later, within the
  -- tolerance, gives the value at the index of the sensor.
  pub update_sensor-read_sensor :
      (name : String) (q : PredictedSensorInfo) (p : PredictorSensorInfo W) (values : List W)
      (value : W) (stored now : ℕ) (t : ThermalPredictions W)
      → IsSound t
      → lookup name t.predicted_sensors ≡ some q
      → lookup q.linked_sensor t.predictor_sensors ≡ some p
      → length values ≡ p.num_out_samples
      → get_elem? values q.prediction_index ≡ some value
      → in_time now q.duration (record { timestamp = some stored; values = values }) ≡ true
      → (t' : ThermalPredictions W) × (update_sensor q.linked_sensor values stored t
          ≡ some (true, t'))
        × (read_sensor name now t' ≡ some (okay, some value))
  unfolding update_sensor push_sample read_sensor read_rounds
  update_sensor-read_sensor name q p values value stored now t inv e found size here hit =
      let b = inv.buffers q.linked_sensor p found in
      let s : PredictionSample W = record { timestamp = some stored; values = values } in
      let room : p.cur_index < length p.samples = omega (arith, b.full, b.index_low) in
      let p' = record p {
        samples = set p.samples p.cur_index s;
        cur_index = (p.cur_index + 1) % p.num_out_samples;
      } in
      let at : get_elem? p'.samples (index_back p'.cur_index p.num_out_samples 0) ≡ some s =
        subst (λ m. get_elem? p'.samples m ≡ some s)
          (sym (wrap p.cur_index p.num_out_samples b.index_low))
          (get_elem?-set_self p.samples p.cur_index s room) in
      let there = lookup-insert q.linked_sensor q.linked_sensor p' t.predictor_sensors in
      (
        record t { predictor_sensors = insert q.linked_sensor p' t.predictor_sensors },
        rw (found, update_sensor)
            (rw (==-true _ _ size) (rw (lt→ltb p.cur_index (length p.samples) room) refl)),
        rw (e, read_sensor)
            (rw (there, str_eq_refl q.linked_sensor) (rw at (rw hit (rw here refl)))),
      )
