-- ===== src/Predictions/Sound.antt =====
-- The invariant of the predictions: the buffers have their lengths, and each predicted sensor points
-- into the buffer of its predictor.
use native.Mathlib.Nat.{mod-lt}
use mathlib.Core.Option.{some-injective}
use hardware_mediatek.Base.{
  ℕ, zero, suc, ◌+◌, ◌%◌, ◌<◌, ◌≡◌, refl, Bool, true, false, some, List, [], ◌∷◌, String, ltb, Map,
  lookup, insert, length, set, All, arith, Bool-cases, Option-cases, inl, inr, str_eq, str_eq_iff,
  lookup-insert, subst, sym, ap, ◌∙◌, lt→ltb, ==_iff, ◌==◌, length-set,
}
use hardware_mediatek.Predictions.{
  PredictionSample, PredictorSensorInfo, PredictedSensorInfo, ThermalPredictions, push_sample,
  update_sensor,
}

-- An entry of a map after an assignment is the new one, or was there.
pub insert-cases {ℓ κ} :
    {V : Type κ} (P : V → Type ℓ) (k j : String) (v w : V) (m : Map V)
    → lookup j (insert k v m) ≡ some w
    → P v
    → (str_eq k j ≡ false → lookup j m ≡ some w → P w)
    → P w
insert-cases P k j v w m found new old = elim (Bool-cases (str_eq k j)) [
  | inl same ↦ subst P (some-injective v w (rw (lookup-insert k j v m, same) at found)) new
  | inr different ↦ old different (rw (lookup-insert k j v m, different) at found)
]

module _ {ℓ} {W : Type ℓ} where
  pub record HasBuffer (p : PredictorSensorInfo W) : Type ℓ where
    pub duration_positive : 0 < p.sample_duration
    pub count_positive : 0 < p.num_out_samples
    pub full : length p.samples ≡ p.num_out_samples
    pub index_low : p.cur_index < p.num_out_samples
    pub values_full :
        All (λ (s : PredictionSample W). length s.values ≡ p.num_out_samples) p.samples

  -- The predictor of a predicted sensor is there, and has the value that the sensor reads.
  abbrev pub PointsInto : Map (PredictorSensorInfo W) → PredictedSensorInfo → Type ℓ
  PointsInto predictors q =
      (p : PredictorSensorInfo W) × (lookup q.linked_sensor predictors ≡ some p)
      × (q.prediction_index < p.num_out_samples)

  pub record IsSound (t : ThermalPredictions W) : Type ℓ where
    pub buffers :
        (name : String) (p : PredictorSensorInfo W)
        → lookup name t.predictor_sensors ≡ some p
        → HasBuffer p
    pub pointers :
        (name : String) (q : PredictedSensorInfo)
        → lookup name t.predicted_sensors ≡ some q
        → PointsInto t.predictor_sensors q

  -- A predictor that takes the place of one with as many samples, or of none, keeps the pointers.
  PointsInto-insert :
      (name : String) (p' : PredictorSensorInfo W) (predictors : Map (PredictorSensorInfo W))
      (q : PredictedSensorInfo)
      → ((p : PredictorSensorInfo W)
          → lookup name predictors ≡ some p
          → p.num_out_samples ≡ p'.num_out_samples)
      → PointsInto predictors q
      → PointsInto (insert name p' predictors) q
  PointsInto-insert name p' predictors q same (p, found, low) =
      elim (Bool-cases (str_eq name q.linked_sensor)) [
        | inl e ↦ (
          p',
          rw (lookup-insert name q.linked_sensor p' predictors, e) refl,
          subst (λ n. q.prediction_index < n)
              (same p (ap (λ k. lookup k predictors) (str_eq_iff name q.linked_sensor e) ∙ found))
              low,
        )
        | inr e ↦ (p, rw (lookup-insert name q.linked_sensor p' predictors, e) found, low)
      ]

  pub set_predictor-IsSound :
      (name : String) (p' : PredictorSensorInfo W) (t : ThermalPredictions W)
      → IsSound t
      → HasBuffer p'
      → ((p : PredictorSensorInfo W)
          → lookup name t.predictor_sensors ≡ some p
          → p.num_out_samples ≡ p'.num_out_samples)
      → IsSound (record t { predictor_sensors = insert name p' t.predictor_sensors })
  set_predictor-IsSound name p' t inv buffer same = record {
    buffers = λ j p found.
        insert-cases HasBuffer name j p' p t.predictor_sensors found buffer
          (λ _ old. inv.buffers j p old);
    pointers =
        λ j q found. PointsInto-insert name p' t.predictor_sensors q same (inv.pointers j q found);
  }

  All-set :
      (n i : ℕ) (s : PredictionSample W) (samples : List (PredictionSample W))
      → length s.values ≡ n
      → All (λ (x : PredictionSample W). length x.values ≡ n) samples
      → All (λ (x : PredictionSample W). length x.values ≡ n) (set samples i s)
  All-set n i s [] e a = tt
  All-set n zero s (x ∷ xs) e a = (e, a.1)
  All-set n (suc i) s (x ∷ xs) e a = (a.0, All-set n i s xs e a.1)

  -- A write into a buffer goes through and keeps it one.
  pub push_sample-HasBuffer :
      (now : ℕ) (values : List W) (p : PredictorSensorInfo W)
      → HasBuffer p
      → length values ≡ p.num_out_samples
      → (p' : PredictorSensorInfo W) × (push_sample now values p ≡ some p')
        × HasBuffer p'
        × (p.num_out_samples ≡ p'.num_out_samples)
  unfolding push_sample
  push_sample-HasBuffer now values p b e =
      let s : PredictionSample W = record { timestamp = some now; values = values } in
      let inside : ltb p.cur_index (length p.samples) ≡ true =
        lt→ltb p.cur_index (length p.samples) (omega (arith, b.full, b.index_low)) in
      (
        record p {
          samples = set p.samples p.cur_index s;
          cur_index = (p.cur_index + 1) % p.num_out_samples;
        },
        rw inside refl,
        record {
          duration_positive = b.duration_positive;
          count_positive = b.count_positive;
          full = length-set p.samples p.cur_index s ∙ b.full;
          index_low = mod-lt (p.cur_index + 1) b.count_positive;
          values_full = All-set p.num_out_samples p.cur_index s p.samples e b.values_full;
        },
        refl,
      )

  -- An update of a sound state goes through and keeps it sound. It answers true where the sensor is a
  -- predictor with as many values, and only there; where it answers false nothing has changed.
  pub update_sensor-IsSound :
      (name : String) (values : List W) (now : ℕ) (t : ThermalPredictions W)
      → IsSound t
      → (done : Bool) × (t' : ThermalPredictions W) × (update_sensor name values now t
          ≡ some (done, t'))
        × IsSound t'
        × (done ≡ true
            → (p : PredictorSensorInfo W) × (lookup name t.predictor_sensors ≡ some p)
              × (length values ≡ p.num_out_samples))
        × ((p : PredictorSensorInfo W)
            → lookup name t.predictor_sensors ≡ some p
            → length values ≡ p.num_out_samples
            → done ≡ true)
        × (done ≡ false → t' ≡ t)
  unfolding update_sensor
  update_sensor-IsSound name values now t inv =
      elim (Option-cases (lookup name t.predictor_sensors)) [
        | inl e ↦ (
          false,
          t,
          rw (e, update_sensor) refl,
          inv,
          λ yes'. absurd (cc),
          λ p found _. absurd (cc),
          λ _. refl,
        )
        | inr (p, e) ↦ elim (Bool-cases (length values == p.num_out_samples)) [
          | inr different ↦ (
            false,
            t,
            rw (e, update_sensor) (rw different refl),
            inv,
            λ yes'. absurd (cc),
            λ other found equal.
                absurd (not_equal p other (some-injective p other (sym e ∙ found)) different equal),
            λ _. refl,
          )
          | inl same ↦
              let equal = (==_iff (length values) p.num_out_samples).0 same in
              let (p', run, buffer, count) =
                push_sample-HasBuffer now values p (inv.buffers name p e) equal in
              (
                true,
                record t { predictor_sensors = insert name p' t.predictor_sensors },
                rw (e, update_sensor) (rw same (rw run refl)),
                set_predictor-IsSound name p' t inv buffer (λ other g.
                    ap (λ (x : PredictorSensorInfo W). x.num_out_samples)
                      (some-injective other p (sym g ∙ e))
                    ∙ count),
                λ _. (p, e, equal),
                λ _ _ _. refl,
                λ no. absurd (cc),
              )
        ]
      ]
    where
      not_equal :
          (p other : PredictorSensorInfo W)
          → p ≡ other
          → (length values == p.num_out_samples) ≡ false
          → length values ≡ other.num_out_samples
          → ⊥
      not_equal p other same different equal = ground (arith, same, different, equal)
