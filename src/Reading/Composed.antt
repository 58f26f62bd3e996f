-- ===== src/Reading/Composed.antt =====
-- A composed sensor can be read where the sensors of lower rank can.
use hardware_mediatek.Base.{
  ℕ, ◌≤◌, ◌<◌, ◌≡◌, refl, true, false, Option, none, some, List, String, lookup, length, arith,
  Bool-cases, Option-cases, inl, inr, str_eq, if◌then◌else◌,
}
use hardware_mediatek.Floats.{Float, zero_f}
use hardware_mediatek.ThermalInfo.{
  SensorInfo, VirtualSensorInfo, FormulaOption, okay, under_collecting, error, count_threshold,
  weighted_avg, maximum, minimum, use_ml_model, use_linear_model, previously_predicted, is_okay,
}
use hardware_mediatek.Predictions.{ThermalPredictions, read_sensor}
use hardware_mediatek.Predictions.Read.{read_sensor_lem}
use hardware_mediatek.Reading.State.{Inputs, Store}
use hardware_mediatek.Reading.Sensors.{
  Read, read_model, read_prediction, read_weighted, read_formula, read_virtual, read_parts,
  read_composed, by_formula, is_weighted,
}
use hardware_mediatek.Reading.Parts.{linked-Gives, weigh-Gives}
use hardware_mediatek.Reading.Safe.{
  IsSafe, Keeps-refl, Keeps-trans, Gives, AllReadable, IsComposed, IsWell, HasValue, not_okay,
}
use hardware_mediatek.Reading.Estimated.{run-Gives}

read_sensor_unknown {ℓ} :
    {W : Type ℓ} (name : String) (now : ℕ) (t : ThermalPredictions W)
    → lookup name t.predicted_sensors ≡ none
    → read_sensor name now t ≡ some (error, none)
unfolding read_sensor
read_sensor_unknown name now t unknown = rw (unknown, read_sensor) refl

module _ {ℓ} {W E : Type ℓ} ⦃f : Float W⦄ (ins : Inputs W E) (rank states_of : String → ℕ) (n : ℕ)
    (rec : String → Store W E → Read W E)
    (lower : (name : String) (s : Store W E)
      → rank name < n
      → IsSafe states_of s
      → Gives HasValue states_of s (rec name s)) where
  model-Gives :
      (name : String) (info : SensorInfo W) (v : VirtualSensorInfo W) (s : Store W E)
      → IsWell ins rank
      → (str_eq v.backup_sensor "" ≡ false → rank v.backup_sensor < n)
      → IsSafe states_of s
      → Gives HasValue states_of s (read_model ins rec name info v s)
  unfolding read_model
  model-Gives name info v s well below safe =
      let (done, outs, s', run, keeps, has) =
        run-Gives ins rank states_of n rec lower name info v s well below safe in
      elim (Bool-cases done) [
        | inr failed ↦ (error, none, s', rw run (rw failed refl), keeps, λ fine. absurd (cc))
        | inl fine ↦
            let (w, ws, same) = has fine in
            (okay, some w, s', rw run (rw fine (rw same refl)), keeps, λ _. (w, refl))
      ]

  prediction-Gives :
      (name : String) (s : Store W E)
      → IsSafe states_of s
      → Gives HasValue states_of s (read_prediction ins rec name s)
  unfolding read_prediction
  prediction-Gives name s safe = elim (Option-cases (lookup name s.predictions.predicted_sensors)) [
    | inl unknown ↦ (
      error,
      none,
      s,
      rw (read_sensor_unknown name (ins.clock name) s.predictions unknown) refl,
      Keeps-refl states_of s safe,
      λ fine. absurd (cc),
    )
    | inr (q, found) ↦
        elim ((read_sensor_lem name (ins.clock name) s.predictions q safe.predictions found).2) [
          | inl (i, x, value, at, timely, here, run) ↦
              (okay, some value, s, rw run refl, Keeps-refl states_of s safe, λ _. (value, refl))
          | inr (run, others) ↦ (
            under_collecting,
            none,
            s,
            rw run refl,
            Keeps-refl states_of s safe,
            λ fine. absurd (cc),
          )
        ]
  ]

  weighted-Gives :
      (v : VirtualSensorInfo W) (readings : List W) (s : Store W E)
      → AllReadable ins rank n v.coefficients v.coefficients_type
      → length readings ≤ length v.coefficients
      → IsSafe states_of s
      → Gives HasValue states_of s (read_weighted ins rec v readings s)
  unfolding read_weighted
  weighted-Gives v readings s can enough safe =
      let (status, val, s', run, keeps, _) =
        weigh-Gives ins rank states_of n rec lower v.formula true readings v.coefficients
          v.coefficients_type zero_f s can enough safe in
      (
        status,
        if is_okay status then some (f.add val v.offset) else none,
        s',
        rw run refl,
        keeps,
        λ fine. (f.add val v.offset, rw fine refl),
      )

  by_formula-Gives :
      (formula : FormulaOption) (s : Store W E) (prediction model weighted : Read W E)
      → Gives HasValue states_of s prediction
      → Gives HasValue states_of s model
      → (is_weighted formula ≡ true → Gives HasValue states_of s weighted)
      → Gives HasValue states_of s (by_formula formula prediction model weighted)
  by_formula-Gives previously_predicted s prediction model weighted p m w = p
  by_formula-Gives use_ml_model s prediction model weighted p m w = m
  by_formula-Gives use_linear_model s prediction model weighted p m w = m
  by_formula-Gives count_threshold s prediction model weighted p m w = w refl
  by_formula-Gives weighted_avg s prediction model weighted p m w = w refl
  by_formula-Gives maximum s prediction model weighted p m w = w refl
  by_formula-Gives minimum s prediction model weighted p m w = w refl

  virtual-Gives :
      (name : String) (info : SensorInfo W) (v : VirtualSensorInfo W) (s : Store W E)
      → IsWell ins rank
      → IsComposed ins rank n v
      → IsSafe states_of s
      → Gives HasValue states_of s (read_virtual ins rec name info v s)
  unfolding read_virtual read_formula
  virtual-Gives name info v s well composed safe =
      let (status, readings, s1, run, keeps, full) =
        linked-Gives ins rank states_of n rec lower v.linked_sensors v.linked_sensors_type s
          composed.linked safe in
      elim (Bool-cases (is_okay status)) [
        | inr stop ↦ (
          status,
          none,
          s1,
          rw run (rw stop refl),
          keeps,
          λ fine. absurd (not_okay status fine stop),
        )
        | inl go ↦
            let (status', out, s2, runs, keep, has) =
              by_formula-Gives v.formula s1 (read_prediction ins rec name s1)
                (read_model ins rec name info v s1) (read_weighted ins rec v readings s1)
                (prediction-Gives name s1 keeps.safe)
                (model-Gives name info v s1 well composed.backup keeps.safe)
                (λ is.
                  weighted-Gives v readings s1 (composed.weights is)
                    (omega (arith, full go, composed.enough is)) keeps.safe) in
            (status', out, s2, rw run (rw go runs), Keeps-trans states_of s s1 s2 keeps keep, has)
      ]

  parts-Gives :
      (name : String) (info : SensorInfo W) (parts : Option (VirtualSensorInfo W)) (s : Store W E)
      → IsWell ins rank
      → ((v : VirtualSensorInfo W) → parts ≡ some v → IsComposed ins rank n v)
      → IsSafe states_of s
      → Gives HasValue states_of s (read_parts ins rec name info parts s)
  unfolding read_parts
  parts-Gives name info (some v) s well composed safe =
      virtual-Gives name info v s well (composed v refl) safe
  parts-Gives name info none s well composed safe = elim (Option-cases (ins.read_file name)) [
    | inl failed ↦ (
      error,
      none,
      s,
      rw (failed, read_parts) refl,
      Keeps-refl states_of s safe,
      λ fine. absurd (cc),
    )
    | inr (temp, there) ↦ (
      okay,
      some temp,
      s,
      rw (there, read_parts) refl,
      Keeps-refl states_of s safe,
      λ _. (temp, refl),
    )
  ]

  pub composed-Gives :
      (name : String) (info : SensorInfo W) (s : Store W E)
      → IsWell ins rank
      → ((v : VirtualSensorInfo W) → info.virtual_sensor_info ≡ some v → IsComposed ins rank n v)
      → IsSafe states_of s
      → Gives HasValue states_of s (read_composed ins rec name info s)
  unfolding read_composed
  composed-Gives name info s = parts-Gives name info info.virtual_sensor_info s
