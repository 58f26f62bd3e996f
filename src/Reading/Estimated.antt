-- ===== src/Reading/Estimated.antt =====
-- The estimator of a virtual sensor gives an answer, from its backup sensor where it falls back to it.
use hardware_mediatek.Base.{
  ℕ, ◌<◌, ◌≡◌, refl, Bool, true, false, List, [], ◌∷◌, String, Bool-cases, Option-cases, inl, inr,
  str_eq,
}
use hardware_mediatek.Floats.{Float}
use hardware_mediatek.ThermalInfo.{SensorInfo, VirtualSensorInfo, sensor}
use hardware_mediatek.Predictions.Sound.{update_sensor-IsSound}
use hardware_mediatek.Reading.State.{Inputs, Store, VtEstimatorStatus}
use hardware_mediatek.Reading.Sensors.{
  Read, or_else, read_backup, use_estimate, run_virtual_temp_estimator, is_ok, is_fallback,
  updates_predictions, model_inputs,
}
use hardware_mediatek.Reading.Parts.{data-Gives}
use hardware_mediatek.Reading.Safe.{IsSafe, Keeps-refl, Gives, IsWell, HasValue}

module _ {ℓ} {W E : Type ℓ} ⦃f : Float W⦄ (ins : Inputs W E) (rank states_of : String → ℕ) (n : ℕ)
    (rec : String → Store W E → Read W E)
    (lower : (name : String) (s : Store W E)
      → rank name < n
      → IsSafe states_of s
      → Gives HasValue states_of s (rec name s)) where
  -- An answer that is a success has an output.
  abbrev HasOutput : Bool → List W → Type ℓ
  HasOutput done outputs = done ≡ true → (w : W) × (ws : List W) × (outputs ≡ w ∷ ws)

  backup-Gives :
      (v : VirtualSensorInfo W) (s : Store W E)
      → (str_eq v.backup_sensor "" ≡ false → rank v.backup_sensor < n)
      → IsSafe states_of s
      → Gives HasOutput states_of s (read_backup ins rec v s)
  unfolding read_backup
  backup-Gives v s below safe = elim (Bool-cases (str_eq v.backup_sensor "")) [
    | inl without ↦
        (false, [], s, rw without refl, Keeps-refl states_of s safe, λ done. absurd (cc))
    | inr backed ↦
        let (done, out, s', run, keeps, _) =
          data-Gives ins rank states_of n rec lower v.backup_sensor sensor s (below backed) safe in
        let value = or_else ins.uninitialized out in
        elim (Bool-cases done) [
          | inl fine ↦ (
            true,
            value ∷ [],
            s',
            rw backed (rw run (rw fine refl)),
            keeps,
            λ _. (value, [], refl),
          )
          | inr failed ↦
              (false, [], s', rw backed (rw run (rw failed refl)), keeps, λ done. absurd (cc))
        ]
  ]

  estimate-Gives :
      (name : String) (info : SensorInfo W) (v : VirtualSensorInfo W) (status : VtEstimatorStatus)
      (outputs : List W) (s : Store W E)
      → (str_eq v.backup_sensor "" ≡ false → rank v.backup_sensor < n)
      → (is_ok status ≡ true → (w : W) × (ws : List W) × (outputs ≡ w ∷ ws))
      → IsSafe states_of s
      → Gives HasOutput states_of s (use_estimate ins rec name info v status outputs s)
  unfolding use_estimate
  estimate-Gives name info v status outputs s below has safe = elim (Bool-cases (is_ok status)) [
    | inl fine ↦ elim (Bool-cases (updates_predictions info)) [
      | inr plain ↦
          (true, outputs, s, rw fine (rw plain refl), Keeps-refl states_of s safe, λ _. has fine)
      | inl updates ↦
          let (_, predictions, run, sound, _, _, _) =
            update_sensor-IsSound name outputs (ins.clock name) s.predictions safe.predictions in
          (
            true,
            outputs,
            record s { predictions = predictions },
            rw fine (rw updates (rw run refl)),
            record {
              safe = record { stats = safe.stats; limited = safe.limited; predictions = sound };
              overrides = λ _ status h. (status, h, refl);
            },
            λ _. has fine,
          )
    ]
    | inr other ↦ elim (Bool-cases (is_fallback status)) [
      | inr failed ↦ (
        false,
        [],
        s,
        rw other (rw failed refl),
        Keeps-refl states_of s safe,
        λ done. absurd (cc),
      )
      | inl backup ↦
          let (done, outs, s', run, keeps, out) = backup-Gives v s below safe in
          (done, outs, s', rw other (rw backup run), keeps, out)
    ]
  ]

  pub run-Gives :
      (name : String) (info : SensorInfo W) (v : VirtualSensorInfo W) (s : Store W E)
      → IsWell ins rank
      → (str_eq v.backup_sensor "" ≡ false → rank v.backup_sensor < n)
      → IsSafe states_of s
      → Gives HasOutput states_of s (run_virtual_temp_estimator ins rec name info v s)
  unfolding run_virtual_temp_estimator
  run-Gives name info v s well below safe = elim (Bool-cases (ins.has_estimator name)) [
    | inr without ↦
        (false, [], s, rw without refl, Keeps-refl states_of s safe, λ done. absurd (cc))
    | inl there ↦ elim (Option-cases (model_inputs s.sensor_log_map v.linked_sensors)) [
      | inl missing ↦ (
        false,
        [],
        s,
        rw there (rw (missing, run_virtual_temp_estimator) refl),
        Keeps-refl states_of s safe,
        λ done. absurd (cc),
      )
      | inr (inputs, found) ↦
          let out = ins.estimate name inputs s.estimators in
          let s1 = record s { estimators = out.2 } in
          let safe1 : IsSafe states_of s1 = record {
            stats = safe.stats;
            limited = safe.limited;
            predictions = safe.predictions;
          } in
          let (done, outs, s', run, keeps, has) =
            estimate-Gives name info v out.0 out.1 s1 below
              (well.estimates name inputs s.estimators) safe1 in
          (
            done,
            outs,
            s',
            rw there (rw (found, run_virtual_temp_estimator) run),
            record { safe = keeps.safe; overrides = keeps.overrides },
            has,
          )
    ]
  ]
