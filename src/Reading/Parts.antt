-- ===== src/Reading/Parts.antt =====
-- The parts of a reading go through where the recursive calls do.
use hardware_mediatek.Base.{
  ℕ, suc, ◌≤◌, ◌<◌, ◌≡◌, refl, Bool, true, false, not, none, some, List, [], ◌∷◌, String,
  contains-lookup, length, arith, Bool-cases, Option-cases, inl, inr, if◌then◌else◌, if_both, ap,
}
use hardware_mediatek.Floats.{Float}
use hardware_mediatek.ThermalInfo.{
  SensorFusionType, SensorReadStatus, FormulaOption, sensor, odpm, constant, cdev, okay,
  under_collecting, error, is_okay, is_answered,
}
use hardware_mediatek.PowerRails.Average.{combine}
use hardware_mediatek.Throttling.Votes.{get_cdev_max_request}
use hardware_mediatek.Reading.State.{Inputs, Store}
use hardware_mediatek.Reading.Sensors.{
  Read, log, or_else, read_data_by_type, read_value, read_linked, weigh,
}
use hardware_mediatek.Reading.Safe.{
  IsSafe, Keeps, Keeps-refl, Keeps-trans, Gives, IsReadable, AllReadable, HasValue,
}

module _ {ℓ} {W E : Type ℓ} ⦃f : Float W⦄ (ins : Inputs W E) (rank states_of : String → ℕ) (n : ℕ)
    (rec : String → Store W E → Read W E)
    (lower : (name : String) (s : Store W E)
      → rank name < n
      → IsSafe states_of s
      → Gives HasValue states_of s (rec name s)) where
  log-Keeps :
      (name : String) (value : W) (s : Store W E)
      → IsSafe states_of s
      → Keeps states_of s (log name value s)
  log-Keeps name value s safe = record {
    safe = record { stats = safe.stats; limited = safe.limited; predictions = safe.predictions };
    overrides = λ _ status h. (status, h, refl);
  }

  abbrev pub Anything {α β} : {A : Type α} {B : Type β} → A → B → Type 0
  Anything _ _ = Unit

  pub data-Gives :
      (name : String) (type : SensorFusionType) (s : Store W E)
      → IsReadable ins rank n name type
      → IsSafe states_of s
      → Gives Anything states_of s (read_data_by_type ins rec name type s)
  unfolding read_data_by_type
  data-Gives name sensor s can safe =
      let (status, out, s', run, keeps, _) = lower name s can safe in
      (is_answered status, out, s', rw run refl, keeps, tt)
  data-Gives name odpm s can safe =
      let (status, found) = contains-lookup name ins.power_status_map can in
      let value = status.last_updated_avg_power in
      (
        true,
        some value,
        if f.isnan value then s else log name value s,
        rw found refl,
        if_both (Keeps states_of s) (f.isnan value) s (log name value s)
            (Keeps-refl states_of s safe) (log-Keeps name value s safe),
        tt,
      )
  data-Gives name constant s can safe =
      (true, some (ins.atof name), s, refl, Keeps-refl states_of s safe, tt)
  data-Gives name cdev s can safe =
      elim (Option-cases (get_cdev_max_request name ins.cdev_all_request_map)) [
        | inl absent ↦
            (false, none, s, rw (absent, read_data_by_type) refl, Keeps-refl states_of s safe, tt)
        | inr (max_state, found) ↦ (
          true,
          some (f.of_int max_state),
          s,
          rw (found, read_data_by_type) refl,
          Keeps-refl states_of s safe,
          tt,
        )
      ]

  value-Gives :
      (name : String) (type : SensorFusionType) (s : Store W E)
      → IsReadable ins rank n name type
      → IsSafe states_of s
      → Gives Anything states_of s (read_value ins rec name type s)
  unfolding read_value
  value-Gives name type s can safe =
      let (done, out, s', run, keeps, _) = data-Gives name type s can safe in
      let value = or_else f.nan out in
      (
        if not done then error else if f.isnan value then under_collecting else okay,
        value,
        s',
        rw run refl,
        keeps,
        tt,
      )

  -- As many readings as sensors, where all of them succeed.
  abbrev pub Full : List String → SensorReadStatus → List W → Type 0
  Full names status values = is_okay status ≡ true → length values ≡ length names

  pub linked-Gives :
      (names : List String) (types : List SensorFusionType) (s : Store W E)
      → AllReadable ins rank n names types
      → IsSafe states_of s
      → Gives (Full names) states_of s (read_linked ins rec names types s)
  unfolding read_linked
  linked-Gives [] types s can safe = (okay, [], s, refl, Keeps-refl states_of s safe, λ _. refl)
  linked-Gives (name ∷ names) [] s can safe = absurd can
  linked-Gives (name ∷ names) (type ∷ types) s can safe =
      let (status, value, s1, run, keeps, _) = value-Gives name type s can.0 safe in
      elim (Bool-cases (is_okay status)) [
        | inr stop ↦ (status, [], s1, rw run (rw stop refl), keeps, λ go. absurd (cc))
        | inl go ↦
            let (status', values, s2, runs, keep, full) =
              linked-Gives names types s1 can.1 keeps.safe in
            (
              status',
              value ∷ values,
              s2,
              rw run (rw go (rw runs refl)),
              Keeps-trans states_of s s1 s2 keeps keep,
              λ done. ap suc (full done),
            )
      ]

  pub weigh-Gives :
      (formula : FormulaOption) (first : Bool) (readings : List W) (names : List String)
      (types : List SensorFusionType) (temp_val : W) (s : Store W E)
      → AllReadable ins rank n names types
      → length readings ≤ length names
      → IsSafe states_of s
      → Gives Anything states_of s (weigh ins rec formula first readings names types temp_val s)
  unfolding weigh
  weigh-Gives formula first [] names types temp_val s can enough safe =
      (okay, temp_val, s, refl, Keeps-refl states_of s safe, tt)
  weigh-Gives formula first (r ∷ rs) [] types temp_val s can enough safe = absurd (omega arith)
  weigh-Gives formula first (r ∷ rs) (name ∷ names) [] temp_val s can enough safe = absurd can
  weigh-Gives formula first (r ∷ rs) (name ∷ names) (type ∷ types) temp_val s can enough safe =
      let (status, coefficient, s1, run, keeps, _) = value-Gives name type s can.0 safe in
      elim (Bool-cases (is_okay status)) [
        | inr stop ↦ (status, temp_val, s1, rw run (rw stop refl), keeps, tt)
        | inl go ↦
            let (status', val, s2, runs, keep, _) =
              weigh-Gives formula false rs names types
                (combine formula first coefficient r temp_val) s1 can.1 (omega arith) keeps.safe in
            (status', val, s2, rw run (rw go runs), Keeps-trans states_of s s1 s2 keeps keep, tt)
      ]
