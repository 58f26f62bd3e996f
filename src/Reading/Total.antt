-- ===== src/Reading/Total.antt =====
-- A temperature of any configured sensor is read within the fuel that the number of sensors gives.
use hardware_mediatek.Base.{
  ℕ, zero, suc, ◌<◌, ◌≡◌, refl, Bool, true, false, none, some, List, [], ◌∷◌, String, lookup,
  contains, contains-lookup, arith, Bool-cases, All, inl, inr, if◌then◌else◌, if_both,
}
use hardware_mediatek.Floats.{Float}
use hardware_mediatek.ThermalInfo.{
  ThrottlingSeverity, SensorInfo, okay, error, is_okay, is_answered,
}
use hardware_mediatek.Stats.State.{temp_read_fail}
use hardware_mediatek.Stats.Abnormality.{report_thermal_abnormality}
use hardware_mediatek.Stats.Limited.{report-Checked}
use hardware_mediatek.Stats.Sound.{Checked-IsSound}
use hardware_mediatek.Reading.State.{Inputs, Store, reading_depth}
use hardware_mediatek.Reading.Temperatures.{
  TemperatureRead, refer, get_severity_reference, settle_if, conclude, report_failure,
  read_temperature,
}
use hardware_mediatek.Reading.Readings.{read_thermal_sensor-Gives}
use hardware_mediatek.Reading.Judged.{
  IsReady, IsReferring, Keeps-IsReady, refer-Gives, settle-Gives,
}
use hardware_mediatek.Reading.Safe.{
  IsSafe, Keeps, Keeps-refl, Keeps-trans, Gives, IsWell, HasValue, not_okay, is_okay_eq,
}

module _ {ℓ} {W E : Type ℓ} ⦃f : Float W⦄ (ins : Inputs W E) (rank states_of : String → ℕ) where
  -- The sensors that a sensor refers to can be read.
  abbrev CanRefer : (String → Store W E → TemperatureRead W E) → SensorInfo W → Type ℓ
  CanRefer rec info =
      All (λ r. (s : Store W E) → IsReady ins states_of s → Gives HasValue states_of s (rec r s))
        info.severity_reference

  settle_if-Gives :
      (watched : Bool) (name : String) (info : SensorInfo W) (reference : ThrottlingSeverity)
      (value : W) (s : Store W E)
      → contains name ins.sensor_info_map ≡ true
      → IsReady ins states_of s
      → Gives HasValue states_of s (settle_if ins watched name info reference value s)
  unfolding settle_if
  settle_if-Gives true name info reference value s known ready =
      settle-Gives ins states_of name info reference value s known ready
  settle_if-Gives false name info reference value s known ready =
      (okay, _, s, refl, Keeps-refl states_of s ready.safe, λ _. (_, refl))

  reference_eq :
      (rec : String → Store W E → TemperatureRead W E) (name : String) (info : SensorInfo W)
      (s : Store W E)
      → lookup name ins.sensor_info_map ≡ some info
      → get_severity_reference ins rec name s
        ≡ refer rec info.severity_reference ThrottlingSeverity.none s
  unfolding get_severity_reference
  reference_eq rec name info s known = rw (known, get_severity_reference) refl

  conclude-Gives :
      (rec : String → Store W E → TemperatureRead W E) (name : String) (info : SensorInfo W)
      (temp : W) (s : Store W E)
      → lookup name ins.sensor_info_map ≡ some info
      → CanRefer rec info
      → IsReady ins states_of s
      → Gives HasValue states_of s (conclude ins rec name temp s)
  unfolding conclude
  conclude-Gives rec name info temp s known reads ready =
      let (reference, s1, run, keeps) =
        refer-Gives ins states_of rec info.severity_reference ThrottlingSeverity.none s reads
          ready in
      let refers = reference_eq rec name info s known in
      let ready1 = Keeps-IsReady ins states_of s s1 ready keeps in
      let (status, out, s2, runs, keep, has) =
        settle_if-Gives info.is_watch name info reference (f.mul temp info.multiplier) s1
          (rw (known, contains) refl) ready1 in
      (status, out, s2, rw (refers, run, known) runs, Keeps-trans states_of s s1 s2 keeps keep, has)

  can_refer :
      (rec : String → Store W E → TemperatureRead W E) (refs : String → ℕ) (name : String)
      (names : List String)
      → All (λ r. (refs r < refs name) × (contains r ins.sensor_info_map ≡ true)) names
      → ((r : String) (s : Store W E)
          → refs r < refs name
          → contains r ins.sensor_info_map ≡ true
          → IsReady ins states_of s
          → Gives HasValue states_of s (rec r s))
      → All
          (λ r. (s : Store W E) → IsReady ins states_of s → Gives HasValue states_of s (rec r s))
          names
  can_refer rec refs name [] lower reads = tt
  can_refer rec refs name (r ∷ names) lower reads =
      (λ s ready. reads r s lower.0.0 lower.0.1 ready, can_refer rec refs name names lower.1 reads)

  failure-Keeps :
      (name : String) (s : Store W E)
      → IsSafe states_of s
      → Keeps states_of s (report_failure ins name s)
  failure-Keeps name s safe =
      let checked = report-Checked ins.client temp_read_fail name none s.stats in
      record {
        safe = record {
          stats =
              Checked-IsSound states_of s.stats
                (report_thermal_abnormality ins.client temp_read_fail name none s.stats).1 checked
                safe.stats;
          limited = checked.limited safe.limited;
          predictions = safe.predictions;
        };
        overrides = λ _ status h. (status, h, refl);
      }

  -- Where no sensor reads or refers to itself, the temperature of any configured sensor is read and
  -- judged: the call ends and keeps the store ready, also if the sensor cannot be read or its data are
  -- still being collected, and gives a temperature if it succeeds. It changes no override of a sensor.
  pub read_temperature-Gives :
      (fuel : ℕ) (refs : String → ℕ) (force_no_cache : Bool) (name : String) (s : Store W E)
      → IsWell ins rank
      → IsReferring ins refs
      → contains name ins.sensor_info_map ≡ true
      → refs name < fuel
      → IsReady ins states_of s
      → Gives HasValue states_of s (read_temperature ins fuel force_no_cache name s)
  unfolding read_temperature
  read_temperature-Gives zero refs force_no_cache name s well refer known enough ready =
      absurd (omega arith)
  read_temperature-Gives (suc fuel) refs force_no_cache name s well refers known enough ready =
      let (info, found) = contains-lookup name ins.sensor_info_map known in
      let (status, has, _) = ready.has_status name known in
      let start = record s { sensor_log_map = [] } in
      let (read, out, s1, run, keeps, value) =
        read_thermal_sensor-Gives ins rank states_of (reading_depth ins.sensor_info_map)
          force_no_cache name start well (omega (arith, well.bounded name))
          (record {
            stats = ready.safe.stats;
            limited = ready.safe.limited;
            predictions = ready.safe.predictions;
          }) in
      let keeps' : Keeps states_of s s1 = record {
        safe = keeps.safe;
        overrides = keeps.overrides;
      } in
      let ready1 = Keeps-IsReady ins states_of s s1 ready keeps' in
      elim (Bool-cases (is_okay read)) [
        | inr stop ↦
            let s2 = if is_answered read then s1 else report_failure ins name s1 in
            (
              read,
              none,
              s2,
              rw has (rw run (rw stop refl)),
              if_both (Keeps states_of s) (is_answered read) s1 (report_failure ins name s1) keeps'
                  (Keeps-trans states_of s s1 (report_failure ins name s1) keeps'
                    (failure-Keeps name s1 keeps.safe)),
              λ fine. absurd (not_okay read fine stop),
            )
        | inl go ↦
            let (temp, written) = value (is_okay_eq read go) in
            elim (Bool-cases (f.isnan temp)) [
              | inl nan ↦ (
                error,
                none,
                s1,
                rw has (rw run (rw go (rw written (rw nan refl)))),
                keeps',
                λ fine. absurd (cc),
              )
              | inr number ↦
                  let rec = read_temperature ins fuel false in
                  let reads =
                    can_refer (read_temperature ins fuel false) refs name info.severity_reference
                      (refers name info found)
                      (λ r s' lower there ready'.
                        read_temperature-Gives fuel refs false r s' well refers there (omega arith)
                          ready') in
                  let (st, out', s2, runs, keep, has') =
                    conclude-Gives rec name info temp s1 found reads ready1 in
                  (
                    st,
                    out',
                    s2,
                    rw has (rw run (rw go (rw written (rw number runs)))),
                    Keeps-trans states_of s s1 s2 keeps' keep,
                    has',
                  )
            ]
      ]
