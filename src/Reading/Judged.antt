-- ===== src/Reading/Judged.antt =====
-- A temperature of any sensor with a status is read and judged within the fuel that the number of sensors
-- gives.
use hardware_mediatek.Base.{
  ℕ, ◌<◌, ◌≡◌, refl, true, some, List, [], ◌∷◌, String, lookup, insert, contains, arith, Bool-cases,
  All, inl, inr, if◌then◌else◌, ap, ◌∙◌,
}
use hardware_mediatek.Floats.{Float}
use hardware_mediatek.ThermalInfo.{
  ThrottlingSeverity, SensorInfo, Temperature, okay, is_okay, sev_lt, max_sev,
}
use hardware_mediatek.Severity.{get_severity_from_thresholds}
use hardware_mediatek.Emulation.{SensorStatus, OverrideStatus}
use hardware_mediatek.Stats.Sound.{update_sensor_temp_stats_by_severity-IsSound}
use hardware_mediatek.Reading.State.{Inputs, Store}
use hardware_mediatek.Reading.Temperatures.{
  TemperatureRead, emulated_severity, set_severity, judge, refer, settle,
}
use hardware_mediatek.Reading.Safe.{
  IsSafe, Keeps, Keeps-refl, Keeps-trans, Gives, HasValue, SameOverrides-insert, is_okay_eq,
}

-- An emulated severity is one of the enumeration.
abbrev pub Emulates {ℓ} : {W : Type ℓ} → SensorStatus W → Type 0
Emulates status =
    (severity : ThrottlingSeverity)
    → (out : ThrottlingSeverity) × (emulated_severity status.override_status.emul_temp severity
        ≡ some out)

module _ {ℓ} {W E : Type ℓ} (ins : Inputs W E) where
  -- A safe store with a status for each configured sensor, where an emulated severity is one of the
  -- enumeration.
  pub record IsReady (states_of : String → ℕ) (s : Store W E) : Type ℓ where
    pub safe : IsSafe states_of s
    pub has_status :
        (name : String)
        → contains name ins.sensor_info_map ≡ true
        → (status : SensorStatus W) × (lookup name s.statuses ≡ some status) × Emulates status

  -- The sensors that a sensor refers to are configured, and none refers to itself.
  abbrev pub IsReferring : (String → ℕ) → Type ℓ
  IsReferring rank =
      (name : String) (info : SensorInfo W)
      → lookup name ins.sensor_info_map ≡ some info
      → All (λ r. (rank r < rank name) × (contains r ins.sensor_info_map ≡ true))
          info.severity_reference

  pub Keeps-IsReady :
      (states_of : String → ℕ) (s s' : Store W E)
      → IsReady states_of s
      → Keeps states_of s s'
      → IsReady states_of s'
  Keeps-IsReady states_of s s' ready keeps = record {
    safe = keeps.safe;
    has_status = λ name known.
        let (status, found, emulates) = ready.has_status name known in
        let (status', found', same) = keeps.overrides name status found in
        (
          status',
          found',
          λ severity.
              let (out, is) = emulates severity in
              (
                out,
                ap (λ (o : OverrideStatus W). emulated_severity o.emul_temp severity) same ∙ is,
              ),
        );
  }

  -- The loop over the references.
  pub refer-Gives :
      (states_of : String → ℕ) (rec : String → Store W E → TemperatureRead W E)
      (names : List String) (target : ThrottlingSeverity) (s : Store W E)
      → All
          (λ r. (s' : Store W E) → IsReady states_of s' → Gives HasValue states_of s' (rec r s'))
          names
      → IsReady states_of s
      → (severity : ThrottlingSeverity) × (s' : Store W E) × (refer rec names target s
          ≡ some (severity, s'))
        × Keeps states_of s s'
  unfolding refer
  refer-Gives states_of rec [] target s reads ready =
      (target, s, refl, Keeps-refl states_of s ready.safe)
  refer-Gives states_of rec (name ∷ names) target s reads ready =
      let (status, out, s1, run, keeps, has) = reads.0 s ready in
      elim (Bool-cases (is_okay status)) [
        | inr stop ↦ (ThrottlingSeverity.none, s1, rw run (rw stop refl), keeps)
        | inl go ↦
            let (temp, read) = has (is_okay_eq status go) in
            let (severity, s2, runs, keep) =
              refer-Gives states_of rec names (max_sev target temp.throttling_status) s1 reads.1
                (Keeps-IsReady states_of s s1 ready keeps) in
            (severity, s2, rw run (rw go (rw read runs)), Keeps-trans states_of s s1 s2 keeps keep)
      ]

module _ {ℓ} {W E : Type ℓ} ⦃f : Float W⦄ (ins : Inputs W E) (states_of : String → ℕ) where
  judge-Gives :
      (info : SensorInfo W) (reference : ThrottlingSeverity) (value : W) (status : SensorStatus W)
      → Emulates status
      → (severity : ThrottlingSeverity) × (status' : SensorStatus W) × (judge info reference value
            status
          ≡ some (severity, status'))
        × (status'.override_status ≡ status.override_status)
  unfolding judge
  judge-Gives info reference value status emulates =
      let levels =
        get_severity_from_thresholds info.hot_thresholds info.cold_thresholds info.hot_hysteresis
          info.cold_hysteresis status.prev_hot_severity status.prev_cold_severity value in
      let judged = if sev_lt levels.1 levels.0 then levels.0 else levels.1 in
      let (severity, is) = emulates (max_sev judged reference) in
      (severity, set_severity levels.0 levels.1 severity status, rw is refl, refl)

  pub settle-Gives :
      (name : String) (info : SensorInfo W) (reference : ThrottlingSeverity) (value : W)
      (s : Store W E)
      → contains name ins.sensor_info_map ≡ true
      → IsReady ins states_of s
      → Gives HasValue states_of s (settle ins name info reference value s)
  unfolding settle
  settle-Gives name info reference value s known ready =
      let (status, found, emulates) = ready.has_status name known in
      let (severity, status', judged, same) = judge-Gives info reference value status emulates in
      let (stats, run, sound, count) =
        update_sensor_temp_stats_by_severity-IsSound (ins.clock name) name severity states_of
          s.stats ready.safe.stats in
      let out : Temperature W = record {
        name = name;
        value = value;
        throttling_status = severity;
      } in
      (
        okay,
        some out,
        record s { statuses = insert name status' s.statuses; stats = stats },
        rw found (rw judged (rw run refl)),
        record {
          safe = record {
            stats = sound;
            limited = omega (arith, ready.safe.limited);
            predictions = ready.safe.predictions;
          };
          overrides = SameOverrides-insert name status status' s.statuses found same;
        },
        λ _. (out, refl),
      )
