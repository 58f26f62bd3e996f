-- ===== src/Reading/Readings.antt =====
-- A reading of any sensor ends, within the fuel that the number of sensors gives.
use hardware_mediatek.Base.{
  ℕ, zero, suc, ◌*◌, ◌<◌, ◌≡◌, refl, Bool, Option, none, some, String, lookup, insert, arith,
  Bool-cases, Option-cases, inl, inr,
}
use hardware_mediatek.Floats.{Float}
use hardware_mediatek.ThermalInfo.{SensorInfo, okay, error, is_okay}
use hardware_mediatek.Emulation.{SensorStatus, EmulTemp}
use hardware_mediatek.Stats.Sound.{update_sensor_temp_stats_by_threshold-IsSound}
use hardware_mediatek.Reading.State.{Inputs, Store, is_since_below, tran_timeout_param}
use hardware_mediatek.Reading.Sensors.{Read, log}
use hardware_mediatek.Reading.Cached.{
  smooth, keep_reading, read_now, is_cached, read_as, read_known, read_thermal_sensor,
}
use hardware_mediatek.Reading.Composed.{composed-Gives}
use hardware_mediatek.Reading.Safe.{
  IsSafe, Keeps, Keeps-refl, Keeps-trans, Gives, IsWell, HasValue, SameOverrides-insert, not_okay,
  is_okay_eq,
}

module _ {ℓ} {W E : Type ℓ} ⦃f : Float W⦄ (ins : Inputs W E) (rank states_of : String → ℕ) where
  keep-Gives :
      (name : String) (info : SensorInfo W) (before status : SensorStatus W) (temp : W)
      (s : Store W E)
      → lookup name s.statuses ≡ some status
      → IsSafe states_of s
      → (temp' : W) × (s' : Store W E) × (keep_reading ins name info before temp s
          ≡ some (temp', s'))
        × Keeps states_of s s'
  unfolding keep_reading
  keep-Gives name info before status temp s found safe =
      let now = ins.clock name in
      let since =
        is_since_below now before.thermal_cached.timestamp
          (info.passive_delay * tran_timeout_param) in
      let temp' = smooth ins info since status.thermal_cached.temp temp in
      let status' : SensorStatus W = record status {
        thermal_cached = record { temp = temp'; timestamp = some now };
      } in
      let (stats, run, sound, limited) =
        update_sensor_temp_stats_by_threshold-IsSound ins.client now ins.wall name
          (f.mul temp' info.multiplier) states_of s.stats safe.stats safe.limited in
      (
        temp',
        log name temp' (record s { statuses = insert name status' s.statuses; stats = stats }),
        rw found (rw run refl),
        record {
          safe = record { stats = sound; limited = limited; predictions = safe.predictions };
          overrides = SameOverrides-insert name status status' s.statuses found refl;
        },
      )

  -- One reading, where those of lower rank go through.
  now-Gives :
      (rec : String → Store W E → Read W E) (name : String) (info : SensorInfo W)
      (before : SensorStatus W) (s : Store W E)
      → ((name' : String) (s' : Store W E)
          → rank name' < rank name
          → IsSafe states_of s'
          → Gives HasValue states_of s' (rec name' s'))
      → IsWell ins rank
      → lookup name ins.sensor_info_map ≡ some info
      → lookup name s.statuses ≡ some before
      → IsSafe states_of s
      → Gives HasValue states_of s (read_now ins rec name info before s)
  unfolding read_now
  now-Gives rec name info before s lower well known there safe =
      let (status, out, s1, run, keeps, has) =
        composed-Gives ins rank states_of (rank name) rec lower name info s well
          (λ v is. well.composed name info v known is) safe in
      elim (Bool-cases (is_okay status)) [
        | inr stop ↦ (
          status,
          none,
          s1,
          rw run (rw stop refl),
          keeps,
          λ fine. absurd (not_okay status fine stop),
        )
        | inl go ↦
            let (temp, written) = has (is_okay_eq status go) in
            let (temp', s2, kept, keep) =
              keep-Gives name info before (keeps.overrides name before there).0 temp s1
                (keeps.overrides name before there).1 keeps.safe in
            (
              okay,
              some temp',
              s2,
              rw run (rw go (rw written (rw kept refl))),
              Keeps-trans states_of s s1 s2 keeps keep,
              λ _. (temp', refl),
            )
      ]

  log-Keeps :
      (name : String) (value : W) (s : Store W E)
      → IsSafe states_of s
      → Keeps states_of s (log name value s)
  log-Keeps name value s safe = record {
    safe = record { stats = safe.stats; limited = safe.limited; predictions = safe.predictions };
    overrides = λ _ status h. (status, h, refl);
  }

  as-Gives :
      (rec : String → Store W E → Read W E) (force_no_cache : Bool) (name : String)
      (info : SensorInfo W) (status : SensorStatus W) (emul : Option (EmulTemp W)) (s : Store W E)
      → Gives HasValue states_of s (read_now ins rec name info status s)
      → IsSafe states_of s
      → Gives HasValue states_of s (read_as ins rec force_no_cache name info status emul s)
  unfolding read_as
  as-Gives rec force_no_cache name info status (some emul) s now safe = (
    okay,
    some emul.temp,
    log name emul.temp s,
    refl,
    log-Keeps name emul.temp s safe,
    λ _. (emul.temp, refl),
  )
  as-Gives rec force_no_cache name info status none s now safe =
      let cached = status.thermal_cached.temp in
      elim (Bool-cases (is_cached ins force_no_cache (ins.clock name) info status)) [
        | inl fresh ↦ (
          okay,
          some cached,
          log name cached s,
          rw fresh refl,
          log-Keeps name cached s safe,
          λ _. (cached, refl),
        )
        | inr old ↦
            let (st, out, s', run, keeps, has) = now in (st, out, s', rw old run, keeps, has)
      ]

  -- Where no sensor reads itself, a reading of any sensor ends, keeps the store safe, and has a value if
  -- it succeeds. It holds for every state of the cache and of the estimators, and for every sensor that
  -- is emulated, unknown, or not to be read.
  pub read_thermal_sensor-Gives :
      (fuel : ℕ) (force_no_cache : Bool) (name : String) (s : Store W E)
      → IsWell ins rank
      → rank name < fuel
      → IsSafe states_of s
      → Gives HasValue states_of s (read_thermal_sensor ins fuel force_no_cache name s)
  unfolding read_thermal_sensor read_known
  read_thermal_sensor-Gives zero force_no_cache name s well enough safe = absurd (omega arith)
  read_thermal_sensor-Gives (suc fuel) force_no_cache name s well enough safe =
      elim (Option-cases (lookup name ins.sensor_info_map)) [
        | inl unknown ↦ (
          error,
          none,
          s,
          rw (unknown, read_thermal_sensor) refl,
          Keeps-refl states_of s safe,
          λ fine. absurd (cc),
        )
        | inr (info, known) ↦ elim (Option-cases (lookup name s.statuses)) [
          | inl missing ↦ (
            error,
            none,
            s,
            rw (known, read_thermal_sensor) (rw (missing, read_thermal_sensor) refl),
            Keeps-refl states_of s safe,
            λ fine. absurd (cc),
          )
          | inr (status, found) ↦
              let rec = read_thermal_sensor ins fuel force_no_cache in
              let lower =
                λ (name' : String) (s' : Store W E) (h : rank name' < rank name)
                    (safe' : IsSafe states_of s').
                  read_thermal_sensor-Gives fuel force_no_cache name' s' well (omega arith) safe' in
              let now = now-Gives rec name info status s lower well known found safe in
              let (st, out, s', run, keeps, has) =
                as-Gives rec force_no_cache name info status status.override_status.emul_temp s now
                  safe in
              (
                st,
                out,
                s',
                rw (known, read_thermal_sensor) (rw (found, read_thermal_sensor) run),
                keeps,
                has,
              )
        ]
      ]
