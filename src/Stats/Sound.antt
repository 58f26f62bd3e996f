-- ===== src/Stats/Sound.antt =====
-- No update of the statistics reaches outside an array of residencies.
use hardware_mediatek.Base.{
  ℕ, ◌≤◌, ◌<◌, ◌≡◌, refl, Option, none, some, String, ℤ, pos, Map, lookup, insert, All, Each,
  Each-insert, Each-lookup, arith, Option-cases, inl, inr, ltb_ℤ, subst, sym,
}
use hardware_mediatek.Floats.{Float}
use hardware_mediatek.ThermalInfo.{ThrottlingSeverity, index, index-le_last}
use hardware_mediatek.Stats.State.{
  StatsRecord, ThermalStats, SensorTempStats, StatsHelper, StatsClient,
  max_abnormal_logging_per_update_interval, max_stats_residency_count,
}
use hardware_mediatek.Stats.Abnormality.{verify_sensor_abnormality}
use hardware_mediatek.Stats.Updates.{
  int_to_int, update_sensor_cdev_request_stats, set_temp_stats,
  update_sensor_temp_stats_by_threshold, update_sensor_temp_stats_by_severity, update_extremes,
}
use hardware_mediatek.Stats.Records.{update_by_default}
use hardware_mediatek.Stats.Limited.{Checked, count_of, verify_sensor_abnormality-Checked}
use hardware_mediatek.Stats.Fitting.{
  Fits, CustomFits, update_by_default-Fits, update_by_thresholds-Fits,
}

-- The record by default is absent, or has so many states.
abbrev pub DefaultFits : ℕ → Option StatsRecord → Type 0
DefaultFits size none = Unit
DefaultFits size (some r) = Fits size r

abbrev pub StatsFit {ℓ} : {V : Type ℓ} → ℕ → ℕ → ThermalStats V → Type 0
StatsFit limit size s =
    All (CustomFits limit) s.stats_by_custom_threshold
    × DefaultFits size s.stats_by_default_threshold

-- `kThrottlingSeverityCount` states of severity
abbrev pub severity_states : ℕ
severity_states = 7

-- An atom has room for `kMaxStatsResidencyCount` states; the combined states of a device are one more.
abbrev pub request_limit : ℕ
request_limit = 21

-- Each sensor has a state for each severity, and each device so many states.
pub record IsSound {ℓ} {W : Type ℓ} (states_of : String → ℕ) (t : StatsHelper W) : Type ℓ where
  pub temps :
      Each
        (λ _ s. StatsFit max_stats_residency_count severity_states s.stats)
        t.sensor_stats.temp_stats_map
  pub requests :
      Each
        (λ _ m. Each (λ cdev s. StatsFit request_limit (states_of cdev) s) m)
        t.sensor_cdev_request_stats_map

default-Fits :
    (now next size : ℕ) (d : Option StatsRecord)
    → next < size
    → DefaultFits size d
    → (d' : Option StatsRecord) × (update_by_default now (pos next) d ≡ some d')
      × DefaultFits size d'
unfolding update_by_default
default-Fits now next size none lt fits = (none, refl, tt)
default-Fits now next size (some r) lt fits =
    let (r', run, fits') = update_by_default-Fits now next size r lt fits in (some r', run, fits')

module _ {ℓ} {W : Type ℓ} where
  -- An update of the request of a sensor for a device, to one of the states of the device, goes
  -- through and keeps the statistics sound, and the count of reports.
  pub update_sensor_cdev_request_stats-IsSound :
      (now state : ℕ) (sensor cdev : String) (states_of : String → ℕ) (t : StatsHelper W)
      → IsSound states_of t
      → state < states_of cdev
      → (t' : StatsHelper W) × (update_sensor_cdev_request_stats now sensor cdev (pos state) t
          ≡ some t')
        × IsSound states_of t'
        × (count_of t' ≡ count_of t)
  unfolding update_sensor_cdev_request_stats
  update_sensor_cdev_request_stats-IsSound now state sensor cdev states_of t sound lt =
      let requests = t.sensor_cdev_request_stats_map in
      let OfSensor : String → Map (ThermalStats ℤ) → Type 0 =
        λ _ m. Each (λ cdev s. StatsFit request_limit (states_of cdev) s) m in
      elim (Option-cases (lookup sensor requests)) [
        | inl absent ↦ (t, rw (absent, update_sensor_cdev_request_stats) refl, sound, refl)
        | inr (m, there) ↦ elim (Option-cases (lookup cdev m)) [
          | inl absent ↦
              (t, rw (there, update_sensor_cdev_request_stats) (rw absent refl), sound, refl)
          | inr (s, found) ↦
              let each = Each-lookup OfSensor sensor m requests sound.requests there in
              let fits =
                Each-lookup (λ cdev s. StatsFit request_limit (states_of cdev) s) cdev s m each
                  found in
              let (custom, run, kept) =
                update_by_thresholds-Fits int_to_int ltb_ℤ now request_limit (pos state)
                  s.stats_by_custom_threshold fits.0 in
              let (default, run', kept') =
                default-Fits now state (states_of cdev) s.stats_by_default_threshold lt fits.1 in
              let s' : ThermalStats ℤ = record {
                stats_by_custom_threshold = custom;
                stats_by_default_threshold = default;
              } in
              let m' = insert cdev s' m in
              (
                record t { sensor_cdev_request_stats_map = insert sensor m' requests },
                rw (there, update_sensor_cdev_request_stats) (rw found (rw run (rw run' refl))),
                record {
                  temps = sound.temps;
                  requests =
                      Each-insert OfSensor sensor m' requests
                        (Each-insert (λ cdev s. StatsFit request_limit (states_of cdev) s) cdev s' m
                          (kept, kept') each)
                        sound.requests;
                },
                refl,
              )
        ]
      ]

  -- A new severity of a sensor goes through and keeps the statistics sound, and the
  -- count of reports.
  pub update_sensor_temp_stats_by_severity-IsSound :
      (now : ℕ) (sensor : String) (severity : ThrottlingSeverity) (states_of : String → ℕ)
      (t : StatsHelper W)
      → IsSound states_of t
      → (t' : StatsHelper W) × (update_sensor_temp_stats_by_severity now sensor severity t
          ≡ some t')
        × IsSound states_of t'
        × (count_of t' ≡ count_of t)
  unfolding update_sensor_temp_stats_by_severity
  update_sensor_temp_stats_by_severity-IsSound now sensor severity states_of t sound =
      let temps = t.sensor_stats.temp_stats_map in
      let OfSensor : String → SensorTempStats W → Type 0 =
        λ _ s. StatsFit max_stats_residency_count severity_states s.stats in
      elim (Option-cases (lookup sensor temps)) [
        | inl absent ↦ (t, rw (absent, update_sensor_temp_stats_by_severity) refl, sound, refl)
        | inr (s, found) ↦
            let fits = Each-lookup OfSensor sensor s temps sound.temps found in
            let (default, run, kept) =
              default-Fits now (index severity) severity_states s.stats.stats_by_default_threshold
                (omega (arith, index-le_last severity)) fits.1 in
            let s' : SensorTempStats W = record s {
              stats = record s.stats { stats_by_default_threshold = default };
            } in
            (
              set_temp_stats sensor s' t,
              rw (found, update_sensor_temp_stats_by_severity) (rw run refl),
              record {
                temps = Each-insert OfSensor sensor s' temps (fits.0, kept) sound.temps;
                requests = sound.requests;
              },
              refl,
            )
      ]

module _ {ℓ} {W : Type ℓ} ⦃f : Float W⦄ where
  pub Checked-IsSound :
      (states_of : String → ℕ) (t t' : StatsHelper W)
      → Checked t t'
      → IsSound states_of t
      → IsSound states_of t'
  Checked-IsSound states_of t t' checked sound = record {
    temps =
        subst
          (λ (m : Map (SensorTempStats W)).
            Each (λ _ s. StatsFit max_stats_residency_count severity_states s.stats) m)
          (sym checked.temps) sound.temps;
    requests =
        subst
          (λ (m : Map (Map (ThermalStats ℤ))).
            Each (λ _ m. Each (λ cdev s. StatsFit request_limit (states_of cdev) s) m) m)
          (sym checked.requests) sound.requests;
  }

  -- A reading of a sensor goes through, with the check that it is normal, whatever the stats service
  -- answers. It keeps the statistics sound, and the count of reports within its limit.
  pub update_sensor_temp_stats_by_threshold-IsSound :
      (client : Option (StatsClient W)) (now : ℕ) (wall : ℤ) (sensor : String) (temperature : W)
      (states_of : String → ℕ) (t : StatsHelper W)
      → IsSound states_of t
      → count_of t ≤ max_abnormal_logging_per_update_interval
      → (t' : StatsHelper W) × (update_sensor_temp_stats_by_threshold client now wall sensor
            temperature t
          ≡ some t')
        × IsSound states_of t'
        × (count_of t' ≤ max_abnormal_logging_per_update_interval)
  unfolding update_sensor_temp_stats_by_threshold
  update_sensor_temp_stats_by_threshold-IsSound client now wall sensor temperature states_of t sound
        limited =
      let t1 = verify_sensor_abnormality client now sensor temperature t in
      let checked = verify_sensor_abnormality-Checked client now sensor temperature t in
      let sound1 = Checked-IsSound states_of t t1 checked sound in
      let temps = t1.sensor_stats.temp_stats_map in
      let OfSensor : String → SensorTempStats W → Type 0 =
        λ _ s. StatsFit max_stats_residency_count severity_states s.stats in
      elim (Option-cases (lookup sensor temps)) [
        | inl absent ↦ (
          t1,
          rw (absent, update_sensor_temp_stats_by_threshold) refl,
          sound1,
          checked.limited limited,
        )
        | inr (s, found) ↦
            let fits = Each-lookup OfSensor sensor s temps sound1.temps found in
            let (custom, run, kept) =
              update_by_thresholds-Fits f.to_int f.lt now max_stats_residency_count temperature
                s.stats.stats_by_custom_threshold fits.0 in
            let s' : SensorTempStats W =
              update_extremes wall temperature
                (record s { stats = record s.stats { stats_by_custom_threshold = custom } }) in
            (
              set_temp_stats sensor s' t1,
              rw (found, update_sensor_temp_stats_by_threshold) (rw run refl),
              record {
                temps = Each-insert OfSensor sensor s' temps (kept, fits.1) sound1.temps;
                requests = sound1.requests;
              },
              checked.limited limited,
            )
      ]
