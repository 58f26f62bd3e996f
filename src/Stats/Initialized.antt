-- ===== src/Stats/Initialized.antt =====
-- `initializeStats` completes, and what it leaves is sound.
use hardware_mediatek.Base.{
  ℕ, suc, ◌≡◌, refl, Bool, true, false, ◌&&◌, some, List, [], ◌∷◌, String, ℤ, pos, Map, lookup,
  insert, is_empty, All, Each, Each-insert, arith, Bool-cases, inl, inr, if◌then◌else◌, if_both,
  subst, sym,
}
use hardware_mediatek.Floats.{Float}
use hardware_mediatek.ThermalInfo.{SensorInfo, BindedCdevInfo, CdevInfo, ThrottlingInfo}
use hardware_mediatek.Stats.State.{
  ThresholdList, ThermalStats, SensorTempStats, SensorStats, StatsHelper, StatsInfo,
  AbnormalStatsInfo, max_stats_residency_count,
}
use hardware_mediatek.Stats.Requests.{
  is_record_by_default_threshold, no_stats, add_customs, entry_or, is_recorded,
  request_stats_of_sensor, initialize_sensor_cdev_request_stats,
}
use hardware_mediatek.Stats.Initialize.{
  no_temp_stats, with_severities, with_lists, initialize_sensor_temp_stats,
  initialize_sensor_abnormality_stats, initialize_stats,
}
use hardware_mediatek.Stats.Limited.{count_of}
use hardware_mediatek.Stats.Sound.{IsSound, StatsFit, request_limit, severity_states}
use hardware_mediatek.Stats.Started.{
  ListFits, ListsFit, entry_or_lem, add_customs-StatsFit, cdev_stats-StatsFit,
}

-- A device that is configured, with the states that it has.
abbrev pub HasStates {ℓ} : {W : Type ℓ} → Map (CdevInfo W) → (String → ℕ) → String → Type ℓ
HasStates {W = W} cooling states_of cdev =
    (info : CdevInfo W) × (n : ℕ) × (lookup cdev cooling ≡ some info)
    × (info.max_state ≡ pos n)
    × (states_of cdev ≡ suc n)

-- Each sensor has its throttling information, and its devices are configured.
abbrev pub IsBound {ℓ} : {W : Type ℓ} → Map (CdevInfo W) → (String → ℕ) → SensorInfo W → Type ℓ
IsBound {W = W} cooling states_of info =
    (throttling : ThrottlingInfo W) × (info.throttling_info ≡ some throttling)
    × Each (λ cdev _. HasStates cooling states_of cdev) throttling.binded_cdev_info_map

-- The records of a device have its states.
abbrev OfDevice : (String → ℕ) → String → ThermalStats ℤ → Type 0
OfDevice states_of cdev s = StatsFit request_limit (states_of cdev) s

abbrev OfSensor : (String → ℕ) → String → Map (ThermalStats ℤ) → Type 0
OfSensor states_of _ m = Each (OfDevice states_of) m

module _ {ℓ} {W : Type ℓ} (states_of : String → ℕ) where
  request_stats-Each :
      (now : ℕ) (info : StatsInfo ℤ) (cooling : Map (CdevInfo W)) (binded : Map (BindedCdevInfo W))
      (m : Map (ThermalStats ℤ))
      → ListsFit request_limit info
      → Each (λ cdev _. HasStates cooling states_of cdev) binded
      → Each (OfDevice states_of) m
      → (done : Bool) × (m' : Map (ThermalStats ℤ)) × (request_stats_of_sensor now info cooling
            binded m
          ≡ some (done, m'))
        × Each (OfDevice states_of) m'
  unfolding request_stats_of_sensor
  request_stats-Each now info cooling [] m lists bound each = (true, m, refl, each)
  request_stats-Each now info cooling ((cdev, b) ∷ binded) m lists bound each =
      let (cdev_info, n, found, max, states) = bound.0 in
      let old = entry_or no_stats cdev m in
      let old_fits : StatsFit request_limit (suc n) old =
        subst (λ k. StatsFit request_limit k old) states
          (entry_or_lem (OfDevice states_of) no_stats cdev m (tt, tt) each) in
      let (done, s, run, fits) = cdev_stats-StatsFit now n info cdev old lists old_fits in
      let m1 = if is_recorded info cdev then insert cdev s m else m in
      let each1 : Each (OfDevice states_of) m1 =
        if_both (Each (OfDevice states_of)) (is_recorded info cdev) (insert cdev s m) m
          (Each-insert (OfDevice states_of) cdev s m
            (subst (λ k. StatsFit request_limit k s) (sym states) fits) each)
          each in
      elim (Bool-cases done) [
        | inr failed ↦ (false, m1, rw found (rw max (rw run (rw failed refl))), each1)
        | inl fine ↦
            let (done', m', runs, each') =
              request_stats-Each now info cooling binded m1 lists bound.1 each1 in
            (done', m', rw found (rw max (rw run (rw fine runs))), each')
      ]

  cdev_request_stats-Each :
      (now : ℕ) (info : StatsInfo ℤ) (cooling : Map (CdevInfo W)) (sensors : Map (SensorInfo W))
      (m : Map (Map (ThermalStats ℤ)))
      → ListsFit request_limit info
      → Each (λ _ sensor_info. IsBound cooling states_of sensor_info) sensors
      → Each (OfSensor states_of) m
      → (done : Bool) × (m' : Map (Map (ThermalStats ℤ))) × (initialize_sensor_cdev_request_stats
            now info cooling sensors m
          ≡ some (done, m'))
        × Each (OfSensor states_of) m'
  unfolding initialize_sensor_cdev_request_stats
  cdev_request_stats-Each now info cooling [] m lists bound each = (true, m, refl, each)
  cdev_request_stats-Each now info cooling ((sensor, sensor_info) ∷ sensors) m lists bound each =
      let (throttling, there, binded) = bound.0 in
      let (done, of_sensor, run, fits) =
        request_stats-Each now info cooling throttling.binded_cdev_info_map (entry_or [] sensor m)
          lists binded (entry_or_lem (OfSensor states_of) [] sensor m tt each) in
      let m1 = if is_empty of_sensor then m else insert sensor of_sensor m in
      let each1 : Each (OfSensor states_of) m1 =
        if_both (Each (OfSensor states_of)) (is_empty of_sensor) m (insert sensor of_sensor m) each
          (Each-insert (OfSensor states_of) sensor of_sensor m fits each) in
      elim (Bool-cases done) [
        | inr failed ↦ (false, [], rw there (rw run (rw failed refl)), tt)
        | inl fine ↦
            let (done', m', runs, each') =
              cdev_request_stats-Each now info cooling sensors m1 lists bound.1 each1 in
            (done', m', rw there (rw run (rw fine runs)), each')
      ]

-- The records of the temperatures of a sensor.
abbrev OfTemps {ℓ} : {W : Type ℓ} → String → SensorTempStats W → Type 0
OfTemps _ s = StatsFit max_stats_residency_count severity_states s.stats

module _ {ℓ} {W : Type ℓ} ⦃f : Float W⦄ where
  with_severities-Fits :
      (now : ℕ) (sensor : String) (s : SensorTempStats W)
      → OfTemps sensor s
      → OfTemps sensor (with_severities now s)
  with_severities-Fits now sensor s fits = (fits.0, (0, refl, omega arith, refl))

  with_lists-Each :
      (sensor : String) (lists : List (ThresholdList W)) (added : SensorTempStats W)
      (m : Map (SensorTempStats W))
      → OfTemps sensor added
      → Each OfTemps m
      → Each OfTemps (with_lists sensor lists added m)
  with_lists-Each sensor [] added m fits each = each
  with_lists-Each sensor (_ ∷ _) added m fits each = Each-insert OfTemps sensor added m fits each

  temp_stats-Each :
      (now : ℕ) (info : StatsInfo W) (sensors : Map (SensorInfo W)) (m : Map (SensorTempStats W))
      → ListsFit max_stats_residency_count info
      → Each OfTemps m
      → Each OfTemps (initialize_sensor_temp_stats now info sensors m)
  unfolding initialize_sensor_temp_stats
  temp_stats-Each now info [] m lists each = each
  temp_stats-Each now info ((sensor, sensor_info) ∷ sensors) m lists each =
      let by_severity =
        sensor_info.is_watch
        && is_record_by_default_threshold info.record_by_default_threshold_all_or_name_set sensor in
      let old : SensorTempStats W = entry_or no_temp_stats sensor m in
      let with_record : Map (SensorTempStats W) = insert sensor (with_severities now old) m in
      let m1 : Map (SensorTempStats W) = if by_severity then with_record else m in
      let each1 : Each OfTemps m1 =
        if_both (Each OfTemps) by_severity with_record m
          (Each-insert OfTemps sensor (with_severities now old) m
            (with_severities-Fits now sensor old
              (entry_or_lem OfTemps no_temp_stats sensor m (tt, tt) each))
            each)
          each in
      let fit =
        entry_or_lem (λ _ lists. All (ListFits max_stats_residency_count) lists) [] sensor
          info.record_by_threshold tt lists in
      let s : SensorTempStats W = entry_or no_temp_stats sensor m1 in
      let custom_lists = entry_or [] sensor info.record_by_threshold in
      let added : SensorTempStats W = record s { stats = add_customs now custom_lists s.stats } in
      let added_fits =
        add_customs-StatsFit now max_stats_residency_count severity_states custom_lists s.stats fit
          (entry_or_lem OfTemps no_temp_stats sensor m1 (tt, tt) each1) in
      temp_stats-Each now info sensors (with_lists sensor custom_lists added m1) lists
        (with_lists-Each sensor custom_lists added m1 added_fits each1)

  -- From statistics without records, the initialization goes through where every list of thresholds is
  -- short enough and not empty, and every sensor has its throttling information with configured devices.
  -- Whether it succeeds or refuses a threshold, the statistics are sound: each record has an array for all
  -- of its states. A success counts no abnormality.
  pub initialize_stats-IsSound :
      (now : ℕ) (temps : StatsInfo W) (abnormal : AbnormalStatsInfo) (requests : StatsInfo ℤ)
      (sensors : Map (SensorInfo W)) (cooling : Map (CdevInfo W)) (states_of : String → ℕ)
      (t : StatsHelper W)
      → ListsFit max_stats_residency_count temps
      → ListsFit request_limit requests
      → Each (λ _ info. IsBound cooling states_of info) sensors
      → t.sensor_stats.temp_stats_map ≡ []
      → t.sensor_cdev_request_stats_map ≡ []
      → (done : Bool) × (t' : StatsHelper W) × (initialize_stats now
            (some (temps, abnormal))
            (some requests)
            sensors
            cooling
            t
          ≡ some (done, t'))
        × IsSound states_of t'
        × (done ≡ true → count_of t' ≡ 0)
  unfolding initialize_stats initialize_sensor_abnormality_stats
  initialize_stats-IsSound now temps abnormal requests sensors cooling states_of t lists
        request_lists bound no_temps no_requests =
      let temp_stats =
        temp_stats-Each now temps sensors t.sensor_stats.temp_stats_map lists
          (subst (λ m. Each OfTemps m) (sym no_temps) tt) in
      let (done, m, run, fits) =
        cdev_request_stats-Each states_of now requests cooling sensors
          t.sensor_cdev_request_stats_map request_lists bound
          (subst (λ m. Each (OfSensor states_of) m) (sym no_requests) tt) in
      let with_temps : SensorStats W = record t.sensor_stats {
        temp_stats_map =
            initialize_sensor_temp_stats now temps sensors t.sensor_stats.temp_stats_map;
      } in
      let refused : StatsHelper W = record t {
        sensor_stats = with_temps;
        sensor_cdev_request_stats_map = m;
      } in
      let ready : StatsHelper W = record refused {
        last_total_stats_report_time = now;
        abnormal_stats_reported_per_update_interval = 0;
        sensor_stats = initialize_sensor_abnormality_stats abnormal sensors with_temps;
      } in
      elim (Bool-cases done) [
        | inl fine ↦ (
          true,
          ready,
          rw run (rw fine refl),
          record { temps = temp_stats; requests = fits },
          λ _. refl,
        )
        | inr failed ↦ (
          false,
          refused,
          rw run (rw failed refl),
          record { temps = temp_stats; requests = fits },
          λ fine. absurd (cc),
        )
      ]
