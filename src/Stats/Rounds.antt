-- ===== src/Stats/Rounds.antt =====
-- A report of all the statistics, record by record.
use hardware_mediatek.Base.{
  ℕ, suc, ◌+◌, ◌≤◌, ◌≡◌, refl, Bool, Option, none, some, List, [], ◌∷◌, String, ℤ, pos, Map, length,
  All, Each, subst, arith,
}
use hardware_mediatek.Floats.{Float}
use hardware_mediatek.Stats.State.{
  StatsRecord, StatsByThreshold, ThermalStats, SensorTempStats, StatsHelper, StatsClient,
  max_stats_residency_count,
}
use hardware_mediatek.Stats.Reports.{
  report_sensor_temp_stats, report_sensor_cdev_request_stats, failed, report_custom, report_default,
  report_stats, report_map, report_all_sensor_cdev_request_stats, report_temp_stats,
  report_all_sensor_temp_stats, send_reports, logging_name_or,
}
use hardware_mediatek.Stats.Reporting.{
  report_sensor_temp_stats_lem, report_sensor_cdev_request_stats_lem,
}
use hardware_mediatek.Stats.Reporting.{Reported}
use hardware_mediatek.Stats.Sent.{
  nothing, Sent, Sent-add, Sent-append, records_of_custom, records_of_default, records_of_stats,
  records_of_map, records_of_temps, records_of_requests, records_of,
}
use hardware_mediatek.Stats.Fitting.{Fits, CustomFits}
use hardware_mediatek.Stats.Sound.{DefaultFits, StatsFit, severity_states, IsSound, request_limit}

module _ (now later : ℕ) where
  -- A way of reporting a record that keeps its size, and does with it what its answer says.
  abbrev Reports : (String → StatsRecord → Option (Bool × StatsRecord)) → ℕ → Type 0
  Reports report size =
      (name : String) (r : StatsRecord)
      → Fits size r
      → (done : Bool) × (r' : StatsRecord) × (report name r ≡ some (done, r'))
        × Fits size r'
        × Reported now later done r r'

  report_default-Fits :
      (report : String → StatsRecord → Option (Bool × StatsRecord)) (size : ℕ) (name : String)
      (d : Option StatsRecord)
      → Reports report size
      → DefaultFits size d
      → (n : ℕ) × (d' : Option StatsRecord) × (report_default report name d ≡ some (n, d'))
        × DefaultFits size d'
        × Sent now later n (records_of_default d) (records_of_default d')
  unfolding report_default
  report_default-Fits report size name none reports fits = (0, none, refl, tt, nothing)
  report_default-Fits report size name (some r) reports fits =
      let (done, r', run, kept, reported) = reports name r fits in
      (
        failed done,
        some r',
        rw run refl,
        kept,
        subst (λ k. Sent now later k (r ∷ []) (r' ∷ [])) (failed_alone done)
            (Sent-add 0 [] [] done r r' reported nothing),
      )
    where
      failed_alone : (done : Bool) → failed done + 0 ≡ failed done
      failed_alone done = omega arith

  module _ {ℓ} {V : Type ℓ} (report : String → StatsRecord → Option (Bool × StatsRecord))
      (limit : ℕ) (reports : (size : ℕ) → size ≤ limit → Reports report size) where
    report_custom-Fits :
        (name : String) (i : ℕ) (custom : List (StatsByThreshold V))
        → All (CustomFits limit) custom
        → (n : ℕ) × (custom' : List (StatsByThreshold V)) × (report_custom report name i custom
            ≡ some (n, custom'))
          × All (CustomFits limit) custom'
          × Sent now later n (records_of_custom custom) (records_of_custom custom')
    unfolding report_custom
    report_custom-Fits name i [] fits = (0, [], refl, tt, nothing)
    report_custom-Fits name i (s ∷ rest) fits =
        let (done, r, run, kept, reported) =
          reports (suc (length s.thresholds)) fits.0.1 (logging_name_or s.logging_name name i)
            s.stats_record fits.0.2 in
        let (n, rest', runs, keeps, sent) = report_custom-Fits name (i + 1) rest fits.1 in
        (
          failed done + n,
          record s { stats_record = r } ∷ rest',
          rw run (rw runs refl),
          ((fits.0.0, fits.0.1, kept), keeps),
          Sent-add n (records_of_custom rest) (records_of_custom rest') done s.stats_record r
              reported sent,
        )

    report_stats-Fits :
        (name : String) (size : ℕ) (s : ThermalStats V)
        → Reports report size
        → StatsFit limit size s
        → (n : ℕ) × (s' : ThermalStats V) × (report_stats report name s ≡ some (n, s'))
          × StatsFit limit size s'
          × Sent now later n (records_of_stats s) (records_of_stats s')
    unfolding report_stats
    report_stats-Fits name size s default_reports fits =
        let (n, custom, run, kept, sent) =
          report_custom-Fits name 0 s.stats_by_custom_threshold fits.0 in
        let (n', default, run', kept', sent') =
          report_default-Fits report size name s.stats_by_default_threshold default_reports
            fits.1 in
        (
          n + n',
          record { stats_by_custom_threshold = custom; stats_by_default_threshold = default },
          rw run (rw run' refl),
          (kept, kept'),
          Sent-append n n' (records_of_custom s.stats_by_custom_threshold)
              (records_of_custom custom) (records_of_default s.stats_by_default_threshold)
              (records_of_default default) sent sent',
        )

  -- A loop over a map goes through where each of its rounds does.
  report_map-Each {ℓ κ} :
      {V : Type ℓ} (P : String → V → Type κ) (records : V → List StatsRecord)
      (report : String → V → Option (ℕ × V)) (m : Map V)
      → ((name : String) (v : V)
          → P name v
          → (n : ℕ) × (v' : V) × (report name v ≡ some (n, v'))
            × P name v'
            × Sent now later n (records v) (records v'))
      → Each P m
      → (n : ℕ) × (m' : Map V) × (report_map report m ≡ some (n, m'))
        × Each P m'
        × Sent now later n (records_of_map records m) (records_of_map records m')
  unfolding report_map
  report_map-Each P records report [] round all = (0, [], refl, tt, nothing)
  report_map-Each P records report ((name, v) ∷ rest) round all =
      let (n, v', run, kept, sent) = round name v all.0 in
      let (n', rest', runs, keeps, sents) = report_map-Each P records report rest round all.1 in
      (
        n + n',
        (name, v') ∷ rest',
        rw run (rw runs refl),
        (kept, keeps),
        Sent-append n n' (records v) (records v') (records_of_map records rest)
            (records_of_map records rest') sent sents,
      )

abbrev RequestFits : (String → ℕ) → String → ThermalStats ℤ → Type 0
RequestFits states_of cdev s = StatsFit request_limit (states_of cdev) s

module _ {ℓ} {W : Type ℓ} where
  requests-Fit :
      (client : StatsClient W) (now later : ℕ) (states_of : String → ℕ)
      (m : Map (Map (ThermalStats ℤ)))
      → Each (λ _ n. Each (RequestFits states_of) n) m
      → (n : ℕ) × (m' : Map (Map (ThermalStats ℤ))) × (report_all_sensor_cdev_request_stats client
            now later m
          ≡ some (n, m'))
        × Each (λ _ n. Each (RequestFits states_of) n) m'
        × Sent now later n (records_of_requests m) (records_of_requests m')
  unfolding report_all_sensor_cdev_request_stats
  requests-Fit client now later states_of m =
      let report = λ (sensor : String). report_sensor_cdev_request_stats client now later sensor in
      let reports =
        λ (sensor : String) (size : ℕ) (name : String) (r : StatsRecord) (fits : Fits size r).
          let (done, r', run, reported, kept) =
            report_sensor_cdev_request_stats_lem client now later size sensor name r fits in
          let out : (done : Bool) × (r' : StatsRecord) × (report sensor name r ≡ some (done, r'))
              × Fits size r'
              × Reported now later done r r' =
            (done, r', run, kept, reported) in
          out in
      report_map-Each now later (λ _ n. Each (RequestFits states_of) n)
        (records_of_map records_of_stats) (λ sensor. report_map (report_stats (report sensor))) m
        (λ sensor n all.
          report_map-Each now later (RequestFits states_of) records_of_stats
            (report_stats (report sensor)) n
            (λ cdev s fits.
              report_stats-Fits now later (report sensor) request_limit
                (λ size (_ : size ≤ request_limit). reports sensor size) cdev (states_of cdev) s
                (reports sensor (states_of cdev)) fits)
            all)

module _ {ℓ} {W : Type ℓ} ⦃f : Float W⦄ where
  abbrev TempFits : String → SensorTempStats W → Type 0
  TempFits _ s = StatsFit max_stats_residency_count severity_states s.stats

  temps-Fit :
      (client : StatsClient W) (now later : ℕ) (m : Map (SensorTempStats W))
      → Each TempFits m
      → (n : ℕ) × (m' : Map (SensorTempStats W)) × (report_all_sensor_temp_stats client now later m
          ≡ some (n, m'))
        × Each TempFits m'
        × Sent now later n (records_of_temps m) (records_of_temps m')
  unfolding report_all_sensor_temp_stats report_temp_stats
  temps-Fit client now later m =
      report_map-Each now later TempFits (λ s. records_of_stats s.stats)
        (report_temp_stats client now later) m
        (λ sensor s fits.
          let report = λ (name : String) (r : StatsRecord).
            report_sensor_temp_stats client now later name s r in
          let reports =
            λ (size : ℕ) (room : size ≤ max_stats_residency_count) (name : String) (r : StatsRecord)
                (fits : Fits size r).
              let (_, _, atom, r', _, _, run, reported, kept) =
                report_sensor_temp_stats_lem client now later size name s r fits room in
              let out : (done : Bool) × (r' : StatsRecord) × (report name r ≡ some (done, r'))
                  × Fits size r'
                  × Reported now later done r r' =
                (client atom, r', run, kept, reported) in
              out in
          let (n, stats, run, kept, sent) =
            report_stats-Fits now later report max_stats_residency_count reports sensor
              severity_states s.stats (reports severity_states (omega arith)) fits in
          (
            n,
            record s { stats = stats; max_temp = f.smallest; min_temp = f.biggest },
            rw run refl,
            kept,
            sent,
          ))

  -- The reports to a service that is there.
  pub send_reports-IsSound :
      (client : StatsClient W) (now later : ℕ) (states_of : String → ℕ) (t : StatsHelper W)
      → IsSound states_of t
      → (n : ℕ) × (t' : StatsHelper W) × (send_reports client now later t ≡ some (pos n, t'))
        × IsSound states_of t'
        × (t'.last_total_stats_report_time ≡ now)
        × (t'.abnormal_stats_reported_per_update_interval ≡ 0)
        × Sent now later n (records_of t) (records_of t')
  unfolding send_reports
  send_reports-IsSound client now later states_of t sound =
      let (n, temps, run, kept, sent) =
        temps-Fit client now later t.sensor_stats.temp_stats_map sound.temps in
      let (n', requests, run', kept', sent') =
        requests-Fit client now later states_of t.sensor_cdev_request_stats_map sound.requests in
      (
        n + n',
        record {
          last_total_stats_report_time = now;
          abnormal_stats_reported_per_update_interval = 0;
          sensor_stats = record t.sensor_stats { temp_stats_map = temps };
          sensor_cdev_request_stats_map = requests;
        },
        rw run (rw run' refl),
        record { temps = kept; requests = kept' },
        refl,
        refl,
        Sent-append n n' (records_of_temps t.sensor_stats.temp_stats_map) (records_of_temps temps)
            (records_of_requests t.sensor_cdev_request_stats_map) (records_of_requests requests)
            sent sent',
      )
