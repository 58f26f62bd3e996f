-- ===== src/Stats/Limited.antt =====
-- The reports of abnormal readings are limited, and leave the records alone.
use hardware_mediatek.Base.{
  ℕ, ◌+◌, ◌≤◌, ◌≡◌, refl, true, Option, none, some, String, ℤ, pos, lookup, arith, if◌then◌else◌,
  if_both, leb_ℤ, ◌&&◌, ◌∙◌,
}
use hardware_mediatek.Floats.{Float}
use hardware_mediatek.Stats.State.{
  StatsHelper, StatsClient, AbnormalityType, TempRangeInfo, TempStuckInfo, CurrTempStatus,
  max_abnormal_logging_per_update_interval, extreme_low_temp, extreme_high_temp, sensor_stuck,
}
use hardware_mediatek.Stats.Abnormality.{
  report_thermal_abnormality, verify_range, repeat_reading, verify_stuck, verify_sensor_abnormality,
  set_status, reset_current_temp_status, current_status, precision_threshold, stuck_for,
}

module _ {ℓ} {W : Type ℓ} where
  abbrev pub count_of : StatsHelper W → ℕ
  count_of t = t.abnormal_stats_reported_per_update_interval

  -- What the checks of a reading leave: the records of residencies, and a limited count of reports.
  pub record Checked (t t' : StatsHelper W) : Type ℓ where
    pub temps : t'.sensor_stats.temp_stats_map ≡ t.sensor_stats.temp_stats_map
    pub requests : t'.sensor_cdev_request_stats_map ≡ t.sensor_cdev_request_stats_map
    pub limited :
        count_of t ≤ max_abnormal_logging_per_update_interval
        → count_of t' ≤ max_abnormal_logging_per_update_interval
    pub counted : count_of t ≤ count_of t'

  pub Checked-refl : (t : StatsHelper W) → Checked t t
  Checked-refl t = record { temps = refl; requests = refl; limited = λ h. h; counted = omega arith }

  pub Checked-trans : (a b c : StatsHelper W) → Checked a b → Checked b c → Checked a c
  Checked-trans a b c p q = record {
    temps = q.temps ∙ p.temps;
    requests = q.requests ∙ p.requests;
    limited = λ h. q.limited (p.limited h);
    counted = omega (arith, p.counted, q.counted);
  }

  pub report-Checked :
      (client : Option (StatsClient W)) (type : AbnormalityType) (name : String)
      (reading : Option ℤ) (t : StatsHelper W)
      → Checked t (report_thermal_abnormality client type name reading t).1
  unfolding report_thermal_abnormality
  report-Checked none type name reading t = ground arith
  report-Checked (some report_atom) type name reading t = ground arith

  -- Once an interval has had its number of reports, a further abnormality is dropped: it counts as
  -- reported, whatever the service, and nothing changes.
  pub report_limited :
      (client : Option (StatsClient W)) (type : AbnormalityType) (name : String)
      (reading : Option ℤ) (t : StatsHelper W)
      → max_abnormal_logging_per_update_interval ≤ count_of t
      → report_thermal_abnormality client type name reading t ≡ (true, t)
  unfolding report_thermal_abnormality
  report_limited client type name reading t full = ground arith

module _ {ℓ} {W : Type ℓ} ⦃f : Float W⦄ where
  status-Checked :
      (sensor : String) (status : CurrTempStatus W) (t : StatsHelper W)
      → Checked t (set_status sensor status t)
  status-Checked sensor status t = record {
    temps = refl;
    requests = refl;
    limited = λ h. h;
    counted = omega arith;
  }

  range-Checked :
      (client : Option (StatsClient W)) (sensor : String) (temp : W) (info : TempRangeInfo)
      (t : StatsHelper W)
      → Checked t (verify_range client sensor temp info t)
  unfolding verify_range
  range-Checked client sensor temp info t =
      let reading = some (f.lround temp) in
      let low = report_thermal_abnormality client extreme_low_temp sensor reading t in
      let high = report_thermal_abnormality client extreme_high_temp sensor reading t in
      let above = f.lt (f.of_int info.max_temp_threshold) temp in
      if_both (Checked t) (f.lt temp (f.of_int info.min_temp_threshold)) low.1
        (if above then high.1 else t) (report-Checked client extreme_low_temp sensor reading t)
        (if_both (Checked t) above high.1 t
          (report-Checked client extreme_high_temp sensor reading t) (Checked-refl t))

  repeat-Checked :
      (client : Option (StatsClient W)) (now : ℕ) (sensor : String) (temp : W)
      (info : TempStuckInfo) (status : CurrTempStatus W) (t : StatsHelper W)
      → Checked t (repeat_reading client now sensor temp info status t)
  unfolding repeat_reading
  repeat-Checked client now sensor temp info status t =
      let again = record status { repeat_count = status.repeat_count + 1 } in
      let counted = set_status sensor again t in
      let reading = some (f.lround temp) in
      let reported = report_thermal_abnormality client sensor_stuck sensor reading counted in
      let reset = set_status sensor (reset_current_temp_status now temp) reported.1 in
      let first = status-Checked sensor again t in
      let second = report-Checked client sensor_stuck sensor reading counted in
      let both = Checked-trans t counted reported.1 first second in
      let stuck =
        leb_ℤ info.min_polling_count (pos again.repeat_count)
        && stuck_for now info.min_stuck_duration status.start_time in
      if_both (Checked t) stuck (if reported.0 then reset else reported.1) counted
        (if_both (Checked t) reported.0 reset reported.1
          (Checked-trans t reported.1 reset both
            (status-Checked sensor (reset_current_temp_status now temp) reported.1))
          both)
        first

  stuck-Checked :
      (client : Option (StatsClient W)) (now : ℕ) (sensor : String) (temp : W)
      (info : TempStuckInfo) (t : StatsHelper W)
      → Checked t (verify_stuck client now sensor temp info t)
  unfolding verify_stuck
  stuck-Checked client now sensor temp info t =
      let status = current_status sensor t in
      if_both (Checked t) (f.le (f.fabs (f.sub status.temp temp)) precision_threshold)
        (repeat_reading client now sensor temp info status t)
        (set_status sensor (reset_current_temp_status now temp) t)
        (repeat-Checked client now sensor temp info status t)
        (status-Checked sensor (reset_current_temp_status now temp) t)

  -- The check of a reading leaves every record of residencies alone, and never takes the count of
  -- reports above its limit.
  pub verify_sensor_abnormality-Checked :
      (client : Option (StatsClient W)) (now : ℕ) (sensor : String) (temp : W) (t : StatsHelper W)
      → Checked t (verify_sensor_abnormality client now sensor temp t)
  unfolding verify_sensor_abnormality
  verify_sensor_abnormality-Checked client now sensor temp t =
      check (lookup sensor t.sensor_stats.temp_range_info_map)
        (lookup sensor t.sensor_stats.temp_stuck_info_map)
    where
      ranged : Option TempRangeInfo → StatsHelper W
      ranged none = t
      ranged (some info) = verify_range client sensor temp info t

      checked : StatsHelper W → Option TempStuckInfo → StatsHelper W
      checked t' none = t'
      checked t' (some info) = verify_stuck client now sensor temp info t'

      check :
          (r : Option TempRangeInfo) (s : Option TempStuckInfo) → Checked t (checked (ranged r) s)
      check none none = Checked-refl t
      check none (some s) = stuck-Checked client now sensor temp s t
      check (some r) none = range-Checked client sensor temp r t
      check (some r) (some s) =
          Checked-trans t (verify_range client sensor temp r t)
            (verify_stuck client now sensor temp s (verify_range client sensor temp r t))
            (range-Checked client sensor temp r t)
            (stuck-Checked client now sensor temp s (verify_range client sensor temp r t))
