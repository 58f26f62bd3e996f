-- ===== src/Stats/Reporting.antt =====
-- What a report to the stats service does with the records.
use hardware_mediatek.Base.{
  ℕ, ◌+◌, ◌≤◌, ◌<◌, ◌≡◌, refl, Bool, true, false, some, List, String, length, replicate, arith,
  Bool-cases, inl, inr, le→not_ltb,
}
use hardware_mediatek.Stats.State.{
  StatsRecord, SensorTempStats, StatsClient, VendorAtom, residency, vendor_temp_residency_stats,
  max_stats_residency_count, max_stats_reporting_fail_count, new_record,
}
use hardware_mediatek.Stats.Records.{
  process_stats_record_for_reporting, restore_stats_record_on_failure,
}
use hardware_mediatek.Stats.Reports.{
  finish_report, temp_values, temp_atom, cdev_atom, report_sensor_temp_stats,
  report_sensor_cdev_request_stats,
}
use hardware_mediatek.Stats.Fitting.{Fits, Cleared, process-Fits, restore-Fits}

-- How a record `r'` follows from `r` by a report that the service takes or not. The count of failures
-- is not reset by a success.
pub record Reported (now later : ℕ) (done : Bool) (r r' : StatsRecord) : Type 0 where
  pub sent_times : done ≡ true → r'.time_in_state_ms ≡ replicate (length r.time_in_state_ms) 0
  pub sent_at : done ≡ true → r'.last_stats_report_time ≡ later
  pub sent_state : r'.cur_state ≡ r.cur_state
  pub sent_failures : done ≡ true → r'.report_fail_count ≡ r.report_fail_count
  pub kept :
      done ≡ false
      → r.report_fail_count + 1 < max_stats_reporting_fail_count
      → r' ≡ record r { report_fail_count = r.report_fail_count + 1 }
  pub dropped :
      done ≡ false
      → max_stats_reporting_fail_count ≤ r.report_fail_count + 1
      → r' ≡ new_record now (length r.time_in_state_ms) r.cur_state

taken-Reported :
    (now later : ℕ) (r p : StatsRecord)
    → Cleared r p
    → Reported now later true r (record p { last_stats_report_time = later })
taken-Reported now later r p cleared = record {
  sent_times = λ _. cleared.0;
  sent_at = λ _. refl;
  sent_state = cleared.1;
  sent_failures = λ _. cleared.2;
  kept = λ no. absurd (cc);
  dropped = λ no. absurd (cc);
}

refused-Reported :
    (now later : ℕ) (r : StatsRecord)
    → Reported now later false r (restore_stats_record_on_failure now r)
unfolding restore_stats_record_on_failure
refused-Reported now later r = record {
  sent_times = λ yes'. absurd (cc);
  sent_at = λ yes'. absurd (cc);
  sent_state = ground arith;
  sent_failures = λ yes'. absurd (cc);
  kept = λ _ few. ground arith;
  dropped = λ _ many. ground arith;
}

module _ {ℓ} {W : Type ℓ} where
  finish-Reported :
      (client : StatsClient W) (now later size : ℕ) (atom : VendorAtom W) (r p : StatsRecord)
      → Cleared r p
      → Fits size r
      → Fits size p
      → (r' : StatsRecord) × (finish_report client now later atom r p ≡ (client atom, r'))
        × Reported now later (client atom) r r'
        × Fits size r'
  unfolding finish_report
  finish-Reported client now later size atom r p cleared fits fits' =
      elim (Bool-cases (client atom)) [
        | inl taken ↦ (
          record p { last_stats_report_time = later },
          rw taken refl,
          rw taken (taken-Reported now later r p cleared),
          fits',
        )
        | inr refused ↦ (
          restore_stats_record_on_failure now r,
          rw refused refl,
          rw refused (refused-Reported now later r),
          restore-Fits now size r fits,
        )
      ]

  temp_atom_room :
      (sensor : String) (s : SensorTempStats W) (times : List ℕ) (p : StatsRecord)
      → length times ≤ max_stats_residency_count
      → (atom : VendorAtom W) × (temp_atom sensor s times p ≡ some atom)
  unfolding temp_atom
  temp_atom_room sensor s times p room = (
    residency vendor_temp_residency_stats (temp_values sensor s times p),
    rw (le→not_ltb max_stats_residency_count (length times) room) refl,
  )

  -- The report of a record of temperatures that fits into an atom goes through, with an atom of its
  -- residencies. If the service takes it, the residencies begin again at zero; if not, the record stays
  -- as it was but for one failure more, and it begins again at the third.
  pub report_sensor_temp_stats_lem :
      (client : StatsClient W) (now later size : ℕ) (sensor : String) (s : SensorTempStats W)
      (r : StatsRecord)
      → Fits size r
      → size ≤ max_stats_residency_count
      → (times : List ℕ) × (p : StatsRecord) × (atom : VendorAtom W) × (r' : StatsRecord)
        × (process_stats_record_for_reporting now r ≡ some (times, p))
        × (temp_atom sensor s times p ≡ some atom)
        × (report_sensor_temp_stats client now later sensor s r ≡ some (client atom, r'))
        × Reported now later (client atom) r r'
        × Fits size r'
  unfolding report_sensor_temp_stats
  report_sensor_temp_stats_lem client now later size sensor s r fits room =
      let (times, p, processed, len, cleared, fits') = process-Fits now size r fits in
      let (atom, made) = temp_atom_room sensor s times p (omega arith) in
      let (r', finished, reported, kept) =
        finish-Reported client now later size atom r p cleared fits fits' in
      (
        times,
        p,
        atom,
        r',
        processed,
        made,
        rw processed (rw made (rw finished refl)),
        reported,
        kept,
      )

  -- The same for the requests of a device, whose atom has no such limit.
  pub report_sensor_cdev_request_stats_lem :
      (client : StatsClient W) (now later size : ℕ) (sensor cdev : String) (r : StatsRecord)
      → Fits size r
      → (done : Bool) × (r' : StatsRecord) × (report_sensor_cdev_request_stats client now later
            sensor cdev r
          ≡ some (done, r'))
        × Reported now later done r r'
        × Fits size r'
  unfolding report_sensor_cdev_request_stats
  report_sensor_cdev_request_stats_lem client now later size sensor cdev r fits =
      let (times, p, processed, len, cleared, fits') = process-Fits now size r fits in
      let (r', finished, reported, kept) =
        finish-Reported client now later size (cdev_atom sensor cdev times p) r p cleared fits
          fits' in
      (client (cdev_atom sensor cdev times p), r', rw processed (rw finished refl), reported, kept)
