-- ===== src/Stats/Records.antt =====
-- The state of one record: `calculateThresholdBucket`, `updateStatsRecord`,
-- `processStatsRecordForReporting` and `restoreStatsRecordOnFailure`.
use hardware_mediatek.Base.{
  ℕ, suc, ◌+◌, ◌-◌, ◌/◌, Bool, Option, none, some, List, [], ◌∷◌, ◌>>=◌, ℤ, pos, negsuc, leb, eqb_ℤ,
  if◌then◌else◌, is_empty, length, get_elem?, set, replicate,
}
use hardware_mediatek.Stats.State.{
  StatsRecord, StatsByThreshold, new_record, max_stats_reporting_fail_count,
}

-- An `int` as an index; a negative one is out of every range.
abbrev pub index_of : ℤ → Option ℕ
index_of (pos n) = some n
index_of (negsuc n) = none

-- The clock does not go back. A state out of the range of the array faults.
unfoldable pub update_stats_record : ℕ → ℤ → StatsRecord → Option StatsRecord
update_stats_record now new_state r = do
  i ← index_of r.cur_state
  spent ← get_elem? r.time_in_state_ms i
  let cur_state_duration = (now - r.cur_state_start_time) / 1_000_000
  some (record r {
    time_in_state_ms = set r.time_in_state_ms i (spent + cur_state_duration);
    cur_state_start_time = now;
    cur_state = new_state;
  })

-- The record, updated if the state changes.
unfoldable pub update_if_changed : ℕ → ℤ → StatsRecord → Option StatsRecord
update_if_changed now value r =
    if eqb_ℤ value r.cur_state then some r else update_stats_record now value r

module _ {ℓ} {V : Type ℓ} (to_int : V → ℤ) (lt : V → V → Bool) where
  -- `std::upper_bound` on sorted thresholds: the place of the first one that the value is below.
  unfoldable pub upper_bound : List V → V → ℕ
  upper_bound [] value = 0
  upper_bound (t ∷ ts) value = if lt value t then 0 else suc (upper_bound ts value)

  unfoldable pub calculate_threshold_bucket : List V → V → ℤ
  unfolding upper_bound
  calculate_threshold_bucket thresholds value =
      if is_empty thresholds then to_int value else pos (upper_bound thresholds value)

  -- The loop over `stats_by_custom_threshold`.
  unfoldable pub update_by_thresholds :
      ℕ → V → List (StatsByThreshold V) → Option (List (StatsByThreshold V))
  update_by_thresholds now value [] = some []
  update_by_thresholds now value (s ∷ rest) = do
    r ← update_if_changed now (calculate_threshold_bucket s.thresholds value) s.stats_record
    rest' ← update_by_thresholds now value rest
    some (record s { stats_record = r } ∷ rest')

-- `if (stats_by_default_threshold.has_value())` with a new state.
unfoldable pub update_by_default : ℕ → ℤ → Option StatsRecord → Option (Option StatsRecord)
update_by_default now value none = some none
update_by_default now value (some r) = do r' ← update_if_changed now value r; some (some r')

-- The residencies, and the record with its residencies cleared and its state begun again.
unfoldable pub process_stats_record_for_reporting : ℕ → StatsRecord → Option (List ℕ × StatsRecord)
process_stats_record_for_reporting now r = do
  r' ← update_stats_record now r.cur_state r
  some (
    r'.time_in_state_ms,
    record r' { time_in_state_ms = replicate (length r'.time_in_state_ms) 0 },
  )

unfoldable pub restore_stats_record_on_failure : ℕ → StatsRecord → StatsRecord
restore_stats_record_on_failure now before =
    let failed = record before { report_fail_count = before.report_fail_count + 1 } in
    if leb max_stats_reporting_fail_count failed.report_fail_count
    then new_record now (length before.time_in_state_ms) before.cur_state
    else failed
