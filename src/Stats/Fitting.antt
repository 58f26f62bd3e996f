-- ===== src/Stats/Fitting.antt =====
-- The state of a record stays within its array: buckets and updates.
use hardware_mediatek.Base.{
  ℕ, zero, suc, ◌+◌, ◌≤◌, ◌<◌, ◌≡◌, refl, Bool, true, false, some, List, [], ◌∷◌, ℤ, pos, eqb_ℤ,
  is_empty, length, get_elem?, All, arith, inl, inr, Bool-cases, length-replicate, replicate,
  get_elem?-lt, ◌∙◌, ap, if_both, leb,
}
use hardware_mediatek.Stats.State.{
  StatsRecord, StatsByThreshold, new_record, max_stats_reporting_fail_count,
}
use hardware_mediatek.Stats.Records.{
  update_if_changed, upper_bound, calculate_threshold_bucket, update_by_thresholds,
  update_by_default, process_stats_record_for_reporting, restore_stats_record_on_failure,
}
use hardware_mediatek.Stats.Residency.{moved, update_lem, length-moved}

-- A record with so many states is in one of them.
abbrev pub Fits : ℕ → StatsRecord → Type 0
Fits size r =
    (state : ℕ) × (r.cur_state ≡ pos state) × (state < size) × (length r.time_in_state_ms ≡ size)

pub moved-Fits :
    (now state spent next size : ℕ) (r : StatsRecord)
    → next < size
    → length r.time_in_state_ms ≡ size
    → Fits size (moved now (pos next) state spent r)
moved-Fits now state spent next size r lt len =
    (next, refl, lt, length-moved now state spent (pos next) r ∙ len)

pub update_if_changed-Fits :
    (now next size : ℕ) (r : StatsRecord)
    → next < size
    → Fits size r
    → (r' : StatsRecord) × (update_if_changed now (pos next) r ≡ some r') × Fits size r'
unfolding update_if_changed
update_if_changed-Fits now next size r lt (state, here, inside, len) =
    let (spent, found) = get_elem?-lt r.time_in_state_ms state (omega arith) in
    elim (Bool-cases (eqb_ℤ (pos next) r.cur_state)) [
      | inl same ↦ (r, rw same refl, (state, here, inside, len))
      | inr other ↦ (
        moved now (pos next) state spent r,
        rw other (update_lem now state spent (pos next) r here found),
        moved-Fits now state spent next size r lt len,
      )
    ]

-- The processed record has its residencies cleared, and the rest of it but the start.
abbrev pub Cleared : StatsRecord → StatsRecord → Type 0
Cleared r p =
    (p.time_in_state_ms ≡ replicate (length r.time_in_state_ms) 0)
    × (p.cur_state ≡ r.cur_state)
    × (p.report_fail_count ≡ r.report_fail_count)

-- The residencies of a report, and the record after it.
pub process-Fits :
    (now size : ℕ) (r : StatsRecord)
    → Fits size r
    → (times : List ℕ) × (r' : StatsRecord) × (process_stats_record_for_reporting now r
        ≡ some (times, r'))
      × (length times ≡ size)
      × Cleared r r'
      × Fits size r'
unfolding process_stats_record_for_reporting
process-Fits now size r (state, here, inside, len) =
    let (spent, found) = get_elem?-lt r.time_in_state_ms state (omega arith) in
    let r1 = moved now r.cur_state state spent r in
    let unmoved = length-moved now state spent r.cur_state r in
    let same = unmoved ∙ len in
    (
      r1.time_in_state_ms,
      record r1 { time_in_state_ms = replicate (length r1.time_in_state_ms) 0 },
      rw (update_lem now state spent r.cur_state r here found) refl,
      same,
      (ap (λ n. replicate n 0) unmoved, refl, refl),
      (state, here, inside, length-replicate {A = ℕ} (length r1.time_in_state_ms) 0 ∙ same),
    )

pub restore-Fits :
    (now size : ℕ) (r : StatsRecord)
    → Fits size r
    → Fits size (restore_stats_record_on_failure now r)
unfolding restore_stats_record_on_failure
restore-Fits now size r (state, here, inside, len) =
    if_both (Fits size) (leb max_stats_reporting_fail_count (r.report_fail_count + 1))
      (new_record now (length r.time_in_state_ms) r.cur_state)
      (record r { report_fail_count = r.report_fail_count + 1 })
      (state, here, inside, length-replicate {A = ℕ} (length r.time_in_state_ms) 0 ∙ len)
      (state, here, inside, len)

pub update_by_default-Fits :
    (now next size : ℕ) (r : StatsRecord)
    → next < size
    → Fits size r
    → (r' : StatsRecord) × (update_by_default now (pos next) (some r) ≡ some (some r'))
      × Fits size r'
unfolding update_by_default
update_by_default-Fits now next size r lt fits =
    let (r', run, fits') = update_if_changed-Fits now next size r lt fits in
    (r', rw run refl, fits')

module _ {ℓ} {V : Type ℓ} where
  -- There is a threshold, and a state for each bucket, not more than the limit.
  abbrev pub CustomFits : ℕ → StatsByThreshold V → Type 0
  CustomFits limit s =
      (is_empty s.thresholds ≡ false)
      × (suc (length s.thresholds) ≤ limit)
      × Fits (suc (length s.thresholds)) s.stats_record

module _ {ℓ} {V : Type ℓ} (to_int : V → ℤ) (lt : V → V → Bool) where
  -- The thresholds before the bucket do not exceed the value, and the first one from it does.
  pub upper_bound-le :
      (thresholds : List V) (value : V) → upper_bound to_int lt thresholds value ≤ length thresholds
  unfolding upper_bound
  upper_bound-le [] value = omega arith
  upper_bound-le (t ∷ ts) value = ground (arith, upper_bound-le ts value)

  pub below_bound :
      (thresholds : List V) (value : V) (i : ℕ) (t : V)
      → i < upper_bound to_int lt thresholds value
      → get_elem? thresholds i ≡ some t
      → lt value t ≡ false
  unfolding upper_bound
  below_bound [] value i t h at = cc
  below_bound (u ∷ ts) value zero t h at = ground arith
  below_bound (u ∷ ts) value (suc i) t h at = ground (arith, below_bound ts value i t)

  pub at_bound :
      (thresholds : List V) (value t : V)
      → get_elem? thresholds (upper_bound to_int lt thresholds value) ≡ some t
      → lt value t ≡ true
  unfolding upper_bound
  at_bound [] value t at = cc
  at_bound (u ∷ ts) value t at = ground (arith, at_bound ts value t)

  pub bucket_lem :
      (thresholds : List V) (value : V)
      → is_empty thresholds ≡ false
      → calculate_threshold_bucket to_int lt thresholds value
        ≡ pos (upper_bound to_int lt thresholds value)
  unfolding calculate_threshold_bucket
  bucket_lem thresholds value some_there = rw some_there refl

  pub update_by_thresholds-Fits :
      (now limit : ℕ) (value : V) (custom : List (StatsByThreshold V))
      → All (CustomFits limit) custom
      → (custom' : List (StatsByThreshold V)) × (update_by_thresholds to_int lt now value custom
          ≡ some custom')
        × All (CustomFits limit) custom'
  unfolding update_by_thresholds
  update_by_thresholds-Fits now limit value [] fits = ([], refl, tt)
  update_by_thresholds-Fits now limit value (s ∷ rest) fits =
      let bucket = upper_bound to_int lt s.thresholds value in
      let (r, run, kept) =
        update_if_changed-Fits now bucket (suc (length s.thresholds)) s.stats_record
          (omega (arith, upper_bound-le s.thresholds value)) fits.0.2 in
      let (rest', runs, keeps) = update_by_thresholds-Fits now limit value rest fits.1 in
      (
        record s { stats_record = r } ∷ rest',
        rw (bucket_lem s.thresholds value fits.0.0, run) (rw runs refl),
        ((fits.0.0, fits.0.1, kept), keeps),
      )
