-- ===== src/Stats/Residency.antt =====
-- The time that a record gives to each state is the time that was spent in it.
use hardware_mediatek.Base.{
  ℕ, zero, suc, ◌+◌, ◌-◌, ◌*◌, ◌/◌, ◌≤◌, ◌<◌, ◌≡◌, refl, Option, some, List, [], ◌∷◌, ◌>>=◌, ℤ, pos,
  if◌then◌else◌, ◌==◌, length, get_elem?, set, All, arith, length-set, get_elem?-lt, ap, ◌∙◌,
}
use hardware_mediatek.Stats.State.{StatsRecord}
use hardware_mediatek.Stats.Records.{update_stats_record, index_of}

-- A change of state at a time. The states are places in the array of the record.
abbrev pub Change : Type 0
Change = ℕ × ℕ

unfoldable pub run_changes : List Change → StatsRecord → Option StatsRecord
run_changes [] r = some r
run_changes ((now, state) ∷ changes) r = do
  r' ← update_stats_record now (pos state) r
  run_changes changes r'

-- The independent account: the whole milliseconds of each stay in a state, from a start in `current`.
unfoldable pub spent_in : ℕ → ℕ → ℕ → List Change → ℕ
spent_in state current start [] = 0
spent_in state current start ((now, next) ∷ changes) =
    (if current == state then (now - start) / 1_000_000 else 0) + spent_in state next now changes

-- The record is in a state of its array.
abbrev pub IsIn : ℕ → StatsRecord → Type 0
IsIn state r = (r.cur_state ≡ pos state) × (state < length r.time_in_state_ms)

-- The record after one update from the place `state`, which had `spent`.
abbrev pub moved : ℕ → ℤ → ℕ → ℕ → StatsRecord → StatsRecord
moved now next state spent r = record r {
  time_in_state_ms =
      set r.time_in_state_ms state (spent + (now - r.cur_state_start_time) / 1_000_000);
  cur_state_start_time = now;
  cur_state = next;
}

pub update_lem :
    (now state spent : ℕ) (next : ℤ) (r : StatsRecord)
    → r.cur_state ≡ pos state
    → get_elem? r.time_in_state_ms state ≡ some spent
    → update_stats_record now next r ≡ some (moved now next state spent r)
unfolding update_stats_record
update_lem now state spent next r here at =
    ap
      (λ c.
        index_of c >>= λ i. get_elem? r.time_in_state_ms i >>= λ old. some (moved now next i old r))
      here
    ∙ (rw at refl)

pub length-moved :
    (now state spent : ℕ) (next : ℤ) (r : StatsRecord)
    → length (moved now next state spent r).time_in_state_ms ≡ length r.time_in_state_ms
length-moved now state spent next r =
    length-set r.time_in_state_ms state (spent + (now - r.cur_state_start_time) / 1_000_000)

time_at_set :
    (times : List ℕ) (state place spent gain old : ℕ)
    → get_elem? times place ≡ some spent
    → get_elem? times state ≡ some old
    → get_elem? (set times place (spent + gain)) state
      ≡ some (old + (if place == state then gain else 0))
time_at_set [] state place spent gain old at h = cc
time_at_set (t ∷ ts) zero zero spent gain old at h = ground arith
time_at_set (t ∷ ts) (suc state) zero spent gain old at h = ground arith
time_at_set (t ∷ ts) zero (suc place) spent gain old at h = ground arith
time_at_set (t ∷ ts) (suc state) (suc place) spent gain old at h =
    let tail = time_at_set ts state place spent gain old at h in ground (arith, tail)

-- A run of changes between states of the array goes through, and adds to each state the whole
-- milliseconds of the stays in it, and to no other.
pub run_changes-spent_in :
    (changes : List Change) (current state old : ℕ) (r : StatsRecord)
    → IsIn current r
    → All (λ (c : Change). c.1 < length r.time_in_state_ms) changes
    → get_elem? r.time_in_state_ms state ≡ some old
    → (r' : StatsRecord) × (run_changes changes r ≡ some r')
      × (get_elem? r'.time_in_state_ms state
          ≡ some (old + spent_in state current r.cur_state_start_time changes))
      × (length r'.time_in_state_ms ≡ length r.time_in_state_ms)
unfolding run_changes spent_in
run_changes-spent_in [] current state old r here within at =
    (r, refl, at ∙ ap some (omega arith), refl)
run_changes-spent_in ((now, next) ∷ changes) current state old r here within at =
    let gain = (now - r.cur_state_start_time) / 1_000_000 in
    let (spent, found) = get_elem?-lt r.time_in_state_ms current here.1 in
    let size = length-moved now current spent (pos next) r in
    let r1 = moved now (pos next) current spent r in
    let (r', run, total, len) =
      run_changes-spent_in changes next state (old + (if current == state then gain else 0)) r1
        (refl, rw size within.0) (rw size within.1)
        (time_at_set r.time_in_state_ms state current spent gain old found at) in
    (
      r',
      rw (update_lem now current spent (pos next) r here.0 found) run,
      total ∙ ap some (omega arith),
      len ∙ size,
    )

abbrev pub sum : List ℕ → ℕ
sum [] = 0
sum (n ∷ ns) = n + sum ns

-- The times of the changes do not go back.
abbrev pub InOrder : ℕ → List Change → Type 0
InOrder start [] = Unit
InOrder start ((now, _) ∷ changes) = (start ≤ now) × InOrder now changes

sum-set :
    (times : List ℕ) (place spent gain : ℕ)
    → get_elem? times place ≡ some spent
    → sum (set times place (spent + gain)) ≡ sum times + gain
sum-set [] place spent gain at = cc
sum-set (t ∷ ts) zero spent gain at = ground arith
sum-set (t ∷ ts) (suc place) spent gain at = omega (arith, sum-set ts place spent gain at)

-- The time of the last change, or the start where there is none.
abbrev pub end_of : ℕ → List Change → ℕ
end_of start [] = start
end_of start ((now, _) ∷ changes) = end_of now changes

-- A run of changes between states of the array, in the order of their times, accounts for the time from
-- the start of the record to the last change: no time is counted twice, and each change loses less than
-- a millisecond. The record is left in a stay that starts at the last change.
pub run_changes_total :
    (changes : List Change) (current : ℕ) (r : StatsRecord)
    → IsIn current r
    → All (λ (c : Change). c.1 < length r.time_in_state_ms) changes
    → InOrder r.cur_state_start_time changes
    → (r' : StatsRecord) × (run_changes changes r ≡ some r')
      × (r'.cur_state_start_time ≡ end_of r.cur_state_start_time changes)
      × (sum r'.time_in_state_ms * 1_000_000 + r.cur_state_start_time
          ≤ sum r.time_in_state_ms * 1_000_000 + end_of r.cur_state_start_time changes)
      × (sum r.time_in_state_ms * 1_000_000 + end_of r.cur_state_start_time changes
          ≤ sum r'.time_in_state_ms * 1_000_000
            + r.cur_state_start_time
            + length changes * 1_000_000)
unfolding run_changes
run_changes_total [] current r here within order = (r, refl, refl, omega arith, omega arith)
run_changes_total ((now, next) ∷ changes) current r here within order =
    let gain = (now - r.cur_state_start_time) / 1_000_000 in
    let (spent, found) = get_elem?-lt r.time_in_state_ms current here.1 in
    let size = length-moved now current spent (pos next) r in
    let added = sum-set r.time_in_state_ms current spent gain found in
    let r1 = moved now (pos next) current spent r in
    let (r', run, ended, upper, lower) =
      run_changes_total changes next r1 (refl, rw size within.0) (rw size within.1) order.1 in
    (
      r',
      rw (update_lem now current spent (pos next) r here.0 found) run,
      ended,
      omega (arith, order.0),
      omega (arith, order.0),
    )
