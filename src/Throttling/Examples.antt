-- ===== src/Throttling/Examples.antt =====
-- Two sensors that throttle one fan, and what the operations do to their requests.
use hardware_mediatek.Base.{
  ◌-ℤ◌, ℕ, ℤ, pos, some, ◌≡◌, ◌≢◌, refl, ◌≤◌, ◌<◌, ◌⊎◌, true, false, ◌+ℤ◌, Bool, arith, List, [],
  ◌∷◌, String, Map, lookup, insert, contains, map_values, ◌≤ℤ◌, All, get_elem?, ◌↔◌,
}
use hardware_mediatek.Floats.{Whole, whole_float, ◌≼◌}
use hardware_mediatek.ThermalInfo.{ThrottlingSeverity, index}
use hardware_mediatek.Throttling.State.{ThermalThrottling, binded_map}
use hardware_mediatek.Throttling.Votes.{
  get_cdev_max_request, update_cdev_max_request_and_notify_if_change, count, erase, insert_vote,
}
use hardware_mediatek.Throttling.Request.{
  request_state, compute_cooling_devices_request, compute_entries, entry_request, vote,
}
use hardware_mediatek.Throttling.Tally.{Replaced, votes_of, unit_at, tally, update_lem}
use hardware_mediatek.Throttling.Consistency.{
  IsConsistent, requests, AllBound, compute-IsConsistent, get_cdev_max_request_lem,
}
use hardware_mediatek.Throttling.Register.{register_thermal_throttling}
use hardware_mediatek.Throttling.Registration.{register-IsConsistent}
use hardware_mediatek.Throttling.Pid.{Update, get_target_state_of_pid}
use hardware_mediatek.Throttling.Allocate.{assign}
use hardware_mediatek.Throttling.Release.{
  release_loop, release_switch, next_release_step, AllWithin, release_loop-AllWithin,
}
use hardware_mediatek.Throttling.Target.{IsConfigured, get_target_state_of_pid_lem}
use hardware_mediatek.Throttling.Update.{
  thermal_throttling_update, update_by_pid, update_by_severity, update_by_release,
  update_cdev_request_by_severity, state_for_power, update_cdev_request_by_power,
}
use hardware_mediatek.Throttling.PowerState.{state_for_power_lem, by_power_clear}
use hardware_mediatek.Throttling.Updating.{SameRequests, update-IsConsistent}
use hardware_mediatek.Throttling.Steps.{request_state_lem}
use hardware_mediatek.Throttling.Samples.{
  asking, bound, empty, empty-IsConsistent, fans, idle, num, powers, rails, s_power, sensor_info,
  throttling, two, two-IsConsistent,
}

voted : 1 ≤ count (pos 2) (votes_of "fan" two.cdev_all_request_map)
unfolding lookup votes_of count
voted = omega arith

skin_found : lookup "skin" two.thermal_throttling_status_map ≡ some idle
unfolding lookup
skin_found = refl

pub cpu_found : lookup "cpu" two.thermal_throttling_status_map ≡ some asking
unfolding lookup
cpu_found = refl

pub asks : 1 ≤ tally "fan" (pos 2) asking.cdev_status_map
unfolding tally unit_at
asks = omega arith

start-AllWithin : AllWithin fans (("fan", pos 0) ∷ [])
unfolding lookup
start-AllWithin = ground arith

set_budgeted :
    (c : String) → contains c (("fan", pos 3) ∷ []) ≡ true → contains c (("fan", pos 7) ∷ []) ≡ true
unfolding lookup
set_budgeted c h = ground arith

set_after_clear :
    update_cdev_request_by_power fans
      (("fan", pos 7) ∷ [])
      (map_values (λ _. pos 0) (("fan", pos 3) ∷ []))
    ≡ some (("fan", pos 1) ∷ [])
unfolding update_cdev_request_by_power state_for_power assign lookup insert map_values
set_after_clear = refl

set :
    update_cdev_request_by_power fans (("fan", pos 7) ∷ []) (("fan", pos 3) ∷ [])
    ≡ some (("fan", pos 1) ∷ [])
unfolding update_cdev_request_by_power state_for_power assign lookup insert
set = refl

skin_bound : AllBound (binded_map throttling idle.profile) idle.cdev_status_map
unfolding lookup
skin_bound = (refl, tt)

pub fan_known : All (λ e. contains e.0 fans ≡ true) bound
unfolding lookup
fan_known = (refl, tt)

abbrev pub update : Update Whole
update = record {
  value = num 52;
  sensor_info = sensor_info;
  cooling_device_info_map = fans;
  cdev_all_request_map = [];
  time_elapsed_ms = 100;
  curr_severity = ThrottlingSeverity.severe;
  max_throttling = false;
  power_status_map = rails;
  sensor_predictions = [];
}

-- The hard limit of the severity is asked for next, while the request in force stays.
abbrev updated : ThermalThrottling Whole
updated = record {
  thermal_throttling_status_map =
      ("cpu", record asking { hardlimit_cdev_request_map = ("fan", pos 3) ∷ [] })
      ∷ ("skin", idle)
      ∷ [];
  cdev_all_request_map = two.cdev_all_request_map;
}

cpu_updates : thermal_throttling_update "cpu" "" update two ≡ some updated
unfolding thermal_throttling_update update_by_pid update_by_severity update_by_release
    update_cdev_request_by_severity lookup insert
cpu_updates = refl

-- Runs.
largest : get_cdev_max_request "fan" two.cdev_all_request_map ≡ some (pos 2)
unfolding get_cdev_max_request lookup
largest = refl

-- The device is taken to the ceiling by its PID request, and the sensor's old zero gives way.
idle_asks :
    compute_cooling_devices_request "skin" sensor_info ThrottlingSeverity.severe two
    ≡ some (
      record {
        thermal_throttling_status_map =
            ("cpu", asking) ∷ ("skin", record idle { cdev_status_map = ("fan", pos 3) ∷ [] }) ∷ [];
        cdev_all_request_map = ("fan", pos 3 ∷ pos 2 ∷ []) ∷ [];
      },
      "fan" ∷ [],
      ("fan", pos 3) ∷ [],
    )
unfolding compute_cooling_devices_request compute_entries entry_request vote lookup insert
    update_cdev_max_request_and_notify_if_change erase insert_vote request_state
idle_asks = refl

released :
    release_loop fans rails ThrottlingSeverity.light bound (("fan", pos 0) ∷ [])
    ≡ some (true, ("fan", pos 1) ∷ [])
unfolding release_loop next_release_step release_switch ◌+ℤ◌ lookup insert
released = refl

-- Witnesses.
update_lem_example :
    (changed : Bool) × (votes' : Map (List ℤ)) × (update_cdev_max_request_and_notify_if_change "fan"
        (pos 2)
        (pos 1)
        two.cdev_all_request_map
      ≡ some (changed, votes'))
    × Replaced "fan" (pos 2) (pos 1) two.cdev_all_request_map votes'
    × ((changed ≡ false)
        ↔ (get_cdev_max_request "fan" votes' ≡ get_cdev_max_request "fan" two.cdev_all_request_map))
update_lem_example = update_lem "fan" (pos 2) (pos 1) two.cdev_all_request_map voted

compute-IsConsistent_example :
    (t' : ThermalThrottling Whole) × (updates : List String) × (stats : List (String × ℤ))
    × (compute_cooling_devices_request "skin" sensor_info ThrottlingSeverity.severe two
        ≡ some (t', updates, stats))
    × IsConsistent t'
compute-IsConsistent_example =
    compute-IsConsistent "skin" sensor_info throttling ThrottlingSeverity.severe two idle
      two-IsConsistent skin_found refl skin_bound

get_cdev_max_request_lem_example :
    (m : ℤ) × (get_cdev_max_request "fan" two.cdev_all_request_map ≡ some m)
    × (pos 2 ≤ℤ m)
    × (m ≢ pos 0 → 1 ≤ requests "fan" m two.thermal_throttling_status_map)
get_cdev_max_request_lem_example =
    get_cdev_max_request_lem two "cpu" "fan" (pos 2) asking two-IsConsistent cpu_found asks

register-IsConsistent_example :
    IsConsistent (register_thermal_throttling "skin" (some throttling) fans empty).1
register-IsConsistent_example =
    register-IsConsistent "skin" (some throttling) fans empty empty-IsConsistent

release_loop-AllWithin_example :
    (done : Bool) × (steps' : Map ℤ) × (release_loop fans rails ThrottlingSeverity.light bound
        (("fan", pos 0) ∷ [])
      ≡ some (done, steps'))
    × AllWithin fans steps'
release_loop-AllWithin_example =
    release_loop-AllWithin fans rails ThrottlingSeverity.light bound (("fan", pos 0) ∷ []) fan_known
      start-AllWithin

get_target_state_of_pid_lem_example :
    let t = get_target_state_of_pid s_power ThrottlingSeverity.moderate in
    ((t ≡ ThrottlingSeverity.none) ⊎ IsConfigured s_power ThrottlingSeverity.moderate t)
    × ((s : ThrottlingSeverity)
        → IsConfigured s_power ThrottlingSeverity.moderate s
        → ((index s ≤ 2 → index s ≤ index t) × (2 < index s → (index t ≤ index s) × (2 < index t))))
get_target_state_of_pid_lem_example =
    get_target_state_of_pid_lem s_power ThrottlingSeverity.moderate

state_for_power_lem_example :
    let i = state_for_power (num 7) powers in
    (i < 4)
    × ((j : ℕ) (q : Whole) → j < i → get_elem? powers j ≡ some q → whole_float.le q (num 7) ≡ false)
    × ((i ≡ 3) ⊎ ((q : Whole) × (get_elem? powers i ≡ some q) × (q ≼ num 7)))
state_for_power_lem_example = state_for_power_lem (num 7) (num 9) (num 6 ∷ num 6 ∷ num 0 ∷ [])

by_power_clear_example : lookup "fan" (("fan", pos 1) ∷ []) ≡ lookup "fan" (("fan", pos 1) ∷ [])
by_power_clear_example =
    by_power_clear fans (("fan", pos 7) ∷ []) (("fan", pos 3) ∷ []) (("fan", pos 1) ∷ [])
      (("fan", pos 1) ∷ []) set_budgeted set_after_clear set "fan"

request_state_lem_example :
    let r = request_state (pos 2) (pos 4) (pos 1) (pos 2) (pos 5) in
    (r ≤ℤ pos 5)
    × (pos 1 ≡ pos 0 → r ≡ pos 4)
    × ((pos 1 ≡ pos 0 → ⊥) → pos 2 ≤ℤ pos 5 → pos 2 ≤ℤ r)
    × (pos 0 ≤ℤ pos 1 → pos 2 ≤ℤ pos 4 → pos 0 ≤ℤ pos 4 → r ≤ℤ pos 4)
    × ((pos 1 ≡ pos 0 → ⊥) → pos 2 ≤ℤ pos 3 → pos 3 ≤ℤ pos 5 → r ≡ pos 3)
    × ((pos 1 ≡ pos 0 → ⊥) → pos 3 ≤ℤ pos 2 → pos 2 ≤ℤ pos 5 → r ≡ pos 2)
    × ((pos 1 ≡ pos 0 → ⊥) → pos 5 ≤ℤ pos 3 → r ≡ pos 5)
unfolding ◌-ℤ◌
request_state_lem_example = request_state_lem (pos 2) (pos 4) (pos 1) (pos 2) (pos 5)

update-IsConsistent_example :
    IsConsistent updated
    × (updated.cdev_all_request_map ≡ two.cdev_all_request_map)
    × SameRequests two.thermal_throttling_status_map updated.thermal_throttling_status_map
update-IsConsistent_example =
    update-IsConsistent "cpu" "" update two updated two-IsConsistent cpu_updates
