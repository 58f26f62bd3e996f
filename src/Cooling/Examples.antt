-- ===== src/Cooling/Examples.antt =====
-- The fan of the throttling examples, written to.
use hardware_mediatek.Base.{All, List, String, map, ℤ, pos, some, ◌≡◌, refl, [], ◌∷◌, Map, lookup}
use hardware_mediatek.Floats.{Whole, whole_float}
use hardware_mediatek.ThermalInfo.{BindedCdevInfo}
use hardware_mediatek.Throttling.Votes.{get_cdev_max_request}
use hardware_mediatek.Throttling.Examples.{cpu_found, asks, fan_known}
use hardware_mediatek.Throttling.Samples.{fan, fans, bound, asking, two, two-IsConsistent}
use hardware_mediatek.Cooling.{max_cooling_request_check, request_for, update_cooling_devices}
use hardware_mediatek.Cooling.Limits.{
  IsAsked, IsGreatest, RequestsWithin, max_cooling_request_check-RequestsWithin,
  update_cooling_devices_lem,
}

fan_found : lookup "fan" fans ≡ some fan
unfolding lookup
fan_found = refl

-- The greatest request is 2.
writes :
    update_cooling_devices fans two.cdev_all_request_map ("fan" ∷ []) ≡ some (("fan", pos 2) ∷ [])
unfolding update_cooling_devices request_for get_cdev_max_request lookup
writes = refl

max_cooling_request_check-RequestsWithin_example :
    (binded' : Map (BindedCdevInfo Whole)) × (max_cooling_request_check fans bound ≡ some binded')
    × RequestsWithin fans binded'
max_cooling_request_check-RequestsWithin_example =
    max_cooling_request_check-RequestsWithin fans bound fan_known

-- The fan twice: each time the greatest request is written.
fans-IsAsked : All (IsAsked fans two.thermal_throttling_status_map) ("fan" ∷ "fan" ∷ [])
fans-IsAsked =
    let asked : IsAsked fans two.thermal_throttling_status_map "fan" =
      (fan, "cpu", asking, pos 2, fan_found, refl, cpu_found, asks) in
    (asked, (asked, tt))

update_cooling_devices_lem_example :
    (writes : List (String × ℤ)) × (update_cooling_devices fans two.cdev_all_request_map
        ("fan" ∷ "fan" ∷ [])
      ≡ some writes)
    × (map (λ w. w.0) writes ≡ "fan" ∷ "fan" ∷ [])
    × All (IsGreatest two.thermal_throttling_status_map) writes
update_cooling_devices_lem_example =
    update_cooling_devices_lem fans two ("fan" ∷ "fan" ∷ []) two-IsConsistent fans-IsAsked
