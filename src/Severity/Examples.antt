-- ===== src/Severity/Examples.antt =====
-- A sensor with a few thresholds, and what its readings give.
use hardware_mediatek.Base.{pos, some, none, ◌≡◌, refl, ◌≤◌, ◌⊎◌, true, ◌+ℤ◌, ◌-ℤ◌, arith}
use hardware_mediatek.Floats.{Whole, whole_float, Whole-IsOrdered}
use hardware_mediatek.ThermalInfo.{ThrottlingSeverity, ThrottlingArray, index}
use hardware_mediatek.Severity.{get_severity_from_thresholds}
use hardware_mediatek.Severity.Highest.{IsHighest}
use hardware_mediatek.Severity.Hysteresis.{
  get, reached, held, cold_hit, cold_kept, IsSeparated, HoldsReached, get_severity_lem, hot-le-prev,
  get_settled,
}

-- Hot at 40 (light), 50 (severe) and 60 (shutdown); no cold thresholds; a hysteresis of 3.
abbrev hot : ThrottlingArray Whole
hot ThrottlingSeverity.light = some (pos 40)
hot ThrottlingSeverity.severe = some (pos 50)
hot ThrottlingSeverity.shutdown = some (pos 60)
hot _ = none

abbrev cold : ThrottlingArray Whole
cold _ = none

abbrev hyst : ThrottlingArray Whole
hyst _ = some (pos 3)

hot_IsSeparated : IsSeparated hot cold hyst hyst
unfolding ◌-ℤ◌
hot_IsSeparated = ground arith

reading_HoldsReached : HoldsReached hot cold hyst hyst (some (pos 48))
unfolding ◌-ℤ◌ ◌+ℤ◌
reading_HoldsReached = ground arith

-- At 48 degrees, coming down from severe, the status stays severe.
falls :
    get hot cold hyst hyst ThrottlingSeverity.severe ThrottlingSeverity.none (some (pos 48))
    ≡ (ThrottlingSeverity.severe, ThrottlingSeverity.none)
unfolding get_severity_from_thresholds ◌-ℤ◌ ◌+ℤ◌
falls = refl

top_IsHighest : IsHighest (reached hot cold hyst hyst (some (pos 48))) ThrottlingSeverity.light
top_IsHighest = ground arith

kept_IsHighest : IsHighest (held hot cold hyst hyst (some (pos 48))) ThrottlingSeverity.severe
unfolding ◌-ℤ◌
kept_IsHighest = ground arith

low_IsHighest : IsHighest (cold_hit hot cold hyst hyst (some (pos 48))) ThrottlingSeverity.none
low_IsHighest = ground arith

low_kept_IsHighest :
    IsHighest (cold_kept hot cold hyst hyst (some (pos 48))) ThrottlingSeverity.none
unfolding ◌+ℤ◌
low_kept_IsHighest = ground arith

get_severity_lem_example :
    get hot cold hyst hyst ThrottlingSeverity.severe ThrottlingSeverity.none (some (pos 48))
    ≡ (ThrottlingSeverity.severe, ThrottlingSeverity.none)
get_severity_lem_example =
    get_severity_lem hot cold hyst hyst ThrottlingSeverity.severe ThrottlingSeverity.none
      (some (pos 48)) ThrottlingSeverity.light ThrottlingSeverity.severe ThrottlingSeverity.none
      ThrottlingSeverity.none top_IsHighest kept_IsHighest low_IsHighest low_kept_IsHighest

hot-le-prev_example :
    let r =
      (get hot cold hyst hyst ThrottlingSeverity.severe ThrottlingSeverity.none
        (some (pos 48))).0 in
    (index r ≤ 3) ⊎ (reached hot cold hyst hyst (some (pos 48)) r ≡ true)
hot-le-prev_example =
    hot-le-prev hot cold hyst hyst Whole-IsOrdered ThrottlingSeverity.severe ThrottlingSeverity.none
      (some (pos 48)) hot_IsSeparated (λ _. refl)

get_settled_example :
    let r =
      get hot cold hyst hyst ThrottlingSeverity.severe ThrottlingSeverity.none (some (pos 48)) in
    get hot cold hyst hyst r.0 r.1 (some (pos 48)) ≡ r
get_settled_example =
    get_settled hot cold hyst hyst ThrottlingSeverity.severe ThrottlingSeverity.none (some (pos 48))
      reading_HoldsReached
