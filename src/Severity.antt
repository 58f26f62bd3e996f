-- ===== src/Severity.antt =====
-- `ThermalHelperImpl::getSeverityFromThresholds` of aidl/thermal/thermal-helper.cpp: the severity of a
-- reading against the hot and cold thresholds of a sensor, with hysteresis.
pub mod Highest
pub mod Hysteresis
pub mod Examples
use hardware_mediatek.Base.{List, [], ◌∷◌, Bool, true, not, ◌&&◌, if◌then◌else◌}
use hardware_mediatek.Floats.{Float}
use hardware_mediatek.ThermalInfo.{
  ThrottlingSeverity, ThrottlingArray, severities_down, sev_lt, sev_eq,
}

-- The four variables of the loop.
pub record Found : Type 0 where
  pub ret_hot : ThrottlingSeverity
  pub ret_hot_hysteresis : ThrottlingSeverity
  pub ret_cold : ThrottlingSeverity
  pub ret_cold_hysteresis : ThrottlingSeverity

abbrev nothing_found : Found
nothing_found = record {
  ret_hot = ThrottlingSeverity.none;
  ret_hot_hysteresis = ThrottlingSeverity.none;
  ret_cold = ThrottlingSeverity.none;
  ret_cold_hysteresis = ThrottlingSeverity.none;
}

-- `if (test && ret == NONE) ret = i;`
abbrev keep_first : Bool → ThrottlingSeverity → ThrottlingSeverity → ThrottlingSeverity
keep_first test i ret = if test && sev_eq ret ThrottlingSeverity.none then i else ret

module _ {ℓ} {W : Type ℓ} ⦃f : Float W⦄ (hot cold hot_hyst cold_hyst : ThrottlingArray W) where
  abbrev pub hot_reached : W → ThrottlingSeverity → Bool
  hot_reached value i = not (f.isnan (hot i)) && f.le (hot i) value

  abbrev pub hot_held : W → ThrottlingSeverity → Bool
  hot_held value i = not (f.isnan (hot i)) && f.lt (f.sub (hot i) (hot_hyst i)) value

  -- `>=` and `>` with their arguments exchanged
  abbrev pub cold_reached : W → ThrottlingSeverity → Bool
  cold_reached value i = not (f.isnan (cold i)) && f.le value (cold i)

  abbrev pub cold_held : W → ThrottlingSeverity → Bool
  cold_held value i = not (f.isnan (cold i)) && f.lt value (f.add (cold i) (cold_hyst i))

  pub scan : W → List ThrottlingSeverity → Found → Found
  scan value [] s = s
  scan value (i ∷ is) s = scan value is (record {
    ret_hot = keep_first (hot_reached value i) i s.ret_hot;
    ret_hot_hysteresis = keep_first (hot_held value i) i s.ret_hot_hysteresis;
    ret_cold = keep_first (cold_reached value i) i s.ret_cold;
    ret_cold_hysteresis = keep_first (cold_held value i) i s.ret_cold_hysteresis;
  })

  unfoldable pub get_severity_from_thresholds :
      (prev_hot prev_cold : ThrottlingSeverity) (value : W)
      → ThrottlingSeverity × ThrottlingSeverity
  unfolding scan
  get_severity_from_thresholds prev_hot prev_cold value =
      let found = scan value severities_down nothing_found in
      (
        if sev_lt found.ret_hot prev_hot then found.ret_hot_hysteresis else found.ret_hot,
        if sev_lt found.ret_cold prev_cold then found.ret_cold_hysteresis else found.ret_cold,
      )
