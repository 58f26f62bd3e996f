-- ===== src/Severity/Hysteresis.antt =====
-- `getSeverityFromThresholds` against its purpose: a severity is entered at its threshold and left at
-- its threshold less the hysteresis.
use mathlib.Core.Path.{ap₂}
use hardware_mediatek.Base.{Bool, true, false, ◌≡◌, ◌≢◌, refl, ◌≤◌, ◌<◌, ◌⊎◌, arith, if◌then◌else◌}
use hardware_mediatek.Floats.{Float, IsOrdered, ◌≼◌}
use hardware_mediatek.ThermalInfo.{ThrottlingSeverity, ThrottlingArray, index, sev_lt}
use hardware_mediatek.Severity.{
  hot_reached, hot_held, cold_reached, cold_held, get_severity_from_thresholds,
}
use hardware_mediatek.Severity.Highest.{
  IsHighest, highest, highest-IsHighest, IsHighest-unique, chosen-le_prev, chosen_settled,
  above-ne_none,
}

module _ {ℓ} {W : Type ℓ} ⦃f : Float W⦄ (hot cold hot_hyst cold_hyst : ThrottlingArray W) where
  abbrev pub get :
      ThrottlingSeverity → ThrottlingSeverity → W → ThrottlingSeverity × ThrottlingSeverity
  get = get_severity_from_thresholds hot cold hot_hyst cold_hyst

  abbrev pub reached : W → ThrottlingSeverity → Bool
  reached = hot_reached hot cold hot_hyst cold_hyst

  abbrev pub held : W → ThrottlingSeverity → Bool
  held = hot_held hot cold hot_hyst cold_hyst

  abbrev pub cold_hit : W → ThrottlingSeverity → Bool
  cold_hit = cold_reached hot cold hot_hyst cold_hyst

  abbrev pub cold_kept : W → ThrottlingSeverity → Bool
  cold_kept = cold_held hot cold hot_hyst cold_hyst

  get-eq-highest :
      (prev_hot prev_cold : ThrottlingSeverity) (value : W)
      → get prev_hot prev_cold value ≡ (
        if sev_lt (highest (reached value)) prev_hot
            then highest (held value)
            else highest (reached value),
        if sev_lt (highest (cold_hit value)) prev_cold
            then highest (cold_kept value)
            else highest (cold_hit value),
      )
  unfolding get_severity_from_thresholds highest
  get-eq-highest prev_hot prev_cold value = refl

  -- The hot status is the highest severity whose threshold the reading has reached, or, where that is
  -- below the previous status, the highest whose threshold less its hysteresis the reading exceeds.
  -- The cold status mirrors it.
  pub get_severity_lem :
      (prev_hot prev_cold : ThrottlingSeverity) (value : W)
      (top kept low low_kept : ThrottlingSeverity)
      → IsHighest (reached value) top
      → IsHighest (held value) kept
      → IsHighest (cold_hit value) low
      → IsHighest (cold_kept value) low_kept
      → get prev_hot prev_cold value ≡ (
        if sev_lt top prev_hot then kept else top,
        if sev_lt low prev_cold then low_kept else low,
      )
  get_severity_lem prev_hot prev_cold value top kept low low_kept a b c d =
      rw
        (
          IsHighest-unique _ top _ a (highest-IsHighest (reached value)),
          IsHighest-unique _ kept _ b (highest-IsHighest (held value)),
          IsHighest-unique _ low _ c (highest-IsHighest (cold_hit value)),
          IsHighest-unique _ low_kept _ d (highest-IsHighest (cold_kept value)),
        )
        (get-eq-highest prev_hot prev_cold value)

  -- The thresholds that the configuration accepts: a hot threshold stays below the release point of
  -- each one above it.
  abbrev pub IsSeparated : Type 0
  IsSeparated =
      (j k : ThrottlingSeverity)
      → index j < index k
      → f.isnan (hot j) ≡ false
      → f.isnan (hot k) ≡ false
      → hot j ≼ f.sub (hot k) (hot_hyst k)

  -- A reading on a threshold is above the release point.
  abbrev pub HoldsReached : W → Type 0
  HoldsReached value =
      ((t : ThrottlingSeverity) → reached value t ≡ true → held value t ≡ true)
      × ((t : ThrottlingSeverity) → cold_hit value t ≡ true → cold_kept value t ≡ true)

module _ {ℓ} {W : Type ℓ} ⦃f : Float W⦄ (hot cold hot_hyst cold_hyst : ThrottlingArray W) where
  abbrev top_of : W → ThrottlingSeverity
  top_of value = highest (reached hot cold hot_hyst cold_hyst value)

  abbrev kept_of : W → ThrottlingSeverity
  kept_of value = highest (held hot cold hot_hyst cold_hyst value)

  module _ (laws : IsOrdered W) where
    open laws use {lt_number, le_trans, le_total, lt-eq-not-le}

    lt→le : (x y : W) → f.lt x y ≡ true → x ≼ y
    lt→le x y h =
        let n = lt_number x y h in ground (arith, le_total x y n.0 n.1, lt-eq-not-le x y n.0 n.1)

    -- If the release point of a higher severity is exceeded, the lower thresholds are reached.
    reached_of_held :
        (value : W) (j k : ThrottlingSeverity)
        → IsSeparated hot cold hot_hyst cold_hyst
        → index j < index k
        → f.isnan (hot j) ≡ false
        → held hot cold hot_hyst cold_hyst value k ≡ true
        → reached hot cold hot_hyst cold_hyst value j ≡ true
    reached_of_held value j k sep lt nj h = ground (
      arith,
      sep j k lt nj,
      lt→le (f.sub (hot k) (hot_hyst k)) value,
      le_trans (hot j) (f.sub (hot k) (hot_hyst k)) value,
    )

    -- Where the comparisons are those of IEEE 754 and the thresholds are separated, and the previous hot
    -- status is NONE or has a threshold, a reading that leaves that status never takes it up: the new
    -- status is no higher than the previous one, or its own threshold is reached.
    pub hot-le-prev :
        (prev_hot prev_cold : ThrottlingSeverity) (value : W)
        → IsSeparated hot cold hot_hyst cold_hyst
        → (prev_hot ≢ ThrottlingSeverity.none → f.isnan (hot prev_hot) ≡ false)
        → let r = (get hot cold hot_hyst cold_hyst prev_hot prev_cold value).0 in
          (index r ≤ index prev_hot) ⊎ (reached hot cold hot_hyst cold_hyst value r ≡ true)
    hot-le-prev prev_hot prev_cold value sep np =
        rw (get-eq-highest hot cold hot_hyst cold_hyst prev_hot prev_cold value) (
          chosen-le_prev (reached hot cold hot_hyst cold_hyst value)
            (held hot cold hot_hyst cold_hyst value) (top_of value) (kept_of value) prev_hot
            (highest-IsHighest _) (highest-IsHighest _)
            (λ fell up.
              reached_of_held value prev_hot (kept_of value) sep up
                (np (above-ne_none (top_of value) prev_hot fell))))

  -- Where a reading on a threshold is above its release point, a second evaluation of the same
  -- reading changes nothing: the status does not flap.
  pub get_settled :
      (prev_hot prev_cold : ThrottlingSeverity) (value : W)
      → HoldsReached hot cold hot_hyst cold_hyst value
      → let r = get hot cold hot_hyst cold_hyst prev_hot prev_cold value in
        get hot cold hot_hyst cold_hyst r.0 r.1 value ≡ r
  get_settled prev_hot prev_cold value (up, down) =
      rw
        (
          get-eq-highest hot cold hot_hyst cold_hyst prev_hot prev_cold value,
          get-eq-highest hot cold hot_hyst cold_hyst _ _ value,
        )
        (ap₂ (λ x y. (x, y))
          (chosen_settled _ _ _ _ prev_hot (highest-IsHighest _) (highest-IsHighest _) up)
          (chosen_settled _ _ _ _ prev_cold (highest-IsHighest _) (highest-IsHighest _) down))
