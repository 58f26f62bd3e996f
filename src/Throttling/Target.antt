-- ===== src/Throttling/Target.antt =====
-- `getTargetStateOfPID` against its purpose: the control target is the next configured severity above
-- the current one, or else the highest configured severity.
use hardware_mediatek.Base.{
  ℕ, suc, true, false, List, [], ◌∷◌, ◌≡◌, refl, ◌≤◌, ◌<◌, ◌⊎◌, inl, inr, arith, All, Bool-cases,
  ltb→lt, subst, sym, if◌then◌else◌,
}
use hardware_mediatek.Floats.{Float}
use hardware_mediatek.ThermalInfo.{ThrottlingSeverity, ThrottlingArray, index, severities, sev_lt}
use hardware_mediatek.Throttling.Pid.{target_loop, get_target_state_of_pid}

-- The list climbs from `n`.
abbrev Climbs : ℕ → List ThrottlingSeverity → Type 0
Climbs n [] = Unit
Climbs n (s ∷ ss) = (n ≤ index s) × Climbs (suc (index s)) ss

All_severities :
    (P : ThrottlingSeverity → Type 0) → All P severities → (s : ThrottlingSeverity) → P s
All_severities P a ThrottlingSeverity.none = a.0
All_severities P a ThrottlingSeverity.light = a.1.0
All_severities P a ThrottlingSeverity.moderate = a.1.1.0
All_severities P a ThrottlingSeverity.severe = a.1.1.1.0
All_severities P a ThrottlingSeverity.critical = a.1.1.1.1.0
All_severities P a ThrottlingSeverity.emergency = a.1.1.1.1.1.0
All_severities P a ThrottlingSeverity.shutdown = a.1.1.1.1.1.1.0

module _ {ℓ} {W : Type ℓ} ⦃f : Float W⦄ (s_power : ThrottlingArray W)
    (curr : ThrottlingSeverity) where
  abbrev pub IsConfigured : ThrottlingSeverity → Type 0
  IsConfigured s = f.isnan (s_power s) ≡ false

  -- What a configured severity says of the target `t`.
  abbrev pub Bounds : ThrottlingSeverity → ThrottlingSeverity → Type 0
  Bounds t s =
      IsConfigured s
      → ((index s ≤ index curr → index s ≤ index t)
          × (index curr < index s → (index t ≤ index s) × (index curr < index t)))

  abbrev loop : List ThrottlingSeverity → ThrottlingSeverity → ThrottlingSeverity
  loop = target_loop s_power curr

  -- The loop never goes down from where it stands.
  loop-ge :
      (n : ℕ) (ss : List ThrottlingSeverity) (t : ThrottlingSeverity)
      → Climbs n ss
      → index t ≤ n
      → index t ≤ index (target_loop s_power curr ss t)
  unfolding target_loop
  loop-ge n [] t c h = omega arith
  loop-ge n (s ∷ ss) t c h =
      let u = if f.isnan (s_power s) then t else s in
      ground (arith, loop-ge (suc (index s)) ss u c.1)

  broken-Bounds :
      (n : ℕ) (ss : List ThrottlingSeverity) (s : ThrottlingSeverity)
      → Climbs n ss
      → index s < n
      → index curr < index s
      → All (Bounds s) ss
  broken-Bounds n [] s c h up = tt
  broken-Bounds n (x ∷ xs) s c h up =
      (λ _. omega arith, broken-Bounds (suc (index x)) xs s c.1 (omega arith) up)

  module _ (s : ThrottlingSeverity) (ss : List ThrottlingSeverity) (t : ThrottlingSeverity) where
    loop_skip : f.isnan (s_power s) ≡ true → loop (s ∷ ss) t ≡ loop ss t
    unfolding target_loop
    loop_skip e = rw e

    loop_break : IsConfigured s → sev_lt curr s ≡ true → loop (s ∷ ss) t ≡ s
    unfolding target_loop
    loop_break e up = rw (e, up)

    loop_next : IsConfigured s → sev_lt curr s ≡ false → loop (s ∷ ss) t ≡ loop ss s
    unfolding target_loop
    loop_next e up = rw (e, up)

  loop-Bounds :
      (n : ℕ) (ss : List ThrottlingSeverity) (t : ThrottlingSeverity)
      → Climbs n ss
      → index t ≤ n
      → All (Bounds (loop ss t)) ss
  loop-Bounds n [] t c h = tt
  loop-Bounds n (s ∷ ss) t c h = elim (Bool-cases (f.isnan (s_power s))) [
    | inl skip ↦
        subst (λ r. All (Bounds r) (s ∷ ss)) (sym (loop_skip s ss t skip))
          (λ e. cc, loop-Bounds (suc (index s)) ss t c.1 (omega arith))
    | inr use_s ↦ elim (Bool-cases (sev_lt curr s)) [
      | inl up ↦
          let above : index curr < index s = ltb→lt _ _ up in
          subst (λ r. All (Bounds r) (s ∷ ss)) (sym (loop_break s ss t use_s up))
            (λ _. omega arith, broken-Bounds (suc (index s)) ss s c.1 (omega arith) above)
      | inr not_up ↦
          let ge : index s ≤ index (loop ss s) = loop-ge (suc (index s)) ss s c.1 (omega arith) in
          let below : index s ≤ index curr = ground arith in
          subst (λ r. All (Bounds r) (s ∷ ss)) (sym (loop_next s ss t use_s not_up))
            (λ _. omega arith, loop-Bounds (suc (index s)) ss s c.1 (omega arith))
    ]
  ]

  loop-IsConfigured :
      (ss : List ThrottlingSeverity) (t : ThrottlingSeverity)
      → (loop ss t ≡ t) ⊎ IsConfigured (loop ss t)
  unfolding target_loop
  loop-IsConfigured [] t = inl refl
  loop-IsConfigured (s ∷ ss) t =
      ground (arith, loop-IsConfigured ss (if f.isnan (s_power s) then t else s))

  target-Bounds : (s : ThrottlingSeverity) → Bounds (loop severities ThrottlingSeverity.none) s
  target-Bounds =
      All_severities (Bounds (loop severities ThrottlingSeverity.none))
        (loop-Bounds 0 severities ThrottlingSeverity.none (omega arith) (omega arith))

  -- The target is configured, or is `NONE`. No configured severity up to the current one is above the
  -- target, and if one is above the current severity, the target is the lowest of those.
  pub get_target_state_of_pid_lem :
      let t = get_target_state_of_pid s_power curr in
      ((t ≡ ThrottlingSeverity.none) ⊎ IsConfigured t)
      × ((s : ThrottlingSeverity)
          → IsConfigured s
          → ((index s ≤ index curr → index s ≤ index t)
              × (index curr < index s → (index t ≤ index s) × (index curr < index t))))
  unfolding get_target_state_of_pid
  get_target_state_of_pid_lem =
      (loop-IsConfigured severities ThrottlingSeverity.none, target-Bounds)
