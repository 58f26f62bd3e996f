-- ===== src/Severity/Highest.antt =====
-- What the loop of `getSeverityFromThresholds` finds: the highest severity that passes each test.
use hardware_mediatek.Base.{
  List, [], ◌∷◌, Bool, true, false, ◌≡◌, ◌≢◌, ◌<◌, ◌⊎◌, inl, inr, arith, ◌≤◌, if◌then◌else◌,
  Bool-cases, ltb→lt, subst, sym,
}
use hardware_mediatek.ThermalInfo.{
  ThrottlingSeverity, index, severities_down, index_injective, sev_lt,
}
use hardware_mediatek.Severity.{keep_first}

-- `s` passes the test, or is `NONE`; nothing above it passes.
abbrev pub IsHighest : (ThrottlingSeverity → Bool) → ThrottlingSeverity → Type 0
IsHighest p s =
    (s ≢ ThrottlingSeverity.none → p s ≡ true)
    × ((t : ThrottlingSeverity) → index s < index t → p t ≡ false)

-- One variable of the loop.
pick :
    (ThrottlingSeverity → Bool) → List ThrottlingSeverity → ThrottlingSeverity → ThrottlingSeverity
pick p [] ret = ret
pick p (i ∷ is) ret = pick p is (keep_first (p i) i ret)

unfoldable pub highest : (ThrottlingSeverity → Bool) → ThrottlingSeverity
unfolding pick
highest p = pick p severities_down ThrottlingSeverity.none

highest_above :
    (p : ThrottlingSeverity → Bool) (t : ThrottlingSeverity)
    → index (highest p) < index t
    → p t ≡ false
unfolding highest
highest_above p ThrottlingSeverity.none h = absurd (omega arith)
highest_above p ThrottlingSeverity.light h = ground arith
highest_above p ThrottlingSeverity.moderate h = ground arith
highest_above p ThrottlingSeverity.severe h = ground arith
highest_above p ThrottlingSeverity.critical h = ground arith
highest_above p ThrottlingSeverity.emergency h = ground arith
highest_above p ThrottlingSeverity.shutdown h = ground arith

highest_passes :
    (p : ThrottlingSeverity → Bool) → (highest p ≡ ThrottlingSeverity.none) ⊎ (p (highest p) ≡ true)
unfolding highest
highest_passes p = ground arith

pub highest-IsHighest : (p : ThrottlingSeverity → Bool) → IsHighest p (highest p)
highest-IsHighest p =
    (λ ne. elim (highest_passes p) [ inl e ↦ absurd (ne e) | inr e ↦ e ], highest_above p)

-- There is only one such severity.
pub IsHighest-unique :
    (p : ThrottlingSeverity → Bool) (s t : ThrottlingSeverity)
    → IsHighest p s
    → IsHighest p t
    → s ≡ t
IsHighest-unique p s t hs ht = index_injective s t (
    grind (
      arith,
      hs.1 t,
      ht.1 s,
      λ (e : index s < index t). hs.1 t e,
      λ (e : index t < index s). ht.1 s e,
    ))

pub above-ne_none : (s t : ThrottlingSeverity) → index s < index t → t ≢ ThrottlingSeverity.none
above-ne_none s t h e = subst (λ u. index s < index u → ⊥) (sym e) (λ k. omega arith) h

-- The choice that follows the loop.
abbrev pub chosen :
    ThrottlingSeverity → ThrottlingSeverity → ThrottlingSeverity → ThrottlingSeverity
chosen top kept prev = if sev_lt top prev then kept else top

module _ (p q : ThrottlingSeverity → Bool) (top kept : ThrottlingSeverity) where
  pub chosen-le_prev :
      (prev : ThrottlingSeverity)
      → IsHighest p top
      → IsHighest q kept
      → (index top < index prev → index prev < index kept → q kept ≡ true → p prev ≡ true)
      → (index (chosen top kept prev) ≤ index prev) ⊎ (p (chosen top kept prev) ≡ true)
  chosen-le_prev prev a b lower = elim (Bool-cases (sev_lt top prev)) [
    | inl e ↦ rw e (inl (fallen (ltb→lt _ _ e)))
    | inr e ↦ rw e (entered e)
  ]
    where
      fallen : index top < index prev → index kept ≤ index prev
      fallen lt = elim (Bool-cases (sev_lt prev kept)) [
        | inl e ↦
            let up : index prev < index kept = ltb→lt _ _ e in
            cc (a.1 prev lt, lower lt up (b.0 (above-ne_none prev kept up)))
        | inr e ↦ ground arith
      ]

      entered : sev_lt top prev ≡ false → (index top ≤ index prev) ⊎ (p top ≡ true)
      entered e = elim (Bool-cases (sev_lt ThrottlingSeverity.none top)) [
        | inl g ↦ inr (a.0 (above-ne_none ThrottlingSeverity.none top (ltb→lt _ _ g)))
        | inr g ↦ inl (ground arith)
      ]

  pub chosen_settled :
      (prev : ThrottlingSeverity)
      → IsHighest p top
      → IsHighest q kept
      → ((t : ThrottlingSeverity) → p t ≡ true → q t ≡ true)
      → chosen top kept (chosen top kept prev) ≡ chosen top kept prev
  chosen_settled prev a b sub = elim (Bool-cases (sev_lt top prev)) [
    | inl e ↦ rw e again
    | inr e ↦ rw e same
  ]
    where
      same : chosen top kept top ≡ top
      same = ground arith

      not_below : index kept < index top → ⊥
      not_below lt = cc (b.1 top lt, sub top (a.0 (above-ne_none kept top lt)))

      again : chosen top kept kept ≡ kept
      again = elim (Bool-cases (sev_lt top kept)) [
        | inl e ↦ rw e
        | inr e ↦ rw e (
            index_injective top kept (elim (Bool-cases (sev_lt kept top)) [
              | inl g ↦ absurd (not_below (ltb→lt _ _ g))
              | inr g ↦ ground arith
            ]))
      ]
