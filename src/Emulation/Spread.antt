-- ===== src/Emulation/Spread.antt =====
-- The emulation of a sensor reaches every watched sensor that depends on it.
use mathlib.Core.Option.{some-injective}
use hardware_mediatek.Base.{
  ℕ, zero, suc, ◌+◌, ◌<◌, ◌≡◌, refl, Bool, true, false, Option, some, [], ◌∷◌, String, ◌⊎◌, inl,
  inr, Map, length, arith, Bool-cases, subst, sym, ap, ◌∙◌,
}
use hardware_mediatek.ThermalInfo.{SensorInfo}
use hardware_mediatek.Emulation.{
  Statuses, with_update, is_linked, check_loop, check_update_sensor_for_emul, depth,
}
use hardware_mediatek.Emulation.Waiting.{
  direct, through, Entry, Depends, Awaits, IsAcyclic, HasStatuses, Kept, Kept-refl, Kept-trans,
  set_override_lem,
}

not_both : (b : Bool) → b ≡ true → b ≡ false → ⊥
not_both b h k = cc

module _ {ℓ} {W : Type ℓ} where
  -- A run that completes, with the sensors that wait for an update after it.
  abbrev pub Spreads : Bool → Statuses W → (String → Type ℓ) → Option (Statuses W) → Type ℓ
  Spreads m statuses reached run =
      (statuses' : Statuses W) × (run ≡ some statuses')
      × Kept m statuses statuses'
      × ((name : String) → reached name → Awaits m statuses' name)

  module _ (infos : Map (SensorInfo W)) (m : Bool) (rec : String → Statuses W → Option (Statuses W))
      (target : String)
      (step : (name : String) (info : SensorInfo W) (statuses : Statuses W)
        → Entry name info infos
        → is_linked target info ≡ true
        → HasStatuses infos statuses
        → Spreads m statuses (λ far. Depends infos far name) (rec name statuses)) where
    -- What the loop reaches: the sensors linked to the target, and what they reach.
    abbrev Linked : Map (SensorInfo W) → String → Type ℓ
    Linked rest name =
        (mid : String) × (info : SensorInfo W) × Entry mid info rest
        × (is_linked target info ≡ true)
        × ((mid ≡ name) ⊎ Depends infos name mid)

    nowhere : (mid : String) (info : SensorInfo W) → Entry mid info [] → ⊥
    nowhere mid info (i, e) = cc

    -- What a longer configuration reaches, its first sensor reaches or the others do.
    Linked-cases :
        (n : String) (i : SensorInfo W) (rest : Map (SensorInfo W)) (name : String)
        → Linked ((n, i) ∷ rest) name
        → ((is_linked target i ≡ true) × ((n ≡ name) ⊎ Depends infos name n)) ⊎ Linked rest name
    Linked-cases n i rest name (mid, info, (zero, e), linked, there) =
        let same = some-injective (n, i) (mid, info) e in
        inl (
          ap (λ (x : String × SensorInfo W). is_linked target x.1) same ∙ linked,
          subst (λ c. (c ≡ name) ⊎ Depends infos name c)
              (sym (ap (λ (x : String × SensorInfo W). x.0) same)) there,
        )
    Linked-cases n i rest name (mid, info, (suc k, e), linked, there) =
        inr (mid, info, (k, e), linked, there)

    check_loop-Spreads :
        (rest : Map (SensorInfo W)) (statuses : Statuses W)
        → ((name : String) (info : SensorInfo W) → Entry name info rest → Entry name info infos)
        → HasStatuses infos statuses
        → Spreads m statuses (Linked rest) (check_loop rec target m rest statuses)
    unfolding check_loop
    check_loop-Spreads [] statuses sub known = (
      statuses,
      refl,
      Kept-refl m statuses,
      λ name (mid, info, entry, linked, there). absurd (nowhere mid info entry),
    )
    check_loop-Spreads ((n, i) ∷ rest) statuses sub known =
        let sub' = λ (name : String) (info : SensorInfo W) (e : Entry name info rest).
          sub name info (suc e.0, e.1) in
        elim (Bool-cases (is_linked target i)) [
          | inr skip ↦
              let (st, run, kept, reached) = check_loop-Spreads rest statuses sub' known in
              (
                st,
                rw skip run,
                kept,
                λ name far. elim (Linked-cases n i rest name far) [
                  | inl (linked, _) ↦ absurd (not_both (is_linked target i) linked skip)
                  | inr later ↦ reached name later
                ],
              )
          | inl linked ↦
              let entry = sub n i (zero, refl) in
              let (st1, marked, kept1, here) =
                set_override_lem m (with_update m) n statuses (λ o. (refl, refl))
                  (known n i entry) in
              let known1 = λ (name : String) (info : SensorInfo W) (e : Entry name info infos).
                kept1.names name (known name info e) in
              let (st2, run2, kept2, reached2) = step n i st1 entry linked known1 in
              let known2 = λ (name : String) (info : SensorInfo W) (e : Entry name info infos).
                kept2.names name (known1 name info e) in
              let (st3, run3, kept3, reached3) = check_loop-Spreads rest st2 sub' known2 in
              (
                st3,
                rw linked (rw marked (rw run2 run3)),
                Kept-trans m statuses st1 st3 kept1 (Kept-trans m st1 st2 st3 kept2 kept3),
                λ name far. elim (Linked-cases n i rest name far) [
                  | inl (_, there) ↦ kept3.waits name (elim there [
                    | inl same ↦ kept2.waits name (subst (Awaits m st1) same here)
                    | inr beyond ↦ reached2 name beyond
                  ])
                  | inr later ↦ reached3 name later
                ],
              )
        ]

  check_update-Spreads :
      (infos : Map (SensorInfo W)) (rank : String → ℕ) (m : Bool) (fuel : ℕ) (target : String)
      (statuses : Statuses W)
      → IsAcyclic infos rank
      → length infos < fuel + rank target
      → HasStatuses infos statuses
      → Spreads m statuses
          (λ name. Depends infos name target)
          (check_update_sensor_for_emul infos m fuel target statuses)
  unfolding check_update_sensor_for_emul
  check_update-Spreads infos rank m zero target statuses acyclic enough known =
      absurd (omega (arith, acyclic.bounded target))
  check_update-Spreads infos rank m (suc fuel) target statuses acyclic enough known =
      let (statuses', run, kept, reached) =
        check_loop-Spreads infos m (check_update_sensor_for_emul infos m fuel) target
          (λ name info st entry linked known'.
            check_update-Spreads infos rank m fuel name st acyclic
              (omega (arith, enough, acyclic.climbs name target info entry linked)) known')
          infos statuses (λ name info e. e) known in
      (statuses', run, kept, λ name depends. reached name (first_link infos target name depends))
    where
      first_link :
          (infos : Map (SensorInfo W)) (target name : String)
          → Depends infos name target
          → (mid : String) × (info : SensorInfo W) × Entry mid info infos
            × (is_linked target info ≡ true)
            × ((mid ≡ name) ⊎ Depends infos name mid)
      first_link infos target name (direct info entry linked) =
          (name, info, entry, linked, inl refl)
      first_link infos target name (through mid info entry linked beyond) =
          (mid, info, entry, linked, inr beyond)

  -- Where no sensor depends on itself, the check after the emulation of a sensor ends, and leaves
  -- every watched sensor that depends on it, itself or through others, with an update pending and the
  -- given choice of throttling.
  pub check_update_sensor_for_emul-Spreads :
      (infos : Map (SensorInfo W)) (rank : String → ℕ) (max_throttling : Bool) (target : String)
      (statuses : Statuses W)
      → IsAcyclic infos rank
      → HasStatuses infos statuses
      → (statuses' : Statuses W) × (check_update_sensor_for_emul infos max_throttling
            (depth infos)
            target
            statuses
          ≡ some statuses')
        × Kept max_throttling statuses statuses'
        × ((name : String) → Depends infos name target → Awaits max_throttling statuses' name)
  check_update_sensor_for_emul-Spreads infos rank m target statuses acyclic known =
      check_update-Spreads infos rank m (depth infos) target statuses acyclic (omega arith) known
