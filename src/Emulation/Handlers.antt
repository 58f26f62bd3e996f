-- ===== src/Emulation/Handlers.antt =====
-- What the emulation requests answer, the temperatures that they set, and the updates they leave pending.
use hardware_mediatek.Base.{
  ℕ, ap, str_eq_iff, str_eq_refl, ◌≡◌, refl, Bool, true, false, none, some, List, [], ◌∷◌, zero,
  suc, get_elem?, subst, String, negsuc, Map, lookup, contains, arith, str_eq, Bool-cases, inl, inr,
}
use mathlib.Core.Option.{some-injective}
use hardware_mediatek.ThermalInfo.{SensorInfo}
use hardware_mediatek.Emulation.{
  OverrideStatus, Statuses, override, emulated, cleared, emul_temp, emul_clear, clear_all, names_of,
}
use hardware_mediatek.Emulation.Spread.{check_update_sensor_for_emul-Spreads}
use hardware_mediatek.Emulation.Emulated.{
  Emulates, Overridden, override-Emulates, clear_all-Emulates,
}
use hardware_mediatek.Emulation.Waiting.{
  Asks, Awaits, Depends, HasStatuses, IsAcyclic, Kept, Kept-refl, Kept-trans, set_override_lem,
}

module _ {ℓ} {W : Type ℓ} (infos : Map (SensorInfo W)) (rank : String → ℕ)
    (acyclic : IsAcyclic infos rank) where
  -- The target and the sensors that depend on it wait for an update.
  abbrev pub Pending : Bool → String → Statuses W → Type ℓ
  Pending m target statuses =
      Awaits m statuses target
      × ((name : String) → Depends infos name target → Awaits m statuses name)

  pub override-Pending :
      (m : Bool) (change : OverrideStatus W → OverrideStatus W) (target : String)
      (statuses : Statuses W)
      → Asks m change
      → HasStatuses infos statuses
      → contains target statuses ≡ true
      → (statuses' : Statuses W) × (override infos change m target statuses ≡ some statuses')
        × Kept m statuses statuses'
        × Pending m target statuses'
  unfolding override
  override-Pending m change target statuses asks known h =
      let (st1, set, kept1, here) = set_override_lem m change target statuses asks h in
      let (st2, run, kept2, reached) =
        check_update_sensor_for_emul-Spreads infos rank m target st1 acyclic
          (λ name info e. kept1.names name (known name info e)) in
      (
        st2,
        rw set run,
        Kept-trans m statuses st1 st2 kept1 kept2,
        (kept2.waits target here, reached),
      )

  -- `emulTemp` refuses an unknown sensor and changes nothing. For a known one it ends: the sensor has
  -- the emulated temperature that is given, without a severity, each other sensor keeps the one that
  -- it had or had not, and the sensor and those that depend on it wait for an update with the given
  -- choice of throttling. No sensor may depend on itself, and each configured one has a status.
  pub emul_temp-Pending :
      (target : String) (temp : W) (max_throttling : Bool) (statuses : Statuses W)
      → HasStatuses infos statuses
      → (contains target statuses ≡ false
          → emul_temp infos target temp max_throttling statuses ≡ some (false, statuses))
        × (contains target statuses ≡ true
            → (statuses' : Statuses W) × (emul_temp infos target temp max_throttling statuses
                ≡ some (true, statuses'))
              × Pending max_throttling target statuses'
              × Overridden
                  (some (record { temp = temp; severity = negsuc 0 }))
                  target
                  statuses
                  statuses')
  unfolding emul_temp
  emul_temp-Pending target temp m statuses known = (
    λ missing. rw (missing, emul_temp) refl,
    λ found.
        let (st, run, _, pending) =
          override-Pending m (emulated temp (negsuc 0) m) target statuses (λ o. (refl, refl)) known
            found in
        (
          st,
          rw (found, emul_temp) (rw run refl),
          pending,
          override-Emulates infos (emulated temp (negsuc 0) m)
              (some (record { temp = temp; severity = negsuc 0 })) m target statuses st (λ _. refl)
              run,
        ),
  )

  clear_all-Kept :
      (names : List String) (statuses : Statuses W)
      → HasStatuses infos statuses
      → ((name : String) → (i : ℕ) → get_elem? names i ≡ some name → contains name statuses ≡ true)
      → (statuses' : Statuses W) × (clear_all infos names statuses ≡ some statuses')
        × Kept false statuses statuses'
        × ((name : String) (i : ℕ) → get_elem? names i ≡ some name → Pending false name statuses')
  unfolding clear_all
  clear_all-Kept [] statuses known all =
      (statuses, refl, Kept-refl false statuses, λ name i e. absurd (nothing_at name i e))
    where
      nothing_at : (name : String) (i : ℕ) → none ≡ some name → ⊥
      nothing_at name i e = cc
  clear_all-Kept (n ∷ names) statuses known all =
      let (st1, run1, kept1, pending1) =
        override-Pending false cleared n statuses (λ o. (refl, refl)) known (all n 0 refl) in
      let (st2, run2, kept2, pending2) =
        clear_all-Kept names st1 (λ name info e. kept1.names name (known name info e))
          (λ name i e. kept1.names name (all name (suc i) e)) in
      (
        st2,
        rw run1 run2,
        Kept-trans false statuses st1 st2 kept1 kept2,
        at_place n names st2
            (kept2.waits n pending1.0, λ name depends. kept2.waits name (pending1.1 name depends))
            pending2,
      )
    where
      at_place :
          (n : String) (names : List String) (st : Statuses W)
          → Pending false n st
          → ((name : String) (i : ℕ) → get_elem? names i ≡ some name → Pending false name st)
          → (name : String) (i : ℕ) → get_elem? (n ∷ names) i ≡ some name
          → Pending false name st
      at_place n names st here later name zero e =
          subst (λ c. Pending false c st) (some-injective n name e) here
      at_place n names st here later name (suc i) e = later name i e

  -- Every name of the map is among its names.
  names_of-found :
      (statuses : Statuses W) (name : String) (i : ℕ)
      → get_elem? (names_of statuses) i ≡ some name
      → contains name statuses ≡ true
  unfolding lookup
  names_of-found [] name i e = cc
  names_of-found ((n, s) ∷ statuses) name zero e =
      ground (arith, some-injective n name e, str_eq_refl name)
  names_of-found ((n, s) ∷ statuses) name (suc i) e =
      ground (arith, names_of-found statuses name i e)

  names_of-all :
      (statuses : Statuses W) (name : String)
      → contains name statuses ≡ true
      → (i : ℕ) × (get_elem? (names_of statuses) i ≡ some name)
  unfolding lookup
  names_of-all [] name h = cc
  names_of-all ((n, s) ∷ statuses) name h = elim (Bool-cases (str_eq n name)) [
    | inl e ↦ (zero, ap some (str_eq_iff n name e))
    | inr e ↦ let (i, at) = names_of-all statuses name (ground arith) in (suc i, at)
  ]

  -- `emulClear` of `all` ends, and no sensor has an emulated temperature any more; each waits for an
  -- update. Of a known sensor it ends too: that sensor has none, each other one keeps its own, and the
  -- sensor and those that depend on it wait for an update. An unknown one it refuses, and changes
  -- nothing. No sensor may depend on itself, and each configured one has a status.
  pub emul_clear-Pending :
      (target : String) (statuses : Statuses W)
      → HasStatuses infos statuses
      → (str_eq target "all" ≡ true
          → (statuses' : Statuses W) × (emul_clear infos target statuses ≡ some (true, statuses'))
            × ((name : String)
                → contains name statuses ≡ true
                → Awaits false statuses' name × Emulates none statuses' name))
        × (str_eq target "all" ≡ false
            → contains target statuses ≡ true
            → (statuses' : Statuses W) × (emul_clear infos target statuses ≡ some (true, statuses'))
              × Pending false target statuses'
              × Overridden none target statuses statuses')
        × (str_eq target "all" ≡ false
            → contains target statuses ≡ false
            → emul_clear infos target statuses ≡ some (false, statuses))
  unfolding emul_clear
  emul_clear-Pending target statuses known = (
    λ all.
        let (st, run, _, pending) =
          clear_all-Kept (names_of statuses) statuses known (names_of-found statuses) in
        (
          st,
          rw all (rw run refl),
          λ name found.
              let (i, at) = names_of-all statuses name found in
              (
                (pending name i at).0,
                clear_all-Emulates infos (names_of statuses) name i statuses st at run,
              ),
        ),
    λ one found.
        let (st, run, _, pending) =
          override-Pending false cleared target statuses (λ o. (refl, refl)) known found in
        (
          st,
          rw one (rw (found, emul_clear) (rw run refl)),
          pending,
          override-Emulates infos cleared none false target statuses st (λ _. refl) run,
        ),
    λ one missing. rw one (rw (missing, emul_clear) refl),
  )
