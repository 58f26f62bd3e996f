-- ===== src/Emulation/Emulated.antt =====
-- What the emulation requests do to the emulated temperatures: the target gets that of the request, and
-- the marking of the sensors that depend on it changes none.
use mathlib.Core.Option.{some-injective}
use hardware_mediatek.Base.{
  ℕ, zero, suc, ◌≡◌, refl, Bool, false, Option, none, some, List, [], ◌∷◌, String, Map, lookup,
  insert, get_elem?, >>=-eq-some, Bool-cases, inl, inr, subst, sym, ap, ◌∙◌, str_eq, str_eq_iff,
  str_eq_refl, lookup-insert,
}
use hardware_mediatek.ThermalInfo.{SensorInfo}
use hardware_mediatek.Emulation.{
  EmulTemp, OverrideStatus, SensorStatus, Statuses, set_override, with_update, is_linked,
  check_loop, check_update_sensor_for_emul, depth, override, cleared, clear_all,
}

module _ {ℓ} {W : Type ℓ} where
  -- The emulated temperature of a sensor.
  abbrev pub Emulates : Option (EmulTemp W) → Statuses W → String → Type ℓ
  Emulates emul statuses name =
      (s : SensorStatus W) × (lookup name statuses ≡ some s) × (s.override_status.emul_temp ≡ emul)

  -- The emulated temperature of a sensor is not changed.
  abbrev Keeps : Statuses W → Statuses W → String → Type ℓ
  Keeps before after name =
      (emul : Option (EmulTemp W)) → Emulates emul before name → Emulates emul after name

  -- The target has this emulated temperature, and the other sensors have the one that they had.
  abbrev pub Overridden : Option (EmulTemp W) → String → Statuses W → Statuses W → Type ℓ
  Overridden emul target before after =
      Emulates emul after target
      × ((name : String) → str_eq target name ≡ false → Keeps before after name)

  Keeps-same :
      (before after : Statuses W) (name : String) → before ≡ after → Keeps before after name
  Keeps-same before after name same emul has = subst (λ st. Emulates emul st name) same has

  -- An override of another sensor.
  set_override-Keeps_other :
      (change : OverrideStatus W → OverrideStatus W) (target name : String) (st st' : Statuses W)
      → set_override change target st ≡ some st'
      → str_eq target name ≡ false
      → Keeps st st' name
  unfolding set_override
  set_override-Keeps_other change target name st st' run other emul (s, found, same) =
      let (status, _, run') = >>=-eq-some (lookup target st) _ run in
      let new = record status { override_status = change status.override_status } in
      subst (λ m. Emulates emul m name) (some-injective (insert target new st) st' run')
        (s, rw (lookup-insert target name new st, other) found, same)

  -- An override of the sensor itself, where the change leaves this temperature.
  set_override-Emulates :
      (change : OverrideStatus W → OverrideStatus W) (emul : Option (EmulTemp W)) (target : String)
      (st st' : Statuses W)
      → ((s : SensorStatus W)
          → lookup target st ≡ some s
          → (change s.override_status).emul_temp ≡ emul)
      → set_override change target st ≡ some st'
      → Emulates emul st' target
  unfolding set_override
  set_override-Emulates change emul target st st' leaves run =
      let (status, found, run') = >>=-eq-some (lookup target st) _ run in
      let new = record status { override_status = change status.override_status } in
      subst (λ m. Emulates emul m target) (some-injective (insert target new st) st' run')
        (new, rw (lookup-insert target target new st, str_eq_refl target) refl, leaves status found)

  -- The marking of a sensor for an update.
  mark-Keeps :
      (m : Bool) (target name : String) (st st' : Statuses W)
      → set_override (with_update m) target st ≡ some st'
      → Keeps st st' name
  mark-Keeps m target name st st' run emul (s, found, same) =
      elim (Bool-cases (str_eq target name)) [
        | inr other ↦
            set_override-Keeps_other (with_update m) target name st st' run other emul
              (s, found, same)
        | inl hit ↦
            let here = str_eq_iff target name hit in
            subst (Emulates emul st') here (
              set_override-Emulates (with_update m) emul target st st'
                (λ old found'.
                  let old_is : old ≡ s =
                    some-injective old s (sym found' ∙ ap (λ k. lookup k st) here ∙ found) in
                  ap (λ (x : SensorStatus W). x.override_status.emul_temp) old_is ∙ same)
                run)
      ]

  check_loop-Keeps :
      (rec : String → Statuses W → Option (Statuses W)) (target name : String) (m : Bool)
      (infos : Map (SensorInfo W)) (st st' : Statuses W)
      → ((n : String) (a b : Statuses W) → rec n a ≡ some b → Keeps a b name)
      → check_loop rec target m infos st ≡ some st'
      → Keeps st st' name
  unfolding check_loop
  check_loop-Keeps rec target name m [] st st' keeps run =
      Keeps-same st st' name (some-injective st st' run)
  check_loop-Keeps rec target name m ((n, info) ∷ infos) st st' keeps run =
      elim (Bool-cases (is_linked target info)) [
        | inr skip ↦ check_loop-Keeps rec target name m infos st st' keeps (rw skip at run)
        | inl linked ↦
            let (st1, marked, run1) =
              >>=-eq-some (set_override (with_update m) n st) _ (rw linked at run) in
            let (st2, reached, run2) = >>=-eq-some (rec n st1) _ run1 in
            λ emul has.
              check_loop-Keeps rec target name m infos st2 st' keeps run2 emul
                (keeps n st1 st2 reached emul (mark-Keeps m n name st st1 marked emul has))
      ]

  check_update-Keeps :
      (infos : Map (SensorInfo W)) (m : Bool) (fuel : ℕ) (target name : String)
      (st st' : Statuses W)
      → check_update_sensor_for_emul infos m fuel target st ≡ some st'
      → Keeps st st' name
  unfolding check_update_sensor_for_emul
  check_update-Keeps infos m zero target name st st' run = absurd (cc)
  check_update-Keeps infos m (suc fuel) target name st st' run =
      check_loop-Keeps (check_update_sensor_for_emul infos m fuel) target name m infos st st'
        (λ n a b. check_update-Keeps infos m fuel n name a b) run

  -- An override leaves the target with the temperature of its change, and the others with theirs.
  pub override-Emulates :
      (infos : Map (SensorInfo W)) (change : OverrideStatus W → OverrideStatus W)
      (emul : Option (EmulTemp W)) (m : Bool) (target : String) (st st' : Statuses W)
      → ((o : OverrideStatus W) → (change o).emul_temp ≡ emul)
      → override infos change m target st ≡ some st'
      → Overridden emul target st st'
  unfolding override
  override-Emulates infos change emul m target st st' leaves run =
      let (st1, set, run1) = >>=-eq-some (set_override change target st) _ run in
      (
        check_update-Keeps infos m (depth infos) target target st1 st' run1 emul
            (set_override-Emulates change emul target st st1 (λ s _. leaves s.override_status) set),
        λ name other was has.
            check_update-Keeps infos m (depth infos) target name st1 st' run1 was
              (set_override-Keeps_other change target name st st1 set other was has),
      )

  -- The clearing of one sensor leaves the cleared ones cleared.
  clear-Keeps_none :
      (infos : Map (SensorInfo W)) (target name : String) (st st' : Statuses W)
      → override infos cleared false target st ≡ some st'
      → Emulates none st name
      → Emulates none st' name
  clear-Keeps_none infos target name st st' run has =
      let (here, others) =
        override-Emulates infos cleared none false target st st' (λ _. refl) run in
      elim (Bool-cases (str_eq target name)) [
        | inl hit ↦ subst (Emulates none st') (str_eq_iff target name hit) here
        | inr other ↦ others name other none has
      ]

  clear_all-Keeps_none :
      (infos : Map (SensorInfo W)) (names : List String) (name : String) (st st' : Statuses W)
      → clear_all infos names st ≡ some st'
      → Emulates none st name
      → Emulates none st' name
  unfolding clear_all
  clear_all-Keeps_none infos [] name st st' run has =
      Keeps-same st st' name (some-injective st st' run) none has
  clear_all-Keeps_none infos (n ∷ names) name st st' run has =
      let (st1, first, rest) = >>=-eq-some (override infos cleared false n st) _ run in
      clear_all-Keeps_none infos names name st1 st' rest
        (clear-Keeps_none infos n name st st1 first has)

  -- The clearing of all sensors leaves each of them without an emulated temperature.
  pub clear_all-Emulates :
      (infos : Map (SensorInfo W)) (names : List String) (name : String) (i : ℕ)
      (st st' : Statuses W)
      → get_elem? names i ≡ some name
      → clear_all infos names st ≡ some st'
      → Emulates none st' name
  unfolding clear_all
  clear_all-Emulates infos [] name i st st' at run = absurd (cc)
  clear_all-Emulates infos (n ∷ names) name zero st st' at run =
      let (st1, first, rest) = >>=-eq-some (override infos cleared false n st) _ run in
      let here = (override-Emulates infos cleared none false n st st1 (λ _. refl) first).0 in
      clear_all-Keeps_none infos names name st1 st' rest
        (subst (Emulates none st1) (some-injective n name at) here)
  clear_all-Emulates infos (n ∷ names) name (suc i) st st' at run =
      let (st1, _, rest) = >>=-eq-some (override infos cleared false n st) _ run in
      clear_all-Emulates infos names name i st1 st' at rest
