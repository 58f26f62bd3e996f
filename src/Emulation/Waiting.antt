-- ===== src/Emulation/Waiting.antt =====
-- Which sensors depend on a sensor, and which wait for an update.
use hardware_mediatek.Base.{
  ℕ, ◌<◌, ◌≤◌, ◌≡◌, refl, Bool, true, some, String, inl, inr, Map, lookup, insert, contains,
  get_elem?, length, arith, Bool-cases, subst, str_eq, str_eq_iff, str_eq_refl, lookup-insert,
  contains-lookup,
}
use hardware_mediatek.ThermalInfo.{SensorInfo}
use hardware_mediatek.Emulation.{OverrideStatus, SensorStatus, Statuses, set_override, is_linked}

module _ {ℓ} {W : Type ℓ} where
  -- A sensor of the configuration.
  abbrev pub Entry : String → SensorInfo W → Map (SensorInfo W) → Type ℓ
  Entry name info infos = (i : ℕ) × (get_elem? infos i ≡ some (name, info))

  -- The watched sensor `name` reads the sensor that is the index, itself or through others.
  pub data Depends (infos : Map (SensorInfo W)) (name : String) : String → Type ℓ where
    direct :
        {target : String} (info : SensorInfo W)
        → Entry name info infos
        → is_linked target info ≡ true
        → Depends infos name target
    through :
        {target : String} (mid : String) (info : SensorInfo W)
        → Entry mid info infos
        → is_linked target info ≡ true
        → Depends infos name mid
        → Depends infos name target

  -- The sensor waits for an update with this choice of throttling.
  abbrev pub Awaits : Bool → Statuses W → String → Type ℓ
  Awaits max_throttling statuses name =
      (status : SensorStatus W) × (lookup name statuses ≡ some status)
      × (status.override_status.pending_update ≡ true)
      × (status.override_status.max_throttling ≡ max_throttling)

  -- No sensor depends on itself: the linked sensors of a sensor have a lower rank.
  pub record IsAcyclic (infos : Map (SensorInfo W)) (rank : String → ℕ) : Type ℓ where
    pub bounded : (name : String) → rank name ≤ length infos
    pub climbs :
        (name target : String) (info : SensorInfo W)
        → Entry name info infos
        → is_linked target info ≡ true
        → rank target < rank name

  -- Each configured sensor has a status.
  abbrev pub HasStatuses : Map (SensorInfo W) → Statuses W → Type ℓ
  HasStatuses infos statuses =
      (name : String) (info : SensorInfo W) → Entry name info infos → contains name statuses ≡ true

  -- What a step leaves: the names stay, and so does what waits for an update.
  pub record Kept (max_throttling : Bool) (before after : Statuses W) : Type ℓ where
    pub names : (name : String) → contains name before ≡ true → contains name after ≡ true
    pub waits :
        (name : String) → Awaits max_throttling before name → Awaits max_throttling after name

  -- A change that asks for an update.
  abbrev pub Asks : Bool → (OverrideStatus W → OverrideStatus W) → Type ℓ
  Asks m change =
      (o : OverrideStatus W) → ((change o).pending_update ≡ true) × ((change o).max_throttling ≡ m)

  pub set_override_lem :
      (m : Bool) (change : OverrideStatus W → OverrideStatus W) (name : String)
      (statuses : Statuses W)
      → Asks m change
      → contains name statuses ≡ true
      → (statuses' : Statuses W) × (set_override change name statuses ≡ some statuses')
        × Kept m statuses statuses'
        × Awaits m statuses' name
  unfolding set_override
  set_override_lem m change name statuses asks h =
      let (status, found) = contains-lookup name statuses h in
      let status' = record status { override_status = change status.override_status } in
      let now = lookup-insert name name status' statuses in
      let here : Awaits m (insert name status' statuses) name = (
        status',
        rw (now, str_eq_refl name) refl,
        (asks status.override_status).0,
        (asks status.override_status).1,
      ) in
      (
        insert name status' statuses,
        rw found refl,
        record {
          names = λ j known. ground (arith, lookup-insert name j status' statuses);
          waits = λ j (s, at, p, q). elim (Bool-cases (str_eq name j)) [
            | inl e ↦ subst (Awaits m (insert name status' statuses)) (str_eq_iff name j e) here
            | inr e ↦ (s, rw (lookup-insert name j status' statuses, e) at, p, q)
          ];
        },
        here,
      )

  pub Kept-refl : (m : Bool) (s : Statuses W) → Kept m s s
  Kept-refl m s = record { names = λ _ h. h; waits = λ _ h. h }

  pub Kept-trans : (m : Bool) (a b c : Statuses W) → Kept m a b → Kept m b c → Kept m a c
  Kept-trans m a b c f g = record {
    names = λ n h. g.names n (f.names n h);
    waits = λ n h. g.waits n (f.waits n h);
  }
