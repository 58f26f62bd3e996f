-- ===== src/Reading/Safe.antt =====
-- What a reading needs of its configuration, and what it keeps.
use hardware_mediatek.Base.{
  ℕ, ◌≤◌, ◌<◌, ◌≡◌, refl, true, false, Option, some, List, [], ◌∷◌, String, lookup, contains,
  length, insert, lookup-insert, str_eq, str_eq_iff, Bool-cases, inl, inr, ap, sym, ◌∙◌,
}
use hardware_mediatek.ThermalInfo.{
  SensorInfo, VirtualSensorInfo, SensorFusionType, SensorReadStatus, sensor, odpm, constant, cdev,
  okay, under_collecting, error, is_okay,
}
use mathlib.Core.Option.{some-injective}
use hardware_mediatek.Emulation.{SensorStatus, Statuses}
use hardware_mediatek.Predictions.Sound.{IsSound as PredictionsAreSound}
use hardware_mediatek.Stats.State.{max_abnormal_logging_per_update_interval}
use hardware_mediatek.Stats.Sound.{IsSound as StatsAreSound}
use hardware_mediatek.Stats.Limited.{count_of}
use hardware_mediatek.Reading.State.{Inputs, Store}
use hardware_mediatek.Reading.Sensors.{is_ok, is_weighted}

module _ {ℓ} {W : Type ℓ} where
  -- Every sensor keeps a status, with what overrides it.
  abbrev pub SameOverrides : Statuses W → Statuses W → Type ℓ
  SameOverrides before after =
      (name : String) (status : SensorStatus W)
      → lookup name before ≡ some status
      → (status' : SensorStatus W) × (lookup name after ≡ some status')
        × (status'.override_status ≡ status.override_status)

  -- A status that is put in place of one with the same overrides.
  pub SameOverrides-insert :
      (name : String) (status status' : SensorStatus W) (statuses : Statuses W)
      → lookup name statuses ≡ some status
      → status'.override_status ≡ status.override_status
      → SameOverrides statuses (insert name status' statuses)
  SameOverrides-insert name status status' statuses found same j other there =
      elim (Bool-cases (str_eq name j)) [
        | inr e ↦ (other, rw (lookup-insert name j status' statuses, e) there, refl)
        | inl e ↦
            let old : status ≡ other =
              some-injective status other
                (sym found ∙ ap (λ k. lookup k statuses) (str_eq_iff name j e) ∙ there) in
            (
              status',
              rw (lookup-insert name j status' statuses, e) refl,
              same ∙ ap (λ (x : SensorStatus W). x.override_status) old,
            )
      ]

module _ {ℓ} {W E : Type ℓ} where
  -- The statistics and the predictions are sound, and the reports within their limit.
  pub record IsSafe (states_of : String → ℕ) (s : Store W E) : Type ℓ where
    pub stats : StatsAreSound states_of s.stats
    pub limited : count_of s.stats ≤ max_abnormal_logging_per_update_interval
    pub predictions : PredictionsAreSound s.predictions

  -- A step from a safe store leaves it safe, and the overrides of the sensors alone.
  pub record Keeps (states_of : String → ℕ) (s s' : Store W E) : Type ℓ where
    pub safe : IsSafe states_of s'
    pub overrides : SameOverrides s.statuses s'.statuses

  pub Keeps-refl :
      (states_of : String → ℕ) (s : Store W E) → IsSafe states_of s → Keeps states_of s s
  Keeps-refl states_of s safe = record { safe = safe; overrides = λ _ status h. (status, h, refl) }

  pub Keeps-trans :
      (states_of : String → ℕ) (a b c : Store W E)
      → Keeps states_of a b
      → Keeps states_of b c
      → Keeps states_of a c
  Keeps-trans states_of a b c f g = record {
    safe = g.safe;
    overrides = λ name status h.
        let (status1, h1, same1) = f.overrides name status h in
        let (status2, h2, same2) = g.overrides name status1 h1 in (status2, h2, same2 ∙ same1);
  }

  -- A run that completes, keeps the store, and gives such an answer.
  abbrev pub Gives {α β κ} :
      {A : Type α} {B : Type β}
      → (A → B → Type κ)
      → (String → ℕ)
      → Store W E
      → Option (A × B × Store W E)
      → Type (ℓ ⊔ α ⊔ β ⊔ κ)
  Gives {A = A} {B = B} P states_of s run =
      (a : A) × (b : B) × (s' : Store W E) × (run ≡ some (a, b, s')) × Keeps states_of s s' × P a b

module _ {ℓ} {W E : Type ℓ} (ins : Inputs W E) (rank : String → ℕ) where
  -- Something that a sensor of the rank reads: a sensor of a lower rank, or a rail that is there.
  abbrev pub IsReadable : ℕ → String → SensorFusionType → Type 0
  IsReadable n name sensor = rank name < n
  IsReadable n name odpm = contains name ins.power_status_map ≡ true
  IsReadable n name constant = Unit
  IsReadable n name cdev = Unit

  -- Each name has a type, and can be read.
  abbrev pub AllReadable : ℕ → List String → List SensorFusionType → Type 0
  AllReadable n [] types = Unit
  AllReadable n (name ∷ names) [] = ⊥
  AllReadable n (name ∷ names) (type ∷ types) = IsReadable n name type × AllReadable n names types

  -- A virtual sensor of such a rank: what it reads is lower, and there is a coefficient for each sensor
  -- where the formula has coefficients.
  pub record IsComposed (n : ℕ) (v : VirtualSensorInfo W) : Type ℓ where
    pub linked : AllReadable n v.linked_sensors v.linked_sensors_type
    pub weights : is_weighted v.formula ≡ true → AllReadable n v.coefficients v.coefficients_type
    pub enough : is_weighted v.formula ≡ true → length v.linked_sensors ≤ length v.coefficients
    pub backup : str_eq v.backup_sensor "" ≡ false → rank v.backup_sensor < n

  -- No sensor reads itself, and an estimator that succeeds has an output.
  pub record IsWell : Type ℓ where
    pub bounded : (name : String) → rank name ≤ length ins.sensor_info_map
    pub composed :
        (name : String) (info : SensorInfo W) (v : VirtualSensorInfo W)
        → lookup name ins.sensor_info_map ≡ some info
        → info.virtual_sensor_info ≡ some v
        → IsComposed (rank name) v
    pub estimates :
        (name : String) (inputs : List W) (e : E)
        → let (status, outputs, _) = ins.estimate name inputs e in
          is_ok status ≡ true → (w : W) × (ws : List W) × (outputs ≡ w ∷ ws)

-- A successful reading has a value.
abbrev pub HasValue {ℓ} : {W : Type ℓ} → SensorReadStatus → Option W → Type ℓ
HasValue {W = W} status out = status ≡ okay → (w : W) × (out ≡ some w)

pub not_okay : (status : SensorReadStatus) → status ≡ okay → is_okay status ≡ false → ⊥
not_okay okay fine stop = cc
not_okay under_collecting fine stop = cc
not_okay error fine stop = cc

pub is_okay_eq : (status : SensorReadStatus) → is_okay status ≡ true → status ≡ okay
is_okay_eq okay go = refl
is_okay_eq under_collecting go = cc
is_okay_eq error go = cc
