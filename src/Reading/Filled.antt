-- ===== src/Reading/Filled.antt =====
-- The current temperatures are those of the sensors that are asked for.
use hardware_mediatek.Base.{
  ℕ, zero, suc, ◌≤◌, ◌≡◌, refl, Bool, true, false, not, ◌&&◌, ◌||◌, Option, none, some, List, [],
  ◌∷◌, >>=-eq-some, String, Map, lookup, contains, Each, All, is_empty, length, arith, Bool-cases,
  inl, inr, subst, sym, ap,
}
use mathlib.Core.Option.{some-injective}
use hardware_mediatek.Floats.{Float}
use hardware_mediatek.ThermalInfo.{
  ThrottlingSeverity, SensorInfo, SensorReadStatus, Temperature, is_okay,
}
use hardware_mediatek.Stats.Updates.{update_sensor_temp_stats_by_severity}
use hardware_mediatek.Reading.State.{Inputs, Store, reading_depth}
use hardware_mediatek.Reading.Cached.{read_thermal_sensor}
use hardware_mediatek.Reading.Temperatures.{
  judge, get_severity_reference, settle, settle_if, conclude, read_temperature, fill_temperatures,
  fill_current_temperatures,
}
use hardware_mediatek.Reading.Safe.{Keeps, Keeps-refl, Keeps-trans, IsWell}
use hardware_mediatek.Reading.Judged.{IsReady, IsReferring, Keeps-IsReady}
use hardware_mediatek.Reading.Total.{read_temperature-Gives}

-- What is read of a sensor has its name.
abbrev Named {ℓ} : {W : Type ℓ} → String → Option (Temperature W) → Type ℓ
Named {W = W} name out = (temp : Temperature W) → out ≡ some temp → temp.name ≡ name

module _ {ℓ} {W E : Type ℓ} ⦃f : Float W⦄ (ins : Inputs W E) where
  settle_name :
      (watched : Bool) (name : String) (info : SensorInfo W) (reference : ThrottlingSeverity)
      (value : W) (s : Store W E) (out : SensorReadStatus × Option (Temperature W) × Store W E)
      → settle_if ins watched name info reference value s ≡ some out
      → Named name out.1
  unfolding settle_if settle
  settle_name false name info reference value s out run =
      subst (λ (x : SensorReadStatus × Option (Temperature W) × Store W E). Named name x.1)
        (some-injective _ out run)
        (λ temp same. ap (λ (t : Temperature W). t.name) (sym (some-injective _ temp same)))
  settle_name true name info reference value s out run =
      let (status, _, run1) = >>=-eq-some (lookup name s.statuses) _ run in
      let (judged, _, run2) = >>=-eq-some (judge info reference value status) _ run1 in
      let (stats, _, run3) =
        >>=-eq-some (update_sensor_temp_stats_by_severity (ins.clock name) name judged.0 s.stats) _
          run2 in
      subst (λ (x : SensorReadStatus × Option (Temperature W) × Store W E). Named name x.1)
        (some-injective _ out run3)
        (λ temp same. ap (λ (t : Temperature W). t.name) (sym (some-injective _ temp same)))

  nothing-Named : (name : String) → Named {W = W} name none
  nothing-Named name temp same = absurd (cc)

  read_temperature_name :
      (fuel : ℕ) (force_no_cache : Bool) (name : String) (s : Store W E)
      (out : SensorReadStatus × Option (Temperature W) × Store W E)
      → read_temperature ins fuel force_no_cache name s ≡ some out
      → Named name out.1
  unfolding read_temperature conclude
  read_temperature_name zero force_no_cache name s out run = absurd (cc)
  read_temperature_name (suc fuel) force_no_cache name s out run =
      let Kept : SensorReadStatus × Option (Temperature W) × Store W E → Type ℓ =
        λ x. Named name x.1 in
      let start = record s { sensor_log_map = [] } in
      let (_, _, run1) = >>=-eq-some (lookup name s.statuses) _ run in
      let (read, _, run2) =
        >>=-eq-some
          (read_thermal_sensor ins (reading_depth ins.sensor_info_map) force_no_cache name start) _
          run1 in
      elim (Bool-cases (is_okay read.0)) [
        | inr stop ↦ subst Kept (some-injective _ out (rw stop at run2)) (nothing-Named name)
        | inl go ↦
            let (temp, _, run3) = >>=-eq-some read.1 _ (rw go at run2) in
            elim (Bool-cases (f.isnan temp)) [
              | inl nan ↦ subst Kept (some-injective _ out (rw nan at run3)) (nothing-Named name)
              | inr number ↦
                  let rec = read_temperature ins fuel false in
                  let (reference, _, run4) =
                    >>=-eq-some (get_severity_reference ins rec name read.2) _
                      (rw number at run3) in
                  let (info, _, run5) = >>=-eq-some (lookup name ins.sensor_info_map) _ run4 in
                  settle_name info.is_watch name info reference.0 (f.mul temp info.multiplier)
                    reference.1 out run5
            ]
      ]

-- A temperature of a configured sensor that is asked for.
abbrev pub IsWanted {ℓ} :
    {W : Type ℓ} → Map (SensorInfo W) → (SensorInfo W → Bool) → Temperature W → Type ℓ
IsWanted {W = W} infos wanted temp =
    (info : SensorInfo W) × (lookup temp.name infos ≡ some info) × (wanted info ≡ true)

-- The map has each of these sensors under its name.
abbrev pub HasEach {ℓ} : {W : Type ℓ} → Map (SensorInfo W) → Map (SensorInfo W) → Type ℓ
HasEach infos rest = Each (λ name info. lookup name infos ≡ some info) rest

module _ {ℓ} {W E : Type ℓ} ⦃f : Float W⦄ (ins : Inputs W E) (rank refs states_of : String → ℕ)
    (well : IsWell ins rank) (refers : IsReferring ins refs)
    (bounded : (name : String) → refs name ≤ length ins.sensor_info_map) where
  with_read :
      (wanted : SensorInfo W → Bool) (name : String) (info : SensorInfo W)
      (read : Option (Temperature W)) (temps : List (Temperature W))
      → lookup name ins.sensor_info_map ≡ some info
      → wanted info ≡ true
      → Named name read
      → All (IsWanted ins.sensor_info_map wanted) temps
      → All
          (IsWanted ins.sensor_info_map wanted)
          (elim read [ none ↦ temps | some temp ↦ temp ∷ temps ])
  with_read wanted name info none temps known asked named all = all
  with_read wanted name info (some temp) temps known asked named all = (
    (
      info,
      subst (λ k. lookup k ins.sensor_info_map ≡ some info) (sym (named temp refl)) known,
      asked,
    ),
    all,
  )

  fill_temperatures-Gives :
      (wanted : SensorInfo W → Bool) (rest : Map (SensorInfo W)) (s : Store W E)
      → HasEach ins.sensor_info_map rest
      → IsReady ins states_of s
      → (temps : List (Temperature W)) × (s' : Store W E) × (fill_temperatures ins wanted rest s
          ≡ some (temps, s'))
        × Keeps states_of s s'
        × All (IsWanted ins.sensor_info_map wanted) temps
  unfolding fill_temperatures
  fill_temperatures-Gives wanted [] s each ready =
      ([], s, refl, Keeps-refl states_of s ready.safe, tt)
  fill_temperatures-Gives wanted ((name, info) ∷ rest) s each ready =
      elim (Bool-cases (wanted info)) [
        | inr other ↦
            let (temps, s', run, keeps, all) = fill_temperatures-Gives wanted rest s each.1 ready in
            (temps, s', rw other run, keeps, all)
        | inl asked ↦
            let known : contains name ins.sensor_info_map ≡ true = rw (each.0, contains) refl in
            let low = bounded name in
            let depth = reading_depth ins.sensor_info_map in
            let (status, read, s1, run, keep, _) =
              read_temperature-Gives ins rank states_of depth refs false name s well refers known
                (omega arith) ready in
            let (temps, s', runs, keeps, all) =
              fill_temperatures-Gives wanted rest s1 each.1
                (Keeps-IsReady ins states_of s s1 ready keep) in
            (
              elim read [ none ↦ temps | some temp ↦ temp ∷ temps ],
              s',
              rw asked (rw run (rw runs refl)),
              Keeps-trans states_of s s1 s' keep keeps,
              with_read wanted name info read temps each.0 asked
                  (read_temperature_name ins depth false name s (status, read, s1) run) all,
            )
      ]

  -- Where no sensor reads or refers to itself, the query of the current temperatures goes through and
  -- keeps the overrides of the sensors and the store safe. It answers whether there is a temperature, and
  -- each one is of a configured sensor that is not hidden, is of the type, and has a callback where only
  -- those are asked for.
  pub fill_current_temperatures-Gives :
      (of_type : SensorInfo W → Bool) (filter_callback : Bool) (s : Store W E)
      → HasEach ins.sensor_info_map ins.sensor_info_map
      → IsReady ins states_of s
      → (temps : List (Temperature W)) × (s' : Store W E) × (fill_current_temperatures ins of_type
            filter_callback s
          ≡ some (not (is_empty temps), temps, s'))
        × Keeps states_of s s'
        × All
            (IsWanted ins.sensor_info_map
              (λ info. not info.is_hidden && of_type info && (not filter_callback || info.send_cb)))
            temps
  unfolding fill_current_temperatures
  fill_current_temperatures-Gives of_type filter_callback s each ready =
      let wanted = λ (info : SensorInfo W).
        not info.is_hidden && of_type info && (not filter_callback || info.send_cb) in
      let (temps, s', run, keeps, all) =
        fill_temperatures-Gives wanted ins.sensor_info_map s each ready in
      (temps, s', rw run refl, keeps, all)
