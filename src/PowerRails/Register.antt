-- ===== src/PowerRails/Register.antt =====
-- `registerPowerRailsToWatch` below the parsing of the configuration, and `powerSamplingSwitch`.
use hardware_mediatek.Base.{
  ℕ, zero, suc, Bool, true, false, not, ◌||◌, Option, none, some, List, [], ◌∷◌, ◌++◌, ◌>>=◌,
  String, ℤ, pos, eqb_ℤ, pos_part, ◌==◌, Map, lookup, insert, is_empty, if◌then◌else◌, length,
  replicate, map,
}
use hardware_mediatek.Floats.{Float}
use hardware_mediatek.PowerRails.State.{PowerSample, PowerStatus, PowerRailInfo, PowerFiles}
use hardware_mediatek.PowerRails.Average.{update_energy_values}

-- `std::chrono::milliseconds::max()`
abbrev pub delay_max : ℕ
delay_max = 9_223_372_036_854_775_807

-- A queue of `count` copies of a sample.
abbrev pub fill : ℤ → PowerSample → List PowerSample
fill count sample = replicate (pos_part count) sample

-- The queues of the linked rails; `none` is `return false`.
unfoldable pub linked_histories :
    Map PowerSample → ℤ → List String → Option (List (List PowerSample))
linked_histories energy count [] = some []
linked_histories energy count (rail ∷ rails) = do
  sample ← lookup rail energy
  rest ← linked_histories energy count rails
  some (fill count sample ∷ rest)

-- `for (j = 0; j < size(); j++) { pop(); push(sample); }`: the size stays the same.
unfoldable pub rotate : ℕ → PowerSample → List PowerSample → List PowerSample
rotate zero sample history = history
rotate (suc n) sample [] = []
rotate (suc n) sample (x ∷ xs) = rotate n sample (xs ++ (sample ∷ []))

abbrev pub no_sample : PowerSample
no_sample = record { energy_counter = 0; duration = 0 }

abbrev pub clear_history : List PowerSample → List PowerSample
clear_history history = rotate (length history) no_sample history

module _ {ℓ} {W : Type ℓ} ⦃f : Float W⦄ where
  unfoldable pub rail_histories :
      Map PowerSample → String → PowerRailInfo W → Option (List (List PowerSample))
  rail_histories energy rail info =
      let own : Option (List (List PowerSample)) = (do
        sample ← lookup rail energy
        some (fill info.power_sample_count sample ∷ [])) in
      elim info.virtual_power_rail_info [
        | none ↦ own
        | some v ↦
            if is_empty v.linked_power_rails
            then own
            else linked_histories energy info.power_sample_count v.linked_power_rails
      ]

  -- The loop over the rails: whether it went through, and the map that it left.
  unfoldable pub register_rails :
      Map PowerSample → Map (PowerRailInfo W) → Map (PowerStatus W) → Bool × Map (PowerStatus W)
  register_rails energy [] statuses = (true, statuses)
  register_rails energy ((rail, info) ∷ rails) statuses =
      let skipped =
        eqb_ℤ info.power_sample_count (pos 0) || (info.power_sample_delay == delay_max) in
      let skip = register_rails energy rails statuses in
      let registered = λ (histories : List (List PowerSample)).
        let rest = register_rails energy rails (
          insert rail
            (record {
              last_update_time = none;
              power_history = histories;
              last_updated_avg_power = f.nan;
              enabled = true;
            })
            statuses) in
        if is_empty histories then (false, statuses) else rest in
      if skipped then skip else elim (rail_histories energy rail info) [
        | none ↦ (false, statuses)
        | some histories ↦ registered histories
      ]

  -- `parsed` and `found` are the answers of the parser, which fills `power_rail_info_map_`, and of
  -- `findEnergySourceToWatch`; `read` is what the energy sources hold.
  unfoldable pub register_power_rails_to_watch :
      Bool → Bool → Option (Map PowerSample) → PowerFiles W → Bool × PowerFiles W
  register_power_rails_to_watch parsed found read t =
      let (done, t') =
        if is_empty t.energy_info_map then update_energy_values read t else (true, t) in
      let (registered, statuses) =
        register_rails t'.energy_info_map t'.power_rail_info_map t'.power_status_map in
      if not parsed
      then (false, t)
      else if is_empty t.power_rail_info_map
      then (true, t)
      else if not found
      then (false, t)
      else if not done
      then (false, t)
      else (registered, record t' { power_status_map = statuses })

  unfoldable pub power_sampling_switch : String → Bool → PowerFiles W → Option (PowerFiles W)
  power_sampling_switch rail enabled t = elim (lookup rail t.power_rail_info_map) [
    | none ↦ some t
    | some _ ↦ do
      status ← lookup rail t.power_status_map
      let switched = record status { enabled = enabled }
      let stopped = record switched {
        power_history = map clear_history status.power_history;
        last_updated_avg_power = f.nan;
      }
      some (record t {
        power_status_map = insert rail (if enabled then switched else stopped) t.power_status_map;
      })
  ]
