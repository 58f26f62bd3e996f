-- ===== src/PowerRails/Average.antt =====
-- `calculateAvgPower`, `updateAveragePower`, `updatePowerRail` and `refreshPowerStatus`.
use hardware_mediatek.Base.{
  ℕ, ◌-◌, ◌/◌, Bool, true, false, not, ◌&&◌, ◌||◌, Option, none, some, List, [], ◌∷◌, ◌++◌, ◌>>=◌,
  String, pos, ltb, ◌==◌, Map, lookup, insert, is_empty, if◌then◌else◌,
}
use hardware_mediatek.Floats.{Float, zero_f, neg_f}
use hardware_mediatek.ThermalInfo.{
  FormulaOption, count_threshold, weighted_avg, maximum, minimum, use_ml_model, use_linear_model,
  previously_predicted,
}
use hardware_mediatek.PowerRails.State.{PowerSample, PowerStatus, PowerRailInfo, PowerFiles}

-- `energy_info_map_[railName] = ...` for each line read
unfoldable pub store_samples : Map PowerSample → Map PowerSample → Map PowerSample
store_samples [] energy = energy
store_samples ((rail, sample) ∷ read) energy = store_samples read (insert rail sample energy)

module _ {ℓ} {W : Type ℓ} ⦃f : Float W⦄ where
  -- The answer, and `*avg_power`.
  unfoldable pub calculate_avg_power : PowerSample → PowerSample → Bool × W
  calculate_avg_power last curr =
      if last.duration == 0
      then (true, f.nan)
      else if curr.duration == last.duration
      then (true, f.nan)
      else if ltb curr.duration last.duration || ltb curr.energy_counter last.energy_counter
      then (false, f.nan)
      else (
        true,
        f.div (f.of_int (pos (curr.energy_counter - last.energy_counter)))
            (f.of_int (pos (curr.duration - last.duration))),
      )

  -- The average, and the queue: `pop` and `push` where the samples are valid. The front of an empty
  -- queue faults.
  unfoldable pub update_average_power :
      Map PowerSample → String → List PowerSample → Option (W × List PowerSample)
  update_average_power energy_info_map power_rail history =
      elim (lookup power_rail energy_info_map) [
        | none ↦ some (f.nan, history)
        | some curr ↦ elim history [
          | [] ↦ none
          | last ∷ rest ↦
              let (valid, avg_power) = calculate_avg_power last curr in
              some (avg_power, if valid then rest ++ (curr ∷ []) else last ∷ rest)
        ]
      ]

  -- One round of the loop over the linked rails; `first` is `i == 0`.
  unfoldable pub combine : FormulaOption → Bool → W → W → W → W
  combine count_threshold first coefficient number val =
      if (f.lt coefficient zero_f && f.lt number (neg_f coefficient))
        || (f.le zero_f coefficient && f.le coefficient number)
      then f.add val (f.of_int (pos 1))
      else val
  combine weighted_avg first coefficient number val = f.add val (f.mul number coefficient)
  combine maximum first coefficient number val =
      let start = if first then f.lowest else val in
      if f.lt start (f.mul number coefficient) then f.mul number coefficient else start
  combine minimum first coefficient number val =
      let start = if first then f.biggest else val in
      if f.lt (f.mul number coefficient) start then f.mul number coefficient else start
  combine use_ml_model first coefficient number val = val
  combine use_linear_model first coefficient number val = val
  combine previously_predicted first coefficient number val = val

  -- The loop: the value, and the queues. A coefficient or a queue that is not there faults.
  unfoldable pub virtual_power :
      FormulaOption
      → Map PowerSample
      → Bool
      → List String
      → List W
      → List (List PowerSample)
      → W
      → Option (W × List (List PowerSample))
  virtual_power formula energy first [] coefficients histories val = some (val, histories)
  virtual_power formula energy first (rail ∷ rails) [] histories val = none
  virtual_power formula energy first (rail ∷ rails) (c ∷ cs) [] val = none
  virtual_power formula energy first (rail ∷ rails) (c ∷ cs) (history ∷ histories) val = do
    (number, history') ← update_average_power energy rail history
    (val', histories') ←
        virtual_power formula energy false rails cs histories (combine formula first c number val)
    some (val', history' ∷ histories')

  -- `updateAveragePower(power_rail, &power_history[0])`
  unfoldable pub own_power :
      Map PowerSample → String → List (List PowerSample) → Option (W × List (List PowerSample))
  own_power energy power_rail [] = none
  own_power energy power_rail (history ∷ rest) = do
    (avg_power, history') ← update_average_power energy power_rail history
    some (avg_power, history' ∷ rest)

  -- The new average of a rail before the check of its sign, and its queues.
  unfoldable pub rail_power :
      Map PowerSample
      → String
      → PowerRailInfo W
      → List (List PowerSample)
      → Option (W × List (List PowerSample))
  rail_power energy power_rail info histories = elim info.virtual_power_rail_info [
    | none ↦ own_power energy power_rail histories
    | some v ↦ do
      (val, histories') ←
          virtual_power v.formula energy true v.linked_power_rails v.coefficients histories zero_f
      some (if f.le zero_f val then f.add val v.offset else val, histories')
  ]

  -- `if (avg_power < 0) avg_power = NAN;`
  abbrev pub not_negative : W → W
  not_negative avg_power = if f.lt avg_power zero_f then f.nan else avg_power

  -- `read` is what the energy sources hold, line by line, or `none` if one cannot be read.
  unfoldable pub update_energy_values :
      Option (Map PowerSample) → PowerFiles W → Bool × PowerFiles W
  update_energy_values none t = (false, t)
  update_energy_values (some read) t =
      (true, record t { energy_info_map = store_samples read t.energy_info_map })

  -- The part of `updatePowerRail` after its checks.
  unfoldable pub renew :
      String → ℕ → PowerRailInfo W → PowerStatus W → PowerFiles W → Option (W × PowerFiles W)
  renew power_rail now info status t = do
    (val, histories) ← rail_power t.energy_info_map power_rail info status.power_history
    let avg_power = not_negative val
    some (
      avg_power,
      record t {
        power_status_map =
            insert power_rail
              (record status {
                last_update_time = some now;
                power_history = histories;
                last_updated_avg_power = avg_power;
              })
              t.power_status_map;
      },
    )

  -- `now` is the reading of the clock, which does not go back.
  unfoldable pub is_recent : ℕ → PowerRailInfo W → PowerStatus W → Bool
  is_recent now info status = elim status.last_update_time [
    | none ↦ false
    | some last ↦ ltb ((now - last) / 1_000_000) info.power_sample_delay
  ]

  unfoldable pub update_power_rail :
      Option (Map PowerSample) → String → ℕ → PowerFiles W → Option (W × PowerFiles W)
  update_power_rail read power_rail now t = elim (lookup power_rail t.power_rail_info_map) [
    | none ↦ some (f.nan, t)
    | some info ↦ elim (lookup power_rail t.power_status_map) [
      | none ↦ some (f.nan, t)
      | some status ↦
          let (done, t') =
            if is_empty t.energy_info_map then update_energy_values read t else (true, t) in
          let renewed = renew power_rail now info status t' in
          if is_recent now info status
          then some (status.last_updated_avg_power, t)
          else if not done
          then some (f.nan, t)
          else renewed
    ]
  ]

  -- The loop of `refreshPowerStatus`; `now` has the reading of the clock for each rail.
  unfoldable pub refresh_rails :
      Option (Map PowerSample)
      → (String → ℕ)
      → Map (PowerStatus W)
      → PowerFiles W
      → Option (PowerFiles W)
  refresh_rails read now [] t = some t
  refresh_rails read now ((rail, status) ∷ rails) t = do
    (_, t') ← if status.enabled then update_power_rail read rail (now rail) t else some (f.nan, t)
    refresh_rails read now rails t'

  -- `again` is what the sources hold if a rail finds no sample and reads them again.
  unfoldable pub refresh_power_status :
      Option (Map PowerSample)
      → Option (Map PowerSample)
      → (String → ℕ)
      → PowerFiles W
      → Option (Bool × PowerFiles W)
  refresh_power_status read again now t =
      let (done, t') = update_energy_values read t in
      let refreshed : Option (Bool × PowerFiles W) = (do
        t'' ← refresh_rails again now t'.power_status_map t'
        some (true, t'')) in
      if done then refreshed else some (false, t')
