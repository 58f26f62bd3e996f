-- ===== src/PowerRails/Ready.antt =====
-- The invariant of the power rails: each has the queues that its update reads, and none is empty.
use hardware_mediatek.Base.{
  ◌≡◌, refl, Bool, true, false, none, some, List, [], ◌∷◌, ◌++◌, String, Map, lookup, if◌then◌else◌,
  Option-cases, inl, inr, ap,
}
use hardware_mediatek.Floats.{Float, zero_f}
use hardware_mediatek.ThermalInfo.{FormulaOption}
use hardware_mediatek.PowerRails.State.{PowerSample, PowerStatus, PowerRailInfo, PowerFiles}
use hardware_mediatek.PowerRails.Average.{
  calculate_avg_power, update_average_power, combine, virtual_power, own_power, rail_power,
}

-- The first queue is there and has a sample.
abbrev pub HasFront : List (List PowerSample) → Type 0
HasFront [] = ⊥
HasFront ([] ∷ histories) = ⊥
HasFront ((_ ∷ _) ∷ histories) = Unit

module _ {ℓ} {W : Type ℓ} where
  -- Each linked rail has a coefficient and a queue with a sample.
  abbrev pub HasFronts : List String → List W → List (List PowerSample) → Type 0
  HasFronts [] coefficients histories = Unit
  HasFronts (_ ∷ rails) [] histories = ⊥
  HasFronts (_ ∷ rails) (_ ∷ cs) [] = ⊥
  HasFronts (_ ∷ rails) (_ ∷ cs) ([] ∷ histories) = ⊥
  HasFronts (_ ∷ rails) (_ ∷ cs) ((_ ∷ _) ∷ histories) = HasFronts rails cs histories

  abbrev pub HasQueues : PowerRailInfo W → List (List PowerSample) → Type 0
  HasQueues info histories = elim info.virtual_power_rail_info [
    | none ↦ HasFront histories
    | some v ↦ HasFronts v.linked_power_rails v.coefficients histories
  ]

-- No average is negative, and each rail that has a configuration has its queues.
abbrev pub IsReady {ℓ} : {W : Type ℓ} ⦃f : Float W⦄ → PowerFiles W → Type ℓ
IsReady {W = W} ⦃f⦄ t =
    (rail : String) (status : PowerStatus W)
    → lookup rail t.power_status_map ≡ some status
    → (f.lt status.last_updated_avg_power zero_f ≡ false)
      × ((info : PowerRailInfo W)
          → lookup rail t.power_rail_info_map ≡ some info
          → HasQueues info status.power_history)

-- A queue that ends in a sample has a front.
nonempty :
    (q : List PowerSample) (curr : PowerSample)
    → (y : PowerSample) × (ys : List PowerSample) × (q ++ (curr ∷ []) ≡ y ∷ ys)
nonempty [] curr = (curr, [], refl)
nonempty (z ∷ zs) curr = (z, zs ++ (curr ∷ []), refl)

pushed :
    (valid : Bool) (x curr : PowerSample) (xs : List PowerSample)
    → (y : PowerSample) × (ys : List PowerSample) × ((if valid then xs ++ (curr ∷ []) else x ∷ xs)
        ≡ y ∷ ys)
pushed false x curr xs = (x, xs, refl)
pushed true x curr xs = nonempty xs curr

module _ {ℓ} {W : Type ℓ} ⦃f : Float W⦄ where
  -- An update of a queue with a sample goes through and leaves a queue with a sample.
  update_average_power_lem :
      (energy : Map PowerSample) (rail : String) (x : PowerSample) (xs : List PowerSample)
      → (avg : W) × (y : PowerSample) × (ys : List PowerSample) × (update_average_power energy rail
            (x ∷ xs)
          ≡ some (avg, y ∷ ys))
  unfolding update_average_power
  update_average_power_lem energy rail x xs = elim (Option-cases (lookup rail energy)) [
    | inl e ↦ (f.nan, x, xs, rw (e, update_average_power) refl)
    | inr (curr, e) ↦
        let result = calculate_avg_power x curr in
        let (y, ys, same) = pushed result.0 x curr xs in
        (result.1, y, ys, rw (e, update_average_power) (ap (λ q. some (result.1, q)) same))
  ]

  virtual_power_lem :
      (formula : FormulaOption) (energy : Map PowerSample) (first : Bool) (rails : List String)
      (coefficients : List W) (histories : List (List PowerSample)) (val : W)
      → HasFronts rails coefficients histories
      → (val' : W) × (histories' : List (List PowerSample)) × (virtual_power formula energy first
            rails coefficients histories val
          ≡ some (val', histories'))
        × HasFronts rails coefficients histories'
  unfolding virtual_power
  virtual_power_lem formula energy first [] cs hs val h = (val, hs, refl, tt)
  virtual_power_lem formula energy first (r ∷ rs) [] hs val h = absurd h
  virtual_power_lem formula energy first (r ∷ rs) (c ∷ cs) [] val h = absurd h
  virtual_power_lem formula energy first (r ∷ rs) (c ∷ cs) ([] ∷ hs) val h = absurd h
  virtual_power_lem formula energy first (r ∷ rs) (c ∷ cs) ((x ∷ xs) ∷ hs) val h =
      let (number, y, ys, run) = update_average_power_lem energy r x xs in
      let (val', hs', rest, ready) =
        virtual_power_lem formula energy false rs cs hs (combine formula first c number val) h in
      (val', (y ∷ ys) ∷ hs', rw run (rw rest refl), ready)

  own_power_lem :
      (energy : Map PowerSample) (rail : String) (histories : List (List PowerSample))
      → HasFront histories
      → (val : W) × (histories' : List (List PowerSample)) × (own_power energy rail histories
          ≡ some (val, histories'))
        × HasFront histories'
  unfolding own_power
  own_power_lem energy rail [] h = absurd h
  own_power_lem energy rail ([] ∷ hs) h = absurd h
  own_power_lem energy rail ((x ∷ xs) ∷ hs) h =
      let (avg, y, ys, run) = update_average_power_lem energy rail x xs in
      (avg, (y ∷ ys) ∷ hs, rw run refl, tt)

  pub rail_power_lem :
      (energy : Map PowerSample) (rail : String) (info : PowerRailInfo W)
      (histories : List (List PowerSample))
      → HasQueues info histories
      → (val : W) × (histories' : List (List PowerSample)) × (rail_power energy rail info histories
          ≡ some (val, histories'))
        × HasQueues info histories'
  unfolding rail_power
  rail_power_lem energy rail info histories h = elim (Option-cases info.virtual_power_rail_info) [
    | inl e ↦ rw (e, rail_power) (own_power_lem energy rail histories (rw e at h))
    | inr (v, e) ↦
        let (val, hs, run, ready) =
          virtual_power_lem v.formula energy true v.linked_power_rails v.coefficients histories
            zero_f (rw e at h) in
        rw (e, rail_power)
          ((if f.le zero_f val then f.add val v.offset else val), hs, rw run refl, ready)
  ]
