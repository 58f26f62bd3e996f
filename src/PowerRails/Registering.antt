-- ===== src/PowerRails/Registering.antt =====
-- `registerPowerRailsToWatch` gives each rail the queues that its updates read.
use mathlib.Core.Option.{some-injective}
use hardware_mediatek.Base.{
  if_both, ℕ, suc, zero, negsuc, ◌>>=◌, ◌≤◌, ◌≡◌, refl, Bool, true, false, not, ◌||◌, Option, none,
  some, List, [], ◌∷◌, String, ℤ, pos, ◌<ℤ◌, eqb_ℤ, ◌==◌, Map, lookup, insert, is_empty, length,
  All, if◌then◌else◌, arith, Bool-cases, Option-cases, inl, inr, subst, sym, ap, ◌∙◌, >>=-eq-some,
}
use hardware_mediatek.Floats.{Float, zero_f}
use hardware_mediatek.PowerRails.State.{PowerSample, PowerStatus, PowerRailInfo, PowerFiles}
use hardware_mediatek.PowerRails.Register.{
  delay_max, fill, linked_histories, rail_histories, register_rails, register_power_rails_to_watch,
}
use hardware_mediatek.PowerRails.Covered.{HasStatus, registered_status, register_rails-All}
use hardware_mediatek.PowerRails.Ready.{HasFront, HasFronts, HasQueues, IsReady}
use hardware_mediatek.PowerRails.Refresh.{
  IsReady-insert, SameRails, SameRails-IsReady, update_energy_values-SameRails,
}
use hardware_mediatek.PowerRails.Average.{update_energy_values}

-- A test whose first outcome is only claimed where it holds.
if_both_where {κ} :
    {A : Type κ} (P : A → Type κ) (b : Bool) (x y : A)
    → (b ≡ true → P x)
    → P y
    → P (if b then x else y)
if_both_where P true x y px py = px refl
if_both_where P false x y px py = py

positive_count : (z : ℤ) → pos 0 <ℤ z → (n : ℕ) × (z ≡ pos (suc n))
positive_count (pos zero) h = absurd (omega arith)
positive_count (pos (suc n)) h = (n, refl)
positive_count (negsuc n) h = absurd (omega arith)

own_lem :
    (energy : Map PowerSample) (rail : String) (count : ℤ) (hs : List (List PowerSample))
    → pos 0 <ℤ count
    → (lookup rail energy >>= λ sample. some (fill count sample ∷ [])) ≡ some hs
    → HasFront hs
own_lem energy rail count hs many run =
    let (sample, _, end) = >>=-eq-some (lookup rail energy) _ run in
    let (n, e) = positive_count count many in subst HasFront (some-injective _ hs end) (rw e tt)

module _ {ℓ} {W : Type ℓ} ⦃f : Float W⦄ where
  -- What the configuration of a rail must hold: a sample count above zero, and a coefficient for each
  -- linked rail.
  abbrev pub IsUsable : PowerRailInfo W → Type 0
  IsUsable info = (pos 0 <ℤ info.power_sample_count) × elim info.virtual_power_rail_info [
    | none ↦ Unit
    | some v ↦ length v.linked_power_rails ≤ length v.coefficients
  ]

  linked_histories_lem :
      (energy : Map PowerSample) (count : ℕ) (rails : List String) (cs : List W)
      (hs : List (List PowerSample))
      → length rails ≤ length cs
      → linked_histories energy (pos (suc count)) rails ≡ some hs
      → HasFronts rails cs hs
  unfolding linked_histories
  linked_histories_lem energy count [] cs hs enough run = tt
  linked_histories_lem energy count (r ∷ rs) [] hs enough run = absurd (omega arith)
  linked_histories_lem energy count (r ∷ rs) (c ∷ cs) hs enough run =
      let (sample, _, run') = >>=-eq-some (lookup r energy) _ run in
      let (rest, found, end) = >>=-eq-some (linked_histories energy (pos (suc count)) rs) _ run' in
      subst (HasFronts (r ∷ rs) (c ∷ cs)) (some-injective _ hs end)
        (linked_histories_lem energy count rs cs rest (omega arith) found)

  rail_histories_lem :
      (energy : Map PowerSample) (rail : String) (info : PowerRailInfo W)
      (hs : List (List PowerSample))
      → IsUsable info
      → rail_histories energy rail info ≡ some hs
      → HasQueues info hs
  unfolding rail_histories
  rail_histories_lem energy rail info hs (many, enough) run =
      elim (Option-cases info.virtual_power_rail_info) [
        | inl e ↦
            rw e
              (own_lem energy rail info.power_sample_count hs many (rw (e, rail_histories) at run))
        | inr (v, e) ↦ rw e (
            linked v.linked_power_rails v.coefficients (rw e at enough)
              (rw (e, rail_histories) at run))
      ]
    where
      linked :
          (rails : List String) (cs : List W)
          → length rails ≤ length cs
          → (if is_empty rails
              then (lookup rail energy >>= λ sample.
                  some (fill info.power_sample_count sample ∷ []))
              else linked_histories energy info.power_sample_count rails)
            ≡ some hs
          → HasFronts rails cs hs
      linked [] cs le run = tt
      linked (r ∷ rs) cs le run =
          let (n, e) = positive_count info.power_sample_count many in
          linked_histories_lem energy n (r ∷ rs) cs hs le (rw e at run)

  -- What the loop over the rails meets: the configurations that the map holds, each usable unless the
  -- rail is skipped.
  abbrev pub AreUsable : Map (PowerRailInfo W) → Map (PowerRailInfo W) → Type ℓ
  AreUsable infos = All λ e.
      (lookup e.0 infos ≡ some e.1)
      × ((eqb_ℤ e.1.power_sample_count (pos 0) || (e.1.power_sample_delay == delay_max)) ≡ false
          → IsUsable e.1)

  register_rails-IsReady :
      f.lt f.nan zero_f ≡ false
      → (t : PowerFiles W) (energy : Map PowerSample) (rails : Map (PowerRailInfo W))
        (statuses : Map (PowerStatus W))
      → AreUsable t.power_rail_info_map rails
      → IsReady (record t { power_status_map = statuses })
      → IsReady (record t { power_status_map = (register_rails energy rails statuses).1 })
  unfolding register_rails
  register_rails-IsReady nan_lt t energy [] statuses usable ready = ready
  register_rails-IsReady nan_lt t energy ((rail, info) ∷ rails) statuses ((known, usable), rest)
        ready =
      elim (Bool-cases
        (eqb_ℤ info.power_sample_count (pos 0) || (info.power_sample_delay == delay_max))) [
          | inl skipped ↦
              rw skipped (register_rails-IsReady nan_lt t energy rails statuses rest ready)
          | inr used ↦ elim (Option-cases (rail_histories energy rail info)) [
            | inl e ↦ rw (used, e) ready
            | inr (hs, e) ↦
                rw (used, e)
                  (elim (Bool-cases (is_empty hs)) [
                    | inl none_found ↦ rw none_found ready
                    | inr some_found ↦ rw some_found (
                        register_rails-IsReady nan_lt t energy rails
                          (insert rail (registered_status hs) statuses) rest
                          (IsReady-insert (record t { power_status_map = statuses }) rail
                            (registered_status hs) ready nan_lt
                            (λ other same.
                              subst (λ i. HasQueues i hs)
                                (some-injective info other (sym known ∙ same))
                                (rail_histories_lem energy rail info hs (usable used) e))))
                  ])
          ]
        ]

  -- The rails of a configuration without any.
  no_rails :
      (P : String × PowerRailInfo W → Type 0) (rails : Map (PowerRailInfo W))
      → is_empty rails ≡ true
      → All P rails
  no_rails P [] none_there = tt
  no_rails P (e ∷ rails) none_there = absurd (cc)

  -- The registration keeps the rails ready for their updates, also where it stops half-way: all rails
  -- that have a status after it are ready if those that had one before it were, as where none had. Where
  -- it answers true, every rail of the configuration has a status, but for those that it skips, with a
  -- count of 0 or the greatest delay. The configuration holds each rail once, and one that is not
  -- skipped has a count above zero and a coefficient for each linked rail. The comparison of NaN with
  -- zero must be false.
  pub register_power_rails_to_watch-IsReady :
      f.lt f.nan zero_f ≡ false
      → (parsed found : Bool) (read : Option (Map PowerSample)) (t : PowerFiles W)
      → AreUsable t.power_rail_info_map t.power_rail_info_map
      → IsReady t
      → let out = register_power_rails_to_watch parsed found read t in
        IsReady out.1
        × (out.0 ≡ true → All (HasStatus out.1.power_status_map) t.power_rail_info_map)
  unfolding register_power_rails_to_watch
  register_power_rails_to_watch-IsReady nan_lt parsed found read t usable ready =
      let updated = if is_empty t.energy_info_map then update_energy_values read t else (true, t) in
      let same =
        if_both (λ (r : Bool × PowerFiles W). SameRails t r.1) (is_empty t.energy_info_map)
          (update_energy_values read t) (true, t) (update_energy_values-SameRails read t)
          (refl, refl) in
      let ready' = SameRails-IsReady t updated.1 same ready in
      let usable' = subst (λ m. AreUsable m m) (sym same.0) usable in
      let energy = updated.1.energy_info_map in
      let rails = updated.1.power_rail_info_map in
      let before = updated.1.power_status_map in
      let registered = register_rails-IsReady nan_lt updated.1 energy rails before usable' ready' in
      let reached = λ (done : (register_rails energy rails before).0 ≡ true).
        subst (All (HasStatus (register_rails energy rails before).1)) same.0 (
          register_rails-All energy rails before (register_rails energy rails before).1 (
            ap
              (λ (b : Bool).
                let r : Bool × Map (PowerStatus W) = (b, (register_rails energy rails before).1) in
                r)
              done)) in
      let ok = λ (r : Bool × PowerFiles W).
        IsReady r.1 × (r.0 ≡ true → All (HasStatus r.1.power_status_map) t.power_rail_info_map) in
      let stopped : ok (false, t) = (ready, λ done. absurd (cannot done)) in
      if_both ok (not parsed) _ _ stopped (
        if_both_where ok (is_empty t.power_rail_info_map) _ _
          (λ nothing.
            (ready, λ _. no_rails (HasStatus t.power_status_map) t.power_rail_info_map nothing))
          (if_both ok (not found) _ _ stopped
            (if_both ok (not updated.0) _ _ stopped (registered, reached))))
    where
      cannot : false ≡ true → ⊥
      cannot e = cc
