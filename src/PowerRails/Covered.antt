-- ===== src/PowerRails/Covered.antt =====
-- The rails that the loop of `registerPowerRailsToWatch` has come to have a status.
use hardware_mediatek.Base.{
  ◌≡◌, refl, Bool, true, false, ◌||◌, none, List, [], ◌∷◌, String, pos, eqb_ℤ, ◌==◌, Map, insert,
  contains, contains-insert, contains-insert_self, is_empty, All, arith, Bool-cases, Option-cases,
  inl, inr,
}
use hardware_mediatek.Floats.{Float}
use hardware_mediatek.PowerRails.State.{PowerSample, PowerStatus, PowerRailInfo}
use hardware_mediatek.PowerRails.Register.{delay_max, rail_histories, register_rails}

module _ {ℓ} {W : Type ℓ} ⦃f : Float W⦄ where
  -- The status of a rail as it is registered.
  abbrev pub registered_status : List (List PowerSample) → PowerStatus W
  registered_status hs = record {
    last_update_time = none;
    power_history = hs;
    last_updated_avg_power = f.nan;
    enabled = true;
  }

  -- A rail that the registration does not skip has a status.
  abbrev pub HasStatus : Map (PowerStatus W) → String × PowerRailInfo W → Type 0
  HasStatus statuses e =
      eqb_ℤ e.1.power_sample_count (pos 0) ≡ false
      → (e.1.power_sample_delay == delay_max) ≡ false
      → contains e.0 statuses ≡ true

  -- The registration leaves the statuses of rails that are there.
  register_rails-contains :
      (energy : Map PowerSample) (rails : Map (PowerRailInfo W)) (statuses : Map (PowerStatus W))
      (rail : String)
      → contains rail statuses ≡ true
      → contains rail (register_rails energy rails statuses).1 ≡ true
  unfolding register_rails
  register_rails-contains energy [] statuses rail has = has
  register_rails-contains energy ((name, info) ∷ rails) statuses rail has =
      elim (Bool-cases
        (eqb_ℤ info.power_sample_count (pos 0) || (info.power_sample_delay == delay_max))) [
          | inl skipped ↦ rw skipped (register_rails-contains energy rails statuses rail has)
          | inr used ↦ elim (Option-cases (rail_histories energy name info)) [
            | inl e ↦ rw (used, e) has
            | inr (hs, e) ↦
                rw (used, e)
                  (elim (Bool-cases (is_empty hs)) [
                    | inl none_found ↦ rw none_found has
                    | inr some_found ↦ rw some_found (
                        register_rails-contains energy rails
                          (insert name (registered_status hs) statuses) rail
                          (contains-insert name rail (registered_status hs) statuses has))
                  ])
          ]
        ]

  -- Where the registration goes through it has come to each rail.
  pub register_rails-All :
      (energy : Map PowerSample) (rails : Map (PowerRailInfo W))
      (statuses out : Map (PowerStatus W))
      → register_rails energy rails statuses ≡ (true, out)
      → All (HasStatus out) rails
  unfolding register_rails
  register_rails-All energy [] statuses out run = tt
  register_rails-All energy ((name, info) ∷ rails) statuses out run =
      elim (Bool-cases
        (eqb_ℤ info.power_sample_count (pos 0) || (info.power_sample_delay == delay_max))) [
          | inl skipped ↦ (
            λ many soon. absurd (
                not_skipped (eqb_ℤ info.power_sample_count (pos 0))
                  (info.power_sample_delay == delay_max) many soon skipped),
            register_rails-All energy rails statuses out (rw skipped at run),
          )
          | inr used ↦ elim (Option-cases (rail_histories energy name info)) [
            | inl e ↦
                absurd (not_done (false, statuses) (true, out) refl refl (rw (used, e) at run))
            | inr (hs, e) ↦
                let run1 = rw (used, e) at run in
                elim (Bool-cases (is_empty hs)) [
                  | inl none_found ↦
                      absurd
                        (not_done (false, statuses) (true, out) refl refl (rw none_found at run1))
                  | inr some_found ↦
                      let statuses' = insert name (registered_status hs) statuses in
                      let run2 = rw some_found at run1 in
                      let there =
                        register_rails-contains energy rails statuses' name
                          (contains-insert_self name (registered_status hs) statuses) in
                      (λ _ _. rw run2 at there, register_rails-All energy rails statuses' out run2)
                ]
          ]
        ]
    where
      not_done : (x y : Bool × Map (PowerStatus W)) → x.0 ≡ false → y.0 ≡ true → x ≡ y → ⊥
      not_done x y hx hy e = cc

      not_skipped : (a b : Bool) → a ≡ false → b ≡ false → (a || b) ≡ true → ⊥
      not_skipped a b ha hb h = ground (arith, ha, hb, h)
