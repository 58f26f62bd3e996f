-- ===== src/PowerRails/Refresh.antt =====
-- The updates of the power rails keep the rails ready, and no average is negative.
use hardware_mediatek.Base.{
  ℕ, ◌≡◌, refl, Bool, true, false, not, Option, none, some, [], ◌∷◌, String, Map, lookup, insert,
  is_empty, if◌then◌else◌, arith, Bool-cases, Option-cases, inl, inr, str_eq, str_eq_iff,
  lookup-insert, subst, sym, ap, ◌∙◌,
}
use mathlib.Core.Option.{some-injective}
use hardware_mediatek.Floats.{Float, zero_f}
use hardware_mediatek.PowerRails.State.{PowerSample, PowerStatus, PowerRailInfo, PowerFiles}
use hardware_mediatek.PowerRails.Average.{
  update_energy_values, not_negative, renew, is_recent, update_power_rail, refresh_rails,
  refresh_power_status,
}
use hardware_mediatek.PowerRails.Ready.{HasQueues, IsReady, rail_power_lem}

module _ {ℓ} {W : Type ℓ} ⦃f : Float W⦄ where
  pub IsReady-insert :
      (t : PowerFiles W) (rail : String) (status : PowerStatus W)
      → IsReady t
      → f.lt status.last_updated_avg_power zero_f ≡ false
      → ((info : PowerRailInfo W)
          → lookup rail t.power_rail_info_map ≡ some info
          → HasQueues info status.power_history)
      → IsReady (record t { power_status_map = insert rail status t.power_status_map })
  IsReady-insert t rail status ready positive own other s found =
      elim (Bool-cases (str_eq rail other)) [
        | inl same ↦
            let here = rw (lookup-insert rail other status t.power_status_map, same) at found in
            let name = str_eq_iff rail other same in
            subst
              (λ (x : PowerStatus W).
                (f.lt x.last_updated_avg_power zero_f ≡ false)
                × ((info : PowerRailInfo W)
                    → lookup other t.power_rail_info_map ≡ some info
                    → HasQueues info x.power_history))
              (some-injective status s here)
              (
                positive,
                λ info known. own info (ap (λ k. lookup k t.power_rail_info_map) name ∙ known),
              )
        | inr different ↦
            ready other s (ground (arith, lookup-insert rail other status t.power_status_map))
      ]

  -- Reading the energy changes neither the rails nor their status.
  abbrev pub SameRails : PowerFiles W → PowerFiles W → Type ℓ
  SameRails t t' =
      (t'.power_rail_info_map ≡ t.power_rail_info_map) × (t'.power_status_map ≡ t.power_status_map)

  pub SameRails-IsReady : (t t' : PowerFiles W) → SameRails t t' → IsReady t → IsReady t'
  SameRails-IsReady t t' (infos, statuses) ready rail status found =
      let (positive, queues) = ready rail status (ap (lookup rail) (sym statuses) ∙ found) in
      (positive, λ info known. queues info (ap (lookup rail) (sym infos) ∙ known))

  pub update_energy_values-SameRails :
      (read : Option (Map PowerSample)) (t : PowerFiles W)
      → SameRails t (update_energy_values read t).1
  unfolding update_energy_values
  update_energy_values-SameRails none t = (refl, refl)
  update_energy_values-SameRails (some r) t = (refl, refl)

  module _ (nan_lt : f.lt f.nan zero_f ≡ false) where
    not_negative_lem : (power : W) → f.lt (not_negative power) zero_f ≡ false
    not_negative_lem power = elim (Bool-cases (f.lt power zero_f)) [
      | inl e ↦ rw e nan_lt
      | inr e ↦ rw e e
    ]

    -- What an update that goes through leaves.
    abbrev pub Updated : PowerFiles W → Option (W × PowerFiles W) → Type ℓ
    Updated t run =
        (power : W) × (t' : PowerFiles W) × (run ≡ some (power, t'))
        × IsReady t'
        × ((f.lt power zero_f ≡ false) × (t'.power_rail_info_map ≡ t.power_rail_info_map))

    renew-IsReady :
        (rail : String) (now : ℕ) (info : PowerRailInfo W) (status : PowerStatus W)
        (t : PowerFiles W)
        → IsReady t
        → lookup rail t.power_rail_info_map ≡ some info
        → lookup rail t.power_status_map ≡ some status
        → Updated t (renew rail now info status t)
    unfolding renew
    renew-IsReady rail now info status t ready known found =
        let (val, hs, run, queues) =
          rail_power_lem t.energy_info_map rail info status.power_history
            ((ready rail status found).1 info known) in
        let status' = record status {
          last_update_time = some now;
          power_history = hs;
          last_updated_avg_power = not_negative val;
        } in
        (
          not_negative val,
          record t { power_status_map = insert rail status' t.power_status_map },
          rw run refl,
          IsReady-insert t rail status' ready (not_negative_lem val) (λ other e.
              subst (λ i. HasQueues i hs) (some-injective info other (sym known ∙ e)) queues),
          (not_negative_lem val, refl),
        )

    after_read :
        (rail : String) (now : ℕ) (info : PowerRailInfo W) (status : PowerStatus W)
        (t : PowerFiles W) (r : Bool × PowerFiles W)
        → IsReady t
        → lookup rail t.power_rail_info_map ≡ some info
        → lookup rail t.power_status_map ≡ some status
        → SameRails t r.1
        → Updated t (
            if is_recent now info status
            then some (status.last_updated_avg_power, t)
            else if not r.0
            then some (f.nan, t)
            else renew rail now info status r.1)
    after_read rail now info status t (done, t') ready e g same =
        elim (Bool-cases (is_recent now info status)) [
          | inl recent ↦
              rw recent
                (status.last_updated_avg_power, t, refl, ready, ((ready rail status g).0, refl))
          | inr old ↦ elim (Bool-cases done) [
            | inr failed ↦ rw (old, failed) (f.nan, t, refl, ready, (nan_lt, refl))
            | inl read ↦
                let (power, t'', run, ready', (positive, infos)) =
                  renew-IsReady rail now info status t' (SameRails-IsReady t t' same ready)
                    (ap (lookup rail) same.0 ∙ e) (ap (lookup rail) same.1 ∙ g) in
                rw (old, read) (power, t'', run, ready', (positive, infos ∙ same.0))
          ]
        ]

    -- The update of a rail goes through, gives an average that is not negative, and keeps the rails
    -- ready, whether or not the energy can be read.
    pub update_power_rail-IsReady :
        (read : Option (Map PowerSample)) (rail : String) (now : ℕ) (t : PowerFiles W)
        → IsReady t
        → (power : W) × (t' : PowerFiles W) × (update_power_rail read rail now t ≡ some (power, t'))
          × IsReady t'
          × ((f.lt power zero_f ≡ false) × (t'.power_rail_info_map ≡ t.power_rail_info_map))
    unfolding update_power_rail
    update_power_rail-IsReady read rail now t ready =
        elim (Option-cases (lookup rail t.power_rail_info_map)) [
          | inl e ↦ rw (e, update_power_rail) (f.nan, t, refl, ready, (nan_lt, refl))
          | inr (info, e) ↦ elim (Option-cases (lookup rail t.power_status_map)) [
            | inl g ↦ rw (e, g, update_power_rail) (f.nan, t, refl, ready, (nan_lt, refl))
            | inr (status, g) ↦
                rw (e, g, update_power_rail)
                  (after_read rail now info status t
                    (if is_empty t.energy_info_map then update_energy_values read t else (true, t))
                    ready e g
                    (elim (Bool-cases (is_empty t.energy_info_map)) [
                      | inl empty ↦ rw empty (update_energy_values-SameRails read t)
                      | inr full ↦ rw full (refl, refl)
                    ]))
          ]
        ]

    refresh_rails-IsReady :
        (read : Option (Map PowerSample)) (now : String → ℕ) (rails : Map (PowerStatus W))
        (t : PowerFiles W)
        → IsReady t
        → (t' : PowerFiles W) × (refresh_rails read now rails t ≡ some t') × IsReady t'
    unfolding refresh_rails
    refresh_rails-IsReady read now [] t ready = (t, refl, ready)
    refresh_rails-IsReady read now ((rail, status) ∷ rails) t ready =
        elim (Bool-cases status.enabled) [
          | inl on ↦
              let (_, t', run, ready', _) =
                update_power_rail-IsReady read rail (now rail) t ready in
              let (t'', rest, ready'') = refresh_rails-IsReady read now rails t' ready' in
              (t'', rw on (rw run rest), ready'')
          | inr off ↦
              let (t'', rest, ready'') = refresh_rails-IsReady read now rails t ready in
              (t'', rw off rest, ready'')
        ]

    -- A refresh of the rails goes through and keeps them ready: each rail has the queues that its
    -- update reads, none of them empty, and no average is negative. It holds also where the energy
    -- cannot be read. The comparison of NaN with zero must be false.
    pub refresh_power_status-IsReady :
        (read again : Option (Map PowerSample)) (now : String → ℕ) (t : PowerFiles W)
        → IsReady t
        → (done : Bool) × (t' : PowerFiles W) × (refresh_power_status read again now t
            ≡ some (done, t'))
          × IsReady t'
    unfolding refresh_power_status
    refresh_power_status-IsReady read again now t ready =
        let updated = update_energy_values read t in
        let ready' = SameRails-IsReady t updated.1 (update_energy_values-SameRails read t) ready in
        let (t'', run, ready'') =
          refresh_rails-IsReady again now updated.1.power_status_map updated.1 ready' in
        elim (Bool-cases updated.0) [
          | inl done ↦ (true, t'', rw done (rw run refl), ready'')
          | inr failed ↦ (false, updated.1, rw failed refl, ready')
        ]
