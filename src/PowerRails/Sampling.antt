-- ===== src/PowerRails/Sampling.antt =====
-- What registering the rails and switching their sampling leave, against the invariant of the updates.
use mathlib.Core.List.{append-nil, append_assoc}
use hardware_mediatek.Base.{
  ◌≡◌, refl, Bool, true, false, some, List, [], ◌∷◌, ◌++◌, String, lookup, insert, length,
  replicate, map, if◌then◌else◌, Option-cases, inl, inr, subst, sym, ap, ◌∙◌,
}
use hardware_mediatek.Floats.{Float, zero_f}
use hardware_mediatek.PowerRails.State.{PowerSample, PowerStatus, PowerRailInfo, PowerFiles}
use hardware_mediatek.PowerRails.Register.{rotate, no_sample, clear_history, power_sampling_switch}
use hardware_mediatek.PowerRails.Ready.{HasFront, HasFronts, HasQueues, IsReady}
use hardware_mediatek.PowerRails.Refresh.{IsReady-insert}

-- Rotating a queue by its first part leaves the rest, and as many samples behind it.
rotate_lem :
    (s : PowerSample) (xs ys : List PowerSample)
    → rotate (length xs) s (xs ++ ys) ≡ ys ++ replicate (length xs) s
unfolding rotate
rotate_lem s [] ys = sym (append-nil ys)
rotate_lem s (x ∷ xs) ys =
    ap (rotate (length xs) s) (append_assoc xs ys (s ∷ []))
    ∙ rotate_lem s xs (ys ++ (s ∷ []))
    ∙ append_assoc ys (s ∷ []) (replicate (length xs) s)

clear_history_lem : (q : List PowerSample) → clear_history q ≡ replicate (length q) no_sample
clear_history_lem q =
    ap (rotate (length q) no_sample) (sym (append-nil q)) ∙ rotate_lem no_sample q []

clear_history-HasFront :
    (hs : List (List PowerSample)) → HasFront hs → HasFront (map clear_history hs)
clear_history-HasFront [] h = h
clear_history-HasFront ([] ∷ hs) h = absurd h
clear_history-HasFront ((x ∷ xs) ∷ hs) h =
    subst (λ q. HasFront (q ∷ map clear_history hs)) (sym (clear_history_lem (x ∷ xs))) tt

clear_history-HasFronts {ℓ} :
    {W : Type ℓ} (rails : List String) (cs : List W) (hs : List (List PowerSample))
    → HasFronts rails cs hs
    → HasFronts rails cs (map clear_history hs)
clear_history-HasFronts [] cs hs h = tt
clear_history-HasFronts (r ∷ rs) [] hs h = absurd h
clear_history-HasFronts (r ∷ rs) (c ∷ cs) [] h = absurd h
clear_history-HasFronts (r ∷ rs) (c ∷ cs) ([] ∷ hs) h = absurd h
clear_history-HasFronts (r ∷ rs) (c ∷ cs) ((x ∷ xs) ∷ hs) h =
    subst (λ q. HasFronts (r ∷ rs) (c ∷ cs) (q ∷ map clear_history hs))
      (sym (clear_history_lem (x ∷ xs))) (clear_history-HasFronts rs cs hs h)

map_clear :
    (hs : List (List PowerSample))
    → map clear_history hs ≡ map (λ q. replicate (length q) no_sample) hs
map_clear [] = refl
map_clear (q ∷ hs) = cc (clear_history_lem q, map_clear hs)

module _ {ℓ} {W : Type ℓ} ⦃f : Float W⦄ where
  clear_history-HasQueues :
      (info : PowerRailInfo W) (hs : List (List PowerSample))
      → HasQueues info hs
      → HasQueues info (map clear_history hs)
  clear_history-HasQueues info hs h = elim (Option-cases info.virtual_power_rail_info) [
    | inl e ↦ rw e (clear_history-HasFront hs (rw e at h))
    | inr (v, e) ↦ rw e (clear_history-HasFronts v.linked_power_rails v.coefficients hs (rw e at h))
  ]

  -- The queues with each sample replaced by the empty one.
  abbrev pub emptied : PowerStatus W → PowerStatus W
  emptied status = record status {
    power_history = map (λ q. replicate (length q) no_sample) status.power_history;
    last_updated_avg_power = f.nan;
    enabled = false;
  }

  -- Switching a registered rail goes through and keeps the rails ready. Switching it off empties each
  -- sample of its queues, whose lengths stay, and forgets the average; switching it on changes the
  -- flag only. The comparison of NaN with zero must be false.
  pub power_sampling_switch-IsReady :
      f.lt f.nan zero_f ≡ false
      → (rail : String) (enabled : Bool) (info : PowerRailInfo W) (status : PowerStatus W)
        (t : PowerFiles W)
      → IsReady t
      → lookup rail t.power_rail_info_map ≡ some info
      → lookup rail t.power_status_map ≡ some status
      → let t' = record t {
        power_status_map =
            insert rail
              (if enabled then record status { enabled = true } else emptied status)
              t.power_status_map;
      } in
        (power_sampling_switch rail enabled t ≡ some t') × IsReady t'
  unfolding power_sampling_switch
  power_sampling_switch-IsReady nan_lt rail true info status t ready e g = (
    rw (e, power_sampling_switch) (rw g refl),
    IsReady-insert t rail (record status { enabled = true }) ready (ready rail status g).0
        (ready rail status g).1,
  )
  power_sampling_switch-IsReady nan_lt rail false info status t ready e g =
      let cleared = map_clear status.power_history in
      (
        rw (e, power_sampling_switch)
            (rw g (
              ap
                (λ hs. some (record t {
                  power_status_map =
                      insert rail
                        (record status {
                          power_history = hs;
                          last_updated_avg_power = f.nan;
                          enabled = false;
                        })
                        t.power_status_map;
                }))
                cleared)),
        IsReady-insert t rail (emptied status) ready nan_lt (λ other known.
            subst (HasQueues other) cleared (
              clear_history-HasQueues other status.power_history
                ((ready rail status g).1 other known))),
      )
