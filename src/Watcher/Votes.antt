-- ===== src/Watcher/Votes.antt =====
-- The handler keeps the votes of the sensors consistent.
use hardware_mediatek.Base.{
  ℕ, ◌≡◌, refl, Bool, not, none, some, List, [], ◌∷◌, >>=-eq-some, String, ℤ, Map, lookup, contains,
  Bool-cases, Option-cases, inl, inr, subst, sym, ap, ◌∙◌,
}
use mathlib.Core.Option.{some-injective}
use hardware_mediatek.Floats.{Float}
use hardware_mediatek.ThermalInfo.{ThrottlingSeverity, SensorInfo, Temperature, BindedCdevInfo}
use hardware_mediatek.Throttling.State.{ThermalThrottling, ThermalThrottlingStatus, binded_map}
use hardware_mediatek.Throttling.Request.{
  Pass, vote, compute_entries, compute_cooling_devices_request,
}
use hardware_mediatek.Throttling.Consistency.{IsConsistent, compute-IsConsistent, AllBound}
use hardware_mediatek.Throttling.Updating.{update-IsConsistent}
use hardware_mediatek.PowerRails.Average.{refresh_power_status}
use hardware_mediatek.Throttling.Register.{clear_throttling_data}
use hardware_mediatek.Throttling.Registration.{clear-IsConsistent}
use hardware_mediatek.Emulation.{SensorStatus}
use hardware_mediatek.Watcher.State.{Helper, Call, Round}
use hardware_mediatek.Watcher.Due.{Decision, is_none}
use hardware_mediatek.Watcher.Respond.{
  switch_rails, record_requests, notify, refresh_once, throttle, request, respond,
}

module _ {ℓ} {W : Type ℓ} where
  -- A pass that goes through has found each of its devices.
  entries_bound :
      (status : ThermalThrottlingStatus W) (binded : Map (BindedCdevInfo W))
      (severity : ThrottlingSeverity) (entries : Map ℤ) (requests : Map (List ℤ)) (pass : Pass)
      → compute_entries status binded severity entries requests ≡ some pass
      → AllBound binded entries
  unfolding compute_entries
  entries_bound status binded severity [] requests pass run = tt
  entries_bound status binded severity ((cdev, old) ∷ entries) requests pass run =
      let (info, found, rest) = >>=-eq-some (lookup cdev binded) _ run in
      let (voted, _, rest') = >>=-eq-some (vote cdev old _ requests) _ rest in
      let (pass', run', _) =
        >>=-eq-some (compute_entries status binded severity entries voted.1) _ rest' in
      (rw (found, contains) refl, entries_bound status binded severity entries voted.1 pass' run')

  -- A pass that goes through keeps the votes consistent.
  compute_kept :
      (sensor : String) (info : SensorInfo W) (severity : ThrottlingSeverity)
      (t : ThermalThrottling W) (out : ThermalThrottling W × List String × List (String × ℤ))
      → IsConsistent t
      → compute_cooling_devices_request sensor info severity t ≡ some out
      → IsConsistent out.0
  unfolding compute_cooling_devices_request
  compute_kept sensor info severity t out inv run =
      elim (Option-cases (lookup sensor t.thermal_throttling_status_map)) [
        | inl unknown ↦
            let same =
              some-injective (t, [], []) out
                (rw (unknown, compute_cooling_devices_request) at run) in
            subst (λ (x : ThermalThrottling W × List String × List (String × ℤ)). IsConsistent x.0)
              same inv
        | inr (status, found) ↦
            let run1 = rw (found, compute_cooling_devices_request) at run in
            let (throttling, throttled, rest) = >>=-eq-some info.throttling_info _ run1 in
            let (pass, passed, _) =
              >>=-eq-some
                (compute_entries status (binded_map throttling status.profile) severity
                  status.cdev_status_map t.cdev_all_request_map)
                _ rest in
            let bound =
              entries_bound status (binded_map throttling status.profile) severity
                status.cdev_status_map t.cdev_all_request_map pass passed in
            let (t', cdevs, stats, run', kept) =
              compute-IsConsistent sensor info throttling severity t status inv found throttled
                bound in
            subst (λ (x : ThermalThrottling W × List String × List (String × ℤ)). IsConsistent x.0)
              (some-injective (t', cdevs, stats) out (sym run' ∙ run)) kept
      ]

-- The throttling of a round.
abbrev pub throttling_of {ℓ} : {W E : Type ℓ} → Round W E → ThermalThrottling W
throttling_of r = r.helper.throttling

module _ {ℓ} {W E : Type ℓ} ⦃f : Float W⦄ (c : Call W E) where
  notify_kept :
      (name : String) (info : SensorInfo W) (status : SensorStatus W) (temp : Temperature W)
      (sleep_ms : ℕ) (r : Round W E) (out : ℕ × Round W E)
      → notify c name info status temp sleep_ms r ≡ some out
      → throttling_of out.1 ≡ throttling_of r
  unfolding notify
  notify_kept name info status temp sleep_ms r out run =
      elim (Bool-cases status.pending_notification) [
        | inr quiet ↦
            ap (λ (x : ℕ × Round W E). throttling_of x.1)
              (sym (some-injective (sleep_ms, r) out (rw quiet at run)))
        | inl pending ↦
            let rails : List String = elim (lookup name c.power_rail_switch_map) [
              | none ↦ []
              | some rs ↦ rs
            ] in
            let switched =
              switch_rails rails (not (is_none status.severity)) r.helper.power_files in
            let (power_files, _, rest) = >>=-eq-some switched _ (rw pending at run) in
            ap (λ (x : ℕ × Round W E). throttling_of x.1) (sym (some-injective _ out rest))
      ]

  refresh_kept :
      (r r' : Round W E) → refresh_once c r ≡ some r' → throttling_of r' ≡ throttling_of r
  unfolding refresh_once
  refresh_kept r r' run = elim (Bool-cases r.power_data_is_updated) [
    | inl done ↦ ap throttling_of (sym (some-injective _ r' (rw done at run)))
    | inr first ↦
        let (refreshed, _, rest) =
          >>=-eq-some
            (refresh_power_status c.power_read c.power_again c.rail_clock r.helper.power_files) _
            (rw first at run) in
        ap throttling_of (sym (some-injective _ r' rest))
  ]

  throttle_kept :
      (name : String) (info : SensorInfo W) (status : SensorStatus W) (temp : Temperature W)
      (d : Decision) (max_throttling : Bool) (h : Helper W E) (t : ThermalThrottling W)
      → IsConsistent h.throttling
      → throttle c name info status temp d max_throttling h ≡ some t
      → IsConsistent t
  unfolding throttle
  throttle_kept name info status temp d max_throttling h t inv run =
      elim (Bool-cases (is_none status.severity)) [
        | inl calm ↦
            subst IsConsistent
              (some-injective (clear_throttling_data name h.throttling) t (rw calm at run))
              (clear-IsConsistent name h.throttling inv)
        | inr hot ↦
            (update-IsConsistent name (c.profile name) _ h.throttling t inv (rw hot at run)).0
      ]

  request_kept :
      (name : String) (info : SensorInfo W) (status : SensorStatus W) (t : ThermalThrottling W)
      (r r' : Round W E)
      → IsConsistent t
      → request c name info status t r ≡ some r'
      → IsConsistent (throttling_of r')
  unfolding request
  request_kept name info status t r r' inv run =
      let (out, computed, rest) =
        >>=-eq-some (compute_cooling_devices_request name info status.severity t) _ run in
      let (stats, _, rest') =
        >>=-eq-some (record_requests (c.outside.clock name) name out.2 r.helper.store.stats) _
          rest in
      subst (λ (x : Round W E). IsConsistent (throttling_of x)) (some-injective _ r' rest')
        (compute_kept name info status.severity t out inv computed)

  pub respond_kept :
      (name : String) (info : SensorInfo W) (temp : Temperature W) (d : Decision)
      (max_throttling : Bool) (r r' : Round W E)
      → IsConsistent (throttling_of r)
      → respond c name info temp d max_throttling r ≡ some r'
      → IsConsistent (throttling_of r')
  unfolding respond
  respond_kept name info temp d max_throttling r r' inv run =
      let (status, _, run1) = >>=-eq-some (lookup name r.helper.store.statuses) _ run in
      let (notified, is1, run2) =
        >>=-eq-some (notify c name info status temp d.sleep_ms r) _ run1 in
      let (r2, is2, run3) = >>=-eq-some (refresh_once c notified.1) _ run2 in
      let (t, is3, run4) =
        >>=-eq-some (throttle c name info status temp d max_throttling r2.helper) _ run3 in
      let (r3, is4, run5) = >>=-eq-some (request c name info status t r2) _ run4 in
      let (last, _, run6) = >>=-eq-some (lookup name r3.helper.store.statuses) _ run5 in
      let same =
        refresh_kept notified.1 r2 is2
        ∙ notify_kept name info status temp d.sleep_ms r notified is1 in
      let t_kept =
        throttle_kept name info status temp d max_throttling r2.helper t
          (subst IsConsistent (sym same) inv) is3 in
      subst (λ (x : Round W E). IsConsistent (throttling_of x)) (some-injective _ r' run6)
        (request_kept name info status t r2 r3 t_kept is4)
