-- ===== src/Watcher/Sleep.antt =====
-- The delay of a sensor that is not due or was read bounds the sleep of the handler.
use hardware_mediatek.Base.{
  ℕ, ◌≤◌, ◌≡◌, refl, Bool, not, none, some, List, [], >>=-eq-some, String, ℤ, pos, ◌≤ℤ◌, ltb,
  min_ℤ-le_left, min_ℤ-le_right, ≤ℤ_trans, Map, lookup, arith, Bool-cases, Option-cases, inl, inr,
  if◌then◌else◌, if_both, subst, sym, ap, ◌∙◌,
}
use mathlib.Core.Option.{some-injective}
use hardware_mediatek.Floats.{Float}
use hardware_mediatek.ThermalInfo.{ThrottlingSeverity, SensorInfo, Temperature}
use hardware_mediatek.Emulation.{SensorStatus, Statuses}
use hardware_mediatek.PowerRails.Average.{refresh_power_status}
use hardware_mediatek.Throttling.State.{ThermalThrottling}
use hardware_mediatek.Throttling.Request.{compute_cooling_devices_request}
use hardware_mediatek.Watcher.State.{Call, Round}
use hardware_mediatek.Watcher.Due.{
  Decision, delay_of, is_none, is_triggered, triggers_of, first_sleep, decide_by_time, decide,
}
use hardware_mediatek.Watcher.Respond.{
  switch_rails, record_requests, notify, refresh_once, throttle, request, respond, sleep_at_most,
}

-- The longer delay of a sensor.
abbrev pub longest {ℓ} : {W : Type ℓ} → SensorInfo W → ℕ
longest info =
    if ltb info.polling_delay info.passive_delay then info.passive_delay else info.polling_delay

longer : (a b : ℕ) → (a ≤ (if ltb a b then b else a)) × (b ≤ (if ltb a b then b else a))
longer a b = ground arith

module _ {ℓ} {W : Type ℓ} where
  delay_of_le :
      (info : SensorInfo W) (severity : ThrottlingSeverity) → delay_of info severity ≤ longest info
  delay_of_le info severity =
      let both = longer info.polling_delay info.passive_delay in
      if_both (λ n. n ≤ longest info) (is_none severity) info.polling_delay info.passive_delay
        both.0 both.1

  first_sleep_le :
      (statuses : Statuses W) (info : SensorInfo W) (status : SensorStatus W) (sleep_ms : ℕ)
      → first_sleep statuses info status ≡ some sleep_ms
      → sleep_ms ≤ longest info
  unfolding first_sleep
  first_sleep_le statuses info status sleep_ms run =
      let (triggered, _, rest) = >>=-eq-some (is_triggered statuses (triggers_of info)) _ run in
      subst (λ n. n ≤ longest info) (some-injective _ sleep_ms rest)
        (if_both (λ n. n ≤ longest info) triggered info.passive_delay
          (delay_of info status.severity) (longer info.polling_delay info.passive_delay).1
          (delay_of_le info status.severity))

module _ {ℓ} {W : Type ℓ} ⦃f : Float W⦄ where
  by_time_sleep :
      (events : Map W) (now : ℕ) (name : String) (info : SensorInfo W) (status : SensorStatus W)
      (sleep_ms : ℕ)
      → (decide_by_time events now name info status sleep_ms).sleep_ms ≡ sleep_ms
  unfolding decide_by_time
  by_time_sleep events now name info status sleep_ms = elim (Option-cases status.last_update_time) [
    | inl never ↦ rw (never, decide_by_time) refl
    | inr (last, before) ↦ rw (before, decide_by_time) refl
  ]

  pub decide_le :
      (events : Map W) (now : ℕ) (name : String) (info : SensorInfo W) (status : SensorStatus W)
      (statuses : Statuses W) (out : Decision × Statuses W)
      → decide events now name info status statuses ≡ some out
      → out.0.sleep_ms ≤ longest info
  unfolding decide
  decide_le events now name info status statuses out run =
      let (sleep_ms, first, rest) = >>=-eq-some (first_sleep statuses info status) _ run in
      subst (λ (x : Decision × Statuses W). x.0.sleep_ms ≤ longest info) (some-injective _ out rest)
        (subst (λ n. n ≤ longest info) (sym (by_time_sleep events now name info status sleep_ms))
          (first_sleep_le statuses info status sleep_ms first))

abbrev pub sleep_of {ℓ} : {W E : Type ℓ} → Round W E → ℤ
sleep_of r = r.min_sleep_ms

pub sleep_at_most_le {ℓ} :
    {W E : Type ℓ} (sleep : ℤ) (r : Round W E)
    → (sleep_of (sleep_at_most sleep r) ≤ℤ sleep_of r) × (sleep_of (sleep_at_most sleep r) ≤ℤ sleep)
sleep_at_most_le sleep r = (min_ℤ-le_left r.min_sleep_ms sleep, min_ℤ-le_right r.min_sleep_ms sleep)

module _ {ℓ} {W E : Type ℓ} ⦃f : Float W⦄ (c : Call W E) where
  notify_sleep :
      (name : String) (info : SensorInfo W) (status : SensorStatus W) (temp : Temperature W)
      (sleep_ms : ℕ) (r : Round W E) (out : ℕ × Round W E)
      → sleep_ms ≤ longest info
      → notify c name info status temp sleep_ms r ≡ some out
      → (sleep_of out.1 ≡ sleep_of r) × (out.0 ≤ longest info)
  unfolding notify
  notify_sleep name info status temp sleep_ms r out low run =
      let Kept : ℕ × Round W E → Type 0 = λ x. (sleep_of x.1 ≡ sleep_of r) × (x.0 ≤ longest info) in
      elim (Bool-cases status.pending_notification) [
        | inr quiet ↦ subst Kept (some-injective (sleep_ms, r) out (rw quiet at run)) (refl, low)
        | inl pending ↦
            let rails : List String = elim (lookup name c.power_rail_switch_map) [
              | none ↦ []
              | some rs ↦ rs
            ] in
            let switched =
              switch_rails rails (not (is_none status.severity)) r.helper.power_files in
            let (power_files, _, rest) = >>=-eq-some switched _ (rw pending at run) in
            subst Kept (some-injective _ out rest) (refl, delay_of_le info status.severity)
      ]

  refresh_sleep : (r r' : Round W E) → refresh_once c r ≡ some r' → sleep_of r' ≡ sleep_of r
  unfolding refresh_once
  refresh_sleep r r' run = elim (Bool-cases r.power_data_is_updated) [
    | inl done ↦ ap sleep_of (sym (some-injective _ r' (rw done at run)))
    | inr first ↦
        let (refreshed, _, rest) =
          >>=-eq-some
            (refresh_power_status c.power_read c.power_again c.rail_clock r.helper.power_files) _
            (rw first at run) in
        ap sleep_of (sym (some-injective _ r' rest))
  ]

  request_sleep :
      (name : String) (info : SensorInfo W) (status : SensorStatus W) (t : ThermalThrottling W)
      (r r' : Round W E)
      → request c name info status t r ≡ some r'
      → sleep_of r' ≡ sleep_of r
  unfolding request
  request_sleep name info status t r r' run =
      let (out, _, rest) =
        >>=-eq-some (compute_cooling_devices_request name info status.severity t) _ run in
      let (stats, _, rest') =
        >>=-eq-some (record_requests (c.outside.clock name) name out.2 r.helper.store.stats) _
          rest in
      ap sleep_of (sym (some-injective _ r' rest'))

  -- A sensor that was read bounds the sleep by its delay.
  pub respond_sleep :
      (name : String) (info : SensorInfo W) (temp : Temperature W) (d : Decision)
      (max_throttling : Bool) (r r' : Round W E)
      → d.sleep_ms ≤ longest info
      → respond c name info temp d max_throttling r ≡ some r'
      → (sleep_of r' ≤ℤ sleep_of r) × (sleep_of r' ≤ℤ pos (longest info))
  unfolding respond
  respond_sleep name info temp d max_throttling r r' low run =
      let (status, _, run1) = >>=-eq-some (lookup name r.helper.store.statuses) _ run in
      let (notified, is1, run2) =
        >>=-eq-some (notify c name info status temp d.sleep_ms r) _ run1 in
      let (r2, is2, run3) = >>=-eq-some (refresh_once c notified.1) _ run2 in
      let (t, _, run4) =
        >>=-eq-some (throttle c name info status temp d max_throttling r2.helper) _ run3 in
      let (r3, is4, run5) = >>=-eq-some (request c name info status t r2) _ run4 in
      let (last, _, run6) = >>=-eq-some (lookup name r3.helper.store.statuses) _ run5 in
      let (same1, low1) = notify_sleep name info status temp d.sleep_ms r notified low is1 in
      let same : sleep_of r3 ≡ sleep_of r =
        request_sleep name info status t r2 r3 is4 ∙ refresh_sleep notified.1 r2 is2 ∙ same1 in
      let bound = sleep_at_most_le (pos notified.0) r3 in
      let slept : ℤ = sleep_of (sleep_at_most (pos notified.0) r3) in
      let longest_le : slept ≤ℤ pos (longest info) =
        ≤ℤ_trans slept (pos notified.0) (pos (longest info)) bound.1 (omega arith) in
      subst (λ (x : Round W E). (sleep_of x ≤ℤ sleep_of r) × (sleep_of x ≤ℤ pos (longest info)))
        (some-injective _ r' run6) (subst (λ m. slept ≤ℤ m) same bound.0, longest_le)
