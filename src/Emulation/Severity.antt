-- ===== src/Emulation/Severity.antt =====
-- What `emulSeverity` does with each severity.
use hardware_mediatek.Base.{
  ◌≡◌, refl, Bool, true, false, none, some, String, ℤ, pos, ◌<ℤ◌, ltb_ℤ, Map, lookup, contains,
  arith, ℕ,
}
use hardware_mediatek.Floats.{Float}
use hardware_mediatek.ThermalInfo.{
  ThrottlingSeverity, SensorInfo, index, severity_of-index, index-le_last,
}
use hardware_mediatek.Emulation.{Statuses, emulated, emul_severity, at_severity, severity_count}
use hardware_mediatek.Emulation.Waiting.{HasStatuses, IsAcyclic}
use hardware_mediatek.Emulation.Emulated.{Overridden, override-Emulates}
use hardware_mediatek.Emulation.Handlers.{Pending, override-Pending}

at_index {ℓ} :
    {W : Type ℓ} (a : ThrottlingSeverity → W) (s : ThrottlingSeverity)
    → at_severity a (pos (index s)) ≡ some (a s)
at_index a s = rw (severity_of-index s) refl

in_range : (s : ThrottlingSeverity) → ltb_ℤ severity_count (pos (index s)) ≡ false
in_range s = ground (arith, index-le_last s)

module _ {ℓ} {W : Type ℓ} ⦃f : Float W⦄ (infos : Map (SensorInfo W)) (rank : String → ℕ)
    (acyclic : IsAcyclic infos rank) where
  -- For a known sensor `emulSeverity` takes every severity of the enumeration: the sensor emulates that
  -- severity and its hot threshold over the multiplier, each other sensor keeps its emulation, and the
  -- sensor and those that depend on it have an update pending, where no sensor depends on itself and
  -- each has a status. It refuses a severity above 7. The severity 7 passes its check and reads past
  -- the end of the thresholds.
  pub emul_severity_lem :
      (target : String) (info : SensorInfo W) (max_throttling : Bool) (statuses : Statuses W)
      → HasStatuses infos statuses
      → contains target statuses ≡ true
      → lookup target infos ≡ some info
      → ((s : ThrottlingSeverity)
          → (statuses' : Statuses W) × (emul_severity infos target
                (pos (index s))
                max_throttling
                statuses
              ≡ some (true, statuses'))
            × Pending infos rank acyclic max_throttling target statuses'
            × Overridden
                (some (record {
                  temp = f.div (info.hot_thresholds s) info.multiplier;
                  severity = pos (index s);
                }))
                target
                statuses
                statuses')
        × ((severity : ℤ)
            → pos 7 <ℤ severity
            → emul_severity infos target severity max_throttling statuses ≡ some (false, statuses))
        × (emul_severity infos target (pos 7) max_throttling statuses ≡ none)
  unfolding emul_severity
  emul_severity_lem target info m statuses known found e =
      let configured : contains target infos ≡ true = ground arith in
      (
        λ s.
            let change =
              emulated (f.div (info.hot_thresholds s) info.multiplier) (pos (index s)) m in
            let (st, run, _, pending) =
              override-Pending infos rank acyclic m change target statuses (λ o. (refl, refl)) known
                found in
            (
              st,
              rw (found, emul_severity)
                  (rw configured
                    (rw e (rw (in_range s) (rw (at_index info.hot_thresholds s) (rw run refl))))),
              pending,
              override-Emulates infos change
                  (some (record {
                    temp = f.div (info.hot_thresholds s) info.multiplier;
                    severity = pos (index s);
                  }))
                  m target statuses st (λ _. refl) run,
            ),
        λ severity above.
            let above' : ltb_ℤ severity_count severity ≡ true = ground arith in
            rw (found, emul_severity) (rw configured (rw above' refl)),
        rw (found, emul_severity) (rw configured (rw e refl)),
      )
