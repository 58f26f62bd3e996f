-- ===== src/Cooling.antt =====
-- What aidl/thermal/thermal-helper.cpp does with the cooling devices: `maxCoolingRequestCheck` on the
-- configuration, and `updateCoolingDevices` with the requests of the sensors.
pub mod Limits
pub mod Examples
use hardware_mediatek.Base.{
  Bool, Option, none, some, List, [], ◌∷◌, ◌>>=◌, String, ℤ, pos, ltb_ℤ, Map, lookup, if◌then◌else◌,
}
use hardware_mediatek.Floats.{Float}
use hardware_mediatek.ThermalInfo.{ThrottlingSeverity, BindedCdevInfo, CdevInfo}
use hardware_mediatek.Throttling.Votes.{get_cdev_max_request}
use hardware_mediatek.Throttling.Pid.{elem_at}

module _ {ℓ} {W : Type ℓ} where
  -- `if (cdev_ceiling > max_state) cdev_ceiling = max_state;` for each severity
  abbrev pub limit_ceiling : ℤ → BindedCdevInfo W → BindedCdevInfo W
  limit_ceiling max_state info = record info {
    cdev_ceiling =
        λ s. if ltb_ℤ max_state (info.cdev_ceiling s) then max_state else info.cdev_ceiling s;
  }

  unfoldable pub max_cooling_request_check :
      Map (CdevInfo W) → Map (BindedCdevInfo W) → Option (Map (BindedCdevInfo W))
  max_cooling_request_check cooling [] = some []
  max_cooling_request_check cooling ((cdev, info) ∷ binded) = do
    cdev_info ← lookup cdev cooling
    rest ← max_cooling_request_check cooling binded
    some ((cdev, limit_ceiling cdev_info.max_state info) ∷ rest)

module _ {ℓ} {W : Type ℓ} ⦃f : Float W⦄ where
  -- What is written for a state: the power of the state, or the state.
  unfoldable pub request_for : CdevInfo W → ℤ → Option ℤ
  request_for cdev_info max_state =
      let power : Option ℤ = (do
        p ← elem_at cdev_info.state2power max_state
        some (f.lround (f.div p cdev_info.multiplier))) in
      if cdev_info.apply_powercap then power else some max_state

  -- The writes of `updateCoolingDevices`, in order; a device without requests has none.
  unfoldable pub update_cooling_devices :
      Map (CdevInfo W) → Map (List ℤ) → List String → Option (List (String × ℤ))
  update_cooling_devices cooling requests [] = some []
  update_cooling_devices cooling requests (cdev ∷ updated) = do
    cdev_info ← lookup cdev cooling
    rest ← update_cooling_devices cooling requests updated
    elim (get_cdev_max_request cdev requests) [
      | none ↦ some rest
      | some max_state ↦ do request ← request_for cdev_info max_state; some ((cdev, request) ∷ rest)
    ]
