-- ===== src/Throttling/State.antt =====
-- The data of aidl/thermal/utils/thermal_throttling.h.
use hardware_mediatek.Base.{none, some, List, [], String, ℤ, pos, Map, lookup}
use hardware_mediatek.Floats.{Float, zero_f}
use hardware_mediatek.ThermalInfo.{ThrottlingSeverity, ThrottlingInfo, BindedCdevInfo}

-- `prev_target` is a `float` that only ever holds a severity.
pub record ThermalThrottlingStatus {ℓ} (W : Type ℓ) : Type ℓ where
  pub pid_power_budget_map : Map ℤ
  pub pid_cdev_request_map : Map ℤ
  pub hardlimit_cdev_request_map : Map ℤ
  pub throttling_release_map : Map ℤ
  pub cdev_status_map : Map ℤ
  pub prev_err : W
  pub i_budget : W
  pub prev_target : ThrottlingSeverity
  pub prev_power_budget : W
  pub budget_transient : W
  pub tran_cycle : ℤ
  pub profile : String

-- A `std::multiset<int, std::greater<int>>` is the list of its elements in its own order.
pub record ThermalThrottling {ℓ} (W : Type ℓ) : Type ℓ where
  pub thermal_throttling_status_map : Map (ThermalThrottlingStatus W)
  pub cdev_all_request_map : Map (List ℤ)

-- What `operator[]` inserts for a new sensor: everything zero.
abbrev pub fresh_status {ℓ} : {W : Type ℓ} ⦃f : Float W⦄ → ThermalThrottlingStatus W
fresh_status ⦃f⦄ = record {
  pid_power_budget_map = [];
  pid_cdev_request_map = [];
  hardlimit_cdev_request_map = [];
  throttling_release_map = [];
  cdev_status_map = [];
  prev_err = zero_f;
  i_budget = zero_f;
  prev_target = ThrottlingSeverity.none;
  prev_power_budget = zero_f;
  budget_transient = zero_f;
  tran_cycle = pos 0;
  profile = "";
}

-- `operator[]`
abbrev pub status_of {ℓ} :
    {W : Type ℓ} ⦃f : Float W⦄
    → String
    → Map (ThermalThrottlingStatus W)
    → ThermalThrottlingStatus W
status_of sensor m = elim (lookup sensor m) [ none ↦ fresh_status | some s ↦ s ]

-- `profile_map.count(profile) ? profile_map.at(profile) : binded_cdev_info_map`
abbrev pub binded_map {ℓ} : {W : Type ℓ} → ThrottlingInfo W → String → Map (BindedCdevInfo W)
binded_map info profile = elim (lookup profile info.profile_map) [
  | none ↦ info.binded_cdev_info_map
  | some m ↦ m
]
