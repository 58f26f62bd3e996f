-- ===== src/Stats.antt =====
-- aidl/thermal/utils/thermal_stats_helper.{h,cpp}: how long each sensor and each request of a cooling
-- device stays in each of its states, and what is reported of it.
pub mod State
pub mod Records
pub mod Abnormality
pub mod Updates
pub mod Reports
pub mod Snapshots
pub mod Requests
pub mod Initialize
pub mod Residency
pub mod Fitting
pub mod Limited
pub mod Sound
pub mod Reporting
pub mod Sent
pub mod Rounds
pub mod Due
pub mod Started
pub mod Initialized
pub mod Examples
