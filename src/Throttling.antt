-- ===== src/Throttling.antt =====
-- aidl/thermal/utils/thermal_throttling.{h,cpp}: the throttling requests of the sensors for the cooling
-- devices. `State` has the data, and each other child one of the algorithms or its proofs.
pub mod State
pub mod Votes
pub mod Pid
pub mod Limits
pub mod Allocate
pub mod Request
pub mod Tally
pub mod Consistency
pub mod Register
pub mod Registration
pub mod Release
pub mod Update
pub mod Target
pub mod PowerState
pub mod Steps
pub mod Unchanged
pub mod Updating
pub mod Budget
pub mod BudgetExamples
pub mod Samples
pub mod Examples
