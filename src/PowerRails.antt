-- ===== src/PowerRails.antt =====
-- aidl/thermal/utils/power_files.{h,cpp}: the average power of the power rails. `State` has the data,
-- `Average` the updates, `Register` what starts and stops the sampling, and the others the proofs.
pub mod State
pub mod Average
pub mod Register
pub mod Ready
pub mod Refresh
pub mod Sampling
pub mod Covered
pub mod Registering
pub mod Examples
