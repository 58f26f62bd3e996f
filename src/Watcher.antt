-- ===== src/Watcher.antt =====
-- `ThermalHelperImpl::thermalWatcherCallbackFunc` of aidl/thermal/thermal-helper.cpp, which joins the
-- reading of the sensors, the power rails, the throttling, the cooling devices and the statistics.
pub mod State
pub mod Due
pub mod Respond
pub mod Rounds
pub mod Votes
pub mod Direct
pub mod Writes
pub mod Sleep
pub mod Names
pub mod Failed
pub mod Wakes
pub mod Examples
