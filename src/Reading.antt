-- ===== src/Reading.antt =====
-- The reading of sensors in aidl/thermal/thermal-helper.cpp: `readThermalSensor`, `readDataByType` and
-- `runVirtualTempEstimator`, which call each other; `readTemperature` and `getSeverityReference`.
pub mod State
pub mod Sensors
pub mod Cached
pub mod Temperatures
pub mod Safe
pub mod Parts
pub mod Estimated
pub mod Composed
pub mod Readings
pub mod Judged
pub mod Total
pub mod Filled
pub mod Samples
pub mod Examples
