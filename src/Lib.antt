-- ===== src/Lib.antt =====
-- The thermal HAL of the MediaTek hardware repository, aidl/thermal.
--
-- A watcher thread reads the sensors. ThermalHelperImpl (thermal-helper.cpp) turns a reading into a
-- severity by the thresholds of the sensor. ThermalThrottling (utils/thermal_throttling.cpp) turns
-- the severity, the reading and the power of the rails (utils/power_files.cpp) into a request of the
-- sensor for each of its cooling devices, and keeps for each device the multiset of the requests of
-- all sensors; the greatest one is written to the device.
--
--   * Base: tests, lists, integers, optional results and maps, shared by all.
--   * Floats: what the code does with `float`, as an interface, and whole numbers as an instance.
--   * ThermalInfo: the data of utils/thermal_info.h; ThermalInfo/Severities: ThrottlingSeverity.
--   * Severity: getSeverityFromThresholds; Severity/Highest and Severity/Hysteresis: its proofs.
--   * PowerRails: utils/power_files.{h,cpp}. State has its data; Average calculateAvgPower,
--     updateAveragePower, updatePowerRail and refreshPowerStatus; Register registerPowerRailsToWatch
--     and powerSamplingSwitch; Ready, Refresh, Sampling, Covered and Registering have the proofs.
--   * Predictions: utils/thermal_predictions_helper.{h,cpp}. Initialize has
--     initializePredictionSensors; Sound, Registering, Registered and Read have the proofs.
--   * Throttling: utils/thermal_throttling.{h,cpp}. State has its data; Votes getCdevMaxRequest and
--     updateCdevMaxRequestAndNotifyIfChange; Request computeCoolingDevicesRequest; Register
--     registerThermalThrottling, clearThrottlingData and parseProfileProperty; Pid getTargetStateOfPID,
--     computeExcludedPower and updatePowerBudget; Limits and Allocate allocatePowerToCdev; Release
--     throttlingReleaseUpdate; Update updateCdevRequestByPower, updateCdevRequestBySeverity and
--     thermalThrottlingUpdate. Tally, Consistency, Registration, Unchanged, Updating, Budget, Target, PowerState
--     and Steps have the proofs, and the Examples concrete runs on the Samples.
--   * Cooling: maxCoolingRequestCheck and updateCoolingDevices of thermal-helper.cpp; Cooling/Limits has
--     the proofs.
--   * Emulation: checkUpdateSensorForEmul, emulTemp, emulSeverity and emulClear of thermal-helper.cpp;
--     Emulation/Waiting, Spread, Emulated, Handlers and Severity there have the proofs.
--   * Stats: utils/thermal_stats_helper.{h,cpp}. State has its data; Records updateStatsRecord and what
--     a report does to a record; Abnormality verifySensorAbnormality; Updates the updates of
--     temperatures and requests; Reports reportStats; Snapshots the two snapshots; Requests and
--     Initialize initializeStats. Residency, Fitting, Limited, Sound, Reporting, Sent, Rounds, Due, Started
--     and Initialized have the proofs.
--   * Reading: the sensors in thermal-helper.cpp. Sensors has readDataByType and
--     runVirtualTempEstimator; Cached readThermalSensor; Temperatures readTemperature,
--     getSeverityReference and fillCurrentTemperatures. Safe, Parts, Estimated, Composed, Readings, Judged,
--     Total and Filled have the proofs.
--   * Watcher: thermalWatcherCallbackFunc of thermal-helper.cpp, which joins all of these. Due decides
--     whether a sensor is read, Respond throttles by it, Rounds has the loop and its end; Votes, Direct and
--     Writes, and Sleep, Names, Failed and Wakes have the proofs.
--
-- How the state corresponds: a map is the list of its pairs in the order in which the code iterates
-- over it, a multiset with std::greater the list of its elements from the greatest down, a null
-- pointer `none`. A call that the code cannot complete, such as `at` on a missing key or an index past
-- the end, gives `none`. Values of system properties are arguments. The integers are unbounded: the
-- code computes with states of cooling devices, which are small. The floats are any type with the
-- operations of `Float`; a theorem that needs the order of IEEE 754 takes `IsOrdered`.
--
-- A sensor is read by one reading of the clock, and so is an update of the statistics. The estimator of a
-- virtual sensor is a function from its inputs and state to a status, outputs and a state; a variable
-- that the code reads before it is written holds a value that is a parameter. The stats service answers
-- an atom by a function, so within one call the same atom has one answer; the report at the end of a call
-- of the handler uses the time of the call.
--
-- The loops are structural, but for five. The search for a step in allocatePowerToCdev has the distance
-- to the limit as fuel, and each round comes one state closer. checkUpdateSensorForEmul calls itself for
-- each sensor that reads the given one, and would not end on sensors that read each other; its fuel is
-- one more than the number of sensors, which no chain of sensors exceeds where none reads itself.
-- readThermalSensor calls itself for the sensors that a virtual sensor reads, and readTemperature for those
-- that it refers to; both have the same fuel, for the same reason.
-- std::to_string has the successor of the number as fuel, which has fewer digits.
--
-- Not modelled: logs and traces, the locks (each operation is one step), the parser of the
-- configuration, the models of the estimators, files, netlink and binder; of the repository's other
-- parts the Wi-Fi HAL, the driver library of wpa_supplicant and the thin services.
pub mod Base
pub mod Floats
pub mod ThermalInfo
pub mod Severity
pub mod PowerRails
pub mod Predictions
pub mod Throttling
pub mod Cooling
pub mod Emulation
pub mod Stats
pub mod Reading
pub mod Watcher
