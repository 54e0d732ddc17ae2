-- ===== src/Examples.antt =====
-- Concrete runs of the models, and the theorems at them.
pub mod ReapRuns
pub mod FleetRuns
pub mod FarmRuns
pub mod DriverRuns
pub mod MultiRuns
pub mod SweepRuns
pub mod LegRuns
pub mod ArrivalRuns
pub mod StoreRuns
pub mod HostedRuns
pub mod GauntletRuns
pub mod LandingRuns
pub mod WorkerRuns
