-- ===== src/Tests.antt =====
-- Runs of the model on concrete data, and the theorems at concrete inputs.
pub mod Canonical
pub mod Fixtures
pub mod Examples
pub mod DaemonExamples
pub mod DriverExamples
pub mod OperationExamples
pub mod BundleExamples
pub mod EnforcedExamples
pub mod HistoryExamples
