-- ===== src/Recovery.antt =====
-- src/recovery.rs: the recovery of degraded throughput: the detector, and the service that starts
-- and limits recovery jobs.
pub mod Detector
pub mod Jobs
pub mod Service
