-- ===== src/Manager.antt =====
-- src/manager: the activation of a build on both nodes, and the journal of the jobs.
pub mod Activation
pub mod Jobs
