-- ===== src/Cluster.antt =====
-- src/cluster: the components of the two-node cluster.
pub mod Auth
pub mod Control
pub mod NodeTask
pub mod CoordinatorRuntime
pub mod ModeRuntime
pub mod WorkerRuntime
pub mod Failure
pub mod Hello
pub mod Network
pub mod Operation
pub mod PeerLease
pub mod Policy
pub mod PolicyControl
pub mod RecoveryTp
pub mod State
pub mod Tp
