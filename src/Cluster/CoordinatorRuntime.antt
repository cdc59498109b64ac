-- ===== src/Cluster/CoordinatorRuntime.antt =====
-- src/cluster/coordinator.rs: `CoordinatorDistributedRuntime`, the task that promotes the cluster to
-- distributed service and takes it back. Each await is a call; what the processes, the peer and the
-- lease answer, and what other tasks do to the node meanwhile, is the environment's. The two halves of a
-- `join!`, which run by turns, are calls one after the other, the local one first; the wait for the lock
-- of the failure record is no call, so that other tasks do not act in it.
pub mod Promotion
pub mod Demotion
pub mod Published
pub mod Histories
pub mod Ready
use siderostat.Prelude.{
  ℕ, Bool, true, false, not, ◌&&◌, ◌||◌, Option, none, some, List, [], ◌∷◌, if◌then◌else◌, ◌==◌,
}
use siderostat.Target.{ClusterState, ProxyTarget, unavailable}
use siderostat.Target
use siderostat.Admission.{Gate, DrainError, timeout, begin_drain, end_drain, block, start_serving}
use siderostat.Cluster.Failure.{
  ClusterFailure, PromotionFailureTracker, PromotionTrackerError, coordinator_startup_timeout,
}
use siderostat.Cluster.State.{
  ClusterSnapshot, ClusterEvent, ClusterEventKind, TransitionError, TransitionResult, transition,
}
use siderostat.Cluster.State
use siderostat.Cluster.NodeTask.{FromErrors}
use siderostat.Cluster.NodeTask
unfoldable pub use siderostat.Cluster.NodeTask.{block_transition}
pub use siderostat.Cluster.NodeTask.{
  Call, applies, drains, peer_begins_drain, peer_stops_worker, starts_standalone,
  starts_coordinator, stops_standalone, stops_coordinator, waits_ready, waits_route_loss, Node,
  Environment, LifecycleResult, ok, err, awaits, asks, asks_in_time, applied, event, set_target,
  joined, and_then, with_snapshot,
}

-- `Recovery` holds the text of one of three messages and an error.
pub data RecoveryStep : Type 0 where
  coordinator_cleanup worker_cleanup standalone_recovery : RecoveryStep

pub data CoordinatorLifecycleError : Type 0 where
  transition_failed : TransitionError → CoordinatorLifecycleError
  drain_failed : DrainError → CoordinatorLifecycleError
  standalone_failed coordinator_failed peer_failed : ℕ → CoordinatorLifecycleError
  startup_timeout complete_route_timeout invalid_timing : CoordinatorLifecycleError
  recovery_failed : RecoveryStep → ℕ → CoordinatorLifecycleError
  tracker_failed : PromotionTrackerError → CoordinatorLifecycleError
  prerequisite_missing lease_lost : CoordinatorLifecycleError

instance abbrev pub coordinator_errors : FromErrors CoordinatorLifecycleError
coordinator_errors = record { of_transition = transition_failed; of_drain = drain_failed }

abbrev pub Outcome : Type 0
Outcome = NodeTask.Outcome CoordinatorLifecycleError

abbrev pub Step : Type 0
Step = NodeTask.Step CoordinatorLifecycleError

-- The operations of a task with the errors of this one.
abbrev pub apply : Environment → ℕ → ClusterEventKind → Node → Outcome
apply env generation kind n = NodeTask.apply env generation kind n

abbrev pub publish : Bool → ClusterSnapshot → Node → Outcome
publish resume s n = NodeTask.publish resume s n

abbrev pub drain : Environment → ℕ → Node → Step
drain env generation n = NodeTask.drain env generation n

-- `new` refuses a duration of zero.
unfoldable pub check_timing : ℕ → ℕ → ℕ → ℕ → Option CoordinatorLifecycleError
check_timing drain startup complete_route route_loss_grace =
    if drain == 0 || startup == 0 || complete_route == 0 || route_loss_grace == 0
    then some invalid_timing
    else none

abbrev pub needs_lease : Environment → Node → Step
needs_lease env n = if env.lease n.calls then (n, none) else (n, some lease_lost)

-- The two drains of a promotion or demotion.
unfoldable pub drain_both : Environment → ℕ → Node → Step
drain_both env generation n =
    joined (drain env generation) (asks env (peer_begins_drain generation) peer_failed) n
