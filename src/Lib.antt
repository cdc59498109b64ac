-- ===== src/Lib.antt =====
-- A verification of siDeroStat, the program that makes two Macs one inference setup.
--
-- The program decides, on each of the two nodes, in which mode the node is (solo, paired, layer
-- parallel, tensor parallel), to which server a request goes, and when to retry or give up. The
-- development models these decisions; processes, sockets, files and HTTP stay outside.
--
-- Target: src/target.rs. `resolve_target` names the server for a role, a mode, a state and the
--   readiness of the local server.
-- Cluster.State: src/cluster/state.rs. `transition` makes the next snapshot of an event; `table`
--   is its match, row by row, `finish` builds the snapshot. `run` is the task of
--   `spawn_state_machine`, which takes the commands one by one.
-- Cluster.Failure: src/cluster/state.rs, `failure_action` and `PromotionFailureTracker`.
-- Cluster.Tp: src/cluster/tp.rs, the readiness of a tensor-parallel session.
-- Cluster.Operation: src/cluster/operation.rs, `OperationLease`. Each call is atomic but
--   `try_acquire`, which is `check_promotion` and `take_owner`. `Operation.Exclusion` and
--   `Operation.Slips` are about the lease and the flag under every interleaving.
-- Cluster.RecoveryTp: src/cluster/recovery_tp.rs, `TpRecoveryTracker`.
-- Cluster.Policy, Cluster.PolicyControl: src/cluster/policy.rs and
--   src/cluster/production/policy.rs; `PolicyControl.Force` is `ForceApplyCoordinator`.
-- Cluster.Auth: src/cluster/auth.rs, the signatures and the encoding; `Auth.Authenticator` is
--   `ControlAuthenticator`, its map of nonces a list.
-- Cluster.PeerLease: src/cluster/control.rs, `PeerLease` and the descriptor of a node.
-- Cluster.Control: src/cluster/control.rs, the messages of the two nodes; `Control.Processor` is
--   `ControlProcessor`, `Control.Coordinator` and `Control.Worker` are `CoordinatorControl`
--   (src/cluster/coordinator/control.rs) and `WorkerControl` (src/cluster/worker.rs).
-- Cluster.WorkerRuntime: src/cluster/worker.rs, `WorkerDistributedRuntime` with the answers of the
--   processes, and `TpWorkerTracker`.
-- Cluster.NodeTask: a task on a node, as src/cluster/coordinator.rs and src/cluster/runtime.rs write it.
--   `Node` is what the task shares with others, `Environment` answers its calls and acts meanwhile;
--   `apply` is `ClusterHandle::apply`, `drain` the whole of `AdmissionGate::drain`. `Steps` and `Ending`
--   are the lemmas that the two tasks share.
-- Cluster.CoordinatorRuntime: src/cluster/coordinator.rs, `CoordinatorDistributedRuntime`; `Promotion`
--   and `Demotion` are its operations, `Published`, `Histories` and `Ready` the proofs.
-- Cluster.ModeRuntime: src/cluster/runtime.rs, `ModeRuntime`.
-- Cluster.Hello: src/cluster/ds4_hello.rs. `Hello.Build`, `Hello.Parse` and `Hello.Reader` are about
--   the frame, `Hello.Rendezvous` about the checks of `RendezvousListener`.
-- Cluster.Network: src/cluster/role.rs and src/cluster/network_snapshot.rs, the role and the snapshot.
-- Admission: src/admission.rs. A call is what happens under one hold of the lock; `drain` is
--   `begin_drain`, the moment at which nothing is in flight, and `end_drain`.
-- Recovery.Detector: src/recovery.rs, `RecoveryDetector`.
-- Recovery.Jobs, Recovery.Service: src/recovery.rs, `RecoveryService`. The history is kept with its
--   newest job first; `Service.Calls` and `Service.Orderly` are the invariant, `Service.Limits` when
--   a job starts, `Service.Flush` what suppressed requests do to the history.
-- Websearch: src/websearch/response.rs and src/websearch/sse.rs. `Chunks` is `split_utf8_chunks`, over
--   bytes; `Sse` renders the events, `Sse.Numbered` and `Sse.Deltas` are about what a client sees.
--   `History` is src/websearch/history.rs.
-- Manager: src/manager. `Activation` is src/manager/activation.rs with the rollback of
--   src/manager/rollback.rs, over the artifacts that the nodes answer; `Jobs` is src/manager/jobs.rs.
-- Scenarios: tests, and the theorems at concrete inputs.
--
-- The parts meet as in the program: a snapshot carries the target of `resolve_target`, the session
-- of `Tp` and a failure of `Failure`; `RecoveryTp` and `PolicyControl` read the policy.
--
-- Numbers are natural numbers. Counters of 64 bits (generations, epochs) are not wrapped: they grow
-- by one for each event. Sums that the program saturates are cut at the largest value. A hash map is
-- an association list, and ids are numbers that are only compared. Floats are a type with the three
-- tests that the detector makes, and the standard library's hasher is a parameter, as are the two
-- hashes of the signatures. A loop is a recursion on the list of events, calls or bytes, without
-- fuel, but for three: the decimal digits of a timestamp have fuel for twenty, which is enough for
-- 64 bits; the splitting of a text has its length, which `Chunks.Whole` shows to be enough; and the
-- loop of the coordinator that waits for the loss of its route has the number of its turns, since it
-- may go on for ever.
-- Interleavings are lists of calls.
--
-- In `WorkerRuntime`, `CoordinatorRuntime` and `ModeRuntime` each await is a call whose answer is given, a timeout an
-- answer that comes too late.
--
-- Not modelled: the production runtime that calls these parts, the durations of timeouts, the HTTP
-- surfaces, the rest of the manager, the rest of the web search bridge, the monitor and the packaging
-- tool.
pub mod Prelude
pub mod Target
pub mod Admission
pub mod Recovery
pub mod Cluster
pub mod Websearch
pub mod Manager
mod Scenarios
