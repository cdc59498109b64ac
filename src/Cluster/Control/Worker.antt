-- ===== src/Cluster/Control/Worker.antt =====
-- src/cluster/worker.rs: the worker's side of the protocol (`WorkerControl`).
use siderostat.Prelude.{
  ℕ, Bool, true, false, not, ◌||◌, Option, none, some, List, if◌then◌else◌, ◌==◌,
}
use siderostat.Cluster.Auth.{AuthenticatedPeer}
use siderostat.Cluster.PeerLease.{ControlRole, NodeDescriptor, peer_present}
use siderostat.Cluster.PeerLease
use siderostat.Cluster.Control.{
  DistributedControlPhase, unpaired, paired, worker_preparing, worker_ready, draining, exited,
  ready_with_child_generation, ControlCommand, ControlEndpoint, ControlMessage, ControlResponse,
  ControlError, ControlResult, ok, err, same_role, command_not_allowed, invalid_phase,
  invalid_descriptor,
}
use siderostat.Cluster.Control.Processor.{
  ControlProcessor, new_processor, handle_validated, message, descriptor_response,
}
use siderostat.Cluster.Control.Processor
use siderostat.Cluster.Control.Coordinator.{
  is_idle, is_started, is_active, is_preparing, is_paired, is_unpaired, is_worker_ready,
  is_draining, is_drained, is_applied, phase_of,
}

pub record WorkerControl : Type 0 where
  pub processor : ControlProcessor
  pub phase : DistributedControlPhase

unfoldable pub new_worker : NodeDescriptor → ℕ → ℕ → ControlResult WorkerControl
new_worker d lease stability =
    if not (same_role d.role ControlRole.worker) || not (d.protocol_version == 1)
    then err invalid_descriptor
    else ok (record {
      processor = new_processor d ControlRole.coordinator lease stability;
      phase = unpaired;
    })

unfoldable pub node_descriptor :
    WorkerControl → AuthenticatedPeer → Bool → ℕ → WorkerControl × ControlResult ControlResponse
node_descriptor w peer scoped now =
    let r = descriptor_response w.processor peer scoped now in (record w { processor = r.0 }, r.1)

-- The commands that the worker takes.
abbrev pub is_allowed : ControlCommand → Bool
is_allowed ControlCommand.drained = false
is_allowed (ControlCommand.worker_event e) = false
is_allowed _ = true

-- The `match` of `validate_worker_command`.
abbrev pub is_valid : DistributedControlPhase → Bool → ControlCommand → Bool
is_valid phase present (ControlCommand.pair d) = is_idle phase || not present
is_valid phase present ControlCommand.prepare_worker = is_paired phase
is_valid phase present ControlCommand.begin_drain = is_worker_ready phase
is_valid phase present ControlCommand.distributed_ready = is_drained phase
is_valid phase present ControlCommand.cancel_generation = is_active phase
is_valid phase present ControlCommand.demote = not (is_unpaired phase)
is_valid phase present ControlCommand.prepare_restart = not (is_unpaired phase)
is_valid phase present ControlCommand.cancel_restart = not (is_unpaired phase)
is_valid phase present _ = false

unfoldable pub validate_worker_command :
    DistributedControlPhase → Bool → ControlCommand → Option ControlError
validate_worker_command phase present command =
    if is_valid phase present command then none else some (invalid_phase phase)

-- The phase after a command that was applied.
unfoldable pub next_phase : DistributedControlPhase → ControlCommand → DistributedControlPhase
next_phase phase (ControlCommand.pair d) = paired
next_phase phase ControlCommand.prepare_worker = worker_preparing
next_phase phase ControlCommand.begin_drain = draining
next_phase phase ControlCommand.distributed_ready = worker_ready
next_phase phase ControlCommand.cancel_generation = paired
next_phase phase ControlCommand.demote = paired
next_phase phase _ = phase

abbrev pub after :
    WorkerControl
    → ControlCommand
    → ControlProcessor × ControlResult ControlResponse
    → WorkerControl × ControlResult ControlResponse
after w command (p, r) = (
  record { processor = p; phase = if is_applied r then next_phase w.phase command else w.phase },
  r,
)

unfoldable pub handle :
    WorkerControl
    → ControlEndpoint
    → ControlMessage
    → AuthenticatedPeer
    → Bool
    → ℕ
    → WorkerControl × ControlResult ControlResponse
handle w e m peer scoped now =
    if not (is_allowed m.command)
    then (w, err command_not_allowed)
    else after w m.command (
        handle_validated w.processor e m peer scoped now
          (validate_worker_command w.phase (peer_present w.processor.lease now)))

unfoldable pub invalidate_route : WorkerControl → WorkerControl
invalidate_route w = record w {
  processor = record w.processor { lease = PeerLease.invalidate_route w.processor.lease };
}

unfoldable pub advance_generation : WorkerControl → ℕ → WorkerControl
advance_generation w generation =
    let p = Processor.advance_generation w.processor generation in
    record { processor = p; phase = phase_of p.lease.descriptor }

unfoldable pub reset_for_repair : WorkerControl → ℕ → WorkerControl
reset_for_repair w now = record w {
  phase = if peer_present w.processor.lease now then paired else unpaired;
}

-- A message of the worker moves its own phase.
abbrev pub sends :
    Bool
    → WorkerControl
    → DistributedControlPhase
    → List ℕ
    → ControlCommand
    → WorkerControl × ControlResult ControlMessage
sends allowed w phase request_id command =
    if allowed
    then (record w { phase = phase }, ok (message w.processor request_id command))
    else (w, err (invalid_phase w.phase))

unfoldable pub worker_ready_message :
    WorkerControl → List ℕ → ℕ → WorkerControl × ControlResult ControlMessage
worker_ready_message w id child =
    sends (is_preparing w.phase) w worker_ready id
      (ControlCommand.worker_event (ready_with_child_generation child))

unfoldable pub drained_message :
    WorkerControl → List ℕ → WorkerControl × ControlResult ControlMessage
drained_message w id =
    sends (is_draining w.phase) w DistributedControlPhase.drained id ControlCommand.drained

unfoldable pub child_exited_message :
    WorkerControl → List ℕ → WorkerControl × ControlResult ControlMessage
child_exited_message w id =
    sends (is_started w.phase) w paired id (ControlCommand.worker_event exited)
