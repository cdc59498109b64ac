-- ===== src/Cluster/Control/Coordinator.antt =====
-- src/cluster/coordinator/control.rs: the coordinator's side of the protocol.
use siderostat.Prelude.{
  ℕ, Bool, true, false, not, ◌||◌, Option, none, some, List, if◌then◌else◌, ltb, ◌==◌,
}
use siderostat.Target.{ClusterState}
use siderostat.Cluster.Auth.{AuthenticatedPeer}
use siderostat.Cluster.PeerLease.{ControlRole, NodeDescriptor, peer_present}
use siderostat.Cluster.PeerLease
use siderostat.Cluster.Hello.Rendezvous.{RendezvousControlSnapshot}
use siderostat.Cluster.Control.{
  DistributedControlPhase, unpaired, paired, worker_preparing, worker_ready, draining,
  WorkerEventKind, ready, ready_with_child_generation, ControlCommand, ControlEndpoint,
  ControlMessage, ControlResponse, ControlError, ControlResult, ok, err, same_role, applied,
  duplicate, command_not_allowed, invalid_phase, generation_mismatch, invalid_descriptor,
}
use siderostat.Cluster.Control.Processor.{
  ControlProcessor, new_processor, handle_validated, message, candidate_generation,
  descriptor_response,
}
use siderostat.Cluster.Control.Processor

pub record CoordinatorControl : Type 0 where
  pub processor : ControlProcessor
  pub phase : DistributedControlPhase
  pub peer_distributed_child_generation : Option ℕ

unfoldable pub new_coordinator : NodeDescriptor → ℕ → ℕ → ControlResult CoordinatorControl
new_coordinator d lease stability =
    if not (same_role d.role ControlRole.coordinator) || not (d.protocol_version == 1)
    then err invalid_descriptor
    else ok (record {
      processor = new_processor d ControlRole.worker lease stability;
      phase = unpaired;
      peer_distributed_child_generation = none;
    })

-- `node_descriptor`.
unfoldable pub node_descriptor :
    CoordinatorControl
    → AuthenticatedPeer
    → Bool
    → ℕ
    → CoordinatorControl × ControlResult ControlResponse
node_descriptor c peer scoped now =
    let r = descriptor_response c.processor peer scoped now in (record c { processor = r.0 }, r.1)

-- The commands that the coordinator takes.
abbrev pub is_allowed : ControlCommand → Bool
is_allowed (ControlCommand.pair d) = true
is_allowed ControlCommand.drained = true
is_allowed (ControlCommand.worker_event e) = true
is_allowed ControlCommand.cancel_generation = true
is_allowed ControlCommand.demote = true
is_allowed _ = false

abbrev pub is_idle : DistributedControlPhase → Bool
is_idle unpaired = true
is_idle paired = true
is_idle _ = false

abbrev pub is_started : DistributedControlPhase → Bool
is_started worker_ready = true
is_started draining = true
is_started DistributedControlPhase.drained = true
is_started _ = false

abbrev pub is_active : DistributedControlPhase → Bool
is_active worker_preparing = true
is_active phase = is_started phase

abbrev pub is_ready_event : WorkerEventKind → Bool
is_ready_event ready = true
is_ready_event (ready_with_child_generation g) = true
is_ready_event _ = false

abbrev pub is_preparing : DistributedControlPhase → Bool
is_preparing worker_preparing = true
is_preparing _ = false

abbrev pub is_paired : DistributedControlPhase → Bool
is_paired paired = true
is_paired _ = false

abbrev pub is_unpaired : DistributedControlPhase → Bool
is_unpaired unpaired = true
is_unpaired _ = false

abbrev pub is_worker_ready : DistributedControlPhase → Bool
is_worker_ready worker_ready = true
is_worker_ready _ = false

abbrev pub is_draining : DistributedControlPhase → Bool
is_draining draining = true
is_draining _ = false

abbrev pub is_drained : DistributedControlPhase → Bool
is_drained DistributedControlPhase.drained = true
is_drained _ = false

-- The `match` of `validate_coordinator_command`.
abbrev pub is_valid : DistributedControlPhase → Bool → ControlCommand → Bool
is_valid phase present (ControlCommand.pair d) = is_idle phase || not present
is_valid phase present (ControlCommand.worker_event e) =
    if is_ready_event e then is_preparing phase else not (is_unpaired phase)
is_valid phase present ControlCommand.drained = is_draining phase
is_valid phase present ControlCommand.cancel_generation = is_active phase
is_valid phase present ControlCommand.demote = is_started phase
is_valid phase present _ = false

unfoldable pub validate_coordinator_command :
    DistributedControlPhase → Bool → ControlCommand → Option ControlError
validate_coordinator_command phase present command =
    if is_valid phase present command then none else some (invalid_phase phase)

-- The phase and the child's generation after a command that was applied.
unfoldable pub next_phase :
    DistributedControlPhase → Option ℕ → ControlCommand → DistributedControlPhase × Option ℕ
next_phase phase child (ControlCommand.pair d) = (paired, none)
next_phase phase child (ControlCommand.worker_event ready) = (worker_ready, none)
next_phase phase child (ControlCommand.worker_event (ready_with_child_generation g)) =
    (worker_ready, some g)
next_phase phase child (ControlCommand.worker_event e) = (phase, none)
next_phase phase child ControlCommand.drained = (DistributedControlPhase.drained, child)
next_phase phase child ControlCommand.cancel_generation = (paired, none)
next_phase phase child ControlCommand.demote = (paired, none)
next_phase phase child _ = (phase, child)

abbrev pub is_applied : ControlResult ControlResponse → Bool
is_applied (err e) = false
is_applied (ok r) = elim r.status [ applied ↦ true | duplicate ↦ false ]

abbrev pub after :
    CoordinatorControl
    → ControlCommand
    → ControlProcessor × ControlResult ControlResponse
    → CoordinatorControl × ControlResult ControlResponse
after c command (p, r) = (
  if is_applied r
      then record {
        processor = p;
        phase = (next_phase c.phase c.peer_distributed_child_generation command).0;
        peer_distributed_child_generation =
            (next_phase c.phase c.peer_distributed_child_generation command).1;
      }
      else record c { processor = p },
  r,
)

unfoldable pub handle :
    CoordinatorControl
    → ControlEndpoint
    → ControlMessage
    → AuthenticatedPeer
    → Bool
    → ℕ
    → CoordinatorControl × ControlResult ControlResponse
handle c e m peer scoped now =
    if not (is_allowed m.command)
    then (c, err command_not_allowed)
    else after c m.command (
        handle_validated c.processor e m peer scoped now
          (validate_coordinator_command c.phase (peer_present c.processor.lease now)))

unfoldable pub invalidate_route : CoordinatorControl → CoordinatorControl
invalidate_route c = record c {
  processor = record c.processor { lease = PeerLease.invalidate_route c.processor.lease };
}

abbrev pub phase_of : Option NodeDescriptor → DistributedControlPhase
phase_of none = unpaired
phase_of (some d) = paired

unfoldable pub advance_generation : CoordinatorControl → ℕ → CoordinatorControl
advance_generation c generation =
    let p = Processor.advance_generation c.processor generation in
    record {
      processor = p;
      phase = phase_of p.lease.descriptor;
      peer_distributed_child_generation = none;
    }

unfoldable pub reset_for_repair : CoordinatorControl → ℕ → CoordinatorControl
reset_for_repair c now = record c {
  phase = if peer_present c.processor.lease now then paired else unpaired;
  peer_distributed_child_generation = none;
}

unfoldable pub propose_candidate : CoordinatorControl → ℕ → CoordinatorControl × ℕ
propose_candidate c peer_generation =
    let candidate = candidate_generation c.processor peer_generation in
    let p = Processor.advance_generation c.processor candidate in
    if ltb c.processor.local.generation candidate
    then (record c { processor = p; phase = phase_of p.lease.descriptor }, candidate)
    else (c, candidate)

-- A note or a message that the phase must allow, and for a note the generation.
abbrev pub at_generation : ControlProcessor → ℕ → Option ControlError
at_generation p generation =
    if not (generation == p.local.generation)
    then some (generation_mismatch p.local.generation generation)
    else none

abbrev pub noted :
    Option ControlError
    → Bool
    → CoordinatorControl
    → DistributedControlPhase
    → CoordinatorControl × Option ControlError
noted (some e) allowed c phase = (c, some e)
noted none allowed c phase =
    if allowed then (record c { phase = phase }, none) else (c, some (invalid_phase c.phase))

unfoldable pub note_prepare_sent : CoordinatorControl → ℕ → CoordinatorControl × Option ControlError
note_prepare_sent c generation =
    noted (at_generation c.processor generation) (is_paired c.phase) c worker_preparing

unfoldable pub note_begin_drain_sent :
    CoordinatorControl → ℕ → CoordinatorControl × Option ControlError
note_begin_drain_sent c generation =
    noted (at_generation c.processor generation) (is_worker_ready c.phase) c draining

unfoldable pub note_demote_complete :
    CoordinatorControl → ℕ → CoordinatorControl × Option ControlError
note_demote_complete c generation =
    let r = noted (at_generation c.processor generation) (is_started c.phase) c paired in
    (
      elim r.1 [ none ↦ record r.0 { peer_distributed_child_generation = none } | some e ↦ r.0 ],
      r.1,
    )

abbrev pub sent : Bool → CoordinatorControl → List ℕ → ControlCommand → ControlResult ControlMessage
sent allowed c request_id command =
    if allowed then ok (message c.processor request_id command) else err (invalid_phase c.phase)

unfoldable pub prepare_worker_message : CoordinatorControl → List ℕ → ControlResult ControlMessage
prepare_worker_message c id = sent (is_paired c.phase) c id ControlCommand.prepare_worker

unfoldable pub begin_drain_message : CoordinatorControl → List ℕ → ControlResult ControlMessage
begin_drain_message c id = sent (is_worker_ready c.phase) c id ControlCommand.begin_drain

unfoldable pub prepare_restart_message : CoordinatorControl → List ℕ → ControlResult ControlMessage
prepare_restart_message c id = sent (is_worker_ready c.phase) c id ControlCommand.prepare_restart

unfoldable pub cancel_restart_message : CoordinatorControl → List ℕ → ControlResult ControlMessage
cancel_restart_message c id = sent (not (is_unpaired c.phase)) c id ControlCommand.cancel_restart

unfoldable pub demote_message : CoordinatorControl → List ℕ → ControlResult ControlMessage
demote_message c id = sent (is_started c.phase) c id ControlCommand.demote

unfoldable pub distributed_ready_message :
    CoordinatorControl → List ℕ → CoordinatorControl × ControlResult ControlMessage
distributed_ready_message c id =
    if is_drained c.phase
    then (
      record c { phase = worker_ready },
      ok (message c.processor id ControlCommand.distributed_ready),
    )
    else (c, err (invalid_phase c.phase))

unfoldable pub cancel_generation_message :
    CoordinatorControl → List ℕ → CoordinatorControl × ControlResult ControlMessage
cancel_generation_message c id =
    if is_active c.phase
    then (record c { phase = paired }, ok (message c.processor id ControlCommand.cancel_generation))
    else (c, err (invalid_phase c.phase))

unfoldable pub rendezvous_snapshot :
    CoordinatorControl → ClusterState → ℕ → RendezvousControlSnapshot
rendezvous_snapshot c state now = record {
  state = state;
  generation = c.processor.local.generation;
  deployment_id = c.processor.local.deployment_id;
  lease_valid = peer_present c.processor.lease now;
}
