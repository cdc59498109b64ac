-- ===== src/Cluster/Control/Pairing.antt =====
-- What a pair does to a node that is in the middle of a distributed session.
use siderostat.Prelude.{ℕ, ◌<◌, Bool, true, false, ◌≡◌, refl, ap, Option, none, some, arith}
use siderostat.Cluster.Auth.{AuthenticatedPeer}
use siderostat.Cluster.PeerLease.{NodeDescriptor, peer_present}
use siderostat.Cluster.Control.{
  ControlCommand, ControlEndpoint, ControlMessage, ControlError, err, endpoint, invalid_phase,
}
use siderostat.Cluster.Control.Processor.{
  ControlProcessor, handle_validated, find_processed, apply_unless_known, apply_checked,
  apply_valid, advanced, advance_generation, check_message, bad_request_id, is_pair,
}
use siderostat.Cluster.Control.Coordinator.{
  is_applied, is_idle, CoordinatorControl, validate_coordinator_command,
}
use siderostat.Cluster.Control.Coordinator
use siderostat.Cluster.Control.Worker.{WorkerControl, validate_worker_command}
use siderostat.Cluster.Control.Worker
use siderostat.Cluster.Control.Once.{apply_unless_known-known}

module _ (m : ControlMessage) (peer : AuthenticatedPeer) (scoped : Bool) (now : ℕ)
    (v : ControlCommand → Option ControlError) (reason : ControlError) where
  -- Where the check of the command refuses, nothing is applied.
  unless_known_refused :
      (p : ControlProcessor) (k : Option ControlMessage)
      → v m.command ≡ some reason
      → is_applied (apply_unless_known k p m peer scoped now v).1 ≡ false
  unless_known_refused p (some k) h =
      apply_unless_known-known p m peer scoped now (some k) v (λ e. cc)
  unless_known_refused p none h =
      ap (λ (e : Option ControlError). is_applied (apply_valid e p m peer scoped now).1) h

  checked_refused :
      (p : ControlProcessor) (c : Option ControlError)
      → v m.command ≡ some reason
      → is_applied (apply_checked c p m peer scoped now v).1 ≡ false
  checked_refused p (some c) h = refl
  checked_refused p none h =
      unless_known_refused p (find_processed m.generation m.request_id p.processed) h

  refused :
      (p : ControlProcessor) (e : ControlEndpoint)
      → v m.command ≡ some reason
      → is_applied (handle_validated p e m peer scoped now v).1 ≡ false
  unfolding handle_validated
  refused p e h = ground (arith, checked_refused (advanced p m) (check_message (advanced p m) m) h)

worker_refuses :
    (w : WorkerControl) (m : ControlMessage) (peer : AuthenticatedPeer) (scoped : Bool) (now : ℕ)
    → is_pair m.command ≡ true
    → is_idle w.phase ≡ false
    → peer_present w.processor.lease now ≡ true
    → validate_worker_command w.phase (peer_present w.processor.lease now) m.command
      ≡ some (invalid_phase w.phase)
unfolding validate_worker_command
worker_refuses w m peer scoped now hc hp present = ground (arith, hc, hp, present)

coordinator_refuses :
    (c : CoordinatorControl) (m : ControlMessage) (peer : AuthenticatedPeer) (scoped : Bool)
    (now : ℕ)
    → is_pair m.command ≡ true
    → is_idle c.phase ≡ false
    → peer_present c.processor.lease now ≡ true
    → validate_coordinator_command c.phase (peer_present c.processor.lease now) m.command
      ≡ some (invalid_phase c.phase)
unfolding validate_coordinator_command
coordinator_refuses c m peer scoped now hc hp present = ground (arith, hc, hp, present)

worker_keeps :
    (w : WorkerControl) (e : ControlEndpoint) (m : ControlMessage) (peer : AuthenticatedPeer)
    (scoped : Bool) (now : ℕ)
    → is_pair m.command ≡ true
    → is_idle w.phase ≡ false
    → peer_present w.processor.lease now ≡ true
    → (Worker.handle w e m peer scoped now).0.phase ≡ w.phase
unfolding Worker.handle
worker_keeps w e m peer scoped now hc hp present = ground (
  arith,
  refused m peer scoped now (validate_worker_command w.phase (peer_present w.processor.lease now))
      (invalid_phase w.phase) w.processor e (worker_refuses w m peer scoped now hc hp present),
)

coordinator_keeps :
    (c : CoordinatorControl) (e : ControlEndpoint) (m : ControlMessage) (peer : AuthenticatedPeer)
    (scoped : Bool) (now : ℕ)
    → is_pair m.command ≡ true
    → is_idle c.phase ≡ false
    → peer_present c.processor.lease now ≡ true
    → ((Coordinator.handle c e m peer scoped now).0.phase ≡ c.phase)
      × ((Coordinator.handle c e m peer scoped now).0.peer_distributed_child_generation
          ≡ c.peer_distributed_child_generation)
unfolding Coordinator.handle
coordinator_keeps c e m peer scoped now hc hp present =
    let r =
      refused m peer scoped now
        (validate_coordinator_command c.phase (peer_present c.processor.lease now))
        (invalid_phase c.phase) c.processor e
        (coordinator_refuses c m peer scoped now hc hp present) in
    (ground (arith, r), ground (arith, r))

-- A pair does not reset a session: on a node that prepares a worker, has one ready, drains or has
-- drained, and whose peer is present, a pair leaves the phase as it is, and on the coordinator the
-- generation of the worker's child too.
pub session_survives_pair :
    (w : WorkerControl) (c : CoordinatorControl) (e : ControlEndpoint) (m : ControlMessage)
    (peer : AuthenticatedPeer) (scoped : Bool) (now : ℕ)
    → is_pair m.command ≡ true
    → is_idle w.phase ≡ false
    → peer_present w.processor.lease now ≡ true
    → is_idle c.phase ≡ false
    → peer_present c.processor.lease now ≡ true
    → ((Worker.handle w e m peer scoped now).0.phase ≡ w.phase)
      × ((Coordinator.handle c e m peer scoped now).0.phase ≡ c.phase)
      × ((Coordinator.handle c e m peer scoped now).0.peer_distributed_child_generation
          ≡ c.peer_distributed_child_generation)
session_survives_pair w c e m peer scoped now hc hw pw hk pk = (
  worker_keeps w e m peer scoped now hc hw pw,
  (coordinator_keeps c e m peer scoped now hc hk pk).0,
  (coordinator_keeps c e m peer scoped now hc hk pk).1,
)

-- It moves the generation all the same: a worker in such a session refuses a pair with a later
-- generation for its phase, but has taken over that generation and forgotten the messages of the
-- session.
pub rejected_pair_advances :
    (w : WorkerControl) (m : ControlMessage) (d : NodeDescriptor) (peer : AuthenticatedPeer)
    (scoped : Bool) (now : ℕ)
    → m.command ≡ ControlCommand.pair d
    → is_idle w.phase ≡ false
    → peer_present w.processor.lease now ≡ true
    → bad_request_id m.request_id ≡ false
    → w.processor.local.generation < m.generation
    → Worker.handle w ControlEndpoint.pair m peer scoped now ≡ (
      record w { processor = advance_generation w.processor m.generation },
      err (invalid_phase w.phase),
    )
unfolding Worker.handle validate_worker_command handle_validated check_message endpoint
    advance_generation find_processed
rejected_pair_advances w m d peer scoped now hc hp present hid lt =
    ground (arith, hc, hp, present, hid, lt)
