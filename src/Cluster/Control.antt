-- ===== src/Cluster/Control.antt =====
-- src/cluster/control.rs: the commands that two nodes send each other, their endpoints, messages and
-- errors. A request id is a list of bytes, a deployment is an id.
pub mod Coordinator
pub mod Once
pub mod Pairing
pub mod Processor
pub mod Worker
use Prim.Native.String.{String}
use text.Mathlib.Text.{◌==◌ as str_eq}
use siderostat.Prelude.{
  ℕ, Bool, true, false, not, ◌&&◌, ◌||◌, Option, none, some, List, [], ◌∷◌, if◌then◌else◌, ◌==◌,
  same_bytes,
}
use siderostat.Cluster.PeerLease.{ControlRole, ControlMode, NodeDescriptor}
use siderostat.Cluster.PeerLease

pub data DistributedControlPhase : Type 0 where
  unpaired paired worker_preparing worker_ready draining drained : DistributedControlPhase

pub data WorkerEventKind : Type 0 where
  ready exited reconnecting : WorkerEventKind
  ready_with_child_generation : ℕ → WorkerEventKind

pub data ControlCommand : Type 0 where
  pair : NodeDescriptor → ControlCommand
  prepare_worker begin_drain drained cancel_generation : ControlCommand
  worker_event : WorkerEventKind → ControlCommand
  distributed_ready demote prepare_restart cancel_restart : ControlCommand

pub data ControlEndpoint : Type 0 where
  node pair prepare_worker begin_drain drained cancel_generation : ControlEndpoint
  worker_event distributed_ready demote prepare_restart cancel_restart : ControlEndpoint

-- `ControlCommand::endpoint`.
unfoldable pub endpoint : ControlCommand → ControlEndpoint
endpoint (ControlCommand.pair descriptor) = ControlEndpoint.pair
endpoint ControlCommand.prepare_worker = ControlEndpoint.prepare_worker
endpoint ControlCommand.begin_drain = ControlEndpoint.begin_drain
endpoint ControlCommand.drained = ControlEndpoint.drained
endpoint ControlCommand.cancel_generation = ControlEndpoint.cancel_generation
endpoint (ControlCommand.worker_event event) = ControlEndpoint.worker_event
endpoint ControlCommand.distributed_ready = ControlEndpoint.distributed_ready
endpoint ControlCommand.demote = ControlEndpoint.demote
endpoint ControlCommand.prepare_restart = ControlEndpoint.prepare_restart
endpoint ControlCommand.cancel_restart = ControlEndpoint.cancel_restart

abbrev post : String → ControlEndpoint → String × String × ControlEndpoint
post path e = ("POST", path, e)

abbrev first_match :
    String → String → List (String × String × ControlEndpoint) → Option ControlEndpoint
first_match method path [] = none
first_match method path ((m, p, e) ∷ rest) =
    if str_eq method m && str_eq path p then some e else first_match method path rest

-- `ControlEndpoint::parse`.
unfoldable pub parse : String → String → Option ControlEndpoint
parse method path = first_match method path (
    ("GET", "/v1/node", ControlEndpoint.node)
    ∷ post "/v1/pair" ControlEndpoint.pair
    ∷ post "/v1/prepare-worker" ControlEndpoint.prepare_worker
    ∷ post "/v1/begin-drain" ControlEndpoint.begin_drain
    ∷ post "/v1/drained" ControlEndpoint.drained
    ∷ post "/v1/cancel-generation" ControlEndpoint.cancel_generation
    ∷ post "/v1/worker-event" ControlEndpoint.worker_event
    ∷ post "/v1/distributed-ready" ControlEndpoint.distributed_ready
    ∷ post "/v1/demote" ControlEndpoint.demote
    ∷ post "/v1/prepare-restart" ControlEndpoint.prepare_restart
    ∷ post "/v1/cancel-restart" ControlEndpoint.cancel_restart
    ∷ [])

pub record ControlMessage : Type 0 where
  pub request_id : List ℕ
  pub generation : ℕ  -- u64
  pub deployment_id : Option ℕ
  pub command : ControlCommand

pub data ControlResponseStatus : Type 0 where
  applied duplicate : ControlResponseStatus

pub record ControlResponse : Type 0 where
  pub status : ControlResponseStatus
  pub generation : ℕ
  pub descriptor : NodeDescriptor
  pub lease_expires_at_millis : Option ℕ

pub data ControlError : Type 0 where
  endpoint_mismatch invalid_request_id deployment_mismatch invalid_descriptor : ControlError
  route_not_scoped peer_not_paired idempotency_conflict command_not_allowed : ControlError
  planned_restart_in_progress : ControlError
  generation_mismatch : ℕ → ℕ → ControlError  -- expected, received
  invalid_phase : DistributedControlPhase → ControlError

-- `ControlError::http_status`.
unfoldable pub http_status : ControlError → ℕ
http_status deployment_mismatch = 412
http_status (generation_mismatch expected received) = 409
http_status idempotency_conflict = 409
http_status peer_not_paired = 409
http_status planned_restart_in_progress = 409
http_status (invalid_phase phase) = 409
http_status command_not_allowed = 403
http_status endpoint_mismatch = 400
http_status invalid_request_id = 400
http_status invalid_descriptor = 400
http_status route_not_scoped = 400

pub data ControlResult (T : Type 0) : Type 0 where
  ok : T → ControlResult T
  err : ControlError → ControlResult T

-- `requires_matching_deployment`.
abbrev pub requires_matching_deployment : ControlCommand → Bool
requires_matching_deployment (ControlCommand.pair descriptor) = false
requires_matching_deployment ControlCommand.demote = false
requires_matching_deployment _ = true

abbrev pub same_endpoint : ControlEndpoint → ControlEndpoint → Bool
same_endpoint ControlEndpoint.node ControlEndpoint.node = true
same_endpoint ControlEndpoint.pair ControlEndpoint.pair = true
same_endpoint ControlEndpoint.prepare_worker ControlEndpoint.prepare_worker = true
same_endpoint ControlEndpoint.begin_drain ControlEndpoint.begin_drain = true
same_endpoint ControlEndpoint.drained ControlEndpoint.drained = true
same_endpoint ControlEndpoint.cancel_generation ControlEndpoint.cancel_generation = true
same_endpoint ControlEndpoint.worker_event ControlEndpoint.worker_event = true
same_endpoint ControlEndpoint.distributed_ready ControlEndpoint.distributed_ready = true
same_endpoint ControlEndpoint.demote ControlEndpoint.demote = true
same_endpoint ControlEndpoint.prepare_restart ControlEndpoint.prepare_restart = true
same_endpoint ControlEndpoint.cancel_restart ControlEndpoint.cancel_restart = true
same_endpoint _ _ = false

abbrev pub same_id : Option ℕ → Option ℕ → Bool
same_id none none = true
same_id (some a) (some b) = a == b
same_id none (some _) = false
same_id (some _) none = false

abbrev pub same_role : ControlRole → ControlRole → Bool
same_role ControlRole.coordinator ControlRole.coordinator = true
same_role ControlRole.worker ControlRole.worker = true
same_role _ _ = false

abbrev same_mode : ControlMode → ControlMode → Bool
same_mode PeerLease.solo_standalone PeerLease.solo_standalone = true
same_mode PeerLease.paired_standalone PeerLease.paired_standalone = true
same_mode PeerLease.distributed_layer_parallel PeerLease.distributed_layer_parallel = true
same_mode PeerLease.distributed_tensor_parallel PeerLease.distributed_tensor_parallel = true
same_mode PeerLease.transitioning PeerLease.transitioning = true
same_mode _ _ = false

abbrev same_descriptor : NodeDescriptor → NodeDescriptor → Bool
same_descriptor a b =
    a.protocol_version == b.protocol_version
    && same_bytes a.node_id b.node_id
    && same_role a.role b.role
    && a.generation == b.generation
    && same_mode a.mode b.mode
    && same_id a.deployment_id b.deployment_id

abbrev same_event : WorkerEventKind → WorkerEventKind → Bool
same_event ready ready = true
same_event exited exited = true
same_event reconnecting reconnecting = true
same_event (ready_with_child_generation a) (ready_with_child_generation b) = a == b
same_event _ _ = false

-- The derived equality of commands: what they hold, and which they are.
abbrev same_content : ControlCommand → ControlCommand → Bool
same_content (ControlCommand.pair a) (ControlCommand.pair b) = same_descriptor a b
same_content (ControlCommand.worker_event a) (ControlCommand.worker_event b) = same_event a b
same_content _ _ = true

unfoldable pub same_message : ControlMessage → ControlMessage → Bool
unfolding endpoint
same_message a b =
    same_bytes a.request_id b.request_id
    && a.generation == b.generation
    && same_id a.deployment_id b.deployment_id
    && same_endpoint (endpoint a.command) (endpoint b.command)
    && same_content a.command b.command
