-- ===== src/Target.antt =====
-- src/target.rs: the local role, the stable modes and states of the cluster, and the rule that
-- names the server to which the proxy sends a request.
pub mod Routing
use Prim.Native.String.{String}
use siderostat.Prelude.{Bool, true, false, not, ◌&&◌, if◌then◌else◌}

pub data LocalRole : Type 0 where
  coordinator worker unknown : LocalRole

pub data StableMode : Type 0 where
  solo_standalone paired_standalone distributed_layer_parallel : StableMode
  distributed_tensor_parallel : StableMode

pub data ClusterState : Type 0 where
  booting solo_standalone_starting solo_standalone_ready pairing : ClusterState
  paired_standalone_ready awaiting_worker_hello promoting : ClusterState
  distributed_starting distributed_ready demoting backoff : ClusterState
  manual_intervention_required tensor_parallel_starting : ClusterState
  awaiting_tensor_parallel_worker_hello tensor_parallel_ready : ClusterState
  demoting_tensor_parallel tensor_parallel_backoff : ClusterState

pub data UnavailableReason : Type 0 where
  transition inconsistent_stable_state : UnavailableReason
  unknown_role_without_local_standalone : UnavailableReason

pub data ProxyTarget : Type 0 where
  local_standalone coordinator : ProxyTarget
  unavailable : UnavailableReason → ProxyTarget

abbrev pub is_worker : LocalRole → Bool
is_worker LocalRole.worker = true
is_worker _ = false

abbrev pub is_unknown : LocalRole → Bool
is_unknown LocalRole.unknown = true
is_unknown _ = false

abbrev pub is_manual : ClusterState → Bool
is_manual manual_intervention_required = true
is_manual _ = false

abbrev pub is_backoff : ClusterState → Bool
is_backoff backoff = true
is_backoff _ = false

-- The `matches!` of `resolve_target`: the states at which a mode has settled.
abbrev pub is_stable : ClusterState → Bool
is_stable solo_standalone_ready = true
is_stable paired_standalone_ready = true
is_stable distributed_ready = true
is_stable tensor_parallel_ready = true
is_stable _ = false

-- The first `match`, under `state == Backoff`.
backoff_target : StableMode → LocalRole → Bool → ProxyTarget
backoff_target solo_standalone _ true = local_standalone
backoff_target paired_standalone LocalRole.coordinator true = local_standalone
backoff_target paired_standalone LocalRole.worker _ = ProxyTarget.coordinator
backoff_target _ _ _ = unavailable transition

-- The last `match`.
stable_target : StableMode → ClusterState → LocalRole → ProxyTarget
stable_target solo_standalone solo_standalone_ready LocalRole.coordinator = local_standalone
stable_target solo_standalone solo_standalone_ready LocalRole.worker = local_standalone
stable_target paired_standalone paired_standalone_ready LocalRole.coordinator = local_standalone
stable_target paired_standalone paired_standalone_ready LocalRole.worker = ProxyTarget.coordinator
stable_target distributed_layer_parallel distributed_ready LocalRole.coordinator = local_standalone
stable_target distributed_layer_parallel distributed_ready LocalRole.worker =
    ProxyTarget.coordinator
stable_target distributed_tensor_parallel tensor_parallel_ready LocalRole.coordinator =
    local_standalone
stable_target distributed_tensor_parallel tensor_parallel_ready LocalRole.worker =
    ProxyTarget.coordinator
stable_target _ solo_standalone_ready _ = unavailable inconsistent_stable_state
stable_target _ paired_standalone_ready _ = unavailable inconsistent_stable_state
stable_target _ distributed_ready _ = unavailable inconsistent_stable_state
stable_target _ tensor_parallel_ready _ = unavailable inconsistent_stable_state
stable_target _ _ _ = unavailable transition

unfoldable pub resolve_target : LocalRole → StableMode → ClusterState → Bool → ProxyTarget
unfolding backoff_target stable_target
resolve_target role mode state ready =
    if is_manual state && ready
    then local_standalone
    else if is_backoff state
    then backoff_target mode role ready
    else if not (is_stable state)
    then unavailable transition
    else if is_unknown role
    then if ready then local_standalone else unavailable unknown_role_without_local_standalone
    else stable_target mode state role

-- The names in diagnostics and in the persistent state.
unfoldable pub name : ClusterState → String
name booting = "booting"
name solo_standalone_starting = "solo-standalone-starting"
name solo_standalone_ready = "solo-standalone-ready"
name pairing = "pairing"
name paired_standalone_ready = "paired-standalone-ready"
name awaiting_worker_hello = "awaiting-worker-hello"
name promoting = "promoting"
name distributed_starting = "distributed-starting"
name distributed_ready = "distributed-ready"
name demoting = "demoting"
name backoff = "backoff"
name manual_intervention_required = "manual-intervention-required"
name tensor_parallel_starting = "tensor-parallel-starting"
name awaiting_tensor_parallel_worker_hello = "awaiting-tensor-parallel-worker-hello"
name tensor_parallel_ready = "tensor-parallel-ready"
name demoting_tensor_parallel = "demoting-tensor-parallel"
name tensor_parallel_backoff = "tensor-parallel-backoff"
