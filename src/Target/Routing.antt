-- ===== src/Target/Routing.antt =====
-- src/target.rs: what `resolve_target` publishes, and when.
use siderostat.Prelude.{Bool, true, ◌≡◌, ◌≢◌, ◌⊎◌, ◌↔◌, arith}
use siderostat.Target.{
  LocalRole, StableMode, ClusterState, ProxyTarget, local_standalone, resolve_target, is_stable,
  solo_standalone_ready, paired_standalone_ready, distributed_ready, tensor_parallel_ready, backoff,
  manual_intervention_required, solo_standalone, paired_standalone, distributed_layer_parallel,
  distributed_tensor_parallel,
}

-- The one state at which a mode is served.
abbrev pub ready_of : StableMode → ClusterState
ready_of solo_standalone = solo_standalone_ready
ready_of paired_standalone = paired_standalone_ready
ready_of distributed_layer_parallel = distributed_ready
ready_of distributed_tensor_parallel = tensor_parallel_ready

-- A request is sent to the peer exactly by a worker in a mode other than solo, at that mode's
-- ready state, or in backoff while the mode is paired.
pub resolve_target-coordinator_iff :
    (role : LocalRole) (mode : StableMode) (state : ClusterState) (ready : Bool)
    → (resolve_target role mode state ready ≡ ProxyTarget.coordinator) ↔ (
        (role ≡ LocalRole.worker)
        × (mode ≢ solo_standalone)
        × ((state ≡ ready_of mode) ⊎ ((state ≡ backoff) × (mode ≡ paired_standalone))))
unfolding resolve_target
resolve_target-coordinator_iff role mode state ready = (λ h. ground arith, λ h. ground arith)

-- The four reasons for which a node serves a request itself.
pub data ServesLocally (role : LocalRole) (mode : StableMode) (state : ClusterState) (ready : Bool)
    : Type 0 where
  held : state ≡ manual_intervention_required → ready ≡ true → ServesLocally role mode state ready
  waiting :
      state ≡ backoff
      → ready ≡ true
      → (mode ≡ solo_standalone) ⊎ ((mode ≡ paired_standalone) × (role ≡ LocalRole.coordinator))
      → ServesLocally role mode state ready
  roleless :
      is_stable state ≡ true
      → role ≡ LocalRole.unknown
      → ready ≡ true
      → ServesLocally role mode state ready
  settled :
      state ≡ ready_of mode
      → (role ≡ LocalRole.coordinator) ⊎ ((role ≡ LocalRole.worker) × (mode ≡ solo_standalone))
      → ServesLocally role mode state ready

-- A request is served by the local server exactly for one of these reasons: manual intervention
-- with a ready server; backoff with a ready server, in solo mode or on a paired coordinator; any
-- stable state of a node with no role and a ready server; the ready state of the node's mode, on
-- the coordinator, or on the worker in solo mode.
pub resolve_target-local_iff :
    (role : LocalRole) (mode : StableMode) (state : ClusterState) (ready : Bool)
    → (resolve_target role mode state ready ≡ local_standalone)
      ↔ ServesLocally role mode state ready
unfolding resolve_target
resolve_target-local_iff role mode state ready = (resolved role mode state ready, serves)
  where
    resolved :
        (role : LocalRole) (mode : StableMode) (state : ClusterState) (ready : Bool)
        → resolve_target role mode state ready ≡ local_standalone
        → ServesLocally role mode state ready
    resolved role mode state ready h = grind (arith, held, waiting, roleless, settled)

    serves :
        ServesLocally role mode state ready
        → resolve_target role mode state ready ≡ local_standalone
    serves (held s r) = ground arith
    serves (waiting s r m) = ground arith
    serves (roleless s r m) = ground arith
    serves (settled s r) = ground arith
