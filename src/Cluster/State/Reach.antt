-- ===== src/Cluster/State/Reach.antt =====
-- src/cluster/state.rs: what holds of every snapshot that the state machine publishes.
use siderostat.Prelude.{
  ℕ, Bool, true, false, ◌≡◌, refl, ◌≢◌, ◌∙◌, Option, none, some, List, [], ◌∷◌, arith,
}
use siderostat.Target.{
  LocalRole, StableMode, ClusterState, resolve_target, solo_standalone, paired_standalone,
  distributed_layer_parallel, distributed_tensor_parallel, booting, solo_standalone_starting,
  solo_standalone_ready, pairing, paired_standalone_ready, awaiting_worker_hello, promoting,
  distributed_starting, distributed_ready, demoting, backoff, manual_intervention_required,
  tensor_parallel_starting, awaiting_tensor_parallel_worker_hello, tensor_parallel_ready,
  demoting_tensor_parallel, tensor_parallel_backoff, local_standalone, unavailable,
  inconsistent_stable_state,
}
use siderostat.Cluster.Tp.{TpSessionState, apply_event, route_ready, advance, is_complete}
use siderostat.Cluster.State.{
  ClusterSnapshot, ClusterEvent, transition, run, after, table, operator_reconcile, backoff_elapsed,
  tensor_parallel_warmup_done, new_snapshot, booting_at, next_tp,
}

-- The modes in which a state can stand. Backoff and manual intervention keep any mode.
abbrev pub fits : StableMode → ClusterState → Bool
fits solo_standalone booting = true
fits solo_standalone solo_standalone_starting = true
fits solo_standalone solo_standalone_ready = true
fits solo_standalone pairing = true
fits paired_standalone paired_standalone_ready = true
fits paired_standalone awaiting_worker_hello = true
fits paired_standalone promoting = true
fits paired_standalone distributed_starting = true
fits distributed_layer_parallel distributed_ready = true
fits distributed_layer_parallel demoting = true
fits distributed_tensor_parallel tensor_parallel_starting = true
fits distributed_tensor_parallel awaiting_tensor_parallel_worker_hello = true
fits distributed_tensor_parallel tensor_parallel_ready = true
fits distributed_tensor_parallel demoting_tensor_parallel = true
fits distributed_tensor_parallel tensor_parallel_backoff = true
fits _ backoff = true
fits _ manual_intervention_required = true
fits _ _ = false

pub record IsCoherent (c : ClusterSnapshot) : Type 0 where
  pub resolved : c.target ≡ resolve_target c.role c.stable_mode c.state c.local_standalone_ready
  pub in_mode : fits c.stable_mode c.state ≡ true
  pub worker_solo :
      c.role ≡ LocalRole.worker → c.local_standalone_ready ≡ true → c.stable_mode ≡ solo_standalone

pub booting_at-IsCoherent : (role : LocalRole) (g : ℕ) → IsCoherent (booting_at role g)
unfolding booting_at
booting_at-IsCoherent role g = ground arith

-- One event keeps a snapshot coherent: the target is the one that the routing rule gives, the state
-- fits the stable mode, and a worker calls its own server ready in solo mode only.
pub transition-IsCoherent :
    (c : ClusterSnapshot) (e : ClusterEvent) → IsCoherent c → IsCoherent (after c (transition c e))
unfolding transition table new_snapshot
transition-IsCoherent c e h = record {
  resolved = ground arith;
  in_mode = ground arith;
  worker_solo = ground arith;
}

run-IsCoherent :
    (c : ClusterSnapshot) (es : List ClusterEvent) → IsCoherent c → IsCoherent (run c es)
unfolding run
run-IsCoherent c [] h = h
run-IsCoherent c (e ∷ es) h =
    run-IsCoherent (after c (transition c e)) es (transition-IsCoherent c e h)

consistent : (c : ClusterSnapshot) → IsCoherent c → c.target ≢ unavailable inconsistent_stable_state
unfolding resolve_target
consistent c h e = ground arith

-- However the cluster got where it is since it booted, it never publishes the target for an
-- inconsistent stable state.
pub run-consistent :
    (role : LocalRole) (g : ℕ) (es : List ClusterEvent)
    → (run (booting_at role g) es).target ≢ unavailable inconsistent_stable_state
run-consistent role g es =
    consistent (run (booting_at role g) es)
      (run-IsCoherent (booting_at role g) es (booting_at-IsCoherent role g))

role-transition :
    (c : ClusterSnapshot) (e : ClusterEvent) → (after c (transition c e)).role ≡ c.role
unfolding transition table new_snapshot
role-transition c e = ground arith

role-run : (c : ClusterSnapshot) (es : List ClusterEvent) → (run c es).role ≡ c.role
unfolding run
role-run c [] = refl
role-run c (e ∷ es) = role-run (after c (transition c e)) es ∙ role-transition c e

worker_local :
    (c : ClusterSnapshot)
    → IsCoherent c
    → c.role ≡ LocalRole.worker
    → c.target ≡ local_standalone
    → c.stable_mode ≡ solo_standalone
unfolding resolve_target
worker_local c h w t = ground arith

-- A worker, whatever happened to it since it booted, sends a request to its own server in solo mode
-- only; in every other mode it sends requests to the coordinator or refuses them.
pub run-worker_local :
    (g : ℕ) (es : List ClusterEvent)
    → (run (booting_at LocalRole.worker g) es).target ≡ local_standalone
    → (run (booting_at LocalRole.worker g) es).stable_mode ≡ solo_standalone
unfolding booting_at new_snapshot
run-worker_local g es =
    worker_local (run (booting_at LocalRole.worker g) es)
      (run-IsCoherent (booting_at LocalRole.worker g) es (booting_at-IsCoherent LocalRole.worker g))
      (role-run (booting_at LocalRole.worker g) es)

-- An event that reports a warm-up names its session, and none resumes a tensor-parallel mode from
-- plain backoff or from manual intervention.
abbrev pub IsAttended : ClusterSnapshot → ClusterEvent → Type 0
IsAttended c e =
    (e.kind ≡ tensor_parallel_warmup_done → e.tp_session ≢ none)
    × (c.stable_mode ≡ distributed_tensor_parallel
        → (c.state ≡ backoff → e.kind ≢ backoff_elapsed)
          × (c.state ≡ manual_intervention_required → e.kind ≢ operator_reconcile))

abbrev pub Attended : ClusterSnapshot → List ClusterEvent → Type 0
Attended c [] = Unit {0}
Attended c (e ∷ es) = IsAttended c e × Attended (after c (transition c e)) es

abbrev pub session_complete : Option TpSessionState → Bool
session_complete none = false
session_complete (some t) = route_ready t

-- The tensor-parallel route is published with every element of its session.
abbrev pub IsEarned : ClusterSnapshot → Type 0
IsEarned c = c.state ≡ tensor_parallel_ready → session_complete c.tp ≡ true

transition-IsEarned :
    (c : ClusterSnapshot) (e : ClusterEvent)
    → IsAttended c e
    → IsEarned c
    → IsEarned (after c (transition c e))
unfolding transition table new_snapshot next_tp apply_event advance route_ready is_complete
transition-IsEarned c e a h = ground arith

run-IsEarned :
    (c : ClusterSnapshot) (es : List ClusterEvent)
    → Attended c es
    → IsEarned c
    → IsEarned (run c es)
unfolding run
run-IsEarned c [] a h = h
run-IsEarned c (e ∷ es) a h =
    run-IsEarned (after c (transition c e)) es a.1 (transition-IsEarned c e a.0 h)

booting_at-IsEarned : (role : LocalRole) (g : ℕ) → IsEarned (booting_at role g)
unfolding booting_at new_snapshot
booting_at-IsEarned role g h = cc

-- Since boot, and with attended events only, a snapshot stands at TensorParallelReady only with a
-- session of which all four elements (worker, coordinator, handshake and HTTP, warm-up) are ready.
pub run-session_complete :
    (role : LocalRole) (g : ℕ) (es : List ClusterEvent)
    → Attended (booting_at role g) es
    → (run (booting_at role g) es).state ≡ tensor_parallel_ready
    → session_complete (run (booting_at role g) es).tp ≡ true
run-session_complete role g es a =
    run-IsEarned (booting_at role g) es a (booting_at-IsEarned role g)
