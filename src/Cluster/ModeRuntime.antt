-- ===== src/Cluster/ModeRuntime.antt =====
-- src/cluster/runtime.rs: `ModeRuntime`, which starts a node and brings it to the pair and back as its
-- peer comes and goes. The log lines, and so the owner of an event, are left out.
pub mod Settled
pub mod Recovery
use siderostat.Prelude.{ℕ, Bool, true, false, not, ◌||◌, Option, none, some, if◌then◌else◌, ◌∷◌}
use siderostat.Target.{
  LocalRole, ClusterState, solo_standalone_ready, pairing, paired_standalone_ready,
  awaiting_worker_hello, promoting, distributed_starting, distributed_ready, demoting,
}
use siderostat.Target
use siderostat.Admission.{DrainError, block, start_serving}
use siderostat.Cluster.State.{
  ClusterSnapshot, TransitionError, booting_at, begin_solo_standalone, local_standalone_ready,
  local_standalone_lost, begin_pairing, pairing_ready, peer_lost, require_manual_intervention,
}
use siderostat.Cluster.NodeTask.{
  starts_standalone, stops_standalone, asks_running, Node, Environment, FromErrors, ok, err, awaits,
  asks, and_then, with_snapshot, apply, drain, set_target, block_transition, is_available,
}
use siderostat.Cluster.NodeTask

pub data RuntimeError : Type 0 where
  transition_failed : TransitionError → RuntimeError
  drain_failed : DrainError → RuntimeError
  local_lifecycle_failed : ℕ → RuntimeError

instance abbrev pub runtime_errors : FromErrors RuntimeError
runtime_errors = record { of_transition = transition_failed; of_drain = drain_failed }

abbrev pub Outcome : Type 0
Outcome = NodeTask.Outcome RuntimeError

abbrev pub Step : Type 0
Step = NodeTask.Step RuntimeError

unfoldable pub apply_proxy_snapshot : ClusterSnapshot → Node → Node
apply_proxy_snapshot s n = set_target s.target (is_available s.target) n

-- The target of the snapshot, and admission.
unfoldable pub serve : ClusterSnapshot → Node → Outcome
unfolding apply_proxy_snapshot
serve s n = (record (apply_proxy_snapshot s n) { gate = start_serving n.gate }, ok s)

-- The local server is started in the generation of a snapshot, and is ready.
abbrev pub start_local :
    Environment → (ClusterSnapshot → Node → Outcome) → ClusterSnapshot → Node → Outcome
start_local env next starting n =
    and_then (asks env (starts_standalone starting.generation) local_lifecycle_failed n)
      (λ n. with_snapshot (apply env starting.generation local_standalone_ready n) next)

abbrev pub started : Environment → Outcome → Outcome
started env (n, ok ready) = serve ready n
started env (n, err e) = (awaits env stops_standalone n, err e)

abbrev returned : ClusterSnapshot → Node → Outcome
returned s n = (n, ok s)

abbrev boot : LocalRole → ℕ → Node → Node
boot role baseline n = record n { cluster = booting_at role baseline }

-- `spawn_ready_at`: on a failure the local server is stopped.
unfoldable pub spawn_ready_at : Environment → LocalRole → ℕ → Node → Outcome
spawn_ready_at env role baseline n = started env (
    with_snapshot (apply env baseline begin_solo_standalone (boot role baseline n))
      (start_local env returned))

abbrev hold : ClusterSnapshot → Node → Outcome
hold s n = (record (apply_proxy_snapshot s n) { gate = block n.gate }, ok s)

unfoldable pub spawn_manual_at : Environment → LocalRole → ℕ → Node → Outcome
spawn_manual_at env role baseline n =
    with_snapshot (apply env baseline require_manual_intervention (boot role baseline n)) hold

abbrev pub is_worker : LocalRole → Bool
is_worker LocalRole.worker = true
is_worker _ = false

abbrev pub is_unknown : LocalRole → Bool
is_unknown LocalRole.unknown = true
is_unknown _ = false

abbrev after_drain : Environment → Step → Step
after_drain env (n, some e) = (n, some e)
after_drain env (n, none) = asks env stops_standalone local_lifecycle_failed n

-- A worker drains and stops its server before it is paired; the other node only blocks its gate.
abbrev pub leave_service : Environment → LocalRole → ℕ → Node → Step
leave_service env role generation n =
    if is_worker role
    then after_drain env (drain env generation n)
    else (record n { gate = block n.gate }, none)

unfoldable pub form_pair : Environment → LocalRole → Node → Outcome
form_pair env role n = with_snapshot (apply env n.cluster.generation begin_pairing n) (λ pairing n.
    and_then (leave_service env role pairing.generation n)
      (λ n. with_snapshot (apply env pairing.generation pairing_ready n) serve))

abbrev pub restart_worker : Environment → LocalRole → ℕ → Node → Step
restart_worker env role generation n =
    if is_worker role
    then asks env (starts_standalone generation) local_lifecycle_failed n
    else (n, none)

unfoldable pub fallback_to_solo : Environment → LocalRole → Node → Outcome
fallback_to_solo env role n =
    with_snapshot (apply env n.cluster.generation peer_lost (block_transition n)) (λ starting n.
      and_then (restart_worker env role starting.generation n)
        (λ n. with_snapshot (apply env starting.generation local_standalone_ready n) serve))

-- The states that have a peer.
abbrev pub has_peer : ClusterState → Bool
has_peer pairing = true
has_peer paired_standalone_ready = true
has_peer awaiting_worker_hello = true
has_peer promoting = true
has_peer distributed_starting = true
has_peer distributed_ready = true
has_peer demoting = true
has_peer _ = false

abbrev pub is_solo_ready : ClusterState → Bool
is_solo_ready solo_standalone_ready = true
is_solo_ready _ = false

abbrev pub reconciled : Environment → LocalRole → Bool → Node → Outcome
reconciled env role true n =
    if is_solo_ready n.cluster.state then form_pair env role n else (n, ok n.cluster)
reconciled env role false n =
    if has_peer n.cluster.state then fallback_to_solo env role n else (n, ok n.cluster)

unfoldable pub reconcile_peer_with_presence : Environment → LocalRole → Bool → Node → Outcome
reconcile_peer_with_presence env role present n =
    if is_unknown role then (n, ok n.cluster) else reconciled env role present n

abbrev unless_running : Environment → ClusterSnapshot → Node → Option ℕ → Bool → Outcome
unless_running env current n (some e) runs = (n, err (local_lifecycle_failed e))
unless_running env current n none true = (n, ok current)
unless_running env current n none false =
    with_snapshot (apply env current.generation local_standalone_lost (block_transition n))
      (start_local env serve)

unfoldable pub reconcile_local : Environment → Node → Outcome
reconcile_local env n =
    if not (is_solo_ready n.cluster.state)
    then (n, ok n.cluster)
    else unless_running env n.cluster (awaits env asks_running n)
        (env.failure (asks_running ∷ n.calls)) (env.running (asks_running ∷ n.calls))
