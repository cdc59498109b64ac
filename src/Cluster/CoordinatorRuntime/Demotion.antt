-- ===== src/Cluster/CoordinatorRuntime/Demotion.antt =====
-- src/cluster/coordinator.rs: the demotion, the planned restart, and the ways out of a failure.
use siderostat.Prelude.{
  ℕ, zero, suc, Bool, true, false, not, ◌||◌, Option, none, some, ◌∷◌, if◌then◌else◌,
}
use siderostat.Target.{ClusterState, backoff, distributed_ready, manual_intervention_required}
use siderostat.Admission.{start_serving}
use siderostat.Cluster.Failure.{can_retry, reset}
use siderostat.Cluster.State.{
  ClusterSnapshot, begin_demotion, pairing_ready, backoff_elapsed, operator_reconcile,
  invalid_transition,
}
use siderostat.Cluster.CoordinatorRuntime.{
  stops_coordinator, peer_stops_worker, starts_standalone, waits_ready, waits_route_loss, Node,
  Environment, CoordinatorLifecycleError, standalone_failed, coordinator_failed, peer_failed,
  transition_failed, ok, err, Outcome, Step, and_then, with_snapshot, asks, awaits, apply,
  set_target, block_transition, publish, drain_both,
}
use siderostat.Cluster.CoordinatorRuntime.Promotion.{unless_resumed, returns}

abbrev pub stop_and_pair : Environment → Bool → ℕ → Node → Outcome
stop_and_pair env resume generation n =
    and_then (asks env stops_coordinator coordinator_failed n) (λ n.
      and_then (asks env (peer_stops_worker generation) peer_failed n) (λ n.
        and_then (asks env (starts_standalone generation) standalone_failed n)
          (λ n. with_snapshot (apply env generation pairing_ready n) (publish resume))))

-- `demote_with_drain_timeout_and_admission`, which the three public demotions call.
unfoldable pub demote : Environment → Bool → Node → Outcome
demote env resume n = with_snapshot (apply env n.cluster.generation begin_demotion n) (λ demoting n.
    and_then (drain_both env demoting.generation (block_transition n))
      (λ n. stop_and_pair env resume demoting.generation (unless_resumed resume n)))

abbrev pub is_distributed_ready : ClusterState → Bool
is_distributed_ready distributed_ready = true
is_distributed_ready _ = false

unfoldable pub restore_paired_after_planned_restart : Environment → ℕ → Node → Outcome
restore_paired_after_planned_restart env generation n =
    and_then (asks env (starts_standalone generation) standalone_failed n) (λ n.
      with_snapshot (apply env generation begin_demotion n) (λ demoting n.
        with_snapshot (apply env demoting.generation pairing_ready n) (publish true)))

-- After the coordinator's child was told to stop, and after the peer was told to stop the worker.
abbrev pub after_peer : Environment → ClusterSnapshot → Step → Outcome
after_peer env current (n, some e) =
    with_snapshot (restore_paired_after_planned_restart env current.generation n) (returns e)
after_peer env current (n, none) =
    with_snapshot (apply env current.generation begin_demotion n)
      (λ demoting n. with_snapshot (apply env demoting.generation pairing_ready n) (publish false))

abbrev pub after_coordinator : Environment → ClusterSnapshot → Step → Outcome
after_coordinator env current (n, some e) =
    (record (set_target current.target true n) { gate = start_serving n.gate }, err e)
after_coordinator env current (n, none) =
    after_peer env current (asks env (peer_stops_worker current.generation) peer_failed n)

unfoldable pub stop_for_planned_restart : Environment → Node → Outcome
stop_for_planned_restart env n =
    if not (is_distributed_ready n.cluster.state)
    then (n, err (transition_failed (invalid_transition n.cluster.state begin_demotion)))
    else after_coordinator env n.cluster
        (asks env stops_coordinator coordinator_failed (block_transition n))

-- A failure while waiting is none where the cluster has left distributed service.
abbrev pub unless_left : CoordinatorLifecycleError → Node → Outcome
unless_left e n =
    if not (is_distributed_ready n.cluster.state) then (n, ok n.cluster) else (n, err e)

-- One turn of `wait_route_loss_and_demote`: none where the route is complete again in time.
abbrev pub turn_lost : Environment → Node → Bool → Option ℕ → Node × Option Outcome
turn_lost env n true none = (n, none)
turn_lost env n true (some e) = (n, some (unless_left (coordinator_failed e) n))
turn_lost env n false e = (
  n,
  some
      (if not (is_distributed_ready n.cluster.state) then (n, ok n.cluster) else demote env true n),
)

abbrev pub turn_waited : Environment → Node → Option ℕ → Node × Option Outcome
turn_waited env n (some e) = (n, some (unless_left (coordinator_failed e) n))
turn_waited env n none =
    turn_lost env (awaits env waits_ready n) (env.in_time (waits_ready ∷ n.calls))
      (env.failure (waits_ready ∷ n.calls))

unfoldable pub turn : Environment → Node → Node × Option Outcome
turn env n =
    turn_waited env (awaits env waits_route_loss n) (env.failure (waits_route_loss ∷ n.calls))

abbrev pub is_backoff : ClusterState → Bool
is_backoff backoff = true
is_backoff _ = false

unfoldable pub reconcile_backoff : Environment → ℕ → Node → Outcome
reconcile_backoff env now n =
    if not (is_backoff n.cluster.state) || not (can_retry n.failures now)
    then (n, ok n.cluster)
    else with_snapshot (apply env n.cluster.generation backoff_elapsed n) (publish true)

abbrev pub is_manual : ClusterState → Bool
is_manual manual_intervention_required = true
is_manual _ = false

unfoldable pub reconcile_by_operator : Environment → Node → Outcome
reconcile_by_operator env n =
    let n = record n { failures = reset n.failures } in
    if not (is_manual n.cluster.state)
    then (n, ok n.cluster)
    else with_snapshot (apply env n.cluster.generation operator_reconcile n) (publish true)

-- `wait_route_loss_and_demote`, for so many turns.
unfoldable pub wait_route_loss_and_demote : Environment → ℕ → Node → Node × Option Outcome
wait_route_loss_and_demote env zero n = (n, none)
wait_route_loss_and_demote env (suc turns) n =
    let t = turn env n in
    let rest = wait_route_loss_and_demote env turns t.0 in elim t.1 [ none ↦ rest | some o ↦ t ]
