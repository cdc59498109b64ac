-- ===== src/Cluster/CoordinatorRuntime/Promotion.antt =====
-- src/cluster/coordinator.rs: the promotion, and what follows when it fails.
use siderostat.Prelude.{ℕ, Bool, true, not, ◌&&◌, ◌||◌, Option, none, some, if◌then◌else◌}
use siderostat.Admission.{block, start_serving, reset_blocked_generation}
use siderostat.Cluster.Failure.{
  ClusterFailure, PromotionFailureTracker, PromotionRetryDecision, backoff, manual_intervention,
  TrackerResult, record_failure, reset, coordinator_startup_timeout,
}
use siderostat.Cluster.Failure
use siderostat.Cluster.State.{
  ClusterSnapshot, ClusterEventKind, worker_hello_accepted, distributed_child_started,
  distributed_route_ready, promotion_failed, peer_lost, local_standalone_ready, enter_backoff,
  require_manual_intervention,
}
use siderostat.Cluster.NodeTask.{is_available}
use siderostat.Cluster.CoordinatorRuntime.{
  stops_standalone, starts_coordinator, waits_ready, stops_coordinator, peer_stops_worker,
  starts_standalone, Node, Environment, coordinator_cleanup, worker_cleanup, standalone_recovery,
  CoordinatorLifecycleError, standalone_failed, coordinator_failed, peer_failed, startup_timeout,
  complete_route_timeout, recovery_failed, tracker_failed, prerequisite_missing, lease_lost, ok,
  err, Outcome, Step, and_then, with_snapshot, asks, asks_in_time, needs_lease, apply, set_target,
  block_transition, publish, drain_both, joined,
}

abbrev pub unless_resumed : Bool → Node → Node
unless_resumed resume n =
    if not resume then record n { gate = reset_blocked_generation n.gate } else n

-- From the start of the complete route on.
abbrev pub finish_promotion : Environment → Bool → ClusterSnapshot → Node → Outcome
finish_promotion env resume starting n =
    and_then (asks_in_time env waits_ready coordinator_failed complete_route_timeout n) (λ n.
      and_then (needs_lease env n) (λ n.
        with_snapshot (apply env starting.generation distributed_route_ready n) (publish resume)))

abbrev pub start_promotion : Environment → Bool → ℕ → Node → Outcome
start_promotion env resume generation n = and_then (needs_lease env n) (λ n.
    and_then (asks env stops_standalone standalone_failed n) (λ n.
      and_then
        (asks_in_time env (starts_coordinator generation) coordinator_failed startup_timeout n)
        (λ n. and_then (needs_lease env n) (λ n.
          with_snapshot (apply env generation distributed_child_started n)
            (finish_promotion env resume)))))

unfoldable pub promote_inner : Environment → Bool → ClusterSnapshot → Node → Outcome
promote_inner env resume promoting n =
    and_then (drain_both env promoting.generation n)
      (λ n. start_promotion env resume promoting.generation (unless_resumed resume n))

-- Both children are told to stop.
abbrev pub stop_both :
    Environment
    → (ℕ → CoordinatorLifecycleError)
    → (ℕ → CoordinatorLifecycleError)
    → ℕ
    → Node
    → Step
stop_both env coordinator worker generation n =
    joined (asks env stops_coordinator coordinator) (asks env (peer_stops_worker generation) worker)
      n

unfoldable pub recover_paired : Environment → Bool → Node → Outcome
recover_paired env resume n =
    let generation = n.cluster.generation in
    and_then
      (stop_both env (recovery_failed coordinator_cleanup) (recovery_failed worker_cleanup)
        generation (block_transition n))
      (λ n.
        and_then (asks env (starts_standalone generation) (recovery_failed standalone_recovery) n)
          (λ n. with_snapshot (apply env generation promotion_failed n) (publish resume)))

unfoldable pub recover_solo : Environment → Bool → Node → Outcome
recover_solo env resume n =
    let generation = n.cluster.generation in
    and_then (stop_both env coordinator_failed peer_failed generation (block_transition n)) (λ n.
      with_snapshot (apply env generation peer_lost n) (λ starting n.
        and_then (asks env (starts_standalone starting.generation) standalone_failed n) (λ n.
          with_snapshot (apply env starting.generation local_standalone_ready n) (publish resume))))

abbrev pub event_of : PromotionRetryDecision → ClusterEventKind
event_of (backoff at) = enter_backoff
event_of manual_intervention = require_manual_intervention

-- The end of `enter_promotion_failure`: it serves where there is a server.
abbrev pub publish_available : Bool → ClusterSnapshot → Node → Outcome
publish_available resume s n =
    let published = set_target s.target (is_available s.target) n in
    (
      record published {
        gate = if is_available s.target && resume then start_serving n.gate else block n.gate;
      },
      ok s,
    )

abbrev pub enter_decided :
    Environment
    → Bool
    → TrackerResult (PromotionFailureTracker × PromotionRetryDecision)
    → Node
    → Outcome
enter_decided env resume (Failure.err e) n = (n, err (tracker_failed e))
enter_decided env resume (Failure.ok (tracker, decision)) n =
    with_snapshot
      (apply env n.cluster.generation (event_of decision) (record n { failures = tracker }))
      (publish_available resume)

unfoldable pub enter_promotion_failure : Environment → ClusterFailure → ℕ → Bool → Node → Outcome
enter_promotion_failure env failure now resume n =
    enter_decided env resume (record_failure n.failures failure now) n

abbrev pub record_promotion_failure : Environment → ClusterFailure → ℕ → Node → Outcome
record_promotion_failure env failure now n = enter_promotion_failure env failure now true n

-- `promotion_failure_for_error`.
abbrev pub promotion_failure_for_error : CoordinatorLifecycleError → Option ClusterFailure
promotion_failure_for_error startup_timeout = some coordinator_startup_timeout
promotion_failure_for_error _ = none

abbrev pub returns : CoordinatorLifecycleError → ClusterSnapshot → Node → Outcome
returns e s n = (n, err e)

abbrev pub enter_failure :
    Environment → Bool → ℕ → CoordinatorLifecycleError → Option ClusterFailure → Node → Outcome
enter_failure env resume now e none n = (n, err e)
enter_failure env resume now e (some failure) n =
    with_snapshot (enter_promotion_failure env failure now resume n) (returns e)

-- A failed promotion recovers, and returns the error all the same.
unfoldable pub recover_from : Environment → Bool → ℕ → CoordinatorLifecycleError → Node → Outcome
recover_from env resume now lease_lost n =
    with_snapshot (recover_solo env resume n) (returns lease_lost)
recover_from env resume now e n =
    with_snapshot (recover_paired env resume n)
      (λ s n. enter_failure env resume now e (promotion_failure_for_error e) n)

abbrev pub conclude : Environment → Bool → ℕ → Outcome → Outcome
conclude env resume now (n, ok s) = (record n { failures = reset n.failures }, ok s)
conclude env resume now (n, err e) = recover_from env resume now e n

-- `promote_validated_with_admission`, which the two public promotions call. `ready` says whether the
-- worker's control is ready and its lease valid.
unfoldable pub promote : Environment → Bool → Bool → ℕ → Node → Outcome
promote env ready resume now n =
    if not ready || not (env.lease n.calls)
    then (n, err prerequisite_missing)
    else with_snapshot (apply env n.cluster.generation worker_hello_accepted n) (λ promoting n.
      conclude env resume now (promote_inner env resume promoting (block_transition n)))
