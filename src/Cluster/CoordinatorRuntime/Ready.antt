-- ===== src/Cluster/CoordinatorRuntime/Ready.antt =====
-- What a successful operation of the coordinator's task has done.
use siderostat.Prelude.{
  ℕ, Bool, true, false, not, ◌≡◌, ◌≢◌, refl, Option, none, some, arith, if◌then◌else◌, ◌||◌,
}
use siderostat.Target.{
  distributed_ready, paired_standalone_ready, distributed_layer_parallel, paired_standalone,
}
use siderostat.Cluster.Failure
use siderostat.Cluster.CoordinatorRuntime
use siderostat.Cluster.Failure.{
  reset, clear_status, TrackerResult, PromotionFailureTracker, PromotionRetryDecision,
}
use siderostat.Cluster.State.{
  ClusterSnapshot, ClusterEventKind, TransitionResult, transition, table, new_snapshot,
  worker_hello_accepted, distributed_child_started, distributed_route_ready, begin_demotion,
  pairing_ready,
}
use siderostat.Cluster.State
use siderostat.Cluster.CoordinatorRuntime.{
  coordinator_errors, Node, Environment, CoordinatorLifecycleError, ok, err, Outcome, Step,
  LifecycleResult, and_then, with_snapshot, apply, applied, event, block_transition, publish,
  drain_both, lease_lost, needs_lease, asks, asks_in_time, stops_standalone, starts_coordinator,
  waits_ready, stops_coordinator, peer_stops_worker, starts_standalone, standalone_failed,
  coordinator_failed, peer_failed, startup_timeout, complete_route_timeout,
}
use siderostat.Cluster.CoordinatorRuntime.Promotion.{
  unless_resumed, promote_inner, recover_paired, recover_solo, enter_failure,
  enter_promotion_failure, returns, recover_from, promotion_failure_for_error, conclude, promote,
}
use siderostat.Cluster.CoordinatorRuntime.Demotion.{demote}
use siderostat.Cluster.NodeTask.Ending.{
  IsDone, Ends, transition-pairing_ready, and_then-Ends, with_snapshot-Ends, publish-Ends,
  apply-Ends,
}

transition-route_ready :
    (c : ClusterSnapshot) (g : ℕ) (s : ClusterSnapshot)
    → transition c (event g distributed_route_ready) ≡ State.ok s
    → (s.stable_mode ≡ distributed_layer_parallel) × (s.state ≡ distributed_ready)
unfolding transition new_snapshot
transition-route_ready c g s h = (ground (arith, h), ground (arith, h))

publish_route-Ends :
    (env : Environment) (resume : Bool) (g : ℕ) (n : Node)
    → Ends distributed_layer_parallel distributed_ready resume
        (with_snapshot (apply env g distributed_route_ready n) (publish resume))
publish_route-Ends env resume g n =
    apply-Ends distributed_layer_parallel distributed_ready resume (publish resume)
      (publish-Ends distributed_layer_parallel distributed_ready resume) env g
      distributed_route_ready n (λ c t h. transition-route_ready c g t h)

publish_pair-Ends :
    (env : Environment) (resume : Bool) (g : ℕ) (n : Node)
    → Ends paired_standalone paired_standalone_ready resume
        (with_snapshot (apply env g pairing_ready n) (publish resume))
publish_pair-Ends env resume g n =
    apply-Ends paired_standalone paired_standalone_ready resume (publish resume)
      (publish-Ends paired_standalone paired_standalone_ready resume) env g pairing_ready n
      (λ c t h. transition-pairing_ready c g t h)

promote_inner-Ends :
    (env : Environment) (resume : Bool) (p : ClusterSnapshot) (n : Node)
    → Ends distributed_layer_parallel distributed_ready resume (promote_inner env resume p n)
unfolding promote_inner
promote_inner-Ends env resume p n = behind (drain_both env p.generation n) _ (λ n.
    behind (needs_lease env (unless_resumed resume n)) _ (λ n.
      behind (asks env stops_standalone standalone_failed n) _ (λ n.
        behind
          (asks_in_time env (starts_coordinator p.generation) coordinator_failed startup_timeout n)
          _
          (λ n. behind (needs_lease env n) _ (λ n.
            with_snapshot-Ends distributed_layer_parallel distributed_ready resume
              (apply env p.generation distributed_child_started n) _
              (λ s n.
                behind (asks_in_time env waits_ready coordinator_failed complete_route_timeout n) _
                  (λ n.
                    behind (needs_lease env n) _
                      (λ n. publish_route-Ends env resume s.generation n))))))))
  where
    behind :
        (st : Step) (next : Node → Outcome)
        → ((n : Node) → Ends distributed_layer_parallel distributed_ready resume (next n))
        → Ends distributed_layer_parallel distributed_ready resume (and_then st next)
    behind = and_then-Ends distributed_layer_parallel distributed_ready resume

-- A failed promotion returns an error, whatever becomes of the recovery.
returns_error :
    (o : Outcome) (e : CoordinatorLifecycleError) (s : ClusterSnapshot)
    → (with_snapshot o (returns e)).1 ≢ ok s
returns_error (n, ok t) e s h = ground (arith, h)
returns_error (n, err x) e s h = ground (arith, h)

follows_error :
    (o : Outcome) (next : ClusterSnapshot → Node → Outcome) (s : ClusterSnapshot)
    → ((t : ClusterSnapshot) (n : Node) → (next t n).1 ≢ ok s)
    → (with_snapshot o next).1 ≢ ok s
follows_error (n, ok t) next s f h = f t n h
follows_error (n, err x) next s f h = ground (arith, h)

recover_from_error :
    (env : Environment) (resume : Bool) (now : ℕ) (e : CoordinatorLifecycleError) (n : Node)
    (s : ClusterSnapshot)
    → (recover_from env resume now e n).1 ≢ ok s
unfolding recover_from
recover_from_error env resume now lease_lost n s =
    returns_error (recover_solo env resume n) lease_lost s
recover_from_error env resume now e n s =
    follows_error (recover_paired env resume n) _ s
      (λ t n. entered n (promotion_failure_for_error e))
  where
    entered :
        (n : Node) (f : Option Failure.ClusterFailure)
        → (enter_failure env resume now e f n).1 ≢ ok s
    entered n none h = ground (arith, h)
    entered n (some f) h = returns_error (enter_promotion_failure env f now resume n) e s h

conclude-IsDone :
    (env : Environment) (resume : Bool) (now : ℕ) (o : Outcome)
    → Ends distributed_layer_parallel distributed_ready resume o
    → (s : ClusterSnapshot) → (conclude env resume now o).1 ≡ ok s
    → IsDone distributed_layer_parallel distributed_ready resume (conclude env resume now o) s
      × ((conclude env resume now o).0.failures.status ≡ clear_status)
unfolding reset
conclude-IsDone env resume now (n, ok t) f s h =
    let d = f.done s h in
    (
      record {
        in_mode = d.in_mode;
        in_state = d.in_state;
        to_target = d.to_target;
        is_ready = d.is_ready;
        serves = d.serves;
      },
      refl,
    )
conclude-IsDone env resume now (n, err e) f s h = absurd (recover_from_error env resume now e n s h)

-- A promotion that reports success has done what it promises: the snapshot that it returns is in
-- layer-parallel mode and its route is ready, the proxy has its target, as ready where there is one, the record of
-- failures is cleared, and where admission is resumed the gate serves, unless it is closed for good.
-- No failed promotion reports success, whatever other tasks do meanwhile.
pub promote-IsDone :
    (env : Environment) (ready resume : Bool) (now : ℕ) (n : Node) (s : ClusterSnapshot)
    → (promote env ready resume now n).1 ≡ ok s
    → IsDone distributed_layer_parallel distributed_ready resume (promote env ready resume now n) s
      × ((promote env ready resume now n).0.failures.status ≡ clear_status)
unfolding promote
promote-IsDone env ready resume now n s = checked (not ready || not (env.lease n.calls))
  where
    next : ClusterSnapshot → Node → Outcome
    next p n = conclude env resume now (promote_inner env resume p (block_transition n))

    hello :
        (o : Outcome)
        → (with_snapshot o next).1 ≡ ok s
        → IsDone distributed_layer_parallel distributed_ready resume (with_snapshot o next) s
          × ((with_snapshot o next).0.failures.status ≡ clear_status)
    hello (m, ok p) h =
        conclude-IsDone env resume now _ (promote_inner-Ends env resume p (block_transition m)) s h
    hello (m, err e) h = ground (arith, h)

    checked :
        (b : Bool)
        → let o =
            if◌then◌else◌ {A = Outcome} b
              (n, err CoordinatorRuntime.prerequisite_missing)
              (with_snapshot (apply env n.cluster.generation worker_hello_accepted n) next) in
          o.1 ≡ ok s
          → IsDone distributed_layer_parallel distributed_ready resume o s
            × (o.0.failures.status ≡ clear_status)
    checked true h = ground (arith, h)
    checked false h = hello (apply env n.cluster.generation worker_hello_accepted n) h

-- A demotion that reports success has brought the node back to the pair: the snapshot is in paired
-- mode and ready, the proxy has its target, as ready where there is one, and where admission is resumed the gate serves,
-- unless it is closed for good.
pub demote-IsDone :
    (env : Environment) (resume : Bool) (n : Node) (s : ClusterSnapshot)
    → (demote env resume n).1 ≡ ok s
    → IsDone paired_standalone paired_standalone_ready resume (demote env resume n) s
unfolding demote
demote-IsDone env resume n =
    (with_snapshot-Ends paired_standalone paired_standalone_ready resume
      (apply env n.cluster.generation begin_demotion n) _
      (λ d n. behind (drain_both env d.generation (block_transition n)) _ (λ n.
        behind (asks env stops_coordinator coordinator_failed (unless_resumed resume n)) _ (λ n.
          behind (asks env (peer_stops_worker d.generation) peer_failed n) _ (λ n.
            behind (asks env (starts_standalone d.generation) standalone_failed n) _
              (λ n. publish_pair-Ends env resume d.generation n)))))).done
  where
    behind :
        (st : Step) (next : Node → Outcome)
        → ((n : Node) → Ends paired_standalone paired_standalone_ready resume (next n))
        → Ends paired_standalone paired_standalone_ready resume (and_then st next)
    behind = and_then-Ends paired_standalone paired_standalone_ready resume
