-- ===== src/Cluster/CoordinatorRuntime/Published.antt =====
-- The proxy never sends requests to a server that the state machine has left.
use siderostat.Prelude.{
  ℕ, Bool, true, false, not, ◌≡◌, refl, sym, ap, inl, inr, Option, none, some, if◌then◌else◌, ◌||◌,
}
use siderostat.Admission.{reset_blocked_generation}
use siderostat.Cluster.Failure.{
  ClusterFailure, TrackerResult, PromotionFailureTracker, PromotionRetryDecision, record_failure,
  can_retry, reset,
}
use siderostat.Cluster.Failure
use siderostat.Cluster.State.{
  ClusterSnapshot, ClusterEventKind, worker_hello_accepted, distributed_child_started,
  distributed_route_ready, promotion_failed, peer_lost, local_standalone_ready,
}
use siderostat.Cluster.CoordinatorRuntime.{
  coordinator_errors, peer_begins_drain, drain, Call, stops_standalone, starts_coordinator,
  waits_ready, stops_coordinator, peer_stops_worker, starts_standalone, waits_route_loss, Node,
  Environment, CoordinatorLifecycleError, standalone_failed, coordinator_failed, peer_failed,
  startup_timeout, complete_route_timeout, recovery_failed, standalone_recovery,
  coordinator_cleanup, worker_cleanup, lease_lost, ok, err, Outcome, Step, LifecycleResult,
  and_then, with_snapshot, asks, awaits, asks_in_time, needs_lease, apply, block_transition,
  publish, drain_both, joined,
}
use siderostat.Cluster.CoordinatorRuntime
use siderostat.Cluster.CoordinatorRuntime.Promotion.{
  unless_resumed, finish_promotion, start_promotion, promote_inner, stop_both, recover_paired,
  recover_solo, publish_available, enter_decided, event_of, enter_promotion_failure,
  promotion_failure_for_error, enter_failure, returns, recover_from, conclude, promote,
}
use siderostat.Cluster.NodeTask.Steps.{
  IsUndisturbed, IsOut, IsPublished, awaits-IsOut, asks-IsOut, asks_in_time-IsOut, apply-IsOut,
  apply-cluster, refused-IsPublished, drain-IsOut, block_transition-IsOut, and_then-IsPublished,
  with_snapshot-IsPublished, publish-IsPublished,
}

pub unless_resumed-IsOut : (resume : Bool) (n : Node) → IsOut n → IsOut (unless_resumed resume n)
unfolding reset_blocked_generation
unless_resumed-IsOut true n o = o
unless_resumed-IsOut false n o = record { no_target = o.no_target; not_serving = o.not_serving }

publish_available-IsPublished :
    (resume : Bool) (s : ClusterSnapshot) (n : Node)
    → n.cluster ≡ s
    → IsPublished (publish_available resume s n).0
unfolding IsPublished
publish_available-IsPublished resume s n e = inl (sym (ap (λ (c : ClusterSnapshot). c.target) e))

module _ (env : Environment) (h : IsUndisturbed env) where
  pub needs_lease-IsOut : (n : Node) → IsOut n → IsOut (needs_lease env n).0
  needs_lease-IsOut n o = both (env.lease n.calls)
    where
      both : (b : Bool) → IsOut (if◌then◌else◌ {A = Step} b (n, none) (n, some lease_lost)).0
      both true = o
      both false = o

  pub drain_both-IsOut : (g : ℕ) (n : Node) → IsOut n → IsOut (drain_both env g n).0
  unfolding drain_both
  drain_both-IsOut g n o =
      asks-IsOut env h (peer_begins_drain g) peer_failed (drain env g n).0
        (drain-IsOut CoordinatorLifecycleError env h g n o)

  -- An event on a node out of service, and what follows it.
  pub event-IsPublished :
      (g : ℕ) (k : ClusterEventKind) (n : Node) (next : ClusterSnapshot → Node → Outcome)
      → IsOut n
      → ((s : ClusterSnapshot) (n : Node) → IsOut n → n.cluster ≡ s → IsPublished (next s n).0)
      → IsPublished (with_snapshot (apply env g k n) next).0
  event-IsPublished g k n next o f =
      with_snapshot-IsPublished (apply env g k n) next
        (apply-IsOut CoordinatorLifecycleError env h g k n o)
        (apply-cluster CoordinatorLifecycleError env h g k n) f

  pub publishes :
      (g : ℕ) (k : ClusterEventKind) (resume : Bool) (n : Node)
      → IsOut n
      → IsPublished (with_snapshot (apply env g k n) (publish resume)).0
  publishes g k resume n o =
      event-IsPublished g k n (publish resume) o
        (λ s n o e. publish-IsPublished CoordinatorLifecycleError resume s n e)

  pub asked :
      (c : Call) (error : ℕ → CoordinatorLifecycleError) (n : Node) (next : Node → Outcome)
      → IsOut n
      → ((n : Node) → IsOut n → IsPublished (next n).0)
      → IsPublished (and_then (asks env c error n) next).0
  asked c error n next o f =
      and_then-IsPublished (asks env c error n) next (asks-IsOut env h c error n o) f

  asked_in_time :
      (c : Call) (error : ℕ → CoordinatorLifecycleError) (late : CoordinatorLifecycleError)
      (n : Node) (next : Node → Outcome)
      → IsOut n
      → ((n : Node) → IsOut n → IsPublished (next n).0)
      → IsPublished (and_then (asks_in_time env c error late n) next).0
  asked_in_time c error late n next o f =
      and_then-IsPublished (asks_in_time env c error late n) next
        (asks_in_time-IsOut env h c error late n o) f

  leased :
      (n : Node) (next : Node → Outcome)
      → IsOut n
      → ((n : Node) → IsOut n → IsPublished (next n).0)
      → IsPublished (and_then (needs_lease env n) next).0
  leased n next o f = and_then-IsPublished (needs_lease env n) next (needs_lease-IsOut n o) f

  stop_both-IsOut :
      (a b : ℕ → CoordinatorLifecycleError) (g : ℕ) (n : Node)
      → IsOut n
      → IsOut (stop_both env a b g n).0
  stop_both-IsOut a b g n o =
      asks-IsOut env h (peer_stops_worker g) b (awaits env stops_coordinator n)
        (awaits-IsOut env h stops_coordinator n o)

  stopped :
      (a b : ℕ → CoordinatorLifecycleError) (g : ℕ) (n : Node) (next : Node → Outcome)
      → IsOut n
      → ((n : Node) → IsOut n → IsPublished (next n).0)
      → IsPublished (and_then (stop_both env a b g n) next).0
  stopped a b g n next o f =
      and_then-IsPublished (stop_both env a b g n) next (stop_both-IsOut a b g n o) f

  finish_promotion-IsPublished :
      (resume : Bool) (s : ClusterSnapshot) (n : Node)
      → IsOut n
      → IsPublished (finish_promotion env resume s n).0
  finish_promotion-IsPublished resume s n o =
      asked_in_time waits_ready coordinator_failed complete_route_timeout n _ o
        (λ n o. leased n _ o (λ n o. publishes s.generation distributed_route_ready resume n o))

  start_promotion-IsPublished :
      (resume : Bool) (g : ℕ) (n : Node) → IsOut n → IsPublished (start_promotion env resume g n).0
  start_promotion-IsPublished resume g n o = leased n _ o (λ n o.
      asked stops_standalone standalone_failed n _ o (λ n o.
        asked_in_time (starts_coordinator g) coordinator_failed startup_timeout n _ o (λ n o.
          leased n _ o (λ n o.
            event-IsPublished g distributed_child_started n (finish_promotion env resume) o
              (λ s n o e. finish_promotion-IsPublished resume s n o)))))

  promote_inner-IsPublished :
      (resume : Bool) (s : ClusterSnapshot) (n : Node)
      → IsOut n
      → IsPublished (promote_inner env resume s n).0
  unfolding promote_inner
  promote_inner-IsPublished resume s n o =
      and_then-IsPublished (drain_both env s.generation n) _ (drain_both-IsOut s.generation n o)
        (λ n o.
          start_promotion-IsPublished resume s.generation (unless_resumed resume n)
            (unless_resumed-IsOut resume n o))

  pub recover_paired-IsPublished :
      (resume : Bool) (n : Node) → IsPublished (recover_paired env resume n).0
  unfolding recover_paired
  recover_paired-IsPublished resume n =
      let g = n.cluster.generation in
      stopped (recovery_failed coordinator_cleanup) (recovery_failed worker_cleanup) g
        (block_transition n) _ (block_transition-IsOut n)
        (λ n o.
          asked (starts_standalone g) (recovery_failed standalone_recovery) n _ o
            (λ n o. publishes g promotion_failed resume n o))

  recover_solo-IsPublished : (resume : Bool) (n : Node) → IsPublished (recover_solo env resume n).0
  unfolding recover_solo
  recover_solo-IsPublished resume n =
      let g = n.cluster.generation in
      stopped coordinator_failed peer_failed g (block_transition n) _ (block_transition-IsOut n)
        (λ n o. event-IsPublished g peer_lost n _ o (λ starting n o e.
          asked (starts_standalone starting.generation) standalone_failed n _ o
            (λ n o. publishes starting.generation local_standalone_ready resume n o)))

  -- An event on a node whose target is published, and what follows it.
  pub event_published :
      (g : ℕ) (k : ClusterEventKind) (n : Node) (next : ClusterSnapshot → Node → Outcome)
      → IsPublished n
      → ((s : ClusterSnapshot) (n : Node) → n.cluster ≡ s → IsPublished (next s n).0)
      → IsPublished (with_snapshot (apply env g k n) next).0
  event_published g k n next p f =
      on (apply env g k n) (apply-cluster CoordinatorLifecycleError env h g k n)
        (λ e x. refused-IsPublished CoordinatorLifecycleError env h g k n e p x)
    where
      on :
          (r : Outcome)
          → ((s : ClusterSnapshot) → r.1 ≡ ok s → r.0.cluster ≡ s)
          → ((e : CoordinatorLifecycleError) → r.1 ≡ err e → IsPublished r.0)
          → IsPublished (with_snapshot r next).0
      on (n, ok s) c x = f s n (c s refl)
      on (n, err e) c x = x e refl

  enter_decided-IsPublished :
      (resume : Bool) (r : TrackerResult (PromotionFailureTracker × PromotionRetryDecision))
      (n : Node)
      → IsPublished n
      → IsPublished (enter_decided env resume r n).0
  unfolding IsPublished
  enter_decided-IsPublished resume (Failure.err e) n p = p
  enter_decided-IsPublished resume (Failure.ok (tracker, decision)) n p =
      event_published n.cluster.generation (event_of decision) (record n { failures = tracker })
        (publish_available resume) (moved p) (λ s n e. publish_available-IsPublished resume s n e)
    where
      moved : IsPublished n → IsPublished (record n { failures = tracker })
      moved (inl p) = inl p
      moved (inr o) = inr (record { no_target = o.no_target; not_serving = o.not_serving })

  -- What returns the error of before keeps the node as it is.
  pub returns-IsPublished :
      (r : Outcome) (e : CoordinatorLifecycleError)
      → IsPublished r.0
      → IsPublished (with_snapshot r (returns e)).0
  returns-IsPublished (n, ok s) e p = p
  returns-IsPublished (n, err x) e p = p

  follows :
      (r : Outcome) (next : ClusterSnapshot → Node → Outcome)
      → IsPublished r.0
      → ((s : ClusterSnapshot) (n : Node) → IsPublished n → IsPublished (next s n).0)
      → IsPublished (with_snapshot r next).0
  follows (n, ok s) next p f = f s n p
  follows (n, err x) next p f = p

  pub enter_promotion_failure-IsPublished :
      (failure : ClusterFailure) (now : ℕ) (resume : Bool) (n : Node)
      → IsPublished n
      → IsPublished (enter_promotion_failure env failure now resume n).0
  unfolding enter_promotion_failure
  enter_promotion_failure-IsPublished failure now resume n p =
      enter_decided-IsPublished resume (record_failure n.failures failure now) n p

  enter_failure-IsPublished :
      (resume : Bool) (now : ℕ) (e : CoordinatorLifecycleError) (f : Option ClusterFailure)
      (n : Node)
      → IsPublished n
      → IsPublished (enter_failure env resume now e f n).0
  enter_failure-IsPublished resume now e none n p = p
  enter_failure-IsPublished resume now e (some f) n p =
      returns-IsPublished (enter_promotion_failure env f now resume n) e
        (enter_promotion_failure-IsPublished f now resume n p)

  recover_from-IsPublished :
      (resume : Bool) (now : ℕ) (e : CoordinatorLifecycleError) (n : Node)
      → IsPublished (recover_from env resume now e n).0
  unfolding recover_from
  recover_from-IsPublished resume now lease_lost n =
      returns-IsPublished (recover_solo env resume n) lease_lost (recover_solo-IsPublished resume n)
  recover_from-IsPublished resume now e n =
      follows (recover_paired env resume n) _ (recover_paired-IsPublished resume n)
        (λ s n p. enter_failure-IsPublished resume now e (promotion_failure_for_error e) n p)

  conclude-IsPublished :
      (resume : Bool) (now : ℕ) (r : Outcome)
      → IsPublished r.0
      → IsPublished (conclude env resume now r).0
  unfolding IsPublished
  conclude-IsPublished resume now (n, ok s) (inl p) = inl p
  conclude-IsPublished resume now (n, ok s) (inr o) =
      inr (record { no_target = o.no_target; not_serving = o.not_serving })
  conclude-IsPublished resume now (n, err e) p = recover_from-IsPublished resume now e n

  pub promote-IsPublished :
      (ready resume : Bool) (now : ℕ) (n : Node)
      → IsPublished n
      → IsPublished (promote env ready resume now n).0
  unfolding promote
  promote-IsPublished ready resume now n p = both (not ready || not (env.lease n.calls))
    where
      both :
          (b : Bool)
          → IsPublished
              (if◌then◌else◌ {A = Outcome} b
                (n, err CoordinatorRuntime.prerequisite_missing)
                (with_snapshot
                  (apply env n.cluster.generation worker_hello_accepted n)
                  (λ promoting n.
                    conclude env resume now
                      (promote_inner env resume promoting (block_transition n))))).0
      both true = p
      both false = event_published n.cluster.generation worker_hello_accepted n _ p (λ s n e.
          conclude-IsPublished resume now (promote_inner env resume s (block_transition n))
            (promote_inner-IsPublished resume s (block_transition n) (block_transition-IsOut n)))
