-- ===== src/Cluster/CoordinatorRuntime/Histories.antt =====
-- Every operation of the coordinator's task, and sequences of them.
use siderostat.Prelude.{
  ℕ, Bool, true, false, not, ◌≡◌, sym, ap, inl, inr, none, some, List, [], ◌∷◌, if◌then◌else◌, ◌||◌,
}
use siderostat.Cluster.Failure.{ClusterFailure, can_retry, reset}
use siderostat.Cluster.State.{
  ClusterSnapshot, begin_demotion, pairing_ready, backoff_elapsed, operator_reconcile,
  invalid_transition,
}
use siderostat.Cluster.CoordinatorRuntime.{
  coordinator_errors, CoordinatorLifecycleError, stops_coordinator, peer_stops_worker,
  starts_standalone, Node, Environment, standalone_failed, coordinator_failed, peer_failed,
  transition_failed, ok, err, Outcome, Step, with_snapshot, asks, apply, block_transition, publish,
  drain_both,
}
use siderostat.Cluster.CoordinatorRuntime.Promotion.{
  unless_resumed, enter_promotion_failure, promote,
}
use siderostat.Cluster.CoordinatorRuntime.Demotion.{
  demote, restore_paired_after_planned_restart, after_peer, after_coordinator,
  stop_for_planned_restart, reconcile_backoff, reconcile_by_operator, is_distributed_ready,
  is_backoff, is_manual,
}
use siderostat.Cluster.NodeTask.Steps.{
  IsUndisturbed, IsOut, IsPublished, asks-IsOut, block_transition-IsOut, and_then-IsPublished,
  publish-IsPublished,
}
use siderostat.Cluster.CoordinatorRuntime.Published.{
  drain_both-IsOut, unless_resumed-IsOut, event-IsPublished, publishes, asked, event_published,
  returns-IsPublished, enter_promotion_failure-IsPublished, promote-IsPublished,
}

pub data Operation : Type 0 where
  promotes : Bool → Bool → ℕ → Operation  -- the prerequisites, whether admission is resumed, the time
  demotes : Bool → Operation
  stops_for_planned_restart reconciles_by_operator : Operation
  reconciles_backoff : ℕ → Operation
  records_failure : ClusterFailure → ℕ → Operation

unfoldable pub perform : Environment → Operation → Node → Outcome
perform env (promotes ready resume now) n = promote env ready resume now n
perform env (demotes resume) n = demote env resume n
perform env stops_for_planned_restart n = stop_for_planned_restart env n
perform env reconciles_by_operator n = reconcile_by_operator env n
perform env (reconciles_backoff now) n = reconcile_backoff env now n
perform env (records_failure failure now) n = enter_promotion_failure env failure now true n

unfoldable pub perform_all : Environment → List Operation → Node → Node
perform_all env [] n = n
perform_all env (o ∷ os) n = perform_all env os (perform env o n).0

if-IsPublished :
    (b : Bool) (x y : Outcome)
    → IsPublished x.0
    → IsPublished y.0
    → IsPublished (if◌then◌else◌ {A = Outcome} b x y).0
if-IsPublished true x y hx hy = hx
if-IsPublished false x y hx hy = hy

module _ (env : Environment) (h : IsUndisturbed env) where
  demote-IsPublished :
      (resume : Bool) (n : Node) → IsPublished n → IsPublished (demote env resume n).0
  unfolding demote
  demote-IsPublished resume n p =
      event_published env h n.cluster.generation begin_demotion n _ p (λ s n e.
        and_then-IsPublished (drain_both env s.generation (block_transition n)) _
          (drain_both-IsOut env h s.generation (block_transition n) (block_transition-IsOut n))
          (λ n o.
            asked env h stops_coordinator coordinator_failed (unless_resumed resume n) _
              (unless_resumed-IsOut resume n o)
              (λ n o. asked env h (peer_stops_worker s.generation) peer_failed n _ o (λ n o.
                asked env h (starts_standalone s.generation) standalone_failed n _ o
                  (λ n o. publishes env h s.generation pairing_ready resume n o)))))

  -- Two events bring the state machine back to the pair.
  paired_again :
      (g : ℕ) (resume : Bool) (n : Node)
      → IsOut n
      → IsPublished
          (with_snapshot (apply env g begin_demotion n) (λ demoting n.
            with_snapshot (apply env demoting.generation pairing_ready n) (publish resume))).0
  paired_again g resume n o =
      event-IsPublished env h g begin_demotion n _ o
        (λ s n o e. publishes env h s.generation pairing_ready resume n o)

  after_peer-IsPublished :
      (s : ClusterSnapshot) (st : Step) → IsOut st.0 → IsPublished (after_peer env s st).0
  unfolding restore_paired_after_planned_restart
  after_peer-IsPublished s (n, some e) o =
      returns-IsPublished env h (restore_paired_after_planned_restart env s.generation n) e (
        asked env h (starts_standalone s.generation) standalone_failed n _ o
          (λ n o. paired_again s.generation true n o))
  after_peer-IsPublished s (n, none) o = paired_again s.generation false n o

  after_coordinator-IsPublished :
      (s : ClusterSnapshot) (st : Step)
      → IsOut st.0
      → st.0.cluster ≡ s
      → IsPublished (after_coordinator env s st).0
  unfolding IsPublished
  after_coordinator-IsPublished s (n, some e) o c =
      inl (sym (ap (λ (c : ClusterSnapshot). c.target) c))
  after_coordinator-IsPublished s (n, none) o c =
      after_peer-IsPublished s (asks env (peer_stops_worker s.generation) peer_failed n)
        (asks-IsOut env h (peer_stops_worker s.generation) peer_failed n o)

  stop_for_planned_restart-IsPublished :
      (n : Node) → IsPublished n → IsPublished (stop_for_planned_restart env n).0
  unfolding stop_for_planned_restart block_transition
  stop_for_planned_restart-IsPublished n p =
      if-IsPublished (not (is_distributed_ready n.cluster.state))
        (n, err (transition_failed (invalid_transition n.cluster.state begin_demotion))) _ p
        (after_coordinator-IsPublished n.cluster
          (asks env stops_coordinator coordinator_failed (block_transition n))
          (asks-IsOut env h stops_coordinator coordinator_failed (block_transition n)
            (block_transition-IsOut n))
          (h.same_cluster _))

  reconcile_backoff-IsPublished :
      (now : ℕ) (n : Node) → IsPublished n → IsPublished (reconcile_backoff env now n).0
  unfolding reconcile_backoff
  reconcile_backoff-IsPublished now n p =
      if-IsPublished (not (is_backoff n.cluster.state) || not (can_retry n.failures now))
        (n, ok n.cluster) _ p
        (event_published env h n.cluster.generation backoff_elapsed n (publish true) p
          (λ s n e. publish-IsPublished CoordinatorLifecycleError true s n e))

  reset_failures :
      (n : Node) → IsPublished n → IsPublished (record n { failures = reset n.failures })
  unfolding IsPublished
  reset_failures n (inl p) = inl p
  reset_failures n (inr o) = inr (record { no_target = o.no_target; not_serving = o.not_serving })

  reconcile_by_operator-IsPublished :
      (n : Node) → IsPublished n → IsPublished (reconcile_by_operator env n).0
  unfolding reconcile_by_operator
  reconcile_by_operator-IsPublished n p =
      let m = record n { failures = reset n.failures } in
      if-IsPublished (not (is_manual n.cluster.state)) (m, ok n.cluster) _ (reset_failures n p)
        (event_published env h n.cluster.generation operator_reconcile m (publish true)
          (reset_failures n p) (λ s n e. publish-IsPublished CoordinatorLifecycleError true s n e))

  perform-IsPublished : (o : Operation) (n : Node) → IsPublished n → IsPublished (perform env o n).0
  unfolding perform
  perform-IsPublished (promotes ready resume now) n p =
      promote-IsPublished env h ready resume now n p
  perform-IsPublished (demotes resume) n p = demote-IsPublished resume n p
  perform-IsPublished stops_for_planned_restart n p = stop_for_planned_restart-IsPublished n p
  perform-IsPublished reconciles_by_operator n p = reconcile_by_operator-IsPublished n p
  perform-IsPublished (reconciles_backoff now) n p = reconcile_backoff-IsPublished now n p
  perform-IsPublished (records_failure failure now) n p =
      enter_promotion_failure-IsPublished env h failure now true n p

-- The proxy is never sent to a server that the state machine has left: after any sequence of
-- promotions, demotions, planned restarts, retries, reconciliations and recorded failures, whichever
-- of their calls fail or come too late, the target of the proxy is the one of the state machine's
-- snapshot, or it is unavailable and the gate does not serve. It is so while the other tasks leave
-- the state machine, the target and the state of the gate to this one, and held at the start.
pub perform_all-IsPublished :
    (env : Environment)
    → IsUndisturbed env
    → (os : List Operation) (n : Node) → IsPublished n
    → IsPublished (perform_all env os n)
unfolding perform_all
perform_all-IsPublished env h [] n p = p
perform_all-IsPublished env h (o ∷ os) n p =
    perform_all-IsPublished env h os (perform env o n).0 (perform-IsPublished env h o n p)
