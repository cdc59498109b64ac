-- ===== src/Scenarios/Runtime.antt =====
-- Tests of the coordinator's task of src/cluster/coordinator.rs.
use siderostat.Prelude.{◌≡◌, refl, true, false, none, List, [], ◌∷◌, inl, Bool, not}
use siderostat.Target.{
  LocalRole, paired_standalone, awaiting_worker_hello, distributed_layer_parallel,
  distributed_ready, paired_standalone_ready, backoff,
}
use siderostat.Admission.{new_gate, start_serving, block, begin_drain, end_drain}
use siderostat.Cluster.Failure.{clear_status, reset, record_failure, failure_action, same_failure}
use siderostat.Cluster.State.{
  ClusterSnapshot, new_snapshot, transition, run, worker_hello_accepted, distributed_child_started,
  distributed_route_ready, begin_demotion, pairing_ready,
}
use siderostat.Cluster.CoordinatorRuntime
use siderostat.Cluster.CoordinatorRuntime.{
  Node, Environment, Call, starts_coordinator, event, apply, block_transition, publish, drain,
  drain_both,
}
use siderostat.Cluster.CoordinatorRuntime.Promotion.{
  promote, promote_inner, recover_from, recover_paired, enter_promotion_failure,
}
use siderostat.Cluster.CoordinatorRuntime.Demotion.{demote}
use siderostat.Cluster.NodeTask.Steps.{IsUndisturbed, IsPublished}
use siderostat.Cluster.CoordinatorRuntime.Histories.{
  promotes, demotes, reconciles_backoff, perform_all, perform_all-IsPublished,
}
use siderostat.Cluster.NodeTask.Ending.{IsDone}
use siderostat.Cluster.NodeTask
use siderostat.Cluster.CoordinatorRuntime.Ready.{promote-IsDone, demote-IsDone}

-- All answers are good, and nobody else acts.
abbrev good : Environment
good = record {
  meanwhile = λ n. n;
  lease = λ c. true;
  failure = λ c. none;
  in_time = λ c. true;
  running = λ c. true;
}

good-IsUndisturbed : IsUndisturbed good
good-IsUndisturbed = record {
  same_cluster = λ n. refl;
  same_target = λ n. refl;
  same_state = λ n. refl;
}

abbrev waiting_snapshot : ClusterSnapshot
waiting_snapshot =
    new_snapshot 5 LocalRole.coordinator paired_standalone awaiting_worker_hello true none

abbrev waiting : Node
waiting = record {
  cluster = waiting_snapshot;
  gate = start_serving (new_gate 4);
  target = waiting_snapshot.target;
  target_ready = true;
  failures = record { backoff = 30000000000; maximum = 3; status = clear_status };
  calls = [];
}

abbrev promoted_snapshot : ClusterSnapshot
promoted_snapshot = run waiting_snapshot (
    event 5 worker_hello_accepted
    ∷ event 6 distributed_child_started
    ∷ event 7 distributed_route_ready
    ∷ [])

promoted_ok : (promote good true true 1000 waiting).1 ≡ CoordinatorRuntime.ok promoted_snapshot
unfolding promote promote_inner NodeTask.apply transition run new_snapshot block_transition
    NodeTask.publish drain_both NodeTask.drain begin_drain end_drain start_serving new_gate reset
    block
promoted_ok = refl

promote-IsDone_example :
    IsDone distributed_layer_parallel distributed_ready true
      (promote good true true 1000 waiting)
      promoted_snapshot
    × ((promote good true true 1000 waiting).0.failures.status ≡ clear_status)
promote-IsDone_example = promote-IsDone good true true 1000 waiting promoted_snapshot promoted_ok

-- The promoted node, and the pair that it is again.
abbrev promoted : Node
promoted = record waiting {
  cluster = promoted_snapshot;
  target = promoted_snapshot.target;
  calls = [];
}

abbrev demoted_snapshot : ClusterSnapshot
demoted_snapshot = run promoted_snapshot (event 8 begin_demotion ∷ event 9 pairing_ready ∷ [])

demoted_ok : (demote good true promoted).1 ≡ CoordinatorRuntime.ok demoted_snapshot
unfolding demote NodeTask.apply transition run new_snapshot block_transition NodeTask.publish
    drain_both NodeTask.drain begin_drain end_drain start_serving new_gate block
demoted_ok = refl

demote-IsDone_example :
    IsDone paired_standalone paired_standalone_ready true
      (demote good true promoted)
      demoted_snapshot
demote-IsDone_example = demote-IsDone good true promoted demoted_snapshot demoted_ok

-- The coordinator's child does not start in time.
abbrev is_start : List Call → Bool
is_start (starts_coordinator g ∷ cs) = true
is_start _ = false

abbrev slow : Environment
slow = record {
  meanwhile = λ n. n;
  lease = λ c. true;
  failure = λ c. none;
  in_time = λ c. not (is_start c);
  running = λ c. true;
}

slow-IsUndisturbed : IsUndisturbed slow
slow-IsUndisturbed = record {
  same_cluster = λ n. refl;
  same_target = λ n. refl;
  same_state = λ n. refl;
}

slow_backs_off : (promote slow true true 1000 waiting).0.cluster.state ≡ backoff
unfolding promote promote_inner NodeTask.apply transition new_snapshot block_transition
    NodeTask.publish drain_both NodeTask.drain begin_drain end_drain start_serving new_gate block
    recover_from recover_paired enter_promotion_failure record_failure failure_action same_failure
    clear_status
slow_backs_off = refl

waiting-IsPublished : IsPublished waiting
unfolding IsPublished
waiting-IsPublished = inl refl

perform_all-IsPublished_example : IsPublished (
    perform_all slow
      (promotes true true 1000 ∷ reconciles_backoff 40000 ∷ demotes true ∷ [])
      waiting)
perform_all-IsPublished_example =
    perform_all-IsPublished slow slow-IsUndisturbed
      (promotes true true 1000 ∷ reconciles_backoff 40000 ∷ demotes true ∷ []) waiting
      waiting-IsPublished
