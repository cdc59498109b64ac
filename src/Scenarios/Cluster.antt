-- ===== src/Scenarios/Cluster.antt =====
-- Tests of the state machine of src/cluster/state.rs.
use siderostat.Prelude.{ℕ, ◌≡◌, ◌≢◌, refl, true, false, none, some, List, [], ◌∷◌, arith}
use siderostat.Target.{
  ProxyTarget, LocalRole, local_standalone, unavailable, inconsistent_stable_state,
  distributed_tensor_parallel, solo_standalone, tensor_parallel_ready, manual_intervention_required,
  solo_standalone_ready, resolve_target,
}
use siderostat.Cluster.Tp.{new_session, apply_event, advance}
use siderostat.Cluster.State.{
  require_manual_intervention, ClusterSnapshot, ClusterEvent, transition, run, after, booting_at,
  new_snapshot, next_tp, begin_solo_standalone, local_standalone_ready, begin_tensor_parallel,
  tensor_parallel_worker_prepared, tensor_parallel_coordinator_started,
  tensor_parallel_handshake_http_ready, tensor_parallel_warmup_done, begin_pairing,
  operator_reconcile, ClusterEventKind,
}
use siderostat.Cluster.State.Step.{
  plain, WonBy, run-one_winner, run-fall_back, late, next, done, reconcile_publishes,
}
use siderostat.Cluster.State.Reach.{
  IsCoherent, Attended, session_complete, booting_at-IsCoherent, transition-IsCoherent,
  run-consistent, run-worker_local, run-session_complete,
}

abbrev named : ℕ → ClusterEventKind → ClusterEvent
named g kind = record { expected_generation = g; kind = kind; tp_session = some 7 }

-- A coordinator that comes to tensor parallel service in session 7.
abbrev startup : List ClusterEvent
startup =
    plain 0 begin_solo_standalone
    ∷ plain 1 local_standalone_ready
    ∷ named 2 begin_tensor_parallel
    ∷ named 3 tensor_parallel_worker_prepared
    ∷ named 4 tensor_parallel_coordinator_started
    ∷ named 5 tensor_parallel_handshake_http_ready
    ∷ named 6 tensor_parallel_warmup_done
    ∷ []

abbrev booted : ClusterSnapshot
booted = booting_at LocalRole.coordinator 0

startup_ready :
    ((run booted startup).state ≡ tensor_parallel_ready)
    × ((run booted startup).target ≡ local_standalone)
    × ((run booted startup).generation ≡ 7)
unfolding run transition booting_at new_snapshot next_tp resolve_target apply_event new_session
    advance
startup_ready = (refl, refl, refl)

startup-Attended : Attended booted startup
unfolding transition booting_at new_snapshot
startup-Attended = ground arith

run-session_complete_example : session_complete (run booted startup).tp ≡ true
run-session_complete_example =
    run-session_complete LocalRole.coordinator 0 startup startup-Attended startup_ready.0

run-consistent_example : (run booted startup).target ≢ unavailable inconsistent_stable_state
run-consistent_example = run-consistent LocalRole.coordinator 0 startup

abbrev solo : List ClusterEvent
solo = plain 0 begin_solo_standalone ∷ plain 1 local_standalone_ready ∷ []

worker_serves : (run (booting_at LocalRole.worker 0) solo).target ≡ local_standalone
unfolding run transition booting_at new_snapshot resolve_target
worker_serves = refl

run-worker_local_example : (run (booting_at LocalRole.worker 0) solo).stable_mode ≡ solo_standalone
run-worker_local_example = run-worker_local 0 solo worker_serves

transition-IsCoherent_example :
    IsCoherent (after booted (transition booted (plain 0 begin_solo_standalone)))
transition-IsCoherent_example =
    transition-IsCoherent booted (plain 0 begin_solo_standalone)
      (booting_at-IsCoherent LocalRole.coordinator 0)

abbrev burst : List ClusterEvent
burst = plain 0 begin_pairing ∷ plain 0 begin_solo_standalone ∷ plain 0 begin_solo_standalone ∷ []

run-one_winner_example : WonBy booted burst (run booted burst)
unfolding booting_at new_snapshot
run-one_winner_example = run-one_winner booted burst (refl, (refl, (refl, tt)))

-- A worker with a tensor-parallel session, far on, that falls back while two late events arrive.
abbrev far_on : ClusterSnapshot
far_on = record {
  generation = 9;
  role = LocalRole.worker;
  stable_mode = distributed_tensor_parallel;
  state = tensor_parallel_ready;
  target = ProxyTarget.coordinator;
  local_standalone_ready = false;
  last_failure = none;
  tp = some (new_session 7);
}

abbrev with_late : List ClusterEvent
with_late =
    plain 8 begin_pairing
    ∷ plain 9 require_manual_intervention
    ∷ plain 10 begin_solo_standalone
    ∷ plain 3 begin_solo_standalone
    ∷ plain 11 local_standalone_ready
    ∷ []

run-fall_back_example :
    let n = run far_on with_late in
    (n.state ≡ solo_standalone_ready)
    × (n.stable_mode ≡ solo_standalone)
    × (n.local_standalone_ready ≡ true)
    × (n.target ≡ local_standalone)
    × (n.role ≡ LocalRole.worker)
    × (n.generation ≡ 12)
run-fall_back_example =
    run-fall_back far_on with_late
      (late (omega arith) (next (next (late (omega arith) (next done)))))

-- The starting session is given up, and no element of it is ready.
abbrev held_up : ClusterSnapshot
held_up = record {
  generation = 4;
  role = LocalRole.coordinator;
  stable_mode = distributed_tensor_parallel;
  state = manual_intervention_required;
  target = unavailable inconsistent_stable_state;
  local_standalone_ready = false;
  last_failure = none;
  tp = some (new_session 7);
}

reconcile_publishes_example :
    let n = after held_up (transition held_up (plain 4 operator_reconcile)) in
    (n.state ≡ tensor_parallel_ready)
    × (n.tp ≡ some (new_session 7))
    × (n.target ≡ local_standalone)
reconcile_publishes_example = reconcile_publishes held_up refl refl (λ e. cc)

abbrev republished : ClusterSnapshot
republished = after held_up (transition held_up (plain 4 operator_reconcile))

abbrev started : ClusterSnapshot
started = after booted (transition booted (plain 0 begin_solo_standalone))
