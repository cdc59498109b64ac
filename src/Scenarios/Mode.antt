-- ===== src/Scenarios/Mode.antt =====
-- Tests of `ModeRuntime` of src/cluster/runtime.rs.
use siderostat.Prelude.{◌≡◌, refl, true, false, none, [], ◌∷◌}
use siderostat.Target.{
  LocalRole, solo_standalone, solo_standalone_ready, paired_standalone, paired_standalone_ready,
}
use siderostat.Admission.{new_gate, start_serving, block, begin_drain, end_drain, blocked}
use siderostat.Cluster.Failure.{clear_status}
use siderostat.Cluster.State.{
  ClusterSnapshot, new_snapshot, booting_at, transition, run, begin_pairing, pairing_ready,
}
use siderostat.Cluster.NodeTask.{Node, Environment, Call, event, apply, block_transition, drain}
use siderostat.Cluster.NodeTask
use siderostat.Cluster.ModeRuntime.{
  spawn_manual_at, reconcile_peer_with_presence, reconcile_local, form_pair, serve,
}
use siderostat.Cluster.ModeRuntime.Settled.{IsSettled, reconcile_peer-IsSettled}
use siderostat.Cluster.ModeRuntime.Recovery.{succeeds, serves_solo}

abbrev all_well : Environment
all_well = record {
  meanwhile = λ n. n;
  lease = λ c. true;
  failure = λ c. none;
  in_time = λ c. true;
  running = λ c. false;
}

abbrev solo_snapshot : ClusterSnapshot
solo_snapshot = new_snapshot 2 LocalRole.worker solo_standalone solo_standalone_ready true none

abbrev solo_worker : Node
solo_worker = record {
  cluster = solo_snapshot;
  gate = start_serving (new_gate 4);
  target = solo_snapshot.target;
  target_ready = true;
  failures = record { backoff = 30000000000; maximum = 3; status = clear_status };
  calls = [];
}

abbrev paired_snapshot : ClusterSnapshot
paired_snapshot = run solo_snapshot (event 2 begin_pairing ∷ event 3 pairing_ready ∷ [])

pairs :
    (reconcile_peer_with_presence all_well LocalRole.worker true solo_worker).1
    ≡ NodeTask.ok paired_snapshot
unfolding reconcile_peer_with_presence form_pair apply transition run new_snapshot drain begin_drain
    end_drain start_serving new_gate serve
pairs = refl

reconcile_peer-IsSettled_example :
    IsSettled true solo_worker
      (reconcile_peer_with_presence all_well LocalRole.worker true solo_worker)
      paired_snapshot
reconcile_peer-IsSettled_example =
    reconcile_peer-IsSettled all_well LocalRole.worker true solo_worker paired_snapshot pairs

abbrev paired_worker : Node
paired_worker = record solo_worker {
  cluster = new_snapshot 4 LocalRole.worker paired_standalone paired_standalone_ready false none;
}

-- The local server has stopped, and is started again.
restarts : succeeds serves_solo (reconcile_local all_well solo_worker).1 ≡ true
unfolding reconcile_local apply transition new_snapshot block_transition serve
restarts = refl

spawned : (spawn_manual_at all_well LocalRole.coordinator 7 solo_worker).0.gate.state ≡ blocked
unfolding spawn_manual_at apply transition new_snapshot booting_at block
spawned = refl
