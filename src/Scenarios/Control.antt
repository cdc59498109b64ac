-- ===== src/Scenarios/Control.antt =====
-- Tests of the control protocol of src/cluster/control.rs, worker.rs and coordinator/control.rs.
use siderostat.Prelude.{ℕ, ◌≡◌, refl, true, false, Option, none, some, [], ◌∷◌, ◌<◌, arith}
use siderostat.Cluster.Auth.{AuthenticatedPeer}
use siderostat.Cluster.PeerLease.{
  NodeDescriptor, ControlRole, paired_standalone, new_lease, peer_present, expired, establish,
}
use siderostat.Cluster.Control.{
  ControlCommand, ControlEndpoint, ControlMessage, ControlError, endpoint, err, worker_preparing,
  worker_ready, invalid_phase, parse,
}
use siderostat.Cluster.Control.Processor.{
  ControlProcessor, new_processor, advance_generation, response, handle_validated, find_processed,
  check_message, apply_command,
}
use siderostat.Cluster.Control.Coordinator.{CoordinatorControl, is_applied, is_idle}
use siderostat.Cluster.Control.Coordinator
use siderostat.Cluster.Control.Worker.{WorkerControl}
use siderostat.Cluster.Control.Worker
use siderostat.Cluster.Control.Once.{Handling, run, run_all, applied_once}
use siderostat.Cluster.Control.Pairing.{session_survives_pair, rejected_pair_advances}

abbrev coordinator_node : NodeDescriptor
coordinator_node = record {
  protocol_version = 1;
  node_id = 9 ∷ [];
  role = ControlRole.coordinator;
  generation = 3;
  mode = paired_standalone;
  deployment_id = some 1;
}

abbrev worker_node : NodeDescriptor
worker_node = record {
  protocol_version = 1;
  node_id = 7 ∷ [];
  role = ControlRole.worker;
  generation = 3;
  mode = paired_standalone;
  deployment_id = some 1;
}

abbrev coordinator_peer : AuthenticatedPeer
coordinator_peer = record { node_id = 9 ∷ []; source_ip = 2; timestamp_millis = 0 }

abbrev worker_peer : AuthenticatedPeer
worker_peer = record { node_id = 7 ∷ []; source_ip = 3; timestamp_millis = 0 }

abbrev allow : ControlCommand → Option ControlError
allow c = none

abbrev pair_message : ℕ → ControlMessage
pair_message g = record {
  request_id = 5 ∷ [];
  generation = g;
  deployment_id = some 1;
  command = ControlCommand.pair coordinator_node;
}

abbrev prepare_message : ControlMessage
prepare_message = record {
  request_id = 6 ∷ [];
  generation = 3;
  deployment_id = some 1;
  command = ControlCommand.prepare_worker;
}

abbrev at : ℕ → ControlEndpoint → ControlMessage → Handling
at now e m = record {
  at = e;
  message = m;
  peer = coordinator_peer;
  scoped = true;
  now = now;
  validate = allow;
}

abbrev fresh : ControlProcessor
fresh = new_processor worker_node ControlRole.coordinator 50 10

pair_applied : is_applied (run fresh (at 100 ControlEndpoint.pair (pair_message 3))).1 ≡ true
unfolding handle_validated check_message find_processed apply_command endpoint response
    new_processor new_lease establish
pair_applied = refl

-- The same request again, and with a later generation in between.
applied_once_example :
    is_applied
      (run
        (run_all (run fresh (at 100 ControlEndpoint.pair (pair_message 3))).0 (
          at 110 ControlEndpoint.prepare_worker prepare_message
          ∷ at 120 ControlEndpoint.pair (pair_message 4)
          ∷ []))
        (at 130 ControlEndpoint.pair (pair_message 3))).1
    ≡ false
applied_once_example =
    applied_once fresh (at 100 ControlEndpoint.pair (pair_message 3))
      (at 130 ControlEndpoint.pair (pair_message 3))
      (at 110 ControlEndpoint.prepare_worker prepare_message
        ∷ at 120 ControlEndpoint.pair (pair_message 4)
        ∷ [])
      pair_applied refl refl

-- A worker that prepares and a coordinator whose worker is ready, each with its peer since 100.
abbrev worker_in_session : WorkerControl
worker_in_session = record {
  processor = record fresh {
    lease = (establish (new_lease 50 10) coordinator_peer coordinator_node 3 true 100).0;
  };
  phase = worker_preparing;
}

abbrev coordinator_in_session : CoordinatorControl
coordinator_in_session = record {
  processor = record (new_processor coordinator_node ControlRole.worker 50 10) {
    lease = (establish (new_lease 50 10) worker_peer worker_node 3 true 100).0;
  };
  phase = worker_ready;
  peer_distributed_child_generation = some 8;
}

worker_present : peer_present worker_in_session.processor.lease 120 ≡ true
unfolding peer_present new_lease establish expired
worker_present = refl

coordinator_present : peer_present coordinator_in_session.processor.lease 120 ≡ true
unfolding peer_present new_lease establish expired
coordinator_present = refl

session_survives_pair_example :
    ((Worker.handle worker_in_session ControlEndpoint.pair
        (pair_message 4)
        coordinator_peer
        true
        120).0.phase
      ≡ worker_preparing)
    × ((Coordinator.handle coordinator_in_session ControlEndpoint.pair
          (pair_message 4)
          coordinator_peer
          true
          120).0.phase
        ≡ worker_ready)
    × ((Coordinator.handle coordinator_in_session ControlEndpoint.pair
          (pair_message 4)
          coordinator_peer
          true
          120).0.peer_distributed_child_generation
        ≡ some 8)
session_survives_pair_example =
    session_survives_pair worker_in_session coordinator_in_session ControlEndpoint.pair
      (pair_message 4) coordinator_peer true 120 refl refl worker_present refl coordinator_present

earlier : worker_in_session.processor.local.generation < 4
unfolding new_processor
earlier = omega arith

rejected_pair_advances_example :
    Worker.handle worker_in_session ControlEndpoint.pair (pair_message 4) coordinator_peer true 120
    ≡ (
      record worker_in_session { processor = advance_generation worker_in_session.processor 4 },
      err (invalid_phase worker_preparing),
    )
rejected_pair_advances_example =
    rejected_pair_advances worker_in_session (pair_message 4) coordinator_node coordinator_peer true
      120 refl refl worker_present refl earlier

parse_pair : parse "POST" "/v1/pair" ≡ some ControlEndpoint.pair
unfolding parse
parse_pair = refl

parse_get : parse "GET" "/v1/pair" ≡ none
unfolding parse
parse_get = refl
