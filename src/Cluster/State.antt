-- ===== src/Cluster/State.antt =====
-- src/cluster/state.rs: the snapshot of the cluster, the events, and `transition`, the one function
-- that changes a snapshot.
pub mod Step
pub mod Reach
use siderostat.Prelude.{
  ℕ, ◌+◌, Bool, true, false, not, ◌&&◌, Option, none, some, if◌then◌else◌, ◌==◌, List, [], ◌∷◌,
}
use siderostat.Target.{
  LocalRole, StableMode, ClusterState, ProxyTarget, resolve_target, is_worker, solo_standalone,
  paired_standalone, distributed_layer_parallel, distributed_tensor_parallel, booting,
  solo_standalone_starting, solo_standalone_ready, pairing, paired_standalone_ready,
  awaiting_worker_hello, promoting, distributed_starting, distributed_ready, demoting, backoff,
  manual_intervention_required, tensor_parallel_starting, awaiting_tensor_parallel_worker_hello,
  tensor_parallel_ready, demoting_tensor_parallel, tensor_parallel_backoff,
}
use siderostat.Cluster.Failure.{ClusterFailure}
use siderostat.Cluster.Failure
use siderostat.Cluster.Tp.{
  TpSessionId, TpSessionState, TpReadinessEvent, TpReadiness, new_session, apply_event,
}
use siderostat.Cluster.Tp

pub record ClusterSnapshot : Type 0 where
  pub generation : ℕ  -- u64
  pub role : LocalRole
  pub stable_mode : StableMode
  pub state : ClusterState
  pub target : ProxyTarget
  pub local_standalone_ready : Bool
  pub last_failure : Option ClusterFailure
  pub tp : Option TpSessionState

-- `ClusterSnapshot::new`.
unfoldable pub new_snapshot :
    ℕ → LocalRole → StableMode → ClusterState → Bool → Option TpSessionState → ClusterSnapshot
new_snapshot generation role mode state ready tp = record {
  generation = generation;
  role = role;
  stable_mode = mode;
  state = state;
  target = resolve_target role mode state ready;
  local_standalone_ready = ready;
  last_failure = none;
  tp = tp;
}

-- `ClusterSnapshot::booting_at`.
unfoldable pub booting_at : LocalRole → ℕ → ClusterSnapshot
unfolding new_snapshot
booting_at role generation = new_snapshot generation role solo_standalone booting false none

pub data ClusterEventKind : Type 0 where
  begin_solo_standalone local_standalone_ready local_standalone_lost : ClusterEventKind
  begin_pairing pairing_ready worker_hello_accepted begin_promotion : ClusterEventKind
  distributed_child_started distributed_route_ready promotion_failed : ClusterEventKind
  deployment_mismatch begin_demotion peer_lost enter_backoff : ClusterEventKind
  backoff_elapsed require_manual_intervention operator_reconcile : ClusterEventKind
  begin_tensor_parallel tensor_parallel_worker_prepared : ClusterEventKind
  tensor_parallel_coordinator_started : ClusterEventKind
  tensor_parallel_handshake_http_ready tensor_parallel_warmup_done : ClusterEventKind
  begin_tensor_parallel_demotion : ClusterEventKind

pub record ClusterEvent : Type 0 where
  pub expected_generation : ℕ
  pub kind : ClusterEventKind
  pub tp_session : Option TpSessionId

pub data TransitionError : Type 0 where
  stale_generation : ℕ → ℕ → TransitionError  -- expected, current
  invalid_transition : ClusterState → ClusterEventKind → TransitionError

pub data TransitionResult : Type 0 where
  ok : ClusterSnapshot → TransitionResult
  err : TransitionError → TransitionResult

abbrev pub is_begin_tensor_parallel : ClusterEventKind → Bool
is_begin_tensor_parallel begin_tensor_parallel = true
is_begin_tensor_parallel _ = false

-- Is the session that an event names the current one?
abbrev pub is_current : Option TpSessionState → TpSessionId → Bool
is_current none id = false
is_current (some t) id = t.session == id

-- The guard on an event's session; an event that names no session passes.
abbrev pub is_other_session : Option TpSessionState → ClusterEvent → Bool
is_other_session tp e = elim e.tp_session [
  | none ↦ false
  | some id ↦ not (is_begin_tensor_parallel e.kind) && not (is_current tp id)
]

abbrev pub pre_warmup_complete : TpReadiness → Bool
pre_warmup_complete r = r.worker_prepared && r.coordinator_started && r.handshake_http_ready

abbrev pub tp_pre_warmup_complete : Option TpSessionState → Bool
tp_pre_warmup_complete none = false
tp_pre_warmup_complete (some t) = pre_warmup_complete t.readiness

unfoldable pub stable_ready_state : StableMode → ClusterState
stable_ready_state solo_standalone = solo_standalone_ready
stable_ready_state paired_standalone = paired_standalone_ready
stable_ready_state distributed_layer_parallel = distributed_ready
stable_ready_state distributed_tensor_parallel = tensor_parallel_ready

-- What a row of the table gives: the mode, the state, and whether the local server is ready.
abbrev pub Row : Type 0
Row = StableMode × ClusterState × Bool

abbrev solo_starting : Option Row
solo_starting = some (solo_standalone, solo_standalone_starting, false)

abbrev not_worker : ClusterSnapshot → Bool
not_worker c = not (is_worker c.role)

-- The `match` of `transition`: a clause for each pair of its rows, in the order of the source.
unfoldable pub table : ClusterState → ClusterEventKind → ClusterSnapshot → Bool → Option Row
unfolding stable_ready_state
table manual_intervention_required begin_solo_standalone c pre = solo_starting
table demoting_tensor_parallel begin_solo_standalone c pre = solo_starting
table paired_standalone_ready begin_solo_standalone c pre = solo_starting
table solo_standalone_ready begin_solo_standalone c pre = solo_starting
table booting begin_solo_standalone c pre = solo_starting
table backoff begin_solo_standalone c pre = solo_starting
table solo_standalone_starting local_standalone_ready c pre =
    some (solo_standalone, solo_standalone_ready, true)
table solo_standalone_ready local_standalone_lost c pre = solo_starting
table solo_standalone_ready begin_pairing c pre =
    some (solo_standalone, pairing, c.local_standalone_ready)
table pairing pairing_ready c pre = some (paired_standalone, paired_standalone_ready, not_worker c)
table paired_standalone_ready begin_promotion c pre =
    some (paired_standalone, awaiting_worker_hello, c.local_standalone_ready)
table awaiting_worker_hello worker_hello_accepted c pre =
    some (paired_standalone, promoting, c.local_standalone_ready)
table promoting distributed_child_started c pre =
    some (paired_standalone, distributed_starting, false)
table distributed_starting distributed_route_ready c pre =
    some (distributed_layer_parallel, distributed_ready, not_worker c)
table awaiting_worker_hello promotion_failed c pre =
    some (paired_standalone, paired_standalone_ready, not_worker c)
table promoting promotion_failed c pre =
    some (paired_standalone, paired_standalone_ready, not_worker c)
table distributed_starting promotion_failed c pre =
    some (paired_standalone, paired_standalone_ready, not_worker c)
table pairing deployment_mismatch c pre = solo_starting
table paired_standalone_ready deployment_mismatch c pre = solo_starting
table awaiting_worker_hello deployment_mismatch c pre = solo_starting
table promoting deployment_mismatch c pre = solo_starting
table distributed_starting deployment_mismatch c pre = solo_starting
table distributed_ready deployment_mismatch c pre = solo_starting
table demoting deployment_mismatch c pre = solo_starting
table solo_standalone_ready deployment_mismatch c pre =
    some (solo_standalone, solo_standalone_ready, true)
table distributed_ready begin_demotion c pre = some (distributed_layer_parallel, demoting, false)
table demoting pairing_ready c pre = some (paired_standalone, paired_standalone_ready, not_worker c)
table pairing peer_lost c pre = solo_starting
table paired_standalone_ready peer_lost c pre = solo_starting
table awaiting_worker_hello peer_lost c pre = solo_starting
table promoting peer_lost c pre = solo_starting
table distributed_starting peer_lost c pre = solo_starting
table distributed_ready peer_lost c pre = solo_starting
table demoting peer_lost c pre = solo_starting
table backoff peer_lost c pre = solo_starting
table solo_standalone_ready begin_tensor_parallel c pre =
    some (distributed_tensor_parallel, tensor_parallel_starting, false)
table paired_standalone_ready begin_tensor_parallel c pre =
    some (distributed_tensor_parallel, tensor_parallel_starting, false)
table tensor_parallel_starting tensor_parallel_worker_prepared c pre =
    some (distributed_tensor_parallel, awaiting_tensor_parallel_worker_hello, false)
table awaiting_tensor_parallel_worker_hello tensor_parallel_coordinator_started c pre =
    some (distributed_tensor_parallel, awaiting_tensor_parallel_worker_hello, false)
table awaiting_tensor_parallel_worker_hello tensor_parallel_handshake_http_ready c pre =
    some (distributed_tensor_parallel, awaiting_tensor_parallel_worker_hello, false)
table awaiting_tensor_parallel_worker_hello tensor_parallel_warmup_done c pre =
    if pre
    then some (distributed_tensor_parallel, tensor_parallel_ready, not_worker c)
    else some (distributed_tensor_parallel, awaiting_tensor_parallel_worker_hello, false)
table tensor_parallel_ready begin_tensor_parallel_demotion c pre =
    some (distributed_tensor_parallel, demoting_tensor_parallel, false)
table tensor_parallel_starting begin_tensor_parallel_demotion c pre =
    some (distributed_tensor_parallel, demoting_tensor_parallel, false)
table awaiting_tensor_parallel_worker_hello begin_tensor_parallel_demotion c pre =
    some (distributed_tensor_parallel, demoting_tensor_parallel, false)
table demoting_tensor_parallel begin_tensor_parallel_demotion c pre =
    some (distributed_tensor_parallel, demoting_tensor_parallel, false)
table demoting_tensor_parallel pairing_ready c pre =
    some (paired_standalone, paired_standalone_ready, not_worker c)
table tensor_parallel_ready enter_backoff c pre =
    some (distributed_tensor_parallel, tensor_parallel_backoff, c.local_standalone_ready)
table tensor_parallel_starting enter_backoff c pre =
    some (distributed_tensor_parallel, tensor_parallel_backoff, c.local_standalone_ready)
table awaiting_tensor_parallel_worker_hello enter_backoff c pre =
    some (distributed_tensor_parallel, tensor_parallel_backoff, c.local_standalone_ready)
table demoting_tensor_parallel enter_backoff c pre =
    some (distributed_tensor_parallel, tensor_parallel_backoff, c.local_standalone_ready)
table tensor_parallel_backoff backoff_elapsed c pre =
    some (distributed_tensor_parallel, tensor_parallel_starting, false)
table _ enter_backoff c pre = some (c.stable_mode, backoff, c.local_standalone_ready)
table backoff backoff_elapsed c pre =
    some (c.stable_mode, stable_ready_state c.stable_mode, c.local_standalone_ready)
table manual_intervention_required operator_reconcile c pre =
    some (c.stable_mode, stable_ready_state c.stable_mode, c.local_standalone_ready)
table _ require_manual_intervention c pre =
    some (c.stable_mode, manual_intervention_required, c.local_standalone_ready)
table _ _ c pre = none

-- `event.tp_session.unwrap_or(TpSessionId(0))`.
abbrev session_or_zero : Option TpSessionId → TpSessionId
session_or_zero none = 0
session_or_zero (some id) = id

-- `current.tp.and_then(|t| t.apply_event(...))`.
abbrev and_apply : Option TpSessionState → TpSessionId → TpReadinessEvent → Option TpSessionState
and_apply none id e = none
and_apply (some t) id e = apply_event t id e

abbrev start_session : Option TpSessionId → Option TpSessionState
start_session none = none
start_session (some id) = some (new_session id)

-- The session after an event.
unfoldable pub next_tp :
    Option TpSessionState → ClusterEventKind → Option TpSessionId → Option TpSessionState
next_tp tp begin_tensor_parallel id = start_session id
next_tp tp tensor_parallel_worker_prepared id = and_apply tp (session_or_zero id) Tp.worker_prepared
next_tp tp tensor_parallel_coordinator_started id =
    and_apply tp (session_or_zero id) Tp.coordinator_started
next_tp tp tensor_parallel_handshake_http_ready id =
    and_apply tp (session_or_zero id) Tp.handshake_http_ready
next_tp tp tensor_parallel_warmup_done id = and_apply tp (session_or_zero id) Tp.warmup_done
next_tp tp _ id = tp

-- The failure that a snapshot carries after an event.
unfoldable pub next_failure :
    ClusterEventKind → ClusterState → Option ClusterFailure → Option ClusterFailure
next_failure deployment_mismatch state last = some Failure.deployment_mismatch
next_failure local_standalone_ready solo_standalone_starting last = last
next_failure _ state last = none

finish : ClusterSnapshot → ClusterEvent → Option Row → TransitionResult
unfolding new_snapshot
finish c e none = err (invalid_transition c.state e.kind)
finish c e (some (mode, state, ready)) =
    let next = new_snapshot (c.generation + 1) c.role mode state ready c.tp in
    ok (record next {
      tp = next_tp c.tp e.kind e.tp_session;
      last_failure = next_failure e.kind c.state c.last_failure;
    })

unfoldable pub transition : ClusterSnapshot → ClusterEvent → TransitionResult
unfolding table finish
transition c e =
    if not (e.expected_generation == c.generation)
    then err (stale_generation e.expected_generation c.generation)
    else if is_other_session c.tp e
    then ok c
    else finish c e (table c.state e.kind c (tp_pre_warmup_complete c.tp))

-- The task of `spawn_state_machine`: it takes the commands one by one, and keeps its snapshot where
-- `transition` refuses.
abbrev pub after : ClusterSnapshot → TransitionResult → ClusterSnapshot
after c (ok next) = next
after c (err e) = c

unfoldable pub run : ClusterSnapshot → List ClusterEvent → ClusterSnapshot
run c [] = c
run c (e ∷ es) = run (after c (transition c e)) es
