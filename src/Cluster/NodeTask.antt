-- ===== src/Cluster/NodeTask.antt =====
-- A task on a node that changes the state machine, the gate and the proxy together: the await of
-- src/cluster/coordinator.rs and src/cluster/runtime.rs is a call, whose answer and whatever other tasks
-- do to the node meanwhile is the environment's.

pub mod Steps
pub mod Ending
use siderostat.Prelude.{ℕ, Bool, true, false, Option, none, some, List, [], ◌∷◌, if◌then◌else◌}
use siderostat.Target.{ProxyTarget, unavailable}
use siderostat.Target
use siderostat.Admission.{Gate, DrainError, timeout, begin_drain, end_drain, block, start_serving}
use siderostat.Cluster.Failure.{PromotionFailureTracker}
use siderostat.Cluster.State.{
  ClusterSnapshot, ClusterEvent, ClusterEventKind, TransitionError, TransitionResult, transition,
}
use siderostat.Cluster.State

-- What the task waits for. A number is a generation.
pub data Call : Type 0 where
  applies : ClusterEventKind → Call
  drains peer_begins_drain peer_stops_worker starts_standalone starts_coordinator : ℕ → Call
  stops_standalone stops_coordinator asks_running waits_ready waits_route_loss : Call

-- The parts of the node that the task shares with others: the state machine, the gate and the target
-- of the proxy, the tracker of failures. The calls are the task's own, the newest first.
pub record Node : Type 0 where
  pub cluster : ClusterSnapshot
  pub gate : Gate
  pub target : ProxyTarget
  pub target_ready : Bool
  pub failures : PromotionFailureTracker
  pub calls : List Call

-- The answers depend on the calls so far, the one that is answered included. `meanwhile` stands for
-- the other tasks; it sees the calls and so the place at which the task waits.
pub record Environment : Type 0 where
  pub meanwhile : Node → Node
  pub lease : List Call → Bool
  pub failure : List Call → Option ℕ
  pub in_time : List Call → Bool
  pub running : List Call → Bool

-- The errors of a task, with what `?` makes of the errors of the state machine and of the drain.
pub record FromErrors (E : Type 0) : Type 0 where
  pub of_transition : TransitionError → E
  pub of_drain : DrainError → E

pub data LifecycleResult (E : Type 0) : Type 0 where
  ok : ClusterSnapshot → LifecycleResult E
  err : E → LifecycleResult E

abbrev pub Outcome : Type 0 → Type 0
Outcome E = Node × LifecycleResult E

-- A step without a value.
abbrev pub Step : Type 0 → Type 0
Step E = Node × Option E

abbrev pub awaits : Environment → Call → Node → Node
awaits env c n = env.meanwhile (record n { calls = c ∷ n.calls })

abbrev pub event : ℕ → ClusterEventKind → ClusterEvent
event generation kind = record { expected_generation = generation; kind = kind; tp_session = none }

abbrev pub is_available : ProxyTarget → Bool
is_available (unavailable reason) = false
is_available _ = true

-- `set_target` of the proxy.
abbrev pub set_target : ProxyTarget → Bool → Node → Node
set_target target ready n = record n { target = target; target_ready = ready }

unfoldable pub block_transition : Node → Node
block_transition n =
    set_target (unavailable Target.transition) false (record n { gate = block n.gate })

abbrev end_wait : Node → ℕ → Bool → Gate × Option DrainError
end_wait n generation false = (n.gate, some timeout)
end_wait n generation true = end_drain n.gate generation

abbrev waited : Environment → ℕ → Node → Gate × Option DrainError → Gate × Option DrainError
waited env generation n (g, some e) = (g, some e)
waited env generation n (g, none) =
    end_wait (awaits env (drains generation) (record n { gate = g })) generation
      (env.in_time (drains generation ∷ n.calls))

abbrev after_begin : Environment → ℕ → Node → Gate × Option DrainError → Node
after_begin env generation n (g, some e) = record n { gate = g }
after_begin env generation n (g, none) = awaits env (drains generation) (record n { gate = g })

module _ {E : Type 0} where
  -- `?` behind a step, and behind a call that returns a snapshot.
  abbrev pub and_then : Step E → (Node → Outcome E) → Outcome E
  and_then (n, some e) next = (n, err e)
  and_then (n, none) next = next n

  abbrev pub with_snapshot : Outcome E → (ClusterSnapshot → Node → Outcome E) → Outcome E
  with_snapshot (n, err e) next = (n, err e)
  with_snapshot (n, ok s) next = next s n

  abbrev pub failed_with : (ℕ → E) → Option ℕ → Option E
  failed_with error none = none
  failed_with error (some e) = some (error e)

  -- A call of a process or of the peer.
  abbrev pub asks : Environment → Call → (ℕ → E) → Node → Step E
  asks env c error n = (awaits env c n, failed_with error (env.failure (c ∷ n.calls)))

  -- The same under `tokio::time::timeout`.
  abbrev pub asks_in_time : Environment → Call → (ℕ → E) → E → Node → Step E
  asks_in_time env c error late n =
      if env.in_time (c ∷ n.calls) then asks env c error n else (awaits env c n, some late)

  -- The ends of the operations: the target of the snapshot is published, and admission resumed.
  unfoldable pub publish : Bool → ClusterSnapshot → Node → Outcome E
  publish resume s n =
      let published = set_target s.target true n in
      (if resume then record published { gate = start_serving n.gate } else published, ok s)

  -- `tokio::join!` of two steps: both are done, and the error of the first goes before the second's.
  abbrev pub first_error : Option E → Option E → Option E
  first_error none second = second
  first_error (some e) second = some e

  abbrev pub joined : (Node → Step E) → (Node → Step E) → Node → Step E
  joined a b n = ((b (a n).0).0, first_error (a n).1 (b (a n).0).1)

module _ {E : Type 0} ⦃from : FromErrors E⦄ where
  abbrev pub applied : Environment → Node → TransitionResult → Outcome E
  applied env n (State.ok s) = (env.meanwhile (record n { cluster = s }), ok s)
  applied env n (State.err e) = (env.meanwhile n, err (from.of_transition e))

  -- `ClusterHandle::apply`: others act before and after the state machine takes the event.
  unfoldable pub apply : Environment → ℕ → ClusterEventKind → Node → Outcome E
  apply env generation kind n =
      let waiting = awaits env (applies kind) n in
      applied env waiting (transition waiting.cluster (event generation kind))

  abbrev drain_error : Option DrainError → Option E
  drain_error none = none
  drain_error (some e) = some (from.of_drain e)

  -- `AdmissionGate::drain` as a whole.
  unfoldable pub drain : Environment → ℕ → Node → Step E
  drain env generation n =
      let begun = begin_drain n.gate generation in
      let ended = waited env generation n begun in
      (record (after_begin env generation n begun) { gate = ended.0 }, drain_error ended.1)
