-- ===== src/Cluster/WorkerRuntime.antt =====
-- src/cluster/worker.rs: the lifecycle of the worker's processes (`WorkerDistributedRuntime`) and the
-- phases of a tensor-parallel worker (`TpWorkerTracker`). What the processes and the lease answer is
-- given with each call; the gate changes by itself only while a drain waits.
pub mod Lifecycle
pub mod Tracker
use siderostat.Prelude.{
  ℕ, Bool, true, false, not, ◌&&◌, ◌||◌, Option, none, some, List, [], ◌∷◌, if◌then◌else◌, ◌==◌,
}
use siderostat.Admission.{Gate, DrainError, timeout, begin_drain, end_drain, block}
use siderostat.Cluster.Failure.{
  ClusterFailure, hello_timeout, peer_lease_lost, drain_timeout, child_identity_unknown,
  state_corrupt,
}

-- An error of a process is a number.
pub data WorkerLifecycleError : Type 0 where
  invalid_timing startup_timeout early_exit lease_lost : WorkerLifecycleError
  drain_failed : DrainError → WorkerLifecycleError
  standalone_failed worker_failed : ℕ → WorkerLifecycleError
  cleanup_failed : WorkerLifecycleError → ℕ → WorkerLifecycleError

-- `WorkerLifecycleError::cluster_failure`.
unfoldable pub cluster_failure : WorkerLifecycleError → ClusterFailure
cluster_failure startup_timeout = hello_timeout
cluster_failure early_exit = hello_timeout
cluster_failure lease_lost = peer_lease_lost
cluster_failure (drain_failed e) = drain_timeout
cluster_failure (standalone_failed e) = child_identity_unknown
cluster_failure (worker_failed e) = child_identity_unknown
cluster_failure (cleanup_failed cause e) = child_identity_unknown
cluster_failure invalid_timing = state_corrupt false

-- The calls of the two process interfaces that change something.
pub data ProcessCall : Type 0 where
  stop_standalone stop_worker : ProcessCall
  start_worker : ℕ → ProcessCall

pub data StartAnswer : Type 0 where
  started timed_out : StartAnswer
  not_started : ℕ → StartAnswer

pub data RunningAnswer : Type 0 where
  running exited : RunningAnswer
  unknown : ℕ → RunningAnswer

pub record WorkerState : Type 0 where
  pub gate : Gate
  pub calls : List ProcessCall  -- the newest first

-- What the gate becomes while the drain waits and whether it empties in time, the three looks at the
-- lease, and the answers of the processes.
pub record Answers : Type 0 where
  pub while_waiting : Gate → Gate
  pub empties : Bool
  pub first_lease : Bool
  pub second_lease : Bool
  pub third_lease : Bool
  pub standalone_stop : Option ℕ
  pub worker_start : StartAnswer
  pub worker_running : RunningAnswer
  pub worker_stop : Option ℕ

abbrev pub Outcome : Type 0
Outcome = WorkerState × Option WorkerLifecycleError

-- `new` refuses a duration of zero.
unfoldable pub check_timing : ℕ → ℕ → ℕ → Option WorkerLifecycleError
check_timing drain startup poll =
    if drain == 0 || startup == 0 || poll == 0 then some invalid_timing else none

-- `?`: what follows is done unless there is an error.
abbrev pub and_then : Outcome → (WorkerState → Outcome) → Outcome
and_then (w, some e) next = (w, some e)
and_then (w, none) next = next w

abbrev pub call : WorkerState → ProcessCall → WorkerState
call w c = record w { calls = c ∷ w.calls }

abbrev pub with_cleanup : WorkerLifecycleError → Option ℕ → WorkerLifecycleError
with_cleanup cause none = cause
with_cleanup cause (some e) = cleanup_failed cause e

unfoldable pub cleanup_failure : WorkerState → WorkerLifecycleError → Option ℕ → Outcome
cleanup_failure w cause stopped =
    (call (record w { gate = block w.gate }) stop_worker, some (with_cleanup cause stopped))

abbrev waited : Gate → ℕ → Bool → Gate × Option DrainError
waited g generation false = (g, some timeout)
waited g generation true = end_drain g generation

abbrev drained : Gate × Option DrainError → ℕ → Answers → Gate × Option DrainError
drained (g, some e) generation a = (g, some e)
drained (g, none) generation a = waited (a.while_waiting g) generation a.empties

-- `AdmissionGate::drain` as a whole.
unfoldable pub drain : Gate → ℕ → Answers → Gate × Option DrainError
drain g generation a = drained (begin_drain g generation) generation a

abbrev pub drain_step : WorkerState → Gate × Option DrainError → Outcome
drain_step w (g, none) = (record w { gate = g }, none)
drain_step w (g, some e) = (record w { gate = g }, some (drain_failed e))

abbrev lease_step : Bool → Answers → WorkerState → Outcome
lease_step valid a w = if valid then (w, none) else cleanup_failure w lease_lost a.worker_stop

abbrev stop_step : Option ℕ → Answers → WorkerState → Outcome
stop_step none a w = (w, none)
stop_step (some e) a w = cleanup_failure w (standalone_failed e) a.worker_stop

abbrev start_step : StartAnswer → Answers → WorkerState → Outcome
start_step started a w = (w, none)
start_step timed_out a w = cleanup_failure w startup_timeout a.worker_stop
start_step (not_started e) a w = cleanup_failure w (worker_failed e) a.worker_stop

abbrev running_step : RunningAnswer → Answers → WorkerState → Outcome
running_step running a w = (w, none)
running_step exited a w = cleanup_failure w early_exit a.worker_stop
running_step (unknown e) a w = cleanup_failure w (worker_failed e) a.worker_stop

-- `prepare` behind the drain.
unfoldable pub prepare_drained : ℕ → Answers → WorkerState → Outcome
prepare_drained generation a w = and_then (lease_step a.first_lease a w) (λ w.
    and_then (stop_step a.standalone_stop a (call w stop_standalone)) (λ w.
      and_then (lease_step a.second_lease a w) (λ w.
        and_then (start_step a.worker_start a (call w (start_worker generation)))
          (λ w. and_then (lease_step a.third_lease a w) (running_step a.worker_running a)))))

unfoldable pub prepare : WorkerState → ℕ → Answers → Outcome
prepare w generation a =
    and_then (drain_step w (drain w.gate generation a)) (prepare_drained generation a)

-- One turn of `wait_for_failure`: the lease, and the child where the lease is valid.
pub record Poll : Type 0 where
  pub lease : Bool
  pub child : RunningAnswer

abbrev pub poll_failure : Poll → Option WorkerLifecycleError
poll_failure p = if not p.lease then some lease_lost else elim p.child [
  | running ↦ none
  | exited ↦ some early_exit
  | unknown e ↦ some (worker_failed e)
]

-- The loop, on the turns that it makes: nothing is returned while all is well.
unfoldable pub wait_for_failure : WorkerState → Option ℕ → List Poll → Outcome
wait_for_failure w stopped [] = (w, none)
wait_for_failure w stopped (p ∷ ps) = elim (poll_failure p) [
  | none ↦ wait_for_failure w stopped ps
  | some e ↦ cleanup_failure w e stopped
]

unfoldable pub cancel : WorkerState → Option ℕ → Outcome
cancel w none = (call (record w { gate = block w.gate }) stop_worker, none)
cancel w (some e) = (call (record w { gate = block w.gate }) stop_worker, some (worker_failed e))
