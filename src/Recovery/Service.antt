-- ===== src/Recovery/Service.antt =====
-- src/recovery.rs: the operations of `RecoveryService`, each under one hold of its lock.
pub mod Calls
pub mod Flush
pub mod Limits
pub mod Orderly
use siderostat.Prelude.{
  ℕ, Bool, true, false, not, ◌&&◌, Option, none, some, List, [], ◌∷◌, if◌then◌else◌, leb, ◌==◌,
}
use siderostat.Recovery.Detector.{CanaryReason}
use siderostat.Recovery.Jobs.{
  RecoveryState, RecoveryPhase, RecoveryFailureReason, RecoveryGate, RecoveryRequest,
  RecoveryPolicy, RecoveryJob, RecoveryStart, RecoveryInner, with_policy, gate_failure, in_cooldown,
  attempts_in_window, new_job, with_failure, push_history, cooldown, attempt_limit, created,
  existing,
}

-- `history.iter().rev().find(...)` by the key.
unfoldable pub find_key : ℕ → List RecoveryJob → Option RecoveryJob
find_key key [] = none
find_key key (job ∷ jobs) = if job.idempotency_key == key then some job else find_key key jobs

-- The reason for which a request is suppressed, if there is one.
unfoldable pub suppression : RecoveryInner → RecoveryGate → ℕ → Option RecoveryFailureReason
suppression inner gate now = elim (gate_failure gate) [
  | some reason ↦ some reason
  | none ↦
      if in_cooldown inner now
      then some cooldown
      else if leb inner.policy.max_attempts (attempts_in_window inner now)
      then some attempt_limit
      else none
]

abbrev pub suppressed_job :
    RecoveryGate → RecoveryRequest → ℕ → ℕ → RecoveryFailureReason → RecoveryJob
suppressed_job gate request fresh now reason =
    with_failure (new_job gate request fresh now RecoveryState.suppressed RecoveryPhase.suppressed)
      reason now

abbrev pub running_job : RecoveryGate → RecoveryRequest → ℕ → ℕ → RecoveryJob
running_job gate request fresh now =
    new_job gate request fresh now RecoveryState.running RecoveryPhase.snapshot

-- A new request, given the reason for which it is suppressed.
abbrev pub start :
    Option RecoveryFailureReason
    → RecoveryInner
    → RecoveryGate
    → RecoveryRequest
    → ℕ
    → ℕ
    → RecoveryInner × RecoveryStart
start (some reason) inner gate request fresh now = (
  push_history inner (suppressed_job gate request fresh now reason),
  RecoveryStart.suppressed (suppressed_job gate request fresh now reason),
)
start none inner gate request fresh now = (
  record inner { active = some (running_job gate request fresh now) },
  created (running_job gate request fresh now),
)

-- Given the job that is active and the one that the history has under the key.
abbrev pub start_unless_known :
    Option RecoveryJob
    → Option RecoveryJob
    → RecoveryInner
    → RecoveryGate
    → RecoveryRequest
    → ℕ
    → ℕ
    → RecoveryInner × RecoveryStart
start_unless_known (some job) known inner gate request fresh now = (inner, existing job)
start_unless_known none (some job) inner gate request fresh now = (inner, existing job)
start_unless_known none none inner gate request fresh now =
    start (suppression inner gate now) inner gate request fresh now

-- `begin_at`; the fresh id is an argument.
unfoldable pub begin_at :
    RecoveryInner → RecoveryGate → RecoveryRequest → ℕ → ℕ → RecoveryInner × RecoveryStart
begin_at inner gate request fresh now =
    start_unless_known inner.active (find_key request.idempotency_key inner.history) inner gate
      request fresh now

-- The three marks that keep the job active: `job.recovery_id != recovery_id` gives none.
abbrev pub mark :
    Option RecoveryJob
    → (RecoveryJob → RecoveryJob)
    → RecoveryInner
    → ℕ
    → RecoveryInner × Option RecoveryJob
mark none change inner recovery_id = (inner, none)
mark (some job) change inner recovery_id =
    if job.recovery_id == recovery_id
    then (record inner { active = some (change job) }, some (change job))
    else (inner, none)

unfoldable pub mark_snapshot_succeeded : RecoveryInner → ℕ → ℕ → RecoveryInner × Option RecoveryJob
mark_snapshot_succeeded inner recovery_id path =
    mark inner.active (λ job. record job { snapshot_path = some path }) inner recovery_id

unfoldable pub mark_phase :
    RecoveryInner → ℕ → RecoveryPhase → Option ℕ → RecoveryInner × Option RecoveryJob
mark_phase inner recovery_id phase admission =
    mark inner.active (λ job. record job { phase = phase; admission = admission }) inner recovery_id

unfoldable pub mark_post_recovery_canary :
    RecoveryInner → ℕ → CanaryReason → RecoveryInner × Option RecoveryJob
mark_post_recovery_canary inner recovery_id result =
    mark inner.active (λ job. record job { post_recovery_canary = some result }) inner recovery_id

-- The marks that end the job: it is taken out, and put back when it is another job.
abbrev pub end_job :
    Option RecoveryJob
    → (RecoveryJob → RecoveryJob)
    → RecoveryInner
    → ℕ
    → RecoveryInner × Option RecoveryJob
end_job none change inner recovery_id = (inner, none)
end_job (some job) change inner recovery_id =
    if job.recovery_id == recovery_id
    then (push_history (record inner { active = none }) (change job), some (change job))
    else (inner, none)

unfoldable pub mark_snapshot_failed :
    RecoveryInner → ℕ → RecoveryFailureReason → ℕ → RecoveryInner × Option RecoveryJob
mark_snapshot_failed inner recovery_id reason finished =
    end_job inner.active (λ job. with_failure job reason finished) inner recovery_id

-- `mark_terminal`.
unfoldable pub mark_terminal :
    RecoveryInner
    → ℕ
    → ℕ
    → RecoveryState
    → RecoveryPhase
    → Option RecoveryFailureReason
    → Option ℕ
    → RecoveryInner × Option RecoveryJob
mark_terminal inner recovery_id finished state phase reason generation =
    end_job inner.active
      (λ job. record job {
        state = state;
        phase = phase;
        finished_at_millis = some finished;
        failure_reason = reason;
        new_cluster_generation = generation;
      })
      inner recovery_id

unfoldable pub mark_succeeded : RecoveryInner → ℕ → ℕ → ℕ → RecoveryInner × Option RecoveryJob
unfolding mark_terminal
mark_succeeded inner recovery_id finished generation =
    mark_terminal inner recovery_id finished RecoveryState.succeeded RecoveryPhase.completed none
      (some generation)

unfoldable pub mark_failed :
    RecoveryInner → ℕ → ℕ → RecoveryFailureReason → RecoveryInner × Option RecoveryJob
unfolding mark_terminal
mark_failed inner recovery_id finished reason =
    mark_terminal inner recovery_id finished RecoveryState.failed RecoveryPhase.failed (some reason)
      none

abbrev find_id : ℕ → List RecoveryJob → Option RecoveryJob
find_id recovery_id [] = none
find_id recovery_id (job ∷ jobs) =
    if job.recovery_id == recovery_id then some job else find_id recovery_id jobs

-- The active job is looked at first.
unfoldable pub status : RecoveryInner → ℕ → Option RecoveryJob
status inner recovery_id = elim inner.active [
  | some job ↦
      if job.recovery_id == recovery_id then some job else find_id recovery_id inner.history
  | none ↦ find_id recovery_id inner.history
]
