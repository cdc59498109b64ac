-- ===== src/Recovery/Jobs.antt =====
-- src/recovery.rs: recovery jobs, the state of `RecoveryService`, and the rules that limit the jobs.
use siderostat.Prelude.{
  ℕ, suc, ◌-◌, max, Bool, true, false, not, ◌&&◌, ◌||◌, Option, none, some, List, [], ◌∷◌,
  if◌then◌else◌, ltb, leb, take, saturating_add, u64_max,
}
use siderostat.Target.{
  LocalRole, StableMode, ClusterState, distributed_layer_parallel, distributed_ready,
}
use siderostat.Recovery.Detector.{RecoveryTrigger, CanaryReason}

pub data RecoveryReason : Type 0 where
  throughput_degraded : RecoveryReason

pub data RecoveryState : Type 0 where
  running succeeded failed suppressed : RecoveryState

pub data RecoveryPhase : Type 0 where
  accepted snapshot admission_blocked draining demoting paired_standalone : RecoveryPhase
  promoting post_recovery_canary serving completed failed suppressed : RecoveryPhase

pub data RecoveryFailureReason : Type 0 where
  not_coordinator not_distributed_ready cooldown attempt_limit : RecoveryFailureReason
  snapshot_write unknown_recovery_id recovery_owner_busy drain_timeout : RecoveryFailureReason
  demotion_failed promotion_failed child_identity_mismatch peer_loss : RecoveryFailureReason
  canary_failed : RecoveryFailureReason

pub record RecoveryGate : Type 0 where
  pub role : LocalRole
  pub mode : StableMode
  pub state : ClusterState
  pub generation : ℕ  -- u64

-- Keys, ids, paths and the admission's name are only compared or kept.
pub record RecoveryRequest : Type 0 where
  pub reason : RecoveryReason
  pub trigger : RecoveryTrigger
  pub idempotency_key : ℕ

pub record RecoveryPolicy : Type 0 where
  pub history_limit : ℕ
  pub cooldown : ℕ  -- u64, in milliseconds
  pub window : ℕ  -- u64, in milliseconds
  pub max_attempts : ℕ

-- `RecoveryPolicy::default`.
abbrev pub default_policy : RecoveryPolicy
default_policy = record {
  history_limit = 32;
  cooldown = 3600000;
  window = 43200000;
  max_attempts = 2;
}

-- Without the two fields that are the same in every job.
pub record RecoveryJob : Type 0 where
  pub recovery_id : ℕ
  pub state : RecoveryState
  pub phase : RecoveryPhase
  pub reason : RecoveryReason
  pub trigger : RecoveryTrigger
  pub started_at_millis : ℕ
  pub finished_at_millis : Option ℕ
  pub cluster_generation : ℕ
  pub new_cluster_generation : Option ℕ
  pub idempotency_key : ℕ
  pub failure_reason : Option RecoveryFailureReason
  pub snapshot_path : Option ℕ
  pub post_recovery_canary : Option CanaryReason
  pub admission : Option ℕ

pub data RecoveryStart : Type 0 where
  created existing suppressed : RecoveryJob → RecoveryStart

-- The history, its back first.
pub record RecoveryInner : Type 0 where
  pub policy : RecoveryPolicy
  pub active : Option RecoveryJob
  pub history : List RecoveryJob

-- `RecoveryService::with_policy`.
unfoldable pub with_policy : RecoveryPolicy → RecoveryInner
with_policy policy = record {
  policy = record policy { history_limit = max policy.history_limit 1 };
  active = none;
  history = [];
}

abbrev is_coordinator : LocalRole → Bool
is_coordinator LocalRole.coordinator = true
is_coordinator _ = false

abbrev is_layer_parallel : StableMode → Bool
is_layer_parallel distributed_layer_parallel = true
is_layer_parallel _ = false

abbrev is_distributed_ready : ClusterState → Bool
is_distributed_ready distributed_ready = true
is_distributed_ready _ = false

unfoldable pub gate_failure : RecoveryGate → Option RecoveryFailureReason
gate_failure gate =
    if not (is_coordinator gate.role)
    then some not_coordinator
    else if not (is_layer_parallel gate.mode) || not (is_distributed_ready gate.state)
    then some not_distributed_ready
    else none

-- The jobs that count as attempts.
abbrev pub is_attempt : RecoveryState → Bool
is_attempt succeeded = true
is_attempt failed = true
is_attempt _ = false

abbrev pub later : Option ℕ → Option ℕ → Option ℕ
later none b = b
later (some a) none = some a
later (some a) (some b) = some (max a b)

-- The latest end of an attempt.
abbrev pub last_finished : List RecoveryJob → Option ℕ
last_finished [] = none
last_finished (job ∷ jobs) =
    later (if is_attempt job.state then job.finished_at_millis else none) (last_finished jobs)

abbrev pub cools : Option ℕ → ℕ → ℕ → Bool
cools none pause now = false
cools (some finished) pause now = ltb now (saturating_add u64_max finished pause)

unfoldable pub in_cooldown : RecoveryInner → ℕ → Bool
in_cooldown inner now = cools (last_finished inner.history) inner.policy.cooldown now

abbrev pub count_attempts : List RecoveryJob → ℕ → ℕ → ℕ
count_attempts [] window now = 0
count_attempts (job ∷ jobs) window now =
    let rest = count_attempts jobs window now in
    if is_attempt job.state && leb (now - job.started_at_millis) window then suc rest else rest

unfoldable pub attempts_in_window : RecoveryInner → ℕ → ℕ
attempts_in_window inner now = count_attempts inner.history inner.policy.window now

-- `new_job`; the fresh id is an argument.
unfoldable pub new_job :
    RecoveryGate → RecoveryRequest → ℕ → ℕ → RecoveryState → RecoveryPhase → RecoveryJob
new_job gate request fresh started state phase = record {
  recovery_id = fresh;
  state = state;
  phase = phase;
  reason = request.reason;
  trigger = request.trigger;
  started_at_millis = started;
  finished_at_millis = none;
  cluster_generation = gate.generation;
  new_cluster_generation = none;
  idempotency_key = request.idempotency_key;
  failure_reason = none;
  snapshot_path = none;
  post_recovery_canary = none;
  admission = none;
}

abbrev pub failure_state : RecoveryFailureReason → RecoveryState
failure_state not_coordinator = RecoveryState.suppressed
failure_state not_distributed_ready = RecoveryState.suppressed
failure_state cooldown = RecoveryState.suppressed
failure_state attempt_limit = RecoveryState.suppressed
failure_state unknown_recovery_id = RecoveryState.suppressed
failure_state _ = RecoveryState.failed

abbrev failure_phase : RecoveryState → RecoveryPhase
failure_phase RecoveryState.failed = RecoveryPhase.failed
failure_phase _ = RecoveryPhase.suppressed

unfoldable pub with_failure : RecoveryJob → RecoveryFailureReason → ℕ → RecoveryJob
with_failure job reason finished = record job {
  state = failure_state reason;
  phase = failure_phase (failure_state reason);
  failure_reason = some reason;
  finished_at_millis = some finished;
}

unfoldable pub push_history : RecoveryInner → RecoveryJob → RecoveryInner
push_history inner job = record inner {
  history = take inner.policy.history_limit (job ∷ inner.history);
}
