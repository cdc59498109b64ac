-- ===== src/Cluster/RecoveryTp.antt =====
-- src/cluster/recovery_tp.rs: which tensor-parallel faults are retried, and how often.
pub mod Bounded
use siderostat.Prelude.{ℕ, suc, ◌+◌, max, Bool, true, false, if◌then◌else◌, ltb, List, [], ◌∷◌}
use siderostat.Cluster.Failure.{
  ClusterFailure, route_incomplete, deployment_mismatch, child_identity_unknown,
}
use siderostat.Cluster.Failure
use siderostat.Cluster.Policy.{OperationPolicy, automatic, forced_standalone}

pub data TpFailureKind : Type 0 where
  worker_crash coordinator_crash route_loss role_swap first_prefill_timeout : TpFailureKind
  model_mismatch identity_unknown drain_timeout : TpFailureKind

unfoldable pub cluster_failure : TpFailureKind → ClusterFailure
cluster_failure worker_crash = route_incomplete
cluster_failure coordinator_crash = route_incomplete
cluster_failure route_loss = route_incomplete
cluster_failure role_swap = route_incomplete
cluster_failure first_prefill_timeout = Failure.first_prefill_timeout
cluster_failure model_mismatch = deployment_mismatch
cluster_failure identity_unknown = child_identity_unknown
cluster_failure drain_timeout = Failure.drain_timeout

pub data TpRecoveryDecision : Type 0 where
  retry stop_and_fallback manual_intervention suppressed : TpRecoveryDecision

pub record TpRecoveryTracker : Type 0 where
  pub attempts : ℕ  -- u32
  pub max_attempts : ℕ  -- u32
  pub incident_active : Bool

unfoldable pub new_tracker : ℕ → TpRecoveryTracker
new_tracker n = record { attempts = 0; max_attempts = max n 1; incident_active = false }

-- The transient faults. `attempts` stays below `max_attempts` before each sum, so it does not wrap.
retry_or_stop : TpRecoveryTracker → TpRecoveryTracker × TpRecoveryDecision
retry_or_stop t =
    if ltb t.attempts t.max_attempts
    then (record t { attempts = t.attempts + 1 }, retry)
    else (t, stop_and_fallback)

classify_automatic : TpRecoveryTracker → TpFailureKind → TpRecoveryTracker × TpRecoveryDecision
unfolding retry_or_stop
classify_automatic t model_mismatch = (t, manual_intervention)
classify_automatic t identity_unknown = (t, manual_intervention)
classify_automatic t drain_timeout = (t, manual_intervention)
classify_automatic t worker_crash = retry_or_stop t
classify_automatic t coordinator_crash = retry_or_stop t
classify_automatic t route_loss = retry_or_stop t
classify_automatic t role_swap = retry_or_stop t
classify_automatic t first_prefill_timeout = retry_or_stop t

unfoldable pub classify :
    TpRecoveryTracker → TpFailureKind → OperationPolicy → TpRecoveryTracker × TpRecoveryDecision
unfolding classify_automatic
classify t kind forced_standalone = (t, suppressed)
classify t kind automatic = classify_automatic (record t { incident_active = true }) kind

-- `note_healthy_fallback`; `note_unverifiable_fallback` does the same and asks for a human.
unfoldable pub note_healthy_fallback : TpRecoveryTracker → TpRecoveryTracker
note_healthy_fallback t = record t { attempts = 0; incident_active = false }

unfoldable pub note_unverifiable_fallback :
    TpRecoveryTracker → TpRecoveryTracker × TpRecoveryDecision
note_unverifiable_fallback t =
    (record t { attempts = 0; incident_active = false }, manual_intervention)
