-- ===== src/Cluster/RecoveryTp/Bounded.antt =====
-- src/cluster/recovery_tp.rs: the retries of one incident are bounded.
use siderostat.Prelude.{
  ℕ, suc, ◌+◌, ◌-◌, ◌≤◌, min, max, Bool, true, false, ◌≡◌, ◌⊎◌, ◌≢◌, List, [], ◌∷◌, arith,
  if◌then◌else◌,
}
use siderostat.Cluster.Policy.{OperationPolicy, automatic, forced_standalone}
use siderostat.Cluster.RecoveryTp.{
  TpFailureKind, TpRecoveryDecision, TpRecoveryTracker, retry, suppressed, classify, new_tracker,
  note_healthy_fallback, note_unverifiable_fallback, model_mismatch, identity_unknown,
  drain_timeout,
}

-- A fault under a policy.
abbrev pub Fault : Type 0
Fault = TpFailureKind × OperationPolicy

-- The decisions for a list of faults, with no fallback between.
unfoldable pub decide : TpRecoveryTracker → List Fault → List TpRecoveryDecision
decide t [] = []
decide t ((k, p) ∷ fs) = (classify t k p).1 ∷ decide (classify t k p).0 fs

abbrev pub is_retry : TpRecoveryDecision → Bool
is_retry retry = true
is_retry _ = false

abbrev is_transient : TpFailureKind → Bool
is_transient model_mismatch = false
is_transient identity_unknown = false
is_transient drain_timeout = false
is_transient _ = true

abbrev pub retries : List TpRecoveryDecision → ℕ
retries [] = 0
retries (d ∷ ds) = let rest = retries ds in if is_retry d then suc rest else rest

-- The transient faults under the automatic policy.
abbrev pub transients : List Fault → ℕ
transients [] = 0
transients ((k, forced_standalone) ∷ fs) = transients fs
transients ((k, automatic) ∷ fs) =
    let rest = transients fs in if is_transient k then suc rest else rest

retries-from :
    (t : TpRecoveryTracker) (fs : List Fault)
    → t.attempts ≤ t.max_attempts
    → retries (decide t fs) ≡ min (transients fs) (t.max_attempts - t.attempts)
unfolding decide classify
retries-from t [] h = omega arith
retries-from t ((k, forced_standalone) ∷ fs) h = ground (arith, retries-from t fs)
retries-from t ((k, automatic) ∷ fs) h = ground (
  arith,
  retries-from (record t { incident_active = true }) fs,
  retries-from (record t { incident_active = true; attempts = t.attempts + 1 }) fs,
)

-- Of one incident, that is of the faults since a fallback, exactly as many are retried as there are
-- transient faults under the automatic policy, up to the maximum (one at least): no fault beyond
-- the maximum, none under forced standalone, and no mismatch, unknown identity or drain timeout.
pub retries-decide :
    (n : ℕ) (fs : List Fault) → retries (decide (new_tracker n) fs) ≡ min (transients fs) (max n 1)
unfolding new_tracker
retries-decide n fs = ground (arith, retries-from (new_tracker n) fs)

-- A verified fallback and one that cannot be verified both give the whole number of retries back:
-- the tracker is the new one.
pub retries-after_fallback :
    (n : ℕ) (t : TpRecoveryTracker) (fs : List Fault)
    → t.max_attempts ≡ max n 1
    → (retries (decide (note_healthy_fallback t) fs) ≡ retries (decide (new_tracker n) fs))
      × (retries (decide (note_unverifiable_fallback t).0 fs) ≡ retries (decide (new_tracker n) fs))
unfolding note_healthy_fallback note_unverifiable_fallback new_tracker
retries-after_fallback n t fs e = ground (
  arith,
  retries-from (record t { attempts = 0; incident_active = false }) fs,
  retries-from (new_tracker n) fs,
)

-- Forced standalone suppresses every fault and leaves the tracker, its count and its incident
-- included, as it was; under the automatic policy no fault is suppressed and an incident is active.
pub classify_policy :
    (t : TpRecoveryTracker) (k : TpFailureKind) (p : OperationPolicy)
    → ((p ≡ forced_standalone) × ((classify t k p).1 ≡ suppressed) × ((classify t k p).0 ≡ t))
      ⊎ ((p ≡ automatic)
          × ((classify t k p).1 ≢ suppressed)
          × ((classify t k p).0.incident_active ≡ true))
unfolding classify
classify_policy t k p = ground arith
