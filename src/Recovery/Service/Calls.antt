-- ===== src/Recovery/Service/Calls.antt =====
-- The calls of the service, and what it is for its state to be orderly.
use siderostat.Prelude.{
  ℕ, suc, zero, ◌≤◌, Option, none, some, List, [], ◌∷◌, ◌≡◌, ◌≢◌, refl, arith, length, take,
}
use siderostat.Recovery.Detector.{CanaryReason}
use siderostat.Recovery.Jobs.{
  RecoveryState, RecoveryPhase, RecoveryFailureReason, RecoveryGate, RecoveryRequest, RecoveryJob,
  RecoveryInner,
}
use siderostat.Recovery.Service.{
  find_key, begin_at, mark_snapshot_succeeded, mark_phase, mark_post_recovery_canary,
  mark_snapshot_failed, mark_succeeded, mark_failed,
}

pub data Call : Type 0 where
  begins : RecoveryGate → RecoveryRequest → ℕ → ℕ → Call
  snapshot_succeeds : ℕ → ℕ → Call
  enters : ℕ → RecoveryPhase → Option ℕ → Call
  measures : ℕ → CanaryReason → Call
  snapshot_fails : ℕ → RecoveryFailureReason → ℕ → Call
  succeeds : ℕ → ℕ → ℕ → Call
  fails : ℕ → ℕ → RecoveryFailureReason → Call

unfoldable pub perform : RecoveryInner → Call → RecoveryInner
perform s (begins gate request fresh now) = (begin_at s gate request fresh now).0
perform s (snapshot_succeeds id path) = (mark_snapshot_succeeded s id path).0
perform s (enters id phase admission) = (mark_phase s id phase admission).0
perform s (measures id result) = (mark_post_recovery_canary s id result).0
perform s (snapshot_fails id reason finished) = (mark_snapshot_failed s id reason finished).0
perform s (succeeds id finished generation) = (mark_succeeded s id finished generation).0
perform s (fails id finished reason) = (mark_failed s id finished reason).0

unfoldable pub perform_all : RecoveryInner → List Call → RecoveryInner
perform_all s [] = s
perform_all s (c ∷ cs) = perform_all (perform s c) cs

-- No two jobs have the same key.
abbrev pub DistinctKeys : List RecoveryJob → Type 0
DistinctKeys [] = Unit {0}
DistinctKeys (j ∷ js) = (find_key j.idempotency_key js ≡ none) × DistinctKeys js

-- Every job is over and knows since when.
abbrev pub AllEnded : List RecoveryJob → Type 0
AllEnded [] = Unit {0}
AllEnded (j ∷ js) = (j.state ≢ RecoveryState.running) × (j.finished_at_millis ≢ none) × AllEnded js

-- The job that runs.
abbrev pub AllRunning : RecoveryInner → Option RecoveryJob → Type 0
AllRunning s none = Unit {0}
AllRunning s (some j) =
    (j.state ≡ RecoveryState.running)
    × (j.finished_at_millis ≡ none)
    × (find_key j.idempotency_key s.history ≡ none)

pub record IsOrderly (s : RecoveryInner) : Type 0 where
  pub positive : 1 ≤ s.policy.history_limit
  pub bounded : length s.history ≤ s.policy.history_limit
  pub ended : AllEnded s.history
  pub distinct : DistinctKeys s.history
  pub runs : AllRunning s s.active

pub length-take : (n : ℕ) (js : List RecoveryJob) → length (take n js) ≤ n
length-take zero js = omega arith
length-take (suc n) [] = omega arith
length-take (suc n) (j ∷ js) = omega (arith, length-take n js)

find_key-take :
    (key n : ℕ) (js : List RecoveryJob) → find_key key js ≡ none → find_key key (take n js) ≡ none
unfolding find_key
find_key-take key zero js h = refl
find_key-take key (suc n) [] h = refl
find_key-take key (suc n) (j ∷ js) h = ground (arith, find_key-take key n js)

pub take-DistinctKeys : (n : ℕ) (js : List RecoveryJob) → DistinctKeys js → DistinctKeys (take n js)
take-DistinctKeys zero js d = tt
take-DistinctKeys (suc n) [] d = tt
take-DistinctKeys (suc n) (j ∷ js) d =
    (find_key-take j.idempotency_key n js d.0, take-DistinctKeys n js d.1)

pub take-AllEnded : (n : ℕ) (js : List RecoveryJob) → AllEnded js → AllEnded (take n js)
take-AllEnded zero js d = tt
take-AllEnded (suc n) [] d = tt
take-AllEnded (suc n) (j ∷ js) d = (d.0, d.1, take-AllEnded n js d.2)
