-- ===== src/Recovery/Service/Orderly.antt =====
-- The invariant of the service, over every sequence of its calls.
use siderostat.Prelude.{
  ℕ, Bool, true, false, Option, none, some, List, [], ◌∷◌, ◌≡◌, ◌≢◌, refl, sym, ap, subst, ◌∙◌,
  arith, if◌then◌else◌, ◌==◌,
}
use siderostat.Recovery.Jobs.{
  RecoveryState, RecoveryFailureReason, RecoveryGate, RecoveryRequest, RecoveryPolicy, RecoveryJob,
  RecoveryInner, with_policy, new_job, with_failure, push_history, failure_state,
}
use siderostat.Recovery.Service.{
  find_key, begin_at, mark_snapshot_succeeded, mark_phase, mark_post_recovery_canary,
  mark_snapshot_failed, mark_succeeded, mark_failed, mark_terminal, mark, end_job, start,
  start_unless_known, suppression, suppressed_job,
}
use siderostat.Recovery.Service.Calls.{
  Call, begins, snapshot_succeeds, enters, measures, snapshot_fails, succeeds, fails, perform,
  perform_all, AllRunning, IsOrderly, length-take, take-DistinctKeys, take-AllEnded,
}

-- A job that is over, with a new key, is put behind the others.
push_history-IsOrderly :
    (s : RecoveryInner) (job : RecoveryJob)
    → IsOrderly s
    → job.state ≢ RecoveryState.running
    → job.finished_at_millis ≢ none
    → find_key job.idempotency_key s.history ≡ none
    → IsOrderly (push_history (record s { active = none }) job)
unfolding push_history
push_history-IsOrderly s job h over at new = record {
  positive = h.positive;
  bounded = length-take s.policy.history_limit (job ∷ s.history);
  ended = take-AllEnded s.policy.history_limit (job ∷ s.history) (over, at, h.ended);
  distinct = take-DistinctKeys s.policy.history_limit (job ∷ s.history) (new, h.distinct);
  runs = tt;
}

if-IsOrderly :
    {A : Type 0} (b : Bool) (x y : RecoveryInner × A)
    → IsOrderly x.0
    → IsOrderly y.0
    → IsOrderly (if b then x else y).0
if-IsOrderly true x y hx hy = hx
if-IsOrderly false x y hx hy = hy

mark-IsOrderly :
    (o : Option RecoveryJob) (change : RecoveryJob → RecoveryJob) (s : RecoveryInner) (id : ℕ)
    → IsOrderly s
    → AllRunning s o
    → ((j : RecoveryJob)
        → ((change j).state ≡ j.state)
          × ((change j).finished_at_millis ≡ j.finished_at_millis)
          × ((change j).idempotency_key ≡ j.idempotency_key))
    → IsOrderly (mark o change s id).0
mark-IsOrderly none change s id h r same = h
mark-IsOrderly (some j) change s id h r same =
    if-IsOrderly (j.recovery_id == id) (record s { active = some (change j) }, some (change j))
      (s, none)
      (record {
        positive = h.positive;
        bounded = h.bounded;
        ended = h.ended;
        distinct = h.distinct;
        runs = (
          (same j).0 ∙ r.0,
          (same j).1 ∙ r.1,
          ap (λ (k : ℕ). find_key k s.history) (same j).2 ∙ r.2,
        );
      })
      h

end_job-IsOrderly :
    (o : Option RecoveryJob) (change : RecoveryJob → RecoveryJob) (s : RecoveryInner) (id : ℕ)
    → IsOrderly s
    → AllRunning s o
    → ((j : RecoveryJob)
        → ((change j).state ≢ RecoveryState.running)
          × ((change j).finished_at_millis ≢ none)
          × ((change j).idempotency_key ≡ j.idempotency_key))
    → IsOrderly (end_job o change s id).0
end_job-IsOrderly none change s id h r over = h
end_job-IsOrderly (some j) change s id h r over =
    if-IsOrderly (j.recovery_id == id)
      (push_history (record s { active = none }) (change j), some (change j)) (s, none)
      (push_history-IsOrderly s (change j) h (over j).0 (over j).1
        (ap (λ (k : ℕ). find_key k s.history) (over j).2 ∙ r.2))
      h

failure_state_over : (reason : RecoveryFailureReason) → failure_state reason ≢ RecoveryState.running
failure_state_over reason e = ground arith

start-IsOrderly :
    (o : Option RecoveryFailureReason) (s : RecoveryInner) (gate : RecoveryGate)
    (request : RecoveryRequest) (fresh now : ℕ)
    → IsOrderly s
    → s.active ≡ none
    → find_key request.idempotency_key s.history ≡ none
    → IsOrderly (start o s gate request fresh now).0
unfolding new_job with_failure
start-IsOrderly (some reason) s gate request fresh now h idle new =
    subst
      (λ (o : Option RecoveryJob).
        IsOrderly
          (push_history (record s { active = o }) (suppressed_job gate request fresh now reason)))
      (sym idle)
      (push_history-IsOrderly s (suppressed_job gate request fresh now reason) h
        (failure_state_over reason) (λ e. cc) new)
start-IsOrderly none s gate request fresh now h idle new = record {
  positive = h.positive;
  bounded = h.bounded;
  ended = h.ended;
  distinct = h.distinct;
  runs = (refl, refl, new);
}

start_unless_known-IsOrderly :
    (active known : Option RecoveryJob) (s : RecoveryInner) (gate : RecoveryGate)
    (request : RecoveryRequest) (fresh now : ℕ)
    → IsOrderly s
    → s.active ≡ active
    → find_key request.idempotency_key s.history ≡ known
    → IsOrderly (start_unless_known active known s gate request fresh now).0
start_unless_known-IsOrderly (some j) known s gate request fresh now h e new = h
start_unless_known-IsOrderly none (some j) s gate request fresh now h e new = h
start_unless_known-IsOrderly none none s gate request fresh now h e new =
    start-IsOrderly (suppression s gate now) s gate request fresh now h e new

pub perform-IsOrderly : (s : RecoveryInner) (c : Call) → IsOrderly s → IsOrderly (perform s c)
unfolding perform begin_at mark_snapshot_succeeded mark_phase mark_post_recovery_canary
    mark_snapshot_failed mark_succeeded mark_failed mark_terminal with_failure
perform-IsOrderly s (begins gate request fresh now) h =
    start_unless_known-IsOrderly s.active (find_key request.idempotency_key s.history) s gate
      request fresh now h refl refl
perform-IsOrderly s (snapshot_succeeds id path) h =
    mark-IsOrderly s.active _ s id h h.runs (λ j. (refl, refl, refl))
perform-IsOrderly s (enters id phase admission) h =
    mark-IsOrderly s.active _ s id h h.runs (λ j. (refl, refl, refl))
perform-IsOrderly s (measures id result) h =
    mark-IsOrderly s.active _ s id h h.runs (λ j. (refl, refl, refl))
perform-IsOrderly s (snapshot_fails id reason finished) h =
    end_job-IsOrderly s.active _ s id h h.runs (λ j. (failure_state_over reason, (λ e. cc), refl))
perform-IsOrderly s (succeeds id finished generation) h =
    end_job-IsOrderly s.active _ s id h h.runs (λ j. ((λ e. cc), (λ e. cc), refl))
perform-IsOrderly s (fails id finished reason) h =
    end_job-IsOrderly s.active _ s id h h.runs (λ j. ((λ e. cc), (λ e. cc), refl))

perform_all_keeps :
    (s : RecoveryInner) (cs : List Call) → IsOrderly s → IsOrderly (perform_all s cs)
unfolding perform_all
perform_all_keeps s [] h = h
perform_all_keeps s (c ∷ cs) h = perform_all_keeps (perform s c) cs (perform-IsOrderly s c h)

-- Whatever calls the service gets, with any policy, its history is not longer than the limit, every
-- job of the history is over and has the time of its end, the active job runs, and no two of all
-- these jobs have the same idempotency key.
pub perform_all-with_policy-IsOrderly :
    (policy : RecoveryPolicy) (cs : List Call) → IsOrderly (perform_all (with_policy policy) cs)
unfolding with_policy
perform_all-with_policy-IsOrderly policy cs =
    perform_all_keeps (with_policy policy) cs (record {
      positive = omega arith;
      bounded = omega arith;
      ended = tt;
      distinct = tt;
      runs = tt;
    })
