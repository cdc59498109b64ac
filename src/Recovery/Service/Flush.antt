-- ===== src/Recovery/Service/Flush.antt =====
-- Suppressed requests stand in the history too: enough of them push the attempts out.
use siderostat.Prelude.{
  ℕ, suc, zero, ◌+◌, ◌≤◌, false, Option, none, some, List, [], ◌∷◌, ◌≡◌, ◌≢◌, refl, sym, ap, ◌∙◌,
  subst, arith, length, take, Option-cases, inl, inr,
}
use siderostat.Recovery.Jobs.{
  RecoveryFailureReason, RecoveryGate, RecoveryRequest, RecoveryJob, RecoveryInner, RecoveryPolicy,
  RecoveryStart, cools, gate_failure, in_cooldown, attempts_in_window, last_finished,
  count_attempts, is_attempt, with_failure, push_history, created, failure_state,
}
use siderostat.Recovery.Service.{find_key, begin_at, suppression, running_job, suppressed_job}
use siderostat.Recovery.Service.Calls.{IsOrderly, perform, begins}
use siderostat.Recovery.Service.Orderly.{perform-IsOrderly}
use siderostat.Recovery.Service.Limits.{IsOpen, gate_failure_iff, suppression_iff, begin_at-started}

-- Requests at a gate that suppresses them: each with its fresh id and its time.
unfoldable pub begin_all :
    RecoveryInner → RecoveryGate → List (RecoveryRequest × ℕ × ℕ) → RecoveryInner
begin_all s gate [] = s
begin_all s gate ((request, fresh, now) ∷ rest) =
    begin_all (begin_at s gate request fresh now).0 gate rest

-- Each has a key that the history does not know when it comes.
unfoldable pub AllNew : RecoveryInner → RecoveryGate → List (RecoveryRequest × ℕ × ℕ) → Type 0
AllNew s gate [] = Unit {0}
AllNew s gate ((request, fresh, now) ∷ rest) =
    (find_key request.idempotency_key s.history ≡ none)
    × AllNew (begin_at s gate request fresh now).0 gate rest

-- None of these jobs counts as an attempt.
abbrev AllQuiet : List RecoveryJob → Type 0
AllQuiet [] = Unit {0}
AllQuiet (j ∷ js) = (is_attempt j.state ≡ false) × AllQuiet js

AllQuiet-take :
    (k n : ℕ) (js : List RecoveryJob) → AllQuiet (take k js) → AllQuiet (take k (take n js))
AllQuiet-take zero n js h = tt
AllQuiet-take (suc k) zero js h = tt
AllQuiet-take (suc k) (suc n) [] h = tt
AllQuiet-take (suc k) (suc n) (j ∷ js) h = (h.0, AllQuiet-take k n js h.1)

AllQuiet-whole :
    (k : ℕ) (js : List RecoveryJob) → length js ≤ k → AllQuiet (take k js) → AllQuiet js
AllQuiet-whole zero [] le h = tt
AllQuiet-whole zero (j ∷ js) le h = absurd (omega arith)
AllQuiet-whole (suc k) [] le h = tt
AllQuiet-whole (suc k) (j ∷ js) le h = (h.0, AllQuiet-whole k js (omega arith) h.1)

AllQuiet-last_finished : (js : List RecoveryJob) → AllQuiet js → last_finished js ≡ none
AllQuiet-last_finished [] h = refl
AllQuiet-last_finished (j ∷ js) h = ground (arith, h.0, AllQuiet-last_finished js h.1)

AllQuiet-count :
    (js : List RecoveryJob) (window now : ℕ) → AllQuiet js → count_attempts js window now ≡ 0
AllQuiet-count [] window now h = refl
AllQuiet-count (j ∷ js) window now h = ground (arith, h.0, AllQuiet-count js window now h.1)

gate_failure_quiet :
    (gate : RecoveryGate) (reason : RecoveryFailureReason)
    → gate_failure gate ≡ some reason
    → is_attempt (failure_state reason) ≡ false
unfolding gate_failure
gate_failure_quiet gate reason h = ground arith

-- One suppressed request: one more job that does not count, in front of the others.
begin_at_refused :
    (s : RecoveryInner) (gate : RecoveryGate) (request : RecoveryRequest) (fresh now : ℕ)
    (reason : RecoveryFailureReason)
    → gate_failure gate ≡ some reason
    → s.active ≡ none
    → find_key request.idempotency_key s.history ≡ none
    → (begin_at s gate request fresh now).0
      ≡ push_history s (suppressed_job gate request fresh now reason)
unfolding begin_at suppression
begin_at_refused s gate request fresh now reason hg idle new = ground arith

record Flushed (p : RecoveryPolicy) (k : ℕ) (s : RecoveryInner) : Type 0 where
  limits : s.policy ≡ p
  idle : s.active ≡ none
  quiet : AllQuiet (take k s.history)
  orderly : IsOrderly s

AllQuiet-push :
    (k n : ℕ) (j : RecoveryJob) (js : List RecoveryJob)
    → is_attempt j.state ≡ false
    → AllQuiet (take k js)
    → AllQuiet (take (suc k) (take n (j ∷ js)))
AllQuiet-push k zero j js hj h = tt
AllQuiet-push k (suc n) j js hj h = (hj, AllQuiet-take k n js h)

begin_at-Flushed :
    (p : RecoveryPolicy) (k : ℕ) (s : RecoveryInner) (gate : RecoveryGate)
    (request : RecoveryRequest) (fresh now : ℕ) (reason : RecoveryFailureReason)
    → gate_failure gate ≡ some reason
    → find_key request.idempotency_key s.history ≡ none
    → Flushed p k s
    → Flushed p (suc k) (begin_at s gate request fresh now).0
unfolding perform push_history with_failure
begin_at-Flushed p k s gate request fresh now reason hg new h = record {
  limits = ap (λ (t : RecoveryInner). t.policy) pushed ∙ h.limits;
  idle = ap (λ (t : RecoveryInner). t.active) pushed ∙ h.idle;
  quiet =
      subst (λ (t : RecoveryInner). AllQuiet (take (suc k) t.history)) (sym pushed)
        (AllQuiet-push k s.policy.history_limit (suppressed_job gate request fresh now reason)
          s.history (gate_failure_quiet gate reason hg) h.quiet);
  orderly = perform-IsOrderly s (begins gate request fresh now) h.orderly;
}
  where
    pushed :
        (begin_at s gate request fresh now).0
        ≡ push_history s (suppressed_job gate request fresh now reason)
    pushed = begin_at_refused s gate request fresh now reason hg h.idle new

begin_all-Flushed :
    (p : RecoveryPolicy) (k : ℕ) (s : RecoveryInner) (gate : RecoveryGate)
    (rs : List (RecoveryRequest × ℕ × ℕ)) (reason : RecoveryFailureReason)
    → gate_failure gate ≡ some reason
    → AllNew s gate rs
    → Flushed p k s
    → Flushed p (k + length rs) (begin_all s gate rs)
unfolding begin_all AllNew
begin_all-Flushed p k s gate [] reason hg new h = subst (λ (m : ℕ). Flushed p m s) (omega arith) h
begin_all-Flushed p k s gate ((request, fresh, now) ∷ rs) reason hg new h =
    subst (λ (m : ℕ). Flushed p m (begin_all (begin_at s gate request fresh now).0 gate rs))
      (omega arith)
      (begin_all-Flushed p (suc k) (begin_at s gate request fresh now).0 gate rs reason hg new.1
        (begin_at-Flushed p k s gate request fresh now reason hg new.0 h))

Flushed-limits :
    (p : RecoveryPolicy) (k : ℕ) (s : RecoveryInner) (now : ℕ)
    → Flushed p k s
    → p.history_limit ≤ k
    → (in_cooldown s now ≡ false) × (attempts_in_window s now ≡ 0)
unfolding in_cooldown attempts_in_window
Flushed-limits p k s now h le = (
  ap (λ (o : Option ℕ). cools o s.policy.cooldown now) (AllQuiet-last_finished s.history all),
  AllQuiet-count s.history s.policy.window now all,
)
  where
    short : length s.history ≤ k
    short =
        omega (arith, h.orderly.bounded, ap (λ (q : RecoveryPolicy). q.history_limit) h.limits, le)

    all : AllQuiet s.history
    all = AllQuiet-whole k s.history short h.quiet

-- The history forgets: when as many requests as it holds have been suppressed at a gate that was
-- not open, each with a new key, no attempt limits the service any more. The cooldown counts as over
-- and the attempts as none, at any time, and the next request at an open gate starts a job. (The
-- service was idle and orderly, and its policy allows an attempt.)
pub begin_all-forgets :
    (s : RecoveryInner) (closed gate : RecoveryGate) (rs : List (RecoveryRequest × ℕ × ℕ))
    (request : RecoveryRequest) (fresh now : ℕ)
    → IsOrderly s
    → s.active ≡ none
    → 1 ≤ s.policy.max_attempts
    → gate_failure closed ≢ none
    → AllNew s closed rs
    → s.policy.history_limit ≤ length rs
    → IsOpen gate
    → find_key request.idempotency_key (begin_all s closed rs).history ≡ none
    → let n = begin_all s closed rs in
      (in_cooldown n now ≡ false)
      × (attempts_in_window n now ≡ 0)
      × ((begin_at n gate request fresh now).1 ≡ created (running_job gate request fresh now))
begin_all-forgets s closed gate rs request fresh now orderly idle some_attempt shut new enough
      opened unknown =
    elim (Option-cases (gate_failure closed)) [
      | inl e ↦ absurd (shut e)
      | inr (reason, e) ↦
          let h =
            begin_all-Flushed s.policy 0 s closed rs reason e new
              (record { limits = refl; idle = idle; quiet = tt; orderly = orderly }) in
          let lim =
            Flushed-limits s.policy (0 + length rs) (begin_all s closed rs) now h
              (omega (arith, enough)) in
          (
            lim.0,
            lim.1,
            ap (λ (r : RecoveryInner × RecoveryStart). r.1)
                (begin_at-started (begin_all s closed rs) gate request fresh now h.idle unknown (
                  (suppression_iff (begin_all s closed rs) gate now).1 (
                    (gate_failure_iff gate).1 opened,
                    lim.0,
                    omega (
                      arith,
                      lim.1,
                      some_attempt,
                      ap (λ (q : RecoveryPolicy). q.max_attempts) h.limits,
                    ),
                  ))),
          )
    ]
