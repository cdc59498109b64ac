-- ===== src/Cluster/WorkerRuntime/Lifecycle.antt =====
-- What is left of a worker that could not be prepared, or that failed later.
use siderostat.Prelude.{
  ℕ, true, ◌≡◌, ◌≢◌, ◌↔◌, refl, sym, ap, subst, ◌∙◌, Option, none, some, List, [], ◌∷◌, arith,
}
use siderostat.Admission.{Gate, blocked, DrainError, block}
use siderostat.Cluster.WorkerRuntime.{
  WorkerLifecycleError, ProcessCall, stop_standalone, stop_worker, start_worker, started, running,
  WorkerState, Answers, Outcome, and_then, drain_step, drain, cleanup_failure, prepare_drained,
  prepare, Poll, poll_failure, wait_for_failure,
}

pub record AllGood (a : Answers) : Type 0 where
  leased : (a.first_lease ≡ true) × (a.second_lease ≡ true) × (a.third_lease ≡ true)
  stopped : a.standalone_stop ≡ none
  has_started : a.worker_start ≡ started
  runs : a.worker_running ≡ running

abbrev pub last_call : List ProcessCall → Option ProcessCall
last_call [] = none
last_call (c ∷ cs) = some c

-- What holds of an outcome behind the drain: without an error the standalone was stopped and then
-- the worker started, with one the gate is blocked and the last call has stopped the worker.
pub record IsSettled (generation : ℕ) (w : WorkerState) (o : Outcome) : Type 0 where
  done :
      o.1 ≡ none
      → (o.0.calls ≡ start_worker generation ∷ stop_standalone ∷ w.calls) × (o.0.gate ≡ w.gate)
  undone : o.1 ≢ none → (o.0.gate.state ≡ blocked) × (last_call o.0.calls ≡ some stop_worker)

drained-IsSettled : (g : ℕ) (a : Answers) (w : WorkerState) → IsSettled g w (prepare_drained g a w)
unfolding prepare_drained cleanup_failure block
drained-IsSettled g a w = record {
  done = λ h. (ground (arith, h), ground (arith, h));
  undone = λ h. (ground (arith, h), ground (arith, h));
}

good_iff : (g : ℕ) (a : Answers) (w : WorkerState) → ((prepare_drained g a w).1 ≡ none) ↔ AllGood a
unfolding prepare_drained cleanup_failure block
good_iff g a w = (good, λ h. ground (arith, h.leased, h.stopped, h.has_started, h.runs))
  where
    good : (prepare_drained g a w).1 ≡ none → AllGood a
    good h = record {
      leased = (ground (arith, h), ground (arith, h), ground (arith, h));
      stopped = ground (arith, h);
      has_started = ground (arith, h);
      runs = ground (arith, h);
    }

and_then-ok :
    (w : WorkerState) (r : Gate × Option DrainError) (next : WorkerState → Outcome)
    → r.1 ≡ none
    → and_then (drain_step w r) next ≡ next (record w { gate = r.0 })
and_then-ok w (g, none) next h = refl
and_then-ok w (g, some e) next h = ground (arith, h)

and_then-none :
    (w : WorkerState) (r : Gate × Option DrainError) (next : WorkerState → Outcome)
    → (and_then (drain_step w r) next).1 ≡ none
    → r.1 ≡ none
and_then-none w (g, none) next h = refl
and_then-none w (g, some e) next h = ground (arith, h)

-- A worker is prepared exactly when the drain succeeds and every answer behind it is good: the lease
-- valid at all three looks, the standalone stopped, the child started in time and running.
pub prepare_iff :
    (w : WorkerState) (g : ℕ) (a : Answers)
    → ((prepare w g a).1 ≡ none) ↔ (((drain w.gate g a).1 ≡ none) × AllGood a)
unfolding prepare
prepare_iff w g a = (there, back)
  where
    step :
        (drain w.gate g a).1 ≡ none
        → and_then (drain_step w (drain w.gate g a)) (prepare_drained g a)
          ≡ prepare_drained g a (record w { gate = (drain w.gate g a).0 })
    step d = and_then-ok w (drain w.gate g a) (prepare_drained g a) d

    there :
        (and_then (drain_step w (drain w.gate g a)) (prepare_drained g a)).1 ≡ none
        → ((drain w.gate g a).1 ≡ none) × AllGood a
    there h =
        let d = and_then-none w (drain w.gate g a) (prepare_drained g a) h in
        (
          d,
          (good_iff g a (record w { gate = (drain w.gate g a).0 })).0
              (sym (ap (λ (o : Outcome). o.1) (step d)) ∙ h),
        )

    back :
        ((drain w.gate g a).1 ≡ none) × AllGood a
        → (and_then (drain_step w (drain w.gate g a)) (prepare_drained g a)).1 ≡ none
    back (d, good) =
        ap (λ (o : Outcome). o.1) (step d)
        ∙ (good_iff g a (record w { gate = (drain w.gate g a).0 })).1 good

-- However the preparation goes on once the drain has succeeded, nothing is left half done: without
-- an error the standalone was stopped before the worker was started, and the gate is as the drain
-- left it; with an error the gate is blocked and the last call has told the worker to stop.
pub prepare-IsSettled :
    (w : WorkerState) (g : ℕ) (a : Answers)
    → (drain w.gate g a).1 ≡ none
    → IsSettled g (record w { gate = (drain w.gate g a).0 }) (prepare w g a)
unfolding prepare
prepare-IsSettled w g a d =
    subst (IsSettled g (record w { gate = (drain w.gate g a).0 }))
      (sym (and_then-ok w (drain w.gate g a) (prepare_drained g a) d))
      (drained-IsSettled g a (record w { gate = (drain w.gate g a).0 }))

abbrev first_failure : List Poll → Option WorkerLifecycleError
first_failure [] = none
first_failure (p ∷ ps) = elim (poll_failure p) [ none ↦ first_failure ps | some e ↦ some e ]

-- `wait_for_failure` returns at the first turn that fails, then with the gate blocked and the worker
-- stopped, and not before: while no turn fails it has changed nothing.
pub wait_for_failure_returns :
    (w : WorkerState) (stopped : Option ℕ) (ps : List Poll)
    → wait_for_failure w stopped ps
      ≡ (elim (first_failure ps) [ none ↦ (w, none) | some e ↦ cleanup_failure w e stopped ])
unfolding wait_for_failure
wait_for_failure_returns w stopped [] = refl
wait_for_failure_returns w stopped (p ∷ ps) = ground (arith, wait_for_failure_returns w stopped ps)
