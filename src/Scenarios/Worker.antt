-- ===== src/Scenarios/Worker.antt =====
-- Tests of the worker's lifecycle of src/cluster/worker.rs.
use siderostat.Prelude.{◌≡◌, ◌≢◌, refl, true, false, none, List, [], ◌∷◌, arith}
use siderostat.Admission.{new_gate, start_serving, begin_drain, end_drain}
use siderostat.Cluster.WorkerRuntime.{
  WorkerState, Answers, timed_out, running, exited, Poll, drain, prepare, cleanup_failure,
  stop_worker, stop_standalone, start_worker, prepare_drained,
}
use siderostat.Cluster.WorkerRuntime.Lifecycle.{IsSettled, prepare-IsSettled}
use siderostat.Cluster.WorkerRuntime.Tracker.{
  TpWorkerTracker, connected, new_tracker, note_prepared,
}

abbrev serving_worker : WorkerState
serving_worker = record { gate = start_serving (new_gate 4); calls = [] }

-- All is well but the start of the child, which comes too late.
abbrev late_start : Answers
late_start = record {
  while_waiting = λ g. g;
  empties = true;
  first_lease = true;
  second_lease = true;
  third_lease = true;
  standalone_stop = none;
  worker_start = timed_out;
  worker_running = running;
  worker_stop = none;
}

late_start_drained : (drain serving_worker.gate 3 late_start).1 ≡ none
unfolding drain begin_drain end_drain start_serving new_gate
late_start_drained = refl

late_start_calls :
    (prepare serving_worker 3 late_start).0.calls
    ≡ stop_worker ∷ start_worker 3 ∷ stop_standalone ∷ []
unfolding prepare prepare_drained cleanup_failure drain begin_drain end_drain start_serving new_gate
late_start_calls = refl

prepare-IsSettled_example :
    IsSettled 3
      (record serving_worker { gate = (drain serving_worker.gate 3 late_start).0 })
      (prepare serving_worker 3 late_start)
prepare-IsSettled_example = prepare-IsSettled serving_worker 3 late_start late_start_drained

abbrev polls : List Poll
polls =
    record { lease = true; child = running }
    ∷ record { lease = true; child = exited }
    ∷ record { lease = false; child = running }
    ∷ []

-- A worker that is prepared for session 5 and cancelled, and then connects late.
abbrev prepared_worker : TpWorkerTracker
prepared_worker = note_prepared new_tracker 5

not_connected : prepared_worker.phase ≢ connected
unfolding note_prepared new_tracker
not_connected h = ground (arith, h)
