-- ===== src/Scenarios/Service.antt =====
-- Tests of src/recovery.rs, the service.
use siderostat.Prelude.{
  ℕ, ◌<◌, ◌≤◌, ◌≡◌, ◌≢◌, ◌↔◌, refl, true, false, none, some, List, [], ◌∷◌, arith,
}
use siderostat.Target.{LocalRole, distributed_layer_parallel, distributed_ready, demoting}
use siderostat.Recovery.Detector.{RecoveryTrigger, deadline}
use siderostat.Recovery.Jobs.{
  RecoveryGate, RecoveryRequest, RecoveryPolicy, RecoveryInner, RecoveryPhase,
  RecoveryFailureReason, with_policy, default_policy, throughput_degraded, created, gate_failure,
  in_cooldown, attempts_in_window, new_job, with_failure, push_history,
}
use siderostat.Recovery.Service.{
  find_key, begin_at, running_job, suppression, mark_succeeded, mark_terminal,
}
use siderostat.Recovery.Service.Calls.{
  IsOrderly, begins, enters, succeeds, fails, measures, perform, perform_all,
}
use siderostat.Recovery.Service.Orderly.{perform_all-with_policy-IsOrderly}
use siderostat.Recovery.Service.Limits.{IsOpen, AllCooled, begin_at-created_iff}
use siderostat.Recovery.Service.Flush.{begin_all, AllNew, begin_all-forgets}

abbrev open_gate : RecoveryGate
open_gate = record {
  role = LocalRole.coordinator;
  mode = distributed_layer_parallel;
  state = distributed_ready;
  generation = 5;
}

abbrev closed_gate : RecoveryGate
closed_gate = record {
  role = LocalRole.coordinator;
  mode = distributed_layer_parallel;
  state = demoting;
  generation = 6;
}

abbrev with_key : ℕ → RecoveryRequest
with_key key = record {
  reason = throughput_degraded;
  trigger = RecoveryTrigger.low_decode_tps;
  idempotency_key = key;
}

perform_all-with_policy-IsOrderly_example : IsOrderly (
    perform_all (with_policy default_policy) (
      begins open_gate (with_key 1) 100 0
      ∷ enters 100 RecoveryPhase.draining none
      ∷ measures 100 deadline
      ∷ fails 100 9 RecoveryFailureReason.drain_timeout
      ∷ begins open_gate (with_key 2) 101 10
      ∷ []))
perform_all-with_policy-IsOrderly_example = perform_all-with_policy-IsOrderly default_policy (
    begins open_gate (with_key 1) 100 0
    ∷ enters 100 RecoveryPhase.draining none
    ∷ measures 100 deadline
    ∷ fails 100 9 RecoveryFailureReason.drain_timeout
    ∷ begins open_gate (with_key 2) 101 10
    ∷ [])

-- One recovery has succeeded, in a service that remembers two jobs.
abbrev small_policy : RecoveryPolicy
small_policy = record { history_limit = 2; cooldown = 1000; window = 5000; max_attempts = 2 }

abbrev recovered : RecoveryInner
recovered =
    perform_all (with_policy small_policy)
      (begins open_gate (with_key 1) 100 10 ∷ succeeds 100 20 6 ∷ [])

recovered-IsOrderly : IsOrderly recovered
recovered-IsOrderly =
    perform_all-with_policy-IsOrderly small_policy
      (begins open_gate (with_key 1) 100 10 ∷ succeeds 100 20 6 ∷ [])

-- The cooldown runs.
recovered_cools : in_cooldown recovered 30 ≡ true
unfolding perform_all perform with_policy begin_at find_key suppression gate_failure in_cooldown
    attempts_in_window new_job mark_succeeded mark_terminal push_history
recovered_cools = refl

begin_at-created_iff_example :
    (begin_at recovered open_gate (with_key 2) 101 1020 ≡ (
      record recovered { active = some (running_job open_gate (with_key 2) 101 1020) },
      created (running_job open_gate (with_key 2) 101 1020),
    ))
    ↔ (recovered.active ≡ none)
      × (find_key 2 recovered.history ≡ none)
      × IsOpen open_gate
      × AllCooled recovered.history recovered.policy.cooldown 1020
      × (attempts_in_window recovered 1020 < recovered.policy.max_attempts)
begin_at-created_iff_example = begin_at-created_iff recovered open_gate (with_key 2) 101 1020

abbrev refused : List (RecoveryRequest × ℕ × ℕ)
refused = (with_key 2, 101, 25) ∷ (with_key 3, 102, 26) ∷ []

recovered_idle : recovered.active ≡ none
unfolding perform_all perform with_policy begin_at find_key suppression gate_failure in_cooldown
    attempts_in_window new_job mark_succeeded mark_terminal push_history
recovered_idle = refl

refused-AllNew : AllNew recovered closed_gate refused
unfolding perform_all perform with_policy begin_at find_key suppression gate_failure in_cooldown
    attempts_in_window new_job mark_succeeded mark_terminal push_history with_failure AllNew
refused-AllNew = (refl, (refl, tt))

small_limits : (1 ≤ recovered.policy.max_attempts) × (recovered.policy.history_limit ≤ 2)
unfolding perform_all perform with_policy begin_at find_key suppression gate_failure in_cooldown
    attempts_in_window new_job mark_succeeded mark_terminal push_history
small_limits = (omega arith, omega arith)

closed_gate_fails : gate_failure closed_gate ≢ none
unfolding gate_failure
closed_gate_fails e = cc

new_key : find_key 4 (begin_all recovered closed_gate refused).history ≡ none
unfolding perform_all perform with_policy begin_at find_key suppression gate_failure in_cooldown
    attempts_in_window new_job mark_succeeded mark_terminal push_history with_failure begin_all
new_key = refl

-- Ten milliseconds after a recovery, of a cooldown of a thousand.
begin_all-forgets_example :
    let n = begin_all recovered closed_gate refused in
    (in_cooldown n 30 ≡ false)
    × (attempts_in_window n 30 ≡ 0)
    × ((begin_at n open_gate (with_key 4) 103 30).1
        ≡ created (running_job open_gate (with_key 4) 103 30))
begin_all-forgets_example =
    begin_all-forgets recovered closed_gate open_gate refused (with_key 4) 103 30
      recovered-IsOrderly recovered_idle small_limits.0 closed_gate_fails refused-AllNew
      small_limits.1 (record { coordinates = refl; layer_parallel = refl; ready = refl }) new_key
