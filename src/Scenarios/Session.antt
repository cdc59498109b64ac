-- ===== src/Scenarios/Session.antt =====
-- Tests of src/cluster/tp.rs, of the promotion tracker of src/cluster/state.rs and of
-- src/cluster/recovery_tp.rs.
use siderostat.Prelude.{ℕ, ◌≡◌, refl, ◌∙◌, true, List, [], ◌∷◌, min, max}
use siderostat.Cluster.Tp.{
  worker_prepared, coordinator_started, handshake_http_ready, warmup_done, new_session, route_ready,
}
use siderostat.Cluster.Tp.Complete.{Report, deliver, reported, route_ready-deliver}
use siderostat.Cluster.Failure.{PromotionFailureTracker, hello_timeout, clear_status}
use siderostat.Cluster.Failure.Retry.{record_each}
use siderostat.Cluster.Policy.{automatic, forced_standalone}
use siderostat.Cluster.RecoveryTp.{
  TpRecoveryTracker, route_loss, worker_crash, drain_timeout, new_tracker,
}
use siderostat.Cluster.RecoveryTp.Bounded.{Fault, decide, retries, transients, retries-decide}

-- A report of the old session 8, and the elements of session 7 in another order.
abbrev reports : List Report
reports =
    (7, warmup_done)
    ∷ (8, worker_prepared)
    ∷ (7, handshake_http_ready)
    ∷ (7, coordinator_started)
    ∷ (7, worker_prepared)
    ∷ []

all_reported : route_ready (deliver (new_session 7) reports) ≡ true
unfolding route_ready deliver
all_reported = route_ready-deliver 7 reports ∙ unfold reported in refl

-- A pause of 30 seconds, and three failures at most.
abbrev tracker : PromotionFailureTracker
tracker = record { backoff = 30000000000; maximum = 3; status = clear_status }

abbrev times : List ℕ
times = 1000 ∷ 40000 ∷ 80000 ∷ []

abbrev failed_once : PromotionFailureTracker
failed_once = record_each tracker hello_timeout (1000 ∷ [])

abbrev faults : List Fault
faults =
    (route_loss, automatic)
    ∷ (worker_crash, forced_standalone)
    ∷ (drain_timeout, automatic)
    ∷ (worker_crash, automatic)
    ∷ (route_loss, automatic)
    ∷ []

retries-decide_example : retries (decide (new_tracker 2) faults) ≡ min (transients faults) (max 2 1)
retries-decide_example = retries-decide 2 faults

abbrev used_up : TpRecoveryTracker
used_up = record { attempts = 2; max_attempts = 2; incident_active = true }
