-- ===== src/Scenarios/Manager.antt =====
-- Tests of src/manager/activation.rs and src/manager/jobs.rs.
use siderostat.Prelude.{List, ◌≡◌, refl, inl, none, some, [], ◌∷◌, ◌+◌, arith, if◌then◌else◌, ◌==◌}
use siderostat.Manager.Activation.{
  complete, committing, ActivationRequest, ok, stopped_zero, Provider, journal_of,
  prepare_activation, begin_drain, mark_ready, commit_ack,
}
use siderostat.Manager.Activation.Acknowledged.{
  drains, readies, acks, AllAcked, complete_acknowledged, stopped_completes,
}
use siderostat.Manager.Activation.Acknowledged
use siderostat.Manager.Jobs.{
  JobId, job_id, fetch, build, new_journal, enqueue, succeed, running_job, release_key, get,
  new_job, job_succeed,
}
use siderostat.Manager.Jobs.Single.{
  Call, enqueues, cancels, succeeds, fails, perform, perform_all, enqueue_again,
}

abbrev request : ActivationRequest
request = record {
  operation_id = 5;
  expected_generation = 7;
  runtime_lease = 108 ∷ [];
  policy_epoch = 3;
  nodes = 1 ∷ 2 ∷ [];
}

abbrev both_have : Provider
both_have node = some (node + 10)

abbrev one_has : Provider
one_has node = if node == 2 then some 12 else none

complete_acknowledged_example :
    AllAcked
      (Acknowledged.perform_all
        (journal_of request both_have)
        (drains ∷ readies ∷ acks 1 ∷ acks 2 ∷ [])).nodes
      (drains ∷ readies ∷ acks 1 ∷ acks 2 ∷ [])
unfolding Acknowledged.perform_all Acknowledged.perform begin_drain mark_ready commit_ack
complete_acknowledged_example =
    complete_acknowledged request both_have (drains ∷ readies ∷ acks 1 ∷ acks 2 ∷ []) refl

-- An acknowledgement is lost.
one_ack :
    (Acknowledged.perform_all
      (journal_of request both_have)
      (drains ∷ readies ∷ acks 1 ∷ acks 1 ∷ [])).phase
    ≡ committing
unfolding Acknowledged.perform_all Acknowledged.perform begin_drain mark_ready commit_ack
one_ack = refl

stopped_completes_example :
    (prepare_activation request one_has ≡ ok (stopped_zero (journal_of request one_has)))
    × ((Acknowledged.perform_all
          (journal_of request one_has)
          (drains ∷ readies ∷ acks 1 ∷ acks 2 ∷ [])).phase
        ≡ complete)
    × ((Acknowledged.perform_all
          (journal_of request one_has)
          (drains ∷ readies ∷ acks 2 ∷ acks 1 ∷ [])).phase
        ≡ complete)
stopped_completes_example =
    stopped_completes request one_has 1 2 (omega arith) (omega arith) refl refl (inl refl)

abbrev first_job : JobId
first_job = job_id fetch 0

-- A cancel, another payload whose job ends, and a job that is not there.
abbrev meanwhile : List Call
meanwhile =
    cancels first_job 12
    ∷ enqueues build (98 ∷ []) 13
    ∷ succeeds (job_id build 1) 14
    ∷ fails (job_id build 7) [] 15
    ∷ []

enqueue_again_example :
    enqueue (perform_all (enqueue new_journal fetch (97 ∷ []) 10).0 meanwhile) build (97 ∷ []) 20
    ≡ (
      perform_all (enqueue new_journal fetch (97 ∷ []) 10).0 meanwhile,
      (enqueue new_journal fetch (97 ∷ []) 10).1,
    )
unfolding enqueue running_job new_journal
enqueue_again_example = enqueue_again new_journal fetch build (97 ∷ []) 10 20 meanwhile refl

-- When the job has ended, the payload has a new one.
ended_again :
    (enqueue
      (perform_all (enqueue new_journal fetch (97 ∷ []) 10).0 (succeeds first_job 14 ∷ []))
      build
      (97 ∷ [])
      20).1
    ≡ job_id build 1
unfolding enqueue running_job new_journal perform_all perform succeed get release_key new_job
    job_succeed
ended_again = refl
