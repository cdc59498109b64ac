-- ===== src/Scenarios/Policy.antt =====
-- Tests of src/cluster/production/policy.rs.
use siderostat.Prelude.{ℕ, ◌+◌, ◌*◌, ◌≡◌, refl, true, false, List, [], ◌∷◌, arith, find}
use siderostat.Cluster.Policy.{OperationPolicy, automatic, forced_standalone}
use siderostat.Cluster.PolicyControl.{
  PolicyControlRequest, PolicyControlPhase, prepare, commit, abort, Hasher, validate, advance_epoch,
  new_state,
}
use siderostat.Cluster.PolicyControl.Requests.{
  validates, advances, is_ok, perform_all, stale_forever,
}
use siderostat.Cluster.PolicyControl.Force.{
  Note, begin, begin_drain, note_local_ready, note_local_applied, note_peer_applied, note, note_all,
}

-- A hash that tells the bodies apart.
abbrev phase_code : PolicyControlPhase → ℕ
phase_code prepare = 0
phase_code commit = 1
phase_code abort = 2

abbrev policy_code : OperationPolicy → ℕ
policy_code automatic = 0
policy_code forced_standalone = 1

abbrev code : Hasher
code epoch phase desired = epoch * 6 + phase_code phase * 2 + policy_code desired

abbrev request : PolicyControlRequest
request = record {
  protocol_version = 1;
  policy_epoch = 3;
  operation_id = 11;
  phase = prepare;
  desired = forced_standalone;
}

abbrev other : PolicyControlRequest
other = record request { desired = automatic }

stale_forever_example :
    let t =
      perform_all code (advance_epoch new_state 4) (validates request true ∷ advances 2 ∷ []) in
    ((validate code t request true).0 ≡ t) × (is_ok (validate code t request true).1 ≡ false)
stale_forever_example =
    stale_forever code new_state 4 (validates request true ∷ advances 2 ∷ []) request true
      (omega arith)

accepted : is_ok (validate code new_state request true).1 ≡ true
unfolding validate new_state find
accepted = refl

abbrev acked : List Note
acked = begin_drain ∷ note_local_ready ∷ note_local_applied ∷ note_peer_applied ∷ []

acked_complete : (note_all (begin 1 9) acked).complete ≡ true
unfolding note_all note begin
acked_complete = refl
