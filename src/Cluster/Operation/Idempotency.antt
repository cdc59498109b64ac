-- ===== src/Cluster/Operation/Idempotency.antt =====
-- src/cluster/operation.rs: one body for one operation id.
use siderostat.Prelude.{
  ℕ, ◌≡◌, ◌≢◌, some, List, [], ◌∷◌, arith, find, nat_eq, ==_iff, if◌then◌else◌, ◌==◌, find-insert,
  find-remove,
}
use siderostat.Cluster.Operation.{
  OperationId, OperationLease, new, existing, conflict, register_idempotent, release_idempotent,
  take_owner, release, block_promotion, unblock_promotion,
}
use siderostat.Cluster.Operation.Exclusion.{
  Moment, takes, releases, blocks, unblocks, registers, forgets, perform, perform_all,
}

-- No call of these forgets the id.
abbrev pub NeverForgotten : OperationId → List Moment → Type 0
NeverForgotten id [] = Unit {0}
NeverForgotten id (m ∷ ms) = (m ≢ forgets id) × NeverForgotten id ms

perform_registered :
    (l : OperationLease) (id hash : ℕ) (m : Moment)
    → m ≢ forgets id
    → find id l.idempotency ≡ some hash
    → find id (perform l m).idempotency ≡ some hash
unfolding perform take_owner release block_promotion unblock_promotion register_idempotent
    release_idempotent
perform_registered l id hash (takes k i) n e = ground arith
perform_registered l id hash (releases k i) n e = ground arith
perform_registered l id hash blocks n e = e
perform_registered l id hash unblocks n e = e
perform_registered l id hash (registers i h) n e =
    ground (arith, find-insert i id h l.idempotency, ==_iff i id)
perform_registered l id hash (forgets i) n e =
    ground (arith, find-remove i id l.idempotency, ==_iff id i)

perform_all_registered :
    (l : OperationLease) (id hash : ℕ) (ms : List Moment)
    → NeverForgotten id ms
    → find id l.idempotency ≡ some hash
    → find id (perform_all l ms).idempotency ≡ some hash
unfolding perform_all
perform_all_registered l id hash [] n e = e
perform_all_registered l id hash (m ∷ ms) n e =
    perform_all_registered (perform l m) id hash ms n.1 (perform_registered l id hash m n.0 e)

register_new :
    (l : OperationLease) (id hash : ℕ)
    → (register_idempotent l id hash).1 ≢ conflict
    → find id (register_idempotent l id hash).0.idempotency ≡ some hash
unfolding register_idempotent
register_new l id hash h = ground (arith, find-insert id id hash l.idempotency, ==_iff id id)

register_again :
    (l : OperationLease) (id hash again : ℕ)
    → find id l.idempotency ≡ some hash
    → register_idempotent l id again ≡ (l, if hash == again then existing else conflict)
unfolding register_idempotent
register_again l id hash again e = ground arith

-- Once a body is registered for an id (as new or as existing), then whatever calls come between,
-- unless one forgets the id: the same body is answered with existing, another with conflict, and
-- the answer changes nothing.
pub register_once :
    (l : OperationLease) (id hash again : ℕ) (ms : List Moment)
    → (register_idempotent l id hash).1 ≢ conflict
    → NeverForgotten id ms
    → let n = perform_all (register_idempotent l id hash).0 ms in
      register_idempotent n id again ≡ (n, if hash == again then existing else conflict)
register_once l id hash again ms accepted kept =
    register_again (perform_all (register_idempotent l id hash).0 ms) id hash again (
      perform_all_registered (register_idempotent l id hash).0 id hash ms kept
        (register_new l id hash accepted))

-- A forgotten id may be registered with any body, as new.
pub register_forgotten :
    (l : OperationLease) (id hash : ℕ)
    → (register_idempotent (release_idempotent l id) id hash).1 ≡ new
unfolding register_idempotent release_idempotent
register_forgotten l id hash = ground (arith, find-remove id id l.idempotency, ==_iff id id)
