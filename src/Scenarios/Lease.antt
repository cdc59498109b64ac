-- ===== src/Scenarios/Lease.antt =====
-- Tests of src/cluster/operation.rs.
use siderostat.Prelude.{
  ◌≡◌, ◌≢◌, ◌↔◌, inr, remove, retain, refl, true, none, some, List, [], ◌∷◌, find, insert,
}
use siderostat.Cluster.Operation.{
  promotion, recovery, restart, activation, new_lease, take_owner, release, try_acquire, owner,
  busy, block_promotion, conflict, register_idempotent,
}
use siderostat.Cluster.Operation.Exclusion.{
  Moment, takes, releases, blocks, perform_all, perform, acquire_excludes,
}
use siderostat.Cluster.Operation.Exclusion.{IsExclusive}
use siderostat.Cluster.Operation.Slips.{
  Attempts, Event, enters, lets_go, sets_flag, KeepFlag, has_passed, step, steps, promotion_slips,
}

abbrev contended : List Moment
contended = takes restart 5 ∷ takes recovery 6 ∷ blocks ∷ []

restart_holds : owner (perform_all new_lease contended) restart ≡ some 5
unfolding owner perform_all perform new_lease take_owner block_promotion find insert
restart_holds = refl

acquired : (try_acquire new_lease recovery 6).1 ≡ none
unfolding try_acquire new_lease
acquired = refl

acquire_excludes_example :
    let n =
      perform_all
        (try_acquire new_lease recovery 6).0
        (takes restart 5 ∷ releases restart 5 ∷ []) in
    (owner n recovery ≡ some 6)
    × ((take_owner n activation 9).1 ≡ some (busy recovery))
    × ((try_acquire n activation 9).1 ≢ none)
acquire_excludes_example =
    acquire_excludes (takes restart 5 ∷ releases restart 5 ∷ []) recovery activation 6 9 new_lease
      acquired ((λ e. cc), ((λ e. cc), tt))

-- A restart holds the lease, and a promotion has passed its check.
abbrev under_way : Attempts
under_way = record { lease = (try_acquire new_lease restart 5).0; passed = (promotion, 4) ∷ [] }

under_way-IsExclusive : IsExclusive under_way.lease
unfolding try_acquire new_lease insert
under_way-IsExclusive = inr (restart, 5, refl)

no_promotion : owner under_way.lease promotion ≡ none
unfolding try_acquire new_lease insert owner find
no_promotion = refl

promotion_slips_example :
    ((es : List Event) × KeepFlag es
      × (owner (steps (step under_way sets_flag) es).lease promotion ≡ some 4))
    ↔ (has_passed promotion 4 under_way.passed ≡ true)
promotion_slips_example = promotion_slips under_way 4 under_way-IsExclusive no_promotion

-- It has its turn too early, and the restart is not over.
too_early :
    owner
      (steps (step under_way sets_flag) (enters promotion 4 ∷ lets_go restart 5 ∷ [])).lease
      promotion
    ≡ none
unfolding try_acquire new_lease insert owner find steps step take_owner release block_promotion
    remove retain
too_early = refl

registered_new : (register_idempotent new_lease 3 42).1 ≢ conflict
unfolding register_idempotent new_lease find
registered_new e = cc
