-- ===== src/Scenarios/Routes.antt =====
-- Tests of src/target.rs.
use siderostat.Prelude.{◌≡◌, refl, true}
use siderostat.Target.{
  LocalRole, unavailable, inconsistent_stable_state, resolve_target, paired_standalone,
  distributed_ready,
}

inconsistent_row :
    resolve_target LocalRole.coordinator paired_standalone distributed_ready true
    ≡ unavailable inconsistent_stable_state
unfolding resolve_target
inconsistent_row = refl
