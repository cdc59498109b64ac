-- ===== src/Manager/Activation.antt =====
-- src/manager/activation.rs: the journal of an activation, and src/manager/rollback.rs. A node, an
-- artifact's digest and an operation are numbers; files are left out.
pub mod Acknowledged
use siderostat.Prelude.{
  ℕ, Bool, true, false, not, ◌&&◌, ◌||◌, Option, none, some, List, [], ◌∷◌, map, if◌then◌else◌,
  ◌==◌, length,
}

pub data ActivationPhase : Type 0 where
  prepared draining ready committing complete rolled_back : ActivationPhase

pub data NodePhase : Type 0 where
  not_started node_prepared node_draining node_ready committed : NodePhase

pub record NodeActivationState : Type 0 where
  pub node : ℕ
  pub phase : NodePhase
  pub artifact_digest : Option ℕ

pub record ActivationJournal : Type 0 where
  pub operation_id : ℕ
  pub expected_generation : ℕ
  pub runtime_lease : List ℕ
  pub policy_epoch : ℕ
  pub phase : ActivationPhase
  pub nodes : List NodeActivationState

pub record ActivationRequest : Type 0 where
  pub operation_id : ℕ
  pub expected_generation : ℕ
  pub runtime_lease : List ℕ
  pub policy_epoch : ℕ
  pub nodes : List ℕ

pub data ActivationError : Type 0 where
  missing_generation_or_lease requires_two_nodes : ActivationError
  invalid_transition : ActivationPhase → ActivationError
  unknown_node : ℕ → ActivationError

pub data ActivationResult (A : Type 0) : Type 0 where
  ok : A → ActivationResult A
  err : ActivationError → ActivationResult A

pub data PrepareOutcome : Type 0 where
  both_prepared stopped_zero : ActivationJournal → PrepareOutcome

-- `verified_artifact` of the provider.
abbrev pub Provider : Type 0
Provider = ℕ → Option ℕ

abbrev is_some : Option ℕ → Bool
is_some none = false
is_some (some d) = true

abbrev pub all_present : Provider → List ℕ → Bool
all_present provider [] = true
all_present provider (n ∷ ns) = is_some (provider n) && all_present provider ns

abbrev pub prepared_node : Provider → ℕ → NodeActivationState
prepared_node provider n = record { node = n; phase = node_prepared; artifact_digest = provider n }

abbrev pub journal_of : ActivationRequest → Provider → ActivationJournal
journal_of r provider = record {
  operation_id = r.operation_id;
  expected_generation = r.expected_generation;
  runtime_lease = r.runtime_lease;
  policy_epoch = r.policy_epoch;
  phase = prepared;
  nodes = map (prepared_node provider) r.nodes;
}

unfoldable pub prepare_activation : ActivationRequest → Provider → ActivationResult PrepareOutcome
prepare_activation r provider =
    if r.expected_generation == 0 || length r.runtime_lease == 0
    then err missing_generation_or_lease
    else if not (length r.nodes == 2)
    then err requires_two_nodes
    else if all_present provider r.nodes
    then ok (both_prepared (journal_of r provider))
    else ok (stopped_zero (journal_of r provider))

abbrev pub in_phase : NodePhase → NodeActivationState → NodeActivationState
in_phase phase n = record n { phase = phase }

abbrev pub is_prepared : ActivationPhase → Bool
is_prepared prepared = true
is_prepared _ = false

abbrev pub is_draining : ActivationPhase → Bool
is_draining draining = true
is_draining _ = false

abbrev pub takes_ack : ActivationPhase → Bool
takes_ack ready = true
takes_ack committing = true
takes_ack _ = false

unfoldable pub begin_drain : ActivationJournal → ActivationResult ActivationJournal
begin_drain j =
    if not (is_prepared j.phase)
    then err (invalid_transition j.phase)
    else ok (record j { phase = draining; nodes = map (in_phase node_draining) j.nodes })

unfoldable pub mark_ready : ActivationJournal → ActivationResult ActivationJournal
mark_ready j =
    if not (is_draining j.phase)
    then err (invalid_transition j.phase)
    else ok (record j { phase = ready; nodes = map (in_phase node_ready) j.nodes })

abbrev pub is_committed : NodePhase → Bool
is_committed committed = true
is_committed _ = false

abbrev pub all_committed : List NodeActivationState → Bool
all_committed [] = true
all_committed (n ∷ ns) = is_committed n.phase && all_committed ns

abbrev pub has_node : ℕ → List NodeActivationState → Bool
has_node id [] = false
has_node id (n ∷ ns) = n.node == id || has_node id ns

-- The first node with this id is committed.
abbrev pub commit : ℕ → List NodeActivationState → List NodeActivationState
commit id [] = []
commit id (n ∷ ns) =
    let rest = commit id ns in if n.node == id then in_phase committed n ∷ ns else n ∷ rest

unfoldable pub commit_ack : ActivationJournal → ℕ → ActivationResult ActivationJournal
commit_ack j id =
    let nodes = commit id j.nodes in
    if not (takes_ack j.phase)
    then err (invalid_transition j.phase)
    else if not (has_node id j.nodes)
    then err (unknown_node id)
    else ok
        (record j { phase = if all_committed nodes then complete else committing; nodes = nodes })

abbrev pub forgotten : NodeActivationState → NodeActivationState
forgotten n = record n { phase = not_started; artifact_digest = none }

-- `rollback_to_previous` of activation.rs.
unfoldable pub roll_back : ActivationJournal → ActivationJournal
roll_back j = record j { phase = rolled_back; nodes = map forgotten j.nodes }

pub data RollbackOutcome : Type 0 where
  restored : ActivationJournal → ℕ → RollbackOutcome  -- the old digest
  manual_intervention : ActivationJournal → RollbackOutcome
  policy_held : ActivationJournal → ℕ → RollbackOutcome

abbrev journal_in : PrepareOutcome → ActivationJournal
journal_in (both_prepared j) = j
journal_in (stopped_zero j) = j

pub record RollbackRequest : Type 0 where
  pub operation_id : ℕ
  pub expected_generation : ℕ
  pub runtime_lease : List ℕ
  pub policy_epoch : ℕ
  pub previous_digest : ℕ
  pub nodes : List ℕ

-- The outcome of the preparation, and whether the previous artifact was started.
abbrev rolled :
    RollbackRequest
    → Bool
    → Bool
    → ActivationResult PrepareOutcome
    → ActivationResult RollbackOutcome
rolled r started force_held (err e) = err e
rolled r false force_held (ok o) =
    ok (manual_intervention (record (journal_in o) { phase = rolled_back }))
rolled r true true (ok o) =
    ok (policy_held (record (journal_in o) { phase = rolled_back }) r.policy_epoch)
rolled r true false (ok o) =
    ok (restored (record (journal_in o) { phase = rolled_back }) r.previous_digest)

-- `rollback_to_previous` of rollback.rs; `started` is what `start_previous_and_wait_ready` gives.
unfoldable pub rollback_to_previous :
    RollbackRequest → Provider → Bool → Bool → ActivationResult RollbackOutcome
rollback_to_previous r provider started force_held = rolled r started force_held (
    prepare_activation
      (record {
        operation_id = r.operation_id;
        expected_generation = r.expected_generation;
        runtime_lease = r.runtime_lease;
        policy_epoch = r.policy_epoch;
        nodes = r.nodes;
      })
      provider)
