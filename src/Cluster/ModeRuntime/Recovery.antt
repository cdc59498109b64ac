-- ===== src/Cluster/ModeRuntime/Recovery.antt =====
-- A node that loses its peer comes back to solo service.
use siderostat.Prelude.{Bool, true, false}
use siderostat.Target.{ClusterState, solo_standalone_starting}
use siderostat.Cluster.State.{ClusterSnapshot, TransitionResult}
use siderostat.Cluster.State
use siderostat.Cluster.NodeTask.{LifecycleResult, ok, err}
use siderostat.Cluster.ModeRuntime.{runtime_errors, RuntimeError, is_solo_ready}

-- A result with a snapshot that passes a test.
abbrev pub succeeds : (ClusterSnapshot → Bool) → LifecycleResult RuntimeError → Bool
succeeds p (ok s) = p s
succeeds p (err e) = false

abbrev moves : (ClusterSnapshot → Bool) → TransitionResult → Bool
moves p (State.ok s) = p s
moves p (State.err e) = false

abbrev is_starting : ClusterState → Bool
is_starting solo_standalone_starting = true
is_starting _ = false

abbrev starts_solo : ClusterSnapshot → Bool
starts_solo s = is_starting s.state

abbrev pub serves_solo : ClusterSnapshot → Bool
serves_solo s = is_solo_ready s.state
