-- ===== src/Cluster/ModeRuntime/Settled.antt =====
-- What the reconciliations of a node come to.
use siderostat.Prelude.{ℕ, Bool, true, false, ◌≡◌, refl, ◌⊎◌, inl, inr, if◌then◌else◌, arith}
use siderostat.Target.{
  LocalRole, StableMode, ClusterState, solo_standalone, paired_standalone, solo_standalone_ready,
  paired_standalone_ready,
}
use siderostat.Admission.{start_serving}
use siderostat.Cluster.State.{
  ClusterSnapshot, begin_pairing, pairing_ready, peer_lost, local_standalone_ready,
}
use siderostat.Cluster.NodeTask.{Node, Environment, ok, with_snapshot, apply, block_transition}
use siderostat.Cluster.NodeTask.Ending.{
  IsDone, Ends, transition-pairing_ready, transition-local_standalone_ready, and_then-Ends,
  with_snapshot-Ends, apply-Ends,
}
use siderostat.Cluster.ModeRuntime.{
  runtime_errors, Outcome, serve, leave_service, form_pair, restart_worker, fallback_to_solo,
  has_peer, is_solo_ready, is_unknown, reconciled, reconcile_peer_with_presence,
}

serve-Ends :
    (mode : StableMode) (state : ClusterState) (t : ClusterSnapshot) (n : Node)
    → t.stable_mode ≡ mode
    → t.state ≡ state
    → Ends mode state true (serve t n)
unfolding serve start_serving
serve-Ends mode state t n m e = record {
  done = λ s h. record {
    in_mode = ground (arith, h, m);
    in_state = ground (arith, h, e);
    to_target = ground (arith, h);
    is_ready = λ r. ground (arith, h, r);
    serves = λ r. ground (arith, r);
  };
}

local_ready-Ends :
    (env : Environment) (g : ℕ) (n : Node)
    → Ends solo_standalone solo_standalone_ready true
        (with_snapshot (apply env g local_standalone_ready n) serve)
local_ready-Ends env g n =
    apply-Ends solo_standalone solo_standalone_ready true serve
      (serve-Ends solo_standalone solo_standalone_ready) env g local_standalone_ready n
      (λ c t h. transition-local_standalone_ready c g t h)

form_pair-Ends :
    (env : Environment) (role : LocalRole) (n : Node)
    → Ends paired_standalone paired_standalone_ready true (form_pair env role n)
unfolding form_pair
form_pair-Ends env role n =
    with_snapshot-Ends paired_standalone paired_standalone_ready true
      (apply env n.cluster.generation begin_pairing n) _
      (λ s n.
        and_then-Ends paired_standalone paired_standalone_ready true
          (leave_service env role s.generation n) _
          (λ n.
            apply-Ends paired_standalone paired_standalone_ready true serve
              (serve-Ends paired_standalone paired_standalone_ready) env s.generation pairing_ready
              n (λ c t h. transition-pairing_ready c s.generation t h)))

fallback_to_solo-Ends :
    (env : Environment) (role : LocalRole) (n : Node)
    → Ends solo_standalone solo_standalone_ready true (fallback_to_solo env role n)
unfolding fallback_to_solo
fallback_to_solo-Ends env role n =
    with_snapshot-Ends solo_standalone solo_standalone_ready true
      (apply env n.cluster.generation peer_lost (block_transition n)) _
      (λ s n.
        and_then-Ends solo_standalone solo_standalone_ready true
          (restart_worker env role s.generation n) _ (λ n. local_ready-Ends env s.generation n))

abbrev pub mode_for : Bool → StableMode
mode_for true = paired_standalone
mode_for false = solo_standalone

abbrev pub state_for : Bool → ClusterState
state_for true = paired_standalone_ready
state_for false = solo_standalone_ready

-- The node is left alone, or brought to where the presence of the peer says.
abbrev pub IsSettled : Bool → Node → Outcome → ClusterSnapshot → Type 0
IsSettled present n o s =
    (o ≡ (n, ok n.cluster)) ⊎ IsDone (mode_for present) (state_for present) true o s

if-IsSettled :
    (present b : Bool) (n : Node) (o : Outcome) (s : ClusterSnapshot)
    → Ends (mode_for present) (state_for present) true o
    → (if◌then◌else◌ {A = Outcome} b o (n, ok n.cluster)).1 ≡ ok s
    → IsSettled present n (if◌then◌else◌ {A = Outcome} b o (n, ok n.cluster)) s
if-IsSettled present true n o s e h = inr (e.done s h)
if-IsSettled present false n o s e h = inl refl

reconciled-IsSettled :
    (env : Environment) (role : LocalRole) (present : Bool) (n : Node) (s : ClusterSnapshot)
    → (reconciled env role present n).1 ≡ ok s
    → IsSettled present n (reconciled env role present n) s
reconciled-IsSettled env role true n s h =
    if-IsSettled true (is_solo_ready n.cluster.state) n (form_pair env role n) s
      (form_pair-Ends env role n) h
reconciled-IsSettled env role false n s h =
    if-IsSettled false (has_peer n.cluster.state) n (fallback_to_solo env role n) s
      (fallback_to_solo-Ends env role n) h

-- A reconciliation with the peer that reports success has left the node exactly as it was, or brought
-- it to where the peer's presence says: to the pair when it is there, to solo service when it is not,
-- with that target in the proxy, as ready where there is one, and a gate that serves unless it is
-- closed for good.
pub reconcile_peer-IsSettled :
    (env : Environment) (role : LocalRole) (present : Bool) (n : Node) (s : ClusterSnapshot)
    → (reconcile_peer_with_presence env role present n).1 ≡ ok s
    → IsSettled present n (reconcile_peer_with_presence env role present n) s
unfolding reconcile_peer_with_presence
reconcile_peer-IsSettled env role present n s = both (is_unknown role)
  where
    both :
        (b : Bool)
        → (if◌then◌else◌ {A = Outcome} b (n, ok n.cluster) (reconciled env role present n)).1 ≡ ok s
        → IsSettled present n
            (if◌then◌else◌ {A = Outcome} b (n, ok n.cluster) (reconciled env role present n))
            s
    both true h = inl refl
    both false h = reconciled-IsSettled env role present n s h
