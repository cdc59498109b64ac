-- ===== src/Cluster/NodeTask/Ending.antt =====
-- What a successful operation of a task has done.
use siderostat.Prelude.{ℕ, Bool, true, ◌≡◌, refl, ◌⊎◌, none, some, arith}
use siderostat.Target.{
  ClusterState, paired_standalone_ready, solo_standalone_ready, StableMode, paired_standalone,
  solo_standalone,
}
use siderostat.Admission.{is_serving, start_serving}
use siderostat.Cluster.State.{
  ClusterSnapshot, ClusterEventKind, TransitionResult, transition, new_snapshot, pairing_ready,
  local_standalone_ready,
}
use siderostat.Cluster.State
use siderostat.Cluster.NodeTask.{
  Node, Environment, FromErrors, ok, err, Outcome, Step, and_then, with_snapshot, apply, applied,
  event, publish, is_available,
}

-- A success returns a snapshot in this mode and state, publishes its target, as ready where there is
-- one, and, where admission is resumed, leaves a gate that serves unless it was closed for good.
pub record IsDone {E : Type 0} (mode : StableMode) (state : ClusterState) (resume : Bool)
    (o : Outcome E) (s : ClusterSnapshot) : Type 0 where
  pub in_mode : s.stable_mode ≡ mode
  pub in_state : s.state ≡ state
  pub to_target : o.0.target ≡ s.target
  pub is_ready : is_available s.target ≡ true → o.0.target_ready ≡ true
  pub serves : resume ≡ true → (o.0.gate.closed ≡ true) ⊎ (is_serving o.0.gate.state ≡ true)

pub record Ends {E : Type 0} (mode : StableMode) (state : ClusterState) (resume : Bool)
    (o : Outcome E) : Type 0 where
  pub done : (s : ClusterSnapshot) → o.1 ≡ ok s → IsDone mode state resume o s

pub transition-pairing_ready :
    (c : ClusterSnapshot) (g : ℕ) (s : ClusterSnapshot)
    → transition c (event g pairing_ready) ≡ State.ok s
    → (s.stable_mode ≡ paired_standalone) × (s.state ≡ paired_standalone_ready)
unfolding transition new_snapshot
transition-pairing_ready c g s h = (ground (arith, h), ground (arith, h))

pub transition-local_standalone_ready :
    (c : ClusterSnapshot) (g : ℕ) (s : ClusterSnapshot)
    → transition c (event g local_standalone_ready) ≡ State.ok s
    → (s.stable_mode ≡ solo_standalone) × (s.state ≡ solo_standalone_ready)
unfolding transition new_snapshot
transition-local_standalone_ready c g s h = (ground (arith, h), ground (arith, h))

module _ {E : Type 0} (mode : StableMode) (state : ClusterState) (resume : Bool) where
  pub and_then-Ends :
      (st : Step E) (next : Node → Outcome E)
      → ((n : Node) → Ends mode state resume (next n))
      → Ends mode state resume (and_then st next)
  and_then-Ends (n, none) next f = f n
  and_then-Ends (n, some e) next f = record { done = λ s h. ground (arith, h) }

  pub with_snapshot-Ends :
      (o : Outcome E) (next : ClusterSnapshot → Node → Outcome E)
      → ((s : ClusterSnapshot) (n : Node) → Ends mode state resume (next s n))
      → Ends mode state resume (with_snapshot o next)
  with_snapshot-Ends (n, ok t) next f = f t n
  with_snapshot-Ends (n, err e) next f = record { done = λ s h. ground (arith, h) }

  pub publish-Ends :
      (t : ClusterSnapshot) (n : Node)
      → t.stable_mode ≡ mode
      → t.state ≡ state
      → Ends mode state resume (publish {E = E} resume t n)
  unfolding publish start_serving
  publish-Ends t n m e = record {
    done = λ s h. record {
      in_mode = ground (arith, h, m);
      in_state = ground (arith, h, e);
      to_target = ground (arith, h);
      is_ready = λ r. ground (arith, h, r);
      serves = λ r. ground (arith, r);
    };
  }

  module _ ⦃from : FromErrors E⦄ (next : ClusterSnapshot → Node → Outcome E)
      (f : (t : ClusterSnapshot) (n : Node)
        → t.stable_mode ≡ mode
        → t.state ≡ state
        → Ends mode state resume (next t n)) where
    applied-Ends :
        (env : Environment) (n : Node) (r : TransitionResult)
        → ((t : ClusterSnapshot) → r ≡ State.ok t → (t.stable_mode ≡ mode) × (t.state ≡ state))
        → Ends mode state resume (with_snapshot (applied env n r) next)
    applied-Ends env n (State.ok t) g = f t _ (g t refl).0 (g t refl).1
    applied-Ends env n (State.err e) g = record { done = λ s h. ground (arith, h) }

    -- An event that comes to this mode and state, and what follows it.
    pub apply-Ends :
        (env : Environment) (g : ℕ) (k : ClusterEventKind) (n : Node)
        → ((c : ClusterSnapshot) (t : ClusterSnapshot)
            → transition c (event g k) ≡ State.ok t
            → (t.stable_mode ≡ mode) × (t.state ≡ state))
        → Ends mode state resume (with_snapshot (apply env g k n) next)
    unfolding apply
    apply-Ends env g k n h = applied-Ends env _ _ (λ t e. h _ t e)
