-- ===== src/Cluster/NodeTask/Steps.antt =====
-- What the steps of a task keep while the node is out of service.
use siderostat.Prelude.{
  ℕ, Bool, true, false, ◌≡◌, refl, sym, ap, ◌∙◌, ◌⊎◌, inl, inr, Option, none, some, ◌∷◌, arith,
  if◌then◌else◌,
}
use siderostat.Target.{ProxyTarget, unavailable}
use siderostat.Target
use siderostat.Admission.{Gate, is_serving, begin_drain, end_drain, block, DrainError}
use siderostat.Cluster.State.{ClusterSnapshot, ClusterEventKind, TransitionResult, transition}
use siderostat.Cluster.State
use siderostat.Cluster.NodeTask.{
  Call, applies, drains, Node, Environment, ok, err, Outcome, Step, FromErrors, and_then,
  with_snapshot, asks, asks_in_time, awaits, apply, applied, event, block_transition, publish,
  drain, waited, after_begin, end_wait,
}

-- The other tasks let requests come and go, but leave the state machine, the target and the state
-- of the gate to this one.
pub record IsUndisturbed (env : Environment) : Type 0 where
  pub same_cluster : (n : Node) → (env.meanwhile n).cluster ≡ n.cluster
  pub same_target : (n : Node) → (env.meanwhile n).target ≡ n.target
  pub same_state : (n : Node) → (env.meanwhile n).gate.state ≡ n.gate.state

-- Out of service: the target is unavailable, and nothing is admitted.
pub record IsOut (n : Node) : Type 0 where
  pub no_target : n.target ≡ unavailable Target.transition
  pub not_serving : is_serving n.gate.state ≡ false

-- The proxy's target is that of the state machine, or the node is out of service.
unfoldable pub IsPublished : Node → Type 0
IsPublished n = (n.target ≡ n.cluster.target) ⊎ IsOut n

-- What a call keeps of a node out of service.
module _ (env : Environment) (h : IsUndisturbed env) where
  pub awaits-IsOut : (c : Call) (n : Node) → IsOut n → IsOut (awaits env c n)
  awaits-IsOut c n o = record {
    no_target = h.same_target (record n { calls = c ∷ n.calls }) ∙ o.no_target;
    not_serving = ap is_serving (h.same_state (record n { calls = c ∷ n.calls })) ∙ o.not_serving;
  }

  ended-serving :
      (n : Node) (g : ℕ) (b : Bool)
      → is_serving n.gate.state ≡ false
      → is_serving (end_wait n g b).0.state ≡ false
  unfolding end_drain
  ended-serving n g true s = ground (arith, s)
  ended-serving n g false s = s

  drain_begun :
      (g : ℕ) (n : Node) (r : Gate × Option DrainError)
      → IsOut n
      → is_serving r.0.state ≡ false
      → IsOut (record (after_begin env g n r) { gate = (waited env g n r).0 })
  drain_begun g n (gate, some e) o s = record { no_target = o.no_target; not_serving = s }
  drain_begun g n (gate, none) o s = record {
    no_target = h.same_target _ ∙ o.no_target;
    not_serving =
        ended-serving (awaits env (drains g) (record n { gate = gate })) g _
          (ap is_serving (h.same_state _) ∙ s);
  }

  begin_drain-serving :
      (gate : Gate) (g : ℕ)
      → is_serving gate.state ≡ false
      → is_serving (begin_drain gate g).0.state ≡ false
  unfolding begin_drain
  begin_drain-serving gate g s = ground (arith, s)

module _ {E : Type 0} (env : Environment) (h : IsUndisturbed env) where
  pub asks-IsOut : (c : Call) (error : ℕ → E) (n : Node) → IsOut n → IsOut (asks env c error n).0
  asks-IsOut c error n o = awaits-IsOut env h c n o

  pub asks_in_time-IsOut :
      (c : Call) (error : ℕ → E) (late : E) (n : Node)
      → IsOut n
      → IsOut (asks_in_time env c error late n).0
  asks_in_time-IsOut c error late n o = both (env.in_time (c ∷ n.calls))
    where
      both :
          (b : Bool)
          → IsOut (if◌then◌else◌ {A = Step E} b (asks env c error n) (awaits env c n, some late)).0
      both true = awaits-IsOut env h c n o
      both false = awaits-IsOut env h c n o

module _ (E : Type 0) ⦃from : FromErrors E⦄ (env : Environment) (h : IsUndisturbed env) where
  applied-IsOut : (n : Node) (r : TransitionResult) → IsOut n → IsOut (applied {E = E} env n r).0
  applied-IsOut n (State.ok s) o = record {
    no_target = h.same_target (record n { cluster = s }) ∙ o.no_target;
    not_serving = ap is_serving (h.same_state (record n { cluster = s })) ∙ o.not_serving;
  }
  applied-IsOut n (State.err e) o = record {
    no_target = h.same_target n ∙ o.no_target;
    not_serving = ap is_serving (h.same_state n) ∙ o.not_serving;
  }

  pub apply-IsOut :
      (g : ℕ) (k : ClusterEventKind) (n : Node) → IsOut n → IsOut (apply {E = E} env g k n).0
  unfolding apply
  apply-IsOut g k n o =
      applied-IsOut (awaits env (applies k) n) _ (awaits-IsOut env h (applies k) n o)

  applied-cluster :
      (n : Node) (r : TransitionResult) (s : ClusterSnapshot)
      → (applied {E = E} env n r).1 ≡ ok s
      → (applied {E = E} env n r).0.cluster ≡ s
  applied-cluster n (State.ok t) s e = h.same_cluster (record n { cluster = t }) ∙ ground (arith, e)
  applied-cluster n (State.err e) s x = ground (arith, x)

  -- The snapshot that a successful event returns is the node's.
  pub apply-cluster :
      (g : ℕ) (k : ClusterEventKind) (n : Node) (s : ClusterSnapshot)
      → (apply {E = E} env g k n).1 ≡ ok s
      → (apply {E = E} env g k n).0.cluster ≡ s
  unfolding apply
  apply-cluster g k n s e = applied-cluster (awaits env (applies k) n) _ s e

  -- An event moves the target of the proxy in no case, and the state machine only when it succeeds.
  applied_refused :
      (n : Node) (r : TransitionResult) (e : E)
      → (applied {E = E} env n r).1 ≡ err e
      → ((applied {E = E} env n r).0.cluster ≡ n.cluster)
        × ((applied {E = E} env n r).0.target ≡ n.target)
  applied_refused n (State.ok t) e x = ground (arith, x)
  applied_refused n (State.err f) e x = (h.same_cluster n, h.same_target n)

  pub refused-IsPublished :
      (g : ℕ) (k : ClusterEventKind) (n : Node) (e : E)
      → IsPublished n
      → (apply {E = E} env g k n).1 ≡ err e
      → IsPublished (apply {E = E} env g k n).0
  unfolding apply IsPublished
  refused-IsPublished g k n e (inl p) x =
      let w = awaits env (applies k) n in
      let r = applied_refused w (transition w.cluster (event g k)) e x in
      inl (
        r.1
        ∙ h.same_target (record n { calls = applies k ∷ n.calls })
        ∙ p
        ∙ sym (
            ap (λ (c : ClusterSnapshot). c.target)
              (r.0 ∙ h.same_cluster (record n { calls = applies k ∷ n.calls }))))
  refused-IsPublished g k n e (inr o) x = inr (apply-IsOut g k n o)

  pub drain-IsOut : (g : ℕ) (n : Node) → IsOut n → IsOut (drain {E = E} env g n).0
  unfolding drain
  drain-IsOut g n o =
      drain_begun env h g n (begin_drain n.gate g) o
        (begin_drain-serving env h n.gate g o.not_serving)

pub block_transition-IsOut : (n : Node) → IsOut (block_transition n)
unfolding block_transition block
block_transition-IsOut n = record { no_target = refl; not_serving = refl }

module _ {E : Type 0} where
  -- `?` behind a step that leaves the node out of service.
  pub and_then-IsPublished :
      (st : Step E) (next : Node → Outcome E)
      → IsOut st.0
      → ((n : Node) → IsOut n → IsPublished (next n).0)
      → IsPublished (and_then st next).0
  unfolding IsPublished
  and_then-IsPublished (n, none) next o f = f n o
  and_then-IsPublished (n, some e) next o f = inr o

  pub with_snapshot-IsPublished :
      (r : Outcome E) (next : ClusterSnapshot → Node → Outcome E)
      → IsOut r.0
      → ((s : ClusterSnapshot) → r.1 ≡ ok s → r.0.cluster ≡ s)
      → ((s : ClusterSnapshot) (n : Node) → IsOut n → n.cluster ≡ s → IsPublished (next s n).0)
      → IsPublished (with_snapshot r next).0
  unfolding IsPublished
  with_snapshot-IsPublished (n, ok s) next o c f = f s n o (c s refl)
  with_snapshot-IsPublished (n, err e) next o c f = inr o

module _ (E : Type 0) where
  pub publish-IsPublished :
      (resume : Bool) (s : ClusterSnapshot) (n : Node)
      → n.cluster ≡ s
      → IsPublished (publish {E = E} resume s n).0
  unfolding IsPublished publish
  publish-IsPublished true s n e = inl (sym (ap (λ (c : ClusterSnapshot). c.target) e))
  publish-IsPublished false s n e = inl (sym (ap (λ (c : ClusterSnapshot). c.target) e))
