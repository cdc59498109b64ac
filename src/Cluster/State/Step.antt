-- ===== src/Cluster/State/Step.antt =====
-- src/cluster/state.rs: what one event changes, and what a burst of events changes.
use siderostat.Prelude.{
  ℕ, ◌+◌, ◌<◌, ◌≤◌, true, false, ◌≡◌, refl, sym, ◌≢◌, ◌∙◌, ap, subst, ◌⊎◌, inl, inr, none,
  if◌then◌else◌, List, [], ◌∷◌, Memᴰ, arith,
}
use siderostat.Target.{
  LocalRole, ProxyTarget, resolve_target, is_worker, solo_standalone, distributed_tensor_parallel,
  solo_standalone_ready, backoff, manual_intervention_required,
  awaiting_tensor_parallel_worker_hello, tensor_parallel_ready, local_standalone,
}
use siderostat.Cluster.State.{
  ClusterSnapshot, ClusterEvent, ClusterEventKind, ok, transition, run, after, table,
  is_other_session, tp_pre_warmup_complete, operator_reconcile, backoff_elapsed,
  tensor_parallel_warmup_done, begin_solo_standalone, local_standalone_ready,
  require_manual_intervention, new_snapshot, next_tp,
}

-- An event for another generation is refused, and an event for another session is dropped. An
-- accepted event either is such a dropped one, which changes nothing, or was meant for this
-- generation and session, keeps the role and makes the next generation.
pub transition_accepted :
    (c n : ClusterSnapshot) (e : ClusterEvent)
    → transition c e ≡ ok n
    → (e.expected_generation ≡ c.generation)
      × (((is_other_session c.tp e ≡ true) × (n ≡ c))
          ⊎ ((is_other_session c.tp e ≡ false)
              × (n.generation ≡ c.generation + 1)
              × (n.role ≡ c.role)))
unfolding transition table new_snapshot
transition_accepted c n e accepted = ground arith

-- All the events are meant for one generation.
abbrev pub AllExpect : ℕ → List ClusterEvent → Type 0
AllExpect g [] = Unit {0}
AllExpect g (e ∷ es) = (e.expected_generation ≡ g) × AllExpect g es

stale_step :
    (c : ClusterSnapshot) (e : ClusterEvent)
    → e.expected_generation ≢ c.generation
    → after c (transition c e) ≡ c
unfolding transition
stale_step c e h = ground arith

run_stale :
    (c : ClusterSnapshot) (g : ℕ) (es : List ClusterEvent)
    → AllExpect g es
    → g ≢ c.generation
    → run c es ≡ c
unfolding run
run_stale c g [] all h = refl
run_stale c g (e ∷ es) all h =
    let same = stale_step c e (λ k. h (sym all.0 ∙ k)) in rw same (run_stale c g es all.1 h)

abbrev Settles : ClusterSnapshot → ClusterEvent → Type 0
Settles c e =
    (after c (transition c e) ≡ c)
    ⊎ ((transition c e ≡ ok (after c (transition c e)))
        × ((after c (transition c e)).generation ≡ c.generation + 1))

step-Settles : (c : ClusterSnapshot) (e : ClusterEvent) → Settles c e
unfolding transition new_snapshot
step-Settles c e = ground arith

-- `n` is `c`, or what one event of the list makes of it.
abbrev pub WonBy : ClusterSnapshot → List ClusterEvent → ClusterSnapshot → Type 0
WonBy c es n =
    (n ≡ c)
    ⊎ ((e : ClusterEvent) × Memᴰ e es × (transition c e ≡ ok n) × (n.generation ≡ c.generation + 1))

WonBy-tail :
    (c n : ClusterSnapshot) (d : ClusterEvent) (es : List ClusterEvent)
    → WonBy c es n
    → WonBy c (d ∷ es) n
WonBy-tail c n d es (inl h) = inl h
WonBy-tail c n d es (inr (e, m, t, g)) = inr (e, Memᴰ.tail m, t, g)

-- Of many events that were sent for one and the same generation, whatever their order, at most one
-- takes effect: the snapshot stays as it was, or it is the one that a single event of the list
-- makes of it, one generation on.
pub run-one_winner :
    (c : ClusterSnapshot) (es : List ClusterEvent)
    → AllExpect c.generation es
    → WonBy c es (run c es)
unfolding run
run-one_winner c [] all = inl refl
run-one_winner c (e ∷ es) all = elim (step-Settles c e) [
  | inl same ↦
      subst (WonBy c (e ∷ es)) (sym (ap (λ (s : ClusterSnapshot). run s es) same))
        (WonBy-tail c (run c es) e es (run-one_winner c es all.1))
  | inr (won, grown) ↦
      subst (WonBy c (e ∷ es))
        (sym (run_stale (after c (transition c e)) c.generation es all.1 (omega arith)))
        (inr (e, Memᴰ.head refl, won, grown))
]

-- The rows that make a snapshot TensorParallelReady: the warm-up of a session whose other three
-- elements are there; and two rows that do not look at the session, the end of a plain backoff and
-- the operator's reconcile in manual intervention, when the stable mode is already tensor parallel.
pub tensor_parallel_ready_entry :
    (c n : ClusterSnapshot) (e : ClusterEvent)
    → transition c e ≡ ok n
    → c.state ≢ tensor_parallel_ready
    → n.state ≡ tensor_parallel_ready
    → ((c.state ≡ awaiting_tensor_parallel_worker_hello)
        × (e.kind ≡ tensor_parallel_warmup_done)
        × (tp_pre_warmup_complete c.tp ≡ true))
      ⊎ ((c.stable_mode ≡ distributed_tensor_parallel)
          × (((c.state ≡ backoff) × (e.kind ≡ backoff_elapsed))
              ⊎ ((c.state ≡ manual_intervention_required) × (e.kind ≡ operator_reconcile))))
unfolding transition table new_snapshot
tensor_parallel_ready_entry c n e accepted before now = ground arith

-- An event that names no session.
abbrev pub plain : ℕ → ClusterEventKind → ClusterEvent
plain g kind = record { expected_generation = g; kind = kind; tp_session = none }

-- Manual intervention, the start of the local server, its readiness.
abbrev pub fall_back : ℕ → List ClusterEvent
fall_back g =
    plain g require_manual_intervention
    ∷ plain (g + 1) begin_solo_standalone
    ∷ plain (g + 2) local_standalone_ready
    ∷ []

-- The second list is the first with late events between its own, which were meant for a generation
-- before `g`.
pub data WithLate (g : ℕ) : List ClusterEvent → List ClusterEvent → Type 0 where
  done : WithLate g [] []
  late :
      {e : ClusterEvent} {es fs : List ClusterEvent}
      → e.expected_generation < g
      → WithLate g es fs
      → WithLate g es (e ∷ fs)
  next :
      {e : ClusterEvent} {es fs : List ClusterEvent}
      → WithLate g es fs
      → WithLate g (e ∷ es) (e ∷ fs)

step_grows :
    (c : ClusterSnapshot) (e : ClusterEvent) → c.generation ≤ (after c (transition c e)).generation
step_grows c e = elim (step-Settles c e) [
  | inl same ↦ rw same (omega arith)
  | inr (won, grown) ↦ omega (arith, grown)
]

-- Late events change nothing, wherever they come.
run_late :
    (g : ℕ) {es fs : List ClusterEvent} (c : ClusterSnapshot)
    → g ≤ c.generation
    → WithLate g es fs
    → run c fs ≡ run c es
unfolding run
run_late g c h done = refl
run_late g c h (late {e} {es} {fs} l w) =
    ap (λ (s : ClusterSnapshot). run s fs) (stale_step c e (λ k. omega (arith, k, l, h)))
    ∙ run_late g c h w
run_late g c h (next {e} w) =
    run_late g (after c (transition c e)) (omega (arith, h, step_grows c e)) w

three_steps :
    (c : ClusterSnapshot)
    → let n = run c (fall_back c.generation) in
      (n.state ≡ solo_standalone_ready)
      × (n.stable_mode ≡ solo_standalone)
      × (n.local_standalone_ready ≡ true)
      × (n.target ≡ local_standalone)
      × (n.role ≡ c.role)
      × (n.generation ≡ c.generation + 3)
unfolding run transition table new_snapshot resolve_target
three_steps c = ground arith

-- From every snapshot, in whatever state, mode and session, the three events of a fall back lead to
-- solo service: the node keeps its role and sends its requests to the local server, which is ready.
-- Events that were sent for an earlier generation do not hinder it, wherever they arrive between.
pub run-fall_back :
    (c : ClusterSnapshot) (es : List ClusterEvent)
    → WithLate c.generation (fall_back c.generation) es
    → let n = run c es in
      (n.state ≡ solo_standalone_ready)
      × (n.stable_mode ≡ solo_standalone)
      × (n.local_standalone_ready ≡ true)
      × (n.target ≡ local_standalone)
      × (n.role ≡ c.role)
      × (n.generation ≡ c.generation + 3)
run-fall_back c es w = rw (run_late c.generation c (omega arith) w) (three_steps c)

-- What the operator's reconcile does to a node in manual intervention whose stable mode is tensor
-- parallel and which has a role: the tensor-parallel route is published again, whatever elements of
-- the session are ready, and also if there is no session.
pub reconcile_publishes :
    (c : ClusterSnapshot)
    → c.state ≡ manual_intervention_required
    → c.stable_mode ≡ distributed_tensor_parallel
    → c.role ≢ LocalRole.unknown
    → let n = after c (transition c (plain c.generation operator_reconcile)) in
      (n.state ≡ tensor_parallel_ready)
      × (n.tp ≡ c.tp)
      × (n.target ≡ (if is_worker c.role then ProxyTarget.coordinator else local_standalone))
unfolding transition table new_snapshot resolve_target next_tp
reconcile_publishes c s m r = ground arith
