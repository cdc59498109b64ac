-- ===== src/Recovery/Service/Limits.antt =====
-- When the service starts a job, and what the bounded history does to the limits.
use siderostat.Prelude.{
  ℕ, ◌+◌, ◌≤◌, ◌<◌, Bool, true, false, Option, none, some, List, [], ◌∷◌, ◌≡◌, ◌↔◌, refl, ap, ◌∙◌,
  arith, min, if◌then◌else◌, u64_max,
}
use siderostat.Target.{LocalRole, distributed_layer_parallel, distributed_ready}
use siderostat.Recovery.Jobs.{
  RecoveryFailureReason, RecoveryGate, RecoveryRequest, RecoveryJob, RecoveryStart, RecoveryInner,
  gate_failure, in_cooldown, attempts_in_window, last_finished, later, cools, is_attempt, created,
}
use siderostat.Recovery.Service.{
  find_key, begin_at, suppression, start, start_unless_known, running_job,
}

-- The cooldown is over; a sum past the last time counts as that time.
abbrev pub Cooled : Option ℕ → ℕ → ℕ → Type 0
Cooled none pause now = Unit {0}
Cooled (some finished) pause now = min (finished + pause) u64_max ≤ now

-- It is, after every attempt.
abbrev pub AllCooled : List RecoveryJob → ℕ → ℕ → Type 0
AllCooled [] pause now = Unit {0}
AllCooled (j ∷ js) pause now =
    (is_attempt j.state ≡ true → Cooled j.finished_at_millis pause now) × AllCooled js pause now

later-Cooled :
    (a b : Option ℕ) (pause now : ℕ)
    → Cooled (later a b) pause now ↔ Cooled a pause now × Cooled b pause now
later-Cooled none b pause now = ((λ h. (tt, h)), (λ h. h.1))
later-Cooled (some f) none pause now = ((λ h. (h, tt)), (λ h. h.0))
later-Cooled (some f) (some g) pause now =
    ((λ h. (omega (arith, h), omega (arith, h))), (λ h. omega (arith, h.0, h.1)))

cools_iff : (o : Option ℕ) (pause now : ℕ) → (cools o pause now ≡ false) ↔ Cooled o pause now
cools_iff none pause now = ((λ h. tt), (λ h. refl))
cools_iff (some f) pause now = ground arith

if-Cooled :
    (b : Bool) (o : Option ℕ) (pause now : ℕ)
    → Cooled (if b then o else none) pause now ↔ (b ≡ true → Cooled o pause now)
if-Cooled true o pause now = ((λ h e. h), (λ h. h refl))
if-Cooled false o pause now = ((λ h e. absurd (ground arith)), (λ h. tt))

last_finished-Cooled :
    (js : List RecoveryJob) (pause now : ℕ)
    → Cooled (last_finished js) pause now ↔ AllCooled js pause now
last_finished-Cooled [] pause now = ((λ h. h), (λ h. h))
last_finished-Cooled (j ∷ js) pause now = (
  (λ h. let both = split.0 h in (attempt.0 both.0, (last_finished-Cooled js pause now).0 both.1)),
  (λ h. split.1 (attempt.1 h.0, (last_finished-Cooled js pause now).1 h.1)),
)
  where
    attempt :
        Cooled (if is_attempt j.state then j.finished_at_millis else none) pause now
        ↔ (is_attempt j.state ≡ true → Cooled j.finished_at_millis pause now)
    attempt = if-Cooled (is_attempt j.state) j.finished_at_millis pause now

    split :
        Cooled (last_finished (j ∷ js)) pause now
        ↔ Cooled (if is_attempt j.state then j.finished_at_millis else none) pause now
          × Cooled (last_finished js) pause now
    split =
        later-Cooled (if is_attempt j.state then j.finished_at_millis else none) (last_finished js)
          pause now

in_cooldown_iff :
    (s : RecoveryInner) (now : ℕ)
    → (in_cooldown s now ≡ false) ↔ AllCooled s.history s.policy.cooldown now
unfolding in_cooldown
in_cooldown_iff s now = (
  (λ h.
      (last_finished-Cooled s.history s.policy.cooldown now).0
        ((cools_iff (last_finished s.history) s.policy.cooldown now).0 h)),
  (λ h.
      (cools_iff (last_finished s.history) s.policy.cooldown now).1
        ((last_finished-Cooled s.history s.policy.cooldown now).1 h)),
)

-- The cluster is distributed and the node its coordinator.
pub record IsOpen (gate : RecoveryGate) : Type 0 where
  pub coordinates : gate.role ≡ LocalRole.coordinator
  pub layer_parallel : gate.mode ≡ distributed_layer_parallel
  pub ready : gate.state ≡ distributed_ready

pub gate_failure_iff : (gate : RecoveryGate) → (gate_failure gate ≡ none) ↔ IsOpen gate
unfolding gate_failure
gate_failure_iff gate = (
  (λ h. record { coordinates = ground arith; layer_parallel = ground arith; ready = ground arith }),
  λ o. ground (arith, o.coordinates, o.layer_parallel, o.ready),
)

pub suppression_iff :
    (s : RecoveryInner) (gate : RecoveryGate) (now : ℕ)
    → (suppression s gate now ≡ none)
      ↔ (gate_failure gate ≡ none)
        × (in_cooldown s now ≡ false)
        × (attempts_in_window s now < s.policy.max_attempts)
unfolding suppression
suppression_iff s gate now = ground arith

start-created :
    (o : Option RecoveryFailureReason) (s : RecoveryInner) (gate : RecoveryGate)
    (request : RecoveryRequest) (fresh now : ℕ) (job : RecoveryJob)
    → (start o s gate request fresh now).1 ≡ created job
    → o ≡ none
start-created (some reason) s gate request fresh now job h = ground arith
start-created none s gate request fresh now job h = refl

start_unless_known-created :
    (active known : Option RecoveryJob) (s : RecoveryInner) (gate : RecoveryGate)
    (request : RecoveryRequest) (fresh now : ℕ) (job : RecoveryJob)
    → (start_unless_known active known s gate request fresh now).1 ≡ created job
    → (active ≡ none) × (known ≡ none) × (suppression s gate now ≡ none)
start_unless_known-created (some a) known s gate request fresh now job h = ground arith
start_unless_known-created none (some k) s gate request fresh now job h = ground arith
start_unless_known-created none none s gate request fresh now job h =
    (refl, refl, start-created (suppression s gate now) s gate request fresh now job h)

pub begin_at-started :
    (s : RecoveryInner) (gate : RecoveryGate) (request : RecoveryRequest) (fresh now : ℕ)
    → s.active ≡ none
    → find_key request.idempotency_key s.history ≡ none
    → suppression s gate now ≡ none
    → begin_at s gate request fresh now ≡ start none s gate request fresh now
unfolding begin_at
begin_at-started s gate request fresh now h1 h2 h3 =
    (λ i. start_unless_known (h1 i) (h2 i) s gate request fresh now)
    ∙ ap (λ (o : Option RecoveryFailureReason). start o s gate request fresh now) h3

-- A request starts a job, which is then the active one, exactly when no job is active, none of the
-- history has the request's key, the node is coordinator of the distributed cluster, the cooldown is
-- over after every attempt in the history, and the attempts of the history that started within the
-- window are fewer than the limit.
pub begin_at-created_iff :
    (s : RecoveryInner) (gate : RecoveryGate) (request : RecoveryRequest) (fresh now : ℕ)
    → let job = running_job gate request fresh now in
      (begin_at s gate request fresh now ≡ (record s { active = some job }, created job))
      ↔ (s.active ≡ none)
        × (find_key request.idempotency_key s.history ≡ none)
        × IsOpen gate
        × AllCooled s.history s.policy.cooldown now
        × (attempts_in_window s now < s.policy.max_attempts)
unfolding begin_at
begin_at-created_iff s gate request fresh now = (to, from)
  where
    to :
        begin_at s gate request fresh now ≡ (
          record s { active = some (running_job gate request fresh now) },
          created (running_job gate request fresh now),
        )
        → (s.active ≡ none)
          × (find_key request.idempotency_key s.history ≡ none)
          × IsOpen gate
          × AllCooled s.history s.policy.cooldown now
          × (attempts_in_window s now < s.policy.max_attempts)
    to h =
        let c =
          start_unless_known-created s.active (find_key request.idempotency_key s.history) s gate
            request fresh now (running_job gate request fresh now)
            (ap (λ (r : RecoveryInner × RecoveryStart). r.1) h) in
        let n = (suppression_iff s gate now).0 c.2 in
        (c.0, c.1, (gate_failure_iff gate).0 n.0, (in_cooldown_iff s now).0 n.1, n.2)

    from :
        (s.active ≡ none)
          × (find_key request.idempotency_key s.history ≡ none)
          × IsOpen gate
          × AllCooled s.history s.policy.cooldown now
          × (attempts_in_window s now < s.policy.max_attempts)
        → begin_at s gate request fresh now ≡ (
          record s { active = some (running_job gate request fresh now) },
          created (running_job gate request fresh now),
        )
    from h = begin_at-started s gate request fresh now h.0 h.1 (
        (suppression_iff s gate now).1
          ((gate_failure_iff gate).1 h.2, (in_cooldown_iff s now).1 h.3, h.4))
