-- ===== src/Admission.antt =====
-- src/admission.rs: the gate that admits requests, its permits, and the drain that waits for them.
pub mod Permits
pub mod Drain
use siderostat.Prelude.{
  ℕ, ◌+◌, ◌-◌, Bool, true, false, not, ◌&&◌, ◌||◌, Option, none, some, if◌then◌else◌, ◌==◌, leb,
}

pub data AdmissionState : Type 0 where
  serving draining blocked : AdmissionState

pub data AdmissionError : Type 0 where
  not_serving upstream_not_ready at_capacity : AdmissionError

pub data DrainError : Type 0 where
  timeout generation_changed : DrainError

-- `Inner`, behind the lock of the gate.
pub record Gate : Type 0 where
  pub state : AdmissionState
  pub closed : Bool
  pub in_flight : ℕ
  pub max_in_flight : ℕ
  pub drain_generation : Option ℕ

-- `AdmissionGate::new`, which asserts that the maximum is positive.
unfoldable pub new_gate : ℕ → Gate
new_gate n = record {
  state = blocked;
  closed = false;
  in_flight = 0;
  max_in_flight = n;
  drain_generation = none;
}

unfoldable pub start_serving : Gate → Gate
start_serving g = if g.closed then g else record g { state = serving; drain_generation = none }

unfoldable pub block : Gate → Gate
block g = record g { state = blocked }

unfoldable pub close : Gate → Gate
close g = record g { closed = true; state = blocked }

-- Its two assertions are checked in debug builds only.
unfoldable pub reset_blocked_generation : Gate → Gate
reset_blocked_generation g = record g { drain_generation = none }

-- An error, or none and one permit more.
unfoldable pub acquire_permit : Gate → Bool → Gate × Option AdmissionError
acquire_permit g upstream_ready =
    if g.closed
    then (g, some not_serving)
    else if not upstream_ready
    then (g, some upstream_not_ready)
    else if leb g.max_in_flight g.in_flight
    then (g, some at_capacity)
    else (record g { in_flight = g.in_flight + 1 }, none)

abbrev pub is_serving : AdmissionState → Bool
is_serving serving = true
is_serving _ = false

unfoldable pub try_acquire : Gate → Bool → Gate × Option AdmissionError
unfolding acquire_permit
try_acquire g upstream_ready =
    if not (is_serving g.state) then (g, some not_serving) else acquire_permit g upstream_ready

unfoldable pub try_acquire_recovery : Gate → Bool → Gate × Option AdmissionError
unfolding acquire_permit
try_acquire_recovery g upstream_ready = acquire_permit g upstream_ready

abbrev other_generation : Option ℕ → ℕ → Bool
other_generation none generation = false
other_generation (some active) generation = not (active == generation)

unfoldable pub begin_drain : Gate → ℕ → Gate × Option DrainError
begin_drain g generation =
    if other_generation g.drain_generation generation
    then (g, some generation_changed)
    else (record g { state = draining; drain_generation = some generation }, none)

abbrev is_generation : Option ℕ → ℕ → Bool
is_generation none generation = false
is_generation (some active) generation = active == generation

abbrev is_draining : AdmissionState → Bool
is_draining draining = true
is_draining _ = false

unfoldable pub accepts_drained_ack : Gate → ℕ → Bool
accepts_drained_ack g generation =
    is_draining g.state && is_generation g.drain_generation generation

-- The last part of `drain`, under a lock of its own, after `wait_for_zero` returned.
unfoldable pub end_drain : Gate → ℕ → Gate × Option DrainError
end_drain g generation =
    if not (is_generation g.drain_generation generation)
    then (g, some generation_changed)
    else (record g { state = blocked }, none)

-- `AdmissionPermit::drop`. A permit is in flight, so the difference is exact.
unfoldable pub drop_permit : Gate → Gate
drop_permit g = record g { in_flight = g.in_flight - 1 }
