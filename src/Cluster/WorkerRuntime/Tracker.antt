-- ===== src/Cluster/WorkerRuntime/Tracker.antt =====
-- src/cluster/worker.rs: `TpWorkerTracker`.
use siderostat.Prelude.{
  ℕ, Bool, true, false, not, ◌||◌, List, [], ◌∷◌, if◌then◌else◌, ◌==◌, ◌≡◌, ◌≢◌, arith,
}

pub data TpWorkerPhase : Type 0 where
  idle prepared connected failed cancelled : TpWorkerPhase

pub record TpWorkerTracker : Type 0 where
  pub phase : TpWorkerPhase
  pub generation : ℕ
  pub is_cancelled : Bool

unfoldable pub new_tracker : TpWorkerTracker
new_tracker = record { phase = idle; generation = 0; is_cancelled = false }

unfoldable pub note_prepared : TpWorkerTracker → ℕ → TpWorkerTracker
note_prepared t generation =
    if t.is_cancelled
    then record t { phase = cancelled }
    else record t { generation = generation; phase = prepared }

abbrev is_prepared : TpWorkerPhase → Bool
is_prepared prepared = true
is_prepared _ = false

unfoldable pub note_connected : TpWorkerTracker → ℕ → TpWorkerTracker
note_connected t generation =
    if t.is_cancelled || not (is_prepared t.phase)
    then t
    else if not (generation == t.generation)
    then t
    else record t { phase = connected }

unfoldable pub note_failed : TpWorkerTracker → TpWorkerTracker
note_failed t =
    if t.is_cancelled then record t { phase = cancelled } else record t { phase = failed }

abbrev is_connected : TpWorkerPhase → Bool
is_connected connected = true
is_connected _ = false

unfoldable pub cancel : TpWorkerTracker → TpWorkerTracker
cancel t =
    if is_connected t.phase
    then record t { is_cancelled = true }
    else record t { is_cancelled = true; phase = cancelled }

pub data Note : Type 0 where
  prepares connects : ℕ → Note
  fails cancels : Note

unfoldable pub noted : TpWorkerTracker → Note → TpWorkerTracker
noted t (prepares g) = note_prepared t g
noted t (connects g) = note_connected t g
noted t fails = note_failed t
noted t cancels = cancel t

unfoldable pub noted_all : TpWorkerTracker → List Note → TpWorkerTracker
noted_all t [] = t
noted_all t (n ∷ ns) = noted_all (noted t n) ns

record IsOver (t : TpWorkerTracker) : Type 0 where
  flagged : t.is_cancelled ≡ true
  over : t.phase ≡ cancelled

noted-IsOver : (t : TpWorkerTracker) (n : Note) → IsOver t → IsOver (noted t n)
unfolding noted note_prepared note_connected note_failed cancel
noted-IsOver t (prepares g) h = record {
  flagged = ground (arith, h.flagged);
  over = ground (arith, h.flagged);
}
noted-IsOver t (connects g) h = record {
  flagged = ground (arith, h.flagged);
  over = ground (arith, h.flagged, h.over);
}
noted-IsOver t fails h = record {
  flagged = ground (arith, h.flagged);
  over = ground (arith, h.flagged);
}
noted-IsOver t cancels h = record {
  flagged = ground (arith, h.flagged, h.over);
  over = ground (arith, h.flagged, h.over);
}

noted_all-over :
    (t : TpWorkerTracker) (ns : List Note) → IsOver t → (noted_all t ns).phase ≡ cancelled
unfolding noted_all
noted_all-over t [] h = h.over
noted_all-over t (n ∷ ns) h = noted_all-over (noted t n) ns (noted-IsOver t n h)

cancel-IsOver : (t : TpWorkerTracker) → t.phase ≢ connected → IsOver (cancel t)
unfolding cancel
cancel-IsOver t h = record { flagged = ground arith; over = ground (arith, h) }

-- A worker that is cancelled before it is connected stays cancelled: whatever is noted later, of
-- whatever generation, a late connection included, the phase is cancelled.
pub cancel_final :
    (t : TpWorkerTracker) (later : List Note)
    → t.phase ≢ connected
    → (noted_all (cancel t) later).phase ≡ cancelled
cancel_final t later h = noted_all-over (cancel t) later (cancel-IsOver t h)

connected_noted :
    (t : TpWorkerTracker) (g : ℕ)
    → (note_connected t g).phase ≡ connected
    → t.phase ≢ connected
    → (t.phase ≡ prepared) × (t.generation ≡ g) × (t.is_cancelled ≡ false)
unfolding note_connected
connected_noted t g h n = (ground (arith, h, n), ground (arith, h, n), ground (arith, h, n))
