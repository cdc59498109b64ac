-- ===== src/Admission/Permits.antt =====
-- src/admission.rs: the permits in flight, under every interleaving of the calls.
use siderostat.Prelude.{
  ℕ, zero, suc, ◌+◌, ◌≤◌, Bool, true, ◌≡◌, refl, Option, none, some, List, [], ◌∷◌, arith,
}
use siderostat.Admission.{
  Gate, AdmissionError, not_serving, new_gate, start_serving, block, close,
  reset_blocked_generation, try_acquire, try_acquire_recovery, begin_drain, end_drain, drop_permit,
}

-- The calls that change the gate, in the order in which they hold its lock.
pub data Call : Type 0 where
  starts blocks closes resets drops : Call
  acquires recovers : Bool → Call
  begins ends : ℕ → Call

-- The gate, and the permits that its callers hold.
pub record System : Type 0 where
  pub gate : Gate
  pub held : ℕ

abbrev granted : System → Gate × Option AdmissionError → System
granted s (g, none) = record { gate = g; held = s.held + 1 }
granted s (g, some e) = record { gate = g; held = s.held }

-- Only a permit that is held can be dropped.
abbrev dropped : Gate → ℕ → System
dropped g zero = record { gate = g; held = zero }
dropped g (suc n) = record { gate = drop_permit g; held = n }

unfoldable pub perform : System → Call → System
perform s starts = record s { gate = start_serving s.gate }
perform s blocks = record s { gate = block s.gate }
perform s closes = record s { gate = close s.gate }
perform s resets = record s { gate = reset_blocked_generation s.gate }
perform s drops = dropped s.gate s.held
perform s (acquires ready) = granted s (try_acquire s.gate ready)
perform s (recovers ready) = granted s (try_acquire_recovery s.gate ready)
perform s (begins g) = record s { gate = (begin_drain s.gate g).0 }
perform s (ends g) = record s { gate = (end_drain s.gate g).0 }

unfoldable pub perform_all : System → List Call → System
perform_all s [] = s
perform_all s (c ∷ cs) = perform_all (perform s c) cs

abbrev pub fresh : ℕ → System
fresh n = record { gate = new_gate n; held = 0 }

pub record IsCounted (n : ℕ) (s : System) : Type 0 where
  pub counted : s.gate.in_flight ≡ s.held
  pub bounded : s.gate.in_flight ≤ n
  pub maximum : s.gate.max_in_flight ≡ n

pub perform-IsCounted : (n : ℕ) (s : System) (c : Call) → IsCounted n s → IsCounted n (perform s c)
unfolding perform start_serving block close reset_blocked_generation try_acquire
    try_acquire_recovery begin_drain end_drain drop_permit
perform-IsCounted n s drops v = ground arith
perform-IsCounted n s _ v = ground arith

pub perform_all-IsCounted :
    (n : ℕ) (s : System) (cs : List Call) → IsCounted n s → IsCounted n (perform_all s cs)
unfolding perform_all
perform_all-IsCounted n s [] v = v
perform_all-IsCounted n s (c ∷ cs) v =
    perform_all-IsCounted n (perform s c) cs (perform-IsCounted n s c v)

fresh-IsCounted : (n : ℕ) → IsCounted n (fresh n)
unfolding new_gate
fresh-IsCounted n = ground arith

-- Under every interleaving of the calls of a new gate, the number in flight is the number of permits
-- that callers hold, and it never passes the maximum, which never changes.
pub perform_all-fresh-IsCounted : (n : ℕ) (cs : List Call) → IsCounted n (perform_all (fresh n) cs)
perform_all-fresh-IsCounted n cs = perform_all-IsCounted n (fresh n) cs (fresh-IsCounted n)

perform_closed :
    (s : System) (c : Call)
    → s.gate.closed ≡ true
    → ((perform s c).gate.closed ≡ true) × ((perform s c).held ≤ s.held)
unfolding perform start_serving block close reset_blocked_generation try_acquire
    try_acquire_recovery begin_drain end_drain drop_permit
perform_closed s drops h = ground arith
perform_closed s _ h = ground arith

perform_all_closed :
    (s : System) (cs : List Call)
    → s.gate.closed ≡ true
    → ((perform_all s cs).gate.closed ≡ true) × ((perform_all s cs).held ≤ s.held)
unfolding perform_all
perform_all_closed s [] h = (h, omega arith)
perform_all_closed s (c ∷ cs) h =
    let (closed, fewer) = perform_closed s c h in
    let (closed', fewer') = perform_all_closed (perform s c) cs closed in (closed', omega arith)

-- Closing is for good: whatever calls follow, serving included, no permit is granted any more, not
-- to the recovery canary either, and the permits that are held only go back.
pub closed_forever :
    (s : System) (cs : List Call) (ready : Bool)
    → let t = perform_all (perform s closes) cs in
      (try_acquire t.gate ready ≡ (t.gate, some not_serving))
      × (try_acquire_recovery t.gate ready ≡ (t.gate, some not_serving))
      × (t.held ≤ s.held)
unfolding try_acquire try_acquire_recovery perform close
closed_forever s cs ready =
    let (closed, fewer) = perform_all_closed (record s { gate = close s.gate }) cs refl in
    (ground arith, ground arith, fewer)
