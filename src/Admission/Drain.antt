-- ===== src/Admission/Drain.antt =====
-- src/admission.rs: `drain`, whose three parts (`begin_drain`, `wait_for_zero`, the end under the
-- lock) other calls may separate.
use siderostat.Prelude.{
  ℕ, zero, suc, ◌≤◌, Bool, true, false, ◌≡◌, refl, none, some, List, [], ◌∷◌, arith, ◌↔◌,
}
use siderostat.Admission.{
  is_serving, draining, start_serving, block, close, reset_blocked_generation, try_acquire,
  try_acquire_recovery, begin_drain, end_drain, drop_permit, accepts_drained_ack,
}
use siderostat.Admission.Permits.{
  Call, System, starts, resets, drops, recovers, begins, perform, perform_all, IsCounted,
  perform-IsCounted, perform_all-IsCounted,
}

-- No call of these serves again or lets a recovery canary in.
abbrev lets_in : Call → Bool
lets_in starts = true
lets_in (recovers ready) = true
lets_in _ = false

abbrev pub LetsNoneIn : List Call → Type 0
LetsNoneIn [] = Unit {0}
LetsNoneIn (c ∷ cs) = (lets_in c ≡ false) × LetsNoneIn cs

abbrev IsShut : System → Type 0
IsShut s = is_serving s.gate.state ≡ false

perform-IsShut :
    (s : System) (c : Call)
    → lets_in c ≡ false
    → IsShut s
    → IsShut (perform s c) × ((perform s c).held ≤ s.held)
unfolding perform start_serving block close reset_blocked_generation try_acquire
    try_acquire_recovery begin_drain end_drain drop_permit
perform-IsShut s drops l h = (ground arith, ground arith)
perform-IsShut s _ l h = (ground arith, ground arith)

perform_all-IsShut :
    (s : System) (cs : List Call)
    → LetsNoneIn cs
    → IsShut s
    → IsShut (perform_all s cs) × ((perform_all s cs).held ≤ s.held)
unfolding perform_all
perform_all-IsShut s [] l h = (h, omega arith)
perform_all-IsShut s (c ∷ cs) l h =
    let (shut, fewer) = perform-IsShut s c l.0 h in
    let (shut', fewer') = perform_all-IsShut (perform s c) cs l.1 shut in (shut', omega arith)

begins-IsShut :
    (s : System) (g : ℕ) → (begin_drain s.gate g).1 ≡ none → IsShut (perform s (begins g))
unfolding perform begin_drain
begins-IsShut s g e = ground arith

-- From the begin of a drain to its end no permit is granted: if all that other calls do meanwhile is
-- neither to serve again nor to let a recovery canary in, then a drain that saw nothing in flight
-- still has nothing in flight when it ends.
pub drain_empties :
    (n g : ℕ) (s : System) (before after : List Call)
    → IsCounted n s
    → (begin_drain s.gate g).1 ≡ none
    → LetsNoneIn before
    → LetsNoneIn after
    → (perform_all (perform s (begins g)) before).gate.in_flight ≡ 0
    → (perform_all (perform_all (perform s (begins g)) before) after).gate.in_flight ≡ 0
drain_empties n g s before after v e quiet quiet' zero_seen =
    let begun = perform s (begins g) in
    let mid = perform_all begun before in
    let v' = perform_all-IsCounted n begun before (perform-IsCounted n s (begins g) v) in
    let v'' = perform_all-IsCounted n mid after v' in
    let (shut, fewer) = perform_all-IsShut begun before quiet (begins-IsShut s g e) in
    let (shut', fewer') = perform_all-IsShut mid after quiet' shut in
    omega (arith, v'.counted, v''.counted)

-- No call of these serves or resets the generation.
abbrev clears : Call → Bool
clears starts = true
clears resets = true
clears _ = false

abbrev pub ClearsNone : List Call → Type 0
ClearsNone [] = Unit {0}
ClearsNone (c ∷ cs) = (clears c ≡ false) × ClearsNone cs

perform_generation :
    (s : System) (g : ℕ) (c : Call)
    → clears c ≡ false
    → s.gate.drain_generation ≡ some g
    → (perform s c).gate.drain_generation ≡ some g
unfolding perform start_serving block close reset_blocked_generation try_acquire
    try_acquire_recovery begin_drain end_drain drop_permit
perform_generation s g drops l e = ground arith
perform_generation s g _ l e = ground arith

perform_all_generation :
    (s : System) (g : ℕ) (cs : List Call)
    → ClearsNone cs
    → s.gate.drain_generation ≡ some g
    → (perform_all s cs).gate.drain_generation ≡ some g
unfolding perform_all
perform_all_generation s g [] l e = e
perform_all_generation s g (c ∷ cs) l e =
    perform_all_generation (perform s c) g cs l.1 (perform_generation s g c l.0 e)

generation_answers :
    (s : System) (g h : ℕ)
    → s.gate.drain_generation ≡ some g
    → (((begin_drain s.gate h).1 ≡ none) ↔ (h ≡ g))
      × (((end_drain s.gate h).1 ≡ none) ↔ (h ≡ g))
      × ((accepts_drained_ack s.gate h ≡ true) ↔ ((h ≡ g) × (s.gate.state ≡ draining)))
unfolding begin_drain end_drain accepts_drained_ack
generation_answers s g h e = (
  (λ k. ground arith, λ k. ground arith),
  (λ k. ground arith, λ k. ground arith),
  (λ k. ground arith, λ k. ground arith),
)

begun_generation :
    (s : System) (g : ℕ)
    → (begin_drain s.gate g).1 ≡ none
    → (perform s (begins g)).gate.drain_generation ≡ some g
unfolding perform begin_drain
begun_generation s g e = ground arith

-- After a drain began, and until the gate serves again or is reset, the gate belongs to its
-- generation: a drain of that generation may begin and end, and one of another may not; an
-- acknowledgement is accepted for that generation only, and only while the gate still drains.
pub drain_owns :
    (s : System) (g h : ℕ) (cs : List Call)
    → (begin_drain s.gate g).1 ≡ none
    → ClearsNone cs
    → let t = perform_all (perform s (begins g)) cs in
      (((begin_drain t.gate h).1 ≡ none) ↔ (h ≡ g))
      × (((end_drain t.gate h).1 ≡ none) ↔ (h ≡ g))
      × ((accepts_drained_ack t.gate h ≡ true) ↔ ((h ≡ g) × (t.gate.state ≡ draining)))
drain_owns s g h cs e quiet =
    generation_answers (perform_all (perform s (begins g)) cs) g h
      (perform_all_generation (perform s (begins g)) g cs quiet (begun_generation s g e))

-- As many drops.
abbrev pub all_drop : ℕ → List Call
all_drop zero = []
all_drop (suc n) = drops ∷ all_drop n

drops_empty :
    (n k : ℕ) (s : System)
    → IsCounted n s
    → s.held ≡ k
    → (perform_all s (all_drop k)).gate.in_flight ≡ 0
unfolding perform_all
drops_empty n zero s v e = omega (arith, v.counted)
drops_empty n (suc k) s v e =
    drops_empty n k (perform s drops) (perform-IsCounted n s drops v)
      (unfold perform in ground arith)

-- Once the callers dropped the permits that they hold, nothing is in flight, which is what
-- `wait_for_zero` waits for: no permit is lost.
pub drops_all :
    (n : ℕ) (s : System) → IsCounted n s → (perform_all s (all_drop s.held)).gate.in_flight ≡ 0
drops_all n s v = drops_empty n s.held s v refl
