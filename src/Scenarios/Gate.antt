-- ===== src/Scenarios/Gate.antt =====
-- Tests of src/admission.rs.
use siderostat.Prelude.{◌≡◌, refl, true, false, none, some, List, [], ◌∷◌}
use siderostat.Admission.{
  new_gate, start_serving, try_acquire, begin_drain, drop_permit, at_capacity,
}
use siderostat.Admission.Permits.{
  Call, System, starts, drops, acquires, begins, blocks, fresh, perform, perform_all,
  perform_all-fresh-IsCounted,
}
use siderostat.Admission.Drain.{drain_empties}

-- Two places: one request gets in, the upstream is not ready for another.
abbrev opened : List Call
opened = starts ∷ acquires true ∷ acquires false ∷ []

abbrev busy : System
busy = perform_all (fresh 2) opened

busy_held : busy.held ≡ 1
unfolding perform_all perform start_serving try_acquire new_gate
busy_held = refl

full_refused : (try_acquire (perform_all (fresh 1) opened).gate true).1 ≡ some at_capacity
unfolding perform_all perform start_serving try_acquire new_gate
full_refused = refl

busy_begins : (begin_drain busy.gate 7).1 ≡ none
unfolding begin_drain perform_all perform start_serving try_acquire new_gate
busy_begins = refl

busy_drained :
    (perform_all (perform busy (begins 7)) (acquires true ∷ drops ∷ [])).gate.in_flight ≡ 0
unfolding begin_drain perform_all perform start_serving try_acquire new_gate drop_permit
busy_drained = refl

drain_empties_example :
    (perform_all
      (perform_all (perform busy (begins 7)) (acquires true ∷ drops ∷ []))
      (acquires true ∷ blocks ∷ [])).gate.in_flight
    ≡ 0
drain_empties_example =
    drain_empties 2 7 busy (acquires true ∷ drops ∷ []) (acquires true ∷ blocks ∷ [])
      (perform_all-fresh-IsCounted 2 opened) busy_begins (refl, (refl, tt)) (refl, (refl, tt))
      busy_drained
