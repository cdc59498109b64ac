-- ===== src/Cluster/PolicyControl/Force.antt =====
-- src/cluster/production/policy.rs: `ForceApplyCoordinator`, which applies forced standalone on
-- both nodes and is complete when both acknowledged.
use siderostat.Prelude.{
  ℕ, Bool, true, false, not, ◌&&◌, ◌≡◌, ◌≢◌, refl, sym, ◌⊎◌, inl, inr, List, [], ◌∷◌, ◌++◌, Memᴰ,
  arith,
}

pub data ForceNodePhase : Type 0 where
  not_started intent_saved draining local_ready applied : ForceNodePhase

pub record ForceApplyCoordinator : Type 0 where
  pub policy_epoch : ℕ
  pub operation_id : ℕ
  pub local : ForceNodePhase
  pub peer : ForceNodePhase
  pub drain_failed : Bool
  pub complete : Bool

unfoldable pub begin : ℕ → ℕ → ForceApplyCoordinator
begin policy_epoch operation_id = record {
  policy_epoch = policy_epoch;
  operation_id = operation_id;
  local = intent_saved;
  peer = not_started;
  drain_failed = false;
  complete = false;
}

abbrev is_applied : ForceNodePhase → Bool
is_applied applied = true
is_applied _ = false

unfoldable pub recompute_complete : ForceApplyCoordinator → ForceApplyCoordinator
recompute_complete c = record c {
  complete = not c.drain_failed && is_applied c.local && is_applied c.peer;
}

-- The methods, by name.
pub data Note : Type 0 where
  peer_intent_saved begin_drain drain_timeout note_local_ready note_peer_ready : Note
  note_local_applied note_peer_applied : Note

unfoldable pub note : ForceApplyCoordinator → Note → ForceApplyCoordinator
unfolding recompute_complete
note c peer_intent_saved = record c { peer = intent_saved }
note c begin_drain = record c { local = draining }
note c drain_timeout = record c { drain_failed = true }
note c note_local_ready = record c { local = local_ready }
note c note_peer_ready = record c { peer = local_ready }
note c note_local_applied = recompute_complete (record c { local = applied })
note c note_peer_applied = recompute_complete (record c { peer = applied })

unfoldable pub note_all : ForceApplyCoordinator → List Note → ForceApplyCoordinator
note_all c [] = c
note_all c (n ∷ ns) = note_all (note c n) ns

-- An acknowledgement that is in, or comes with the notes.
abbrev Seen : ForceNodePhase → Note → List Note → Type 0
Seen p n ns = (is_applied p ≡ true) ⊎ Memᴰ n ns

Seen-note :
    (p q : ForceNodePhase) (m n : Note) (ns : List Note)
    → ((is_applied q ≡ true → is_applied p ≡ true) ⊎ (m ≡ n))
    → Seen q n ns
    → Seen p n (m ∷ ns)
Seen-note p q m n ns k (inr later) = inr (Memᴰ.tail later)
Seen-note p q m n ns (inl k) (inl h) = inl (k h)
Seen-note p q m n ns (inr e) (inl h) = inr (Memᴰ.head (sym e))

local_note :
    (c : ForceApplyCoordinator) (m : Note)
    → (is_applied (note c m).local ≡ true → is_applied c.local ≡ true) ⊎ (m ≡ note_local_applied)
unfolding note
local_note c note_local_applied = inr refl
local_note c _ = inl (λ h. ground arith)

peer_note :
    (c : ForceApplyCoordinator) (m : Note)
    → (is_applied (note c m).peer ≡ true → is_applied c.peer ≡ true) ⊎ (m ≡ note_peer_applied)
unfolding note
peer_note c note_peer_applied = inr refl
peer_note c _ = inl (λ h. ground arith)

complete_note :
    (c : ForceApplyCoordinator) (m : Note)
    → (note c m).complete ≡ true
    → (c.complete ≡ true)
      ⊎ ((is_applied (note c m).local ≡ true) × (is_applied (note c m).peer ≡ true))
unfolding note
complete_note c m h = ground arith

complete-Seen :
    (c : ForceApplyCoordinator) (ns : List Note)
    → (note_all c ns).complete ≡ true
    → (c.complete ≡ true) ⊎ (Seen c.local note_local_applied ns × Seen c.peer note_peer_applied ns)
unfolding note_all
complete-Seen c [] h = inl h
complete-Seen c (m ∷ ns) h = elim (complete-Seen (note c m) ns h) [
  | inr (l, p) ↦ inr (
    Seen-note c.local (note c m).local m note_local_applied ns (local_note c m) l,
    Seen-note c.peer (note c m).peer m note_peer_applied ns (peer_note c m) p,
  )
  | inl now ↦ elim (complete_note c m now) [
    | inl before ↦ inl before
    | inr (l, p) ↦ inr (
      Seen-note c.local (note c m).local m note_local_applied ns (local_note c m) (inl l),
      Seen-note c.peer (note c m).peer m note_peer_applied ns (peer_note c m) (inl p),
    )
  ]
]

-- Whatever notes arrive, in any order and number, the change is complete only if both nodes'
-- acknowledgements are among them.
pub complete_needs_both :
    (epoch id : ℕ) (ns : List Note)
    → (note_all (begin epoch id) ns).complete ≡ true
    → Memᴰ note_local_applied ns × Memᴰ note_peer_applied ns
unfolding begin
complete_needs_both epoch id ns h = elim (complete-Seen (begin epoch id) ns h) [
  | inl e ↦ absurd (ground arith)
  | inr (inl e, p) ↦ absurd (ground arith)
  | inr (inr l, inl e) ↦ absurd (ground arith)
  | inr (inr l, inr p) ↦ (l, p)
]

note_failed :
    (c : ForceApplyCoordinator) (m : Note)
    → c.drain_failed ≡ true
    → c.complete ≡ false
    → ((note c m).drain_failed ≡ true) × ((note c m).complete ≡ false)
unfolding note
note_failed c m f n = ground arith

note_all_failed :
    (c : ForceApplyCoordinator) (ns : List Note)
    → c.drain_failed ≡ true
    → c.complete ≡ false
    → ((note_all c ns).drain_failed ≡ true) × ((note_all c ns).complete ≡ false)
unfolding note_all
note_all_failed c [] f n = (f, n)
note_all_failed c (m ∷ ns) f n =
    let (f', n') = note_failed c m f n in note_all_failed (note c m) ns f' n'

-- A drain that timed out before the change was complete is final: whatever notes follow, both
-- acknowledgements included, the change stays failed and is never complete.
drain_timeout_final :
    (c : ForceApplyCoordinator) (ns : List Note)
    → c.complete ≡ false
    → ((note_all (note c drain_timeout) ns).drain_failed ≡ true)
      × ((note_all (note c drain_timeout) ns).complete ≡ false)
unfolding note
drain_timeout_final c ns n = note_all_failed (record c { drain_failed = true }) ns refl n

-- No drain times out.
abbrev pub NoTimeout : List Note → Type 0
NoTimeout [] = Unit {0}
NoTimeout (n ∷ ns) = (n ≢ drain_timeout) × NoTimeout ns

drain_note :
    (c : ForceApplyCoordinator) (m : Note)
    → m ≢ drain_timeout
    → c.drain_failed ≡ false
    → (note c m).drain_failed ≡ false
unfolding note
drain_note c m n f = ground arith

-- Without a timeout, both acknowledgements in a row complete the change in either order, whatever
-- notes came before them.
pub both_acks_complete :
    (c : ForceApplyCoordinator) (ns : List Note)
    → c.drain_failed ≡ false
    → NoTimeout ns
    → ((note_all c (ns ++ note_local_applied ∷ note_peer_applied ∷ [])).complete ≡ true)
      × ((note_all c (ns ++ note_peer_applied ∷ note_local_applied ∷ [])).complete ≡ true)
unfolding note_all
both_acks_complete c [] f n = unfold note in ground arith
both_acks_complete c (m ∷ ns) f n = both_acks_complete (note c m) ns (drain_note c m n.0 f) n.1
