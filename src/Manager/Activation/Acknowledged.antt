-- ===== src/Manager/Activation/Acknowledged.antt =====
-- An activation is complete only when every node has acknowledged it.
use siderostat.Prelude.{
  ℕ, Bool, true, false, not, ◌||◌, ◌<◌, ◌≡◌, ◌≢◌, ◌⊎◌, inl, inr, refl, none, List, [], ◌∷◌, map,
  if◌then◌else◌, ◌==◌, arith, length,
}
use siderostat.Manager.Activation.{
  complete, node_draining, node_ready, committed, NodeActivationState, ActivationJournal,
  ActivationRequest, ActivationResult, ok, err, stopped_zero, Provider, prepared_node, journal_of,
  prepare_activation, in_phase, takes_ack, is_prepared, is_draining, draining, ready, committing,
  invalid_transition, unknown_node, begin_drain, mark_ready, is_committed, all_committed, has_node,
  commit, commit_ack, forgotten, roll_back,
}

pub data Call : Type 0 where
  drains readies rolls_back : Call
  acks : ℕ → Call

-- The journal that its owner keeps: a call that fails leaves it as it was.
abbrev kept : ActivationJournal → ActivationResult ActivationJournal → ActivationJournal
kept j (ok k) = k
kept j (err e) = j

unfoldable pub perform : ActivationJournal → Call → ActivationJournal
perform j drains = kept j (begin_drain j)
perform j readies = kept j (mark_ready j)
perform j rolls_back = roll_back j
perform j (acks node) = kept j (commit_ack j node)

unfoldable pub perform_all : ActivationJournal → List Call → ActivationJournal
perform_all j [] = j
perform_all j (c ∷ cs) = perform_all (perform j c) cs

abbrev is_ack : ℕ → Call → Bool
is_ack id (acks node) = node == id
is_ack id _ = false

abbrev pub acknowledged : ℕ → List Call → Bool
acknowledged id [] = false
acknowledged id (c ∷ cs) = is_ack id c || acknowledged id cs

-- Each committed node is among the ones that acknowledged.
abbrev AreAcked : (ℕ → Bool) → List NodeActivationState → Type 0
AreAcked seen [] = Unit
AreAcked seen (n ∷ ns) = (is_committed n.phase ≡ true → seen n.node ≡ true) × AreAcked seen ns

record IsAcked (seen : ℕ → Bool) (j : ActivationJournal) : Type 0 where
  nodes_acked : AreAcked seen j.nodes
  all_done : j.phase ≡ complete → all_committed j.nodes ≡ true

-- Every node of the journal acknowledged.
unfoldable pub AllAcked : List NodeActivationState → List Call → Type 0
AllAcked [] cs = Unit
AllAcked (n ∷ ns) cs = (acknowledged n.node cs ≡ true) × AllAcked ns cs

abbrev sees : (ℕ → Bool) → Call → ℕ → Bool
sees seen c id = is_ack id c || seen id

abbrev sees_all : (ℕ → Bool) → List Call → ℕ → Bool
sees_all seen [] id = seen id
sees_all seen (c ∷ cs) id = sees_all (sees seen c) cs id

map-AreAcked :
    (seen : ℕ → Bool) (f : NodeActivationState → NodeActivationState)
    (ns : List NodeActivationState)
    → ((n : NodeActivationState) → is_committed (f n).phase ≡ false)
    → AreAcked seen (map f ns)
map-AreAcked seen f [] h = tt
map-AreAcked seen f (n ∷ ns) h = ((λ c. ground (arith, c, h n)), map-AreAcked seen f ns h)

more-AreAcked :
    (seen : ℕ → Bool) (c : Call) (ns : List NodeActivationState)
    → AreAcked seen ns
    → AreAcked (sees seen c) ns
more-AreAcked seen c [] h = tt
more-AreAcked seen c (n ∷ ns) h = ((λ k. ground (arith, h.0 k)), more-AreAcked seen c ns h.1)

commit-AreAcked :
    (seen : ℕ → Bool) (id : ℕ) (ns : List NodeActivationState)
    → AreAcked seen ns
    → AreAcked (sees seen (acks id)) (commit id ns)
commit-AreAcked seen id [] h = tt
commit-AreAcked seen id (n ∷ ns) h = both (n.node == id) refl (commit-AreAcked seen id ns h.1)
  where
    both :
        (b : Bool)
        → (n.node == id) ≡ b
        → AreAcked (sees seen (acks id)) (commit id ns)
        → AreAcked (sees seen (acks id)) (if b then in_phase committed n ∷ ns else n ∷ commit id ns)
    both true e r = ((λ k. ground (arith, e)), more-AreAcked seen (acks id) ns h.1)
    both false e r = ((λ k. ground (arith, h.0 k)), r)

more-IsAcked :
    (seen : ℕ → Bool) (c : Call) (j : ActivationJournal) → IsAcked seen j → IsAcked (sees seen c) j
more-IsAcked seen c j h = record {
  nodes_acked = more-AreAcked seen c j.nodes h.nodes_acked;
  all_done = h.all_done;
}

if-IsAcked :
    (seen : ℕ → Bool) (b : Bool) (j : ActivationJournal) (x y : ActivationResult ActivationJournal)
    → IsAcked seen (kept j x)
    → IsAcked seen (kept j y)
    → IsAcked seen (kept j (if b then x else y))
if-IsAcked seen true j x y hx hy = hx
if-IsAcked seen false j x y hx hy = hy

perform-IsAcked :
    (seen : ℕ → Bool) (j : ActivationJournal) (c : Call)
    → IsAcked seen j
    → IsAcked (sees seen c) (perform j c)
unfolding perform begin_drain mark_ready roll_back commit_ack
perform-IsAcked seen j drains h =
    if-IsAcked (sees seen drains) (not (is_prepared j.phase)) j (err (invalid_transition j.phase))
      (ok (record j { phase = draining; nodes = map (in_phase node_draining) j.nodes }))
      (more-IsAcked seen drains j h)
      (record {
        nodes_acked = map-AreAcked (sees seen drains) (in_phase node_draining) j.nodes (λ n. refl);
        all_done = λ e. ground (arith, e);
      })
perform-IsAcked seen j readies h =
    if-IsAcked (sees seen readies) (not (is_draining j.phase)) j (err (invalid_transition j.phase))
      (ok (record j { phase = ready; nodes = map (in_phase node_ready) j.nodes }))
      (more-IsAcked seen readies j h)
      (record {
        nodes_acked = map-AreAcked (sees seen readies) (in_phase node_ready) j.nodes (λ n. refl);
        all_done = λ e. ground (arith, e);
      })
perform-IsAcked seen j rolls_back h = record {
  nodes_acked = map-AreAcked (sees seen rolls_back) forgotten j.nodes (λ n. refl);
  all_done = λ e. ground (arith, e);
}
perform-IsAcked seen j (acks id) h =
    let done = ok (record j {
      phase = if all_committed (commit id j.nodes) then complete else committing;
      nodes = commit id j.nodes;
    }) in
    if-IsAcked (sees seen (acks id)) (not (takes_ack j.phase)) j (err (invalid_transition j.phase))
      (if not (has_node id j.nodes) then err (unknown_node id) else done)
      (more-IsAcked seen (acks id) j h)
      (if-IsAcked (sees seen (acks id)) (not (has_node id j.nodes)) j (err (unknown_node id)) done
        (more-IsAcked seen (acks id) j h)
        (record {
          nodes_acked = commit-AreAcked seen id j.nodes h.nodes_acked;
          all_done = λ e. ground (arith, e);
        }))

perform_all-IsAcked :
    (seen : ℕ → Bool) (j : ActivationJournal) (cs : List Call)
    → IsAcked seen j
    → IsAcked (sees_all seen cs) (perform_all j cs)
unfolding perform_all
perform_all-IsAcked seen j [] h = h
perform_all-IsAcked seen j (c ∷ cs) h =
    perform_all-IsAcked (sees seen c) (perform j c) cs (perform-IsAcked seen j c h)

sees-acknowledged :
    (seen : ℕ → Bool) (cs : List Call) (id : ℕ)
    → sees_all seen cs id ≡ true
    → (seen id || acknowledged id cs) ≡ true
sees-acknowledged seen [] id h = ground (arith, h)
sees-acknowledged seen (c ∷ cs) id h = ground (arith, sees-acknowledged (sees seen c) cs id h)

nobody : ℕ → Bool
nobody id = false

AreAcked-all :
    (cs : List Call) (ns : List NodeActivationState)
    → AreAcked (sees_all nobody cs) ns
    → all_committed ns ≡ true
    → AllAcked ns cs
unfolding AllAcked nobody
AreAcked-all cs [] h c = tt
AreAcked-all cs (n ∷ ns) h c = (
  ground (arith, sees-acknowledged nobody cs n.node (h.0 (ground (arith, c)))),
  AreAcked-all cs ns h.1 (ground (arith, c)),
)

prepared-AreAcked :
    (provider : Provider) (ids : List ℕ) → AreAcked nobody (map (prepared_node provider) ids)
prepared-AreAcked provider [] = tt
prepared-AreAcked provider (id ∷ ids) = ((λ c. ground (arith, c)), prepared-AreAcked provider ids)

-- An activation that was prepared on its nodes is complete only when each of them has acknowledged
-- the commit: a lost acknowledgement leaves it incomplete, whatever calls come, in whatever order,
-- and however often it is rolled back.
pub complete_acknowledged :
    (r : ActivationRequest) (provider : Provider) (cs : List Call)
    → (perform_all (journal_of r provider) cs).phase ≡ complete
    → AllAcked (perform_all (journal_of r provider) cs).nodes cs
complete_acknowledged r provider cs h =
    let a = perform_all-IsAcked nobody (journal_of r provider) cs (record {
      nodes_acked = prepared-AreAcked provider r.nodes;
      all_done = λ e. ground (arith, e);
    }) in
    AreAcked-all cs (perform_all (journal_of r provider) cs).nodes a.nodes_acked (a.all_done h)

-- An activation that was stopped because one of its two nodes, the first or the second, or both of
-- them, have no artifact can be completed all the same: its journal is in the phase of a prepared
-- one, so that the drain, the readiness and the two acknowledgements are accepted, in either order.
pub stopped_completes :
    (r : ActivationRequest) (provider : Provider) (a b : ℕ)
    → 0 < r.expected_generation
    → length r.runtime_lease ≢ 0
    → r.nodes ≡ a ∷ b ∷ []
    → (a == b) ≡ false
    → (provider a ≡ none) ⊎ (provider b ≡ none)
    → (prepare_activation r provider ≡ ok (stopped_zero (journal_of r provider)))
      × ((perform_all (journal_of r provider) (drains ∷ readies ∷ acks a ∷ acks b ∷ [])).phase
          ≡ complete)
      × ((perform_all (journal_of r provider) (drains ∷ readies ∷ acks b ∷ acks a ∷ [])).phase
          ≡ complete)
unfolding prepare_activation perform_all perform begin_drain mark_ready commit_ack
stopped_completes r provider a b g l n d p = (
  elim p [ inl q ↦ ground (arith, g, l, n, q) | inr q ↦ ground (arith, g, l, n, q) ],
  ground (arith, n, d),
  ground (arith, n, d),
)
