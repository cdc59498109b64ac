-- ===== src/Cluster/Control/Once.antt =====
-- A message is applied once in the life of a processor.
use siderostat.Prelude.{
  ℕ, ◌<◌, Bool, true, false, ◌≡◌, refl, sym, subst, ◌∙◌, ◌⊎◌, inl, inr, Option, none, some, List,
  [], ◌∷◌, arith, same_bytes, same_bytes_iff, ◌==◌, ◌≢◌, not, ◌&&◌, ◌||◌, if◌then◌else◌,
}
use siderostat.Cluster.Auth.{AuthenticatedPeer}
use siderostat.Cluster.PeerLease.{LeaseError, PeerLease, renew, establish}
use siderostat.Cluster.Control.{
  ControlCommand, ControlEndpoint, ControlMessage, ControlResponse, ControlError, ControlResult,
  err, endpoint, same_endpoint, same_role, same_message, invalid_descriptor, idempotency_conflict,
  endpoint_mismatch, invalid_request_id, applied, duplicate, ControlResponseStatus,
}
use siderostat.Cluster.Control.Processor.{
  ControlProcessor, handle_validated, find_processed, apply_command, apply_valid,
  apply_unless_known, apply_checked, advanced, advance_generation, answer, response, check_message,
  bad_request_id,
}
use siderostat.Cluster.Control.Coordinator.{is_applied}

-- One call of `handle_validated`.
pub record Handling : Type 0 where
  pub at : ControlEndpoint
  pub message : ControlMessage
  pub peer : AuthenticatedPeer
  pub scoped : Bool
  pub now : ℕ
  pub validate : ControlCommand → Option ControlError

abbrev pub run : ControlProcessor → Handling → ControlProcessor × ControlResult ControlResponse
run p h = handle_validated p h.at h.message h.peer h.scoped h.now h.validate

unfoldable pub run_all : ControlProcessor → List Handling → ControlProcessor
run_all p [] = p
run_all p (h ∷ hs) = run_all (run p h).0 hs

knows : ℕ → List ℕ → List ControlMessage → Bool
knows generation id [] = false
knows generation id (m ∷ ms) =
    (m.generation == generation && same_bytes m.request_id id) || knows generation id ms

-- The processor remembers this key, or has left its generation behind.
Remembers : ControlProcessor → ℕ → List ℕ → Type 0
Remembers p generation id =
    ((p.local.generation ≡ generation) × (knows generation id p.processed ≡ true))
    ⊎ (generation < p.local.generation)

-- What a call keeps: the local generation and the keys.
record Keeps (g : ℕ) (id : List ℕ) (p q : ControlProcessor) : Type 0 where
  same_generation : q.local.generation ≡ p.local.generation
  kept : knows g id p.processed ≡ true → knows g id q.processed ≡ true

knows-cons :
    (g : ℕ) (id : List ℕ) (m : ControlMessage) (ms : List ControlMessage)
    → knows g id ms ≡ true
    → knows g id (m ∷ ms) ≡ true
unfolding knows
knows-cons g id m ms h = ground (arith, h)

knows-find_processed :
    (g : ℕ) (id : List ℕ) (ms : List ControlMessage)
    → knows g id ms ≡ true
    → find_processed g id ms ≢ none
unfolding knows find_processed
knows-find_processed g id [] h = ground arith
knows-find_processed g id (m ∷ ms) h = ground (arith, knows-find_processed g id ms)

answer-Keeps :
    (g : ℕ) (id : List ℕ) (p : ControlProcessor) (r : PeerLease × Option LeaseError)
    (s : ControlResponseStatus) (kept : List ControlMessage)
    → (knows g id p.processed ≡ true → knows g id kept ≡ true)
    → Keeps g id p (answer p r s kept).0
answer-Keeps g id p (l, some e) s kept h = record { same_generation = refl; kept = λ k. k }
answer-Keeps g id p (l, none) s kept h = record { same_generation = refl; kept = h }

same-Keeps : (g : ℕ) (id : List ℕ) (p : ControlProcessor) → Keeps g id p p
same-Keeps g id p = record { same_generation = refl; kept = λ k. k }

if-Keeps :
    {A : Type 0} (g : ℕ) (id : List ℕ) (p : ControlProcessor) (b : Bool)
    (x y : ControlProcessor × A)
    → Keeps g id p x.0
    → Keeps g id p y.0
    → Keeps g id p (if b then x else y).0
if-Keeps g id p true x y hx hy = hx
if-Keeps g id p false x y hx hy = hy

module _ (g : ℕ) (id : List ℕ) (p : ControlProcessor) (m : ControlMessage)
    (peer : AuthenticatedPeer) (scoped : Bool) (now : ℕ) where
  renewed-Keeps :
      Keeps g id p
        (answer p (renew p.lease peer m.generation scoped now) applied (m ∷ p.processed)).0
  renewed-Keeps =
      answer-Keeps g id p (renew p.lease peer m.generation scoped now) applied (m ∷ p.processed)
        (knows-cons g id m p.processed)

  apply_command-Keeps : (c : ControlCommand) → Keeps g id p (apply_command p m c peer scoped now).0
  unfolding apply_command
  apply_command-Keeps (ControlCommand.pair d) =
      if-Keeps g id p (not (d.protocol_version == 1) || not (same_role d.role p.expected_peer_role))
        (p, err invalid_descriptor)
        (answer p (establish p.lease peer d m.generation scoped now) applied (m ∷ p.processed))
        (same-Keeps g id p)
        (answer-Keeps g id p (establish p.lease peer d m.generation scoped now) applied
          (m ∷ p.processed) (knows-cons g id m p.processed))
  apply_command-Keeps c = renewed-Keeps

  apply_valid-Keeps : (e : Option ControlError) → Keeps g id p (apply_valid e p m peer scoped now).0
  apply_valid-Keeps (some e) = same-Keeps g id p
  apply_valid-Keeps none = apply_command-Keeps m.command

  apply_unless_known-Keeps :
      (k : Option ControlMessage) (v : ControlCommand → Option ControlError)
      → Keeps g id p (apply_unless_known k p m peer scoped now v).0
  apply_unless_known-Keeps (some k) v =
      if-Keeps g id p (not (same_message k m)) (p, err idempotency_conflict)
        (answer p (renew p.lease peer m.generation scoped now) duplicate p.processed)
        (same-Keeps g id p)
        (answer-Keeps g id p (renew p.lease peer m.generation scoped now) duplicate p.processed
          (λ h. h))
  apply_unless_known-Keeps none v = apply_valid-Keeps (v m.command)

  apply_checked-Keeps :
      (e : Option ControlError) (v : ControlCommand → Option ControlError)
      → Keeps g id p (apply_checked e p m peer scoped now v).0
  apply_checked-Keeps (some e) v = same-Keeps g id p
  apply_checked-Keeps none v =
      apply_unless_known-Keeps (find_processed m.generation m.request_id p.processed) v

Keeps-Remembers :
    (g : ℕ) (id : List ℕ) (p q : ControlProcessor)
    → Keeps g id p q
    → Remembers p g id
    → Remembers q g id
unfolding Remembers
Keeps-Remembers g id p q k h = ground (arith, k.same_generation, k.kept, h)

if-Remembers :
    {A : Type 0} (g : ℕ) (id : List ℕ) (b : Bool) (x y : ControlProcessor × A)
    → Remembers x.0 g id
    → Remembers y.0 g id
    → Remembers (if b then x else y).0 g id
if-Remembers g id true x y hx hy = hx
if-Remembers g id false x y hx hy = hy

advanced-Remembers :
    (g : ℕ) (id : List ℕ) (p : ControlProcessor) (m : ControlMessage)
    → Remembers p g id
    → Remembers (advanced p m) g id
unfolding Remembers advance_generation
advanced-Remembers g id p m h = ground (arith, h)

run-Remembers :
    (g : ℕ) (id : List ℕ) (p : ControlProcessor) (h : Handling)
    → Remembers p g id
    → Remembers (run p h).0 g id
unfolding handle_validated
run-Remembers g id p h r =
    if-Remembers g id (not (same_endpoint h.at (endpoint h.message.command)))
      (p, err endpoint_mismatch) _ r
      (if-Remembers g id (bad_request_id h.message.request_id) (p, err invalid_request_id)
        (apply_checked (check_message (advanced p h.message) h.message) (advanced p h.message)
          h.message h.peer h.scoped h.now h.validate)
        r
        (Keeps-Remembers g id (advanced p h.message) _
          (apply_checked-Keeps g id (advanced p h.message) h.message h.peer h.scoped h.now
            (check_message (advanced p h.message) h.message) h.validate)
          (advanced-Remembers g id p h.message r)))

run_all-Remembers :
    (g : ℕ) (id : List ℕ) (p : ControlProcessor) (hs : List Handling)
    → Remembers p g id
    → Remembers (run_all p hs) g id
unfolding run_all
run_all-Remembers g id p [] r = r
run_all-Remembers g id p (h ∷ hs) r =
    run_all-Remembers g id (run p h).0 hs (run-Remembers g id p h r)

module _ (p : ControlProcessor) (m : ControlMessage) (peer : AuthenticatedPeer) (scoped : Bool)
    (now : ℕ) where
  -- An applied message is remembered.
  answer-applied :
      (r : PeerLease × Option LeaseError)
      → is_applied (answer p r applied (m ∷ p.processed)).1 ≡ true
      → ((answer p r applied (m ∷ p.processed)).0.local.generation ≡ p.local.generation)
        × (knows m.generation m.request_id (answer p r applied (m ∷ p.processed)).0.processed
            ≡ true)
  unfolding knows
  answer-applied (l, some e) h = ground (arith, h)
  answer-applied (l, none) h = (refl, ground (arith, same_bytes_iff m.request_id m.request_id))

  answer_duplicate :
      (r : PeerLease × Option LeaseError) (kept : List ControlMessage)
      → is_applied (answer p r duplicate kept).1 ≡ false
  unfolding response
  answer_duplicate (l, some e) kept = refl
  answer_duplicate (l, none) kept = refl

  apply_command-applied :
      (c : ControlCommand)
      → is_applied (apply_command p m c peer scoped now).1 ≡ true
      → ((apply_command p m c peer scoped now).0.local.generation ≡ p.local.generation)
        × (knows m.generation m.request_id (apply_command p m c peer scoped now).0.processed ≡ true)
  unfolding apply_command
  apply_command-applied (ControlCommand.pair d) h =
      ground (arith, h, answer-applied (establish p.lease peer d m.generation scoped now))
  apply_command-applied c h = answer-applied (renew p.lease peer m.generation scoped now) h

  pub apply_unless_known-known :
      (k : Option ControlMessage) (v : ControlCommand → Option ControlError)
      → k ≢ none
      → is_applied (apply_unless_known k p m peer scoped now v).1 ≡ false
  apply_unless_known-known (some k) v h =
      ground (arith, answer_duplicate (renew p.lease peer m.generation scoped now) p.processed)
  apply_unless_known-known none v h = absurd (h refl)

  apply_unless_known-applied :
      (k : Option ControlMessage) (v : ControlCommand → Option ControlError)
      → is_applied (apply_unless_known k p m peer scoped now v).1 ≡ true
      → ((apply_unless_known k p m peer scoped now v).0.local.generation ≡ p.local.generation)
        × (knows m.generation m.request_id (apply_unless_known k p m peer scoped now v).0.processed
            ≡ true)
  apply_unless_known-applied (some k) v h =
      ground (arith, h, apply_unless_known-known (some k) v (λ e. cc))
  apply_unless_known-applied none v h = valid (v m.command) h
    where
      valid :
          (e : Option ControlError)
          → is_applied (apply_valid e p m peer scoped now).1 ≡ true
          → ((apply_valid e p m peer scoped now).0.local.generation ≡ p.local.generation)
            × (knows m.generation m.request_id (apply_valid e p m peer scoped now).0.processed
                ≡ true)
      valid (some e) h = ground (arith, h)
      valid none h = apply_command-applied m.command h

  check_message-generation : check_message p m ≡ none → m.generation ≡ p.local.generation
  unfolding check_message
  check_message-generation h = ground (arith, h)

  apply_checked-applied :
      (e : Option ControlError) (v : ControlCommand → Option ControlError)
      → check_message p m ≡ e
      → is_applied (apply_checked e p m peer scoped now v).1 ≡ true
      → Remembers (apply_checked e p m peer scoped now v).0 m.generation m.request_id
  unfolding Remembers
  apply_checked-applied (some e) v c h = ground (arith, h)
  apply_checked-applied none v c h =
      let r =
        apply_unless_known-applied (find_processed m.generation m.request_id p.processed) v h in
      inl (r.0 ∙ sym (check_message-generation c), r.1)

  apply_checked-known :
      (e : Option ControlError) (v : ControlCommand → Option ControlError)
      → check_message p m ≡ e
      → Remembers p m.generation m.request_id
      → is_applied (apply_checked e p m peer scoped now v).1 ≡ false
  unfolding Remembers
  apply_checked-known (some e) v c h = refl
  apply_checked-known none v c (inl h) =
      apply_unless_known-known (find_processed m.generation m.request_id p.processed) v
        (knows-find_processed m.generation m.request_id p.processed h.1)
  apply_checked-known none v c (inr h) = absurd (omega (arith, h, check_message-generation c))

run-applied :
    (p : ControlProcessor) (h : Handling)
    → is_applied (run p h).1 ≡ true
    → Remembers (run p h).0 h.message.generation h.message.request_id
unfolding handle_validated
run-applied p h a = ground (
  arith,
  a,
  apply_checked-applied (advanced p h.message) h.message h.peer h.scoped h.now
      (check_message (advanced p h.message) h.message) h.validate refl,
)

run-known :
    (p : ControlProcessor) (h : Handling)
    → Remembers p h.message.generation h.message.request_id
    → is_applied (run p h).1 ≡ false
unfolding handle_validated
run-known p h r = ground (
  arith,
  apply_checked-known (advanced p h.message) h.message h.peer h.scoped h.now
      (check_message (advanced p h.message) h.message) h.validate refl
      (advanced-Remembers h.message.generation h.message.request_id p h.message r),
)

-- A processor applies at most one message with a given generation and request id: after it has
-- applied one, it applies no other with that key, whatever messages it handles in between, with
-- whatever peers, times and checks, and however they move the generation.
pub applied_once :
    (p : ControlProcessor) (first second : Handling) (between : List Handling)
    → is_applied (run p first).1 ≡ true
    → second.message.generation ≡ first.message.generation
    → second.message.request_id ≡ first.message.request_id
    → is_applied (run (run_all (run p first).0 between) second).1 ≡ false
applied_once p first second between a same_generation same_id =
    run-known (run_all (run p first).0 between) second (
      subst (Remembers (run_all (run p first).0 between) second.message.generation) (sym same_id) (
        subst (λ (g : ℕ). Remembers (run_all (run p first).0 between) g first.message.request_id)
          (sym same_generation)
          (run_all-Remembers first.message.generation first.message.request_id (run p first).0
            between (run-applied p first a))))
