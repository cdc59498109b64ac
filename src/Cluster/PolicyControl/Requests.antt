-- ===== src/Cluster/PolicyControl/Requests.antt =====
-- src/cluster/production/policy.rs: stale epochs, and one body for one operation and phase.
use siderostat.Prelude.{
  ℕ, ◌≤◌, ◌<◌, max, Bool, true, false, not, ◌≡◌, ◌≢◌, ◌⊎◌, ◌↔◌, some, List, [], ◌∷◌, arith, find,
  find-insert, find-retain, ◌==◌, ==_iff,
}
use siderostat.Cluster.Policy.{OperationPolicy, automatic}
use siderostat.Cluster.PolicyControl.{
  PolicyControlRequest, PolicyControlState, ControlResult, ok, err, new, Hasher, Slot, slot,
  slot_eq, slot_beq_iff, request_hash, validate, advance_epoch, release, allow,
  automatic_promotion_verdict,
}

-- The calls that change the state of policy control.
pub data Call : Type 0 where
  validates : PolicyControlRequest → Bool → Call
  advances : ℕ → Call
  releases : ℕ → Call

abbrev pub is_ok : ControlResult → Bool
is_ok (ok v) = true
is_ok (err e) = false

module _ (hasher : Hasher) where
  unfoldable pub perform : PolicyControlState → Call → PolicyControlState
  perform s (validates r signed) = (validate hasher s r signed).0
  perform s (advances next) = advance_epoch s next
  perform s (releases id) = release s id

  unfoldable pub perform_all : PolicyControlState → List Call → PolicyControlState
  perform_all s [] = s
  perform_all s (c ∷ cs) = perform_all (perform s c) cs

  epoch-perform : (s : PolicyControlState) (c : Call) → s.epoch ≤ (perform s c).epoch
  unfolding perform validate advance_epoch release
  epoch-perform s (validates r signed) = ground arith
  epoch-perform s (advances next) = ground arith
  epoch-perform s (releases id) = ground arith

  epoch-perform_all : (s : PolicyControlState) (cs : List Call) → s.epoch ≤ (perform_all s cs).epoch
  unfolding perform_all
  epoch-perform_all s [] = omega arith
  epoch-perform_all s (c ∷ cs) =
      omega (arith, epoch-perform s c, epoch-perform_all (perform s c) cs)

  stale_refused :
      (s : PolicyControlState) (r : PolicyControlRequest) (signed : Bool)
      → r.policy_epoch < s.epoch
      → ((validate hasher s r signed).0 ≡ s) × (is_ok (validate hasher s r signed).1 ≡ false)
  unfolding validate
  stale_refused s r signed h = (ground arith, ground arith)

  -- Once an epoch was committed, a request of an earlier epoch changes nothing and is never
  -- accepted, whatever calls came in between; it does not matter who signed it.
  pub stale_forever :
      (s : PolicyControlState) (next : ℕ) (cs : List Call) (r : PolicyControlRequest)
      (signed : Bool)
      → r.policy_epoch < next
      → let t = perform_all (advance_epoch s next) cs in
        ((validate hasher t r signed).0 ≡ t) × (is_ok (validate hasher t r signed).1 ≡ false)
  unfolding advance_epoch
  stale_forever s next cs r signed h =
      stale_refused (perform_all (record s { epoch = max s.epoch next }) cs) r signed
        (omega (arith, epoch-perform_all (record s { epoch = max s.epoch next }) cs))

  -- No call of these releases the operation.
  abbrev pub NeverReleased : ℕ → List Call → Type 0
  NeverReleased id [] = Unit {0}
  NeverReleased id (c ∷ cs) = (c ≢ releases id) × NeverReleased id cs

  perform_registered :
      (s : PolicyControlState) (k : Slot) (hash : ℕ) (c : Call)
      → c ≢ releases k.0
      → find k s.idempotency ≡ some hash
      → find k (perform s c).idempotency ≡ some hash
  unfolding perform validate advance_epoch release
  perform_registered s k hash (validates r signed) n e =
      ground (
        arith,
        find-insert (slot r) k (request_hash hasher r) s.idempotency,
        slot_beq_iff (slot r) k,
      )
  perform_registered s k hash (advances next) n e = e
  perform_registered s k hash (releases id) n e =
      ground (arith, find-retain (λ (j : Slot). not (j.0 == id)) k s.idempotency, ==_iff k.0 id)

  perform_all_registered :
      (s : PolicyControlState) (k : Slot) (hash : ℕ) (cs : List Call)
      → NeverReleased k.0 cs
      → find k s.idempotency ≡ some hash
      → find k (perform_all s cs).idempotency ≡ some hash
  unfolding perform_all
  perform_all_registered s k hash [] n e = e
  perform_all_registered s k hash (c ∷ cs) n e =
      perform_all_registered (perform s c) k hash cs n.1 (perform_registered s k hash c n.0 e)

  accepted_registers :
      (s : PolicyControlState) (r : PolicyControlRequest) (signed : Bool)
      → is_ok (validate hasher s r signed).1 ≡ true
      → find (slot r) (validate hasher s r signed).0.idempotency ≡ some (request_hash hasher r)
  unfolding validate
  accepted_registers s r signed e = ground (
    arith,
    find-insert (slot r) (slot r) (request_hash hasher r) s.idempotency,
    slot_beq_iff (slot r) (slot r),
  )

  registered_answers :
      (s : PolicyControlState) (q : PolicyControlRequest) (hash : ℕ) (signed : Bool)
      → find (slot q) s.idempotency ≡ some hash
      → ((validate hasher s q signed).1 ≢ ok new)
        × ((request_hash hasher q ≡ hash) ⊎ (is_ok (validate hasher s q signed).1 ≡ false))
  unfolding validate
  registered_answers s q hash signed e = (λ h. ground arith, ground arith)

  -- The verdict `new`, which lets the effect happen, is given at most once for an operation and a
  -- phase: after a request was accepted, every later request for the same operation and phase,
  -- whatever its body and whatever calls came in between, unless one releases the operation, is not
  -- new, and is refused unless its body has the same hash.
  pub new_once :
      (s : PolicyControlState) (r q : PolicyControlRequest) (signed again : Bool) (cs : List Call)
      → is_ok (validate hasher s r signed).1 ≡ true
      → NeverReleased r.operation_id cs
      → slot q ≡ slot r
      → let t = perform_all (validate hasher s r signed).0 cs in
        ((validate hasher t q again).1 ≢ ok new)
        × ((request_hash hasher q ≡ request_hash hasher r)
            ⊎ (is_ok (validate hasher t q again).1 ≡ false))
  new_once s r q signed again cs accepted kept same =
      let t = perform_all (validate hasher s r signed).0 cs in
      registered_answers t q (request_hash hasher r) again (
        rw same (
          perform_all_registered (validate hasher s r signed).0 (slot r) (request_hash hasher r) cs
            kept (accepted_registers s r signed accepted)))

-- A promotion is allowed exactly under the automatic policy, with promotion configured, no latch for
-- a deployment mismatch, the peer present, and one and the same policy epoch on both nodes.
pub automatic_promotion_iff :
    (policy : OperationPolicy) (auto_promote latch peer_present : Bool) (local_epoch peer_epoch : ℕ)
    → (automatic_promotion_verdict policy auto_promote latch peer_present local_epoch peer_epoch
        ≡ allow)
      ↔ ((policy ≡ automatic)
          × (auto_promote ≡ true)
          × (latch ≡ false)
          × (peer_present ≡ true)
          × (local_epoch ≡ peer_epoch))
unfolding automatic_promotion_verdict
automatic_promotion_iff policy auto_promote latch peer_present local_epoch peer_epoch =
    (λ h. ground arith, λ h. ground arith)
