-- ===== src/Cluster/PolicyControl.antt =====
-- src/cluster/production/policy.rs: signed requests that change the operation policy, the epochs
-- that make old ones stale, the coordination of a cluster-wide change, and the gate of promotion.
pub mod Requests
pub mod Force
use siderostat.Prelude.{
  ℕ, max, Bool, true, false, not, ◌&&◌, ◌≡◌, ◌↔◌, Option, none, some, List, [], if◌then◌else◌, ◌==◌,
  ltb, Eq, find, insert, retain, nat_eq, pair_beq, pair_beq_iff, arith,
}
use siderostat.Cluster.Policy.{OperationPolicy, automatic, forced_standalone}

pub data PolicyControlPhase : Type 0 where
  prepare commit abort : PolicyControlPhase

-- The id is a UUID, only compared.
pub record PolicyControlRequest : Type 0 where
  pub protocol_version : ℕ  -- u16
  pub policy_epoch : ℕ  -- u64
  pub operation_id : ℕ
  pub phase : PolicyControlPhase
  pub desired : OperationPolicy

pub data PolicyControlError : Type 0 where
  unsupported_peer unauthenticated idempotency_conflict : PolicyControlError
  stale_epoch : ℕ → ℕ → PolicyControlError  -- expected, received

unfoldable pub http_status : PolicyControlError → ℕ
http_status unsupported_peer = 403
http_status unauthenticated = 403
http_status (stale_epoch e r) = 409
http_status idempotency_conflict = 409

pub data PolicyControlVerdict : Type 0 where
  new duplicate : PolicyControlVerdict

pub data ControlResult : Type 0 where
  ok : PolicyControlVerdict → ControlResult
  err : PolicyControlError → ControlResult

abbrev pub protocol_version : ℕ
protocol_version = 1

abbrev pub phase_beq : PolicyControlPhase → PolicyControlPhase → Bool
phase_beq prepare prepare = true
phase_beq commit commit = true
phase_beq abort abort = true
phase_beq _ _ = false

pub phase_beq_iff : (a b : PolicyControlPhase) → (phase_beq a b ≡ true) ↔ (a ≡ b)
phase_beq_iff a b = (λ h. ground arith, λ h. ground arith)

instance abbrev pub phase_eq : Eq PolicyControlPhase
phase_eq = record { beq = phase_beq; beq_iff = phase_beq_iff }

-- The keys of the registry.
abbrev pub Slot : Type 0
Slot = ℕ × PolicyControlPhase

pub slot_beq_iff : (a b : Slot) → (pair_beq nat_eq phase_eq a b ≡ true) ↔ (a ≡ b)
slot_beq_iff = pair_beq_iff nat_eq phase_eq

instance abbrev pub slot_eq : Eq Slot
slot_eq = record { beq = pair_beq nat_eq phase_eq; beq_iff = slot_beq_iff }

pub record PolicyControlState : Type 0 where
  pub epoch : ℕ
  pub idempotency : List (Slot × ℕ)

unfoldable pub new_state : PolicyControlState
new_state = record { epoch = 0; idempotency = [] }

unfoldable pub advance_epoch : PolicyControlState → ℕ → PolicyControlState
advance_epoch s next = record s { epoch = max s.epoch next }

abbrev pub slot : PolicyControlRequest → Slot
slot r = (r.operation_id, r.phase)

-- The answer for a slot, by the hash that is registered for it.
abbrev answer : PolicyControlState → Slot → ℕ → Option ℕ → PolicyControlState × ControlResult
answer s k hash none = (record s { idempotency = insert k hash s.idempotency }, ok new)
answer s k hash (some h) = (s, if h == hash then ok duplicate else err idempotency_conflict)

-- The standard library's hasher, whose function is not fixed: it reads these three fields.
abbrev pub Hasher : Type 0
Hasher = ℕ → PolicyControlPhase → OperationPolicy → ℕ

module _ (hasher : Hasher) where
  -- `canonical_request_hash`.
  abbrev pub request_hash : PolicyControlRequest → ℕ
  request_hash r = hasher r.policy_epoch r.phase r.desired

  -- `signature_ok` is the verdict of the authenticator.
  unfoldable pub validate :
      PolicyControlState → PolicyControlRequest → Bool → PolicyControlState × ControlResult
  validate s r signature_ok =
      if not (r.protocol_version == protocol_version)
      then (s, err unsupported_peer)
      else if not signature_ok
      then (s, err unauthenticated)
      else if ltb r.policy_epoch s.epoch
      then (s, err (stale_epoch s.epoch r.policy_epoch))
      else answer s (slot r) (request_hash r) (find (slot r) s.idempotency)

-- The registry without the slots of an operation.
unfoldable pub release : PolicyControlState → ℕ → PolicyControlState
release s id = record s { idempotency = retain (λ k. not (k.0 == id)) s.idempotency }

pub data AutomaticPromotionVerdict : Type 0 where
  allow auto_promote_disabled peer_absent epoch_mismatch : AutomaticPromotionVerdict
  deployment_mismatch_latch forced_standalone_latch : AutomaticPromotionVerdict

abbrev is_forced : OperationPolicy → Bool
is_forced forced_standalone = true
is_forced automatic = false

unfoldable pub automatic_promotion_verdict :
    OperationPolicy → Bool → Bool → Bool → ℕ → ℕ → AutomaticPromotionVerdict
automatic_promotion_verdict policy auto_promote latch peer_present local_epoch peer_epoch =
    if is_forced policy
    then forced_standalone_latch
    else if not auto_promote
    then auto_promote_disabled
    else if latch
    then deployment_mismatch_latch
    else if not peer_present
    then peer_absent
    else if not (local_epoch == peer_epoch)
    then epoch_mismatch
    else allow
