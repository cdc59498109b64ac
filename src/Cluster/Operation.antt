-- ===== src/Cluster/Operation.antt =====
-- src/cluster/operation.rs: the lease that one lifecycle operation holds at a time, and the
-- registry of request bodies.
pub mod Exclusion
pub mod Idempotency
pub mod Slips
use siderostat.Prelude.{
  ℕ, Bool, true, false, ◌&&◌, ◌≡◌, ◌↔◌, Option, none, some, List, [], ◌∷◌, if◌then◌else◌, ◌==◌, Eq,
  find, insert, remove, nat_eq, arith,
}

pub data OperationKind : Type 0 where
  promotion demotion restart recovery activation policy : OperationKind

-- A UUID, only compared.
abbrev pub OperationId : Type 0
OperationId = ℕ

abbrev pub kind_beq : OperationKind → OperationKind → Bool
kind_beq promotion promotion = true
kind_beq demotion demotion = true
kind_beq restart restart = true
kind_beq recovery recovery = true
kind_beq activation activation = true
kind_beq policy policy = true
kind_beq _ _ = false

pub kind_beq_iff : (a b : OperationKind) → (kind_beq a b ≡ true) ↔ (a ≡ b)
kind_beq_iff a b = (λ h. ground arith, λ h. ground arith)

instance abbrev pub kind_eq : Eq OperationKind
kind_eq = record { beq = kind_beq; beq_iff = kind_beq_iff }

pub data IdempotencyOutcome : Type 0 where
  new existing conflict : IdempotencyOutcome

pub data OperationLeaseError : Type 0 where
  busy : OperationKind → OperationLeaseError
  promotion_blocked : OperationLeaseError

-- The two maps and the flag, each behind a lock of its own.
pub record OperationLease : Type 0 where
  pub owners : List (OperationKind × OperationId)
  pub idempotency : List (OperationId × ℕ)  -- id to the hash of the body
  pub promotion_blocked : Bool

unfoldable pub new_lease : OperationLease
new_lease = record { owners = []; idempotency = []; promotion_blocked = false }

-- The outcome for an id, by the hash that is registered for it.
abbrev outcome : Option ℕ → ℕ → IdempotencyOutcome
outcome none hash = new
outcome (some h) hash = if h == hash then existing else conflict

abbrev registered : Option ℕ → OperationId → ℕ → List (OperationId × ℕ) → List (OperationId × ℕ)
registered none id hash m = insert id hash m
registered (some h) id hash m = m

unfoldable pub register_idempotent :
    OperationLease → OperationId → ℕ → OperationLease × IdempotencyOutcome
register_idempotent l id hash = (
  record l { idempotency = registered (find id l.idempotency) id hash l.idempotency },
  outcome (find id l.idempotency) hash,
)

unfoldable pub release_idempotent : OperationLease → OperationId → OperationLease
release_idempotent l id = record l { idempotency = remove id l.idempotency }

abbrev is_promotion : OperationKind → Bool
is_promotion promotion = true
is_promotion _ = false

-- `owners.keys().next()`.
abbrev pub first_kind : List (OperationKind × OperationId) → Option OperationKind
first_kind [] = none
first_kind ((k, i) ∷ m) = some k

-- `try_acquire` reads the flag before it locks the owners: other calls may come between, so the
-- two moments are two functions.
unfoldable pub check_promotion : OperationLease → OperationKind → Option OperationLeaseError
check_promotion l kind =
    if is_promotion kind && l.promotion_blocked then some promotion_blocked else none

abbrev taken :
    Option OperationKind
    → OperationLease
    → OperationKind
    → OperationId
    → OperationLease × Option OperationLeaseError
taken none l kind id = (record l { owners = insert kind id l.owners }, none)
taken (some active) l kind id = (l, some (busy active))

unfoldable pub take_owner :
    OperationLease → OperationKind → OperationId → OperationLease × Option OperationLeaseError
take_owner l kind id = taken (first_kind l.owners) l kind id

unfoldable pub try_acquire :
    OperationLease → OperationKind → OperationId → OperationLease × Option OperationLeaseError
unfolding check_promotion take_owner
try_acquire l kind id = elim (check_promotion l kind) [
  | some e ↦ (l, some e)
  | none ↦ take_owner l kind id
]

abbrev is_owner : Option OperationId → OperationId → Bool
is_owner none id = false
is_owner (some i) id = i == id

unfoldable pub release : OperationLease → OperationKind → OperationId → OperationLease
release l kind id =
    if is_owner (find kind l.owners) id then record l { owners = remove kind l.owners } else l

unfoldable pub owner : OperationLease → OperationKind → Option OperationId
owner l kind = find kind l.owners

unfoldable pub block_promotion : OperationLease → OperationLease
block_promotion l = record l { promotion_blocked = true }

unfoldable pub unblock_promotion : OperationLease → OperationLease
unblock_promotion l = record l { promotion_blocked = false }
