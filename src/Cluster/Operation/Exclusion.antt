-- ===== src/Cluster/Operation/Exclusion.antt =====
-- src/cluster/operation.rs: at most one operation holds the lease, under every interleaving.
use siderostat.Prelude.{
  ℕ, ◌≡◌, ◌≢◌, refl, ◌⊎◌, inl, inr, ◌↔◌, none, some, List, [], ◌∷◌, arith, find, insert, remove,
  retain, nat_eq,
}
use siderostat.Cluster.Operation.{
  OperationKind, OperationId, OperationLease, OperationLeaseError, new_lease, kind_eq, kind_beq_iff,
  promotion, take_owner, try_acquire, release, owner, block_promotion, unblock_promotion,
  register_idempotent, release_idempotent, busy,
}

-- The moments of the calls, in the order in which they take effect. `takes` is the part of
-- `try_acquire` under the lock of the owners, with or without the check before it.
pub data Moment : Type 0 where
  takes releases : OperationKind → OperationId → Moment
  blocks unblocks : Moment
  registers : OperationId → ℕ → Moment
  forgets : OperationId → Moment

unfoldable pub perform : OperationLease → Moment → OperationLease
perform l (takes k i) = (take_owner l k i).0
perform l (releases k i) = release l k i
perform l blocks = block_promotion l
perform l unblocks = unblock_promotion l
perform l (registers i h) = (register_idempotent l i h).0
perform l (forgets i) = release_idempotent l i

unfoldable pub perform_all : OperationLease → List Moment → OperationLease
perform_all l [] = l
perform_all l (m ∷ ms) = perform_all (perform l m) ms

-- Nobody holds the lease, or one operation does.
abbrev pub IsExclusive : OperationLease → Type 0
IsExclusive l =
    (l.owners ≡ []) ⊎ ((k : OperationKind) × (i : OperationId) × (l.owners ≡ (k, i) ∷ []))

pub perform-IsExclusive :
    (l : OperationLease) (m : Moment) → IsExclusive l → IsExclusive (perform l m)
unfolding perform take_owner release block_promotion unblock_promotion register_idempotent
    release_idempotent insert remove retain find
perform-IsExclusive l (takes k i) (inl e) = inr (k, i, ground arith)
perform-IsExclusive l (takes k i) (inr (j, h, e)) = inr (j, h, ground arith)
perform-IsExclusive l (releases k i) (inl e) = inl (ground arith)
perform-IsExclusive l (releases k i) (inr (j, h, e)) = ground (arith, kind_beq_iff j k)
perform-IsExclusive l blocks x = x
perform-IsExclusive l unblocks x = x
perform-IsExclusive l (registers i h) x = x
perform-IsExclusive l (forgets i) x = x

perform_all-IsExclusive :
    (l : OperationLease) (ms : List Moment) → IsExclusive l → IsExclusive (perform_all l ms)
unfolding perform_all
perform_all-IsExclusive l [] x = x
perform_all-IsExclusive l (m ∷ ms) x =
    perform_all-IsExclusive (perform l m) ms (perform-IsExclusive l m x)

pub new_lease-IsExclusive : IsExclusive new_lease
unfolding new_lease
new_lease-IsExclusive = inl refl

single_owner :
    (l : OperationLease) (k j : OperationKind) (i h : OperationId)
    → IsExclusive l
    → owner l k ≡ some i
    → owner l j ≡ some h
    → (k ≡ j) × (i ≡ h)
unfolding owner find
single_owner l k j i h (inl e) p q = ground arith
single_owner l k j i h (inr (a, b, e)) p q = ground (arith, kind_beq_iff a k, kind_beq_iff a j)

-- After any interleaving of the calls of a new lease, two owners are one operation of one kind.
pub owner_unique :
    (ms : List Moment) (k j : OperationKind) (i h : OperationId)
    → owner (perform_all new_lease ms) k ≡ some i
    → owner (perform_all new_lease ms) j ≡ some h
    → (k ≡ j) × (i ≡ h)
owner_unique ms k j i h =
    single_owner (perform_all new_lease ms) k j i h
      (perform_all-IsExclusive new_lease ms new_lease-IsExclusive)

-- No call of these is the owner's own release.
abbrev pub NeverReleased : OperationKind → OperationId → List Moment → Type 0
NeverReleased k i [] = Unit {0}
NeverReleased k i (m ∷ ms) = (m ≢ releases k i) × NeverReleased k i ms

perform_held :
    (l : OperationLease) (k : OperationKind) (i : OperationId) (m : Moment)
    → m ≢ releases k i
    → l.owners ≡ (k, i) ∷ []
    → (perform l m).owners ≡ (k, i) ∷ []
unfolding perform take_owner release block_promotion unblock_promotion register_idempotent
    release_idempotent insert remove retain find
perform_held l k i (takes j h) n e = ground arith
perform_held l k i (releases j h) n e = ground (arith, kind_beq_iff k j)
perform_held l k i blocks n e = e
perform_held l k i unblocks n e = e
perform_held l k i (registers j h) n e = e
perform_held l k i (forgets j) n e = e

perform_all_held :
    (l : OperationLease) (k : OperationKind) (i : OperationId) (ms : List Moment)
    → NeverReleased k i ms
    → l.owners ≡ (k, i) ∷ []
    → (perform_all l ms).owners ≡ (k, i) ∷ []
unfolding perform_all
perform_all_held l k i [] n e = e
perform_all_held l k i (m ∷ ms) n e =
    perform_all_held (perform l m) k i ms n.1 (perform_held l k i m n.0 e)

take_owner_free :
    (l : OperationLease) (k : OperationKind) (i : OperationId)
    → (try_acquire l k i).1 ≡ none
    → (try_acquire l k i).0.owners ≡ (k, i) ∷ []
unfolding try_acquire insert
take_owner_free l k i free = ground arith

held_answers :
    (l : OperationLease) (k j : OperationKind) (i h : OperationId)
    → l.owners ≡ (k, i) ∷ []
    → (owner l k ≡ some i) × ((take_owner l j h).1 ≡ some (busy k)) × ((try_acquire l j h).1 ≢ none)
unfolding take_owner try_acquire owner find
held_answers l k j i h e = ground (arith, kind_beq_iff k k)

-- An operation that acquired the lease keeps it until it releases the lease itself, whatever calls
-- come meanwhile: at every later moment no attempt succeeds, and one that is not refused for the
-- promotion flag is told that the owner's kind is busy.
pub acquire_excludes :
    (later : List Moment) (k j : OperationKind) (i h : OperationId) (l : OperationLease)
    → (try_acquire l k i).1 ≡ none
    → NeverReleased k i later
    → let n = perform_all (try_acquire l k i).0 later in
      (owner n k ≡ some i) × ((take_owner n j h).1 ≡ some (busy k)) × ((try_acquire n j h).1 ≢ none)
acquire_excludes later k j i h l free kept =
    held_answers (perform_all (try_acquire l k i).0 later) k j i h
      (perform_all_held (try_acquire l k i).0 k i later kept (take_owner_free l k i free))

-- With the flag set, an attempt at a promotion is refused and changes nothing, and an attempt of
-- any other kind succeeds exactly when nobody holds the lease.
pub try_acquire_blocked :
    (l : OperationLease) (k : OperationKind) (i : OperationId)
    → let n = try_acquire (block_promotion l) k i in
      ((k ≡ promotion) × (n ≡ (block_promotion l, some OperationLeaseError.promotion_blocked)))
      ⊎ ((k ≢ promotion) × ((n.1 ≡ none) ↔ (l.owners ≡ [])))
unfolding try_acquire block_promotion
try_acquire_blocked l promotion i = inl (refl, refl)
try_acquire_blocked l k i = inr (λ e. cc, (λ h. ground arith, λ h. ground arith))
