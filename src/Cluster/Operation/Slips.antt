-- ===== src/Cluster/Operation/Slips.antt =====
-- src/cluster/operation.rs: an attempt at the lease as its two moments, and what the flag against
-- promotions holds back.
use siderostat.Prelude.{
  ℕ, Bool, true, false, ◌&&◌, ◌||◌, ◌≡◌, ◌≢◌, refl, sym, ◌∙◌, ◌⊎◌, inl, inr, ◌↔◌, Option, none,
  some, List, [], ◌∷◌, if◌then◌else◌, ◌==◌, Bool-cases, arith, find, insert, remove, retain, nat_eq,
}
use siderostat.Cluster.Operation.{
  OperationKind, OperationId, OperationLease, OperationLeaseError, kind_eq, kind_beq, kind_beq_iff,
  promotion, check_promotion, take_owner, release, owner, block_promotion, unblock_promotion,
  register_idempotent, release_idempotent,
}
use siderostat.Cluster.Operation.Exclusion.{
  takes, releases, perform, IsExclusive, perform-IsExclusive,
}

-- The lease, and the attempts that have passed the check of the flag but have not yet locked the
-- owners.
pub record Attempts : Type 0 where
  pub lease : OperationLease
  pub passed : List (OperationKind × OperationId)

pub data Event : Type 0 where
  checks enters : OperationKind → OperationId → Event
  lets_go : OperationKind → OperationId → Event
  sets_flag clears_flag : Event
  notes : OperationId → ℕ → Event
  drops : OperationId → Event

abbrev is_attempt : OperationKind → OperationId → OperationKind × OperationId → Bool
is_attempt k i (j, h) = kind_beq j k && h == i

abbrev pub has_passed : OperationKind → OperationId → List (OperationKind × OperationId) → Bool
has_passed k i [] = false
has_passed k i (a ∷ rest) = is_attempt k i a || has_passed k i rest

abbrev without :
    OperationKind
    → OperationId
    → List (OperationKind × OperationId)
    → List (OperationKind × OperationId)
without k i [] = []
without k i (a ∷ rest) = let kept = without k i rest in if is_attempt k i a then rest else a ∷ kept

abbrev after_check :
    Option OperationLeaseError
    → OperationKind × OperationId
    → List (OperationKind × OperationId)
    → List (OperationKind × OperationId)
after_check none a passed = a ∷ passed
after_check (some e) a passed = passed

-- An attempt locks the owners only when it has passed the check.
unfoldable pub step : Attempts → Event → Attempts
step s (checks k i) = record s { passed = after_check (check_promotion s.lease k) (k, i) s.passed }
step s (enters k i) =
    if has_passed k i s.passed
    then record { lease = (take_owner s.lease k i).0; passed = without k i s.passed }
    else s
step s (lets_go k i) = record s { lease = release s.lease k i }
step s sets_flag = record s { lease = block_promotion s.lease }
step s clears_flag = record s { lease = unblock_promotion s.lease }
step s (notes i hash) = record s { lease = (register_idempotent s.lease i hash).0 }
step s (drops i) = record s { lease = release_idempotent s.lease i }

unfoldable pub steps : Attempts → List Event → Attempts
steps s [] = s
steps s (e ∷ es) = steps (step s e) es

-- The flag is not cleared.
abbrev pub KeepFlag : List Event → Type 0
KeepFlag [] = Unit {0}
KeepFlag (e ∷ es) = (e ≢ clears_flag) × KeepFlag es

-- The flag is set, and each promotion that waits or holds the lease is among `held`.
record IsHeldBack (held : List (OperationKind × OperationId)) (s : Attempts) : Type 0 where
  exclusive : IsExclusive s.lease
  flag : s.lease.promotion_blocked ≡ true
  owned : (i : OperationId) → owner s.lease promotion ≡ some i → has_passed promotion i held ≡ true
  waiting :
      (i : OperationId)
      → has_passed promotion i s.passed ≡ true
      → has_passed promotion i held ≡ true

has_passed-without :
    (k : OperationKind) (i : OperationId) (j : OperationKind) (h : OperationId)
    (l : List (OperationKind × OperationId))
    → has_passed k i (without j h l) ≡ true
    → has_passed k i l ≡ true
has_passed-without k i j h [] e = e
has_passed-without k i j h ((a, b) ∷ l) e = ground (arith, e, has_passed-without k i j h l)

-- Who holds the lease after an entry held it before, or is the one that entered.
owner-entered :
    (l : OperationLease) (k : OperationKind) (j i : OperationId)
    → IsExclusive l
    → owner (take_owner l k j).0 promotion ≡ some i
    → (owner l promotion ≡ some i) ⊎ ((k ≡ promotion) × (j ≡ i))
unfolding owner take_owner find insert
owner-entered l k j i (inl x) e =
    inr (ground (arith, x, e, kind_beq_iff k promotion), ground (arith, x, e))
owner-entered l k j i (inr (a, b, x)) e = inl (ground (arith, x, e))

owner-released :
    (l : OperationLease) (k : OperationKind) (j i : OperationId)
    → IsExclusive l
    → owner (release l k j) promotion ≡ some i
    → owner l promotion ≡ some i
unfolding owner release find remove retain
owner-released l k j i (inl x) e = ground (arith, x, e)
owner-released l k j i (inr (a, b, x)) e = ground (arith, x, e)

has_passed-checked :
    (l : OperationLease) (k : OperationKind) (j i : OperationId)
    (waits : List (OperationKind × OperationId))
    → l.promotion_blocked ≡ true
    → has_passed promotion i (after_check (check_promotion l k) (k, j) waits) ≡ true
    → has_passed promotion i waits ≡ true
unfolding check_promotion
has_passed-checked l promotion j i waits f e = ground (arith, f, e)
has_passed-checked l k j i waits f e = e

keeps_flag :
    (l : OperationLease) (k : OperationKind) (j : OperationId)
    → ((take_owner l k j).0.promotion_blocked ≡ l.promotion_blocked)
      × ((release l k j).promotion_blocked ≡ l.promotion_blocked)
unfolding take_owner release
keeps_flag l k j = (ground arith, ground arith)

entered-IsHeldBack :
    (held : List (OperationKind × OperationId)) (s : Attempts) (k : OperationKind) (j : OperationId)
    → has_passed k j s.passed ≡ true
    → IsHeldBack held s
    → IsHeldBack held (record { lease = (take_owner s.lease k j).0; passed = without k j s.passed })
unfolding perform
entered-IsHeldBack held s k j p h = record {
  exclusive = perform-IsExclusive s.lease (takes k j) h.exclusive;
  flag = (keeps_flag s.lease k j).0 ∙ h.flag;
  owned = λ i e. elim (owner-entered s.lease k j i h.exclusive e) [
    | inl o ↦ h.owned i o
    | inr (same_kind, same) ↦ h.waiting i (rw (sym same_kind, sym same) p)
  ];
  waiting = λ i w. h.waiting i (has_passed-without promotion i k j s.passed w);
}

step-IsHeldBack :
    (held : List (OperationKind × OperationId)) (s : Attempts) (e : Event)
    → e ≢ clears_flag
    → IsHeldBack held s
    → IsHeldBack held (step s e)
unfolding step perform release block_promotion owner register_idempotent release_idempotent
step-IsHeldBack held s (checks k j) n h = record {
  exclusive = h.exclusive;
  flag = h.flag;
  owned = h.owned;
  waiting = λ i w. h.waiting i (has_passed-checked s.lease k j i s.passed h.flag w);
}
step-IsHeldBack held s (enters k j) n h = elim (Bool-cases (has_passed k j s.passed)) [
  | inl p ↦ rw p (entered-IsHeldBack held s k j p h)
  | inr p ↦ rw p h
]
step-IsHeldBack held s (lets_go k j) n h = record {
  exclusive = perform-IsExclusive s.lease (releases k j) h.exclusive;
  flag = (keeps_flag s.lease k j).1 ∙ h.flag;
  owned = λ i e. h.owned i (owner-released s.lease k j i h.exclusive e);
  waiting = h.waiting;
}
step-IsHeldBack held s sets_flag n h = record {
  exclusive = h.exclusive;
  flag = refl;
  owned = h.owned;
  waiting = h.waiting;
}
step-IsHeldBack held s clears_flag n h = absurd (n refl)
step-IsHeldBack held s (notes j hash) n h = record {
  exclusive = h.exclusive;
  flag = h.flag;
  owned = h.owned;
  waiting = h.waiting;
}
step-IsHeldBack held s (drops j) n h = record {
  exclusive = h.exclusive;
  flag = h.flag;
  owned = h.owned;
  waiting = h.waiting;
}

steps-IsHeldBack :
    (held : List (OperationKind × OperationId)) (s : Attempts) (es : List Event)
    → KeepFlag es
    → IsHeldBack held s
    → IsHeldBack held (steps s es)
unfolding steps
steps-IsHeldBack held s [] k h = h
steps-IsHeldBack held s (e ∷ es) k h =
    steps-IsHeldBack held (step s e) es k.1 (step-IsHeldBack held s e k.0 h)

flagged-IsHeldBack :
    (s : Attempts)
    → IsExclusive s.lease
    → owner s.lease promotion ≡ none
    → IsHeldBack s.passed (step s sets_flag)
unfolding step block_promotion owner
flagged-IsHeldBack s x o = record {
  exclusive = x;
  flag = refl;
  owned = λ i e. ground (arith, sym o ∙ e);
  waiting = λ i w. w;
}

-- The events by which a promotion that has passed the check gets the lease: its holder lets it go.
abbrev slip : OperationId → List (OperationKind × OperationId) → List Event
slip i [] = enters promotion i ∷ []
slip i ((k, h) ∷ owners) = lets_go k h ∷ enters promotion i ∷ []

slip-KeepFlag :
    (i : OperationId) (owners : List (OperationKind × OperationId)) → KeepFlag (slip i owners)
slip-KeepFlag i [] = ((λ e. cc), tt)
slip-KeepFlag i ((k, h) ∷ owners) = ((λ e. cc), ((λ e. cc), tt))

slips :
    (s : Attempts) (i : OperationId)
    → IsExclusive s.lease
    → has_passed promotion i s.passed ≡ true
    → owner (steps (step s sets_flag) (slip i s.lease.owners)).lease promotion ≡ some i
unfolding steps step owner take_owner release block_promotion find insert remove retain
slips s i (inl x) p = ground (arith, x, p)
slips s i (inr (k, h, x)) p = ground (arith, x, p, kind_beq_iff k k)

-- What the flag against promotions holds back, when at the moment at which it is set the lease is free
-- or held by one operation that is no promotion, and whatever attempts are under way then: an attempt reads the flag before it locks
-- the owners, and other calls come between. From then on, in some order of calls that does not clear
-- the flag, a promotion comes to hold the lease if and only if it had passed its check before. So no
-- promotion that is checked later slips in, whatever is called, and each of those that were checked
-- before may.
pub promotion_slips :
    (s : Attempts) (i : OperationId)
    → IsExclusive s.lease
    → owner s.lease promotion ≡ none
    → ((es : List Event) × KeepFlag es
        × (owner (steps (step s sets_flag) es).lease promotion ≡ some i))
      ↔ (has_passed promotion i s.passed ≡ true)
promotion_slips s i x o = (
  λ (es, k, e).
      (steps-IsHeldBack s.passed (step s sets_flag) es k (flagged-IsHeldBack s x o)).owned i e,
  λ p. (slip i s.lease.owners, slip-KeepFlag i s.lease.owners, slips s i x p),
)
