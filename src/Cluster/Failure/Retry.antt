-- ===== src/Cluster/Failure/Retry.antt =====
-- src/cluster/state.rs: how long a failed promotion is retried.
use mathlib.Core.Logic.{if_pos}
use siderostat.Prelude.{
  ℕ, suc, ◌+◌, ◌≤◌, ◌<◌, true, false, ◌≡◌, refl, ◌⊎◌, inl, inr, none, some, List, [], ◌∷◌, arith,
  leb, u32_max, length, ◌↔◌, saturating_add, u64_max,
}
use siderostat.Cluster.Failure.{
  ClusterFailure, PromotionFailureTracker, PromotionRetryDecision, TrackerResult, ok, err,
  failure_action, promotion_backoff, record_failure, can_retry, reset, same_failure, clear_status,
  as_millis,
}

pub same_failure_self : (f : ClusterFailure) → same_failure (some f) f ≡ true
unfolding same_failure
same_failure_self f = rw (if_pos _ refl)

pub same_failure-none : (f : ClusterFailure) → same_failure none f ≡ false
unfolding same_failure
same_failure-none f = refl

-- The tracker after a call, which a refusal leaves as it was.
abbrev pub tracker_after :
    PromotionFailureTracker
    → TrackerResult (PromotionFailureTracker × PromotionRetryDecision)
    → PromotionFailureTracker
tracker_after t (ok (u, d)) = u
tracker_after t (err e) = t

-- The same failure, at each of these times.
unfoldable pub record_each :
    PromotionFailureTracker → ClusterFailure → List ℕ → PromotionFailureTracker
record_each t f [] = t
record_each t f (now ∷ nows) = record_each (tracker_after t (record_failure t f now)) f nows

-- A tracker in which `f` has failed `count` times in a row.
abbrev FailedTimes : ClusterFailure → ℕ → PromotionFailureTracker → Type 0
FailedTimes f count t =
    (t.status.failure ≡ some f)
    × (t.status.consecutive ≡ count)
    × (t.status.manual ≡ leb t.maximum count)

record_failure-FailedTimes :
    (t : PromotionFailureTracker) (f : ClusterFailure) (count now : ℕ)
    → failure_action f ≡ promotion_backoff
    → count < u32_max
    → (t.status.failure ≡ some f) × (t.status.consecutive ≡ count)
      ⊎ (t.status.failure ≡ none) × (count ≡ 0)
    → FailedTimes f (suc count) (tracker_after t (record_failure t f now))
      × ((tracker_after t (record_failure t f now)).maximum ≡ t.maximum)
unfolding record_failure
record_failure-FailedTimes t f count now eligible room (inl (failed, counted)) =
    ground (arith, same_failure_self f)
record_failure-FailedTimes t f count now eligible room (inr (clear, counted)) =
    ground (arith, same_failure-none f)

record_each-FailedTimes :
    (t : PromotionFailureTracker) (f : ClusterFailure) (count : ℕ) (nows : List ℕ)
    → failure_action f ≡ promotion_backoff
    → count + length nows ≤ u32_max
    → FailedTimes f count t
    → FailedTimes f (count + length nows) (record_each t f nows)
      × ((record_each t f nows).maximum ≡ t.maximum)
unfolding record_each
record_each-FailedTimes t f count [] eligible room failed = ground arith
record_each-FailedTimes t f count (now ∷ nows) eligible room failed =
    let (next, same) =
      record_failure-FailedTimes t f count now eligible (omega arith) (inl (failed.0, failed.1)) in
    let (all, same') =
      record_each-FailedTimes (tracker_after t (record_failure t f now)) f (suc count) nows eligible
        (omega arith) next in
    ground arith

-- After a reset, and as many failures of one kind as there are times (each of a kind that is
-- retried, and fewer than 2^32), the tracker asks for a human exactly when the failures reached the
-- positive maximum.
pub record_each-manual :
    (t : PromotionFailureTracker) (f : ClusterFailure) (nows : List ℕ)
    → failure_action f ≡ promotion_backoff
    → 0 < t.maximum
    → length nows ≤ u32_max
    → (record_each (reset t) f nows).status.manual ≡ leb t.maximum (length nows)
unfolding record_each reset clear_status
record_each-manual t f [] eligible positive room = ground arith
record_each-manual t f (now ∷ nows) eligible positive room =
    let (next, same) =
      record_failure-FailedTimes (reset t) f 0 now eligible (omega arith) (inr (refl, refl)) in
    let (all, same') =
      record_each-FailedTimes (tracker_after (reset t) (record_failure (reset t) f now)) f 1 nows
        eligible (omega arith) next in
    ground arith

-- After a recorded failure a promotion may be tried exactly when the failures in a row are below the
-- maximum and the pause since the failure, cut to 64 bits, is over.
pub can_retry-record_failure :
    (t u : PromotionFailureTracker) (d : PromotionRetryDecision) (f : ClusterFailure)
    (now later : ℕ)
    → record_failure t f now ≡ ok (u, d)
    → (can_retry u later ≡ true) ↔ (
        (u.status.consecutive < t.maximum)
        × (saturating_add u64_max now (as_millis t.backoff) ≤ later))
unfolding can_retry record_failure
can_retry-record_failure t u d f now later recorded = (λ h. ground arith, λ h. ground arith)
