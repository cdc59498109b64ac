-- ===== src/Cluster/Failure.antt =====
-- src/cluster/state.rs: the failures of the cluster, what each one calls for, and the tracker that
-- limits repeated promotions.
pub mod Retry
use mathlib.Core.Logic.{ite}
use siderostat.Prelude.{
  ℕ, ◌/◌, Bool, true, false, not, ◌&&◌, ◌||◌, Option, none, some, if◌then◌else◌, ◌==◌, leb,
  saturating_add, u32_max, u64_max, min,
}

pub data ClusterFailure : Type 0 where
  peer_absent bridge_unavailable bridge_address_invalid : ClusterFailure
  bonjour_unavailable : Bool → ClusterFailure  -- static_fallback
  unauthenticated_discovery invalid_control_hmac invalid_peer_proxy_token : ClusterFailure
  deployment_mismatch manifest_stale hello_timeout unknown_ds4_schema : ClusterFailure
  coordinator_startup_timeout route_incomplete peer_lease_lost : ClusterFailure
  child_identity_unknown standalone_start_failed drain_timeout : ClusterFailure
  first_prefill_timeout : ClusterFailure
  state_corrupt : Bool → ClusterFailure  -- standalone_safe

pub data FailureAction : Type 0 where
  maintain_current reject_request retry_static_discovery solo_standalone : FailureAction
  paired_standalone promotion_backoff manual_intervention unavailable : FailureAction

unfoldable pub failure_action : ClusterFailure → FailureAction
failure_action peer_absent = solo_standalone
failure_action bridge_unavailable = solo_standalone
failure_action bridge_address_invalid = solo_standalone
failure_action peer_lease_lost = solo_standalone
failure_action (bonjour_unavailable true) = retry_static_discovery
failure_action (bonjour_unavailable false) = solo_standalone
failure_action unauthenticated_discovery = maintain_current
failure_action invalid_control_hmac = reject_request
failure_action invalid_peer_proxy_token = reject_request
failure_action deployment_mismatch = solo_standalone
failure_action manifest_stale = paired_standalone
failure_action hello_timeout = promotion_backoff
failure_action coordinator_startup_timeout = promotion_backoff
failure_action unknown_ds4_schema = paired_standalone
failure_action route_incomplete = paired_standalone
failure_action child_identity_unknown = manual_intervention
failure_action standalone_start_failed = unavailable
failure_action drain_timeout = manual_intervention
failure_action first_prefill_timeout = paired_standalone
failure_action (state_corrupt true) = solo_standalone
failure_action (state_corrupt false) = manual_intervention

abbrev is_promotion_backoff : FailureAction → Bool
is_promotion_backoff promotion_backoff = true
is_promotion_backoff _ = false

pub ClusterFailure-discrete : Discrete ClusterFailure
ClusterFailure-discrete = hlevel

-- `status.failure == Some(failure)`.
unfoldable pub same_failure : Option ClusterFailure → ClusterFailure → Bool
unfolding ClusterFailure-discrete
same_failure none f = false
same_failure (some g) f = ite (ClusterFailure-discrete g f) true false

pub data PromotionRetryDecision : Type 0 where
  backoff : ℕ → PromotionRetryDecision  -- retry_at_millis
  manual_intervention : PromotionRetryDecision

pub record PromotionFailureStatus : Type 0 where
  pub failure : Option ClusterFailure
  pub consecutive : ℕ  -- u32
  pub retry_at_millis : Option ℕ  -- u64
  pub manual : Bool

-- `backoff` is the `Duration`, in nanoseconds.
pub record PromotionFailureTracker : Type 0 where
  pub backoff : ℕ
  pub maximum : ℕ  -- u32
  pub status : PromotionFailureStatus

pub data PromotionTrackerError : Type 0 where
  invalid_policy not_promotion_failure : PromotionTrackerError

pub data TrackerResult (A : Type 0) : Type 0 where
  ok : A → TrackerResult A
  err : PromotionTrackerError → TrackerResult A

unfoldable pub clear_status : PromotionFailureStatus
clear_status = record { failure = none; consecutive = 0; retry_at_millis = none; manual = false }

-- `Duration::as_millis`, cut to 64 bits.
abbrev pub as_millis : ℕ → ℕ
as_millis nanos = min (nanos / 1000000) u64_max

unfoldable pub new_tracker : ℕ → ℕ → TrackerResult PromotionFailureTracker
new_tracker pause maximum =
    if pause == 0 || maximum == 0
    then err invalid_policy
    else ok (record { backoff = pause; maximum = maximum; status = clear_status })

-- The count after one more failure: `saturating_add(1)` for the same one, else 1.
abbrev next_consecutive : PromotionFailureStatus → ClusterFailure → ℕ
next_consecutive s f =
    if same_failure s.failure f then saturating_add u32_max s.consecutive 1 else 1

-- The method changes the tracker and returns a decision, or fails and leaves the tracker alone.
unfoldable pub record_failure :
    PromotionFailureTracker
    → ClusterFailure
    → ℕ
    → TrackerResult (PromotionFailureTracker × PromotionRetryDecision)
record_failure t f now =
    let count = next_consecutive t.status f in
    let retry_at = saturating_add u64_max now (as_millis t.backoff) in
    if not (is_promotion_backoff (failure_action f))
    then err not_promotion_failure
    else if leb t.maximum count
    then ok (
      record t {
        status = record {
          failure = some f;
          consecutive = count;
          retry_at_millis = none;
          manual = true;
        };
      },
      PromotionRetryDecision.manual_intervention,
    )
    else ok (
      record t {
        status = record {
          failure = some f;
          consecutive = count;
          retry_at_millis = some retry_at;
          manual = false;
        };
      },
      backoff retry_at,
    )

abbrev is_none_or_past : Option ℕ → ℕ → Bool
is_none_or_past none now = true
is_none_or_past (some at) now = leb at now

unfoldable pub can_retry : PromotionFailureTracker → ℕ → Bool
can_retry t now = not t.status.manual && is_none_or_past t.status.retry_at_millis now

-- `note_success` and `operator_reconcile` both reset.
unfoldable pub reset : PromotionFailureTracker → PromotionFailureTracker
reset t = record t { status = clear_status }
