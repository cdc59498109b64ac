-- ===== src/Recovery/Detector.antt =====
-- src/recovery.rs: `RecoveryDetector`, which turns observations of the throughput, and results of
-- the canary, into one trigger for each incident.
pub mod OneShot
pub mod Sustained
use siderostat.Prelude.{
  ℕ, ◌-◌, max, Bool, true, false, not, ◌&&◌, ◌||◌, Option, none, some, List, [], ◌∷◌, if◌then◌else◌,
  leb, ◌==◌,
}

pub data RecoveryTrigger : Type 0 where
  manual_canary_failure progress_stall low_decode_tps first_token_timeout : RecoveryTrigger

pub data CanaryReason : Type 0 where
  healthy deadline http_error low_decode_tps progress_stall : CanaryReason

-- Throughputs are floats, of which the code uses three tests.
pub record Floats : Type 1 where
  pub Float : Type 0
  pub is_finite : Float → Bool
  pub is_non_negative : Float → Bool  -- 0.0 <= x
  pub is_below : Float → Float → Bool  -- x < y

-- An observation carries the ages in milliseconds.
pub data RecoveryObservation (F : Type 0) : Type 0 where
  idle : RecoveryObservation F
  -- first_progress_observed, active_age_millis, progress_age_millis, chunk_tps
  active : Bool → ℕ → Option ℕ → Option F → RecoveryObservation F

pub record RecoveryDetectorPolicy (F : Type 0) : Type 0 where
  pub low_decode_tps : F
  pub low_decode_duration_millis : ℕ
  pub progress_stall_millis : ℕ
  pub first_token_timeout_millis : ℕ

pub record RecoveryDetector (F : Type 0) : Type 0 where
  pub policy : RecoveryDetectorPolicy F
  pub low_tps_since_millis : Option ℕ
  pub incident_active : Bool
  pub last_observed_millis : ℕ

abbrev pub is_past : ℕ → Option ℕ → Bool
is_past limit none = false
is_past limit (some age) = leb limit age

abbrev pub or_now : Option ℕ → ℕ → ℕ
or_now none now = now
or_now (some since) now = since

-- A detector, and the trigger that it gives, if any.
abbrev pub Observed : Type 0 → Type 0
Observed F = RecoveryDetector F × Option RecoveryTrigger

unfoldable pub emit_once : {F : Type 0} → RecoveryDetector F → RecoveryTrigger → Observed F
emit_once d trigger =
    if d.incident_active then (d, none) else (record d { incident_active = true }, some trigger)

unfoldable pub reset_incident : {F : Type 0} → RecoveryDetector F → RecoveryDetector F
reset_incident d = record d { low_tps_since_millis = none; incident_active = false }

module _ (fl : Floats) where
  open fl use {Float, is_finite, is_non_negative, is_below}

  -- `RecoveryDetector::new` refuses such a policy.
  unfoldable pub is_valid : RecoveryDetectorPolicy Float → Bool
  is_valid p =
      is_finite p.low_decode_tps
      && is_non_negative p.low_decode_tps
      && not (p.low_decode_duration_millis == 0)
      && not (p.progress_stall_millis == 0)
      && not (p.first_token_timeout_millis == 0)

  unfoldable pub new : RecoveryDetectorPolicy Float → Option (RecoveryDetector Float)
  unfolding is_valid
  new p =
      if is_valid p
      then some (record {
        policy = p;
        low_tps_since_millis = none;
        incident_active = false;
        last_observed_millis = 0;
      })
      else none

  abbrev pub is_low : Float → Option Float → Bool
  is_low limit none = false
  is_low limit (some tps) = is_finite tps && is_non_negative tps && is_below tps limit

  -- A low throughput, at the clamped time.
  observe_low : RecoveryDetector Float → ℕ → Observed Float
  unfolding emit_once
  observe_low d now =
      let since = or_now d.low_tps_since_millis now in
      let d' = record d { low_tps_since_millis = some since } in
      if leb d.policy.low_decode_duration_millis (now - since)
      then emit_once d' RecoveryTrigger.low_decode_tps
      else (d', none)

  -- The observation at the clamped time, which the detector keeps already.
  observe_clamped : RecoveryDetector Float → ℕ → RecoveryObservation Float → Observed Float
  unfolding emit_once reset_incident observe_low
  observe_clamped d now idle = (reset_incident d, none)
  observe_clamped d now (active false age progress tps) =
      let d' = record d { low_tps_since_millis = none } in
      if leb d.policy.first_token_timeout_millis age
      then emit_once d' first_token_timeout
      else (d', none)
  observe_clamped d now (active true age progress tps) =
      if is_past d.policy.progress_stall_millis progress
      then emit_once d RecoveryTrigger.progress_stall
      else if is_low d.policy.low_decode_tps tps
      then observe_low d now
      else (record d { low_tps_since_millis = none }, none)

  unfoldable pub observe_at :
      RecoveryDetector Float → ℕ → RecoveryObservation Float → Observed Float
  unfolding observe_clamped
  observe_at d now o =
      let now' = max now d.last_observed_millis in
      observe_clamped (record d { last_observed_millis = now' }) now' o

  canary_clamped : RecoveryDetector Float → CanaryReason → Observed Float
  unfolding emit_once reset_incident
  canary_clamped d healthy = (reset_incident d, none)
  canary_clamped d deadline = emit_once d first_token_timeout
  canary_clamped d CanaryReason.low_decode_tps = emit_once d RecoveryTrigger.low_decode_tps
  canary_clamped d CanaryReason.progress_stall = emit_once d RecoveryTrigger.progress_stall
  canary_clamped d http_error = emit_once d manual_canary_failure

  unfoldable pub observe_canary_at : RecoveryDetector Float → ℕ → CanaryReason → Observed Float
  unfolding canary_clamped
  observe_canary_at d now reason =
      canary_clamped (record d { last_observed_millis = max now d.last_observed_millis }) reason
