-- ===== src/Recovery/Detector/OneShot.antt =====
-- src/recovery.rs: the detector gives one trigger for each incident.
use siderostat.Prelude.{ℕ, Bool, true, false, ◌≡◌, none, some, List, [], ◌∷◌, arith}
use siderostat.Recovery.Detector.{
  RecoveryTrigger, CanaryReason, Floats, RecoveryObservation, RecoveryDetector, Observed, idle,
  active, healthy, emit_once, reset_incident, observe_at, observe_canary_at,
}

-- What the detector is told, and when.
pub data Input (F : Type 0) : Type 0 where
  observed : ℕ → RecoveryObservation F → Input F
  canary : ℕ → CanaryReason → Input F

abbrev pub resets : {F : Type 0} → Input F → Bool
resets (observed now idle) = true
resets (observed now (active f a p t)) = false
resets (canary now healthy) = true
resets (canary now _) = false

abbrev pub NoReset : {F : Type 0} → List (Input F) → Type 0
NoReset [] = Unit {0}
NoReset (i ∷ is) = (resets i ≡ false) × NoReset is

module _ (fl : Floats) where
  open fl use {Float}

  unfoldable pub feed : RecoveryDetector Float → Input Float → Observed Float
  feed d (observed now o) = observe_at fl d now o
  feed d (canary now r) = observe_canary_at fl d now r

  unfoldable pub feed_all : RecoveryDetector Float → List (Input Float) → RecoveryDetector Float
  feed_all d [] = d
  feed_all d (i ∷ is) = feed_all (feed d i).0 is

  trigger_activates :
      (d : RecoveryDetector Float) (i : Input Float) (t : RecoveryTrigger)
      → (feed d i).1 ≡ some t
      → (feed d i).0.incident_active ≡ true
  unfolding feed observe_at observe_canary_at emit_once reset_incident
  trigger_activates d (observed now idle) t e = ground arith
  trigger_activates d (observed now (active false a p x)) t e = ground arith
  trigger_activates d (observed now (active true a p x)) t e = ground arith
  trigger_activates d (canary now r) t e = ground arith

  active_silent :
      (d : RecoveryDetector Float) (i : Input Float)
      → resets i ≡ false
      → d.incident_active ≡ true
      → ((feed d i).1 ≡ none) × ((feed d i).0.incident_active ≡ true)
  unfolding feed observe_at observe_canary_at emit_once reset_incident
  active_silent d (observed now idle) r e = cc
  active_silent d (observed now (active false a p x)) r e = ground arith
  active_silent d (observed now (active true a p x)) r e = ground arith
  active_silent d (canary now k) r e = ground arith

  stays_active :
      (d : RecoveryDetector Float) (is : List (Input Float))
      → NoReset is
      → d.incident_active ≡ true
      → (feed_all d is).incident_active ≡ true
  unfolding feed_all
  stays_active d [] r e = e
  stays_active d (i ∷ is) r e = stays_active (feed d i).0 is r.1 (active_silent d i r.0 e).1

  -- After a trigger, no observation and no canary result, however bad, gives another one, until
  -- the throughput is idle or a canary is healthy.
  pub one_trigger :
      (d : RecoveryDetector Float) (first last : Input Float) (is : List (Input Float))
      (t : RecoveryTrigger)
      → (feed d first).1 ≡ some t
      → NoReset is
      → resets last ≡ false
      → (feed (feed_all (feed d first).0 is) last).1 ≡ none
  one_trigger d first last is t e r r' =
      (active_silent (feed_all (feed d first).0 is) last r'
        (stays_active (feed d first).0 is r (trigger_activates d first t e))).0
