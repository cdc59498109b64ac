-- ===== src/Scenarios/Detector.antt =====
-- Tests of the detector of src/recovery.rs.
use siderostat.Prelude.{ℕ, ◌≢◌, refl, true, false, none, some, [], ◌∷◌, arith, ltb}
use siderostat.Recovery.Detector.{RecoveryTrigger, Floats, RecoveryDetector, active}
use siderostat.Recovery.Detector.OneShot.{Input, observed, feed, feed_all}
use siderostat.Recovery.Detector.Sustained.{Low, low_input, low_tps_sustained}

-- Throughputs in tenths of a token per second.
abbrev tenths : Floats
tenths = record { Float = ℕ; is_finite = λ x. true; is_non_negative = λ x. true; is_below = ltb }

abbrev detector : RecoveryDetector ℕ
detector = record {
  policy = record {
    low_decode_tps = 50;
    low_decode_duration_millis = 30000;
    progress_stall_millis = 60000;
    first_token_timeout_millis = 30000;
  };
  low_tps_since_millis = none;
  incident_active = false;
  last_observed_millis = 0;
}

abbrev waiting : Input ℕ
waiting = observed 5 (active false 30000 none none)

abbrev slow : ℕ → Low tenths
slow now = record { at = now; age = 10000; progress_age = some 100; tps = 49 }

low_tps_sustained_example :
    (feed tenths
      (feed_all tenths detector (low_input tenths (slow 0) ∷ []))
      (low_input tenths (slow 29999))).1
    ≢ some RecoveryTrigger.low_decode_tps
low_tps_sustained_example =
    low_tps_sustained tenths detector (low_input tenths (slow 0) ∷ [])
      (low_input tenths (slow 29999)) refl (omega arith) (omega arith, tt) (omega arith)
