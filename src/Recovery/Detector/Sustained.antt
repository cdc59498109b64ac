-- ===== src/Recovery/Detector/Sustained.antt =====
-- src/recovery.rs: a low throughput must last before it is reported.
use siderostat.Prelude.{
  ℕ, ◌+◌, ◌≤◌, ◌<◌, true, false, ◌≡◌, ◌≢◌, refl, sym, subst, ◌⊎◌, Option, none, some, List, [], ◌∷◌,
  arith, map,
}
use siderostat.Recovery.Detector.{
  RecoveryTrigger, Floats, RecoveryDetector, idle, active, emit_once, reset_incident, observe_at,
  is_low,
}
use siderostat.Recovery.Detector.OneShot.{Input, observed, canary, feed, feed_all}

-- An observation, before this time.
abbrev pub Before : {F : Type 0} → ℕ → Input F → Type 0
Before limit (observed now o) = now < limit
Before limit (canary now r) = ⊥

abbrev pub AllBefore : {F : Type 0} → ℕ → List (Input F) → Type 0
AllBefore limit [] = Unit {0}
AllBefore limit (i ∷ is) = Before limit i × AllBefore limit is

abbrev SinceFrom : ℕ → Option ℕ → Type 0
SinceFrom start none = Unit {0}
SinceFrom start (some since) = start ≤ since

-- The throughput was not low before the start, and less than the duration has passed.
record IsRecent {F : Type 0} (start duration : ℕ) (d : RecoveryDetector F) : Type 0 where
  lasts : d.policy.low_decode_duration_millis ≡ duration
  after_start : start ≤ d.last_observed_millis
  before_limit : d.last_observed_millis < start + duration
  low_since : SinceFrom start d.low_tps_since_millis

module _ (fl : Floats) where
  open fl use {Float}

  feed-IsRecent :
      (start duration : ℕ) (d : RecoveryDetector Float) (i : Input Float)
      → Before (start + duration) i
      → IsRecent start duration d
      → IsRecent start duration (feed fl d i).0
        × ((feed fl d i).1 ≢ some RecoveryTrigger.low_decode_tps)
  unfolding feed observe_at emit_once reset_incident
  feed-IsRecent start duration d (canary now r) b v = elim b [ ]
  feed-IsRecent start duration d (observed now idle) b v = (ground arith, λ e. ground arith)
  feed-IsRecent start duration d (observed now (active false a p x)) b v =
      (ground arith, λ e. ground arith)
  feed-IsRecent start duration d (observed now (active true a p x)) b v =
      (ground arith, λ e. ground arith)

  feed_all-IsRecent :
      (start duration : ℕ) (d : RecoveryDetector Float) (is : List (Input Float))
      → AllBefore (start + duration) is
      → IsRecent start duration d
      → IsRecent start duration (feed_all fl d is)
  unfolding feed_all
  feed_all-IsRecent start duration d [] b v = v
  feed_all-IsRecent start duration d (i ∷ is) b v =
      feed_all-IsRecent start duration (feed fl d i).0 is b.1
        (feed-IsRecent start duration d i b.0 v).0

  -- However low the throughput is observed to be, and in whatever order the observations arrive, a
  -- detector that saw no low throughput so far does not report it for as long as its policy asks it
  -- to last.
  pub low_tps_sustained :
      (d : RecoveryDetector Float) (is : List (Input Float)) (last : Input Float)
      → d.low_tps_since_millis ≡ none
      → 0 < d.policy.low_decode_duration_millis
      → AllBefore (d.last_observed_millis + d.policy.low_decode_duration_millis) is
      → Before (d.last_observed_millis + d.policy.low_decode_duration_millis) last
      → (feed fl (feed_all fl d is) last).1 ≢ some RecoveryTrigger.low_decode_tps
  low_tps_sustained d is last n positive b b' =
      let start = d.last_observed_millis in
      let duration = d.policy.low_decode_duration_millis in
      (feed-IsRecent start duration (feed_all fl d is) last b' (
        feed_all-IsRecent start duration d is b (record {
          lasts = refl;
          after_start = omega arith;
          before_limit = omega arith;
          low_since = subst (SinceFrom start) (sym n) tt;
        }))).1

  -- A low throughput, with progress.
  pub record Low : Type 0 where
    pub at : ℕ
    pub age : ℕ
    pub progress_age : Option ℕ
    pub tps : Float

  abbrev pub low_input : Low → Input Float
  low_input l = observed l.at (active true l.age l.progress_age (some l.tps))

  abbrev pub AllLow : Float → List Low → Type 0
  AllLow limit [] = Unit {0}
  AllLow limit (l ∷ ls) = (is_low fl limit (some l.tps) ≡ true) × AllLow limit ls

  -- A low throughput is noted since then, or an incident was reported.
  abbrev IsNoted : ℕ → Float → ℕ → RecoveryDetector Float → Type 0
  IsNoted since limit duration d =
      ((d.low_tps_since_millis ≡ some since) ⊎ (d.incident_active ≡ true))
      × (d.policy.low_decode_tps ≡ limit)
      × (d.policy.low_decode_duration_millis ≡ duration)

  feed-IsNoted :
      (since : ℕ) (limit : Float) (duration : ℕ) (d : RecoveryDetector Float) (l : Low)
      → is_low fl limit (some l.tps) ≡ true
      → IsNoted since limit duration d
      → IsNoted since limit duration (feed fl d (low_input l)).0
  unfolding feed observe_at emit_once
  feed-IsNoted since limit duration d l low v =
      ground (arith, subst (λ x. is_low fl x (some l.tps) ≡ true) (sym v.1) low)

  feed_all-IsNoted :
      (since : ℕ) (limit : Float) (duration : ℕ) (d : RecoveryDetector Float) (ls : List Low)
      → AllLow limit ls
      → IsNoted since limit duration d
      → IsNoted since limit duration (feed_all fl d (map low_input ls))
  unfolding feed_all
  feed_all-IsNoted since limit duration d [] low v = v
  feed_all-IsNoted since limit duration d (l ∷ ls) low v =
      feed_all-IsNoted since limit duration (feed fl d (low_input l)).0 ls low.1
        (feed-IsNoted since limit duration d l low.0 v)

  first-IsNoted :
      (d : RecoveryDetector Float) (l : Low)
      → is_low fl d.policy.low_decode_tps (some l.tps) ≡ true
      → d.low_tps_since_millis ≡ none
      → d.last_observed_millis ≤ l.at
      → IsNoted l.at d.policy.low_decode_tps d.policy.low_decode_duration_millis
          (feed fl d (low_input l)).0
  unfolding feed observe_at emit_once
  first-IsNoted d l low n later = ground arith

  last_reported :
      (since : ℕ) (limit : Float) (duration : ℕ) (d : RecoveryDetector Float) (l : Low)
      → is_low fl limit (some l.tps) ≡ true
      → IsNoted since limit duration d
      → since + duration ≤ l.at
      → (feed fl d (low_input l)).0.incident_active ≡ true
  unfolding feed observe_at emit_once
  last_reported since limit duration d l low v late =
      ground (arith, subst (λ x. is_low fl x (some l.tps) ≡ true) (sym v.1) low)

  -- A throughput that is low at each observation, for as long as the policy asks it to last, is
  -- always reported: after the last of them an incident is active.
  pub low_tps_reported :
      (d : RecoveryDetector Float) (first last : Low) (ls : List Low)
      → d.low_tps_since_millis ≡ none
      → d.last_observed_millis ≤ first.at
      → first.at + d.policy.low_decode_duration_millis ≤ last.at
      → AllLow d.policy.low_decode_tps (first ∷ last ∷ ls)
      → let d' = feed_all fl (feed fl d (low_input first)).0 (map low_input ls) in
        (feed fl d' (low_input last)).0.incident_active ≡ true
  low_tps_reported d first last ls n later late low =
      let p = d.policy in
      last_reported first.at p.low_decode_tps p.low_decode_duration_millis
        (feed_all fl (feed fl d (low_input first)).0 (map low_input ls)) last low.1.0
        (feed_all-IsNoted first.at p.low_decode_tps p.low_decode_duration_millis
          (feed fl d (low_input first)).0 ls low.1.1 (first-IsNoted d first low.0 n later))
        late
