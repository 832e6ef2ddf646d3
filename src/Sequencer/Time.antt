-- ===== src/Sequencer/Time.antt =====
-- Times of crates/components/sequencer/src/state.rs and value.rs, and the interpolation of
-- crates/util/src/lerp_extension.rs. An instant and a duration are counted in nanoseconds.
use mizer.Prelude.{ℕ, ◌+◌, ◌-◌, ◌&&◌, Bool, Option, some, leb, if◌then◌else◌, ◌>>=◌}
use mizer.Prelude.Maps.{Eq}

-- Floating-point numbers and what the standard library has on them; where it panics, it is `none`. A
-- control of a fixture is only compared. The crate uuid draws the names of the instances of effects.
pub record Rig : Type 1 where
  pub F64 : Type 0
  pub zero : F64
  pub one : F64
  pub add : F64 → F64 → F64
  pub sub : F64 → F64 → F64
  pub mul : F64 → F64 → F64
  pub div : F64 → F64 → F64
  pub le : F64 → F64 → Bool
  pub lt : F64 → F64 → Bool
  pub eq : F64 → F64 → Bool
  pub from_nat : ℕ → F64
  pub from_secs : F64 → Option ℕ
  pub as_secs : ℕ → F64
  pub mul_duration : ℕ → F64 → Option ℕ
  pub Control : Type 0
  pub control_eq : Eq Control
  pub Channels : Type 0
  pub uuid : ℕ → ℕ

-- `ClockFrame` of crates/runtime/clock/src/lib.rs
pub record ClockFrame (rig : Rig) : Type 0 where
  pub speed : rig.F64
  pub frame : rig.F64
  pub beat : rig.F64
  pub delta : rig.F64
  pub downbeat : Bool
  pub frames : ℕ

pub data SequencerTime (rig : Rig) : Type 0 where
  seconds : rig.F64 → SequencerTime rig
  beats : rig.F64 → SequencerTime rig

pub record SequenceTimestamp (rig : Rig) : Type 0 where
  pub time : ℕ
  pub beat : rig.F64

pub data SequenceDuration (rig : Rig) : Type 0 where
  for_time : ℕ → SequenceDuration rig
  for_beats : rig.F64 → SequenceDuration rig

pub record RateMatched (rig : Rig) : Type 0 where
  pub start : SequenceTimestamp rig
  pub last_tick : ℕ
  pub time : ℕ
  pub beat : rig.F64

module _ (rig : Rig) where
  abbrev pub timestamp : ℕ → ClockFrame rig → SequenceTimestamp rig
  timestamp now frame = record { time = now; beat = frame.frame }

  -- `SequenceTimestamp::eq`
  unfoldable pub timestamp_eq : SequenceTimestamp rig → SequenceTimestamp rig → Bool
  timestamp_eq a b = (leb a.time b.time && leb b.time a.time) && rig.eq a.beat b.beat

  -- `SequenceRateMatchedDuration::new`
  unfoldable pub rate_matched : SequenceTimestamp rig → RateMatched rig
  rate_matched start = record { start = start; last_tick = start.time; time = 0; beat = rig.zero }

  unfoldable pub forward : RateMatched rig → ℕ → ClockFrame rig → rig.F64 → Option (RateMatched rig)
  forward d now frame rate = do
    rate_adjusted ← rig.mul_duration (now - d.last_tick) rate
    some (record d {
      beat = rig.add d.beat (rig.mul frame.delta rate);
      time = d.time + rate_adjusted;
      last_tick = now;
    })

  unfoldable pub has_passed : RateMatched rig → SequenceDuration rig → Bool
  has_passed d (for_beats b) = rig.le b d.beat
  has_passed d (for_time t) = leb t d.time

  -- `SequenceTimestamp::has_passed`
  unfoldable pub timestamp_has_passed :
      SequenceTimestamp rig → ℕ → ClockFrame rig → SequenceDuration rig → Bool
  timestamp_has_passed s now frame (for_beats b) = rig.le (rig.add s.beat b) frame.frame
  timestamp_has_passed s now frame (for_time t) = leb t (now - s.time)

  unfoldable pub linear_extrapolate : rig.F64 → rig.F64 × rig.F64 → rig.F64 × rig.F64 → rig.F64
  linear_extrapolate x (from, from') (to, to') =
      if rig.eq from from'
      then to'
      else rig.add (rig.div (rig.mul (rig.sub x from) (rig.sub to' to)) (rig.sub from' from)) to
