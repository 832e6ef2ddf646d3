-- ===== src/Tests/ClockTests.antt =====
-- The clock and timecodes at concrete inputs: whole numbers in the place of floating-point ones.
use mizer.Prelude.{
  ℕ, ◌+◌, ◌-◌, ltb, if◌then◌else◌, ◌%◌, ◌^◌, ◌<◌, ◌≡◌, ◌⊎◌, refl, arith, true, false, none, some,
  List, [], ◌∷◌,
}
use mizer.Sequencer.Time.{Rig, ClockFrame}
use mizer.Clock.{SystemClock, stopped, playing, default_clock, four, tick, delta_of}
use mizer.Clock.Ticks.{CountsBars, tick-playing, tick-stuck}
use mizer.Clock.Calls.{Call, tick_call, state_call, tap_call, run, IsStill, run-IsStill}
use mizer.Clock.Timecode.{Timecode, build, total_frames, total_frames-build}
use mizer.Tests.SequencerTests.{rig}

-- The speed is counted in beats a millisecond here.
abbrev beats : Rig
beats = record rig { div = λ a b. a }

abbrev clock : SystemClock beats
clock = record (default_clock beats 0) {
  speed = 3;
  last_tick = 1000;
  frame = 2;
  beat = 2;
  frames = 7;
  state = playing;
}

counts : CountsBars beats (λ b. true) (λ b. b)
counts = record { exact = λ b h. refl; fewer = λ b h more. ground arith }

tick-playing_example :
    (c' : SystemClock beats) × (f : ClockFrame beats) × (tick beats 50 1003 clock ≡ some (c', f))
    × (beats.lt (four beats) c'.beat ≡ false)
    × (c'.frame ≡ beats.add clock.frame f.delta)
    × (c'.frames ≡ (clock.frames + 1) % 2 ^ 64)
    × (c'.last_tick ≡ 1003)
    × (f.frame ≡ c'.frame)
    × (f.beat ≡ c'.beat)
    × (f.frames ≡ c'.frames)
    × (f.downbeat ≡ beats.lt (four beats) (beats.add clock.beat f.delta))
tick-playing_example =
    tick-playing beats (λ b. true) (λ b. b) counts 50 1003 clock refl refl
      (unfold delta_of in omega arith)

-- Numbers above a hundred are too large for four to be taken off.
abbrev coarse : Rig
coarse = record beats { sub = λ a b. if ltb 100 a then a else a - b }

abbrev racing : SystemClock coarse
racing = record (default_clock coarse 0) { speed = 90; last_tick = 1000; state = playing }

tick-stuck_example : tick coarse 1000000 1003 racing ≡ none
tick-stuck_example =
    tick-stuck coarse 1000000 1003 racing refl (unfold delta_of default_clock in refl)
      (unfold delta_of default_clock in refl)

abbrev calls : List (Call beats)
calls =
    tick_call 50 1000
    ∷ tick_call 50 1001
    ∷ tap_call 500000000
    ∷ tap_call 900000000
    ∷ state_call stopped
    ∷ tick_call 50 1002
    ∷ []

abbrev ended : SystemClock beats
ended = record {
  speed = 120000;
  last_tick = 1002;
  frame = 0;
  beat = 2;
  frames = 0;
  state = stopped;
  fps = 60;
  tapper = record { last_tap = 900000000; bpm = some 120000; last_bpms = 60000 ∷ 60000 ∷ [] };
}

ended_test : run beats (λ x. x) calls (default_clock beats 0) ≡ some ended
unfolding run default_clock
ended_test = refl

run-IsStill_example : IsStill beats (λ x. x) ended
run-IsStill_example = run-IsStill beats (λ x. x) 0 calls ended ended_test

total_frames-build_example :
    ((◌≡◌ {A = ℕ} 25 0) × (build 93784 true 25 ≡ none))
    ⊎ ((t : Timecode) × (build 93784 true 25 ≡ some t)
        × (total_frames 25 t ≡ 93784)
        × (t.minutes < 60)
        × (t.seconds < 60)
        × (t.frames < 25)
        × (t.negative ≡ true))
total_frames-build_example = total_frames-build 93784 true 25

-- An hour, two minutes, 31 seconds and nine frames
one_hour :
    build 93784 true 25
    ≡ some (record { hours = 1; minutes = 2; seconds = 31; frames = 9; negative = true })
unfolding build
one_hour = refl
