-- ===== src/Clock.antt =====
-- `SystemClock`, `ClockState` and `Tapper` of crates/runtime/clock/src/lib.rs. A reading of the system
-- clock is in milliseconds and one of `Instant` in nanoseconds, and a call reads each once.
pub mod Ticks
pub mod Calls
pub mod Timecode
use mizer.Prelude.{
  ℕ, zero, suc, ◌+◌, ◌-◌, ◌/◌, ◌%◌, ◌^◌, Bool, true, false, Option, none, some, List, [], ◌∷◌, ◌++◌,
  length, ltb, ◌==◌, if◌then◌else◌, ◌>>=◌,
}
use mizer.Sequencer.Time.{Rig, ClockFrame}

pub data ClockState : Type 0 where
  stopped paused playing : ClockState

abbrev pub is_playing : ClockState → Bool
is_playing playing = true
is_playing _ = false

pub record Tapper (rig : Rig) : Type 0 where
  pub last_tap : ℕ
  pub bpm : Option rig.F64
  pub last_bpms : List rig.F64

pub record SystemClock (rig : Rig) : Type 0 where
  pub speed : rig.F64
  pub last_tick : ℕ
  pub frame : rig.F64
  pub beat : rig.F64
  pub frames : ℕ
  pub state : ClockState
  pub fps : rig.F64
  pub tapper : Tapper rig

module _ (rig : Rig) where
  abbrev C : Type 0
  C = SystemClock rig

  -- `impl Default`, of which the tapper reads the time
  unfoldable pub default_clock : ℕ → C
  default_clock instant = record {
    speed = rig.from_nat 90;
    last_tick = 0;
    frame = rig.zero;
    beat = rig.zero;
    frames = 0;
    state = playing;
    fps = rig.from_nat 60;
    tapper = record { last_tap = instant; bpm = none; last_bpms = [] };
  }

  abbrev pub four : rig.F64
  four = rig.from_nat 4

  -- `while self.beat > 4f64`, with fuel; `none` means that the fuel ran out.
  unfoldable pub wrap_beat : ℕ → rig.F64 → Option rig.F64
  wrap_beat zero beat = none
  wrap_beat (suc fuel) beat =
      let rest = wrap_beat fuel (rig.sub beat four) in if rig.lt four beat then rest else some beat

  started : ℕ → C → ℕ
  started now c = if c.last_tick == 0 then now else c.last_tick

  unfoldable pub delta_of : ℕ → C → rig.F64
  unfolding started
  delta_of now c =
      rig.mul (rig.from_nat (now - started now c)) (rig.div c.speed (rig.from_nat 60000))

  abbrev frame_of : C → rig.F64 → Bool → ClockFrame rig
  frame_of c delta downbeat = record {
    speed = c.speed;
    frame = c.frame;
    beat = c.beat;
    delta = delta;
    downbeat = downbeat;
    frames = c.frames;
  }

  advance : ℕ → C → rig.F64 → rig.F64 → C
  advance now c delta beat = record c {
    frame = rig.add c.frame delta;
    beat = beat;
    last_tick = now;
    frames = (c.frames + 1) % 2 ^ 64;
  }

  unfoldable pub tick_playing : ℕ → ℕ → C → Option (C × ClockFrame rig)
  unfolding wrap_beat delta_of advance
  tick_playing fuel now c =
      let delta = delta_of now c in
      let beat = rig.add c.beat delta in
      wrap_beat fuel beat >>= λ wrapped.
      some (
        advance now c delta wrapped,
        frame_of (advance now c delta wrapped) delta (rig.lt four beat),
      )

  unfoldable pub tick : ℕ → ℕ → C → Option (C × ClockFrame rig)
  unfolding tick_playing started
  tick fuel now c =
      let waiting = record c { last_tick = started now c } in
      if is_playing c.state
      then tick_playing fuel now c
      else some (waiting, frame_of waiting rig.zero false)

  reset : ClockState → C → C
  reset stopped c = record c { frame = rig.zero; frames = 0 }
  reset _ c = c

  unfoldable pub set_state : ClockState → C → C
  unfolding reset
  set_state state c = reset state (record c { state = state; last_tick = 0 })

  unfoldable pub resync : C → C
  resync c = record c { beat = rig.zero }

  unfoldable pub set_speed : rig.F64 → C → C
  set_speed speed c = record c { speed = speed }

  total : rig.F64 → List rig.F64 → rig.F64
  total sum [] = sum
  total sum (x ∷ xs) = total (rig.add sum x) xs

  next_bpm : Option rig.F64 → rig.F64 → List rig.F64 → rig.F64
  unfolding total
  next_bpm none bpm bpms = bpm
  next_bpm (some _) bpm bpms = rig.div (total rig.zero bpms) (rig.from_nat (length bpms))

  -- `Tapper::tap` at an instant; what it returns is not rounded here.
  unfoldable pub tap_at : ℕ → Tapper rig → Tapper rig × Option rig.F64
  unfolding next_bpm
  tap_at instant t =
      let millis = (instant - t.last_tap) / 1000000 in
      let bpm = rig.div (rig.from_nat 60000) (rig.from_nat millis) in
      let bpms = t.last_bpms ++ bpm ∷ [] in
      let average = next_bpm t.bpm bpm bpms in
      if ltb 2000 millis
      then (record { last_tap = instant; bpm = none; last_bpms = [] }, none)
      else (record { last_tap = instant; bpm = some average; last_bpms = bpms }, some average)

  apply_tap : (rig.F64 → rig.F64) → C → Tapper rig × Option rig.F64 → C
  apply_tap round c (t, none) = record c { tapper = t }
  apply_tap round c (t, some bpm) = record c { tapper = t; speed = round bpm }

  -- `SystemClock::tap`; `round` is that of the standard library.
  unfoldable pub tap : (rig.F64 → rig.F64) → ℕ → C → C
  unfolding apply_tap tap_at
  tap round instant c = apply_tap round c (tap_at instant c.tapper)
