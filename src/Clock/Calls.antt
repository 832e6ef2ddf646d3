-- ===== src/Clock/Calls.antt =====
-- The calls of the clock in any order.
use mizer.Prelude.{
  ℕ, ◌≡◌, ◌⊎◌, refl, sym, ap, ◌∙◌, arith, Bool, true, false, Option, none, some, List, [], ◌∷◌,
  Bool-cases, inl, inr, if◌then◌else◌, ◌>>=◌, >>=-some, subst,
}
use mizer.Sequencer.Time.{Rig, ClockFrame}
use mizer.Clock.{
  ClockState, stopped, paused, playing, is_playing, SystemClock, Tapper, default_clock, wrap_beat,
  delta_of, advance, started, frame_of, tick_playing, tick, set_state, resync, set_speed, tap,
  apply_tap, tap_at, four,
}

-- The calls, each with what it reads of the clocks
pub data Call (rig : Rig) : Type 0 where
  tick_call : ℕ → ℕ → Call rig
  state_call : ClockState → Call rig
  tap_call : ℕ → Call rig
  resync_call : Call rig
  speed_call : rig.F64 → Call rig

abbrev pub is_stopped : ClockState → Bool
is_stopped stopped = true
is_stopped _ = false

module _ (rig : Rig) (round : rig.F64 → rig.F64) where
  keep_clock : Option (SystemClock rig × ClockFrame rig) → Option (SystemClock rig)
  keep_clock none = none
  keep_clock (some (c, f)) = some c

  unfoldable pub call : Call rig → SystemClock rig → Option (SystemClock rig)
  unfolding tick set_state resync set_speed tap keep_clock
  call (tick_call fuel now) c = keep_clock (tick rig fuel now c)
  call (state_call state) c = some (set_state rig state c)
  call (tap_call instant) c = some (tap rig round instant c)
  call resync_call c = some (resync rig c)
  call (speed_call speed) c = some (set_speed rig speed c)

  unfoldable pub run : List (Call rig) → SystemClock rig → Option (SystemClock rig)
  unfolding call
  run [] c = some c
  run (a ∷ calls) c = call a c >>= λ c'. run calls c'

  -- A clock that is stopped stands at the start.
  abbrev pub IsStill : SystemClock rig → Type 0
  IsStill c = (is_stopped c.state ≡ false) ⊎ ((c.frame ≡ rig.zero) × (c.frames ≡ 0))

  tick_playing-state :
      (fuel now : ℕ) (c c' : SystemClock rig) (f : ClockFrame rig)
      → tick_playing rig fuel now c ≡ some (c', f)
      → c'.state ≡ c.state
  unfolding tick_playing
  tick_playing-state fuel now c c' f e =
      let (b, found, same) =
        >>=-some (wrap_beat rig fuel (rig.add c.beat (delta_of rig now c)))
          (λ wrapped. some (
            advance rig now c (delta_of rig now c) wrapped,
            frame_of rig (advance rig now c (delta_of rig now c) wrapped) (delta_of rig now c)
                (rig.lt (four rig) (rig.add c.beat (delta_of rig now c))),
          ))
          (c', f) e in
      unfold advance in ground (arith, same)

  is_stopped-playing : (s : ClockState) → is_playing s ≡ true → is_stopped s ≡ false
  is_stopped-playing stopped h = ground arith
  is_stopped-playing _ h = refl

  tick-IsStill :
      (fuel now : ℕ) (c c' : SystemClock rig) (f : ClockFrame rig)
      → IsStill c
      → tick rig fuel now c ≡ some (c', f)
      → IsStill c'
  tick-IsStill fuel now c c' f h e =
      let waiting : SystemClock rig = record c { last_tick = started rig now c } in
      let chosen : (if is_playing c.state
            then tick_playing rig fuel now c
            else some (waiting, frame_of rig waiting rig.zero false))
          ≡ some (c', f) =
        unfold tick in e in
      elim (Bool-cases (is_playing c.state)) [
        | inl plays ↦
            let same = tick_playing-state fuel now c c' f (ground (arith, plays, chosen)) in
            inl (ap is_stopped same ∙ is_stopped-playing c.state plays)
        | inr rests ↦
            let same : c' ≡ waiting = ground (arith, rests, chosen) in
            subst IsStill {x = waiting} {y = c'} (sym same) h
      ]

  set_state-IsStill : (state : ClockState) (c : SystemClock rig) → IsStill (set_state rig state c)
  unfolding set_state
  set_state-IsStill stopped c = inr (refl, refl)
  set_state-IsStill paused c = inl refl
  set_state-IsStill playing c = inl refl

  apply_tap-IsStill :
      (c : SystemClock rig) (r : Tapper rig × Option rig.F64)
      → IsStill c
      → IsStill (apply_tap rig round c r)
  unfolding apply_tap
  apply_tap-IsStill c (t, none) h = h
  apply_tap-IsStill c (t, some bpm) h = h

  clock_of_keep_clock :
      (o : Option (SystemClock rig × ClockFrame rig)) (c : SystemClock rig)
      → keep_clock o ≡ some c
      → (f : ClockFrame rig) × (o ≡ some (c, f))
  unfolding keep_clock
  clock_of_keep_clock none c h = ground arith
  clock_of_keep_clock (some (d, f)) c h = (f, ground arith)

  call-IsStill :
      (a : Call rig) (c c' : SystemClock rig) → IsStill c → call a c ≡ some c' → IsStill c'
  call-IsStill (tick_call fuel now) c c' h e =
      let (f, ticked) = clock_of_keep_clock (tick rig fuel now c) c' (unfold call in e) in
      tick-IsStill fuel now c c' f h ticked
  call-IsStill (state_call state) c c' h e =
      subst IsStill {x = set_state rig state c} {y = c'} (unfold call in ground arith)
        (set_state-IsStill state c)
  call-IsStill (tap_call instant) c c' h e =
      subst IsStill {x = tap rig round instant c} {y = c'} (unfold call in ground arith)
        (unfold tap in apply_tap-IsStill c (tap_at rig instant c.tapper) h)
  call-IsStill resync_call c c' h e =
      subst IsStill {x = resync rig c} {y = c'} (unfold call in ground arith) (unfold resync in h)
  call-IsStill (speed_call speed) c c' h e =
      subst IsStill {x = set_speed rig speed c} {y = c'} (unfold call in ground arith)
        (unfold set_speed in h)

  runs-IsStill :
      (calls : List (Call rig)) (c c' : SystemClock rig)
      → IsStill c
      → run calls c ≡ some c'
      → IsStill c'
  unfolding run
  runs-IsStill [] c c' h e = subst IsStill {x = c} {y = c'} (ground arith) h
  runs-IsStill (a ∷ calls) c c' h e =
      let (d, called, rest) = >>=-some (call a c) (λ d. run calls d) c' e in
      runs-IsStill calls d c' (call-IsStill a c d h called) rest

  -- After any calls that return, in any order, a clock that is stopped stands at the start: its
  -- position is zero and it has counted no frames.
  pub run-IsStill :
      (instant : ℕ) (calls : List (Call rig)) (c : SystemClock rig)
      → run calls (default_clock rig instant) ≡ some c
      → IsStill c
  run-IsStill instant calls c e =
      runs-IsStill calls (default_clock rig instant) c (unfold default_clock in inl refl) e
