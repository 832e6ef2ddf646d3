-- ===== src/Clock/Ticks.antt =====
-- A tick of the clock, and the loop that takes the bars off the beat.
use mizer.Prelude.{
  ℕ, zero, suc, ◌+◌, ◌%◌, ◌^◌, ◌<◌, ◌≡◌, refl, ap, ◌∙◌, arith, Bool, true, false, Option, none,
  some, Bool-cases, inl, inr, if◌then◌else◌, ◌>>=◌,
}
use mizer.Sequencer.Time.{Rig, ClockFrame}
use mizer.Clock.{
  ClockState, playing, is_playing, SystemClock, four, wrap_beat, delta_of, tick_playing, tick,
  frame_of, advance, started,
}

-- Numbers from which taking four off can be repeated until four is left: the bars in them fall. Of
-- floating-point numbers these are the finite ones that are exact enough to be changed by four.
pub record CountsBars (rig : Rig) (is_exact : rig.F64 → Bool) (bars : rig.F64 → ℕ) : Type 0 where
  pub exact : (b : rig.F64) → is_exact b ≡ true → is_exact (rig.sub b (rig.from_nat 4)) ≡ true
  pub fewer :
      (b : rig.F64)
      → is_exact b ≡ true
      → rig.lt (rig.from_nat 4) b ≡ true
      → bars (rig.sub b (rig.from_nat 4)) < bars b

module _ (rig : Rig) (is_exact : rig.F64 → Bool) (bars : rig.F64 → ℕ)
    (laws : CountsBars rig is_exact bars) where
  wrap_beat-some :
      (fuel : ℕ) (beat : rig.F64)
      → is_exact beat ≡ true
      → bars beat < fuel
      → (b : rig.F64) × (wrap_beat rig fuel beat ≡ some b) × (rig.lt (four rig) b ≡ false)
  unfolding wrap_beat
  wrap_beat-some zero beat h k = absurd (omega arith)
  wrap_beat-some (suc fuel) beat h k = elim (Bool-cases (rig.lt (four rig) beat)) [
    | inl more ↦
        let (b, found, low) =
          wrap_beat-some fuel (rig.sub beat (four rig)) (laws.exact beat h)
            (omega (arith, laws.fewer beat h more)) in
        (b, rw more found, low)
    | inr done ↦ (beat, rw done refl, done)
  ]

  tick_lem :
      (fuel now : ℕ) (c : SystemClock rig) (b : rig.F64)
      → c.state ≡ playing
      → wrap_beat rig fuel (rig.add c.beat (delta_of rig now c)) ≡ some b
      → let after = advance rig now c (delta_of rig now c) b in
        tick rig fuel now c
        ≡ some (
          after,
          frame_of rig after
              (delta_of rig now c)
              (rig.lt (four rig) (rig.add c.beat (delta_of rig now c))),
        )
  tick_lem fuel now c b plays found =
      let delta = delta_of rig now c in
      let waiting : SystemClock rig = record c { last_tick = started rig now c } in
      unfold tick in
      (ap
          (λ (s : ClockState).
            if is_playing s
            then tick_playing rig fuel now c
            else some (waiting, frame_of rig waiting rig.zero false))
          plays
        ∙ unfold tick_playing in
          ap
            (λ (o : Option rig.F64). o >>= λ wrapped. some (
              advance rig now c delta wrapped,
              frame_of rig (advance rig now c delta wrapped) delta
                  (rig.lt (four rig) (rig.add c.beat delta)),
            ))
            found)

  -- Some numbers are called exact, and are so still when four is taken off; of those above four, a
  -- count of bars then falls. Where the beat with what has passed added is exact, a tick of a clock
  -- that plays returns with more fuel than that beat has bars. It counts one frame, adds to the
  -- position what it returns as passed, and leaves a beat that is not above four; the frame that it
  -- returns carries all of these, and says whether a bar was full.
  pub tick-playing :
      (fuel now : ℕ) (c : SystemClock rig)
      → c.state ≡ playing
      → is_exact (rig.add c.beat (delta_of rig now c)) ≡ true
      → bars (rig.add c.beat (delta_of rig now c)) < fuel
      → (c' : SystemClock rig) × (f : ClockFrame rig) × (tick rig fuel now c ≡ some (c', f))
        × (rig.lt (four rig) c'.beat ≡ false)
        × (c'.frame ≡ rig.add c.frame f.delta)
        × (c'.frames ≡ (c.frames + 1) % 2 ^ 64)
        × (c'.last_tick ≡ now)
        × (f.frame ≡ c'.frame)
        × (f.beat ≡ c'.beat)
        × (f.frames ≡ c'.frames)
        × (f.downbeat ≡ rig.lt (four rig) (rig.add c.beat f.delta))
  tick-playing fuel now c plays h k =
      let delta = delta_of rig now c in
      let (b, found, low) = wrap_beat-some fuel (rig.add c.beat delta) h k in
      let after : SystemClock rig = advance rig now c delta b in
      let returned : ClockFrame rig =
        frame_of rig after delta (rig.lt (four rig) (rig.add c.beat delta)) in
      (
        after,
        returned,
        tick_lem fuel now c b plays found,
        unfold advance in low,
        unfold advance in refl,
        unfold advance in refl,
        unfold advance in refl,
        refl,
        refl,
        refl,
        refl,
      )

module _ (rig : Rig) where
  wrap_beat-stuck :
      (fuel : ℕ) (beat : rig.F64)
      → rig.lt (four rig) beat ≡ true
      → rig.sub beat (four rig) ≡ beat
      → wrap_beat rig fuel beat ≡ none
  unfolding wrap_beat
  wrap_beat-stuck zero beat above same = refl
  wrap_beat-stuck (suc fuel) beat above same =
      rw (above, same) (wrap_beat-stuck fuel beat above same)

  -- Where the beat with what has passed added is above four, and so large that taking four off leaves
  -- it as it is, a tick of a clock that plays never returns, whatever the fuel.
  pub tick-stuck :
      (fuel now : ℕ) (c : SystemClock rig)
      → c.state ≡ playing
      → rig.lt (four rig) (rig.add c.beat (delta_of rig now c)) ≡ true
      → rig.sub (rig.add c.beat (delta_of rig now c)) (four rig)
        ≡ rig.add c.beat (delta_of rig now c)
      → tick rig fuel now c ≡ none
  unfolding tick tick_playing
  tick-stuck fuel now c plays above same =
      rw (plays, wrap_beat-stuck fuel (rig.add c.beat (delta_of rig now c)) above same) refl
