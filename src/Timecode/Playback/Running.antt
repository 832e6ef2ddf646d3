-- ===== src/Timecode/Playback/Running.antt =====
-- Timecode tracks that play.
use mizer.Prelude.{◌≡◌, refl, ◌∙◌, arith, ℕ, ◌+◌, some}
use mizer.Prelude.Int.{pos, ◌-ℤ◌}
use mizer.Prelude.Maps.{lookup, insert, nat_eq, lookup-insert_self}
use mizer.Timecode.{Splines, TimecodeState, TimecodeManager, default_state, map_values}
use mizer.Timecode.MapValues.{lookup-map_values}
use mizer.Timecode.Playback.{
  elapsed, write_timestamp, start_timecode_track, stop_timecode_track, update_state, advanced,
  advance_timecodes,
}

elapsed_since : (now d t : ℕ) → elapsed (now + d) (pos now -ℤ pos t) ≡ t + d
unfolding elapsed
elapsed_since now d t = ground arith

elapsed_from : (now d : ℕ) → elapsed (now + d) (pos now) ≡ d
unfolding elapsed
elapsed_from now d = ground arith

module _ (splines : Splines) (now d id : ℕ) (m : TimecodeManager splines) (s : TimecodeState)
    (found : lookup id m.timecode_states ≡ some s) where
  at :
      (s' : TimecodeState)
      → lookup id (
          map_values
            (λ id s. advanced splines (now + d) s.start_point s)
            (insert id s' m.timecode_states))
        ≡ some (advanced splines (now + d) s'.start_point s')
  at s' =
      lookup-map_values (λ _ s. advanced splines (now + d) s.start_point s) id s'
        (insert id s' m.timecode_states) (lookup-insert_self id s' m.timecode_states)

  -- A timecode that the manager has runs on from the timestamp that was written at some moment, by the
  -- time that has passed when the timecodes are advanced; it runs from zero when it was started then;
  -- and it rests at zero when it was stopped.
  pub advance-each :
      (t : ℕ)
      → (lookup id
            (advance_timecodes splines
              (now + d)
              (write_timestamp splines now id t m)).timecode_states
          ≡ some (record { start_point = some (pos now -ℤ pos t); timestamp = t + d }))
        × (lookup id
              (advance_timecodes splines
                (now + d)
                (start_timecode_track splines now id m)).timecode_states
            ≡ some (record { start_point = some (pos now); timestamp = d }))
        × (lookup id
              (advance_timecodes splines
                (now + d)
                (stop_timecode_track splines id m)).timecode_states
            ≡ some default_state)
  unfolding write_timestamp start_timecode_track stop_timecode_track update_state advance_timecodes
      advanced
  advance-each t = (
    rw found (
        at (record { start_point = some (pos now -ℤ pos t); timestamp = t })
        ∙ rw (elapsed_since now d t) refl),
    rw found (at (record s { start_point = some (pos now) }) ∙ rw (elapsed_from now d) refl),
    rw found (at default_state),
  )
