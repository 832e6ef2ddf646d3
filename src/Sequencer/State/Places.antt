-- ===== src/Sequencer/State/Places.antt =====
-- What is promised of a sequence of state.rs: its place, idle or at a cue, after each call.
pub mod Arrives
pub mod Refines
pub mod Rounds
use mizer.Prelude.{
  ◌||◌, ◌||◌, ℕ, zero, suc, ◌+◌, ◌-◌, ◌≡◌, ◌<◌, ◌≤◌, ◌%◌, refl, sym, subst, ap, ◌∙◌, arith, Bool,
  true, false, Bool-cases, ◌⊎◌, inl, inr, Option, none, some, List, [], ◌∷◌, length, get_elem?,
  ◌==◌, leb, ltb, if◌then◌else◌, ◌>>=◌,
}
use mizer.Sequencer.Time.{Rig, ClockFrame, rate_matched}
use mizer.Sequencer.Effects.{EffectEngine, stop_effect}
use mizer.Sequencer.Cue.{Cue, Sequence}
use mizer.Sequencer.State.{
  SequenceState, stop_effects, update_channel_states, stop, next_cue, prev_cue, begin, finish, go,
  go_backward, position, jump, go_to, channels_of, initial_channel_state, stop_all,
}

pub data Place : Type 0 where
  idle : Place
  at : ℕ → Place

-- The calls that move a sequence
pub data Call : Type 0 where
  forward backward halt : Call
  to_cue : ℕ → Call

-- What is promised of a sequence of n cues: `where_is` says at which place the cue with an identifier stands.
unfoldable pub move : Bool → ℕ → (ℕ → Option ℕ) → Call → Place → Place
move wrap n where_is forward idle = at 0
move wrap n where_is forward (at i) =
    if ltb (i + 1) n then at (i + 1) else if wrap then at 0 else idle
move wrap n where_is backward idle = at (n - 1)
move wrap n where_is backward (at i) =
    if i == 0 then if wrap then at (n - 1) else idle else at (i - 1)
move wrap n where_is halt p = idle
move wrap n where_is (to_cue id) p = elim (where_is id) [ none ↦ p | some i ↦ at i ]

unfoldable pub place : {rig : Rig} → SequenceState rig → Place
place s = if s.active then at s.active_cue_index else idle

module _ (rig : Rig) (sequence : Sequence rig) where
  -- Whether the call does anything
  unfoldable pub hits : Call → Bool
  unfolding position
  hits (to_cue id) = elim (position rig id sequence.cues) [ none ↦ false | some _ ↦ true ]
  hits _ = true

module _ (rig : Rig) (sequence : Sequence rig) (now : ℕ) (frame : ClockFrame rig) where
  unfoldable pub call :
      Call → SequenceState rig → EffectEngine rig → Option (SequenceState rig × EffectEngine rig)
  unfolding go go_backward stop go_to
  call forward s e = go rig s sequence e now frame
  call backward s e = go_backward rig s sequence e now frame
  call halt s e = stop rig s sequence e now frame
  call (to_cue id) s e = go_to rig s sequence id e now frame
