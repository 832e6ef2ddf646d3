-- ===== src/Sequencer/State/Places/Rounds.antt =====
-- Sequences of calls of state.rs, each in a frame of its own.
use mizer.Prelude.{
  ℕ, zero, suc, ◌+◌, ◌<◌, ◌≡◌, refl, ap, ◌∙◌, arith, Bool-cases, ◌⊎◌, inl, inr, true, Option, some,
  List, [], ◌∷◌, length, ltb, if◌then◌else◌, ◌>>=◌,
}
use mizer.Sequencer.Time.{Rig, ClockFrame}
use mizer.Sequencer.Effects.{EffectEngine}
use mizer.Sequencer.Cue.{Sequence}
use mizer.Sequencer.State.{SequenceState, position}
use mizer.Sequencer.State.Places.{Place, idle, at, Call, forward, backward, move, place, call}
use mizer.Sequencer.State.Places.Refines.{call-Does}

module _ (rig : Rig) (sequence : Sequence rig) where
  abbrev n : ℕ
  n = length sequence.cues

  abbrev where_is : ℕ → Option ℕ
  where_is id = position rig id sequence.cues

  unfoldable pub run :
      List (Call × ℕ × ClockFrame rig)
      → SequenceState rig × EffectEngine rig
      → Option (SequenceState rig × EffectEngine rig)
  run [] r = some r
  run ((c, now, frame) ∷ calls) (s, e) = call rig sequence now frame c s e >>= run calls

  unfoldable pub moves : List (Call × ℕ × ClockFrame rig) → Place → Place
  moves [] p = p
  moves ((c, _, _) ∷ calls) p = moves calls (move sequence.wrap_around n where_is c p)

  -- Calls of a sequence that has cues all return, from the state that a sequence starts with or any
  -- other with its index among the cues, and the place is where they are promised to move it.
  pub run-moves :
      (calls : List (Call × ℕ × ClockFrame rig)) (s : SequenceState rig) (e : EffectEngine rig)
      → s.active_cue_index < n
      → (s' : SequenceState rig) × (e' : EffectEngine rig) × (run calls (s, e) ≡ some (s', e'))
        × (place s' ≡ moves calls (place s))
        × (s'.active_cue_index < n)
  unfolding run moves
  run-moves [] s e h = (s, e, refl, refl, h)
  run-moves ((c, now, frame) ∷ calls) s e h =
      let (s₁, e₁, eq, p, h₁, _, _) = call-Does rig sequence now frame c s e h in
      let (s', e', eq', p', h') = run-moves calls s₁ e₁ h₁ in
      (s', e', ap (λ r. r >>= run calls) eq ∙ eq', p' ∙ ap (moves calls) p, h')

  unfoldable pub repeat : ℕ → Call × ℕ × ClockFrame rig → List (Call × ℕ × ClockFrame rig)
  repeat zero c = []
  repeat (suc k) c = c ∷ repeat k c

  back_forth :
      (i : ℕ)
      → i < n
      → (i + 1 < n) ⊎ (sequence.wrap_around ≡ true)
      → move sequence.wrap_around n where_is backward
          (move sequence.wrap_around n where_is forward (at i))
        ≡ at i
  unfolding move
  back_forth i h (inl t) = ground (arith, t)
  back_forth i h (inr w) = elim (Bool-cases (ltb (i + 1) n)) [
    | inl t ↦ ground (arith, t)
    | inr t ↦ ground (arith, t, h, w)
  ]

  -- A running sequence, at a cue that is not the last, or any cue where the sequence wraps around, is at
  -- the same cue again after `go` and `go_backward`.
  pub go_backward-go :
      (s : SequenceState rig) (e : EffectEngine rig) (now later : ℕ) (frame frame' : ClockFrame rig)
      → s.active_cue_index < n
      → s.active ≡ true
      → (s.active_cue_index + 1 < n) ⊎ (sequence.wrap_around ≡ true)
      → (s' : SequenceState rig) × (e' : EffectEngine rig) × (run
            ((forward, now, frame) ∷ (backward, later, frame') ∷ [])
            (s, e)
          ≡ some (s', e'))
        × (place s' ≡ at s.active_cue_index)
  unfolding place moves
  go_backward-go s e now later frame frame' h a t =
      let (s', e', eq, p, _) =
        run-moves ((forward, now, frame) ∷ (backward, later, frame') ∷ []) s e h in
      (
        s',
        e',
        eq,
        p
            ∙ ap
                (λ b. move sequence.wrap_around n where_is backward (
                  move sequence.wrap_around n where_is forward
                    (if b then at s.active_cue_index else idle)))
                a
            ∙ back_forth s.active_cue_index h t,
      )
