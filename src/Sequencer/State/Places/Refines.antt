-- ===== src/Sequencer/State/Places/Refines.antt =====
-- The calls of state.rs against what is promised of the place.
use mizer.Prelude.{
  ℕ, ◌≡◌, ◌<◌, refl, ap, ◌∙◌, arith, Option-cases, inl, inr, Option, some, List, [], ◌∷◌, length,
  if◌then◌else◌,
}
use mizer.Sequencer.Time.{Rig, ClockFrame}
use mizer.Sequencer.Effects.{EffectEngine}
use mizer.Sequencer.Cue.{Cue, Sequence}
use mizer.Sequencer.State.{
  Running, SequenceState, stop_effects, stop, go, go_backward, position, jump, go_to,
}
use mizer.Sequencer.State.Places.{
  Place, idle, at, Call, forward, backward, halt, to_cue, move, place, call, hits,
}
use mizer.Sequencer.State.Places.Arrives.{
  Arrives, stop-Arrives, go-Arrives, go_backward-Arrives, jump-Arrives,
}

module _ (rig : Rig) (sequence : Sequence rig) (now : ℕ) (frame : ClockFrame rig) where
  abbrev pub n : ℕ
  n = length sequence.cues

  abbrev pub where_is : ℕ → Option ℕ
  where_is id = position rig id sequence.cues

  -- The call returns, with the place that is promised, an index of a cue, and these effects and engine.
  abbrev pub Does :
      Option (SequenceState rig × EffectEngine rig)
      → Place
      → Running rig
      → EffectEngine rig
      → Type 0
  Does r p running e₀ =
      (s : SequenceState rig) × (e : EffectEngine rig) × (r ≡ some (s, e))
      × (place s ≡ p)
      × (s.active_cue_index < n)
      × (s.running_effects ≡ running)
      × (e ≡ e₀)

  Arrives-Does :
      (r : Option (SequenceState rig × EffectEngine rig)) (p : Place) (e₀ : EffectEngine rig)
      → Arrives rig sequence now frame r p e₀
      → Does r p [] e₀
  unfolding place
  Arrives-Does r p e₀ (a, i, h, q, (s, e, eq, sa, si, sr, se)) =
      (s, e, eq, ground (arith, sa, si, q), omega (arith, si, h), sr, se)

  position-lt :
      (id : ℕ) (cues : List (Cue rig)) (i : ℕ) → position rig id cues ≡ some i → i < length cues
  unfolding position
  position-lt id [] i h = ground arith
  position-lt id (cue ∷ cues) i h = elim (Option-cases (position rig id cues)) [
    | inl e ↦ ground (arith, e, h)
    | inr (j, e) ↦ ground (arith, e, h, position-lt id cues j e)
  ]

  to_cue-Does :
      (s : SequenceState rig) (e : EffectEngine rig) (id : ℕ)
      → s.active_cue_index < n
      → Does
          (call rig sequence now frame (to_cue id) s e)
          (move sequence.wrap_around n where_is (to_cue id) (place s))
          (if hits rig sequence (to_cue id) then [] else s.running_effects)
          (if hits rig sequence (to_cue id) then (stop_effects rig s e).1 else e)
  unfolding call go_to move hits
  to_cue-Does s e id h = elim (Option-cases (where_is id)) [
    | inl q ↦ (s, e, ground (arith, q), ground (arith, q), h, ground (arith, q), ground (arith, q))
    | inr (i, q) ↦
        let (s', e', eq, p, r, u, v) =
          Arrives-Does (jump rig (some i) s sequence e now frame) (at i) (stop_effects rig s e).1
            (jump-Arrives rig sequence now frame s e i (position-lt id sequence.cues i q)) in
        (
          s',
          e',
          ap (λ o. jump rig o s sequence e now frame) q ∙ eq,
          ground (arith, q, p),
          r,
          ground (arith, q, u),
          ground (arith, q, v),
        )
  ]

  pub call-Does :
      (c : Call) (s : SequenceState rig) (e : EffectEngine rig)
      → s.active_cue_index < n
      → Does
          (call rig sequence now frame c s e)
          (move sequence.wrap_around n where_is c (place s))
          (if hits rig sequence c then [] else s.running_effects)
          (if hits rig sequence c then (stop_effects rig s e).1 else e)
  unfolding call move hits
  call-Does forward s e h =
      Arrives-Does (go rig s sequence e now frame)
        (move sequence.wrap_around n where_is forward (place s)) (stop_effects rig s e).1
        (go-Arrives rig sequence now frame s e h)
  call-Does backward s e h =
      Arrives-Does (go_backward rig s sequence e now frame)
        (move sequence.wrap_around n where_is backward (place s)) (stop_effects rig s e).1
        (go_backward-Arrives rig sequence now frame s e h)
  call-Does halt s e h =
      Arrives-Does (stop rig s sequence e now frame) idle (stop_effects rig s e).1 (
        stop-Arrives rig sequence now frame s e (stop rig s sequence e now frame) (omega (arith, h))
          refl)
  call-Does (to_cue id) s e h = to_cue-Does s e id h
