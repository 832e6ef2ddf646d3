-- ===== src/Sequencer/Edits/Inside.antt =====
-- Changes of a cue, of a control and of an effect in a sequence, and the changes that take them back.
use mizer.Prelude.{◌≡◌, refl, arith, ℕ, List}
use mizer.Prelude.Maps.{nat_eq}
use mizer.Commander.Executor.{Result, ok, err}
use mizer.Commander.Find.{at_index}
use mizer.Commander.Find.Laws.{Undoes, Keeps, at_first-Undoes, at_index-Undoes}
use mizer.Sequencer.Time.{Rig}
use mizer.Sequencer.Cue.{Cue, CueControl, CueEffect, Sequence}
use mizer.Sequencer.Edits.{
  unknown_cue, unknown_effect, out_of_bounds, has_id, has_effect, with_cues, with_controls,
  with_effects, get_cue, get_control, get_effect,
}

module _ (rig : Rig) where
  module _ {B : Type 0} where
    with_cues-ok :
        (s s' : Sequence rig) (r : Result (List (Cue rig) × B)) (b : B)
        → with_cues rig s r ≡ ok (s', b)
        → (cs : List (Cue rig)) × (r ≡ ok (cs, b)) × (s' ≡ record s { cues = cs })
    unfolding with_cues
    with_cues-ok s s' (ok (cs, b')) b h = (cs, ground arith, ground arith)
    with_cues-ok s s' (err e) b h = ground arith

    with_controls-ok :
        (c c' : Cue rig) (r : Result (List (CueControl rig) × B)) (b : B)
        → with_controls rig c r ≡ ok (c', b)
        → (cs : List (CueControl rig)) × (r ≡ ok (cs, b)) × (c' ≡ record c { controls = cs })
    unfolding with_controls
    with_controls-ok c c' (ok (cs, b')) b h = (cs, ground arith, ground arith)
    with_controls-ok c c' (err e) b h = ground arith

    with_effects-ok :
        (c c' : Cue rig) (r : Result (List (CueEffect rig) × B)) (b : B)
        → with_effects rig c r ≡ ok (c', b)
        → (es : List (CueEffect rig)) × (r ≡ ok (es, b)) × (c' ≡ record c { effects = es })
    unfolding with_effects
    with_effects-ok c c' (ok (es, b')) b h = (es, ground arith, ground arith)
    with_effects-ok c c' (err e) b h = ground arith

    pub get_cue-Undoes :
        (id : ℕ) (f : Cue rig → Result (Cue rig × B))
        (g : B → Cue rig → Result (Cue rig × Unit {0}))
        → Undoes f g
        → Keeps (has_id rig id) f
        → Undoes (get_cue rig id f) (λ b. get_cue rig id (g b))
    unfolding get_cue with_cues
    get_cue-Undoes id f g back keeps s s' b h =
        let (cs, done, shape) = with_cues-ok s s' _ b h in
        rw (shape, at_first-Undoes unknown_cue f g back (has_id rig id) keeps s.cues cs b done) refl

    module _ (i : ℕ) (f : CueControl rig → Result (CueControl rig × B))
        (g : B → CueControl rig → Result (CueControl rig × Unit {0})) (back : Undoes f g) where
      abbrev on_controls : Cue rig → Result (Cue rig × B)
      on_controls c = with_controls rig c (at_index i out_of_bounds f c.controls)

      abbrev back_controls : B → Cue rig → Result (Cue rig × Unit {0})
      back_controls b c = with_controls rig c (at_index i out_of_bounds (g b) c.controls)

      on_controls-Undoes : Undoes on_controls back_controls
      unfolding with_controls
      on_controls-Undoes c c' b h =
          let (cs, done, shape) = with_controls-ok c c' _ b h in
          rw (shape, at_index-Undoes out_of_bounds f g back i c.controls cs b done) refl

      on_controls-Keeps : (id : ℕ) → Keeps (has_id rig id) on_controls
      on_controls-Keeps id c c' b h found =
          let (cs, done, shape) = with_controls-ok c c' _ b h in rw shape found

      pub get_control-Undoes :
          (id : ℕ) → Undoes (get_control rig id i f) (λ b. get_control rig id i (g b))
      unfolding get_control
      get_control-Undoes id =
          get_cue-Undoes id on_controls back_controls on_controls-Undoes (on_controls-Keeps id)

    module _ (id : ℕ) (f : CueEffect rig → Result (CueEffect rig × B))
        (g : B → CueEffect rig → Result (CueEffect rig × Unit {0})) (back : Undoes f g)
        (keeps : Keeps (has_effect rig id) f) where
      pub get_effect-Undoes : Undoes (get_effect rig id f) (λ b. get_effect rig id (g b))
      unfolding get_effect with_effects
      get_effect-Undoes c c' b h =
          let (es, done, shape) = with_effects-ok c c' _ b h in
          rw
            (
              shape,
              at_first-Undoes unknown_effect f g back (has_effect rig id) keeps c.effects es b done,
            )
            refl

      pub get_effect-Keeps : (cue_id : ℕ) → Keeps (has_id rig cue_id) (get_effect rig id f)
      unfolding get_effect
      get_effect-Keeps cue_id c c' b h found =
          let (es, done, shape) = with_effects-ok c c' _ b h in rw shape found
