-- ===== src/Sequencer/Run/Frame.antt =====
-- One frame of `Sequence::run` of sequence.rs.
use mizer.Prelude.{
  ◌&&◌, leb, ℕ, ◌<◌, ◌≡◌, refl, sym, ap, ◌∙◌, arith, Bool, true, false, Bool-cases, inl, inr,
  >>=-some, Option, none, some, List, [], ◌∷◌, length, get_elem?, if◌then◌else◌, ◌>>=◌, subst,
}
use mizer.Prelude.Maps.{Map}
use mizer.Fixtures.Selection.{Itertools}
use mizer.Sequencer.Time.{Rig, ClockFrame, timestamp}
use mizer.Sequencer.Effects.{EffectEngine, run_effect}
use mizer.Sequencer.Cue.{Cue, CueEffect, Sequence}
use mizer.Sequencer.State.{SequenceState, CueChannel, Key, go, get_next_cue}
use mizer.Sequencer.State.Places.{forward, call}
use mizer.Sequencer.State.Places.Refines.{call-Does}
use mizer.Sequencer.Progress.{
  update_timestamps_based_on_rate, measure, should_go, update_state, is_cue_finished, is_done,
  step_controls,
}
use mizer.Sequencer.Run.Own.{AreOwn, run_controls-Keeps, run_presets-Keeps}
use mizer.Sequencer.Run.{
  Write, Presets, run_controls, run_presets, run_effects, run_one, started, go_if_due, go_if_over,
  go_if_out, run_cue, run_active, run, is_last, running_id,
}

module _ (it : Itertools) (rig : Rig) (sequence : Sequence rig) (now : ℕ)
    (frame : ClockFrame rig) where
  abbrev n : ℕ
  n = length sequence.cues

  abbrev index_of : Option (SequenceState rig) → Option ℕ
  index_of o = o >>= λ s. some s.active_cue_index

  some-eq : (a b : ℕ) → some a ≡ some b → a ≡ b
  some-eq a b e = ground (arith, e)

  go-lt :
      (s s' : SequenceState rig) (e e' : EffectEngine rig)
      → s.active_cue_index < n
      → go rig s sequence e now frame ≡ some (s', e')
      → s'.active_cue_index < n
  unfolding call
  go-lt s s' e e' h eq =
      let (s₁, e₁, q, _, lt, _, _) = call-Does rig sequence now frame forward s e h in
      let same = some-eq s₁.active_cue_index s'.active_cue_index (
        ap
          (λ (o : Option (SequenceState rig × EffectEngine rig)).
            o >>= λ r. some r.0.active_cue_index)
          (sym q ∙ eq)) in
      omega (arith, lt, same)

  update_timestamps-index :
      (s s' : SequenceState rig)
      → update_timestamps_based_on_rate rig s now frame ≡ some s'
      → s.active_cue_index ≡ s'.active_cue_index
  unfolding update_timestamps_based_on_rate
  update_timestamps-index s s' e =
      let (a, _, e₁) =
        >>=-some (measure rig s.last_go s.duration_since_last_go now frame s.rate)
          (λ since_go.
            measure rig s.cue_finished_at s.duration_since_finished_at now frame s.rate
            >>= λ since_end. some (record s {
              duration_since_last_go = since_go;
              duration_since_finished_at = since_end;
            }))
          s' e in
      let (b, _, e₂) =
        >>=-some (measure rig s.cue_finished_at s.duration_since_finished_at now frame s.rate)
          (λ since_end.
            some (record s { duration_since_last_go = a; duration_since_finished_at = since_end }))
          s' e₁ in
      some-eq s.active_cue_index s'.active_cue_index (ap index_of e₂)

  update_state-index :
      (cue : Cue rig) (s s' : SequenceState rig)
      → update_state rig cue sequence s now frame ≡ some s'
      → s.active_cue_index ≡ s'.active_cue_index
  unfolding update_state
  update_state-index cue s s' e =
      let stepped = step_controls rig cue sequence now frame s.rate cue.controls s.channel_state in
      let done = λ (m : Map (Key rig) (CueChannel rig)). some (record s {
        channel_state = m;
        cue_finished_at = if is_done rig s then some (timestamp rig now frame) else none;
      }) in
      elim (Bool-cases (is_cue_finished rig s)) [
        | inl t ↦
            some-eq s.active_cue_index s'.active_cue_index (
              ap index_of (sym (ap (λ (b : Bool). if b then some s else (stepped >>= done)) t) ∙ e))
        | inr t ↦
            let (m, _, e₂) =
              >>=-some stepped done s'
                (sym (ap (λ (b : Bool). if b then some s else (stepped >>= done)) t) ∙ e) in
            some-eq s.active_cue_index s'.active_cue_index (ap index_of e₂)
      ]

  abbrev Result : Type 0
  Result = Option (SequenceState rig × EffectEngine rig)

  same-lt :
      (s s' : SequenceState rig) (e e' : EffectEngine rig)
      → s.active_cue_index < n
      → ◌≡◌ {A = Result} (some (s, e)) (some (s', e'))
      → s'.active_cue_index < n
  same-lt s s' e e' h eq = omega (
    arith,
    h,
    some-eq s.active_cue_index s'.active_cue_index
        (ap (λ (o : Result). o >>= λ r. some r.0.active_cue_index) eq),
  )

  go_or_stay-lt :
      (b : Bool) (s s' : SequenceState rig) (e e' : EffectEngine rig)
      → s.active_cue_index < n
      → (if b then go rig s sequence e now frame else some (s, e)) ≡ some (s', e')
      → s'.active_cue_index < n
  go_or_stay-lt true s s' e e' h eq = go-lt s s' e e' h eq
  go_or_stay-lt false s s' e e' h eq = same-lt s s' e e' h eq

  go_if_due-lt :
      (next : Option (Cue rig)) (s s' : SequenceState rig) (e e' : EffectEngine rig)
      → s.active_cue_index < n
      → go_if_due it rig next sequence now frame (s, e) ≡ some (s', e')
      → s'.active_cue_index < n
  unfolding go_if_due
  go_if_due-lt none s s' e e' h eq = same-lt s s' e e' h eq
  go_if_due-lt (some next) s s' e e' h eq =
      let (due, _, eq') =
        >>=-some (should_go rig next s)
          (λ due. if due then go rig s sequence e now frame else some (s, e)) (s', e') eq in
      go_or_stay-lt due s s' e e' h eq'

  go_if_over-lt :
      (s s' : SequenceState rig) (e e' : EffectEngine rig)
      → s.active_cue_index < n
      → go_if_over it rig sequence now frame (s, e) ≡ some (s', e')
      → s'.active_cue_index < n
  unfolding go_if_over
  go_if_over-lt s s' e e' h eq =
      let (next, _, eq') =
        >>=-some (get_next_cue rig s sequence)
          (λ next.
            if is_last it rig next && is_cue_finished rig s && sequence.stop_on_last_cue
            then go rig s sequence e now frame
            else some (s, e))
          (s', e') eq in
      go_or_stay-lt (is_last it rig next && is_cue_finished rig s && sequence.stop_on_last_cue) s s'
        e e' h eq'

  go_if_out-lt :
      (s s' : SequenceState rig) (e e' : EffectEngine rig)
      → s.active_cue_index < n
      → go_if_out it rig sequence now frame (s, e) ≡ some (s', e')
      → s'.active_cue_index < n
  unfolding go_if_out
  go_if_out-lt s s' e e' h eq = go_or_stay-lt (leb n s.active_cue_index) s s' e e' h eq

  started-index :
      (effect : CueEffect rig) (o : EffectEngine rig × Option ℕ) (s : SequenceState rig)
      → (started it rig effect o s).0.active_cue_index ≡ s.active_cue_index
  unfolding started
  started-index effect (e, none) s = refl
  started-index effect (e, some id) s = refl

  run_one-index :
      (effect : CueEffect rig) (o : Option ℕ) (r : SequenceState rig × EffectEngine rig)
      → (run_one it rig sequence effect o r).0.active_cue_index ≡ r.0.active_cue_index
  unfolding run_one
  run_one-index effect (some id) (s, e) = refl
  run_one-index effect none (s, e) =
      started-index effect
        (run_effect rig e effect.effect effect.fixtures s.rate effect.effect_offset
          sequence.priority)
        s

  run_effects-index :
      (effects : List (CueEffect rig)) (r : SequenceState rig × EffectEngine rig)
      → (run_effects it rig sequence effects r).0.active_cue_index ≡ r.0.active_cue_index
  unfolding run_effects
  run_effects-index [] r = refl
  run_effects-index (effect ∷ effects) r =
      run_effects-index effects
        (run_one it rig sequence effect (running_id it rig effect r.0.running_effects) r)
      ∙ run_one-index effect (running_id it rig effect r.0.running_effects) r

  abbrev Outcome : Type 0
  Outcome = SequenceState rig × EffectEngine rig × List (Write rig)

  -- The index is among the cues, and what is written is of the sequence.
  abbrev IsFine : Option Outcome → Type 0
  IsFine none = Unit
  IsFine (some (s, e, ws)) = (s.active_cue_index < n) × AreOwn it rig sequence now frame ws

  run_cue-IsFine :
      (presets : Presets rig) (o : Option (Cue rig)) (s : SequenceState rig) (e : EffectEngine rig)
      (r : Outcome)
      → s.active_cue_index < n
      → run_cue it rig presets sequence now frame o (s, e) ≡ some r
      → IsFine (some r)
  unfolding run_cue
  run_cue-IsFine presets none s e r h eq = subst IsFine eq (h, tt)
  run_cue-IsFine presets (some cue) s e r h eq =
      let (s₁, e₁, eq₁) =
        >>=-some (update_state rig cue sequence s now frame)
          (λ s₁. run_controls it rig sequence cue cue.controls (s₁, []) >>= λ r.
            run_presets it rig presets sequence cue cue.presets r >>= λ (s₂, ws).
            let (s₃, e') = run_effects it rig sequence cue.effects (s₂, e) in some (s₃, e', ws))
          r eq in
      let (r₂, e₂, eq₂) =
        >>=-some (run_controls it rig sequence cue cue.controls (s₁, []))
          (λ r. run_presets it rig presets sequence cue cue.presets r >>= λ (s₂, ws).
            let (s₃, e') = run_effects it rig sequence cue.effects (s₂, e) in some (s₃, e', ws))
          r eq₁ in
      let (r₃, e₃, eq₃) =
        >>=-some (run_presets it rig presets sequence cue cue.presets r₂)
          (λ (s₂, ws).
            let (s₃, e') = run_effects it rig sequence cue.effects (s₂, e) in some (s₃, e', ws))
          r eq₂ in
      let (i₂, own₂) =
        run_controls-Keeps it rig sequence now frame cue cue.controls (s₁, []) r₂ e₂ tt in
      let (i₃, own₃) =
        run_presets-Keeps it rig sequence now frame presets cue cue.presets r₂ r₃ e₃ own₂ in
      subst IsFine eq₃ (
        omega (
          arith,
          h,
          update_state-index cue s s₁ e₁,
          i₂,
          i₃,
          run_effects-index cue.effects (r₃.0, e),
        ),
        own₃,
      )

  run_active-IsFine :
      (presets : Presets rig) (s : SequenceState rig) (e : EffectEngine rig) (r : Outcome)
      → s.active_cue_index < n
      → run_active it rig presets sequence s e now frame ≡ some r
      → IsFine (some r)
  unfolding run_active
  run_active-IsFine presets s e r h eq =
      let last = λ (r : SequenceState rig × EffectEngine rig).
        run_cue it rig presets sequence now frame (get_elem? sequence.cues r.0.active_cue_index)
          r in
      let (s₁, e₁, eq₁) =
        >>=-some (update_timestamps_based_on_rate rig s now frame)
          (λ s₁. get_next_cue rig s₁ sequence >>= λ next.
            go_if_due it rig next sequence now frame (s₁, e) >>= λ r₁.
            go_if_over it rig sequence now frame r₁ >>= λ r₂.
            go_if_out it rig sequence now frame r₂ >>= last)
          r eq in
      let (next, _, eq₂) =
        >>=-some (get_next_cue rig s₁ sequence)
          (λ next. go_if_due it rig next sequence now frame (s₁, e) >>= λ r₁.
            go_if_over it rig sequence now frame r₁ >>= λ r₂.
            go_if_out it rig sequence now frame r₂ >>= last)
          r eq₁ in
      let ((s₂, en₂), e₂, eq₃) =
        >>=-some (go_if_due it rig next sequence now frame (s₁, e))
          (λ r₁. go_if_over it rig sequence now frame r₁ >>= λ r₂.
            go_if_out it rig sequence now frame r₂ >>= last)
          r eq₂ in
      let ((s₃, en₃), e₃, eq₄) =
        >>=-some (go_if_over it rig sequence now frame (s₂, en₂))
          (λ r₂. go_if_out it rig sequence now frame r₂ >>= last) r eq₃ in
      let ((s₄, en₄), e₄, eq₅) =
        >>=-some (go_if_out it rig sequence now frame (s₃, en₃)) last r eq₄ in
      let h₁ : s₁.active_cue_index < n = omega (arith, h, update_timestamps-index s s₁ e₁) in
      let h₂ = go_if_due-lt next s₁ s₂ e en₂ h₁ e₂ in
      let h₃ = go_if_over-lt s₂ s₃ en₂ en₃ h₂ e₃ in
      let h₄ = go_if_out-lt s₃ s₄ en₃ en₄ h₃ e₄ in
      run_cue-IsFine presets (get_elem? sequence.cues s₄.active_cue_index) s₄ en₄ r h₄ eq₅

  run_if-IsFine :
      (b : Bool) (presets : Presets rig) (s : SequenceState rig) (e : EffectEngine rig)
      (r : Outcome)
      → s.active_cue_index < n
      → (if b then run_active it rig presets sequence s e now frame else some (s, e, [])) ≡ some r
      → IsFine (some r)
  run_if-IsFine true presets s e r h eq = run_active-IsFine presets s e r h eq
  run_if-IsFine false presets s e r h eq = subst IsFine eq (h, tt)

  -- A frame of a sequence, of which the index is among the cues, leaves the index among the cues if it
  -- returns, and every value that it writes has the priority of the sequence and names it.
  pub run-AreOwn :
      (presets : Presets rig) (s s' : SequenceState rig) (e e' : EffectEngine rig)
      (ws : List (Write rig))
      → s.active_cue_index < n
      → run it rig presets sequence s e now frame ≡ some (s', e', ws)
      → (s'.active_cue_index < n) × AreOwn it rig sequence now frame ws
  unfolding run
  run-AreOwn presets s s' e e' ws h eq = run_if-IsFine s.active presets s e (s', e', ws) h eq
