-- ===== src/Sequencer/Progress/Monotone.antt =====
-- The stages of the channels of a cue in `update_state` of cue.rs.
use mizer.Prelude.{
  subst, ◌↔◌, ℕ, ◌+◌, ◌≤◌, ◌≡◌, refl, sym, ap, ◌∙◌, arith, Bool, Bool-cases, inl, inr, >>=-some,
  Option, none, some, List, [], ◌∷◌, if◌then◌else◌, ◌>>=◌,
}
use mizer.Prelude.Maps.{Map, lookup, insert, lookup-insert}
use mizer.Fixtures.Id.{FixtureId, id_eq}
use mizer.Sequencer.Time.{
  Rig, ClockFrame, SequenceDuration, forward, has_passed, timestamp, rate_matched,
}
use mizer.Sequencer.Cue.{Cue, CueControl, Sequence}
use mizer.Sequencer.State.{
  SequenceState, CueChannel, CueChannelState, delay, fading, active, Key, key_beq, key_beq_iff,
  key_eq,
}
use mizer.Sequencer.Progress.{
  advance, advance_from, step_channel, step_fixtures, step_controls, durations, update_state,
  is_cue_finished, is_done,
}

-- How far a channel is: nowhere, waiting, fading, at the end
abbrev pub stage : CueChannelState → ℕ
stage delay = 1
stage fading = 2
stage active = 3

abbrev pub stage_of : {rig : Rig} → Option (CueChannel rig) → ℕ
stage_of none = 0
stage_of (some c) = stage c.state

module _ (rig : Rig) (now : ℕ) (frame : ClockFrame rig) (rate : rig.F64) where
  advance-stage :
      (c c' : CueChannel rig) (next : CueChannelState) (t : Option (SequenceDuration rig))
      → stage c.state ≤ stage next
      → stage next ≤ stage c.state + 1
      → advance rig c next t now frame rate ≡ some c'
      → (stage c.state ≤ stage c'.state) × (stage c'.state ≤ stage c.state + 1)
  unfolding advance
  advance-stage c c' next none h h' e = ground arith
  advance-stage c c' next (some t) h h' e =
      let after : CueChannel rig = record {
        state = next;
        start_time = timestamp rig now frame;
        duration = rate_matched rig (timestamp rig now frame);
      } in
      let (d, _, e') =
        >>=-some (forward rig c.duration now frame rate)
          (λ d. some (if has_passed rig d t then after else record c { duration = d })) c' e in
      elim (Bool-cases (has_passed rig d t)) [
        | inl p ↦ ground (
          arith,
          h,
          h',
          ap (λ (b : Bool). stage_of (some (if b then after else record c { duration = d }))) p,
          ap stage_of e',
        )
        | inr p ↦ ground (
          arith,
          h,
          h',
          ap (λ (b : Bool). stage_of (some (if b then after else record c { duration = d }))) p,
          ap stage_of e',
        )
      ]

  advance_from-stage :
      (s : CueChannelState) (c c' : CueChannel rig) (d f : Option (SequenceDuration rig))
      → c.state ≡ s
      → advance_from rig s c d f now frame rate ≡ some c'
      → (stage c.state ≤ stage c'.state) × (stage c'.state ≤ stage c.state + 1)
  unfolding advance_from
  advance_from-stage delay c c' d f q e =
      advance-stage c c' fading d (ground (arith, q)) (ground (arith, q)) e
  advance_from-stage fading c c' d f q e =
      advance-stage c c' active f (ground (arith, q)) (ground (arith, q)) e
  advance_from-stage active c c' d f q e = ground (arith, e)

  -- Each channel stays, or goes on, and none appears or goes.
  abbrev GoesOn : Map (Key rig) (CueChannel rig) → Map (Key rig) (CueChannel rig) → Type 0
  GoesOn m m' =
      (k : Key rig)
      → (stage_of (lookup ⦃e = key_eq rig⦄ k m) ≤ stage_of (lookup ⦃e = key_eq rig⦄ k m'))
        × ((stage_of (lookup ⦃e = key_eq rig⦄ k m) ≡ 0)
            ↔ (stage_of (lookup ⦃e = key_eq rig⦄ k m') ≡ 0))

  GoesOn-trans :
      (m m' m'' : Map (Key rig) (CueChannel rig)) → GoesOn m m' → GoesOn m' m'' → GoesOn m m''
  GoesOn-trans m m' m'' h h' k =
      (omega (arith, (h k).0, (h' k).0), ground (arith, (h k).1, (h' k).1))

  stage-pos : (s : CueChannelState) → 1 ≤ stage s
  stage-pos s = ground arith

  GoesOn-eq :
      (m m' m'' : Map (Key rig) (CueChannel rig)) → GoesOn m m' → some m' ≡ some m'' → GoesOn m m''
  GoesOn-eq m m' m'' h e = subst (GoesOn m) (ground (arith, e)) h

  GoesOn-refl : (m : Map (Key rig) (CueChannel rig)) → GoesOn m m
  GoesOn-refl m k = (omega arith, (λ x. x, λ x. x))

  insert-GoesOn :
      (k : Key rig) (c c' : CueChannel rig) (m : Map (Key rig) (CueChannel rig))
      → lookup ⦃e = key_eq rig⦄ k m ≡ some c
      → stage c.state ≤ stage c'.state
      → GoesOn m (insert ⦃e = key_eq rig⦄ k c' m)
  insert-GoesOn k c c' m q h j =
      let l = ap stage_of (lookup-insert ⦃e = key_eq rig⦄ k j c' m) in
      elim (Bool-cases (key_beq rig k j)) [
        | inl t ↦
            let at_j =
              ap (λ k. stage_of (lookup ⦃e = key_eq rig⦄ k m)) (sym ((key_beq_iff rig k j).0 t))
              ∙ ap stage_of q in
            let l' =
              l
              ∙ ap (λ (b : Bool). stage_of (if b then some c' else lookup ⦃e = key_eq rig⦄ j m))
                  t in
            (
              omega (arith, h, at_j, l'),
              (
                λ z. absurd (omega (arith, z, at_j, stage-pos c.state)),
                λ z. absurd (omega (arith, z, l', stage-pos c'.state)),
              ),
            )
        | inr t ↦
            let l' =
              l
              ∙ ap (λ (b : Bool). stage_of (if b then some c' else lookup ⦃e = key_eq rig⦄ j m))
                  t in
            (omega (arith, l'), (λ z. l' ∙ z, λ z. sym l' ∙ z))
      ]

  step_channel-GoesOn :
      (k : Key rig) (o : Option (CueChannel rig)) (d f : Option (SequenceDuration rig))
      (m m' : Map (Key rig) (CueChannel rig))
      → lookup ⦃e = key_eq rig⦄ k m ≡ o
      → step_channel rig k o d f now frame rate m ≡ some m'
      → GoesOn m m'
  unfolding step_channel
  step_channel-GoesOn k none d f m m' q e = GoesOn-eq m m m' (GoesOn-refl m) e
  step_channel-GoesOn k (some c) d f m m' q e =
      let (c', e₁, e₂) =
        >>=-some (advance_from rig c.state c d f now frame rate)
          (λ c'. some (insert ⦃e = key_eq rig⦄ k c' m)) m' e in
      GoesOn-eq m (insert ⦃e = key_eq rig⦄ k c' m) m'
        (insert-GoesOn k c c' m q (advance_from-stage c.state c c' d f refl e₁).0) e₂

  step_fixtures-GoesOn :
      (control : rig.Control) (ds fs : Map FixtureId (SequenceDuration rig)) (ids : List FixtureId)
      (m m' : Map (Key rig) (CueChannel rig))
      → step_fixtures rig control ds fs now frame rate ids m ≡ some m'
      → GoesOn m m'
  unfolding step_fixtures
  step_fixtures-GoesOn control ds fs [] m m' e = GoesOn-eq m m m' (GoesOn-refl m) e
  step_fixtures-GoesOn control ds fs (id ∷ ids) m m' e =
      let o = lookup ⦃e = key_eq rig⦄ (id, control) m in
      let (m₁, e₁, e₂) =
        >>=-some (step_channel rig (id, control) o (lookup id ds) (lookup id fs) now frame rate m)
          (step_fixtures rig control ds fs now frame rate ids) m' e in
      GoesOn-trans m m₁ m'
        (step_channel-GoesOn (id, control) o (lookup id ds) (lookup id fs) m m₁ refl e₁)
        (step_fixtures-GoesOn control ds fs ids m₁ m' e₂)

  step_controls-GoesOn :
      (cue : Cue rig) (sequence : Sequence rig) (cs : List (CueControl rig))
      (m m' : Map (Key rig) (CueChannel rig))
      → step_controls rig cue sequence now frame rate cs m ≡ some m'
      → GoesOn m m'
  unfolding step_controls
  step_controls-GoesOn cue sequence [] m m' e = GoesOn-eq m m m' (GoesOn-refl m) e
  step_controls-GoesOn cue sequence (c ∷ cs) m m' e =
      let (ds, _, e₁) =
        >>=-some (durations rig cue.cue_delay sequence)
          (λ ds. durations rig cue.cue_fade sequence >>= λ fs.
            step_fixtures rig c.control ds fs now frame rate sequence.fixtures m >>= λ m'.
            step_controls rig cue sequence now frame rate cs m')
          m' e in
      let (fs, _, e₂) =
        >>=-some (durations rig cue.cue_fade sequence)
          (λ fs. step_fixtures rig c.control ds fs now frame rate sequence.fixtures m >>= λ m'.
            step_controls rig cue sequence now frame rate cs m')
          m' e₁ in
      let (m₁, e₃, e₄) =
        >>=-some (step_fixtures rig c.control ds fs now frame rate sequence.fixtures m)
          (λ m'. step_controls rig cue sequence now frame rate cs m') m' e₂ in
      GoesOn-trans m m₁ m' (step_fixtures-GoesOn c.control ds fs sequence.fixtures m m₁ e₃)
        (step_controls-GoesOn cue sequence cs m₁ m' e₄)

-- When `update_state` returns, no channel of the cue has gone back, none has appeared and none has
-- disappeared.
pub update_state-GoesOn :
    (rig : Rig) (cue : Cue rig) (sequence : Sequence rig) (s s' : SequenceState rig) (now : ℕ)
    (frame : ClockFrame rig)
    → update_state rig cue sequence s now frame ≡ some s'
    → (k : Key rig)
    → (stage_of (lookup ⦃e = key_eq rig⦄ k s.channel_state)
        ≤ stage_of (lookup ⦃e = key_eq rig⦄ k s'.channel_state))
      × ((stage_of (lookup ⦃e = key_eq rig⦄ k s.channel_state) ≡ 0)
          ↔ (stage_of (lookup ⦃e = key_eq rig⦄ k s'.channel_state) ≡ 0))
unfolding update_state
update_state-GoesOn rig cue sequence s s' now frame e k =
    let channels =
      λ (o : Option (SequenceState rig)). o >>= λ (s : SequenceState rig). some s.channel_state in
    let stepped = step_controls rig cue sequence now frame s.rate cue.controls s.channel_state in
    let done = λ (m : Map (Key rig) (CueChannel rig)). some (record s {
      channel_state = m;
      cue_finished_at = if is_done rig s then some (timestamp rig now frame) else none;
    }) in
    elim (Bool-cases (is_cue_finished rig s)) [
      | inl t ↦
          GoesOn-eq rig now frame s.rate s.channel_state s.channel_state s'.channel_state
            (GoesOn-refl rig now frame s.rate s.channel_state)
            (ap channels (sym (ap (λ (b : Bool). if b then some s else (stepped >>= done)) t) ∙ e))
            k
      | inr t ↦
          let (m, e₁, e₂) =
            >>=-some stepped done s'
              (sym (ap (λ (b : Bool). if b then some s else (stepped >>= done)) t) ∙ e) in
          GoesOn-eq rig now frame s.rate s.channel_state m s'.channel_state
            (step_controls-GoesOn rig now frame s.rate cue sequence cue.controls s.channel_state m
              e₁)
            (ap channels e₂) k
    ]
