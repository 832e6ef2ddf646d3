-- ===== src/Sequencer/Commands/Served.antt =====
-- The order of the sequences that sequencer.rs runs in each frame, and the active states.
use mizer.Prelude.{
  get_elem?, ℕ, ◌≡◌, refl, sym, ap, ◌∙◌, subst, arith, Bool, true, false, Option-cases, >>=-some,
  inl, inr, Option, none, some, List, [], ◌∷◌, ◌==◌, if◌then◌else◌, ◌>>=◌,
}
use mizer.Prelude.Maps.{Map, lookup, insert, erase, lookup-insert, lookup-erase, nat_eq}
use mizer.Sequencer.Time.{Rig, ClockFrame}
use mizer.Sequencer.Effects.{EffectEngine}
use mizer.Sequencer.Cue.{Sequence}
use mizer.Sequencer.State.{
  SequenceState, default_state, go, go_backward, go_to, stop, stop_effects, update_channel_states,
  channels_of,
}
use mizer.Sequencer.Commands.{
  SequencerCommands, go_forward_command, go_backward_command, go_to_command, stop_command,
  set_rate_command, drop_state_command, Sequencer, has, shift_remove, state_of, moved, touched,
  with_sequence, stopped, set_rate, handle_command, handle_commands, handle_all,
}
use mizer.Sequencer.Commands.Order.{has-shift_remove, has-reorder}

abbrev pub active_of : {rig : Rig} → Option (SequenceState rig) → Bool
active_of none = false
active_of (some s) = s.active

abbrev pub exists : {A : Type 0} → Option A → Bool
exists none = false
exists (some a) = true

module _ (rig : Rig) where
  -- An active state of a sequence that exists is in the order.
  unfoldable pub IsServed : Sequencer rig → Type 0
  IsServed q =
      (j : ℕ)
      → exists (lookup j q.sequences) ≡ true
      → active_of (lookup j q.sequence_states) ≡ true
      → has j q.sequence_order ≡ true

  state_of-active :
      (id : ℕ) (q : Sequencer rig)
      → (state_of rig id q).active ≡ active_of (lookup id q.sequence_states)
  unfolding state_of default_state
  state_of-active id q = elim (Option-cases (lookup id q.sequence_states)) [
    | inl e ↦ ground (arith, e)
    | inr (s, e) ↦ ground (arith, e)
  ]

  active-insert :
      (id j : ℕ) (s : SequenceState rig) (m : Map ℕ (SequenceState rig))
      → active_of (lookup j (insert id s m))
        ≡ (if id == j then s.active else active_of (lookup j m))
  active-insert id j s m = ap active_of (lookup-insert id j s m) ∙ ground arith

  moved-IsServed :
      (q : Sequencer rig) (id : ℕ) (r : SequenceState rig × EffectEngine rig)
      → IsServed q
      → IsServed (moved rig q id (state_of rig id q).active r)
  unfolding IsServed moved
  moved-IsServed q id (s, e) h j x a = ground (
    arith,
    h j x,
    a,
    has-reorder id j (state_of rig id q).active s.active q.sequence_order,
    active-insert id j s q.sequence_states,
    state_of-active id q,
  )

  touched-IsServed : (q : Sequencer rig) (id : ℕ) → IsServed q → IsServed (touched rig id q)
  unfolding IsServed touched
  touched-IsServed q id h j x a = ground (
    arith,
    h j x,
    a,
    active-insert id j (state_of rig id q) q.sequence_states,
    state_of-active id q,
  )

  IsServed-eq : (q q' : Sequencer rig) → IsServed q → some q ≡ some q' → IsServed q'
  IsServed-eq q q' h e = subst IsServed (ground (arith, e)) h

  with_sequence-IsServed :
      (q q' : Sequencer rig) (id : ℕ)
      (f : SequenceState rig
        → Sequence rig
        → EffectEngine rig
        → Option (SequenceState rig × EffectEngine rig))
      (o : Option (Sequence rig))
      → IsServed q
      → with_sequence rig q id f o ≡ some q'
      → IsServed q'
  unfolding with_sequence
  with_sequence-IsServed q q' id f none h e =
      IsServed-eq (touched rig id q) q' (touched-IsServed q id h) e
  with_sequence-IsServed q q' id f (some sequence) h e =
      let (r, _, e') =
        >>=-some (f (state_of rig id q) sequence q.engine)
          (λ r. some (moved rig q id (state_of rig id q).active r)) q' e in
      IsServed-eq (moved rig q id (state_of rig id q).active r) q' (moved-IsServed q id r h) e'

  set_rate-IsServed :
      (q : Sequencer rig) (id : ℕ) (rate : rig.F64) (o : Option (SequenceState rig))
      → lookup id q.sequence_states ≡ o
      → IsServed q
      → IsServed (set_rate rig id rate o q)
  unfolding IsServed set_rate
  set_rate-IsServed q id rate none e h j x a = h j x a
  set_rate-IsServed q id rate (some s) e h j x a =
      ground (arith, h j x, a, e, active-insert id j (record s { rate = rate }) q.sequence_states)

  update-inactive :
      (s s' : SequenceState rig) (sequence : Sequence rig) (now : ℕ) (frame : ClockFrame rig)
      → update_channel_states rig s sequence now frame ≡ some s'
      → s'.active ≡ s.active
  unfolding update_channel_states
  update-inactive s s' sequence now frame e =
      let (cue, _, e') =
        >>=-some (get_elem? sequence.cues s.active_cue_index)
          (λ cue. some (record s { channel_state = channels_of rig cue sequence now frame })) s'
          e in
      sym (ap active_of e')

  stop-inactive :
      (s s' : SequenceState rig) (sequence : Sequence rig) (e e' : EffectEngine rig) (now : ℕ)
      (frame : ClockFrame rig)
      → stop rig s sequence e now frame ≡ some (s', e')
      → s'.active ≡ false
  unfolding stop stop_effects
  stop-inactive s s' sequence e e' now frame eq =
      let s₀ : SequenceState rig = record s {
        active = false;
        active_cue_index = 0;
        fixture_values = [];
      } in
      let (s₁, u, v) =
        >>=-some (update_channel_states rig s₀ sequence now frame)
          (λ s'. some (stop_effects rig s' e)) (s', e') eq in
      sym (
        ap (λ (o : Option (SequenceState rig × EffectEngine rig)). active_of (o >>= λ r. some r.0))
          v)
      ∙ update-inactive s₀ s₁ sequence now frame u

  -- After the first part of `Stop`, only the state of the sequence may differ, and it is not active if
  -- the sequence exists.
  Halted : ℕ → Sequencer rig → Sequencer rig → Type 0
  Halted id q q' =
      (q'.sequence_order ≡ q.sequence_order)
      × (q'.sequences ≡ q.sequences)
      × ((j : ℕ)
          → active_of (lookup j q'.sequence_states) ≡ (
              if id == j
              then if exists (lookup id q.sequences)
                then false
                else active_of (lookup j q.sequence_states)
              else active_of (lookup j q.sequence_states)))

  Halted-eq :
      (id : ℕ) (q q' q'' : Sequencer rig) → Halted id q q' → some q' ≡ some q'' → Halted id q q''
  Halted-eq id q q' q'' h e = subst (Halted id q) (ground (arith, e)) h

  stopped-Halted :
      (q q' : Sequencer rig) (id now : ℕ) (frame : ClockFrame rig) (o : Option (Sequence rig))
      → lookup id q.sequences ≡ o
      → stopped rig q id now frame o ≡ some q'
      → Halted id q q'
  unfolding Halted stopped touched
  stopped-Halted q q' id now frame none h e =
      Halted-eq id q (touched rig id q) q'
        (
          refl,
          refl,
          λ j. ground (
            arith,
            h,
            active-insert id j (state_of rig id q) q.sequence_states,
            state_of-active id q,
          ),
        )
        e
  stopped-Halted q q' id now frame (some sequence) h e =
      let ((s, en), e₁, e₂) =
        >>=-some (stop rig (state_of rig id q) sequence q.engine now frame)
          (λ (s, e).
            some (record q { sequence_states = insert id s q.sequence_states; engine = e }))
          q' e in
      Halted-eq id q (record q { sequence_states = insert id s q.sequence_states; engine = en }) q'
        (
          refl,
          refl,
          λ j. ground (
            arith,
            h,
            active-insert id j s q.sequence_states,
            stop-inactive (state_of rig id q) s sequence q.engine en now frame e₁,
          ),
        )
        e₂

  stop_command-IsServed :
      (q q' : Sequencer rig) (id : ℕ)
      → Halted id q q'
      → IsServed q
      → IsServed (record q' { sequence_order = shift_remove id q'.sequence_order })
  unfolding Halted IsServed
  stop_command-IsServed q q' id (o, ss, st) h j x a = ground (
    arith,
    h j,
    x,
    a,
    ap (λ m. exists (lookup j m)) ss,
    st j,
    has-shift_remove id j q'.sequence_order,
    ap (has j) o,
  )

  drop_command-IsServed :
      (q q' : Sequencer rig) (id : ℕ)
      → Halted id q q'
      → IsServed q
      → IsServed (record q' {
        sequence_states = erase id q'.sequence_states;
        sequence_order = shift_remove id q'.sequence_order;
      })
  unfolding Halted IsServed
  drop_command-IsServed q q' id (o, ss, st) h j x a = ground (
    arith,
    h j,
    x,
    a,
    ap (λ m. exists (lookup j m)) ss,
    st j,
    ap active_of (lookup-erase id j q'.sequence_states),
    has-shift_remove id j q'.sequence_order,
    ap (has j) o,
  )

  -- Every command keeps this: a sequence that exists, and of which the state is active, is in the order
  -- of the sequences that run in each frame.
  pub handle_command-IsServed :
      (q q' : Sequencer rig) (c : SequencerCommands rig) (now : ℕ) (frame : ClockFrame rig)
      → IsServed q
      → handle_command rig q c now frame ≡ some q'
      → IsServed q'
  unfolding handle_command
  handle_command-IsServed q q' (go_forward_command id) now frame h e =
      with_sequence-IsServed q q' id (λ s sequence e. go rig s sequence e now frame)
        (lookup id q.sequences) h e
  handle_command-IsServed q q' (go_backward_command id) now frame h e =
      with_sequence-IsServed q q' id (λ s sequence e. go_backward rig s sequence e now frame)
        (lookup id q.sequences) h e
  handle_command-IsServed q q' (go_to_command id cue_id) now frame h e =
      with_sequence-IsServed q q' id (λ s sequence e. go_to rig s sequence cue_id e now frame)
        (lookup id q.sequences) h e
  handle_command-IsServed q q' (set_rate_command id rate) now frame h e =
      IsServed-eq (set_rate rig id rate (lookup id q.sequence_states) q) q'
        (set_rate-IsServed q id rate (lookup id q.sequence_states) refl h) e
  handle_command-IsServed q q' (stop_command id) now frame h e =
      let (q₁, e₁, e₂) =
        >>=-some (stopped rig q id now frame (lookup id q.sequences))
          (λ q'. some (record q' { sequence_order = shift_remove id q'.sequence_order })) q' e in
      IsServed-eq (record q₁ { sequence_order = shift_remove id q₁.sequence_order }) q'
        (stop_command-IsServed q q₁ id
          (stopped-Halted q q₁ id now frame (lookup id q.sequences) refl e₁) h)
        e₂
  handle_command-IsServed q q' (drop_state_command id) now frame h e =
      let (q₁, e₁, e₂) =
        >>=-some (stopped rig q id now frame (lookup id q.sequences))
          (λ q'. some (record q' {
            sequence_states = erase id q'.sequence_states;
            sequence_order = shift_remove id q'.sequence_order;
          }))
          q' e in
      IsServed-eq
        (record q₁ {
          sequence_states = erase id q₁.sequence_states;
          sequence_order = shift_remove id q₁.sequence_order;
        })
        q'
        (drop_command-IsServed q q₁ id
          (stopped-Halted q q₁ id now frame (lookup id q.sequences) refl e₁) h)
        e₂

  handle_all-IsServed :
      (cs : List (SequencerCommands rig)) (q q' : Sequencer rig) (now : ℕ) (frame : ClockFrame rig)
      → IsServed q
      → handle_all rig cs q now frame ≡ some q'
      → IsServed q'
  unfolding handle_all
  handle_all-IsServed [] q q' now frame h e = IsServed-eq q q' h e
  handle_all-IsServed (c ∷ cs) q q' now frame h e =
      let (q₁, e₁, e₂) =
        >>=-some (handle_command rig q c now frame) (λ q'. handle_all rig cs q' now frame) q' e in
      handle_all-IsServed cs q₁ q' now frame (handle_command-IsServed q q₁ c now frame h e₁) e₂

  -- Handling the commands that wait keeps it that every sequence that exists, and of which the state is
  -- active, is in the order of the sequences that run in each frame.
  pub handle_commands-IsServed :
      (q q' : Sequencer rig) (now : ℕ) (frame : ClockFrame rig)
      → IsServed q
      → handle_commands rig q now frame ≡ some q'
      → IsServed q'
  unfolding handle_commands IsServed
  handle_commands-IsServed q q' now frame h e =
      handle_all-IsServed q.commands (record q { commands = [] }) q' now frame h e
