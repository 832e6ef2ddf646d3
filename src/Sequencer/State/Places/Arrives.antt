-- ===== src/Sequencer/State/Places/Arrives.antt =====
-- Each call of state.rs on its own, and where the sequence then stands.
use mizer.Prelude.{
  ℕ, zero, suc, ◌+◌, ◌-◌, ◌≡◌, ◌<◌, refl, subst, ap, ◌∙◌, arith, Bool, true, false, Bool-cases, inl,
  inr, Option, some, List, [], ◌∷◌, length, get_elem?, ◌==◌, leb, if◌then◌else◌, ◌>>=◌,
}
use mizer.Sequencer.Time.{Rig, ClockFrame}
use mizer.Sequencer.Effects.{EffectEngine}
use mizer.Sequencer.Cue.{Sequence}
use mizer.Sequencer.State.{
  SequenceState, stop_effects, update_channel_states, stop, next_cue, prev_cue, begin, finish, go,
  go_backward, position, jump, channels_of, stop_all,
}
use mizer.Sequencer.State.Places.{Place, idle, at, forward, backward, move, place}

get_elem?-some :
    {A : Type 0} (xs : List A) (i : ℕ) → i < length xs → (x : A) × (get_elem? xs i ≡ some x)
get_elem?-some [] i h = absurd (omega arith)
get_elem?-some (x ∷ xs) zero h = (x, refl)
get_elem?-some (x ∷ xs) (suc i) h = get_elem?-some xs i (omega arith)

module _ (rig : Rig) (sequence : Sequence rig) (now : ℕ) (frame : ClockFrame rig) where
  abbrev n : ℕ
  n = length sequence.cues

  abbrev where_is : ℕ → Option ℕ
  where_is id = position rig id sequence.cues

  -- The result of a call, as far as the place is concerned
  abbrev pub Lands :
      Option (SequenceState rig × EffectEngine rig) → Bool → ℕ → EffectEngine rig → Type 0
  Lands r a i e₀ =
      (s : SequenceState rig) × (e : EffectEngine rig) × (r ≡ some (s, e))
      × (s.active ≡ a)
      × (s.active_cue_index ≡ i)
      × (s.running_effects ≡ [])
      × (e ≡ e₀)

  update-Lands :
      (s : SequenceState rig)
      → s.active_cue_index < n
      → (s' : SequenceState rig) × (update_channel_states rig s sequence now frame ≡ some s')
        × (s'.active ≡ s.active)
        × (s'.active_cue_index ≡ s.active_cue_index)
        × (s'.running_effects ≡ s.running_effects)
  unfolding update_channel_states
  update-Lands s h =
      let (cue, e) = get_elem?-some sequence.cues s.active_cue_index h in
      (
        record s { channel_state = channels_of rig cue sequence now frame },
        ap
            (λ r. r >>= λ cue.
              some (record s { channel_state = channels_of rig cue sequence now frame }))
            e,
        refl,
        refl,
        refl,
      )

  stop-Lands :
      (s : SequenceState rig) (e : EffectEngine rig)
      → 0 < n
      → Lands (stop rig s sequence e now frame) false 0 (stop_effects rig s e).1
  unfolding stop stop_effects
  stop-Lands s e pos =
      let s₀ : SequenceState rig = record s {
        active = false;
        active_cue_index = 0;
        fixture_values = [];
      } in
      let (s', eq, a, i, r) = update-Lands s₀ pos in
      (
        (stop_effects rig s' e).0,
        (stop_effects rig s' e).1,
        ap (λ r. r >>= λ s'. some (stop_effects rig s' e)) eq,
        a,
        i,
        refl,
        ap (λ r. stop_all rig r e) r,
      )

  finish-Lands :
      (r : Option (SequenceState rig × EffectEngine rig)) (a : Bool) (i : ℕ) (e₀ : EffectEngine rig)
      → i < n
      → Lands r a i e₀
      → Lands (r >>= finish rig sequence now frame) a i e₀
  unfolding finish
  finish-Lands r a i e₀ h (s, e, eq, sa, si, sr, se) =
      let (s', eq', a', i', r') = update-Lands s (omega (arith, si)) in
      (
        s',
        e,
        ap (λ r. r >>= finish rig sequence now frame) eq ∙ ap (λ r. r >>= λ s'. some (s', e)) eq',
        a' ∙ sa,
        i' ∙ si,
        r' ∙ sr,
        se,
      )

  -- The same with the place: the call returns, the index is among the cues, no effect is running.
  abbrev pub Arrives :
      Option (SequenceState rig × EffectEngine rig) → Place → EffectEngine rig → Type 0
  Arrives r p e₀ =
      (a : Bool) × (i : ℕ) × (i < n) × ((if a then at i else idle) ≡ p) × Lands r a i e₀

  Arrives-finish :
      (r : Option (SequenceState rig × EffectEngine rig)) (p : Place) (e₀ : EffectEngine rig)
      → Arrives r p e₀
      → Arrives (r >>= finish rig sequence now frame) p e₀
  Arrives-finish r p e₀ (a, i, h, q, lands) = (a, i, h, q, finish-Lands r a i e₀ h lands)

  pub stop-Arrives :
      (s : SequenceState rig) (e : EffectEngine rig)
      (r : Option (SequenceState rig × EffectEngine rig))
      → 0 < n
      → r ≡ stop rig s sequence e now frame
      → Arrives r idle (stop_effects rig s e).1
  stop-Arrives s e r pos q =
      let (s', e', eq, sa, si, sr, se) = stop-Lands s e pos in
      (false, 0, pos, refl, (s', e', q ∙ eq, sa, si, sr, se))

  stop-Arrives_nil :
      (s : SequenceState rig) (e : EffectEngine rig)
      (r : Option (SequenceState rig × EffectEngine rig))
      → 0 < n
      → s.running_effects ≡ []
      → r ≡ stop rig s sequence e now frame
      → Arrives r idle e
  unfolding stop_effects stop_all
  stop-Arrives_nil s e r pos h q =
      subst (Arrives r idle) (ap (λ r. stop_all rig r e) h) (stop-Arrives s e r pos q)

  next_cue-Arrives :
      (s : SequenceState rig) (e : EffectEngine rig) (p : Place)
      → s.active_cue_index < n
      → s.active ≡ true
      → s.running_effects ≡ []
      → move sequence.wrap_around n where_is forward (at s.active_cue_index) ≡ p
      → Arrives (next_cue rig s sequence e now frame) p e
  unfolding next_cue move
  next_cue-Arrives s e p h a r q = elim (Bool-cases (leb n (s.active_cue_index + 1))) [
    | inr t ↦ (
      true,
      s.active_cue_index + 1,
      ground (arith, t),
      ground (arith, t, q),
      (
        record s { active_cue_index = s.active_cue_index + 1 },
        e,
        ground (arith, t),
        a,
        refl,
        r,
        refl,
      ),
    )
    | inl t ↦ elim (Bool-cases sequence.wrap_around) [
      | inl w ↦ (
        true,
        0,
        omega (arith, h),
        ground (arith, t, w, q),
        (record s { active_cue_index = 0 }, e, ground (arith, t, w), a, refl, r, refl),
      )
      | inr w ↦
          subst (λ p. Arrives (next_cue rig s sequence e now frame) p e) (ground (arith, t, w, q))
            (stop-Arrives_nil (record s { active_cue_index = 0; active = false }) e
              (next_cue rig s sequence e now frame) (omega (arith, h)) r (ground (arith, t, w)))
    ]
  ]

  prev_cue-Arrives :
      (s : SequenceState rig) (e : EffectEngine rig) (p : Place)
      → s.active_cue_index < n
      → s.active ≡ true
      → s.running_effects ≡ []
      → move sequence.wrap_around n where_is backward (at s.active_cue_index) ≡ p
      → Arrives (prev_cue rig s sequence e now frame) p e
  unfolding prev_cue move
  prev_cue-Arrives s e p h a r q = elim (Bool-cases (s.active_cue_index == 0)) [
    | inr t ↦ (
      true,
      s.active_cue_index - 1,
      ground (arith, t, h),
      ground (arith, t, q),
      (
        record s { active_cue_index = s.active_cue_index - 1 },
        e,
        ground (arith, t),
        a,
        refl,
        r,
        refl,
      ),
    )
    | inl t ↦ elim (Bool-cases sequence.wrap_around) [
      | inl w ↦ (
        true,
        n - 1,
        omega (arith, h),
        ground (arith, t, w, q),
        (record s { active_cue_index = n - 1 }, e, ground (arith, t, w), a, refl, r, refl),
      )
      | inr w ↦
          subst (λ p. Arrives (prev_cue rig s sequence e now frame) p e) (ground (arith, t, w, q))
            (stop-Arrives_nil (record s { active_cue_index = 0; active = false }) e
              (prev_cue rig s sequence e now frame) (omega (arith, h)) r (ground (arith, t, w)))
    ]
  ]

  Arrives-eq :
      (r r' : Option (SequenceState rig × EffectEngine rig)) (p : Place) (e₀ : EffectEngine rig)
      → r ≡ r'
      → Arrives r' p e₀
      → Arrives r p e₀
  Arrives-eq r r' p e₀ q (a, i, h, t, (s, e, eq, sa, si, sr, se)) =
      (a, i, h, t, (s, e, q ∙ eq, sa, si, sr, se))

  pub go-Arrives :
      (s : SequenceState rig) (e : EffectEngine rig)
      → s.active_cue_index < n
      → Arrives
          (go rig s sequence e now frame)
          (move sequence.wrap_around n where_is forward (place s))
          (stop_effects rig s e).1
  unfolding go begin stop_effects move place
  go-Arrives s e h =
      let s₁ : SequenceState rig = (begin rig s e now frame).0 in
      let e₁ : EffectEngine rig = (stop_effects rig s e).1 in
      let p : Place = move sequence.wrap_around n where_is forward (place s) in
      elim (Bool-cases s.active) [
        | inl a ↦
            Arrives-eq (go rig s sequence e now frame)
              (next_cue rig s₁ sequence e₁ now frame >>= finish rig sequence now frame) p e₁
              (ground (arith, a))
              (Arrives-finish (next_cue rig s₁ sequence e₁ now frame) p e₁
                (next_cue-Arrives s₁ e₁ p h a refl (ground (arith, a))))
        | inr a ↦
            Arrives-eq (go rig s sequence e now frame)
              (some (record s₁ { active = true; active_cue_index = 0 }, e₁)
                >>= finish rig sequence now frame)
              p e₁ (ground (arith, a))
              (Arrives-finish (some (record s₁ { active = true; active_cue_index = 0 }, e₁)) p e₁ (
                true,
                0,
                omega (arith, h),
                ground (arith, a),
                (
                  record s₁ { active = true; active_cue_index = 0 },
                  e₁,
                  refl,
                  refl,
                  refl,
                  refl,
                  refl,
                ),
              ))
      ]

  pub go_backward-Arrives :
      (s : SequenceState rig) (e : EffectEngine rig)
      → s.active_cue_index < n
      → Arrives
          (go_backward rig s sequence e now frame)
          (move sequence.wrap_around n where_is backward (place s))
          (stop_effects rig s e).1
  unfolding go_backward begin stop_effects move place
  go_backward-Arrives s e h =
      let s₁ : SequenceState rig = (begin rig s e now frame).0 in
      let e₁ : EffectEngine rig = (stop_effects rig s e).1 in
      let p : Place = move sequence.wrap_around n where_is backward (place s) in
      elim (Bool-cases s.active) [
        | inl a ↦
            Arrives-eq (go_backward rig s sequence e now frame)
              (prev_cue rig s₁ sequence e₁ now frame >>= finish rig sequence now frame) p e₁
              (ground (arith, a))
              (Arrives-finish (prev_cue rig s₁ sequence e₁ now frame) p e₁
                (prev_cue-Arrives s₁ e₁ p h a refl (ground (arith, a))))
        | inr a ↦
            Arrives-eq (go_backward rig s sequence e now frame)
              (some (record s₁ { active = true; active_cue_index = n - 1 }, e₁)
                >>= finish rig sequence now frame)
              p e₁ (ground (arith, a))
              (Arrives-finish (some (record s₁ { active = true; active_cue_index = n - 1 }, e₁)) p
                e₁
                (
                  true,
                  n - 1,
                  omega (arith, h),
                  ground (arith, a),
                  (
                    record s₁ { active = true; active_cue_index = n - 1 },
                    e₁,
                    refl,
                    refl,
                    refl,
                    refl,
                    refl,
                  ),
                ))
      ]

  pub jump-Arrives :
      (s : SequenceState rig) (e : EffectEngine rig) (i : ℕ)
      → i < n
      → Arrives (jump rig (some i) s sequence e now frame) (at i) (stop_effects rig s e).1
  unfolding jump begin finish stop_effects
  jump-Arrives s e i h =
      let s₁ : SequenceState rig = record (begin rig s e now frame).0 {
        active = true;
        active_cue_index = i;
      } in
      let e₁ : EffectEngine rig = (stop_effects rig s e).1 in
      Arrives-finish (some (s₁, e₁)) (at i) e₁
        (true, i, h, refl, (s₁, e₁, refl, refl, refl, refl, refl))
