-- ===== src/Sequencer/Run/Own.antt =====
-- The values that `Sequence::run` of sequence.rs writes.
use mathlib.Core.List.{flatten}
use mizer.Prelude.{
  ℕ, ◌≡◌, refl, ap, ◌∙◌, arith, >>=-some, Option, none, some, List, [], ◌∷◌, ◌++◌, length, ◌>>=◌,
  subst,
}
use mizer.Prelude.Maps.{Map}
use mizer.Fixtures.Id.{FixtureId}
use mizer.Fixtures.Selection.{Itertools, get_fixtures}
use mizer.Sequencer.Time.{Rig, ClockFrame}
use mizer.Sequencer.Cue.{Cue, CueControl, CuePreset, Sequence}
use mizer.Sequencer.State.{SequenceState}
use mizer.Sequencer.Values.{values, set_fixture_value}
use mizer.Sequencer.Run.{Write, Presets, writes, run_controls, write_presets, run_presets, fade_out}

module _ (it : Itertools) (rig : Rig) (sequence : Sequence rig) (now : ℕ)
    (frame : ClockFrame rig) where
  abbrev n : ℕ
  n = length sequence.cues

  abbrev index_of : Option (SequenceState rig) → Option ℕ
  index_of o = o >>= λ s. some s.active_cue_index

  some-eq : (a b : ℕ) → some a ≡ some b → a ≡ b
  some-eq a b e = ground (arith, e)

  -- What is written names the sequence and has its priority.
  abbrev pub AreOwn : List (Write rig) → Type 0
  AreOwn [] = Unit
  AreOwn (w ∷ ws) = ((w.source ≡ sequence.id) × (w.priority ≡ sequence.priority)) × AreOwn ws

  AreOwn-append : (ws vs : List (Write rig)) → AreOwn ws → AreOwn vs → AreOwn (ws ++ vs)
  AreOwn-append [] vs h h' = h'
  AreOwn-append (w ∷ ws) vs h h' = (h.0, AreOwn-append ws vs h.1 h')

  -- The index stays, and what is written is of the sequence.
  abbrev pub Keeps :
      SequenceState rig × List (Write rig) → Option (SequenceState rig × List (Write rig)) → Type 0
  Keeps (s, ws) o =
      (r : SequenceState rig × List (Write rig))
      → o ≡ some r
      → AreOwn ws
      → (s.active_cue_index ≡ r.0.active_cue_index) × AreOwn r.1

  OwnOf : Option (SequenceState rig × List (Write rig)) → Type 0
  OwnOf none = Unit
  OwnOf (some r) = AreOwn r.1

  Keeps-some : (r : SequenceState rig × List (Write rig)) → Keeps r (some r)
  unfolding OwnOf
  Keeps-some (s, ws) (s', ws') eq own = (
    some-eq s.active_cue_index s'.active_cue_index (
        ap
          (λ (o : Option (SequenceState rig × List (Write rig))).
            o >>= λ r. some r.0.active_cue_index)
          eq),
    subst OwnOf eq own,
  )

  Keeps->>= :
      (r : SequenceState rig × List (Write rig)) (o : Option (SequenceState rig × List (Write rig)))
      (f : SequenceState rig × List (Write rig) → Option (SequenceState rig × List (Write rig)))
      → Keeps r o
      → ((r₁ : SequenceState rig × List (Write rig)) → Keeps r₁ (f r₁))
      → Keeps r (o >>= f)
  Keeps->>= (s, ws) o f h h' r eq own =
      let (r₁, e₁, e₂) = >>=-some o f r eq in
      let (i₁, own₁) = h r₁ e₁ own in let (i₂, own₂) = h' r₁ r e₂ own₁ in (i₁ ∙ i₂, own₂)

  -- A computation that only may panic
  Keeps-any :
      {A : Type 0} (r : SequenceState rig × List (Write rig)) (o : Option A)
      (f : A → Option (SequenceState rig × List (Write rig)))
      → ((a : A) → Keeps r (f a))
      → Keeps r (o >>= f)
  Keeps-any (s, ws) o f h r eq own = let (a, _, e) = >>=-some o f r eq in h a r e own

  abbrev written : FixtureId → rig.Control → rig.F64 → Option ℕ → Write rig
  written id control v fade = record {
    fixture_id = id;
    control = control;
    value = v;
    priority = sequence.priority;
    fade_out = fade;
    source = sequence.id;
  }

  writes-Keeps :
      (timings : Option (Option ℕ)) (control : rig.Control) (m : Map FixtureId (Option rig.F64))
      (r : SequenceState rig × List (Write rig))
      → Keeps r (writes it rig sequence timings control m r)
  unfolding writes set_fixture_value
  writes-Keeps timings control [] r = Keeps-some r
  writes-Keeps timings control ((id, none) ∷ m) r = writes-Keeps timings control m r
  writes-Keeps timings control ((id, some v) ∷ m) (s, ws) =
      Keeps-any (s, ws) timings
        (λ fade.
          writes it rig sequence timings control m
            (set_fixture_value it rig s id control v, ws ++ written id control v fade ∷ []))
        (λ fade r eq own.
          writes-Keeps timings control m
            (set_fixture_value it rig s id control v, ws ++ written id control v fade ∷ []) r eq
            (AreOwn-append ws (written id control v fade ∷ []) own ((refl, refl), tt)))

  pub run_controls-Keeps :
      (cue : Cue rig) (cs : List (CueControl rig)) (r : SequenceState rig × List (Write rig))
      → Keeps r (run_controls it rig sequence cue cs r)
  unfolding run_controls
  run_controls-Keeps cue [] r = Keeps-some r
  run_controls-Keeps cue (c ∷ cs) (s, ws) =
      Keeps-any (s, ws) (values it rig c cue s)
        (λ vs. writes it rig sequence (fade_out it rig cue.cue_fade) c.control vs (s, ws) >>= λ r.
          run_controls it rig sequence cue cs r)
        (λ vs.
          Keeps->>= (s, ws)
            (writes it rig sequence (fade_out it rig cue.cue_fade) c.control vs (s, ws))
            (λ r. run_controls it rig sequence cue cs r)
            (writes-Keeps (fade_out it rig cue.cue_fade) c.control vs (s, ws))
            (λ r₁. run_controls-Keeps cue cs r₁))

  write_presets-Keeps :
      (timings : Option (Option ℕ)) (vs : List (FixtureId × rig.Control × rig.F64))
      (r : SequenceState rig × List (Write rig))
      → Keeps r (write_presets it rig sequence timings vs r)
  unfolding write_presets
  write_presets-Keeps timings [] r = Keeps-some r
  write_presets-Keeps timings ((id, control, v) ∷ vs) r =
      Keeps->>= r (writes it rig sequence timings control ((id, some v) ∷ []) r)
        (λ r'. write_presets it rig sequence timings vs r')
        (writes-Keeps timings control ((id, some v) ∷ []) r)
        (λ r₁. write_presets-Keeps timings vs r₁)

  pub run_presets-Keeps :
      (presets : Presets rig) (cue : Cue rig) (ps : List CuePreset)
      (r : SequenceState rig × List (Write rig))
      → Keeps r (run_presets it rig presets sequence cue ps r)
  unfolding run_presets
  run_presets-Keeps presets cue [] r = Keeps-some r
  run_presets-Keeps presets cue (p ∷ ps) r =
      Keeps-any r (get_fixtures it p.fixtures)
        (λ groups.
          write_presets it rig sequence (fade_out it rig cue.cue_fade)
            (presets p.preset_type p.preset_id (flatten groups)) r
          >>= λ r'. run_presets it rig presets sequence cue ps r')
        (λ groups.
          Keeps->>= r
            (write_presets it rig sequence (fade_out it rig cue.cue_fade)
              (presets p.preset_type p.preset_id (flatten groups)) r)
            (λ r'. run_presets it rig presets sequence cue ps r')
            (write_presets-Keeps (fade_out it rig cue.cue_fade)
              (presets p.preset_type p.preset_id (flatten groups)) r)
            (λ r₁. run_presets-Keeps presets cue ps r₁))
