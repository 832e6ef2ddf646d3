-- ===== src/Sequencer/Merge/Second.antt =====
-- A fixture in two controls that a new one takes it from, in `merge_controls` of cue.rs.
use mathlib.Core.List.{flatten}
use mizer.Prelude.{
  ◌≡◌, refl, sym, ap, ◌∙◌, arith, Bool, true, false, ◌&&◌, not, some, List, [], ◌∷◌, ◌++◌,
  if◌then◌else◌, ◌>>=◌,
}
use mizer.Fixtures.Id.{FixtureId}
use mizer.Fixtures.Selection.{Itertools, contains, get_fixtures}
use mizer.Fixtures.Selection.Members.{contains-retain}
use mizer.Sequencer.Value.{SequencerValue}
use mizer.Sequencer.Time.{Rig}
use mizer.Sequencer.Cue.{Cue, CueControl}
use mizer.Sequencer.Merge.{
  update_first, any, filter, value_beq, is_overlapped, without, is_same, with_ids, store, merge_one,
  merge_each, is_used, merge_controls,
}
use mizer.Sequencer.Merge.Assigned.{gives, assigned, assigned-append, assigned-filter}

module _ {A : Type 0} where
  update_first-append :
      (p : A → Bool) (f : A → A) (before : List A) (x : A) (after : List A)
      → any p before ≡ false
      → p x ≡ true
      → update_first p f (before ++ x ∷ after) ≡ before ++ f x ∷ after
  unfolding update_first any
  update_first-append p f [] x after none found = rw found refl
  update_first-append p f (y ∷ before) x after none found =
      let passed : p y ≡ false = ground arith in
      let rest : any p before ≡ false = ground arith in
      rw (passed, update_first-append p f before x after rest found) refl

  any-replaced :
      (p : A → Bool) (before : List A) (x y : A) (after : List A)
      → p x ≡ p y
      → any p (before ++ x ∷ after) ≡ any p (before ++ y ∷ after)
  unfolding any
  any-replaced p [] x y after same = rw same refl
  any-replaced p (z ∷ before) x y after same = rw (any-replaced p before x y after same) refl

module _ (it : Itertools) (rig : Rig) where
  module _ (p : SequencerValue rig.F64 → Bool) (d : rig.Control) (id : FixtureId) where
    assigned_behind :
        (cs ds : List (CueControl rig))
        → assigned it rig p d id ds ≡ true
        → assigned it rig p d id (cs ++ ds) ≡ true
    assigned_behind cs ds h = ground (arith, h, assigned-append it rig p d id cs ds)

    assigned_in_front :
        (cs ds : List (CueControl rig))
        → assigned it rig p d id cs ≡ true
        → assigned it rig p d id (cs ++ ds) ≡ true
    assigned_in_front cs ds h = ground (arith, h, assigned-append it rig p d id cs ds)

    assigned_first :
        (c : CueControl rig) (cs : List (CueControl rig))
        → gives it rig p d id c ≡ true
        → assigned it rig p d id (c ∷ cs) ≡ true
    unfolding assigned any
    assigned_first c cs h = ground (arith, h)

  -- Only the first control that has fixtures of the new one gives them up. In a cue that has no control
  -- for the new one's with its value, let one be the first that has fixtures of it, and let another
  -- one for the same control come behind, with a fixture of the new one. When the new one is stored,
  -- the first one keeps all its fixtures but those of the new one, and the others stay as they are,
  -- but for controls that have no fixtures left, which go. So both the other one and the new one give
  -- the fixture their value, where these equal themselves.
  pub merge_controls-second :
      (cue : Cue rig) (before : List (CueControl rig)) (c₁ : CueControl rig)
      (between : List (CueControl rig)) (c₂ : CueControl rig) (after : List (CueControl rig))
      (new : CueControl rig) (id j : FixtureId)
      → cue.controls ≡ before ++ c₁ ∷ (between ++ c₂ ∷ after)
      → any (is_overlapped it rig new) before ≡ false
      → is_overlapped it rig new c₁ ≡ true
      → any (is_same it rig new) cue.controls ≡ false
      → rig.control_eq.beq c₂.control new.control ≡ true
      → value_beq it rig c₂.value c₂.value ≡ true
      → value_beq it rig new.value new.value ≡ true
      → contains c₂.fixtures id ≡ true
      → contains new.fixtures id ≡ true
      → (cue' : Cue rig) × (c₁' : CueControl rig) × (merge_controls it rig cue (new ∷ [])
          ≡ some cue')
        × (cue'.controls
            ≡ filter (is_used it rig) ((before ++ c₁' ∷ (between ++ c₂ ∷ after)) ++ new ∷ []))
        × (c₁'.control ≡ c₁.control)
        × (c₁'.value ≡ c₁.value)
        × (contains c₁'.fixtures j ≡ (contains c₁.fixtures j && not (contains new.fixtures j)))
        × (assigned it rig (λ v. value_beq it rig v c₂.value) new.control id cue'.controls ≡ true)
        × (assigned it rig (λ v. value_beq it rig v new.value) new.control id cue'.controls ≡ true)
  unfolding merge_controls merge_each merge_one store without gives
  merge_controls-second cue before c₁ between c₂ after new id j shape first over no_same k own₂ own
        in₂ inside =
      let rest = between ++ c₂ ∷ after in
      let c₁' = without it rig new c₁ in
      let kept = before ++ c₁' ∷ rest in
      let cs = kept ++ new ∷ [] in
      let stripped =
        ap (update_first (is_overlapped it rig new) (without it rig new)) shape
        ∙ update_first-append (is_overlapped it rig new) (without it rig new) before c₁ rest first
            over in
      let none_same : any (is_same it rig new) kept ≡ false =
        any-replaced (is_same it rig new) before c₁' c₁ rest (unfold is_same in refl)
        ∙ ap (any (is_same it rig new)) (sym shape)
        ∙ no_same in
      let is₂ : SequencerValue rig.F64 → Bool = λ v. value_beq it rig v c₂.value in
      let is_new : SequencerValue rig.F64 → Bool = λ v. value_beq it rig v new.value in
      let self = (rig.control_eq.beq_iff new.control new.control).1 refl in
      (
        record cue { controls = filter (is_used it rig) cs },
        c₁',
        ap
            (λ o. (o >>= merge_each it rig []) >>= λ cs.
              some (record cue { controls = filter (is_used it rig) cs }))
            (ap (store it rig new) stripped
              ∙ ap
                  (λ (b : Bool).
                    if b
                    then (get_fixtures it new.fixtures >>= λ groups.
                        some (
                          update_first (is_same it rig new) (with_ids it rig (flatten groups))
                            kept))
                    else some cs)
                  none_same),
        refl,
        refl,
        refl,
        contains-retain (λ id. not (contains new.fixtures id)) c₁.fixtures j,
        assigned-filter it rig is₂ new.control id cs
            ∙ assigned_in_front is₂ new.control id kept (new ∷ []) (
                assigned_behind is₂ new.control id before (c₁' ∷ rest) (
                  assigned_behind is₂ new.control id (c₁' ∷ between) (c₂ ∷ after)
                    (assigned_first is₂ new.control id c₂ after (ground (arith, k, own₂, in₂))))),
        assigned-filter it rig is_new new.control id cs
            ∙ assigned_behind is_new new.control id kept (new ∷ [])
                (assigned_first is_new new.control id new [] (ground (arith, self, own, inside))),
      )
