-- ===== src/Sequencer/Merge/Assigned.antt =====
-- The values that the controls of a cue give to the fixtures, after `merge_controls` of cue.rs.
use mathlib.Core.List.{flatten}
use mizer.Prelude.{
  ◌≡◌, refl, ap, ◌∙◌, arith, Bool, true, false, ◌&&◌, ◌||◌, not, Bool-cases, inl, inr, Option, some,
  List, [], ◌∷◌, ◌++◌, count_p, if◌then◌else◌, ◌>>=◌,
}
use mizer.Fixtures.Id.{FixtureId, id_beq}
use mizer.Fixtures.Selection.{
  FixtureSelection, Itertools, add_fixture, contains, contains_in, overlaps, is_empty, is_nil,
  get_fixtures,
}
use mizer.Fixtures.Selection.Conserve.{IsUsable, get_fixtures-kept}
use mizer.Fixtures.Selection.Members.{contains_in-count, contains_in-append, contains-retain}
use mizer.Sequencer.Value.{SequencerValue}
use mizer.Sequencer.Time.{Rig}
use mizer.Sequencer.Cue.{Cue, CueControl}
use mizer.Sequencer.Merge.{
  update_first, any, filter, add_each, value_beq, is_overlapped, without, is_same, with_ids, store,
  merge_one, merge_each, is_used, merge_controls,
}

contains-add_each :
    (s : FixtureSelection) (ids : List FixtureId) (id : FixtureId)
    → contains (add_each s ids) id ≡ (contains s id || contains_in ids id)
unfolding contains contains_in add_each add_fixture
contains-add_each s [] id = ground arith
contains-add_each s (x ∷ xs) id =
    ground
      (arith, contains-add_each (add_fixture s x) xs id, contains_in-append s.fixtures (x ∷ []) id)

contains-is_nil :
    (xs : List FixtureId) (id : FixtureId) → is_nil xs ≡ true → contains_in xs id ≡ false
unfolding is_nil contains_in
contains-is_nil [] id h = refl
contains-is_nil (x ∷ xs) id h = ground (arith, h)

module _ (it : Itertools) (rig : Rig) where
  same_control :
      (new c : CueControl rig) (d : rig.Control) (b : Bool)
      → (rig.control_eq.beq c.control new.control && b) ≡ true
      → rig.control_eq.beq c.control d ≡ rig.control_eq.beq new.control d
  same_control new c d b h =
      ap (λ k. rig.control_eq.beq k d)
        ((rig.control_eq.beq_iff c.control new.control).0 (ground (arith, h)))

  -- Whether one control gives the fixture a value of a kind
  unfoldable pub gives :
      (SequencerValue rig.F64 → Bool) → rig.Control → FixtureId → CueControl rig → Bool
  unfolding contains
  gives p d id c = rig.control_eq.beq c.control d && p c.value && contains c.fixtures id

  -- Whether a list of controls does
  unfoldable pub assigned :
      (SequencerValue rig.F64 → Bool) → rig.Control → FixtureId → List (CueControl rig) → Bool
  unfolding any gives
  assigned p d id = any (gives p d id)

  assigned-update_first :
      (p : SequencerValue rig.F64 → Bool) (d : rig.Control) (id : FixtureId)
      (q : CueControl rig → Bool) (f : CueControl rig → CueControl rig) (cs : List (CueControl rig))
      → ((c : CueControl rig) → q c ≡ true → gives p d id (f c) ≡ gives p d id c)
      → assigned p d id (update_first q f cs) ≡ assigned p d id cs
  unfolding assigned any update_first
  assigned-update_first p d id q f [] h = refl
  assigned-update_first p d id q f (c ∷ cs) h =
      ground (arith, h c, assigned-update_first p d id q f cs h)

  pub assigned-append :
      (p : SequencerValue rig.F64 → Bool) (d : rig.Control) (id : FixtureId)
      (cs ds : List (CueControl rig))
      → assigned p d id (cs ++ ds) ≡ (assigned p d id cs || assigned p d id ds)
  unfolding assigned any
  assigned-append p d id [] ds = refl
  assigned-append p d id (c ∷ cs) ds = ground (arith, assigned-append p d id cs ds)

  -- A control without fixtures gives nothing.
  gives-is_used :
      (p : SequencerValue rig.F64 → Bool) (d : rig.Control) (id : FixtureId) (c : CueControl rig)
      → is_used it rig c ≡ false
      → gives p d id c ≡ false
  unfolding is_used gives is_empty contains
  gives-is_used p d id c h = ground (arith, h, contains-is_nil c.fixtures.fixtures id)

  pub assigned-filter :
      (p : SequencerValue rig.F64 → Bool) (d : rig.Control) (id : FixtureId)
      (cs : List (CueControl rig))
      → assigned p d id (filter (is_used it rig) cs) ≡ assigned p d id cs
  unfolding assigned any filter
  assigned-filter p d id [] = refl
  assigned-filter p d id (c ∷ cs) =
      ground (arith, gives-is_used p d id c, assigned-filter p d id cs)

  gives-without :
      (p : SequencerValue rig.F64 → Bool) (d : rig.Control) (id : FixtureId)
      (new c : CueControl rig)
      → (rig.control_eq.beq new.control d && contains new.fixtures id) ≡ false
      → is_overlapped it rig new c ≡ true
      → gives p d id (without it rig new c) ≡ gives p d id c
  unfolding gives without is_overlapped
  gives-without p d id new c out h = ground (
    arith,
    out,
    same_control new c d (overlaps c.fixtures new.fixtures) h,
    contains-retain (λ id. not (contains new.fixtures id)) c.fixtures id,
  )

  gives-with_ids :
      (p : SequencerValue rig.F64 → Bool) (d : rig.Control) (id : FixtureId)
      (new c : CueControl rig) (ids : List FixtureId)
      → (rig.control_eq.beq new.control d && contains_in ids id) ≡ false
      → is_same it rig new c ≡ true
      → gives p d id (with_ids it rig ids c) ≡ gives p d id c
  unfolding gives with_ids is_same
  gives-with_ids p d id new c ids out h = ground (
    arith,
    out,
    same_control new c d (value_beq it rig c.value new.value) h,
    contains-add_each c.fixtures ids id,
  )

  contains-get_fixtures :
      (s : FixtureSelection) (groups : List (List FixtureId)) (id : FixtureId)
      → ((p : FixtureId → Bool) → count_p p (flatten groups) ≡ count_p p s.fixtures)
      → contains_in (flatten groups) id ≡ contains s id
  unfolding contains
  contains-get_fixtures s groups id h = ground (
    arith,
    contains_in-count (flatten groups) id,
    contains_in-count s.fixtures id,
    h (λ x. id_beq x id),
  )

  store_if :
      CueControl rig
      → List (CueControl rig)
      → List (CueControl rig)
      → Bool
      → Option (List (List FixtureId))
      → Option (List (CueControl rig))
  store_if new cs pushed b o =
      if b
      then (o >>= λ groups.
          some (update_first (is_same it rig new) (with_ids it rig (flatten groups)) cs))
      else some pushed

  store-assigned :
      (new : CueControl rig) (cs : List (CueControl rig)) (p : SequencerValue rig.F64 → Bool)
      (d : rig.Control) (id : FixtureId)
      → IsUsable new.fixtures.block_size
      → IsUsable new.fixtures.groups
      → IsUsable new.fixtures.wings
      → (rig.control_eq.beq new.control d && contains new.fixtures id) ≡ false
      → (cs' : List (CueControl rig)) × (store it rig new cs ≡ some cs')
        × (assigned p d id cs' ≡ assigned p d id cs)
  unfolding store store_if assigned any gives
  store-assigned new cs p d id hb hg hw out =
      let (groups, e, same) = get_fixtures-kept it new.fixtures hb hg hw in
      elim (Bool-cases (any (is_same it rig new) cs)) [
        | inl t ↦ (
          update_first (is_same it rig new) (with_ids it rig (flatten groups)) cs,
          ap (λ b. store_if new cs (cs ++ new ∷ []) b (get_fixtures it new.fixtures)) t
              ∙ ap (store_if new cs (cs ++ new ∷ []) true) e,
          assigned-update_first p d id (is_same it rig new) (with_ids it rig (flatten groups)) cs
              (λ c h.
                gives-with_ids p d id new c (flatten groups)
                  (ap (λ b. rig.control_eq.beq new.control d && b)
                      (contains-get_fixtures new.fixtures groups id same)
                    ∙ out)
                  h),
        )
        | inr t ↦ (
          cs ++ new ∷ [],
          ap (λ b. store_if new cs (cs ++ new ∷ []) b (get_fixtures it new.fixtures)) t,
          ground (arith, assigned-append p d id cs (new ∷ []), out),
        )
      ]

  -- Storing a control, of which no size is 0, in a cue returns. What a control of the cue gives to another
  -- fixture, or to a fixture for another control, is as before.
  pub merge_controls-assigned :
      (cue : Cue rig) (new : CueControl rig) (p : SequencerValue rig.F64 → Bool) (d : rig.Control)
      (id : FixtureId)
      → IsUsable new.fixtures.block_size
      → IsUsable new.fixtures.groups
      → IsUsable new.fixtures.wings
      → (rig.control_eq.beq new.control d && contains new.fixtures id) ≡ false
      → (cue' : Cue rig) × (merge_controls it rig cue (new ∷ []) ≡ some cue')
        × (assigned p d id cue'.controls ≡ assigned p d id cue.controls)
  unfolding merge_controls merge_each merge_one
  merge_controls-assigned cue new p d id hb hg hw out =
      let cs₁ = update_first (is_overlapped it rig new) (without it rig new) cue.controls in
      let step₁ =
        assigned-update_first p d id (is_overlapped it rig new) (without it rig new) cue.controls
          (λ c. gives-without p d id new c out) in
      let (cs₂, e, step₂) = store-assigned new cs₁ p d id hb hg hw out in
      (
        record cue { controls = filter (is_used it rig) cs₂ },
        ap
            (λ o. (o >>= merge_each it rig []) >>= λ cs.
              some (record cue { controls = filter (is_used it rig) cs }))
            e,
        assigned-filter p d id cs₂ ∙ step₂ ∙ step₁,
      )
