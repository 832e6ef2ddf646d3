-- ===== src/Fixtures/ChannelValues/Get.antt =====
-- What `get` reads of a channel.
use mizer.Prelude.{◌≡◌, refl, ap, ◌∙◌, Bool, true, false, none, some, List, [], ◌∷◌, ◌++◌}
use mizer.Fixtures.Priority.{FixturePriority, is_highlight, is_programmer}
use mizer.Sequencer.Time.{Rig}
use mizer.Fixtures.ChannelValues.{ChannelValue, ChannelValues, find_value, mastered, or_else, get}

module _ (rig : Rig) where
  -- No value has such a priority.
  abbrev pub Without : (FixturePriority → Bool) → List (ChannelValue rig) → Type 0
  Without p [] = Unit
  Without p (v ∷ vs) = (p v.priority ≡ false) × Without p vs

  find_value-append :
      (p : FixturePriority → Bool) (before : List (ChannelValue rig)) (v : ChannelValue rig)
      (after : List (ChannelValue rig))
      → Without p before
      → p v.priority ≡ true
      → find_value rig p (before ++ v ∷ after) ≡ some v.value
  unfolding find_value
  find_value-append p [] v after h e = rw e refl
  find_value-append p (u ∷ before) v after h e =
      rw (h.0, find_value-append p before v after h.1 e) refl

  find_value-none :
      (p : FixturePriority → Bool) (vs : List (ChannelValue rig))
      → Without p vs
      → find_value rig p vs ≡ none
  unfolding find_value
  find_value-none p [] h = refl
  find_value-none p (v ∷ vs) h = rw (h.0, find_value-none p vs h.1) refl

  -- The first value that is a highlight is read, past the programmer, the master and what was flushed.
  pub get-highlight :
      (c : ChannelValues rig) (before : List (ChannelValue rig)) (v : ChannelValue rig)
      (after : List (ChannelValue rig))
      → c.values ≡ before ++ v ∷ after
      → Without is_highlight before
      → is_highlight v.priority ≡ true
      → get rig c ≡ some v.value
  get-highlight c before v after shape h e =
      let found : find_value rig is_highlight c.values ≡ some v.value =
        ap (find_value rig is_highlight) shape
        ∙ find_value-append is_highlight before v after h e in
      unfold get in rw found (unfold or_else in refl)

  -- Without a highlight, the first value of the programmer is read, past the master and what was
  -- flushed.
  pub get-programmer :
      (c : ChannelValues rig) (before : List (ChannelValue rig)) (v : ChannelValue rig)
      (after : List (ChannelValue rig))
      → c.values ≡ before ++ v ∷ after
      → Without is_highlight c.values
      → Without is_programmer before
      → is_programmer v.priority ≡ true
      → get rig c ≡ some v.value
  get-programmer c before v after shape none_highlights h e =
      let missed = find_value-none is_highlight c.values none_highlights in
      let found : find_value rig is_programmer c.values ≡ some v.value =
        ap (find_value rig is_programmer) shape
        ∙ find_value-append is_programmer before v after h e in
      unfold get in rw (missed, found) (unfold or_else in refl)

  -- Without either, what was flushed is read, times the master if there is one.
  pub get-mastered :
      (c : ChannelValues rig)
      → Without is_highlight c.values
      → Without is_programmer c.values
      → get rig c ≡ mastered rig c.master c.value
  get-mastered c h k =
      let no_highlight = find_value-none is_highlight c.values h in
      let no_programmer = find_value-none is_programmer c.values k in
      unfold get in rw (no_highlight, no_programmer) (unfold or_else in refl)
