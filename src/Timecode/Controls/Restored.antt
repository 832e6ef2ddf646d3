-- ===== src/Timecode/Controls/Restored.antt =====
-- Controls that are removed and inserted again.
use mizer.Prelude.{
  ◌≡◌, refl, sym, ap, ◌∙◌, subst, arith, ℕ, true, Bool-cases, inl, inr, some, List, [], ◌∷◌, ◌++◌,
  ◌==◌, ==_iff,
}
use mizer.Prelude.Maps.{Map, lookup, erase, nat_eq, lookup-insert, lookup-erase}
use mizer.Commander.Find.Laws.{NoneHas}
use mizer.Layouts.Store.{remove_first}
use mizer.Layouts.Store.Laws.{remove_first-append}
use mizer.Timecode.{
  Splines, TimecodeControl, TimecodeTrack, TimecodeControlValues, TimecodeManager, map_values,
  find_values, get_control,
}
use mizer.Timecode.MapValues.{lookup-map_values}
use mizer.Timecode.Controls.{
  push_values, has_values, values_or_empty, without_values, collect, removed_values, beside_values,
  insert_timecode_control, remove_timecode_control,
}

module _ (splines : Splines) (id : ℕ) where
  abbrev Values : Type 0
  Values = TimecodeControlValues splines

  abbrev Track : Type 0
  Track = TimecodeTrack splines

  -- A track has values of the control exactly once.
  abbrev pub HasOnce : Track → Type 0
  HasOnce t =
      (before : List Values) × (v : Values) × (after : List Values) × (t.controls
        ≡ before ++ v ∷ after)
      × NoneHas (has_values splines id) before
      × (has_values splines id v ≡ true)
      × NoneHas (has_values splines id) after

  abbrev pub AllHaveOnce : Map ℕ Track → Type 0
  AllHaveOnce [] = Unit
  AllHaveOnce ((_, t) ∷ m) = HasOnce t × AllHaveOnce m

  taken :
      (t : Track) (has : HasOnce t)
      → remove_first (has_values splines id) t.controls ≡ some (has.1, has.0 ++ has.2)
  taken t (before, v, after, shape, none_before, holds, none_after) =
      rw shape (remove_first-append (has_values splines id) before v after none_before holds)

  find_values-moved :
      (j : ℕ) (before : List Values) (v : Values) (after : List Values)
      → has_values splines id v ≡ true
      → NoneHas (has_values splines id) after
      → find_values splines j ((before ++ after) ++ v ∷ [])
        ≡ find_values splines j (before ++ v ∷ after)
  unfolding find_values
  find_values-moved j [] v [] holds others = refl
  find_values-moved j [] v (x ∷ after) holds others = ground (
    arith,
    ==_iff x.id id,
    ==_iff v.id id,
    ==_iff x.id j,
    ==_iff v.id j,
    others.0,
    find_values-moved j [] v after holds others.1,
  )
  find_values-moved j (x ∷ before) v after holds others =
      rw (find_values-moved j before v after holds others) refl

  lookup-removed_values :
      (k : ℕ) (t : Track) (v : Values) (vs : List Values) (m : Map ℕ Track)
      → AllHaveOnce m
      → lookup k m ≡ some t
      → remove_first (has_values splines id) t.controls ≡ some (v, vs)
      → lookup k (removed_values splines id m) ≡ some v
  unfolding lookup removed_values collect
  lookup-removed_values k t v vs [] has found takes = ground arith
  lookup-removed_values k t v vs ((j, u) ∷ m) has found takes = elim (Bool-cases (j == k)) [
    | inl same ↦ let here : u ≡ t = ground (arith, same) in rw (here, takes, same) refl
    | inr other ↦
        rw (taken u has.0, other)
          (lookup-removed_values k t v vs m has.1 (ground (arith, other)) takes)
  ]

  once_of : (k : ℕ) (t : Track) (m : Map ℕ Track) → AllHaveOnce m → lookup k m ≡ some t → HasOnce t
  unfolding lookup
  once_of k t [] has found = ground arith
  once_of k t ((j, u) ∷ m) has found = elim (Bool-cases (j == k)) [
    | inl same ↦ let here : u ≡ t = ground (arith, same) in subst HasOnce here has.0
    | inr other ↦ once_of k t m has.1 (ground (arith, other))
  ]

  -- A control is removed, of which every track has values exactly once, and inserted again with the
  -- values that were given back. Then every control is there as before, and every track gives the
  -- same values for each control as before.
  pub insert-remove_timecode_control :
      (m : TimecodeManager splines) (control : TimecodeControl)
      → lookup id m.controls ≡ some control
      → control.id ≡ id
      → AllHaveOnce m.timecodes
      → (j k : ℕ) (t : Track) → lookup k m.timecodes ≡ some t
      → (values : Map ℕ Values) × ((remove_timecode_control splines id m).1
          ≡ some (control, values))
        × (lookup j
              (insert_timecode_control splines control values
                (remove_timecode_control splines id m).0).controls
            ≡ lookup j m.controls)
        × (t' : Track) × (lookup k
              (insert_timecode_control splines control values
                (remove_timecode_control splines id m).0).timecodes
            ≡ some t')
        × (get_control splines j t' ≡ get_control splines j t)
  unfolding remove_timecode_control insert_timecode_control beside_values get_control
      values_or_empty without_values
  insert-remove_timecode_control m control found same has j k t track =
      let once = once_of k t m.timecodes has track in
      let values = removed_values splines id m.timecodes in
      let v = once.1 in
      let take_out : ℕ → Track → Track = λ _ track.
        without_values splines track (remove_first (has_values splines id) track.controls) in
      let put_back : ℕ → Track → Track = λ k track.
        push_values splines (values_or_empty splines control.id (lookup k values)) track in
      let rest : Track = record t { controls = once.0 ++ once.2 } in
      (
        values,
        rw found refl,
        ground (
          arith,
          lookup-insert control.id j control (erase id m.controls),
          lookup-erase id j m.controls,
          ==_iff id j,
          found,
        ),
        push_values splines v rest,
        lookup-map_values put_back k (take_out k t) (map_values take_out m.timecodes)
              (lookup-map_values take_out k t m.timecodes track)
            ∙ rw
                (
                  taken t once,
                  lookup-removed_values k t v (once.0 ++ once.2) m.timecodes has track
                      (taken t once),
                )
                refl,
        find_values-moved j once.0 v once.2 once.5 once.6 ∙ ap (find_values splines j) (sym once.3),
      )
