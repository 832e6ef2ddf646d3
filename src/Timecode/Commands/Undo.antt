-- ===== src/Timecode/Commands/Undo.antt =====
-- Undoing the commands on timecode tracks.
use Prim.Native.String.{String}
use mizer.Prelude.{◌≡◌, refl, arith, ℕ, some, Option-cases, inl, inr, ==_iff}
use mizer.Prelude.Maps.{
  lookup, insert, erase, nat_eq, lookup-insert, lookup-erase, lookup-insert_self, insert-insert,
}
use mizer.Commander.Executor.{Error, ok, err, IsLawful}
use mizer.Commander.Impl.{trait_of}
use mizer.Timecode.{
  Splines, TimecodeTrack, TimecodeManager, insert_timecode, remove_timecode, update_timecode,
  with_track,
}
use mizer.Timecode.Commands.{
  Rename, with_previous, track_name, or_unknown, apply_rename, rename_timecode, apply_delete,
  delete_timecode,
}

module _ (splines : Splines) where
  revert-apply_rename :
      (c : Rename) (m m' : TimecodeManager splines) (o : Unit {0}) (name : String)
      → apply_rename splines c m ≡ (ok (o, name), m')
      → (rename_timecode splines).revert c name m' ≡ (ok tt, m)
  unfolding apply_rename with_previous track_name update_timecode with_track
  revert-apply_rename c m m' o name h = elim (Option-cases (lookup c.id m.timecodes)) [
    | inl missing ↦ absurd (ground (arith, missing))
    | inr (track, found) ↦
        let renamed = record track { name = c.name } in
        let previous : name ≡ track.name = ground (arith, found) in
        let shape : m' ≡ record m { timecodes = insert c.id renamed m.timecodes } =
          ground (arith, found) in
        rw
          (
            shape,
            previous,
            lookup-insert_self c.id renamed m.timecodes,
            insert-insert c.id track renamed m.timecodes found,
          )
          refl
  ]

  apply_rename_atomic :
      (c : Rename) (m m' : TimecodeManager splines) (e : Error)
      → apply_rename splines c m ≡ (err e, m')
      → m' ≡ m
  unfolding apply_rename with_previous track_name update_timecode with_track
  apply_rename_atomic c m m' e h = elim (Option-cases (lookup c.id m.timecodes)) [
    | inl missing ↦ ground (arith, missing)
    | inr (track, found) ↦ absurd (ground (arith, found))
  ]

  -- Undo takes back the renaming of a track, and a renaming that fails has changed nothing.
  pub rename_timecode-IsLawful : IsLawful (trait_of (rename_timecode splines))
  rename_timecode-IsLawful = record {
    revert-apply = revert-apply_rename;
    apply_atomic = apply_rename_atomic;
  }

  -- Deleting a track and undoing it, where the track has the identifier under which it is found, leaves
  -- every track as it was, but not its state, which is that of a new track.
  pub revert-delete_timecode :
      (id j : ℕ) (m : TimecodeManager splines) (track : TimecodeTrack splines)
      → lookup id m.timecodes ≡ some track
      → track.id ≡ id
      → (m' : TimecodeManager splines) × (m'' : TimecodeManager splines) × (apply_delete splines id
            m
          ≡ (ok (tt, track), m'))
        × ((delete_timecode splines).revert id track m' ≡ (ok tt, m''))
        × (lookup j m''.timecodes ≡ lookup j m.timecodes)
  unfolding apply_delete or_unknown remove_timecode insert_timecode
  revert-delete_timecode id j m track found same =
      let m' = (remove_timecode splines id m).0 in
      (
        m',
        insert_timecode splines track m',
        rw found refl,
        refl,
        ground (
          arith,
          lookup-insert track.id j track (erase id m.timecodes),
          lookup-erase id j m.timecodes,
          ==_iff id j,
          found,
        ),
      )
