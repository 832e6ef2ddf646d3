-- ===== src/Timecode/Complete/Tracks.antt =====
-- The calls that add, remove and change tracks, and the values that the tracks have.
use Prim.Native.String.{String}
use mizer.Prelude.{
  ◌≡◌, refl, ◌∙◌, arith, ℕ, Bool-cases, Option-cases, inl, inr, some, [], ◌∷◌, ◌==◌, subst,
}
use mizer.Prelude.Maps.{Map, lookup, insert, erase, nat_eq}
use mizer.Timecode.{
  Splines, TimecodeControl, TimecodeTrack, TimecodeManager, controls_of, add_timecode,
  insert_timecode, remove_timecode, update_timecode, with_track,
}
use mizer.Timecode.Complete.{
  count_values, count_values-controls_of, Complete, AllComplete, IsComplete,
}

module _ (splines : Splines) where
  pub AllComplete-insert :
      (controls : Map ℕ TimecodeControl) (k : ℕ) (t : TimecodeTrack splines)
      (ts : Map ℕ (TimecodeTrack splines))
      → Complete splines controls t
      → AllComplete splines controls ts
      → AllComplete splines controls (insert k t ts)
  unfolding insert
  AllComplete-insert controls k t [] c h = (c, tt)
  AllComplete-insert controls k t ((j, u) ∷ ts) c h = elim (Bool-cases (j == k)) [
    | inl same ↦ rw same (c, h.1)
    | inr other ↦ rw other (h.0, AllComplete-insert controls k t ts c h.1)
  ]

  AllComplete-erase :
      (controls : Map ℕ TimecodeControl) (k : ℕ) (ts : Map ℕ (TimecodeTrack splines))
      → AllComplete splines controls ts
      → AllComplete splines controls (erase k ts)
  unfolding erase
  AllComplete-erase controls k [] h = tt
  AllComplete-erase controls k ((j, u) ∷ ts) h = elim (Bool-cases (j == k)) [
    | inl same ↦ rw same (AllComplete-erase controls k ts h.1)
    | inr other ↦ rw other (h.0, AllComplete-erase controls k ts h.1)
  ]

  pub AllComplete-found :
      (controls : Map ℕ TimecodeControl) (k : ℕ) (t : TimecodeTrack splines)
      (ts : Map ℕ (TimecodeTrack splines))
      → AllComplete splines controls ts
      → lookup k ts ≡ some t
      → Complete splines controls t
  unfolding lookup
  AllComplete-found controls k t [] h found = absurd (ground arith)
  AllComplete-found controls k t ((j, u) ∷ ts) h found = elim (Bool-cases (j == k)) [
    | inl same ↦
        let here : u ≡ t = ground (arith, same) in subst (Complete splines controls) here h.0
    | inr other ↦ AllComplete-found controls k t ts h.1 (ground (arith, other))
  ]

  pub add_timecode-IsComplete :
      (name : String) (m : TimecodeManager splines)
      → IsComplete splines m
      → IsComplete splines (add_timecode splines name m).0
  unfolding add_timecode insert_timecode
  add_timecode-IsComplete name m h = record {
    tracks =
        AllComplete-insert m.controls m.timecode_counter
          (record {
            id = m.timecode_counter;
            name = name;
            controls = controls_of splines m.controls;
          })
          m.timecodes (λ j. count_values-controls_of splines j m.controls h.keyed) h.tracks;
    keyed = h.keyed;
    fresh = h.fresh;
  }

  pub remove_timecode-IsComplete :
      (id : ℕ) (m : TimecodeManager splines)
      → IsComplete splines m
      → IsComplete splines (remove_timecode splines id m).0
  unfolding remove_timecode
  remove_timecode-IsComplete id m h = record {
    tracks = AllComplete-erase m.controls id m.timecodes h.tracks;
    keyed = h.keyed;
    fresh = h.fresh;
  }

  pub update_timecode-IsComplete :
      (id : ℕ) (update : TimecodeTrack splines → TimecodeTrack splines)
      (m : TimecodeManager splines)
      → ((j : ℕ) (t : TimecodeTrack splines)
          → count_values splines j (update t).controls ≡ count_values splines j t.controls)
      → IsComplete splines m
      → IsComplete splines (update_timecode splines id update m).1
  unfolding update_timecode with_track
  update_timecode-IsComplete id update m keeps h = elim (Option-cases (lookup id m.timecodes)) [
    | inl missing ↦ rw missing h
    | inr (t, found) ↦ rw found (record {
      tracks =
          AllComplete-insert m.controls id (update t) m.timecodes
            (λ j. keeps j t ∙ AllComplete-found m.controls id t m.timecodes h.tracks found j)
            h.tracks;
      keyed = h.keyed;
      fresh = h.fresh;
    })
  ]

  pub update_timecode-counter :
      (id : ℕ) (update : TimecodeTrack splines → TimecodeTrack splines)
      (m : TimecodeManager splines)
      → (update_timecode splines id update m).1.control_counter ≡ m.control_counter
  unfolding update_timecode with_track
  update_timecode-counter id update m = elim (Option-cases (lookup id m.timecodes)) [
    | inl missing ↦ rw missing refl
    | inr (t, found) ↦ rw found refl
  ]
