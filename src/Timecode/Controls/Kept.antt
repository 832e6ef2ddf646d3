-- ===== src/Timecode/Controls/Kept.antt =====
-- The calls that add and remove a control, and the values that the tracks have.
use Prim.Native.String.{String}
use mizer.Prelude.{
  ◌≡◌, ◌∙◌, arith, ℕ, ◌+◌, ◌<◌, ◌%◌, ◌^◌, Option-cases, inl, inr, Option, none, some, [], ◌∷◌,
  ==_iff, subst,
}
use mizer.Prelude.Maps.{Map, lookup, insert, erase, nat_eq, lookup-insert, lookup-erase}
use mizer.Layouts.Store.{remove_first}
use mizer.Layouts.Store.Laws.{NoneHas-remove_first}
use mizer.Timecode.{
  Splines, TimecodeControl, TimecodeTrack, TimecodeManager, map_values, empty_values,
}
use mizer.Timecode.Complete.{
  held, insert-IsKeyed, erase-IsKeyed, count_values, count_values-push, count_values-remove_first,
  count_values-none, Complete, AllComplete, IsComplete,
}
use mizer.Timecode.Controls.{
  has_values, without_values, push_values, add_timecode_control, remove_timecode_control,
}

held_small : (o : Option TimecodeControl) → held o < 2
held_small none = omega arith
held_small (some c) = omega arith

module _ (splines : Splines) where
  AllComplete-map_values :
      (cs cs' : Map ℕ TimecodeControl) (f : ℕ → TimecodeTrack splines → TimecodeTrack splines)
      (ts : Map ℕ (TimecodeTrack splines))
      → ((k : ℕ) (t : TimecodeTrack splines) → Complete splines cs t → Complete splines cs' (f k t))
      → AllComplete splines cs ts
      → AllComplete splines cs' (map_values f ts)
  unfolding map_values
  AllComplete-map_values cs cs' f [] keeps h = tt
  AllComplete-map_values cs cs' f ((k, t) ∷ ts) keeps h =
      (keeps k t h.0, AllComplete-map_values cs cs' f ts keeps h.1)

  push_values-Complete :
      (c : TimecodeControl) (cs : Map ℕ TimecodeControl) (t : TimecodeTrack splines)
      → lookup c.id cs ≡ none
      → Complete splines cs t
      → Complete splines (insert c.id c cs) (push_values splines (empty_values splines c.id) t)
  unfolding count_values
  push_values-Complete c cs t new h j =
      count_values-push splines j t.controls (empty_values splines c.id)
      ∙ ground (
        arith,
        lookup-insert c.id j c cs,
        h j,
        ==_iff c.id j,
        λ (e : c.id ≡ j). subst (λ n. lookup n cs ≡ none) e new,
      )

  without_values-Complete :
      (id : ℕ) (cs : Map ℕ TimecodeControl) (t : TimecodeTrack splines)
      → Complete splines cs t
      → Complete splines
          (erase id cs)
          (without_values splines t (remove_first (has_values splines id) t.controls))
  unfolding without_values count_values
  without_values-Complete id cs t h j =
      elim (Option-cases (remove_first (has_values splines id) t.controls)) [
        | inl missing ↦
            let zero_there =
              count_values-none splines id t.controls
                (NoneHas-remove_first (has_values splines id) t.controls missing) in
            rw missing (
              ground (
                arith,
                lookup-erase id j cs,
                h j,
                ==_iff id j,
                λ (e : id ≡ j). subst (λ n. count_values splines n t.controls ≡ 0) e zero_there,
              ))
        | inr ((v, vs), taken) ↦
            let (same, counted) = count_values-remove_first splines j id t.controls v vs taken in
            rw taken (
              ground (
                arith,
                lookup-erase id j cs,
                h j,
                ==_iff id j,
                ==_iff v.id j,
                same,
                counted,
                held_small (lookup j cs),
              ))
      ]

  no_control :
      (m : TimecodeManager splines)
      → IsComplete splines m
      → lookup m.control_counter m.controls ≡ none
  no_control m h = subst (λ n. lookup n m.controls ≡ none) (omega arith) (h.fresh 0)

  pub add_timecode_control-IsComplete :
      (name : String) (m : TimecodeManager splines)
      → m.control_counter + 1 < 2 ^ 32
      → IsComplete splines m
      → IsComplete splines (add_timecode_control splines name m).0
  unfolding add_timecode_control
  add_timecode_control-IsComplete name m small h =
      let control : TimecodeControl = record { id = m.control_counter; name = name } in
      record {
        tracks =
            AllComplete-map_values m.controls (insert control.id control m.controls) _ m.timecodes
              (λ k t c. push_values-Complete control m.controls t (no_control m h) c) h.tracks;
        keyed = insert-IsKeyed control m.controls h.keyed;
        fresh = λ j.
            let behind : (m.control_counter + 1) % 2 ^ 32 + j ≡ m.control_counter + (1 + j) =
              omega arith in
            rw (behind, lookup-insert control.id (m.control_counter + (1 + j)) control m.controls)
              (ground (arith, h.fresh (1 + j)));
      }

  pub remove_timecode_control-IsComplete :
      (id : ℕ) (m : TimecodeManager splines)
      → IsComplete splines m
      → IsComplete splines (remove_timecode_control splines id m).0
  unfolding remove_timecode_control
  remove_timecode_control-IsComplete id m h = record {
    tracks =
        AllComplete-map_values m.controls (erase id m.controls) _ m.timecodes
          (λ k t c. without_values-Complete id m.controls t c) h.tracks;
    keyed = erase-IsKeyed id m.controls h.keyed;
    fresh =
        λ j. rw (lookup-erase id (m.control_counter + j) m.controls) (ground (arith, h.fresh j));
  }
