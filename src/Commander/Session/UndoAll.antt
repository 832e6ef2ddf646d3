-- ===== src/Commander/Session/UndoAll.antt =====
-- What undo and redo give back over a whole session.
use mizer.Prelude.{ℕ, zero, suc, ◌+◌, ◌<◌, ◌≡◌, refl, sym, Bool, List, [], ◌∷◌, arith, length}
use mizer.Commander.Cursor.{index}
use mizer.Prelude.Maps.{lookup-insert_self}
use mizer.Commander.Executor.{key_eq}
use mizer.Commander.Executor.Laws.{fresh_key}
use mizer.Commander.Cursor.Timeline.{limit, index-between}
use mizer.Commander.Executor.{ok, CommandTrait, IsLawful}
use mizer.Commander.Session.{Entry, Session, Serde, run_command, undo, redo}
use mizer.Commander.Session.Valid.{IsValid}
use mizer.Commander.Session.Steps.{
  ran, ran-IsValid, run_command_eq, new_entry, undo_eq, undo_eq_at, undone, undone-IsValid,
  length-reverse,
}
use mizer.Commander.Session.Sound.{Action, fresh, acts, IsGuarded, IsSound, acts-IsSound}

module _ (t : CommandTrait) (d : Serde t) where
  pub undo_times : ℕ → Session t d.Line → Session t d.Line
  undo_times zero s = s
  undo_times (suc n) s = undo_times n (undo t d s).0

  pub redo_times : ℕ → Session t d.Line → Session t d.Line
  redo_times zero s = s
  redo_times (suc n) s = (redo t d (redo_times n s)).0

  fresh-IsSound :
      (w : t.World) (log : List d.Line) (room : ℕ)
      → room < limit
      → IsSound t d w (fresh t d w log) room
  fresh-IsSound w log room h = record {
    stack = [];
    future = [];
    pivot = 0;
    valid = record {
      history = refl;
      undoable = refl;
      redoable = tt;
      past_keys = tt;
      future_keys = omega arith;
      fits = omega arith;
    };
  }

  module _ (law : IsLawful t) (origin : t.World) where
    undo_times-world :
        (s : Session t d.Line) (stack future : List (Entry t)) (pivot room : ℕ)
        → IsValid t origin s stack future pivot room
        → ((undo_times (length stack) s).world ≡ origin)
          × (index (undo_times (length stack) s).history ≡ 0)
    unfolding undo_times
    undo_times-world s [] future pivot room v = (v.undoable, rw (v.history, index-between))
    undo_times-world s (e ∷ stack) future pivot room v =
        rw (undo_times, undo_eq t d s stack future e pivot room law v)
          (undo_times-world (undone t d s e stack future v.undoable.0) stack (e ∷ future)
            e.key.command_index room (undone-IsValid t d s stack future e pivot room v))

    index-IsValid :
        (s : Session t d.Line) (stack future : List (Entry t)) (pivot room : ℕ)
        → IsValid t origin s stack future pivot room
        → index s.history ≡ length stack
    index-IsValid s stack future pivot room v = rw (v.history, index-between, length-reverse)

    session-IsSound :
        (log : List d.Line) (actions : List (Action t)) (room : ℕ)
        → length actions + room < limit
        → IsGuarded t d (fresh t d origin log) actions
        → IsSound t d origin (acts t d (fresh t d origin log) actions) room
    session-IsSound log actions room small g =
        acts-IsSound t d law origin (fresh t d origin log) actions room g
          (fresh-IsSound origin log (length actions + room) small)

    pub undo_all-acts :
        (log : List d.Line) (actions : List (Action t))
        → length actions < limit
        → IsGuarded t d (fresh t d origin log) actions
        → let s = acts t d (fresh t d origin log) actions in
          ((undo_times (index s.history) s).world ≡ origin)
          × (index (undo_times (index s.history) s).history ≡ 0)
    undo_all-acts log actions small g =
        let sound = session-IsSound log actions 0 (omega arith) g in
        rw (index-IsValid _ sound.stack sound.future sound.pivot 0 sound.valid)
          (undo_times-world _ sound.stack sound.future sound.pivot 0 sound.valid)

    pub undo-run_command :
        (log : List d.Line) (actions : List (Action t)) (c : t.Command) (now : ℕ) (written : Bool)
        (o : t.Output) (st : t.State) (w : t.World)
        → length actions + 1 < limit
        → IsGuarded t d (fresh t d origin log) actions
        → t.apply c (acts t d (fresh t d origin log) actions).world ≡ (ok (o, st), w)
        → let s = acts t d (fresh t d origin log) actions in
          let r = run_command t d s c now written in
          (r.1 ≡ ok o)
          × (r.0.world ≡ w)
          × ((undo t d r.0).1 ≡ ok tt)
          × ((undo t d r.0).0.world ≡ s.world)
          × (index (undo t d r.0).0.history ≡ index s.history)
    undo-run_command log actions c now written o st w small g h =
        let s = acts t d (fresh t d origin log) actions in
        let sound = session-IsSound log actions 1 small g in
        let v =
          ran-IsValid t d s sound.stack sound.future sound.pivot 0 c now written o st w sound.valid
            h in
        rw (run_command_eq t d s c now written o st w (omega (arith, sound.valid.fits)) h) (
          rw
            (undo_eq_at t d (ran t d s c now written st w) sound.stack [] (new_entry t d s c now)
              (suc s.executor.command_index_counter) 0 s.world o st law v
              (lookup-insert_self (fresh_key t s.executor c) st s.executor.states) h)
            (
              refl,
              refl,
              refl,
              refl,
              rw (index-between, length-reverse)
                  (sym (index-IsValid s sound.stack sound.future sound.pivot 1 sound.valid)),
            ))
