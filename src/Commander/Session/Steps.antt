-- ===== src/Commander/Session/Steps.antt =====
-- Each operation of a session keeps its invariant, and says what it returns.
use mathlib.Core.List.{reverse, reverse-cons}
use mizer.Prelude.{
  ℕ, suc, ◌+◌, ◌^◌, ◌<◌, ◌≡◌, refl, ap, sym, ◌∙◌, Bool, none, some, List, [], ◌∷◌, arith, length,
  length-append,
}
use mizer.Prelude.Maps.{lookup, insert, erase, lookup-insert_self}
use mizer.Commander.Cursor.{push, back, forward}
use mizer.Commander.Cursor.Timeline.{between, limit, push-between, back-between, forward-between}
use mizer.Commander.Executor.{key_eq, Error, ok, err, CommandTrait, IsLawful}
use mizer.Commander.Executor.Laws.{fresh_key, apply_new, apply_again, apply_err, revert_found}
use mizer.Commander.Session.{
  undo_entry, redo_entry, drop_output, finish_run, append, Entry, Session, Serde, run_command, undo,
  redo,
}
use mizer.Commander.Session.Valid.{
  IsValid, CanUndo-insert, CanUndo-erase, Below, Below-mono, Rising-mono, le_of_Rising,
  length-le_of_Below,
}

pub length-reverse {ℓ} : {A : Type ℓ} (xs : List A) → length (reverse xs) ≡ length xs
length-reverse [] = refl
length-reverse (x ∷ xs) =
    rw reverse-cons (omega (arith, length-append (reverse xs) (x ∷ []), length-reverse xs))

module _ (t : CommandTrait) (d : Serde t) where
  abbrev pub new_entry : Session t d.Line → t.Command → ℕ → Entry t
  new_entry s c now = record { command = c; key = fresh_key t s.executor c; time = now }

  -- The session after a command that succeeded.
  abbrev pub ran : Session t d.Line → t.Command → ℕ → Bool → t.State → t.World → Session t d.Line
  ran s c now written st w = record {
    world = w;
    executor = record {
      states = insert (fresh_key t s.executor c) st s.executor.states;
      command_index_counter = suc s.executor.command_index_counter;
    };
    history = push s.history (new_entry s c now);
    log = append t d s.log c written;
  }

  pub run_command_eq :
      (s : Session t d.Line) (c : t.Command) (now : ℕ) (written : Bool) (o : t.Output)
      (st : t.State) (w : t.World)
      → s.executor.command_index_counter + 1 < 2 ^ 64
      → t.apply c s.world ≡ (ok (o, st), w)
      → run_command t d s c now written ≡ (ran s c now written st w, ok o)
  unfolding run_command
  run_command_eq s c now written o st w small h =
      rw (apply_new t s.executor c s.world w o st small h, finish_run)

  -- A command that fails leaves no entry and no line in the log.
  pub run_command_err :
      (s : Session t d.Line) (c : t.Command) (now : ℕ) (written : Bool) (e : Error) (w : t.World)
      → t.apply c s.world ≡ (err e, w)
      → run_command t d s c now written ≡ (record s { world = w }, err e)
  unfolding run_command
  run_command_err s c now written e w h =
      rw (apply_err t s.executor c s.world w none e h, finish_run)

  module _ {origin : t.World} (s : Session t d.Line) (stack future : List (Entry t))
      (pivot : ℕ) where
    done-lt-limit :
        {n : ℕ} → IsValid t origin s stack future pivot n → length (reverse stack) < limit
    done-lt-limit v = omega (
      arith,
      length-reverse stack,
      length-le_of_Below t pivot stack v.past_keys,
      le_of_Rising t pivot s.executor.command_index_counter future v.future_keys,
      v.fits,
    )

    below :
        {n : ℕ}
        → IsValid t origin s stack future pivot n
        → Below t s.executor.command_index_counter stack
    below v =
        Below-mono t pivot s.executor.command_index_counter stack
          (le_of_Rising t pivot s.executor.command_index_counter future v.future_keys) v.past_keys

    -- A command that succeeds is entered behind those that are done; what was undone is gone.
    pub ran-IsValid :
        (room : ℕ) (c : t.Command) (now : ℕ) (written : Bool) (o : t.Output) (st : t.State)
        (w : t.World)
        → IsValid t origin s stack future pivot (suc room)
        → t.apply c s.world ≡ (ok (o, st), w)
        → IsValid t origin
            (ran s c now written st w)
            (new_entry s c now ∷ stack)
            []
            (suc s.executor.command_index_counter)
            room
    ran-IsValid room c now written o st w v h = record {
      history =
          ap (λ h. push h (new_entry s c now)) v.history
          ∙ push-between (reverse stack) future (new_entry s c now) (done-lt-limit v)
          ∙ ap (λ l. between l []) (sym (reverse-cons (new_entry s c now) stack));
      undoable = (
        s.world,
        o,
        st,
        lookup-insert_self (fresh_key t s.executor c) st s.executor.states,
        h,
        CanUndo-insert t origin s.world s.executor.states (fresh_key t s.executor c) st stack
            (below v) v.undoable,
      );
      redoable = tt;
      past_keys = (omega arith, below v);
      future_keys = omega arith;
      fits = omega (arith, v.fits);
    }

  abbrev pub undone :
      Session t d.Line → Entry t → List (Entry t) → List (Entry t) → t.World → Session t d.Line
  undone s e stack future before = record s {
    world = before;
    executor = record s.executor { states = erase e.key s.executor.states };
    history = between (reverse stack) (e ∷ future);
  }

  abbrev pub redone :
      Session t d.Line
      → Entry t
      → List (Entry t)
      → List (Entry t)
      → t.State
      → t.World
      → Session t d.Line
  redone s e stack future st after = record s {
    world = after;
    executor = record s.executor { states = insert e.key st s.executor.states };
    history = between (reverse (e ∷ stack)) future;
  }

  module _ {origin : t.World} (s : Session t d.Line) (stack future : List (Entry t)) (e : Entry t)
      (pivot room : ℕ) where
    back_entry :
        IsValid t origin s (e ∷ stack) future pivot room
        → back s.history ≡ (between (reverse stack) (e ∷ future), some e)
    back_entry v =
        ap back v.history
        ∙ ap (λ l. back (between l future)) (reverse-cons e stack)
        ∙ back-between (reverse stack) future e (
            omega (
              arith,
              done-lt-limit s (e ∷ stack) future pivot v,
              length-reverse stack,
              length-reverse (e ∷ stack),
            ))

    -- Undo reverts the latest command: the world is as before it.
    pub undo_eq_at :
        (before : t.World) (o : t.Output) (st : t.State)
        → IsLawful t
        → IsValid t origin s (e ∷ stack) future pivot room
        → lookup e.key s.executor.states ≡ some st
        → t.apply e.command before ≡ (ok (o, st), s.world)
        → undo t d s ≡ (undone s e stack future before, ok tt)
    unfolding undo
    undo_eq_at before o st law v found applied = rw (
      back_entry v,
      undo_entry,
      revert_found t s.executor e.command s.world before e.key st (ok tt) found
          (law.revert-apply e.command before s.world o st applied),
    )

    pub undo_eq :
        IsLawful t
        → (v : IsValid t origin s (e ∷ stack) future pivot room)
        → undo t d s ≡ (undone s e stack future v.undoable.0, ok tt)
    undo_eq law v =
        let (before, o, st, found, applied, _) = v.undoable in
        undo_eq_at before o st law v found applied

    pub undone-IsValid :
        (v : IsValid t origin s (e ∷ stack) future pivot room)
        → IsValid t origin
            (undone s e stack future v.undoable.0)
            stack
            (e ∷ future)
            e.key.command_index
            room
    undone-IsValid v =
        let (before, o, st, found, applied, u) = v.undoable in
        record {
          history = refl;
          undoable = CanUndo-erase t origin before s.executor.states e.key stack v.past_keys.1 u;
          redoable = (s.world, o, st, applied, v.redoable);
          past_keys = v.past_keys.1;
          future_keys = (
            omega arith,
            Rising-mono t (suc e.key.command_index) pivot s.executor.command_index_counter future
                v.past_keys.0 v.future_keys,
          );
          fits = v.fits;
        }

    forward_entry :
        IsValid t origin s stack (e ∷ future) pivot room
        → forward s.history ≡ (between (reverse (e ∷ stack)) future, some e)
    forward_entry v =
        ap forward v.history
        ∙ forward-between (reverse stack) future e (done-lt-limit s stack (e ∷ future) pivot v)
        ∙ ap (λ l. (between l future, some e)) (sym (reverse-cons e stack))

    -- Redo applies the latest undone command again, under the key that it had.
    pub redo_eq :
        (v : IsValid t origin s stack (e ∷ future) pivot room)
        → redo t d s ≡ (redone s e stack future v.redoable.2 v.redoable.0, ok tt)
    unfolding redo
    redo_eq v =
        let (after, o, st, applied, _) = v.redoable in
        rw (
          forward_entry v,
          redo_entry,
          apply_again t s.executor e.command s.world after e.key o st applied,
          drop_output,
        )

    pub redone-IsValid :
        (v : IsValid t origin s stack (e ∷ future) pivot room)
        → IsValid t origin
            (redone s e stack future v.redoable.2 v.redoable.0)
            (e ∷ stack)
            future
            (suc e.key.command_index)
            room
    redone-IsValid v =
        let (after, o, st, applied, r) = v.redoable in
        let below = Below-mono t pivot e.key.command_index stack v.future_keys.0 v.past_keys in
        record {
          history = refl;
          undoable = (
            s.world,
            o,
            st,
            lookup-insert_self e.key st s.executor.states,
            applied,
            CanUndo-insert t origin s.world s.executor.states e.key st stack below v.undoable,
          );
          redoable = r;
          past_keys = (omega arith, below);
          future_keys = v.future_keys.1;
          fits = v.fits;
        }
