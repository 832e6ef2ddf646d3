-- ===== src/Commander/Session.antt =====
-- The methods of `CommandExecutorApi` in crates/runtime/commander/executor/src/lib.rs, as they run
-- in the main loop, with `CommandHistory` of history.rs and `WriteAheadLog` of write_ahead_log.rs.
pub mod Valid
pub mod Steps
pub mod Sound
pub mod UndoAll
pub mod Replay
use mizer.Prelude.{ℕ, ◌≡◌, Bool, Option, none, some, List, [], ◌∷◌, ◌++◌, if◌then◌else◌}
use mizer.Commander.Cursor
use mizer.Commander.Cursor.{CommandCursor}
use mizer.Commander.Executor.{
  CommandKey, Result, ok, err, corrupt_log, CommandTrait, Executor, apply, revert,
}

-- An entry of the history; the time is in milliseconds since 1970.
pub record Entry (t : CommandTrait) : Type 0 where
  pub command : t.Command
  pub key : CommandKey
  pub time : ℕ

-- What the injector holds for the commands. The log file is its list of lines.
pub record Session (t : CommandTrait) (Line : Type 0) : Type 0 where
  pub world : t.World
  pub executor : Executor t
  pub history : CommandCursor (Entry t)
  pub log : List Line

-- `serde_json`: one line for a command, and a parser for it.
pub record Serde (t : CommandTrait) : Type 1 where
  pub Line : Type 0
  pub encode : t.Command → Line
  pub decode : Line → Option t.Command
  pub decode-encode : (c : t.Command) → decode (encode c) ≡ some c

module _ (t : CommandTrait) (d : Serde t) where
  abbrev S : Type 0
  S = Session t d.Line

  -- `CommandHistory::add_entry` at the time `now`
  unfoldable pub add_entry :
      CommandCursor (Entry t) → t.Command → CommandKey → ℕ → CommandCursor (Entry t)
  add_entry h command key now = Cursor.push h (record { command = command; key = key; time = now })

  -- `WriteAheadLog::append`; a failure to write is logged, and the command stands.
  unfoldable pub append : List d.Line → t.Command → Bool → List d.Line
  append log command written = if written then log ++ d.encode command ∷ [] else log

  finish_run :
      S
      → t.Command
      → ℕ
      → Bool
      → Result (t.Output × CommandKey) × Executor t × t.World
      → S × Result t.Output
  unfolding add_entry append Cursor.push
  finish_run s command now written (err e, ex, w) = (record s { world = w; executor = ex }, err e)
  finish_run s command now written (ok (output, key), ex, w) = (
    record {
      world = w;
      executor = ex;
      history = add_entry s.history command key now;
      log = append s.log command written;
    },
    ok output,
  )

  unfoldable pub run_command : S → t.Command → ℕ → Bool → S × Result t.Output
  unfolding finish_run apply
  run_command s command now written =
      finish_run s command now written (apply t s.executor command none s.world)

  undo_entry : Option (Entry t) → S → S × Result (Unit {0})
  unfolding revert
  undo_entry none s = (s, ok tt)
  undo_entry (some e) s =
      let (r, ex, w) = revert t s.executor e.command e.key s.world in
      (record s { world = w; executor = ex }, r)

  -- `CommandHistory::undo`
  unfoldable pub undo : S → S × Result (Unit {0})
  unfolding undo_entry Cursor.back
  undo s = let (h, e) = Cursor.back s.history in undo_entry e (record s { history = h })

  drop_output : Result (t.Output × CommandKey) → Result (Unit {0})
  drop_output (ok _) = ok tt
  drop_output (err e) = err e

  redo_entry : Option (Entry t) → S → S × Result (Unit {0})
  unfolding drop_output apply
  redo_entry none s = (s, ok tt)
  redo_entry (some e) s =
      let (r, ex, w) = apply t s.executor e.command (some e.key) s.world in
      (record s { world = w; executor = ex }, drop_output r)

  -- `CommandHistory::redo`
  unfoldable pub redo : S → S × Result (Unit {0})
  unfolding redo_entry Cursor.forward
  redo s = let (h, e) = Cursor.forward s.history in redo_entry e (record s { history = h })

  read_rest : Option t.Command → Result (List t.Command) → Result (List t.Command)
  read_rest none rest = err corrupt_log
  read_rest (some c) (ok cs) = ok (c ∷ cs)
  read_rest (some c) (err e) = err e

  -- `WriteAheadLog::read`
  unfoldable pub read : List d.Line → Result (List t.Command)
  unfolding read_rest
  read [] = ok []
  read (line ∷ lines) = read_rest (d.decode line) (read lines)

  replay_entry :
      S
      → t.Command
      → ℕ
      → Result (t.Output × CommandKey) × Executor t × t.World
      → S × Result (Unit {0})
  unfolding add_entry
  replay_entry s command now (err e, ex, w) = (record s { world = w; executor = ex }, err e)
  replay_entry s command now (ok (output, key), ex, w) =
      (record s { world = w; executor = ex; history = add_entry s.history command key now }, ok tt)

  -- The operator `?` in a loop: the first error ends it.
  and_then : S × Result (Unit {0}) → (S → S × Result (Unit {0})) → S × Result (Unit {0})
  and_then (s, ok _) rest = rest s
  and_then (s, err e) rest = (s, err e)

  unfoldable pub replay : S → List t.Command → ℕ → S × Result (Unit {0})
  unfolding replay_entry and_then
  replay s [] now = (s, ok tt)
  replay s (command ∷ commands) now =
      and_then (replay_entry s command now (apply t s.executor command none s.world))
        λ s'. replay s' commands now

  replay_read : S → Result (List t.Command) → ℕ → S × Result (Unit {0})
  unfolding replay
  replay_read s (ok commands) now = replay s commands now
  replay_read s (err e) now = (s, err e)

  unfoldable pub apply_wal : S → ℕ → S × Result (Unit {0})
  unfolding replay_read read
  apply_wal s now = replay_read s (read s.log) now
