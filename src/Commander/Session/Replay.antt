-- ===== src/Commander/Session/Replay.antt =====
-- The write-ahead log: what reading it back and applying it again restores, and what it does not.
use mizer.Prelude.{
  ℕ, ◌+◌, ◌<◌, ◌^◌, ◌≡◌, refl, ap, sym, ◌∙◌, true, Option, none, some, List, [], ◌∷◌, map, arith,
  length,
}
use mizer.Commander.Cursor.{back}
use mizer.Commander.Executor.{Error, ok, err, CommandTrait, IsLawful}
use mizer.Commander.Executor.Laws.{apply_new}
use mizer.Commander.Session.{
  Entry, undo_entry, Session, Serde, run_command, undo, append, read, read_rest, replay,
  replay_entry, and_then, replay_read, apply_wal,
}
use mizer.Commander.Session.Steps.{ran, run_command_eq}
use mizer.Commander.Session.Sound.{acts, fresh}
use mizer.Commander.Session.UndoAll.{undo-run_command}

module _ (t : CommandTrait) (d : Serde t) where
  read-encode : (cs : List t.Command) → read t d (map d.encode cs) ≡ ok cs
  unfolding read
  read-encode [] = refl
  read-encode (c ∷ cs) = rw (d.decode-encode c, read-encode cs, read_rest)

  -- Commands from `run_command`, one after the other; each line is written.
  pub run_all : Session t d.Line → ℕ → List t.Command → Session t d.Line
  run_all s now [] = s
  run_all s now (c ∷ cs) = run_all (run_command t d s c now true).0 now cs

  -- `cs` succeed one after the other, from `w` to `w'`.
  abbrev pub Leads : t.World → List t.Command → t.World → Type 0
  Leads w [] w' = w' ≡ w
  Leads w (c ∷ cs) w' =
      (next : t.World) × (o : t.Output) × (st : t.State) × (t.apply c w ≡ (ok (o, st), next))
      × Leads next cs w'

  -- The session after a line of the log was applied.
  abbrev replayed : Session t d.Line → t.Command → ℕ → t.State → t.World → Session t d.Line
  replayed s c now st w = record (ran t d s c now true st w) { log = s.log }

  replay_step :
      (s : Session t d.Line) (c : t.Command) (cs : List t.Command) (now : ℕ) (w : t.World)
      (o : t.Output) (st : t.State)
      → s.executor.command_index_counter + 1 < 2 ^ 64
      → t.apply c s.world ≡ (ok (o, st), w)
      → replay t d s (c ∷ cs) now ≡ replay t d (replayed s c now st w) cs now
  unfolding replay
  replay_step s c cs now w o st small h =
      ap (λ r. and_then t d (replay_entry t d s c now r) (λ s'. replay t d s' cs now))
        (apply_new t s.executor c s.world w o st small h)

  replay-Leads :
      (cs : List t.Command) (s : Session t d.Line) (now : ℕ) (w : t.World)
      → s.executor.command_index_counter + length cs < 2 ^ 64
      → Leads s.world cs w
      → ((replay t d s cs now).1 ≡ ok tt) × ((replay t d s cs now).0.world ≡ w)
  unfolding replay
  replay-Leads [] s now w small l = (refl, sym l)
  replay-Leads (c ∷ cs) s now w small (next, o, st, h, l) =
      rw (replay_step s c cs now next o st (omega arith) h)
        (replay-Leads cs (replayed s c now st next) now w (omega arith) l)

  -- A command that fails changes nothing.
  abbrev pub FailsCleanly : Type 0
  FailsCleanly = (c : t.Command) (w w' : t.World) (e : Error) → t.apply c w ≡ (err e, w') → w' ≡ w

  log-undo_entry :
      (e : Option (Entry t)) (s : Session t d.Line) → (undo_entry t d e s).0.log ≡ s.log
  unfolding undo_entry
  log-undo_entry none s = refl
  log-undo_entry (some e) s = refl

  log-undo : (s : Session t d.Line) → (undo t d s).0.log ≡ s.log
  unfolding undo
  log-undo s = log-undo_entry (back s.history).1 (record s { history = (back s.history).0 })

  log-undo_run :
      (w w' : t.World) (c : t.Command) (o : t.Output) (st : t.State) (now : ℕ)
      → t.apply c w ≡ (ok (o, st), w')
      → (undo t d (run_command t d (fresh t d w []) c now true).0).0.log ≡ d.encode c ∷ []
  unfolding append
  log-undo_run w w' c o st now h =
      log-undo (run_command t d (fresh t d w []) c now true).0
      ∙ ap (λ r. r.0.log) (run_command_eq t d (fresh t d w []) c now true o st w' (omega arith) h)

  apply_wal_one :
      (w w' : t.World) (c : t.Command) (o : t.Output) (st : t.State) (later : ℕ)
      → t.apply c w ≡ (ok (o, st), w')
      → ((apply_wal t d (fresh t d w (d.encode c ∷ [])) later).1 ≡ ok tt)
        × ((apply_wal t d (fresh t d w (d.encode c ∷ [])) later).0.world ≡ w')
  unfolding apply_wal
  apply_wal_one w w' c o st later h =
      rw (read-encode (c ∷ []), replay_read)
        (replay-Leads (c ∷ []) (fresh t d w (d.encode c ∷ [])) later w' (omega arith)
          (w', o, st, h, refl))

  -- The log does not hear of undo. Of commands of which `revert` takes back what `apply` did, and which
  -- change nothing when they fail: undoing the first command of a session, if it succeeded, gives back
  -- the first world, but the replay of that session's log, of which the line was written, to the first
  -- world ends in the world with the command applied.
  pub apply_wal-undo :
      IsLawful t
      → (w w' : t.World) (c : t.Command) (o : t.Output) (st : t.State) (now later : ℕ)
      → t.apply c w ≡ (ok (o, st), w')
      → let s = (undo t d (run_command t d (fresh t d w []) c now true).0).0 in
        (s.world ≡ w)
        × ((apply_wal t d (fresh t d w s.log) later).1 ≡ ok tt)
        × ((apply_wal t d (fresh t d w s.log) later).0.world ≡ w')
  apply_wal-undo law w w' c o st now later h =
      let (_, _, _, back_to, _) =
        undo-run_command t d law w [] [] c now true o st w' (omega arith) tt (unfold acts in h) in
      let (succeeds, again) = apply_wal_one w w' c o st later h in
      (
        unfold acts in back_to,
        rw (log-undo_run w w' c o st now h) succeeds,
        rw (log-undo_run w w' c o st now h) again,
      )
