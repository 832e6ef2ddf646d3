-- ===== src/Tests/CommanderTests.antt =====
-- The commander at concrete inputs: a counter as the world, and commands that add to it.
use mizer.Prelude.{ℕ, ◌+◌, ◌≡◌, refl, true, some, List, [], ◌∷◌, arith, ◌==◌, if◌then◌else◌}
use mizer.Commander.Cursor.Overshoot.{push_call, back_call, forward_call, Call}
use mizer.Commander.Executor.{failed, Result, ok, err, CommandTrait, IsLawful}
use mizer.Commander.Session.{Serde, Session, run_command, undo, apply_wal}
use mizer.Commander.Session.Sound.{Action, run_it, undo_it, redo_it, fresh, acts}
use mizer.Commander.Session.Replay.{apply_wal-undo}

abbrev calls : List (Call ℕ)
calls = push_call 1 ∷ forward_call ∷ forward_call ∷ forward_call ∷ push_call 2 ∷ back_call ∷ []

-- Adding 0 fails.
abbrev add_to : ℕ → ℕ → Result (ℕ × ℕ) × ℕ
add_to n w = if n == 0 then (err (failed 0), w) else (ok (w + n, w), w + n)

abbrev counter : CommandTrait
counter = record {
  World = ℕ;
  Command = ℕ;
  Output = ℕ;
  State = ℕ;
  type_id = λ n. 0;
  apply = add_to;
  revert = λ n before w. (ok tt, before);
}

counter-IsLawful : IsLawful counter
counter-IsLawful = record {
  revert-apply = λ c w w' o s h. ground arith;
  apply_atomic = λ c w w' e h. ground arith;
}

abbrev lines : Serde counter
lines = record { Line = ℕ; encode = λ c. c; decode = λ l. some l; decode-encode = λ c. refl }

abbrev session : List (Action counter)
session = run_it 5 1000 true ∷ run_it 0 1001 true ∷ run_it 7 1002 true ∷ undo_it ∷ redo_it ∷ []

session_world : (acts counter lines (fresh counter lines 1 []) session).world ≡ 13
unfolding acts
session_world = refl

abbrev ended : Session counter ℕ
ended = acts counter lines (fresh counter lines 1 []) session

abbrev mixed : List ℕ
mixed = 5 ∷ 0 ∷ 7 ∷ []

apply_wal-undo_example :
    let s =
      (undo counter lines (run_command counter lines (fresh counter lines 1 []) 5 1000 true).0).0 in
    (s.world ≡ 1)
    × ((apply_wal counter lines (fresh counter lines 1 s.log) 2000).1 ≡ ok tt)
    × ((apply_wal counter lines (fresh counter lines 1 s.log) 2000).0.world ≡ 6)
apply_wal-undo_example = apply_wal-undo counter lines counter-IsLawful 1 6 5 6 1 1000 2000 refl
