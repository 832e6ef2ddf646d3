-- ===== src/Commander/Executor/Laws.antt =====
-- The executor's methods, branch by branch, as equations.
use mizer.Prelude.{suc, ◌+◌, ◌^◌, ◌<◌, ◌≡◌, Option, none, some, arith}
use mizer.Prelude.Maps.{lookup, insert, erase}
use mizer.Commander.Executor.{
  CommandKey, key_eq, Error, Result, ok, err, CommandTrait, Executor, apply, revert,
  next_command_key, keep_state, revert_from,
}

-- The key that a new command gets.
abbrev pub fresh_key : (t : CommandTrait) → Executor t → t.Command → CommandKey
fresh_key t ex c = record { command_type = t.type_id c; command_index = ex.command_index_counter }

module _ (t : CommandTrait) (ex : Executor t) (c : t.Command) (w w' : t.World) where
  pub apply_new :
      (o : t.Output) (st : t.State)
      → ex.command_index_counter + 1 < 2 ^ 64
      → t.apply c w ≡ (ok (o, st), w')
      → apply t ex c none w ≡ (
        ok (o, fresh_key t ex c),
        record {
          states = insert (fresh_key t ex c) st ex.states;
          command_index_counter = suc ex.command_index_counter;
        },
        w',
      )
  unfolding apply next_command_key
  apply_new o st small h = rw (h, keep_state) (ground arith)

  pub apply_again :
      (key : CommandKey) (o : t.Output) (st : t.State)
      → t.apply c w ≡ (ok (o, st), w')
      → apply t ex c (some key) w
        ≡ (ok (o, key), record ex { states = insert key st ex.states }, w')
  unfolding apply
  apply_again key o st h = rw (h, keep_state)

  pub apply_err :
      (key : Option CommandKey) (e : Error)
      → t.apply c w ≡ (err e, w')
      → apply t ex c key w ≡ (err e, ex, w')
  unfolding apply
  apply_err key e h = rw (h, keep_state)

  pub revert_found :
      (key : CommandKey) (st : t.State) (r : Result (Unit {0}))
      → lookup key ex.states ≡ some st
      → t.revert c st w ≡ (r, w')
      → revert t ex c key w ≡ (r, record ex { states = erase key ex.states }, w')
  unfolding revert
  revert_found key st r found h = rw (found, revert_from, h)
