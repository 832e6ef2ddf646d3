-- ===== src/Commander/Executor.antt =====
-- `CommandExecutor` of crates/runtime/commander/executor/src/executor.rs, over the trait `Command`
-- of crates/runtime/commander/src/command.rs. What a command reads and writes through its
-- dependencies is one `World`, which a failing command may have changed as well.
pub mod Laws
use Prim.Native.Nat.{compare}
use mizer.Prelude.{
  ℕ, ◌+◌, ◌%◌, ◌^◌, ◌≡◌, ◌↔◌, Bool, true, ◌&&◌, Option, none, some, [], arith, ◌==◌, if◌then◌else◌,
}
use mizer.Prelude.Maps.{Eq, Map, lookup, insert, erase}

pub record CommandKey : Type 0 where
  pub command_type : ℕ  -- TypeId
  pub command_index : ℕ

abbrev pub key_beq : CommandKey → CommandKey → Bool
key_beq a b = a.command_type == b.command_type && a.command_index == b.command_index

pub key_beq_iff : (a b : CommandKey) → (key_beq a b ≡ true) ↔ (a ≡ b)
key_beq_iff a b = ground arith

instance abbrev pub key_eq : Eq CommandKey
key_eq = record { beq = key_beq; beq_iff = key_beq_iff }

-- `anyhow::Error`
pub data Error : Type 0 where
  missing_state : CommandKey → Error
  failed : ℕ → Error
  corrupt_log : Error

pub data Result (A : Type 0) : Type 0 where
  ok : A → Result A
  err : Error → Result A

-- The trait `Command`: `type_id` is `TypeId::of`, `label` and the serialisation are left out.
pub record CommandTrait : Type 1 where
  pub World : Type 0
  pub Command : Type 0
  pub Output : Type 0
  pub State : Type 0
  pub type_id : Command → ℕ
  pub apply : Command → World → Result (Output × State) × World
  pub revert : Command → State → World → Result (Unit {0}) × World

-- What undo needs of the commands: `revert` takes back what `apply` did, and a command that fails
-- has changed nothing.
pub record IsLawful (t : CommandTrait) : Type 0 where
  pub revert-apply :
      (c : t.Command) (w w' : t.World) (o : t.Output) (s : t.State)
      → t.apply c w ≡ (ok (o, s), w')
      → t.revert c s w' ≡ (ok tt, w)
  pub apply_atomic :
      (c : t.Command) (w w' : t.World) (e : Error) → t.apply c w ≡ (err e, w') → w' ≡ w

-- The struct `CommandExecutor`.
pub record Executor (t : CommandTrait) : Type 0 where
  pub states : Map CommandKey t.State
  pub command_index_counter : ℕ  -- u64

module _ (t : CommandTrait) where
  abbrev pub new_executor : Executor t
  new_executor = record { states = []; command_index_counter = 0 }

  -- The counter wraps in a release build.
  unfoldable pub next_command_key : Executor t → t.Command → Executor t × CommandKey
  next_command_key ex command = (
    record ex { command_index_counter = (ex.command_index_counter + 1) % 2 ^ 64 },
    record { command_type = t.type_id command; command_index = ex.command_index_counter },
  )

  key_or_next : Executor t → t.Command → Option CommandKey → Executor t × CommandKey
  unfolding next_command_key
  key_or_next ex command none = next_command_key ex command
  key_or_next ex command (some key) = (ex, key)

  keep_state :
      Executor t
      → t.Command
      → Option CommandKey
      → Result (t.Output × t.State) × t.World
      → Result (t.Output × CommandKey) × Executor t × t.World
  unfolding key_or_next insert
  keep_state ex command given (err e, w) = (err e, ex, w)
  keep_state ex command given (ok (output, state), w) =
      let (ex', key) = key_or_next ex command given in
      (ok (output, key), record ex' { states = insert key state ex'.states }, w)

  unfoldable pub apply :
      Executor t
      → t.Command
      → Option CommandKey
      → t.World
      → Result (t.Output × CommandKey) × Executor t × t.World
  unfolding keep_state
  apply ex command given w = keep_state ex command given (t.apply command w)

  revert_from :
      Option t.State
      → Executor t
      → t.Command
      → CommandKey
      → t.World
      → Result (Unit {0}) × Executor t × t.World
  unfolding erase
  revert_from none ex command key w = (err (missing_state key), ex, w)
  revert_from (some state) ex command key w =
      let (r, w') = t.revert command state w in (r, record ex { states = erase key ex.states }, w')

  -- The state is removed before the command is reverted, and stays removed if that fails.
  unfoldable pub revert :
      Executor t → t.Command → CommandKey → t.World → Result (Unit {0}) × Executor t × t.World
  unfolding revert_from lookup
  revert ex command key w = revert_from (lookup key ex.states) ex command key w
