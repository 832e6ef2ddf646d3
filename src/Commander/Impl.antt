-- ===== src/Commander/Impl.antt =====
-- The implementations of the trait `Command` of crates/runtime/commander/src/command.rs that work on
-- one world, and several of them as the commands of one executor, which keeps the state of each
-- command by the type of the command.
pub mod Lawful
pub mod Beside
use mizer.Prelude.{ℕ, ◌+◌, ◌*◌, ◌⊎◌, inl, inr}
use mizer.Commander.Executor.{Result, ok, err, failed, CommandTrait}

pub record Impl (W : Type 0) : Type 1 where
  pub Command : Type 0
  pub State : Type 0
  pub type_id : Command → ℕ
  pub apply : Command → W → Result (Unit {0} × State) × W
  pub revert : Command → State → W → Result (Unit {0}) × W

-- An implementation as the executor sees it
abbrev pub trait_of : {W : Type 0} → Impl W → CommandTrait
trait_of {W} i = record {
  World = W;
  Command = i.Command;
  Output = Unit {0};
  State = i.State;
  type_id = i.type_id;
  apply = i.apply;
  revert = i.revert;
}

module _ {W : Type 0} where
  pub left : {A B : Type 0} → Result (Unit {0} × A) × W → Result (Unit {0} × (A ⊎ B)) × W
  left (ok (o, s), w) = (ok (o, inl s), w)
  left (err e, w) = (err e, w)

  pub right : {A B : Type 0} → Result (Unit {0} × B) × W → Result (Unit {0} × (A ⊎ B)) × W
  right (ok (o, s), w) = (ok (o, inr s), w)
  right (err e, w) = (err e, w)

  module _ (i j : Impl W) where
    unfoldable pub apply_either :
        i.Command ⊎ j.Command → W → Result (Unit {0} × (i.State ⊎ j.State)) × W
    unfolding left right
    apply_either (inl c) w = left (i.apply c w)
    apply_either (inr c) w = right (j.apply c w)

    -- A state of the other type is never handed back.
    unfoldable pub revert_either :
        i.Command ⊎ j.Command → i.State ⊎ j.State → W → Result (Unit {0}) × W
    revert_either (inl c) (inl s) w = i.revert c s w
    revert_either (inr c) (inr s) w = j.revert c s w
    revert_either _ _ w = (err (failed 0), w)

    unfoldable pub type_id_either : i.Command ⊎ j.Command → ℕ
    type_id_either (inl c) = i.type_id c * 2
    type_id_either (inr c) = j.type_id c * 2 + 1

    -- The commands of both
    abbrev pub either : Impl W
    either = record {
      Command = i.Command ⊎ j.Command;
      State = i.State ⊎ j.State;
      type_id = type_id_either;
      apply = apply_either;
      revert = revert_either;
    }

-- An implementation on a world that has more beside it
module _ {W V : Type 0} where
  pub keep_second : {A : Type 0} → V → A × W → A × (W × V)
  keep_second v (a, w) = (a, (w, v))

  pub keep_first : {A : Type 0} → W → A × V → A × (W × V)
  keep_first w (a, v) = (a, (w, v))

  abbrev pub on_first : Impl W → Impl (W × V)
  on_first i = record {
    Command = i.Command;
    State = i.State;
    type_id = i.type_id;
    apply = λ c world. keep_second world.1 (i.apply c world.0);
    revert = λ c s world. keep_second world.1 (i.revert c s world.0);
  }

  abbrev pub on_second : Impl V → Impl (W × V)
  on_second i = record {
    Command = i.Command;
    State = i.State;
    type_id = i.type_id;
    apply = λ c world. keep_first world.0 (i.apply c world.1);
    revert = λ c s world. keep_first world.0 (i.revert c s world.1);
  }
