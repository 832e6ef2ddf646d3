-- ===== src/Sequencer/Effects.antt =====
-- `EffectEngine` of crates/components/sequencer/src/effects/engine.rs and `EffectInstance` of
-- instance.rs, without the splines, which an effect determines.
use mizer.Prelude.{ℕ, ◌+◌, ◌%◌, ◌^◌, Option, none, some, [], ◌∷◌, max}
use mizer.Prelude.Maps.{Map, lookup, insert, erase, nat_eq}
use mizer.Fixtures.Priority.{FixturePriority}
use mizer.Fixtures.Selection.{FixtureSelection}
use mizer.Sequencer.Time.{Rig, SequencerTime}

-- The channels of an effect stand for its name and its curves.
pub record Effect (Channels : Type 0) : Type 0 where
  pub id : ℕ
  pub channels : Channels

pub record EffectInstance (rig : Rig) (Channels : Type 0) : Type 0 where
  pub effect_id : ℕ
  pub fixtures : FixtureSelection
  pub effect : Effect Channels
  pub frame : rig.F64
  pub rate : rig.F64
  pub fixture_offset : Option (SequencerTime rig)
  pub priority : FixturePriority

-- `drawn` counts the identifiers that the crate uuid has given.
pub record EffectEngine (rig : Rig) : Type 0 where
  pub effects : Map ℕ (Effect rig.Channels)
  pub instances : Map ℕ (EffectInstance rig rig.Channels)
  pub drawn : ℕ

module _ (rig : Rig) where
  unfoldable pub delete_effect :
      EffectEngine rig → ℕ → EffectEngine rig × Option (Effect rig.Channels)
  delete_effect e id = (record e { effects = erase id e.effects }, lookup id e.effects)

  unfoldable pub add_effect : EffectEngine rig → Effect rig.Channels → EffectEngine rig
  add_effect e effect = record e { effects = insert effect.id effect e.effects }

  highest_id : Map ℕ (Effect rig.Channels) → ℕ
  highest_id [] = 0
  highest_id ((_, effect) ∷ rest) = max effect.id (highest_id rest)

  unfoldable pub create_effect :
      EffectEngine rig → rig.Channels → EffectEngine rig × Effect rig.Channels
  unfolding highest_id
  create_effect e channels =
      let effect : Effect rig.Channels = record {
        id = (highest_id e.effects + 1) % 2 ^ 32;
        channels = channels;
      } in
      (record e { effects = insert effect.id effect e.effects }, effect)

  update_instance :
      (EffectInstance rig rig.Channels → EffectInstance rig rig.Channels)
      → ℕ
      → Option (EffectInstance rig rig.Channels)
      → EffectEngine rig
      → EffectEngine rig
  update_instance f id none e = e
  update_instance f id (some i) e = record e { instances = insert id (f i) e.instances }

  unfoldable pub set_instance_rate : EffectEngine rig → ℕ → rig.F64 → EffectEngine rig
  unfolding update_instance
  set_instance_rate e id rate =
      update_instance (λ i. record i { rate = rate }) id (lookup id e.instances) e

  unfoldable pub set_instance_offset :
      EffectEngine rig → ℕ → Option (SequencerTime rig) → EffectEngine rig
  unfolding update_instance
  set_instance_offset e id offset =
      update_instance (λ i. record i { fixture_offset = offset }) id (lookup id e.instances) e

  start :
      Option (Effect rig.Channels)
      → EffectEngine rig
      → FixtureSelection
      → rig.F64
      → Option (SequencerTime rig)
      → FixturePriority
      → EffectEngine rig × Option ℕ
  start none e fixtures rate offset priority = (e, none)
  start (some effect) e fixtures rate offset priority =
      let id = rig.uuid e.drawn in
      let instance : EffectInstance rig rig.Channels = record {
        effect_id = effect.id;
        fixtures = fixtures;
        effect = effect;
        frame = rig.zero;
        rate = rate;
        fixture_offset = offset;
        priority = priority;
      } in
      (record e { instances = insert id instance e.instances; drawn = e.drawn + 1 }, some id)

  unfoldable pub run_effect :
      EffectEngine rig
      → ℕ
      → FixtureSelection
      → rig.F64
      → Option (SequencerTime rig)
      → FixturePriority
      → EffectEngine rig × Option ℕ
  unfolding start
  run_effect e effect fixtures rate offset priority =
      start (lookup effect e.effects) e fixtures rate offset priority

  unfoldable pub stop_effect : EffectEngine rig → ℕ → EffectEngine rig
  stop_effect e id = record e { instances = erase id e.instances }
