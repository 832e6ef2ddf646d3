-- ===== src/Sequencer/Commands.antt =====
-- `Sequencer` of crates/components/sequencer/src/sequencer.rs. Its channel is the list of the commands
-- that wait; an `IndexSet` is a list without doubles; a panic is `none`.
pub mod Order
pub mod Served
pub mod Counter
pub mod Deleted
use mizer.Prelude.{
  ℕ, ◌+◌, ◌%◌, ◌^◌, Bool, true, false, ◌&&◌, ◌||◌, not, max, Option, none, some, List, [], ◌∷◌,
  ◌++◌, get_elem?, ◌==◌, if◌then◌else◌, ◌>>=◌,
}
use mizer.Prelude.Maps.{Map, lookup, insert, erase, nat_eq}
use mizer.Sequencer.Time.{Rig, ClockFrame}
use mizer.Sequencer.Effects.{EffectEngine}
use mizer.Sequencer.Cue.{Cue, Sequence, new_sequence}
use mizer.Sequencer.State.{SequenceState, default_state, go, go_backward, go_to, stop}

pub data SequencerCommands (rig : Rig) : Type 0 where
  go_forward_command go_backward_command stop_command drop_state_command : ℕ → SequencerCommands rig
  go_to_command : ℕ → ℕ → SequencerCommands rig
  set_rate_command : ℕ → rig.F64 → SequencerCommands rig

pub record SequenceView (rig : Rig) : Type 0 where
  pub active : Bool
  pub cue_id : Option ℕ
  pub rate : rig.F64

-- The engine belongs to another object, which the handler is given.
pub record Sequencer (rig : Rig) : Type 0 where
  pub sequence_counter : ℕ
  pub sequences : Map ℕ (Sequence rig)
  pub sequence_states : Map ℕ (SequenceState rig)
  pub sequence_order : List ℕ
  pub sequence_view : Map ℕ (SequenceView rig)
  pub commands : List (SequencerCommands rig)
  pub engine : EffectEngine rig

-- `IndexSet::contains`, `insert` and `shift_remove`
unfoldable pub has : ℕ → List ℕ → Bool
has id [] = false
has id (x ∷ xs) = x == id || has id xs

unfoldable pub index_insert : ℕ → List ℕ → List ℕ
unfolding has
index_insert id xs = if has id xs then xs else xs ++ id ∷ []

unfoldable pub shift_remove : ℕ → List ℕ → List ℕ
shift_remove id [] = []
shift_remove id (x ∷ xs) = let rest = shift_remove id xs in if x == id then rest else x ∷ rest

unfoldable pub reorder : ℕ → Bool → Bool → List ℕ → List ℕ
unfolding index_insert shift_remove
reorder id was_active is_active order =
    let kept = if is_active then order else shift_remove id order in
    if is_active && not was_active then index_insert id kept else kept

module _ (rig : Rig) where
  abbrev default_view : SequenceView rig
  default_view = record { active = false; cue_id = none; rate = rig.one }

  -- `entry(id).or_default()`
  unfoldable pub state_of : ℕ → Sequencer rig → SequenceState rig
  unfolding lookup
  state_of id q = elim (lookup id q.sequence_states) [ none ↦ default_state rig | some s ↦ s ]

  unfoldable pub moved :
      Sequencer rig → ℕ → Bool → SequenceState rig × EffectEngine rig → Sequencer rig
  unfolding reorder
  moved q id was_active (s, e) = record q {
    sequence_states = insert id s q.sequence_states;
    sequence_order = reorder id was_active s.active q.sequence_order;
    engine = e;
  }

  unfoldable pub touched : ℕ → Sequencer rig → Sequencer rig
  touched id q = record q { sequence_states = insert id (state_of id q) q.sequence_states }

  unfoldable pub with_sequence :
      Sequencer rig
      → ℕ
      → (SequenceState rig
          → Sequence rig
          → EffectEngine rig
          → Option (SequenceState rig × EffectEngine rig))
      → Option (Sequence rig)
      → Option (Sequencer rig)
  unfolding touched moved
  with_sequence q id f none = some (touched id q)
  with_sequence q id f (some sequence) = do
    r ← f (state_of id q) sequence q.engine
    some (moved q id (state_of id q).active r)

  unfoldable pub stopped :
      Sequencer rig → ℕ → ℕ → ClockFrame rig → Option (Sequence rig) → Option (Sequencer rig)
  unfolding touched
  stopped q id now frame none = some (touched id q)
  stopped q id now frame (some sequence) = do
    (s, e) ← stop rig (state_of id q) sequence q.engine now frame
    some (record q { sequence_states = insert id s q.sequence_states; engine = e })

  unfoldable pub set_rate : ℕ → rig.F64 → Option (SequenceState rig) → Sequencer rig → Sequencer rig
  set_rate id rate none q = q
  set_rate id rate (some s) q = record q {
    sequence_states = insert id (record s { rate = rate }) q.sequence_states;
  }

  unfoldable pub handle_command :
      Sequencer rig → SequencerCommands rig → ℕ → ClockFrame rig → Option (Sequencer rig)
  unfolding with_sequence stopped set_rate shift_remove
  handle_command q (go_forward_command id) now frame =
      with_sequence q id (λ s sequence e. go rig s sequence e now frame) (lookup id q.sequences)
  handle_command q (go_backward_command id) now frame =
      with_sequence q id (λ s sequence e. go_backward rig s sequence e now frame)
        (lookup id q.sequences)
  handle_command q (go_to_command id cue_id) now frame =
      with_sequence q id (λ s sequence e. go_to rig s sequence cue_id e now frame)
        (lookup id q.sequences)
  handle_command q (stop_command id) now frame = do
    q' ← stopped q id now frame (lookup id q.sequences)
    some (record q' { sequence_order = shift_remove id q'.sequence_order })
  handle_command q (set_rate_command id rate) now frame =
      some (set_rate id rate (lookup id q.sequence_states) q)
  handle_command q (drop_state_command id) now frame = do
    q' ← stopped q id now frame (lookup id q.sequences)
    some (record q' {
      sequence_states = erase id q'.sequence_states;
      sequence_order = shift_remove id q'.sequence_order;
    })

  unfoldable pub handle_all :
      List (SequencerCommands rig) → Sequencer rig → ℕ → ClockFrame rig → Option (Sequencer rig)
  unfolding handle_command
  handle_all [] q now frame = some q
  handle_all (c ∷ cs) q now frame =
      handle_command q c now frame >>= λ q'. handle_all cs q' now frame

  unfoldable pub handle_commands : Sequencer rig → ℕ → ClockFrame rig → Option (Sequencer rig)
  unfolding handle_all
  handle_commands q now frame = handle_all q.commands (record q { commands = [] }) now frame

  view_of : SequenceState rig → Sequence rig → SequenceView rig
  view_of s sequence = record {
    active = s.active;
    cue_id = get_elem? sequence.cues s.active_cue_index >>= λ cue. some cue.id;
    rate = s.rate;
  }

  update_each :
      Map ℕ (Sequence rig)
      → Map ℕ (SequenceState rig)
      → Map ℕ (SequenceView rig)
      → Map ℕ (SequenceView rig)
  unfolding view_of
  update_each sequences [] view = view
  update_each sequences ((id, s) ∷ rest) view =
      update_each sequences rest (elim (lookup id sequences) [
        | none ↦ view
        | some sequence ↦ insert id (view_of s sequence) view
      ])

  unfoldable pub update_views : Sequencer rig → Sequencer rig
  unfolding update_each
  update_views q = record q {
    sequence_view = update_each q.sequences q.sequence_states q.sequence_view;
  }

  unfoldable pub add_sequence : Sequencer rig → Sequence rig → Sequencer rig
  add_sequence q sequence = record q {
    sequences = insert sequence.id sequence q.sequences;
    sequence_view = insert sequence.id default_view q.sequence_view;
  }

  -- `Sequencer::new_sequence`
  unfoldable pub create_sequence : Sequencer rig → Sequencer rig × Sequence rig
  unfolding add_sequence new_sequence
  create_sequence q =
      let sequence = new_sequence rig q.sequence_counter in
      (
        add_sequence (record q { sequence_counter = (q.sequence_counter + 1) % 2 ^ 32 }) sequence,
        sequence,
      )

  unfoldable pub delete_sequence : Sequencer rig → ℕ → Sequencer rig × Option (Sequence rig)
  delete_sequence q id = (
    record q {
      sequences = erase id q.sequences;
      commands = q.commands ++ drop_state_command id ∷ [];
    },
    lookup id q.sequences,
  )

  unfoldable pub send : Sequencer rig → SequencerCommands rig → Sequencer rig
  send q c = record q { commands = q.commands ++ c ∷ [] }

  unfoldable pub clear : Sequencer rig → Sequencer rig
  clear q = record q {
    sequences = [];
    sequence_states = [];
    sequence_view = [];
    sequence_counter = 1;
    sequence_order = [];
  }

  unfoldable pub next_id : List (Sequence rig) → ℕ
  next_id [] = 0
  next_id (s ∷ rest) = max ((s.id + 1) % 2 ^ 32) (next_id rest)

  unfoldable pub or_one : List (Sequence rig) → ℕ → ℕ
  or_one [] id = 1
  or_one (_ ∷ _) id = id

  views_of : List (Sequence rig) → Map ℕ (SequenceView rig) → Map ℕ (SequenceView rig)
  views_of [] m = m
  views_of (s ∷ rest) m = views_of rest (insert s.id default_view m)

  unfoldable pub insert_all : List (Sequence rig) → Map ℕ (Sequence rig) → Map ℕ (Sequence rig)
  insert_all [] m = m
  insert_all (s ∷ rest) m = insert_all rest (insert s.id s m)

  unfoldable pub load_sequences : Sequencer rig → List (Sequence rig) → Sequencer rig
  unfolding next_id or_one views_of insert_all
  load_sequences q sequences = record q {
    sequence_counter = or_one sequences (next_id sequences);
    sequence_view = views_of sequences [];
    sequences = insert_all sequences [];
  }
