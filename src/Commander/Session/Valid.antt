-- ===== src/Commander/Session/Valid.antt =====
-- The invariant of a session of commands: the entries before the cursor can be reverted one by one,
-- and those behind it can be applied again.
use mathlib.Core.List.{reverse}
use mizer.Prelude.{ℕ, suc, ◌+◌, ◌≤◌, ◌<◌, ◌≡◌, false, some, List, [], ◌∷◌, arith, length}
use mizer.Prelude.Maps.{Map, lookup, insert, erase, lookup-insert, lookup-erase}
use mizer.Commander.Cursor.Timeline.{between, limit}
use mizer.Commander.Executor.{CommandKey, key_beq, key_eq, ok, CommandTrait}
use mizer.Commander.Session.{Entry, Session}

module _ (t : CommandTrait) where
  -- `w` comes from `origin` by the commands of the stack, the latest first, and the executor holds
  -- the state that each of them returned.
  abbrev pub CanUndo : t.World → Map CommandKey t.State → List (Entry t) → t.World → Type 0
  CanUndo origin states [] w = w ≡ origin
  CanUndo origin states (e ∷ es) w =
      (before : t.World) × (output : t.Output) × (state : t.State) × (lookup e.key states
        ≡ some state)
      × (t.apply e.command before ≡ (ok (output, state), w))
      × CanUndo origin states es before

  abbrev pub CanRedo : List (Entry t) → t.World → Type 0
  CanRedo [] w = Unit
  CanRedo (e ∷ es) w =
      (after : t.World) × (output : t.Output) × (state : t.State) × (t.apply e.command w
        ≡ (ok (output, state), after))
      × CanRedo es after

  -- The indices of the keys fall along the stack, from below `n`.
  abbrev pub Below : ℕ → List (Entry t) → Type 0
  Below n [] = Unit
  Below n (e ∷ es) = (e.key.command_index < n) × Below e.key.command_index es

  -- They rise along the entries to redo, from `lo` on, below `hi`.
  abbrev pub Rising : ℕ → List (Entry t) → ℕ → Type 0
  Rising lo [] hi = lo ≤ hi
  Rising lo (e ∷ es) hi = (lo ≤ e.key.command_index) × Rising (suc e.key.command_index) es hi

  pub Below-mono : (m n : ℕ) (es : List (Entry t)) → m ≤ n → Below m es → Below n es
  Below-mono m n [] h b = tt
  Below-mono m n (e ∷ es) h b = (omega arith, b.1)

  pub Rising-mono : (m n hi : ℕ) (es : List (Entry t)) → m ≤ n → Rising n es hi → Rising m es hi
  Rising-mono m n hi [] h r = omega arith
  Rising-mono m n hi (e ∷ es) h r = (omega arith, r.1)

  pub le_of_Rising : (lo hi : ℕ) (es : List (Entry t)) → Rising lo es hi → lo ≤ hi
  le_of_Rising lo hi [] r = r
  le_of_Rising lo hi (e ∷ es) r = omega (arith, le_of_Rising (suc e.key.command_index) hi es r.1)

  pub length-le_of_Below : (n : ℕ) (es : List (Entry t)) → Below n es → length es ≤ n
  length-le_of_Below n [] b = omega arith
  length-le_of_Below n (e ∷ es) b = omega (arith, length-le_of_Below e.key.command_index es b.1)

  key_ne : (k j : CommandKey) → j.command_index < k.command_index → key_beq k j ≡ false
  key_ne k j h = ground arith

  -- A key above the stack does not matter to it.
  pub CanUndo-insert :
      (origin w : t.World) (states : Map CommandKey t.State) (k : CommandKey) (s : t.State)
      (es : List (Entry t))
      → Below k.command_index es
      → CanUndo origin states es w
      → CanUndo origin (insert k s states) es w
  CanUndo-insert origin w states k s [] b u = u
  CanUndo-insert origin w states k s (e ∷ es) b (before, o, st, found, applied, u) = (
    before,
    o,
    st,
    rw (lookup-insert, key_ne k e.key b.0) found,
    applied,
    CanUndo-insert origin before states k s es
        (Below-mono e.key.command_index k.command_index es (omega arith) b.1) u,
  )

  pub CanUndo-erase :
      (origin w : t.World) (states : Map CommandKey t.State) (k : CommandKey) (es : List (Entry t))
      → Below k.command_index es
      → CanUndo origin states es w
      → CanUndo origin (erase k states) es w
  CanUndo-erase origin w states k [] b u = u
  CanUndo-erase origin w states k (e ∷ es) b (before, o, st, found, applied, u) = (
    before,
    o,
    st,
    rw (lookup-erase, key_ne k e.key b.0) found,
    applied,
    CanUndo-erase origin before states k es
        (Below-mono e.key.command_index k.command_index es (omega arith) b.1) u,
  )

  pub record IsValid {Line : Type 0} (origin : t.World) (s : Session t Line)
      (stack future : List (Entry t)) (pivot room : ℕ) : Type 0 where
    pub history : s.history ≡ between (reverse stack) future
    pub undoable : CanUndo origin s.executor.states stack s.world
    pub redoable : CanRedo future s.world
    pub past_keys : Below pivot stack
    pub future_keys : Rising pivot future s.executor.command_index_counter
    pub fits : s.executor.command_index_counter + room < limit
