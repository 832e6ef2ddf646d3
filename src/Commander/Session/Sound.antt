-- ===== src/Commander/Session/Sound.antt =====
-- Sessions of commands, undos and redos, from an empty history on.
use mathlib.Core.List.{append-nil}
use mizer.Prelude.{
  ℕ, suc, ◌+◌, ◌≤◌, ◌≡◌, refl, ap, sym, ◌∙◌, ◌⊎◌, inl, inr, Bool, true, false, none, List, [], ◌∷◌,
  arith, length, ltb,
}
use mizer.Commander.Cursor
use mizer.Commander.Cursor.{CommandCursor, back, index}
use mizer.Commander.Cursor.Timeline.{index-between, back-between_nil}
use mizer.Commander.Executor.{Error, Result, ok, err, CommandTrait, IsLawful, new_executor}
use mizer.Commander.Session.{Entry, Session, Serde, run_command, undo, redo, undo_entry}
use mizer.Commander.Session.Valid.{IsValid}
use mizer.Commander.Session.Steps.{
  ran-IsValid, run_command_eq, run_command_err, undo_eq, undone-IsValid, redo_eq, redone-IsValid,
}

-- There is an entry behind the cursor.
abbrev pub can_redo : {t : CommandTrait} → CommandCursor (Entry t) → Bool
can_redo h = ltb (index h) (length h.commands)

pub data Action (t : CommandTrait) : Type 0 where
  run_it : t.Command → ℕ → Bool → Action t
  undo_it redo_it : Action t

pub apply-cases :
    {O S W : Type 0} (r : Result (O × S) × W)
    → ((o : O) × (st : S) × (w : W) × (r ≡ (ok (o, st), w)))
      ⊎ ((e : Error) × (w : W) × (r ≡ (err e, w)))
apply-cases (ok (o, st), w) = inl (o, st, w, refl)
apply-cases (err e, w) = inr (e, w, refl)

module _ (t : CommandTrait) (d : Serde t) where
  abbrev pub fresh : t.World → List d.Line → Session t d.Line
  fresh w log = record { world = w; executor = new_executor t; history = Cursor.new; log = log }

  unfoldable pub act : Session t d.Line → Action t → Session t d.Line
  unfolding run_command undo redo
  act s (run_it c now written) = (run_command t d s c now written).0
  act s undo_it = (undo t d s).0
  act s redo_it = (redo t d s).0

  unfoldable pub acts : Session t d.Line → List (Action t) → Session t d.Line
  unfolding act
  acts s [] = s
  acts s (a ∷ rest) = acts (act s a) rest

  -- A redo is asked for only where there is something to redo.
  abbrev pub IsGuarded : Session t d.Line → List (Action t) → Type 0
  IsGuarded s [] = Unit
  IsGuarded s (redo_it ∷ rest) = (can_redo s.history ≡ true) × IsGuarded (act s redo_it) rest
  IsGuarded s (a ∷ rest) = IsGuarded (act s a) rest

  -- `s` comes from `origin` by some commands, which can be undone.
  pub record IsSound (origin : t.World) (s : Session t d.Line) (room : ℕ) : Type 0 where
    pub stack : List (Entry t)
    pub future : List (Entry t)
    pub pivot : ℕ
    pub valid : IsValid t origin s stack future pivot room

  module _ (law : IsLawful t) (origin : t.World) where
    IsValid-weaken :
        (s : Session t d.Line) (stack future : List (Entry t)) (pivot room : ℕ)
        → IsValid t origin s stack future pivot (suc room)
        → IsValid t origin s stack future pivot room
    IsValid-weaken s stack future pivot room v = record {
      history = v.history;
      undoable = v.undoable;
      redoable = v.redoable;
      past_keys = v.past_keys;
      future_keys = v.future_keys;
      fits = omega (arith, v.fits);
    }

    run-IsSound :
        (s : Session t d.Line) (room : ℕ) (c : t.Command) (now : ℕ) (written : Bool)
        → IsSound origin s (suc room)
        → IsSound origin (run_command t d s c now written).0 room
    run-IsSound s room c now written g = elim (apply-cases (t.apply c s.world)) [
      | inl (o, st, w, h) ↦
          rw (run_command_eq t d s c now written o st w (omega (arith, g.valid.fits)) h) (record {
            stack = _;
            future = [];
            pivot = _;
            valid = ran-IsValid t d s g.stack g.future g.pivot room c now written o st w g.valid h;
          })
      | inr (e, w, h) ↦
          rw (run_command_err t d s c now written e w h, law.apply_atomic c s.world w e h)
            (record {
              stack = g.stack;
              future = g.future;
              pivot = g.pivot;
              valid = IsValid-weaken s g.stack g.future g.pivot room g.valid;
            })
    ]

    undo_empty :
        (s : Session t d.Line) (future : List (Entry t)) (pivot room : ℕ)
        → IsValid t origin s [] future pivot room
        → undo t d s ≡ (s, ok tt)
    unfolding undo
    undo_empty s future pivot room v =
        let none_left : back s.history ≡ (s.history, none) =
          ap back v.history ∙ back-between_nil future ∙ ap (λ h. (h, none)) (sym v.history) in
        rw (none_left, undo_entry)

    undo-IsSound :
        (s : Session t d.Line) (stack future : List (Entry t)) (pivot room : ℕ)
        → IsValid t origin s stack future pivot (suc room)
        → IsSound origin (undo t d s).0 room
    undo-IsSound s [] future pivot room v = rw (undo_empty s future pivot (suc room) v) (record {
      stack = [];
      future = future;
      pivot = pivot;
      valid = IsValid-weaken s [] future pivot room v;
    })
    undo-IsSound s (e ∷ stack) future pivot room v =
        rw (undo_eq t d s stack future e pivot (suc room) law v) (record {
          stack = stack;
          future = e ∷ future;
          pivot = _;
          valid =
              IsValid-weaken _ stack (e ∷ future) _ room
                (undone-IsValid t d s stack future e pivot (suc room) v);
        })

    not-can_redo :
        (s : Session t d.Line) (stack : List (Entry t)) (pivot room : ℕ)
        → IsValid t origin s stack [] pivot room
        → can_redo s.history ≡ false
    not-can_redo s stack pivot room v = rw (v.history, index-between, append-nil) (ground arith)

    redo-IsSound :
        (s : Session t d.Line) (stack future : List (Entry t)) (pivot room : ℕ)
        → can_redo s.history ≡ true
        → IsValid t origin s stack future pivot (suc room)
        → IsSound origin (redo t d s).0 room
    redo-IsSound s stack [] pivot room g v = cc (g, not-can_redo s stack pivot (suc room) v)
    redo-IsSound s stack (e ∷ future) pivot room g v =
        rw (redo_eq t d s stack future e pivot (suc room) v) (record {
          stack = e ∷ stack;
          future = future;
          pivot = _;
          valid =
              IsValid-weaken _ (e ∷ stack) future _ room
                (redone-IsValid t d s stack future e pivot (suc room) v);
        })

    IsSound-mono :
        (s : Session t d.Line) (m n : ℕ) → m ≤ n → IsSound origin s n → IsSound origin s m
    IsSound-mono s m n le h = record {
      stack = h.stack;
      future = h.future;
      pivot = h.pivot;
      valid = record {
        history = h.valid.history;
        undoable = h.valid.undoable;
        redoable = h.valid.redoable;
        past_keys = h.valid.past_keys;
        future_keys = h.valid.future_keys;
        fits = omega (arith, h.valid.fits);
      };
    }

    act-IsSound :
        (s : Session t d.Line) (a : Action t) (rest : List (Action t)) (room : ℕ)
        → IsGuarded s (a ∷ rest)
        → IsSound origin s (suc room)
        → IsSound origin (act s a) room × IsGuarded (act s a) rest
    unfolding act
    act-IsSound s (run_it c now written) rest room g h = (run-IsSound s room c now written h, g)
    act-IsSound s undo_it rest room g h = (undo-IsSound s h.stack h.future h.pivot room h.valid, g)
    act-IsSound s redo_it rest room g h =
        (redo-IsSound s h.stack h.future h.pivot room g.0 h.valid, g.1)

    -- Every guarded session stays sound.
    pub acts-IsSound :
        (s : Session t d.Line) (actions : List (Action t)) (room : ℕ)
        → IsGuarded s actions
        → IsSound origin s (length actions + room)
        → IsSound origin (acts s actions) room
    unfolding acts
    acts-IsSound s [] room g h = IsSound-mono s room (0 + room) (omega arith) h
    acts-IsSound s (a ∷ rest) room g h =
        let (h', g') =
          act-IsSound s a rest (length rest + room) g (
            IsSound-mono s (suc (length rest + room)) (suc (length rest) + room) (omega arith) h) in
        acts-IsSound (act s a) rest room g' h'
