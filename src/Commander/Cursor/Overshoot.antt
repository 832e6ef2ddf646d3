-- ===== src/Commander/Cursor/Overshoot.antt =====
-- Histories that redo past their end: `forward` tests `cursor > len` where the last entry has the
-- index `len - 1`. And what holds of every sequence of calls all the same.
use mizer.Prelude.{
  ℕ, suc, ◌+◌, ◌≤◌, ◌<◌, ◌≡◌, refl, none, some, List, [], ◌∷◌, ◌++◌, arith, length, take,
  length-take, get_elem?-none, take_all, false,
}
use mathlib.Core.List.{append-nil}
use mizer.Prelude.Int.{pos}
use mizer.Commander.Cursor.{
  OptionIndex, CommandCursor, add_assign, add, push, back, forward, index_of, is_empty,
}
use mizer.Commander.Cursor.Timeline.{limit, sub_assign_one, add_assign_one, between, length-snoc}

module _ {ℓ} {A : Type ℓ} where
  -- One place behind the timeline's end.
  abbrev beyond : List A → CommandCursor A
  beyond past = record { commands = past; cursor = some (length past) }

  forward_at_end :
      (past : List A) (x : A)
      → length past + 2 < limit
      → forward (between (past ++ x ∷ []) []) ≡ (beyond (past ++ x ∷ []), none)
  unfolding forward
  forward_at_end past x h =
      rw (append-nil, length-snoc past x, add_assign_one (length past) (omega arith))
        (ground (arith, length-snoc past x, get_elem?-none (past ++ x ∷ []) (length past + 1)))

  back-beyond :
      (past : List A) (x : A)
      → length past + 2 < limit
      → back (beyond (past ++ x ∷ [])) ≡ (between (past ++ x ∷ []) [], none)
  unfolding back
  back-beyond past x h =
      rw (append-nil, length-snoc past x, sub_assign_one (suc (length past)) (omega arith))
        (ground (arith, length-snoc past x, get_elem?-none (past ++ x ∷ []) (suc (length past))))

  is_empty-snoc : (past : List A) (x : A) → is_empty (past ++ x ∷ []) ≡ false
  is_empty-snoc [] x = refl
  is_empty-snoc (_ ∷ _) x = refl

  push-beyond :
      (past : List A) (y : A)
      → is_empty past ≡ false
      → length past + 1 < limit
      → push (beyond past) y ≡ beyond (past ++ y ∷ [])
  unfolding push add
  push-beyond past y e h =
      rw
        (
          e,
          add_assign_one (length past) (omega arith),
          take_all (length past + 1) past (omega arith),
        )
        (rw (length-snoc past y) (ground arith))

  -- A redo with nothing to redo moves the cursor behind the last entry, so that the next undo
  -- finds no entry and only moves the cursor back: the history is as before both calls, and the
  -- undo has undone nothing, whatever the history holds.
  pub back-forward_at_end :
      (past : List A) (x : A)
      → length past + 2 < limit
      → ((forward (between (past ++ x ∷ []) [])).1 ≡ none)
        × (back (forward (between (past ++ x ∷ []) [])).0 ≡ (between (past ++ x ∷ []) [], none))
  back-forward_at_end past x h =
      (rw (forward_at_end past x h), rw (forward_at_end past x h) (back-beyond past x h))

  -- A command that is pushed after such a redo is missed by the next undo as well.
  pub back-push-forward_at_end :
      (past : List A) (x y : A)
      → length past + 3 < limit
      → back (push (forward (between (past ++ x ∷ []) [])).0 y)
        ≡ (between ((past ++ x ∷ []) ++ y ∷ []) [], none)
  back-push-forward_at_end past x y h =
      rw
        (
          forward_at_end past x (omega arith),
          push-beyond (past ++ x ∷ []) y (is_empty-snoc past x) (omega (arith, length-snoc past x)),
        )
        (back-beyond (past ++ x ∷ []) y (omega (arith, length-snoc past x)))

-- The calls of the cursor's owner.
pub data Call {ℓ} (A : Type ℓ) : Type ℓ where
  push_call : A → Call A
  back_call forward_call : Call A

add_assign-none : add_assign none (pos 1) ≡ some 0
unfolding add_assign
add_assign-none = refl

module _ {ℓ} {A : Type ℓ} where
  pub call : CommandCursor A → Call A → CommandCursor A
  call c (push_call x) = push c x
  call c back_call = (back c).0
  call c forward_call = (forward c).0

  pub run : CommandCursor A → List (Call A) → CommandCursor A
  run c [] = c
  run c (x ∷ xs) = run (call c x) xs

  -- The cursor is at most one place behind the place behind the last entry.
  pub record IsBounded (c : CommandCursor A) (room : ℕ) : Type 0 where
    pub near : index_of c.cursor ≤ length c.commands + 2
    pub small : length c.commands + room < limit

  push-IsBounded :
      (cs : List A) (m : OptionIndex) (x : A) (room : ℕ)
      → IsBounded (record { commands = cs; cursor = m }) (suc room)
      → IsBounded (push (record { commands = cs; cursor = m }) x) room
  unfolding push add
  push-IsBounded [] m x room h = ground arith
  push-IsBounded (y ∷ cs) none x room h = ground (arith, add_assign-none)
  push-IsBounded (y ∷ cs) (some n) x room h =
      ground (
        arith,
        add_assign_one n,
        length-snoc (take (n + 1) (y ∷ cs)) x,
        length-take (n + 1) (y ∷ cs),
      )

  back-IsBounded :
      (cs : List A) (m : OptionIndex) (room : ℕ)
      → IsBounded (record { commands = cs; cursor = m }) room
      → IsBounded (back (record { commands = cs; cursor = m })).0 room
  unfolding back
  back-IsBounded cs none room h = h
  back-IsBounded cs (some n) room h = ground (arith, sub_assign_one n)

  forward-IsBounded :
      (cs : List A) (m : OptionIndex) (room : ℕ)
      → IsBounded (record { commands = cs; cursor = m }) room
      → IsBounded (forward (record { commands = cs; cursor = m })).0 room
  unfolding forward
  forward-IsBounded cs none room h = ground (arith, add_assign-none)
  forward-IsBounded cs (some n) room h = ground (arith, add_assign_one n)

  call-IsBounded :
      (c : CommandCursor A) (x : Call A) (room : ℕ)
      → IsBounded c (suc room)
      → IsBounded (call c x) room
  unfolding call
  call-IsBounded c (push_call x) room h = push-IsBounded c.commands c.cursor x room h
  call-IsBounded c back_call room h =
      back-IsBounded c.commands c.cursor room (record { near = h.near; small = omega arith })
  call-IsBounded c forward_call room h =
      forward-IsBounded c.commands c.cursor room (record { near = h.near; small = omega arith })

  -- Whatever is called, in whatever order, the cursor stays within one place of the place behind
  -- the last entry, as long as the history holds fewer entries than an `i32` can count.
  pub run-IsBounded :
      (c : CommandCursor A) (xs : List (Call A)) → IsBounded c (length xs) → IsBounded (run c xs) 0
  unfolding run
  run-IsBounded c [] h = h
  run-IsBounded c (x ∷ xs) h = run-IsBounded (call c x) xs (call-IsBounded c x (length xs) h)
