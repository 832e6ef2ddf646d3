-- ===== src/Sequencer/Commands/Counter.antt =====
-- The identifiers that sequencer.rs gives to sequences.
use native.Mathlib.Nat.{mod-eq_of_lt}
use mizer.Prelude.{
  ℕ, ◌+◌, ◌≤◌, ◌<◌, ◌^◌, ◌≡◌, refl, ap, arith, true, Option, none, some, List, [], ◌∷◌,
}
use mizer.Prelude.Maps.{
  Map, lookup, insert, lookup-insert, lookup-insert_self, lookup-erase, nat_eq,
}
use mizer.Sequencer.Time.{Rig}
use mizer.Sequencer.Cue.{Sequence, new_sequence}
use mizer.Sequencer.Commands.{
  Sequencer, add_sequence, create_sequence, delete_sequence, load_sequences, next_id, or_one,
  insert_all,
}
use mizer.Sequencer.Commands.Served.{exists}

not_counted : {A : Type 0} (o : Option A) → (exists o ≡ true → ⊥) → o ≡ none
not_counted none h = refl
not_counted (some a) h = absurd (h refl)

module _ (rig : Rig) where
  -- Every sequence has an identifier below the counter.
  unfoldable pub IsCounted : Sequencer rig → Type 0
  IsCounted q = (j : ℕ) → exists (lookup j q.sequences) ≡ true → j < q.sequence_counter

  -- While the counter does not wrap around, a new sequence replaces no other, has the identifier that is
  -- returned, and the counter stays above all identifiers.
  pub create_sequence-IsCounted :
      (q : Sequencer rig)
      → IsCounted q
      → q.sequence_counter + 1 < 2 ^ 32
      → (lookup (create_sequence rig q).1.id q.sequences ≡ none)
        × (lookup (create_sequence rig q).1.id (create_sequence rig q).0.sequences
            ≡ some (create_sequence rig q).1)
        × IsCounted (create_sequence rig q).0
  unfolding IsCounted create_sequence add_sequence new_sequence
  create_sequence-IsCounted q h bound = (
    not_counted (lookup q.sequence_counter q.sequences) (ground (arith, h q.sequence_counter)),
    lookup-insert_self q.sequence_counter (new_sequence rig q.sequence_counter) q.sequences,
    λ j x. ground (
      arith,
      h j,
      x,
      bound,
      mod-eq_of_lt bound,
      ap exists
          (lookup-insert q.sequence_counter j (new_sequence rig q.sequence_counter) q.sequences),
    ),
  )

  pub delete_sequence-IsCounted :
      (q : Sequencer rig) (id : ℕ) → IsCounted q → IsCounted (delete_sequence rig q id).0
  unfolding IsCounted delete_sequence
  delete_sequence-IsCounted q id h j x =
      ground (arith, h j, ap exists (lookup-erase id j q.sequences), x)

  -- No identifier is the highest number of 32 bits.
  abbrev pub AreSmall : List (Sequence rig) → Type 0
  AreSmall [] = Unit
  AreSmall (s ∷ ss) = (s.id + 1 < 2 ^ 32) × AreSmall ss

  insert_all-lt :
      (ss : List (Sequence rig)) (m : Map ℕ (Sequence rig)) (n j : ℕ)
      → ((j : ℕ) → exists (lookup j m) ≡ true → j < n)
      → AreSmall ss
      → next_id rig ss ≤ n
      → exists (lookup j (insert_all rig ss m)) ≡ true
      → j < n
  unfolding next_id insert_all
  insert_all-lt [] m n j h small le x = h j x
  insert_all-lt (s ∷ ss) m n j h small le x =
      insert_all-lt ss (insert s.id s m) n j
        (λ i y.
          ground (
            arith,
            h i,
            y,
            small.0,
            mod-eq_of_lt small.0,
            le,
            ap exists (lookup-insert s.id i s m),
          ))
        small.1 (omega (arith, le)) x

  -- Loading the sequences of a project, of which none has the highest identifier of 32 bits, puts the
  -- counter above all of them.
  pub load_sequences-IsCounted :
      (q : Sequencer rig) (ss : List (Sequence rig))
      → AreSmall ss
      → IsCounted (load_sequences rig q ss)
  unfolding IsCounted load_sequences or_one insert_all next_id lookup
  load_sequences-IsCounted q [] small j x = ground (arith, x)
  load_sequences-IsCounted q (s ∷ ss) small j x =
      insert_all-lt (s ∷ ss) [] (next_id rig (s ∷ ss)) j (λ i y. ground (arith, y)) small
        (omega arith) x
