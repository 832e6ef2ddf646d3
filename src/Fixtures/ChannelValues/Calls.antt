-- ===== src/Fixtures/ChannelValues/Calls.antt =====
-- The calls that change the values of a channel.
use mizer.Prelude.{
  ℕ, ◌≡◌, arith, Option, some, List, [], ◌∷◌, Bool-cases, inl, inr, >>=-some, ◌>>=◌, subst,
}
use mizer.Fixtures.Priority.{FixturePriority}
use mizer.Sequencer.Time.{Rig}
use mizer.Fixtures.ChannelValues.{
  FadeTimings, ChannelValues, default_values, insert_value, set_master, get_value, next_fade,
  or_else, value_of, settle, flush, clear,
}
use mizer.Fixtures.ChannelValues.Bounds.{
  IsRange, OptionInRange, OptionIsWithin, OptionIsWithin-InRange, clamp-InRange, get_value-InRange,
  value_of-InRange, run_fade-InRange,
}

-- The calls that change the values of a channel, each at its time
pub data Call (rig : Rig) : Type 0 where
  insert_call : rig.F64 → FixturePriority → Option ℕ → FadeTimings → Call rig
  master_call : rig.F64 → Call rig
  flush_call : ℕ → Call rig
  clear_call : Call rig

module _ (rig : Rig) where
  unfoldable pub call : Call rig → ChannelValues rig → Option (ChannelValues rig)
  unfolding flush insert_value set_master clear
  call (insert_call value priority source timings) c =
      some (insert_value rig value priority source timings c)
  call (master_call master) c = some (set_master rig master c)
  call (flush_call now) c = flush rig now c
  call clear_call c = some (clear rig c)

  unfoldable pub run : List (Call rig) → ChannelValues rig → Option (ChannelValues rig)
  unfolding call
  run [] c = some c
  run (a ∷ calls) c = call a c >>= λ c'. run calls c'

  -- The value and the master of a channel are neither below zero nor above one.
  record IsClamped (c : ChannelValues rig) : Type 0 where
    pub value : OptionInRange rig c.value
    pub master : OptionInRange rig c.master

  -- The value and the master of a channel, where there are such, lie between zero and one, both
  -- included, or are the NaN.
  pub record IsInRange (c : ChannelValues rig) : Type 0 where
    pub value : OptionIsWithin rig c.value
    pub master : OptionIsWithin rig c.master

  module _ (laws : IsRange rig) where
    settle-IsClamped :
        (now : ℕ) (active : Option rig.F64) (c : ChannelValues rig)
        → OptionInRange rig active
        → IsClamped c
        → IsClamped (settle rig now active c)
    unfolding settle
    settle-IsClamped now active c h v = record {
      value =
          run_fade-InRange rig laws now active
            (or_else rig (next_fade rig now c.values c.previous_values) c.active_fade) h;
      master = v.master;
    }

    flush-IsClamped :
        (now : ℕ) (c c' : ChannelValues rig)
        → IsClamped c
        → flush rig now c ≡ some c'
        → IsClamped c'
    unfolding flush
    flush-IsClamped now c c' v h = elim (Bool-cases c.is_flushed) [
      | inl flushed ↦ subst IsClamped {x = c} {y = c'} (ground (arith, flushed)) v
      | inr fresh ↦
          let (active, found, same) =
            >>=-some (get_value rig c.values) (λ a. some (settle rig now (value_of rig a) c)) c'
              (ground (arith, fresh)) in
          subst IsClamped {x = settle rig now (value_of rig active) c} {y = c'}
            (ground (arith, same))
            (settle-IsClamped now (value_of rig active) c
              (value_of-InRange rig laws active (get_value-InRange rig laws c.values active found))
              v)
    ]

    call-IsClamped :
        (a : Call rig) (c c' : ChannelValues rig) → IsClamped c → call a c ≡ some c' → IsClamped c'
    unfolding call insert_value set_master clear
    call-IsClamped (insert_call value priority source timings) c c' v h =
        subst IsClamped {x = insert_value rig value priority source timings c} {y = c'}
          (ground arith) (record { value = v.value; master = v.master })
    call-IsClamped (master_call master) c c' v h =
        subst IsClamped {x = set_master rig master c} {y = c'} (ground arith)
          (record { value = v.value; master = clamp-InRange rig laws master })
    call-IsClamped (flush_call now) c c' v h = flush-IsClamped now c c' v h
    call-IsClamped clear_call c c' v h =
        subst IsClamped {x = clear rig c} {y = c'} (ground arith)
          (record { value = tt; master = v.master })

    calls-IsClamped :
        (calls : List (Call rig)) (c c' : ChannelValues rig)
        → IsClamped c
        → run calls c ≡ some c'
        → IsClamped c'
    unfolding run
    calls-IsClamped [] c c' v h = subst IsClamped {x = c} {y = c'} (ground arith) v
    calls-IsClamped (a ∷ calls) c c' v h =
        let (b, called, rest) = >>=-some (call a c) (λ b. run calls b) c' h in
        calls-IsClamped calls b c' (call-IsClamped a c b v called) rest

    -- Whatever is written to a channel, in whatever order with masters, flushes and clears that do not
    -- panic, the value that is left and the master lie between zero and one, both included, or are not
    -- a number, which does not equal itself. It rests on a comparison that decides between any two
    -- values that equal themselves, as zero and one do.
    pub run-IsInRange :
        (calls : List (Call rig)) (c : ChannelValues rig)
        → run calls (default_values rig) ≡ some c
        → IsInRange c
    unfolding default_values
    run-IsInRange calls c h =
        let clamped =
          calls-IsClamped calls (default_values rig) c (record { value = tt; master = tt }) h in
        record {
          value = OptionIsWithin-InRange rig laws c.value clamped.value;
          master = OptionIsWithin-InRange rig laws c.master clamped.master;
        }
