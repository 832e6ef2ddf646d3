-- ===== src/Fixtures/ChannelValues/Bounds.antt =====
-- The range of the value and of the master of a channel.
use mizer.Prelude.{
  ℕ, ◌≡◌, refl, arith, true, false, ◌⊎◌, Option, none, some, List, [], ◌∷◌, Bool-cases, inl, inr,
  >>=-some, subst,
}
use mizer.Fixtures.Priority.{is_htp}
use mizer.Sequencer.Time.{Rig}
use mizer.Fixtures.ChannelValues.{
  ChannelValue, FadeState, clamp, fade, clamped, higher_of, map_clamped, higher, higher_from,
  htp_highest, ltp_highest, get_value, run_fade, faded, or_zero, value_of,
}

-- What is needed of `<` and `==` on floating-point numbers: they compare, unless one of them is the
-- NaN, which is not equal to itself.
pub record IsRange (rig : Rig) : Type 0 where
  pub number_zero : rig.eq rig.zero rig.zero ≡ true
  pub number_one : rig.eq rig.one rig.one ≡ true
  pub compared :
      (a b : rig.F64)
      → rig.eq a a ≡ true
      → rig.eq b b ≡ true
      → (rig.lt a b ≡ true) ⊎ (rig.eq a b ≡ true) ⊎ (rig.lt b a ≡ true)
  pub zero_refl : rig.lt rig.zero rig.zero ≡ false
  pub one_refl : rig.lt rig.one rig.one ≡ false
  pub zero_one : rig.lt rig.one rig.zero ≡ false

-- A number is neither below zero nor above one.
abbrev pub InRange : (rig : Rig) → rig.F64 → Type 0
InRange rig x = (rig.lt x rig.zero ≡ false) × (rig.lt rig.one x ≡ false)

-- It is the NaN, or it lies between zero and one, both included.
abbrev pub IsWithin : (rig : Rig) → rig.F64 → Type 0
IsWithin rig x =
    (rig.eq x x ≡ false)
    ⊎ (((rig.lt rig.zero x ≡ true) ⊎ (rig.eq rig.zero x ≡ true))
        × ((rig.lt x rig.one ≡ true) ⊎ (rig.eq x rig.one ≡ true)))

abbrev pub OptionIsWithin : (rig : Rig) → Option rig.F64 → Type 0
OptionIsWithin rig none = Unit
OptionIsWithin rig (some x) = IsWithin rig x

abbrev pub OptionInRange : (rig : Rig) → Option rig.F64 → Type 0
OptionInRange rig none = Unit
OptionInRange rig (some x) = InRange rig x

abbrev ValueInRange : (rig : Rig) → Option (ChannelValue rig) → Type 0
ValueInRange rig none = Unit
ValueInRange rig (some v) = InRange rig v.value

module _ (rig : Rig) (laws : IsRange rig) where
  above_zero :
      (x : rig.F64)
      → rig.eq x x ≡ true
      → rig.lt x rig.zero ≡ false
      → (rig.lt rig.zero x ≡ true) ⊎ (rig.eq rig.zero x ≡ true)
  above_zero x number low = elim (laws.compared rig.zero x laws.number_zero number) [
    | inl above ↦ inl above
    | inr (inl equal) ↦ inr equal
    | inr (inr below) ↦ absurd (ground (arith, below, low))
  ]

  below_one :
      (x : rig.F64)
      → rig.eq x x ≡ true
      → rig.lt rig.one x ≡ false
      → (rig.lt x rig.one ≡ true) ⊎ (rig.eq x rig.one ≡ true)
  below_one x number high = elim (laws.compared x rig.one number laws.number_one) [
    | inl below ↦ inl below
    | inr (inl equal) ↦ inr equal
    | inr (inr above) ↦ absurd (ground (arith, above, high))
  ]

  pub OptionIsWithin-InRange : (o : Option rig.F64) → OptionInRange rig o → OptionIsWithin rig o
  OptionIsWithin-InRange none h = tt
  OptionIsWithin-InRange (some x) h = elim (Bool-cases (rig.eq x x)) [
    | inl number ↦ inr (above_zero x number h.0, below_one x number h.1)
    | inr nan ↦ inl nan
  ]

  pub clamp-InRange : (x : rig.F64) → InRange rig (clamp rig x)
  unfolding clamp
  clamp-InRange x = ground (arith, laws.zero_refl, laws.one_refl, laws.zero_one)

  higher-InRange :
      (best v : ChannelValue rig) (w : ChannelValue rig)
      → InRange rig best.value
      → InRange rig v.value
      → higher rig best v ≡ some w
      → InRange rig w.value
  unfolding higher
  higher-InRange best v w hb hv h = ground arith

  higher_from-InRange :
      (best : Option (ChannelValue rig)) (v : ChannelValue rig) (r : Option (ChannelValue rig))
      → ValueInRange rig best
      → InRange rig v.value
      → higher_from rig best v ≡ some r
      → ValueInRange rig r
  unfolding higher_from
  higher_from-InRange none v r hb hv h =
      subst (ValueInRange rig) {x = some v} {y = r} (ground arith) hv
  higher_from-InRange (some best) v r hb hv h =
      let (w, chosen, same) = >>=-some (higher rig best v) (λ w. some (some w)) r h in
      subst (ValueInRange rig) {x = some w} {y = r} (ground arith)
        (higher-InRange best v w hb hv chosen)

  htp_highest-InRange :
      (best : Option (ChannelValue rig)) (vs : List (ChannelValue rig))
      (r : Option (ChannelValue rig))
      → ValueInRange rig best
      → htp_highest rig best vs ≡ some r
      → ValueInRange rig r
  unfolding htp_highest
  htp_highest-InRange best [] r hb h = subst (ValueInRange rig) {x = best} {y = r} (ground arith) hb
  htp_highest-InRange best (v ∷ vs) r hb h = elim (Bool-cases (is_htp v.priority)) [
    | inl used ↦
        let (b, chosen, rest) =
          >>=-some (higher_from rig best (clamped rig v)) (λ b. htp_highest rig b vs) r
            (ground (arith, used)) in
        htp_highest-InRange b vs r
          (higher_from-InRange best (clamped rig v) b hb (clamp-InRange v.value) chosen) rest
    | inr passed ↦ htp_highest-InRange best vs r hb (ground (arith, passed))
  ]

  map_clamped-InRange : (o : Option (ChannelValue rig)) → ValueInRange rig (map_clamped rig o)
  unfolding map_clamped
  map_clamped-InRange none = tt
  map_clamped-InRange (some v) = clamp-InRange v.value

  higher_of-InRange :
      (ltp htp : Option (ChannelValue rig))
      → ValueInRange rig ltp
      → ValueInRange rig htp
      → ValueInRange rig (higher_of rig ltp htp)
  unfolding higher_of
  higher_of-InRange none htp h k = k
  higher_of-InRange (some ltp) none h k = h
  higher_of-InRange (some ltp) (some htp) h k = elim (Bool-cases (rig.lt htp.value ltp.value)) [
    | inl above ↦ rw above h
    | inr below ↦ rw below k
  ]

  pub get_value-InRange :
      (vs : List (ChannelValue rig)) (r : Option (ChannelValue rig))
      → get_value rig vs ≡ some r
      → ValueInRange rig r
  unfolding get_value
  get_value-InRange vs r h =
      let (htp, highest, same) = >>=-some (htp_highest rig none vs) _ r h in
      subst (ValueInRange rig) {x = higher_of rig (map_clamped rig (ltp_highest rig none vs)) htp}
        {y = r} (ground (arith, same))
        (higher_of-InRange (map_clamped rig (ltp_highest rig none vs)) htp
          (map_clamped-InRange (ltp_highest rig none vs))
          (htp_highest-InRange none vs htp tt highest))

  pub value_of-InRange :
      (o : Option (ChannelValue rig)) → ValueInRange rig o → OptionInRange rig (value_of rig o)
  unfolding value_of
  value_of-InRange none h = tt
  value_of-InRange (some v) h = h

  fade-InRange :
      (now : ℕ) (f : FadeState rig) (target x : rig.F64)
      → fade rig now f target ≡ some x
      → InRange rig x
  unfolding fade
  fade-InRange now f target x h = ground (arith, laws.zero_refl, laws.one_refl, laws.zero_one)

  faded-InRange :
      (active : Option rig.F64) (f : FadeState rig) (o : Option rig.F64)
      → OptionInRange rig active
      → ((x : rig.F64) → o ≡ some x → InRange rig x)
      → OptionInRange rig (faded rig active f o).1
  unfolding faded
  faded-InRange active f none h k = h
  faded-InRange active f (some x) h k = k x refl

  pub run_fade-InRange :
      (now : ℕ) (active : Option rig.F64) (f : Option (FadeState rig))
      → OptionInRange rig active
      → OptionInRange rig (run_fade rig now active f).1
  unfolding run_fade
  run_fade-InRange now active none h = h
  run_fade-InRange now active (some f) h =
      faded-InRange active f (fade rig now f (or_zero rig active)) h
        (fade-InRange now f (or_zero rig active))
