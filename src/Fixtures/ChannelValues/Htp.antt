-- ===== src/Fixtures/ChannelValues/Htp.antt =====
-- The value that wins where values that are HTP are written to a channel.
use mizer.Prelude.{
  ◌≡◌, refl, ap, ◌∙◌, ◌⊎◌, arith, Bool, true, false, Option, none, some, List, [], ◌∷◌, Bool-cases,
  inl, inr, if◌then◌else◌, ◌>>=◌,
}
use mizer.Fixtures.Priority.{is_htp}
use mizer.Sequencer.Time.{Rig}
use mizer.Fixtures.ChannelValues.Highest.{NoneIsHtp}
use mizer.Fixtures.ChannelValues.{ChannelValue, clamp, clamped, higher, higher_from, htp_highest}

-- Floating-point numbers without those that compare to nothing, in their order
pub record IsOrdered (rig : Rig) (is_number : rig.F64 → Bool) : Type 0 where
  pub number_zero : is_number rig.zero ≡ true
  pub number_one : is_number rig.one ≡ true
  pub compared :
      (a b : rig.F64)
      → is_number a ≡ true
      → is_number b ≡ true
      → (rig.lt a b ≡ true) ⊎ (rig.eq a b ≡ true) ⊎ (rig.lt b a ≡ true)
  pub lt_asym : (a b : rig.F64) → rig.lt a b ≡ true → rig.lt b a ≡ false
  pub eq_not_lt : (a b : rig.F64) → rig.eq a b ≡ true → (rig.lt a b ≡ false) × (rig.lt b a ≡ false)
  pub not_lt_trans :
      (a b c : rig.F64)
      → is_number a ≡ true
      → is_number b ≡ true
      → is_number c ≡ true
      → rig.lt a b ≡ false
      → rig.lt b c ≡ false
      → rig.lt a c ≡ false

module _ (rig : Rig) (is_number : rig.F64 → Bool) where
  abbrev pub AreNumbers : List (ChannelValue rig) → Type 0
  AreNumbers [] = Unit
  AreNumbers (v ∷ vs) = (is_number v.value ≡ true) × AreNumbers vs

  abbrev pub NumberIn : Option (ChannelValue rig) → Type 0
  NumberIn none = Unit
  NumberIn (some v) = is_number v.value ≡ true

module _ (rig : Rig) where
  -- No value that is HTP is higher, when it is clamped to the range from zero to one.
  abbrev pub NoneHigher : rig.F64 → List (ChannelValue rig) → Type 0
  NoneHigher x [] = Unit
  NoneHigher x (v ∷ vs) =
      (is_htp v.priority ≡ true → rig.lt x (clamp rig v.value) ≡ false) × NoneHigher x vs

  -- The first is not lower, where there is a second one.
  abbrev pub NotLower : Option (ChannelValue rig) → Option (ChannelValue rig) → Type 0
  NotLower w none = Unit
  NotLower (some w) (some b) = rig.lt w.value b.value ≡ false
  NotLower none (some b) = ⊥

  abbrev pub Tops : Option (ChannelValue rig) → List (ChannelValue rig) → Type 0
  Tops none vs = NoneIsHtp rig vs
  Tops (some w) vs = NoneHigher w.value vs

module _ (rig : Rig) (is_number : rig.F64 → Bool) (laws : IsOrdered rig is_number) where
  pub clamp_number : (x : rig.F64) → is_number x ≡ true → is_number (clamp rig x) ≡ true
  unfolding clamp
  clamp_number x h = ground (arith, laws.number_zero, laws.number_one)

  pub lt_irrefl : (x : rig.F64) → rig.lt x x ≡ false
  lt_irrefl x = elim (Bool-cases (rig.lt x x)) [
    | inl below ↦ laws.lt_asym x x below
    | inr not_below ↦ not_below
  ]

  higher_lem :
      (best v : ChannelValue rig)
      → is_number best.value ≡ true
      → is_number v.value ≡ true
      → (w : ChannelValue rig) × (higher rig best v ≡ some w)
        × (is_number w.value ≡ true)
        × (rig.lt w.value best.value ≡ false)
        × (rig.lt w.value v.value ≡ false)
  unfolding higher
  higher_lem best v hb hv = elim (laws.compared best.value v.value hb hv) [
    | inl below ↦ (v, rw below refl, hv, laws.lt_asym best.value v.value below, lt_irrefl v.value)
    | inr (inl same) ↦
        let (not_below, not_above) = laws.eq_not_lt best.value v.value same in
        (v, rw (not_below, same) refl, hv, not_above, lt_irrefl v.value)
    | inr (inr above) ↦
        let not_below = laws.lt_asym v.value best.value above in
        let differ : rig.eq best.value v.value ≡ false =
          ground (arith, laws.eq_not_lt best.value v.value) in
        (best, rw (not_below, differ, above) refl, hb, lt_irrefl best.value, not_below)
  ]

  pub NoneHigher-trans :
      (x y : rig.F64) (vs : List (ChannelValue rig))
      → is_number x ≡ true
      → is_number y ≡ true
      → AreNumbers rig is_number vs
      → rig.lt x y ≡ false
      → NoneHigher rig y vs
      → NoneHigher rig x vs
  NoneHigher-trans x y [] hx hy hs h k = tt
  NoneHigher-trans x y (v ∷ vs) hx hy hs h k = (
    λ used.
        laws.not_lt_trans x y (clamp rig v.value) hx hy (clamp_number v.value hs.0) h (k.0 used),
    NoneHigher-trans x y vs hx hy hs.1 h k.1,
  )

  -- What the search among the values that are HTP ends with, from the best one so far on
  abbrev pub Found : Option (ChannelValue rig) → List (ChannelValue rig) → Type 0
  Found best vs =
      (r : Option (ChannelValue rig)) × (htp_highest rig best vs ≡ some r)
      × NumberIn rig is_number r
      × NotLower rig r best
      × Tops rig r vs

  Found-skip :
      (best : Option (ChannelValue rig)) (v : ChannelValue rig) (vs : List (ChannelValue rig))
      → is_htp v.priority ≡ false
      → Found best vs
      → Found best (v ∷ vs)
  unfolding htp_highest
  Found-skip best v vs skipped (none, found, n, above, tops) =
      (none, rw skipped found, n, above, (skipped, tops))
  Found-skip best v vs skipped (some w, found, n, above, tops) =
      (some w, rw skipped found, n, above, (λ used. absurd (cc), tops))

  htp_highest_step :
      (best b : Option (ChannelValue rig)) (v : ChannelValue rig) (vs : List (ChannelValue rig))
      → is_htp v.priority ≡ true
      → higher_from rig best (clamped rig v) ≡ some b
      → htp_highest rig best (v ∷ vs) ≡ htp_highest rig b vs
  htp_highest_step best b v vs used chosen =
      let step : htp_highest rig best (v ∷ vs)
          ≡ (higher_from rig best (clamped rig v) >>= λ b'. htp_highest rig b' vs) =
        unfold htp_highest in
        ap
          (λ (t : Bool). (if t then higher_from rig best (clamped rig v) else some best) >>= λ b'.
            htp_highest rig b' vs)
          used in
      step
      ∙ ap (λ (o : Option (Option (ChannelValue rig))). o >>= λ b'. htp_highest rig b' vs) chosen

  Found-cons :
      (best : Option (ChannelValue rig)) (v b : ChannelValue rig) (vs : List (ChannelValue rig))
      → is_htp v.priority ≡ true
      → is_number v.value ≡ true
      → is_number b.value ≡ true
      → NumberIn rig is_number best
      → higher_from rig best (clamped rig v) ≡ some (some b)
      → NotLower rig (some b) best
      → rig.lt b.value (clamp rig v.value) ≡ false
      → Found (some b) vs
      → Found best (v ∷ vs)
  Found-cons best v b vs used hv hb hbest chosen not_lower over (none, found, n, above, tops) =
      absurd above
  Found-cons none v b vs used hv hb hbest chosen not_lower over (some w, found, n, above, tops) = (
    some w,
    htp_highest_step none (some b) v vs used chosen ∙ found,
    n,
    tt,
    (
      λ _.
          laws.not_lt_trans w.value b.value (clamp rig v.value) n hb (clamp_number v.value hv) above
            over,
      tops,
    ),
  )
  Found-cons (some best) v b vs used hv hb hbest chosen not_lower over
        (some w, found, n, above, tops) =
      (
        some w,
        htp_highest_step (some best) (some b) v vs used chosen ∙ found,
        n,
        laws.not_lt_trans w.value b.value best.value n hb hbest above not_lower,
        (
          λ _.
              laws.not_lt_trans w.value b.value (clamp rig v.value) n hb (clamp_number v.value hv)
                above over,
          tops,
        ),
      )

  pub htp_highest-Found :
      (best : Option (ChannelValue rig)) (vs : List (ChannelValue rig))
      → NumberIn rig is_number best
      → AreNumbers rig is_number vs
      → Found best vs
  htp_highest-Found none [] hb hs = (none, unfold htp_highest in refl, tt, tt, tt)
  htp_highest-Found (some best) [] hb hs =
      (some best, unfold htp_highest in refl, hb, lt_irrefl best.value, tt)
  htp_highest-Found none (v ∷ vs) hb hs = elim (Bool-cases (is_htp v.priority)) [
    | inl used ↦
        let hv = clamp_number v.value hs.0 in
        Found-cons none v (clamped rig v) vs used hs.0 hv tt (unfold higher_from in refl) tt
          (lt_irrefl (clamp rig v.value)) (htp_highest-Found (some (clamped rig v)) vs hv hs.1)
    | inr skipped ↦ Found-skip none v vs skipped (htp_highest-Found none vs hb hs.1)
  ]
  htp_highest-Found (some best) (v ∷ vs) hb hs = elim (Bool-cases (is_htp v.priority)) [
    | inl used ↦
        let (b, chosen, number, not_lower, over) =
          higher_lem best (clamped rig v) hb (clamp_number v.value hs.0) in
        Found-cons (some best) v b vs used hs.0 number hb (unfold higher_from in rw chosen refl)
          not_lower over (htp_highest-Found (some b) vs number hs.1)
    | inr skipped ↦ Found-skip (some best) v vs skipped (htp_highest-Found (some best) vs hb hs.1)
  ]
