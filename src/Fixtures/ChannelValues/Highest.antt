-- ===== src/Fixtures/ChannelValues/Highest.antt =====
-- The value that wins among those that are written to a channel.
use mizer.Prelude.{
  ℕ, ◌≤◌, ◌<◌, ◌≡◌, refl, sym, ap, ◌∙◌, ◌⊎◌, arith, Bool, true, false, none, some, List, [], ◌∷◌,
  ◌++◌, Bool-cases, inl, inr, if◌then◌else◌, subst, ltb,
}
use mizer.Fixtures.Priority.{is_ltp, is_htp, to_u8}
use mizer.Fixtures.Priority.Order.{cmp-eq-compare}
use mizer.Sequencer.Time.{Rig}
use mizer.Fixtures.ChannelValues.{
  ChannelValue, clamped, later, ltp_highest, htp_highest, higher_of, map_clamped, get_value,
}

module _ (rig : Rig) where
  -- No value that is LTP has a higher priority than `n`.
  abbrev pub NoneAbove : ℕ → List (ChannelValue rig) → Type 0
  NoneAbove n [] = Unit
  NoneAbove n (v ∷ vs) = (is_ltp v.priority ≡ true → to_u8 v.priority ≤ n) × NoneAbove n vs

  -- Every value that is LTP has a lower priority than `n`.
  abbrev pub AllBelow : ℕ → List (ChannelValue rig) → Type 0
  AllBelow n [] = Unit
  AllBelow n (v ∷ vs) = (is_ltp v.priority ≡ true → to_u8 v.priority < n) × AllBelow n vs

  -- The latest value of the highest priority among those that are LTP
  abbrev pub IsLatest : ChannelValue rig → List (ChannelValue rig) → Type 0
  IsLatest v vs =
      (before : List (ChannelValue rig)) × (after : List (ChannelValue rig)) × (vs
        ≡ before ++ v ∷ after)
      × (is_ltp v.priority ≡ true)
      × NoneAbove (to_u8 v.priority) before
      × AllBelow (to_u8 v.priority) after

  abbrev pub NoneIsHtp : List (ChannelValue rig) → Type 0
  NoneIsHtp [] = Unit
  NoneIsHtp (v ∷ vs) = (is_htp v.priority ≡ false) × NoneIsHtp vs

  abbrev pub SomeIsLtp : List (ChannelValue rig) → Type 0
  SomeIsLtp vs =
      (before : List (ChannelValue rig)) × (v : ChannelValue rig) × (after : List
        (ChannelValue rig))
      × (vs ≡ before ++ v ∷ after)
      × (is_ltp v.priority ≡ true)

  later_lem :
      (best v : ChannelValue rig)
      → later rig best v ≡ (if ltb (to_u8 v.priority) (to_u8 best.priority) then best else v)
  unfolding later
  later_lem best v = ground (arith, cmp-eq-compare best.priority v.priority)

  -- What a search that starts with `best` ends with
  Ends : ChannelValue rig → List (ChannelValue rig) → ChannelValue rig → Type 0
  Ends best vs v =
      ((v ≡ best) × AllBelow (to_u8 best.priority) vs)
      ⊎ ((to_u8 best.priority ≤ to_u8 v.priority) × IsLatest v vs)

  pub later_cases :
      (best v : ChannelValue rig)
      → ((later rig best v ≡ best) × (to_u8 v.priority < to_u8 best.priority))
        ⊎ ((later rig best v ≡ v) × (to_u8 best.priority ≤ to_u8 v.priority))
  later_cases best v = elim (Bool-cases (ltb (to_u8 v.priority) (to_u8 best.priority))) [
    | inl lower ↦ inl (later_lem best v ∙ rw lower refl, ground arith)
    | inr not_lower ↦ inr (later_lem best v ∙ rw not_lower refl, ground arith)
  ]

  Ends-kept :
      (best v w : ChannelValue rig) (vs : List (ChannelValue rig))
      → to_u8 v.priority < to_u8 best.priority
      → Ends best vs w
      → Ends best (v ∷ vs) w
  unfolding Ends
  Ends-kept best v w vs lower (inl (same, below)) = inl (same, (λ used. lower, below))
  Ends-kept best v w vs lower (inr (le, (before, after, shape, is_used, above, below))) =
      inr (le, (v ∷ before, after, ap (v ∷◌) shape, is_used, (λ used. omega arith, above), below))

  Ends-replaced :
      (best v w : ChannelValue rig) (vs : List (ChannelValue rig))
      → is_ltp v.priority ≡ true
      → to_u8 best.priority ≤ to_u8 v.priority
      → Ends v vs w
      → Ends best (v ∷ vs) w
  unfolding Ends
  Ends-replaced best v w vs used not_lower (inl (same, below)) = inr (
    rw same not_lower,
    ([], vs, ap (λ (x : ChannelValue rig). x ∷ vs) (sym same), rw same used, tt, rw same below),
  )
  Ends-replaced best v w vs used not_lower
        (inr (le, (before, after, shape, is_used, above, below))) =
      inr (omega arith, (v ∷ before, after, ap (v ∷◌) shape, is_used, (λ used. le, above), below))

  Ends-skip :
      (best v w : ChannelValue rig) (vs : List (ChannelValue rig))
      → is_ltp v.priority ≡ false
      → Ends best vs w
      → Ends best (v ∷ vs) w
  unfolding Ends
  Ends-skip best v w vs skipped (inl (same, below)) = inl (same, (λ used. cc, below))
  Ends-skip best v w vs skipped (inr (le, (before, after, shape, is_used, above, below))) =
      inr (le, (v ∷ before, after, ap (v ∷◌) shape, is_used, (λ used. absurd (cc), above), below))

  ltp_highest-Ends :
      (best : ChannelValue rig) (vs : List (ChannelValue rig))
      → (v : ChannelValue rig) × (ltp_highest rig (some best) vs ≡ some v) × Ends best vs v
  unfolding ltp_highest
  ltp_highest-Ends best [] = (best, refl, unfold Ends in inl (refl, tt))
  ltp_highest-Ends best (v ∷ vs) = elim (Bool-cases (is_ltp v.priority)) [
    | inl used ↦ elim (later_cases best v) [
      | inl (same, lower) ↦
          let (w, found, ends) = ltp_highest-Ends best vs in
          (w, rw (used, same) found, Ends-kept best v w vs lower ends)
      | inr (same, not_lower) ↦
          let (w, found, ends) = ltp_highest-Ends v vs in
          (w, rw (used, same) found, Ends-replaced best v w vs used not_lower ends)
    ]
    | inr skipped ↦
        let (w, found, ends) = ltp_highest-Ends best vs in
        (w, rw skipped found, Ends-skip best v w vs skipped ends)
  ]

  IsLatest-cons :
      (v w : ChannelValue rig) (vs : List (ChannelValue rig))
      → is_ltp v.priority ≡ true
      → Ends v vs w
      → IsLatest w (v ∷ vs)
  unfolding Ends
  IsLatest-cons v w vs used (inl (same, below)) =
      ([], vs, ap (λ (x : ChannelValue rig). x ∷ vs) (sym same), rw same used, tt, rw same below)
  IsLatest-cons v w vs used (inr (le, (before, after, shape, is_used, above, below))) =
      (v ∷ before, after, ap (v ∷◌) shape, is_used, (λ used. le, above), below)

  ltp_highest-IsLatest :
      (before : List (ChannelValue rig)) (v : ChannelValue rig) (after : List (ChannelValue rig))
      → is_ltp v.priority ≡ true
      → (w : ChannelValue rig) × (ltp_highest rig none (before ++ v ∷ after) ≡ some w)
        × IsLatest w (before ++ v ∷ after)
  unfolding ltp_highest
  ltp_highest-IsLatest [] v after used =
      let (w, found, ends) = ltp_highest-Ends v after in
      (
        w,
        ap (λ (b : Bool). ltp_highest rig (if b then some v else none) after) used ∙ found,
        IsLatest-cons v w after used ends,
      )
  ltp_highest-IsLatest (u ∷ before) v after used = elim (Bool-cases (is_ltp u.priority)) [
    | inl first ↦
        let (w, found, ends) = ltp_highest-Ends u (before ++ v ∷ after) in
        (
          w,
          ap (λ (b : Bool). ltp_highest rig (if b then some u else none) (before ++ v ∷ after))
                first
              ∙ found,
          IsLatest-cons u w (before ++ v ∷ after) first ends,
        )
    | inr skipped ↦
        let (w, found, (front, rear, shape, is_used, above, below)) =
          ltp_highest-IsLatest before v after used in
        (
          w,
          ap (λ (b : Bool). ltp_highest rig (if b then some u else none) (before ++ v ∷ after))
                skipped
              ∙ found,
          (u ∷ front, rear, ap (u ∷◌) shape, is_used, (λ used. absurd (cc), above), below),
        )
  ]

  htp_highest-none :
      (vs : List (ChannelValue rig)) → NoneIsHtp vs → htp_highest rig none vs ≡ some none
  unfolding htp_highest
  htp_highest-none [] h = refl
  htp_highest-none (v ∷ vs) h = rw (h.0, htp_highest-none vs h.1) refl

  -- Without values that are HTP, but with some that are LTP, `get_value` does not panic and gives the
  -- latest among those of the highest priority that are LTP, its value clamped to the range from zero
  -- to one.
  pub get_value-IsLatest :
      (vs : List (ChannelValue rig))
      → NoneIsHtp vs
      → SomeIsLtp vs
      → (v : ChannelValue rig) × IsLatest v vs × (get_value rig vs ≡ some (some (clamped rig v)))
  unfolding get_value map_clamped higher_of
  get_value-IsLatest vs h (before, u, after, shape, used) =
      let (w, found, latest) = ltp_highest-IsLatest before u after used in
      let found_in : ltp_highest rig none vs ≡ some w = ap (ltp_highest rig none) shape ∙ found in
      (w, subst (IsLatest w) (sym shape) latest, rw (htp_highest-none vs h, found_in) refl)
