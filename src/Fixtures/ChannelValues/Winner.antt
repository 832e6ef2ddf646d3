-- ===== src/Fixtures/ChannelValues/Winner.antt =====
-- What `get_value` gives where any values are written to a channel.
use mizer.Prelude.{
  ◌≡◌, refl, sym, ap, ◌∙◌, ◌⊎◌, arith, Bool, true, Option, none, some, List, [], ◌∷◌, ◌++◌,
  Bool-cases, Option-cases, >>=-some, inl, inr, if◌then◌else◌, subst, ◌>>=◌,
}
use mizer.Fixtures.Priority.{is_ltp, is_htp}
use mizer.Sequencer.Time.{Rig}
use mizer.Fixtures.ChannelValues.Highest.{NoneIsHtp, later_cases}
use mizer.Fixtures.ChannelValues.Htp.{
  IsOrdered, AreNumbers, NotLower, Tops, lt_irrefl, NoneHigher, clamp_number, NoneHigher-trans,
  htp_highest-Found,
}
use mizer.Fixtures.ChannelValues.{
  ChannelValue, clamped, later, higher, higher_from, ltp_highest, htp_highest, higher_of,
  map_clamped, get_value,
}

module _ (rig : Rig) where
  -- One of the values, clamped to the range from zero to one
  abbrev pub IsOneOf : ChannelValue rig → List (ChannelValue rig) → Type 0
  IsOneOf w vs =
      (before : List (ChannelValue rig)) × (v : ChannelValue rig) × (after : List
        (ChannelValue rig))
      × (vs ≡ before ++ v ∷ after)
      × (w ≡ clamped rig v)

  Grown : Option (ChannelValue rig) → ChannelValue rig → List (ChannelValue rig) → Type 0
  Grown best w vs = (best ≡ some w) ⊎ IsOneOf w vs

  IsOneOf-cons :
      (w v : ChannelValue rig) (vs : List (ChannelValue rig)) → IsOneOf w vs → IsOneOf w (v ∷ vs)
  IsOneOf-cons w v vs (before, u, after, shape, same) =
      (v ∷ before, u, after, ap (v ∷◌) shape, same)

  higher-either : (best v w : ChannelValue rig) → higher rig best v ≡ some w → (w ≡ best) ⊎ (w ≡ v)
  unfolding higher
  higher-either best v w h = ground arith

  higher_from-either :
      (best b : Option (ChannelValue rig)) (v w : ChannelValue rig)
      → higher_from rig best v ≡ some b
      → b ≡ some w
      → (best ≡ some w) ⊎ (w ≡ v)
  unfolding higher_from
  higher_from-either none b v w h e = inr (ground arith)
  higher_from-either (some best) b v w h e =
      let (u, chosen, same) = >>=-some (higher rig best v) (λ u. some (some u)) b h in
      ground (arith, higher-either best v u chosen)

  Grown-cons :
      (best b : Option (ChannelValue rig)) (v w : ChannelValue rig) (vs : List (ChannelValue rig))
      → (b ≡ some w → (best ≡ some w) ⊎ (w ≡ clamped rig v))
      → Grown b w vs
      → Grown best w (v ∷ vs)
  unfolding Grown
  Grown-cons best b v w vs origin (inr later) = inr (IsOneOf-cons w v vs later)
  Grown-cons best b v w vs origin (inl same) = elim (origin same) [
    | inl old ↦ inl old
    | inr new ↦ inr ([], v, vs, refl, new)
  ]

  htp_highest-Grown :
      (best : Option (ChannelValue rig)) (vs : List (ChannelValue rig)) (w : ChannelValue rig)
      → htp_highest rig best vs ≡ some (some w)
      → Grown best w vs
  htp_highest-Grown best [] w h = unfold Grown in inl (unfold htp_highest in ground arith)
  htp_highest-Grown best (v ∷ vs) w h = elim (Bool-cases (is_htp v.priority)) [
    | inl used ↦
        let (b, chosen, rest) =
          >>=-some (higher_from rig best (clamped rig v)) (λ b. htp_highest rig b vs) (some w)
            (unfold htp_highest in ground (arith, used)) in
        Grown-cons best b v w vs (higher_from-either best b (clamped rig v) w chosen)
          (htp_highest-Grown b vs w rest)
    | inr skipped ↦
        Grown-cons best best v w vs (λ same. inl same)
          (htp_highest-Grown best vs w (unfold htp_highest in ground (arith, skipped)))
  ]

  ltp_step :
      (best : Option (ChannelValue rig)) (v : ChannelValue rig) (vs : List (ChannelValue rig))
      → (b : Option (ChannelValue rig)) × (ltp_highest rig best (v ∷ vs) ≡ ltp_highest rig b vs)
        × ((b ≡ best) ⊎ (b ≡ some v))
  unfolding ltp_highest
  ltp_step none v vs = elim (Bool-cases (is_ltp v.priority)) [
    | inl used ↦
        (some v, ap (λ (t : Bool). ltp_highest rig (if t then some v else none) vs) used, inr refl)
    | inr skipped ↦
        (none, ap (λ (t : Bool). ltp_highest rig (if t then some v else none) vs) skipped, inl refl)
  ]
  ltp_step (some best) v vs = elim (Bool-cases (is_ltp v.priority)) [
    | inl used ↦ (
      some (later rig best v),
      rw used refl,
      elim (later_cases rig best v) [
        | inl (kept, _) ↦ inl (ap some kept)
        | inr (replaced, _) ↦ inr (ap some replaced)
      ],
    )
    | inr skipped ↦ (some best, rw skipped refl, inl refl)
  ]

  ltp_highest-Grown :
      (best : Option (ChannelValue rig)) (vs : List (ChannelValue rig)) (w : ChannelValue rig)
      → ltp_highest rig best vs ≡ some w
      → Grown (map_clamped rig best) (clamped rig w) vs
  unfolding map_clamped
  ltp_highest-Grown best [] w h =
      let start : best ≡ some w = unfold ltp_highest in h in
      unfold Grown in inl (ap (map_clamped rig) start)
  ltp_highest-Grown best (v ∷ vs) w h =
      let (b, step, origin) = ltp_step best v vs in
      Grown-cons (map_clamped rig best) (map_clamped rig b) v (clamped rig w) vs
        (λ same. elim origin [
          | inl kept ↦ inl (ap (map_clamped rig) (sym kept) ∙ same)
          | inr replaced ↦ inr (unfold map_clamped in ground (arith, replaced, same))
        ])
        (ltp_highest-Grown b vs w (sym step ∙ h))

  IsOneOf-ltp :
      (vs : List (ChannelValue rig)) (w : ChannelValue rig)
      → map_clamped rig (ltp_highest rig none vs) ≡ some w
      → IsOneOf w vs
  unfolding map_clamped Grown
  IsOneOf-ltp vs w h = elim (Option-cases (ltp_highest rig none vs)) [
    | inl nothing ↦ absurd (ground (arith, nothing))
    | inr (u, found) ↦ elim (ltp_highest-Grown none vs u found) [
      | inl e ↦ absurd (ground arith)
      | inr origin ↦
          subst (λ (x : ChannelValue rig). IsOneOf x vs) {x = clamped rig u} {y = w}
            (ground (arith, found)) origin
    ]
  ]

  IsOneOf-htp :
      (vs : List (ChannelValue rig)) (w : ChannelValue rig)
      → htp_highest rig none vs ≡ some (some w)
      → IsOneOf w vs
  unfolding Grown
  IsOneOf-htp vs w h = elim (htp_highest-Grown none vs w h) [
    | inl e ↦ absurd (ground arith)
    | inr origin ↦ origin
  ]

  -- What is promised of the value that wins, of which `ltp` wins among those that are LTP: it is one of
  -- the values, clamped, no value that is HTP is higher, and `ltp` is not higher; none wins only where
  -- there is neither.
  abbrev pub WinsOver :
      Option (ChannelValue rig) → List (ChannelValue rig) → Option (ChannelValue rig) → Type 0
  WinsOver ltp vs r =
      ((w : ChannelValue rig) → r ≡ some w → IsOneOf w vs) × Tops rig r vs × NotLower rig r ltp

module _ (rig : Rig) (is_number : rig.F64 → Bool) (laws : IsOrdered rig is_number) where
  number_at :
      (before : List (ChannelValue rig)) (v : ChannelValue rig) (after : List (ChannelValue rig))
      → AreNumbers rig is_number (before ++ v ∷ after)
      → is_number v.value ≡ true
  number_at [] v after h = h.0
  number_at (u ∷ before) v after h = number_at before v after h.1

  number_of_IsOneOf :
      (w : ChannelValue rig) (vs : List (ChannelValue rig))
      → IsOneOf rig w vs
      → AreNumbers rig is_number vs
      → is_number w.value ≡ true
  number_of_IsOneOf w vs (before, v, after, shape, same) numbers = rw same (
      clamp_number rig is_number laws v.value
        (number_at before v after (subst (AreNumbers rig is_number) shape numbers)))

  NoneHigher-none :
      (x : rig.F64) (vs : List (ChannelValue rig)) → NoneIsHtp rig vs → NoneHigher rig x vs
  NoneHigher-none x [] h = tt
  NoneHigher-none x (v ∷ vs) h = (λ used. absurd (cc), NoneHigher-none x vs h.1)

  higher_of-WinsOver :
      (ltp htp : Option (ChannelValue rig)) (vs : List (ChannelValue rig))
      → AreNumbers rig is_number vs
      → ((w : ChannelValue rig) → ltp ≡ some w → IsOneOf rig w vs)
      → ((w : ChannelValue rig) → htp ≡ some w → IsOneOf rig w vs)
      → Tops rig htp vs
      → WinsOver rig ltp vs (higher_of rig ltp htp)
  unfolding higher_of
  higher_of-WinsOver none htp vs numbers hl hh tops = (hh, tops, tt)
  higher_of-WinsOver (some l) none vs numbers hl hh tops =
      (hl, NoneHigher-none l.value vs tops, lt_irrefl rig is_number laws l.value)
  higher_of-WinsOver (some l) (some h) vs numbers hl hh tops =
      elim (Bool-cases (rig.lt h.value l.value)) [
        | inl above ↦
            subst (WinsOver rig (some l) vs)
              (sym (ap (λ (b : Bool). if b then some l else some h) above))
              (
                hl,
                NoneHigher-trans rig is_number laws l.value h.value vs
                    (number_of_IsOneOf l vs (hl l refl) numbers)
                    (number_of_IsOneOf h vs (hh h refl) numbers) numbers
                    (laws.lt_asym h.value l.value above) tops,
                lt_irrefl rig is_number laws l.value,
              )
        | inr not_above ↦
            subst (WinsOver rig (some l) vs)
              (sym (ap (λ (b : Bool). if b then some l else some h) not_above))
              (hh, tops, not_above)
      ]

  -- Where all values compare, `get_value` does not panic, and gives one of the values, clamped to the
  -- range from zero to one, than which no value that is HTP is higher, nor the one that wins among
  -- those that are LTP; it gives none only where there is neither.
  pub get_value-WinsOver :
      (vs : List (ChannelValue rig))
      → AreNumbers rig is_number vs
      → (r : Option (ChannelValue rig)) × (get_value rig vs ≡ some r)
        × WinsOver rig (map_clamped rig (ltp_highest rig none vs)) vs r
  get_value-WinsOver vs numbers =
      let ltp = map_clamped rig (ltp_highest rig none vs) in
      let (htp, found, number, above, tops) =
        htp_highest-Found rig is_number laws none vs tt numbers in
      (
        higher_of rig ltp htp,
        unfold get_value in
            ap (λ (o : Option (Option (ChannelValue rig))). o >>= λ h. some (higher_of rig ltp h))
              found,
        higher_of-WinsOver ltp htp vs numbers (IsOneOf-ltp rig vs)
            (λ w e. IsOneOf-htp rig vs w (found ∙ ap some e)) tops,
      )
