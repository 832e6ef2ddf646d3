-- ===== src/Clock/Timecode.antt =====
-- `Timecode` of crates/runtime/clock/src/lib.rs. A panic is `none`; `round` and `as_u64` are
-- the conversions of the standard library, of which `as_u64` cuts off.
use mizer.Prelude.{
  ℕ, ◌+◌, ◌-◌, ◌*◌, ◌/◌, ◌^◌, ◌≡◌, ◌<◌, ◌≤◌, refl, ap, ◌∙◌, arith, Bool, true, false, Option, none,
  some, min, zero, suc, inl, inr, ◌⊎◌, ◌==◌, if◌then◌else◌,
}
use mizer.Prelude.Int.{ℤ, pos, negsuc}
use mizer.Sequencer.Time.{Rig}

pub record Timecode : Type 0 where
  pub hours : ℕ
  pub minutes : ℕ
  pub seconds : ℕ
  pub frames : ℕ
  pub negative : Bool

build_with : ℕ → Bool → ℕ → Timecode
build_with frames negative fps =
    let seconds = frames / fps in
    let minutes = seconds / 60 in
    let hours = minutes / 60 in
    record {
      hours = hours;
      minutes = minutes - hours * 60;
      seconds = seconds - minutes * 60;
      frames = frames - seconds * fps;
      negative = negative;
    }

-- The division panics where there are no frames in a second.
unfoldable pub build : ℕ → Bool → ℕ → Option Timecode
unfolding build_with
build frames negative fps = if fps == 0 then none else some (build_with frames negative fps)

abbrev pub u64_max : ℕ
u64_max = 2 ^ 64 - 1

module _ (rig : Rig) (round : rig.F64 → ℕ) where
  unfoldable pub new : ℕ → rig.F64 → Option Timecode
  unfolding build
  new frames fps = build frames false (round fps)

  unfoldable pub from_i128 : ℤ → rig.F64 → Option Timecode
  unfolding build
  from_i128 (pos frames) fps = build (min frames u64_max) false (round fps)
  from_i128 (negsuc n) fps = build (min (n + 1) u64_max) true (round fps)

  unfoldable pub from_duration : (rig.F64 → ℕ) → ℕ → rig.F64 → Option Timecode
  unfolding build
  from_duration as_u64 duration fps =
      build (round (rig.mul (rig.as_secs duration) fps)) false (as_u64 fps)

-- The number of frames that a timecode stands for
abbrev pub total_frames : ℕ → Timecode → ℕ
total_frames fps t = ((t.hours * 60 + t.minutes) * 60 + t.seconds) * fps + t.frames

div_rest : (n d : ℕ) → 0 < d → (n / d * d ≤ n) × (n - n / d * d < d)
div_rest n d h = grind arith

digits : (q : ℕ) → (q / 60 / 60 * 60 + (q / 60 - q / 60 / 60 * 60)) * 60 + (q - q / 60 * 60) ≡ q
digits q = omega arith

add-sub : (m n : ℕ) → m ≤ n → m + (n - m) ≡ n
add-sub m n h = omega arith

-- Either there are no frames in a second, and a panic, or a number of frames has a timecode, which
-- stands for that number, has minutes and seconds below 60 and frames below those of a second.
pub total_frames-build :
    (frames : ℕ) (negative : Bool) (fps : ℕ)
    → ((fps ≡ 0) × (build frames negative fps ≡ none))
      ⊎ ((t : Timecode) × (build frames negative fps ≡ some t)
          × (total_frames fps t ≡ frames)
          × (t.minutes < 60)
          × (t.seconds < 60)
          × (t.frames < fps)
          × (t.negative ≡ negative))
unfolding build
total_frames-build frames negative zero = inl (refl, refl)
total_frames-build frames negative (suc n) = inr (
  build_with frames negative (suc n),
  ground arith,
  ap (λ (q : ℕ). q * suc n + (frames - frames / suc n * suc n)) (digits (frames / suc n))
      ∙ add-sub (frames / suc n * suc n) frames (div_rest frames (suc n) (omega arith)).0,
  omega arith,
  omega arith,
  omega (arith, div_rest frames (suc n)),
  refl,
)

second_of : (n extra : ℕ) → extra < n → (n + extra) / n ≡ 1
second_of n extra h = grind arith

build_second :
    (n extra : ℕ)
    → extra < n
    → build (n + extra) false n
      ≡ some (record { hours = 0; minutes = 0; seconds = 1; frames = extra; negative = false })
unfolding build
build_second n extra h = ground (arith, second_of n extra h)

module _ (rig : Rig) (round as_u64 : rig.F64 → ℕ) where
  -- Where the frames in a second are rounded up, by `new`, but cut off, by `from_duration`, a duration
  -- of one second of rounded frames is exactly one second for the one, and one frame more for the
  -- other, which has fewer frames in a second.
  pub new-from_duration :
      (fps : rig.F64) (duration : ℕ)
      → round fps ≡ as_u64 fps + 1
      → 1 < as_u64 fps
      → round (rig.mul (rig.as_secs duration) fps) ≡ round fps
      → (new rig round (round fps) fps
          ≡ some (record { hours = 0; minutes = 0; seconds = 1; frames = 0; negative = false }))
        × (from_duration rig round as_u64 duration fps
            ≡ some (record { hours = 0; minutes = 0; seconds = 1; frames = 1; negative = false }))
  new-from_duration fps duration up more same = (
    unfold new in
        (ap (λ (m : ℕ). build m false (round fps)) (omega arith)
          ∙ build_second (round fps) 0 (omega arith)),
    unfold from_duration in
        (ap (λ (m : ℕ). build m false (as_u64 fps)) (same ∙ up) ∙ build_second (as_u64 fps) 1 more),
  )
