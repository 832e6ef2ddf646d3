-- ===== src/Fixtures/ChannelValues.antt =====
-- `ChannelValues` and `FadeState` of crates/components/fixtures/src/channel_values.rs,
-- with `FadeTimings` and `FixtureValueSource` of manager.rs. A source is its number. An instant and
-- a duration are counted in nanoseconds, and the clock is read once for a call. A panic is `none`.
pub mod Highest
pub mod Htp
pub mod Winner
pub mod Bounds
pub mod Calls
pub mod Get
use Prim.Native.Nat.{Ordering}
use mizer.Prelude.{
  ℕ, ◌+◌, ◌-◌, Bool, true, false, ◌||◌, Option, none, some, List, [], ◌∷◌, ◌++◌, ◌==◌, leb,
  if◌then◌else◌, ◌>>=◌,
}
use mizer.Fixtures.Priority.{
  FixturePriority, default, cmp, is_highlight, is_programmer, is_ltp, is_htp,
}
use mizer.Sequencer.Time.{Rig}

pub record FadeTimings : Type 0 where
  pub fade_out : Option ℕ

pub record ChannelValue (rig : Rig) : Type 0 where
  pub priority : FixturePriority
  pub value : rig.F64
  pub source : Option ℕ
  pub fade_timings : FadeTimings

pub record FadeState (rig : Rig) : Type 0 where
  pub priority : FixturePriority
  pub start_time : ℕ
  pub duration : ℕ
  pub start_value : rig.F64

pub record ChannelValues (rig : Rig) : Type 0 where
  pub master : Option rig.F64
  pub values : List (ChannelValue rig)
  pub previous_values : List (ChannelValue rig)
  pub active_fade : Option (FadeState rig)
  pub value : Option rig.F64
  pub is_flushed : Bool

module _ (rig : Rig) where
  -- `f64::clamp(0., 1.)`
  unfoldable pub clamp : rig.F64 → rig.F64
  clamp x = if rig.lt x rig.zero then rig.zero else if rig.lt rig.one x then rig.one else x

  -- `f64::partial_cmp`
  unfoldable pub partial_cmp : rig.F64 → rig.F64 → Option Ordering
  partial_cmp a b =
      if rig.lt a b
      then some Ordering.lt
      else if rig.eq a b
      then some Ordering.eq
      else if rig.lt b a
      then some Ordering.gt
      else none

  -- `FadeState::from_value`
  unfoldable pub from_value : ℕ → ChannelValue rig → Option (FadeState rig)
  from_value now v = do
    fade_out ← v.fade_timings.fade_out
    some (record {
      priority = v.priority;
      start_time = now;
      duration = fade_out;
      start_value = v.value;
    })

  -- `FadeState::fade`
  unfoldable pub fade : ℕ → FadeState rig → rig.F64 → Option rig.F64
  unfolding clamp
  fade now f target =
      let elapsed = now - f.start_time in
      let progress = rig.div (rig.as_secs elapsed) (rig.as_secs f.duration) in
      if leb f.duration elapsed
      then none
      else some (clamp (rig.add f.start_value (rig.mul (rig.sub target f.start_value) progress)))

  -- `FadeState::remaining`
  remaining : ℕ → FadeState rig → ℕ
  remaining now f =
      let elapsed = now - f.start_time in if leb f.duration elapsed then 0 else f.duration - elapsed

  -- `impl Default for ChannelValues`
  unfoldable pub default_values : ChannelValues rig
  default_values = record {
    master = none;
    values = [];
    previous_values = [];
    active_fade = none;
    value = none;
    is_flushed = true;
  }

  unfoldable pub insert_value :
      rig.F64 → FixturePriority → Option ℕ → FadeTimings → ChannelValues rig → ChannelValues rig
  insert_value value priority source fade_timings c = record c {
    is_flushed = false;
    values =
        c.values
        ++ record {
          priority = priority;
          value = value;
          source = source;
          fade_timings = fade_timings;
        }
          ∷ [];
  }

  unfoldable pub set_master : rig.F64 → ChannelValues rig → ChannelValues rig
  unfolding clamp
  set_master master c = record c { master = some (clamp master) }

  -- `max_by_key(|value| value.priority)` over those that are LTP: of equal ones the last
  pub later : ChannelValue rig → ChannelValue rig → ChannelValue rig
  later best v = elim (cmp best.priority v.priority) [ Ordering.gt ↦ best | _ ↦ v ]

  unfoldable pub ltp_highest :
      Option (ChannelValue rig) → List (ChannelValue rig) → Option (ChannelValue rig)
  unfolding later cmp
  ltp_highest best [] = best
  ltp_highest none (v ∷ vs) = ltp_highest (if is_ltp v.priority then some v else none) vs
  ltp_highest (some best) (v ∷ vs) =
      ltp_highest (some (if is_ltp v.priority then later best v else best)) vs

  abbrev pub clamped : ChannelValue rig → ChannelValue rig
  clamped v = record v { value = clamp v.value }

  -- `max_by(|a, b| a.value.partial_cmp(&b.value).unwrap())`
  pub higher : ChannelValue rig → ChannelValue rig → Option (ChannelValue rig)
  unfolding partial_cmp
  higher best v = do
    order ← partial_cmp best.value v.value
    some (elim order [ Ordering.gt ↦ best | _ ↦ v ])

  higher_from : Option (ChannelValue rig) → ChannelValue rig → Option (Option (ChannelValue rig))
  unfolding higher
  higher_from none v = some (some v)
  higher_from (some best) v = higher best v >>= λ w. some (some w)

  -- The same over those that are HTP, clamped
  unfoldable pub htp_highest :
      Option (ChannelValue rig) → List (ChannelValue rig) → Option (Option (ChannelValue rig))
  unfolding higher_from clamp
  htp_highest best [] = some best
  htp_highest best (v ∷ vs) =
      (if is_htp v.priority then higher_from best (clamped v) else some best) >>= λ best'.
      htp_highest best' vs

  pub higher_of : Option (ChannelValue rig) → Option (ChannelValue rig) → Option (ChannelValue rig)
  higher_of none htp = htp
  higher_of ltp none = ltp
  higher_of (some ltp) (some htp) = if rig.lt htp.value ltp.value then some ltp else some htp

  unfoldable pub map_clamped : Option (ChannelValue rig) → Option (ChannelValue rig)
  map_clamped none = none
  map_clamped (some v) = some (clamped v)

  unfoldable pub get_value : List (ChannelValue rig) → Option (Option (ChannelValue rig))
  unfolding higher_of map_clamped ltp_highest htp_highest
  get_value values = do
    htp ← htp_highest none values
    some (higher_of (map_clamped (ltp_highest none values)) htp)

  -- Whether a value of this frame has the source
  unfoldable pub has_source : ℕ → List (ChannelValue rig) → Bool
  has_source id [] = false
  has_source id (v ∷ vs) = elim v.source [ some s ↦ s == id | none ↦ false ] || has_source id vs

  -- The closures of `filter` and `filter_map` on the values of the last frame
  unfoldable pub fade_of : ℕ → List (ChannelValue rig) → ChannelValue rig → Option (FadeState rig)
  unfolding has_source from_value
  fade_of now values v =
      if is_htp v.priority || is_ltp v.priority
      then (v.source >>= λ id. (if has_source id values then none else from_value now v))
      else none

  unfoldable pub or_else : {A : Type 0} → Option A → Option A → Option A
  or_else none b = b
  or_else (some a) b = some a

  -- `last` of what the filters leave
  unfoldable pub next_fade :
      ℕ → List (ChannelValue rig) → List (ChannelValue rig) → Option (FadeState rig)
  unfolding fade_of or_else
  next_fade now values [] = none
  next_fade now values (v ∷ vs) = or_else (next_fade now values vs) (fade_of now values v)

  unfoldable pub or_zero : Option rig.F64 → rig.F64
  or_zero none = rig.zero
  or_zero (some x) = x

  unfoldable pub faded :
      Option rig.F64 → FadeState rig → Option rig.F64 → Option (FadeState rig) × Option rig.F64
  faded active f (some value) = (some f, some value)
  faded active f none = (none, active)

  unfoldable pub run_fade :
      ℕ → Option rig.F64 → Option (FadeState rig) → Option (FadeState rig) × Option rig.F64
  unfolding fade faded or_zero
  run_fade now active none = (none, active)
  run_fade now active (some f) = faded active f (fade now f (or_zero active))

  unfoldable pub value_of : Option (ChannelValue rig) → Option rig.F64
  value_of none = none
  value_of (some v) = some v.value

  -- What `flush` does when it has not been called since the last `insert`
  unfoldable pub settle : ℕ → Option rig.F64 → ChannelValues rig → ChannelValues rig
  unfolding run_fade next_fade or_else
  settle now active c =
      let (f, value) =
        run_fade now active (or_else (next_fade now c.values c.previous_values) c.active_fade) in
      record c { active_fade = f; value = value; is_flushed = true }

  unfoldable pub flush : ℕ → ChannelValues rig → Option (ChannelValues rig)
  unfolding settle value_of get_value
  flush now c =
      if c.is_flushed
      then some c
      else get_value c.values >>= λ active. some (settle now (value_of active) c)

  unfoldable pub find_value : (FixturePriority → Bool) → List (ChannelValue rig) → Option rig.F64
  find_value p [] = none
  find_value p (v ∷ vs) = let rest = find_value p vs in if p v.priority then some v.value else rest

  unfoldable pub mastered : Option rig.F64 → Option rig.F64 → Option rig.F64
  unfolding clamp
  mastered (some master) (some target) = some (rig.mul target (clamp master))
  mastered _ target = target

  unfoldable pub get : ChannelValues rig → Option rig.F64
  unfolding find_value mastered or_else
  get c =
      or_else (find_value is_highlight c.values)
        (or_else (find_value is_programmer c.values) (mastered c.master c.value))

  unfoldable pub clear : ChannelValues rig → ChannelValues rig
  clear c = record c { values = []; previous_values = c.values; value = none }
