-- ===== src/Tests/ChannelTests.antt =====
-- Channel values at concrete inputs: percentages in the place of floating-point numbers.
use mizer.Prelude.{ℕ, ◌≡◌, ◌⊎◌, refl, arith, true, false, Option, none, some, List, [], ◌∷◌}
use mizer.Fixtures.Priority.{FixturePriority, programmer, htp, ltp, low, high, lowest}
use mizer.Sequencer.Time.{Rig}
use mizer.Fixtures.ChannelValues
use mizer.Fixtures.ChannelValues.{
  FadeTimings, ChannelValue, FadeState, ChannelValues, default_values, insert_value, clamped,
  get_value, or_zero, value_of, map_clamped, ltp_highest, mastered,
}
use mizer.Fixtures.ChannelValues.Bounds.{IsRange}
use mizer.Fixtures.ChannelValues.Calls.{
  Call, insert_call, master_call, flush_call, clear_call, run, IsInRange, run-IsInRange,
}
use mizer.Fixtures.ChannelValues.Highest.{IsLatest, get_value-IsLatest}
use mizer.Fixtures.ChannelValues.Htp.{IsOrdered}
use mizer.Fixtures.ChannelValues.Winner.{WinsOver, get_value-WinsOver}
use mizer.Fixtures.Channels
use mizer.Tests.SequencerTests.{rig}

abbrev percent : Rig
percent = record rig { one = 100 }

compared :
    (a b : ℕ)
    → true ≡ true
    → true ≡ true
    → (percent.lt a b ≡ true) ⊎ (percent.eq a b ≡ true) ⊎ (percent.lt b a ≡ true)
compared a b h k = ground arith

percent-IsRange : IsRange percent
percent-IsRange = record {
  number_zero = refl;
  number_one = refl;
  compared = λ a b _ _. compared a b refl refl;
  zero_refl = refl;
  one_refl = refl;
  zero_one = refl;
}

percent-IsOrdered : IsOrdered percent (λ x. true)
percent-IsOrdered = record {
  number_zero = refl;
  number_one = refl;
  compared = compared;
  lt_asym = λ a b h. ground arith;
  eq_not_lt = λ a b h. (ground arith, ground arith);
  not_lt_trans = λ a b c _ _ _ h k. ground arith;
}

abbrev timed : Option ℕ → FadeTimings
timed fade = record { fade_out = fade }

abbrev written : FixturePriority → ℕ → Option ℕ → Option ℕ → ChannelValue percent
written priority value source fade = record {
  priority = priority;
  value = value;
  source = source;
  fade_timings = timed fade;
}

abbrev lows : List (ChannelValue percent)
lows =
    written (ltp lowest) 0 none none
    ∷ written (ltp high) 40 none none
    ∷ written (ltp low) 90 none none
    ∷ written (ltp high) 120 none none
    ∷ []

get_value-IsLatest_example :
    (v : ChannelValue percent) × IsLatest percent v lows
    × (get_value percent lows ≡ some (some (clamped percent v)))
get_value-IsLatest_example =
    get_value-IsLatest percent lows (refl, (refl, (refl, (refl, tt))))
      ([], written (ltp lowest) 0 none none, _, refl, refl)

abbrev mixed : List (ChannelValue percent)
mixed = written htp 70 (some 3) none ∷ lows

get_value-WinsOver_example :
    (r : Option (ChannelValue percent)) × (get_value percent mixed ≡ some r)
    × WinsOver percent (map_clamped percent (ltp_highest percent none mixed)) mixed r
get_value-WinsOver_example =
    get_value-WinsOver percent (λ x. true) percent-IsOrdered mixed
      (refl, (refl, (refl, (refl, (refl, tt)))))

abbrev frame_calls : List (Call percent)
frame_calls =
    insert_call 130 htp (some 3) (timed (some 2000000000))
    ∷ master_call 500
    ∷ flush_call 0
    ∷ clear_call
    ∷ insert_call 20 (ltp low) none (timed none)
    ∷ flush_call 1000000000
    ∷ []

abbrev fade_from : ℕ → FadeState percent
fade_from start = record {
  priority = htp;
  start_time = start;
  duration = 2000000000;
  start_value = 100;
}

abbrev cleared : ChannelValues percent
cleared = record {
  master = none;
  values = written (ltp low) 20 none none ∷ [];
  previous_values =
      written (ltp low) 20 none none ∷ written htp 100 (some 3) (some 2000000000) ∷ [];
  active_fade = none;
  value = none;
  is_flushed = false;
}

abbrev after_calls : ChannelValues percent
after_calls = record {
  master = some 100;
  values = written (ltp low) 20 none none ∷ [];
  previous_values = written htp 130 (some 3) (some 2000000000) ∷ [];
  active_fade = some (record (fade_from 1000000000) { start_value = 130 });
  value = some 100;
  is_flushed = true;
}

run-IsInRange_example : IsInRange percent after_calls
run-IsInRange_example =
    run-IsInRange percent percent-IsRange frame_calls after_calls
      (unfold run default_values in refl)

abbrev overridden : ChannelValues percent
overridden = record cleared {
  values = written htp 70 none none ∷ written programmer 10 none none ∷ [];
  value = some 70;
  is_flushed = true;
}

-- Two tests of the repository, with percentages.
highest_priority :
    ChannelValues.flush percent 0 (
      insert_value percent 75
        (ltp high)
        none
        (timed none)
        (insert_value percent 125 (ltp low) none (timed none) (default_values percent)))
    ≡ some (record {
      master = none;
      values = written (ltp low) 125 none none ∷ written (ltp high) 75 none none ∷ [];
      previous_values = [];
      active_fade = none;
      value = some 75;
      is_flushed = true;
    })
unfolding ChannelValues.flush insert_value default_values
highest_priority = refl

-- A channel that is written for the first time
first_write :
    Channels.write_priority percent "dimmer" 50 (ltp lowest) []
    ≡ ("dimmer", insert_value percent 50 (ltp lowest) none (timed none) (default_values percent))
      ∷ []
unfolding Channels.write_priority
first_write = refl
