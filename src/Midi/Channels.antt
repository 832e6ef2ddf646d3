-- ===== src/Midi/Channels.antt =====
-- The channels and their numbers.
use Prim.Native.Nat.{bit_and}
use mizer.Prelude.{ℕ, ◌+◌, ◌%◌, ◌<◌, ◌≡◌, ◌↔◌, refl, arith, true, some, ◌==◌, ==_iff}
use mizer.Prelude.Bytes.{all_below, test_of_all_below}
use mizer.Midi.{Channel, ch1, number, eq_u8, try_parse, try_from}

low_nibble_table : all_below 256 (λ b. bit_and b 15 == b % 16) ≡ true
unfolding all_below
low_nibble_table = refl

pub low_nibble : (b : ℕ) → b < 256 → bit_and b 15 ≡ b % 16
low_nibble b h = (==_iff _ (b % 16)).0 (test_of_all_below 256 _ b low_nibble_table h)

pub try_parse-some : (b : ℕ) (c : Channel) → b < 256 → b % 16 ≡ number c → try_parse b ≡ some c
unfolding try_parse
try_parse-some b ch1 h e = ground (arith, low_nibble b h)
try_parse-some b c h e = ground (arith, low_nibble b h)

number_of_try_parse : (b : ℕ) (c : Channel) → b < 256 → try_parse b ≡ some c → b % 16 ≡ number c
unfolding try_parse
number_of_try_parse b ch1 h e = ground (arith, low_nibble b h)
number_of_try_parse b c h e = ground (arith, low_nibble b h)

-- The channel numbers that users see count from 1.
try_from-some : (n : ℕ) (c : Channel) → n ≡ number c + 1 → try_from n ≡ some c
unfolding try_from
try_from-some n ch1 e = ground arith
try_from-some n c e = ground arith

number_of_try_from : (n : ℕ) (c : Channel) → try_from n ≡ some c → n ≡ number c + 1
unfolding try_from
number_of_try_from n ch1 e = ground arith
number_of_try_from n c e = ground arith

eq_u8_iff : (n : ℕ) (c : Channel) → (eq_u8 c n ≡ true) ↔ (n ≡ number c + 1)
unfolding eq_u8
eq_u8_iff n ch1 = ground arith
eq_u8_iff n c = ground arith

pub try_parse_iff : (b : ℕ) (c : Channel) → b < 256 → (try_parse b ≡ some c) ↔ (b % 16 ≡ number c)
try_parse_iff b c h = (number_of_try_parse b c h, try_parse-some b c h)

-- A number is converted to a channel exactly if the channel is equal to it; both count the channels
-- from one, as the protocol, which counts from zero, does not.
pub try_from_iff :
    (n : ℕ) (c : Channel)
    → ((try_from n ≡ some c) ↔ (eq_u8 c n ≡ true)) × ((try_from n ≡ some c) ↔ (n ≡ number c + 1))
try_from_iff n c = (
  (λ e. (eq_u8_iff n c).1 (number_of_try_from n c e), λ e. try_from-some n c ((eq_u8_iff n c).0 e)),
  (number_of_try_from n c, try_from-some n c),
)
