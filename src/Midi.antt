-- ===== src/Midi.antt =====
-- `Channel` and `MidiMessage` of crates/components/connections/protocols/midi/messages/src/message.rs
-- and the constants of consts.rs beside it. A `u8` is a ℕ, and a decoder that panics gives `none`.
pub mod Channels
pub mod RoundTrip
use Prim.Native.Nat.{bit_and}
use mizer.Prelude.{
  ℕ, ◌+◌, ◌*◌, ◌%◌, ◌^◌, Bool, true, false, Option, none, some, List, [], ◌∷◌, ◌++◌, ◌==◌,
  if◌then◌else◌, ◌>>=◌,
}

pub data Channel : Type 0 where
  ch1 ch2 ch3 ch4 ch5 ch6 ch7 ch8 ch9 ch10 ch11 ch12 ch13 ch14 ch15 ch16 : Channel

-- `channel as u8`
abbrev pub number : Channel → ℕ
number ch1 = 0
number ch2 = 1
number ch3 = 2
number ch4 = 3
number ch5 = 4
number ch6 = 5
number ch7 = 6
number ch8 = 7
number ch9 = 8
number ch10 = 9
number ch11 = 10
number ch12 = 11
number ch13 = 12
number ch14 = 13
number ch15 = 14
number ch16 = 15

-- `PartialEq<u8>`
unfoldable pub eq_u8 : Channel → ℕ → Bool
eq_u8 ch1 other = other == 1
eq_u8 ch2 other = other == 2
eq_u8 ch3 other = other == 3
eq_u8 ch4 other = other == 4
eq_u8 ch5 other = other == 5
eq_u8 ch6 other = other == 6
eq_u8 ch7 other = other == 7
eq_u8 ch8 other = other == 8
eq_u8 ch9 other = other == 9
eq_u8 ch10 other = other == 10
eq_u8 ch11 other = other == 11
eq_u8 ch12 other = other == 12
eq_u8 ch13 other = other == 13
eq_u8 ch14 other = other == 14
eq_u8 ch15 other = other == 15
eq_u8 ch16 other = other == 16

-- `Channel::try_parse`
low_nibble_channel : ℕ → Option Channel
low_nibble_channel n =
    if n == 0
    then some ch1
    else if n == 1
    then some ch2
    else if n == 2
    then some ch3
    else if n == 3
    then some ch4
    else if n == 4
    then some ch5
    else if n == 5
    then some ch6
    else if n == 6
    then some ch7
    else if n == 7
    then some ch8
    else if n == 8
    then some ch9
    else if n == 9
    then some ch10
    else if n == 10
    then some ch11
    else if n == 11
    then some ch12
    else if n == 12
    then some ch13
    else if n == 13
    then some ch14
    else if n == 14
    then some ch15
    else if n == 15
    then some ch16
    else none

unfoldable pub try_parse : ℕ → Option Channel
unfolding low_nibble_channel
try_parse byte = low_nibble_channel (bit_and byte 15)

-- `TryFrom<u8>`
unfoldable pub try_from : ℕ → Option Channel
try_from n =
    if n == 1
    then some ch1
    else if n == 2
    then some ch2
    else if n == 3
    then some ch3
    else if n == 4
    then some ch4
    else if n == 5
    then some ch5
    else if n == 6
    then some ch6
    else if n == 7
    then some ch7
    else if n == 8
    then some ch8
    else if n == 9
    then some ch9
    else if n == 10
    then some ch10
    else if n == 11
    then some ch11
    else if n == 12
    then some ch12
    else if n == 13
    then some ch13
    else if n == 14
    then some ch14
    else if n == 15
    then some ch15
    else if n == 16
    then some ch16
    else none

pub data MidiMessage : Type 0 where
  control_change note_off note_on : Channel → ℕ → ℕ → MidiMessage
  sysex : ℕ × ℕ × ℕ → ℕ → List ℕ → MidiMessage
  unknown : List ℕ → MidiMessage

abbrev pub note_off_status : ℕ
note_off_status = 8

abbrev pub note_on_status : ℕ
note_on_status = 9

abbrev pub control_change_status : ℕ
control_change_status = 11

abbrev pub sysex_start : ℕ
sysex_start = 240

abbrev pub sysex_eox : ℕ
sysex_eox = 247

-- `status << 4u8` is a `u8`.
unfoldable pub matches_status : ℕ → ℕ → Bool
matches_status input status = bit_and input 240 == status * 2 ^ 4 % 2 ^ 8

unfoldable pub status_byte : ℕ → Channel → ℕ
status_byte status channel = bit_and status 15 * 16 + number channel

with_channel : (Channel → ℕ → ℕ → MidiMessage) → ℕ → ℕ → ℕ → Option MidiMessage
unfolding try_parse
with_channel message status d1 d2 = do channel ← try_parse status; some (message channel d1 d2)

-- The pattern `data @ .., SYSEX_EOX`, behind the `front` of the data that is passed.
until_eox : List ℕ → List ℕ → Option (List ℕ)
until_eox front [] = none
until_eox front (b ∷ []) = if b == sysex_eox then some front else none
until_eox front (b ∷ c ∷ bytes) = until_eox (front ++ b ∷ []) (c ∷ bytes)

read_sysex : List ℕ → Option MidiMessage
unfolding until_eox
read_sysex (start ∷ manu1 ∷ manu2 ∷ manu3 ∷ model ∷ bytes) =
    if start == sysex_start
    then (do body ← until_eox [] bytes; some (sysex (manu1, manu2, manu3) model body))
    else none
read_sysex bytes = none

or_unknown : Option MidiMessage → List ℕ → MidiMessage
or_unknown (some message) bytes = message
or_unknown none bytes = unknown bytes

-- `TryFrom<&[u8]>`: the arms in order; no arm gives an error, and `unwrap` may panic.
unfoldable pub decode : List ℕ → Option MidiMessage
unfolding matches_status with_channel read_sysex or_unknown
decode (status ∷ d1 ∷ d2 ∷ []) =
    if matches_status status note_off_status
    then with_channel note_off status d1 d2
    else if matches_status status note_on_status
    then with_channel note_on status d1 d2
    else if matches_status status control_change_status
    then with_channel control_change status d1 d2
    else some (or_unknown (read_sysex (status ∷ d1 ∷ d2 ∷ [])) (status ∷ d1 ∷ d2 ∷ []))
decode bytes = some (or_unknown (read_sysex bytes) bytes)

-- `impl From<MidiMessage> for Vec<u8>`
unfoldable pub encode : MidiMessage → List ℕ
unfolding status_byte
encode (note_on channel note value) = status_byte note_on_status channel ∷ note ∷ value ∷ []
encode (note_off channel note value) = status_byte note_off_status channel ∷ note ∷ value ∷ []
encode (control_change channel note value) =
    status_byte control_change_status channel ∷ note ∷ value ∷ []
encode (sysex (manu1, manu2, manu3) model body) =
    sysex_start ∷ manu1 ∷ manu2 ∷ manu3 ∷ model ∷ (body ++ sysex_eox ∷ [])
encode (unknown bytes) = bytes
