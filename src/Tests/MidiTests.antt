-- ===== src/Tests/MidiTests.antt =====
-- The messages of MIDI at concrete inputs, some of which are tests of the repository.
use mizer.Prelude.{ℕ, ◌≡◌, refl, arith, some, List, [], ◌∷◌}
use mizer.Midi.{ch2, MidiMessage, note_off, control_change, sysex, unknown, decode, encode}
use mizer.Midi.RoundTrip.{decode-encode, encode-decode}

abbrev bytes : List ℕ
bytes = 240 ∷ 0 ∷ 32 ∷ 41 ∷ 2 ∷ 10 ∷ 119 ∷ 2 ∷ 247 ∷ []

abbrev message : MidiMessage
message = sysex (0, 32, 41) 2 (10 ∷ 119 ∷ 2 ∷ [])

deserialize_sysex : decode bytes ≡ some message
unfolding decode
deserialize_sysex = refl

deserialize_cc_ch2_127_0 : decode (177 ∷ 127 ∷ 0 ∷ []) ≡ some (control_change ch2 127 0)
unfolding decode
deserialize_cc_ch2_127_0 = refl

serialize_note_off_ch2_127_127 : encode (note_off ch2 127 127) ≡ 129 ∷ 127 ∷ 127 ∷ []
unfolding encode
serialize_note_off_ch2_127_127 = refl

unterminated : decode (240 ∷ 1 ∷ 2 ∷ 3 ∷ 4 ∷ []) ≡ some (unknown (240 ∷ 1 ∷ 2 ∷ 3 ∷ 4 ∷ []))
unfolding decode
unterminated = refl

decode-encode_example : decode (encode message) ≡ some message
decode-encode_example = decode-encode message refl

encode-decode_example : (m : MidiMessage) × (decode bytes ≡ some m) × (encode m ≡ bytes)
encode-decode_example = encode-decode bytes (omega arith)
