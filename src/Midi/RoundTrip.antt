-- ===== src/Midi/RoundTrip.antt =====
-- Decoding the messages against encoding them.
use Prim.Native.Nat.{bit_and}
use mathlib.Core.List.{append_assoc, append-nil}
use mizer.Prelude.{
  ℕ, ◌+◌, ◌*◌, ◌/◌, ◌<◌, ◌≡◌, refl, ◌∙◌, ap, inl, inr, arith, Bool, true, false, Option, none, some,
  List, [], ◌∷◌, ◌++◌, ◌==◌, ==_iff, if◌then◌else◌, Option-cases,
}
use mizer.Prelude.Bytes.{all_below, test_of_all_below}
use mizer.Midi.{
  Channel, ch1, number, try_parse, MidiMessage, control_change, note_off, note_on, sysex, unknown,
  note_off_status, note_on_status, control_change_status, sysex_eox, matches_status, status_byte,
  with_channel, until_eox, read_sysex, or_unknown, decode, encode,
}
use mizer.Midi.Channels.{low_nibble, try_parse_iff}

high_nibble_table : all_below 256 (λ b. bit_and b 240 == b / 16 * 16) ≡ true
unfolding all_below
high_nibble_table = refl

high_nibble : (b : ℕ) → b < 256 → bit_and b 240 ≡ b / 16 * 16
high_nibble b h = (==_iff _ (b / 16 * 16)).0 (test_of_all_below 256 _ b high_nibble_table h)

number-lt : (c : Channel) → number c < 16
number-lt ch1 = omega arith
number-lt c = omega arith

status_byte_lem :
    (status : ℕ) (c : Channel) → status < 16 → status_byte status c ≡ status * 16 + number c
unfolding status_byte
status_byte_lem status c h = omega (arith, low_nibble status)

matches_status_lem :
    (b status : ℕ) → b < 256 → status < 16 → matches_status b status ≡ (b / 16 == status)
unfolding matches_status
matches_status_lem b status h k = ground (arith, high_nibble b h)

until_eox_lem :
    (front body : List ℕ) → until_eox front (body ++ sysex_eox ∷ []) ≡ some (front ++ body)
unfolding until_eox
until_eox_lem front [] = simp append-nil
until_eox_lem front (b ∷ []) = refl
until_eox_lem front (b ∷ c ∷ body) =
    until_eox_lem (front ++ b ∷ []) (c ∷ body) ∙ ap some (append_assoc front (b ∷ []) (c ∷ body))

eox_of_until_eox :
    (front bytes result : List ℕ)
    → until_eox front bytes ≡ some result
    → (body : List ℕ) × (result ≡ front ++ body) × (bytes ≡ body ++ sysex_eox ∷ [])
unfolding until_eox
eox_of_until_eox front [] result e = cc
eox_of_until_eox front (b ∷ []) result e = ([], ground (arith, append-nil front), ground arith)
eox_of_until_eox front (b ∷ c ∷ bytes) result e =
    let (body, er, eb) = eox_of_until_eox (front ++ b ∷ []) (c ∷ bytes) result e in
    (b ∷ body, er ∙ append_assoc front (b ∷ []) body, ap (b ∷◌) eb)

-- An unknown message carries bytes that it does not describe.
-- Every message but an unknown one is decoded from what it is encoded to.
abbrev pub is_known : MidiMessage → Bool
is_known (unknown _) = false
is_known _ = true

decode-note_on : (c : Channel) (n v : ℕ) → decode (encode (note_on c n v)) ≡ some (note_on c n v)
unfolding decode encode
decode-note_on ch1 n v = refl
decode-note_on c n v = refl

decode-note_off : (c : Channel) (n v : ℕ) → decode (encode (note_off c n v)) ≡ some (note_off c n v)
unfolding decode encode
decode-note_off ch1 n v = refl
decode-note_off c n v = refl

decode-control_change :
    (c : Channel) (n v : ℕ) → decode (encode (control_change c n v)) ≡ some (control_change c n v)
unfolding decode encode
decode-control_change ch1 n v = refl
decode-control_change c n v = refl

-- Every message but an unknown one is decoded from the bytes that it is encoded to.
pub decode-encode : (m : MidiMessage) → is_known m ≡ true → decode (encode m) ≡ some m
unfolding decode encode
decode-encode (note_on c n v) h = decode-note_on c n v
decode-encode (note_off c n v) h = decode-note_off c n v
decode-encode (control_change c n v) h = decode-control_change c n v
decode-encode (sysex (m1, m2, m3) model []) h = refl
decode-encode (sysex (m1, m2, m3) model (b ∷ body)) h = rw (until_eox_lem [] (b ∷ body)) refl
decode-encode (unknown bytes) h = cc

encode-read_sysex :
    (bytes : List ℕ) (m : MidiMessage) → read_sysex bytes ≡ some m → encode m ≡ bytes
unfolding read_sysex encode
encode-read_sysex (b ∷ m1 ∷ m2 ∷ m3 ∷ model ∷ rest) m e = elim (Option-cases (until_eox [] rest)) [
  | inl missing ↦ absurd (ground (arith, missing))
  | inr (body, found) ↦ ground (arith, found, eox_of_until_eox [] rest body found)
]
encode-read_sysex bytes m e = cc

encode-or_unknown :
    (read : Option MidiMessage) (bytes : List ℕ)
    → ((m : MidiMessage) → read ≡ some m → encode m ≡ bytes)
    → encode (or_unknown read bytes) ≡ bytes
unfolding or_unknown encode
encode-or_unknown none bytes h = refl
encode-or_unknown (some m) bytes h = h m refl

-- What is promised of a decoder's result: it has one, and that is encoded to what was decoded.
abbrev IsLossless : Option MidiMessage → List ℕ → Type 0
IsLossless read bytes = (m : MidiMessage) × (read ≡ some m) × (encode m ≡ bytes)

abbrev pub AreBytes : List ℕ → Type 0
AreBytes [] = Unit
AreBytes (b ∷ bytes) = (b < 256) × AreBytes bytes

try_parse-total : (b : ℕ) → b < 256 → (c : Channel) × (try_parse b ≡ some c)
unfolding try_parse
try_parse-total b h = elim (Option-cases (try_parse b)) [
  | inl e ↦ absurd (ground (arith, low_nibble b h))
  | inr found ↦ found
]

IsLossless-if :
    (test : Bool) {x y : Option MidiMessage} {bytes : List ℕ}
    → (test ≡ true → IsLossless x bytes)
    → IsLossless y bytes
    → IsLossless (if test then x else y) bytes
IsLossless-if true h k = h refl
IsLossless-if false h k = k

module _ (b d1 d2 : ℕ) (small : b < 256) where
  encode-with_channel :
      (message : Channel → ℕ → ℕ → MidiMessage) (status : ℕ)
      → ((c : Channel) → encode (message c d1 d2) ≡ status_byte status c ∷ d1 ∷ d2 ∷ [])
      → status < 16
      → matches_status b status ≡ true
      → IsLossless (with_channel message b d1 d2) (b ∷ d1 ∷ d2 ∷ [])
  unfolding with_channel
  encode-with_channel message status h k e =
      let (c, found) = try_parse-total b small in
      let same : status_byte status c ≡ b = ground (
        arith,
        status_byte_lem status c k,
        matches_status_lem b status small k,
        (try_parse_iff b c small).0 found,
      ) in
      (message c d1 d2, rw found refl, rw same at (h c))

  IsLossless-three : IsLossless (decode (b ∷ d1 ∷ d2 ∷ [])) (b ∷ d1 ∷ d2 ∷ [])
  unfolding decode encode
  IsLossless-three =
      IsLossless-if (matches_status b note_off_status)
        (encode-with_channel note_off note_off_status (λ c. refl) (omega arith))
        (IsLossless-if (matches_status b note_on_status)
          (encode-with_channel note_on note_on_status (λ c. refl) (omega arith))
          (IsLossless-if (matches_status b control_change_status)
            (encode-with_channel control_change control_change_status (λ c. refl) (omega arith))
            (unknown (b ∷ d1 ∷ d2 ∷ []), refl, refl)))

-- The decoder never panics: whatever bytes it is given it returns a message, and that message is
-- encoded to the same bytes.
pub encode-decode :
    (bytes : List ℕ)
    → AreBytes bytes
    → (m : MidiMessage) × (decode bytes ≡ some m) × (encode m ≡ bytes)
unfolding decode
encode-decode (b ∷ d1 ∷ d2 ∷ []) h = IsLossless-three b d1 d2 h.0
encode-decode bytes h = (
  or_unknown (read_sysex bytes) bytes,
  refl,
  encode-or_unknown (read_sysex bytes) bytes (encode-read_sysex bytes),
)
