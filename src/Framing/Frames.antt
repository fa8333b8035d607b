-- ===== src/Framing/Frames.antt =====
-- src/conformance/chunk_framing.py: Frame, transported_frames and _count, the frames that a summary
-- records.
pub mod Laws
use conformance.Prelude.{
  ℕ, ◌+◌, ◌-◌, ◌*◌, min, String, Bool, true, false, not, ◌&&◌, ◌||◌, Option, none, some, List, [],
  ◌∷◌, ltb, leb, ◌==◌, if◌then◌else◌, ◌>>=◌, length, is_empty, pos,
}
use Prim.Native.Char.{code}
use conformance.Json.{Value, int, obj, arr, items, get, as_text}

abbrev pub header_bytes : ℕ
header_bytes = 13

-- The code points of a text.
abbrev pub codes : String → List ℕ
codes String.[] = []
codes (String.◌∷◌ letter rest) = code letter ∷ codes rest

-- The white space that bytes.fromhex skips before a byte: space, and tab to carriage return.
abbrev pub is_space : ℕ → Bool
is_space c = c == b' ' || (leb 9 c && leb c 13)

unfoldable pub hex_digit : ℕ → Option ℕ
hex_digit c =
    if leb b'0' c && leb c b'9'
    then some (c - b'0')
    else if leb b'a' c && leb c b'f'
    then some (c - b'a' + 10)
    else if leb b'A' c && leb c b'F'
    then some (c - b'A' + 10)
    else none

unfoldable pub hex_byte : ℕ → ℕ → Option ℕ
unfolding hex_digit
hex_byte c d = do hi ← hex_digit c; lo ← hex_digit d; some (16 * hi + lo)

-- bytes.fromhex, none where it raises ValueError
unfoldable pub unhex : List ℕ → Option (List ℕ)
unfolding hex_byte
unhex [] = some []
unhex (c ∷ []) = if is_space c then some [] else none
unhex (c ∷ d ∷ cs) = elim (is_space c) [
  | true ↦ unhex (d ∷ cs)
  | false ↦ hex_byte c d >>= λ b. unhex cs >>= λ bs. some (b ∷ bs)
]

-- A binary frame as an adapter saw it cross the transport. The audio that it carried is none where
-- the adapter could not tell.
pub record Frame : Type 0 where
  pub byte_count : ℕ
  pub leading : List ℕ
  pub payload_byte_count : Option ℕ

-- The bytes beyond the audio; a frame that was read carries no more audio than bytes.
unfoldable pub frame_header_bytes : Frame → Option ℕ
frame_header_bytes frame = elim frame.payload_byte_count [
  | none ↦ none
  | some payload ↦ some (frame.byte_count - payload)
]

-- _count: an integer that is no bool and not negative
unfoldable pub count : Value → Option ℕ
count (int (pos n)) = some n
count _ = none

abbrev pub exceeds : Option ℕ → ℕ → Bool
exceeds none n = false
exceeds (some payload) n = ltb n payload

unfoldable pub record_frame : Value → Option Frame
unfolding count
record_frame (obj fields) = do
  byte_count ← count (get "byte_count" fields)
  leading_hex ← as_text (get "leading_hex" fields)
  leading ← unhex (codes leading_hex)
  if is_empty leading || not (length leading == min byte_count header_bytes)
      then none
      else let payload_byte_count = count (get "payload_byte_count" fields) in
        if exceeds payload_byte_count byte_count
        then none
        else some (record {
          byte_count = byte_count;
          leading = leading;
          payload_byte_count = payload_byte_count;
        })
record_frame _ = none

unfoldable pub record_frames : List Value → Option (List Frame)
unfolding record_frame
record_frames [] = some []
record_frames (v ∷ vs) = do f ← record_frame v; fs ← record_frames vs; some (f ∷ fs)

unfoldable pub transported_frames : Value → Option (List Frame)
unfolding record_frames
transported_frames (arr vs) = record_frames (items vs)
transported_frames _ = none
