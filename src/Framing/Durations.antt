-- ===== src/Framing/Durations.antt =====
-- src/conformance/chunk_framing.py: _chunk_durations_verdict. A duration in microseconds is
-- payload * 1000000 / byte rate, as a float: the quotient is rounded to the nearest float, and to the
-- even one where two are as near. So it is above 150000 where the quotient is above 150000 + 2 ^ -36,
-- the middle of 150000 and the next float; it is below 15000 where the quotient is below
-- 15000 - 2 ^ -40, the middle of 15000 and the float before it; and the division raises
-- OverflowError from 2 ^ 1024 - 2 ^ 970 on. The tests below are these, multiplied out.
pub mod Bounds
use conformance.Prelude.{
  ℕ, ◌+◌, ◌*◌, ◌/◌, ◌%◌, ◌-◌, ◌^◌, min, max, String, Bool, not, ◌&&◌, Option, none, some, List, [],
  ◌∷◌, map, str_eq, ltb, leb, any, ◌==◌, if◌then◌else◌, length, ℤ, pos, negsuc, pos_part, ◌*ℤ◌,
}
use conformance.Json.{Value, str, Fields, get, Unicode}
use conformance.Formats.Format.{AudioFormat, normalized_format}
use conformance.Framing.Frames.{Frame}

abbrev pub max_chunk_us : ℕ
max_chunk_us = 150000

abbrev pub min_chunk_us : ℕ
min_chunk_us = 15000

abbrev payload_or_zero : Option ℕ → ℕ
payload_or_zero none = 0
payload_or_zero (some n) = n

-- frame.payload_byte_count or 0
abbrev pub payload_of : Frame → ℕ
payload_of f = payload_or_zero f.payload_byte_count

-- The bytes of audio per second, 0 where the depth is no positive multiple of 8 or the product is
-- not positive.
abbrev pub whole_bytes : ℤ → Option ℕ
whole_bytes (pos d) = if ltb 0 d && d % 8 == 0 then some (d / 8) else none
whole_bytes (negsuc d) = none

unfoldable pub bytes_per_second : AudioFormat → ℕ
bytes_per_second f = elim (whole_bytes f.bit_depth) [
  | none ↦ 0
  | some width ↦ pos_part (f.sample_rate *ℤ f.channels *ℤ pos width)
]

-- duration_us > MAX_CHUNK_US, duration_us < MIN_CHUNK_US, and where there is no duration_us
unfoldable pub too_long : ℕ → Frame → Bool
too_long rate f =
    ltb ((max_chunk_us * 68719476736 + 1) * rate) (payload_of f * 1000000 * 68719476736)

unfoldable pub too_short : ℕ → Frame → Bool
too_short rate f =
    ltb (payload_of f * 1000000 * 1099511627776) ((min_chunk_us * 1099511627776 - 1) * rate)

unfoldable pub overflows : ℕ → Frame → Bool
overflows rate f = leb ((2 ^ 1024 - 2 ^ 970) * rate) (payload_of f * 1000000)

pub data DurationViolation : Type 0 where
  unattributed : DurationViolation
  no_stream_format : Value → DurationViolation
  not_pcm : String → DurationViolation
  chunk_too_long : ℕ → ℕ → DurationViolation
  chunk_too_short : ℕ → ℕ → DurationViolation

-- The finding of a case that passes: the shortest and the longest payload, and the byte rate.
pub data DurationFinding : Type 0 where
  not_judged : DurationFinding
  lasted : ℕ → ℕ → ℕ → DurationFinding

pub data DurationVerdict : Type 0 where
  held : DurationFinding → DurationVerdict
  violated : DurationViolation → DurationVerdict
  -- an OverflowError of the division, and the ValueError of min(durations_us)
  raised : DurationVerdict

-- One chunk, with its position and the number of chunks: the last one may be short.
unfoldable pub judge_chunk : ℕ → ℕ → ℕ → Frame → Option DurationViolation
unfolding too_long too_short
judge_chunk rate total index f =
    if too_long rate f
    then some (chunk_too_long index total)
    else if too_short rate f && not (index == total)
    then some (chunk_too_short index total)
    else none

-- The loop over the chunks, from the chunk at `index`.
unfoldable pub judge_chunks : ℕ → ℕ → ℕ → List Frame → Option DurationViolation
unfolding judge_chunk
judge_chunks rate total index [] = none
judge_chunks rate total index (f ∷ fs) = elim (judge_chunk rate total index f) [
  | some violation ↦ some violation
  | none ↦ judge_chunks rate total (index + 1) fs
]

abbrev pub least : ℕ → List ℕ → ℕ
least n [] = n
least n (m ∷ ms) = least (min n m) ms

abbrev pub greatest : ℕ → List ℕ → ℕ
greatest n [] = n
greatest n (m ∷ ms) = greatest (max n m) ms

-- min(durations_us) and max(durations_us), which raise where there is no chunk.
unfoldable pub finding : ℕ → List Frame → DurationVerdict
finding rate [] = raised
finding rate (f ∷ fs) = held (
    lasted (least (payload_of f) (map payload_of fs)) (greatest (payload_of f) (map payload_of fs))
      rate)

unfoldable pub judge_rate : ℕ → List Frame → DurationVerdict
unfolding overflows judge_chunks finding
judge_rate rate sent =
    if any (overflows rate) sent then raised else elim (judge_chunks rate (length sent) 1 sent) [
      | some violation ↦ violated violation
      | none ↦ finding rate sent
    ]

unfoldable pub judge_stream : Value → Option AudioFormat → List Frame → DurationVerdict
unfolding bytes_per_second judge_rate
judge_stream raw none sent = violated (no_stream_format raw)
judge_stream raw (some stream) sent =
    if bytes_per_second stream == 0
    then violated (no_stream_format raw)
    else if not (str_eq stream.codec "pcm")
    then violated (not_pcm stream.codec)
    else judge_rate (bytes_per_second stream) sent

unfoldable pub judge_cut : Value → Value → Option AudioFormat → List Frame → DurationVerdict
unfolding judge_stream
judge_cut (str s) raw stream sent =
    if str_eq s "adapter"
    then held not_judged
    else if str_eq s "implementation"
    then judge_stream raw stream sent
    else violated unattributed
judge_cut _ raw stream sent = violated unattributed

module _ ⦃u : Unicode⦄ where
  unfoldable pub chunk_durations_verdict : Fields → Fields → List Frame → DurationVerdict
  unfolding judge_cut
  chunk_durations_verdict server_summary server_audio sent =
      judge_cut (get "chunked_by" server_audio) (get "stream" server_summary)
        (normalized_format (get "stream" server_summary)) sent
