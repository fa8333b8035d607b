-- ===== src/Tests/FramingTests.antt =====
-- The theorems on frames (src/conformance/chunk_framing.py) at concrete summaries.
use conformance.Prelude.{
  pos, sym, ap, ◌∙◌, ◌*◌, ◌^◌, false, true, ℕ, ◌+◌, String, ◌≡◌, refl, ◌↔◌, some, List, [], ◌∷◌,
  arith,
}
use mathlib.Core.Option.{some-injective}
use conformance.Json.{Value, str, arr, obj, Fields, get}
use conformance.Formats.Format.{AudioFormat, normalized_format}
use conformance.Framing.Frames.{Frame, transported_frames, unhex}
use conformance.Framing.Header.{header_violation}
use conformance.Framing.Durations.{
  raised, too_long, bytes_per_second, DurationFinding, lasted, held, chunk_durations_verdict,
}
use conformance.Framing.Durations.Bounds.{
  IsExactRate, bytes_per_second-HasRate, IsJudged, chunk_durations_verdict-held_iff,
}
use conformance.Framing.Verdict.{FramingFinding, passed, chunk_framing_verdict}
use conformance.Framing.Verdict.Passes.{IsSent, chunk_framing_verdict-passed_iff}
use conformance.Tests.Samples.{lower, object, sequence, number, format_value}
use conformance.Framing.Frames.{frame_header_bytes}

-- Two frames, of 20 ms and of 10 ms of PCM, with the 13 bytes before their audio.
abbrev frame_value : ℕ → String → Value
frame_value n hex_text = obj (
    object (
      ("byte_count", number (n + 13))
      ∷ ("leading_hex", str hex_text)
      ∷ ("payload_byte_count", number n)
      ∷ []))

abbrev frame_values : Value
frame_values = arr (
    sequence (
      frame_value 3840 "04000000000000000000000064"
      ∷ frame_value 1920 "040000000000004e20000001f4"
      ∷ []))

abbrev frames : List Frame
frames =
    (record {
      byte_count = 3853;
      leading = 4 ∷ 0 ∷ 0 ∷ 0 ∷ 0 ∷ 0 ∷ 0 ∷ 0 ∷ 0 ∷ 0 ∷ 0 ∷ 0 ∷ 100 ∷ [];
      payload_byte_count = some 3840;
    })
    ∷ (record {
      byte_count = 1933;
      leading = 4 ∷ 0 ∷ 0 ∷ 0 ∷ 0 ∷ 0 ∷ 0 ∷ 78 ∷ 32 ∷ 0 ∷ 0 ∷ 1 ∷ 244 ∷ [];
      payload_byte_count = some 1920;
    })
    ∷ []

frame_values-read : transported_frames frame_values ≡ some frames
unfolding transported_frames unhex
frame_values-read = refl

abbrev server_audio : Fields
server_audio =
    object (("chunked_by", str "implementation") ∷ ("sent_chunk_frames", frame_values) ∷ [])

abbrev server_summary : Fields
server_summary =
    object
      (("status", str "ok") ∷ ("stream", format_value "pcm" 16) ∷ ("audio", obj server_audio) ∷ [])

abbrev client_summary : Fields
client_summary = object (
    ("status", str "ok")
    ∷ ("audio", obj (object (("received_chunk_frames", frame_values) ∷ [])))
    ∷ [])

abbrev pcm_stream : AudioFormat
pcm_stream = record { codec = "pcm"; sample_rate = pos 48000; bit_depth = pos 16; channels = pos 2 }

stream-read : normalized_format ⦃u = lower⦄ (get "stream" server_summary) ≡ some pcm_stream
unfolding normalized_format
stream-read = refl

stream-rate : bytes_per_second pcm_stream ≡ 192000
unfolding bytes_per_second
stream-rate = refl

stream-IsExactRate : IsExactRate (normalized_format ⦃u = lower⦄ (get "stream" server_summary))
stream-IsExactRate f rate read rated =
    let same : f ≡ pcm_stream = some-injective _ _ (sym read ∙ stream-read) in
    let known = ((bytes_per_second-HasRate f rate).1 rated).0 in
    let whole : rate ≡ 192000 = sym known ∙ ap bytes_per_second same ∙ stream-rate in
    omega (arith, whole)

chunk_durations_verdict-held_iff_example :
    ((f : DurationFinding) × (chunk_durations_verdict ⦃u = lower⦄ server_summary server_audio frames
        ≡ held f))
    ↔ IsJudged (normalized_format ⦃u = lower⦄ (get "stream" server_summary)) frames
chunk_durations_verdict-held_iff_example =
    chunk_durations_verdict-held_iff ⦃u = lower⦄ server_summary server_audio frames refl
      stream-IsExactRate

-- min([]) raises.
no_frames-raise : chunk_durations_verdict ⦃u = lower⦄ server_summary server_audio [] ≡ raised
unfolding chunk_durations_verdict normalized_format
no_frames-raise = refl

-- A byte more than 150 ms, at the greatest rate and at one at which the float is rounded to 150000.
abbrev long_chunk : ℕ → Frame
long_chunk n = record { byte_count = n; leading = 4 ∷ []; payload_byte_count = some n }

rounded-too_long : too_long (1000000 * 2 ^ 36) (long_chunk (150000 * 2 ^ 36 + 1)) ≡ false
unfolding too_long
rounded-too_long = refl

exact-too_long : too_long 192000 (long_chunk 28801) ≡ true
unfolding too_long
exact-too_long = refl

abbrev found : FramingFinding
found = record {
  chunks = 2;
  durations = lasted 1920 3840 192000;
  least_send_ahead = 100;
  greatest_send_ahead = 500;
}

chunk_framing_verdict-passed_iff_example :
    (chunk_framing_verdict ⦃u = lower⦄ server_summary client_summary ≡ passed found) ↔ (
      (get "status" server_summary ≡ str "ok")
      × (get "status" client_summary ≡ str "ok")
      × IsSent ⦃u = lower⦄ server_summary
          (get "audio" server_summary)
          (get "audio" client_summary)
          found)
chunk_framing_verdict-passed_iff_example =
    chunk_framing_verdict-passed_iff ⦃u = lower⦄ server_summary client_summary found

-- The case passes, with this finding.
chunk_framing_verdict-passes :
    chunk_framing_verdict ⦃u = lower⦄ server_summary client_summary ≡ passed found
unfolding chunk_framing_verdict transported_frames unhex header_violation frame_header_bytes
    chunk_durations_verdict normalized_format
chunk_framing_verdict-passes = refl
