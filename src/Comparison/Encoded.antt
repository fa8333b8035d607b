-- ===== src/Comparison/Encoded.antt =====
-- src/conformance/runner.py: _compare_encoded_audio_summaries and _decoded_audio_verdict.
pub mod Passes
pub mod Headers
pub mod Delivered
pub mod Decoded
use conformance.Prelude.{
  String, Bool, true, false, not, ◌&&◌, ◌||◌, Option, none, some, List, [], ◌∷◌, map, str_eq,
  if◌then◌else◌, filter, or_else, pos, ltb_ℤ,
}
use mathlib.Core.Option
use conformance.Json.{Value, null, str, obj, Fields, no_field, get, as_object, as_text}
use conformance.Json.Python.{Python, same_value, is_truthy, integer_or_zero}
use conformance.Matrix.Model.{server, client}
use conformance.Comparison.Outcome.{
  ModeFailure, other_codec, no_encoded_chunks, no_encoded_hash, encoded_mismatch, header_mismatch,
  no_source_hash, decoded_mismatch, ModeNote, encoded_matches, Unjudged, lossy, no_decoded_audio,
  converted, Outcome, passed, ◌>>=◌, ◌>>◌, read, found, guard, blame, status_guard, section,
  filled_text,
}
use conformance.Comparison.Audio.{sample_count_detail}

abbrev pub same_text : Option String → String → Bool
same_text none codec = false
same_text (some s) codec = str_eq s codec

-- codec is not None and codec != expected_codec, negated
abbrev pub agrees : Option String → String → Bool
agrees none codec = true
agrees (some s) codec = str_eq s codec

-- `stream or {}`, where the code goes on to read a key of it.
unfoldable pub object_or_empty : Value → Option Fields
object_or_empty (obj fields) = some fields
object_or_empty v = if is_truthy v then none else some no_field

-- The header hashes, where both are there and not empty, and differ.
unfoldable pub header_difference : Option String → Option String → Option (String × String)
header_difference (some sent) (some received) =
    if str_eq sent "" || str_eq received "" || str_eq sent received
    then none
    else some (sent, received)
header_difference _ _ = none

abbrev pub is_filled : Option String → Bool
is_filled none = false
is_filled (some s) = not (str_eq s "")

module _ ⦃py : Python⦄ where
  abbrev pub codec_text : Value → Option String
  codec_text null = none
  codec_text (str s) = some s
  codec_text v = some (py.shown v)

  abbrev pub codec_at : Option Fields → Option String
  codec_at none = none
  codec_at (some stream) = codec_text (get "codec" stream)

  unfoldable pub stream_codec : Fields → Option String
  stream_codec summary = codec_at (as_object (get "stream" summary))

  abbrev pub hashed : Option String → Option String
  hashed none = none
  hashed (some header) = py.header_sha256 header

  abbrev pub header_hash_at : Option Fields → Option String
  header_hash_at none = none
  header_hash_at (some stream) =
      or_else (filled_text (get "codec_header_sha256" stream))
        (hashed (filled_text (get "codec_header" stream)))

  unfoldable pub stream_codec_header_sha256 : Fields → Option String
  stream_codec_header_sha256 summary = header_hash_at (as_object (get "stream" summary))

  -- The hash that the server reports, also an empty one, or else that of its stream's header.
  unfoldable pub server_header_hash : Fields → Fields → Option String
  unfolding stream_codec_header_sha256
  server_header_hash server_summary server_audio =
      or_else (as_text (get "sent_codec_header_sha256" server_audio))
        (stream_codec_header_sha256 server_summary)

  -- The hash of the audio that the client decoded, where it decoded any.
  unfoldable pub decoded_hash : Fields → Option String
  decoded_hash client_audio =
      if same_value (get "received_sample_count" client_audio) (Value.int (pos 0))
      then none
      else filled_text (get "received_pcm_sha256" client_audio)

  -- The fields of the source clip's format that the stream does not have.
  unfoldable pub conversions : Fields → Fields → List (String × Value × Value)
  conversions server_audio stream =
      map (λ k. (k, get k server_audio, get k stream))
        (filter (λ k. not (same_value (get k stream) (get k server_audio)))
          ("sample_rate" ∷ "channels" ∷ []))

  unfoldable pub judge_decoded :
      String
      → Fields
      → Fields
      → String
      → String
      → List (String × Value × Value)
      → Outcome ModeFailure (Option Unjudged)
  unfolding sample_count_detail
  judge_decoded expected_codec server_audio client_audio source_hash received_hash [] =
      guard (str_eq received_hash source_hash) (
        decoded_mismatch expected_codec (sample_count_detail server_audio client_audio) source_hash
          received_hash)
      >> passed none
  judge_decoded expected_codec server_audio client_audio source_hash received_hash (c ∷ cs) =
      passed (some (converted (c ∷ cs)))

  unfoldable pub judge_received :
      String → Fields → Fields → Fields → Option String → Outcome ModeFailure (Option Unjudged)
  unfolding judge_decoded conversions object_or_empty
  judge_received expected_codec server_summary server_audio client_audio none =
      passed (some no_decoded_audio)
  judge_received expected_codec server_summary server_audio client_audio (some received_hash) = do
    source_hash ← found no_source_hash (filled_text (get "source_pcm_sha256" server_audio))
    stream ← read (object_or_empty (get "stream" server_summary))
    judge_decoded expected_codec server_audio client_audio source_hash received_hash
        (conversions server_audio stream)

  -- What passes is why the rule could not be applied, or none where it held.
  unfoldable pub decoded_audio_verdict :
      Fields → Fields → Fields → String → Outcome ModeFailure (Option Unjudged)
  unfolding judge_received decoded_hash
  decoded_audio_verdict server_summary server_audio client_audio expected_codec =
      if str_eq expected_codec "flac"
      then judge_received expected_codec server_summary server_audio client_audio
          (decoded_hash client_audio)
      else passed (some (lossy expected_codec))

  unfoldable pub judge_transport :
      Fields → Fields → Fields → Fields → String → Outcome ModeFailure ModeNote
  unfolding decoded_audio_verdict header_difference server_header_hash stream_codec_header_sha256
  judge_transport server_summary client_summary server_audio client_audio expected_codec = do
    sent_count ← read (integer_or_zero (get "sent_audio_chunk_count" server_audio))
    received_count ← read (integer_or_zero (get "audio_chunk_count" client_audio))
    guard (ltb_ℤ (pos 0) sent_count) (no_encoded_chunks server expected_codec)
    guard (ltb_ℤ (pos 0) received_count) (no_encoded_chunks client expected_codec)
    sent_hash ←
        found (no_encoded_hash server expected_codec)
          (filled_text (get "sent_encoded_sha256" server_audio))
    received_hash ←
        found (no_encoded_hash client expected_codec)
          (filled_text (get "received_encoded_sha256" client_audio))
    guard (str_eq sent_hash received_hash) (encoded_mismatch expected_codec sent_hash received_hash)
    blame (λ hashes. header_mismatch expected_codec hashes.0 hashes.1)
        (header_difference (server_header_hash server_summary server_audio)
          (stream_codec_header_sha256 client_summary))
    unjudged ← decoded_audio_verdict server_summary server_audio client_audio expected_codec
    passed (
        encoded_matches expected_codec
          (is_filled (server_header_hash server_summary server_audio)
            && is_filled (stream_codec_header_sha256 client_summary))
          unjudged)

  unfoldable pub compare_encoded_audio_summaries :
      Fields → Fields → String → Outcome ModeFailure ModeNote
  unfolding judge_transport stream_codec section
  compare_encoded_audio_summaries server_summary client_summary expected_codec = do
    status_guard server server_summary
    status_guard client client_summary
    guard (same_text (stream_codec server_summary) expected_codec)
        (other_codec server expected_codec (stream_codec server_summary))
    guard (agrees (stream_codec client_summary) expected_codec)
        (other_codec client expected_codec (stream_codec client_summary))
    server_audio ← read (section "audio" server_summary)
    client_audio ← read (section "audio" client_summary)
    judge_transport server_summary client_summary server_audio client_audio expected_codec
