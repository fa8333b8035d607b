-- ===== src/Comparison/Audio.antt =====
-- src/conformance/runner.py: _compare_audio_summaries and _sample_count_detail.
pub mod Passes
use conformance.Prelude.{◌*◌, Option, some, if◌then◌else◌, ℤ, ltb_ℤ, eqb_ℤ, ◌*ℤ◌}
use conformance.Json.{Value, int, obj, Fields, get, find, as_object, as_integer}
use conformance.Json.Python.{Python, same_value, is_truthy}
use conformance.Matrix.Model.{server, client}
use conformance.Comparison.Outcome.{
  SampleDetail, unreported, same_count, fewer, more, ModeFailure, no_audio, no_chunks, pcm_mismatch,
  ModeNote, pcm_matches, Outcome, passed, ◌>>=◌, ◌>>◌, read, found, guard, status_guard,
}

-- frame_count * channels against the count that the client received
abbrev pub relate : ℤ → ℤ → SampleDetail
relate sent received =
    if eqb_ℤ received sent
    then same_count sent
    else if ltb_ℤ received sent
    then fewer received sent
    else more received sent

abbrev pub relate_counts : Option ℤ → Option ℤ → Option ℤ → SampleDetail
relate_counts (some frames) (some channels) (some received) = relate (frames *ℤ channels) received
relate_counts _ _ _ = unreported

unfoldable pub sample_count_detail : Fields → Fields → SampleDetail
sample_count_detail server_audio client_audio =
    relate_counts (as_integer (get "frame_count" server_audio))
      (as_integer (get "channels" server_audio))
      (as_integer (get "received_sample_count" client_audio))

module _ ⦃py : Python⦄ where
  unfoldable pub compare_audio_summaries : Fields → Fields → Outcome ModeFailure ModeNote
  unfolding sample_count_detail
  compare_audio_summaries server_summary client_summary = do
    status_guard server server_summary
    status_guard client client_summary
    server_audio ← found (no_audio server) (as_object (get "audio" server_summary))
    client_audio ← found (no_audio client) (as_object (get "audio" client_summary))
    source_hash ← read (find "source_pcm_sha256" server_audio)
    received_hash ← read (find "received_pcm_sha256" client_audio)
    chunk_count ← read (find "audio_chunk_count" client_audio)
    guard (is_truthy chunk_count) no_chunks
    guard (same_value source_hash received_hash)
        (pcm_mismatch (sample_count_detail server_audio client_audio) source_hash received_hash)
    passed pcm_matches
