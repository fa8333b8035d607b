-- ===== src/Comparison/Dispatch.antt =====
-- src/conformance/runner.py: _dispatch_comparison, by the verification mode of the scenario.
use conformance.Prelude.{ℕ, ◌&&◌, Option, none, some, if◌then◌else◌, length}
use mathlib.Core.Option
use conformance.Json.{Fields, get, is_text, Unicode}
use conformance.Json.Python.{Python}
use conformance.Matrix.Model.{
  VerificationMode, audio_pcm, audio_encoded_bytes, metadata_mode, controller_mode, artwork_mode,
  format_preference, protocol, audio_chunk_framing, server, client, ScenarioSpec,
}
use conformance.Protocol.Evidence.{protocol_evidence_failure}
use conformance.Formats.Verdicts.{format_priority_violation, stream_bit_depth_violation}
use conformance.Framing.Verdict.{FramingVerdict, chunk_framing_verdict}
use conformance.Comparison.Outcome.{
  ModeFailure, bad_evidence, bad_priority, bad_depth, bad_framing, ModeNote, assertions_passed,
  chunks_framed, Outcome, failed, passed, ◌>>=◌, ◌>>◌, blame, status_guard,
}
use conformance.Comparison.Audio.{compare_audio_summaries}
use conformance.Comparison.Encoded.{compare_encoded_audio_summaries}
use conformance.Comparison.States.{compare_metadata_summaries, compare_artwork_summaries}
use conformance.Comparison.Controller.{compare_controller_summaries}
use conformance.Comparison.Preference.{compare_format_preference_summaries}

abbrev pub framing_outcome : FramingVerdict → Outcome ModeFailure ModeNote
framing_outcome (FramingVerdict.passed finding) = passed (chunks_framed finding)
framing_outcome (FramingVerdict.failed reason) = failed (bad_framing reason)
framing_outcome FramingVerdict.raised = Outcome.raised

-- The verification mode "protocol".
unfoldable pub compare_protocol_summaries :
    ScenarioSpec → Fields → Fields → Outcome ModeFailure ModeNote
compare_protocol_summaries scenario server_summary client_summary = do
  status_guard server server_summary
  status_guard client client_summary
  blame bad_evidence
      (protocol_evidence_failure server_summary client_summary scenario.protocol_assertions)
  passed (assertions_passed (length scenario.protocol_assertions))

module _ ⦃u : Unicode⦄ where
  -- The bit depth is judged where the scenario names one.
  unfoldable pub depth_violation : Option ℕ → Fields → Fields → Option ModeFailure
  depth_violation none server_summary client_summary = none
  depth_violation (some bit_depth) server_summary client_summary =
      Option.map bad_depth (stream_bit_depth_violation server_summary client_summary bit_depth)

  -- The priority is judged where the scenario verifies it and the server's status is ok.
  unfoldable pub priority_violation : ScenarioSpec → Fields → Option ModeFailure
  priority_violation scenario server_summary =
      if scenario.verifies_format_priority && is_text "ok" (get "status" server_summary)
      then Option.map bad_priority
          (format_priority_violation server_summary scenario.preferred_codec)
      else none

module _ ⦃u : Unicode⦄ ⦃py : Python⦄ where
  unfoldable pub compare_mode :
      VerificationMode → ScenarioSpec → Fields → Fields → Outcome ModeFailure ModeNote
  unfolding compare_protocol_summaries depth_violation priority_violation
  compare_mode protocol scenario server_summary client_summary =
      compare_protocol_summaries scenario server_summary client_summary
  compare_mode audio_pcm scenario server_summary client_summary = do
    note ← compare_audio_summaries server_summary client_summary
    blame (λ reason. reason)
        (depth_violation scenario.verifies_stream_bit_depth server_summary client_summary)
    passed note
  compare_mode audio_encoded_bytes scenario server_summary client_summary = do
    blame (λ reason. reason) (priority_violation scenario server_summary)
    compare_encoded_audio_summaries server_summary client_summary scenario.preferred_codec
  compare_mode metadata_mode scenario server_summary client_summary =
      compare_metadata_summaries server_summary client_summary
  compare_mode controller_mode scenario server_summary client_summary =
      compare_controller_summaries server_summary client_summary
  compare_mode artwork_mode scenario server_summary client_summary =
      compare_artwork_summaries server_summary client_summary
  compare_mode format_preference scenario server_summary client_summary =
      compare_format_preference_summaries scenario server_summary client_summary
  compare_mode audio_chunk_framing scenario server_summary client_summary =
      framing_outcome (chunk_framing_verdict server_summary client_summary)

  unfoldable pub dispatch_comparison : ScenarioSpec → Fields → Fields → Outcome ModeFailure ModeNote
  unfolding compare_mode
  dispatch_comparison scenario server_summary client_summary =
      compare_mode scenario.verification_mode scenario server_summary client_summary
