-- ===== src/Comparison/States.antt =====
-- src/conformance/runner.py: _compare_metadata_summaries and _compare_artwork_summaries.
pub mod Passes
use conformance.Prelude.{◌&&◌, pos, ltb_ℤ}
use conformance.Json.{Value, Fields, get}
use conformance.Json.Python.{Python, same_value, integer_or_zero}
use conformance.Matrix.Model.{server, client}
use conformance.Comparison.FirstState.{first_metadata_state_verdict}
use conformance.Comparison.Outcome.{
  ModeFailure, no_updates, metadata_mismatch, bad_first_state, no_artwork, artwork_mismatch,
  ModeNote, metadata_matches, artwork_matches, Outcome, passed, ◌>>=◌, ◌>>◌, read, guard, blame,
  status_guard, section,
}

module _ ⦃py : Python⦄ where
  unfoldable pub compare_metadata_summaries : Fields → Fields → Outcome ModeFailure ModeNote
  unfolding section
  compare_metadata_summaries server_summary client_summary = do
    status_guard server server_summary
    status_guard client client_summary
    server_metadata ← read (section "metadata" server_summary)
    client_metadata ← read (section "metadata" client_summary)
    update_count ← read (integer_or_zero (get "update_count" client_metadata))
    guard (ltb_ℤ (pos 0) update_count) no_updates
    guard (same_value (get "expected" server_metadata) (get "received" client_metadata))
        (metadata_mismatch (get "expected" server_metadata) (get "received" client_metadata))
    verdict ← read (first_metadata_state_verdict server_summary client_summary)
    blame bad_first_state verdict.1
    passed (metadata_matches verdict.0)

  unfoldable pub compare_artwork_summaries : Fields → Fields → Outcome ModeFailure ModeNote
  unfolding section
  compare_artwork_summaries server_summary client_summary = do
    status_guard server server_summary
    status_guard client client_summary
    received ← read (section "artwork" client_summary)
    received_count ← read (integer_or_zero (get "received_count" received))
    guard (ltb_ℤ (pos 0) received_count) no_artwork
    expected ← read (section "artwork" server_summary)
    guard
        (same_value (get "channel" expected) (get "channel" received)
          && same_value (get "encoded_sha256" expected) (get "received_sha256" received))
        (artwork_mismatch (get "encoded_sha256" expected) (get "received_sha256" received))
    passed artwork_matches
