-- ===== src/Comparison/Preference.antt =====
-- src/conformance/runner.py: _compare_format_preference_summaries, with _format_matches and
-- _formats_equal.
pub mod Passes
pub mod Matches
pub mod Preferred
use conformance.Prelude.{
  ◌-◌, String, Bool, true, false, not, Option, none, some, List, [], ◌∷◌, str_eq, if◌then◌else◌,
  all, ℤ, pos, ltb_ℤ,
}
use conformance.Json.{Value, null, str, obj, Fields, no_field, field, get, as_object}
use conformance.Json.Python.{Python, same_value, is_truthy, integer_or_zero}
use conformance.Matrix.Model.{server, client, ScenarioSpec}
use conformance.Comparison.Outcome.{
  ModeFailure, preference_unrecorded, no_preference, off_target, no_renegotiation, no_request,
  other_preference, unobserved_change, kept_format, off_request, other_stream, unchanged, ModeNote,
  renegotiated, Outcome, failed, passed, ◌>>=◌, ◌>>◌, read, found, guard, status_guard,
}

abbrev pub audio_format_fields : List String
audio_format_fields = "codec" ∷ "sample_rate" ∷ "bit_depth" ∷ "channels" ∷ []

-- FORMAT_PREFERENCE_TARGETS[scenario_id], none where the key is missing.
abbrev pub format_preference_target : String → Option Fields
format_preference_target scenario_id =
    if str_eq scenario_id "client-initiated-state-format-pcm"
    then some (field "codec" (str "pcm") (field "bit_depth" (Value.int (pos 16)) no_field))
    else if str_eq scenario_id "client-initiated-state-format-flac"
    then some (field "codec" (str "flac") no_field)
    else none

-- _format_label(initial) reads the keys of a value that is true.
unfoldable pub labelled : Value → Option Value
labelled (obj fields) = some (obj fields)
labelled v = if is_truthy v then none else some v

module _ ⦃py : Python⦄ where
  -- One round of _format_matches: None constrains nothing.
  abbrev pub field_matches : Value → Value → Bool
  field_matches null actual = true
  field_matches wanted actual = same_value actual wanted

  unfoldable pub format_matches : Fields → Fields → Bool
  format_matches actual expected =
      all (λ k. field_matches (get k expected) (get k actual)) audio_format_fields

  unfoldable pub formats_equal : Fields → Fields → Bool
  formats_equal left right = all (λ k. same_value (get k left) (get k right)) audio_format_fields

  -- server_applied, and the label of what the server sent
  unfoldable pub has_applied : Option Fields → Fields → Bool
  unfolding format_matches
  has_applied none requested = false
  has_applied (some sent) requested = format_matches sent requested

  -- isinstance(initial, dict) and _formats_equal(initial, final)
  unfoldable pub stayed : Value → Fields → Bool
  unfolding formats_equal
  stayed (obj initial) final = formats_equal initial final
  stayed _ final = false

  -- What the client observed after its request, given whether the server applied it.
  unfoldable pub judge_final :
      Fields → Fields → Option Fields → Value → Outcome ModeFailure ModeNote
  unfolding format_matches has_applied stayed labelled
  judge_final requested final sent initial = do
    guard (format_matches final requested) (off_request final requested)
    guard (has_applied sent requested) (other_stream final sent)
    guard (not (stayed initial final)) (unchanged final)
    shown ← read (labelled initial)
    passed (renegotiated shown final)

  unfoldable pub judge_change :
      Fields → ℤ → Option Fields → Option Fields → Value → Outcome ModeFailure ModeNote
  unfolding judge_final has_applied
  judge_change requested stream_start_count none sent initial = failed (
      if has_applied sent requested
      then unobserved_change requested stream_start_count
      else kept_format stream_start_count)
  judge_change requested stream_start_count (some final) sent initial =
      if ltb_ℤ stream_start_count (pos 2)
      then failed (
          if has_applied sent requested
          then unobserved_change requested stream_start_count
          else kept_format stream_start_count)
      else judge_final requested final sent initial

  unfoldable pub compare_format_preference_summaries :
      ScenarioSpec → Fields → Fields → Outcome ModeFailure ModeNote
  unfolding format_matches judge_change
  compare_format_preference_summaries scenario server_summary client_summary = do
    status_guard server server_summary
    status_guard client client_summary
    preference ← found preference_unrecorded (as_object (get "format_preference" server_summary))
    received ← found no_preference (as_object (get "received" preference))
    target ← read (format_preference_target scenario.id)
    guard (format_matches received target) (off_target received target)
    renegotiation ← found no_renegotiation (as_object (get "renegotiation" client_summary))
    requested ← found no_request (as_object (get "requested" renegotiation))
    guard (format_matches received requested) (other_preference received requested)
    stream_start_count ← read (integer_or_zero (get "stream_start_count" renegotiation))
    judge_change requested stream_start_count (as_object (get "final_format" renegotiation))
        (as_object (get "stream" server_summary)) (get "initial_format" renegotiation)
