-- ===== src/Tests/ModesTests.antt =====
-- The theorems on the comparisons of the modes (src/conformance/runner.py) at concrete summaries.
use conformance.Prelude.{String, ◌≡◌, refl, ◌↔◌, false, none, some, List, [], ◌∷◌}
use conformance.Json.{Value, str, arr, obj, Fields, find, as_list}
use conformance.Matrix.Scenarios.{client_initiated_state_format_flac}
use conformance.Comparison.Outcome.{
  ModeNote, encoded_matches, metadata_matches, command_matched, artwork_matches, renegotiated,
  passed,
}
use conformance.Comparison.Encoded.{
  header_difference, compare_encoded_audio_summaries, decoded_audio_verdict,
}
use conformance.Comparison.Encoded.Delivered.{IsTransported, compare_encoded-passed_iff}
use conformance.Comparison.Encoded.Decoded.{IsLossless, decoded_audio_verdict-held_iff}
use conformance.Comparison.States.{compare_metadata_summaries, compare_artwork_summaries}
use conformance.Comparison.States.Passes.{IsShown, compare_metadata_summaries-passed_iff}
use conformance.Comparison.Controller.{
  compare_controller_supported_commands, compare_controller_summaries,
}
use conformance.Comparison.Controller.Commands.{
  SameCommands, compare_controller_supported_commands_iff,
}
use conformance.Comparison.Preference.{compare_format_preference_summaries}
use conformance.Comparison.Preference.Preferred.{
  IsRenegotiated, compare_format_preference-passed_iff,
}
use conformance.Tests.Samples.{plain, object, sequence, number, format_value}
use conformance.Comparison.FirstState.{first_metadata_state_verdict}

abbrev reporting : String → List (String × Value) → Fields
reporting name fields = object (("status", str "ok") ∷ (name, obj (object fields)) ∷ [])

-- The comparison of two PCM hashes.
abbrev pcm_server : Fields
pcm_server = reporting "audio" (("source_pcm_sha256", str "b1d0") ∷ [])

abbrev pcm_client : Fields
pcm_client =
    reporting "audio" (("received_pcm_sha256", str "b1d0") ∷ ("audio_chunk_count", number 3) ∷ [])

-- A case of flac in which the client decoded the clip.
abbrev flac : String
flac = "flac"

abbrev flac_audio : Fields
flac_audio = object (
    ("source_pcm_sha256", str "b1d0")
    ∷ ("sample_rate", number 48000)
    ∷ ("channels", number 2)
    ∷ ("sent_audio_chunk_count", number 4)
    ∷ ("sent_encoded_sha256", str "77aa")
    ∷ [])

abbrev flac_server : Fields
flac_server =
    object
      (("status", str "ok") ∷ ("stream", format_value "flac" 16) ∷ ("audio", obj flac_audio) ∷ [])

abbrev heard_audio : Fields
heard_audio = object (
    ("received_pcm_sha256", str "b1d0")
    ∷ ("received_sample_count", number 96000)
    ∷ ("audio_chunk_count", number 4)
    ∷ ("received_encoded_sha256", str "77aa")
    ∷ [])

abbrev flac_client : Fields
flac_client =
    object
      (("status", str "ok") ∷ ("stream", format_value "flac" 16) ∷ ("audio", obj heard_audio) ∷ [])

flac-passes :
    compare_encoded_audio_summaries ⦃py = plain⦄ flac_server flac_client "flac"
    ≡ passed (encoded_matches "flac" false none)
unfolding compare_encoded_audio_summaries
flac-passes = refl

other_headers : header_difference (some "1a") (some "2b") ≡ some ("1a", "2b")
unfolding header_difference
other_headers = refl

compare_encoded-passed_iff_example :
    (compare_encoded_audio_summaries ⦃py = plain⦄ flac_server flac_client "flac"
      ≡ passed (encoded_matches "flac" false none))
    ↔ IsTransported ⦃py = plain⦄ flac_server flac_client "flac" false none
compare_encoded-passed_iff_example =
    compare_encoded-passed_iff ⦃py = plain⦄ flac_server flac_client "flac" false none

decoded_audio_verdict-held_iff_example :
    (decoded_audio_verdict ⦃py = plain⦄ flac_server flac_audio heard_audio "flac" ≡ passed none)
    ↔ ((flac ≡ "flac") × IsLossless ⦃py = plain⦄ flac_server flac_audio heard_audio)
decoded_audio_verdict-held_iff_example =
    decoded_audio_verdict-held_iff ⦃py = plain⦄ flac_server flac_audio heard_audio "flac"

-- Metadata that arrived, and an image that did.
abbrev title : Value
title = obj (object (("title", str "Song") ∷ []))

abbrev titled_server : Fields
titled_server = reporting "metadata" (("expected", title) ∷ [])

abbrev titled_client : Fields
titled_client = reporting "metadata" (("received", title) ∷ ("update_count", number 1) ∷ [])

titled-passes :
    compare_metadata_summaries ⦃py = plain⦄ titled_server titled_client
    ≡ passed (metadata_matches false)
unfolding compare_metadata_summaries first_metadata_state_verdict
titled-passes = refl

compare_metadata_summaries-passed_iff_example :
    (compare_metadata_summaries ⦃py = plain⦄ titled_server titled_client
      ≡ passed (metadata_matches false))
    ↔ IsShown ⦃py = plain⦄ titled_server titled_client false
compare_metadata_summaries-passed_iff_example =
    compare_metadata_summaries-passed_iff ⦃py = plain⦄ titled_server titled_client false

abbrev image_server : Fields
image_server = reporting "artwork" (("channel", number 0) ∷ ("encoded_sha256", str "c0ff") ∷ [])

abbrev image_client : Fields
image_client =
    reporting "artwork"
      (("channel", number 0) ∷ ("received_sha256", str "c0ff") ∷ ("received_count", number 1) ∷ [])

image-passes :
    compare_artwork_summaries ⦃py = plain⦄ image_server image_client ≡ passed artwork_matches
unfolding compare_artwork_summaries
image-passes = refl

-- A command that the client sent and the server received.
abbrev state_fields : List Value → List (String × Value)
state_fields commands =
    ("volume", number 40)
    ∷ ("muted", Value.bool false)
    ∷ ("repeat", str "off")
    ∷ ("shuffle", Value.bool false)
    ∷ ("supported_commands", arr (sequence commands))
    ∷ []

abbrev command : Value
command = obj (object (("command", str "play") ∷ []))

abbrev commanded : Fields
commanded = reporting "controller" (
    ("expected_command", command)
    ∷ ("received_command", command)
    ∷ state_fields (str "play" ∷ str "stop" ∷ []))

abbrev commanding : Fields
commanding = reporting "controller" (
    ("sent_command", command)
    ∷ ("received_state", obj (object (state_fields (str "stop" ∷ str "play" ∷ []))))
    ∷ [])

command-passes :
    compare_controller_summaries ⦃py = plain⦄ commanded commanding
    ≡ passed (command_matched (str "play"))
unfolding compare_controller_summaries
command-passes = refl

abbrev offering : List Value → Fields
offering commands = object (state_fields commands)

compare_controller_supported_commands_iff_example :
    (compare_controller_supported_commands ⦃py = plain⦄
        (offering (str "play" ∷ str "stop" ∷ []))
        (offering (str "stop" ∷ str "play" ∷ []))
      ≡ passed tt)
    ↔ ((advertised : List Value) × (some (str "play" ∷ str "stop" ∷ []) ≡ some advertised)
        × ((commands : Value) × (find "supported_commands" (offering (str "stop" ∷ str "play" ∷ []))
              ≡ some commands)
            × ((observed : List Value) × (as_list commands ≡ some observed)
                × SameCommands ⦃py = plain⦄ advertised observed)))
compare_controller_supported_commands_iff_example =
    compare_controller_supported_commands_iff ⦃py = plain⦄ (offering (str "play" ∷ str "stop" ∷ []))
      (offering (str "stop" ∷ str "play" ∷ []))

-- A stream that changed to flac at the client's preference.
abbrev preferred : Fields
preferred = object (
    ("status", str "ok")
    ∷ ("format_preference", obj (object (("received", format_value "flac" 16) ∷ [])))
    ∷ ("stream", format_value "flac" 16)
    ∷ [])

abbrev preferring : Fields
preferring = reporting "renegotiation" (
    ("requested", format_value "flac" 16)
    ∷ ("stream_start_count", number 2)
    ∷ ("initial_format", format_value "pcm" 16)
    ∷ ("final_format", format_value "flac" 16)
    ∷ [])

abbrev changed_note : ModeNote
changed_note = renegotiated (format_value "pcm" 16) (
    object (
      ("codec", str "flac")
      ∷ ("sample_rate", number 48000)
      ∷ ("bit_depth", number 16)
      ∷ ("channels", number 2)
      ∷ []))

preference-passes :
    compare_format_preference_summaries ⦃py = plain⦄ client_initiated_state_format_flac preferred
      preferring
    ≡ passed changed_note
unfolding compare_format_preference_summaries
preference-passes = refl

compare_format_preference-passed_iff_example :
    (compare_format_preference_summaries ⦃py = plain⦄ client_initiated_state_format_flac preferred
        preferring
      ≡ passed changed_note)
    ↔ IsRenegotiated ⦃py = plain⦄ client_initiated_state_format_flac preferred preferring
        changed_note
compare_format_preference-passed_iff_example =
    compare_format_preference-passed_iff ⦃py = plain⦄ client_initiated_state_format_flac preferred
      preferring changed_note
