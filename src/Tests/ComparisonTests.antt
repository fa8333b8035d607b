-- ===== src/Tests/ComparisonTests.antt =====
-- The theorems on the comparison of a case (src/conformance/runner.py) at concrete summaries.
use conformance.Prelude.{
  ℕ, String, ◌≡◌, refl, ◌↔◌, inl, true, false, none, some, List, [], ◌∷◌, pos,
}
use conformance.Json.Python.{is_truthy}
use conformance.Json.{find, Value, str, arr, obj, Items, Fields, get}
use conformance.Formats.Verdicts.{undeclared_format_violation}
use conformance.Protocol.Activation.{activation_violation}
use conformance.Protocol.GroupUpdate.{group_update_violation}
use conformance.Protocol.TimeExchange.{time_exchange_violation}
use conformance.Protocol.Gate.{GateEntry, gate_entries, stream_start_gate_violation}
use conformance.Protocol.Gate.Passes.{Bracket, Witnessed}
use conformance.Protocol.TimeExchange.Prompt.{client_time_value, server_time_value}
use conformance.Matrix.Scenarios.{server_initiated_pcm, server_initiated_flac}
use conformance.Comparison.FirstState.{scheduled, first_metadata_state_verdict}
use conformance.Comparison.Outcome.{pcm_matches, encoded_matches, passed, section}
use conformance.Comparison.Audio.{compare_audio_summaries}
use conformance.Comparison.Encoded.{compare_encoded_audio_summaries}
use conformance.Comparison.Dispatch.{dispatch_comparison}
use conformance.Comparison.Connection.Cases.{
  VerifiesDepth, compare_summaries-same_pcm, compare_summaries-lossless,
}
use conformance.Comparison.Encoded.Decoded.{IsLossless}
use conformance.Comparison.Connection.{adapter_reported_failures, compare_summaries}
use conformance.Comparison.Connection.Passes.{
  IsConforming, compare_summaries-passed_iff, compare_summaries-gated,
}
use conformance.Tests.Samples.{
  lower, plain, object, sequence, number, readable, hello, format_value, state_value, start_value,
}
use conformance.Protocol.Activation.{is_rc1_activity_set}
use conformance.Protocol.Gate.{read_entry}
use conformance.Protocol.TimeExchange.{
  find_echo, integer_at, remove_item, sent_value, server_time_defects, time_entry,
}
use conformance.Formats.Declared.{declare_entries, declare_value, declared_formats, note_entry}
use conformance.Formats.Format.{comparable_key, format_key, normalized_format, same_key}
use conformance.Formats.Negotiated.{
  add_source, candidates, negotiate, negotiated_formats, note_candidate,
}
use conformance.Formats.Verdicts.{is_declared}

-- The first state was stamped 100 microseconds ahead of the server's clock.
abbrev observing : Fields
observing = object (
    (
      "metadata",
      obj (object (("first_object_state", obj (object (("timestamp_us", number 1100) ∷ []))) ∷ [])),
    )
    ∷ [])

abbrev sending_at : ℕ → Fields
sending_at reading = object (
    (
      "metadata",
      obj (
          object (
            (
              "first_state_sent",
              obj (object (("timestamp_us", number 1100) ∷ ("bound_us", number reading) ∷ [])),
            )
            ∷ [])),
    )
    ∷ [])

-- The verdict on the state that is ahead.
scheduled_ahead :
    first_metadata_state_verdict (sending_at 1000) observing
    ≡ some (true, some (scheduled (pos 1100) (pos 1000)))
unfolding first_metadata_state_verdict
scheduled_ahead = refl

abbrev sent_section : Fields
sent_section = object (("source_pcm_sha256", str "b1d0") ∷ [])

abbrev sent_audio : Value
sent_audio = obj sent_section

abbrev received_audio : Value
received_audio =
    obj (object (("received_pcm_sha256", str "b1d0") ∷ ("audio_chunk_count", number 3) ∷ []))

-- A server that conforms on its connection.
abbrev conforming_of : Items → List (String × Value) → Fields
conforming_of formats rest = object (
    ("status", str "ok")
    ∷ (
      "activation",
      obj (
          object (
            ("type", str "server/activate")
            ∷ (
              "payload",
              obj (
                  object (
                    ("activities", arr (sequence (str "playback" ∷ [])))
                    ∷ ("active_roles", arr (sequence []))
                    ∷ [])),
            )
            ∷ [])),
    )
    ∷ (
      "group_updates",
      arr (
          sequence (
            obj (
              object (
                ("type", str "group/update")
                ∷ (
                  "payload",
                  obj (
                      object (
                        ("playback_state", str "playing")
                        ∷ ("group_id", str "g")
                        ∷ ("group_name", str "Kitchen")
                        ∷ [])),
                )
                ∷ []))
            ∷ [])),
    )
    ∷ (
      "availability_trace",
      arr (sequence (state_value true ∷ start_value "sending" ∷ start_value "sent" ∷ [])),
    )
    ∷ (
      "time_exchange",
      arr (sequence (client_time_value (pos 5) ∷ server_time_value (pos 5) (pos 8) (pos 9) ∷ [])),
    )
    ∷ ("peer_hello", hello formats)
    ∷ rest)

abbrev sent_pcm : List (String × Value)
sent_pcm = ("stream", format_value "opus" 16) ∷ ("audio", sent_audio) ∷ []

abbrev conforming : Fields
conforming = conforming_of readable sent_pcm

abbrev listening : Fields
listening =
    object
      (("status", str "ok") ∷ ("stream", format_value "opus" 16) ∷ ("audio", received_audio) ∷ [])

conforming-activation :
    (formats : Items) (rest : List (String × Value))
    → activation_violation (conforming_of formats rest) ≡ none
unfolding activation_violation is_rc1_activity_set
conforming-activation formats rest = refl

conforming-group_updates :
    (formats : Items) (rest : List (String × Value))
    → group_update_violation (conforming_of formats rest) ≡ none
unfolding group_update_violation
conforming-group_updates formats rest = refl

conforming-gate :
    (formats : Items) (rest : List (String × Value))
    → stream_start_gate_violation (conforming_of formats rest) ≡ none
unfolding stream_start_gate_violation read_entry
conforming-gate formats rest = refl

conforming-time_exchange :
    (formats : Items) (rest : List (String × Value))
    → time_exchange_violation (conforming_of formats rest) ≡ none
unfolding time_exchange_violation time_entry sent_value server_time_defects find_echo integer_at
    remove_item
conforming-time_exchange formats rest = refl

conforming-formats : undeclared_format_violation ⦃u = lower⦄ conforming listening ≡ none
unfolding undeclared_format_violation declared_formats declare_value declare_entries note_entry
    normalized_format same_key format_key negotiated_formats negotiate candidates note_candidate
    add_source is_declared comparable_key
conforming-formats = refl

nothing_reported : adapter_reported_failures conforming listening ≡ []
unfolding adapter_reported_failures
nothing_reported = refl

dispatched-matches :
    dispatch_comparison ⦃u = lower⦄ ⦃py = plain⦄ server_initiated_pcm conforming listening
    ≡ passed pcm_matches
unfolding dispatch_comparison compare_audio_summaries
dispatched-matches = refl

conforming-passes :
    compare_summaries ⦃u = lower⦄ ⦃py = plain⦄ server_initiated_pcm conforming listening
    ≡ passed pcm_matches
conforming-passes =
    (compare_summaries-passed_iff ⦃u = lower⦄ ⦃py = plain⦄ server_initiated_pcm conforming listening
        pcm_matches).1
      (
        nothing_reported,
        dispatched-matches,
        record {
          activation = conforming-activation readable sent_pcm;
          group_updates = conforming-group_updates readable sent_pcm;
          gate = λ streams. conforming-gate readable sent_pcm;
          time_exchange = conforming-time_exchange readable sent_pcm;
          formats = conforming-formats;
        },
      )

compare_summaries-passed_iff_example :
    (compare_summaries ⦃u = lower⦄ ⦃py = plain⦄ server_initiated_pcm conforming listening
      ≡ passed pcm_matches)
    ↔ ((adapter_reported_failures conforming listening ≡ [])
        × (dispatch_comparison ⦃u = lower⦄ ⦃py = plain⦄ server_initiated_pcm conforming listening
            ≡ passed pcm_matches)
        × IsConforming ⦃u = lower⦄ server_initiated_pcm conforming listening)
compare_summaries-passed_iff_example =
    compare_summaries-passed_iff ⦃u = lower⦄ ⦃py = plain⦄ server_initiated_pcm conforming listening
      pcm_matches

compare_summaries-gated_example :
    (trace : List GateEntry) × (gate_entries (get "availability_trace" conforming) ≡ some trace)
    × ((b : Bracket trace) → Witnessed b.before b.within)
compare_summaries-gated_example =
    compare_summaries-gated ⦃u = lower⦄ ⦃py = plain⦄ server_initiated_pcm conforming listening
      pcm_matches (inl (inl refl)) conforming-passes

compare_summaries-same_pcm_example :
    (client_audio : Fields) × (get "audio" listening ≡ obj client_audio)
    × (find "received_pcm_sha256" client_audio ≡ some (str "b1d0"))
    × (count : Value) × (find "audio_chunk_count" client_audio ≡ some count)
    × (is_truthy count ≡ true)
    × VerifiesDepth ⦃u = lower⦄ conforming listening none
compare_summaries-same_pcm_example =
    compare_summaries-same_pcm ⦃u = lower⦄ ⦃py = plain⦄ server_initiated_pcm conforming listening
      sent_section "b1d0" refl refl refl conforming-passes

-- A case of flac in which the client decoded the clip.
abbrev flac_formats : Items
flac_formats = sequence (format_value "flac" 16 ∷ [])

abbrev sent_flac : List (String × Value)
sent_flac =
    ("stream", format_value "flac" 16)
    ∷ (
      "audio",
      obj (
          object (
            ("source_pcm_sha256", str "b1d0")
            ∷ ("sample_rate", number 48000)
            ∷ ("channels", number 2)
            ∷ ("sent_audio_chunk_count", number 4)
            ∷ ("sent_encoded_sha256", str "77aa")
            ∷ [])),
    )
    ∷ []

abbrev flac_server : Fields
flac_server = conforming_of flac_formats sent_flac

abbrev flac_client : Fields
flac_client = object (
    ("status", str "ok")
    ∷ ("stream", format_value "flac" 16)
    ∷ (
      "audio",
      obj (
          object (
            ("received_pcm_sha256", str "b1d0")
            ∷ ("received_sample_count", number 96000)
            ∷ ("audio_chunk_count", number 4)
            ∷ ("received_encoded_sha256", str "77aa")
            ∷ [])),
    )
    ∷ [])

flac-formats : undeclared_format_violation ⦃u = lower⦄ flac_server flac_client ≡ none
unfolding undeclared_format_violation declared_formats declare_value declare_entries note_entry
    normalized_format same_key format_key negotiated_formats negotiate candidates note_candidate
    add_source is_declared comparable_key
flac-formats = refl

flac-dispatched :
    dispatch_comparison ⦃u = lower⦄ ⦃py = plain⦄ server_initiated_flac flac_server flac_client
    ≡ passed (encoded_matches "flac" false none)
unfolding dispatch_comparison compare_encoded_audio_summaries
flac-dispatched = refl

flac-reported : adapter_reported_failures flac_server flac_client ≡ []
unfolding adapter_reported_failures
flac-reported = refl

flac-passes :
    compare_summaries ⦃u = lower⦄ ⦃py = plain⦄ server_initiated_flac flac_server flac_client
    ≡ passed (encoded_matches "flac" false none)
flac-passes =
    (compare_summaries-passed_iff ⦃u = lower⦄ ⦃py = plain⦄ server_initiated_flac flac_server
        flac_client (encoded_matches "flac" false none)).1
      (
        flac-reported,
        flac-dispatched,
        record {
          activation = conforming-activation flac_formats sent_flac;
          group_updates = conforming-group_updates flac_formats sent_flac;
          gate = λ streams. conforming-gate flac_formats sent_flac;
          time_exchange = conforming-time_exchange flac_formats sent_flac;
          formats = flac-formats;
        },
      )

compare_summaries-lossless_example :
    (server_initiated_flac.preferred_codec ≡ "flac")
    × (server_audio : Fields) × (client_audio : Fields) × (section "audio" flac_server
        ≡ some server_audio)
    × (section "audio" flac_client ≡ some client_audio)
    × IsLossless ⦃py = plain⦄ flac_server server_audio client_audio
compare_summaries-lossless_example =
    compare_summaries-lossless ⦃u = lower⦄ ⦃py = plain⦄ server_initiated_flac flac_server
      flac_client false refl flac-passes
