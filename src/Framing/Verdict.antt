-- ===== src/Framing/Verdict.antt =====
-- src/conformance/chunk_framing.py: chunk_framing_verdict and _unobserved_client_verdict.
pub mod Guards
pub mod Passes
pub mod Receipt
use conformance.Prelude.{
  ℕ, ◌+◌, ◌*◌, String, Bool, true, false, not, ◌&&◌, Option, none, some, List, [], ◌∷◌, map, str_eq,
  ◌==◌, if◌then◌else◌, length, take, drop,
}
use mathlib.Core.Option
use conformance.Json.{Value, str, obj, Fields, get, is_text, Unicode}
use conformance.Framing.Frames.{Frame, count, transported_frames}
use conformance.Framing.Header.{
  Role, server, client, HeaderViolation, is_harness_gap, header_violation,
}
use conformance.Framing.Durations.{
  DurationFinding, DurationViolation, DurationVerdict, held, violated, payload_of, least, greatest,
  chunk_durations_verdict,
}

abbrev pub audio_chunk_type : ℕ
audio_chunk_type = 4

-- The reasons of a case that fails, with the values that their texts name.
pub data FramingFailure : Type 0 where
  status : Role → Value → FramingFailure
  no_audio_section : Role → FramingFailure
  server_frames_unobserved : FramingFailure
  no_chunks_sent : FramingFailure
  other_message_type : ℕ → ℕ → ℕ → FramingFailure
  bad_header : HeaderViolation → Option String → FramingFailure
  bad_duration : DurationViolation → FramingFailure
  delivered_other_total : ℕ → ℕ → ℕ → FramingFailure
  client_frames_unobserved : FramingFailure
  received_other_number : ℕ → ℕ → FramingFailure
  adapters_disagree : ℕ → ℕ → FramingFailure

-- What a case that passes reports: the number of chunks, their durations, and the least and the
-- greatest send_ahead.
pub record FramingFinding : Type 0 where
  pub chunks : ℕ
  pub durations : DurationFinding
  pub least_send_ahead : ℕ
  pub greatest_send_ahead : ℕ

pub data FramingVerdict : Type 0 where
  passed : FramingFinding → FramingVerdict
  failed : FramingFailure → FramingVerdict
  raised : FramingVerdict

-- Guards that return early, and reads that return early where there is nothing to read.
infixl 5 ◌>>◌
abbrev pub ◌>>◌ : Option FramingFailure → FramingVerdict → FramingVerdict
none >> rest = rest
some reason >> rest = failed reason

abbrev pub first_byte : List ℕ → ℕ
first_byte [] = 0
first_byte (b ∷ bs) = b

unfoldable pub other_type : ℕ → ℕ → List Frame → Option FramingFailure
other_type total index [] = none
other_type total index (f ∷ fs) =
    if not (first_byte f.leading == audio_chunk_type)
    then some (other_message_type (first_byte f.leading) index total)
    else other_type total (index + 1) fs

-- The reason that the server's adapter states, where it is a text and not empty.
unfoldable pub legacy_reason : Value → Option String
legacy_reason (str s) = if str_eq s "" then none else some s
legacy_reason _ = none

unfoldable pub server_header_failure : Value → List Frame → Option FramingFailure
unfolding legacy_reason
server_header_failure stated sent = elim (header_violation server sent) [
  | none ↦ none
  | some violation ↦
      some (bad_header violation (if is_harness_gap violation then none else legacy_reason stated))
]

abbrev pub same_bytes : List ℕ → List ℕ → Bool
same_bytes [] [] = true
same_bytes (b ∷ bs) (c ∷ cs) = b == c && same_bytes bs cs
same_bytes _ _ = false

-- (ours.byte_count, ours.leading) == (theirs.byte_count, theirs.leading)
abbrev pub same_frame : Frame → Frame → Bool
same_frame f g = f.byte_count == g.byte_count && same_bytes f.leading g.leading

-- The loop over zip(sent, received).
unfoldable pub disagreement : ℕ → ℕ → List Frame → List Frame → Option FramingFailure
disagreement total index (f ∷ fs) (g ∷ gs) =
    if not (same_frame f g)
    then some (adapters_disagree index total)
    else disagreement total (index + 1) fs gs
disagreement total index _ _ = none

abbrev pub total_payload : List Frame → ℕ
total_payload [] = 0
total_payload (f ∷ fs) = payload_of f + total_payload fs

-- _unobserved_client_verdict
unfoldable pub unobserved_client : Fields → List Frame → FramingFailure
unobserved_client client_audio sent =
    elim (count (get "received_encoded_byte_count" client_audio)) [
      | none ↦ client_frames_unobserved
      | some delivered ↦
          if not (delivered == total_payload sent)
          then delivered_other_total delivered (length sent) (total_payload sent)
          else client_frames_unobserved
    ]

unfoldable pub from_bytes : ℕ → List ℕ → ℕ
from_bytes n [] = n
from_bytes n (b ∷ bs) = from_bytes (256 * n + b) bs

-- int.from_bytes(frame.leading[9:13], "big")
unfoldable pub send_ahead : Frame → ℕ
unfolding from_bytes
send_ahead f = from_bytes 0 (take 4 (drop 9 f.leading))

unfoldable pub framing_finding : DurationFinding → List Frame → FramingFinding
unfolding send_ahead
framing_finding durations [] = record {
  chunks = 0;
  durations = durations;
  least_send_ahead = 0;
  greatest_send_ahead = 0;
}
framing_finding durations (f ∷ fs) = record {
  chunks = length (f ∷ fs);
  durations = durations;
  least_send_ahead = least (send_ahead f) (map send_ahead fs);
  greatest_send_ahead = greatest (send_ahead f) (map send_ahead fs);
}

-- What the client received, against what was sent.
unfoldable pub judge_received :
    Fields → List Frame → DurationFinding → Option (List Frame) → FramingVerdict
unfolding unobserved_client disagreement framing_finding
judge_received client_audio sent durations none = failed (unobserved_client client_audio sent)
judge_received client_audio sent durations (some received) =
    if not (length received == length sent)
    then failed (received_other_number (length received) (length sent))
    else do
      disagreement (length sent) 1 sent received
      Option.map (λ v. bad_header v none) (header_violation client received)
      passed (framing_finding durations sent)

unfoldable pub judge_client : Value → List Frame → DurationFinding → FramingVerdict
unfolding judge_received
judge_client (obj client_audio) sent durations =
    judge_received client_audio sent durations
      (transported_frames (get "received_chunk_frames" client_audio))
judge_client _ sent durations = failed (no_audio_section client)

unfoldable pub after_durations : Value → List Frame → DurationVerdict → FramingVerdict
unfolding judge_client
after_durations client_audio sent (violated violation) = failed (bad_duration violation)
after_durations client_audio sent DurationVerdict.raised = raised
after_durations client_audio sent (held durations) = judge_client client_audio sent durations

abbrev pub status_failure : Role → Fields → Option FramingFailure
status_failure role summary =
    if is_text "ok" (get "status" summary) then none else some (status role (get "status" summary))

module _ ⦃u : Unicode⦄ where
  unfoldable pub judge_sent : Fields → Fields → Value → Option (List Frame) → FramingVerdict
  unfolding other_type server_header_failure after_durations
  judge_sent server_summary server_audio client_audio none = failed server_frames_unobserved
  judge_sent server_summary server_audio client_audio (some []) = failed no_chunks_sent
  judge_sent server_summary server_audio client_audio (some (f ∷ fs)) = do
    other_type (length (f ∷ fs)) 1 (f ∷ fs)
    server_header_failure (get "legacy_header_reason" server_audio) (f ∷ fs)
    after_durations client_audio (f ∷ fs)
        (chunk_durations_verdict server_summary server_audio (f ∷ fs))

  unfoldable pub judge_server : Fields → Value → Value → FramingVerdict
  unfolding judge_sent
  judge_server server_summary (obj server_audio) client_audio =
      judge_sent server_summary server_audio client_audio
        (transported_frames (get "sent_chunk_frames" server_audio))
  judge_server server_summary _ client_audio = failed (no_audio_section server)

  unfoldable pub chunk_framing_verdict : Fields → Fields → FramingVerdict
  unfolding judge_server
  chunk_framing_verdict server_summary client_summary = do
    status_failure server server_summary
    status_failure client client_summary
    judge_server server_summary (get "audio" server_summary) (get "audio" client_summary)
