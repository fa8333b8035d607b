-- ===== src/Validator/Suites/PostPairing.antt =====
-- src/conformance/validator/suite_checks.py: the unpairing of a client and its output delay across a
-- restart, POSTPAIR-003 and 006.
use conformance.Prelude.{
  ℕ, Bool, false, not, ◌&&◌, Option, none, some, [], ◌∷◌, ltb, if◌then◌else◌, is_some, last_with, ℤ,
  eqb_ℤ,
}
use conformance.Json.{Value, int, obj, get, is_text}
use conformance.Validator.Findings.{pass, fail}
use conformance.Validator.Record.{
  RecordedFrame, RecordedEvent, ConnectionRecord, payload_or_empty, is_keyed, inbound, outbound,
  first_with, first,
}
use conformance.Validator.Checks.{Findings, say, say_of}
use conformance.Validator.Suites.{conclude, inapplicable, first_inbound, reason_of}
use conformance.Validator.Suites.Keying.{long_term}
use conformance.Validator.Suites.Finalize.{frame_before, is_keyed_by}

abbrev pub is_keyed_before : ℕ → RecordedEvent → Bool
is_keyed_before n e = is_keyed e && ltb (frame_before e) n

abbrev pub judge_unpaired : RecordedFrame → RecordedFrame → Findings
judge_unpaired unpair goodbye =
    if is_text "unpaired" (reason_of goodbye)
    then conclude "POSTPAIR-003" pass
        (say "the client answered server/unpair with client/goodbye 'unpaired'")
        (unpair ∷ goodbye ∷ [])
    else conclude "POSTPAIR-003" fail
        (say_of "the client answered server/unpair with goodbye {}, not 'unpaired'"
          (reason_of goodbye ∷ []))
        (unpair ∷ goodbye ∷ [])

unfoldable pub judge_unpair : ConnectionRecord → RecordedFrame → Findings
unfolding first_inbound
judge_unpair r unpair = elim (first_inbound r unpair (some ("client/goodbye" ∷ []))) [
  | none ↦
      conclude "POSTPAIR-003" fail
        (say "the client did not answer server/unpair with client/goodbye 'unpaired'") (unpair ∷ [])
  | some goodbye ↦ judge_unpaired unpair goodbye
]

unfoldable pub check_unpair_goodbye : ConnectionRecord → Findings
unfolding outbound judge_unpair
check_unpair_goodbye r = elim (first (outbound r "server/unpair" "transport")) [
  | none ↦ inapplicable "POSTPAIR-003" "the validator sent no server/unpair"
  | some unpair ↦
      if not (is_keyed_by long_term (last_with (is_keyed_before unpair.id) r.events))
      then inapplicable "POSTPAIR-003" "the session was not keyed by the long-term PSK"
      else judge_unpair r unpair
]

-- _output_delay
abbrev pub delay_in : Value → Option ℤ
delay_in (obj player) = elim (get "output_delay_ms" player) [ int n ↦ some n | _ ↦ none ]
delay_in _ = none

unfoldable pub output_delay : RecordedFrame → Option ℤ
output_delay f = delay_in (get "player" (payload_or_empty f))

abbrev pub is_delay : ℤ → Option ℤ → Bool
is_delay n none = false
is_delay n (some m) = eqb_ℤ m n

abbrev pub has_delay : RecordedFrame → Bool
unfolding output_delay
has_delay f = is_some (output_delay f)

abbrev pub judge_delay : ℤ → RecordedFrame → RecordedFrame → ℤ → Findings
judge_delay commanded echo state delay =
    if not (eqb_ℤ delay commanded)
    then conclude "POSTPAIR-006" fail
        (say_of "output_delay_ms was set to {} before the restart and is {} after"
          (int commanded ∷ int delay ∷ []))
        (echo ∷ state ∷ [])
    else conclude "POSTPAIR-006" pass
        (say_of "output_delay_ms stayed {} across the restart" (int delay ∷ [])) (echo ∷ state ∷ [])

-- Raises where no client/state before the restart reports the delay that is commanded.
unfoldable pub check_restart_keeps_output_delay :
    ConnectionRecord → ConnectionRecord → Option ℤ → Findings
unfolding inbound output_delay
check_restart_keeps_output_delay before after none =
    inapplicable "POSTPAIR-006"
      "the validator could not set an output delay: the player does not offer set_output_delay, or did not report the delay it was set to"
check_restart_keeps_output_delay before after (some commanded) =
    elim (first_with (λ f. is_delay commanded (output_delay f))
      (inbound before "client/state" "transport")) [
        | none ↦ none
        | some echo ↦ elim (first_with has_delay (inbound after "client/state" "transport")) [
          | none ↦ inapplicable "POSTPAIR-006" "the client reported no player output_delay_ms after"
          | some state ↦ elim (output_delay state) [
            | none ↦ none
            | some delay ↦ judge_delay commanded echo state delay
          ]
        ]
      ]
