-- ===== src/Validator/Suites/Finalize.antt =====
-- src/conformance/validator/suite_checks.py: the end of a pairing, PAIR-PSK-005 to 007.
use conformance.Prelude.{
  ℕ, String, Bool, true, false, not, ◌&&◌, Option, none, some, List, [], ◌∷◌, ◌++◌, str_eq, ltb,
  if◌then◌else◌, is_empty,
}
use conformance.Json.{Value, str, get}
use conformance.Validator.Findings.{pass, fail, Message}
use conformance.Validator.Record.{
  RecordedFrame, RecordedEvent, ConnectionRecord, has_type, payload_or_empty, is_rejected,
  has_closed, is_keyed, first_with,
}
use conformance.Validator.Checks.{Findings, say, has_key}
use conformance.Validator.Checks.Hello.{joined, say_if}
use conformance.Validator.Suites.{
  conclude, inapplicable, unreached, first_after, first_inbound, is_in, is_out, refusals, describe,
}
use conformance.Validator.Suites.Keying.{long_term}
use conformance.Validator.Suites.Pairing.{then_after}

-- client/pair-finalize, _PAIRING_MESSAGES and _REFUSALS
abbrev pub finalize_answers : List String
finalize_answers =
    "client/pair-finalize" ∷ "client/pair-init" ∷ "client/pair-pending" ∷ "client/pair-auth"
    ∷ "client/pair-confirm" ∷ "client/pair-retry" ∷ refusals

abbrev pub is_string : Value → Bool
is_string (str s) = true
is_string _ = false

unfoldable pub finalize_problems : RecordedFrame → List Message
finalize_problems finalize =
    say_if (not (is_string (get "long_term_psk" (payload_or_empty finalize))))
      (say "client/pair-finalize carries no long_term_psk string")
    ++ say_if (has_key "wrapped_psk" (payload_or_empty finalize))
        (say "client/pair-finalize carries wrapped_psk, which only code flows send")

unfoldable pub judge_finalize : ConnectionRecord → RecordedFrame → RecordedFrame → Findings
unfolding finalize_problems first_after
judge_finalize r pair_init finalize =
    if not (has_type "client/pair-finalize" finalize)
    then conclude "PAIR-PSK-005" fail
        (describe "the client did not follow client/pair-init with client/pair-finalize, but "
          finalize "" [])
        (pair_init ∷ finalize ∷ [])
    else if not (is_empty (finalize_problems finalize))
    then conclude "PAIR-PSK-005" fail (joined (finalize_problems finalize))
        (pair_init ∷ finalize ∷ [])
    else elim (first_after r finalize.id (is_out "server/pair-finalize")) [
      | none ↦
          conclude "PAIR-PSK-005" fail
            (say
              "aiosendspin did not accept the long_term_psk: it is not a 32-byte key in 43 characters of base64url, or it reuses the pairing or Sentinel PSK")
            (finalize ∷ [])
      | some acknowledged ↦
          conclude "PAIR-PSK-005" pass
            (say "the client delivered a valid long_term_psk right after client/pair-init")
            (pair_init ∷ finalize ∷ acknowledged ∷ [])
    ]

unfoldable pub check_pair_finalize : ConnectionRecord → ℕ → Findings
unfolding first_after first_inbound is_rejected judge_finalize
check_pair_finalize r since = elim (first_after r since (is_in "client/pair-init")) [
  | none ↦ inapplicable "PAIR-PSK-005" "the client sent no client/pair-init"
  | some pair_init ↦ elim (first_inbound r pair_init (some finalize_answers)) [
    | none ↦
        if is_rejected r
        then unreached "PAIR-PSK-005"
        else conclude "PAIR-PSK-005" fail
            (say "the client did not follow client/pair-init with client/pair-finalize")
            (pair_init ∷ [])
    | some finalize ↦ judge_finalize r pair_init finalize
  ]
]

-- e.after_frame or 0
abbrev pub frame_before : RecordedEvent → ℕ
frame_before e = elim e.after_frame [ none ↦ 0 | some n ↦ n ]

abbrev pub is_keyed_after : ℕ → RecordedEvent → Bool
is_keyed_after n e = is_keyed e && ltb n (frame_before e)

abbrev pub has_category : String → RecordedEvent → Bool
has_category category e = elim e.psk_category [ none ↦ false | some c ↦ str_eq c category ]

abbrev pub is_keyed_by : String → Option RecordedEvent → Bool
is_keyed_by category none = false
is_keyed_by category (some e) = has_category category e

unfoldable pub judge_promoted :
    ConnectionRecord → RecordedFrame → RecordedFrame → RecordedFrame → Findings
judge_promoted r acknowledged asked answer =
    if is_keyed_by long_term (first_with (is_keyed_after acknowledged.id) r.events)
    then conclude "PAIR-PSK-006" pass
        (say "the client re-handshook to the long-term PSK it delivered") (asked ∷ answer ∷ [])
    else conclude "PAIR-PSK-006" fail
        (say
          "the re-handshake after server/pair-finalize did not key the session with the long-term PSK")
        (asked ∷ answer ∷ [])

unfoldable pub check_promotion : ConnectionRecord → ℕ → Findings
unfolding first_after is_rejected judge_promoted
check_promotion r since = elim (first_after r since (is_out "server/pair-finalize")) [
  | none ↦ inapplicable "PAIR-PSK-006" "the pairing did not reach server/pair-finalize"
  | some acknowledged ↦ elim (first_after r acknowledged.id (is_out "noise/handshake")) [
    | none ↦ inapplicable "PAIR-PSK-006" "the validator did not re-handshake after the finalize"
    | some asked ↦ elim (first_after r asked.id (is_in "noise/handshake")) [
      | none ↦
          if is_rejected r
          then unreached "PAIR-PSK-006"
          else conclude "PAIR-PSK-006" fail
              (say "the client did not answer the re-handshake to the long-term PSK it delivered")
              (acknowledged ∷ asked ∷ [])
      | some answer ↦ judge_promoted r acknowledged asked answer
    ]
  ]
]

-- The activation that follows the re-handshake after server/pair-finalize.
unfoldable pub paired_activation : ConnectionRecord → ℕ → Option RecordedFrame
unfolding first_after
paired_activation r since =
    then_after r
      (then_after r (first_after r since (is_out "server/pair-finalize")) (is_in "noise/handshake"))
      (is_out "server/activate")

unfoldable pub check_paired_activation : ConnectionRecord → ℕ → Findings
unfolding paired_activation first_inbound has_closed
check_paired_activation r since = elim (paired_activation r since) [
  | none ↦ inapplicable "PAIR-PSK-007" "no activation followed a long-term re-handshake"
  | some activation ↦ elim (first_inbound r activation (some refusals)) [
    | some refusal ↦
        conclude "PAIR-PSK-007" fail
          (describe "the client refused the paired activation with " refusal "" [])
          (activation ∷ refusal ∷ [])
    | none ↦
        if has_closed r
        then conclude "PAIR-PSK-007" fail (say "the connection ended after the paired activation")
            (activation ∷ [])
        else conclude "PAIR-PSK-007" pass
            (say "the client accepted the activation on the paired session") (activation ∷ [])
  ]
]
