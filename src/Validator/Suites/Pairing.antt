-- ===== src/Validator/Suites/Pairing.antt =====
-- src/conformance/validator/suite_checks.py: the pairing token, the re-handshake onto the pairing PSK
-- and the start of an attempt, PAIR-PSK-001 to 004.
use conformance.Prelude.{
  ℕ, String, Bool, false, not, Option, none, some, List, [], ◌∷◌, ◌++◌, str_eq, if◌then◌else◌,
  is_empty, pos,
}
use conformance.Json.{Value, bool, int, str, get}
use conformance.Json.Python.{Python, same_value}
use conformance.Validator.Findings.{pass, fail, not_applicable, Message}
use conformance.Validator.Record.{
  RecordedFrame, ConnectionRecord, has_type, payload_or_empty, is_rejected,
}
use conformance.Validator.Checks.{Findings, finding_of, say, say_of, has_key}
use conformance.Validator.Checks.Hello.{joined, say_if}
use conformance.Validator.Suites.{
  suite_refs, conclude, inapplicable, unreached, first_after, first_inbound, is_in, is_out,
  refusals, pairing_activation, pairing_activations_since_handshake, describe,
}

-- What decode_psk_token gives of a text: an error, or the client_id of the token.
pub data Token : Type 0 where
  undecoded token : String → Token

-- check_pairing_token, with the decoding of the token as a parameter.
unfoldable pub check_pairing_token : (String → Token) → String → Option String → Findings
check_pairing_token decode_psk_token text client_id = elim (decode_psk_token text) [
  | undecoded err ↦ some (
      finding_of suite_refs "PAIR-PSK-001" fail
        (say_of "the pairing token does not decode: {}" (str err ∷ [])) []
      ∷ finding_of suite_refs "PAIR-PSK-002" not_applicable (say "no decoded token to compare") []
      ∷ [])
  | token named ↦ some (
      finding_of suite_refs "PAIR-PSK-001" pass (say "the pairing token decodes as version 0") []
      ∷ elim client_id [
        | none ↦
            finding_of suite_refs "PAIR-PSK-002" not_applicable (say "the client sent no client_id")
              []
        | some id ↦
            if not (str_eq named id)
            then finding_of suite_refs "PAIR-PSK-002" fail
                (say_of "the token's client_key is {}, not the connected client_id {}"
                  (str named ∷ str id ∷ []))
                []
            else finding_of suite_refs "PAIR-PSK-002" pass
                (say "the token's client_key is the connected client_id") []
      ]
      ∷ [])
]

-- The first frame after another, where there is that one.
abbrev pub then_after :
    ConnectionRecord → Option RecordedFrame → (RecordedFrame → Bool) → Option RecordedFrame
then_after r none holds = none
then_after r (some f) holds = first_after r f.id holds

unfoldable pub judge_rehandshake :
    ConnectionRecord → RecordedFrame → Option RecordedFrame → Findings
unfolding is_rejected pairing_activation
judge_rehandshake r asked none =
    if is_rejected r
    then unreached "PAIR-PSK-003"
    else conclude "PAIR-PSK-003" fail
        (say
          "the client did not answer the re-handshake onto its pairing PSK, which it must keep among its handshake candidates")
        (asked ∷ [])
judge_rehandshake r asked (some answer) = elim (pairing_activation r answer.id) [
  | none ↦ none
  | some none ↦
      if is_rejected r
      then unreached "PAIR-PSK-003"
      else conclude "PAIR-PSK-003" fail
          (say "the client's Noise message 2 did not verify under its pairing PSK")
          (asked ∷ answer ∷ [])
  | some (some activation) ↦
      conclude "PAIR-PSK-003" pass
        (say "the client completed the re-handshake onto its pairing PSK") (asked ∷ answer ∷ [])
]

unfoldable pub check_pairing_rehandshake : ConnectionRecord → ℕ → Findings
unfolding first_after judge_rehandshake
check_pairing_rehandshake r since = elim (first_after r since (is_out "noise/handshake")) [
  | none ↦ inapplicable "PAIR-PSK-003" "the validator did not re-handshake to the pairing PSK"
  | some asked ↦ judge_rehandshake r asked (first_after r asked.id (is_in "noise/handshake"))
]

abbrev pub init_answers : List String
init_answers = "client/pair-init" ∷ "client/pair-finalize" ∷ refusals

module _ ⦃py : Python⦄ where
  abbrev pub is_number : ℕ → Value → Bool
  is_number n (bool b) = false
  is_number n v = same_value v (int (pos n))

  unfoldable pub init_problems : ℕ → RecordedFrame → List Message
  init_problems expected response =
      let index = get "pairing_index" (payload_or_empty response) in
      say_if (not (is_number expected index))
        (say_of "pairing_index is {}, not {}" (index ∷ int (pos expected) ∷ []))
      ++ say_if (has_key "commit_B" (payload_or_empty response))
          (say "it carries commit_B, which only the dynamic pairing code flow sends")

  unfoldable pub judge_pair_init : ConnectionRecord → RecordedFrame → RecordedFrame → Findings
  unfolding init_problems pairing_activations_since_handshake
  judge_pair_init r activation response =
      if not (has_type "client/pair-init" response)
      then conclude "PAIR-PSK-004" fail
          (describe "the client answered the pairing activation with " response
            ", not client/pair-init" [])
          (activation ∷ response ∷ [])
      else if is_empty (init_problems (pairing_activations_since_handshake r activation) response)
      then conclude "PAIR-PSK-004" pass
          (say_of "the client started the attempt with client/pair-init, pairing_index {}"
            (int (pos (pairing_activations_since_handshake r activation)) ∷ []))
          (activation ∷ response ∷ [])
      else conclude "PAIR-PSK-004" fail
          (joined (init_problems (pairing_activations_since_handshake r activation) response))
          (activation ∷ response ∷ [])

  unfoldable pub judge_silence : ConnectionRecord → RecordedFrame → Findings
  unfolding is_rejected
  judge_silence r activation =
      if is_rejected r
      then unreached "PAIR-PSK-004"
      else conclude "PAIR-PSK-004" fail
          (say "the client did not answer the pairing activation with client/pair-init")
          (activation ∷ [])

  unfoldable pub judge_started : ConnectionRecord → RecordedFrame → Findings
  unfolding first_inbound judge_silence judge_pair_init
  judge_started r activation = elim (first_inbound r activation (some init_answers)) [
    | none ↦ judge_silence r activation
    | some response ↦ judge_pair_init r activation response
  ]

  unfoldable pub check_pair_init : ConnectionRecord → ℕ → Findings
  unfolding pairing_activation judge_started
  check_pair_init r since = elim (pairing_activation r since) [
    | none ↦ none
    | some none ↦ inapplicable "PAIR-PSK-004" "the validator sent no pairing_psk activation"
    | some (some activation) ↦ judge_started r activation
  ]
