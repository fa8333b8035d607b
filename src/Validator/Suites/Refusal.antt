-- ===== src/Validator/Suites/Refusal.antt =====
-- src/conformance/validator/suite_checks.py: what an unpaired activation has to be answered with,
-- UNPAIRED-002 to 004.
use conformance.Prelude.{String, Bool, true, false, not, none, some, [], ◌∷◌, if◌then◌else◌}
use Prim.Native.String.{◌++◌ as str_append}
use conformance.Json.{Value, bool, int, real, get, is_text}
use conformance.Validator.Findings.{pass, fail, tool_error}
use conformance.Validator.Record.{
  RecordedFrame, ConnectionRecord, has_type, payload_or_empty, is_rejected, has_closed,
}
use conformance.Validator.Checks.{Findings, say, say_of}
use conformance.Validator.Suites.{
  conclude, inapplicable, unreached, first_inbound, refusals, first_outbound_activation,
  has_activity, has_active_roles, unpaired_access, describe, reason_of,
}

abbrev pub quoted : String → String → String → String
quoted before reason after =
    str_append before (str_append "'" (str_append reason (str_append "'" after)))

-- _judge_refusal, once there is a client/goodbye, and where there is none.
unfoldable pub judge_goodbye : String → RecordedFrame → String → RecordedFrame → Findings
judge_goodbye id activation reason goodbye =
    if is_text reason (reason_of goodbye)
    then conclude id pass
        (say (quoted "the client refused the activation with client/goodbye " reason ""))
        (activation ∷ goodbye ∷ [])
    else conclude id fail
        (say_of (quoted "the client refused the activation with goodbye {}, not " reason "")
          (reason_of goodbye ∷ []))
        (activation ∷ goodbye ∷ [])

unfoldable pub judge_no_goodbye : ConnectionRecord → String → RecordedFrame → String → Findings
unfolding is_rejected has_closed first_inbound
judge_no_goodbye r id activation reason =
    if is_rejected r then unreached id else elim (first_inbound r activation none) [
      | some response ↦
          conclude id fail
            (describe "the client answered the activation with " response
              (quoted ", not client/goodbye " reason "") [])
            (activation ∷ response ∷ [])
      | none ↦
          conclude id fail
            (say (
              if has_closed r
              then quoted "the client closed the connection without client/goodbye " reason ""
              else quoted "the client kept the connection open without client/goodbye " reason ""))
            (activation ∷ [])
    ]

unfoldable pub judge_refusal : ConnectionRecord → String → RecordedFrame → String → Findings
unfolding judge_goodbye judge_no_goodbye first_inbound
judge_refusal r id activation reason =
    elim (first_inbound r activation (some ("client/goodbye" ∷ []))) [
      | some goodbye ↦ judge_goodbye id activation reason goodbye
      | none ↦ judge_no_goodbye r id activation reason
    ]

unfoldable pub judge_aborted : ConnectionRecord → RecordedFrame → RecordedFrame → Findings
unfolding has_closed
judge_aborted r activation response =
    if not (has_type "pair/abort" response)
    then conclude "UNPAIRED-004" fail
        (describe "the client answered with " response ", not pair/abort 'method_not_supported'" [])
        (activation ∷ response ∷ [])
    else if not (is_text "method_not_supported" (reason_of response))
    then conclude "UNPAIRED-004" fail
        (say_of "the client aborted with {}, not 'method_not_supported'" (reason_of response ∷ []))
        (activation ∷ response ∷ [])
    else if has_closed r
    then conclude "UNPAIRED-004" fail
        (say "the client aborted with 'method_not_supported' but closed the connection")
        (activation ∷ response ∷ [])
    else conclude "UNPAIRED-004" pass
        (say "the client aborted with 'method_not_supported' and kept the connection")
        (activation ∷ response ∷ [])

-- _judge_abort
unfoldable pub judge_abort : ConnectionRecord → RecordedFrame → Findings
unfolding judge_aborted first_inbound
judge_abort r activation = elim (first_inbound r activation (some refusals)) [
  | none ↦
      conclude "UNPAIRED-004" fail
        (say "the client answered with nothing, not pair/abort 'method_not_supported'")
        (activation ∷ [])
  | some response ↦ judge_aborted r activation response
]

abbrev pub declares_playback : RecordedFrame → Bool
declares_playback f = has_activity "playback" f

abbrev pub declares_pairing : RecordedFrame → Bool
declares_pairing f = has_activity "pairing" f

unfoldable pub check_pairing_required : ConnectionRecord → Findings
unfolding unpaired_access first_outbound_activation judge_refusal
check_pairing_required r = elim (unpaired_access r) [
  | some false ↦ elim (first_outbound_activation r declares_playback) [
    | none ↦ inapplicable "UNPAIRED-002" "the validator did not declare playback"
    | some activation ↦ judge_refusal r "UNPAIRED-002" activation "pairing_required"
  ]
  | _ ↦ inapplicable "UNPAIRED-002" "the client/hello did not report unpaired access disabled"
]

-- The texts of the roles in the last message: raises where they are no sequence.
abbrev pub name_roles : Value → RecordedFrame → Findings
name_roles (bool b) activation = none
name_roles (int n) activation = none
name_roles (real x) activation = none
name_roles listed activation =
    conclude "UNPAIRED-003" fail
      (say_of "no client/state followed the unpaired activation of {}" (listed ∷ []))
      (activation ∷ [])

unfoldable pub judge_accepted : ConnectionRecord → RecordedFrame → Findings
unfolding first_inbound is_rejected
judge_accepted r activation = elim (first_inbound r activation (some ("client/state" ∷ refusals))) [
  | some response ↦
      if has_type "client/state" response
      then conclude "UNPAIRED-003" pass
          (say "the client accepted the unpaired activation and sent client/state")
          (activation ∷ response ∷ [])
      else conclude "UNPAIRED-003" fail
          (describe "the client refused an admissible unpaired activation with " response "" [])
          (activation ∷ response ∷ [])
  | none ↦
      if is_rejected r
      then unreached "UNPAIRED-003"
      else name_roles (get "active_roles" (payload_or_empty activation)) activation
]

unfoldable pub check_unpaired_playback : ConnectionRecord → Findings
unfolding unpaired_access first_outbound_activation judge_accepted
check_unpaired_playback r = elim (unpaired_access r) [
  | some true ↦ elim (first_outbound_activation r has_active_roles) [
    | none ↦
        conclude "UNPAIRED-003" tool_error
          (say "the validator activated no roles, though unpaired access is enabled") []
    | some activation ↦ judge_accepted r activation
  ]
  | _ ↦ inapplicable "UNPAIRED-003" "the client/hello did not report unpaired access enabled"
]

unfoldable pub judge_inadmissible : ConnectionRecord → RecordedFrame → Findings
unfolding unpaired_access judge_refusal judge_abort
judge_inadmissible r activation = elim (unpaired_access r) [
  | some false ↦ judge_refusal r "UNPAIRED-004" activation "unauthorized"
  | some true ↦ judge_abort r activation
  | none ↦ inapplicable "UNPAIRED-004" "the client/hello did not report unpaired access"
]

unfoldable pub check_inadmissible_activation : ConnectionRecord → Findings
unfolding first_outbound_activation judge_inadmissible
check_inadmissible_activation r = elim (first_outbound_activation r declares_pairing) [
  | none ↦ inapplicable "UNPAIRED-004" "the validator sent no inadmissible activation"
  | some activation ↦ judge_inadmissible r activation
]
