-- ===== src/Validator/Suites/Keying.antt =====
-- src/conformance/validator/suite_checks.py: which key keyed the handshake, and the checks that judge
-- it: UNPAIRED-001, POSTPAIR-001, 002, 004 and 005.
use conformance.Prelude.{
  String, Bool, not, ◌||◌, Option, none, some, [], ◌∷◌, str_eq, if◌then◌else◌, any,
}
use Prim.Native.String.{◌++◌ as str_append}
use conformance.Validator.Findings.{pass, fail, tool_error}
use conformance.Validator.Record.{
  RecordedFrame, ConnectionRecord, is_keyed, is_mismatch, is_rejected, inbound, outbound,
  first_with, first,
}
use conformance.Validator.Checks.{Findings, say}
use conformance.Validator.Suites.{
  conclude, unreached, first_outbound_activation, has_activity, has_active_roles, optional,
}

-- LONG_TERM, PAIRING, SENTINEL and FALLBACK
abbrev pub long_term : String
long_term = "long_term"

abbrev pub pairing : String
pairing = "pairing"

abbrev pub sentinel : String
sentinel = "sentinel"

abbrev pub fallback : String
fallback = "sentinel_fallback"

-- _KEYING_NAMES and _REFERENCED, none where the key is missing.
unfoldable pub keying_name : String → Option String
keying_name keying =
    if str_eq keying long_term
    then some "the long-term PSK"
    else if str_eq keying pairing
    then some "the pairing PSK"
    else if str_eq keying sentinel
    then some "the Sentinel PSK"
    else if str_eq keying fallback
    then some "a Sentinel fallback from the long-term PSK"
    else none

unfoldable pub referenced : String → Option String
referenced keying =
    if str_eq keying long_term
    then some "the long-term PSK"
    else if str_eq keying pairing
    then some "the pairing PSK"
    else if str_eq keying sentinel
    then some "the Sentinel PSK"
    else if str_eq keying fallback
    then some "the long-term PSK"
    else none

-- _initial_keying
unfoldable pub initial_keying : ConnectionRecord → Option String
initial_keying r = elim (first_with is_keyed r.events) [
  | none ↦ none
  | some keyed ↦ if any is_mismatch r.events then some fallback else keyed.psk_category
]

abbrev pub is_on_transport : RecordedFrame → Bool
is_on_transport f = str_eq f.phase "transport"

abbrev pub message_1 : ConnectionRecord → Option RecordedFrame
message_1 r = first (outbound r "noise/handshake" "cleartext")

-- The branch of _judge_keying where nothing keyed the handshake.
unfoldable pub judge_unkeyed : ConnectionRecord → String → String → Findings
unfolding inbound outbound is_rejected keying_name
judge_unkeyed r id expected = elim (message_1 r) [
  | none ↦ unreached id
  | some asked ↦
      if is_rejected r || any is_on_transport r.frames
      then unreached id
      else elim (keying_name expected) [
        | none ↦ none
        | some name ↦ elim (first (inbound r "noise/handshake" "cleartext")) [
          | none ↦
              conclude id fail
                (say
                  (str_append "the client did not answer Noise message 1, expected to match " name))
                (asked ∷ [])
          | some answer ↦
              conclude id fail
                (say (
                  str_append "the client's Noise message 2 did not verify, expected to match "
                    name))
                (asked ∷ answer ∷ [])
        ]
      ]
]

-- The message of a handshake that the wrong key keyed.
abbrev pub keyed_by : String → String → String
keyed_by actual wanted =
    str_append (str_append "the session was keyed by " actual) (str_append ", not " wanted)

abbrev pub wrong_key : String → Option String → String → String → String
wrong_key keying (some kept) actual wanted =
    if str_eq keying long_term then kept else keyed_by actual wanted
wrong_key keying none actual wanted = keyed_by actual wanted

-- The branch where a key did: raises where one of the keys is not of the tables.
unfoldable pub judge_key :
    ConnectionRecord → String → String → String → Option String → String → Findings
unfolding outbound keying_name referenced
judge_key r id expected passed kept keying =
    let asked = optional (message_1 r) in
    if str_eq keying expected
    then conclude id pass (say passed) asked
    else elim (referenced keying) [
      | none ↦ none
      | some used ↦ elim (referenced expected) [
        | none ↦ none
        | some meant ↦
            if not (str_eq used meant)
            then conclude id tool_error
                (say (
                  str_append (str_append "the validator referenced " used)
                    (str_append ", not " (str_append meant ", so the step tested nothing"))))
                asked
            else elim (keying_name keying) [
              | none ↦ none
              | some actual ↦ elim (keying_name expected) [
                | none ↦ none
                | some wanted ↦ conclude id fail (say (wrong_key keying kept actual wanted)) asked
              ]
            ]
      ]
    ]

-- _judge_keying
unfoldable pub judge_keying : ConnectionRecord → String → String → String → Option String → Findings
unfolding initial_keying judge_unkeyed judge_key
judge_keying r id expected passed kept = elim (initial_keying r) [
  | none ↦ judge_unkeyed r id expected
  | some keying ↦ judge_key r id expected passed kept keying
]

unfoldable pub check_sentinel_handshake : ConnectionRecord → Findings
unfolding judge_keying
check_sentinel_handshake r =
    judge_keying r "UNPAIRED-001" sentinel "the client completed the handshake on the Sentinel PSK"
      none

unfoldable pub check_long_term_reconnect : ConnectionRecord → Findings
unfolding judge_keying
check_long_term_reconnect r =
    judge_keying r "POSTPAIR-001" long_term
      "the client matched the long-term PSK from pairing, bound to this server_id" none

abbrev pub declares_playback_or_roles : RecordedFrame → Bool
declares_playback_or_roles f = has_activity "playback" f || has_active_roles f

unfoldable pub check_forgotten_reconnect : ConnectionRecord → Findings
unfolding judge_keying first_outbound_activation
check_forgotten_reconnect r = elim (first_outbound_activation r declares_playback_or_roles) [
  | some declared ↦
      conclude "POSTPAIR-002" tool_error
        (say "the validator activated playback or roles on a forgotten client") (declared ∷ [])
  | none ↦
      judge_keying r "POSTPAIR-002" sentinel
        "the client accepted the Sentinel handshake from a server that forgot it" none
]

unfoldable pub check_record_dropped : ConnectionRecord → Findings
unfolding judge_keying
check_record_dropped r =
    judge_keying r "POSTPAIR-004" fallback
      "the client no longer holds the unpaired record and fell back to the Sentinel"
      (some "the client still holds the pairing record it was told to drop by server/unpair")

unfoldable pub check_restart_keeps_pairing : ConnectionRecord → Findings
unfolding judge_keying
check_restart_keeps_pairing r =
    judge_keying r "POSTPAIR-005" long_term "the client kept its pairing record across the restart"
      none
