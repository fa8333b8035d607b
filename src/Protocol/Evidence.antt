-- ===== src/Protocol/Evidence.antt =====
-- src/conformance/protocol.py: protocol_evidence_failure, and the assertions that it knows.
pub mod Complete
use conformance.Prelude.{
  String, Bool, false, not, Option, none, some, List, [], ◌∷◌, str_eq, if◌then◌else◌, ◌>>=◌,
  is_empty, any, filter,
}
use Prim.Native.String.{◌++◌ as str_append}
use conformance.Json.{Value, obj, arr, items, Fields, get, is_text, as_text}

pub record ProtocolAssertion : Type 0 where
  pub id : String
  pub title : String
  pub specification_url : String

abbrev pub spec_revision : String
spec_revision = "8c9577ea8719ad082d051ec13cc73ef15ed68948"

abbrev pub specification_url : String → String
specification_url anchor =
    str_append "https://github.com/Sendspin/spec/blob/" (str_append spec_revision anchor)

abbrev pub protocol_assertions : List ProtocolAssertion
protocol_assertions =
    (record {
      id = "CORE-001";
      title = "Handshake messages use the required order and WebSocket frame types.";
      specification_url = specification_url "/messaging.md#communication";
    })
    ∷ (record {
      id = "CORE-002";
      title = "No application message is exchanged before the first server/activate.";
      specification_url = specification_url "/messaging.md#communication";
    })
    ∷ (record {
      id = "CORE-003";
      title = "The server activates only advertised role versions with required support objects.";
      specification_url = specification_url "/messaging.md#client--server-clienthello";
    })
    ∷ (record {
      id = "CORE-004";
      title = "Each activated client sends an initial client/state before role binary data.";
      specification_url = specification_url "/messaging.md#client--server-clientstate";
    })
    ∷ (record {
      id = "PLAYER-001";
      title = "A player stream selects an advertised format and sends valid timestamped chunks.";
      specification_url =
          specification_url "/roles/player/v1.md#server--client-streamstart-player-object";
    })
    ∷ []

-- assertion_id in PROTOCOL_ASSERTIONS
unfoldable pub is_known : String → Bool
is_known assertion_id = any (λ a. str_eq a.id assertion_id) protocol_assertions

pub data Side : Type 0 where
  server client : Side

-- The reasons, with the values that their texts name.
pub data EvidenceReason : Type 0 where
  unknown_assertions : List String → EvidenceReason
  no_protocol : Side → EvidenceReason
  other_revision : Side → Value → EvidenceReason
  no_assertions : Side → EvidenceReason
  missing_assertion : Side → String → EvidenceReason
  not_passed : Side → String → Option String → EvidenceReason
  no_events : Side → String → EvidenceReason

-- The detail of a result that did not pass, where it is a text and not empty.
unfoldable pub detail_of : Fields → Option String
detail_of result = do
  detail ← as_text (get "detail" result)
  if str_eq detail "" then none else some detail

unfoldable pub is_filled_list : Value → Bool
is_filled_list (arr vs) = not (is_empty (items vs))
is_filled_list _ = false

unfoldable pub judge_result : Side → String → Value → Option EvidenceReason
unfolding detail_of is_filled_list
judge_result side assertion_id (obj result) =
    if not (is_text "passed" (get "status" result))
    then some (not_passed side assertion_id (detail_of result))
    else if not (is_filled_list (get "events" result))
    then some (no_events side assertion_id)
    else none
judge_result side assertion_id _ = some (missing_assertion side assertion_id)

unfoldable pub judge_assertions : Side → Fields → List String → Option EvidenceReason
unfolding judge_result
judge_assertions side assertions [] = none
judge_assertions side assertions (assertion_id ∷ ids) =
    elim (judge_result side assertion_id (get assertion_id assertions)) [
      | some reason ↦ some reason
      | none ↦ judge_assertions side assertions ids
    ]

unfoldable pub judge_map : Side → Value → List String → Option EvidenceReason
unfolding judge_assertions
judge_map side (obj assertions) ids = judge_assertions side assertions ids
judge_map side _ ids = some (no_assertions side)

unfoldable pub judge_protocol : Side → Value → List String → Option EvidenceReason
unfolding judge_map
judge_protocol side (obj protocol) ids =
    if not (is_text spec_revision (get "spec_revision" protocol))
    then some (other_revision side (get "spec_revision" protocol))
    else judge_map side (get "assertions" protocol) ids
judge_protocol side _ ids = some (no_protocol side)

-- for role, summary in (("server", …), ("client", …)): the first reason is returned
unfoldable pub first_reason : Option EvidenceReason → Option EvidenceReason → Option EvidenceReason
first_reason none later = later
first_reason (some reason) later = some reason

unfoldable pub protocol_evidence_failure : Fields → Fields → List String → Option EvidenceReason
unfolding is_known judge_protocol first_reason
protocol_evidence_failure server_summary client_summary assertion_ids =
    let unknown = filter (λ a. not (is_known a)) assertion_ids in
    if not (is_empty unknown)
    then some (unknown_assertions unknown)
    else first_reason (judge_protocol server (get "protocol" server_summary) assertion_ids)
        (judge_protocol client (get "protocol" client_summary) assertion_ids)
