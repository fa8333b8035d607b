-- ===== src/Tests/PayloadTests.antt =====
-- The theorems on the messages (src/conformance/protocol.py) at concrete summaries.
use conformance.Prelude.{String, ◌≡◌, refl, ◌≢◌, ◌↔◌, true, none, some, List, [], ◌∷◌, All}
use conformance.Json.{Value, null, str, arr, Items, items, obj, Fields, get, find}
use conformance.Protocol.Activation.{activation_violation}
use conformance.Protocol.Activation.Conforms.{IsActivation, activation_violation-none_iff}
use conformance.Protocol.GroupUpdate.{GroupDefect, no_text, defective, group_update_violation}
use conformance.Protocol.GroupUpdate.Conforms.{IsGroupUpdate}
use conformance.Protocol.GroupUpdate.Verdict.{group_update_violation-none_iff}
use conformance.Protocol.Evidence.{spec_revision, is_known, protocol_evidence_failure}
use conformance.Protocol.Evidence.Complete.{HasEvidence, protocol_evidence_failure-none_iff}
use conformance.Tests.Samples.{object, sequence, number}

abbrev both_activities : Value
both_activities = arr (sequence (str "pairing" ∷ str "playback" ∷ []))

abbrev payload : Fields
payload = object (("activities", both_activities) ∷ ("active_roles", arr (sequence [])) ∷ [])

abbrev activation : Fields
activation = object (("type", str "server/activate") ∷ ("payload", obj payload) ∷ [])

abbrev activated : Fields
activated = object (("activation", obj activation) ∷ [])

activation_violation-none_iff_example :
    (activation_violation activated ≡ none) ↔ IsActivation payload
activation_violation-none_iff_example =
    activation_violation-none_iff activated activation payload refl refl refl

abbrev update : String → Value → Value
update kind name = obj (
    object (
      ("type", str kind)
      ∷ (
        "payload",
        obj (
            object (
              ("playback_state", str "playing")
              ∷ ("group_id", str "g")
              ∷ ("group_name", name)
              ∷ [])),
      )
      ∷ []))

-- The second group/update has a name that is no text.
abbrev updates : Items
updates = sequence (update "group/update" (str "Kitchen") ∷ update "group/update" (number 3) ∷ [])

abbrev grouped : Fields
grouped = object (("activation", obj activation) ∷ ("group_updates", arr updates) ∷ [])

grouped-activated : find "activation" grouped ≢ some null
grouped-activated e = cc (e)

group_update_violation-none_iff_example : (group_update_violation grouped ≡ none) ↔ (
    (vs : Items) × (get "group_updates" grouped ≡ arr vs)
    × (items vs ≢ [])
    × All IsGroupUpdate (items vs))
group_update_violation-none_iff_example = group_update_violation-none_iff grouped grouped-activated

abbrev name_defect : List GroupDefect
name_defect = no_text "group_name" (number 3) ∷ []

grouped-fails : group_update_violation grouped ≡ some (defective 2 2 name_defect)
unfolding group_update_violation
grouped-fails = refl

abbrev result : Value
result = obj (object (("status", str "passed") ∷ ("events", arr (sequence (number 1 ∷ []))) ∷ []))

abbrev reported : Fields
reported = object (
    (
      "protocol",
      obj (
          object (
            ("spec_revision", str spec_revision)
            ∷ ("assertions", obj (object (("CORE-001", result) ∷ [])))
            ∷ [])),
    )
    ∷ [])

abbrev asked : List String
asked = "CORE-001" ∷ []

protocol_evidence_failure-none_iff_example :
    (protocol_evidence_failure reported reported asked ≡ none) ↔ (
      All (λ id. is_known id ≡ true) asked
      × HasEvidence (get "protocol" reported) asked
      × HasEvidence (get "protocol" reported) asked)
protocol_evidence_failure-none_iff_example =
    protocol_evidence_failure-none_iff reported reported asked

-- The evidence passes.
reported-passes : protocol_evidence_failure reported reported asked ≡ none
unfolding protocol_evidence_failure
reported-passes = refl
