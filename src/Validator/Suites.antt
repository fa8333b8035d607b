-- ===== src/Validator/Suites.antt =====
-- src/conformance/validator/suite_checks.py: what the checks of the suites share, and the table of
-- their references.
pub mod Keying
pub mod Refusal
pub mod Pairing
pub mod Finalize
pub mod PostPairing
pub mod Order
pub mod Keyed
pub mod Refused
pub mod Started
pub mod Unpaired
use conformance.Prelude.{
  ℕ, suc, ◌-◌, ◌/◌, String, Bool, true, false, not, ◌&&◌, Option, none, some, List, [], ◌∷◌, str_eq,
  ltb, if◌then◌else◌,
}
use conformance.Json.{Value, null, bool, int, real, str, arr, obj, Fields, no_field, get, is_text}
use conformance.Json.Python.{is_truthy}
use Prim.Native.String.{◌++◌ as str_append}
use conformance.Validator.Findings.{
  Verdict, pass, fail, not_applicable, tool_error, Message, Finding,
}
use conformance.Validator.Record.{
  RecordedFrame, RecordedEvent, ConnectionRecord, payload, payload_or_empty, has_type, has_type_in,
  is_inbound, frame_type, is_keyed, is_mismatch, is_rejected, has_closed, inbound, outbound,
  first_with, first,
}
use conformance.Validator.Checks.{Findings, finding_of, say, say_of, client_hello}
use conformance.Validator.Checks.Hello.{has_text, enabled}

-- SPEC_REFS: the row of each check of the suites.
abbrev pub suite_refs : List (String × String)
suite_refs =
    ("UNPAIRED-001", "connection.md:105, connection.md:119")
    ∷ ("UNPAIRED-002", "messaging.md:251-253, messaging.md:257")
    ∷ ("UNPAIRED-003", "pairing.md:47, messaging.md:297-299")
    ∷ ("UNPAIRED-004", "messaging.md:251-255")
    ∷ ("PAIR-PSK-001", "pairing.md:246-268")
    ∷ ("PAIR-PSK-002", "pairing.md:86-95")
    ∷ ("PAIR-PSK-003", "pairing.md:79, pairing.md:83, connection.md:147-151")
    ∷ ("PAIR-PSK-004", "pairing.md:59, pairing.md:84, pairing.md:327, pairing.md:338-341")
    ∷ ("PAIR-PSK-005", "pairing.md:59, pairing.md:388-390")
    ∷ ("PAIR-PSK-006", "pairing.md:3, pairing.md:23, connection.md:147-151")
    ∷ ("PAIR-PSK-007", "messaging.md:239-241, connection.md:151")
    ∷ ("POSTPAIR-001", "connection.md:119-121, pairing.md:23")
    ∷ ("POSTPAIR-002", "connection.md:119, connection.md:123-129")
    ∷ ("POSTPAIR-003", "messaging.md:450-456, messaging.md:473")
    ∷ ("POSTPAIR-004", "messaging.md:456, connection.md:125")
    ∷ ("POSTPAIR-005", "pairing.md:23")
    ∷ ("POSTPAIR-006", "roles/player/v1.md:59")
    ∷ []

-- return [_finding(...)], _n_a and _not_reached
abbrev pub conclude : String → Verdict → Message → List RecordedFrame → Findings
conclude id verdict message frames = some (finding_of suite_refs id verdict message frames ∷ [])

abbrev pub inapplicable : String → String → Findings
inapplicable id text = conclude id not_applicable (say text) []

abbrev pub unreached : String → Findings
unreached id = inapplicable id "not reached: the connection ended at an earlier failure"

-- first_after: the first frame of a list with a later id for which the test holds.
abbrev pub is_later : ℕ → (RecordedFrame → Bool) → RecordedFrame → Bool
is_later since holds f = ltb since f.id && holds f

unfoldable pub first_after : ConnectionRecord → ℕ → (RecordedFrame → Bool) → Option RecordedFrame
first_after r since holds = first_with (is_later since holds) r.frames

-- is_in and is_out
abbrev pub is_in : String → RecordedFrame → Bool
is_in message_type f = is_inbound f && str_eq f.phase "transport" && has_type message_type f

abbrev pub is_out : String → RecordedFrame → Bool
is_out message_type f = not (is_inbound f) && str_eq f.phase "transport" && has_type message_type f

-- The test of first_inbound, where none is every type.
abbrev pub is_listed : Option (List String) → RecordedFrame → Bool
is_listed none f = true
is_listed (some types) f = has_type_in types f

abbrev pub is_answer : Option (List String) → RecordedFrame → Bool
is_answer types f =
    is_inbound f
    && str_eq f.phase "transport"
    && not (has_type "client/time" f)
    && is_listed types f

unfoldable pub first_inbound :
    ConnectionRecord → RecordedFrame → Option (List String) → Option RecordedFrame
unfolding first_after
first_inbound r after types = first_after r after.id (is_answer types)

-- _REFUSALS
abbrev pub refusals : List String
refusals = "pair/abort" ∷ "client/goodbye" ∷ []

-- "…" in activities(payload)
abbrev pub has_activity : String → RecordedFrame → Bool
has_activity activity f = elim (get "activities" (payload_or_empty f)) [
  | arr vs ↦ has_text activity vs
  | _ ↦ false
]

abbrev pub has_active_roles : RecordedFrame → Bool
has_active_roles f = is_truthy (get "active_roles" (payload_or_empty f))

-- _first_outbound_activation
unfoldable pub first_outbound_activation :
    ConnectionRecord → (RecordedFrame → Bool) → Option RecordedFrame
unfolding outbound
first_outbound_activation r holds = first_with holds (outbound r "server/activate" "transport")

-- ((payload).get("pairing") or {}).get("method"), none where the value has no get
abbrev pub pairing_method : Value → Option Value
pairing_method (obj fields) = some (get "method" fields)
pairing_method v = if is_truthy v then none else some null

-- The test of _pairing_activation.
abbrev pub is_pairing_activation : RecordedFrame → Bool
is_pairing_activation f = is_out "server/activate" f && has_activity "pairing" f

-- _pairing_activation: raises where the frame that it asks has a pairing without a get.
abbrev pub pairing_in : ℕ → List RecordedFrame → Option (Option RecordedFrame)
pairing_in since [] = some none
pairing_in since (f ∷ fs) =
    let rest = pairing_in since fs in
    if ltb since f.id && is_pairing_activation f
    then elim (pairing_method (get "pairing" (payload_or_empty f))) [
      | none ↦ none
      | some method ↦ if is_text "pairing_psk" method then some (some f) else rest
    ]
    else rest

unfoldable pub pairing_activation : ConnectionRecord → ℕ → Option (Option RecordedFrame)
pairing_activation r since = pairing_in since r.frames

-- pairing_activations_since_handshake: the loop over the frames, with its count.
abbrev pub is_handshake_sent : RecordedFrame → Bool
is_handshake_sent f = not (is_inbound f) && has_type "noise/handshake" f

unfoldable pub count_step : ℕ → RecordedFrame → ℕ
count_step count f =
    if is_handshake_sent f then 0 else if is_pairing_activation f then suc count else count

unfoldable pub count_pairings : ℕ → ℕ → List RecordedFrame → ℕ
unfolding count_step
count_pairings last count [] = count
count_pairings last count (f ∷ fs) =
    let rest = count_pairings last (count_step count f) fs in if ltb last f.id then count else rest

unfoldable pub pairing_activations_since_handshake : ConnectionRecord → RecordedFrame → ℕ
unfolding count_pairings
pairing_activations_since_handshake r activation = count_pairings activation.id 0 r.frames

-- unpaired_access
unfoldable pub unpaired_access : ConnectionRecord → Option Bool
unfolding client_hello enabled
unpaired_access r = elim (client_hello r) [
  | none ↦ none
  | some hello ↦ enabled (get "unpaired_access" (payload_or_empty hello))
]

-- describe, between two texts
abbrev pub type_value : RecordedFrame → Value
type_value f = elim (frame_type f) [ none ↦ null | some t ↦ str t ]

abbrev pub describe : String → RecordedFrame → String → List Value → Message
describe before f after values = elim (get "reason" (payload_or_empty f)) [
  | null ↦ say_of (str_append before (str_append "{}" after)) (type_value f ∷ values)
  | reason ↦ say_of (str_append before (str_append "{} {}" after)) (type_value f ∷ reason ∷ values)
]

abbrev pub reason_of : RecordedFrame → Value
reason_of f = get "reason" (payload_or_empty f)

abbrev pub optional : Option RecordedFrame → List RecordedFrame
optional none = []
optional (some f) = f ∷ []

-- not_run
abbrev pub not_run_rows : Verdict → String → List String → List Finding
not_run_rows verdict text [] = []
not_run_rows verdict text (id ∷ ids) =
    finding_of suite_refs id verdict (say text) [] ∷ not_run_rows verdict text ids

unfoldable pub not_run : List String → Verdict → String → List Finding
not_run ids verdict text = not_run_rows verdict text ids
