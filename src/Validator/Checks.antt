-- ===== src/Validator/Checks.antt =====
-- src/conformance/validator/checks.py: what the checks share, and the table of their references. In
-- a message, a binary frame is named by the number of its type alone.
pub mod Opening
pub mod Hello
pub mod HelloFields
pub mod State
pub mod Run
pub mod Reports
pub mod Single
pub mod Order
pub mod Isolation
pub mod Support
use conformance.Prelude.{
  ◌-◌, ◌/◌, String, Bool, false, not, ◌&&◌, ◌||◌, Option, none, some, List, [], ◌∷◌, map, str_eq,
  if◌then◌else◌, any, filter, pos,
}
use mathlib.Core.Option
use Prim.Native.String.{◌++◌ as str_append}
use text.Mathlib.Text.{starts_with}
use conformance.Json.{
  Value, null, bool, int, real, str, arr, obj, items, Items, Fields, no_field, field, get,
}
use conformance.Json.Python.{is_truthy}
use conformance.Validator.Findings.{
  Verdict, pass, fail, not_applicable, Evidence, machine, Message, Finding,
}
use conformance.Validator.Record.{
  RecordedFrame, payload_or_empty, has_type, is_inbound, frame_type, ConnectionRecord, inbound,
  outbound, first,
}
use conformance.Validator.Texts.{sorted}

-- SPEC_REFS: the row of each check of this module.
abbrev pub spec_refs : List (String × String)
spec_refs =
    ("CORE-INIT-001", "messaging.md:5, messaging.md:16")
    ∷ ("CORE-INIT-002", "messaging.md:145")
    ∷ ("CORE-INIT-003", "messaging.md:146")
    ∷ ("CORE-INIT-004", "messaging.md:147, connection.md:78-81")
    ∷ ("CORE-INIT-005", "messaging.md:28, messaging.md:141-147")
    ∷ ("CORE-NOISE-001", "messaging.md:171")
    ∷ ("CORE-ORDER-001", "messaging.md:14")
    ∷ ("CORE-HELLO-001", "messaging.md:11, messaging.md:198")
    ∷ ("CORE-HELLO-002", "messaging.md:216-218, messaging.md:225")
    ∷ ("CORE-HELLO-003", "template.md:124, template.md:146")
    ∷ ("CORE-HELLO-004", "messaging.md:219, pairing.md:305-319")
    ∷ ("CORE-HELLO-005", "messaging.md:220-221")
    ∷ ("CORE-HELLO-006", "messaging.md:28, messaging.md:202-223")
    ∷ ("CORE-HELLO-007", "connection.md:19")
    ∷ ("CORE-STATE-001", "messaging.md:297-299")
    ∷ ("CORE-STATE-002", "messaging.md:301-303")
    ∷ ("CORE-STATE-003", "messaging.md:306-309, template.md:134")
    ∷ ("CORE-TIME-001", "messaging.md:281")
    ∷ []

-- The reference at an id, empty where the table has none, which is so of no id used here.
abbrev pub ref_at : List (String × String) → String → String
ref_at [] id = ""
ref_at (row ∷ rows) id = let later = ref_at rows id in if str_eq row.0 id then row.1 else later

abbrev pub say : String → Message
say text = record { text = text; values = [] }

abbrev pub say_of : String → List Value → Message
say_of text values = record { text = text; values = values }

-- What a check returns: none where it raises.
abbrev pub Findings : Type 0
Findings = Option (List Finding)

-- _finding, for the rows of a table of references.
abbrev pub finding_of :
    List (String × String) → String → Verdict → Message → List RecordedFrame → Finding
finding_of refs id verdict message frames = record {
  id = id;
  verdict = verdict;
  spec_ref = ref_at refs id;
  message = message;
  evidence = machine;
  frames = map (λ f. f.id) frames;
}

-- return [_finding(...)]
abbrev pub report : String → Verdict → Message → List RecordedFrame → Findings
report id verdict message frames = some (finding_of spec_refs id verdict message frames ∷ [])

abbrev pub not_reached : String → Findings
not_reached id =
    report id not_applicable (say "not reached: the connection ended at an earlier failure") []

-- _client_init: raises IndexError where nothing was recorded; none where the client did not open
-- with client/init.
unfoldable pub client_init : ConnectionRecord → Option (Option RecordedFrame)
client_init r = elim r.frames [
  | [] ↦ none
  | f ∷ fs ↦ some (
      if is_inbound f && str_eq f.phase "cleartext" && has_type "client/init" f
      then some f
      else none)
]

unfoldable pub client_hello : ConnectionRecord → Option RecordedFrame
unfolding inbound
client_hello r = first (inbound r "client/hello" "transport")

unfoldable pub initial_state : ConnectionRecord → Option RecordedFrame
unfolding inbound
initial_state r = first (inbound r "client/state" "transport")

-- key in d
abbrev pub has_key : String → Fields → Bool
has_key k no_field = false
has_key k (field j v rest) = str_eq j k || has_key k rest

abbrev pub keys : Fields → List String
keys no_field = []
keys (field k v rest) = k ∷ keys rest

abbrev pub is_one_of : List String → String → Bool
is_one_of names name = any (str_eq name) names

abbrev pub text_items : Items → List String
text_items Items.no_item = []
text_items (Items.item (str s) vs) = s ∷ text_items vs
text_items (Items.item v vs) = text_items vs

-- The texts that the list at supported_roles has.
unfoldable pub roles : Fields → List String
roles hello = elim (get "supported_roles" hello) [ arr vs ↦ text_items vs | _ ↦ [] ]

abbrev pub is_allowed : List String → Bool → String → Bool
is_allowed defined custom k = is_one_of defined k || (custom && starts_with k "_")

-- _undefined
unfoldable pub undefined : Fields → List String → Bool → List String
undefined object defined custom =
    sorted (filter (λ k. not (is_allowed defined custom k)) (keys object))

abbrev pub under : String → String → String
under name k = str_append name (str_append "." k)

-- _kind, with type(value).__name__
abbrev pub kind : Value → String
kind null = "missing"
kind (bool b) = "a bool"
kind (int n) = "a int"
kind (real r) = "a float"
kind (str s) = "a str"
kind (arr vs) = "a list"
kind (obj fs) = "a dict"

abbrev pub texts : List String → Value
texts ss = arr (listed ss)
  where
    listed : List String → Items
    listed [] = Items.no_item
    listed (t ∷ ts) = Items.item (str t) (listed ts)

-- _what: what a frame is, for a message
abbrev pub what : RecordedFrame → Value
what f = elim (frame_type f) [
  | some t ↦ str t
  | none ↦ elim f.error [
    | some e ↦ str (str_append "a frame that did not decode: " e)
    | none ↦ elim f.binary_type [
      | some n ↦ int (pos n)
      | none ↦ str "a JSON message without a type"
    ]
  ]
]

abbrev pub frame_values : List RecordedFrame → Items
frame_values [] = Items.no_item
frame_values (f ∷ fs) = Items.item (what f) (frame_values fs)
