-- ===== src/Validator/Checks/Hello.antt =====
-- src/conformance/validator/checks.py: the checks of client/hello, CORE-HELLO-002 to 005.
use conformance.Prelude.{
  String, Bool, true, false, not, ◌&&◌, ◌||◌, Option, none, some, List, [], ◌∷◌, ◌++◌, map, str_eq,
  ◌==◌, if◌then◌else◌, is_empty, filter,
}
use Prim.Native.Char.{code}
use Prim.Native.String.{◌++◌ as str_append}
use conformance.Json.{Value, bool, str, arr, obj, Items, no_item, item, Fields, get, find, Unicode}
use conformance.Validator.Findings.{pass, fail, not_applicable, Message}
use conformance.Validator.Record.{RecordedFrame, payload_or_empty, ConnectionRecord}
use conformance.Validator.Texts.{without_suffix, has_mark, after_mark, before_mark, sorted}
use conformance.Validator.Checks.{
  say, say_of, Findings, report, client_hello, has_key, keys, is_one_of, roles, undefined, under,
  kind, texts,
}

-- SUPPORT_OBJECT_ROLES, sorted
abbrev pub support_object_roles : List String
support_object_roles = "player@v1" ∷ "source@v1" ∷ "visualizer@v1" ∷ []

abbrev pub is_object : Value → Bool
is_object (obj fs) = true
is_object _ = false

abbrev pub support_key : String → String
support_key role = str_append role "_support"

-- The role of which a key is the support object, where it is one of a role version.
abbrev pub supported_role : String → Option String
supported_role k = if has_mark b'@' k then without_suffix "_support" k else none

abbrev pub is_unlisted : List String → String → Bool
is_unlisted listed k = elim (supported_role k) [
  | none ↦ false
  | some role ↦ not (is_one_of listed role)
]

-- The roles without the object that they require, and the objects of roles that are not listed.
unfoldable pub missing_support : Fields → List String
unfolding roles
missing_support hello =
    filter (λ role. is_one_of (roles hello) role && not (is_object (get (support_key role) hello)))
      support_object_roles

unfoldable pub unlisted_support : Fields → List String
unfolding roles
unlisted_support hello = filter (is_unlisted (roles hello)) (sorted (keys hello))

-- "; ".join(problems)
abbrev pub joined : List Message → Message
joined [] = say ""
joined (m ∷ []) = m
joined (m ∷ n ∷ ms) =
    let rest = joined (n ∷ ms) in
    say_of (str_append m.text (str_append "; " rest.text)) (m.values ++ rest.values)

unfoldable pub support_problems : Fields → List Message
unfolding missing_support unlisted_support
support_problems hello =
    map
      (λ role. say_of "{} is listed without its {} object" (str role ∷ str (support_key role) ∷ []))
      (missing_support hello)
    ++ map (λ k. say_of "{} is sent for a role version not in supported_roles" (str k ∷ []))
        (unlisted_support hello)

unfoldable pub check_hello_support_objects : ConnectionRecord → Findings
unfolding client_hello support_problems
check_hello_support_objects r = elim (client_hello r) [
  | none ↦ report "CORE-HELLO-002" not_applicable (say "no client/hello to judge") []
  | some hello ↦
      if is_empty (support_problems (payload_or_empty hello))
      then report "CORE-HELLO-002" pass
          (say "every listed role version has the support object it requires") (hello ∷ [])
      else report "CORE-HELLO-002" fail (joined (support_problems (payload_or_empty hello)))
          (hello ∷ [])
]

-- [^@\s]+@[^@\s]+, where \s is the runtime's white space
module _ ⦃u : Unicode⦄ where
  abbrev pub is_plain : String → Bool
  is_plain String.[] = true
  is_plain (String.◌∷◌ c rest) = not (code c == b'@') && not (u.is_space (code c)) && is_plain rest

  abbrev pub is_role : Value → Bool
  is_role (str s) =
      has_mark b'@' s
      && not (str_eq (before_mark b'@' s) "")
      && not (str_eq (after_mark b'@' s) "")
      && is_plain (before_mark b'@' s)
      && is_plain (after_mark b'@' s)
  is_role _ = false

  unfoldable pub malformed_roles : Items → List Value
  malformed_roles no_item = []
  malformed_roles (item v vs) =
      let rest = malformed_roles vs in if is_role v then rest else v ∷ rest

  unfoldable pub judge_roles : RecordedFrame → Value → Findings
  unfolding malformed_roles
  judge_roles hello (arr vs) =
      if is_empty (malformed_roles vs)
      then report "CORE-HELLO-003" pass (say "every role is <role>@<version>") (hello ∷ [])
      else report "CORE-HELLO-003" fail
          (say_of "roles not of the form <role>@<version>: {}" (malformed_roles vs)) (hello ∷ [])
  judge_roles hello v =
      report "CORE-HELLO-003" fail (say_of "supported_roles is {}, not a list" (str (kind v) ∷ []))
        (hello ∷ [])

  unfoldable pub check_hello_roles : ConnectionRecord → Findings
  unfolding client_hello judge_roles
  check_hello_roles r = elim (client_hello r) [
    | none ↦ report "CORE-HELLO-003" not_applicable (say "no client/hello to judge") []
    | some hello ↦ judge_roles hello (get "supported_roles" (payload_or_empty hello))
  ]

-- PAIR_METHOD_FIELDS, sorted
abbrev pub descriptor_fields : String → List String
descriptor_fields method =
    if str_eq method "dynamic_pairing_code"
    then "formats" ∷ "out_channels" ∷ []
    else "locations" ∷ []

abbrev pub pair_methods : List String
pair_methods = "dynamic_pairing_code" ∷ "pairing_psk" ∷ "static_pairing_code" ∷ []

abbrev pub all_texts : Items → Bool
all_texts no_item = true
all_texts (item (str s) vs) = all_texts vs
all_texts (item v vs) = false

abbrev pub is_text_list : Value → Bool
is_text_list (arr vs) = all_texts vs
is_text_list _ = false

abbrev pub has_text : String → Items → Bool
has_text s no_item = false
has_text s (item (str t) vs) = str_eq t s || has_text s vs
has_text s (item v vs) = has_text s vs

abbrev pub has_display : Value → Bool
has_display (arr vs) = has_text "display" vs
has_display _ = false

abbrev pub say_if : Bool → Message → List Message
say_if true message = message ∷ []
say_if false message = []

-- The round of the loop for a field of the descriptor.
unfoldable pub field_problems : String → String → Option Value → List Message
field_problems method k none =
    say_if (str_eq method "dynamic_pairing_code")
      (say_of "{} is missing" (str (under method k) ∷ []))
field_problems method k (some v) =
    say_if (not (is_text_list v)) (say_of "{} is not a list of strings" (str (under method k) ∷ []))

unfoldable pub fields_problems : String → Fields → List String → List Message
unfolding field_problems
fields_problems method descriptor [] = []
fields_problems method descriptor (k ∷ ks) =
    field_problems method k (find k descriptor) ++ fields_problems method descriptor ks

-- What the formats of a dynamic code have to be.
unfoldable pub format_problems : Value → Value → List Message
format_problems (arr formats) channels =
    say_if (is_none formats) (say "dynamic_pairing_code.formats is empty")
    ++ say_if (has_text "qr_code" formats && not (has_display channels))
        (say "dynamic_pairing_code offers qr_code without a display out_channel")
  where
    is_none : Items → Bool
    is_none no_item = true
    is_none (item v vs) = false
format_problems formats channels = []

unfoldable pub descriptor_problems : String → Value → List Message
unfolding undefined fields_problems format_problems
descriptor_problems method (obj descriptor) =
    map (λ k. say_of "{} is not a defined descriptor field" (str (under method k) ∷ []))
      (undefined descriptor (descriptor_fields method) false)
    ++ fields_problems method descriptor (descriptor_fields method)
    ++ (if str_eq method "dynamic_pairing_code"
        then format_problems (get "formats" descriptor) (get "out_channels" descriptor)
        else [])
descriptor_problems method v =
    say_of "{} descriptor is {}, not an object" (str method ∷ str (kind v) ∷ []) ∷ []

unfoldable pub offered_problems : Fields → List String → List Message
unfolding descriptor_problems
offered_problems methods [] = []
offered_problems methods (method ∷ rest) =
    elim (find method methods) [ none ↦ [] | some v ↦ descriptor_problems method v ]
    ++ offered_problems methods rest

unfoldable pub method_problems : Fields → List Message
unfolding offered_problems
method_problems methods =
    say_if (not (has_key "pairing_psk" methods)) (say "pairing_psk is not offered")
    ++ say_if (has_key "static_pairing_code" methods && has_key "dynamic_pairing_code" methods)
        (say "both static_pairing_code and dynamic_pairing_code are offered")
    ++ offered_problems methods pair_methods

unfoldable pub judge_methods : RecordedFrame → Value → Findings
unfolding method_problems
judge_methods hello (obj methods) =
    if is_empty (method_problems methods)
    then report "CORE-HELLO-004" pass
        (say_of "pairing methods are well formed: {}" (texts (sorted (keys methods)) ∷ []))
        (hello ∷ [])
    else report "CORE-HELLO-004" fail (joined (method_problems methods)) (hello ∷ [])
judge_methods hello v =
    report "CORE-HELLO-004" fail
      (say_of "supported_pair_methods is {}, not an object" (str (kind v) ∷ [])) (hello ∷ [])

unfoldable pub check_hello_pair_methods : ConnectionRecord → Findings
unfolding client_hello judge_methods
check_hello_pair_methods r = elim (client_hello r) [
  | none ↦ report "CORE-HELLO-004" not_applicable (say "no client/hello to judge") []
  | some hello ↦ judge_methods hello (get "supported_pair_methods" (payload_or_empty hello))
]

-- access["enabled"], where it is a bool
unfoldable pub enabled : Value → Option Bool
enabled (obj access) = elim (get "enabled" access) [ bool b ↦ some b | _ ↦ none ]
enabled _ = none

unfoldable pub check_hello_unpaired_access : ConnectionRecord → Findings
unfolding client_hello enabled
check_hello_unpaired_access r = elim (client_hello r) [
  | none ↦ report "CORE-HELLO-005" not_applicable (say "no client/hello to judge") []
  | some hello ↦
      let access = get "unpaired_access" (payload_or_empty hello) in
      elim (enabled access) [
        | none ↦
            report "CORE-HELLO-005" fail
              (say_of "unpaired_access is {}, not an object with a boolean enabled" (access ∷ []))
              (hello ∷ [])
        | some b ↦
            report "CORE-HELLO-005" pass (say_of "unpaired_access.enabled is {}" (bool b ∷ []))
              (hello ∷ [])
      ]
]
