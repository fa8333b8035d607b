-- ===== src/Validator/Checks/HelloFields.antt =====
-- src/conformance/validator/checks.py: the fields and the name of client/hello, CORE-HELLO-006 and 007.
use conformance.Prelude.{
  String, Bool, true, false, ◌||◌, Option, none, some, List, [], ◌∷◌, ◌++◌, map, str_eq,
  if◌then◌else◌, is_empty, filter,
}
use text.Mathlib.Text.{starts_with}
use conformance.Json.{Value, str, obj, Fields, get}
use conformance.Validator.Findings.{pass, fail, warn, not_applicable}
use conformance.Validator.Record.{payload_or_empty, ConnectionRecord}
use conformance.Validator.Texts.{after_mark}
use conformance.Validator.Checks.{
  say, say_of, Findings, report, client_hello, roles, undefined, under, texts,
}
use conformance.Validator.Checks.Opening.{message_or_empty}
use conformance.Validator.Checks.Hello.{support_object_roles, support_key}

abbrev pub hello_fields : List String
hello_fields =
    "name" ∷ "device_info" ∷ "supported_roles" ∷ "supported_pair_methods" ∷ "unpaired_access" ∷ []

abbrev pub device_info_fields : List String
device_info_fields = "product_name" ∷ "manufacturer" ∷ "software_version" ∷ "mac_address" ∷ []

-- An application-specific role version: its name or its version starts with "_".
abbrev pub is_custom : String → Bool
is_custom role = starts_with role "_" || starts_with (after_mark b'@' role) "_"

unfoldable pub defined_fields : Fields → List String
unfolding roles
defined_fields hello =
    hello_fields
    ++ map support_key support_object_roles
    ++ map support_key (filter is_custom (roles hello))

-- The undefined keys of an object at a key of the hello.
unfoldable pub nested_undefined : String → List String → Value → List String
unfolding undefined
nested_undefined name defined (obj fields) =
    map (λ k. under "payload" (under name k)) (undefined fields defined false)
nested_undefined name defined _ = []

unfoldable pub hello_undefined : Fields → Fields → List String
unfolding undefined defined_fields nested_undefined
hello_undefined message hello =
    undefined message ("type" ∷ "payload" ∷ []) false
    ++ map (under "payload") (undefined hello (defined_fields hello) true)
    ++ nested_undefined "device_info" device_info_fields (get "device_info" hello)
    ++ nested_undefined "unpaired_access" ("enabled" ∷ []) (get "unpaired_access" hello)

unfoldable pub check_hello_fields : ConnectionRecord → Findings
unfolding client_hello hello_undefined
check_hello_fields r = elim (client_hello r) [
  | none ↦ report "CORE-HELLO-006" not_applicable (say "no client/hello to judge") []
  | some hello ↦
      let extra = hello_undefined (message_or_empty hello) (payload_or_empty hello) in
      if is_empty extra
      then report "CORE-HELLO-006" pass (say "client/hello has no undefined fields") (hello ∷ [])
      else report "CORE-HELLO-006" fail
          (say_of "client/hello carries undefined fields: {}" (texts extra ∷ [])) (hello ∷ [])
]

abbrev pub same_name : Value → String → Bool
same_name (str s) name = str_eq s name
same_name _ name = false

unfoldable pub check_hello_name_matches_txt : ConnectionRecord → Option String → Findings
unfolding client_hello
check_hello_name_matches_txt r none =
    report "CORE-HELLO-007" not_applicable
      (say "the client was not discovered over mDNS with a TXT name") []
check_hello_name_matches_txt r (some txt_name) = elim (client_hello r) [
  | none ↦ report "CORE-HELLO-007" not_applicable (say "no client/hello to judge") []
  | some hello ↦
      if same_name (get "name" (payload_or_empty hello)) txt_name
      then report "CORE-HELLO-007" pass (say "client/hello name matches the TXT name") (hello ∷ [])
      else report "CORE-HELLO-007" warn
          (say_of "client/hello name {} differs from TXT name {}"
            (get "name" (payload_or_empty hello) ∷ str txt_name ∷ []))
          (hello ∷ [])
]
