-- ===== src/Validator/Checks/State.antt =====
-- src/conformance/validator/checks.py: the checks of client/state and client/time.
use conformance.Prelude.{
  String, Bool, true, false, not, ◌&&◌, Option, none, some, List, [], ◌∷◌, ◌++◌, map, ltb,
  if◌then◌else◌, is_some, ◌>>=◌, length, take, is_empty, filter, pos,
}
use conformance.Json.{Value, bool, str, arr, obj, Fields, get, as_integer}
use conformance.Json.Python.{is_truthy}
use conformance.Validator.Findings.{pass, fail, not_applicable}
use conformance.Validator.Record.{
  RecordedFrame, payload_or_empty, ConnectionRecord, inbound, outbound, is_rejected, first,
  first_with,
}
use conformance.Validator.Texts.{before_mark, sorted_set, prepend}
use conformance.Validator.Checks.{
  say, say_of, Findings, report, not_reached, initial_state, has_key, keys, is_one_of, text_items,
  texts,
}

-- The texts that `active_roles or []` yields, none where it cannot be iterated: a text yields its
-- characters, and an object its keys.
abbrev pub characters : String → List String
characters String.[] = []
characters (String.◌∷◌ c rest) = prepend c "" ∷ characters rest

unfoldable pub active_texts : Value → Option (List String)
active_texts (arr vs) = some (text_items vs)
active_texts (str s) = some (characters s)
active_texts (obj fields) = some (keys fields)
active_texts v = if is_truthy v then none else some []

abbrev pub is_after : Option RecordedFrame → RecordedFrame → Bool
is_after none activation = false
is_after (some before) activation = ltb before.id activation.id

-- _active_roles: the loop ends at the first activation after `before`. A role stands once for each
-- activation that has it.
unfoldable pub roles_before : Option RecordedFrame → List RecordedFrame → Option (List String)
unfolding active_texts
roles_before before [] = some []
roles_before before (activation ∷ rest) =
    let later = roles_before before rest in
    if is_after before activation
    then some []
    else active_texts (get "active_roles" (payload_or_empty activation)) >>= λ names.
        later >>= λ others. some (names ++ others)

unfoldable pub active_roles : ConnectionRecord → Option RecordedFrame → Option (List String)
unfolding outbound roles_before
active_roles r before = roles_before before (outbound r "server/activate" "transport")

-- CORE-STATE-001, where roles are active.
unfoldable pub judge_no_state : ConnectionRecord → RecordedFrame → List String → Findings
unfolding inbound is_rejected
judge_no_state r activation names =
    elim (first_with (λ f. ltb activation.id f.id) (inbound r "client/goodbye" "transport")) [
      | some goodbye ↦
          report "CORE-STATE-001" not_applicable
            (say "the client said goodbye before reporting its state") (goodbye ∷ [])
      | none ↦
          if is_rejected r
          then not_reached "CORE-STATE-001"
          else report "CORE-STATE-001" fail
              (say_of "no client/state followed activating {}" (texts (sorted_set names) ∷ []))
              (activation ∷ [])
    ]

unfoldable pub judge_state_sent : ConnectionRecord → RecordedFrame → List String → Findings
unfolding initial_state judge_no_state
judge_state_sent r activation [] =
    report "CORE-STATE-001" not_applicable
      (say "no roles are active, so no initial client/state is owed") (activation ∷ [])
judge_state_sent r activation (name ∷ names) = elim (initial_state r) [
  | some state ↦
      report "CORE-STATE-001" pass (say "the client sent client/state after activation")
        (activation ∷ state ∷ [])
  | none ↦ judge_no_state r activation (name ∷ names)
]

unfoldable pub check_initial_state_sent : ConnectionRecord → Findings
unfolding outbound active_roles initial_state judge_state_sent
check_initial_state_sent r = elim (first (outbound r "server/activate" "transport")) [
  | none ↦
      report "CORE-STATE-001" not_applicable (say "the validator never activated the client") []
  | some activation ↦
      active_roles r (initial_state r) >>= λ names. judge_state_sent r activation names
]

abbrev pub has_bool : String → RecordedFrame → Bool
has_bool k f = elim (get k (payload_or_empty f)) [ bool b ↦ true | _ ↦ false ]

abbrev pub has_integer : String → RecordedFrame → Bool
has_integer k f = is_some (as_integer (get k (payload_or_empty f)))

unfoldable pub check_state_available : ConnectionRecord → Findings
unfolding inbound
check_state_available r =
    let states = inbound r "client/state" "transport" in
    let missing = filter (λ f. not (has_bool "available" f)) states in
    if is_empty states
    then report "CORE-STATE-002" not_applicable (say "no client/state was sent") []
    else if is_empty missing
    then report "CORE-STATE-002" pass
        (say_of "all {} client/state messages carry available"
          (Value.int (pos (length states)) ∷ []))
        (take 1 states)
    else report "CORE-STATE-002" fail (say "client/state without a boolean available") missing

-- STATE_OBJECT_ROLES, sorted
abbrev pub state_object_roles : List String
state_object_roles = "artwork" ∷ "player" ∷ "source" ∷ "visualizer" ∷ []

unfoldable pub inactive_objects : List String → Fields → List String
inactive_objects names state =
    filter (λ family. not (is_one_of (map (before_mark b'@') names) family) && has_key family state)
      state_object_roles

unfoldable pub check_state_role_objects : ConnectionRecord → Findings
unfolding initial_state active_roles inactive_objects
check_state_role_objects r = elim (initial_state r) [
  | none ↦ report "CORE-STATE-003" not_applicable (say "no client/state was sent") []
  | some state ↦ active_roles r (some state) >>= λ names.
      (if is_empty (inactive_objects names (payload_or_empty state))
        then report "CORE-STATE-003" pass (say "client/state carries objects for active roles only")
            (state ∷ [])
        else report "CORE-STATE-003" fail
            (say_of "client/state carries objects for inactive roles: {}"
              (texts (inactive_objects names (payload_or_empty state)) ∷ []))
            (state ∷ []))
]

unfoldable pub check_time_integer : ConnectionRecord → Findings
unfolding inbound
check_time_integer r =
    let times = inbound r "client/time" "transport" in
    let bad = filter (λ f. not (has_integer "client_transmitted" f)) times in
    if is_empty times
    then report "CORE-TIME-001" not_applicable (say "no client/time was sent") []
    else if is_empty bad
    then report "CORE-TIME-001" pass
        (say_of "all {} client/time messages carry an integer"
          (Value.int (pos (length times)) ∷ []))
        (take 1 times)
    else report "CORE-TIME-001" fail (say "client/time without an integer client_transmitted") bad
