-- ===== src/Comparison/Controller.antt =====
-- src/conformance/runner.py: _compare_controller_summaries and
-- _compare_controller_supported_commands.
pub mod Commands
pub mod Passes
use conformance.Prelude.{
  String, Bool, true, false, ◌&&◌, ◌||◌, List, [], ◌∷◌, if◌then◌else◌, is_some, is_empty, all, any,
}
use conformance.Json.{Value, null, str, arr, obj, Fields, get, find, as_object, as_list}
use conformance.Json.Python.{Python, as_number, same_value}
use conformance.Matrix.Model.{server, client}
use conformance.Comparison.Outcome.{
  ModeFailure, no_command, command_mismatch, no_controller_state, missing_field, field_mismatch,
  no_advertised, no_commands, no_command_list, commands_mismatch, unlisted_command, ModeNote,
  command_matched, Outcome, raised, passed, ◌>>=◌, ◌>>◌, read, found, guard, status_guard, section,
}

-- A list and a dict cannot be in a set.
abbrev pub is_hashable : Value → Bool
is_hashable (arr vs) = false
is_hashable (obj fs) = false
is_hashable _ = true

abbrev pub is_string : Value → Bool
is_string (str s) = true
is_string _ = false

abbrev pub is_number : Value → Bool
is_number (Value.real r) = true
is_number v = is_some (as_number v)

-- sorted(...) compares texts with texts and numbers with numbers alone; one value needs no order.
abbrev pub is_sortable : List Value → Bool
is_sortable [] = true
is_sortable (v ∷ []) = true
is_sortable (v ∷ w ∷ vs) = all is_string (v ∷ w ∷ vs) || all is_number (v ∷ w ∷ vs)

-- expected.get("command") if isinstance(expected, dict) else None
abbrev pub command_name : Value → Value
command_name (obj fields) = get "command" fields
command_name _ = null

abbrev pub is_command : Value → Bool
is_command null = false
is_command _ = true

module _ ⦃py : Python⦄ where
  -- v in values
  abbrev pub is_among : Value → List Value → Bool
  is_among v values = any (same_value v) values

  -- set(values) - set(others): the values that are not in the others, each once.
  unfoldable pub difference : List Value → List Value → List Value
  difference [] others = []
  difference (v ∷ vs) others =
      let rest = difference vs others in
      if is_among v others || is_among v rest then rest else v ∷ rest

  -- The texts list the two differences sorted.
  unfoldable pub judge_differences : List Value → List Value → Outcome ModeFailure Unit
  judge_differences unobserved unadvertised =
      guard (is_empty unobserved && is_empty unadvertised)
        (commands_mismatch unobserved unadvertised)

  unfoldable pub compare_commands : List Value → List Value → Outcome ModeFailure Unit
  unfolding difference judge_differences
  compare_commands advertised observed =
      let unobserved = difference advertised observed in
      let unadvertised = difference observed advertised in
      if all is_hashable advertised
        && all is_hashable observed
        && is_sortable unobserved
        && is_sortable unadvertised
      then judge_differences unobserved unadvertised
      else raised

  unfoldable pub compare_controller_supported_commands : Fields → Fields → Outcome ModeFailure Unit
  unfolding compare_commands
  compare_controller_supported_commands server_controller received_state = do
    advertised ← found no_advertised (as_list (get "supported_commands" server_controller))
    commands ← found no_commands (find "supported_commands" received_state)
    observed ← found no_command_list (as_list commands)
    compare_commands advertised observed

  -- for field in (...): one round, and the loop.
  unfoldable pub compare_field : String → Value → Value → Outcome ModeFailure Unit
  compare_field name expected_value received_value =
      guard (same_value expected_value received_value)
        (field_mismatch name expected_value received_value)

  unfoldable pub compare_fields : Fields → Fields → List String → Outcome ModeFailure Unit
  unfolding compare_field
  compare_fields server_controller received_state [] = passed tt
  compare_fields server_controller received_state (name ∷ names) = do
    received_value ← found (missing_field name) (find name received_state)
    compare_field name (get name server_controller) received_value
    compare_fields server_controller received_state names

  -- command_name not in received_state["supported_commands"], which is a list here.
  unfoldable pub judge_listed : Value → Fields → Outcome ModeFailure ModeNote
  judge_listed name received_state = do
    observed ← read (as_list (get "supported_commands" received_state))
    guard (is_among name observed) (unlisted_command name)
    passed (command_matched name)

  unfoldable pub compare_controller_summaries : Fields → Fields → Outcome ModeFailure ModeNote
  unfolding section compare_fields compare_controller_supported_commands judge_listed
  compare_controller_summaries server_summary client_summary = do
    status_guard server server_summary
    status_guard client client_summary
    server_controller ← read (section "controller" server_summary)
    client_controller ← read (section "controller" client_summary)
    let expected = get "expected_command" server_controller
    let received = get "received_command" server_controller
    let sent = get "sent_command" client_controller
    guard (is_command received) (no_command server)
    guard (is_command sent) (no_command client)
    guard (same_value expected received && same_value received sent)
        (command_mismatch expected received sent)
    received_state ← found no_controller_state (as_object (get "received_state" client_controller))
    compare_fields server_controller received_state ("volume" ∷ "muted" ∷ "repeat" ∷ "shuffle" ∷ [])
    compare_controller_supported_commands server_controller received_state
    judge_listed (command_name expected) received_state
