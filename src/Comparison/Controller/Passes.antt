-- ===== src/Comparison/Controller/Passes.antt =====
-- src/conformance/runner.py: what _compare_controller_summaries passes.
use conformance.Prelude.{String, ◌≡◌, refl, ◌↔◌, true, ◌&&◌, some, List, [], ◌∷◌, All}
use mathlib.Core.Path.{subst}
use conformance.Json.{Value, str, Fields, get, find, as_object, as_list}
use conformance.Json.Python.{Python, same_value}
use conformance.Comparison.Outcome.{
  command_matched, passed, read_iff, found_iff, guard_iff, outcome_iff, statuses_iff, section,
}
use conformance.Comparison.Controller.{
  command_name, is_command, is_among, compare_field, compare_fields, judge_listed,
  compare_controller_supported_commands, compare_controller_summaries,
}

module _ ⦃py : Python⦄ (server_controller received_state : Fields) where
  -- The client reports the field, with the server's value.
  abbrev pub IsReported : String → Type 0
  IsReported name =
      (v : Value) × (find name received_state ≡ some v)
      × (same_value (get name server_controller) v ≡ true)

  compare_fields_iff :
      (names : List String)
      → (compare_fields server_controller received_state names ≡ passed tt) ↔ All IsReported names
  unfolding compare_fields compare_field
  compare_fields_iff [] = (λ h. tt, λ h. refl)
  compare_fields_iff (name ∷ names) =
      let whole = found_iff tt _ _ (find name received_state) λ v.
        guard_iff tt _ (compare_fields_iff names) (same_value (get name server_controller) v) _ in
      (
        λ h. let (v, e, (same, rest)) = whole.0 h in ((v, e, same), rest),
        λ h. let (v, e, same) = h.0 in whole.1 (v, e, (same, h.1)),
      )

module _ ⦃py : Python⦄ (server_summary client_summary : Fields) (name : Value) where
  -- The command was sent, received and expected, and the client knew that it was supported.
  pub record IsObeyed : Type 0 where
    pub server_ok : get "status" server_summary ≡ str "ok"
    pub client_ok : get "status" client_summary ≡ str "ok"
    pub server_controller : Fields
    pub client_controller : Fields
    pub server_section : section "controller" server_summary ≡ some server_controller
    pub client_section : section "controller" client_summary ≡ some client_controller
    pub received : is_command (get "received_command" server_controller) ≡ true
    pub sent : is_command (get "sent_command" client_controller) ≡ true
    pub same :
        (same_value
            (get "expected_command" server_controller)
            (get "received_command" server_controller)
          && same_value
              (get "received_command" server_controller)
              (get "sent_command" client_controller))
        ≡ true
    pub state : Fields
    pub received_state : as_object (get "received_state" client_controller) ≡ some state
    pub reported :
        All (IsReported server_controller state) ("volume" ∷ "muted" ∷ "repeat" ∷ "shuffle" ∷ [])
    pub commands : compare_controller_supported_commands server_controller state ≡ passed tt
    pub observed : List Value
    pub listed : as_list (get "supported_commands" state) ≡ some observed
    pub among : is_among name observed ≡ true
    pub named : command_name (get "expected_command" server_controller) ≡ name

module _ ⦃py : Python⦄ (server_summary client_summary : Fields) where
  -- Where the comparison of the mode "controller" passes, both adapters report the status ok, a
  -- command was received and one was sent, both equal the expected one, the client reports volume,
  -- muted, repeat and shuffle with the server's values, the comparison of the supported commands
  -- passes, and the name of the command is among those that the client observed.
  pub compare_controller_summaries-passed :
      (name : Value)
      → compare_controller_summaries server_summary client_summary ≡ passed (command_matched name)
      → IsObeyed server_summary client_summary name
  unfolding compare_controller_summaries judge_listed
  compare_controller_summaries-passed name h =
      let note = command_matched name in
      let whole =
        statuses_iff note _
          (read_iff note _ (section "controller" server_summary) λ sc.
            read_iff note _ (section "controller" client_summary) λ c.
              let expected = get "expected_command" sc in
              let received = get "received_command" sc in
              let sent = get "sent_command" c in
              guard_iff note _
                (guard_iff note _
                  (guard_iff note _
                    (found_iff note _ _ (as_object (get "received_state" c)) λ state.
                      outcome_iff note _
                        (compare_fields sc state ("volume" ∷ "muted" ∷ "repeat" ∷ "shuffle" ∷ []))
                        λ t.
                          outcome_iff note _ (compare_controller_supported_commands sc state) λ u.
                            read_iff note _ (as_list (get "supported_commands" state)) λ observed.
                              guard_iff note (passed (command_matched (command_name expected)))
                                (λ k. k, λ k. k) (is_among (command_name expected) observed) _)
                    (same_value expected received && same_value received sent) _)
                  (is_command sent) _)
                (is_command received) _)
          server_summary client_summary in
      let (
        s,
        c,
        (
          sc,
          es,
          (
            cl,
            ec,
            (r, (t, (same, (state, est, (u, fields, (v, commands, (observed, eo, (among, e)))))))),
          ),
        ),
      ) =
        whole.0 h in
      let named : command_name (get "expected_command" sc) ≡ name = cc (e) in
      record {
        server_ok = s;
        client_ok = c;
        server_controller = sc;
        client_controller = cl;
        server_section = es;
        client_section = ec;
        received = r;
        sent = t;
        same = same;
        state = state;
        received_state = est;
        reported =
            (compare_fields_iff sc state ("volume" ∷ "muted" ∷ "repeat" ∷ "shuffle" ∷ [])).0 fields;
        commands = commands;
        observed = observed;
        listed = eo;
        among = subst (λ z. is_among z observed ≡ true) named among;
        named = named;
      }
