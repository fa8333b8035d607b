-- ===== src/Validator/Checks/Run.antt =====
-- src/conformance/validator/checks.py: judge_session, run_checks and check_noncompliance.
use conformance.Prelude.{
  ℕ, String, Bool, not, Option, none, some, List, [], ◌∷◌, ◌++◌, map, str_eq, any, filter,
}
use conformance.Json.{Unicode, str}
use conformance.Validator.Findings.{Verdict, pass, fail, tool_error, machine, Message, Finding}
use conformance.Validator.Record.{
  RecordedFrame, RecordedNoncompliance, ConnectionRecord, record_of, on_connection,
}
use conformance.Validator.Checks.{say, say_of, Findings, spec_refs, finding_of}
use conformance.Validator.References.Matching.{spec_ref_for}
use conformance.Validator.Checks.Opening.{
  noise_payload_reason, check_opens_with_client_init, check_client_id, check_init_version,
  check_init_suite, check_init_fields, check_noise_message_2, check_nothing_before_activation,
  check_hello_sent,
}
use conformance.Validator.Checks.Hello.{
  check_hello_support_objects, check_hello_roles, check_hello_pair_methods,
  check_hello_unpaired_access,
}
use conformance.Validator.Checks.HelloFields.{check_hello_fields, check_hello_name_matches_txt}
use conformance.Validator.Checks.State.{
  check_initial_state_sent, check_state_available, check_state_role_objects, check_time_integer,
}

module _ ⦃u : Unicode⦄ where
  -- CHECKS, with the TXT name bound in the place of CORE-HELLO-007.
  unfoldable pub checks : Option String → List (String × (ConnectionRecord → Findings))
  checks txt_name =
      ("CORE-INIT-001", check_opens_with_client_init)
      ∷ ("CORE-INIT-002", check_client_id)
      ∷ ("CORE-INIT-003", check_init_version)
      ∷ ("CORE-INIT-004", check_init_suite)
      ∷ ("CORE-INIT-005", check_init_fields)
      ∷ ("CORE-NOISE-001", check_noise_message_2)
      ∷ ("CORE-ORDER-001", check_nothing_before_activation)
      ∷ ("CORE-HELLO-001", check_hello_sent)
      ∷ ("CORE-HELLO-002", check_hello_support_objects)
      ∷ ("CORE-HELLO-003", check_hello_roles)
      ∷ ("CORE-HELLO-004", check_hello_pair_methods)
      ∷ ("CORE-HELLO-005", check_hello_unpaired_access)
      ∷ ("CORE-HELLO-006", check_hello_fields)
      ∷ ("CORE-HELLO-007", λ r. check_hello_name_matches_txt r txt_name)
      ∷ ("CORE-STATE-001", check_initial_state_sent)
      ∷ ("CORE-STATE-002", check_state_available)
      ∷ ("CORE-STATE-003", check_state_role_objects)
      ∷ ("CORE-TIME-001", check_time_integer)
      ∷ []

  -- A check that raises reports TOOL_ERROR; the message's exception is not kept.
  unfoldable pub reported : String → Findings → List Finding
  reported id none = finding_of spec_refs id tool_error (say "the check failed") [] ∷ []
  reported id (some found) = found

  unfoldable pub run_rows :
      ConnectionRecord → List (String × (ConnectionRecord → Findings)) → List Finding
  unfolding reported
  run_rows r [] = []
  run_rows r (row ∷ rows) = reported row.0 (row.1 r) ++ run_rows r rows

  unfoldable pub run_checks : ConnectionRecord → Option String → List Finding
  unfolding run_rows checks
  run_checks r txt_name = run_rows r (checks txt_name)

abbrev pub frame_of : Option ℕ → List ℕ
frame_of none = []
frame_of (some n) = n ∷ []

abbrev pub strict_of : Verdict → String → Message → Option ℕ → Finding
strict_of verdict ref message frame = record {
  id = "CORE-STRICT-001";
  verdict = verdict;
  spec_ref = ref;
  message = message;
  evidence = machine;
  frames = frame_of frame;
}

module _ ⦃u : Unicode⦄ where
  unfoldable pub strict_finding : RecordedNoncompliance → Finding
  strict_finding o = elim (spec_ref_for o.reason) [
    | none ↦
        strict_of tool_error "-"
          (say_of "aiosendspin rejected the client for a reason with no known spec reference: {}"
            (str o.reason ∷ []))
          o.after_frame
    | some none ↦
        strict_of tool_error "-"
          (say_of "aiosendspin rejected the client for something spec 1.0.0-rc1 does not forbid: {}"
            (str o.reason ∷ []))
          o.after_frame
    | some (some ref) ↦
        strict_of fail ref (say_of "aiosendspin rejected the client: {}" (str o.reason ∷ []))
          o.after_frame
  ]

  unfoldable pub check_noncompliance : List RecordedNoncompliance → List Finding
  unfolding strict_finding
  check_noncompliance [] =
      strict_of pass "-" (say "aiosendspin's strict mode accepted every message") none ∷ []
  check_noncompliance (o ∷ os) =
      map (λ x. strict_finding x)
        (filter (λ x. not (str_eq x.reason noise_payload_reason)) (o ∷ os))

abbrev pub recorder_error : String → Finding
recorder_error error = record {
  id = "CORE-RECORDER-001";
  verdict = tool_error;
  spec_ref = "-";
  message = say error;
  evidence = machine;
  frames = [];
}

-- o.connection in {connection, *later_connections}
abbrev pub is_judged : List ℕ → RecordedNoncompliance → Bool
is_judged judged o = any (λ n. on_connection n o.connection) judged

module _ ⦃u : Unicode⦄ where
  unfoldable pub judge_session :
      List RecordedFrame
      → List RecordedNoncompliance
      → List String
      → ℕ
      → List ℕ
      → Option String
      → List Finding
  unfolding record_of run_checks check_noncompliance
  judge_session frames noncompliance tool_errors connection later_connections txt_name =
      run_checks (record_of connection frames noncompliance []) txt_name
      ++ check_noncompliance (filter (is_judged (connection ∷ later_connections)) noncompliance)
      ++ map recorder_error tool_errors
