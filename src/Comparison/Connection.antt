-- ===== src/Comparison/Connection.antt =====
-- src/conformance/runner.py: _compare_summaries, which puts the verdicts of a case together, and
-- _adapter_reported_failures.
pub mod Passes
pub mod Cases
use conformance.Prelude.{
  ◌+◌, ◌<◌, Bool, not, ◌&&◌, ◌||◌, Option, none, some, List, [], ◌∷◌, ◌++◌, map, if◌then◌else◌,
  is_empty, any,
}
use mathlib.Core.Option
use conformance.Json.{Value, Fields, get, is_text, Unicode}
use conformance.Json.Python.{Python, is_truthy}
use conformance.Comparison.Outcome.{
  ModeFailure, ModeNote, Outcome, raised, failed, passed, ◌>>=◌, ◌>>◌, guard, blame,
}
use conformance.Comparison.Dispatch.{dispatch_comparison}
use conformance.Formats.Verdicts.{Undeclared, undeclared_format_violation}
use conformance.Protocol.Gate.{GateReason, stream_start_gate_violation}
use conformance.Protocol.TimeExchange.{TimeReason, time_exchange_violation}
use conformance.Protocol.Activation.{ActivationReason, activation_violation}
use conformance.Protocol.GroupUpdate.{GroupReason, group_update_violation}
use conformance.Matrix.Model.{
  RoleName, server, client, RoleFamily, player, artwork, same_family, ScenarioSpec,
}

-- The reasons that the adapters gave, the server's first.
unfoldable pub reported_failure : RoleName → Fields → List (RoleName × Value)
reported_failure role summary =
    if not (is_text "ok" (get "status" summary)) && is_truthy (get "reason" summary)
    then (role, get "reason" summary) ∷ []
    else []

unfoldable pub adapter_reported_failures : Fields → Fields → List (RoleName × Value)
unfolding reported_failure
adapter_reported_failures server_summary client_summary =
    reported_failure server server_summary ++ reported_failure client client_summary

-- Why a case fails.
pub data CaseFailure : Type 0 where
  reported : List (RoleName × Value) → CaseFailure
  mismatch : ModeFailure → CaseFailure
  bad_activation : ActivationReason → CaseFailure
  bad_group_update : GroupReason → CaseFailure
  bad_gate : GateReason → CaseFailure
  bad_time_exchange : TimeReason → CaseFailure
  bad_formats : Undeclared → CaseFailure

-- The first of the two that is there.
infixr 4 ◌<|>◌
abbrev pub ◌<|>◌ : Option CaseFailure → Option CaseFailure → Option CaseFailure
none <|> rest = rest
some failure <|> rest = some failure

-- _STREAMED_ROLE_FAMILIES.intersection(...)
unfoldable pub opens_stream : ScenarioSpec → Bool
opens_stream scenario =
    any (λ f. same_family f player || same_family f artwork) scenario.required_role_families

-- A failure of the scenario's mode is one of the case.
abbrev pub mode_outcome : Outcome ModeFailure ModeNote → Outcome CaseFailure ModeNote
mode_outcome raised = raised
mode_outcome (failed reason) = failed (mismatch reason)
mode_outcome (passed note) = passed note

module _ ⦃u : Unicode⦄ where
  -- The verdicts that apply to every connection, in their order.
  unfoldable pub connection_failure : ScenarioSpec → Fields → Fields → Option CaseFailure
  unfolding opens_stream
  connection_failure scenario server_summary client_summary =
      Option.map bad_activation (activation_violation server_summary)
      <|> Option.map bad_group_update (group_update_violation server_summary)
      <|> (if opens_stream scenario
          then Option.map bad_gate (stream_start_gate_violation server_summary)
          else none)
      <|> Option.map bad_time_exchange (time_exchange_violation server_summary)
      <|> Option.map bad_formats (undeclared_format_violation server_summary client_summary)

module _ ⦃u : Unicode⦄ ⦃py : Python⦄ where
  unfoldable pub compare_summaries : ScenarioSpec → Fields → Fields → Outcome CaseFailure ModeNote
  unfolding adapter_reported_failures connection_failure
  compare_summaries scenario server_summary client_summary = do
    guard (is_empty (adapter_reported_failures server_summary client_summary))
        (reported (adapter_reported_failures server_summary client_summary))
    note ← mode_outcome (dispatch_comparison scenario server_summary client_summary)
    blame (λ reason. reason) (connection_failure scenario server_summary client_summary)
    passed note
