-- ===== src/Comparison/Connection/Passes.antt =====
-- src/conformance/runner.py: when _compare_summaries passes a case.
use conformance.Prelude.{
  ◌≡◌, refl, ap, ◌↔◌, ◌⊎◌, inl, inr, Bool, true, ◌||◌, Option, none, some, List, [], if◌then◌else◌,
  Bool-cases, is_empty, Any, Any-imp, Any-any, clash, is_empty→nil, any-Any,
}
use mathlib.Core.Option
use conformance.Json.{Fields, get, Unicode}
use conformance.Json.Python.{Python}
use conformance.Comparison.Outcome.{
  ModeFailure, ModeNote, Outcome, raised, failed, passed, ◌>>=◌, ◌>>◌, blame, guard_iff,
}
use conformance.Comparison.Dispatch.{dispatch_comparison}
use conformance.Formats.Verdicts.{undeclared_format_violation}
use conformance.Protocol.Gate.{GateEntry, gate_entries, stream_start_gate_violation}
use conformance.Protocol.Gate.Passes.{
  Bracket, Witnessed, stream_start_gate_violation-none, stream_start_gate_violation-recorded,
}
use conformance.Protocol.TimeExchange.{time_exchange_violation}
use conformance.Protocol.Activation.{activation_violation}
use conformance.Protocol.GroupUpdate.{group_update_violation}
use conformance.Matrix.Model.{
  RoleFamily, player, metadata, controller, artwork, same_family, ScenarioSpec,
}
use conformance.Comparison.Connection.{
  CaseFailure, reported, adapter_reported_failures, ◌<|>◌, opens_stream, mode_outcome,
  connection_failure, compare_summaries,
}

first_iff : (a b : Option CaseFailure) → ((a <|> b) ≡ none) ↔ ((a ≡ none) × (b ≡ none))
first_iff none b = (λ h. (refl, h), λ h. h.1)
first_iff (some f) b = (λ h. cc, λ h. cc)

map-none_iff :
    {A : Type 0} (f : A → CaseFailure) (o : Option A) → (Option.map f o ≡ none) ↔ (o ≡ none)
map-none_iff f none = (λ h. refl, λ h. refl)
map-none_iff f (some a) = (λ h. cc, λ h. cc)

mode_iff :
    (o : Outcome ModeFailure ModeNote) (note : ModeNote)
    → (mode_outcome o ≡ passed note) ↔ (o ≡ passed note)
mode_iff raised note = (λ h. cc, λ h. cc)
mode_iff (failed reason) note = (λ h. cc, λ h. cc)
mode_iff (passed m) note = (λ h. cc, λ h. cc)

after_mode_iff :
    {Q : Type 0} (o : Outcome ModeFailure ModeNote) (c : Option CaseFailure) (note : ModeNote)
    → (c ≡ none) ↔ Q
    → ((mode_outcome o >>= λ m. blame (λ reason. reason) c >> passed m) ≡ passed note)
      ↔ ((o ≡ passed note) × Q)
after_mode_iff raised c note rest = (λ h. cc, λ h. cc (h.0))
after_mode_iff (failed reason) c note rest = (λ h. cc, λ h. cc (h.0))
after_mode_iff (passed m) none note rest = (λ h. (cc, rest.0 refl), λ h. cc (h.0))
after_mode_iff (passed m) (some f) note rest = (λ h. cc, λ h. cc (rest.1 h.1))

-- The scenario needs a role that a stream is opened for.
abbrev pub Streams : ScenarioSpec → Type 0
Streams scenario = Any (λ f. (f ≡ player) ⊎ (f ≡ artwork)) scenario.required_role_families

streamed :
    (f : RoleFamily)
    → (f ≡ player) ⊎ (f ≡ artwork)
    → (same_family f player || same_family f artwork) ≡ true
streamed f (inl e) = rw e refl
streamed f (inr e) = rw e refl

streamed-Streams :
    (f : RoleFamily)
    → (same_family f player || same_family f artwork) ≡ true
    → (f ≡ player) ⊎ (f ≡ artwork)
streamed-Streams player h = inl refl
streamed-Streams artwork h = inr refl
streamed-Streams metadata h = cc
streamed-Streams controller h = cc

opens_stream_iff : (scenario : ScenarioSpec) → (opens_stream scenario ≡ true) ↔ Streams scenario
unfolding opens_stream
opens_stream_iff scenario =
    let test : RoleFamily → Bool = λ f. same_family f player || same_family f artwork in
    let families = scenario.required_role_families in
    (
      λ h. Any-imp families (λ f. streamed-Streams f) (any-Any test families h),
      λ h. Any-any test families (Any-imp families (λ f. streamed f) h),
    )

module _ ⦃u : Unicode⦄ (scenario : ScenarioSpec) (server client : Fields) where
  -- What every connection has to satisfy.
  pub record IsConforming : Type 0 where
    pub activation : activation_violation server ≡ none
    pub group_updates : group_update_violation server ≡ none
    pub gate : Streams scenario → stream_start_gate_violation server ≡ none
    pub time_exchange : time_exchange_violation server ≡ none
    pub formats : undeclared_format_violation server client ≡ none

module _ ⦃u : Unicode⦄ (scenario : ScenarioSpec) (server client : Fields) where
  gate_iff :
      ((if opens_stream scenario
          then Option.map CaseFailure.bad_gate (stream_start_gate_violation server)
          else none)
        ≡ none)
      ↔ (Streams scenario → stream_start_gate_violation server ≡ none)
  gate_iff =
      let opens = opens_stream_iff scenario in
      let gate = map-none_iff CaseFailure.bad_gate (stream_start_gate_violation server) in
      elim (Bool-cases (opens_stream scenario)) [
        | inl yes' ↦ rw yes' (λ h k. gate.0 h, λ h. gate.1 (h (opens.0 yes')))
        | inr no' ↦ rw no' (λ h k. absurd (clash (opens.1 k) no'), λ h. refl)
      ]

  connection_failure-none_iff :
      (connection_failure scenario server client ≡ none) ↔ IsConforming scenario server client
  unfolding connection_failure
  connection_failure-none_iff =
      let activation = map-none_iff CaseFailure.bad_activation (activation_violation server) in
      let updates = map-none_iff CaseFailure.bad_group_update (group_update_violation server) in
      let times = map-none_iff CaseFailure.bad_time_exchange (time_exchange_violation server) in
      let formats =
        map-none_iff CaseFailure.bad_formats (undeclared_format_violation server client) in
      (
        λ h.
            let a = (first_iff _ _).0 h in
            let b = (first_iff _ _).0 a.1 in
            let c = (first_iff _ _).0 b.1 in
            let d = (first_iff _ _).0 c.1 in
            record {
              activation = activation.0 a.0;
              group_updates = updates.0 b.0;
              gate = gate_iff.0 c.0;
              time_exchange = times.0 d.0;
              formats = formats.0 d.1;
            },
        λ h. (first_iff _ _).1 (
          activation.1 h.activation,
          (first_iff _ _).1 (
            updates.1 h.group_updates,
            (first_iff _ _).1 (
              gate_iff.1 h.gate,
              (first_iff _ _).1 (times.1 h.time_exchange, formats.1 h.formats),
            ),
          ),
        ),
      )

module _ ⦃u : Unicode⦄ ⦃py : Python⦄ (scenario : ScenarioSpec) (server client : Fields) where
  -- A case passes exactly when no adapter reported a failure, the comparison of the scenario's mode
  -- passes, with the same note, and no verdict on the connection found a violation, where the gate
  -- on stream/start is judged for a scenario with the player or the artwork role alone.
  pub compare_summaries-passed_iff :
      (note : ModeNote)
      → (compare_summaries scenario server client ≡ passed note) ↔ (
          (adapter_reported_failures server client ≡ [])
          × (dispatch_comparison scenario server client ≡ passed note)
          × IsConforming scenario server client)
  unfolding compare_summaries
  compare_summaries-passed_iff note =
      let failures = adapter_reported_failures server client in
      let after =
        after_mode_iff (dispatch_comparison scenario server client)
          (connection_failure scenario server client) note
          (connection_failure-none_iff scenario server client) in
      let whole = guard_iff note _ after (is_empty failures) (reported failures) in
      (
        λ h. let k = whole.0 h in (is_empty→nil failures k.0, k.1.0, k.1.1),
        λ h. whole.1 (ap is_empty h.0, (h.1, h.2)),
      )

  -- Where a case with the player or the artwork role passes, the server recorded a trace, and at
  -- every stream/start of it that reached the wire the latest client/state reported `available:
  -- true` at some point between the handing over of the frame and its being sent.
  pub compare_summaries-gated :
      (note : ModeNote)
      → Streams scenario
      → compare_summaries scenario server client ≡ passed note
      → (trace : List GateEntry) × (gate_entries (get "availability_trace" server) ≡ some trace)
        × ((b : Bracket trace) → Witnessed b.before b.within)
  compare_summaries-gated note streams h =
      let passes = ((compare_summaries-passed_iff note).0 h).2.gate streams in
      let (trace, reads, some_sent) = stream_start_gate_violation-recorded server passes in
      (trace, reads, λ b. stream_start_gate_violation-none server trace reads passes b)
