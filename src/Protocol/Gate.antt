-- ===== src/Protocol/Gate.antt =====
-- src/conformance/protocol.py: stream_start_gate_violation, which judges that a stream/start was sent
-- only while the latest client/state reported `available: true`.
pub mod Passes
pub mod Blames
use conformance.Prelude.{
  ℕ, ◌+◌, Bool, true, false, ◌||◌, Option, none, some, List, [], ◌∷◌, ◌==◌, if◌then◌else◌, ◌>>=◌,
}
use conformance.Json.{Value, null, bool, obj, arr, items, Fields, get, is_text, is_true}

-- One entry of the trace: a client/state with the `available` that it carried, or the phase of a
-- stream/start with the roles that it named.
pub data GateEntry : Type 0 where
  client_state : Value → GateEntry
  sending : Value → GateEntry
  sent : Value → GateEntry

-- The latest client/state, `_NO_CLIENT_STATE` before the first one.
pub data Latest : Type 0 where
  no_client_state : Latest
  state : Value → Latest

-- The reasons, with the roles that their texts name.
pub data GateReason : Type 0 where
  unrecorded : GateReason
  no_stream_start : GateReason
  server_before_state : Value → GateReason
  server_while_unavailable : Value → GateReason
  client_without_available : Value → GateReason

unfoldable pub read_entry : Value → Option GateEntry
read_entry (obj fs) =
    if is_text "client/state" (get "type" fs)
    then some (client_state (get "available" fs))
    else if is_text "stream/start" (get "type" fs)
    then if is_text "sending" (get "phase" fs)
      then some (sending (get "roles" fs))
      else if is_text "sent" (get "phase" fs)
      then some (sent (get "roles" fs))
      else none
    else none
read_entry _ = none

unfoldable pub read_entries : List Value → Option (List GateEntry)
read_entries [] = some []
read_entries (v ∷ vs) = do e ← read_entry v; es ← read_entries vs; some (e ∷ es)

-- _gate_entries
unfoldable pub gate_entries : Value → Option (List GateEntry)
unfolding read_entries
gate_entries (arr vs) = read_entries (items vs)
gate_entries _ = none

unfoldable pub gate_violation_reason : Latest → Value → GateReason
gate_violation_reason no_client_state roles = server_before_state roles
gate_violation_reason (state (bool false)) roles = server_while_unavailable roles
gate_violation_reason (state _) roles = client_without_available roles

-- The loop's variables.
pub record Gate : Type 0 where
  pub latest : Latest
  pub held_at_sending : Latest
  pub available_in_flight : Option Bool
  pub stream_starts : ℕ

abbrev pub closed_gate : Gate
closed_gate = record {
  latest = no_client_state;
  held_at_sending = state null;
  available_in_flight = none;
  stream_starts = 0;
}

-- latest is True
abbrev pub is_available : Latest → Bool
is_available no_client_state = false
is_available (state v) = is_true v

-- One round of the loop goes on with new variables or returns.
pub data GateStep : Type 0 where
  go : Gate → GateStep
  stop : GateReason → GateStep

unfoldable pub on_sent : Gate → Value → Option Bool → GateStep
on_sent g roles none = stop unrecorded
on_sent g roles (some true) =
    go (record g { stream_starts = g.stream_starts + 1; available_in_flight = none })
on_sent g roles (some false) = stop (gate_violation_reason g.held_at_sending roles)

unfoldable pub gate_step : Gate → GateEntry → GateStep
unfolding on_sent
gate_step g (client_state v) = go (record g {
  latest = state v;
  available_in_flight = elim g.available_in_flight [
    | none ↦ none
    | some seen ↦ some (seen || is_true v)
  ];
})
gate_step g (sending roles) =
    go (record g { held_at_sending = g.latest; available_in_flight = some (is_available g.latest) })
gate_step g (sent roles) = on_sent g roles g.available_in_flight

unfoldable pub gate_run : Gate → List GateEntry → Option GateReason
unfolding gate_step
gate_run g [] = if g.stream_starts == 0 then some no_stream_start else none
gate_run g (e ∷ es) = elim (gate_step g e) [ stop r ↦ some r | go g' ↦ gate_run g' es ]

unfoldable pub judge_entries : Option (List GateEntry) → Option GateReason
unfolding gate_run
judge_entries none = some unrecorded
judge_entries (some es) = gate_run closed_gate es

unfoldable pub stream_start_gate_violation : Fields → Option GateReason
unfolding judge_entries gate_entries
stream_start_gate_violation server = judge_entries (gate_entries (get "availability_trace" server))
