-- ===== src/Tests/GateTests.antt =====
-- The theorems on the gate and the clock (src/conformance/protocol.py) at concrete summaries.
use conformance.Prelude.{
  ◌≤◌, ◌≡◌, refl, true, false, none, some, List, [], ◌∷◌, arith, ℤ, pos, negsuc,
}
use conformance.Json.{Value, bool, str, Fields, get}
use conformance.Protocol.Gate.{
  GateEntry, client_state, sending, sent, server_while_unavailable, gate_entries,
  stream_start_gate_violation,
}
use conformance.Protocol.Gate.Passes.{Bracket, Witnessed, stream_start_gate_violation-none}
use conformance.Protocol.Gate.Blames.{Broken, stream_start_gate_violation-some}
use conformance.Protocol.TimeExchange.{time_entry, time_exchange_violation}
use conformance.Protocol.TimeExchange.Echoes.{
  times_received, times_echoed, time_exchange_violation-echoes,
}
use conformance.Protocol.TimeExchange.Prompt.{
  Turn, answer, other, turn_values, time_exchange_violation-prompt,
}
use conformance.Tests.Samples.{sequence, state_value, start_value, traced, exchanged}
use conformance.Protocol.Gate.{gate_violation_reason, read_entry}
use conformance.Protocol.TimeExchange.{
  find_echo, integer_at, remove_item, sent_value, server_time_defects,
}

-- Unavailable when the frame was handed over, available before it was sent.
abbrev in_time : Fields
in_time =
    traced (state_value false ∷ start_value "sending" ∷ state_value true ∷ start_value "sent" ∷ [])

abbrev roles : Value
roles = str "player"

abbrev in_time_trace : List GateEntry
in_time_trace =
    client_state (bool false) ∷ sending roles ∷ client_state (bool true) ∷ sent roles ∷ []

abbrev in_time_bracket : Bracket in_time_trace
in_time_bracket = record {
  before = client_state (bool false) ∷ [];
  within = client_state (bool true) ∷ [];
  after = [];
  sending_roles = roles;
  sent_roles = roles;
  places = refl;
  states = (tt, tt);
}

in_time-read : gate_entries (get "availability_trace" in_time) ≡ some in_time_trace
unfolding gate_entries read_entry
in_time-read = refl

in_time-passes : stream_start_gate_violation in_time ≡ none
unfolding stream_start_gate_violation read_entry
in_time-passes = refl

stream_start_gate_violation-none_example : Witnessed in_time_bracket.before in_time_bracket.within
stream_start_gate_violation-none_example =
    stream_start_gate_violation-none in_time in_time_trace in_time-read in_time-passes
      in_time_bracket

-- Sent while the client was unavailable.
abbrev too_soon : Fields
too_soon =
    traced (state_value false ∷ start_value "sending" ∷ start_value "sent" ∷ state_value true ∷ [])

too_soon-fails : stream_start_gate_violation too_soon ≡ some (server_while_unavailable roles)
unfolding stream_start_gate_violation read_entry gate_violation_reason
too_soon-fails = refl

stream_start_gate_violation-some_example :
    (trace : List GateEntry) × (gate_entries (get "availability_trace" too_soon) ≡ some trace)
    × Broken trace (server_while_unavailable roles)
stream_start_gate_violation-some_example =
    stream_start_gate_violation-some too_soon (server_while_unavailable roles) too_soon-fails tt

-- Two client/time messages, answered in turn, with another message between.
abbrev turns : List Turn
turns = answer (pos 5) (pos 100) (pos 101) ∷ other ∷ answer (pos 5) (pos 200) (pos 200) ∷ []

abbrev answered : Fields
answered = exchanged (turn_values turns)

time_exchange_violation-prompt_example : time_exchange_violation answered ≡ none
time_exchange_violation-prompt_example =
    time_exchange_violation-prompt answered (sequence (turn_values turns)) refl turns refl
      (omega arith, (tt, (omega arith, tt)))

abbrev unheard : List ℤ
unheard = pos 7 ∷ negsuc 2 ∷ []

answered-passes : time_exchange_violation answered ≡ none
unfolding time_exchange_violation time_entry sent_value server_time_defects find_echo integer_at
    remove_item
answered-passes = refl

time_exchange_violation-echoes_example :
    times_echoed (pos 5) (turn_values (answer (pos 5) (pos 100) (pos 101) ∷ other ∷ []))
    ≤ times_received (pos 5) (turn_values (answer (pos 5) (pos 100) (pos 101) ∷ other ∷ []))
time_exchange_violation-echoes_example =
    time_exchange_violation-echoes answered (sequence (turn_values turns)) refl answered-passes
      (pos 5) (turn_values (answer (pos 5) (pos 100) (pos 101) ∷ other ∷ []))
      (turn_values (answer (pos 5) (pos 200) (pos 200) ∷ [])) refl
