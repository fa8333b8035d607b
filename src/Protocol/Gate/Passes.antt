-- ===== src/Protocol/Gate/Passes.antt =====
-- When stream_start_gate_violation of src/conformance/protocol.py passes a trace.
use conformance.Prelude.{
  ◌+◌, ◌<◌, ◌≡◌, refl, ◌⊎◌, inl, inr, Bool, true, false, ◌||◌, Option, none, some, List, [], ◌∷◌,
  ◌++◌, arith, Option-cases, any, All, Any,
}
use mathlib.Core.Path.{subst}
use conformance.Json.{Value, Fields, get, is_true}
use conformance.Protocol.Gate.{
  GateEntry, client_state, sending, sent, Latest, no_client_state, state, Gate, closed_gate,
  is_available, on_sent, judge_entries, gate_run, gate_entries, stream_start_gate_violation,
}

-- The latest client/state at the end of a trace, from one that was the latest before it.
abbrev pub last_from : Latest → List GateEntry → Latest
last_from l [] = l
last_from l (client_state v ∷ es) = last_from (state v) es
last_from l (sending r ∷ es) = last_from l es
last_from l (sent r ∷ es) = last_from l es

abbrev pub last_state : List GateEntry → Latest
last_state = last_from no_client_state

-- A client/state, and one that reports `available: true`.
abbrev pub IsState : GateEntry → Type 0
IsState (client_state v) = Unit
IsState (sending r) = ⊥
IsState (sent r) = ⊥

abbrev pub Reports : GateEntry → Type 0
Reports (client_state v) = is_true v ≡ true
Reports (sending r) = ⊥
Reports (sent r) = ⊥

-- Available was the latest state when the frame was handed over, or became so while it was in flight.
abbrev pub Witnessed : List GateEntry → List GateEntry → Type 0
Witnessed before within = (is_available (last_state before) ≡ true) ⊎ Any Reports within

-- A stream/start that reached the wire: what came before it, and the states within its bracket.
pub record Bracket (trace : List GateEntry) : Type 0 where
  pub before : List GateEntry
  pub within : List GateEntry
  pub after : List GateEntry
  pub sending_roles : Value
  pub sent_roles : Value
  pub places : trace ≡ before ++ sending sending_roles ∷ (within ++ sent sent_roles ∷ after)
  pub states : All IsState within

-- The gate behind a bracket that passes.
abbrev pub closed : Gate → Gate
closed g = record g { stream_starts = g.stream_starts + 1; available_in_flight = none }

-- A run that passes a `sent` had seen `available: true` since the frame was handed over.
sent_passes :
    (g : Gate) (r : Value) (es : List GateEntry)
    → gate_run g (sent r ∷ es) ≡ none
    → (g.available_in_flight ≡ some true) × (gate_run (closed g) es ≡ none)
unfolding gate_run
sent_passes g r es h = split g.available_in_flight refl
  where
    split :
        (o : Option Bool)
        → g.available_in_flight ≡ o
        → (g.available_in_flight ≡ some true) × (gate_run (closed g) es ≡ none)
    split none e = cc (rw (e, on_sent) at h)
    split (some false) e = cc (rw (e, on_sent) at h)
    split (some true) e = (e, rw (e, on_sent) at h)

-- A run that passes goes on to pass after any part of the trace.
run-append :
    (g : Gate) (es rest : List GateEntry)
    → gate_run g (es ++ rest) ≡ none
    → (g' : Gate) × (gate_run g' rest ≡ none) × (g'.latest ≡ last_from g.latest es)
unfolding gate_run
run-append g [] rest h = (g, h, refl)
run-append g (client_state v ∷ es) rest h = run-append _ es rest h
run-append g (sending r ∷ es) rest h = run-append _ es rest h
run-append g (sent r ∷ es) rest h = run-append (closed g) es rest (sent_passes g r (es ++ rest) h).1

abbrev pub seen_state : Gate → Value → Gate
seen_state g v = record g {
  latest = state v;
  available_in_flight = elim g.available_in_flight [
    | none ↦ none
    | some seen ↦ some (seen || is_true v)
  ];
}

seen_in_flight :
    (g : Gate) (v : Value)
    → g.available_in_flight ≡ some false
    → (seen_state g v).available_in_flight ≡ some (is_true v)
seen_in_flight g v e = rw e

-- Within a bracket, a run that passes has seen `available: true`.
run-within :
    (g : Gate) (b : Bool) (within after : List GateEntry) (roles : Value)
    → g.available_in_flight ≡ some b
    → All IsState within
    → gate_run g (within ++ sent roles ∷ after) ≡ none
    → (b ≡ true) ⊎ Any Reports within
unfolding gate_run
run-within g true within after roles e s h = inl refl
run-within g false [] after roles e s h = cc (e, (sent_passes g roles after h).0)
run-within g false (client_state v ∷ es) after roles e s h =
    elim (run-within (seen_state g v) (is_true v) es after roles (seen_in_flight g v e) s.1 h) [
      | inl now ↦ inr (inl now)
      | inr later ↦ inr (inr later)
    ]
run-within g false (sending r ∷ es) after roles e s h = absurd s.0
run-within g false (sent r ∷ es) after roles e s h = absurd s.0

abbrev pub handed_over : Gate → Gate
handed_over g = record g {
  held_at_sending = g.latest;
  available_in_flight = some (is_available g.latest);
}

-- Where a recorded trace passes, at every stream/start of it that reached the wire the latest
-- client/state reported `available: true` at some point between the handing over of the frame and
-- its being sent.
pub stream_start_gate_violation-none :
    (server : Fields) (trace : List GateEntry)
    → gate_entries (get "availability_trace" server) ≡ some trace
    → stream_start_gate_violation server ≡ none
    → (b : Bracket trace) → Witnessed b.before b.within
unfolding stream_start_gate_violation
stream_start_gate_violation-none server trace read h b =
    let passes : gate_run closed_gate trace ≡ none = rw (read, judge_entries) at h in
    let opened =
      run-append closed_gate b.before _
        (subst (λ t. gate_run closed_gate t ≡ none) b.places passes) in
    let g = opened.0 in
    elim (run-within (handed_over g) (is_available g.latest) b.within b.after b.sent_roles refl
      b.states (unfold gate_run in opened.1)) [
        | inl before ↦ inl (rw opened.2 at before)
        | inr within ↦ inr within
      ]

abbrev pub is_sent : GateEntry → Bool
is_sent (sent r) = true
is_sent _ = false

run-counts :
    (g : Gate) (es : List GateEntry)
    → gate_run g es ≡ none
    → (0 < g.stream_starts) ⊎ (any is_sent es ≡ true)
unfolding gate_run
run-counts g [] h = ground arith
run-counts g (client_state v ∷ es) h = run-counts _ es h
run-counts g (sending r ∷ es) h = run-counts _ es h
run-counts g (sent r ∷ es) h = inr refl

-- A trace passes only where it was recorded, and holds a stream/start that reached the wire.
pub stream_start_gate_violation-recorded :
    (server : Fields)
    → stream_start_gate_violation server ≡ none
    → (trace : List GateEntry) × (gate_entries (get "availability_trace" server) ≡ some trace)
      × (any is_sent trace ≡ true)
unfolding stream_start_gate_violation
stream_start_gate_violation-recorded server h =
    elim (Option-cases (gate_entries (get "availability_trace" server))) [
      | inl missing ↦ cc (rw (missing, judge_entries) at h)
      | inr (trace, read) ↦ (
        trace,
        read,
        elim (run-counts closed_gate trace (rw (read, judge_entries) at h)) [
          | inl n ↦ absurd (omega arith)
          | inr s ↦ s
        ],
      )
    ]
