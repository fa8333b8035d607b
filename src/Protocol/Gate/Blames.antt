-- ===== src/Protocol/Gate/Blames.antt =====
-- What a violation of stream_start_gate_violation of src/conformance/protocol.py shows of the trace.
use conformance.Prelude.{
  ◌≡◌, refl, sym, ap, ◌∙◌, ◌⊎◌, inl, inr, Bool, true, false, ◌||◌, Option, none, some, List, [],
  ◌∷◌, ◌++◌, append_assoc, arith, ◌==◌, if◌then◌else◌, Option-cases, All, Any-append_split,
  All-append,
}
use mathlib.Core.Path.{subst}
use mathlib.Core.Option.{some-injective}
use conformance.Json.{Value, Fields, get, is_true}
use conformance.Protocol.Gate.{
  GateEntry, client_state, sending, sent, Latest, no_client_state, state, GateReason, unrecorded,
  no_stream_start, gate_violation_reason, Gate, closed_gate, is_available, on_sent, gate_run,
  judge_entries, gate_entries, stream_start_gate_violation,
}
use conformance.Protocol.Gate.Passes.{
  last_from, last_state, IsState, Reports, Witnessed, Bracket, closed, seen_state, handed_over,
  closed, seen_state, handed_over,
}

last_from-append :
    (l : Latest) (es fs : List GateEntry) → last_from l (es ++ fs) ≡ last_from (last_from l es) fs
last_from-append l [] fs = refl
last_from-append l (client_state v ∷ es) fs = last_from-append (state v) es fs
last_from-append l (sending r ∷ es) fs = last_from-append l es fs
last_from-append l (sent r ∷ es) fs = last_from-append l es fs

-- A bracket that is open at the end of the trace so far: `seen` is what has been witnessed.
record Open (past : List GateEntry) (held : Latest) (seen : Bool) : Type 0 where
  before : List GateEntry
  within : List GateEntry
  roles : Value
  places : past ≡ before ++ sending roles ∷ within
  states : All IsState within
  held_before : held ≡ last_state before
  unseen : seen ≡ false → ¬ Witnessed before within

-- What the loop's variables say of the trace so far.
record Explains (past : List GateEntry) (g : Gate) : Type 0 where
  latest_of : g.latest ≡ last_state past
  flight : (seen : Bool) → g.available_in_flight ≡ some seen → Open past g.held_at_sending seen

-- What a violation says of the trace: a bracket without a witness, and the state that was held.
pub record Broken (trace : List GateEntry) (reason : GateReason) : Type 0 where
  pub bracket : Bracket trace
  pub unwitnessed : ¬ Witnessed bracket.before bracket.within
  pub blames : reason ≡ gate_violation_reason (last_state bracket.before) bracket.sent_roles

start-Explains : Explains [] closed_gate
start-Explains = record { latest_of = refl; flight = λ seen e. cc }

module _ {past : List GateEntry} {g : Gate} (x : Explains past g) where
  -- A client/state joins the bracket that is open.
  seen-Open :
      (v : Value) (was seen : Bool)
      → g.available_in_flight ≡ some was
      → (was || is_true v) ≡ seen
      → Open (past ++ client_state v ∷ []) g.held_at_sending seen
  seen-Open v was seen e s =
      let o = x.flight was e in
      record {
        before = o.before;
        within = o.within ++ client_state v ∷ [];
        roles = o.roles;
        places =
            rw o.places (append_assoc o.before (sending o.roles ∷ o.within) (client_state v ∷ []));
        states = All-append IsState o.within (client_state v ∷ []) o.states (tt, tt);
        held_before = o.held_before;
        unseen = λ f. elim [
          | inl early ↦ o.unseen (ground arith) (inl early)
          | inr late ↦ elim (Any-append_split Reports o.within (client_state v ∷ []) late) [
            | inl old ↦ o.unseen (ground arith) (inr old)
            | inr (inl new) ↦ ground arith
            | inr (inr n) ↦ n
          ]
        ];
      }

  state_step : (v : Value) → Explains (past ++ client_state v ∷ []) (seen_state g v)
  state_step v = record {
    latest_of = sym (last_from-append no_client_state past (client_state v ∷ []));
    flight = λ seen e. flight seen g.available_in_flight refl (e);
  }
    where
      flight :
          (seen : Bool) (o : Option Bool)
          → g.available_in_flight ≡ o
          → (seen_state g v).available_in_flight ≡ some seen
          → Open (past ++ client_state v ∷ []) g.held_at_sending seen
      flight seen none e h = cc (rw e at h)
      flight seen (some was) e h = seen-Open v was seen e (some-injective _ seen (rw e at h))

  sending_step : (r : Value) → Explains (past ++ sending r ∷ []) (handed_over g)
  sending_step r = record {
    latest_of = x.latest_of ∙ sym (last_from-append no_client_state past (sending r ∷ []));
    flight = λ seen e. record {
      before = past;
      within = [];
      roles = r;
      places = refl;
      states = tt;
      held_before = x.latest_of;
      unseen = λ f. elim [ inl early ↦ cc (e, f, early, ap is_available x.latest_of) | inr n ↦ n ];
    };
  }

  sent_step : (r : Value) → Explains (past ++ sent r ∷ []) (closed g)
  sent_step r = record {
    latest_of = x.latest_of ∙ sym (last_from-append no_client_state past (sent r ∷ []));
    flight = λ seen e. cc;
  }

-- A reason that names the server or the client, not the adapter.
abbrev pub IsViolation : GateReason → Type 0
IsViolation unrecorded = ⊥
IsViolation no_stream_start = ⊥
IsViolation _ = Unit

Broken-sent :
    (past : List GateEntry) (g : Gate) (r : Value) (es : List GateEntry)
    → Explains past g
    → g.available_in_flight ≡ some false
    → Broken (past ++ sent r ∷ es) (gate_violation_reason g.held_at_sending r)
Broken-sent past g r es x e =
    let o = x.flight false e in
    record {
      bracket = record {
        before = o.before;
        within = o.within;
        after = es;
        sending_roles = o.roles;
        sent_roles = r;
        places = rw o.places (append_assoc o.before (sending o.roles ∷ o.within) (sent r ∷ es));
        states = o.states;
      };
      unwitnessed = o.unseen refl;
      blames = rw o.held_before;
    }

sent_cases :
    (g : Gate) (r : Value) (es : List GateEntry) (reason : GateReason)
    → IsViolation reason
    → gate_run g (sent r ∷ es) ≡ some reason
    → (gate_run (closed g) es ≡ some reason)
      ⊎ ((g.available_in_flight ≡ some false)
          × (reason ≡ gate_violation_reason g.held_at_sending r))
unfolding gate_run
sent_cases g r es reason w h = split g.available_in_flight refl
  where
    split :
        (o : Option Bool)
        → g.available_in_flight ≡ o
        → (gate_run (closed g) es ≡ some reason)
          ⊎ ((g.available_in_flight ≡ some false)
              × (reason ≡ gate_violation_reason g.held_at_sending r))
    split none e =
        absurd (subst IsViolation (sym (some-injective _ reason (rw (e, on_sent) at h))) w)
    split (some false) e = inr (e, sym (some-injective _ reason (rw (e, on_sent) at h)))
    split (some true) e = inl (rw (e, on_sent) at h)

run_blames :
    (past : List GateEntry) (g : Gate) (es : List GateEntry) (reason : GateReason)
    → Explains past g
    → IsViolation reason
    → gate_run g es ≡ some reason
    → Broken (past ++ es) reason
unfolding gate_run
run_blames past g [] reason x v h = absurd (nothing (g.stream_starts == 0) reason v h)
  where
    nothing :
        (b : Bool) (r : GateReason)
        → IsViolation r
        → (if b then some no_stream_start else none) ≡ some r
        → ⊥
    nothing false r v h = cc
    nothing true r v h = subst IsViolation (sym (some-injective _ r h)) v
run_blames past g (client_state v ∷ es) reason x w h =
    rw (append_assoc past (client_state v ∷ []) es) at
      (run_blames (past ++ client_state v ∷ []) (seen_state g v) es reason (state_step x v) w h)
run_blames past g (sending r ∷ es) reason x w h =
    rw (append_assoc past (sending r ∷ []) es) at
      (run_blames (past ++ sending r ∷ []) (handed_over g) es reason (sending_step x r) w h)
run_blames past g (sent r ∷ es) reason x w h = elim (sent_cases g r es reason w h) [
  | inl on ↦
      rw (append_assoc past (sent r ∷ []) es) at
        (run_blames (past ++ sent r ∷ []) (closed g) es reason (sent_step x r) w on)
  | inr (e, found) ↦ subst (Broken (past ++ sent r ∷ es)) (sym found) (Broken-sent past g r es x e)
]

-- A reason that names the server or the client comes with a recorded trace and a stream/start of
-- it that reached the wire without a witness: the latest client/state did not report `available:
-- true` at any point of its bracket. The reason is the one for the state that the server held when
-- it handed the frame over, with the roles of that stream/start.
pub stream_start_gate_violation-some :
    (server : Fields) (reason : GateReason)
    → stream_start_gate_violation server ≡ some reason
    → IsViolation reason
    → (trace : List GateEntry) × (gate_entries (get "availability_trace" server) ≡ some trace)
      × Broken trace reason
unfolding stream_start_gate_violation
stream_start_gate_violation-some server reason h w =
    elim (Option-cases (gate_entries (get "availability_trace" server))) [
      | inl missing ↦
          absurd
            (subst IsViolation (sym (some-injective _ reason (rw (missing, judge_entries) at h))) w)
      | inr (trace, read) ↦ (
        trace,
        read,
        run_blames [] closed_gate trace reason start-Explains w (rw (read, judge_entries) at h),
      )
    ]
