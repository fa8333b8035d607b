-- ===== src/Comparison/FirstState/Stamps.antt =====
-- src/conformance/runner.py: what a verdict on the first metadata state rests on.
use conformance.Prelude.{
  ◌≡◌, refl, sym, ap, ◌∙◌, ◌⊎◌, inl, inr, true, false, Option, none, some, if◌then◌else◌,
  Bool-cases, Option-cases, clash, ℤ, ltb_ℤ, eqb_ℤ, eqb_ℤ→eq, eqb_ℤ_refl,
}
use conformance.Json.{Value, null, bool, int, real, str, arr, obj, Fields, get, find, as_integer}
use conformance.Comparison.FirstState.{
  StateViolation, no_timestamp, scheduled, StateVerdict, metadata_section, judge_stamps,
  judge_sent_state, judge_timestamp, judge_first_state, first_metadata_state_verdict,
}

-- Both sides recorded the state, with the same timestamp, and the server a reading of its clock.
pub record Stamped (server client : Fields) (stamped bound : ℤ) : Type 0 where
  pub client_metadata : Fields
  pub client_section : metadata_section client ≡ some client_metadata
  pub first_state : Fields
  pub observed : get "first_object_state" client_metadata ≡ obj first_state
  pub timestamp : find "timestamp_us" first_state ≡ some (int stamped)
  pub server_metadata : Fields
  pub server_section : metadata_section server ≡ some server_metadata
  pub sent : Fields
  pub recorded : get "first_state_sent" server_metadata ≡ obj sent
  pub same : get "timestamp_us" sent ≡ int stamped
  pub reading : get "bound_us" sent ≡ int bound

abbrev pub outcome : ℤ → ℤ → Option StateViolation
outcome stamped bound = if ltb_ℤ bound stamped then some (scheduled stamped bound) else none

-- The rule is judged where the state was stamped.
pub Stamped-judged :
    (server client : Fields) (t b : ℤ)
    → Stamped server client t b
    → first_metadata_state_verdict server client ≡ some (true, outcome t b)
unfolding first_metadata_state_verdict judge_first_state judge_timestamp judge_sent_state
    judge_stamps
Stamped-judged server client t b s =
    rw
      (
        s.client_section,
        s.observed,
        s.timestamp,
        s.server_section,
        s.recorded,
        s.same,
        s.reading,
        eqb_ℤ_refl t,
      )
      (elim (Bool-cases (ltb_ℤ b t)) [ inl late ↦ rw late refl | inr fine ↦ rw fine refl ])

as_integer-int : (v : Value) (n : ℤ) → as_integer v ≡ some n → v ≡ int n
as_integer-int (int m) n h = cc (h)
as_integer-int null n h = cc
as_integer-int (bool b) n h = cc
as_integer-int (real r) n h = cc
as_integer-int (str s) n h = cc
as_integer-int (arr vs) n h = cc
as_integer-int (obj o) n h = cc

-- What a judged verdict says of the evidence.
abbrev pub Found : Fields → Fields → Option StateViolation → Type 0
Found server client v =
    (v ≡ some no_timestamp) ⊎ ((t : ℤ) × (b : ℤ) × Stamped server client t b × (v ≡ outcome t b))

pub apart :
    (o : Option StateViolation) {x : Option StateViolation}
    → ◌≡◌ {A = StateVerdict} (false, x) (true, o)
    → ⊥
apart o e = clash (ap (λ p. p.0) e) refl

pub sent_state :
    (t : ℤ) (v : Value) (o : Option StateViolation)
    → judge_sent_state t v ≡ (true, o)
    → (sent : Fields) × (b : ℤ) × (v ≡ obj sent)
      × (get "timestamp_us" sent ≡ int t)
      × (get "bound_us" sent ≡ int b)
      × (o ≡ outcome t b)
unfolding judge_sent_state judge_stamps
sent_state t (obj sent) o h = elim (Option-cases (as_integer (get "timestamp_us" sent))) [
  | inl bad ↦ absurd (apart o (rw (bad, judge_stamps) at h))
  | inr (s, good) ↦ elim (Option-cases (as_integer (get "bound_us" sent))) [
    | inl bad ↦ absurd (apart o (rw (good, bad, judge_stamps) at h))
    | inr (b, fine) ↦ elim (Bool-cases (eqb_ℤ t s)) [
      | inr differ ↦ absurd (apart o (rw (good, fine, judge_stamps, differ) at h))
      | inl same ↦ (
        sent,
        b,
        refl,
        as_integer-int (get "timestamp_us" sent) t (good ∙ ap some (sym (eqb_ℤ→eq t s same))),
        as_integer-int (get "bound_us" sent) b fine,
        late b (rw (good, fine, judge_stamps, same) at h),
      )
    ]
  ]
]
  where
    late :
        (b : ℤ)
        → ◌≡◌ {A = StateVerdict}
            (if ltb_ℤ b t then (true, some (scheduled t b)) else (true, none))
            (true, o)
        → o ≡ outcome t b
    late b e = elim (Bool-cases (ltb_ℤ b t)) [
      | inl yes' ↦ let k = rw yes' at e in rw yes' (ap (λ p. p.1) (sym k))
      | inr no' ↦ let k = rw no' at e in rw no' (ap (λ p. p.1) (sym k))
    ]
sent_state t null o h = absurd (apart o h)
sent_state t (bool b) o h = absurd (apart o h)
sent_state t (int n) o h = absurd (apart o h)
sent_state t (real r) o h = absurd (apart o h)
sent_state t (str s) o h = absurd (apart o h)
sent_state t (arr vs) o h = absurd (apart o h)
