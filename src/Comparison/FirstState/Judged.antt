-- ===== src/Comparison/FirstState/Judged.antt =====
-- src/conformance/runner.py: when the first metadata state holds the rule, and when it breaks it.
use conformance.Prelude.{
  ◌≡◌, refl, sym, ap, ◌∙◌, ◌↔◌, ◌⊎◌, inl, inr, true, false, Option, none, some, arith, Bool-cases,
  Option-cases, ℤ, ◌≤ℤ◌, ◌<ℤ◌, ltb_ℤ,
}
use mathlib.Core.Option.{some-injective}
use conformance.Json.{Value, null, bool, int, real, str, arr, obj, Fields, get, find}
use conformance.Comparison.FirstState.{
  StateViolation, no_timestamp, scheduled, metadata_section, judge_sent_state, judge_timestamp,
  judge_first_state, first_metadata_state_verdict,
}
use conformance.Comparison.FirstState.Stamps.{
  Stamped, outcome, Stamped-judged, Found, apart, sent_state,
}

-- What a judged timestamp says of the server's side.
abbrev FoundSent : Fields → Option Value → Option StateViolation → Type 0
FoundSent server timestamp o =
    (o ≡ some no_timestamp)
    ⊎ ((t : ℤ) × (b : ℤ) × (timestamp ≡ some (int t))
        × (section : Fields) × (metadata_section server ≡ some section)
        × (sent : Fields) × (get "first_state_sent" section ≡ obj sent)
        × (get "timestamp_us" sent ≡ int t)
        × (get "bound_us" sent ≡ int b)
        × (o ≡ outcome t b))

judge_timestamp-FoundSent :
    (server : Fields) (timestamp : Option Value) (o : Option StateViolation)
    → judge_timestamp server timestamp ≡ some (true, o)
    → FoundSent server timestamp o
unfolding judge_timestamp
judge_timestamp-FoundSent server none o h =
    absurd (apart o (some-injective (false, none) (true, o) h))
judge_timestamp-FoundSent server (some null) o h =
    inl (ap (λ p. p.1) (sym (some-injective (true, some no_timestamp) (true, o) h)))
judge_timestamp-FoundSent server (some (int t)) o h =
    elim (Option-cases (metadata_section server)) [
      | inl bad ↦ cc (rw bad at h)
      | inr (section, good) ↦
          let (sent, b, recorded, same, reading, found) =
            sent_state t (get "first_state_sent" section) o (
              some-injective (judge_sent_state t (get "first_state_sent" section)) (true, o)
                (rw good at h)) in
          inr (t, b, refl, section, good, sent, recorded, same, reading, found)
    ]
judge_timestamp-FoundSent server (some (bool b)) o h =
    absurd (apart o (some-injective (false, none) (true, o) h))
judge_timestamp-FoundSent server (some (real r)) o h =
    absurd (apart o (some-injective (false, none) (true, o) h))
judge_timestamp-FoundSent server (some (str s)) o h =
    absurd (apart o (some-injective (false, none) (true, o) h))
judge_timestamp-FoundSent server (some (arr vs)) o h =
    absurd (apart o (some-injective (false, none) (true, o) h))
judge_timestamp-FoundSent server (some (obj fields)) o h =
    absurd (apart o (some-injective (false, none) (true, o) h))

judged-Found :
    (server client : Fields) (o : Option StateViolation)
    → first_metadata_state_verdict server client ≡ some (true, o)
    → Found server client o
unfolding first_metadata_state_verdict judge_first_state
judged-Found server client o h = elim (Option-cases (metadata_section client)) [
  | inl bad ↦ cc (rw bad at h)
  | inr (section, good) ↦
      observed section good (get "first_object_state" section) refl (rw good at h)
]
  where
    observed :
        (section : Fields)
        → metadata_section client ≡ some section
        → (v : Value) → get "first_object_state" section ≡ v
        → judge_first_state server v ≡ some (true, o)
        → Found server client o
    observed section good (obj first_state) e h =
        elim (judge_timestamp-FoundSent server (find "timestamp_us" first_state) o h) [
          | inl nothing ↦ inl nothing
          | inr (t, b, timestamp, other, known, sent, recorded, same, reading, found) ↦ inr (
            t,
            b,
            record {
              client_metadata = section;
              client_section = good;
              first_state = first_state;
              observed = e;
              timestamp = timestamp;
              server_metadata = other;
              server_section = known;
              sent = sent;
              recorded = recorded;
              same = same;
              reading = reading;
            },
            found,
          )
        ]
    observed section good null e h = absurd (apart o (some-injective (false, none) (true, o) h))
    observed section good (bool b) e h = absurd (apart o (some-injective (false, none) (true, o) h))
    observed section good (int n) e h = absurd (apart o (some-injective (false, none) (true, o) h))
    observed section good (real r) e h = absurd (apart o (some-injective (false, none) (true, o) h))
    observed section good (str s) e h = absurd (apart o (some-injective (false, none) (true, o) h))
    observed section good (arr vs) e h = absurd (apart o (some-injective (false, none) (true, o) h))

-- The rule held exactly when both sides recorded the first state with the same timestamp, and that
-- is not later than the reading of the server's clock.
pub first_metadata_state_verdict-held_iff :
    (server client : Fields)
    → (first_metadata_state_verdict server client ≡ some (true, none))
      ↔ ((t : ℤ) × (b : ℤ) × Stamped server client t b × (t ≤ℤ b))
first_metadata_state_verdict-held_iff server client = (
  λ h. elim (judged-Found server client none h) [
    | inl bad ↦ cc
    | inr (t, b, s, e) ↦ (t, b, s, in_time t b e)
  ],
  λ (t, b, s, le). Stamped-judged server client t b s ∙ rw (not_late t b le) refl,
)
  where
    in_time : (t b : ℤ) → none ≡ outcome t b → t ≤ℤ b
    in_time t b e = elim (Bool-cases (ltb_ℤ b t)) [
      | inl late ↦ cc (rw late at e)
      | inr fine ↦ ground (arith, fine)
    ]

    not_late : (t b : ℤ) → t ≤ℤ b → ltb_ℤ b t ≡ false
    not_late t b le = ground (arith, le)

-- The server is accused of a state scheduled ahead exactly when both sides recorded it with that
-- timestamp, and the reading of the server's clock is earlier.
pub first_metadata_state_verdict-scheduled_iff :
    (server client : Fields) (t b : ℤ)
    → (first_metadata_state_verdict server client ≡ some (true, some (scheduled t b)))
      ↔ (Stamped server client t b × (b <ℤ t))
first_metadata_state_verdict-scheduled_iff server client t b = (
  λ h. elim (judged-Found server client (some (scheduled t b)) h) [
    | inl bad ↦ cc (bad)
    | inr (t', b', s, e) ↦ these t' b' s e
  ],
  λ (s, late). Stamped-judged server client t b s ∙ rw (is_late late) refl,
)
  where
    is_late : b <ℤ t → ltb_ℤ b t ≡ true
    is_late late = ground (arith, late)

    these :
        (t' b' : ℤ)
        → Stamped server client t' b'
        → some (scheduled t b) ≡ outcome t' b'
        → Stamped server client t b × (b <ℤ t)
    these t' b' s e = elim (Bool-cases (ltb_ℤ b' t')) [
      | inr fine ↦ cc (rw fine at e)
      | inl late ↦
          let k = rw late at e in
          let same_t : t' ≡ t = cc (k) in
          let same_b : b' ≡ b = cc (k) in
          let after : b' <ℤ t' = ground (arith, late) in rw (sym same_t, sym same_b) (s, after)
    ]
