-- ===== src/Comparison/Preference/Passes.antt =====
-- src/conformance/runner.py: what _compare_format_preference_summaries passes.
use conformance.Prelude.{
  ◌≡◌, refl, ap, ◌↔◌, inl, inr, true, false, not, Option, none, some, arith, ltb→lt, Bool-cases, ℤ,
  pos, ◌≤ℤ◌, ltb_ℤ,
}
use mathlib.Core.Path.{subst}
use conformance.Json.{Value, str, Fields, get, as_object}
use conformance.Json.Python.{Python, integer_or_zero}
use conformance.Matrix.Model.{ScenarioSpec}
use conformance.Comparison.Outcome.{
  ModeNote, renegotiated, passed, read_iff, found_iff, guard_iff, statuses_iff,
}
use conformance.Comparison.Preference.{
  format_preference_target, labelled, format_matches, has_applied, stayed, judge_final,
  judge_change, compare_format_preference_summaries,
}

module _ ⦃py : Python⦄ (requested : Fields) (initial : Value) where
  -- The stream changed to a format as requested, which the server sent and the client observed.
  pub record HasChanged (count : ℤ) (observed sent : Option Fields) (note : ModeNote) : Type 0 where
    pub final : Fields
    pub stream : Fields
    pub shown : Value
    pub observes : observed ≡ some final
    pub sends : sent ≡ some stream
    pub two_starts : pos 2 ≤ℤ count
    pub final_matches : format_matches final requested ≡ true
    pub stream_matches : format_matches stream requested ≡ true
    pub changed : stayed initial final ≡ false
    pub labels : labelled initial ≡ some shown
    pub noted : renegotiated shown final ≡ note

module _ ⦃py : Python⦄ (requested : Fields) (initial : Value) where
  applied_some :
      (sent : Option Fields)
      → has_applied sent requested ≡ true
      → (stream : Fields) × (sent ≡ some stream) × (format_matches stream requested ≡ true)
  unfolding has_applied
  applied_some none h = cc
  applied_some (some stream) h = (stream, refl, h)

  some_applied :
      (stream : Fields)
      → format_matches stream requested ≡ true
      → has_applied (some stream) requested ≡ true
  unfolding has_applied
  some_applied stream h = h

  judge_change_iff :
      (count : ℤ) (observed sent : Option Fields) (note : ModeNote)
      → (judge_change requested count observed sent initial ≡ passed note)
        ↔ HasChanged requested initial count observed sent note
  unfolding judge_change judge_final
  judge_change_iff count none sent note = (λ h. cc, λ h. let e = h.observes in cc (e))
  judge_change_iff count (some final) sent note =
      let whole =
        guard_iff note _
          (guard_iff note _
            (guard_iff note _ (read_iff note _ (labelled initial) λ shown. (λ k. k, λ k. k))
              (not (stayed initial final)) _)
            (has_applied sent requested) _)
          (format_matches final requested) _ in
      elim (Bool-cases (ltb_ℤ count (pos 2))) [
        | inl few ↦
            rw few
              (λ h. cc, λ h. absurd (let two = h.two_starts in omega (arith, two, ltb→lt _ _ few)))
        | inr enough ↦ rw enough (
          λ h.
              let (matches, (applied, (changed, (shown, es, e)))) = whole.0 h in
              let (stream, sends, streams) = applied_some sent applied in
              record {
                final = final;
                stream = stream;
                shown = shown;
                observes = refl;
                sends = sends;
                two_starts = ground (arith, enough);
                final_matches = matches;
                stream_matches = streams;
                changed = ground (arith, changed);
                labels = es;
                noted = cc (e);
              },
          λ h.
              let same : h.final ≡ final = let e = h.observes in cc (e) in
              whole.1 (
                subst (λ z. format_matches z requested ≡ true) same h.final_matches,
                (
                  rw h.sends (some_applied h.stream h.stream_matches),
                  (
                    subst (λ z. not (stayed initial z) ≡ true) same (ap not h.changed),
                    (
                      h.shown,
                      h.labels,
                      ap passed (subst (λ z. renegotiated h.shown z ≡ note) same h.noted),
                    ),
                  ),
                ),
              ),
        )
      ]

module _ ⦃py : Python⦄ (scenario : ScenarioSpec) (server_summary client_summary : Fields) where
  -- The server received the preference that the scenario asks for, and the stream changed to it.
  pub record IsPreferred (note : ModeNote) : Type 0 where
    pub server_ok : get "status" server_summary ≡ str "ok"
    pub client_ok : get "status" client_summary ≡ str "ok"
    pub preference : Fields
    pub recorded : as_object (get "format_preference" server_summary) ≡ some preference
    pub received : Fields
    pub was_received : as_object (get "received" preference) ≡ some received
    pub target : Fields
    pub targeted : format_preference_target scenario.id ≡ some target
    pub on_target : format_matches received target ≡ true
    pub renegotiation : Fields
    pub reported : as_object (get "renegotiation" client_summary) ≡ some renegotiation
    pub requested : Fields
    pub was_requested : as_object (get "requested" renegotiation) ≡ some requested
    pub as_requested : format_matches received requested ≡ true
    pub count : ℤ
    pub counted : integer_or_zero (get "stream_start_count" renegotiation) ≡ some count
    pub changed :
        HasChanged requested
          (get "initial_format" renegotiation)
          count
          (as_object (get "final_format" renegotiation))
          (as_object (get "stream" server_summary))
          note

module _ ⦃py : Python⦄ (scenario : ScenarioSpec) (server_summary client_summary : Fields) where
  -- The comparison passes exactly when each of its guards does.
  pub compare_format_preference-guards_iff :
      (note : ModeNote)
      → (compare_format_preference_summaries scenario server_summary client_summary ≡ passed note)
        ↔ IsPreferred scenario server_summary client_summary note
  unfolding compare_format_preference_summaries
  compare_format_preference-guards_iff note =
      let whole =
        statuses_iff note _
          (found_iff note _ _ (as_object (get "format_preference" server_summary)) λ p.
            found_iff note _ _ (as_object (get "received" p)) λ r.
              read_iff note _ (format_preference_target scenario.id) λ t.
                guard_iff note _
                  (found_iff note _ _ (as_object (get "renegotiation" client_summary)) λ n.
                    found_iff note _ _ (as_object (get "requested" n)) λ q.
                      guard_iff note _
                        (read_iff note _ (integer_or_zero (get "stream_start_count" n)) λ count.
                          judge_change_iff q (get "initial_format" n) count
                            (as_object (get "final_format" n))
                            (as_object (get "stream" server_summary)) note)
                        (format_matches r q) _)
                  (format_matches r t) _)
          server_summary client_summary in
      (
        λ h.
            let (s, c, (p, ep, (r, er, (t, et, (mt, (n, en, (q, eq, (mq, (k, ek, changed))))))))) =
              whole.0 h in
            record {
              server_ok = s;
              client_ok = c;
              preference = p;
              recorded = ep;
              received = r;
              was_received = er;
              target = t;
              targeted = et;
              on_target = mt;
              renegotiation = n;
              reported = en;
              requested = q;
              was_requested = eq;
              as_requested = mq;
              count = k;
              counted = ek;
              changed = changed;
            },
        λ h. whole.1 (
          h.server_ok,
          h.client_ok,
          (
            h.preference,
            h.recorded,
            (
              h.received,
              h.was_received,
              (
                h.target,
                h.targeted,
                (
                  h.on_target,
                  (
                    h.renegotiation,
                    h.reported,
                    (
                      h.requested,
                      h.was_requested,
                      (h.as_requested, (h.count, h.counted, h.changed)),
                    ),
                  ),
                ),
              ),
            ),
          ),
        ),
      )
