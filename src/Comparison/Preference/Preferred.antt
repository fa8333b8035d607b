-- ===== src/Comparison/Preference/Preferred.antt =====
-- src/conformance/runner.py: what _compare_format_preference_summaries passes, in terms of the values
-- of the summaries.
use conformance.Prelude.{
  ◌≡◌, refl, sym, ap, ◌∙◌, ◌↔◌, ◌⊎◌, inl, inr, false, none, some, if◌then◌else◌, Bool-cases, clash,
  ℤ, pos, ◌≤ℤ◌,
}
use mathlib.Core.Option.{some-injective}
use conformance.Json.{Value, null, str, obj, Fields, get, as_object}
use conformance.Json.Python.{Python, is_truthy, integer_or_zero}
use conformance.Matrix.Model.{ScenarioSpec}
use conformance.Comparison.Outcome.{ModeNote, renegotiated, passed}
use conformance.Comparison.Audio.Passes.{as_object_iff}
use conformance.Comparison.Preference.{labelled, stayed, compare_format_preference_summaries}
use conformance.Comparison.Preference.Passes.{HasChanged, compare_format_preference-guards_iff}
use conformance.Comparison.Preference.Matches.{
  Matches, IsUnchanged, IsOnTarget, format_matches-Matches, stayed-IsUnchanged, target-IsOnTarget,
}

module _ ⦃py : Python⦄ (requested : Fields) (initial : Value) where
  -- The client observed a format as requested, after another one, and the server sent one.
  pub record IsChanged (count : ℤ) (observed sent : Value) (note : ModeNote) : Type 0 where
    pub final : Fields
    pub stream : Fields
    pub observes : observed ≡ obj final
    pub sends : sent ≡ obj stream
    pub two_starts : pos 2 ≤ℤ count
    pub final_matches : Matches requested final
    pub stream_matches : Matches requested stream
    pub changed : ¬ IsUnchanged initial final
    pub labels : ((fields : Fields) × (initial ≡ obj fields)) ⊎ (is_truthy initial ≡ false)
    pub noted : note ≡ renegotiated initial final

Labels : Value → Value → Type 0
Labels v shown = (v ≡ shown) × (((fields : Fields) × (v ≡ obj fields)) ⊎ (is_truthy v ≡ false))

plain_label :
    (v shown : Value)
    → ((fields : Fields) → v ≡ obj fields → ⊥)
    → ((if is_truthy v then none else some v) ≡ some shown) ↔ Labels v shown
unfolding Labels
plain_label v shown other = elim (Bool-cases (is_truthy v)) [
  | inl y ↦ rw y (λ h. cc, λ h. elim h.1 [ inl k ↦ absurd (other k.0 k.1) | inr k ↦ cc (k) ])
  | inr n ↦ rw n (λ h. (some-injective _ _ h, inr refl), λ h. ap some h.0)
]

labelled-Labels : (v shown : Value) → (labelled v ≡ some shown) ↔ Labels v shown
unfolding labelled Labels
labelled-Labels (obj fields) shown =
    (λ h. (some-injective _ _ h, inl (fields, refl)), λ h. ap some h.0)
labelled-Labels null shown = unfold Labels in plain_label null shown (λ f e. cc)
labelled-Labels (Value.bool b) shown = unfold Labels in plain_label (Value.bool b) shown (λ f e. cc)
labelled-Labels (Value.int n) shown = unfold Labels in plain_label (Value.int n) shown (λ f e. cc)
labelled-Labels (Value.real x) shown = unfold Labels in plain_label (Value.real x) shown (λ f e. cc)
labelled-Labels (str s) shown = unfold Labels in plain_label (str s) shown (λ f e. cc)
labelled-Labels (Value.arr vs) shown = unfold Labels in plain_label (Value.arr vs) shown (λ f e. cc)

module _ ⦃py : Python⦄ (requested : Fields) (initial : Value) where
  not_stayed : (final : Fields) → (stayed initial final ≡ false) ↔ (¬ IsUnchanged initial final)
  not_stayed final =
      let both = stayed-IsUnchanged initial final in
      (
        λ h k. clash (both.1 k) h,
        λ h. elim (Bool-cases (stayed initial final)) [ inl y ↦ absurd (h (both.0 y)) | inr n ↦ n ],
      )

  HasChanged-IsChanged :
      (count : ℤ) (observed sent : Value) (note : ModeNote)
      → HasChanged requested initial count (as_object observed) (as_object sent) note
        ↔ IsChanged requested initial count observed sent note
  unfolding Labels
  HasChanged-IsChanged count observed sent note = (
    λ h.
        let labels = (labelled-Labels initial h.shown).0 h.labels in
        record {
          final = h.final;
          stream = h.stream;
          observes = (as_object_iff observed h.final).0 h.observes;
          sends = (as_object_iff sent h.stream).0 h.sends;
          two_starts = h.two_starts;
          final_matches = (format_matches-Matches h.final requested).0 h.final_matches;
          stream_matches = (format_matches-Matches h.stream requested).0 h.stream_matches;
          changed = (not_stayed h.final).0 h.changed;
          labels = labels.1;
          noted = sym h.noted ∙ ap (λ z. renegotiated z h.final) (sym labels.0);
        },
    λ h. record {
      final = h.final;
      stream = h.stream;
      shown = initial;
      observes = (as_object_iff observed h.final).1 h.observes;
      sends = (as_object_iff sent h.stream).1 h.sends;
      two_starts = h.two_starts;
      final_matches = (format_matches-Matches h.final requested).1 h.final_matches;
      stream_matches = (format_matches-Matches h.stream requested).1 h.stream_matches;
      changed = (not_stayed h.final).1 h.changed;
      labels = (labelled-Labels initial initial).1 (refl, h.labels);
      noted = sym h.noted;
    },
  )

module _ ⦃py : Python⦄ (scenario : ScenarioSpec) (server_summary client_summary : Fields) where
  -- The server received the preference that the scenario asks for, and the stream changed to it.
  pub record IsRenegotiated (note : ModeNote) : Type 0 where
    pub server_ok : get "status" server_summary ≡ str "ok"
    pub client_ok : get "status" client_summary ≡ str "ok"
    pub preference : Fields
    pub recorded : get "format_preference" server_summary ≡ obj preference
    pub received : Fields
    pub was_received : get "received" preference ≡ obj received
    pub on_target : IsOnTarget scenario.id received
    pub renegotiation : Fields
    pub reported : get "renegotiation" client_summary ≡ obj renegotiation
    pub requested : Fields
    pub was_requested : get "requested" renegotiation ≡ obj requested
    pub as_requested : Matches requested received
    pub count : ℤ
    pub counted : integer_or_zero (get "stream_start_count" renegotiation) ≡ some count
    pub changed :
        IsChanged requested
          (get "initial_format" renegotiation)
          count
          (get "final_format" renegotiation)
          (get "stream" server_summary)
          note

module _ ⦃py : Python⦄ (scenario : ScenarioSpec) (server_summary client_summary : Fields) where
  -- The comparison of the mode "format-preference" passes exactly when both adapters report the
  -- status ok, the server received a preference that is the scenario's target (PCM with 16 bits, or
  -- FLAC) and has every field that the client reports to have requested, and the client observed at
  -- least two stream/start and, at the end, a format that has every field requested and is not the
  -- initial one, and the format that the server sent last has them too. An initial format that is no
  -- object has to be false as a Python value.
  pub compare_format_preference-passed_iff :
      (note : ModeNote)
      → (compare_format_preference_summaries scenario server_summary client_summary ≡ passed note)
        ↔ IsRenegotiated scenario server_summary client_summary note
  compare_format_preference-passed_iff note =
      let whole =
        compare_format_preference-guards_iff scenario server_summary client_summary note in
      (
        λ h.
            let k = whole.0 h in
            record {
              server_ok = k.server_ok;
              client_ok = k.client_ok;
              preference = k.preference;
              recorded = (as_object_iff _ k.preference).0 k.recorded;
              received = k.received;
              was_received = (as_object_iff _ k.received).0 k.was_received;
              on_target =
                  (target-IsOnTarget scenario.id k.received).0 (k.target, k.targeted, k.on_target);
              renegotiation = k.renegotiation;
              reported = (as_object_iff _ k.renegotiation).0 k.reported;
              requested = k.requested;
              was_requested = (as_object_iff _ k.requested).0 k.was_requested;
              as_requested = (format_matches-Matches k.received k.requested).0 k.as_requested;
              count = k.count;
              counted = k.counted;
              changed = (HasChanged-IsChanged k.requested _ k.count _ _ note).0 k.changed;
            },
        λ k.
            let (target, targeted, on_target) =
              (target-IsOnTarget scenario.id k.received).1 k.on_target in
            whole.1 (record {
              server_ok = k.server_ok;
              client_ok = k.client_ok;
              preference = k.preference;
              recorded = (as_object_iff _ k.preference).1 k.recorded;
              received = k.received;
              was_received = (as_object_iff _ k.received).1 k.was_received;
              target = target;
              targeted = targeted;
              on_target = on_target;
              renegotiation = k.renegotiation;
              reported = (as_object_iff _ k.renegotiation).1 k.reported;
              requested = k.requested;
              was_requested = (as_object_iff _ k.requested).1 k.was_requested;
              as_requested = (format_matches-Matches k.received k.requested).1 k.as_requested;
              count = k.count;
              counted = k.counted;
              changed =
                  (HasChanged-IsChanged k.requested (get "initial_format" k.renegotiation) k.count
                      (get "final_format" k.renegotiation) (get "stream" server_summary) note).1
                    k.changed;
            }),
      )
