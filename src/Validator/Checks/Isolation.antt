-- ===== src/Validator/Checks/Isolation.antt =====
-- src/conformance/validator/checks.py: judge_session looks at no other connection.
use conformance.Prelude.{
  ℕ, String, ◌≡◌, refl, ap, inl, inr, Bool, true, Option, List, [], ◌∷◌, ◌==◌, Bool-cases, filter,
}
use conformance.Json.{Unicode}
use conformance.Validator.Record.{RecordedFrame, RecordedNoncompliance, on_connection, record_of}
use conformance.Validator.Checks.Run.{is_judged, judge_session}

module _ {A : Type 0} (p q : A → Bool) where
  -- What a weaker test drops, the stronger one drops anyway.
  filter-filter_imp :
      (xs : List A) → ((x : A) → p x ≡ true → q x ≡ true) → filter p (filter q xs) ≡ filter p xs
  filter-filter_imp [] weaker = refl
  filter-filter_imp (x ∷ xs) weaker =
      let rest = filter-filter_imp xs weaker in
      elim (Bool-cases (p x)) [
        | inl y ↦ rw (weaker x y, y) (ap (λ z. x ∷ z) rest)
        | inr n ↦ elim (Bool-cases (q x)) [ inl y ↦ rw (y, n) rest | inr m ↦ rw (m, n) rest ]
      ]

own_judged :
    (connection : ℕ) (later : List ℕ) (o : RecordedNoncompliance)
    → on_connection connection o.connection ≡ true
    → is_judged (connection ∷ later) o ≡ true
own_judged connection later o h = rw h refl

module _ ⦃u : Unicode⦄ (connection : ℕ) (later : List ℕ) where
  -- What judge_session returns depends on the frames of the judged connection, and on the violations
  -- of it and of the client's later connections, alone: to take out all others changes nothing.
  pub judge_session-own :
      (frames : List RecordedFrame) (noncompliance : List RecordedNoncompliance)
      (tool_errors : List String) (txt_name : Option String)
      → judge_session
          (filter (λ f. f.connection == connection) frames)
          (filter (is_judged (connection ∷ later)) noncompliance)
          tool_errors
          connection
          later
          txt_name
        ≡ judge_session frames noncompliance tool_errors connection later txt_name
  unfolding judge_session record_of
  judge_session-own frames noncompliance tool_errors txt_name =
      let own =
        filter-filter_imp (λ (f : RecordedFrame). f.connection == connection)
          (λ (f : RecordedFrame). f.connection == connection) frames (λ f h. h) in
      let mine =
        filter-filter_imp (λ (o : RecordedNoncompliance). on_connection connection o.connection)
          (is_judged (connection ∷ later)) noncompliance (own_judged connection later) in
      let judged =
        filter-filter_imp (is_judged (connection ∷ later)) (is_judged (connection ∷ later))
          noncompliance (λ o h. h) in
      rw (own, mine, judged) refl
