-- ===== src/Validator/Suites/Refused.antt =====
-- src/conformance/validator/suite_checks.py: when UNPAIRED-004 passes.
use conformance.Prelude.{
  String, ◌≡◌, refl, ◌↔◌, ◌⊎◌, inl, inr, true, false, Option, none, some, List, [], ◌∷◌, Bool-cases,
  Option-cases,
}
use conformance.Json.{is_text}
use conformance.Validator.Findings.{pass}
use conformance.Validator.Record.{
  RecordedFrame, ConnectionRecord, has_type, has_closed, is_rejected, outbound,
}
use conformance.Validator.Checks.Order.{Gives}
use conformance.Validator.Suites.{
  first_after, first_inbound, refusals, first_outbound_activation, unpaired_access, reason_of,
}
use conformance.Validator.Suites.Order.{First, first_with-judged_iff, FirstAnswer}
use conformance.Validator.Suites.Refusal.{
  judge_goodbye, judge_no_goodbye, judge_refusal, judge_aborted, judge_abort, declares_pairing,
  judge_inadmissible, check_inadmissible_activation,
}

abbrev pub goodbye_only : Option (List String)
goodbye_only = some ("client/goodbye" ∷ [])

module _ (r : ConnectionRecord) (activation : RecordedFrame) where
  -- The first client/goodbye after the activation says a reason.
  abbrev pub IsRefused : String → Type 0
  IsRefused reason =
      (goodbye : RecordedFrame) × FirstAnswer r activation goodbye_only goodbye
      × (is_text reason (reason_of goodbye) ≡ true)

  -- A pair/abort that says that the method is not supported, on a connection that was not closed.
  abbrev pub IsAbort : RecordedFrame → Type 0
  IsAbort f =
      (has_type "pair/abort" f ≡ true)
      × (is_text "method_not_supported" (reason_of f) ≡ true)
      × (has_closed r ≡ false)

  -- The first pair/abort or client/goodbye after the activation is such a pair/abort.
  abbrev pub IsAborted : Type 0
  IsAborted = (f : RecordedFrame) × FirstAnswer r activation (some refusals) f × IsAbort f

  judge_no_goodbye-not_pass :
      (id reason : String) → Gives pass (judge_no_goodbye r id activation reason) → ⊥
  unfolding judge_no_goodbye
  judge_no_goodbye-not_pass id reason = elim (Bool-cases (is_rejected r)) [
    | inl y ↦ rw (y, judge_no_goodbye) (λ h. cc)
    | inr n ↦ elim (Option-cases (first_inbound r activation none)) [
      | inl silent ↦ rw (n, silent, judge_no_goodbye) (λ h. cc)
      | inr (f, found) ↦ rw (n, found, judge_no_goodbye) (λ h. cc)
    ]
  ]

  judge_goodbye-pass_iff :
      (id reason : String) (g : RecordedFrame)
      → Gives pass (judge_goodbye id activation reason g) ↔ (is_text reason (reason_of g) ≡ true)
  unfolding judge_goodbye
  judge_goodbye-pass_iff id reason g = elim (Bool-cases (is_text reason (reason_of g))) [
    | inl y ↦ rw (y, judge_goodbye) (λ h. refl, λ h. refl)
    | inr n ↦ rw (n, judge_goodbye) (λ h. cc, λ h. cc (h))
  ]

  judge_refusal-pass_iff :
      (id reason : String) → Gives pass (judge_refusal r id activation reason) ↔ IsRefused reason
  unfolding judge_refusal first_inbound first_after
  judge_refusal-pass_iff id reason =
      first_with-judged_iff _ r.frames _ _ _ (judge_no_goodbye-not_pass id reason)
        (judge_goodbye-pass_iff id reason)

  judge_aborted-pass_iff :
      (f : RecordedFrame) → Gives pass (judge_aborted r activation f) ↔ IsAbort f
  unfolding judge_aborted
  judge_aborted-pass_iff f = elim (Bool-cases (has_type "pair/abort" f)) [
    | inr n ↦ rw (n, judge_aborted) (λ h. cc, λ h. cc (h.0))
    | inl t ↦ elim (Bool-cases (is_text "method_not_supported" (reason_of f))) [
      | inr n ↦ rw (t, n, judge_aborted) (λ h. cc, λ h. cc (h.1))
      | inl s ↦ elim (Bool-cases (has_closed r)) [
        | inl c ↦ rw (t, s, c, judge_aborted) (λ h. cc, λ h. cc (h.2))
        | inr o ↦ rw (t, s, o, judge_aborted) (λ h. (refl, refl, refl), λ h. refl)
      ]
    ]
  ]

  judge_abort-pass_iff : Gives pass (judge_abort r activation) ↔ IsAborted
  unfolding judge_abort first_inbound first_after
  judge_abort-pass_iff = first_with-judged_iff _ r.frames _ _ _ (λ h. cc) judge_aborted-pass_iff

module _ (r : ConnectionRecord) where
  -- What the client has to do, by the access that it reported.
  abbrev pub IsAnswered : RecordedFrame → Type 0
  IsAnswered activation =
      ((unpaired_access r ≡ some false) × IsRefused r activation "unauthorized")
      ⊎ ((unpaired_access r ≡ some true) × IsAborted r activation)

  judge_inadmissible-pass_iff :
      (a : RecordedFrame) → Gives pass (judge_inadmissible r a) ↔ IsAnswered a
  unfolding judge_inadmissible
  judge_inadmissible-pass_iff a = elim (Option-cases (unpaired_access r)) [
    | inl unknown ↦
        rw (unknown, judge_inadmissible)
          (λ h. cc, λ w. elim w [ inl k ↦ cc (k.0) | inr k ↦ cc (k.0) ])
    | inr (true, on) ↦
        let judged = judge_abort-pass_iff r a in
        rw (on, judge_inadmissible)
          (λ h. inr (refl, judged.0 h), λ w. elim w [ inl k ↦ cc (k.0) | inr k ↦ judged.1 k.1 ])
    | inr (false, off) ↦
        let judged = judge_refusal-pass_iff r a "UNPAIRED-004" "unauthorized" in
        rw (off, judge_inadmissible)
          (λ h. inl (refl, judged.0 h), λ w. elim w [ inr k ↦ cc (k.0) | inl k ↦ judged.1 k.1 ])
  ]

  -- UNPAIRED-004 passes exactly when the validator sent a server/activate with the activity pairing
  -- and, after the first, either the client reported unpaired access disabled and its first
  -- client/goodbye says unauthorized, or it reported it enabled, the first of its pair/abort and
  -- client/goodbye is a pair/abort that says method_not_supported, and the connection was kept.
  pub check_inadmissible_activation-pass_iff : Gives pass (check_inadmissible_activation r) ↔ (
      (activation : RecordedFrame) × First declares_pairing
        (outbound r "server/activate" "transport")
        activation
      × IsAnswered activation)
  unfolding check_inadmissible_activation first_outbound_activation
  check_inadmissible_activation-pass_iff =
      first_with-judged_iff declares_pairing (outbound r "server/activate" "transport") _ _ _
        (λ h. cc) judge_inadmissible-pass_iff
