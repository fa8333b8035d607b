-- ===== src/Validator/Suites/Started.antt =====
-- src/conformance/validator/suite_checks.py: when PAIR-PSK-004 passes.
use conformance.Prelude.{
  ℕ, ◌≡◌, refl, sym, ◌↔◌, inl, inr, true, false, none, some, Bool-cases, Option-cases, is_empty,
  clash,
}
use mathlib.Core.Path.{subst}
use conformance.Json.{get}
use conformance.Json.Python.{Python}
use conformance.Validator.Findings.{pass}
use conformance.Validator.Record.{
  RecordedFrame, ConnectionRecord, payload_or_empty, has_type, is_rejected,
}
use conformance.Validator.Checks.{has_key}
use conformance.Validator.Checks.Order.{Gives}
use conformance.Validator.Suites.{
  first_after, first_inbound, first_inbound, pairing_activation,
  pairing_activations_since_handshake,
}
use conformance.Validator.Suites.Order.{
  first_with-judged_iff, FirstAnswer, pairings, since_handshake, up_to,
  pairing_activations_since_handshake-pairings,
}
use conformance.Validator.Suites.Pairing.{
  is_number, init_problems, judge_pair_init, judge_silence, judge_started, init_answers,
  check_pair_init,
}

-- The number of the attempt that an activation starts.
abbrev pub attempt : ConnectionRecord → RecordedFrame → ℕ
attempt r activation = pairings (since_handshake (up_to activation.id r.frames))

module _ ⦃py : Python⦄ (r : ConnectionRecord) where
  -- The answer has the number of the attempt as its index, and no commitment.
  pub record IsStart (activation response : RecordedFrame) : Type 0 where
    pub typed : has_type "client/pair-init" response ≡ true
    pub indexed :
        is_number (attempt r activation) (get "pairing_index" (payload_or_empty response)) ≡ true
    pub uncommitted : has_key "commit_B" (payload_or_empty response) ≡ false

  init_problems-empty_iff :
      (n : ℕ) (f : RecordedFrame)
      → (is_empty (init_problems n f) ≡ true) ↔ (
          (is_number n (get "pairing_index" (payload_or_empty f)) ≡ true)
          × (has_key "commit_B" (payload_or_empty f) ≡ false))
  unfolding init_problems
  init_problems-empty_iff n f =
      elim (Bool-cases (is_number n (get "pairing_index" (payload_or_empty f)))) [
        | inr m ↦ rw (m, init_problems) (λ h. cc, λ h. cc (h.0))
        | inl y ↦ elim (Bool-cases (has_key "commit_B" (payload_or_empty f))) [
          | inl k ↦ rw (y, k, init_problems) (λ h. cc, λ h. cc (h.1))
          | inr k ↦ rw (y, k, init_problems) (λ h. (refl, refl), λ h. refl)
        ]
      ]

  judge_pair_init-pass_iff :
      (activation f : RecordedFrame)
      → Gives pass (judge_pair_init r activation f) ↔ IsStart activation f
  unfolding judge_pair_init
  judge_pair_init-pass_iff activation f =
      let count = pairing_activations_since_handshake-pairings r activation in
      let problems = init_problems-empty_iff (pairing_activations_since_handshake r activation) f in
      elim (Bool-cases (has_type "client/pair-init" f)) [
        | inr n ↦ rw (n, judge_pair_init) (λ h. cc, λ w. absurd (clash w.typed n))
        | inl t ↦
            elim (Bool-cases
              (is_empty (init_problems (pairing_activations_since_handshake r activation) f))) [
                | inl y ↦
                    let k = problems.0 y in
                    rw (t, y, judge_pair_init)
                      (
                        λ h. record { typed = t; indexed = rw (sym count) k.0; uncommitted = k.1 },
                        λ w. refl,
                      )
                | inr n ↦
                    rw (t, n, judge_pair_init)
                      (
                        λ h. cc,
                        λ w. absurd (clash (problems.1 (rw count w.indexed, w.uncommitted)) n),
                      )
              ]
      ]

  -- The first answer to an activation, of the messages of a pairing's start and the refusals, starts
  -- the attempt.
  abbrev pub IsStarted : RecordedFrame → Type 0
  IsStarted activation =
      (response : RecordedFrame) × FirstAnswer r activation (some init_answers) response
      × IsStart activation response

  judge_silence-not_pass : (a : RecordedFrame) → Gives pass (judge_silence r a) → ⊥
  unfolding judge_silence
  judge_silence-not_pass a = elim (Bool-cases (is_rejected r)) [
    | inl y ↦ rw (y, judge_silence) (λ h. cc)
    | inr n ↦ rw (n, judge_silence) (λ h. cc)
  ]

  judge_started-pass_iff : (a : RecordedFrame) → Gives pass (judge_started r a) ↔ IsStarted a
  unfolding judge_started first_inbound first_after
  judge_started-pass_iff a =
      first_with-judged_iff _ r.frames _ _ _ (judge_silence-not_pass a) (judge_pair_init-pass_iff a)

  -- PAIR-PSK-004 passes exactly when the validator sent a pairing_psk activation and the first
  -- answer to it among the messages of a pairing's start and the refusals is a client/pair-init
  -- without commit_B, whose index is the number of the pairing activations that the validator sent
  -- since its last handshake, up to that activation.
  pub check_pair_init-pass_iff :
      (since : ℕ)
      → Gives pass (check_pair_init r since) ↔ (
          (activation : RecordedFrame) × (pairing_activation r since ≡ some (some activation))
          × IsStarted activation)
  unfolding check_pair_init
  check_pair_init-pass_iff since = elim (Option-cases (pairing_activation r since)) [
    | inl raises ↦ rw (raises, check_pair_init) (λ h. absurd h, λ h. cc (h.1))
    | inr (none, nothing) ↦ rw (nothing, check_pair_init) (λ h. cc, λ h. cc (h.1))
    | inr (some a, found) ↦
        let judged = judge_started-pass_iff a in
        rw (found, check_pair_init)
          (
            λ h. (a, refl, judged.0 h),
            λ (b, same', w).
                let same : b ≡ a = cc (same') in judged.1 (subst (λ z. IsStarted z) same w),
          )
  ]
