-- ===== src/Validator/Suites/Unpaired.antt =====
-- src/conformance/validator/suite_checks.py: when POSTPAIR-003 passes, and when POSTPAIR-006 raises.
use conformance.Prelude.{
  ◌≡◌, refl, ap, ◌∙◌, ◌↔◌, inl, inr, Bool, true, false, Option, none, some, List, [], ◌∷◌,
  Bool-cases, Option-cases, All, clash, last_with, ℤ, eqb_ℤ,
}
use conformance.Validator.Findings.{pass}
use conformance.Json.{is_text}
use conformance.Validator.Record.{
  RecordedFrame, ConnectionRecord, first_with, first, outbound, inbound,
}
use mathlib.Core.Path.{subst}
use conformance.Validator.Checks.Order.{Gives}
use conformance.Validator.Suites.{first_after, first_inbound, reason_of, inapplicable}
use conformance.Validator.Suites.Keying.{long_term}
use conformance.Validator.Suites.Finalize.{is_keyed_by}
use conformance.Validator.Suites.Order.{first_with-judged_iff, first_with-some_iff}
use conformance.Validator.Suites.Refused.{IsRefused}
use conformance.Validator.Suites.PostPairing.{
  is_keyed_before, judge_unpaired, judge_unpair, check_unpair_goodbye, output_delay, is_delay,
  has_delay, judge_delay, check_restart_keeps_output_delay,
}

first_with-none_iff :
    {A : Type 0} (test : A → Bool) (xs : List A)
    → (first_with test xs ≡ none) ↔ All (λ x. test x ≡ false) xs
first_with-none_iff test [] = (λ h. tt, λ h. refl)
first_with-none_iff test (x ∷ xs) =
    let rest = first_with-none_iff test xs in
    elim (Bool-cases (test x)) [
      | inl y ↦ rw y (λ h. cc, λ h. cc (h.0))
      | inr n ↦ rw n (λ h. (refl, rest.0 h), λ h. rest.1 h.1)
    ]

module _ (before after : ConnectionRecord) where
  -- The check for POSTPAIR-006 raises exactly when a delay was commanded and no client/state before
  -- the restart reports it.
  pub check_restart_keeps_output_delay-none_iff :
      (commanded : Option ℤ)
      → (check_restart_keeps_output_delay before after commanded ≡ none) ↔ (
          (n : ℤ) × (commanded ≡ some n)
          × All
              (λ f. is_delay n (output_delay f) ≡ false)
              (inbound before "client/state" "transport"))
  unfolding check_restart_keeps_output_delay output_delay
  check_restart_keeps_output_delay-none_iff none = (λ h. cc, λ h. cc (h.1))
  check_restart_keeps_output_delay-none_iff (some n) =
      let echoes =
        first_with-none_iff (λ f. is_delay n (output_delay f))
          (inbound before "client/state" "transport") in
      elim (Option-cases (
        first_with (λ f. is_delay n (output_delay f))
          (inbound before "client/state" "transport"))) [
            | inl nothing ↦
                rw (nothing, check_restart_keeps_output_delay)
                  (λ h. (n, refl, echoes.0 nothing), λ h. refl)
            | inr (echo, found) ↦
                rw (found, check_restart_keeps_output_delay)
                  (
                    λ h. absurd (judged echo h),
                    λ (m, same', h).
                        let same : n ≡ m = cc (same') in
                        let missing = echoes.1 (rw same h) in cc (missing, found),
                  )
          ]
    where
      judged :
          (echo : RecordedFrame)
          → elim (first_with has_delay (inbound after "client/state" "transport")) [
            | none ↦
                inapplicable "POSTPAIR-006" "the client reported no player output_delay_ms after"
            | some state ↦ elim (output_delay state) [
              | none ↦ none
              | some delay ↦ judge_delay n echo state delay
            ]
          ]
            ≡ none
          → ⊥
      judged echo =
          elim (Option-cases (first_with has_delay (inbound after "client/state" "transport"))) [
            | inl nothing ↦ rw nothing (λ h. cc)
            | inr (state, found) ↦
                let held =
                  ((first_with-some_iff has_delay (inbound after "client/state" "transport")
                      state).0
                    found).passed in
                elim (Option-cases (output_delay state)) [
                  | inl nothing ↦ absurd (clash held (rw nothing refl))
                  | inr (delay, reported) ↦ elim (Bool-cases (eqb_ℤ delay n)) [
                    | inl y ↦ rw (found, reported, y) (λ h. cc)
                    | inr m ↦ rw (found, reported, m) (λ h. cc)
                  ]
                ]
          ]

module _ (r : ConnectionRecord) where
  judge_unpaired-pass_iff :
      (u g : RecordedFrame)
      → Gives pass (judge_unpaired u g) ↔ (is_text "unpaired" (reason_of g) ≡ true)
  judge_unpaired-pass_iff u g = elim (Bool-cases (is_text "unpaired" (reason_of g))) [
    | inl y ↦ rw y (λ h. refl, λ h. refl)
    | inr n ↦ rw n (λ h. cc, λ h. cc (h))
  ]

  judge_unpair-pass_iff :
      (u : RecordedFrame) → Gives pass (judge_unpair r u) ↔ IsRefused r u "unpaired"
  unfolding judge_unpair first_inbound first_after
  judge_unpair-pass_iff u =
      first_with-judged_iff _ r.frames _ _ _ (λ h. cc) (judge_unpaired-pass_iff u)

  -- POSTPAIR-003 passes exactly when the validator sent a server/unpair, the last event before it
  -- that keyed a handshake has the long-term PSK as its category, and the first client/goodbye
  -- after it says unpaired.
  pub check_unpair_goodbye-pass_iff : Gives pass (check_unpair_goodbye r) ↔ (
      (unpair : RecordedFrame) × (first (outbound r "server/unpair" "transport") ≡ some unpair)
      × (is_keyed_by long_term (last_with (is_keyed_before unpair.id) r.events) ≡ true)
      × IsRefused r unpair "unpaired")
  unfolding check_unpair_goodbye
  check_unpair_goodbye-pass_iff =
      elim (Option-cases (first (outbound r "server/unpair" "transport"))) [
        | inl nothing ↦ rw (nothing, check_unpair_goodbye) (λ h. cc, λ h. cc (h.1))
        | inr (u, found) ↦
            elim (Bool-cases (is_keyed_by long_term (last_with (is_keyed_before u.id) r.events))) [
              | inr n ↦
                  rw (found, n, check_unpair_goodbye)
                    (
                      λ h. cc,
                      λ (v, same', keyed, refused).
                          let same : u ≡ v = cc (same') in
                          absurd (
                            clash
                              (ap
                                  (λ z.
                                    is_keyed_by long_term
                                      (last_with (is_keyed_before z.id) r.events))
                                  same
                                ∙ keyed)
                              n),
                    )
              | inl y ↦
                  let judged = judge_unpair-pass_iff u in
                  rw (found, y, check_unpair_goodbye)
                    (
                      λ h. (u, refl, y, judged.0 h),
                      λ (v, same', keyed, refused).
                          let same : v ≡ u = cc (same') in
                          judged.1 (subst (λ z. IsRefused r z "unpaired") same refused),
                    )
            ]
      ]
