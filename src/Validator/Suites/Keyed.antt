-- ===== src/Validator/Suites/Keyed.antt =====
-- src/conformance/validator/suite_checks.py: when the checks of the key of a handshake pass.
use conformance.Prelude.{
  String, ◌≡◌, refl, sym, ap, ◌∙◌, ◌↔◌, ◌⊎◌, inl, inr, true, false, ◌||◌, Option, none, some,
  str_eq, eq_iff, Bool-cases, Option-cases, any, clash,
}
use conformance.Validator.Findings.{pass}
use conformance.Validator.Record.{
  RecordedEvent, ConnectionRecord, is_keyed, is_mismatch, first_with, first, inbound, is_rejected,
}
use conformance.Validator.Checks.Order.{Gives}
use conformance.Validator.Suites.Order.{First, first_with-some_iff}
use conformance.Validator.Suites.Keying.{
  long_term, fallback, keying_name, referenced, initial_keying, message_1, judge_unkeyed, judge_key,
  judge_keying, check_record_dropped, check_restart_keeps_pairing, is_on_transport,
}

module _ (r : ConnectionRecord) where
  -- The first event that keyed a handshake.
  abbrev pub FirstKeyed : RecordedEvent → Type 0
  FirstKeyed e = First is_keyed r.events e

  -- The outcome of the first handshake: the category of the key, or the fallback.
  pub record IsKeyed (keying : String) : Type 0 where
    pub event : RecordedEvent
    pub first : FirstKeyed event
    pub outcome :
        ((any is_mismatch r.events ≡ true) × (keying ≡ fallback))
        ⊎ ((any is_mismatch r.events ≡ false) × (event.psk_category ≡ some keying))

  initial_keying-IsKeyed : (k : String) → (initial_keying r ≡ some k) ↔ IsKeyed k
  unfolding initial_keying
  initial_keying-IsKeyed k = elim (Option-cases (first_with is_keyed r.events)) [
    | inl nothing ↦
        rw (nothing, initial_keying)
          (λ h. cc, λ w. cc ((first_with-some_iff is_keyed r.events w.event).1 w.first))
    | inr (e, found) ↦
        let place = (first_with-some_iff is_keyed r.events e).0 found in
        elim (Bool-cases (any is_mismatch r.events)) [
          | inl y ↦
              rw (found, y, initial_keying)
                (
                  λ h. record { event = e; first = place; outcome = inl (y, cc (h)) },
                  λ w. elim w.outcome [ inl o ↦ ap some (sym o.1) | inr o ↦ absurd (clash y o.0) ],
                )
          | inr n ↦
              rw (found, n, initial_keying)
                (
                  λ h. record { event = e; first = place; outcome = inr (n, h) },
                  λ w. elim w.outcome [
                    | inl o ↦ absurd (clash o.0 n)
                    | inr o ↦
                        let there = (first_with-some_iff is_keyed r.events w.event).1 w.first in
                        let same : e ≡ w.event = cc (there, found) in
                        ap (λ z. z.psk_category) same ∙ o.1
                  ],
                )
        ]
  ]

  judge_unkeyed-not_pass : (id expected : String) → Gives pass (judge_unkeyed r id expected) → ⊥
  unfolding judge_unkeyed
  judge_unkeyed-not_pass id expected = elim (Option-cases (message_1 r)) [
    | inl nothing ↦ rw (nothing, judge_unkeyed) (λ h. cc)
    | inr (asked, found) ↦ elim (Bool-cases (is_rejected r || any is_on_transport r.frames)) [
      | inl y ↦ rw (found, y, judge_unkeyed) (λ h. cc)
      | inr n ↦ elim (Option-cases (keying_name expected)) [
        | inl unnamed ↦ rw (found, n, unnamed, judge_unkeyed) (λ h. h)
        | inr (name, named) ↦
            elim (Option-cases (first (inbound r "noise/handshake" "cleartext"))) [
              | inl silent ↦ rw (found, n, named, silent, judge_unkeyed) (λ h. cc)
              | inr (answer, given) ↦ rw (found, n, named, given, judge_unkeyed) (λ h. cc)
            ]
      ]
    ]
  ]

  judge_key-pass_iff :
      (id expected passed : String) (kept : Option String) (keying : String)
      → Gives pass (judge_key r id expected passed kept keying) ↔ (keying ≡ expected)
  unfolding judge_key
  judge_key-pass_iff id expected passed kept keying = elim (Bool-cases (str_eq keying expected)) [
    | inl y ↦ rw (y, judge_key) (λ h. (eq_iff keying expected).0 y, λ h. refl)
    | inr n ↦
        let apart : keying ≡ expected → ⊥ = λ h. clash ((eq_iff keying expected).1 h) n in
        elim (Option-cases (referenced keying)) [
          | inl none' ↦ rw (n, none', judge_key) (λ h. absurd h, λ h. absurd (apart h))
          | inr (used, found) ↦ elim (Option-cases (referenced expected)) [
            | inl none' ↦ rw (n, found, none', judge_key) (λ h. absurd h, λ h. absurd (apart h))
            | inr (meant, wanted) ↦ elim (Bool-cases (str_eq used meant)) [
              | inr m ↦ rw (n, found, wanted, m, judge_key) (λ h. cc, λ h. absurd (apart h))
              | inl m ↦ elim (Option-cases (keying_name keying)) [
                | inl none' ↦
                    rw (n, found, wanted, m, none', judge_key)
                      (λ h. absurd h, λ h. absurd (apart h))
                | inr (actual, named) ↦ elim (Option-cases (keying_name expected)) [
                  | inl none' ↦
                      rw (n, found, wanted, m, named, none', judge_key)
                        (λ h. absurd h, λ h. absurd (apart h))
                  | inr (other, known) ↦
                      rw (n, found, wanted, m, named, known, judge_key)
                        (λ h. cc, λ h. absurd (apart h))
                ]
              ]
            ]
          ]
        ]
  ]

  judge_keying-pass_iff :
      (id expected passed : String) (kept : Option String)
      → Gives pass (judge_keying r id expected passed kept) ↔ IsKeyed expected
  unfolding judge_keying
  judge_keying-pass_iff id expected passed kept =
      let keyed = initial_keying-IsKeyed expected in
      elim (Option-cases (initial_keying r)) [
        | inl nothing ↦
            rw (nothing, judge_keying)
              (
                λ h. absurd (judge_unkeyed-not_pass id expected h),
                λ w. let some' = keyed.1 w in cc (nothing, some'),
              )
        | inr (k, found) ↦
            let judged = judge_key-pass_iff id expected passed kept k in
            rw (found, judge_keying)
              (
                λ h. keyed.0 (found ∙ ap some (judged.0 h)),
                λ w.
                    let there = keyed.1 w in
                    let same : k ≡ expected = cc (there, found) in judged.1 same,
              )
      ]

  -- POSTPAIR-004 passes exactly when a handshake was keyed and a credential mismatch was recorded,
  -- or when the first handshake that was keyed has the fallback as its category.
  pub check_record_dropped-pass_iff : Gives pass (check_record_dropped r) ↔ IsKeyed fallback
  unfolding check_record_dropped
  check_record_dropped-pass_iff =
      judge_keying-pass_iff "POSTPAIR-004" fallback _
        (some "the client still holds the pairing record it was told to drop by server/unpair")

  -- POSTPAIR-005 passes exactly when the first event that keyed a handshake has the long-term PSK
  -- as its category, and no credential mismatch was recorded.
  pub check_restart_keeps_pairing-pass_iff : Gives pass (check_restart_keeps_pairing r) ↔ (
      (e : RecordedEvent) × First is_keyed r.events e
      × (any is_mismatch r.events ≡ false)
      × (e.psk_category ≡ some long_term))
  unfolding check_restart_keeps_pairing
  check_restart_keeps_pairing-pass_iff =
      let fine =
        judge_keying-pass_iff "POSTPAIR-005" long_term
          "the client kept its pairing record across the restart" none in
      (
        λ h.
            let w = fine.0 h in
            elim w.outcome [ inl o ↦ absurd (apart o.1) | inr o ↦ (w.event, w.first, o.0, o.1) ],
        λ (e, first, clean, category).
            fine.1 (record { event = e; first = first; outcome = inr (clean, category) }),
      )
    where
      apart : long_term ≡ fallback → ⊥
      apart h = cc
