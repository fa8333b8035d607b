-- ===== src/Regressions/Exact.antt =====
-- scripts/detect_regressions.py: which rows detect_regressions reports.
use conformance.Prelude.{
  ◌≡◌, refl, sym, ◌∙◌, ◌↔◌, inl, inr, Bool, true, false, not, ◌&&◌, Option, none, some, List, [],
  ◌∷◌, arith, Bool-cases, Option-cases, is_some, filter, keep_if, All, In, clash, In-filter_iff,
  last_with-none_iff, last_with-passes,
}
use mathlib.Core.Path.{subst}
use mathlib.Core.Option.{some-injective}
use conformance.Json.Python.{Python}
use conformance.Regressions.{
  Row, same_case, is_passed, baseline_passed, baseline_stamps_revisions, has_number,
  require_scenario_revisions, Exemption, has_regressed, regressed_rows, detect_regressions,
}
use conformance.Regressions.Compare.{
  Comparable, Because, judge, require_scenario_revisions-none_iff,
}

-- The row of the baseline that a row is compared with is one that passed, in the same cell; and
-- there is none exactly when no row of the cell passed.
pub baseline_passed-same_cell :
    (baseline : List Row) (r : Row)
    → ((b : Row)
        → baseline_passed baseline r ≡ some b
        → In b baseline × (is_passed b ≡ true) × (same_case b r ≡ true))
      × ((baseline_passed baseline r ≡ none)
          ↔ All (λ b. is_passed b ≡ true → same_case b r ≡ false) baseline)
unfolding baseline_passed
baseline_passed-same_cell baseline r =
    let passed = filter is_passed baseline in
    let nothing = last_with-none_iff (λ b. same_case b r) passed in
    (
      λ b h.
          let found = last_with-passes (λ b. same_case b r) passed b h in
          let kept = (In-filter_iff is_passed baseline b).0 found.0 in (kept.0, kept.1, found.1),
      (λ h. split baseline (nothing.0 h), λ h. nothing.1 (join baseline h)),
    )
  where
    P : Row → Type 0
    P b = same_case b r ≡ false

    split : (bs : List Row) → All P (filter is_passed bs) → All (λ b. is_passed b ≡ true → P b) bs
    split [] h = tt
    split (b ∷ bs) h = elim (Bool-cases (is_passed b)) [
      | inl kept ↦ let k = rw kept at h in (λ _. k.0, split bs k.1)
      | inr dropped ↦ let k = rw dropped at h in (λ e. absurd (clash e dropped), split bs k)
    ]

    join : (bs : List Row) → All (λ b. is_passed b ≡ true → P b) bs → All P (filter is_passed bs)
    join [] h = tt
    join (b ∷ bs) h = elim (Bool-cases (is_passed b)) [
      | inl kept ↦ rw kept (h.0 kept, join bs h.1)
      | inr dropped ↦ rw dropped (join bs h.1)
    ]

module _ ⦃py : Python⦄ where
  -- A row that does not pass, though the row that baseline_passed gives for it is comparable.
  pub record Regressed (baseline : List Row) (r : Row) : Type 0 where
    pub published : Row
    pub found : baseline_passed baseline r ≡ some published
    pub failing : is_passed r ≡ false
    pub comparable : Comparable baseline published r

  -- A row that does not pass, though baseline_passed gives a row for it, which cannot be compared with
  -- it for this reason.
  pub record Suppressed (baseline : List Row) (r : Row) (reason : Exemption) : Type 0 where
    pub published : Row
    pub found : baseline_passed baseline r ≡ some published
    pub failing : is_passed r ≡ false
    pub because : Because baseline published r reason

  abbrev HasNumber : Row → Type 0
  HasNumber r = has_number r.scenario_revision ≡ true

  record Round (baseline : List Row) (r : Row) : Type 0 where
    reported : Bool
    reads :
        has_regressed (baseline_stamps_revisions baseline) (baseline_passed baseline r) r
        ≡ some reported
    reported_iff : (reported ≡ true) ↔ Regressed baseline r

  round : (baseline : List Row) (r : Row) → HasNumber r → Round baseline r
  unfolding has_regressed
  round baseline r h = elim (Option-cases (baseline_passed baseline r)) [
    | inl absent ↦ record {
      reported = false;
      reads = rw (absent, has_regressed) refl;
      reported_iff = (λ e. cc, λ k. absurd (let e = k.found in cc (e, absent)));
    }
    | inr (b, present) ↦
        let j = judge baseline b r h in
        record {
          reported = not (is_some j.outcome) && not (is_passed r);
          reads = rw (present, has_regressed, j.reads) refl;
          reported_iff = (
            λ e. record {
              published = b;
              found = present;
              failing = ground (arith, e);
              comparable = j.comparable_iff.0 (silent j.outcome e);
            },
            λ k. rw (k.failing, j.comparable_iff.1 (about b present k)) refl,
          );
        }
  ]
    where
      silent : (o : Option Exemption) → (not (is_some o) && not (is_passed r)) ≡ true → o ≡ none
      silent none e = refl
      silent (some x) e = cc

      about :
          (b : Row)
          → baseline_passed baseline r ≡ some b
          → Regressed baseline r
          → Comparable baseline b r
      about b present k =
          subst (λ x. Comparable baseline x r)
            (some-injective k.published b (sym k.found ∙ present)) k.comparable

  -- For a run that is accepted the comparison gives a list, whose members are exactly the rows of the
  -- run that do not pass though the row that baseline_passed gives for them is comparable.
  pub detect_regressions-members :
      (baseline current : List Row)
      → require_scenario_revisions current ≡ none
      → (regressions : List Row) × (detect_regressions baseline current ≡ some regressions)
        × ((r : Row) → In r regressions ↔ (In r current × Regressed baseline r))
  unfolding detect_regressions regressed_rows
  detect_regressions-members baseline current h =
      rows current ((require_scenario_revisions-none_iff current).0 h)
    where
      rows :
          (current : List Row)
          → All HasNumber current
          → (regressions : List Row) × (regressed_rows baseline current ≡ some regressions)
            × ((r : Row) → In r regressions ↔ (In r current × Regressed baseline r))
      rows [] h = ([], refl, λ r. (λ m. elim m [ ], λ m. m.0))
      rows (c ∷ cs) h =
          let one = round baseline c h.0 in
          let (rest, reads, exact) = rows cs h.1 in
          (
            keep_if one.reported c rest,
            rw (one.reads, regressed_rows, reads) refl,
            λ r. members c cs one.reported rest one.reported_iff (exact r),
          )
        where
          members :
              {r : Row} (c : Row) (cs : List Row) (reported : Bool) (rest : List Row)
              → (reported ≡ true) ↔ Regressed baseline c
              → In r rest ↔ (In r cs × Regressed baseline r)
              → In r (keep_if reported c rest) ↔ (In r (c ∷ cs) × Regressed baseline r)
          members c cs true rest one exact = (
            elim [
              | inl e ↦ (inl e, subst (Regressed baseline) e (one.0 refl))
              | inr m ↦ (inr (exact.0 m).0, (exact.0 m).1)
            ],
            λ k. elim k.0 [ inl e ↦ inl e | inr m ↦ inr (exact.1 (m, k.1)) ],
          )
          members c cs false rest one exact = (
            λ m. (inr (exact.0 m).0, (exact.0 m).1),
            λ k. elim k.0 [
              | inl e ↦ absurd (clash (one.1 (subst (Regressed baseline) (sym e) k.1)) refl)
              | inr m ↦ exact.1 (m, k.1)
            ],
          )
