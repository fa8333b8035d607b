-- ===== src/Regressions/Exempt.antt =====
-- scripts/detect_regressions.py: which rows exempt_cases lists.
use conformance.Prelude.{
  ◌≡◌, refl, sym, ap, ◌∙◌, ◌↔◌, ◌⊎◌, inl, inr, true, false, Option, none, some, List, [], ◌∷◌,
  Bool-cases, Option-cases, All, In, clash,
}
use mathlib.Core.Path.{subst}
use mathlib.Core.Option.{some-injective}
use conformance.Json.Python.{Python}
use conformance.Regressions.{
  Row, is_passed, baseline_passed, baseline_stamps_revisions, has_number,
  require_scenario_revisions, Exemption, detect_regressions, exemption, keep_reason, exempt_rows,
  exempt_cases,
}
use conformance.Regressions.Compare.{
  Because, Judged, judge, Comparable, require_scenario_revisions-none_iff,
}
use conformance.Regressions.Exact.{Regressed, Suppressed, detect_regressions-members}

module _ ⦃py : Python⦄ where
  record Round (baseline : List Row) (r : Row) : Type 0 where
    listed : Option Exemption
    reads :
        exemption (baseline_stamps_revisions baseline) (baseline_passed baseline r) r ≡ some listed
    listed_iff : (reason : Exemption) → (listed ≡ some reason) ↔ Suppressed baseline r reason

  round : (baseline : List Row) (r : Row) → has_number r.scenario_revision ≡ true → Round baseline r
  unfolding exemption
  round baseline r h = elim (Option-cases (baseline_passed baseline r)) [
    | inl absent ↦ record {
      listed = none;
      reads = rw (absent, exemption) refl;
      listed_iff = λ x. (λ e. cc, λ k. absurd (let e = k.found in cc (e, absent)));
    }
    | inr (b, present) ↦
        let j = judge baseline b r h in
        elim (Bool-cases (is_passed r)) [
          | inl passing ↦ record {
            listed = none;
            reads = rw (present, exemption, passing) refl;
            listed_iff = λ x. (λ e. cc, λ k. absurd (clash passing k.failing));
          }
          | inr failing ↦ record {
            listed = j.outcome;
            reads = rw (present, exemption, failing) j.reads;
            listed_iff = λ x. (
              λ e. record {
                published = b;
                found = present;
                failing = failing;
                because = (j.because_iff x).0 e;
              },
              λ k. (j.because_iff x).1 (about b x present k),
            );
          }
        ]
  ]
    where
      about :
          (b : Row) (x : Exemption)
          → baseline_passed baseline r ≡ some b
          → Suppressed baseline r x
          → Because baseline b r x
      about b x present k =
          subst (λ y. Because baseline y r x) (some-injective k.published b (sym k.found ∙ present))
            k.because

  -- For a run that is accepted the list of the exempt cases is computed, and its members are exactly
  -- the rows of the run that do not pass though a row of their cell passed in the baseline, each with
  -- the reason for which the two cannot be compared.
  pub exempt_cases-exact :
      (baseline current : List Row)
      → require_scenario_revisions current ≡ none
      → (exempt : List (Row × Exemption)) × (exempt_cases baseline current ≡ some exempt)
        × ((r : Row) (reason : Exemption)
            → In (r, reason) exempt ↔ (In r current × Suppressed baseline r reason))
  unfolding exempt_cases exempt_rows
  exempt_cases-exact baseline current h =
      rows current ((require_scenario_revisions-none_iff current).0 h)
    where
      rows :
          (current : List Row)
          → All (λ r. has_number r.scenario_revision ≡ true) current
          → (exempt : List (Row × Exemption)) × (exempt_rows baseline current ≡ some exempt)
            × ((r : Row) (reason : Exemption)
                → In (r, reason) exempt ↔ (In r current × Suppressed baseline r reason))
      rows [] h = ([], refl, λ r x. (λ m. elim m [ ], λ m. m.0))
      rows (c ∷ cs) h =
          let one = round baseline c h.0 in
          let (rest, reads, exact) = rows cs h.1 in
          (
            keep_reason c one.listed rest,
            rw (one.reads, exempt_rows, reads) refl,
            λ r x. members r x c cs one.listed rest one.listed_iff (exact r x),
          )
        where
          members :
              (r : Row) (x : Exemption) (c : Row) (cs : List Row) (listed : Option Exemption)
              (rest : List (Row × Exemption))
              → ((y : Exemption) → (listed ≡ some y) ↔ Suppressed baseline c y)
              → In (r, x) rest ↔ (In r cs × Suppressed baseline r x)
              → In (r, x) (keep_reason c listed rest) ↔ (In r (c ∷ cs) × Suppressed baseline r x)
          members r x c cs none rest one exact = (
            λ m. (inr (exact.0 m).0, (exact.0 m).1),
            λ k. elim k.0 [
              | inl e ↦
                  absurd
                    (let f = (one x).1 (subst (λ z. Suppressed baseline z x) (sym e) k.1) in cc (f))
              | inr m ↦ exact.1 (m, k.1)
            ],
          )
          members r x c cs (some y) rest one exact = (
            elim [
              | inl e ↦ (
                inl (ap (λ p. p.0) e),
                subst (λ p. Suppressed baseline p.0 p.1) e ((one y).0 refl),
              )
              | inr m ↦ (inr (exact.0 m).0, (exact.0 m).1)
            ],
            λ k. elim k.0 [
              | inl e ↦
                  let f : some y ≡ some x =
                    (one x).1 (subst (λ z. Suppressed baseline z x) (sym e) k.1) in
                  inl (cc (e, some-injective y x f))
              | inr m ↦ inr (exact.1 (m, k.1))
            ],
          )

  -- In a run that is accepted, a row that does not pass though a row of its cell passed in the
  -- baseline is either reported as a regression or listed as exempt, and never both.
  pub detect_regressions-or_exempt :
      (baseline current regressions : List Row) (exempt : List (Row × Exemption)) (r b : Row)
      → require_scenario_revisions current ≡ none
      → detect_regressions baseline current ≡ some regressions
      → exempt_cases baseline current ≡ some exempt
      → In r current
      → is_passed r ≡ false
      → baseline_passed baseline r ≡ some b
      → (In r regressions ⊎ ((reason : Exemption) × In (r, reason) exempt))
        × (¬ (In r regressions × ((reason : Exemption) × In (r, reason) exempt)))
  detect_regressions-or_exempt baseline current regressions exempt r b h d e m failing found = (
    elim (Option-cases j.outcome) [
      | inl none' ↦ inl (
          regressed.1 (
            m,
            record {
              published = b;
              found = found;
              failing = failing;
              comparable = j.comparable_iff.0 none';
            },
          ))
      | inr (x, some') ↦ inr (
        x,
        (suppressed x).1 (
          m,
          record {
            published = b;
            found = found;
            failing = failing;
            because = (j.because_iff x).0 some';
          },
        ),
      )
    ],
    λ k. let (x, q) = k.1 in apart x (regressed.0 k.0).1 ((suppressed x).0 q).1,
  )
    where
      number :
          (rows : List Row)
          → All (λ c. has_number c.scenario_revision ≡ true) rows
          → In r rows
          → has_number r.scenario_revision ≡ true
      number [] k n = elim n [ ]
      number (c ∷ cs) k (inl same) = subst (λ z. has_number z.scenario_revision ≡ true) same k.0
      number (c ∷ cs) k (inr later) = number cs k.1 later

      j : Judged baseline b r
      j = judge baseline b r (number current ((require_scenario_revisions-none_iff current).0 h) m)

      regressed : In r regressions ↔ (In r current × Regressed baseline r)
      regressed =
          let (found_rows, reads, exact) = detect_regressions-members baseline current h in
          subst (λ rows. In r rows ↔ (In r current × Regressed baseline r))
            (some-injective found_rows regressions (sym reads ∙ d)) (exact r)

      suppressed : (x : Exemption) → In (r, x) exempt ↔ (In r current × Suppressed baseline r x)
      suppressed x =
          let (found_rows, reads, exact) = exempt_cases-exact baseline current h in
          subst (λ rows. In (r, x) rows ↔ (In r current × Suppressed baseline r x))
            (some-injective found_rows exempt (sym reads ∙ e)) (exact r x)

      apart : (x : Exemption) → Regressed baseline r → Suppressed baseline r x → ⊥
      apart x p q =
          let same : p.published ≡ b = some-injective p.published b (sym p.found ∙ found) in
          let same' : q.published ≡ b = some-injective q.published b (sym q.found ∙ found) in
          let none' = j.comparable_iff.1 (subst (λ z. Comparable baseline z r) same p.comparable) in
          let some' = (j.because_iff x).1 (subst (λ z. Because baseline z r x) same' q.because) in
          cc (none', some')
