-- ===== src/Regressions/Partition.antt =====
-- scripts/detect_regressions.py: detect_regressions and exempt_cases together, which judge the same
-- rows of a run.
use conformance.Prelude.{◌≡◌, ◌↔◌, ◌⊎◌, inl, inr, none, some, List, In}
use conformance.Json.Python.{Python}
use conformance.Regressions.{
  Row, require_scenario_revisions, Exemption, detect_regressions, exempt_cases,
}
use conformance.Regressions.Exact.{Regressed, Suppressed, detect_regressions-members}
use conformance.Regressions.Exempt.{exempt_cases-exact, detect_regressions-or_exempt}
use conformance.Regressions.Published.{
  HasPassed, IsPublished, is_passed-fails, baseline_passed-IsPublished,
}

-- A row of the run that does not pass though a row of its cell passed in the baseline.
pub record IsLost (baseline current : List Row) (r : Row) : Type 0 where
  pub member : In r current
  pub failing : ¬ HasPassed r
  pub published : Row
  pub last : IsPublished baseline r published

module _ ⦃py : Python⦄ where
  Regressed-IsLost :
      (baseline current : List Row) (r : Row)
      → In r current
      → Regressed baseline r
      → IsLost baseline current r
  Regressed-IsLost baseline current r m k = record {
    member = m;
    failing = (is_passed-fails r).0 k.failing;
    published = k.published;
    last = (baseline_passed-IsPublished r baseline k.published).0 k.found;
  }

  Suppressed-IsLost :
      (baseline current : List Row) (r : Row) (reason : Exemption)
      → In r current
      → Suppressed baseline r reason
      → IsLost baseline current r
  Suppressed-IsLost baseline current r reason m k = record {
    member = m;
    failing = (is_passed-fails r).0 k.failing;
    published = k.published;
    last = (baseline_passed-IsPublished r baseline k.published).0 k.found;
  }

  -- For a run that is accepted both lists are computed, the regressions and the exempt cases. A row
  -- is in one of them exactly when it is a row of the run that does not pass though a row of its
  -- cell passed in the baseline, and no row is in both.
  pub detect_regressions-partition :
      (baseline current : List Row)
      → require_scenario_revisions current ≡ none
      → (regressions : List Row) × (exempt : List (Row × Exemption)) × (detect_regressions baseline
            current
          ≡ some regressions)
        × (exempt_cases baseline current ≡ some exempt)
        × ((r : Row)
            → ((In r regressions ⊎ ((reason : Exemption) × In (r, reason) exempt))
                ↔ IsLost baseline current r)
              × (¬ (In r regressions × ((reason : Exemption) × In (r, reason) exempt))))
  detect_regressions-partition baseline current h =
      let (regressions, reads, members) = detect_regressions-members baseline current h in
      let (exempt, lists, listed) = exempt_cases-exact baseline current h in
      let split = λ (r b : Row).
        detect_regressions-or_exempt baseline current regressions exempt r b h reads lists in
      (
        regressions,
        exempt,
        reads,
        lists,
        λ r. (
          (
            elim [
              | inl m ↦ let k = (members r).0 m in Regressed-IsLost baseline current r k.0 k.1
              | inr (x, m) ↦
                  let k = (listed r x).0 m in Suppressed-IsLost baseline current r x k.0 k.1
            ],
            λ k.
                (split r k.published k.member ((is_passed-fails r).1 k.failing)
                  ((baseline_passed-IsPublished r baseline k.published).1 k.last)).0,
          ),
          λ both.
              let k = (members r).0 both.0 in
              (split r k.1.published k.0 k.1.failing k.1.found).1 both,
        ),
      )
