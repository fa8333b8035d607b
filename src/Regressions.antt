-- ===== src/Regressions.antt =====
-- scripts/detect_regressions.py: the comparison of a run with the published baseline.
pub mod Compare
pub mod Exact
pub mod Exempt
pub mod Published
pub mod Partition
use conformance.Prelude.{
  String, Bool, true, false, not, ◌&&◌, Option, none, some, List, [], ◌∷◌, str_eq, if◌then◌else◌,
  is_some, ◌>>=◌, is_empty, any, filter, keep_if, last_with,
}
use Prim.Native.String.{compare}
use Prim.Native.Nat.{Ordering}
use conformance.Json.{Value}
use conformance.Json.Python.{Python, as_number, same_value}

-- A row of index.json. Every row has the first four keys, as texts; the revision is none where the
-- row has no such key.
pub record Row : Type 0 where
  pub scenario_id : String
  pub server_impl : String
  pub client_impl : String
  pub status : String
  pub scenario_revision : Option Value

-- _case_key(a) == _case_key(b)
abbrev pub same_case : Row → Row → Bool
same_case a b =
    str_eq a.scenario_id b.scenario_id
    && str_eq a.server_impl b.server_impl
    && str_eq a.client_impl b.client_impl

abbrev pub is_passed : Row → Bool
is_passed r = str_eq r.status "passed"

-- The row at a cell of the dict of passed rows: the last one wins.
unfoldable pub baseline_passed : List Row → Row → Option Row
baseline_passed baseline r = last_with (λ b. same_case b r) (filter is_passed baseline)

unfoldable pub baseline_stamps_revisions : List Row → Bool
baseline_stamps_revisions baseline = any (λ b. is_some b.scenario_revision) baseline

abbrev pub has_number : Option Value → Bool
has_number none = false
has_number (some v) = is_some (as_number v)

-- sorted({...}): each id once, in the order of the texts
unfoldable pub add_id : String → List String → List String
add_id s [] = s ∷ []
add_id s (t ∷ ts) =
    let rest = add_id s ts in
    elim (compare s t) [ Ordering.lt ↦ s ∷ t ∷ ts | Ordering.eq ↦ t ∷ ts | Ordering.gt ↦ t ∷ rest ]

unfoldable pub missing_revisions : List Row → List String
unfolding add_id
missing_revisions [] = []
missing_revisions (r ∷ rs) =
    let rest = missing_revisions rs in
    if has_number r.scenario_revision then rest else add_id r.scenario_id rest

-- The ids that the ValueError names, where it is raised.
unfoldable pub require_scenario_revisions : List Row → Option (List String)
unfolding missing_revisions
require_scenario_revisions current =
    if is_empty (missing_revisions current) then none else some (missing_revisions current)

pub data Exemption : Type 0 where
  predates_stamping revision_changed : Exemption

abbrev pub keep_reason : Row → Option Exemption → List (Row × Exemption) → List (Row × Exemption)
keep_reason r none rest = rest
keep_reason r (some reason) rest = (r, reason) ∷ rest

module _ ⦃py : Python⦄ where
  -- The outcome of a function that reads result["scenario_revision"]: none where that is a KeyError.
  -- Inside, the reason for which the rows cannot be compared.
  unfoldable pub compare_revisions : Value → Option Value → Option (Option Exemption)
  compare_revisions v none = none
  compare_revisions v (some w) = some (if same_value v w then none else some revision_changed)

  unfoldable pub exemption_reason : Row → Row → Bool → Option (Option Exemption)
  unfolding compare_revisions
  exemption_reason baseline_result current_result baseline_is_stamped =
      elim baseline_result.scenario_revision [
        | none ↦ some (if baseline_is_stamped then none else some predates_stamping)
        | some v ↦ compare_revisions v current_result.scenario_revision
      ]

  -- One round of the loop of detect_regressions: whether the row is reported.
  unfoldable pub has_regressed : Bool → Option Row → Row → Option Bool
  unfolding exemption_reason
  has_regressed stamped none r = some false
  has_regressed stamped (some b) r =
      exemption_reason b r stamped >>= λ reason. some (not (is_some reason) && not (is_passed r))

  unfoldable pub regressed_rows : List Row → List Row → Option (List Row)
  unfolding has_regressed
  regressed_rows baseline [] = some []
  regressed_rows baseline (r ∷ rs) =
      has_regressed (baseline_stamps_revisions baseline) (baseline_passed baseline r) r
      >>= λ reported. regressed_rows baseline rs >>= λ rest. some (keep_if reported r rest)

  unfoldable pub detect_regressions : List Row → List Row → Option (List Row)
  unfolding regressed_rows
  detect_regressions baseline current = regressed_rows baseline current

  -- One round of the loop of exempt_cases: the reason for which the row is listed.
  unfoldable pub exemption : Bool → Option Row → Row → Option (Option Exemption)
  unfolding exemption_reason
  exemption stamped none r = some none
  exemption stamped (some b) r = if is_passed r then some none else exemption_reason b r stamped

  unfoldable pub exempt_rows : List Row → List Row → Option (List (Row × Exemption))
  unfolding exemption
  exempt_rows baseline [] = some []
  exempt_rows baseline (r ∷ rs) =
      exemption (baseline_stamps_revisions baseline) (baseline_passed baseline r) r >>= λ reason.
      exempt_rows baseline rs >>= λ rest. some (keep_reason r reason rest)

  unfoldable pub exempt_cases : List Row → List Row → Option (List (Row × Exemption))
  unfolding exempt_rows
  exempt_cases baseline current = exempt_rows baseline current
