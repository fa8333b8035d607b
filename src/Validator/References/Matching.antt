-- ===== src/Validator/References/Matching.antt =====
-- src/conformance/validator/noncompliance_refs.py: spec_ref_for, the first row that matches.
use conformance.Prelude.{ℕ, String, Option, none, some, List, [], ◌∷◌, ◌++◌, if◌then◌else◌}
use conformance.Json.{Unicode}
use conformance.Framing.Frames.{codes}
use conformance.Validator.References.Pattern.{Piece, full_match}
use conformance.Validator.References.First.{first_rows}
use conformance.Validator.References.Second.{second_rows}
use conformance.Validator.References.Third.{third_rows}

abbrev pub references : List (List Piece × Option String)
references = first_rows ++ second_rows ++ third_rows

module _ ⦃u : Unicode⦄ where
  -- The reference of the first row that matches, where one does; UnmappedReasonError otherwise.
  unfoldable pub reference_in : List (List Piece × Option String) → List ℕ → Option (Option String)
  unfolding full_match
  reference_in [] reason = none
  reference_in (row ∷ rows) reason =
      let later = reference_in rows reason in if full_match row.0 reason then some row.1 else later

  unfoldable pub spec_ref_for : String → Option (Option String)
  unfolding reference_in
  spec_ref_for reason = reference_in references (codes reason)
