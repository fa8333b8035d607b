-- ===== src/Validator/Findings.antt =====
-- src/conformance/validator/findings.py: the verdicts and the findings that carry them.
use conformance.Prelude.{ℕ, String, List}
use conformance.Json.{Value}

pub data Verdict : Type 0 where
  pass fail warn skipped not_applicable tool_error : Verdict

pub data Evidence : Type 0 where
  machine human : Evidence

-- The text of a message, with {} for each value that it names, and the values.
pub record Message : Type 0 where
  pub text : String
  pub values : List Value

pub record Finding : Type 0 where
  pub id : String
  pub verdict : Verdict
  pub spec_ref : String
  pub message : Message
  pub evidence : Evidence
  pub frames : List ℕ
