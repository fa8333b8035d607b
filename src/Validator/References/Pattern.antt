-- ===== src/Validator/References/Pattern.antt =====
-- src/conformance/validator/noncompliance_refs.py: the patterns of _REFS, which are texts with groups
-- (.+) and groups of alternatives, and pattern.fullmatch.
use conformance.Prelude.{
  ℕ, String, Bool, true, false, not, ◌&&◌, ◌||◌, Option, none, some, List, [], ◌∷◌, ◌==◌,
  if◌then◌else◌, is_empty, any,
}
use conformance.Json.{Unicode}
use conformance.Framing.Frames.{codes}

pub data Piece : Type 0 where
  literal : String → Piece
  one_of : List String → Piece
  dots : Piece
  unlike : String → String → Piece

-- (?!one\Z|other\b): what follows is not the first text, and does not begin with the second as a word.
module _ ⦃u : Unicode⦄ where
  abbrev pub ends_word : List ℕ → Bool
  ends_word [] = true
  ends_word (c ∷ cs) = not (u.is_word c)

-- What is left of a text after a prefix.
unfoldable pub strip : List ℕ → List ℕ → Option (List ℕ)
strip [] s = some s
strip (c ∷ cs) [] = none
strip (c ∷ cs) (d ∷ ds) = let rest = strip cs ds in if c == d then rest else none

-- A prefix, and then what is left.
unfoldable pub prefix_then : (List ℕ → Bool) → List ℕ → List ℕ → Bool
unfolding strip
prefix_then next prefix s = elim (strip prefix s) [ none ↦ false | some rest ↦ next rest ]

-- One character at least, none of them a newline, and then what is left.
unfoldable pub dots_then : (List ℕ → Bool) → List ℕ → Bool
dots_then next [] = false
dots_then next (c ∷ cs) = not (c == b'\n') && (next cs || dots_then next cs)

module _ ⦃u : Unicode⦄ where
  unfoldable pub is_unlike : List ℕ → List ℕ → List ℕ → Bool
  unfolding prefix_then
  is_unlike exact word s = not (prefix_then is_empty exact s) && not (prefix_then ends_word word s)

  unfoldable pub full_match : List Piece → List ℕ → Bool
  unfolding prefix_then dots_then is_unlike
  full_match [] s = is_empty s
  full_match (literal text ∷ pieces) s = prefix_then (full_match pieces) (codes text) s
  full_match (one_of options ∷ pieces) s =
      any (λ option. prefix_then (full_match pieces) (codes option) s) options
  full_match (dots ∷ pieces) s = dots_then (full_match pieces) s
  full_match (unlike exact word ∷ pieces) s =
      is_unlike (codes exact) (codes word) s && full_match pieces s
