-- ===== src/Validator/Texts.antt =====
-- The tests on texts that src/conformance/validator makes with Python's str methods.
use conformance.Prelude.{
  ℕ, String, Bool, true, false, Option, none, some, List, [], ◌∷◌, str_eq, if◌then◌else◌, is_some,
  ◌==◌,
}
use mathlib.Core.Option
use Prim.Native.Char.{Char, code}
use Prim.Native.String.{compare}
use Prim.Native.Nat.{Ordering}

abbrev pub prepend : Char → String → String
prepend c s = String.◌∷◌ c s

-- s.removesuffix(suffix), where s ends with it
abbrev pub without_suffix : String → String → Option String
without_suffix suffix String.[] = if str_eq suffix "" then some "" else none
without_suffix suffix (String.◌∷◌ c rest) =
    let found = without_suffix suffix rest in
    if str_eq suffix (prepend c rest) then some "" else Option.map (prepend c) found

-- s.endswith(suffix)
abbrev pub ends_with : String → String → Bool
ends_with s suffix = is_some (without_suffix suffix s)

-- s.partition(mark)[0] and s.partition(mark)[2], and `mark in s`
abbrev pub before_mark : ℕ → String → String
before_mark mark String.[] = ""
before_mark mark (String.◌∷◌ c rest) =
    let before = before_mark mark rest in if code c == mark then "" else prepend c before

abbrev pub after_mark : ℕ → String → String
after_mark mark String.[] = ""
after_mark mark (String.◌∷◌ c rest) =
    let after = after_mark mark rest in if code c == mark then rest else after

abbrev pub has_mark : ℕ → String → Bool
has_mark mark String.[] = false
has_mark mark (String.◌∷◌ c rest) =
    let later = has_mark mark rest in if code c == mark then true else later

-- sorted(...) of texts
abbrev pub insert : String → List String → List String
insert s [] = s ∷ []
insert s (t ∷ ts) =
    let rest = insert s ts in elim (compare s t) [ Ordering.gt ↦ t ∷ rest | _ ↦ s ∷ t ∷ ts ]

abbrev pub sorted : List String → List String
sorted [] = []
sorted (s ∷ ss) = insert s (sorted ss)

-- sorted(...) of a set of texts: each once
abbrev pub insert_once : String → List String → List String
insert_once s [] = s ∷ []
insert_once s (t ∷ ts) =
    let rest = insert_once s ts in
    elim (compare s t) [ Ordering.gt ↦ t ∷ rest | Ordering.eq ↦ t ∷ ts | Ordering.lt ↦ s ∷ t ∷ ts ]

abbrev pub sorted_set : List String → List String
sorted_set [] = []
sorted_set (s ∷ ss) = insert_once s (sorted_set ss)
