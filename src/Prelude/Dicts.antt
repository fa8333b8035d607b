-- ===== src/Prelude/Dicts.antt =====
-- Dicts that a comprehension builds: a later row with the same key takes an earlier one's place.
use mathlib.Core.Path.{◌≡◌, refl, sym, ap, ◌∙◌}
use mathlib.Core.Logic.{◌≢◌, ◌↔◌, inl, inr}
use mathlib.Core.Bool.{Bool, true, false, not, ◌&&◌}
use mathlib.Core.Option.{Option, none, some}
use mathlib.Core.List.{List, [], ◌∷◌, map}
use native.Mathlib.Omega.{arith}
use Prim.Native.String.{String}
use text.Mathlib.Text.{◌==◌ as str_eq}
use text.Mathlib.TextEquality.{eq_iff}
use conformance.Prelude.Tests.{Bool-cases, Option-cases, if◌then◌else◌, clash}
use conformance.Prelude.Lists.{All, In, Distinct, all, all-All, All-imp}

abbrev pub or_else {ℓ} : {A : Type ℓ} → Option A → Option A → Option A
or_else none b = b
or_else (some a) b = some a

module _ {A : Type 0} (test : A → Bool) where
  -- The last row that passes a test.
  abbrev pub last_with : List A → Option A
  last_with [] = none
  last_with (x ∷ xs) = or_else (last_with xs) (if test x then some x else none)

module _ {A : Type 0} (test : A → Bool) where
  pub last_with-none_iff : (xs : List A) → (last_with test xs ≡ none) ↔ All (λ x. test x ≡ false) xs
  last_with-none_iff [] = (λ h. tt, λ h. refl)
  last_with-none_iff (x ∷ xs) =
      let rest = last_with-none_iff xs in
      elim (Option-cases (last_with test xs)) [
        | inr (y, later) ↦ rw later (λ h. cc, λ h. cc (later, rest.1 h.1))
        | inl nothing ↦ elim (Bool-cases (test x)) [
          | inl passes ↦ rw (nothing, passes) (λ h. cc, λ h. cc (h.0))
          | inr fails ↦ rw (nothing, fails) (λ h. (refl, rest.0 nothing), λ h. refl)
        ]
      ]

  pub last_with-passes :
      (xs : List A) (y : A) → last_with test xs ≡ some y → In y xs × (test y ≡ true)
  last_with-passes [] y h = cc
  last_with-passes (x ∷ xs) y h = elim (Option-cases (last_with test xs)) [
    | inr (z, later) ↦ let k = last_with-passes xs y (later ∙ (rw later at h)) in (inr k.0, k.1)
    | inl nothing ↦ elim (Bool-cases (test x)) [
      | inl passes ↦
          let e : x ≡ y = cc (rw (nothing, passes) at h) in (inl e, ap test (sym e) ∙ passes)
      | inr fails ↦ cc (rw (nothing, fails) at h)
    ]
  ]

-- distinct keys, by a test that computes
abbrev pub are_distinct : List String → Bool
are_distinct [] = true
are_distinct (s ∷ ss) = all (λ t. not (str_eq s t)) ss && are_distinct ss

pub are_distinct-Distinct : (ss : List String) → are_distinct ss ≡ true → Distinct ss
are_distinct-Distinct [] h = tt
are_distinct-Distinct (s ∷ ss) h = (
  All-imp ss (λ t k e. clash ((eq_iff s t).1 e) (ground (arith, k)))
      (all-All (λ t. not (str_eq s t)) ss (ground (arith, h))),
  are_distinct-Distinct ss (ground (arith, h)),
)

module _ {A : Type 0} (key : A → String) (k : String) where
  -- Where the keys are distinct, the row at a key is the one row with it.
  pub last_with-key_iff :
      (xs : List A) (y : A)
      → Distinct (map key xs)
      → (last_with (λ x. str_eq (key x) k) xs ≡ some y) ↔ (In y xs × (key y ≡ k))
  last_with-key_iff xs y d = (
    λ h.
        let found = last_with-passes (λ x. str_eq (key x) k) xs y h in
        (found.0, (eq_iff (key y) k).0 found.1),
    λ h. present xs d h.0 h.1,
  )
    where
      other :
          (x : A) (xs : List A)
          → key x ≡ k
          → All (λ t. key x ≢ t) (map key xs)
          → All (λ z. str_eq (key z) k ≡ false) xs
      other x [] e h = tt
      other x (z ∷ zs) e h = (
        elim (Bool-cases (str_eq (key z) k)) [
          | inl same ↦ absurd (h.0 (e ∙ sym ((eq_iff (key z) k).0 same)))
          | inr differs ↦ differs
        ],
        other x zs e h.1,
      )

      present :
          (xs : List A)
          → Distinct (map key xs)
          → In y xs
          → key y ≡ k
          → last_with (λ x. str_eq (key x) k) xs ≡ some y
      present [] d h e = elim h [ ]
      present (x ∷ xs) d (inl same) e =
          let mine : key x ≡ k = ap key same ∙ e in
          rw
            (
              (last_with-none_iff (λ z. str_eq (key z) k) xs).1 (other x xs mine d.0),
              (eq_iff (key x) k).1 mine,
            )
            (ap some same)
      present (x ∷ xs) d (inr later) e = rw (present xs d.1 later e) refl
