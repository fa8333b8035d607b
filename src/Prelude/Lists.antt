-- ===== src/Prelude/Lists.antt =====
-- Lists measured by native numbers, tests over a list, and predicates by recursion.
use Prim.Native.Nat.{ℕ, zero, suc, ◌+◌}
use mathlib.Core.Path.{◌≡◌, refl, sym, ap, ◌∙◌}
use mathlib.Core.Logic.{◌≢◌, ◌↔◌, ◌⊎◌, inl, inr}
use mathlib.Core.Bool.{Bool, true, false, not, ◌&&◌, ◌||◌}
use mathlib.Core.List.{List, [], ◌∷◌, ◌++◌, map}
use native.Mathlib.Omega.{arith}
use conformance.Prelude.Tests.{Bool-cases}

module _ {ℓ} {A : Type ℓ} where
  abbrev pub length : List A → ℕ
  length [] = 0
  length (x ∷ xs) = suc (length xs)

  abbrev pub take : ℕ → List A → List A
  take zero xs = []
  take (suc n) [] = []
  take (suc n) (x ∷ xs) = x ∷ take n xs

  abbrev pub drop : ℕ → List A → List A
  drop zero xs = xs
  drop (suc n) [] = []
  drop (suc n) (x ∷ xs) = drop n xs

  abbrev pub is_empty : List A → Bool
  is_empty [] = true
  is_empty (x ∷ xs) = false

  -- all(...), any(...) and the filter of a comprehension, with a Boolean test
  abbrev pub all : (A → Bool) → List A → Bool
  all p [] = true
  all p (x ∷ xs) = p x && all p xs

  abbrev pub any : (A → Bool) → List A → Bool
  any p [] = false
  any p (x ∷ xs) = p x || any p xs

  abbrev pub keep_if : Bool → A → List A → List A
  keep_if true x xs = x ∷ xs
  keep_if false x xs = xs

  abbrev pub filter : (A → Bool) → List A → List A
  filter p [] = []
  filter p (x ∷ xs) = keep_if (p x) x (filter p xs)

  pub length-append : (xs ys : List A) → length (xs ++ ys) ≡ length xs + length ys
  length-append [] ys = omega arith
  length-append (x ∷ xs) ys = omega (arith, length-append xs ys)

module _ {ℓ} {A : Type ℓ} where
  -- Every element, and some element.
  abbrev pub All : (A → Type 0) → List A → Type 0
  All P [] = Unit
  All P (x ∷ xs) = P x × All P xs

  abbrev pub Any : (A → Type 0) → List A → Type 0
  Any P [] = ⊥
  Any P (x ∷ xs) = P x ⊎ Any P xs

module _ {A : Type 0} where
  -- Occurrence in a list, with the place kept.
  abbrev pub In : A → List A → Type 0
  In a = Any (λ x. x ≡ a)

module _ {ℓ} {A : Type ℓ} (p : A → Bool) where
  pub all-All : (xs : List A) → all p xs ≡ true → All (λ x. p x ≡ true) xs
  all-All [] h = tt
  all-All (x ∷ xs) h = ground (arith, all-All xs)

  pub any-Any : (xs : List A) → any p xs ≡ true → Any (λ x. p x ≡ true) xs
  any-Any [] h = cc
  any-Any (x ∷ xs) h = ground (arith, any-Any xs)

module _ {ℓ} {A : Type ℓ} where
  pub Any-append_left : (P : A → Type 0) (xs ys : List A) → Any P xs → Any P (xs ++ ys)
  Any-append_left P [] ys h = elim h [ ]
  Any-append_left P (x ∷ xs) ys (inl h) = inl h
  Any-append_left P (x ∷ xs) ys (inr h) = inr (Any-append_left P xs ys h)

  pub Any-append_right : (P : A → Type 0) (xs ys : List A) → Any P ys → Any P (xs ++ ys)
  Any-append_right P [] ys h = h
  Any-append_right P (x ∷ xs) ys h = inr (Any-append_right P xs ys h)

  pub Any-append_split : (P : A → Type 0) (xs ys : List A) → Any P (xs ++ ys) → Any P xs ⊎ Any P ys
  Any-append_split P [] ys h = inr h
  Any-append_split P (x ∷ xs) ys (inl h) = inl (inl h)
  Any-append_split P (x ∷ xs) ys (inr h) = elim (Any-append_split P xs ys h) [
    | inl a ↦ inl (inr a)
    | inr b ↦ inr b
  ]

  pub All-append : (P : A → Type 0) (xs ys : List A) → All P xs → All P ys → All P (xs ++ ys)
  All-append P [] ys h k = k
  All-append P (x ∷ xs) ys h k = (h.0, All-append P xs ys h.1 k)

  pub All-append_split : (P : A → Type 0) (xs ys : List A) → All P (xs ++ ys) → All P xs × All P ys
  All-append_split P [] ys h = (tt, h)
  All-append_split P (x ∷ xs) ys h =
      let rest = All-append_split P xs ys h.1 in ((h.0, rest.0), rest.1)

  pub Any-map_iff {κ} :
      {B : Type κ} (P : B → Type 0) (f : A → B) (xs : List A)
      → Any P (map f xs) ↔ Any (λ x. P (f x)) xs
  Any-map_iff P f [] = (λ h. h, λ h. h)
  Any-map_iff P f (x ∷ xs) =
      let rest = Any-map_iff P f xs in
      (
        elim [ inl h ↦ inl h | inr h ↦ inr (rest.0 h) ],
        elim [ inl h ↦ inl h | inr h ↦ inr (rest.1 h) ],
      )

  pub Any-imp : {P Q : A → Type 0} (xs : List A) → ((x : A) → P x → Q x) → Any P xs → Any Q xs
  Any-imp [] k h = elim h [ ]
  Any-imp (x ∷ xs) k (inl h) = inl (k x h)
  Any-imp (x ∷ xs) k (inr h) = inr (Any-imp xs k h)

  pub All-imp : {P Q : A → Type 0} (xs : List A) → ((x : A) → P x → Q x) → All P xs → All Q xs
  All-imp [] k h = tt
  All-imp (x ∷ xs) k h = (k x h.0, All-imp xs k h.1)

  -- Where every element fails, none is there.
  pub All-not_Any :
      {P Q : A → Type 0} (xs : List A) → ((x : A) → P x → Q x → ⊥) → All P xs → ¬ Any Q xs
  All-not_Any [] k h a = elim a [ ]
  All-not_Any (x ∷ xs) k h (inl a) = k x h.0 a
  All-not_Any (x ∷ xs) k h (inr a) = All-not_Any xs k h.1 a

  -- What a test that fails, or holds, of a list says of its elements.
  pub any-none : (p : A → Bool) (xs : List A) → any p xs ≡ false → All (λ x. p x ≡ false) xs
  any-none p [] h = tt
  any-none p (x ∷ xs) h = ground (arith, any-none p xs)

  pub Any-any : (p : A → Bool) (xs : List A) → Any (λ x. p x ≡ true) xs → any p xs ≡ true
  Any-any p [] h = elim h [ ]
  Any-any p (x ∷ xs) h = ground (arith, Any-any p xs)

  pub All-all : (p : A → Bool) (xs : List A) → All (λ x. p x ≡ true) xs → all p xs ≡ true
  All-all p [] h = refl
  All-all p (x ∷ xs) h = ground (arith, All-all p xs)

module _ {A : Type 0} where
  -- No element stands twice.
  abbrev pub Distinct : List A → Type 0
  Distinct [] = Unit
  Distinct (x ∷ xs) = All (λ y. x ≢ y) xs × Distinct xs

  pub Distinct-snoc :
      (xs : List A) (a : A) → Distinct xs → All (λ y. y ≢ a) xs → Distinct (xs ++ a ∷ [])
  Distinct-snoc [] a d h = (tt, tt)
  Distinct-snoc (x ∷ xs) a d h =
      (All-append _ xs (a ∷ []) d.0 (h.0, tt), Distinct-snoc xs a d.1 h.1)

  pub In-snoc_iff : (x : A) (xs : List A) (y : A) → In x (xs ++ y ∷ []) ↔ (In x xs ⊎ (y ≡ x))
  In-snoc_iff x xs y = (
    λ h. elim (Any-append_split (λ z. z ≡ x) xs (y ∷ []) h) [
      | inl a ↦ inl a
      | inr (inl e) ↦ inr e
      | inr (inr n) ↦ elim n [ ]
    ],
    elim [
      | inl a ↦ Any-append_left (λ z. z ≡ x) xs (y ∷ []) a
      | inr e ↦ Any-append_right (λ z. z ≡ x) xs (y ∷ []) (inl e)
    ],
  )

module _ {A : Type 0} (p : A → Bool) where
  pub filter-not-nil_iff :
      (xs : List A) → (filter (λ x. not (p x)) xs ≡ []) ↔ All (λ x. p x ≡ true) xs
  filter-not-nil_iff [] = (λ h. tt, λ h. refl)
  filter-not-nil_iff (x ∷ xs) =
      let rest = filter-not-nil_iff xs in
      elim (Bool-cases (p x)) [
        | inl yes' ↦ rw yes' (λ h. (refl, rest.0 h), λ h. rest.1 h.1)
        | inr no' ↦ rw no' (λ h. cc, λ h. cc)
      ]

  pub In-filter_iff : (xs : List A) (a : A) → In a (filter p xs) ↔ (In a xs × (p a ≡ true))
  In-filter_iff [] a = (λ h. elim h [ ], λ h. h.0)
  In-filter_iff (x ∷ xs) a =
      let rest = In-filter_iff xs a in
      elim (Bool-cases (p x)) [
        | inl kept ↦ rw kept (
          elim [ inl e ↦ (inl e, ap p (sym e) ∙ kept) | inr h ↦ (inr (rest.0 h).0, (rest.0 h).1) ],
          λ h. elim h.0 [ inl e ↦ inl e | inr m ↦ inr (rest.1 (m, h.1)) ],
        )
        | inr dropped ↦ rw dropped (
          λ h. (inr (rest.0 h).0, (rest.0 h).1),
          λ h. elim h.0 [ inl e ↦ absurd (clash dropped (ap p e ∙ h.1)) | inr m ↦ rest.1 (m, h.1) ],
        )
      ]
    where
      clash : p x ≡ false → p x ≡ true → ⊥
      clash f t = cc

module _ {ℓ} {A : Type ℓ} where
  -- To split on a computed list and keep the equation.
  pub List-cases : (xs : List A) → (xs ≡ []) ⊎ ((x : A) × (ys : List A) × (xs ≡ x ∷ ys))
  List-cases [] = inl refl
  List-cases (x ∷ xs) = inr (x, xs, refl)

  pub is_empty→nil : (xs : List A) → is_empty xs ≡ true → xs ≡ []
  is_empty→nil [] h = refl
  is_empty→nil (x ∷ xs) h = cc

  pub ne-nil→is_empty : (xs : List A) → xs ≢ [] → is_empty xs ≡ false
  ne-nil→is_empty [] h = absurd (h refl)
  ne-nil→is_empty (x ∷ xs) h = refl
