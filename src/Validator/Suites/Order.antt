-- ===== src/Validator/Suites/Order.antt =====
-- src/conformance/validator/suite_checks.py: the answer that a check judges is the first of its kind,
-- and the count of the pairing activations is that of the frames since the last handshake.
use conformance.Prelude.{
  ℕ, ◌+◌, String, ◌≡◌, refl, sym, ap, ◌∙◌, ◌↔◌, ◌⊎◌, inl, inr, Bool, true, false, Option, none,
  some, List, [], ◌∷◌, ◌++◌, arith, ltb, if◌then◌else◌, Bool-cases, Option-cases, length, any,
  filter, All, clash,
}
use mathlib.Core.Path.{subst}
use conformance.Validator.Findings.{pass}
use conformance.Validator.Checks.{Findings}
use conformance.Validator.Checks.Order.{Gives}
use conformance.Validator.Record.{RecordedFrame, ConnectionRecord, first_with}
use conformance.Validator.Suites.{
  is_later, is_answer, is_handshake_sent, is_pairing_activation, count_step, count_pairings,
  pairing_activations_since_handshake,
}

module _ {A : Type 0} (test : A → Bool) where
  -- The first element of a list that passes a test, with the list before and after it.
  pub record First (xs : List A) (x : A) : Type 0 where
    pub before : List A
    pub after : List A
    pub placed : xs ≡ before ++ (x ∷ after)
    pub failed : All (λ y. test y ≡ false) before
    pub passed : test x ≡ true

  First-push : (y : A) (xs : List A) (x : A) → test y ≡ false → First xs x → First (y ∷ xs) x
  First-push y xs x n e = record {
    before = y ∷ e.before;
    after = e.after;
    placed = ap (λ zs. y ∷ zs) e.placed;
    failed = (n, e.failed);
    passed = e.passed;
  }

  First-pop :
      (y : A) (xs : List A) (x : A)
      → First (y ∷ xs) x
      → ((y ≡ x) × (test y ≡ true)) ⊎ ((test y ≡ false) × First xs x)
  First-pop y xs x e = go e.before e.after e.placed e.failed e.passed
    where
      go :
          (before after : List A)
          → y ∷ xs ≡ before ++ (x ∷ after)
          → All (λ z. test z ≡ false) before
          → test x ≡ true
          → ((y ≡ x) × (test y ≡ true)) ⊎ ((test y ≡ false) × First xs x)
      go [] after placed failed passed =
          let same : y ≡ x = cc (placed) in inl (same, ap test same ∙ passed)
      go (b ∷ bs) after placed failed passed =
          let same : y ≡ b = cc (placed) in
          inr (
            ap test same ∙ failed.0,
            record {
              before = bs;
              after = after;
              placed = cc (placed);
              failed = failed.1;
              passed = passed;
            },
          )

  First-nowhere : (x : A) → First [] x → ⊥
  First-nowhere x e = go e.before e.after e.placed
    where
      go : (before after : List A) → [] ≡ before ++ (x ∷ after) → ⊥
      go [] after h = cc
      go (b ∷ bs) after h = cc

  pub first_with-some_iff : (xs : List A) (x : A) → (first_with test xs ≡ some x) ↔ First xs x
  first_with-some_iff [] x = (λ h. cc, λ e. absurd (First-nowhere x e))
  first_with-some_iff (y ∷ xs) x =
      let rest = first_with-some_iff xs x in
      elim (Bool-cases (test y)) [
        | inl t ↦ rw t (
          λ h.
              let same : y ≡ x = cc (h) in
              record {
                before = [];
                after = xs;
                placed = ap (λ z. z ∷ xs) same;
                failed = tt;
                passed = sym (ap test same) ∙ t;
              },
          λ e. elim (First-pop y xs x e) [ inl k ↦ ap some k.0 | inr k ↦ absurd (clash t k.0) ],
        )
        | inr n ↦ rw n (
          λ h. First-push y xs x n (rest.0 h),
          λ e. elim (First-pop y xs x e) [ inl k ↦ absurd (clash k.1 n) | inr k ↦ rest.1 k.1 ],
        )
      ]

-- What a check of the first that passes the test comes to, where it fails without one.
module _ {A : Type 0} (test : A → Bool) (xs : List A) where
  pub first_with-judged_iff :
      (otherwise : Findings) (judge : A → Findings) (Q : A → Type 0)
      → (Gives pass otherwise → ⊥)
      → ((x : A) → Gives pass (judge x) ↔ Q x)
      → Gives pass (elim (first_with test xs) [ none ↦ otherwise | some x ↦ judge x ])
        ↔ ((x : A) × First test xs x × Q x)
  first_with-judged_iff otherwise judge Q fails judged = elim (Option-cases (first_with test xs)) [
    | inl nothing ↦ rw nothing (
      λ h. absurd (fails h),
      λ (x, place, held).
          let there = (first_with-some_iff test xs x).1 place in cc (nothing, there),
    )
    | inr (x, found) ↦ rw found (
      λ h. (x, (first_with-some_iff test xs x).0 found, (judged x).0 h),
      λ (y, place, held).
          let there = (first_with-some_iff test xs y).1 place in
          let same : y ≡ x = cc (there, found) in (judged x).1 (subst Q same held),
    )
  ]

-- The first frame that the client sent, on the transport and after a frame, of one of the types.
abbrev pub FirstAnswer :
    ConnectionRecord → RecordedFrame → Option (List String) → RecordedFrame → Type 0
FirstAnswer r after types f = First (is_later after.id (is_answer types)) r.frames f

-- The frames up to the first with a later id.
abbrev pub up_to : ℕ → List RecordedFrame → List RecordedFrame
up_to last [] = []
up_to last (f ∷ fs) = let rest = up_to last fs in if ltb last f.id then [] else f ∷ rest

-- The frames after the last handshake that the validator sent, all of them where it sent none.
abbrev pub since_handshake : List RecordedFrame → List RecordedFrame
since_handshake [] = []
since_handshake (f ∷ fs) =
    let rest = since_handshake fs in
    if any is_handshake_sent fs then rest else if is_handshake_sent f then fs else f ∷ fs

since_handshake-same :
    (fs : List RecordedFrame) → any is_handshake_sent fs ≡ false → since_handshake fs ≡ fs
since_handshake-same [] h = refl
since_handshake-same (f ∷ fs) h = elim (Bool-cases (any is_handshake_sent fs)) [
  | inl y ↦ elim (Bool-cases (is_handshake_sent f)) [
    | inl s ↦ cc (rw s at h)
    | inr s ↦ cc (rw (s, y) at h)
  ]
  | inr n ↦ elim (Bool-cases (is_handshake_sent f)) [
    | inl s ↦ cc (rw s at h)
    | inr s ↦ rw (n, s) refl
  ]
]

abbrev pub pairings : List RecordedFrame → ℕ
pairings fs = length (filter is_pairing_activation fs)

-- The count that the loop starts from, which a handshake forgets.
abbrev start_of : ℕ → List RecordedFrame → ℕ
start_of count fs = if any is_handshake_sent fs then 0 else count

count_pairings-since :
    (last count : ℕ) (fs : List RecordedFrame)
    → count_pairings last count fs
      ≡ start_of count (up_to last fs) + pairings (since_handshake (up_to last fs))
unfolding count_pairings count_step
count_pairings-since last count [] = omega arith
count_pairings-since last count (f ∷ fs) =
    let rest = count_pairings-since last (count_step count f) fs in
    elim (Bool-cases (ltb last f.id)) [ inl y ↦ rw y (omega arith) | inr n ↦ rw n (rest ∙ stepped) ]
  where
    stepped :
        start_of (count_step count f) (up_to last fs) + pairings (since_handshake (up_to last fs))
        ≡ start_of count (f ∷ up_to last fs) + pairings (since_handshake (f ∷ up_to last fs))
    stepped = elim (Bool-cases (any is_handshake_sent (up_to last fs))) [
      | inl y ↦ elim (Bool-cases (is_handshake_sent f)) [
        | inl s ↦ rw (s, y) refl
        | inr s ↦ rw (s, y) refl
      ]
      | inr n ↦
          let same = since_handshake-same (up_to last fs) n in
          elim (Bool-cases (is_handshake_sent f)) [
            | inl s ↦ rw (s, n, same) refl
            | inr s ↦ elim (Bool-cases (is_pairing_activation f)) [
              | inl p ↦ rw (s, n, same, p) (omega arith)
              | inr p ↦ rw (s, n, same, p) refl
            ]
          ]
    ]

module _ (r : ConnectionRecord) (activation : RecordedFrame) where
  -- The count for an activation is the number of pairing activations that the validator sent since
  -- its last handshake, among the frames before the first that is later than the activation.
  pub pairing_activations_since_handshake-pairings :
      pairing_activations_since_handshake r activation
      ≡ pairings (since_handshake (up_to activation.id r.frames))
  unfolding pairing_activations_since_handshake
  pairing_activations_since_handshake-pairings =
      count_pairings-since activation.id 0 r.frames
      ∙ (elim (Bool-cases (any is_handshake_sent (up_to activation.id r.frames))) [
        | inl y ↦ rw y (omega arith)
        | inr n ↦ rw n (omega arith)
      ])
