-- ===== src/Validator/References/Exact.antt =====
-- src/conformance/validator/noncompliance_refs.py: what the search of pattern.fullmatch finds.
use conformance.Prelude.{
  ℕ, String, ◌≡◌, refl, sym, ap, ◌∙◌, ◌≢◌, ◌↔◌, ◌⊎◌, inl, inr, Bool, true, ◌||◌, Option, some, List,
  [], ◌∷◌, ◌++◌, append-nil, arith, ◌==◌, ==_iff, Bool-cases, Option-cases, is_empty, any, All, Any,
  Any-imp, Any-any, clash, is_empty→nil, any-Any,
}
use mathlib.Core.Path.{subst}
use mathlib.Core.Option.{some-injective}
use conformance.Json.{Unicode}
use conformance.Framing.Frames.{codes}
use conformance.Validator.References.Matching.{references, reference_in, spec_ref_for}
use conformance.Validator.References.Pattern.{
  Piece, literal, one_of, dots, unlike, ends_word, strip, prefix_then, dots_then, is_unlike,
  full_match,
}

-- The text is the prefix, and then what P holds of.
abbrev pub Follows : List ℕ → (List ℕ → Type 0) → List ℕ → Type 0
Follows prefix P s = (rest : List ℕ) × (s ≡ prefix ++ rest) × P rest

-- The text is one character or more, none of them a newline, and then what P holds of.
abbrev pub FollowsDots : (List ℕ → Type 0) → List ℕ → Type 0
FollowsDots P s =
    (taken : List ℕ) × (rest : List ℕ) × (s ≡ taken ++ rest)
    × (taken ≢ [])
    × All (λ c. c ≢ b'\n') taken
    × P rest

module _ ⦃u : Unicode⦄ where
  abbrev pub EndsWord : List ℕ → Type 0
  EndsWord s = ends_word s ≡ true

  -- What a pattern describes, without a search.
  abbrev pub Matches : List Piece → List ℕ → Type 0
  Matches [] s = s ≡ []
  Matches (literal text ∷ pieces) s = Follows (codes text) (Matches pieces) s
  Matches (one_of options ∷ pieces) s =
      Any (λ option. Follows (codes option) (Matches pieces) s) options
  Matches (dots ∷ pieces) s = FollowsDots (Matches pieces) s
  Matches (unlike exact word ∷ pieces) s =
      ((s ≢ codes exact) × ¬ Follows (codes word) EndsWord s) × Matches pieces s

strip_iff : (p s rest : List ℕ) → (strip p s ≡ some rest) ↔ (s ≡ p ++ rest)
unfolding strip
strip_iff [] s rest = (λ h. some-injective _ _ h, λ h. ap some h)
strip_iff (c ∷ cs) [] rest = (λ h. cc, λ h. cc)
strip_iff (c ∷ cs) (d ∷ ds) rest =
    let inner = strip_iff cs ds rest in
    let same = ==_iff c d in
    elim (Bool-cases (c == d)) [
      | inl y ↦ rw (y, strip) (λ h. cc (same.0 y, inner.0 h), λ h. inner.1 (cc))
      | inr n ↦ rw n (λ h. cc, λ h. absurd (clash (same.1 (cc)) n))
    ]

module _ (next : List ℕ → Bool) (P : List ℕ → Type 0)
    (each : (s : List ℕ) → (next s ≡ true) ↔ P s) where
  prefix_then_iff : (p s : List ℕ) → (prefix_then next p s ≡ true) ↔ Follows p P s
  unfolding prefix_then
  prefix_then_iff p s = elim (Option-cases (strip p s)) [
    | inl no' ↦ rw (no', prefix_then) (λ h. cc, λ h. cc (no', (strip_iff p s h.0).1 h.1))
    | inr (rest, found) ↦
        rw (found, prefix_then)
          (
            λ h. (rest, (strip_iff p s rest).0 found, (each rest).0 h),
            λ h.
                let e : h.0 ≡ rest = cc (found, (strip_iff p s h.0).1 h.1) in
                (each rest).1 (subst P e h.2),
          )
  ]

  taken_back :
      (c : ℕ) (cs : List ℕ)
      → (dots_then next cs ≡ true) ↔ FollowsDots P cs
      → FollowsDots P (c ∷ cs)
      → (next cs || dots_then next cs) ≡ true
  taken_back c cs inner ([], rest, e, some', plain, p) = absurd (some' refl)
  taken_back c cs inner (t ∷ [], rest, e, some', plain, p) =
      let same : cs ≡ rest = cc (e) in rw ((each cs).1 (subst P (sym same) p)) refl
  taken_back c cs inner (t ∷ t' ∷ ts, rest, e, some', plain, p) =
      let more = inner.1 (t' ∷ ts, rest, cc (e), (λ z. cc (z)), plain.1, p) in ground (arith, more)

  plain_first : (c : ℕ) (cs : List ℕ) → FollowsDots P (c ∷ cs) → c ≢ b'\n'
  plain_first c cs ([], rest, e, some', plain, p) = absurd (some' refl)
  plain_first c cs (t ∷ ts, rest, e, some', plain, p) =
      let same : c ≡ t = cc (e) in λ z. plain.0 (sym same ∙ z)

  dots_then_iff : (s : List ℕ) → (dots_then next s ≡ true) ↔ FollowsDots P s
  unfolding dots_then
  dots_then_iff [] = (λ h. cc, λ h. absurd (h.3 (nothing h.0 h.1 h.2)))
    where
      nothing : (taken rest : List ℕ) → [] ≡ taken ++ rest → taken ≡ []
      nothing [] rest e = refl
      nothing (t ∷ ts) rest e = cc
  dots_then_iff (c ∷ cs) =
      let inner = dots_then_iff cs in
      let newline = ==_iff c b'\n' in
      elim (Bool-cases (c == b'\n')) [
        | inl y ↦ rw y (λ h. cc, λ h. absurd (plain_first c cs h (newline.0 y)))
        | inr n ↦
            let fine : c ≢ b'\n' = λ z. clash (newline.1 z) n in
            rw n (
              λ h. elim (Bool-cases (next cs)) [
                | inl last ↦ (c ∷ [], cs, refl, (λ z. cc (z)), (fine, tt), (each cs).0 last)
                | inr more ↦
                    let (taken, rest, e, some', plain, p) = inner.0 (rw more at h) in
                    (c ∷ taken, rest, ap (λ z. c ∷ z) e, (λ z. cc (z)), (fine, plain), p)
              ],
              λ h. taken_back c cs inner h,
            )
      ]

any_iff :
    {A : Type 0} (test : A → Bool) (P : A → Type 0) (xs : List A)
    → ((x : A) → (test x ≡ true) ↔ P x)
    → (any test xs ≡ true) ↔ Any P xs
any_iff test P xs each = (
  λ h. Any-imp xs (λ x k. (each x).0 k) (any-Any test xs h),
  λ h. Any-any test xs (Any-imp xs (λ x k. (each x).1 k) h),
)

exactly_iff : (p s : List ℕ) → (prefix_then is_empty p s ≡ true) ↔ (s ≡ p)
exactly_iff p s =
    let whole =
      prefix_then_iff is_empty (λ z. z ≡ []) (λ z. (is_empty→nil z, λ h. ap is_empty h)) p s in
    (
      λ h. let (rest, e, nil) = whole.0 h in e ∙ ap (λ z. p ++ z) nil ∙ append-nil p,
      λ h. whole.1 ([], h ∙ sym (append-nil p), refl),
    )

module _ ⦃u : Unicode⦄ where
  is_unlike_iff :
      (exact word s : List ℕ)
      → (is_unlike exact word s ≡ true) ↔ ((s ≢ exact) × ¬ Follows word EndsWord s)
  unfolding is_unlike
  is_unlike_iff exact word s =
      let one = exactly_iff exact s in
      let two = prefix_then_iff ends_word EndsWord (λ z. (λ h. h, λ h. h)) word s in
      elim (Bool-cases (prefix_then is_empty exact s)) [
        | inl y ↦ rw y (λ h. cc, λ h. absurd (h.0 (one.0 y)))
        | inr n ↦ elim (Bool-cases (prefix_then ends_word word s)) [
          | inl y ↦ rw (n, y) (λ h. cc, λ h. absurd (h.1 (two.0 y)))
          | inr m ↦ rw (n, m) (λ h. (λ z. clash (one.1 z) n, λ z. clash (two.1 z) m), λ h. refl)
        ]
      ]

module _ ⦃u : Unicode⦄ where
  -- pattern.fullmatch finds a match exactly when the text is one that the pattern describes: its
  -- texts, one of the alternatives of a group, one character or more that are no newline for (.+),
  -- and for the negative group neither the one text nor the other at the beginning, as a word.
  pub full_match_iff :
      (pieces : List Piece) (s : List ℕ) → (full_match pieces s ≡ true) ↔ Matches pieces s
  unfolding full_match
  full_match_iff [] s = (λ h. is_empty→nil s h, λ h. ap is_empty h)
  full_match_iff (literal text ∷ pieces) s =
      prefix_then_iff (full_match pieces) (Matches pieces) (full_match_iff pieces) (codes text) s
  full_match_iff (one_of options ∷ pieces) s = any_iff _ _ options λ option.
      prefix_then_iff (full_match pieces) (Matches pieces) (full_match_iff pieces) (codes option) s
  full_match_iff (dots ∷ pieces) s =
      dots_then_iff (full_match pieces) (Matches pieces) (full_match_iff pieces) s
  full_match_iff (unlike exact word ∷ pieces) s =
      let ahead = is_unlike_iff (codes exact) (codes word) s in
      let rest = full_match_iff pieces s in
      elim (Bool-cases (is_unlike (codes exact) (codes word) s)) [
        | inl y ↦ rw y (λ h. (ahead.0 y, rest.0 h), λ h. rest.1 h.1)
        | inr n ↦ rw n (λ h. cc, λ h. absurd (clash (ahead.1 h.0) n))
      ]

  -- The reference is that of the first row whose pattern describes the text.
  abbrev pub FirstMatch : List (List Piece × Option String) → List ℕ → Option String → Type 0
  FirstMatch [] s ref = ⊥
  FirstMatch (row ∷ rows) s ref =
      (Matches row.0 s × (row.1 ≡ ref)) ⊎ ((¬ Matches row.0 s) × FirstMatch rows s ref)

  reference_in-some_iff :
      (rows : List (List Piece × Option String)) (s : List ℕ) (ref : Option String)
      → (reference_in rows s ≡ some ref) ↔ FirstMatch rows s ref
  unfolding reference_in
  reference_in-some_iff [] s ref = (λ h. cc, λ h. absurd h)
  reference_in-some_iff (row ∷ rows) s ref =
      let later = reference_in-some_iff rows s ref in
      let matches = full_match_iff row.0 s in
      elim (Bool-cases (full_match row.0 s)) [
        | inl y ↦
            rw (y, reference_in)
              (
                λ h. inl (matches.0 y, some-injective _ _ h),
                elim [ inl k ↦ ap some k.1 | inr k ↦ absurd (k.0 (matches.0 y)) ],
              )
        | inr n ↦
            rw (n, reference_in)
              (
                λ h. inr (λ z. clash (matches.1 z) n, later.0 h),
                elim [ inl k ↦ absurd (clash (matches.1 k.0) n) | inr k ↦ later.1 k.1 ],
              )
      ]

  -- The reference of a reason is that of the first row of the table whose pattern describes the
  -- whole reason, none where it is a rule that the specification does not make.
  pub spec_ref_for-some_iff :
      (reason : String) (ref : Option String)
      → (spec_ref_for reason ≡ some ref) ↔ FirstMatch references (codes reason) ref
  unfolding spec_ref_for
  spec_ref_for-some_iff reason ref = reference_in-some_iff references (codes reason) ref
