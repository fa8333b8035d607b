-- ===== src/Formats/Verdicts/Depth.antt =====
-- When stream_bit_depth_violation of src/conformance/declared_formats.py reports a case, and which
-- side a reason names.
use conformance.Prelude.{
  ℕ, ◌≡◌, refl, sym, ap, ◌∙◌, ◌≢◌, ◌↔◌, ◌⊎◌, inl, inr, true, false, Option, none, some, List, [],
  Bool-cases, is_empty, any, Any, Any-imp, Any-any, clash, is_empty→nil, any-Any, pos, eqb_ℤ→eq,
  eqb_ℤ_refl,
}
use mathlib.Core.Path.{subst}
use mathlib.Core.Option.{some-injective}
use conformance.Json.{Fields, get, Unicode}
use conformance.Formats.Format.{AudioFormat, normalized_format}
use conformance.Formats.Declared.{Declaration, declared_formats}
use conformance.Formats.Verdicts.{
  DepthViolation, no_stream_recorded, unknown_side, server_chose_other, client_offered_none,
  client_observed_other, has_depth, blame_depth, judge_depth, judge_observed,
  stream_bit_depth_violation,
}

-- The depth of a stream, where it can be read.
abbrev pub HasDepth : ℕ → AudioFormat → Type 0
HasDepth depth f = f.bit_depth ≡ pos depth

depth_iff : (depth : ℕ) (f : AudioFormat) → (has_depth depth f ≡ true) ↔ HasDepth depth f
depth_iff depth f = (eqb_ℤ→eq f.bit_depth (pos depth), λ h. rw h (eqb_ℤ_refl (pos depth)))

any_depth_iff :
    (depth : ℕ) (fs : List AudioFormat)
    → (any (has_depth depth) fs ≡ true) ↔ Any (HasDepth depth) fs
any_depth_iff depth fs = (
  λ h. Any-imp fs (λ f. (depth_iff depth f).0) (any-Any (has_depth depth) fs h),
  λ h. Any-any (has_depth depth) fs (Any-imp fs (λ f. (depth_iff depth f).1) h),
)

-- What a reason claims of the case: which side it names, and the evidence that it rests on.
abbrev pub Justified :
    ℕ → Declaration → Option AudioFormat → Option AudioFormat → DepthViolation → Type 0
Justified depth d stream observed (no_stream_recorded n) = stream ≡ none
Justified depth d stream observed (unknown_side s n offered) =
    (stream ≡ some s) × (¬ HasDepth depth s) × ((d.declared ≡ []) ⊎ (d.unreadable ≢ []))
Justified depth d stream observed (server_chose_other s n offered) =
    (stream ≡ some s) × (¬ HasDepth depth s) × (d.unreadable ≡ []) × Any (HasDepth depth) d.declared
Justified depth d stream observed (client_offered_none s n offered) =
    (stream ≡ some s)
    × (¬ HasDepth depth s)
    × (d.declared ≢ [])
    × (d.unreadable ≡ [])
    × (¬ Any (HasDepth depth) d.declared)
Justified depth d stream observed (client_observed_other o s offered) =
    (stream ≡ some s) × HasDepth depth s × (observed ≡ some o) × (¬ HasDepth depth o)

module _ (depth : ℕ) (d : Declaration) where
  misses :
      (s : AudioFormat) {observed : Option AudioFormat}
      → has_depth depth s ≡ false
      → ((t : AudioFormat) × (◌≡◌ {A = Option AudioFormat} (some s) (some t))
          × HasDepth depth t
          × ((o : AudioFormat) → observed ≡ some o → HasDepth depth o))
      → ⊥
  misses s wrong h =
      cc (wrong, (depth_iff depth s).1 (ap (λ f. f.bit_depth) (some-injective s h.0 h.1) ∙ h.2))

  observed_iff :
      (s : AudioFormat)
      → has_depth depth s ≡ true
      → (observed : Option AudioFormat)
      → (judge_observed depth d s observed ≡ none) ↔ (
          (t : AudioFormat) × (◌≡◌ {A = Option AudioFormat} (some s) (some t))
          × HasDepth depth t
          × ((o : AudioFormat) → observed ≡ some o → HasDepth depth o))
  unfolding judge_observed
  observed_iff s right none = (λ h. (s, refl, (depth_iff depth s).0 right, λ o e. cc), λ h. refl)
  observed_iff s right (some o) = elim (Bool-cases (has_depth depth o)) [
    | inl same ↦ rw same (
      λ h. (
        s,
        refl,
        (depth_iff depth s).0 right,
        λ p e. ap (λ f. f.bit_depth) (sym (some-injective o p e)) ∙ (depth_iff depth o).0 same,
      ),
      λ h. refl,
    )
    | inr other ↦ rw other (λ h. cc, λ h. cc (other, (depth_iff depth o).1 (h.3 o refl)))
  ]

  judge_depth-none_iff :
      (stream observed : Option AudioFormat)
      → (judge_depth depth d stream observed ≡ none) ↔ (
          (s : AudioFormat) × (stream ≡ some s)
          × HasDepth depth s
          × ((o : AudioFormat) → observed ≡ some o → HasDepth depth o))
  unfolding judge_depth
  judge_depth-none_iff none observed = (λ h. cc, λ h. cc (h.1))
  judge_depth-none_iff (some s) observed = elim (Bool-cases (has_depth depth s)) [
    | inr wrong ↦ rw wrong (λ h. cc, λ h. absurd (misses s wrong h))
    | inl right ↦ rw right (observed_iff s right observed)
  ]

  late :
      (s : AudioFormat)
      → has_depth depth s ≡ true
      → (observed : Option AudioFormat) (v : DepthViolation)
      → judge_observed depth d s observed ≡ some v
      → Justified depth d (some s) observed v
  unfolding judge_observed
  late s right none v h = cc
  late s right (some o) v h = elim (Bool-cases (has_depth depth o)) [
    | inl same ↦ cc (rw same at h)
    | inr other ↦
        subst (Justified depth d (some s) (some o)) (some-injective _ v (rw other at h))
          (refl, (depth_iff depth s).0 right, refl, λ e. clash ((depth_iff depth o).1 e) other)
  ]

  -- The three reasons for another depth, by what the declaration shows.
  blame_depth_cases :
      (s : AudioFormat)
      → ((blame_depth depth d s ≡ unknown_side s depth d.declared)
          × ((d.declared ≡ []) ⊎ (d.unreadable ≢ [])))
        ⊎ ((blame_depth depth d s ≡ server_chose_other s depth d.declared)
            × (d.unreadable ≡ [])
            × Any (HasDepth depth) d.declared)
        ⊎ ((blame_depth depth d s ≡ client_offered_none s depth d.declared)
            × (d.declared ≢ [])
            × (d.unreadable ≡ [])
            × (¬ Any (HasDepth depth) d.declared))
  unfolding blame_depth
  blame_depth_cases s =
      let offers = any_depth_iff depth d.declared in
      elim (Bool-cases (is_empty d.declared)) [
        | inl no_list ↦ inl (rw no_list, inl (is_empty→nil d.declared no_list))
        | inr list ↦ elim (Bool-cases (is_empty d.unreadable)) [
          | inr bad ↦ inl (rw (list, bad), inr (λ e. clash (ap is_empty e) bad))
          | inl fine ↦ elim (Bool-cases (any (has_depth depth) d.declared)) [
            | inl offered ↦
                inr
                  (inl (rw (list, fine, offered), is_empty→nil d.unreadable fine, offers.0 offered))
            | inr none_offered ↦ inr (
                inr (
                  rw (list, fine, none_offered),
                  λ e. clash (ap is_empty e) list,
                  is_empty→nil d.unreadable fine,
                  λ a. clash (offers.1 a) none_offered,
                ))
          ]
        ]
      ]

  blame_depth-Justified :
      (s : AudioFormat) (observed : Option AudioFormat)
      → ¬ HasDepth depth s
      → Justified depth d (some s) observed (blame_depth depth d s)
  blame_depth-Justified s observed wrong =
      let Claim = Justified depth d (some s) observed in
      elim (blame_depth_cases s) [
        | inl a ↦ subst Claim (sym a.0) (refl, wrong, a.1)
        | inr (inl b) ↦ subst Claim (sym b.0) (refl, wrong, b.1, b.2)
        | inr (inr c) ↦ subst Claim (sym c.0) (refl, wrong, c.1, c.2, c.3)
      ]

  judge_depth-Justified :
      (stream observed : Option AudioFormat) (v : DepthViolation)
      → judge_depth depth d stream observed ≡ some v
      → Justified depth d stream observed v
  unfolding judge_depth judge_observed
  judge_depth-Justified none observed v h =
      subst (Justified depth d none observed) (some-injective _ v h) refl
  judge_depth-Justified (some s) observed v h = elim (Bool-cases (has_depth depth s)) [
    | inr wrong ↦
        subst (Justified depth d (some s) observed) (some-injective _ v (rw wrong at h))
          (blame_depth-Justified s observed (λ e. clash ((depth_iff depth s).1 e) wrong))
    | inl right ↦ late s right observed v (rw right at h)
  ]

module _ ⦃u : Unicode⦄ (server client : Fields) (bit_depth : ℕ) where
  -- The verdict is silent exactly when the server recorded a stream of this depth, and no readable
  -- stream that the client observed has another one.
  pub stream_bit_depth_violation-none_iff :
      (stream_bit_depth_violation server client bit_depth ≡ none) ↔ (
        (s : AudioFormat) × (normalized_format (get "stream" server) ≡ some s)
        × HasDepth bit_depth s
        × ((o : AudioFormat)
            → normalized_format (get "stream" client) ≡ some o
            → HasDepth bit_depth o))
  unfolding stream_bit_depth_violation
  stream_bit_depth_violation-none_iff = judge_depth-none_iff bit_depth (declared_formats server) _ _

  -- Each reason is borne out by the evidence: the server is named only where the client offered the
  -- depth, the client adapter only where a readable declaration offers it nowhere, neither side
  -- where the declaration is missing or has an unreadable entry.
  pub stream_bit_depth_violation-Justified :
      (v : DepthViolation)
      → stream_bit_depth_violation server client bit_depth ≡ some v
      → Justified bit_depth
          (declared_formats server)
          (normalized_format (get "stream" server))
          (normalized_format (get "stream" client))
          v
  unfolding stream_bit_depth_violation
  stream_bit_depth_violation-Justified v h =
      judge_depth-Justified bit_depth (declared_formats server) _ _ v h
