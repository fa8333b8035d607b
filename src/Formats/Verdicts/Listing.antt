-- ===== src/Formats/Verdicts/Listing.antt =====
-- When undeclared_format_violation of src/conformance/declared_formats.py reports a case.
use conformance.Prelude.{
  ◌≡◌, refl, sym, ap, ◌∙◌, ◌≢◌, ◌↔◌, inl, inr, Bool, true, false, not, Option, none, some, List, [],
  map, if◌then◌else◌, Bool-cases, is_empty, filter, All, Any, In, Any-map_iff, Any-imp, All-imp,
  Any-any, clash, is_empty→nil, ne-nil→is_empty, any-Any, filter-not-nil_iff, In-filter_iff,
}
use mathlib.Core.Option.{some-injective}
use conformance.Json.{Fields, Unicode}
use conformance.Formats.Format.{
  AudioFormat, comparable_key, same_key, SameFormat, comparable→SameFormat, SameFormat→comparable,
}
use conformance.Formats.Declared.{declared_formats}
use conformance.Formats.Negotiated.{Negotiated, negotiated_formats}
use conformance.Formats.Verdicts.{Undeclared, is_declared, undeclared_format_violation}

-- The client declared a format that the specification does not tell apart from this one.
abbrev pub WasDeclared : List AudioFormat → Negotiated → Type 0
WasDeclared declared n = Any (λ f. SameFormat n.format f) declared

is_declared_iff :
    (declared : List AudioFormat) (n : Negotiated)
    → (is_declared declared n ≡ true) ↔ WasDeclared declared n
unfolding is_declared
is_declared_iff declared n =
    let key = same_key (comparable_key n.format) in
    let over_map = Any-map_iff (λ k. key k ≡ true) comparable_key declared in
    (
      λ h.
          Any-imp declared (λ f e. comparable→SameFormat n.format f e)
            (over_map.0 (any-Any key (map comparable_key declared) h)),
      λ h.
          Any-any key (map comparable_key declared)
            (over_map.1 (Any-imp declared (λ f e. SameFormat→comparable n.format f e) h)),
    )

-- The inner part of the verdict, over the formats negotiated.
judge : List AudioFormat → List Negotiated → Option Undeclared
judge declared ns =
    let undeclared = filter (λ n. not (is_declared declared n)) ns in
    if is_empty undeclared
    then none
    else some (record { observed = undeclared; offered = declared })

judge-none_iff :
    (declared : List AudioFormat) (ns : List Negotiated)
    → (judge declared ns ≡ none) ↔ All (WasDeclared declared) ns
unfolding judge
judge-none_iff declared ns =
    let kept = filter-not-nil_iff (is_declared declared) ns in
    let undeclared = filter (λ n. not (is_declared declared n)) ns in
    elim (Bool-cases (is_empty undeclared)) [
      | inl empty ↦ rw empty (
        λ h.
            All-imp ns (λ n. (is_declared_iff declared n).0)
              (kept.0 (is_empty→nil undeclared empty)),
        λ h. refl,
      )
      | inr full ↦ rw full (
        λ h. cc,
        λ h. absurd (
            clash (ap is_empty (kept.1 (All-imp ns (λ n. (is_declared_iff declared n).1) h))) full),
      )
    ]

not-true : (b : Bool) → (not b ≡ true) ↔ (b ≢ true)
not-true true = (λ h. cc, λ h. absurd (h refl))
not-true false = (λ h e. cc, λ h. refl)

-- What is kept for the reason: the formats that were not declared.
undeclared_iff :
    (declared : List AudioFormat) (ns : List Negotiated) (n : Negotiated)
    → In n (filter (λ m. not (is_declared declared m)) ns) ↔ (In n ns × ¬ WasDeclared declared n)
undeclared_iff declared ns n =
    let kept = In-filter_iff (λ m. not (is_declared declared m)) ns n in
    let test = not-true (is_declared declared n) in
    let same = is_declared_iff declared n in
    (
      λ h. ((kept.0 h).0, λ w. test.0 (kept.0 h).1 (same.1 w)),
      λ h. kept.1 (h.0, test.1 (λ t. h.1 (same.0 t))),
    )

judge-some :
    (declared : List AudioFormat) (ns : List Negotiated) (v : Undeclared)
    → judge declared ns ≡ some v
    → (v.offered ≡ declared)
      × (v.observed ≢ [])
      × ((n : Negotiated) → In n v.observed ↔ (In n ns × ¬ WasDeclared declared n))
unfolding judge
judge-some declared ns v h =
    let undeclared = filter (λ n. not (is_declared declared n)) ns in
    elim (Bool-cases (is_empty undeclared)) [
      | inl empty ↦ absurd (nothing (rw empty at h))
      | inr full ↦
          let e : v ≡ (record { observed = undeclared; offered = declared }) =
            sym (some-injective _ v (rw full at h)) in
          rw e (refl, λ nil'. clash (ap is_empty nil') full, undeclared_iff declared ns)
    ]
  where
    nothing : ◌≡◌ {A = Option Undeclared} none (some v) → ⊥
    nothing e = cc

module _ ⦃u : Unicode⦄ (server client : Fields) where
  abbrev declared : List AudioFormat
  declared = (declared_formats server).declared

  -- A declaration that can be read and is not empty.
  abbrev pub HasClaim : Type 0
  HasClaim = (declared ≢ []) × ((declared_formats server).unreadable ≡ [])

  violation-eq-judge :
      HasClaim
      → undeclared_format_violation server client
        ≡ judge declared (negotiated_formats server client)
  unfolding undeclared_format_violation judge
  violation-eq-judge h = rw (ne-nil→is_empty declared h.0, h.1)

  violation-HasClaim :
      (v : Undeclared) → undeclared_format_violation server client ≡ some v → HasClaim
  unfolding undeclared_format_violation
  violation-HasClaim v h =
      let unreadable = (declared_formats server).unreadable in
      elim (Bool-cases (is_empty declared)) [
        | inl empty ↦ cc (rw empty at h)
        | inr full ↦ elim (Bool-cases (is_empty unreadable)) [
          | inl fine ↦ (λ e. clash (ap is_empty e) full, is_empty→nil unreadable fine)
          | inr bad ↦ cc (rw (full, bad) at h)
        ]
      ]

  -- With a declaration that can be read, a case passes exactly when every format it negotiated is
  -- one that the client declared, where formats of opus that differ in bit depth alone are one.
  pub undeclared_format_violation-none_iff :
      HasClaim
      → (undeclared_format_violation server client ≡ none)
        ↔ All (WasDeclared declared) (negotiated_formats server client)
  undeclared_format_violation-none_iff h =
      rw (violation-eq-judge h) (judge-none_iff declared (negotiated_formats server client))

  -- A violation names what the client declared, and exactly the formats negotiated that it did not
  -- declare, of which there is one at least; there was a declaration to read.
  pub undeclared_format_violation-some :
      (v : Undeclared)
      → undeclared_format_violation server client ≡ some v
      → HasClaim
        × (v.offered ≡ declared)
        × (v.observed ≢ [])
        × ((n : Negotiated)
            → In n v.observed
              ↔ (In n (negotiated_formats server client) × ¬ WasDeclared declared n))
  undeclared_format_violation-some v h =
      let claim = violation-HasClaim v h in
      let found =
        judge-some declared (negotiated_formats server client) v
          (sym (violation-eq-judge claim) ∙ h) in
      (claim, found.0, found.1, found.2)
