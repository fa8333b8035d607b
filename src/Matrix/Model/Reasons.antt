-- ===== src/Matrix/Model/Reasons.antt =====
-- src/conformance/models.py: what a reason of RoleSpec.unsupported_reason claims.
use conformance.Prelude.{
  ◌≤◌, String, ◌≡◌, refl, ◌≢◌, ◌↔◌, ◌⊎◌, inl, inr, true, false, not, ◌&&◌, some, List, [], ◌∷◌,
  arith, ltb, Bool-cases, filter, All, In, All-imp, All-all, List-cases, clash, filter-not-nil_iff,
  In-filter_iff,
}
use mathlib.Core.Path.{subst}
use mathlib.Core.Option.{some-injective}
use conformance.Matrix.Model.{
  RoleName, RoleFamily, RoleSpec, ScenarioSpec, supports_initiator, supports_family,
  supports_role_families, rank, insert_family, sort_families, missing_families, Unsupported,
  no_flow, no_families, no_legacy, no_codec, can_run, unsupported_reason,
}
use conformance.Matrix.Model.Capable.{
  SpeaksFlow, CanTransport, supports_family_iff, flow_iff, codec_iff,
}

In-insert_family_iff :
    (f g : RoleFamily) (gs : List RoleFamily) → In f (insert_family g gs) ↔ (g ≡ f ⊎ In f gs)
unfolding insert_family
In-insert_family_iff f g [] = (λ h. h, λ h. h)
In-insert_family_iff f g (x ∷ xs) =
    let rest = In-insert_family_iff f g xs in
    elim (Bool-cases (ltb (rank x) (rank g))) [
      | inr first ↦ rw first (λ h. h, λ h. h)
      | inl later ↦
          rw (later, insert_family)
            (
              elim [
                | inl e ↦ inr (inl e)
                | inr h ↦ elim (rest.0 h) [ inl e ↦ inl e | inr m ↦ inr (inr m) ]
              ],
              elim [
                | inl e ↦ inr (rest.1 (inl e))
                | inr (inl e) ↦ inl e
                | inr (inr m) ↦ inr (rest.1 (inr m))
              ],
            )
    ]

In-sort_families_iff : (f : RoleFamily) (fs : List RoleFamily) → In f (sort_families fs) ↔ In f fs
unfolding sort_families
In-sort_families_iff f [] = (λ h. h, λ h. h)
In-sort_families_iff f (g ∷ gs) =
    let rest = In-sort_families_iff f gs in
    let one = In-insert_family_iff f g (sort_families gs) in
    (
      λ h. elim (one.0 h) [ inl e ↦ inl e | inr m ↦ inr (rest.0 m) ],
      elim [ inl e ↦ one.1 (inl e) | inr m ↦ one.1 (inr (rest.1 m)) ],
    )

-- The names of the families stand in alphabetical order.
abbrev pub IsSorted : List RoleFamily → Type 0
IsSorted [] = Unit
IsSorted (f ∷ fs) = All (λ g. rank f ≤ rank g) fs × IsSorted fs

insert_family-All :
    (P : RoleFamily → Type 0) (g : RoleFamily) (fs : List RoleFamily)
    → P g
    → All P fs
    → All P (insert_family g fs)
unfolding insert_family
insert_family-All P g [] p h = (p, tt)
insert_family-All P g (x ∷ xs) p h = elim (Bool-cases (ltb (rank x) (rank g))) [
  | inr first ↦ rw first (p, h)
  | inl later ↦ rw (later, insert_family) (h.0, insert_family-All P g xs p h.1)
]

insert_family-IsSorted :
    (g : RoleFamily) (fs : List RoleFamily) → IsSorted fs → IsSorted (insert_family g fs)
unfolding insert_family
insert_family-IsSorted g [] h = (tt, tt)
insert_family-IsSorted g (x ∷ xs) h = elim (Bool-cases (ltb (rank x) (rank g))) [
  | inr first ↦
      let le : rank g ≤ rank x = ground arith in
      rw first ((le, All-imp xs (λ y k. omega (arith, le)) h.0), h)
  | inl later ↦
      rw (later, insert_family)
        (
          insert_family-All (λ y. rank x ≤ rank y) g xs (ground arith) h.0,
          insert_family-IsSorted g xs h.1,
        )
]

sort_families-IsSorted : (fs : List RoleFamily) → IsSorted (sort_families fs)
unfolding sort_families
sort_families-IsSorted [] = tt
sort_families-IsSorted (f ∷ fs) =
    insert_family-IsSorted f (sort_families fs) (sort_families-IsSorted fs)

-- The families named are those that the scenario needs and the role lacks, at least one of them, in
-- alphabetical order.
pub record AreMissing (spec : RoleSpec) (families named : List RoleFamily) : Type 0 where
  pub named_iff :
      (f : RoleFamily) → In f named ↔ (In f families × (In f spec.supported_role_families → ⊥))
  pub some_named : named ≢ []
  pub sorted : IsSorted named

-- What a reason claims of a role.
abbrev pub Explains : RoleSpec → ScenarioSpec → Unsupported → Type 0
Explains spec scenario (no_flow implementation role flow id) =
    (flow ≡ scenario.initiator_role) × (¬ SpeaksFlow spec flow)
Explains spec scenario (no_families implementation role named id) =
    AreMissing spec scenario.required_role_families named
Explains spec scenario (no_legacy implementation role id) =
    (scenario.requires_legacy_unencrypted ≡ true) × (spec.supports_legacy_unencrypted ≡ false)
Explains spec scenario (no_codec implementation role codec id) =
    (codec ≡ scenario.preferred_codec) × (¬ CanTransport spec codec)

missing_families-AreMissing :
    (spec : RoleSpec) (families : List RoleFamily)
    → supports_role_families spec families ≡ false
    → AreMissing spec families (missing_families spec families)
unfolding missing_families supports_role_families
missing_families-AreMissing spec families h = record {
  named_iff = λ f. named f;
  some_named = some_one;
  sorted = sort_families-IsSorted (filter (λ g. not (supports_family spec g)) families);
}
  where
    lacking : List RoleFamily
    lacking = filter (λ g. not (supports_family spec g)) families

    named :
        (f : RoleFamily)
        → In f (sort_families lacking) ↔ (In f families × (In f spec.supported_role_families → ⊥))
    named f =
        let sorted = In-sort_families_iff f lacking in
        let kept = In-filter_iff (λ g. not (supports_family spec g)) families f in
        let has = supports_family_iff spec f in
        (
          λ k. let m = kept.0 (sorted.0 k) in (m.0, λ s. absurd (ground (arith, m.1, has.1 s))),
          λ k. sorted.1 (
              kept.1 (
                k.0,
                elim (Bool-cases (supports_family spec f)) [
                  | inl yes' ↦ absurd (k.1 (has.0 yes'))
                  | inr no' ↦ rw no' refl
                ],
              )),
        )

    some_one : sort_families lacking ≢ []
    some_one e = elim (List-cases lacking) [
      | inl none' ↦
          clash
            (All-all (supports_family spec) families
              ((filter-not-nil_iff (supports_family spec) families).0 none'))
            h
      | inr (f, fs, k) ↦
          let m : In f (sort_families lacking) =
            (In-sort_families_iff f lacking).1 (rw k (inl refl)) in
          elim (rw e at m) [ ]
    ]

-- A reason that a role is given is true of it: it does not take part in the flow that the scenario
-- asks for, or the families named are exactly those that it lacks of the scenario's, or the
-- scenario needs the legacy mode and the role lacks it, or it cannot transport the codec.
pub unsupported_reason-Explains :
    (spec : RoleSpec) (implementation : String) (role : RoleName) (scenario : ScenarioSpec)
    (reason : Unsupported)
    → unsupported_reason spec implementation role scenario ≡ some reason
    → Explains spec scenario reason
unfolding unsupported_reason can_run
unsupported_reason-Explains spec implementation role scenario reason h =
    let P = Explains spec scenario in
    let needed = scenario.required_role_families in
    elim (Bool-cases (can_run spec scenario)) [
      | inl able ↦ cc (rw able at h)
      | inr unable ↦ elim (Bool-cases (supports_initiator spec scenario.initiator_role)) [
        | inr bad ↦
            subst P
              (some-injective (no_flow implementation role scenario.initiator_role scenario.id)
                reason (rw (unable, bad) at h))
              (refl, λ k. clash ((flow_iff spec scenario.initiator_role).1 k) bad)
        | inl flow ↦ elim (Bool-cases (supports_role_families spec needed)) [
          | inr bad ↦
              subst P
                (some-injective
                  (no_families implementation role (missing_families spec needed) scenario.id)
                  reason (rw (unable, flow, bad) at h))
                (missing_families-AreMissing spec needed bad)
          | inl roles ↦
              elim (Bool-cases
                (scenario.requires_legacy_unencrypted && not spec.supports_legacy_unencrypted)) [
                  | inl bad ↦
                      subst P
                        (some-injective (no_legacy implementation role scenario.id) reason
                          (rw (unable, flow, roles, bad) at h))
                        (ground (arith, bad), ground (arith, bad))
                  | inr legacy ↦
                      subst P
                        (some-injective
                          (no_codec implementation role scenario.preferred_codec scenario.id) reason
                          (rw (unable, flow, roles, legacy) at h))
                        (refl, λ k. silent flow roles legacy k unable)
                ]
        ]
      ]
    ]
  where
    silent :
        supports_initiator spec scenario.initiator_role ≡ true
        → supports_role_families spec scenario.required_role_families ≡ true
        → (scenario.requires_legacy_unencrypted && not spec.supports_legacy_unencrypted) ≡ false
        → CanTransport spec scenario.preferred_codec
        → can_run spec scenario ≡ false
        → ⊥
    silent flow roles legacy k unable =
        let codec = (codec_iff spec scenario.preferred_codec).1 k in
        ground (arith, flow, roles, legacy, codec, unable)
