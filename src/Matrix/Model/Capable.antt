-- ===== src/Matrix/Model/Capable.antt =====
-- src/conformance/models.py: when RoleSpec.unsupported_reason names a reason.
use conformance.Prelude.{
  String, ◌≡◌, refl, sym, ◌∙◌, ◌↔◌, inl, inr, true, none, List, arith, str_eq, eq_iff, Bool-cases,
  All, In, Any-imp, All-imp, Any-any, All-all, clash, all-All, any-Any,
}
use conformance.Matrix.Model.{
  RoleName, server, client, RoleFamily, player, metadata, controller, artwork, RoleSpec,
  ScenarioSpec, same_family, supports_initiator, supports_codec, supports_family,
  supports_role_families, can_run, unsupported_reason,
}

same_family_iff : (f g : RoleFamily) → (same_family f g ≡ true) ↔ (g ≡ f)
same_family_iff player player = (λ h. refl, λ h. refl)
same_family_iff player metadata = (λ h. cc, λ h. cc)
same_family_iff player controller = (λ h. cc, λ h. cc)
same_family_iff player artwork = (λ h. cc, λ h. cc)
same_family_iff metadata player = (λ h. cc, λ h. cc)
same_family_iff metadata metadata = (λ h. refl, λ h. refl)
same_family_iff metadata controller = (λ h. cc, λ h. cc)
same_family_iff metadata artwork = (λ h. cc, λ h. cc)
same_family_iff controller player = (λ h. cc, λ h. cc)
same_family_iff controller metadata = (λ h. cc, λ h. cc)
same_family_iff controller controller = (λ h. refl, λ h. refl)
same_family_iff controller artwork = (λ h. cc, λ h. cc)
same_family_iff artwork player = (λ h. cc, λ h. cc)
same_family_iff artwork metadata = (λ h. cc, λ h. cc)
same_family_iff artwork controller = (λ h. cc, λ h. cc)
same_family_iff artwork artwork = (λ h. refl, λ h. refl)

pub supports_family_iff :
    (spec : RoleSpec) (f : RoleFamily)
    → (supports_family spec f ≡ true) ↔ In f spec.supported_role_families
supports_family_iff spec f = (
  λ h.
      Any-imp spec.supported_role_families (λ g e. (same_family_iff f g).0 e)
        (any-Any (same_family f) spec.supported_role_families h),
  λ h.
      Any-any (same_family f) spec.supported_role_families
        (Any-imp spec.supported_role_families (λ g e. (same_family_iff f g).1 e) h),
)

-- What a scenario needs of a role, said without the tests of the code.
abbrev pub SpeaksFlow : RoleSpec → RoleName → Type 0
SpeaksFlow spec server = spec.supports_server_initiated ≡ true
SpeaksFlow spec client = spec.supports_client_initiated ≡ true

pub record CanTransport (spec : RoleSpec) (codec : String) : Type 0 where
  pub flac : codec ≡ "flac" → spec.supports_flac ≡ true
  pub opus : codec ≡ "opus" → spec.supports_opus ≡ true

abbrev pub PlaysRoles : RoleSpec → List RoleFamily → Type 0
PlaysRoles spec families = All (λ f. In f spec.supported_role_families) families

pub record IsCapable (spec : RoleSpec) (scenario : ScenarioSpec) : Type 0 where
  pub flow : SpeaksFlow spec scenario.initiator_role
  pub transport : CanTransport spec scenario.preferred_codec
  pub roles : PlaysRoles spec scenario.required_role_families
  pub legacy : scenario.requires_legacy_unencrypted ≡ true → spec.supports_legacy_unencrypted ≡ true

pub flow_iff :
    (spec : RoleSpec) (r : RoleName) → (supports_initiator spec r ≡ true) ↔ SpeaksFlow spec r
unfolding supports_initiator
flow_iff spec server = (λ h. h, λ h. h)
flow_iff spec client = (λ h. h, λ h. h)

pub codec_iff :
    (spec : RoleSpec) (codec : String)
    → (supports_codec spec codec ≡ true) ↔ CanTransport spec codec
unfolding supports_codec
codec_iff spec codec = elim (Bool-cases (str_eq codec "flac")) [
  | inl flac ↦
      let e = (eq_iff codec "flac").0 flac in
      rw flac (
        λ h. record {
          flac = λ _. h;
          opus = λ k. absurd (clash ((eq_iff "opus" "flac").1 (sym k ∙ e)) refl);
        },
        λ h. h.flac e,
      )
  | inr other ↦ elim (Bool-cases (str_eq codec "opus")) [
    | inl opus ↦
        let e = (eq_iff codec "opus").0 opus in
        rw (other, opus)
          (
            λ h. record {
              flac = λ k. absurd (clash ((eq_iff "flac" "opus").1 (sym k ∙ e)) refl);
              opus = λ _. h;
            },
            λ h. h.opus e,
          )
    | inr neither ↦
        rw (other, neither)
          (
            λ h. record {
              flac = λ k. absurd (clash ((eq_iff codec "flac").1 k) other);
              opus = λ k. absurd (clash ((eq_iff codec "opus").1 k) neither);
            },
            λ h. refl,
          )
  ]
]

pub roles_iff :
    (spec : RoleSpec) (families : List RoleFamily)
    → (supports_role_families spec families ≡ true) ↔ PlaysRoles spec families
unfolding supports_role_families
roles_iff spec families = (
  λ h.
      All-imp families (λ f e. (supports_family_iff spec f).0 e)
        (all-All (supports_family spec) families h),
  λ h.
      All-all (supports_family spec) families
        (All-imp families (λ f e. (supports_family_iff spec f).1 e) h),
)

pub can_run_iff :
    (spec : RoleSpec) (scenario : ScenarioSpec)
    → (can_run spec scenario ≡ true) ↔ IsCapable spec scenario
unfolding can_run
can_run_iff spec scenario =
    let flow = flow_iff spec scenario.initiator_role in
    let codec = codec_iff spec scenario.preferred_codec in
    let roles = roles_iff spec scenario.required_role_families in
    (
      λ h. record {
        flow = flow.0 (ground (arith, h));
        transport = codec.0 (ground (arith, h));
        roles = roles.0 (ground (arith, h));
        legacy = λ k. ground (arith, h, k);
      },
      λ h. ground (arith, flow.1 h.flow, codec.1 h.transport, roles.1 h.roles, h.legacy),
    )

-- A role is given no reason exactly when it can be launched the way the scenario asks, can
-- transport the scenario's codec, plays every role family that the scenario needs, and has the
-- legacy mode where the scenario needs it.
pub unsupported_reason-none_iff :
    (spec : RoleSpec) (implementation : String) (role : RoleName) (scenario : ScenarioSpec)
    → (unsupported_reason spec implementation role scenario ≡ none) ↔ IsCapable spec scenario
unfolding unsupported_reason
unsupported_reason-none_iff spec implementation role scenario =
    let both = can_run_iff spec scenario in
    elim (Bool-cases (can_run spec scenario)) [
      | inl able ↦ rw able (λ h. both.0 able, λ h. refl)
      | inr unable ↦ rw unable (λ h. cc, λ h. absurd (clash (both.1 h) unable))
    ]
