-- ===== src/Matrix/Model.antt =====
-- src/conformance/models.py: what an implementation can do, and what a scenario asks for. The
-- descriptions of the scenarios, which are prose, are left out.
pub mod Capable
pub mod Reasons
use conformance.Prelude.{
  ℕ, String, Bool, true, false, not, ◌&&◌, ◌||◌, Option, none, some, List, [], ◌∷◌, str_eq, ltb,
  if◌then◌else◌, all, any, filter,
}

-- Literal["server", "client"], which is both InitiatorRole and RoleName.
pub data RoleName : Type 0 where
  server client : RoleName

pub data AdapterKind : Type 0 where
  python dotnet node cargo swift go cmake placeholder no_adapter : AdapterKind

pub data RoleFamily : Type 0 where
  player metadata controller artwork : RoleFamily

pub data VerificationMode : Type 0 where
  audio_pcm audio_encoded_bytes metadata_mode controller_mode artwork_mode : VerificationMode
  format_preference protocol audio_chunk_framing : VerificationMode

pub record RoleSpec : Type 0 where
  pub supported : Bool
  pub adapter_kind : AdapterKind
  pub build_adapter : Option String
  pub entrypoint : Option String
  pub supports_server_initiated : Bool
  pub supports_client_initiated : Bool
  pub supports_flac : Bool
  pub supports_opus : Bool
  pub supports_discovery : Bool
  pub supports_legacy_unencrypted : Bool
  pub supported_role_families : List RoleFamily
  pub reason : Option String

pub record ImplementationSpec : Type 0 where
  pub name : String
  pub display_name : String
  pub repo_dirname : String
  pub remote_url : String
  pub client_spec : RoleSpec
  pub server_spec : RoleSpec

pub record ScenarioSpec : Type 0 where
  pub id : String
  pub display_name : String
  pub initiator_role : RoleName
  pub preferred_codec : String
  pub required_role_families : List RoleFamily
  pub verification_mode : VerificationMode
  pub scenario_revision : ℕ
  pub requires_legacy_unencrypted : Bool
  pub verifies_format_priority : Bool
  pub verifies_stream_bit_depth : Option ℕ
  pub extra_cli_args : List (String × String)
  pub protocol_assertions : List String

abbrev pub same_family : RoleFamily → RoleFamily → Bool
same_family player player = true
same_family metadata metadata = true
same_family controller controller = true
same_family artwork artwork = true
same_family _ _ = false

unfoldable pub supports_initiator : RoleSpec → RoleName → Bool
supports_initiator spec server = spec.supports_server_initiated
supports_initiator spec client = spec.supports_client_initiated

unfoldable pub supports_codec : RoleSpec → String → Bool
supports_codec spec codec =
    if str_eq codec "flac"
    then spec.supports_flac
    else if str_eq codec "opus"
    then spec.supports_opus
    else true

-- role_family in set(self.supported_role_families)
abbrev pub supports_family : RoleSpec → RoleFamily → Bool
supports_family spec family = any (same_family family) spec.supported_role_families

unfoldable pub supports_role_families : RoleSpec → List RoleFamily → Bool
supports_role_families spec families = all (supports_family spec) families

-- sorted(missing): the alphabetical order of the names of the families.
abbrev pub rank : RoleFamily → ℕ
rank artwork = 0
rank controller = 1
rank metadata = 2
rank player = 3

unfoldable pub insert_family : RoleFamily → List RoleFamily → List RoleFamily
insert_family f [] = f ∷ []
insert_family f (g ∷ gs) =
    let rest = insert_family f gs in if ltb (rank g) (rank f) then g ∷ rest else f ∷ g ∷ gs

unfoldable pub sort_families : List RoleFamily → List RoleFamily
unfolding insert_family
sort_families [] = []
sort_families (f ∷ fs) = insert_family f (sort_families fs)

unfoldable pub missing_families : RoleSpec → List RoleFamily → List RoleFamily
unfolding sort_families
missing_families spec families =
    sort_families (filter (λ family. not (supports_family spec family)) families)

-- The four texts, with the values that stand in them: the implementation, its role, what it lacks,
-- and the scenario's id.
pub data Unsupported : Type 0 where
  no_flow : String → RoleName → RoleName → String → Unsupported
  no_families : String → RoleName → List RoleFamily → String → Unsupported
  no_legacy : String → RoleName → String → Unsupported
  no_codec : String → RoleName → String → String → Unsupported

unfoldable pub can_run : RoleSpec → ScenarioSpec → Bool
unfolding supports_initiator supports_codec supports_role_families
can_run spec scenario =
    supports_initiator spec scenario.initiator_role
    && supports_codec spec scenario.preferred_codec
    && supports_role_families spec scenario.required_role_families
    && (spec.supports_legacy_unencrypted || not scenario.requires_legacy_unencrypted)

unfoldable pub unsupported_reason : RoleSpec → String → RoleName → ScenarioSpec → Option Unsupported
unfolding can_run missing_families supports_initiator supports_role_families
unsupported_reason spec implementation role scenario =
    if can_run spec scenario
    then none
    else some (
        if not (supports_initiator spec scenario.initiator_role)
        then no_flow implementation role scenario.initiator_role scenario.id
        else if not (supports_role_families spec scenario.required_role_families)
        then no_families implementation role (missing_families spec scenario.required_role_families)
            scenario.id
        else if scenario.requires_legacy_unencrypted && not spec.supports_legacy_unencrypted
        then no_legacy implementation role scenario.id
        else no_codec implementation role scenario.preferred_codec scenario.id)
