-- ===== src/Matrix/Choice.antt =====
-- src/conformance/scenarios.py and implementations.py: the lookups, and which implementations take
-- part in a scenario.
pub mod Lookups
use conformance.Prelude.{
  String, ◌⊎◌, inl, inr, Bool, true, false, not, Option, none, some, List, [], ◌∷◌, map, str_eq,
  if◌then◌else◌, filter, last_with,
}
use Prim.Native.String.{compare}
use Prim.Native.Nat.{Ordering}
use conformance.Matrix.Model.{
  RoleName, server, client, RoleSpec, ImplementationSpec, ScenarioSpec, unsupported_reason,
}
use conformance.Matrix.Scenarios.{scenario_list}
use conformance.Matrix.Implementations.{implementations}

-- SCENARIOS.get(scenario_id)
unfoldable pub get_scenario : String → Option ScenarioSpec
get_scenario scenario_id = last_with (λ s. str_eq s.id scenario_id) scenario_list

-- The ValueError, with the id that it names, or the scenario.
unfoldable pub require_scenario : String → String ⊎ ScenarioSpec
unfolding get_scenario
require_scenario scenario_id = elim (get_scenario scenario_id) [
  | none ↦ inl scenario_id
  | some scenario ↦ inr scenario
]

-- IMPLEMENTATIONS.get(implementation)
unfoldable pub implementation_at : String → Option ImplementationSpec
implementation_at implementation = last_with (λ i. str_eq i.name implementation) implementations

unfoldable pub insert_name : String → List String → List String
insert_name s [] = s ∷ []
insert_name s (t ∷ ts) =
    let rest = insert_name s ts in elim (compare s t) [ Ordering.gt ↦ t ∷ rest | _ ↦ s ∷ t ∷ ts ]

unfoldable pub sort_names : List String → List String
unfolding insert_name
sort_names [] = []
sort_names (s ∷ ss) = insert_name s (sort_names ss)

unfoldable pub implementation_names : List String
unfolding sort_names
implementation_names = sort_names (map (λ i. i.name) implementations)

-- specification.server if role == "server" else specification.client
abbrev pub role_spec : ImplementationSpec → RoleName → RoleSpec
role_spec i server = i.server_spec
role_spec i client = i.client_spec

abbrev pub is_none {ℓ} : {A : Type ℓ} → Option A → Bool
is_none none = true
is_none (some a) = false

unfoldable pub role_supports_scenario : String → RoleName → ScenarioSpec → Bool
unfolding implementation_at
role_supports_scenario implementation role scenario = elim (implementation_at implementation) [
  | none ↦ false
  | some i ↦
      if not (role_spec i role).supported
      then false
      else is_none (unsupported_reason (role_spec i role) implementation role scenario)
]

-- names if names is not None else implementation_names()
unfoldable pub candidates : Option (List String) → List String
unfolding implementation_names
candidates none = implementation_names
candidates (some names) = names

unfoldable pub has_role : RoleName → String → Bool
unfolding implementation_at
has_role role implementation = elim (implementation_at implementation) [
  | none ↦ false
  | some i ↦ (role_spec i role).supported
]

unfoldable pub implementations_with_role : RoleName → Option (List String) → List String
unfolding candidates has_role
implementations_with_role role names = filter (has_role role) (candidates names)

unfoldable pub implementations_for_scenario :
    RoleName → ScenarioSpec → Option (List String) → List String
unfolding candidates role_supports_scenario
implementations_for_scenario role scenario names =
    filter (λ implementation. role_supports_scenario implementation role scenario)
      (candidates names)
