-- ===== src/Matrix/Choice/Lookups.antt =====
-- src/conformance/scenarios.py and implementations.py: what the lookups find.
use conformance.Prelude.{
  String, ◌≡◌, refl, ◌↔◌, inl, inr, true, Option, none, some, List, map, Bool-cases, Option-cases,
  In, Distinct, In-filter_iff, are_distinct-Distinct, last_with-key_iff,
}
use mathlib.Core.Option.{some-injective}
use conformance.Matrix.Model.{RoleName, ImplementationSpec, ScenarioSpec, unsupported_reason}
use conformance.Matrix.Model.Capable.{IsCapable, unsupported_reason-none_iff}
use conformance.Matrix.Scenarios.{scenario_list}
use conformance.Matrix.Choice.{
  get_scenario, implementation_at, role_spec, is_none, role_supports_scenario, candidates, has_role,
  implementations_with_role, implementations_for_scenario,
}

scenario_ids-Distinct : Distinct (map (λ s. s.id) scenario_list)
scenario_ids-Distinct = are_distinct-Distinct (map (λ s. s.id) scenario_list) refl

-- The scenario at an id is the one scenario of the list with that id: no two scenarios share one.
pub get_scenario-some_iff :
    (scenario_id : String) (scenario : ScenarioSpec)
    → (get_scenario scenario_id ≡ some scenario)
      ↔ (In scenario scenario_list × (scenario.id ≡ scenario_id))
unfolding get_scenario
get_scenario-some_iff scenario_id scenario =
    last_with-key_iff (λ s. s.id) scenario_id scenario_list scenario scenario_ids-Distinct

is_none_iff {ℓ} : {A : Type ℓ} (o : Option A) → (is_none o ≡ true) ↔ (o ≡ none)
is_none_iff none = (λ h. refl, λ h. refl)
is_none_iff (some a) = (λ h. cc, λ h. cc)

supports_iff :
    (name : String) (role : RoleName) (scenario : ScenarioSpec)
    → (role_supports_scenario name role scenario ≡ true) ↔ (
        (has_role role name ≡ true)
        × ((i : ImplementationSpec) × (implementation_at name ≡ some i)
            × IsCapable (role_spec i role) scenario))
unfolding role_supports_scenario has_role
supports_iff name role scenario = elim (Option-cases (implementation_at name)) [
  | inl unknown ↦ rw (unknown, role_supports_scenario, has_role) (λ h. cc, λ h. cc (h.0))
  | inr (i, known) ↦
      let able = unsupported_reason-none_iff (role_spec i role) name role scenario in
      let reason = unsupported_reason (role_spec i role) name role scenario in
      elim (Bool-cases (role_spec i role).supported) [
        | inr no_role ↦
            rw (known, role_supports_scenario, has_role, no_role) (λ h. cc, λ h. cc (h.0))
        | inl has ↦
            rw (known, role_supports_scenario, has_role, has)
              (
                λ h. (refl, (i, refl, able.0 ((is_none_iff reason).0 h))),
                λ h. (is_none_iff reason).1 (able.1 (capable i h.1)),
              )
      ]
]
  where
    capable :
        (i : ImplementationSpec)
        → ((k : ImplementationSpec) × ◌≡◌ {A = Option ImplementationSpec} (some i) (some k)
            × IsCapable (role_spec k role) scenario)
        → IsCapable (role_spec i role) scenario
    capable i (k, e, h) = rw (some-injective i k e) h

-- The implementations that take part in a scenario are exactly those with the role whose entry in
-- the registry meets what the scenario needs.
pub implementations_for_scenario_iff :
    (role : RoleName) (scenario : ScenarioSpec) (names : Option (List String)) (name : String)
    → In name (implementations_for_scenario role scenario names) ↔ (
        In name (implementations_with_role role names)
        × ((i : ImplementationSpec) × (implementation_at name ≡ some i)
            × IsCapable (role_spec i role) scenario))
unfolding implementations_for_scenario implementations_with_role
implementations_for_scenario_iff role scenario names name =
    let runs =
      In-filter_iff (λ n. role_supports_scenario n role scenario) (candidates names) name in
    let plays = In-filter_iff (has_role role) (candidates names) name in
    let both = supports_iff name role scenario in
    (
      λ h. let k = runs.0 h in let m = both.0 k.1 in (plays.1 (k.0, m.0), m.1),
      λ h. let k = plays.0 h.0 in runs.1 (k.0, both.1 (k.1, h.1)),
    )
