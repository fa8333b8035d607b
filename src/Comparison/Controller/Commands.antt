-- ===== src/Comparison/Controller/Commands.antt =====
-- src/conformance/runner.py: when _compare_controller_supported_commands passes.
use conformance.Prelude.{
  ◌≡◌, refl, ◌↔◌, inl, inr, Bool, true, false, ◌&&◌, some, List, [], ◌∷◌, arith, if◌then◌else◌,
  Bool-cases, all, All, All-all, all-All,
}
use conformance.Json.{Value, Fields, get, find, as_list}
use conformance.Json.Python.{Python}
use conformance.Comparison.Outcome.{ModeFailure, Outcome, raised, passed, found_iff}
use conformance.Comparison.Controller.{
  is_hashable, is_sortable, is_among, difference, judge_differences, compare_commands,
  compare_controller_supported_commands,
}

module _ ⦃py : Python⦄ where
  -- Every value of the first list is in the second.
  abbrev pub IsWithin : List Value → List Value → Type 0
  IsWithin values others = All (λ v. is_among v others ≡ true) values

  difference-nil_iff :
      (values others : List Value) → (difference values others ≡ []) ↔ IsWithin values others
  unfolding difference
  difference-nil_iff [] others = (λ h. tt, λ h. refl)
  difference-nil_iff (v ∷ vs) others =
      let rest = difference-nil_iff vs others in
      elim (Bool-cases (is_among v others)) [
        | inl y ↦ rw (y, difference) (λ h. (refl, rest.0 h), λ h. rest.1 h.1)
        | inr n ↦ elim (Bool-cases (is_among v (difference vs others))) [
          | inl again ↦ rw (n, again, difference) (λ h. cc (rw h at again), λ h. cc (h.0))
          | inr new ↦ rw (n, new, difference) (λ h. cc, λ h. cc (h.0))
        ]
      ]

module _ ⦃py : Python⦄ (advertised observed : List Value) where
  pub record SameCommands : Type 0 where
    pub advertised_hashable : All (λ v. is_hashable v ≡ true) advertised
    pub observed_hashable : All (λ v. is_hashable v ≡ true) observed
    pub unobserved : IsWithin advertised observed
    pub unadvertised : IsWithin observed advertised

module _ ⦃py : Python⦄ where
  judge_differences_iff :
      (vs ws : List Value) → (judge_differences vs ws ≡ passed tt) ↔ ((vs ≡ []) × (ws ≡ []))
  unfolding judge_differences
  judge_differences_iff [] [] = (λ h. (refl, refl), λ h. refl)
  judge_differences_iff (v ∷ vs) ws = (λ h. cc, λ h. cc (h.0))
  judge_differences_iff [] (w ∷ ws) = (λ h. cc, λ h. cc (h.1))

  tested_iff :
      (b : Bool) (o : Outcome ModeFailure Unit)
      → ((if b then o else raised) ≡ passed tt) ↔ ((b ≡ true) × (o ≡ passed tt))
  tested_iff true o = (λ h. (refl, h), λ h. h.1)
  tested_iff false o = (λ h. cc, λ h. cc (h.0))

  compare_commands_iff :
      (advertised observed : List Value)
      → (compare_commands advertised observed ≡ passed tt) ↔ SameCommands advertised observed
  unfolding compare_commands
  compare_commands_iff advertised observed =
      let first = difference-nil_iff advertised observed in
      let second = difference-nil_iff observed advertised in
      let judged =
        judge_differences_iff (difference advertised observed) (difference observed advertised) in
      let whole =
        tested_iff
          (all is_hashable advertised
            && all is_hashable observed
            && is_sortable (difference advertised observed)
            && is_sortable (difference observed advertised))
          (judge_differences (difference advertised observed) (difference observed advertised)) in
      (
        λ h.
            let k = whole.0 h in
            let nil = judged.0 k.1 in
            record {
              advertised_hashable = all-All is_hashable advertised (ground (arith, k.0));
              observed_hashable = all-All is_hashable observed (ground (arith, k.0));
              unobserved = first.0 nil.0;
              unadvertised = second.0 nil.1;
            },
        λ h.
            let nil = first.1 h.unobserved in
            let nil' = second.1 h.unadvertised in
            whole.1 (
              rw
                  (
                    nil,
                    nil',
                    All-all is_hashable advertised h.advertised_hashable,
                    All-all is_hashable observed h.observed_hashable,
                  )
                  refl,
              judged.1 (nil, nil'),
            ),
      )

  -- The commands of the two summaries agree exactly when both have a list of them, no command of
  -- either is a list or an object, each command that the server advertised is among those that the
  -- client observed, and each that the client observed is among those advertised.
  pub compare_controller_supported_commands_iff :
      (server_controller received_state : Fields)
      → (compare_controller_supported_commands server_controller received_state ≡ passed tt) ↔ (
          (advertised : List Value) × (as_list (get "supported_commands" server_controller)
            ≡ some advertised)
          × ((commands : Value) × (find "supported_commands" received_state ≡ some commands)
              × ((observed : List Value) × (as_list commands ≡ some observed)
                  × SameCommands advertised observed)))
  unfolding compare_controller_supported_commands
  compare_controller_supported_commands_iff server_controller received_state =
      found_iff tt _ _ (as_list (get "supported_commands" server_controller)) λ advertised.
        found_iff tt _ _ (find "supported_commands" received_state) λ commands.
          found_iff tt _ _ (as_list commands) λ observed. compare_commands_iff advertised observed
