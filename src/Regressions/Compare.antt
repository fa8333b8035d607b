-- ===== src/Regressions/Compare.antt =====
-- scripts/detect_regressions.py: what it takes for two rows to be compared.
use conformance.Prelude.{
  String, ◌≡◌, refl, sym, ◌∙◌, ◌↔◌, ◌⊎◌, inl, inr, true, false, Option, none, some, List, [], ◌∷◌,
  Bool-cases, Option-cases, is_empty, All, clash,
}
use Prim.Native.String.{compare}
use Prim.Native.Nat.{Ordering}
use mathlib.Core.Option.{some-injective}
use conformance.Json.{Value}
use conformance.Json.Python.{Python, same_value}
use conformance.Regressions.{
  Row, baseline_stamps_revisions, has_number, add_id, missing_revisions, require_scenario_revisions,
  Exemption, predates_stamping, revision_changed, compare_revisions, exemption_reason,
}

module _ ⦃py : Python⦄ where
  -- Both rows carry the same revision, or the published row has none though others have one.
  abbrev pub Comparable : List Row → Row → Row → Type 0
  Comparable baseline b r =
      ((b.scenario_revision ≡ none) × (baseline_stamps_revisions baseline ≡ true))
      ⊎ ((v : Value) × (w : Value) × (b.scenario_revision ≡ some v)
          × (r.scenario_revision ≡ some w)
          × (same_value v w ≡ true))

  -- What each reason to exempt a row says.
  abbrev pub Because : List Row → Row → Row → Exemption → Type 0
  Because baseline b r predates_stamping =
      (b.scenario_revision ≡ none) × (baseline_stamps_revisions baseline ≡ false)
  Because baseline b r revision_changed =
      (v : Value) × (w : Value) × (b.scenario_revision ≡ some v)
      × (r.scenario_revision ≡ some w)
      × (same_value v w ≡ false)

  pub record Judged (baseline : List Row) (b r : Row) : Type 0 where
    pub outcome : Option Exemption
    pub reads : exemption_reason b r (baseline_stamps_revisions baseline) ≡ some outcome
    pub comparable_iff : (outcome ≡ none) ↔ Comparable baseline b r
    pub because_iff : (x : Exemption) → (outcome ≡ some x) ↔ Because baseline b r x

  pub judge :
      (baseline : List Row) (b r : Row)
      → has_number r.scenario_revision ≡ true
      → Judged baseline b r
  unfolding exemption_reason compare_revisions
  judge baseline b r h = elim (Option-cases r.scenario_revision) [
    | inl absent ↦ cc (rw absent at h)
    | inr (w, present) ↦ elim (Option-cases b.scenario_revision) [
      | inl old ↦ elim (Bool-cases (baseline_stamps_revisions baseline)) [
        | inl stamped ↦ record {
          outcome = none;
          reads = rw (old, stamped) refl;
          comparable_iff = (λ e. inl (old, stamped), λ e. refl);
          because_iff = elim [
            | predates_stamping ↦ (λ e. cc, λ e. cc (e.1, stamped))
            | revision_changed ↦ (λ e. cc, λ e. cc (e.2, old))
          ];
        }
        | inr unstamped ↦ record {
          outcome = some predates_stamping;
          reads = rw (old, unstamped) refl;
          comparable_iff = (λ e. cc, elim [ inl e ↦ cc (e.1, unstamped) | inr e ↦ cc (e.2, old) ]);
          because_iff = elim [
            | predates_stamping ↦ (λ e. (old, unstamped), λ e. refl)
            | revision_changed ↦ (λ e. cc, λ e. cc (e.2, old))
          ];
        }
      ]
      | inr (v, new) ↦ elim (Bool-cases (same_value v w)) [
        | inl same ↦ record {
          outcome = none;
          reads = rw (new, present, same) refl;
          comparable_iff = (λ e. inr (v, w, new, present, same), λ e. refl);
          because_iff = elim [
            | predates_stamping ↦ (λ e. cc, λ e. cc (e.0, new))
            | revision_changed ↦ (λ e. cc, λ e. absurd (differs v w new present same e))
          ];
        }
        | inr other ↦ record {
          outcome = some revision_changed;
          reads = rw (new, present, other) refl;
          comparable_iff = (
            λ e. cc,
            elim [ inl e ↦ cc (e.0, new) | inr e ↦ absurd (agrees v w new present other e) ],
          );
          because_iff = elim [
            | predates_stamping ↦ (λ e. cc, λ e. cc (e.0, new))
            | revision_changed ↦ (λ e. (v, w, new, present, other), λ e. refl)
          ];
        }
      ]
    ]
  ]
    where
      differs :
          (v w : Value)
          → b.scenario_revision ≡ some v
          → r.scenario_revision ≡ some w
          → same_value v w ≡ true
          → Because baseline b r revision_changed
          → ⊥
      differs v w new present same (v', w', e, f, other) =
          let p : v ≡ v' = some-injective v v' (sym new ∙ e) in
          let q : w ≡ w' = some-injective w w' (sym present ∙ f) in clash same (rw (p, q) other)

      agrees :
          (v w : Value)
          → b.scenario_revision ≡ some v
          → r.scenario_revision ≡ some w
          → same_value v w ≡ false
          → ((v' : Value) × (w' : Value) × (b.scenario_revision ≡ some v')
              × (r.scenario_revision ≡ some w')
              × (same_value v' w' ≡ true))
          → ⊥
      agrees v w new present other (v', w', e, f, same) =
          let p : v ≡ v' = some-injective v v' (sym new ∙ e) in
          let q : w ≡ w' = some-injective w w' (sym present ∙ f) in clash (rw (p, q) same) other

add_id-some : (s : String) (ss : List String) → is_empty (add_id s ss) ≡ false
unfolding add_id
add_id-some s [] = refl
add_id-some s (t ∷ ts) = decided (compare s t)
  where
    decided :
        (o : Ordering)
        → is_empty (elim o [
          | Ordering.lt ↦ s ∷ t ∷ ts
          | Ordering.eq ↦ t ∷ ts
          | Ordering.gt ↦ t ∷ add_id s ts
        ])
          ≡ false
    decided Ordering.lt = refl
    decided Ordering.eq = refl
    decided Ordering.gt = refl

missing_revisions-none_iff :
    (current : List Row)
    → (is_empty (missing_revisions current) ≡ true)
      ↔ All (λ r. has_number r.scenario_revision ≡ true) current
unfolding missing_revisions
missing_revisions-none_iff [] = (λ h. tt, λ h. refl)
missing_revisions-none_iff (r ∷ rs) =
    let rest = missing_revisions-none_iff rs in
    elim (Bool-cases (has_number r.scenario_revision)) [
      | inl fine ↦ rw (fine, missing_revisions) (λ h. (refl, rest.0 h), λ h. rest.1 h.1)
      | inr bad ↦
          rw bad (
            λ h. absurd (clash h (add_id-some r.scenario_id (missing_revisions rs))),
            λ h. cc (h.0),
          )
    ]

-- The run is accepted exactly when every row carries an integer as its revision.
pub require_scenario_revisions-none_iff :
    (current : List Row)
    → (require_scenario_revisions current ≡ none)
      ↔ All (λ r. has_number r.scenario_revision ≡ true) current
unfolding require_scenario_revisions
require_scenario_revisions-none_iff current =
    let both = missing_revisions-none_iff current in
    elim (Bool-cases (is_empty (missing_revisions current))) [
      | inl fine ↦ rw fine (λ h. both.0 fine, λ h. refl)
      | inr bad ↦ rw bad (λ h. cc, λ h. absurd (clash (both.1 h) bad))
    ]
