-- ===== src/Protocol/Activation/Conforms.antt =====
-- When activation_violation of src/conformance/protocol.py passes a server/activate.
use conformance.Prelude.{
  ◌≤◌, String, ◌≡◌, refl, sym, ◌∙◌, ◌≢◌, ◌↔◌, ◌⊎◌, inl, inr, true, false, Option, none, some, List,
  [], ◌∷◌, ◌++◌, map, arith, str_eq, eq_iff, ◌==◌, Bool-cases, Option-cases, length, any, All,
  All-not_Any, All-imp, any-none, Distinct, clash, any-Any,
}
use mathlib.Core.Path.{subst}
use mathlib.Core.Option.{some-injective}
use conformance.Json.{Value, str, obj, arr, items, Items, Fields, find, get}
use conformance.Protocol.Activation.{
  rc1_activity, rc1_activities, to_set, unique_activities, is_rc1_activity_set, activities_defects,
  roles_defects, payload_defects, defects_reason, judge_activation, activation_violation,
}

abbrev pub IsActivity : String → Type 0
IsActivity s = (s ≡ "pairing") ⊎ (s ≡ "playback")

-- A list of different texts, each of them an activity that RC1 defines.
pub record IsActivitySet (v : Value) : Type 0 where
  pub entries : Items
  pub texts : List String
  pub is_list : v ≡ arr entries
  pub are_texts : items entries ≡ map str texts
  pub defined : All IsActivity texts
  pub different : Distinct texts

to_set-le : (ss : List String) → length (to_set ss) ≤ length ss
unfolding to_set
to_set-le [] = omega arith
to_set-le (s ∷ ss) = ground (arith, to_set-le ss)

differs : (s t : String) → str_eq s t ≡ false → s ≢ t
differs s t h e = clash ((eq_iff s t).1 e) h

unique_iff : (ss : List String) → ((length (to_set ss) == length ss) ≡ true) ↔ Distinct ss
unfolding to_set
unique_iff [] = (λ h. tt, λ h. refl)
unique_iff (s ∷ ss) =
    let rest = unique_iff ss in
    elim (Bool-cases (any (str_eq s) ss)) [
      | inl twice ↦ rw twice (
        λ h. absurd (ground (arith, to_set-le ss)),
        λ h.
            absurd
              (All-not_Any ss (λ t ne e. ne ((eq_iff s t).0 e)) h.0 (any-Any (str_eq s) ss twice)),
      )
      | inr once ↦ rw once (
        λ h. (All-imp ss (differs s) (any-none (str_eq s) ss once), rest.0 (ground arith)),
        λ h. ground (arith, rest.1 h.1),
      )
    ]

IsActivity-iff : (v : Value) (s : String) → (rc1_activity v ≡ some s) ↔ ((v ≡ str s) × IsActivity s)
unfolding rc1_activity
IsActivity-iff (str t) s = (
  λ h. (ground (arith), ground (arith, eq_iff t "pairing", eq_iff t "playback")),
  λ h. ground (arith, eq_iff t "pairing", eq_iff t "playback"),
)
IsActivity-iff _ s = (λ h. cc, λ h. cc (h.0))

activities_sound :
    (vs : List Value) (ss : List String)
    → rc1_activities vs ≡ some ss
    → (vs ≡ map str ss) × All IsActivity ss
unfolding rc1_activities
activities_sound [] ss h =
    subst (λ l. ([] ≡ map str l) × All IsActivity l) (some-injective [] ss h) (refl, tt)
activities_sound (v ∷ vs) ss h = elim (Option-cases (rc1_activity v)) [
  | inl bad ↦ cc (rw bad at h)
  | inr (s, good) ↦ elim (Option-cases (rc1_activities vs)) [
    | inl bad ↦ cc (rw (good, bad) at h)
    | inr (rest, fine) ↦
        let first = (IsActivity-iff v s).0 good in
        let later = activities_sound vs rest fine in
        subst (λ l. ((v ∷ vs) ≡ map str l) × All IsActivity l)
          (some-injective (s ∷ rest) ss (rw (good, fine) at h))
          (cc (first.0, later.0), (first.1, later.1))
  ]
]

activities_complete :
    (vs : List Value) (ss : List String)
    → vs ≡ map str ss
    → All IsActivity ss
    → rc1_activities vs ≡ some ss
unfolding rc1_activities
activities_complete [] [] e h = refl
activities_complete [] (s ∷ ss) e h = cc
activities_complete (v ∷ vs) [] e h = cc
activities_complete (v ∷ vs) (s ∷ ss) e h =
    let good : rc1_activity v ≡ some s = (IsActivity-iff v s).1 (cc, h.0) in
    let rest : rc1_activities vs ≡ some ss = activities_complete vs ss (cc) h.1 in rw (good, rest)

-- _is_rc1_activity_set holds exactly of a list of texts, each of them pairing or playback and none
-- twice.
pub is_rc1_activity_set_iff : (v : Value) → (is_rc1_activity_set v ≡ true) ↔ IsActivitySet v
unfolding is_rc1_activity_set
is_rc1_activity_set_iff (arr vs) = (
  λ h. elim (Option-cases (rc1_activities (items vs))) [
    | inl bad ↦ cc (rw bad at h)
    | inr (ss, good) ↦
        let both = activities_sound (items vs) ss good in
        record {
          entries = vs;
          texts = ss;
          is_list = refl;
          are_texts = both.0;
          defined = both.1;
          different = (unique_iff ss).0 (rw (good, unique_activities) at h);
        }
  ],
  λ h.
      let same : vs ≡ h.entries = cc (h.is_list) in
      let good = activities_complete (items vs) h.texts (rw same h.are_texts) h.defined in
      rw (good, unique_activities) ((unique_iff h.texts).1 h.different),
)
is_rc1_activity_set_iff _ = (λ h. cc, λ h. cc (h.is_list))

-- What RC1 requires of the payload of the first server/activate.
pub record IsActivation (payload : Fields) : Type 0 where
  pub activities : Value
  pub names_activities : find "activities" payload ≡ some activities
  pub activity_set : IsActivitySet activities
  pub active_roles : Value
  pub names_roles : find "active_roles" payload ≡ some active_roles

-- The same over the two fields as they were found.
judge_fields :
    (payload : Fields) (a r : Option Value)
    → find "activities" payload ≡ a
    → find "active_roles" payload ≡ r
    → (defects_reason (activities_defects a ++ roles_defects r) ≡ none) ↔ IsActivation payload
unfolding defects_reason activities_defects roles_defects
judge_fields payload none r e f = (λ h. cc, λ h. cc (e, h.names_activities))
judge_fields payload (some v) r e f = elim (Bool-cases (is_rc1_activity_set v)) [
  | inr bad ↦ rw bad (λ h. cc, λ h. absurd (wrong v e bad h))
  | inl good ↦ rw good (judge_roles v r e f ((is_rc1_activity_set_iff v).0 good))
]
  where
    wrong :
        (v : Value)
        → find "activities" payload ≡ some v
        → is_rc1_activity_set v ≡ false
        → IsActivation payload
        → ⊥
    wrong v e bad h =
        let same : v ≡ h.activities = some-injective v h.activities (sym e ∙ h.names_activities) in
        clash ((is_rc1_activity_set_iff v).1 (rw same h.activity_set)) bad

    judge_roles :
        (v : Value) (r : Option Value)
        → find "activities" payload ≡ some v
        → find "active_roles" payload ≡ r
        → IsActivitySet v
        → (defects_reason (roles_defects r) ≡ none) ↔ IsActivation payload
    judge_roles v none e f good = (λ h. cc, λ h. cc (f, h.names_roles))
    judge_roles v (some roles) e f good = (
      λ h. record {
        activities = v;
        names_activities = e;
        activity_set = good;
        active_roles = roles;
        names_roles = f;
      },
      λ h. refl,
    )

payload_iff :
    (payload : Fields) → (defects_reason (payload_defects payload) ≡ none) ↔ IsActivation payload
unfolding payload_defects
payload_iff payload = judge_fields payload _ _ refl refl

module _ (server activation payload : Fields)
    (recorded : find "activation" server ≡ some (obj activation))
    (typed : get "type" activation ≡ str "server/activate")
    (carried : get "payload" activation ≡ obj payload) where
  -- A recorded server/activate with a payload passes exactly when its activities are a list of
  -- different texts out of pairing and playback, and it names its active roles.
  pub activation_violation-none_iff : (activation_violation server ≡ none) ↔ IsActivation payload
  unfolding activation_violation
  activation_violation-none_iff =
      rw (recorded, judge_activation, typed, carried) (payload_iff payload)
