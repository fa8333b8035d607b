-- ===== src/Protocol/Activation.antt =====
-- src/conformance/protocol.py: activation_violation, which judges the initial server/activate that the
-- server's adapter recorded.
pub mod Conforms
use conformance.Prelude.{
  String, Bool, false, ◌||◌, Option, none, some, List, [], ◌∷◌, ◌++◌, str_eq, ◌==◌, if◌then◌else◌,
  ◌>>=◌, length, any,
}
use conformance.Json.{Value, null, str, obj, arr, items, Fields, find, get, is_text}

pub data ActivationDefect : Type 0 where
  omitted_activities : ActivationDefect
  undefined_activities : Value → ActivationDefect
  omitted_active_roles : ActivationDefect

pub data ActivationReason : Type 0 where
  no_activation : ActivationReason
  defective : List ActivationDefect → ActivationReason

-- An activity that RC1 defines, RC1_ACTIVITIES
unfoldable pub rc1_activity : Value → Option String
rc1_activity (str s) = if str_eq s "pairing" || str_eq s "playback" then some s else none
rc1_activity _ = none

unfoldable pub rc1_activities : List Value → Option (List String)
unfolding rc1_activity
rc1_activities [] = some []
rc1_activities (v ∷ vs) = do s ← rc1_activity v; ss ← rc1_activities vs; some (s ∷ ss)

-- set(activities): each text once
unfoldable pub to_set : List String → List String
to_set [] = []
to_set (s ∷ ss) = if any (str_eq s) ss then to_set ss else s ∷ to_set ss

unfoldable pub unique_activities : Option (List String) → Bool
unfolding to_set
unique_activities none = false
unique_activities (some ss) = length (to_set ss) == length ss

-- _is_rc1_activity_set
unfoldable pub is_rc1_activity_set : Value → Bool
unfolding unique_activities rc1_activities
is_rc1_activity_set (arr vs) = unique_activities (rc1_activities (items vs))
is_rc1_activity_set _ = false

unfoldable pub activities_defects : Option Value → List ActivationDefect
activities_defects none = omitted_activities ∷ []
activities_defects (some v) = if is_rc1_activity_set v then [] else undefined_activities v ∷ []

unfoldable pub roles_defects : Option Value → List ActivationDefect
roles_defects none = omitted_active_roles ∷ []
roles_defects (some v) = []

unfoldable pub payload_defects : Fields → List ActivationDefect
unfolding activities_defects roles_defects
payload_defects payload =
    activities_defects (find "activities" payload) ++ roles_defects (find "active_roles" payload)

unfoldable pub defects_reason : List ActivationDefect → Option ActivationReason
defects_reason [] = none
defects_reason (d ∷ ds) = some (defective (d ∷ ds))

unfoldable pub judge_payload : Value → Option ActivationReason
unfolding payload_defects defects_reason
judge_payload (obj payload) = defects_reason (payload_defects payload)
judge_payload _ = none

unfoldable pub judge_activation : Option Value → Option ActivationReason
unfolding judge_payload
judge_activation none = none
judge_activation (some null) = some no_activation
judge_activation (some (obj activation)) =
    if is_text "server/activate" (get "type" activation)
    then judge_payload (get "payload" activation)
    else none
judge_activation (some _) = none

unfoldable pub activation_violation : Fields → Option ActivationReason
unfolding judge_activation
activation_violation server = judge_activation (find "activation" server)
