-- ===== src/Protocol/GroupUpdate.antt =====
-- src/conformance/protocol.py: group_update_violation, which judges the group/update messages that a
-- server sent after its first server/activate.
pub mod Conforms
pub mod Verdict
use conformance.Prelude.{
  ℕ, ◌+◌, String, Bool, ◌||◌, Option, none, some, List, [], ◌∷◌, ◌++◌, if◌then◌else◌, ◌>>=◌, length,
}
use conformance.Json.{Value, null, obj, arr, items, Fields, find, get, is_text, as_text}

pub data GroupDefect : Type 0 where
  no_payload : GroupDefect
  omitted : String → GroupDefect
  undefined_state : Value → GroupDefect
  no_text : String → Value → GroupDefect

-- The reasons, with the position of the message among those recorded and their number.
pub data GroupReason : Type 0 where
  unrecorded : GroupReason
  none_sent : GroupReason
  foreign_message : Value → GroupReason
  defective : ℕ → ℕ → List GroupDefect → GroupReason

-- payload["playback_state"] in RC1_PLAYBACK_STATES
abbrev pub is_playback_state : Value → Bool
is_playback_state v = is_text "playing" v || is_text "stopped" v

unfoldable pub state_defects : Option Value → List GroupDefect
state_defects none = omitted "playback_state" ∷ []
state_defects (some v) = if is_playback_state v then [] else undefined_state v ∷ []

unfoldable pub text_defects : String → Option Value → List GroupDefect
text_defects name none = omitted name ∷ []
text_defects name (some v) = elim (as_text v) [ none ↦ no_text name v ∷ [] | some s ↦ [] ]

-- _group_update_defects
unfoldable pub group_update_defects : Value → List GroupDefect
unfolding state_defects text_defects
group_update_defects (obj payload) =
    state_defects (find "playback_state" payload)
    ++ (text_defects "group_id" (find "group_id" payload)
        ++ text_defects "group_name" (find "group_name" payload))
group_update_defects _ = no_payload ∷ []

-- The payload of a group/update, where the value records one.
unfoldable pub group_update_payload : Value → Option Value
group_update_payload (obj fs) =
    if is_text "group/update" (get "type" fs) then some (get "payload" fs) else none
group_update_payload _ = none

-- The defects of one message: none where it is no group/update.
unfoldable pub message_defects : Value → Option (List GroupDefect)
unfolding group_update_payload group_update_defects
message_defects v = do payload ← group_update_payload v; some (group_update_defects payload)

-- for index, group_update in enumerate(group_updates, start=1)
unfoldable pub judge_messages : ℕ → ℕ → List Value → Option GroupReason
unfolding message_defects
judge_messages index total [] = none
judge_messages index total (v ∷ vs) = elim (message_defects v) [
  | none ↦ some (foreign_message v)
  | some [] ↦ judge_messages (index + 1) total vs
  | some (d ∷ ds) ↦ some (defective index total (d ∷ ds))
]

unfoldable pub judge_list : List Value → Option GroupReason
unfolding judge_messages
judge_list [] = some none_sent
judge_list (v ∷ vs) = judge_messages 1 (length (v ∷ vs)) (v ∷ vs)

unfoldable pub judge_updates : Value → Option GroupReason
unfolding judge_list
judge_updates (arr vs) = judge_list (items vs)
judge_updates _ = some unrecorded

unfoldable pub after_activation : Option Value → Option GroupReason → Option GroupReason
after_activation (some null) reason = none
after_activation _ reason = reason

unfoldable pub group_update_violation : Fields → Option GroupReason
unfolding after_activation judge_updates
group_update_violation server =
    after_activation (find "activation" server) (judge_updates (get "group_updates" server))
