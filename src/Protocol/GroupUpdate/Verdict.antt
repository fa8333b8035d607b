-- ===== src/Protocol/GroupUpdate/Verdict.antt =====
-- When group_update_violation of src/conformance/protocol.py passes, and which message a violation
-- names.
use conformance.Prelude.{ℕ, ◌≡◌, refl, ◌≢◌, ◌↔◌, Option, none, some, List, [], ◌∷◌, length, All}
use conformance.Json.{Value, null, arr, items, Items, Fields, find, get}
use conformance.Protocol.GroupUpdate.{
  GroupDefect, GroupReason, defective, judge_list, judge_updates, after_activation,
  group_update_violation,
}
use conformance.Protocol.GroupUpdate.Conforms.{
  IsGroupUpdate, Names, messages_sound, messages_complete, messages_named,
}

activated : (o : Option Value) (r : Option GroupReason) → o ≢ some null → after_activation o r ≡ r
unfolding after_activation
activated (some null) r h = absurd (h refl)
activated _ r h = refl

list_iff : (vs : List Value) → (judge_list vs ≡ none) ↔ ((vs ≢ []) × All IsGroupUpdate vs)
unfolding judge_list
list_iff [] = (λ h. cc, λ h. absurd (h.0 refl))
list_iff (v ∷ vs) = (
  λ h. (λ e. cc, messages_sound 1 (length (v ∷ vs)) (v ∷ vs) h),
  λ h. messages_complete 1 (length (v ∷ vs)) (v ∷ vs) h.1,
)

list_named :
    (vs : List Value) (i n : ℕ) (ds : List GroupDefect)
    → judge_list vs ≡ some (defective i n ds)
    → (n ≡ length vs) × (ds ≢ []) × Names 1 vs i ds
unfolding judge_list
list_named [] i n ds h = cc
list_named (v ∷ vs) i n ds h = messages_named 1 (length (v ∷ vs)) (v ∷ vs) i n ds h

updates_iff :
    (v : Value)
    → (judge_updates v ≡ none)
      ↔ ((vs : Items) × (v ≡ arr vs) × (items vs ≢ []) × All IsGroupUpdate (items vs))
unfolding judge_updates
updates_iff (arr vs) =
    let listed = list_iff (items vs) in
    (
      λ h. (vs, refl, (listed.0 h).0, (listed.0 h).1),
      λ (ws, e, filled, good). let same : vs ≡ ws = cc (e) in listed.1 (rw same (filled, good)),
    )
updates_iff _ = (λ h. cc, λ h. cc (h.1))

module _ (server : Fields) (active : find "activation" server ≢ some null) where
  -- A server that is not recorded as sending no server/activate passes exactly when the recorded
  -- list is not empty and every message of it is a group/update with its three fields.
  pub group_update_violation-none_iff : (group_update_violation server ≡ none) ↔ (
      (vs : Items) × (get "group_updates" server ≡ arr vs)
      × (items vs ≢ [])
      × All IsGroupUpdate (items vs))
  unfolding group_update_violation
  group_update_violation-none_iff =
      rw (activated (find "activation" server) _ active) (updates_iff (get "group_updates" server))

  -- For a server that is not recorded as sending no server/activate, a reason about the defects of
  -- a message names the first message that does not conform, counted from 1, the number of
  -- messages recorded, and the defects of that message, of which there is one at least.
  pub group_update_violation-defective :
      (vs : Items) (i n : ℕ) (ds : List GroupDefect)
      → get "group_updates" server ≡ arr vs
      → group_update_violation server ≡ some (defective i n ds)
      → (n ≡ length (items vs)) × (ds ≢ []) × Names 1 (items vs) i ds
  unfolding group_update_violation
  group_update_violation-defective vs i n ds recorded h =
      list_named (items vs) i n ds
        (rw (activated (find "activation" server) _ active, recorded, judge_updates) at h)
