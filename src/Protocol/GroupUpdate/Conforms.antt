-- ===== src/Protocol/GroupUpdate/Conforms.antt =====
-- The loop of group_update_violation of src/conformance/protocol.py over the messages recorded.
use conformance.Prelude.{
  ℕ, ◌+◌, String, ◌≡◌, refl, sym, ap, ◌∙◌, ◌≢◌, ◌⊎◌, inl, inr, true, Option, none, some, List, [],
  ◌∷◌, ◌++◌, arith, eq_iff, Option-cases, length, All,
}
use mathlib.Core.Option.{some-injective}
use conformance.Json.{Value, str, obj, Fields, find}
use conformance.Protocol.GroupUpdate.{
  GroupDefect, foreign_message, defective, is_playback_state, state_defects, text_defects,
  group_update_defects, group_update_payload, message_defects, judge_messages,
}

-- What RC1 requires of a message: a group/update whose payload has the three fields.
pub record IsGroupUpdate (v : Value) : Type 0 where
  pub payload : Fields
  pub carried : group_update_payload v ≡ some (obj payload)
  pub playback_state : String
  pub names_state : find "playback_state" payload ≡ some (str playback_state)
  pub defined : (playback_state ≡ "playing") ⊎ (playback_state ≡ "stopped")
  pub group_id : String
  pub names_id : find "group_id" payload ≡ some (str group_id)
  pub group_name : String
  pub names_name : find "group_name" payload ≡ some (str group_name)

state_sound :
    (o : Option Value)
    → state_defects o ≡ []
    → (s : String) × (o ≡ some (str s)) × ((s ≡ "playing") ⊎ (s ≡ "stopped"))
unfolding state_defects
state_sound none h = cc
state_sound (some (str s)) h = (s, refl, ground (arith, eq_iff s "playing", eq_iff s "stopped"))
state_sound (some _) h = cc

text_sound :
    (name : String) (o : Option Value)
    → text_defects name o ≡ []
    → (s : String) × (o ≡ some (str s))
unfolding text_defects
text_sound name none h = cc
text_sound name (some (str s)) h = (s, refl)
text_sound name (some _) h = cc

append-nil_split : {A : Type 0} (xs ys : List A) → xs ++ ys ≡ [] → (xs ≡ []) × (ys ≡ [])
append-nil_split [] ys h = (refl, h)
append-nil_split (x ∷ xs) ys h = cc

message_sound : (v : Value) → message_defects v ≡ some [] → IsGroupUpdate v
unfolding message_defects group_update_defects
message_sound v h = elim (Option-cases (group_update_payload v)) [
  | inl bad ↦ cc (rw bad at h)
  | inr (p, good) ↦ go p good (some-injective _ _ (rw good at h))
]
  where
    go :
        (p : Value)
        → group_update_payload v ≡ some p
        → group_update_defects p ≡ []
        → IsGroupUpdate v
    go (obj fs) good h =
        let split = append-nil_split (state_defects (find "playback_state" fs)) _ h in
        let split' = append-nil_split (text_defects "group_id" (find "group_id" fs)) _ split.1 in
        let (s, e, d) = state_sound (find "playback_state" fs) split.0 in
        let (i, ei) = text_sound "group_id" (find "group_id" fs) split'.0 in
        let (n, en) = text_sound "group_name" (find "group_name" fs) split'.1 in
        record {
          payload = fs;
          carried = good;
          playback_state = s;
          names_state = e;
          defined = d;
          group_id = i;
          names_id = ei;
          group_name = n;
          names_name = en;
        }
    go _ good h = cc

state_complete : (s : String) → (s ≡ "playing") ⊎ (s ≡ "stopped") → is_playback_state (str s) ≡ true
state_complete s h = ground (arith, eq_iff s "playing", eq_iff s "stopped")

message_complete : (v : Value) → IsGroupUpdate v → message_defects v ≡ some []
unfolding message_defects group_update_defects state_defects text_defects
message_complete v g =
    rw (
      g.carried,
      g.names_state,
      g.names_id,
      g.names_name,
      state_complete g.playback_state g.defined,
    )

-- A message that the loop goes past, or one that it stops at.
message_cases :
    (index total : ℕ) (v : Value) (vs : List Value)
    → (IsGroupUpdate v
        × (judge_messages index total (v ∷ vs) ≡ judge_messages (index + 1) total vs))
      ⊎ ((message_defects v ≡ none)
          × (judge_messages index total (v ∷ vs) ≡ some (foreign_message v)))
      ⊎ ((d : GroupDefect) × (ds : List GroupDefect) × (message_defects v ≡ some (d ∷ ds))
          × (judge_messages index total (v ∷ vs) ≡ some (defective index total (d ∷ ds))))
unfolding judge_messages
message_cases index total v vs = go (message_defects v) refl
  where
    go :
        (o : Option (List GroupDefect))
        → message_defects v ≡ o
        → (IsGroupUpdate v
            × (judge_messages index total (v ∷ vs) ≡ judge_messages (index + 1) total vs))
          ⊎ ((message_defects v ≡ none)
              × (judge_messages index total (v ∷ vs) ≡ some (foreign_message v)))
          ⊎ ((d : GroupDefect) × (ds : List GroupDefect) × (message_defects v ≡ some (d ∷ ds))
              × (judge_messages index total (v ∷ vs) ≡ some (defective index total (d ∷ ds))))
    go none e = inr (inl (e, rw (e, judge_messages)))
    go (some []) e = inl (message_sound v e, rw (e, judge_messages))
    go (some (d ∷ ds)) e = inr (inr (d, ds, e, rw (e, judge_messages)))

pub messages_sound :
    (index total : ℕ) (vs : List Value)
    → judge_messages index total vs ≡ none
    → All IsGroupUpdate vs
messages_sound index total [] h = tt
messages_sound index total (v ∷ vs) h = elim (message_cases index total v vs) [
  | inl (good, e) ↦ (good, messages_sound (index + 1) total vs (sym e ∙ h))
  | inr (inl (bad, e)) ↦ cc (e, h)
  | inr (inr (d, ds, bad, e)) ↦ cc (e, h)
]

pub messages_complete :
    (index total : ℕ) (vs : List Value)
    → All IsGroupUpdate vs
    → judge_messages index total vs ≡ none
unfolding judge_messages
messages_complete index total [] h = refl
messages_complete index total (v ∷ vs) h =
    rw (message_complete v h.0, judge_messages) (messages_complete (index + 1) total vs h.1)

-- A reason about one message: where it stands, what its defects are, and that those before it
-- conform.
pub record Names (index : ℕ) (vs : List Value) (i : ℕ) (ds : List GroupDefect) : Type 0 where
  pub before : List Value
  pub message : Value
  pub after : List Value
  pub places : vs ≡ before ++ message ∷ after
  pub conforming : All IsGroupUpdate before
  pub position : i ≡ index + length before
  pub defects : message_defects message ≡ some ds

pub messages_named :
    (index total : ℕ) (vs : List Value) (i n : ℕ) (ds : List GroupDefect)
    → judge_messages index total vs ≡ some (defective i n ds)
    → (n ≡ total) × (ds ≢ []) × Names index vs i ds
messages_named index total [] i n ds h = unfold judge_messages in cc (h)
messages_named index total (v ∷ vs) i n ds h = elim (message_cases index total v vs) [
  | inl (good, e) ↦
      let (count, filled, rest) = messages_named (index + 1) total vs i n ds (sym e ∙ h) in
      (
        count,
        filled,
        record {
          before = v ∷ rest.before;
          message = rest.message;
          after = rest.after;
          places = ap (λ l. v ∷ l) rest.places;
          conforming = (good, rest.conforming);
          position = omega (arith, rest.position);
          defects = rest.defects;
        },
      )
  | inr (inl (bad, e)) ↦ cc (e, h)
  | inr (inr (d, fs, bad, e)) ↦
      let same = some-injective (defective index total (d ∷ fs)) (defective i n ds) (sym e ∙ h) in
      let list : d ∷ fs ≡ ds = cc (same) in
      (
        cc (same),
        λ none'. cc (list, none'),
        record {
          before = [];
          message = v;
          after = vs;
          places = refl;
          conforming = tt;
          position = omega (arith, sym (first same));
          defects = bad ∙ ap some list;
        },
      )
]
  where
    first : {a b c d : ℕ} {ps qs : List GroupDefect} → defective a b ps ≡ defective c d qs → a ≡ c
    first e = cc
