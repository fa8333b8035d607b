-- ===== src/Comparison/Outcome.antt =====
-- What a comparison of two summaries in src/conformance/runner.py comes to, and the reasons that
-- its verdicts name.
use conformance.Prelude.{
  ℕ, String, ◌≡◌, refl, ap, ◌↔◌, Bool, true, false, Option, none, some, List, str_eq, eq_iff, ℤ,
  if◌then◌else◌,
}
use mathlib.Core.Path.{subst}
use conformance.Json.{
  Value, null, bool, int, real, str, arr, obj, Fields, no_field, get, find, is_text,
}
use conformance.Matrix.Model.{RoleName, server, client}
use conformance.Framing.Verdict.{FramingFailure, FramingFinding}
use conformance.Formats.Verdicts.{PriorityViolation, DepthViolation}
use conformance.Protocol.Evidence.{EvidenceReason}
use conformance.Comparison.FirstState.{StateViolation}

-- How the numbers of samples relate, where both sides report them.
pub data SampleDetail : Type 0 where
  unreported : SampleDetail
  same_count : ℤ → SampleDetail
  fewer more : ℤ → ℤ → SampleDetail

-- Why the comparison of a mode fails, with the values that the texts name.
pub data ModeFailure : Type 0 where
  other_status : RoleName → Value → ModeFailure
  no_audio : RoleName → ModeFailure
  no_chunks : ModeFailure
  pcm_mismatch : SampleDetail → Value → Value → ModeFailure
  other_codec : RoleName → String → Option String → ModeFailure
  no_encoded_chunks : RoleName → String → ModeFailure
  no_encoded_hash : RoleName → String → ModeFailure
  encoded_mismatch : String → String → String → ModeFailure
  header_mismatch : String → String → String → ModeFailure
  no_source_hash : ModeFailure
  decoded_mismatch : String → SampleDetail → String → String → ModeFailure
  no_updates : ModeFailure
  metadata_mismatch : Value → Value → ModeFailure
  bad_first_state : StateViolation → ModeFailure
  no_command : RoleName → ModeFailure
  command_mismatch : Value → Value → Value → ModeFailure
  no_controller_state : ModeFailure
  missing_field : String → ModeFailure
  field_mismatch : String → Value → Value → ModeFailure
  no_advertised no_commands no_command_list : ModeFailure
  commands_mismatch : List Value → List Value → ModeFailure
  unlisted_command : Value → ModeFailure
  no_artwork : ModeFailure
  artwork_mismatch : Value → Value → ModeFailure
  preference_unrecorded no_preference : ModeFailure
  off_target : Fields → Fields → ModeFailure
  no_renegotiation no_request : ModeFailure
  other_preference : Fields → Fields → ModeFailure
  unobserved_change : Fields → ℤ → ModeFailure
  kept_format : ℤ → ModeFailure
  off_request : Fields → Fields → ModeFailure
  other_stream : Fields → Option Fields → ModeFailure
  unchanged : Fields → ModeFailure
  bad_evidence : EvidenceReason → ModeFailure
  bad_priority : PriorityViolation → ModeFailure
  bad_depth : DepthViolation → ModeFailure
  bad_framing : FramingFailure → ModeFailure

-- Why the decoded audio of a case is not judged.
pub data Unjudged : Type 0 where
  lossy : String → Unjudged
  no_decoded_audio : Unjudged
  converted : List (String × Value × Value) → Unjudged

-- What the comparison of a mode that matches reports.
pub data ModeNote : Type 0 where
  pcm_matches : ModeNote
  encoded_matches : String → Bool → Option Unjudged → ModeNote
  metadata_matches : Bool → ModeNote
  command_matched : Value → ModeNote
  artwork_matches : ModeNote
  renegotiated : Value → Fields → ModeNote
  assertions_passed : ℕ → ModeNote
  chunks_framed : FramingFinding → ModeNote

-- What a comparison raises (a KeyError, an AttributeError, a TypeError or a ValueError), what it
-- fails with, or what it passes with.
pub data Outcome (F P : Type 0) : Type 0 where
  raised : Outcome F P
  failed : F → Outcome F P
  passed : P → Outcome F P

infixl 5 ◌>>=◌ ◌>>◌
abbrev pub ◌>>=◌ : {F A B : Type 0} → Outcome F A → (A → Outcome F B) → Outcome F B
raised >>= next = raised
failed reason >>= next = failed reason
passed a >>= next = next a

abbrev pub ◌>>◌ : {F A B : Type 0} → Outcome F A → Outcome F B → Outcome F B
o >> next = o >>= λ a. next

module _ {F A : Type 0} where
  -- A read that may raise, a guard with the reason of the early return, a read that returns early,
  -- and a violation that returns early.
  abbrev pub read : Option A → Outcome F A
  read none = raised
  read (some a) = passed a

  abbrev pub found : F → Option A → Outcome F A
  found reason none = failed reason
  found reason (some a) = passed a

module _ {F : Type 0} where
  abbrev pub guard : Bool → F → Outcome F Unit
  guard true reason = passed tt
  guard false reason = failed reason

  abbrev pub blame : {V : Type 0} → (V → F) → Option V → Outcome F Unit
  blame reason none = passed tt
  blame reason (some v) = failed (reason v)

module _ {F A B : Type 0} {Q : A → Type 0} (b : B) (next : A → Outcome F B) where
  -- What passes after a read.
  pub read_iff :
      (o : Option A)
      → ((a : A) → (next a ≡ passed b) ↔ Q a)
      → ((read o >>= next) ≡ passed b) ↔ ((a : A) × (o ≡ some a) × Q a)
  read_iff none rest = (λ h. cc, λ h. cc (h.1))
  read_iff (some a) rest =
      (λ h. (a, refl, (rest a).0 h), λ h. let e : h.0 ≡ a = cc (h.1) in (rest a).1 (subst Q e h.2))

  pub outcome_iff :
      (o : Outcome F A)
      → ((a : A) → (next a ≡ passed b) ↔ Q a)
      → ((o >>= next) ≡ passed b) ↔ ((a : A) × (o ≡ passed a) × Q a)
  outcome_iff raised rest = (λ h. cc, λ h. cc (h.1))
  outcome_iff (failed reason) rest = (λ h. cc, λ h. cc (h.1))
  outcome_iff (passed a) rest =
      (λ h. (a, refl, (rest a).0 h), λ h. let e : h.0 ≡ a = cc (h.1) in (rest a).1 (subst Q e h.2))

  pub found_iff :
      (reason : F) (o : Option A)
      → ((a : A) → (next a ≡ passed b) ↔ Q a)
      → ((found reason o >>= next) ≡ passed b) ↔ ((a : A) × (o ≡ some a) × Q a)
  found_iff reason none rest = (λ h. cc, λ h. cc (h.1))
  found_iff reason (some a) rest =
      (λ h. (a, refl, (rest a).0 h), λ h. let e : h.0 ≡ a = cc (h.1) in (rest a).1 (subst Q e h.2))

module _ {F B Q : Type 0} (b : B) (next : Outcome F B) (rest : (next ≡ passed b) ↔ Q) where
  -- What passes after a guard, and after a violation that is not there.
  pub guard_iff :
      (test : Bool) (reason : F) → ((guard test reason >> next) ≡ passed b) ↔ ((test ≡ true) × Q)
  guard_iff true reason = (λ h. (refl, rest.0 h), λ h. rest.1 h.1)
  guard_iff false reason = (λ h. cc, λ h. cc (h.0))

  pub blame_iff :
      {V : Type 0} (reason : V → F) (o : Option V)
      → ((blame reason o >> next) ≡ passed b) ↔ ((o ≡ none) × Q)
  blame_iff reason none = (λ h. (refl, rest.0 h), λ h. rest.1 h.1)
  blame_iff reason (some v) = (λ h. cc, λ h. cc (h.0))

-- summary.get(name, {}), where the code goes on to read a key of it; none is the AttributeError.
unfoldable pub section : String → Fields → Option Fields
section name summary = elim (find name summary) [
  | none ↦ some no_field
  | some (obj fields) ↦ some fields
  | some _ ↦ none
]

-- A value that is a text and not empty.
abbrev pub filled_text : Value → Option String
filled_text (str s) = if str_eq s "" then none else some s
filled_text _ = none

-- The test on summary.get("status"), with which every comparison begins.
abbrev pub status_guard : RoleName → Fields → Outcome ModeFailure Unit
status_guard role summary =
    guard (is_text "ok" (get "status" summary)) (other_status role (get "status" summary))

pub is_text_iff : (s : String) (v : Value) → (is_text s v ≡ true) ↔ (v ≡ str s)
is_text_iff s (str t) = (λ h. ap str ((eq_iff t s).0 h), λ h. (eq_iff t s).1 (cc))
is_text_iff s null = (λ h. cc, λ h. cc)
is_text_iff s (bool b) = (λ h. cc, λ h. cc)
is_text_iff s (int n) = (λ h. cc, λ h. cc)
is_text_iff s (real r) = (λ h. cc, λ h. cc)
is_text_iff s (arr vs) = (λ h. cc, λ h. cc)
is_text_iff s (obj o) = (λ h. cc, λ h. cc)

module _ {B Q : Type 0} (b : B) (next : Outcome ModeFailure B) (rest : (next ≡ passed b) ↔ Q) where
  pub statuses_iff :
      (server_summary client_summary : Fields)
      → ((status_guard server server_summary >> (status_guard client client_summary >> next))
          ≡ passed b)
        ↔ ((get "status" server_summary ≡ str "ok") × (get "status" client_summary ≡ str "ok") × Q)
  statuses_iff server_summary client_summary =
      let one = is_text_iff "ok" (get "status" server_summary) in
      let two = is_text_iff "ok" (get "status" client_summary) in
      let inner = guard_iff b next rest (is_text "ok" (get "status" client_summary)) _ in
      let outer = guard_iff b _ inner (is_text "ok" (get "status" server_summary)) _ in
      (
        λ h. let k = outer.0 h in (one.0 k.0, two.0 k.1.0, k.1.1),
        λ h. outer.1 (one.1 h.0, (two.1 h.1, h.2)),
      )
