-- ===== src/Validator/Record.antt =====
-- src/conformance/validator/recorder.py and checks.py: a recorded frame, violation and event, and the
-- record of one connection.
use conformance.Prelude.{
  ℕ, String, Bool, true, false, not, ◌&&◌, Option, none, some, List, [], ◌∷◌, str_eq, ◌==◌,
  if◌then◌else◌, is_empty, any, filter,
}
use conformance.Json.{Value, null, Fields, no_field, get, as_object, as_text}

pub record RecordedFrame : Type 0 where
  pub id : ℕ
  pub connection : ℕ
  pub client_id : Option String
  pub direction : String
  pub phase : String
  pub monotonic_us : ℕ
  pub size : ℕ
  pub message : Option Fields
  pub binary_type : Option ℕ
  pub error : Option String

abbrev pub is_inbound : RecordedFrame → Bool
is_inbound f = str_eq f.direction "in"

-- The message's type, and its payload, where there is one.
abbrev pub message_field : String → RecordedFrame → Value
message_field k f = elim f.message [ none ↦ null | some fields ↦ get k fields ]

abbrev pub frame_type : RecordedFrame → Option String
frame_type f = as_text (message_field "type" f)

abbrev pub payload : RecordedFrame → Option Fields
payload f = as_object (message_field "payload" f)

-- frame.payload or {}
abbrev pub payload_or_empty : RecordedFrame → Fields
payload_or_empty f = elim (payload f) [ none ↦ no_field | some fields ↦ fields ]

-- frame.type == message_type, and frame.type in message_types
abbrev pub has_type : String → RecordedFrame → Bool
has_type message_type f = elim (frame_type f) [ none ↦ false | some t ↦ str_eq t message_type ]

abbrev pub has_type_in : List String → RecordedFrame → Bool
has_type_in message_types f = any (λ t. has_type t f) message_types

pub record RecordedNoncompliance : Type 0 where
  pub connection : Option ℕ
  pub client_id : Option String
  pub reason : String
  pub monotonic_us : ℕ
  pub after_frame : Option ℕ

pub data EventKind : Type 0 where
  keyed credential_mismatch closed pairing_failed : EventKind

pub record RecordedEvent : Type 0 where
  pub connection : ℕ
  pub client_id : String
  pub kind : EventKind
  pub after_frame : Option ℕ
  pub psk_category : Option String
  pub detail : Option String

abbrev pub is_keyed : RecordedEvent → Bool
is_keyed e = elim e.kind [ EventKind.keyed ↦ true | _ ↦ false ]

abbrev pub is_mismatch : RecordedEvent → Bool
is_mismatch e = elim e.kind [ EventKind.credential_mismatch ↦ true | _ ↦ false ]

abbrev pub is_closed : RecordedEvent → Bool
is_closed e = elim e.kind [ EventKind.closed ↦ true | _ ↦ false ]

pub record ConnectionRecord : Type 0 where
  pub number : ℕ
  pub frames : List RecordedFrame
  pub noncompliance : List RecordedNoncompliance
  pub events : List RecordedEvent

abbrev pub on_connection : ℕ → Option ℕ → Bool
on_connection number none = false
on_connection number (some n) = n == number

-- ConnectionRecord.of
unfoldable pub record_of :
    ℕ → List RecordedFrame → List RecordedNoncompliance → List RecordedEvent → ConnectionRecord
record_of number frames noncompliance events = record {
  number = number;
  frames = filter (λ f. f.connection == number) frames;
  noncompliance = filter (λ o. on_connection number o.connection) noncompliance;
  events = filter (λ e. e.connection == number) events;
}

-- ConnectionRecord.inbound and outbound: the frames of a type in a phase, sent by the client, and by
-- the validator.
abbrev pub is_inbound_in : String → String → RecordedFrame → Bool
is_inbound_in phase message_type f = is_inbound f && str_eq f.phase phase && has_type message_type f

abbrev pub is_outbound_in : String → String → RecordedFrame → Bool
is_outbound_in phase message_type f =
    not (is_inbound f) && str_eq f.phase phase && has_type message_type f

unfoldable pub inbound : ConnectionRecord → String → String → List RecordedFrame
inbound r message_type phase = filter (is_inbound_in phase message_type) r.frames

unfoldable pub outbound : ConnectionRecord → String → String → List RecordedFrame
outbound r message_type phase = filter (is_outbound_in phase message_type) r.frames

unfoldable pub is_rejected : ConnectionRecord → Bool
is_rejected r = not (is_empty r.noncompliance)

unfoldable pub has_closed : ConnectionRecord → Bool
has_closed r = any is_closed r.events

-- next((x for x in xs if test(x)), None)
abbrev pub first_with {ℓ} : {A : Type ℓ} → (A → Bool) → List A → Option A
first_with test [] = none
first_with test (x ∷ xs) = let rest = first_with test xs in if test x then some x else rest

abbrev pub first {ℓ} : {A : Type ℓ} → List A → Option A
first [] = none
first (x ∷ xs) = some x
