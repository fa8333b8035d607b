-- ===== src/Validator/Recorder.antt =====
-- src/conformance/validator/recorder.py: Recorder, the observer of the frames, violations and events.
pub mod Redaction
pub mod Record
pub mod Steps
use conformance.Prelude.{
  ℕ, ◌+◌, String, not, ◌||◌, Option, none, some, List, [], ◌∷◌, ◌++◌, map, str_eq, ◌==◌,
  if◌then◌else◌, length, any, or_else,
}
use Prim.Native.String.{◌++◌ as str_append}
use mathlib.Core.Option
use conformance.Json.{Value, obj, Fields}
use conformance.Validator.Record.{
  RecordedFrame, RecordedNoncompliance, RecordedEvent, EventKind, on_connection,
}
use conformance.Validator.Recorder.Redaction.{redact_text, redact_fields}

-- What the observer is given of a frame, and of a violation: objects of aiosendspin, by the
-- attributes that the recorder reads.
pub record ObservedFrame : Type 0 where
  pub connection : ℕ
  pub client_id : Option String
  pub direction : String
  pub phase : String
  pub monotonic_us : ℕ
  pub bytes : List ℕ
  pub error : Option String

pub record ObservedNoncompliance : Type 0 where
  pub connection : Option ℕ
  pub client_id : Option String
  pub reason : String
  pub monotonic_us : ℕ

-- json.loads(text.decode("utf-8")) on bytes: the value, the text of the exception that _decode
-- catches, or that of any other exception.
pub data Loaded : Type 0 where
  loaded : Value → Loaded
  unreadable : String → Loaded
  crashed : String → Loaded

pub record Recorder : Type 0 where
  pub frames : List RecordedFrame
  pub noncompliance : List RecordedNoncompliance
  pub events : List RecordedEvent
  pub tool_errors : List String
  pub secrets : List String

abbrev pub new_recorder : Recorder
new_recorder = record {
  frames = [];
  noncompliance = [];
  events = [];
  tool_errors = [];
  secrets = [];
}

-- Recorder.add_secret
unfoldable pub add_secret : String → Recorder → Recorder
add_secret secret r =
    if str_eq secret "" || any (str_eq secret) r.secrets
    then r
    else record r { secrets = secret ∷ r.secrets }

-- _last_frame, over the frames in their order: a later one counts.
unfoldable pub last_frame_in : Option ℕ → List RecordedFrame → Option ℕ
last_frame_in connection [] = none
last_frame_in connection (f ∷ fs) =
    or_else (last_frame_in connection fs)
      (if on_connection f.connection connection then some f.id else none)

-- The record of a frame that carries no message.
abbrev pub frame_of : ℕ → ObservedFrame → RecordedFrame
frame_of id f = record {
  id = id;
  connection = f.connection;
  client_id = f.client_id;
  direction = f.direction;
  phase = f.phase;
  monotonic_us = f.monotonic_us;
  size = length f.bytes;
  message = none;
  binary_type = none;
  error = none;
}

abbrev pub with_error : String → RecordedFrame → RecordedFrame
with_error text f = record f { error = some text }

abbrev pub with_binary : Option ℕ → RecordedFrame → RecordedFrame
with_binary kind f = record f { binary_type = kind }

abbrev pub with_message : Fields → RecordedFrame → RecordedFrame
with_message fields f = record f { message = some fields }

-- The bytes of the message: all of a frame in clear, and what follows the type byte 0 of another.
unfoldable pub message_bytes : ObservedFrame → Option (List ℕ)
message_bytes f = if str_eq f.phase "cleartext" then some f.bytes else transported f.bytes
  where
    transported : List ℕ → Option (List ℕ)
    transported [] = none
    transported (b ∷ bs) = if b == 0 then some bs else none

abbrev pub first_byte? : List ℕ → Option ℕ
first_byte? [] = none
first_byte? (b ∷ bs) = some b

module _ (loads : List ℕ → Loaded) where
  -- What json.loads gives; none is an exception that _decode does not catch.
  unfoldable pub record_loaded : List String → RecordedFrame → Loaded → Option RecordedFrame
  unfolding redact_fields
  record_loaded secrets common (loaded (obj fields)) =
      some (with_message (redact_fields secrets fields) common)
  record_loaded secrets common (loaded v) = some (with_error "not a JSON object" common)
  record_loaded secrets common (unreadable text) =
      some (with_error (str_append "not a JSON message: " text) common)
  record_loaded secrets common (crashed text) = none

  unfoldable pub decode : Recorder → ObservedFrame → Option RecordedFrame
  unfolding message_bytes record_loaded redact_text
  decode r f =
      let common = frame_of (length r.frames + 1) f in
      elim f.error [
        | some text ↦ some (with_error (redact_text r.secrets text) common)
        | none ↦ elim (message_bytes f) [
          | none ↦ some (with_binary (first_byte? f.bytes) common)
          | some text ↦ record_loaded r.secrets common (loads text)
        ]
      ]

  -- Recorder.observe_frame. The text of a tool error names the frame and the exception.
  unfoldable pub observe_frame : ObservedFrame → Recorder → Recorder
  unfolding decode
  observe_frame f r = elim (decode r f) [
    | some recorded ↦ record r { frames = r.frames ++ recorded ∷ [] }
    | none ↦ record r { tool_errors = r.tool_errors ++ "could not record frame" ∷ [] }
  ]

abbrev pub noncompliance_of : ObservedNoncompliance → Recorder → RecordedNoncompliance
noncompliance_of o r = record {
  connection = o.connection;
  client_id = o.client_id;
  reason = redact_text r.secrets o.reason;
  monotonic_us = o.monotonic_us;
  after_frame = last_frame_in o.connection r.frames;
}

unfoldable pub observe_noncompliance : ObservedNoncompliance → Recorder → Recorder
observe_noncompliance o r = record r {
  noncompliance = r.noncompliance ++ noncompliance_of o r ∷ [];
}

abbrev pub event_of :
    ℕ → String → EventKind → Option String → Option String → Recorder → RecordedEvent
event_of connection client_id kind psk_category detail r = record {
  connection = connection;
  client_id = client_id;
  kind = kind;
  after_frame = last_frame_in (some connection) r.frames;
  psk_category = psk_category;
  detail = Option.map (redact_text r.secrets) detail;
}

unfoldable pub observe_event :
    ℕ → String → EventKind → Option String → Option String → Recorder → Recorder
observe_event connection client_id kind psk_category detail r = record r {
  events = r.events ++ event_of connection client_id kind psk_category detail r ∷ [];
}
