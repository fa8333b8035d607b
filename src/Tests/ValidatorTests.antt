-- ===== src/Tests/ValidatorTests.antt =====
-- The theorems on the validator (src/conformance/validator) at concrete records.
use conformance.Prelude.{
  ℕ, String, ◌≡◌, refl, ◌↔◌, ◌⊎◌, ◌++◌, true, none, some, List, [], ◌∷◌, map, filter, ◌==◌,
}
use conformance.Json.{Value, str, arr, obj, get}
use conformance.Framing.Frames.{codes}
use conformance.Validator.Findings.{pass, fail}
use conformance.Validator.Record.{RecordedFrame, EventKind, ConnectionRecord, payload_or_empty}
use conformance.Validator.References.Pattern.{Piece, literal, one_of, full_match}
use conformance.Validator.References.Matching.{references, spec_ref_for}
use conformance.Validator.References.Exact.{FirstMatch, spec_ref_for-some_iff}
use conformance.Validator.Checks.{client_hello}
use conformance.Validator.Checks.Opening.{
  is_transport, check_nothing_before_activation, check_init_suite,
}
use conformance.Validator.Checks.Hello.{check_hello_support_objects}
use conformance.Validator.Checks.Run.{checks, run_checks, is_judged, judge_session}
use conformance.Validator.Checks.Single.{run_checks-ids}
use conformance.Validator.Checks.Order.{
  IsClientInit, IsUnhashable, Gives, Early, check_nothing_before_activation-fail_iff,
  check_init_suite-none_iff,
}
use conformance.Validator.Checks.Isolation.{judge_session-own}
use conformance.Validator.Checks.Support.{IsSupported, check_hello_support_objects-pass_iff}
use conformance.Validator.Recorder.{
  ObservedFrame, Loaded, loaded, Recorder, new_recorder, add_secret, observe_frame, observe_event,
}
use conformance.Validator.Recorder.Record.{IsRecord}
use conformance.Validator.Recorder.Steps.{Reach, Step, Reach-IsRecord, Reach-keeps}
use conformance.Tests.Samples.{lower, object, sequence}

abbrev frame_with : ℕ → ℕ → String → String → String → List (String × Value) → RecordedFrame
frame_with id connection direction phase type payload = record {
  id = id;
  connection = connection;
  client_id = none;
  direction = direction;
  phase = phase;
  monotonic_us = 0;
  size = 9;
  message = some (object (("type", str type) ∷ ("payload", obj (object payload)) ∷ []));
  binary_type = none;
  error = none;
}

abbrev opening : List (String × Value) → RecordedFrame
opening payload = frame_with 1 1 "in" "cleartext" "client/init" payload

-- The client opens, sends its hello, and sends a state before it is activated.
abbrev hello_frame : RecordedFrame
hello_frame = frame_with 2 1 "in" "transport" "client/hello" (
    ("supported_roles", arr (sequence (str "player@v1" ∷ [])))
    ∷ ("player@v1_support", obj (object []))
    ∷ [])

abbrev hasty : List RecordedFrame
hasty =
    opening (("suite", arr (sequence [])) ∷ [])
    ∷ hello_frame
    ∷ frame_with 3 1 "in" "transport" "client/state" []
    ∷ frame_with 4 1 "out" "transport" "server/activate" []
    ∷ []

abbrev record_with : List RecordedFrame → ConnectionRecord
record_with frames = record { number = 1; frames = frames; noncompliance = []; events = [] }

run_checks-ids_example :
    map (λ f. f.id) (run_checks ⦃u = lower⦄ (record_with []) none)
    ≡ map (λ row. row.0) (checks ⦃u = lower⦄ none)
run_checks-ids_example = run_checks-ids ⦃u = lower⦄ (record_with []) none

check_nothing_before_activation-fail_iff_example :
    Gives fail (check_nothing_before_activation (record_with hasty))
    ↔ Early (filter is_transport hasty)
check_nothing_before_activation-fail_iff_example =
    check_nothing_before_activation-fail_iff (record_with hasty)

hasty-fails : Gives fail (check_nothing_before_activation (record_with hasty))
unfolding check_nothing_before_activation
hasty-fails = refl

check_init_suite-none_iff_example : (check_init_suite (record_with hasty) ≡ none) ↔ (
    (hasty ≡ [])
    ⊎ ((f : RecordedFrame) × (fs : List RecordedFrame) × (hasty ≡ f ∷ fs)
        × IsClientInit f
        × IsUnhashable (get "suite" (payload_or_empty f))))
check_init_suite-none_iff_example = check_init_suite-none_iff (record_with hasty)

-- The suite of the client is a list.
suite_list-raises : check_init_suite (record_with hasty) ≡ none
unfolding check_init_suite
suite_list-raises = refl

check_hello_support_objects-pass_iff_example :
    Gives pass (check_hello_support_objects (record_with hasty)) ↔ (
      (hello : RecordedFrame) × (client_hello (record_with hasty) ≡ some hello)
      × IsSupported (payload_or_empty hello))
check_hello_support_objects-pass_iff_example =
    check_hello_support_objects-pass_iff (record_with hasty)

hasty-supports : Gives pass (check_hello_support_objects (record_with hasty))
unfolding check_hello_support_objects
hasty-supports = refl

abbrev mixed : List RecordedFrame
mixed = hasty ++ frame_with 5 2 "in" "cleartext" "client/init" [] ∷ []

judge_session-own_example :
    judge_session ⦃u = lower⦄
      (filter (λ f. f.connection == 1) mixed)
      (filter (is_judged (1 ∷ 3 ∷ [])) [])
      []
      1
      (3 ∷ [])
      none
    ≡ judge_session ⦃u = lower⦄ mixed [] [] 1 (3 ∷ []) none
judge_session-own_example = judge_session-own ⦃u = lower⦄ 1 (3 ∷ []) mixed [] [] none

-- A pattern with a group, and a reason of the table.
abbrev codec_pattern : List Piece
codec_pattern = literal "announced codec '" ∷ one_of ("opus" ∷ "flac" ∷ []) ∷ literal "'" ∷ []

codec-matches : full_match ⦃u = lower⦄ codec_pattern (codes "announced codec 'flac'") ≡ true
unfolding full_match
codec-matches = refl

abbrev null_reason : String
null_reason = "client/state sent null instead of a value"

spec_ref_for-some_iff_example :
    (spec_ref_for ⦃u = lower⦄ null_reason ≡ some (some "messaging.md:22"))
    ↔ FirstMatch ⦃u = lower⦄ references (codes null_reason) (some "messaging.md:22")
spec_ref_for-some_iff_example =
    spec_ref_for-some_iff ⦃u = lower⦄ null_reason (some "messaging.md:22")

null_reason-mapped : spec_ref_for ⦃u = lower⦄ null_reason ≡ some (some "messaging.md:22")
unfolding spec_ref_for
null_reason-mapped = refl

-- A secret is added, a frame with a secret field is recorded, and the connection is closed.
abbrev secret_message : List ℕ → Loaded
secret_message bytes = loaded (obj (object (("long_term_psk", str "k3y") ∷ [])))

abbrev observed : ObservedFrame
observed = record {
  connection = 1;
  client_id = none;
  direction = "in";
  phase = "cleartext";
  monotonic_us = 5;
  bytes = 7 ∷ [];
  error = none;
}

abbrev recorded : Recorder
recorded =
    observe_event 1 "client" EventKind.closed none (some "k3y failed")
      (observe_frame secret_message observed (add_secret "k3y" new_recorder))

recorded-reached : Reach secret_message new_recorder recorded
recorded-reached =
    Reach.next (Reach.next (Reach.next Reach.here (Step.secret "k3y")) (Step.frame observed))
      (Step.event 1 "client" EventKind.closed none (some "k3y failed"))

Reach-IsRecord_example : IsRecord recorded
Reach-IsRecord_example = Reach-IsRecord secret_message recorded-reached

Reach-keeps_example : (more : List RecordedFrame) × (recorded.frames ≡ new_recorder.frames ++ more)
Reach-keeps_example = Reach-keeps secret_message recorded-reached

-- The secret is nowhere in the record.
recorded-redacted :
    (map (λ f. f.message) recorded.frames
      ≡ some (object (("long_term_psk", str "<redacted:3>") ∷ [])) ∷ [])
    × (map (λ e. e.detail) recorded.events ≡ some "<redacted> failed" ∷ [])
unfolding observe_frame observe_event add_secret
recorded-redacted = (refl, refl)
