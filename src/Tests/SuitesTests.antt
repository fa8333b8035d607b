-- ===== src/Tests/SuitesTests.antt =====
-- The theorems on the checks of the suites (src/conformance/validator/suite_checks.py) at concrete
-- records.
use conformance.Prelude.{
  ℕ, String, ◌≡◌, refl, ◌↔◌, true, false, none, some, List, [], ◌∷◌, any, All, last_with, ℤ, pos,
}
use conformance.Json.{Value, str, arr, obj, bool, int}
use conformance.Validator.Findings.{pass, fail, tool_error}
use conformance.Validator.Record.{
  RecordedFrame, RecordedEvent, EventKind, ConnectionRecord, is_keyed, is_mismatch, inbound,
  outbound, first,
}
use conformance.Validator.Checks.Order.{Gives}
use conformance.Validator.Suites.{pairing_activation, pairing_activations_since_handshake}
use conformance.Validator.Suites.Keying.{
  long_term, check_restart_keeps_pairing, check_record_dropped, check_sentinel_handshake,
}
use conformance.Validator.Suites.Refusal.{declares_pairing, check_inadmissible_activation}
use conformance.Validator.Suites.Pairing.{check_pair_init}
use conformance.Validator.Suites.Finalize.{is_keyed_by}
use conformance.Validator.Suites.PostPairing.{
  check_unpair_goodbye, check_restart_keeps_output_delay, is_keyed_before, is_delay, output_delay,
}
use conformance.Validator.Suites.Order.{
  First, pairings, since_handshake, up_to, pairing_activations_since_handshake-pairings,
}
use conformance.Validator.Suites.Keyed.{check_restart_keeps_pairing-pass_iff}
use conformance.Validator.Suites.Refused.{
  IsAnswered, IsRefused, check_inadmissible_activation-pass_iff,
}
use conformance.Validator.Suites.Started.{IsStarted, check_pair_init-pass_iff}
use conformance.Validator.Suites.Unpaired.{
  check_unpair_goodbye-pass_iff, check_restart_keeps_output_delay-none_iff,
}
use conformance.Tests.Samples.{plain, object, sequence}

abbrev frame_on : ℕ → String → String → List (String × Value) → RecordedFrame
frame_on id direction type payload = record {
  id = id;
  connection = 1;
  client_id = none;
  direction = direction;
  phase = "transport";
  monotonic_us = 0;
  size = 9;
  message = some (object (("type", str type) ∷ ("payload", obj (object payload)) ∷ []));
  binary_type = none;
  error = none;
}

abbrev event_of : EventKind → ℕ → String → RecordedEvent
event_of kind after category = record {
  connection = 1;
  client_id = "c";
  kind = kind;
  after_frame = some after;
  psk_category = some category;
  detail = none;
}

abbrev session : List RecordedFrame → List RecordedEvent → ConnectionRecord
session frames events = record { number = 1; frames = frames; noncompliance = []; events = events }

abbrev pairing_sent : ℕ → RecordedFrame
pairing_sent id = frame_on id "out" "server/activate" (
    ("activities", arr (sequence (str "pairing" ∷ [])))
    ∷ ("pairing", obj (object (("method", str "pairing_psk") ∷ [])))
    ∷ [])

-- An attempt, a new handshake, and a second attempt, which the client starts with its number.
abbrev paired : ConnectionRecord
paired =
    session
      (pairing_sent 1
        ∷ frame_on 2 "out" "noise/handshake" []
        ∷ frame_on 3 "in" "noise/handshake" []
        ∷ pairing_sent 4
        ∷ frame_on 5 "in" "client/time" []
        ∷ frame_on 6 "in" "client/pair-init" (("pairing_index", int (pos 1)) ∷ [])
        ∷ [])
      []

second_attempt-counts_one : pairing_activations_since_handshake paired (pairing_sent 4) ≡ 1
unfolding pairing_activations_since_handshake
second_attempt-counts_one = refl

pairing_activations_since_handshake-pairings_example :
    pairing_activations_since_handshake paired (pairing_sent 4)
    ≡ pairings (since_handshake (up_to 4 paired.frames))
pairing_activations_since_handshake-pairings_example =
    pairing_activations_since_handshake-pairings paired (pairing_sent 4)

second_attempt-starts : Gives pass (check_pair_init ⦃py = plain⦄ paired 3)
unfolding check_pair_init
second_attempt-starts = refl

check_pair_init-pass_iff_example : Gives pass (check_pair_init ⦃py = plain⦄ paired 3) ↔ (
    (activation : RecordedFrame) × (pairing_activation paired 3 ≡ some (some activation))
    × IsStarted ⦃py = plain⦄ paired activation)
check_pair_init-pass_iff_example = check_pair_init-pass_iff ⦃py = plain⦄ paired 3

-- The client keeps its pairing across a restart, and falls back in a second session.
abbrev kept : ConnectionRecord
kept = session [] (event_of EventKind.keyed 2 "long_term" ∷ [])

kept-passes : Gives pass (check_restart_keeps_pairing kept)
unfolding check_restart_keeps_pairing
kept-passes = refl

kept-tests_nothing : Gives tool_error (check_sentinel_handshake kept)
unfolding check_sentinel_handshake
kept-tests_nothing = refl

abbrev fell_back : ConnectionRecord
fell_back = session [] (
    event_of EventKind.credential_mismatch 2 "long_term"
    ∷ event_of EventKind.keyed 2 "sentinel"
    ∷ [])

fell_back-drops : Gives pass (check_record_dropped fell_back)
unfolding check_record_dropped
fell_back-drops = refl

kept-drops : Gives fail (check_record_dropped kept)
unfolding check_record_dropped
kept-drops = refl

check_restart_keeps_pairing-pass_iff_example : Gives pass (check_restart_keeps_pairing kept) ↔ (
    (e : RecordedEvent) × First is_keyed kept.events e
    × (any is_mismatch kept.events ≡ false)
    × (e.psk_category ≡ some long_term))
check_restart_keeps_pairing-pass_iff_example = check_restart_keeps_pairing-pass_iff kept

-- With unpaired access off, the client leaves with the reason.
abbrev access_off : RecordedFrame
access_off =
    frame_on 1 "in" "client/hello"
      (("unpaired_access", obj (object (("enabled", bool false) ∷ []))) ∷ [])

abbrev refused : ConnectionRecord
refused =
    session
      (access_off
        ∷ pairing_sent 2
        ∷ frame_on 3 "in" "client/goodbye" (("reason", str "unauthorized") ∷ [])
        ∷ [])
      []

refused-passes : Gives pass (check_inadmissible_activation refused)
unfolding check_inadmissible_activation
refused-passes = refl

check_inadmissible_activation-pass_iff_example :
    Gives pass (check_inadmissible_activation refused) ↔ (
      (activation : RecordedFrame) × First declares_pairing
        (outbound refused "server/activate" "transport")
        activation
      × IsAnswered refused activation)
check_inadmissible_activation-pass_iff_example = check_inadmissible_activation-pass_iff refused

abbrev unpaired : ConnectionRecord
unpaired =
    session
      (frame_on 4 "out" "server/unpair" []
        ∷ frame_on 5 "in" "client/goodbye" (("reason", str "unpaired") ∷ [])
        ∷ [])
      (event_of EventKind.keyed 3 "long_term" ∷ [])

unpaired-passes : Gives pass (check_unpair_goodbye unpaired)
unfolding check_unpair_goodbye
unpaired-passes = refl

check_unpair_goodbye-pass_iff_example : Gives pass (check_unpair_goodbye unpaired) ↔ (
    (unpair : RecordedFrame) × (first (outbound unpaired "server/unpair" "transport") ≡ some unpair)
    × (is_keyed_by long_term (last_with (is_keyed_before unpair.id) unpaired.events) ≡ true)
    × IsRefused unpaired unpair "unpaired")
check_unpair_goodbye-pass_iff_example = check_unpair_goodbye-pass_iff unpaired

abbrev delayed : ℕ → ConnectionRecord
delayed n =
    session
      (frame_on 7 "in" "client/state"
          (("player", obj (object (("output_delay_ms", int (pos n)) ∷ []))) ∷ [])
        ∷ [])
      []

delay-kept : Gives pass (check_restart_keeps_output_delay (delayed 20) (delayed 20) (some (pos 20)))
unfolding check_restart_keeps_output_delay
delay-kept = refl

delay-lost : Gives fail (check_restart_keeps_output_delay (delayed 20) (delayed 0) (some (pos 20)))
unfolding check_restart_keeps_output_delay
delay-lost = refl

delay_unreported-raises :
    check_restart_keeps_output_delay (delayed 10) (delayed 20) (some (pos 20)) ≡ none
unfolding check_restart_keeps_output_delay
delay_unreported-raises = refl

check_restart_keeps_output_delay-none_iff_example :
    (check_restart_keeps_output_delay (delayed 10) (delayed 20) (some (pos 20)) ≡ none) ↔ (
      (n : ℤ) × (some (pos 20) ≡ some n)
      × All
          (λ f. is_delay n (output_delay f) ≡ false)
          (inbound (delayed 10) "client/state" "transport"))
check_restart_keeps_output_delay-none_iff_example =
    check_restart_keeps_output_delay-none_iff (delayed 10) (delayed 20) (some (pos 20))
