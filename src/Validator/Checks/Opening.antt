-- ===== src/Validator/Checks/Opening.antt =====
-- src/conformance/validator/checks.py: the checks of the opening of a connection, CORE-INIT, CORE-NOISE,
-- CORE-ORDER and CORE-HELLO-001.
use conformance.Prelude.{
  ℕ, ◌-◌, String, Bool, false, not, ◌&&◌, ◌||◌, Option, none, some, List, [], ◌∷◌, ◌++◌, map,
  str_eq, leb, ◌==◌, if◌then◌else◌, ◌>>=◌, is_empty, any, filter, pos, eqb_ℤ,
}
use Prim.Native.Char.{code}
use conformance.Json.{Value, str, arr, obj, Fields, no_field, get, as_integer}
use conformance.Validator.Findings.{pass, fail, not_applicable, tool_error, Message}
use conformance.Validator.Record.{
  RecordedFrame, is_inbound, has_type, has_type_in, payload_or_empty, ConnectionRecord, inbound,
  outbound, is_rejected, first, first_with,
}
use conformance.Validator.Checks.{
  say, say_of, Findings, report, not_reached, client_init, client_hello, undefined, under, texts,
  what, frame_values,
}

-- CORE-INIT-001
unfoldable pub check_opens_with_client_init : ConnectionRecord → Findings
unfolding client_init
check_opens_with_client_init r = first r.frames >>= λ opening. client_init r >>= λ init. elim init [
  | none ↦
      report "CORE-INIT-001" fail
        (say_of "the client's first frame was not a client/init message ({})" (what opening ∷ []))
        (opening ∷ [])
  | some f ↦ report "CORE-INIT-001" pass (say "the client opened with client/init") (opening ∷ [])
]

-- _judge_client_init; `holds` is none where the test raises.
unfoldable pub judge_client_init :
    ConnectionRecord → String → (Fields → Option Bool) → String → (Fields → Message) → Findings
unfolding client_init
judge_client_init r id holds passed failed = client_init r >>= λ init. elim init [
  | none ↦ report id not_applicable (say "no client/init to judge") []
  | some f ↦ holds (payload_or_empty f) >>= λ held.
      (if held
        then report id pass (say passed) (f ∷ [])
        else report id fail (failed (payload_or_empty f)) (f ∷ []))
]

-- [A-Za-z0-9_-]{43}
abbrev pub is_base64url : ℕ → Bool
is_base64url c =
    (leb b'A' c && leb c b'Z')
    || (leb b'a' c && leb c b'z')
    || (leb b'0' c && leb c b'9')
    || c == b'_'
    || c == b'-'

abbrev pub is_base64url_of : ℕ → String → Bool
is_base64url_of n String.[] = n == 0
is_base64url_of n (String.◌∷◌ c rest) =
    is_base64url (code c) && not (n == 0) && is_base64url_of (n - 1) rest

abbrev pub is_client_id : Value → Bool
is_client_id (str s) = is_base64url_of 43 s
is_client_id _ = false

unfoldable pub check_client_id : ConnectionRecord → Findings
unfolding judge_client_init
check_client_id r =
    judge_client_init r "CORE-INIT-002" (λ payload. some (is_client_id (get "client_id" payload)))
      "client_id is 43 characters of base64url without padding"
      (λ payload.
        say_of "client_id {} is not 43 characters of base64url without padding"
          (get "client_id" payload ∷ []))

-- The integer 1; a bool is not one.
abbrev pub is_one : Value → Bool
is_one v = elim (as_integer v) [ none ↦ false | some n ↦ eqb_ℤ n (pos 1) ]

unfoldable pub check_init_version : ConnectionRecord → Findings
unfolding judge_client_init
check_init_version r =
    judge_client_init r "CORE-INIT-003" (λ payload. some (is_one (get "version" payload)))
      "version is 1"
      (λ payload. say_of "version is {}, not the integer 1" (get "version" payload ∷ []))

-- payload.get("suite") in SUITES, a frozenset: a list and a dict raise TypeError.
abbrev pub is_suite : Value → Option Bool
is_suite (arr vs) = none
is_suite (obj fs) = none
is_suite (str s) = some (str_eq s "25519_ChaChaPoly_SHA256" || str_eq s "25519_AESGCM_SHA256")
is_suite _ = some false

unfoldable pub check_init_suite : ConnectionRecord → Findings
unfolding judge_client_init
check_init_suite r =
    judge_client_init r "CORE-INIT-004" (λ payload. is_suite (get "suite" payload))
      "suite is a defined Noise suite"
      (λ payload.
        say_of "suite {} is not one of 25519_AESGCM_SHA256, 25519_ChaChaPoly_SHA256"
          (get "suite" payload ∷ []))

abbrev pub message_or_empty : RecordedFrame → Fields
message_or_empty f = elim f.message [ none ↦ no_field | some fields ↦ fields ]

unfoldable pub init_undefined : RecordedFrame → List String
unfolding undefined
init_undefined f =
    undefined (message_or_empty f) ("type" ∷ "payload" ∷ []) false
    ++ map (under "payload")
        (undefined (payload_or_empty f) ("client_id" ∷ "version" ∷ "suite" ∷ []) false)

unfoldable pub check_init_fields : ConnectionRecord → Findings
unfolding client_init init_undefined
check_init_fields r = client_init r >>= λ init. elim init [
  | none ↦ report "CORE-INIT-005" not_applicable (say "no client/init to judge") []
  | some f ↦
      if is_empty (init_undefined f)
      then report "CORE-INIT-005" pass (say "client/init has no undefined fields") (f ∷ [])
      else report "CORE-INIT-005" fail
          (say_of "client/init carries undefined fields: {}" (texts (init_undefined f) ∷ []))
          (f ∷ [])
]

abbrev pub noise_payload_reason : String
noise_payload_reason = "Noise message 2 payload is not the literal bytes {}"

abbrev pub is_transport : RecordedFrame → Bool
is_transport f = str_eq f.phase "transport"

-- CORE-NOISE-001, once a Noise message 2 was recorded.
unfoldable pub judge_message_2 : ConnectionRecord → RecordedFrame → Findings
judge_message_2 r message_2 =
    elim (first_with (λ o. str_eq o.reason noise_payload_reason) r.noncompliance) [
      | some rejection ↦ report "CORE-NOISE-001" fail (say rejection.reason) (message_2 ∷ [])
      | none ↦
          if any (λ f. is_transport f && not (is_inbound f)) r.frames
          then report "CORE-NOISE-001" pass
              (say "Noise message 2 carried {} and the handshake completed") (message_2 ∷ [])
          else report "CORE-NOISE-001" tool_error
              (say
                "the handshake ended after Noise message 2 for a reason the validator cannot see")
              (message_2 ∷ [])
    ]

unfoldable pub check_noise_message_2 : ConnectionRecord → Findings
unfolding inbound outbound judge_message_2
check_noise_message_2 r = elim (first (inbound r "noise/handshake" "cleartext")) [
  | some message_2 ↦ judge_message_2 r message_2
  | none ↦
      if is_empty (outbound r "server/error" "cleartext")
      then report "CORE-NOISE-001" tool_error
          (say "the client sent no Noise message 2, so its payload was not seen") []
      else report "CORE-NOISE-001" not_applicable
          (say "the validator answered the opening frame with server/error") []
]

-- The frames before the first server/activate that the validator sent.
abbrev pub is_activation : RecordedFrame → Bool
is_activation f = not (is_inbound f) && has_type "server/activate" f

unfoldable pub before_activation : List RecordedFrame → List RecordedFrame
before_activation [] = []
before_activation (f ∷ fs) =
    let rest = before_activation fs in if is_activation f then [] else f ∷ rest

abbrev pub is_early : RecordedFrame → Bool
is_early f = is_inbound f && not (has_type_in ("client/hello" ∷ "client/goodbye" ∷ []) f)

unfoldable pub early_frames : ConnectionRecord → List RecordedFrame
unfolding before_activation
early_frames r = filter is_early (before_activation (filter is_transport r.frames))

unfoldable pub check_nothing_before_activation : ConnectionRecord → Findings
unfolding early_frames
check_nothing_before_activation r =
    if is_empty (filter is_transport r.frames)
    then report "CORE-ORDER-001" not_applicable (say "the handshake never completed") []
    else if is_empty (early_frames r)
    then report "CORE-ORDER-001" pass
        (say "the client sent nothing but its hello before activation") []
    else report "CORE-ORDER-001" fail
        (say_of "the client sent {} before the initial server/activate"
          (arr (frame_values (early_frames r)) ∷ []))
        (early_frames r)

-- CORE-HELLO-001, where the validator sent server/hello and the client no client/hello.
unfoldable pub judge_no_hello : ConnectionRecord → RecordedFrame → Findings
unfolding inbound is_rejected
judge_no_hello r server_hello = elim (first (inbound r "client/goodbye" "transport")) [
  | some goodbye ↦
      report "CORE-HELLO-001" not_applicable (say "the client said goodbye before its hello")
        (goodbye ∷ [])
  | none ↦
      if is_rejected r
      then not_reached "CORE-HELLO-001"
      else report "CORE-HELLO-001" fail
          (say "the client never answered server/hello with client/hello") (server_hello ∷ [])
]

unfoldable pub check_hello_sent : ConnectionRecord → Findings
unfolding client_hello outbound judge_no_hello
check_hello_sent r = elim (client_hello r) [
  | some hello ↦ report "CORE-HELLO-001" pass (say "the client sent client/hello") (hello ∷ [])
  | none ↦ elim (first (outbound r "server/hello" "transport")) [
    | none ↦ report "CORE-HELLO-001" not_applicable (say "the validator sent no server/hello") []
    | some server_hello ↦ judge_no_hello r server_hello
  ]
]
