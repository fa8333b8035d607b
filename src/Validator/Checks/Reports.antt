-- ===== src/Validator/Checks/Reports.antt =====
-- src/conformance/validator/checks.py: each check of the opening, up to client/hello, returns one
-- finding.
use conformance.Prelude.{
  String, ◌≡◌, refl, Bool, true, false, not, ◌&&◌, Option, none, some, [], ◌∷◌, str_eq,
  if◌then◌else◌, ◌>>=◌, is_empty, any, filter,
}
use conformance.Json.{Fields, get}
use conformance.Validator.Findings.{Message}
use conformance.Validator.Record.{
  RecordedFrame, ConnectionRecord, payload_or_empty, inbound, outbound, first, first_with,
  is_rejected, is_inbound,
}
use conformance.Validator.Checks.{say_of, Findings, client_init, client_hello}
use conformance.Validator.Checks.Opening.{
  is_client_id, is_one, is_suite, noise_payload_reason, judge_client_init, judge_message_2,
  judge_no_hello, init_undefined, is_transport, early_frames, check_opens_with_client_init,
  check_client_id, check_init_version, check_init_suite, check_init_fields, check_noise_message_2,
  check_nothing_before_activation, check_hello_sent,
}

-- The check raises, or returns one finding, under its own id.
abbrev pub Reports : String → Findings → Type 0
Reports id none = Unit
Reports id (some (f ∷ [])) = f.id ≡ id
Reports id (some _) = ⊥

module _ (id : String) where
  pub either :
      (test : Bool) (a b : Findings)
      → Reports id a
      → Reports id b
      → Reports id (if test then a else b)
  either true a b h k = h
  either false a b h k = k

  pub split :
      {A : Type 0} (o : Option A) (a : Findings) (b : A → Findings)
      → Reports id a
      → ((x : A) → Reports id (b x))
      → Reports id (elim o [ none ↦ a | some x ↦ b x ])
  split none a b h k = h
  split (some x) a b h k = k x

  pub bound :
      {A : Type 0} (o : Option A) (b : A → Findings)
      → ((x : A) → Reports id (b x))
      → Reports id (o >>= b)
  bound none b k = tt
  bound (some x) b k = k x

module _ (r : ConnectionRecord) where
  pub opens-Reports : Reports "CORE-INIT-001" (check_opens_with_client_init r)
  unfolding check_opens_with_client_init
  opens-Reports =
      bound _ (first r.frames) _
        λ opening. bound _ (client_init r) _ λ init. split _ init _ _ refl λ f. refl

  judge_client_init-Reports :
      (id : String) (holds : Fields → Option Bool) (passed : String) (failed : Fields → Message)
      → Reports id (judge_client_init r id holds passed failed)
  unfolding judge_client_init
  judge_client_init-Reports id holds passed failed = bound _ (client_init r) _ λ init.
      split _ init _ _ refl
        λ f. bound _ (holds (payload_or_empty f)) _ λ held. either _ held _ _ refl refl

  pub client_id-Reports : Reports "CORE-INIT-002" (check_client_id r)
  unfolding check_client_id
  client_id-Reports =
      judge_client_init-Reports "CORE-INIT-002"
        (λ payload. some (is_client_id (get "client_id" payload)))
        "client_id is 43 characters of base64url without padding"
        (λ payload.
          say_of "client_id {} is not 43 characters of base64url without padding"
            (get "client_id" payload ∷ []))

  pub version-Reports : Reports "CORE-INIT-003" (check_init_version r)
  unfolding check_init_version
  version-Reports =
      judge_client_init-Reports "CORE-INIT-003" (λ payload. some (is_one (get "version" payload)))
        "version is 1"
        (λ payload. say_of "version is {}, not the integer 1" (get "version" payload ∷ []))

  pub suite-Reports : Reports "CORE-INIT-004" (check_init_suite r)
  unfolding check_init_suite
  suite-Reports =
      judge_client_init-Reports "CORE-INIT-004" (λ payload. is_suite (get "suite" payload))
        "suite is a defined Noise suite"
        (λ payload.
          say_of "suite {} is not one of 25519_AESGCM_SHA256, 25519_ChaChaPoly_SHA256"
            (get "suite" payload ∷ []))

  pub fields-Reports : Reports "CORE-INIT-005" (check_init_fields r)
  unfolding check_init_fields
  fields-Reports =
      bound _ (client_init r) _
        λ init. split _ init _ _ refl λ f. either _ (is_empty (init_undefined f)) _ _ refl refl

  judge_message_2-Reports : (f : RecordedFrame) → Reports "CORE-NOISE-001" (judge_message_2 r f)
  unfolding judge_message_2
  judge_message_2-Reports f =
      split _ (first_with (λ o. str_eq o.reason noise_payload_reason) r.noncompliance) _ _
        (either _ (any (λ g. is_transport g && not (is_inbound g)) r.frames) _ _ refl refl)
        λ o. refl

  pub message_2-Reports : Reports "CORE-NOISE-001" (check_noise_message_2 r)
  unfolding check_noise_message_2
  message_2-Reports =
      split _ (first (inbound r "noise/handshake" "cleartext")) _ _
        (either _ (is_empty (outbound r "server/error" "cleartext")) _ _ refl refl)
        λ f. judge_message_2-Reports f

  pub order-Reports : Reports "CORE-ORDER-001" (check_nothing_before_activation r)
  unfolding check_nothing_before_activation
  order-Reports =
      either _ (is_empty (filter is_transport r.frames)) _ _ refl
        (either _ (is_empty (early_frames r)) _ _ refl refl)

  no_hello-Reports : (f : RecordedFrame) → Reports "CORE-HELLO-001" (judge_no_hello r f)
  unfolding judge_no_hello
  no_hello-Reports f =
      split _ (first (inbound r "client/goodbye" "transport")) _ _
        (either _ (is_rejected r) _ _ refl refl) λ g. refl

  pub hello_sent-Reports : Reports "CORE-HELLO-001" (check_hello_sent r)
  unfolding check_hello_sent
  hello_sent-Reports =
      split _ (client_hello r) _ _
        (split _ (first (outbound r "server/hello" "transport")) _ _ refl λ f. no_hello-Reports f)
        λ f. refl
