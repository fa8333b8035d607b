-- ===== src/Validator/Checks/Single.antt =====
-- src/conformance/validator/checks.py: each check of run_checks returns one finding.
use conformance.Prelude.{
  String, ◌≡◌, refl, ap, not, Option, none, some, List, [], ◌∷◌, ◌++◌, map, ltb, is_empty, filter,
  All,
}
use conformance.Json.{Unicode, Value, arr, obj, get, str}
use conformance.Validator.Findings.{Finding}
use conformance.Validator.Record.{
  RecordedFrame, ConnectionRecord, payload_or_empty, inbound, outbound, first, first_with,
  is_rejected,
}
use conformance.Validator.Checks.{Findings, client_hello, initial_state}
use conformance.Validator.Checks.Run.{checks, reported, run_rows, run_checks}
use conformance.Validator.Checks.Opening.{message_or_empty}
use conformance.Validator.Checks.Hello.{
  support_problems, malformed_roles, method_problems, judge_roles, judge_methods, enabled,
  check_hello_support_objects, check_hello_roles, check_hello_pair_methods,
  check_hello_unpaired_access,
}
use conformance.Validator.Checks.HelloFields.{
  hello_undefined, same_name, check_hello_fields, check_hello_name_matches_txt,
}
use conformance.Validator.Checks.State.{
  has_bool, has_integer, active_roles, inactive_objects, judge_no_state, judge_state_sent,
  check_initial_state_sent, check_state_available, check_state_role_objects, check_time_integer,
}
use conformance.Validator.Checks.Reports.{
  message_2-Reports, Reports, either, split, bound, opens-Reports, client_id-Reports,
  version-Reports, suite-Reports, fields-Reports, order-Reports, hello_sent-Reports,
}

-- A pair, to the right: the proofs for the rows of a table.
infixr 2 ◌&◌
abbrev ◌&◌ : {A B : Type 0} → A → B → A × B
a & b = (a, b)

module _ (r : ConnectionRecord) where
  support-Reports : Reports "CORE-HELLO-002" (check_hello_support_objects r)
  unfolding check_hello_support_objects
  support-Reports =
      split _ (client_hello r) _ _ refl
        λ f. either _ (is_empty (support_problems (payload_or_empty f))) _ _ refl refl

  judge_methods-Reports :
      (f : RecordedFrame) (v : Value) → Reports "CORE-HELLO-004" (judge_methods f v)
  unfolding judge_methods
  judge_methods-Reports f (obj methods) =
      either _ (is_empty (method_problems methods)) _ _ refl refl
  judge_methods-Reports f Value.null = refl
  judge_methods-Reports f (Value.bool b) = refl
  judge_methods-Reports f (Value.int n) = refl
  judge_methods-Reports f (Value.real x) = refl
  judge_methods-Reports f (str s) = refl
  judge_methods-Reports f (arr vs) = refl

  methods-Reports : Reports "CORE-HELLO-004" (check_hello_pair_methods r)
  unfolding check_hello_pair_methods
  methods-Reports =
      split _ (client_hello r) _ _ refl
        λ f. judge_methods-Reports f (get "supported_pair_methods" (payload_or_empty f))

  access-Reports : Reports "CORE-HELLO-005" (check_hello_unpaired_access r)
  unfolding check_hello_unpaired_access
  access-Reports =
      split _ (client_hello r) _ _ refl
        λ f. split _ (enabled (get "unpaired_access" (payload_or_empty f))) _ _ refl λ b. refl

  hello_fields-Reports : Reports "CORE-HELLO-006" (check_hello_fields r)
  unfolding check_hello_fields
  hello_fields-Reports = split _ (client_hello r) _ _ refl λ f.
      either _ (is_empty (hello_undefined (message_or_empty f) (payload_or_empty f))) _ _ refl refl

  name-Reports :
      (name : Option String) → Reports "CORE-HELLO-007" (check_hello_name_matches_txt r name)
  unfolding check_hello_name_matches_txt
  name-Reports none = refl
  name-Reports (some name) =
      split _ (client_hello r) _ _ refl
        λ f. either _ (same_name (get "name" (payload_or_empty f)) name) _ _ refl refl

  judge_no_state-Reports :
      (f : RecordedFrame) (names : List String)
      → Reports "CORE-STATE-001" (judge_no_state r f names)
  unfolding judge_no_state
  judge_no_state-Reports f names =
      split _ (first_with (λ g. ltb f.id g.id) (inbound r "client/goodbye" "transport")) _ _
        (either _ (is_rejected r) _ _ refl refl) λ g. refl

  judge_state_sent-Reports :
      (f : RecordedFrame) (names : List String)
      → Reports "CORE-STATE-001" (judge_state_sent r f names)
  unfolding judge_state_sent
  judge_state_sent-Reports f [] = refl
  judge_state_sent-Reports f (name ∷ names) =
      split _ (initial_state r) _ _ (judge_no_state-Reports f (name ∷ names)) λ g. refl

  state_sent-Reports : Reports "CORE-STATE-001" (check_initial_state_sent r)
  unfolding check_initial_state_sent
  state_sent-Reports =
      split _ (first (outbound r "server/activate" "transport")) _ _ refl
        λ f. bound _ (active_roles r (initial_state r)) _ λ names. judge_state_sent-Reports f names

  available-Reports : Reports "CORE-STATE-002" (check_state_available r)
  unfolding check_state_available
  available-Reports =
      either "CORE-STATE-002" (is_empty (inbound r "client/state" "transport")) _ _ refl (
        either "CORE-STATE-002"
          (is_empty
            (filter (λ f. not (has_bool "available" f)) (inbound r "client/state" "transport")))
          _ _ refl refl)

  objects-Reports : Reports "CORE-STATE-003" (check_state_role_objects r)
  unfolding check_state_role_objects
  objects-Reports = split _ (initial_state r) _ _ refl λ f.
      bound _ (active_roles r (some f)) _
        λ names. either _ (is_empty (inactive_objects names (payload_or_empty f))) _ _ refl refl

  time-Reports : Reports "CORE-TIME-001" (check_time_integer r)
  unfolding check_time_integer
  time-Reports = either "CORE-TIME-001" (is_empty (inbound r "client/time" "transport")) _ _ refl (
      either "CORE-TIME-001"
        (is_empty (
          filter (λ f. not (has_integer "client_transmitted" f))
            (inbound r "client/time" "transport")))
        _ _ refl refl)

module _ ⦃u : Unicode⦄ (r : ConnectionRecord) where
  judge_roles-Reports : (f : RecordedFrame) (v : Value) → Reports "CORE-HELLO-003" (judge_roles f v)
  unfolding judge_roles
  judge_roles-Reports f (arr vs) = either _ (is_empty (malformed_roles vs)) _ _ refl refl
  judge_roles-Reports f Value.null = refl
  judge_roles-Reports f (Value.bool b) = refl
  judge_roles-Reports f (Value.int n) = refl
  judge_roles-Reports f (Value.real x) = refl
  judge_roles-Reports f (str s) = refl
  judge_roles-Reports f (obj fields) = refl

  roles-Reports : Reports "CORE-HELLO-003" (check_hello_roles r)
  unfolding check_hello_roles
  roles-Reports =
      split _ (client_hello r) _ _ refl
        λ f. judge_roles-Reports f (get "supported_roles" (payload_or_empty f))

  -- A row of the table of checks, with the check at this record.
  abbrev pub RowReports : String × (ConnectionRecord → Findings) → Type 0
  RowReports row = Reports row.0 (row.1 r)

  pub checks-Reports : (txt_name : Option String) → All RowReports (checks txt_name)
  unfolding checks
  checks-Reports txt_name =
      opens-Reports r
      & client_id-Reports r
      & version-Reports r
      & suite-Reports r
      & fields-Reports r
      & message_2-Reports r
      & order-Reports r
      & hello_sent-Reports r
      & support-Reports r
      & roles-Reports
      & methods-Reports r
      & access-Reports r
      & hello_fields-Reports r
      & name-Reports r txt_name
      & state_sent-Reports r
      & available-Reports r
      & objects-Reports r
      & time-Reports r
      & tt

  reported-ids :
      (id : String) (o : Findings) (rest : List Finding) (ids : List String)
      → Reports id o
      → map (λ f. f.id) rest ≡ ids
      → map (λ f. f.id) (reported id o ++ rest) ≡ id ∷ ids
  unfolding reported
  reported-ids id none rest ids h k = ap (λ z. id ∷ z) k
  reported-ids id (some (f ∷ [])) rest ids h k = cc (h, k)
  reported-ids id (some []) rest ids h k = absurd h
  reported-ids id (some (f ∷ g ∷ fs)) rest ids h k = absurd h

  run_rows-ids :
      (rows : List (String × (ConnectionRecord → Findings)))
      → All RowReports rows
      → map (λ f. f.id) (run_rows r rows) ≡ map (λ row. row.0) rows
  unfolding run_rows
  run_rows-ids [] h = refl
  run_rows-ids (row ∷ rows) h =
      reported-ids row.0 (row.1 r) (run_rows r rows) (map (λ x. x.0) rows) h.0
        (run_rows-ids rows h.1)

  -- For any record of a connection, also one on which nothing was recorded, run_checks returns one
  -- finding for each of its eighteen checks, under the check's id and in their order: a check that
  -- raises is reported too.
  pub run_checks-ids :
      (txt_name : Option String)
      → map (λ f. f.id) (run_checks r txt_name) ≡ map (λ row. row.0) (checks txt_name)
  unfolding run_checks
  run_checks-ids txt_name = run_rows-ids (checks txt_name) (checks-Reports txt_name)
