-- ===== src/Protocol/TimeExchange.antt =====
-- src/conformance/protocol.py: time_exchange_violation, which judges the client/time messages that a
-- server received and the server/time messages that it sent.
pub mod Echoes
pub mod Prompt
use conformance.Prelude.{
  ℕ, ◌+◌, max, String, ◌&&◌, Option, none, some, List, [], ◌∷◌, ◌++◌, map, ltb, ◌==◌, if◌then◌else◌,
  any, ℤ, pos, ltb_ℤ, eqb_ℤ,
}
use conformance.Json.{Value, null, obj, arr, items, Fields, find, get, is_text, as_integer}

-- What an entry of the exchange records, with its payload.
pub data TimeEntry : Type 0 where
  other_sent : TimeEntry
  client_time : Value → TimeEntry
  server_time : Value → TimeEntry

unfoldable pub time_entry : Value → Option TimeEntry
time_entry (obj fs) =
    if is_text "other-sent" (get "type" fs)
    then some other_sent
    else if is_text "client/time" (get "type" fs)
    then some (client_time (get "payload" fs))
    else if is_text "server/time" (get "type" fs)
    then some (server_time (get "payload" fs))
    else none
time_entry _ = none

pub data TimeDefect : Type 0 where
  no_payload : TimeDefect
  omitted : String → TimeDefect
  no_integer : String → Value → TimeDefect

-- The reasons, with the values that their texts name.
pub data TimeReason : Type 0 where
  unrecorded : TimeReason
  foreign_entry : Value → TimeReason
  bad_client_time : ℕ → Value → TimeReason
  bad_server_time : ℕ → List TimeDefect → TimeReason
  unknown_echo : ℕ → ℤ → TimeReason
  received_after_transmitted : ℕ → ℤ → ℤ → TimeReason
  answered_a_later_one : ℕ → ℕ → TimeReason
  sent_another : ℕ → ℕ → TimeReason

-- payload.get("client_transmitted") if isinstance(payload, dict) else None
unfoldable pub sent_value : Value → Value
sent_value (obj fs) = get "client_transmitted" fs
sent_value _ = null

unfoldable pub field_defects : String → Option Value → List TimeDefect
field_defects name none = omitted name ∷ []
field_defects name (some v) = elim (as_integer v) [ none ↦ no_integer name v ∷ [] | some n ↦ [] ]

-- _server_time_defects, over _TIME_FIELDS
unfoldable pub server_time_defects : Value → List TimeDefect
unfolding field_defects
server_time_defects (obj fs) =
    field_defects "client_transmitted" (find "client_transmitted" fs)
    ++ (field_defects "server_received" (find "server_received" fs)
        ++ field_defects "server_transmitted" (find "server_transmitted" fs))
server_time_defects _ = no_payload ∷ []

-- payload[name], which is an integer where the payload has no defect
unfoldable pub integer_at : String → Value → ℤ
integer_at name (obj fs) = elim (as_integer (get name fs)) [ none ↦ pos 0 | some n ↦ n ]
integer_at name _ = pos 0

-- A client/time not yet answered: its position and its client_transmitted.
abbrev pub Pending : Type 0
Pending = ℕ × ℤ

-- The loop's variables.
pub record Exchange : Type 0 where
  pub unanswered : List Pending
  pub received : ℕ
  pub answered : ℕ
  pub latest_answered : ℕ
  pub passed_over : List ℕ

abbrev pub no_exchange : Exchange
no_exchange = record {
  unanswered = [];
  received = 0;
  answered = 0;
  latest_answered = 0;
  passed_over = [];
}

-- next((item for item in unanswered if item[1] == echoed), None)
unfoldable pub find_echo : ℤ → List Pending → Option Pending
find_echo t [] = none
find_echo t ((p, s) ∷ rest) = if eqb_ℤ s t then some (p, s) else find_echo t rest

-- unanswered.remove(item)
unfoldable pub remove_item : Pending → List Pending → List Pending
remove_item item [] = []
remove_item item (i ∷ rest) =
    if i.0 == item.0 && eqb_ℤ i.1 item.1 then rest else i ∷ remove_item item rest

pub data TimeStep : Type 0 where
  go : Exchange → TimeStep
  stop : TimeReason → TimeStep

-- A client/time with this client_transmitted.
unfoldable pub on_client_time : Exchange → Value → TimeStep
on_client_time x sent =
    let received = x.received + 1 in
    elim (as_integer sent) [
      | none ↦ stop (bad_client_time received sent)
      | some t ↦
          go (record x { received = received; unanswered = x.unanswered ++ (received, t) ∷ [] })
    ]

-- A server/time without defects: what it echoes has to be unanswered, and its stamps in order.
unfoldable pub on_echo : Exchange → ℤ → ℤ → ℤ → Option Pending → TimeStep
on_echo x echoed received transmitted none = stop (unknown_echo x.answered echoed)
on_echo x echoed received transmitted (some item) =
    if ltb_ℤ transmitted received
    then stop (received_after_transmitted x.answered received transmitted)
    else go (record x {
      unanswered = remove_item item x.unanswered;
      latest_answered = max x.latest_answered item.0;
    })

unfoldable pub on_server_time : Exchange → Value → List TimeDefect → TimeStep
unfolding on_echo
on_server_time x payload (d ∷ ds) = stop (bad_server_time x.answered (d ∷ ds))
on_server_time x payload [] =
    let echoed = integer_at "client_transmitted" payload in
    on_echo x echoed (integer_at "server_received" payload)
      (integer_at "server_transmitted" payload) (find_echo echoed x.unanswered)

unfoldable pub time_step : Exchange → Value → Option TimeEntry → TimeStep
unfolding on_client_time on_server_time
time_step x entry none = stop (foreign_entry entry)
time_step x entry (some other_sent) =
    go (record x { passed_over = map (λ item. item.0) x.unanswered ++ x.passed_over })
time_step x entry (some (client_time payload)) = on_client_time x (sent_value payload)
time_step x entry (some (server_time payload)) =
    on_server_time (record x { answered = x.answered + 1 }) payload (server_time_defects payload)

-- The loop over what is left unanswered.
unfoldable pub judge_unanswered : Exchange → List Pending → Option TimeReason
judge_unanswered x [] = none
judge_unanswered x ((position, t) ∷ rest) =
    if ltb position x.latest_answered
    then some (answered_a_later_one position x.received)
    else if any (λ p. p == position) x.passed_over && ltb position x.received
    then some (sent_another position x.received)
    else judge_unanswered x rest

unfoldable pub time_run : Exchange → List Value → Option TimeReason
unfolding time_step judge_unanswered
time_run x [] = judge_unanswered x x.unanswered
time_run x (v ∷ vs) = elim (time_step x v (time_entry v)) [
  | stop r ↦ some r
  | go x' ↦ time_run x' vs
]

unfoldable pub judge_exchange : Value → Option TimeReason
unfolding time_run
judge_exchange (arr vs) = time_run no_exchange (items vs)
judge_exchange _ = some unrecorded

unfoldable pub time_exchange_violation : Fields → Option TimeReason
unfolding judge_exchange
time_exchange_violation server = judge_exchange (get "time_exchange" server)
