-- ===== src/Protocol/TimeExchange/Prompt.antt =====
-- Exchanges that src/conformance/protocol.py has to pass: a server that answers at once, and a client
-- whose messages nothing was sent after.
use conformance.Prelude.{
  ℕ, ◌+◌, max, ◌≡◌, refl, ◌∙◌, true, false, ◌&&◌, none, some, List, [], ◌∷◌, ◌++◌, map, arith, ◌==◌,
  All, ℤ, ◌≤ℤ◌, ltb_ℤ, eqb_ℤ, eqb_ℤ_refl,
}
use conformance.Json.{Value, obj, arr, int, str, no_field, field, Items, items, Fields, get}
use conformance.Protocol.TimeExchange.{
  time_entry, sent_value, server_time_defects, integer_at, Pending, Exchange, find_echo,
  remove_item, go, on_echo, time_step, judge_unanswered, time_run, judge_exchange,
  time_exchange_violation,
}

-- The entries as an adapter records them.
abbrev pub client_time_value : ℤ → Value
client_time_value t = obj (
    field "type" (str "client/time")
      (field "payload" (obj (field "client_transmitted" (int t) no_field)) no_field))

abbrev pub server_time_value : ℤ → ℤ → ℤ → Value
server_time_value t received transmitted = obj (
    field "type" (str "server/time") (
      field "payload"
        (obj (
          field "client_transmitted" (int t) (
            field "server_received" (int received)
              (field "server_transmitted" (int transmitted) no_field))))
        no_field))

abbrev pub other_sent_value : Value
other_sent_value = obj (field "type" (str "other-sent") no_field)

-- A server that answers each client/time before it reads the next one: a turn is one answered
-- client/time, with its value and the two stamps, or some other message that the server sent.
pub data Turn : Type 0 where
  answer : ℤ → ℤ → ℤ → Turn
  other : Turn

abbrev pub turn_values : List Turn → List Value
turn_values [] = []
turn_values (answer t r s ∷ turns) =
    client_time_value t ∷ server_time_value t r s ∷ turn_values turns
turn_values (other ∷ turns) = other_sent_value ∷ turn_values turns

-- The stamps of a turn are in the order of the server's clock.
abbrev pub InOrder : Turn → Type 0
InOrder (answer t r s) = r ≤ℤ s
InOrder other = Unit

-- An exchange with nothing pending, or one item.
abbrev exchange : List Pending → ℕ → ℕ → ℕ → List ℕ → Exchange
exchange pending n a l passed = record {
  unanswered = pending;
  received = n;
  answered = a;
  latest_answered = l;
  passed_over = passed;
}

later_false : (r s : ℤ) → r ≤ℤ s → ltb_ℤ s r ≡ false
later_false r s h = ground arith

same_false : (p : ℕ) (t : ℤ) → ((p == p) && eqb_ℤ t t) ≡ true
same_false p t = ground (arith, eqb_ℤ_refl t)

find_echo_head : (p : ℕ) (t : ℤ) → find_echo t ((p, t) ∷ []) ≡ some (p, t)
unfolding find_echo
find_echo_head p t = rw (eqb_ℤ_refl t)

remove_item_head : (p : ℕ) (t : ℤ) → remove_item (p, t) ((p, t) ∷ []) ≡ []
unfolding remove_item
remove_item_head p t = rw (same_false p t)

on_echo_answers :
    (p n a l : ℕ) (passed : List ℕ) (t r s : ℤ)
    → r ≤ℤ s
    → on_echo (exchange ((p, t) ∷ []) n a l passed) t r s (find_echo t ((p, t) ∷ []))
      ≡ go (exchange [] n a (max l p) passed)
unfolding on_echo
on_echo_answers p n a l passed t r s h =
    rw (find_echo_head p t, later_false r s h, remove_item_head p t)

-- The exchange behind an answer.
step-server_time :
    (p n a l : ℕ) (passed : List ℕ) (t r s : ℤ)
    → r ≤ℤ s
    → let v = server_time_value t r s in
      time_step (exchange ((p, t) ∷ []) n a l passed) v (time_entry v)
      ≡ go (exchange [] n (a + 1) (max l p) passed)
unfolding time_step time_entry server_time_defects integer_at
step-server_time p n a l passed t r s h = on_echo_answers p n (a + 1) l passed t r s h

run-server_time :
    (p n a l : ℕ) (passed : List ℕ) (t r s : ℤ) (rest : List Value)
    → r ≤ℤ s
    → time_run (exchange ((p, t) ∷ []) n a l passed) (server_time_value t r s ∷ rest)
      ≡ time_run (exchange [] n (a + 1) (max l p) passed) rest
unfolding time_run
run-server_time p n a l passed t r s rest h = rw (step-server_time p n a l passed t r s h, time_run)

run-turns :
    (n a l : ℕ) (passed : List ℕ) (turns : List Turn)
    → All InOrder turns
    → time_run (exchange [] n a l passed) (turn_values turns) ≡ none
unfolding time_run time_entry sent_value
run-turns n a l passed [] h = refl
run-turns n a l passed (other ∷ turns) h = run-turns n a l passed turns h.1
run-turns n a l passed (answer t r s ∷ turns) h =
    run-server_time (n + 1) (n + 1) a l passed t r s (turn_values turns) h.0
    ∙ run-turns (n + 1) (a + 1) (max l (n + 1)) passed turns h.1

judge-silent :
    (x : Exchange) (pending : List Pending)
    → x.latest_answered ≡ 0
    → x.passed_over ≡ []
    → judge_unanswered x pending ≡ none
unfolding judge_unanswered
judge-silent x [] l p = refl
judge-silent x ((n, t) ∷ rest) l p = ground (arith, judge-silent x rest)

run-silent :
    (pending : List Pending) (n : ℕ) (ts : List ℤ)
    → time_run (exchange pending n 0 0 []) (map client_time_value ts) ≡ none
unfolding time_run time_entry sent_value
run-silent pending n [] = judge-silent (exchange pending n 0 0 []) pending refl refl
run-silent pending n (t ∷ ts) = run-silent (pending ++ (n + 1, t) ∷ []) (n + 1) ts

module _ (server : Fields) (vs : Items) (recorded : get "time_exchange" server ≡ arr vs) where
  -- A recorded exchange passes where the server answers each client/time before it reads the next
  -- one, with its two stamps in order, whatever values the messages carry and whatever else it
  -- sends between its answers.
  pub time_exchange_violation-prompt :
      (turns : List Turn)
      → items vs ≡ turn_values turns
      → All InOrder turns
      → time_exchange_violation server ≡ none
  unfolding time_exchange_violation
  time_exchange_violation-prompt turns e h =
      rw (recorded, judge_exchange, e) (run-turns 0 0 0 [] turns h)

  -- A recorded exchange of client/time messages alone, each with an integer, passes, however many
  -- there are.
  pub time_exchange_violation-silent :
      (ts : List ℤ) → items vs ≡ map client_time_value ts → time_exchange_violation server ≡ none
  unfolding time_exchange_violation
  time_exchange_violation-silent ts e = rw (recorded, judge_exchange, e) (run-silent [] 0 ts)
