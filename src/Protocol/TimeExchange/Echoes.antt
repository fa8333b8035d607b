-- ===== src/Protocol/TimeExchange/Echoes.antt =====
-- That a passing exchange of src/conformance/protocol.py answers only what was received.
use conformance.Prelude.{
  ℕ, ◌+◌, ◌≤◌, ◌≡◌, refl, sym, ap, inl, inr, Bool, true, false, ◌&&◌, Option, none, some, List, [],
  ◌∷◌, ◌++◌, arith, ◌==◌, Bool-cases, Option-cases, All, List-cases, clash, ℤ, ◌≤ℤ◌, ltb_ℤ, eqb_ℤ,
  eqb_ℤ→eq, eqb_ℤ_refl,
}
use mathlib.Core.Path.{subst}
use mathlib.Core.Option.{some-injective}
use conformance.Json.{Items, Value, arr, items, Fields, get, as_integer}
use conformance.Protocol.TimeExchange.{
  TimeEntry, other_sent, client_time, server_time, time_entry, sent_value, server_time_defects,
  integer_at, Pending, Exchange, no_exchange, find_echo, remove_item, TimeStep, go, stop,
  on_client_time, on_echo, on_server_time, time_step, time_run, judge_exchange,
  time_exchange_violation,
}

abbrev go_or : Exchange → TimeStep → Exchange
go_or x (go y) = y
go_or x (stop r) = x

go-injective : {x y : Exchange} → go x ≡ go y → x ≡ y
go-injective {x} h = ap (go_or x) h

abbrev one_if : Bool → ℕ
one_if true = 1
one_if false = 0

abbrev one_if_equal : ℤ → Option ℤ → ℕ
one_if_equal t none = 0
one_if_equal t (some s) = one_if (eqb_ℤ s t)

-- Whether an entry is a client/time with this client_transmitted, or a server/time that echoes it.
abbrev pub carries : ℤ → Option TimeEntry → ℕ
carries t (some (client_time payload)) = one_if_equal t (as_integer (sent_value payload))
carries t _ = 0

abbrev pub echoes : ℤ → Option TimeEntry → ℕ
echoes t (some (server_time payload)) = one_if (eqb_ℤ (integer_at "client_transmitted" payload) t)
echoes t _ = 0

-- How often a client/time of the trace carries the value, and a server/time echoes it.
abbrev pub times_received : ℤ → List Value → ℕ
times_received t [] = 0
times_received t (v ∷ vs) = carries t (time_entry v) + times_received t vs

abbrev pub times_echoed : ℤ → List Value → ℕ
times_echoed t [] = 0
times_echoed t (v ∷ vs) = echoes t (time_entry v) + times_echoed t vs

abbrev pending : ℤ → List Pending → ℕ
pending t [] = 0
pending t ((p, s) ∷ rest) = one_if (eqb_ℤ s t) + pending t rest

pending-append : (t : ℤ) (a b : List Pending) → pending t (a ++ b) ≡ pending t a + pending t b
pending-append t [] b = omega arith
pending-append t ((p, s) ∷ a) b = omega (arith, pending-append t a b)

found-value :
    (e : ℤ) (item : Pending) (ps : List Pending)
    → find_echo e ps ≡ some item
    → eqb_ℤ item.1 e ≡ true
unfolding find_echo
found-value e item [] h = cc
found-value e item ((p, s) ∷ ps) h = elim (Bool-cases (eqb_ℤ s e)) [
  | inl same ↦
      subst (λ (i : Pending). eqb_ℤ i.1 e ≡ true) (some-injective (p, s) item (rw same at h)) same
  | inr other ↦ found-value e item ps (rw other at h)
]

abbrev same_item : Pending → Pending → Bool
same_item i j = i.0 == j.0 && eqb_ℤ i.1 j.1

same_item→eq : (i j : Pending) → same_item i j ≡ true → i.1 ≡ j.1
same_item→eq i j h = ground (arith, eqb_ℤ→eq i.1 j.1)

same_item_refl : (i : Pending) → same_item i i ≡ true
same_item_refl i = ground (arith, eqb_ℤ_refl i.1)

-- The item found carries the value, and taking it out lowers the count of its value alone.
pending-remove_item :
    (t e : ℤ) (item : Pending) (ps : List Pending)
    → find_echo e ps ≡ some item
    → pending t (remove_item item ps) + one_if (eqb_ℤ e t) ≡ pending t ps
unfolding find_echo remove_item
pending-remove_item t e item [] h = cc
pending-remove_item t e item ((p, s) ∷ ps) h = elim (Bool-cases (eqb_ℤ s e)) [
  | inl same ↦
      let here : ◌≡◌ {A = Pending} (p, s) item = some-injective (p, s) item (rw same at h) in
      rw (← here, same_item_refl (p, s), ← eqb_ℤ→eq s e same) (omega arith)
  | inr other ↦
      let h' : find_echo e ps ≡ some item = rw other at h in
      elim (Bool-cases (same_item (p, s) item)) [
        | inl clashes ↦
            absurd (clash (rw (same_item→eq (p, s) item clashes) (found-value e item ps h')) other)
        | inr apart ↦ rw apart (omega (arith, pending-remove_item t e item ps h'))
      ]
]

-- A client/time that goes on carried an integer, and it is pending now.
client-goes :
    (x x' : Exchange) (sent : Value)
    → on_client_time x sent ≡ go x'
    → (s : ℤ) × (as_integer sent ≡ some s)
      × (x'.unanswered ≡ x.unanswered ++ (x.received + 1, s) ∷ [])
unfolding on_client_time
client-goes x x' sent h = elim (Option-cases (as_integer sent)) [
  | inl bad ↦ cc (rw (bad, on_client_time) at h)
  | inr (s, good) ↦ (
    s,
    good,
    ap (λ (y : Exchange). y.unanswered) (sym (go-injective (rw (good, on_client_time) at h))),
  )
]

-- A server/time that goes on has no defect, stamps in order, and echoes an item that was pending.
pub record Answers (x x' : Exchange) (payload : Value) : Type 0 where
  pub no_defect : server_time_defects payload ≡ []
  pub item : Pending
  pub found : find_echo (integer_at "client_transmitted" payload) x.unanswered ≡ some item
  pub in_order :
      ltb_ℤ (integer_at "server_transmitted" payload) (integer_at "server_received" payload) ≡ false
  pub taken : x'.unanswered ≡ remove_item item x.unanswered

echo-goes :
    (x x' : Exchange) (e r s : ℤ) (o : Option Pending)
    → on_echo x e r s o ≡ go x'
    → (item : Pending) × (o ≡ some item)
      × (ltb_ℤ s r ≡ false)
      × (x'.unanswered ≡ remove_item item x.unanswered)
unfolding on_echo
echo-goes x x' e r s none h = cc
echo-goes x x' e r s (some item) h = elim (Bool-cases (ltb_ℤ s r)) [
  | inl late ↦ cc (rw late at h)
  | inr fine ↦
      (item, refl, fine, ap (λ (y : Exchange). y.unanswered) (sym (go-injective (rw fine at h))))
]

server-goes :
    (x x' : Exchange) (payload : Value)
    → on_server_time x payload (server_time_defects payload) ≡ go x'
    → Answers x x' payload
unfolding on_server_time
server-goes x x' payload h = elim (List-cases (server_time_defects payload)) [
  | inr (d, ds, bad) ↦ cc (rw (bad, on_server_time) at h)
  | inl fine ↦
      let (item, found, in_order, taken) =
        echo-goes x x' (integer_at "client_transmitted" payload)
          (integer_at "server_received" payload) (integer_at "server_transmitted" payload)
          (find_echo (integer_at "client_transmitted" payload) x.unanswered)
          (rw (fine, on_server_time) at h) in
      record { no_defect = fine; item = item; found = found; in_order = in_order; taken = taken }
]

-- What goes on keeps the balance: what is received is either echoed or still pending.
balance-step :
    (t : ℤ) (x x' : Exchange) (v : Value) (e : Option TimeEntry)
    → time_step x v e ≡ go x'
    → pending t x'.unanswered + echoes t e ≡ pending t x.unanswered + carries t e
unfolding time_step
balance-step t x x' v none h = cc
balance-step t x x' v (some other_sent) h = rw (← go-injective h) (omega arith)
balance-step t x x' v (some (client_time payload)) h =
    let (s, good, now) = client-goes x x' (sent_value payload) h in
    rw (now, good) (omega (arith, pending-append t x.unanswered ((x.received + 1, s) ∷ [])))
balance-step t x x' v (some (server_time payload)) h =
    let y : Exchange = record x { answered = x.answered + 1 } in
    let a = server-goes y x' payload h in
    rw a.taken (
      omega (
        arith,
        pending-remove_item t (integer_at "client_transmitted" payload) a.item x.unanswered a.found,
      ))

-- An entry that the rules do not object to by itself.
abbrev pub IsSound : Option TimeEntry → Type 0
IsSound none = ⊥
IsSound (some other_sent) = Unit
IsSound (some (client_time payload)) = (s : ℤ) × (as_integer (sent_value payload) ≡ some s)
IsSound (some (server_time payload)) =
    (server_time_defects payload ≡ [])
    × (integer_at "server_received" payload ≤ℤ integer_at "server_transmitted" payload)

step-IsSound :
    (x x' : Exchange) (v : Value) (e : Option TimeEntry) → time_step x v e ≡ go x' → IsSound e
unfolding time_step
step-IsSound x x' v none h = cc
step-IsSound x x' v (some other_sent) h = tt
step-IsSound x x' v (some (client_time payload)) h =
    let (s, good, now) = client-goes x x' (sent_value payload) h in (s, good)
step-IsSound x x' v (some (server_time payload)) h =
    let a = server-goes (record x { answered = x.answered + 1 }) x' payload h in
    (a.no_defect, ground (arith, a.in_order))

-- A run that passes went on at its first entry.
pub run-goes :
    (x : Exchange) (v : Value) (vs : List Value)
    → time_run x (v ∷ vs) ≡ none
    → (x' : Exchange) × (time_step x v (time_entry v) ≡ go x') × (time_run x' vs ≡ none)
unfolding time_run
run-goes x v vs h = split (time_step x v (time_entry v)) refl
  where
    split :
        (s : TimeStep)
        → time_step x v (time_entry v) ≡ s
        → (x' : Exchange) × (time_step x v (time_entry v) ≡ go x') × (time_run x' vs ≡ none)
    split (stop r) e = cc (rw (e, time_run) at h)
    split (go x') e = (x', e, rw (e, time_run) at h)

run-balance :
    (t : ℤ) (x : Exchange) (vs rest : List Value)
    → time_run x (vs ++ rest) ≡ none
    → times_echoed t vs ≤ pending t x.unanswered + times_received t vs
run-balance t x [] rest h = omega arith
run-balance t x (v ∷ vs) rest h =
    let (x', goes, later) = run-goes x v (vs ++ rest) h in
    omega (arith, balance-step t x x' v (time_entry v) goes, run-balance t x' vs rest later)

run-IsSound :
    (x : Exchange) (vs : List Value) → time_run x vs ≡ none → All (λ v. IsSound (time_entry v)) vs
run-IsSound x [] h = tt
run-IsSound x (v ∷ vs) h =
    let (x', goes, later) = run-goes x v vs h in
    (step-IsSound x x' v (time_entry v) goes, run-IsSound x' vs later)

module _ (server : Fields) (vs : Items) (recorded : get "time_exchange" server ≡ arr vs)
    (passes : time_exchange_violation server ≡ none) where
  run-passes : time_run no_exchange (items vs) ≡ none
  unfolding time_exchange_violation
  run-passes = rw (recorded, judge_exchange) at passes

  -- In a recorded exchange that passes every entry is sound: a client/time carries an integer, and
  -- a server/time has its three fields as integers and was not received later than transmitted.
  pub time_exchange_violation-IsSound : All (λ v. IsSound (time_entry v)) (items vs)
  time_exchange_violation-IsSound = run-IsSound no_exchange (items vs) run-passes

  -- At every point of a recorded exchange that passes, each value was echoed at most as often as a
  -- client/time had carried it by then.
  pub time_exchange_violation-echoes :
      (t : ℤ) (before after : List Value)
      → items vs ≡ before ++ after
      → times_echoed t before ≤ times_received t before
  time_exchange_violation-echoes t before after split = omega (
    arith,
    run-balance t no_exchange before after
        (subst (λ l. time_run no_exchange l ≡ none) split run-passes),
  )
