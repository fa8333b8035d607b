-- ===== src/Validator/Checks/Order.antt =====
-- src/conformance/validator/checks.py: when CORE-ORDER-001 fails, and when CORE-INIT-004 raises.
use conformance.Prelude.{
  List-cases, eq_iff, String, ◌&&◌, str_eq, ◌≡◌, refl, sym, ap, ◌∙◌, ◌↔◌, ◌⊎◌, inl, inr, Bool, true,
  false, none, some, List, [], ◌∷◌, ◌++◌, arith, Bool-cases, Option-cases, is_empty, filter, All,
  clash, is_empty→nil,
}
use conformance.Json.{Value, null, bool, int, real, str, arr, obj, get, as_text}
use conformance.Validator.Findings.{Verdict, fail}
use conformance.Validator.Record.{
  RecordedFrame, ConnectionRecord, payload_or_empty, message_field, is_inbound, has_type,
}
use conformance.Validator.Checks.{Findings, client_init}
use conformance.Validator.Checks.Opening.{
  is_transport, is_activation, before_activation, is_early, early_frames, is_suite,
  judge_client_init, check_nothing_before_activation, check_init_suite,
}

-- The check returns one finding, with this verdict.
abbrev pub Gives : Verdict → Findings → Type 0
Gives v (some (f ∷ [])) = f.verdict ≡ v
Gives v _ = ⊥

-- A frame of the list that the client must not send before the validator's first server/activate.
pub record Early (frames : List RecordedFrame) : Type 0 where
  pub before : List RecordedFrame
  pub frame : RecordedFrame
  pub after : List RecordedFrame
  pub placed : frames ≡ before ++ (frame ∷ after)
  pub unactivated : All (λ f. is_activation f ≡ false) before
  pub forbidden : is_early frame ≡ true

not_both : (f : RecordedFrame) → is_early f ≡ true → is_activation f ≡ false
not_both f h = ground (arith, h)

push :
    (f : RecordedFrame) (fs : List RecordedFrame)
    → is_activation f ≡ false
    → Early fs
    → Early (f ∷ fs)
push f fs quiet e = record {
  before = f ∷ e.before;
  frame = e.frame;
  after = e.after;
  placed = ap (λ z. f ∷ z) e.placed;
  unactivated = (quiet, e.unactivated);
  forbidden = e.forbidden;
}

-- Where the list is empty or not: the frame is the first, or later and the first is no activation.
pop :
    (f : RecordedFrame) (fs : List RecordedFrame)
    → Early (f ∷ fs)
    → (is_early f ≡ true) ⊎ ((is_activation f ≡ false) × Early fs)
pop f fs e = go e.before e.frame e.after e.placed e.unactivated e.forbidden
  where
    go :
        (before : List RecordedFrame) (g : RecordedFrame) (after : List RecordedFrame)
        → f ∷ fs ≡ before ++ (g ∷ after)
        → All (λ z. is_activation z ≡ false) before
        → is_early g ≡ true
        → (is_early f ≡ true) ⊎ ((is_activation f ≡ false) × Early fs)
    go [] g after placed quiet early =
        let same : f ≡ g = cc (placed) in inl (ap is_early same ∙ early)
    go (b ∷ bs) g after placed quiet early =
        let same : f ≡ b = cc (placed) in
        inr (
          ap is_activation same ∙ quiet.0,
          record {
            before = bs;
            frame = g;
            after = after;
            placed = cc (placed);
            unactivated = quiet.1;
            forbidden = early;
          },
        )

before_activation-Early :
    (fs : List RecordedFrame)
    → (is_empty (filter is_early (before_activation fs)) ≡ false) ↔ Early fs
unfolding before_activation
before_activation-Early [] = (λ h. cc, λ e. absurd (nowhere e.before e.frame e.after e.placed))
  where
    nowhere :
        (before : List RecordedFrame) (g : RecordedFrame) (after : List RecordedFrame)
        → [] ≡ before ++ (g ∷ after)
        → ⊥
    nowhere [] g after h = cc
    nowhere (b ∷ bs) g after h = cc
before_activation-Early (f ∷ fs) =
    let rest = before_activation-Early fs in
    elim (Bool-cases (is_early f)) [
      | inl y ↦
          let quiet = not_both f y in
          rw (quiet, y)
            (
              λ h. record {
                before = [];
                frame = f;
                after = fs;
                placed = refl;
                unactivated = tt;
                forbidden = y;
              },
              λ e. refl,
            )
      | inr n ↦ elim (Bool-cases (is_activation f)) [
        | inl active ↦ rw active (
          λ h. cc,
          λ e. elim (pop f fs e) [ inl k ↦ absurd (clash k n) | inr k ↦ absurd (clash active k.0) ],
        )
        | inr quiet ↦
            rw (quiet, n, before_activation)
              (
                λ h. push f fs quiet (rest.0 h),
                λ e. elim (pop f fs e) [ inl k ↦ absurd (clash k n) | inr k ↦ rest.1 k.1 ],
              )
      ]
    ]

module _ (r : ConnectionRecord) where
  -- CORE-ORDER-001 fails exactly when the client sent, over the transport and before the validator's
  -- first server/activate, a frame that is neither client/hello nor client/goodbye.
  pub check_nothing_before_activation-fail_iff :
      Gives fail (check_nothing_before_activation r) ↔ Early (filter is_transport r.frames)
  unfolding check_nothing_before_activation early_frames
  check_nothing_before_activation-fail_iff =
      let early = before_activation-Early (filter is_transport r.frames) in
      elim (Bool-cases
        (is_empty (filter is_early (before_activation (filter is_transport r.frames))))) [
          | inr some' ↦ elim (Bool-cases (is_empty (filter is_transport r.frames))) [
            | inl nothing ↦
                let nil = is_empty→nil (filter is_transport r.frames) nothing in
                cc (rw (nil, before_activation) at some')
            | inr filled ↦ rw (filled, some') (λ h. early.0 some', λ e. refl)
          ]
          | inl none' ↦ elim (Bool-cases (is_empty (filter is_transport r.frames))) [
            | inl nothing ↦ rw nothing (λ h. cc, λ e. absurd (clash none' (early.1 e)))
            | inr filled ↦ rw (filled, none') (λ h. cc, λ e. absurd (clash none' (early.1 e)))
          ]
        ]

-- A list or an object, which Python cannot hash.
abbrev pub IsUnhashable : Value → Type 0
IsUnhashable (arr vs) = Unit
IsUnhashable (obj fs) = Unit
IsUnhashable _ = ⊥

is_suite-IsUnhashable : (v : Value) → (is_suite v ≡ none) ↔ IsUnhashable v
is_suite-IsUnhashable (arr vs) = (λ h. tt, λ h. refl)
is_suite-IsUnhashable (obj fs) = (λ h. tt, λ h. refl)
is_suite-IsUnhashable null = (λ h. cc, λ h. absurd h)
is_suite-IsUnhashable (bool b) = (λ h. cc, λ h. absurd h)
is_suite-IsUnhashable (int n) = (λ h. cc, λ h. absurd h)
is_suite-IsUnhashable (real x) = (λ h. cc, λ h. absurd h)
is_suite-IsUnhashable (str s) = (λ h. cc, λ h. absurd h)

-- A client/init that the client sent in the clear.
abbrev pub IsClientInit : RecordedFrame → Type 0
IsClientInit f =
    (f.direction ≡ "in") × (f.phase ≡ "cleartext") × (message_field "type" f ≡ str "client/init")

is_text_iff :
    (t : String) (v : Value)
    → (elim (as_text v) [ none ↦ false | some s ↦ str_eq s t ] ≡ true) ↔ (v ≡ str t)
is_text_iff t (str s) = (λ h. ap str ((eq_iff s t).0 h), λ h. (eq_iff s t).1 (cc (h)))
is_text_iff t null = (λ h. cc, λ h. cc)
is_text_iff t (bool b) = (λ h. cc, λ h. cc)
is_text_iff t (int n) = (λ h. cc, λ h. cc)
is_text_iff t (real x) = (λ h. cc, λ h. cc)
is_text_iff t (arr vs) = (λ h. cc, λ h. cc)
is_text_iff t (obj fs) = (λ h. cc, λ h. cc)

opens : RecordedFrame → Bool
opens f = is_inbound f && str_eq f.phase "cleartext" && has_type "client/init" f

opens-IsClientInit : (f : RecordedFrame) → (opens f ≡ true) ↔ IsClientInit f
unfolding opens
opens-IsClientInit f =
    let sent = eq_iff f.direction "in" in
    let clear = eq_iff f.phase "cleartext" in
    let typed = is_text_iff "client/init" (message_field "type" f) in
    elim (Bool-cases (is_inbound f)) [
      | inr n ↦ rw n (λ h. cc, λ h. absurd (clash (sent.1 h.0) n))
      | inl s ↦ elim (Bool-cases (str_eq f.phase "cleartext")) [
        | inr n ↦ rw (s, n) (λ h. cc, λ h. absurd (clash (clear.1 h.1) n))
        | inl c ↦ rw (s, c) (λ h. (sent.0 s, clear.0 c, typed.0 h), λ h. typed.1 h.2)
      ]
    ]

other :
    (f g : RecordedFrame) (b : Bool)
    → g ≡ f
    → is_suite (get "suite" (payload_or_empty g)) ≡ none
    → is_suite (get "suite" (payload_or_empty f)) ≡ some b
    → ⊥
other f g b same raises held =
    let moved = ap (λ z. is_suite (get "suite" (payload_or_empty z))) same in
    let nothing : none ≡ some b = sym raises ∙ moved ∙ held in cc (nothing)

module _ (r : ConnectionRecord) where
  judged-none_iff : (check_init_suite r ≡ none) ↔ (
      (client_init r ≡ none)
      ⊎ ((f : RecordedFrame) × (client_init r ≡ some (some f))
          × (is_suite (get "suite" (payload_or_empty f)) ≡ none)))
  unfolding check_init_suite judge_client_init
  judged-none_iff = elim (Option-cases (client_init r)) [
    | inl empty ↦ rw empty (λ h. inl refl, λ h. refl)
    | inr (none, e) ↦ rw e (λ h. cc, λ h. elim h [ inl k ↦ cc (k) | inr k ↦ cc (k.1) ])
    | inr (some f, e) ↦ elim (Option-cases (is_suite (get "suite" (payload_or_empty f)))) [
      | inl raises ↦ rw (e, raises) (λ h. inr (f, refl, raises), λ h. refl)
      | inr (true, held) ↦
          rw (e, held)
            (
              λ h. cc,
              λ h. elim h [
                | inl k ↦ cc (k)
                | inr k ↦ absurd (other f k.0 true (cc (k.1)) k.2 held)
              ],
            )
      | inr (false, held) ↦
          rw (e, held)
            (
              λ h. cc,
              λ h. elim h [
                | inl k ↦ cc (k)
                | inr k ↦ absurd (other f k.0 false (cc (k.1)) k.2 held)
              ],
            )
    ]
  ]

  client_init-none_iff : (client_init r ≡ none) ↔ (r.frames ≡ [])
  unfolding client_init
  client_init-none_iff = elim (List-cases r.frames) [
    | inl empty ↦ rw (empty, client_init) (λ h. refl, λ h. refl)
    | inr (f, fs, placed) ↦ rw (placed, client_init) (λ h. cc, λ h. cc)
  ]

  client_init-some_iff :
      (f : RecordedFrame)
      → (client_init r ≡ some (some f))
        ↔ ((fs : List RecordedFrame) × (r.frames ≡ f ∷ fs) × IsClientInit f)
  unfolding client_init opens
  client_init-some_iff f = elim (List-cases r.frames) [
    | inl empty ↦ rw (empty, client_init) (λ h. cc, λ h. cc (h.1))
    | inr (g, gs, placed) ↦ elim (Bool-cases (opens g)) [
      | inl y ↦
          rw (placed, client_init, y)
            (
              λ h.
                  let same : g ≡ f = cc (h) in
                  (gs, ap (λ z. z ∷ gs) same, (opens-IsClientInit f).0 (sym (ap opens same) ∙ y)),
              λ h. let same : g ≡ f = cc (h.1) in ap (λ z. some (some z)) same,
            )
      | inr n ↦
          rw (placed, client_init, n)
            (
              λ h. cc,
              λ h.
                  let same : g ≡ f = cc (h.1) in
                  absurd (clash (ap opens same ∙ (opens-IsClientInit f).1 h.2) n),
            )
    ]
  ]

  -- CORE-INIT-004 returns no verdict exactly when nothing was recorded on the connection, or when
  -- the first frame on it is a client/init of the client, in the clear, whose suite is a list or an
  -- object.
  pub check_init_suite-none_iff : (check_init_suite r ≡ none) ↔ (
      (r.frames ≡ [])
      ⊎ ((f : RecordedFrame) × (fs : List RecordedFrame) × (r.frames ≡ f ∷ fs)
          × IsClientInit f
          × IsUnhashable (get "suite" (payload_or_empty f))))
  check_init_suite-none_iff = (
    λ h. elim (judged-none_iff.0 h) [
      | inl k ↦ inl (client_init-none_iff.0 k)
      | inr (f, opened, raises) ↦
          let (fs, placed, init) = (client_init-some_iff f).0 opened in
          inr (f, fs, placed, init, (is_suite-IsUnhashable _).0 raises)
    ],
    λ h. judged-none_iff.1 (elim h [
      | inl k ↦ inl (client_init-none_iff.1 k)
      | inr (f, fs, placed, init, bad) ↦ inr (
        f,
        (client_init-some_iff f).1 (fs, placed, init),
        (is_suite-IsUnhashable (get "suite" (payload_or_empty f))).1 bad,
      )
    ]),
  )
