-- ===== src/Validator/Recorder/Steps.antt =====
-- src/conformance/validator/recorder.py: the recorder as a state machine, and what it keeps.
use conformance.Prelude.{
  ℕ, ◌+◌, String, ◌≡◌, refl, sym, ap, ◌∙◌, inl, inr, ◌||◌, Option, some, List, [], ◌∷◌, ◌++◌,
  append-nil, append_assoc, str_eq, Bool-cases, Option-cases, length, any, All-append, All-imp,
}
use mathlib.Core.Path.{subst}
use mathlib.Core.Option.{some-injective}
use conformance.Json.{obj}
use conformance.Validator.Record.{RecordedFrame, EventKind}
use conformance.Validator.Recorder.{
  ObservedFrame, ObservedNoncompliance, Loaded, loaded, unreadable, crashed, Recorder, new_recorder,
  add_secret, frame_of, message_bytes, record_loaded, decode, observe_frame, noncompliance_of,
  observe_noncompliance, event_of, observe_event,
}
use conformance.Validator.Recorder.Record.{
  redact_fields-Clean, CleanFrame, IsRecord, Numbered-snoc, Points-append, last_frame_in-Points,
}

module _ (loads : List ℕ → Loaded) where
  -- What can happen to a recorder, in any order.
  pub data Step (r : Recorder) : Recorder → Type 0 where
    secret : (s : String) → Step r (add_secret s r)
    frame : (f : ObservedFrame) → Step r (observe_frame loads f r)
    violation : (o : ObservedNoncompliance) → Step r (observe_noncompliance o r)
    event :
        (connection : ℕ) (client_id : String) (kind : EventKind)
        (psk_category detail : Option String)
        → Step r (observe_event connection client_id kind psk_category detail r)

  pub data Reach (r : Recorder) : Recorder → Type 0 where
    here : Reach r r
    next : {s t : Recorder} → Reach r s → Step s t → Reach r t

module _ (loads : List ℕ → Loaded) where
  abbrev Fine : ℕ → RecordedFrame → Type 0
  Fine n g = (g.id ≡ n) × CleanFrame g

  same_Fine : (n : ℕ) (f g : RecordedFrame) → some f ≡ some g → Fine n f → Fine n g
  same_Fine n f g h fine = subst (Fine n) (some-injective _ _ h) fine

  record_loaded-Fine :
      (secrets : List String) (n : ℕ) (f : ObservedFrame) (o : Loaded) (g : RecordedFrame)
      → record_loaded loads secrets (frame_of n f) o ≡ some g
      → Fine n g
  unfolding record_loaded
  record_loaded-Fine secrets n f (loaded (obj fields)) g h =
      same_Fine n _ g h (refl, redact_fields-Clean secrets fields)
  record_loaded-Fine secrets n f (loaded v) g h = same_Fine n _ g h (refl, tt)
  record_loaded-Fine secrets n f (unreadable text) g h = same_Fine n _ g h (refl, tt)
  record_loaded-Fine secrets n f (crashed text) g h = cc

  decode-Fine :
      (r : Recorder) (f : ObservedFrame) (g : RecordedFrame)
      → decode loads r f ≡ some g
      → Fine (length r.frames + 1) g
  unfolding decode
  decode-Fine r f g h = elim (Option-cases f.error) [
    | inr (text, e) ↦ same_Fine (length r.frames + 1) _ g (rw e at h) (refl, tt)
    | inl e ↦ elim (Option-cases (message_bytes f)) [
      | inl m ↦ same_Fine (length r.frames + 1) _ g (rw (e, decode, m) at h) (refl, tt)
      | inr (bytes, m) ↦
          record_loaded-Fine r.secrets (length r.frames + 1) f (loads bytes) g
            (rw (e, decode, m) at h)
    ]
  ]

  -- Every step keeps the record in order.
  Step-IsRecord : {r s : Recorder} → IsRecord r → Step loads r s → IsRecord s
  unfolding add_secret observe_frame observe_noncompliance observe_event
  Step-IsRecord {r} h (secret s) = elim (Bool-cases (str_eq s "" || any (str_eq s) r.secrets)) [
    | inl y ↦ rw y h
    | inr n ↦ rw n (record {
      numbered = h.numbered;
      clean = h.clean;
      violations = h.violations;
      placed = h.placed;
    })
  ]
  Step-IsRecord {r} h (frame f) = elim (Option-cases (decode loads r f)) [
    | inl e ↦
        rw (e, observe_frame)
          (record {
            numbered = h.numbered;
            clean = h.clean;
            violations = h.violations;
            placed = h.placed;
          })
    | inr (g, e) ↦
        let fine = decode-Fine r f g e in
        rw (e, observe_frame)
          (record {
            numbered = Numbered-snoc 1 r.frames g h.numbered fine.0;
            clean = All-append CleanFrame r.frames (g ∷ []) h.clean (fine.1, tt);
            violations =
                All-imp r.noncompliance
                  (λ o k. Points-append r.frames (g ∷ []) o.connection o.after_frame k)
                  h.violations;
            placed =
                All-imp r.events
                  (λ x k. Points-append r.frames (g ∷ []) (some x.connection) x.after_frame k)
                  h.placed;
          })
  ]
  Step-IsRecord {r} h (violation o) = record {
    numbered = h.numbered;
    clean = h.clean;
    violations =
        All-append _ r.noncompliance (noncompliance_of o r ∷ []) h.violations
          (last_frame_in-Points o.connection r.frames, tt);
    placed = h.placed;
  }
  Step-IsRecord {r} h (event connection client_id kind psk_category detail) = record {
    numbered = h.numbered;
    clean = h.clean;
    violations = h.violations;
    placed =
        All-append _ r.events (event_of connection client_id kind psk_category detail r ∷ [])
          h.placed (last_frame_in-Points (some connection) r.frames, tt);
  }

  -- Whatever happens to a new recorder, in any order: the ids of its frames count from 1, no message
  -- has a secret field other than in its redacted form, and each violation and each event is placed
  -- after no frame or after a recorded frame of its own connection.
  pub Reach-IsRecord : {r : Recorder} → Reach loads new_recorder r → IsRecord r
  Reach-IsRecord here = record { numbered = tt; clean = tt; violations = tt; placed = tt }
  Reach-IsRecord (next before step) = Step-IsRecord (Reach-IsRecord before) step

  Step-keeps :
      {r s : Recorder}
      → Step loads r s
      → (more : List RecordedFrame) × (s.frames ≡ r.frames ++ more)
  unfolding add_secret observe_frame observe_noncompliance observe_event
  Step-keeps {r} (secret s) = elim (Bool-cases (str_eq s "" || any (str_eq s) r.secrets)) [
    | inl y ↦ rw y ([], sym (append-nil r.frames))
    | inr n ↦ rw n ([], sym (append-nil r.frames))
  ]
  Step-keeps {r} (frame f) = elim (Option-cases (decode loads r f)) [
    | inl e ↦ rw (e, observe_frame) ([], sym (append-nil r.frames))
    | inr (g, e) ↦ rw (e, observe_frame) (g ∷ [], refl)
  ]
  Step-keeps {r} (violation o) = ([], sym (append-nil r.frames))
  Step-keeps {r} (event connection client_id kind psk_category detail) =
      ([], sym (append-nil r.frames))

  -- No step changes or drops a frame that was recorded: later frames follow it.
  pub Reach-keeps :
      {r s : Recorder}
      → Reach loads r s
      → (more : List RecordedFrame) × (s.frames ≡ r.frames ++ more)
  Reach-keeps {r} here = ([], sym (append-nil r.frames))
  Reach-keeps {r} (next before step) =
      let (more, e) = Reach-keeps before in
      let (last, k) = Step-keeps step in
      (more ++ last, k ∙ ap (λ z. z ++ last) e ∙ append_assoc r.frames more last)
