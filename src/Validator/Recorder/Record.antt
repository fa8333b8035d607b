-- ===== src/Validator/Recorder/Record.antt =====
-- src/conformance/validator/recorder.py: what holds of every record.
use conformance.Prelude.{
  ℕ, ◌+◌, String, ◌≡◌, refl, inl, inr, true, Option, none, some, List, [], ◌∷◌, ◌++◌, arith,
  if◌then◌else◌, Bool-cases, length, All, Any, Any-append_left, or_else,
}
use conformance.Json.{
  Value, null, bool, int, real, str, arr, obj, Items, no_item, item, Fields, no_field, field,
}
use conformance.Validator.Record.{RecordedFrame, on_connection}
use conformance.Validator.Recorder.Redaction.{
  is_secret_field, redact_field, redact, redact_items, redact_fields,
}
use conformance.Validator.Recorder.{Recorder, last_frame_in}

-- A value in which each secret field holds the redacted form of some value.
abbrev mutual
  pub Clean : Value → Type 0
  Clean (obj fields) = CleanFields fields
  Clean (arr vs) = CleanItems vs
  Clean _ = Unit

  pub CleanItems : Items → Type 0
  CleanItems no_item = Unit
  CleanItems (item v vs) = Clean v × CleanItems vs

  pub CleanFields : Fields → Type 0
  CleanFields no_field = Unit
  CleanFields (field k v rest) =
      (is_secret_field k ≡ true → (w : Value) × (v ≡ str (redact_field w)))
      × (Clean v × CleanFields rest)

module _ (secrets : List String) where
  field-Clean :
      (k : String) (v kept : Value)
      → Clean kept
      → (is_secret_field k ≡ true
          → (w : Value) × ((if is_secret_field k then str (redact_field v) else kept)
              ≡ str (redact_field w)))
        × Clean (if is_secret_field k then str (redact_field v) else kept)
  field-Clean k v kept clean = elim (Bool-cases (is_secret_field k)) [
    | inl y ↦ rw y (λ h. (v, refl), tt)
    | inr n ↦ rw n (λ h. cc, clean)
  ]

  mutual
    unfolding redact

    redact-Clean : (v : Value) → Clean (redact secrets v)
    redact-Clean (obj fields) = redact_fields-Clean fields
    redact-Clean (arr vs) = redact_items-Clean vs
    redact-Clean (str s) = tt
    redact-Clean null = tt
    redact-Clean (bool b) = tt
    redact-Clean (int n) = tt
    redact-Clean (real x) = tt

    redact_items-Clean : (vs : Items) → CleanItems (redact_items secrets vs)
    redact_items-Clean no_item = tt
    redact_items-Clean (item v vs) = (redact-Clean v, redact_items-Clean vs)

    pub redact_fields-Clean : (fields : Fields) → CleanFields (redact_fields secrets fields)
    redact_fields-Clean no_field = tt
    redact_fields-Clean (field k v rest) =
        let one = field-Clean k v (redact secrets v) (redact-Clean v) in
        (one.0, (one.1, redact_fields-Clean rest))

-- The ids count the frames, from a number on.
abbrev pub Numbered : ℕ → List RecordedFrame → Type 0
Numbered n [] = Unit
Numbered n (f ∷ fs) = (f.id ≡ n) × Numbered (n + 1) fs

-- The frame is one of the list, and of the connection.
abbrev pub Points : List RecordedFrame → Option ℕ → Option ℕ → Type 0
Points frames connection none = Unit
Points frames connection (some n) =
    Any (λ f. (f.id ≡ n) × (on_connection f.connection connection ≡ true)) frames

abbrev pub CleanFrame : RecordedFrame → Type 0
CleanFrame f = elim f.message [ none ↦ Unit | some fields ↦ CleanFields fields ]

pub record IsRecord (r : Recorder) : Type 0 where
  pub numbered : Numbered 1 r.frames
  pub clean : All CleanFrame r.frames
  pub violations : All (λ o. Points r.frames o.connection o.after_frame) r.noncompliance
  pub placed : All (λ e. Points r.frames (some e.connection) e.after_frame) r.events

pub Numbered-snoc :
    (n : ℕ) (fs : List RecordedFrame) (f : RecordedFrame)
    → Numbered n fs
    → f.id ≡ length fs + n
    → Numbered n (fs ++ f ∷ [])
Numbered-snoc n [] f h e = (omega (arith, e), tt)
Numbered-snoc n (g ∷ gs) f h e = (h.0, Numbered-snoc (n + 1) gs f h.1 (omega (arith, e)))

pub Points-append :
    (fs gs : List RecordedFrame) (c after : Option ℕ)
    → Points fs c after
    → Points (fs ++ gs) c after
Points-append fs gs c none h = tt
Points-append fs gs c (some n) h = Any-append_left _ fs gs h

pub last_frame_in-Points :
    (c : Option ℕ) (fs : List RecordedFrame) → Points fs c (last_frame_in c fs)
unfolding last_frame_in
last_frame_in-Points c [] = tt
last_frame_in-Points c (f ∷ fs) = later (last_frame_in c fs) (last_frame_in-Points c fs)
  where
    here : Points (f ∷ fs) c (if on_connection f.connection c then some f.id else none)
    here = elim (Bool-cases (on_connection f.connection c)) [
      | inl y ↦ rw y (inl (refl, y))
      | inr n ↦ rw n tt
    ]

    later :
        (o : Option ℕ)
        → Points fs c o
        → Points (f ∷ fs) c (or_else o (if on_connection f.connection c then some f.id else none))
    later none h = here
    later (some n) h = inr h
