-- ===== src/Formats/Negotiated/Exact.antt =====
-- What the negotiation scan of src/conformance/declared_formats.py returns.
use conformance.Prelude.{
  ◌≡◌, sym, ap, ◌∙◌, ◌≢◌, ◌↔◌, ◌⊎◌, inl, inr, true, false, Option, none, some, List, [], ◌∷◌, ◌++◌,
  map, Bool-cases, All, Any, In, Distinct, In-snoc_iff,
}
use mathlib.Core.Option.{some-injective}
use conformance.Json.{Value, Fields, Unicode}
use conformance.Formats.Format.{
  AudioFormat, normalized_format, format_key, same_key, same_key→eq, same_key_refl,
  format_key_injective,
}
use conformance.Formats.Negotiated.{
  Source, Negotiated, candidates, add_source, note_candidate, negotiate, negotiated_formats,
}

-- The entry observes this format in this summary field.
abbrev pub Observes : AudioFormat → Source → Negotiated → Type 0
Observes f s n = (n.format ≡ f) × In s n.sources

abbrev pub formats : List Negotiated → List AudioFormat
formats = map (λ n. n.format)

key_eq : (f g : AudioFormat) → same_key (format_key f) (format_key g) ≡ true → f ≡ g
key_eq f g h = format_key_injective f g (same_key→eq (format_key f) (format_key g) h)

key_ne : (f g : AudioFormat) → same_key (format_key f) (format_key g) ≡ false → f ≢ g
key_ne f g h e =
    cc (same_key_refl (format_key f), ap (λ x. same_key (format_key f) (format_key x)) e)

module _ (g : AudioFormat) (t : Source) (f : AudioFormat) (s : Source) where
  joined :
      (n : Negotiated) (ns : List Negotiated)
      → g ≡ n.format
      → Any (Observes f s) ((record n { sources = n.sources ++ t ∷ [] }) ∷ ns)
        ↔ (Any (Observes f s) (n ∷ ns) ⊎ ((g ≡ f) × (t ≡ s)))
  joined n ns same =
      let source = In-snoc_iff s n.sources t in
      (
        elim [
          | inl (e, m) ↦ elim (source.0 m) [
            | inl old ↦ inl (inl (e, old))
            | inr last ↦ inr (same ∙ e, last)
          ]
          | inr later ↦ inl (inr later)
        ],
        elim [
          | inl (inl (e, old)) ↦ inl (e, source.1 (inl old))
          | inl (inr later) ↦ inr later
          | inr (e, last) ↦ inl (sym same ∙ e, source.1 (inr last))
        ],
      )

  passed :
      (n : Negotiated) (ns : List Negotiated)
      → Any (Observes f s) (add_source g t ns) ↔ (Any (Observes f s) ns ⊎ ((g ≡ f) × (t ≡ s)))
      → Any (Observes f s) (n ∷ add_source g t ns)
        ↔ (Any (Observes f s) (n ∷ ns) ⊎ ((g ≡ f) × (t ≡ s)))
  passed n ns ih = (
    elim [
      | inl here ↦ inl (inl here)
      | inr later ↦ elim (ih.0 later) [ inl old ↦ inl (inr old) | inr new ↦ inr new ]
    ],
    elim [
      | inl (inl here) ↦ inl here
      | inl (inr later) ↦ inr (ih.1 (inl later))
      | inr new ↦ inr (ih.1 (inr new))
    ],
  )

  -- One observation is added and nothing else changes.
  observes-add_source :
      (ns : List Negotiated)
      → Any (Observes f s) (add_source g t ns) ↔ (Any (Observes f s) ns ⊎ ((g ≡ f) × (t ≡ s)))
  unfolding add_source
  observes-add_source [] = (
    elim [ inl (e, inl m) ↦ inr (e, m) | inl (e, inr n) ↦ elim n [ ] | inr n ↦ elim n [ ] ],
    elim [ inl n ↦ elim n [ ] | inr (e, m) ↦ inl (e, inl m) ],
  )
  observes-add_source (n ∷ ns) = elim (Bool-cases (same_key (format_key g) (format_key n.format))) [
    | inl same ↦ rw same (joined n ns (key_eq g n.format same))
    | inr other ↦ rw other (passed n ns (observes-add_source ns))
  ]

-- The formats stay apart.
All-add_source :
    (g f : AudioFormat) (t : Source) (ns : List Negotiated)
    → f ≢ g
    → All (λ x. f ≢ x) (formats ns)
    → All (λ x. f ≢ x) (formats (add_source g t ns))
unfolding add_source
All-add_source g f t [] ne h = (ne, tt)
All-add_source g f t (n ∷ ns) ne h =
    elim (Bool-cases (same_key (format_key g) (format_key n.format))) [
      | inl same ↦ rw same h
      | inr other ↦ rw other (h.0, All-add_source g f t ns ne h.1)
    ]

Distinct-add_source :
    (g : AudioFormat) (t : Source) (ns : List Negotiated)
    → Distinct (formats ns)
    → Distinct (formats (add_source g t ns))
unfolding add_source
Distinct-add_source g t [] d = (tt, tt)
Distinct-add_source g t (n ∷ ns) d =
    elim (Bool-cases (same_key (format_key g) (format_key n.format))) [
      | inl same ↦ rw same d
      | inr other ↦ rw other (
        All-add_source g n.format t ns (λ e. key_ne g n.format other (sym e)) d.0,
        Distinct-add_source g t ns d.1,
      )
    ]

Distinct-note_candidate :
    (s : Source) (r : Option AudioFormat) (ns : List Negotiated)
    → Distinct (formats ns)
    → Distinct (formats (note_candidate s r ns))
unfolding note_candidate
Distinct-note_candidate s none ns d = d
Distinct-note_candidate s (some f) ns d = Distinct-add_source f s ns d

observes-note_candidate :
    (t : Source) (r : Option AudioFormat) (f : AudioFormat) (s : Source) (ns : List Negotiated)
    → Any (Observes f s) (note_candidate t r ns)
      ↔ (Any (Observes f s) ns ⊎ ((r ≡ some f) × (t ≡ s)))
unfolding note_candidate
observes-note_candidate t none f s ns = (inl, elim [ inl h ↦ h | inr (e, k) ↦ cc ])
observes-note_candidate t (some g) f s ns =
    let both = observes-add_source g t f s ns in
    (
      λ h. elim (both.0 h) [ inl old ↦ inl old | inr (e, k) ↦ inr (ap some e, k) ],
      elim [ inl old ↦ both.1 (inl old) | inr (e, k) ↦ both.1 (inr (some-injective g f e, k)) ],
    )

module _ ⦃u : Unicode⦄ where
  -- The summary field holds a format.
  abbrev pub Holds : AudioFormat → Source → Source × Value → Type 0
  Holds f s c = (normalized_format c.1 ≡ some f) × (c.0 ≡ s)

  negotiate-Distinct :
      (ns : List Negotiated) (cs : List (Source × Value))
      → Distinct (formats ns)
      → Distinct (formats (negotiate ns cs))
  unfolding negotiate
  negotiate-Distinct ns [] d = d
  negotiate-Distinct ns ((s, v) ∷ cs) d =
      negotiate-Distinct (note_candidate s (normalized_format v) ns) cs
        (Distinct-note_candidate s (normalized_format v) ns d)

  observes-negotiate :
      (f : AudioFormat) (s : Source) (ns : List Negotiated) (cs : List (Source × Value))
      → Any (Observes f s) (negotiate ns cs) ↔ (Any (Observes f s) ns ⊎ Any (Holds f s) cs)
  unfolding negotiate
  observes-negotiate f s ns [] = (inl, elim [ inl h ↦ h | inr n ↦ elim n [ ] ])
  observes-negotiate f s ns ((t, v) ∷ cs) =
      let rest = observes-negotiate f s (note_candidate t (normalized_format v) ns) cs in
      let step = observes-note_candidate t (normalized_format v) f s ns in
      (
        λ h. elim (rest.0 h) [
          | inl now ↦ elim (step.0 now) [ inl old ↦ inl old | inr new ↦ inr (inl new) ]
          | inr later ↦ inr (inr later)
        ],
        elim [
          | inl old ↦ rest.1 (inl (step.1 (inl old)))
          | inr (inl new) ↦ rest.1 (inl (step.1 (inr new)))
          | inr (inr later) ↦ rest.1 (inr later)
        ],
      )

  -- Every format negotiated stands once, and a summary field is among its sources exactly when that
  -- field is read by the case and holds the format.
  pub negotiated_formats-exact :
      (server client : Fields)
      → Distinct (formats (negotiated_formats server client))
        × ((f : AudioFormat) (s : Source)
            → Any (Observes f s) (negotiated_formats server client)
              ↔ Any (Holds f s) (candidates server client))
  unfolding negotiated_formats
  negotiated_formats-exact server client = (
    negotiate-Distinct [] (candidates server client) tt,
    λ f s.
        let both = observes-negotiate f s [] (candidates server client) in
        (λ h. elim (both.0 h) [ inl n ↦ elim n [ ] | inr k ↦ k ], λ k. both.1 (inr k)),
  )
