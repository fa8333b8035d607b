-- ===== src/Comparison/Encoded/Headers.antt =====
-- src/conformance/runner.py: what the hashes of the codec headers are, and when they do not differ.
use conformance.Prelude.{
  String, ◌≡◌, refl, sym, ap, ◌∙◌, ◌≢◌, ◌↔◌, ◌⊎◌, inl, inr, Option, none, some, str_eq, eq_iff,
  Bool-cases, Option-cases, clash, or_else,
}
use mathlib.Core.Path.{subst}
use mathlib.Core.Option.{some-injective}
use conformance.Json.{Value, null, bool, int, real, str, arr, obj, Fields, get, as_object, as_text}
use conformance.Json.Python.{Python}
use conformance.Comparison.Outcome.{filled_text}
use conformance.Comparison.Audio.Passes.{as_object_iff}
use conformance.Comparison.Encoded.{
  header_difference, hashed, stream_codec_header_sha256, server_header_hash, codec_text,
  stream_codec,
}

-- A text that is not empty.
abbrev pub IsFilled : Value → String → Type 0
IsFilled v s = (v ≡ str s) × (s ≢ "")

pub filled_text-IsFilled : (v : Value) (s : String) → (filled_text v ≡ some s) ↔ IsFilled v s
filled_text-IsFilled (str t) s = elim (Bool-cases (str_eq t "")) [
  | inl y ↦
      rw y (λ h. cc, λ h. let e : t ≡ s = cc (h.0) in absurd (h.1 (sym e ∙ (eq_iff t "").0 y)))
  | inr n ↦ rw n (
    λ h. let e : t ≡ s = cc (h) in (ap str e, λ k. clash ((eq_iff t "").1 (e ∙ k)) n),
    λ h. let e : t ≡ s = cc (h.0) in ap some e,
  )
]
filled_text-IsFilled null s = (λ h. cc, λ h. cc (h.0))
filled_text-IsFilled (bool b) s = (λ h. cc, λ h. cc (h.0))
filled_text-IsFilled (int n) s = (λ h. cc, λ h. cc (h.0))
filled_text-IsFilled (real x) s = (λ h. cc, λ h. cc (h.0))
filled_text-IsFilled (arr vs) s = (λ h. cc, λ h. cc (h.0))
filled_text-IsFilled (obj fs) s = (λ h. cc, λ h. cc (h.0))

as_text-str : (v : Value) (s : String) → (as_text v ≡ some s) ↔ (v ≡ str s)
as_text-str (str t) s = (λ h. ap str (some-injective _ _ h), λ h. cc)
as_text-str null s = (λ h. cc, λ h. cc)
as_text-str (bool b) s = (λ h. cc, λ h. cc)
as_text-str (int n) s = (λ h. cc, λ h. cc)
as_text-str (real x) s = (λ h. cc, λ h. cc)
as_text-str (arr vs) s = (λ h. cc, λ h. cc)
as_text-str (obj fs) s = (λ h. cc, λ h. cc)

-- The first of two options, or else the second.
or_else_iff :
    (o p : Option String) (s : String)
    → (or_else o p ≡ some s) ↔ ((o ≡ some s) ⊎ ((o ≡ none) × (p ≡ some s)))
or_else_iff none p s = (λ h. inr (refl, h), elim [ inl k ↦ cc (k) | inr k ↦ k.1 ])
or_else_iff (some t) p s = (λ h. inl h, elim [ inl k ↦ k | inr k ↦ cc (k.0) ])

none_iff :
    (o : Option String) (P : String → Type 0)
    → ((s : String) → (o ≡ some s) ↔ P s)
    → (o ≡ none) ↔ ((s : String) → ¬ P s)
none_iff none P k = (λ h s p. let e = (k s).1 p in cc (e), λ h. refl)
none_iff (some t) P k = (λ h. cc, λ h. absurd (h t ((k t).0 refl)))

module _ ⦃py : Python⦄ where
  -- The hash of the codec header that a summary has of its stream: the text of its own key, where
  -- that is filled, or else the hash of the header itself.
  abbrev pub HasHeaderHash : Fields → String → Type 0
  HasHeaderHash summary hash =
      (stream : Fields) × (get "stream" summary ≡ obj stream)
      × (IsFilled (get "codec_header_sha256" stream) hash
          ⊎ (((s : String) → ¬ IsFilled (get "codec_header_sha256" stream) s)
              × (header : String) × IsFilled (get "codec_header" stream) header
              × (py.header_sha256 header ≡ some hash)))

  -- The server's: the text of its audio section, where it has one, or else that of its stream.
  abbrev pub HasServerHash : Fields → Fields → String → Type 0
  HasServerHash summary audio hash =
      (get "sent_codec_header_sha256" audio ≡ str hash)
      ⊎ (((s : String) → ¬ (get "sent_codec_header_sha256" audio ≡ str s))
          × HasHeaderHash summary hash)

  -- Where both sides have a hash that is not empty, it is the same.
  abbrev pub SameHeader : Fields → Fields → Fields → Type 0
  SameHeader server_summary server_audio client_summary =
      (sent received : String)
      → HasServerHash server_summary server_audio sent
      → HasHeaderHash client_summary received
      → sent ≢ ""
      → received ≢ ""
      → sent ≡ received

  hashed-some_iff :
      (v : Value) (hash : String)
      → (hashed (filled_text v) ≡ some hash)
        ↔ ((header : String) × IsFilled v header × (py.header_sha256 header ≡ some hash))
  hashed-some_iff v hash = elim (Option-cases (filled_text v)) [
    | inl nothing ↦
        rw nothing
          (λ h. cc, λ (t, k, e). let there = (filled_text-IsFilled v t).1 k in cc (there, nothing))
    | inr (s, found) ↦ rw found (
      λ h. (s, (filled_text-IsFilled v s).0 found, h),
      λ (t, k, e).
          let there = (filled_text-IsFilled v t).1 k in
          let same : s ≡ t = cc (there, found) in ap py.header_sha256 same ∙ e,
    )
  ]

  pub header_hash-HasHeaderHash :
      (summary : Fields) (hash : String)
      → (stream_codec_header_sha256 summary ≡ some hash) ↔ HasHeaderHash summary hash
  unfolding stream_codec_header_sha256
  header_hash-HasHeaderHash summary hash = elim (Option-cases (as_object (get "stream" summary))) [
    | inl nothing ↦
        rw nothing (λ h. cc, λ h. let there = (as_object_iff _ h.0).1 h.1 in cc (there, nothing))
    | inr (stream, found) ↦
        let own = get "codec_header_sha256" stream in
        let both =
          or_else_iff (filled_text own) (hashed (filled_text (get "codec_header" stream))) hash in
        let none' = none_iff (filled_text own) (IsFilled own) (filled_text-IsFilled own) in
        let theirs = hashed-some_iff (get "codec_header" stream) hash in
        rw found (
          λ h. (
            stream,
            (as_object_iff _ stream).0 found,
            elim (both.0 h) [
              | inl k ↦ inl ((filled_text-IsFilled own hash).0 k)
              | inr k ↦ let t = theirs.0 k.1 in inr (none'.0 k.0, t.0, t.1, t.2)
            ],
          ),
          λ (other, place, k).
              let there = (as_object_iff _ other).1 place in
              let same : other ≡ stream = cc (there, found) in
              both.1 (
                moved stream hash (
                  subst
                    (λ z.
                      IsFilled (get "codec_header_sha256" z) hash
                      ⊎ (((s : String) → ¬ IsFilled (get "codec_header_sha256" z) s)
                          × (header : String) × IsFilled (get "codec_header" z) header
                          × (py.header_sha256 header ≡ some hash)))
                    same k)),
        )
  ]
    where
      moved :
          (stream : Fields) (hash : String)
          → (IsFilled (get "codec_header_sha256" stream) hash
              ⊎ (((s : String) → ¬ IsFilled (get "codec_header_sha256" stream) s)
                  × (header : String) × IsFilled (get "codec_header" stream) header
                  × (py.header_sha256 header ≡ some hash)))
          → (filled_text (get "codec_header_sha256" stream) ≡ some hash)
            ⊎ ((filled_text (get "codec_header_sha256" stream) ≡ none)
                × (hashed (filled_text (get "codec_header" stream)) ≡ some hash))
      moved stream hash (inl k) = inl ((filled_text-IsFilled _ hash).1 k)
      moved stream hash (inr k) =
          let own = get "codec_header_sha256" stream in
          inr (
            (none_iff (filled_text own) (IsFilled own) (filled_text-IsFilled own)).1 k.0,
            (hashed-some_iff (get "codec_header" stream) hash).1 (k.1, k.2, k.3),
          )

  pub server_hash-HasServerHash :
      (summary audio : Fields) (hash : String)
      → (server_header_hash summary audio ≡ some hash) ↔ HasServerHash summary audio hash
  unfolding server_header_hash
  server_hash-HasServerHash summary audio hash =
      let own = get "sent_codec_header_sha256" audio in
      let both = or_else_iff (as_text own) (stream_codec_header_sha256 summary) hash in
      let text = as_text-str own in
      let none' = none_iff (as_text own) (λ s. own ≡ str s) text in
      let theirs = header_hash-HasHeaderHash summary hash in
      (
        λ h. elim (both.0 h) [
          | inl k ↦ inl ((text hash).0 k)
          | inr k ↦ inr (none'.0 k.0, theirs.0 k.1)
        ],
        λ h.
            both.1
              (elim h [ inl k ↦ inl ((text hash).1 k) | inr k ↦ inr (none'.1 k.0, theirs.1 k.1) ]),
      )

-- Two hashes that are there and not empty are one.
abbrev Agreeing : Option String → Option String → Type 0
Agreeing o p = (s t : String) → o ≡ some s → p ≡ some t → s ≢ "" → t ≢ "" → s ≡ t

header_difference-Agreeing : (o p : Option String) → (header_difference o p ≡ none) ↔ Agreeing o p
unfolding header_difference
header_difference-Agreeing none p = (λ h s t e. cc, λ h. refl)
header_difference-Agreeing (some s) none = (λ h a b e f. cc, λ h. refl)
header_difference-Agreeing (some s) (some t) = (
  λ h a b e f m n.
      let p : s ≡ a = some-injective s a e in
      let q : t ≡ b = some-injective t b f in
      sym p ∙ told h (λ k. m (sym p ∙ k)) (λ k. n (sym q ∙ k)) ∙ q,
  λ h. tell h,
)
  where
    told : header_difference (some s) (some t) ≡ none → s ≢ "" → t ≢ "" → s ≡ t
    told h m n = elim (Bool-cases (str_eq s "")) [
      | inl y ↦ absurd (m ((eq_iff s "").0 y))
      | inr a ↦ elim (Bool-cases (str_eq t "")) [
        | inl y ↦ absurd (n ((eq_iff t "").0 y))
        | inr b ↦ elim (Bool-cases (str_eq s t)) [
          | inl y ↦ (eq_iff s t).0 y
          | inr c ↦ cc (rw (a, b, c, header_difference) at h)
        ]
      ]
    ]

    tell : Agreeing (some s) (some t) → header_difference (some s) (some t) ≡ none
    tell h = elim (Bool-cases (str_eq s "")) [
      | inl y ↦ rw (y, header_difference) refl
      | inr a ↦ elim (Bool-cases (str_eq t "")) [
        | inl y ↦ rw (a, y, header_difference) refl
        | inr b ↦
            let same =
              h s t refl refl (λ k. clash ((eq_iff s "").1 k) a)
                (λ k. clash ((eq_iff t "").1 k) b) in
            rw (a, b, (eq_iff s t).1 same, header_difference) refl
      ]
    ]

module _ ⦃py : Python⦄ where
  pub header_difference-SameHeader :
      (server_summary server_audio client_summary : Fields)
      → (header_difference
            (server_header_hash server_summary server_audio)
            (stream_codec_header_sha256 client_summary)
          ≡ none)
        ↔ SameHeader server_summary server_audio client_summary
  header_difference-SameHeader server_summary server_audio client_summary =
      let both =
        header_difference-Agreeing (server_header_hash server_summary server_audio)
          (stream_codec_header_sha256 client_summary) in
      (
        λ h a b sent received.
            both.0 h a b ((server_hash-HasServerHash server_summary server_audio a).1 sent)
              ((header_hash-HasHeaderHash client_summary b).1 received),
        λ h. both.1 (λ a b sent received.
            h a b ((server_hash-HasServerHash server_summary server_audio a).0 sent)
              ((header_hash-HasHeaderHash client_summary b).0 received)),
      )

  -- The codec that a summary has of its stream, as a text.
  abbrev pub HasCodec : Fields → String → Type 0
  HasCodec summary codec =
      (stream : Fields) × (get "stream" summary ≡ obj stream)
      × (codec_text (get "codec" stream) ≡ some codec)

  pub stream_codec-HasCodec :
      (summary : Fields) (codec : String)
      → (stream_codec summary ≡ some codec) ↔ HasCodec summary codec
  unfolding stream_codec
  stream_codec-HasCodec summary codec = elim (Option-cases (as_object (get "stream" summary))) [
    | inl nothing ↦
        rw nothing (λ h. cc, λ h. let there = (as_object_iff _ h.0).1 h.1 in cc (there, nothing))
    | inr (stream, found) ↦ rw found (
      λ h. (stream, (as_object_iff _ stream).0 found, h),
      λ h.
          let there = (as_object_iff _ h.0).1 h.1 in
          let same : stream ≡ h.0 = cc (there, found) in
          ap (λ z. codec_text (get "codec" z)) same ∙ h.2,
    )
  ]
