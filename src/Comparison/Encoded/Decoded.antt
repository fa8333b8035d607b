-- ===== src/Comparison/Encoded/Decoded.antt =====
-- src/conformance/runner.py: when _decoded_audio_verdict holds.
use conformance.Prelude.{
  String, ◌≡◌, refl, sym, ap, ◌∙◌, ◌↔◌, inl, inr, Bool, true, Option, none, some, List, [], ◌∷◌,
  str_eq, eq_iff, Bool-cases, clash,
}
use mathlib.Core.Option.{some-injective}
use conformance.Json.{Value, Fields, get}
use conformance.Json.Python.{Python, same_value}
use conformance.Comparison.Outcome.{
  decoded_mismatch, no_source_hash, encoded_matches, passed, guard_iff, read_iff, found_iff,
  filled_text, section,
}
use conformance.Comparison.Audio.{sample_count_detail}
use conformance.Comparison.Encoded.{
  object_or_empty, decoded_hash, conversions, judge_decoded, judge_received, decoded_audio_verdict,
  compare_encoded_audio_summaries,
}
use conformance.Comparison.Encoded.Passes.{compare_encoded-passed}

module _ ⦃py : Python⦄ (server_summary server_audio client_audio : Fields) where
  -- The client decoded the source clip: one hash, of a stream that keeps the clip's format.
  pub record IsLossless : Type 0 where
    pub hash : String
    pub stream : Fields
    pub received : decoded_hash client_audio ≡ some hash
    pub source : filled_text (get "source_pcm_sha256" server_audio) ≡ some hash
    pub streamed : object_or_empty (get "stream" server_summary) ≡ some stream
    pub same_rate : same_value (get "sample_rate" stream) (get "sample_rate" server_audio) ≡ true
    pub same_channels : same_value (get "channels" stream) (get "channels" server_audio) ≡ true

module _ ⦃py : Python⦄ where
  conversions-nil_iff :
      (server_audio stream : Fields)
      → (conversions server_audio stream ≡ []) ↔ (
          (same_value (get "sample_rate" stream) (get "sample_rate" server_audio) ≡ true)
          × (same_value (get "channels" stream) (get "channels" server_audio) ≡ true))
  unfolding conversions
  conversions-nil_iff server_audio stream =
      elim (Bool-cases (same_value (get "sample_rate" stream) (get "sample_rate" server_audio))) [
        | inr n ↦ rw n (λ h. cc, λ h. cc (h.0))
        | inl y ↦
            elim (Bool-cases (same_value (get "channels" stream) (get "channels" server_audio))) [
              | inr n ↦ rw (y, n) (λ h. cc, λ h. cc (h.1))
              | inl z ↦ rw (y, z) (λ h. (refl, refl), λ h. refl)
            ]
      ]

  judge_decoded-held_iff :
      (codec : String) (server_audio client_audio : Fields) (source received : String)
      (cs : List (String × Value × Value))
      → (judge_decoded codec server_audio client_audio source received cs ≡ passed none)
        ↔ ((cs ≡ []) × (received ≡ source))
  unfolding judge_decoded
  judge_decoded-held_iff codec server_audio client_audio source received [] =
      let whole =
        guard_iff none (passed none) (λ h. tt, λ h. refl) (str_eq received source)
          (decoded_mismatch codec (sample_count_detail server_audio client_audio) source
            received) in
      (
        λ h. (refl, (eq_iff received source).0 (whole.0 h).0),
        λ h. whole.1 ((eq_iff received source).1 h.1, tt),
      )
  judge_decoded-held_iff codec server_audio client_audio source received (c ∷ cs) =
      (λ h. cc, λ h. cc (h.0))

  judge_received-held_iff :
      (codec : String) (server_summary server_audio client_audio : Fields) (o : Option String)
      → decoded_hash client_audio ≡ o
      → (judge_received codec server_summary server_audio client_audio o ≡ passed none)
        ↔ IsLossless server_summary server_audio client_audio
  unfolding judge_received
  judge_received-held_iff codec server_summary server_audio client_audio none e =
      (λ h. cc, λ h. let r = h.received in cc (r, e))
  judge_received-held_iff codec server_summary server_audio client_audio (some r) e =
      let whole =
        found_iff none _ no_source_hash (filled_text (get "source_pcm_sha256" server_audio)) λ s.
          read_iff none _ (object_or_empty (get "stream" server_summary)) λ stream.
            judge_decoded-held_iff codec server_audio client_audio s r
              (conversions server_audio stream) in
      (
        λ h.
            let (s, es, (stream, et, (kept, same))) = whole.0 h in
            let fields = (conversions-nil_iff server_audio stream).0 kept in
            record {
              hash = r;
              stream = stream;
              received = e;
              source = es ∙ ap some (sym same);
              streamed = et;
              same_rate = fields.0;
              same_channels = fields.1;
            },
        λ h.
            let same : r ≡ h.hash = some-injective _ _ (sym e ∙ h.received) in
            whole.1 (
              h.hash,
              h.source,
              (
                h.stream,
                h.streamed,
                (
                  (conversions-nil_iff server_audio h.stream).1 (h.same_rate, h.same_channels),
                  same,
                ),
              ),
            ),
      )

  -- The rule on the decoded audio is judged and holds exactly when the codec is flac, the client
  -- reports a hash of decoded audio, the server reports the same one for the source clip, and the
  -- stream has the clip's sample rate and number of channels.
  pub decoded_audio_verdict-held_iff :
      (server_summary server_audio client_audio : Fields) (codec : String)
      → (decoded_audio_verdict server_summary server_audio client_audio codec ≡ passed none)
        ↔ ((codec ≡ "flac") × IsLossless server_summary server_audio client_audio)
  unfolding decoded_audio_verdict
  decoded_audio_verdict-held_iff server_summary server_audio client_audio codec =
      let judged =
        judge_received-held_iff codec server_summary server_audio client_audio
          (decoded_hash client_audio) refl in
      let flac = eq_iff codec "flac" in
      elim (Bool-cases (str_eq codec "flac")) [
        | inl y ↦ rw y (λ h. (flac.0 y, judged.0 h), λ h. judged.1 h.1)
        | inr n ↦ rw n (λ h. cc, λ h. absurd (clash (flac.1 h.0) n))
      ]

  -- A case that passes with the note that the decoded audio matches is one of flac, in which the
  -- client decoded the source clip: the hashes of the PCM are one text, and the stream has the
  -- clip's sample rate and number of channels.
  pub compare_encoded-lossless :
      (server_summary client_summary : Fields) (codec : String) (has_header : Bool)
      → compare_encoded_audio_summaries server_summary client_summary codec
        ≡ passed (encoded_matches codec has_header none)
      → (codec ≡ "flac")
        × (server_audio : Fields) × (client_audio : Fields) × (section "audio" server_summary
            ≡ some server_audio)
        × (section "audio" client_summary ≡ some client_audio)
        × IsLossless server_summary server_audio client_audio
  compare_encoded-lossless server_summary client_summary codec has_header h =
      let d = compare_encoded-passed server_summary client_summary codec has_header none h in
      let held =
        (decoded_audio_verdict-held_iff server_summary d.server_audio d.client_audio codec).0
          d.decoded in
      (held.0, d.server_audio, d.client_audio, d.server_section, d.client_section, held.1)
