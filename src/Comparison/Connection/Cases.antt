-- ===== src/Comparison/Connection/Cases.antt =====
-- src/conformance/runner.py: what a case that passes _compare_summaries says of the audio.
use conformance.Prelude.{
  ℕ, String, ◌≡◌, refl, sym, ap, ◌∙◌, ◌↔◌, inl, inr, Bool, true, Option, none, some, [],
  Option-cases, eq_iff,
}
use mathlib.Core.Path.{subst}
use mathlib.Core.Option.{some-injective}
use conformance.Json.{Value, str, obj, Fields, get, find, Unicode}
use conformance.Formats.Format.{AudioFormat, normalized_format}
use conformance.Formats.Verdicts.{stream_bit_depth_violation}
use conformance.Formats.Verdicts.Depth.{HasDepth, stream_bit_depth_violation-none_iff}
use conformance.Json.Python.{Python, same_value, is_truthy}
use conformance.Matrix.Model.{VerificationMode, audio_pcm, audio_encoded_bytes, ScenarioSpec}
use conformance.Comparison.Outcome.{
  ModeNote, pcm_matches, encoded_matches, passed, blame_iff, outcome_iff, section,
}
use conformance.Comparison.Audio.{compare_audio_summaries}
use conformance.Comparison.Audio.Passes.{IsSamePcm, compare_audio_summaries-passed_iff}
use conformance.Comparison.Encoded.{compare_encoded_audio_summaries}
use conformance.Comparison.Encoded.Decoded.{IsLossless, compare_encoded-lossless}
use conformance.Comparison.Dispatch.{
  depth_violation, priority_violation, compare_mode, dispatch_comparison,
}
use conformance.Comparison.Connection.{adapter_reported_failures, compare_summaries}
use conformance.Comparison.Connection.Passes.{IsConforming, compare_summaries-passed_iff}

module _ ⦃u : Unicode⦄ ⦃py : Python⦄ (scenario : ScenarioSpec) (server client : Fields) where
  encoded-passed :
      (note : ModeNote)
      → compare_mode audio_encoded_bytes scenario server client ≡ passed note
      → compare_encoded_audio_summaries server client scenario.preferred_codec ≡ passed note
  unfolding compare_mode
  encoded-passed note h =
      ((blame_iff note (compare_encoded_audio_summaries server client scenario.preferred_codec)
          (λ k. k, λ k. k) (λ reason. reason) (priority_violation scenario server)).0
        h).1

  pcm-passed_iff : (compare_mode audio_pcm scenario server client ≡ passed pcm_matches) ↔ (
      (compare_audio_summaries server client ≡ passed pcm_matches)
      × (depth_violation scenario.verifies_stream_bit_depth server client ≡ none))
  unfolding compare_mode
  pcm-passed_iff =
      let whole = outcome_iff pcm_matches _ (compare_audio_summaries server client) λ m.
        blame_iff pcm_matches (passed m) (λ k. k, λ k. k) (λ reason. reason)
          (depth_violation scenario.verifies_stream_bit_depth server client) in
      (
        λ h. let (m, judged, (fine, same)) = whole.0 h in (judged ∙ same, fine),
        λ h. whole.1 (pcm_matches, h.0, (h.1, refl)),
      )

-- A text is equal to no value but itself.
text-alone : ⦃py : Python⦄ (s : String) (w : Value) → same_value (str s) w ≡ true → w ≡ str s
text-alone s (str t) h = ap str (sym ((eq_iff s t).0 h))
text-alone s Value.null h = cc
text-alone s (Value.bool b) h = cc
text-alone s (Value.int n) h = cc
text-alone s (Value.real r) h = cc
text-alone s (Value.arr vs) h = cc
text-alone s (obj fs) h = cc

-- The server recorded a readable stream of this depth, and the client observed none of another.
module _ ⦃u : Unicode⦄ (server client : Fields) where
  abbrev pub HasStreamDepth : ℕ → Type 0
  HasStreamDepth depth =
      (s : AudioFormat) × (normalized_format (get "stream" server) ≡ some s)
      × HasDepth depth s
      × ((o : AudioFormat) → normalized_format (get "stream" client) ≡ some o → HasDepth depth o)

  -- So it is, where a scenario verifies a depth.
  abbrev pub VerifiesDepth : Option ℕ → Type 0
  VerifiesDepth none = Unit
  VerifiesDepth (some depth) = HasStreamDepth depth

  depth_violation-VerifiesDepth :
      (o : Option ℕ) → (depth_violation o server client ≡ none) ↔ VerifiesDepth o
  unfolding depth_violation
  depth_violation-VerifiesDepth none = (λ h. tt, λ h. refl)
  depth_violation-VerifiesDepth (some depth) =
      let both = stream_bit_depth_violation-none_iff server client depth in
      elim (Option-cases (stream_bit_depth_violation server client depth)) [
        | inl fine ↦ rw fine (λ h. both.0 fine, λ h. refl)
        | inr (v, bad) ↦ rw bad (λ h. cc, λ h. let fine = both.1 h in cc (fine, bad))
      ]

module _ ⦃u : Unicode⦄ ⦃py : Python⦄ (scenario : ScenarioSpec) (server client : Fields) where
  in_mode :
      (mode : VerificationMode)
      → scenario.verification_mode ≡ mode
      → dispatch_comparison scenario server client ≡ compare_mode mode scenario server client
  unfolding dispatch_comparison
  in_mode mode e = ap (λ m. compare_mode m scenario server client) e

  -- Where a case of the mode "audio-encoded-bytes" passes with the note that the decoded audio
  -- matches, the scenario's codec is flac, and the client decoded the source clip: the hashes of the
  -- PCM are one text, and the stream has the clip's sample rate and number of channels.
  pub compare_summaries-lossless :
      (has_header : Bool)
      → scenario.verification_mode ≡ audio_encoded_bytes
      → compare_summaries scenario server client
        ≡ passed (encoded_matches scenario.preferred_codec has_header none)
      → (scenario.preferred_codec ≡ "flac")
        × (server_audio : Fields) × (client_audio : Fields) × (section "audio" server
            ≡ some server_audio)
        × (section "audio" client ≡ some client_audio)
        × IsLossless server server_audio client_audio
  compare_summaries-lossless has_header mode h =
      let note = encoded_matches scenario.preferred_codec has_header none in
      let dispatched = ((compare_summaries-passed_iff scenario server client note).0 h).1 in
      compare_encoded-lossless server client scenario.preferred_codec has_header (
        encoded-passed scenario server client note
          (sym (in_mode audio_encoded_bytes mode) ∙ dispatched))

  -- A case of the mode "audio-pcm" passes exactly when no adapter reported a failure, the
  -- connection conforms, both adapters report the status ok and an audio section with the keys of the
  -- PCM hash and, on the client, of a number of chunks that is true as a Python value, the two hashes
  -- are equal as Python values, whatever they are, and, where the scenario verifies a bit depth, the
  -- server recorded a readable stream of that depth and the client observed no readable one of
  -- another.
  pub compare_summaries-pcm_iff :
      scenario.verification_mode ≡ audio_pcm
      → (compare_summaries scenario server client ≡ passed pcm_matches) ↔ (
          (adapter_reported_failures server client ≡ [])
          × IsConforming scenario server client
          × IsSamePcm server client
          × VerifiesDepth server client scenario.verifies_stream_bit_depth)
  compare_summaries-pcm_iff mode =
      let whole = compare_summaries-passed_iff scenario server client pcm_matches in
      let same = in_mode audio_pcm mode in
      let judged = pcm-passed_iff scenario server client in
      let audio = compare_audio_summaries-passed_iff server client in
      let depth = depth_violation-VerifiesDepth server client scenario.verifies_stream_bit_depth in
      (
        λ h.
            let (silent, dispatched, conforming) = whole.0 h in
            let (fine, deep) = judged.0 (sym same ∙ dispatched) in
            (silent, conforming, audio.0 fine, depth.0 deep),
        λ (silent, conforming, fine, deep).
            whole.1 (silent, same ∙ judged.1 (audio.1 fine, depth.1 deep), conforming),
      )

  -- Where a case of the mode "audio-pcm" passes and the server reports a text as the hash of the
  -- PCM, the client reports the same text and a number of chunks that is true as a Python value; and
  -- where the scenario verifies a bit depth, the server recorded a readable stream of that depth and
  -- the client observed no readable one of another.
  pub compare_summaries-same_pcm :
      (server_audio : Fields) (hash : String)
      → scenario.verification_mode ≡ audio_pcm
      → get "audio" server ≡ obj server_audio
      → find "source_pcm_sha256" server_audio ≡ some (str hash)
      → compare_summaries scenario server client ≡ passed pcm_matches
      → (client_audio : Fields) × (get "audio" client ≡ obj client_audio)
        × (find "received_pcm_sha256" client_audio ≡ some (str hash))
        × (count : Value) × (find "audio_chunk_count" client_audio ≡ some count)
        × (is_truthy count ≡ true)
        × VerifiesDepth server client scenario.verifies_stream_bit_depth
  compare_summaries-same_pcm server_audio hash mode section reported h =
      let (silent, conforming, k, depth) = (compare_summaries-pcm_iff mode).0 h in
      let e : k.server_audio ≡ server_audio = let p = k.server_section in cc (p, section) in
      let source = ap (find "source_pcm_sha256") (sym e) ∙ k.source in
      let equal =
        subst (λ z. same_value z k.received_hash ≡ true)
          (some-injective _ _ (sym source ∙ reported)) k.same_hash in
      (
        k.client_audio,
        k.client_section,
        k.received ∙ ap some (text-alone hash k.received_hash equal),
        k.chunk_count,
        k.counted,
        k.some_chunk,
        depth,
      )
