-- ===== src/Comparison/Audio/Passes.antt =====
-- src/conformance/runner.py: when _compare_audio_summaries passes.
use conformance.Prelude.{◌≡◌, refl, ap, ◌↔◌, true, some}
use mathlib.Core.Option.{some-injective}
use conformance.Json.{Value, str, obj, Fields, get, find, as_object}
use conformance.Json.Python.{Python, same_value, is_truthy}
use conformance.Comparison.Outcome.{
  pcm_matches, passed, read_iff, found_iff, guard_iff, statuses_iff,
}
use conformance.Comparison.Audio.{compare_audio_summaries}

pub as_object_iff : (v : Value) (fields : Fields) → (as_object v ≡ some fields) ↔ (v ≡ obj fields)
as_object_iff (obj o) fields = (λ h. ap obj (some-injective _ _ h), λ h. cc)
as_object_iff Value.null fields = (λ h. cc, λ h. cc)
as_object_iff (Value.bool b) fields = (λ h. cc, λ h. cc)
as_object_iff (Value.int n) fields = (λ h. cc, λ h. cc)
as_object_iff (Value.real r) fields = (λ h. cc, λ h. cc)
as_object_iff (str s) fields = (λ h. cc, λ h. cc)
as_object_iff (Value.arr vs) fields = (λ h. cc, λ h. cc)

module _ ⦃py : Python⦄ (server_summary client_summary : Fields) where
  -- Both sides report a hash of the PCM, the client reports chunks, and the hashes are equal.
  pub record IsSamePcm : Type 0 where
    pub server_ok : get "status" server_summary ≡ str "ok"
    pub client_ok : get "status" client_summary ≡ str "ok"
    pub server_audio : Fields
    pub client_audio : Fields
    pub server_section : get "audio" server_summary ≡ obj server_audio
    pub client_section : get "audio" client_summary ≡ obj client_audio
    pub source_hash : Value
    pub received_hash : Value
    pub chunk_count : Value
    pub source : find "source_pcm_sha256" server_audio ≡ some source_hash
    pub received : find "received_pcm_sha256" client_audio ≡ some received_hash
    pub counted : find "audio_chunk_count" client_audio ≡ some chunk_count
    pub some_chunk : is_truthy chunk_count ≡ true
    pub same_hash : same_value source_hash received_hash ≡ true

module _ ⦃py : Python⦄ (server_summary client_summary : Fields) where
  -- The comparison of the mode "audio-pcm" passes exactly when both adapters report the status ok
  -- and an audio section, the keys of the two PCM hashes and of the number of chunks are there, the
  -- number is true as a Python value, and the hash that the client received equals the source's.
  pub compare_audio_summaries-passed_iff :
      (compare_audio_summaries server_summary client_summary ≡ passed pcm_matches)
      ↔ IsSamePcm server_summary client_summary
  unfolding compare_audio_summaries
  compare_audio_summaries-passed_iff =
      let whole =
        statuses_iff pcm_matches _
          (found_iff pcm_matches _ _ (as_object (get "audio" server_summary)) λ server_audio.
            found_iff pcm_matches _ _ (as_object (get "audio" client_summary)) λ client_audio.
              read_iff pcm_matches _ (find "source_pcm_sha256" server_audio) λ source.
                read_iff pcm_matches _ (find "received_pcm_sha256" client_audio) λ received.
                  read_iff pcm_matches _ (find "audio_chunk_count" client_audio) λ count.
                    guard_iff pcm_matches _
                      (guard_iff pcm_matches _ (λ h. tt, λ h. refl) (same_value source received) _)
                      (is_truthy count) _)
          server_summary client_summary in
      (
        λ h.
            let (s, c, (sa, es, (ca, ec, (a, ea, (b, eb, (n, en, (yes', (same, t)))))))) =
              whole.0 h in
            record {
              server_ok = s;
              client_ok = c;
              server_audio = sa;
              client_audio = ca;
              server_section = (as_object_iff _ sa).0 es;
              client_section = (as_object_iff _ ca).0 ec;
              source_hash = a;
              received_hash = b;
              chunk_count = n;
              source = ea;
              received = eb;
              counted = en;
              some_chunk = yes';
              same_hash = same;
            },
        λ h. whole.1 (
          h.server_ok,
          h.client_ok,
          (
            h.server_audio,
            (as_object_iff _ h.server_audio).1 h.server_section,
            (
              h.client_audio,
              (as_object_iff _ h.client_audio).1 h.client_section,
              (
                h.source_hash,
                h.source,
                (
                  h.received_hash,
                  h.received,
                  (h.chunk_count, h.counted, (h.some_chunk, (h.same_hash, tt))),
                ),
              ),
            ),
          ),
        ),
      )
