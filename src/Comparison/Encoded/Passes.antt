-- ===== src/Comparison/Encoded/Passes.antt =====
-- src/conformance/runner.py: what _compare_encoded_audio_summaries passes.
use conformance.Prelude.{
  String, ◌&&◌, arith, refl, ◌≡◌, sym, ap, ◌∙◌, ◌↔◌, Bool, true, Option, none, some, str_eq, eq_iff,
  ltb→lt, ℤ, pos, ◌<ℤ◌, ltb_ℤ,
}
use mathlib.Core.Option.{some-injective}
use conformance.Json.{str, Fields, get}
use conformance.Json.Python.{Python, integer_or_zero}
use conformance.Comparison.Outcome.{
  encoded_matches, Unjudged, passed, read_iff, found_iff, guard_iff, blame_iff, outcome_iff,
  statuses_iff, section, filled_text,
}
use conformance.Comparison.Encoded.{
  same_text, agrees, is_filled, header_difference, stream_codec, stream_codec_header_sha256,
  server_header_hash, decoded_audio_verdict, judge_transport, compare_encoded_audio_summaries,
}

module _ ⦃py : Python⦄ (server_summary client_summary : Fields) (codec : String) where
  -- The encoded bytes arrived: the codec is the one asked for, chunks were sent and received, their
  -- hashes are one text, the headers do not differ, and the decoded audio passed.
  pub record IsDelivered (unjudged : Option Unjudged) : Type 0 where
    pub server_ok : get "status" server_summary ≡ str "ok"
    pub client_ok : get "status" client_summary ≡ str "ok"
    pub negotiated : stream_codec server_summary ≡ some codec
    pub observed : agrees (stream_codec client_summary) codec ≡ true
    pub server_audio : Fields
    pub client_audio : Fields
    pub server_section : section "audio" server_summary ≡ some server_audio
    pub client_section : section "audio" client_summary ≡ some client_audio
    pub sent_count : ℤ
    pub received_count : ℤ
    pub sent_counted : integer_or_zero (get "sent_audio_chunk_count" server_audio) ≡ some sent_count
    pub received_counted :
        integer_or_zero (get "audio_chunk_count" client_audio) ≡ some received_count
    pub some_sent : pos 0 <ℤ sent_count
    pub some_received : pos 0 <ℤ received_count
    pub hash : String
    pub sent_hash : filled_text (get "sent_encoded_sha256" server_audio) ≡ some hash
    pub received_hash : filled_text (get "received_encoded_sha256" client_audio) ≡ some hash
    pub same_header :
        header_difference
          (server_header_hash server_summary server_audio)
          (stream_codec_header_sha256 client_summary)
        ≡ none
    pub decoded :
        decoded_audio_verdict server_summary server_audio client_audio codec ≡ passed unjudged

module _ ⦃py : Python⦄ where
  -- Whether the note says that the header was compared.
  abbrev pub has_headers : Fields → Fields → Fields → Bool
  has_headers server_summary client_summary server_audio =
      is_filled (server_header_hash server_summary server_audio)
      && is_filled (stream_codec_header_sha256 client_summary)

same_text_iff : (o : Option String) (codec : String) → (same_text o codec ≡ true) ↔ (o ≡ some codec)
same_text_iff none codec = (λ h. cc, λ h. cc)
same_text_iff (some s) codec =
    (λ h. ap some ((eq_iff s codec).0 h), λ h. (eq_iff s codec).1 (some-injective _ _ h))

positive_test : (n : ℤ) → pos 0 <ℤ n → ltb_ℤ (pos 0) n ≡ true
positive_test n h = ground (arith, h)

positive : (n : ℤ) → ltb_ℤ (pos 0) n ≡ true → pos 0 <ℤ n
positive n h = ltb→lt _ _ h

module _ ⦃py : Python⦄ (server_summary client_summary : Fields) (codec : String) where
  -- The comparison passes exactly when each of its guards does.
  pub compare_encoded-guards_iff :
      (has_header : Bool) (unjudged : Option Unjudged)
      → (compare_encoded_audio_summaries server_summary client_summary codec
          ≡ passed (encoded_matches codec has_header unjudged))
        ↔ ((d : IsDelivered server_summary client_summary codec unjudged) × (has_headers
                server_summary client_summary d.server_audio
              ≡ has_header))
  unfolding compare_encoded_audio_summaries judge_transport
  compare_encoded-guards_iff has_header unjudged =
      let note = encoded_matches codec has_header unjudged in
      let whole =
        statuses_iff note _
          (guard_iff note _
            (guard_iff note _
              (read_iff note _ (section "audio" server_summary) λ sa.
                read_iff note _ (section "audio" client_summary) λ ca.
                  read_iff note _ (integer_or_zero (get "sent_audio_chunk_count" sa)) λ m.
                    read_iff note _ (integer_or_zero (get "audio_chunk_count" ca)) λ n.
                      guard_iff note _
                        (guard_iff note _
                          (found_iff note _ _ (filled_text (get "sent_encoded_sha256" sa)) λ a.
                            found_iff note _ _ (filled_text (get "received_encoded_sha256" ca)) λ b.
                              guard_iff note _
                                (blame_iff note _
                                  (outcome_iff note _
                                    (decoded_audio_verdict server_summary sa ca codec)
                                    λ w. (λ k. k, λ k. k))
                                  _
                                  (header_difference (server_header_hash server_summary sa)
                                    (stream_codec_header_sha256 client_summary)))
                                (str_eq a b) _)
                          (ltb_ℤ (pos 0) n) _)
                        (ltb_ℤ (pos 0) m) _)
              (agrees (stream_codec client_summary) codec) _)
            (same_text (stream_codec server_summary) codec) _)
          server_summary client_summary in
      (
        λ h.
            let (
              s,
              c,
              (
                g,
                (
                  o,
                  (
                    sa,
                    es,
                    (
                      ca,
                      ec,
                      (
                        m,
                        em,
                        (
                          n,
                          en,
                          (pm, (pn, (a, ea, (b, eb, (same, (header, (w, verdict, same_note))))))),
                        ),
                      ),
                    ),
                  ),
                ),
              ),
            ) =
              whole.0 h in
            let e : w ≡ unjudged = cc (same_note) in
            (
              record {
                server_ok = s;
                client_ok = c;
                negotiated = (same_text_iff _ codec).0 g;
                observed = o;
                server_audio = sa;
                client_audio = ca;
                server_section = es;
                client_section = ec;
                sent_count = m;
                received_count = n;
                sent_counted = em;
                received_counted = en;
                some_sent = positive m pm;
                some_received = positive n pn;
                hash = a;
                sent_hash = ea;
                received_hash = eb ∙ ap some (sym ((eq_iff a b).0 same));
                same_header = header;
                decoded = verdict ∙ ap passed e;
              },
              cc (same_note),
            ),
        λ (d, flag). whole.1 (
          d.server_ok,
          d.client_ok,
          (
            (same_text_iff _ codec).1 d.negotiated,
            (
              d.observed,
              (
                d.server_audio,
                d.server_section,
                (
                  d.client_audio,
                  d.client_section,
                  (
                    d.sent_count,
                    d.sent_counted,
                    (
                      d.received_count,
                      d.received_counted,
                      (
                        positive_test d.sent_count d.some_sent,
                        (
                          positive_test d.received_count d.some_received,
                          (
                            d.hash,
                            d.sent_hash,
                            (
                              d.hash,
                              d.received_hash,
                              (
                                (eq_iff d.hash d.hash).1 refl,
                                (
                                  d.same_header,
                                  (
                                    unjudged,
                                    d.decoded,
                                    ap (λ b. passed (encoded_matches codec b unjudged)) flag,
                                  ),
                                ),
                              ),
                            ),
                          ),
                        ),
                      ),
                    ),
                  ),
                ),
              ),
            ),
          ),
        ),
      )

  pub compare_encoded-passed :
      (has_header : Bool) (unjudged : Option Unjudged)
      → compare_encoded_audio_summaries server_summary client_summary codec
        ≡ passed (encoded_matches codec has_header unjudged)
      → IsDelivered server_summary client_summary codec unjudged
  compare_encoded-passed has_header unjudged h =
      ((compare_encoded-guards_iff has_header unjudged).0 h).0
