-- ===== src/Comparison/Encoded/Delivered.antt =====
-- src/conformance/runner.py: what _compare_encoded_audio_summaries passes, in terms of the values of
-- the summaries.
use conformance.Prelude.{
  String, ◌≡◌, refl, sym, ◌∙◌, ◌≢◌, ◌↔◌, inl, inr, Bool, true, false, ◌&&◌, Option, none, some,
  str_eq, eq_iff, Bool-cases, clash, ℤ, pos, ◌<ℤ◌,
}
use mathlib.Core.Path.{subst}
use mathlib.Core.Option.{some-injective}
use conformance.Json.{str, Fields, get}
use conformance.Json.Python.{Python, integer_or_zero}
use conformance.Comparison.Outcome.{encoded_matches, Unjudged, passed, section}
use conformance.Comparison.Encoded.{
  agrees, is_filled, stream_codec, stream_codec_header_sha256, server_header_hash,
  decoded_audio_verdict, compare_encoded_audio_summaries,
}
use conformance.Comparison.Encoded.Passes.{has_headers, IsDelivered, compare_encoded-guards_iff}
use conformance.Comparison.Encoded.Headers.{
  IsFilled, filled_text-IsFilled, HasHeaderHash, HasServerHash, header_hash-HasHeaderHash,
  server_hash-HasServerHash, HasCodec, stream_codec-HasCodec, SameHeader,
  header_difference-SameHeader,
}

is_filled_iff :
    (o : Option String) → (is_filled o ≡ true) ↔ ((s : String) × (o ≡ some s) × (s ≢ ""))
is_filled_iff none = (λ h. cc, λ h. cc (h.1))
is_filled_iff (some t) = elim (Bool-cases (str_eq t "")) [
  | inl y ↦ rw y (λ h. cc, λ (s, e, m). absurd (m (sym (some-injective t s e) ∙ (eq_iff t "").0 y)))
  | inr n ↦ rw n (λ h. (t, refl, λ k. clash ((eq_iff t "").1 k) n), λ h. refl)
]

both_filled_iff :
    (o p : Option String)
    → ((is_filled o && is_filled p) ≡ true)
      ↔ (((s : String) × (o ≡ some s) × (s ≢ "")) × ((t : String) × (p ≡ some t) × (t ≢ "")))
both_filled_iff o p = elim (Bool-cases (is_filled o)) [
  | inl y ↦ rw y (λ h. ((is_filled_iff o).0 y, (is_filled_iff p).0 h), λ h. (is_filled_iff p).1 h.1)
  | inr n ↦ rw n (λ h. cc, λ h. absurd (clash ((is_filled_iff o).1 h.0) n))
]

module _ ⦃py : Python⦄ where
  -- Both sides have a hash of the codec header that is not empty.
  abbrev pub HasBoth : Fields → Fields → Fields → Type 0
  HasBoth server_summary server_audio client_summary =
      ((sent : String) × HasServerHash server_summary server_audio sent × (sent ≢ ""))
      × ((received : String) × HasHeaderHash client_summary received × (received ≢ ""))

  has_headers-HasBoth :
      (server_summary client_summary server_audio : Fields)
      → (has_headers server_summary client_summary server_audio ≡ true)
        ↔ HasBoth server_summary server_audio client_summary
  has_headers-HasBoth server_summary client_summary server_audio =
      let sent = server_header_hash server_summary server_audio in
      let received = stream_codec_header_sha256 client_summary in
      let both = both_filled_iff sent received in
      let server = server_hash-HasServerHash server_summary server_audio in
      let client = header_hash-HasHeaderHash client_summary in
      (
        λ h.
            let ((s, e, m), (t, k, n)) = both.0 h in
            ((s, (server s).0 e, m), (t, (client t).0 k, n)),
        λ ((s, e, m), (t, k, n)). both.1 ((s, (server s).1 e, m), (t, (client t).1 k, n)),
      )

module _ ⦃py : Python⦄ (server_summary client_summary : Fields) (codec : String) where
  -- The encoded bytes arrived: both sides name the codec, chunks were sent and received, their hash
  -- is one text, the header is one, and the decoded audio passed.
  pub record IsTransported (has_header : Bool) (unjudged : Option Unjudged) : Type 0 where
    pub server_ok : get "status" server_summary ≡ str "ok"
    pub client_ok : get "status" client_summary ≡ str "ok"
    pub negotiated : HasCodec server_summary codec
    pub observed : (other : String) → HasCodec client_summary other → other ≡ codec
    pub server_audio : Fields
    pub client_audio : Fields
    pub server_section : section "audio" server_summary ≡ some server_audio
    pub client_section : section "audio" client_summary ≡ some client_audio
    pub sent_count : ℤ
    pub received_count : ℤ
    pub sent_counted : integer_or_zero (get "sent_audio_chunk_count" server_audio) ≡ some sent_count
    pub received_counted :
        integer_or_zero (get "audio_chunk_count" client_audio) ≡ some received_count
    pub some_sent : pos 0 <ℤ sent_count
    pub some_received : pos 0 <ℤ received_count
    pub hash : String
    pub sent_hash : IsFilled (get "sent_encoded_sha256" server_audio) hash
    pub received_hash : IsFilled (get "received_encoded_sha256" client_audio) hash
    pub same_header : SameHeader server_summary server_audio client_summary
    pub noted : (has_header ≡ true) ↔ HasBoth server_summary server_audio client_summary
    pub decoded :
        decoded_audio_verdict server_summary server_audio client_audio codec ≡ passed unjudged

-- Two tests of one statement give the same.
decided_alike {ℓ} : {P : Type ℓ} (a b : Bool) → (a ≡ true) ↔ P → (b ≡ true) ↔ P → a ≡ b
decided_alike true true h k = refl
decided_alike false false h k = refl
decided_alike true false h k = sym (k.1 (h.0 refl))
decided_alike false true h k = h.1 (k.0 refl)

agrees-same :
    (o : Option String) (codec : String)
    → (agrees o codec ≡ true) ↔ ((other : String) → o ≡ some other → other ≡ codec)
agrees-same none codec = (λ h other e. cc, λ h. refl)
agrees-same (some s) codec = (
  λ h other e. sym (some-injective s other e) ∙ (eq_iff s codec).0 h,
  λ h. (eq_iff s codec).1 (h s refl),
)

module _ ⦃py : Python⦄ (server_summary client_summary : Fields) (codec : String) where
  IsDelivered-IsTransported :
      (has_header : Bool) (unjudged : Option Unjudged)
      (d : IsDelivered server_summary client_summary codec unjudged)
      → has_headers server_summary client_summary d.server_audio ≡ has_header
      → IsTransported server_summary client_summary codec has_header unjudged
  IsDelivered-IsTransported has_header unjudged d same = record {
    server_ok = d.server_ok;
    client_ok = d.client_ok;
    negotiated = (stream_codec-HasCodec server_summary codec).0 d.negotiated;
    observed = λ other h.
        (agrees-same (stream_codec client_summary) codec).0 d.observed other
          ((stream_codec-HasCodec client_summary other).1 h);
    server_audio = d.server_audio;
    client_audio = d.client_audio;
    server_section = d.server_section;
    client_section = d.client_section;
    sent_count = d.sent_count;
    received_count = d.received_count;
    sent_counted = d.sent_counted;
    received_counted = d.received_counted;
    some_sent = d.some_sent;
    some_received = d.some_received;
    hash = d.hash;
    sent_hash = (filled_text-IsFilled _ d.hash).0 d.sent_hash;
    received_hash = (filled_text-IsFilled _ d.hash).0 d.received_hash;
    same_header =
        (header_difference-SameHeader server_summary d.server_audio client_summary).0 d.same_header;
    noted =
        subst (λ b. (b ≡ true) ↔ HasBoth server_summary d.server_audio client_summary) same
          (has_headers-HasBoth server_summary client_summary d.server_audio);
    decoded = d.decoded;
  }

  IsTransported-IsDelivered :
      (has_header : Bool) (unjudged : Option Unjudged)
      → IsTransported server_summary client_summary codec has_header unjudged
      → (d : IsDelivered server_summary client_summary codec unjudged) × (has_headers server_summary
            client_summary d.server_audio
          ≡ has_header)
  IsTransported-IsDelivered has_header unjudged d = (
    record {
      server_ok = d.server_ok;
      client_ok = d.client_ok;
      negotiated = (stream_codec-HasCodec server_summary codec).1 d.negotiated;
      observed =
          (agrees-same (stream_codec client_summary) codec).1
            (λ other e. d.observed other ((stream_codec-HasCodec client_summary other).0 e));
      server_audio = d.server_audio;
      client_audio = d.client_audio;
      server_section = d.server_section;
      client_section = d.client_section;
      sent_count = d.sent_count;
      received_count = d.received_count;
      sent_counted = d.sent_counted;
      received_counted = d.received_counted;
      some_sent = d.some_sent;
      some_received = d.some_received;
      hash = d.hash;
      sent_hash =
          (filled_text-IsFilled (get "sent_encoded_sha256" d.server_audio) d.hash).1 d.sent_hash;
      received_hash =
          (filled_text-IsFilled (get "received_encoded_sha256" d.client_audio) d.hash).1
            d.received_hash;
      same_header =
          (header_difference-SameHeader server_summary d.server_audio client_summary).1
            d.same_header;
      decoded = d.decoded;
    },
    decided_alike (has_headers server_summary client_summary d.server_audio) has_header
        (has_headers-HasBoth server_summary client_summary d.server_audio) d.noted,
  )

  -- The comparison of the mode "audio-encoded-bytes" passes exactly when both adapters report the
  -- status ok, the server's stream is of the codec and the client's of no other one, both counted at
  -- least one chunk, both report the same text as the hash of the encoded bytes, which is not empty,
  -- the hashes of the codec header are the same where both sides have one that is not empty, the
  -- note says whether both have, and the decoded audio was not judged for the reason that the note
  -- names, or held where it names none. A side's hash of the header is the one of its own key, or
  -- else the hash of the header that its stream records.
  pub compare_encoded-passed_iff :
      (has_header : Bool) (unjudged : Option Unjudged)
      → (compare_encoded_audio_summaries server_summary client_summary codec
          ≡ passed (encoded_matches codec has_header unjudged))
        ↔ IsTransported server_summary client_summary codec has_header unjudged
  compare_encoded-passed_iff has_header unjudged =
      let guards =
        compare_encoded-guards_iff server_summary client_summary codec has_header unjudged in
      (
        λ h. let (d, same) = guards.0 h in IsDelivered-IsTransported has_header unjudged d same,
        λ h. guards.1 (IsTransported-IsDelivered has_header unjudged h),
      )
