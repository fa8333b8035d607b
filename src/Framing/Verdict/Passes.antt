-- ===== src/Framing/Verdict/Passes.antt =====
-- When chunk_framing_verdict of src/conformance/chunk_framing.py passes.
use conformance.Prelude.{
  ◌<◌, ◌≡◌, refl, sym, ◌↔◌, inl, inr, none, some, List, [], ◌∷◌, arith, Option-cases, length, All,
}
use conformance.Json.{Value, null, str, obj, Fields, get, Unicode}
use conformance.Framing.Frames.{Frame, transported_frames}
use conformance.Framing.Header.{server, client, HasHeader}
use conformance.Framing.Durations.{DurationFinding, held, chunk_durations_verdict}
use conformance.Framing.Verdict.{
  FramingFinding, passed, ◌>>◌, other_type, server_header_failure, after_durations, status_failure,
  judge_sent, judge_server, chunk_framing_verdict,
}
use conformance.Framing.Verdict.Guards.{
  IsAudioChunk, guard_iff, other_type-none_iff, server_header_failure-none_iff,
  status_failure-none_iff,
}
use conformance.Framing.Verdict.Receipt.{IsReceived, after_durations_iff}

module _ ⦃u : Unicode⦄ where
  -- The server recorded at least one frame, each of message type 4 and with the header of RC1, the
  -- durations hold, and the client received them.
  pub record IsSent (server_summary : Fields) (server_audio client_audio : Value)
      (found : FramingFinding) : Type 0 where
    pub audio : Fields
    pub section : server_audio ≡ obj audio
    pub sent : List Frame
    pub read : transported_frames (get "sent_chunk_frames" audio) ≡ some sent
    pub some_sent : 0 < length sent
    pub typed : All IsAudioChunk sent
    pub headers : All HasHeader sent
    pub durations : DurationFinding
    pub durations_held : chunk_durations_verdict server_summary audio sent ≡ held durations
    pub received : IsReceived client_audio sent durations found

  abbrev Parts : Fields → Fields → Value → List Frame → FramingFinding → Type 0
  Parts server_summary audio client_audio sent found =
      (0 < length sent)
      × All IsAudioChunk sent
      × All HasHeader sent
      × ((durations : DurationFinding) × (chunk_durations_verdict server_summary audio sent
            ≡ held durations)
          × IsReceived client_audio sent durations found)

  judge_sent_iff :
      (server_summary audio : Fields) (client_audio : Value) (sent : List Frame)
      (found : FramingFinding)
      → (judge_sent server_summary audio client_audio (some sent) ≡ passed found)
        ↔ Parts server_summary audio client_audio sent found
  unfolding judge_sent
  judge_sent_iff server_summary audio client_audio [] found =
      (λ h. cc, λ h. absurd (omega (arith, h.0)))
  judge_sent_iff server_summary audio client_audio (f ∷ fs) found =
      let sent = f ∷ fs in
      let verdict = chunk_durations_verdict server_summary audio sent in
      let stated = get "legacy_header_reason" audio in
      let last = after_durations client_audio sent verdict in
      let typed = other_type-none_iff (length sent) 1 sent in
      let headers = server_header_failure-none_iff stated sent in
      let first =
        guard_iff (other_type (length sent) 1 sent) (server_header_failure stated sent >> last)
          found in
      let second = guard_iff (server_header_failure stated sent) last found in
      let third = after_durations_iff client_audio sent verdict found in
      (
        λ h.
            let k = second.0 (first.0 h).1 in
            (omega arith, typed.0 (first.0 h).0, headers.0 k.0, third.0 k.1),
        λ h. first.1 (typed.1 h.1, second.1 (headers.1 h.2, third.1 h.3)),
      )

  judge_server_iff :
      (server_summary : Fields) (server_audio client_audio : Value) (found : FramingFinding)
      → (judge_server server_summary server_audio client_audio ≡ passed found)
        ↔ IsSent server_summary server_audio client_audio found
  unfolding judge_server judge_sent
  judge_server_iff server_summary (obj audio) client_audio found =
      elim (Option-cases (transported_frames (get "sent_chunk_frames" audio))) [
        | inl bad ↦ (λ h. cc (rw (bad, judge_sent) at h), λ h. absurd (unread h bad))
        | inr (sent, good) ↦
            let both = judge_sent_iff server_summary audio client_audio sent found in
            (
              λ h.
                  let k = both.0 (rw (good, judge_sent) at h) in
                  record {
                    audio = audio;
                    section = refl;
                    sent = sent;
                    read = good;
                    some_sent = k.0;
                    typed = k.1;
                    headers = k.2;
                    durations = k.3.0;
                    durations_held = k.3.1;
                    received = k.3.2;
                  },
              λ h. rw (good, judge_sent) (both.1 (about sent good h)),
            )
      ]
    where
      same : (h : IsSent server_summary (obj audio) client_audio found) → h.audio ≡ audio
      same h = let e = h.section in cc (e)

      read :
          (h : IsSent server_summary (obj audio) client_audio found)
          → transported_frames (get "sent_chunk_frames" audio) ≡ some h.sent
      read h = rw (sym (same h)) h.read

      unread :
          IsSent server_summary (obj audio) client_audio found
          → transported_frames (get "sent_chunk_frames" audio) ≡ none
          → ⊥
      unread h bad = let e = read h in cc (e, bad)

      about :
          (sent : List Frame)
          → transported_frames (get "sent_chunk_frames" audio) ≡ some sent
          → IsSent server_summary (obj audio) client_audio found
          → Parts server_summary audio client_audio sent found
      about sent good h =
          let e : h.sent ≡ sent = let e = read h in cc (e, good) in
          rw (sym e, sym (same h))
            (h.some_sent, h.typed, h.headers, (h.durations, h.durations_held, h.received))
  judge_server_iff server_summary null client_audio found =
      (λ h. cc, λ h. absurd (let e = h.section in cc (e)))
  judge_server_iff server_summary (Value.bool b) client_audio found =
      (λ h. cc, λ h. absurd (let e = h.section in cc (e)))
  judge_server_iff server_summary (Value.int n) client_audio found =
      (λ h. cc, λ h. absurd (let e = h.section in cc (e)))
  judge_server_iff server_summary (Value.real r) client_audio found =
      (λ h. cc, λ h. absurd (let e = h.section in cc (e)))
  judge_server_iff server_summary (str s) client_audio found =
      (λ h. cc, λ h. absurd (let e = h.section in cc (e)))
  judge_server_iff server_summary (Value.arr vs) client_audio found =
      (λ h. cc, λ h. absurd (let e = h.section in cc (e)))

  -- The case passes exactly when both adapters report the status ok, the server recorded at least
  -- one frame, each frame that it recorded is of message type 4 and has a header of 13 bytes, the
  -- durations of the chunks hold, the client recorded as many frames, with the same sizes and the
  -- same leading bytes and each with a header of 13 bytes, and the finding is about the frames sent.
  pub chunk_framing_verdict-passed_iff :
      (server_summary client_summary : Fields) (found : FramingFinding)
      → (chunk_framing_verdict server_summary client_summary ≡ passed found) ↔ (
          (get "status" server_summary ≡ str "ok")
          × (get "status" client_summary ≡ str "ok")
          × IsSent server_summary (get "audio" server_summary) (get "audio" client_summary) found)
  unfolding chunk_framing_verdict
  chunk_framing_verdict-passed_iff server_summary client_summary found =
      let last =
        judge_server server_summary (get "audio" server_summary) (get "audio" client_summary) in
      let second = guard_iff (status_failure client client_summary) last found in
      let first =
        guard_iff (status_failure server server_summary)
          (status_failure client client_summary >> last) found in
      let server_ok = status_failure-none_iff server server_summary in
      let client_ok = status_failure-none_iff client client_summary in
      let judged =
        judge_server_iff server_summary (get "audio" server_summary) (get "audio" client_summary)
          found in
      (
        λ h.
            let k = second.0 (first.0 h).1 in
            (server_ok.0 (first.0 h).0, client_ok.0 k.0, judged.0 k.1),
        λ h. first.1 (server_ok.1 h.0, second.1 (client_ok.1 h.1, judged.1 h.2)),
      )
