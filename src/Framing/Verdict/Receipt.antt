-- ===== src/Framing/Verdict/Receipt.antt =====
-- src/conformance/chunk_framing.py: when the frames that the client received pass.
use conformance.Prelude.{
  ◌≡◌, refl, sym, ap, ◌↔◌, inl, inr, none, some, List, ◌==◌, ==_iff, Bool-cases, Option-cases,
  length, All, clash,
}
use mathlib.Core.Path.{subst}
use mathlib.Core.Option
use conformance.Json.{Value, null, str, obj, Fields, get}
use conformance.Framing.Frames.{Frame, transported_frames}
use conformance.Framing.Header.{client, HasHeader, header_violation}
use conformance.Framing.Durations.{DurationFinding, DurationVerdict, held, violated}
use conformance.Framing.Verdict.{
  bad_header, FramingFinding, passed, ◌>>◌, disagreement, framing_finding, judge_received,
  judge_client, after_durations,
}
use conformance.Framing.Verdict.Guards.{
  Agree, guard_iff, client_header-none_iff, disagreement-none_iff,
}

-- The client recorded the frames that were sent, with the header of RC1, and the finding is about them.
pub record IsReceived (client_audio : Value) (sent : List Frame) (durations : DurationFinding)
    (found : FramingFinding) : Type 0 where
  pub audio : Fields
  pub section : client_audio ≡ obj audio
  pub received : List Frame
  pub read : transported_frames (get "received_chunk_frames" audio) ≡ some received
  pub agree : Agree sent received
  pub headers : All HasHeader received
  pub finding : framing_finding durations sent ≡ found

passed-injective : (f g : FramingFinding) → passed f ≡ passed g → f ≡ g
passed-injective f g h = cc

given_iff :
    (audio : Fields) (sent received : List Frame) (durations : DurationFinding)
    (found : FramingFinding)
    → (judge_received audio sent durations (some received) ≡ passed found)
      ↔ (Agree sent received × All HasHeader received × (framing_finding durations sent ≡ found))
unfolding judge_received
given_iff audio sent received durations found =
    let result = passed (framing_finding durations sent) in
    let headers = client_header-none_iff received in
    let pairs = disagreement-none_iff (length sent) 1 sent received in
    let number = ==_iff (length received) (length sent) in
    let header = Option.map (λ v. bad_header v none) (header_violation client received) in
    let first = guard_iff (disagreement (length sent) 1 sent received) (header >> result) found in
    let second = guard_iff header result found in
    elim (Bool-cases (length received == length sent)) [
      | inl same ↦ rw same (
        λ h.
            let both = second.0 (first.0 h).1 in
            (
              pairs.0 (number.0 same, (first.0 h).0),
              headers.0 both.0,
              passed-injective (framing_finding durations sent) found both.1,
            ),
        λ h. first.1 ((pairs.1 h.0).1, second.1 (headers.1 h.1, ap passed h.2)),
      )
      | inr other ↦ rw other (λ h. cc, λ h. absurd (clash (number.1 (pairs.1 h.0).0) other))
    ]

judge_client_iff :
    (client_audio : Value) (sent : List Frame) (durations : DurationFinding)
    (found : FramingFinding)
    → (judge_client client_audio sent durations ≡ passed found)
      ↔ IsReceived client_audio sent durations found
unfolding judge_client judge_received
judge_client_iff (obj audio) sent durations found =
    elim (Option-cases (transported_frames (get "received_chunk_frames" audio))) [
      | inl bad ↦ (λ h. cc (rw (bad, judge_received) at h), λ h. absurd (unread h bad))
      | inr (received, good) ↦
          let both = given_iff audio sent received durations found in
          (
            λ h.
                let k = both.0 (rw (good, judge_received) at h) in
                record {
                  audio = audio;
                  section = refl;
                  received = received;
                  read = good;
                  agree = k.0;
                  headers = k.1;
                  finding = k.2;
                },
            λ h. rw (good, judge_received) (both.1 (about received good h)),
          )
    ]
  where
    same : (h : IsReceived (obj audio) sent durations found) → h.audio ≡ audio
    same h = let e = h.section in cc (e)

    read :
        (h : IsReceived (obj audio) sent durations found)
        → transported_frames (get "received_chunk_frames" audio) ≡ some h.received
    read h = rw (sym (same h)) h.read

    unread :
        (h : IsReceived (obj audio) sent durations found)
        → transported_frames (get "received_chunk_frames" audio) ≡ none
        → ⊥
    unread h bad = let e = read h in cc (e, bad)

    about :
        (received : List Frame)
        → transported_frames (get "received_chunk_frames" audio) ≡ some received
        → IsReceived (obj audio) sent durations found
        → Agree sent received × All HasHeader received × (framing_finding durations sent ≡ found)
    about received good h =
        let e : h.received ≡ received = let e = read h in cc (e, good) in
        rw (sym e) (h.agree, h.headers, h.finding)
judge_client_iff null sent durations found = (λ h. cc, λ h. absurd (let e = h.section in cc (e)))
judge_client_iff (Value.bool b) sent durations found =
    (λ h. cc, λ h. absurd (let e = h.section in cc (e)))
judge_client_iff (Value.int n) sent durations found =
    (λ h. cc, λ h. absurd (let e = h.section in cc (e)))
judge_client_iff (Value.real r) sent durations found =
    (λ h. cc, λ h. absurd (let e = h.section in cc (e)))
judge_client_iff (str s) sent durations found = (λ h. cc, λ h. absurd (let e = h.section in cc (e)))
judge_client_iff (Value.arr vs) sent durations found =
    (λ h. cc, λ h. absurd (let e = h.section in cc (e)))

pub after_durations_iff :
    (client_audio : Value) (sent : List Frame) (v : DurationVerdict) (found : FramingFinding)
    → (after_durations client_audio sent v ≡ passed found) ↔ (
        (durations : DurationFinding) × (v ≡ held durations)
        × IsReceived client_audio sent durations found)
unfolding after_durations
after_durations_iff client_audio sent (violated v) found = (λ h. cc, λ h. cc (h.1))
after_durations_iff client_audio sent DurationVerdict.raised found = (λ h. cc, λ h. cc (h.1))
after_durations_iff client_audio sent (held d) found =
    let both = judge_client_iff client_audio sent d found in
    (λ h. (d, refl, both.0 h), λ h. both.1 (same h))
  where
    same :
        ((durations : DurationFinding) × (held d ≡ held durations)
          × IsReceived client_audio sent durations found)
        → IsReceived client_audio sent d found
    same h =
        let e : h.0 ≡ d = let e = h.1 in cc (e) in
        subst (λ x. IsReceived client_audio sent x found) e h.2
