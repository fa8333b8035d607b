-- ===== src/Framing/Verdict/Guards.antt =====
-- The guards of chunk_framing_verdict in src/conformance/chunk_framing.py, one by one.
use conformance.Prelude.{
  ℕ, ◌+◌, ◌≡◌, refl, ap, ◌↔◌, inl, inr, true, Option, none, some, List, [], ◌∷◌, arith, str_eq,
  eq_iff, ◌==◌, if◌then◌else◌, ==_iff, Bool-cases, Option-cases, length, All, clash,
}
use mathlib.Core.Option
use mathlib.Core.Option.{some-injective}
use conformance.Json.{Value, null, str, obj, Fields, get, is_text}
use conformance.Framing.Frames.{Frame}
use conformance.Framing.Header.{
  Role, server, client, HasHeader, header_violation, header_violation-none_iff,
}
use conformance.Framing.Verdict.{
  audio_chunk_type, FramingFailure, bad_header, FramingFinding, FramingVerdict, passed, ◌>>◌,
  first_byte, other_type, server_header_failure, same_bytes, same_frame, disagreement,
  status_failure,
}

abbrev pub IsAudioChunk : Frame → Type 0
IsAudioChunk f = first_byte f.leading ≡ audio_chunk_type

-- The frames at the same place have the same number of bytes and the same leading bytes, and there
-- are as many of the one as of the other.
abbrev pub Agree : List Frame → List Frame → Type 0
Agree [] [] = Unit
Agree (f ∷ fs) (g ∷ gs) = ((f.byte_count ≡ g.byte_count) × (f.leading ≡ g.leading)) × Agree fs gs
Agree _ _ = ⊥

pub guard_iff :
    (g : Option FramingFailure) (rest : FramingVerdict) (found : FramingFinding)
    → ((g >> rest) ≡ passed found) ↔ ((g ≡ none) × (rest ≡ passed found))
guard_iff none rest found = (λ h. (refl, h), λ h. h.1)
guard_iff (some reason) rest found = (λ h. cc, λ h. cc)

pub other_type-none_iff :
    (total index : ℕ) (fs : List Frame) → (other_type total index fs ≡ none) ↔ All IsAudioChunk fs
unfolding other_type
other_type-none_iff total index [] = (λ h. tt, λ h. refl)
other_type-none_iff total index (f ∷ fs) =
    let rest = other_type-none_iff total (index + 1) fs in
    let same = ==_iff (first_byte f.leading) audio_chunk_type in
    elim (Bool-cases (first_byte f.leading == audio_chunk_type)) [
      | inl right ↦ rw (right, other_type) (λ h. (same.0 right, rest.0 h), λ h. rest.1 h.1)
      | inr wrong ↦ rw wrong (λ h. cc, λ h. absurd (clash (same.1 h.0) wrong))
    ]

pub server_header_failure-none_iff :
    (stated : Value) (fs : List Frame) → (server_header_failure stated fs ≡ none) ↔ All HasHeader fs
unfolding server_header_failure
server_header_failure-none_iff stated fs =
    let both = header_violation-none_iff server fs in
    elim (Option-cases (header_violation server fs)) [
      | inl fine ↦ rw (fine, server_header_failure) (λ h. both.0 fine, λ h. refl)
      | inr (v, bad) ↦ rw (bad, server_header_failure) (λ h. cc, λ h. cc (bad, both.1 h))
    ]

pub client_header-none_iff :
    (fs : List Frame)
    → (Option.map (λ v. bad_header v none) (header_violation client fs) ≡ none) ↔ All HasHeader fs
client_header-none_iff fs =
    let both = header_violation-none_iff client fs in
    elim (Option-cases (header_violation client fs)) [
      | inl fine ↦ rw fine (λ h. both.0 fine, λ h. refl)
      | inr (v, bad) ↦ rw bad (λ h. cc, λ h. cc (bad, both.1 h))
    ]

same_bytes_iff : (bs cs : List ℕ) → (same_bytes bs cs ≡ true) ↔ (bs ≡ cs)
same_bytes_iff [] [] = (λ h. refl, λ h. refl)
same_bytes_iff [] (c ∷ cs) = (λ h. cc, λ h. cc)
same_bytes_iff (b ∷ bs) [] = (λ h. cc, λ h. cc)
same_bytes_iff (b ∷ bs) (c ∷ cs) =
    let first = ==_iff b c in
    let rest = same_bytes_iff bs cs in
    elim (Bool-cases (b == c)) [
      | inl same ↦ rw same (λ h. cc (first.0 same, rest.0 h), λ h. rest.1 (cc))
      | inr other ↦ rw other (λ h. cc, λ h. absurd (clash (first.1 (cc)) other))
    ]

same_frame_iff :
    (f g : Frame)
    → (same_frame f g ≡ true) ↔ ((f.byte_count ≡ g.byte_count) × (f.leading ≡ g.leading))
same_frame_iff f g =
    let count = ==_iff f.byte_count g.byte_count in
    let bytes = same_bytes_iff f.leading g.leading in
    elim (Bool-cases (f.byte_count == g.byte_count)) [
      | inl same ↦ rw same (λ h. (count.0 same, bytes.0 h), λ h. bytes.1 h.1)
      | inr other ↦ rw other (λ h. cc, λ h. absurd (clash (count.1 h.0) other))
    ]

pub disagreement-none_iff :
    (total index : ℕ) (fs gs : List Frame)
    → ((length gs ≡ length fs) × (disagreement total index fs gs ≡ none)) ↔ Agree fs gs
unfolding disagreement
disagreement-none_iff total index [] [] = (λ h. tt, λ h. (refl, refl))
disagreement-none_iff total index [] (g ∷ gs) = (λ h. absurd (omega (arith, h.0)), λ h. absurd h)
disagreement-none_iff total index (f ∷ fs) [] = (λ h. absurd (omega (arith, h.0)), λ h. absurd h)
disagreement-none_iff total index (f ∷ fs) (g ∷ gs) =
    let rest = disagreement-none_iff total (index + 1) fs gs in
    let one = same_frame_iff f g in
    elim (Bool-cases (same_frame f g)) [
      | inl same ↦
          rw (same, disagreement)
            (
              λ h. (one.0 same, rest.0 (omega (arith, h.0), h.1)),
              λ h. let k = rest.1 h.1 in (omega (arith, k.0), k.1),
            )
      | inr other ↦ rw other (λ h. cc (h.1), λ h. absurd (clash (one.1 h.0) other))
    ]

pub status_failure-none_iff :
    (role : Role) (summary : Fields)
    → (status_failure role summary ≡ none) ↔ (get "status" summary ≡ str "ok")
status_failure-none_iff role summary = decided (get "status" summary)
  where
    decided :
        (v : Value)
        → ((if is_text "ok" v then none else some (FramingFailure.status role v)) ≡ none)
          ↔ (v ≡ str "ok")
    decided (str s) = elim (Bool-cases (str_eq s "ok")) [
      | inl ok ↦ rw ok (λ h. ap str ((eq_iff s "ok").0 ok), λ h. refl)
      | inr other ↦ rw other (λ h. cc, λ h. absurd (clash ((eq_iff s "ok").1 (text h)) other))
    ]
      where
        text : str s ≡ str "ok" → s ≡ "ok"
        text h = cc
    decided null = (λ h. cc, λ h. cc)
    decided (Value.bool b) = (λ h. cc, λ h. cc)
    decided (Value.int n) = (λ h. cc, λ h. cc)
    decided (Value.real r) = (λ h. cc, λ h. cc)
    decided (Value.arr vs) = (λ h. cc, λ h. cc)
    decided (obj o) = (λ h. cc, λ h. cc)
