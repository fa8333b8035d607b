-- ===== src/Framing/Header.antt =====
-- src/conformance/chunk_framing.py: _header_violation, whether frames carry the header of RC1.
use conformance.Prelude.{
  ℕ, suc, ◌≡◌, refl, ap, ◌↔◌, inl, inr, Bool, true, false, not, Option, none, some, List, [], ◌∷◌,
  arith, ◌==◌, if◌then◌else◌, ==_iff, Bool-cases, Option-cases, length, is_empty, All, clash,
  is_empty→nil,
}
use mathlib.Core.Option.{some-injective}
use conformance.Framing.Frames.{Frame, frame_header_bytes, header_bytes}

pub data Role : Type 0 where
  server client : Role

-- The frames whose audio is not known, or the widths that are not the one required, with the number
-- of frames.
pub data HeaderViolation : Type 0 where
  unpaired_frames : Role → ℕ → ℕ → HeaderViolation
  wrong_widths : Role → List ℕ → ℕ → HeaderViolation

-- violation.startswith(HARNESS_GAP)
abbrev pub is_harness_gap : HeaderViolation → Bool
is_harness_gap (unpaired_frames role n total) = true
is_harness_gap (wrong_widths role widths total) = false

-- sum(frame.header_bytes is None for frame in frames)
unfoldable pub unpaired : List Frame → ℕ
unpaired [] = 0
unpaired (f ∷ fs) = elim (frame_header_bytes f) [ none ↦ suc (unpaired fs) | some n ↦ unpaired fs ]

abbrev pub keep_wrong : Option ℕ → List ℕ → List ℕ
keep_wrong none ws = ws
keep_wrong (some n) ws = if n == header_bytes then ws else n ∷ ws

-- The headers of another width, where every header is known.
unfoldable pub wrong : List Frame → List ℕ
wrong [] = []
wrong (f ∷ fs) = keep_wrong (frame_header_bytes f) (wrong fs)

unfoldable pub header_violation : Role → List Frame → Option HeaderViolation
unfolding unpaired wrong
header_violation role frames =
    if not (unpaired frames == 0)
    then some (unpaired_frames role (unpaired frames) (length frames))
    else if is_empty (wrong frames)
    then none
    else some (wrong_widths role (wrong frames) (length frames))

-- The frame carries 13 bytes beyond its audio.
abbrev pub HasHeader : Frame → Type 0
HasHeader f = frame_header_bytes f ≡ some header_bytes

frames_iff :
    (frames : List Frame) → ((unpaired frames ≡ 0) × (wrong frames ≡ [])) ↔ All HasHeader frames
unfolding unpaired wrong
frames_iff [] = (λ h. tt, λ h. (refl, refl))
frames_iff (f ∷ fs) =
    let rest = frames_iff fs in
    elim (Option-cases (frame_header_bytes f)) [
      | inl unknown ↦ rw (unknown, unpaired) (λ h. absurd (omega (arith, h.0)), λ h. cc)
      | inr (n, known) ↦ elim (Bool-cases (n == header_bytes)) [
        | inl right ↦
            rw (known, unpaired, right)
              (λ h. (ap some ((==_iff n header_bytes).0 right), rest.0 h), λ h. rest.1 h.1)
        | inr other ↦ rw (known, unpaired, other) (λ h. cc, λ h. absurd (differs n other h.0))
      ]
    ]
  where
    differs :
        (n : ℕ) → (n == header_bytes) ≡ false → ◌≡◌ {A = Option ℕ} (some n) (some header_bytes) → ⊥
    differs n other e = clash ((==_iff n header_bytes).1 (some-injective n header_bytes e)) other

-- No violation exactly when every frame is known to carry the header of 13 bytes.
pub header_violation-none_iff :
    (role : Role) (frames : List Frame)
    → (header_violation role frames ≡ none) ↔ All HasHeader frames
unfolding header_violation
header_violation-none_iff role frames =
    let both = frames_iff frames in
    elim (Bool-cases (unpaired frames == 0)) [
      | inr some_unknown ↦
          rw some_unknown (
            λ h. cc,
            λ h. absurd (clash ((==_iff (unpaired frames) 0).1 (both.1 h).0) some_unknown),
          )
      | inl known ↦ elim (Bool-cases (is_empty (wrong frames))) [
        | inl fine ↦
            rw (known, fine)
              (
                λ h.
                    both.0 ((==_iff (unpaired frames) 0).0 known, is_empty→nil (wrong frames) fine),
                λ h. refl,
              )
        | inr bad ↦ rw (known, bad) (λ h. cc, λ h. absurd (clash (ap is_empty (both.1 h).1) bad))
      ]
    ]
