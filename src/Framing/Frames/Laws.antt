-- ===== src/Framing/Frames/Laws.antt =====
-- What every frame that src/conformance/chunk_framing.py reads satisfies: its bytes and its bounds.
use conformance.Prelude.{
  ℕ, ◌+◌, ◌*◌, ◌≤◌, ◌<◌, min, ◌≡◌, inl, inr, false, not, ◌||◌, Option, none, some, List, [], ◌∷◌,
  arith, ◌==◌, if◌then◌else◌, ==_iff, Bool-cases, Option-cases, length, is_empty, All,
}
use mathlib.Core.Path.{subst}
use mathlib.Core.Option.{some-injective}
use conformance.Json.{Value, null, int, obj, arr, items, get, as_text}
use conformance.Framing.Frames.{
  header_bytes, codes, is_space, hex_digit, hex_byte, unhex, Frame, count, exceeds, record_frame,
  record_frames, transported_frames,
}

abbrev pub IsByte : ℕ → Type 0
IsByte b = b < 256

hex_digit-lt : (c n : ℕ) → hex_digit c ≡ some n → n < 16
unfolding hex_digit
hex_digit-lt c n h = ground arith

hex_byte-IsByte : (c d b : ℕ) → hex_byte c d ≡ some b → IsByte b
unfolding hex_byte
hex_byte-IsByte c d b h = elim (Option-cases (hex_digit c)) [
  | inl bad ↦ cc (rw bad at h)
  | inr (hi, good) ↦ elim (Option-cases (hex_digit d)) [
    | inl bad ↦ cc (rw (good, bad) at h)
    | inr (lo, fine) ↦
        let e : 16 * hi + lo ≡ b = some-injective (16 * hi + lo) b (rw (good, fine) at h) in
        omega (arith, hex_digit-lt c hi good, hex_digit-lt d lo fine)
  ]
]

unhex-IsByte : (cs bs : List ℕ) → unhex cs ≡ some bs → All IsByte bs
unfolding unhex
unhex-IsByte [] bs h = subst (All IsByte) (some-injective [] bs h) tt
unhex-IsByte (c ∷ []) bs h = elim (Bool-cases (is_space c)) [
  | inl space ↦ subst (All IsByte) (some-injective [] bs (rw space at h)) tt
  | inr other ↦ cc (rw other at h)
]
unhex-IsByte (c ∷ d ∷ cs) bs h = elim (Bool-cases (is_space c)) [
  | inl space ↦ unhex-IsByte (d ∷ cs) bs (rw (space, unhex) at h)
  | inr other ↦ elim (Option-cases (hex_byte c d)) [
    | inl bad ↦ cc (rw (other, unhex, bad) at h)
    | inr (b, good) ↦ elim (Option-cases (unhex cs)) [
      | inl bad ↦ cc (rw (other, unhex, good, bad) at h)
      | inr (rest, fine) ↦
          subst (All IsByte) (some-injective (b ∷ rest) bs (rw (other, unhex, good, fine) at h))
            (hex_byte-IsByte c d b good, unhex-IsByte cs rest fine)
    ]
  ]
]

-- What a frame that was read satisfies: its leading bytes are the first 13 bytes, or all of them
-- where it has fewer, and it carries no more audio than bytes.
record IsWhole (f : Frame) : Type 0 where
  pub bytes : All IsByte f.leading
  pub some_bytes : 0 < f.byte_count
  pub leading_length : length f.leading ≡ min f.byte_count header_bytes
  pub payload_fits : (n : ℕ) → f.payload_byte_count ≡ some n → n ≤ f.byte_count

abbrev built : ℕ → List ℕ → Option ℕ → Frame
built n bs p = record { byte_count = n; leading = bs; payload_byte_count = p }

built-IsWhole :
    (n : ℕ) (bs : List ℕ) (p : Option ℕ)
    → All IsByte bs
    → is_empty bs ≡ false
    → length bs ≡ min n header_bytes
    → exceeds p n ≡ false
    → IsWhole (built n bs p)
built-IsWhole n [] p h e l x = cc
built-IsWhole n (b ∷ bs) p h e l x = record {
  bytes = h;
  some_bytes = omega arith;
  leading_length = l;
  payload_fits = λ m k. fits p x m k;
}
  where
    fits : (p : Option ℕ) → exceeds p n ≡ false → (m : ℕ) → p ≡ some m → m ≤ n
    fits none x m k = cc
    fits (some q) x m k = let e = some-injective q m k in ground arith

record_frame-IsWhole : (v : Value) (f : Frame) → record_frame v ≡ some f → IsWhole f
unfolding record_frame
record_frame-IsWhole (obj fields) f h = elim (Option-cases (count (get "byte_count" fields))) [
  | inl bad ↦ cc (rw bad at h)
  | inr (n, e) ↦ elim (Option-cases (as_text (get "leading_hex" fields))) [
    | inl bad ↦ cc (rw (e, bad) at h)
    | inr (text, t) ↦ elim (Option-cases (unhex (codes text))) [
      | inl bad ↦ cc (rw (e, t, bad) at h)
      | inr (bs, good) ↦
          checked n bs (count (get "payload_byte_count" fields)) (unhex-IsByte (codes text) bs good)
            (rw (e, t, good) at h)
    ]
  ]
]
  where
    checked :
        (n : ℕ) (bs : List ℕ) (p : Option ℕ)
        → All IsByte bs
        → (if is_empty bs || not (length bs == min n header_bytes)
            then none
            else if exceeds p n
            then none
            else some (built n bs p))
          ≡ some f
        → IsWhole f
    checked n bs p all_bytes h = elim (Bool-cases (is_empty bs)) [
      | inl bad ↦ cc (rw bad at h)
      | inr some_byte ↦ elim (Bool-cases (length bs == min n header_bytes)) [
        | inr bad ↦ cc (rw (some_byte, bad) at h)
        | inl same ↦ elim (Bool-cases (exceeds p n)) [
          | inl bad ↦ cc (rw (some_byte, same, bad) at h)
          | inr fits ↦
              subst IsWhole (some-injective (built n bs p) f (rw (some_byte, same, fits) at h)) (
                built-IsWhole n bs p all_bytes some_byte
                  ((==_iff (length bs) (min n header_bytes)).0 same) fits)
        ]
      ]
    ]
record_frame-IsWhole null f h = cc
record_frame-IsWhole (Value.bool b) f h = cc
record_frame-IsWhole (int n) f h = cc
record_frame-IsWhole (Value.real r) f h = cc
record_frame-IsWhole (Value.str s) f h = cc
record_frame-IsWhole (arr vs) f h = cc

-- Every frame that is read from a summary holds bytes, has at least one byte, has all its first 13
-- bytes (or all its bytes, where it has fewer) as its leading bytes, and carries no more audio than
-- bytes.
transported_frames-IsWhole :
    (v : Value) (fs : List Frame) → transported_frames v ≡ some fs → All IsWhole fs
unfolding transported_frames record_frames
transported_frames-IsWhole (arr vs) fs h = all_whole (items vs) fs h
  where
    all_whole : (vs : List Value) (fs : List Frame) → record_frames vs ≡ some fs → All IsWhole fs
    all_whole [] fs h = subst (All IsWhole) (some-injective [] fs h) tt
    all_whole (v ∷ vs) fs h = elim (Option-cases (record_frame v)) [
      | inl bad ↦ cc (rw bad at h)
      | inr (f, good) ↦ elim (Option-cases (record_frames vs)) [
        | inl bad ↦ cc (rw (good, bad) at h)
        | inr (rest, fine) ↦
            subst (All IsWhole) (some-injective (f ∷ rest) fs (rw (good, fine) at h))
              (record_frame-IsWhole v f good, all_whole vs rest fine)
      ]
    ]
transported_frames-IsWhole null fs h = cc
transported_frames-IsWhole (Value.bool b) fs h = cc
transported_frames-IsWhole (int n) fs h = cc
transported_frames-IsWhole (Value.real r) fs h = cc
transported_frames-IsWhole (Value.str s) fs h = cc
transported_frames-IsWhole (obj o) fs h = cc
