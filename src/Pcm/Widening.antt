-- ===== src/Pcm/Widening.antt =====
-- src/conformance/pcm.py: a wider form of the same samples has the same canonical values, and what
-- number of bytes is refused.
use conformance.Prelude.{
  ℕ, suc, ◌+◌, ◌-◌, ◌*◌, ◌%◌, ◌<◌, ◌≡◌, refl, ap, ◌≢◌, ◌↔◌, inl, inr, true, false, Option, none,
  some, List, [], ◌∷◌, arith, ltb, Bool-cases, ◌>>=◌, length, All, ℤ, pos, negsuc, ◌*ℤ◌, neg_ℕ,
}
use conformance.Pcm.{sample_16, sample_24, sample_32, unpack_16, unpack_24, unpack_32, pcm_floats}

abbrev pub IsOctet : ℕ → Type 0
IsOctet b = b < 256

-- A wider form of the same samples: a zero byte below the bytes of each one.
abbrev pub widened_16 : List ℕ → List ℕ
widened_16 [] = []
widened_16 (a ∷ []) = a ∷ []
widened_16 (a ∷ b ∷ rest) = 0 ∷ a ∷ b ∷ widened_16 rest

abbrev pub widened_24 : List ℕ → List ℕ
widened_24 [] = []
widened_24 (a ∷ []) = a ∷ []
widened_24 (a ∷ b ∷ []) = a ∷ b ∷ []
widened_24 (a ∷ b ∷ c ∷ rest) = 0 ∷ a ∷ b ∷ c ∷ widened_24 rest

sample_24-widened :
    (a b : ℕ) → IsOctet a → IsOctet b → sample_24 0 a b *ℤ pos 256 ≡ sample_16 a b *ℤ pos 65536
sample_24-widened a b h k = elim (Bool-cases (ltb (a + 256 * b) 32768)) [
  | inl low ↦
      let low' : ltb (0 + 256 * a + 65536 * b) 8388608 ≡ true = ground (arith, low) in
      rw (low, low') (ap pos (omega arith))
  | inr high ↦
      let high' : ltb (0 + 256 * a + 65536 * b) 8388608 ≡ false = ground (arith, high) in
      rw (high, high') (ap neg_ℕ (ground (arith, high)))
]

sample_32-widened :
    (a b c : ℕ) → IsOctet a → IsOctet b → IsOctet c → sample_32 0 a b c ≡ sample_24 a b c *ℤ pos 256
sample_32-widened a b c h k l = elim (Bool-cases (ltb (a + 256 * b + 65536 * c) 8388608)) [
  | inl low ↦
      let low' : ltb (0 + 256 * a + 65536 * b + 16777216 * c) 2147483648 ≡ true =
        ground (arith, low) in
      rw (low, low') (ap pos (omega arith))
  | inr high ↦
      let high' : ltb (0 + 256 * a + 65536 * b + 16777216 * c) 2147483648 ≡ false =
        ground (arith, high) in
      rw (high, high')
        (negative (a + 256 * b + 65536 * c) (0 + 256 * a + 65536 * b + 16777216 * c) (omega arith)
          (omega arith))
]
  where
    negative :
        (n m : ℕ)
        → m ≡ 256 * n
        → n < 16777216
        → negsuc (2 * 2147483648 - 1 - m) ≡ neg_ℕ (suc (2 * 8388608 - 1 - n) * 256)
    negative n m e h =
        let scaled : suc (2 * 2147483648 - 1 - m) ≡ suc (2 * 8388608 - 1 - n) * 256 =
          omega (arith, e, h) in
        ap neg_ℕ scaled

-- The 24-bit form of 16-bit samples, a zero byte below each, has the same canonical values, and
-- raises where the 16-bit form does.
pub pcm_floats-widened_16 :
    (pcm_bytes : List ℕ)
    → All IsOctet pcm_bytes
    → pcm_floats (widened_16 pcm_bytes) 24 ≡ pcm_floats pcm_bytes 16
unfolding pcm_floats
pcm_floats-widened_16 pcm_bytes h = same pcm_bytes h
  where
    same : (bs : List ℕ) → All IsOctet bs → unpack_24 (widened_16 bs) ≡ unpack_16 bs
    same [] h = refl
    same (a ∷ []) h = refl
    same (a ∷ b ∷ rest) h = rw (same rest h.1.1, sample_24-widened a b h.0 h.1.0) refl

-- The 32-bit form of 24-bit samples, a zero byte below each, has the same canonical values, and
-- raises where the 24-bit form does.
pub pcm_floats-widened_24 :
    (pcm_bytes : List ℕ)
    → All IsOctet pcm_bytes
    → pcm_floats (widened_24 pcm_bytes) 32 ≡ pcm_floats pcm_bytes 24
unfolding pcm_floats
pcm_floats-widened_24 pcm_bytes h = same pcm_bytes h
  where
    same : (bs : List ℕ) → All IsOctet bs → unpack_32 (widened_24 bs) ≡ unpack_24 bs
    same [] h = refl
    same (a ∷ []) h = refl
    same (a ∷ b ∷ []) h = refl
    same (a ∷ b ∷ c ∷ rest) h =
        rw (same rest h.1.1.1, sample_32-widened a b c h.0 h.1.0 h.1.1.0) refl

-- Bytes raise exactly when they are no whole number of samples, at each of the three depths.
pub pcm_floats-none_iff :
    (pcm_bytes : List ℕ)
    → ((pcm_floats pcm_bytes 16 ≡ none) ↔ (length pcm_bytes % 2 ≢ 0))
      × ((pcm_floats pcm_bytes 24 ≡ none) ↔ (length pcm_bytes % 3 ≢ 0))
      × ((pcm_floats pcm_bytes 32 ≡ none) ↔ (length pcm_bytes % 4 ≢ 0))
unfolding pcm_floats
pcm_floats-none_iff pcm_bytes = (two pcm_bytes, three pcm_bytes, four pcm_bytes)
  where
    bound-none_iff :
        (o : Option (List ℤ)) (s : ℤ) → ((o >>= λ samples. some (s ∷ samples)) ≡ none) ↔ (o ≡ none)
    bound-none_iff none s = (λ h. refl, λ h. refl)
    bound-none_iff (some samples) s = (λ h. cc, λ h. cc)

    two : (bs : List ℕ) → (unpack_16 bs ≡ none) ↔ (length bs % 2 ≢ 0)
    two [] = (λ h. cc, λ h. absurd (h refl))
    two (a ∷ []) = (λ h e. cc, λ h. refl)
    two (a ∷ b ∷ rest) =
        let bound = bound-none_iff (unpack_16 rest) (sample_16 a b *ℤ pos 65536) in
        let later = two rest in
        (
          λ h e. later.0 (bound.0 h) (omega (arith, e)),
          λ h. bound.1 (later.1 (λ e. h (omega (arith, e)))),
        )

    three : (bs : List ℕ) → (unpack_24 bs ≡ none) ↔ (length bs % 3 ≢ 0)
    three [] = (λ h. cc, λ h. absurd (h refl))
    three (a ∷ []) = (λ h e. cc, λ h. refl)
    three (a ∷ b ∷ []) = (λ h e. cc, λ h. refl)
    three (a ∷ b ∷ c ∷ rest) =
        let bound = bound-none_iff (unpack_24 rest) (sample_24 a b c *ℤ pos 256) in
        let later = three rest in
        (
          λ h e. later.0 (bound.0 h) (omega (arith, e)),
          λ h. bound.1 (later.1 (λ e. h (omega (arith, e)))),
        )

    four : (bs : List ℕ) → (unpack_32 bs ≡ none) ↔ (length bs % 4 ≢ 0)
    four [] = (λ h. cc, λ h. absurd (h refl))
    four (a ∷ []) = (λ h e. cc, λ h. refl)
    four (a ∷ b ∷ []) = (λ h e. cc, λ h. refl)
    four (a ∷ b ∷ c ∷ []) = (λ h e. cc, λ h. refl)
    four (a ∷ b ∷ c ∷ d ∷ rest) =
        let bound = bound-none_iff (unpack_32 rest) (sample_32 a b c d) in
        let later = four rest in
        (
          λ h e. later.0 (bound.0 h) (omega (arith, e)),
          λ h. bound.1 (later.1 (λ e. h (omega (arith, e)))),
        )
